-- ===== src/Admin.antt =====
-- src/capeadmin.c: the events that the daemon sends to its supervisor.
pub mod Rounds
use pacemaker_cloud.Common.{
  ℕ, zero, suc, ◌+◌, ◌-◌, Bool, true, false, Option, none, some, List, [], ◌∷◌, ◌++◌, String, ℤ,
  pos, negsuc, ◌==◌, if◌then◌else◌,
}
use pacemaker_cloud.Common.Xml.{XmlNode, XmlNodes, element, text_node, no_nodes, node}
use pacemaker_cloud.Cape.{Event}

-- An element with a text, which a null pointer leaves without one.
abbrev pub with_content : String → Option String → XmlNode
with_content name none = element name [] no_nodes
with_content name (some text) = element name [] (node (text_node text) no_nodes)

-- An element with a name.
abbrev pub named : String → String → XmlNodes → XmlNode
named kind name children = element kind (("name", name) ∷ []) children

abbrev in_resource : Option String → XmlNodes → XmlNodes
in_resource none children = children
in_resource (some name) children = node (named "resource" name children) no_nodes

-- The root of the document that `cape_admin_event_send` makes for an event on a node.
unfoldable pub event_document : String → String → Event → XmlNode
event_document app reason e =
    let report =
      node (with_content "state" e.state) (node (with_content "reason" (some reason)) no_nodes) in
    let on_node = named "node" e.node (in_resource e.resource report) in
    element "event" [] (node (named "application" app (node on_node no_nodes)) no_nodes)

abbrev take : ℕ → List ℕ → List ℕ
take n [] = []
take zero (x ∷ xs) = []
take (suc n) (x ∷ xs) = x ∷ take n xs

-- How `event_spammer` ends: everything is counted as sent, `send` fails, or the fuel is used up.
pub data Sending : Type 0 where
  sent send_failed spinning : Sending

-- The loop from `retry_send` on, with the bytes that are on the wire. Each round sends the whole
-- text again; `answers` is what `send` returns in one round after the other, `round` the next round.
unfoldable pub retry_send : (ℕ → ℤ) → List ℕ → ℕ → ℕ → ℕ → ℕ → List ℕ → Sending × List ℕ
retry_send answers bytes len zero round processed wire = (spinning, wire)
retry_send answers bytes len (suc fuel) round processed wire = elim (answers round) [
  | negsuc n ↦ (send_failed, wire)
  | pos rc ↦
      let rest =
        retry_send answers bytes len fuel (suc round) (processed + rc) (wire ++ take rc bytes) in
      if processed + rc == len then (sent, wire ++ take rc bytes) else rest
]

-- `sockfd` is negative until the socket is connected.
unfoldable pub event_spammer : ℤ → (ℕ → ℤ) → List ℕ → ℕ → ℕ → Sending × List ℕ
unfolding retry_send
event_spammer (negsuc n) answers bytes len fuel = (sent, [])
event_spammer (pos n) answers bytes len fuel = retry_send answers bytes len fuel 0 0 []
