-- ===== src/Cape/Status.antt =====
-- The status section that src/cape.c writes for the policy engine: a node_state for each node, with
-- the history of the resources on it.
use pacemaker_cloud.Common.{
  ◌%◌, Bool, false, Option, none, some, List, [], ◌∷◌, String, u32_mod, Result, ok, ◌>>=◌,
  strcmp_eq, if◌then◌else◌,
}
use pacemaker_cloud.Common.Text.{codes, is_infix}
use pacemaker_cloud.Common.Print.{join, print_d, print_int}
use pacemaker_cloud.Common.Xml.{
  XmlNode, XmlNodes, element, other_node, text_node, no_nodes, node, ◌<>◌,
}
use pacemaker_cloud.Recover.Outside.{Platform}
use pacemaker_cloud.Recover.{running, state_eq}
use pacemaker_cloud.Cape.{OperationHistory, Resource, Assembly, Cape, deref, find_resource}
use pacemaker_cloud.Cape.Memory.{live}

abbrev pub pe_crm_version : String
pe_crm_version = "3.0.5"

-- A null property gives an empty one.
abbrev pub text_or_empty : Option String → String
text_or_empty none = ""
text_or_empty (some s) = s

unfoldable pub transition_key : String → OperationHistory → String
transition_key crmd_uuid oh = join (
    print_d oh.action_id
    ∷ ":"
    ∷ print_d oh.graph_id
    ∷ ":"
    ∷ print_d oh.target_outcome
    ∷ ":"
    ∷ crmd_uuid
    ∷ [])

-- `digest` is the text that `op_digest` points to.
unfoldable pub op_history_insert : String → String → OperationHistory → XmlNode
unfolding transition_key
op_history_insert crmd_uuid digest oh =
    element "lrm_rsc_op"
      (("id", oh.rsc_id)
        ∷ ("operation", oh.operation)
        ∷ ("call-id", print_d oh.call_id)
        ∷ ("rc-code", print_int oh.rc)
        ∷ ("interval", print_d oh.interval)
        ∷ ("last-run", print_d (oh.last_run % u32_mod))
        ∷ ("last-rc-change", print_d (oh.last_rc_change % u32_mod))
        ∷ ("transition-key", transition_key crmd_uuid oh)
        ∷ (
          "transition-magic",
          join ("0:" ∷ print_int oh.rc ∷ ":" ∷ transition_key crmd_uuid oh ∷ []),
        )
        ∷ ("op-digest", digest)
        ∷ ("crm-debug-origin", "op_history_insert")
        ∷ ("crm_feature_set", pe_crm_version)
        ∷ ("op-status", "0")
        ∷ ("exec-time", "0")
        ∷ ("queue-time", "0")
        ∷ [])
      no_nodes

module _ {p : Platform} where
  -- With the operation as its child.
  unfoldable pub insert_resource : Resource p → XmlNode → XmlNode
  insert_resource res op =
      let provider =
        if strcmp_eq res.rclass "ocf" then ("provider", text_or_empty res.rprovider) ∷ [] else [] in
      element "lrm_resource"
        (("id", res.name) ∷ ("type", res.type) ∷ ("class", res.rclass) ∷ provider)
        (node op no_nodes)

  abbrev pub is_on : String → Resource p → Bool
  is_on name res = is_infix (codes name) (codes res.name)

  -- One entry of the history, for the node of that name.
  unfoldable pub entry_status : String → Cape p → String → OperationHistory → Result XmlNodes
  unfolding op_history_insert insert_resource
  entry_status crmd_uuid w name oh = do
    r ← deref oh.resource
    res ← deref (find_resource r w)
    if is_on name res
        then (live (w.texts oh.op_digest) >>= λ digest.
            ok (node (insert_resource res (op_history_insert crmd_uuid digest oh)) no_nodes))
        else ok no_nodes

  unfoldable pub entries_status :
      String → Cape p → String → List (String × OperationHistory) → Result XmlNodes
  entries_status crmd_uuid w name [] = ok no_nodes
  entries_status crmd_uuid w name (entry ∷ rest) = do
    first ← entry_status crmd_uuid w name entry.1
    others ← entries_status crmd_uuid w name rest
    ok (first <> others)

  -- The node_state of a node.
  unfoldable pub insert_status : String → Cape p → Assembly p → Result XmlNode
  insert_status crmd_uuid w a = do
    resources ← entries_status crmd_uuid w a.name w.op_history_map
    ok (
        element "node_state"
          (("id", a.uuid)
            ∷ ("uname", a.name)
            ∷ ("ha", "active")
            ∷ ("expected", "member")
            ∷ ("in_ccm", "true")
            ∷ ("crmd", "online")
            ∷ ("join", if state_eq a.recover.state running then "member" else "pending")
            ∷ [])
          (node (element "lrm" [] (node (element "lrm_resources" [] resources) no_nodes)) no_nodes))

  unfoldable pub nodes_status : String → Cape p → List (String × Assembly p) → Result XmlNodes
  nodes_status crmd_uuid w [] = ok no_nodes
  nodes_status crmd_uuid w (entry ∷ rest) = do
    first ← insert_status crmd_uuid w entry.1
    others ← nodes_status crmd_uuid w rest
    ok (node first others)

abbrev pub is_status : XmlNode → Bool
is_status (element name props children) = strcmp_eq name "status"
is_status (other_node name) = false
is_status (text_node content) = false

-- The loop over the children of the root, which unlinks the first status and leaves.
unfoldable pub remove_status : XmlNodes → XmlNodes
remove_status no_nodes = no_nodes
remove_status (node first rest) = if is_status first then rest else node first (remove_status rest)

-- The children of the root with the new status, at the end.
abbrev pub with_status : XmlNodes → XmlNodes → XmlNodes
with_status states children = remove_status children <> node (element "status" [] states) no_nodes
