-- ===== src/Cpe/Http.antt =====
-- src/cpe_httpd.cpp: the server to which the conductor posts its events. libmicrohttpd calls
-- `answer_to_connection` once for a request, then once for each part of its data and once more without
-- data. The push parser of libxml is a parameter.
use pacemaker_cloud.Common.{
  ℕ, Bool, true, false, not, ◌&&◌, Option, none, some, List, [], ◌∷◌, ◌++◌, String, strcmp_eq,
  Result, ok, fault, null_pointer, uninitialised_read, ◌>>=◌, if◌then◌else◌,
}
use pacemaker_cloud.Common.Text.{codes, is_prefix}
use pacemaker_cloud.Common.Print.{join}
use pacemaker_cloud.Common.Xml.{
  XmlNode, XmlNodes, element, other_node, text_node, no_nodes, node, node_children, node_name,
  is_element, named_element, first_that, get_prop,
}
use pacemaker_cloud.Cape.{deref}

-- The push parser: `fresh` is a new one, nothing where it could not be made; `parse_chunk` is whether
-- the text is refused, and `parse_end` is the call that terminates. `my_doc` is the root of the
-- document, and `last_error` the message of the last error.
pub record PushParser : Type 1 where
  pub State : Type 0
  pub fresh : Option State
  pub parse_chunk : State → String → Bool × State
  pub parse_end : State → State
  pub well_formed : State → Bool
  pub my_doc : State → Option XmlNode
  pub last_error : State → Option String

-- What libmicrohttpd and the C library answer: whether there is memory for the structure, and whether
-- a response can be queued.
pub record Httpd : Type 0 where
  pub allocated : Bool
  pub queued : Bool

-- `connection_info_struct`: the `type` with what a POST has besides.
pub data ConnectionInfo (S : Type 0) : Type 0 where
  get_info : ConnectionInfo S
  post_info : S → Option String → ConnectionInfo S

-- A request while it is answered: `*con_cls`, and the pages that were queued, with their status.
pub record Exchange (S : Type 0) : Type 0 where
  pub con_cls : Option (ConnectionInfo S)
  pub pages : List (ℕ × String)

-- The element that the event is about: the last one that is not the time.
abbrev pub is_item : XmlNode → Bool
is_item cur = is_element cur && not (strcmp_eq (node_name cur) "datetime")

unfoldable pub find_item : Option XmlNode → XmlNodes → Option XmlNode
find_item item no_nodes = item
find_item item (node cur rest) = find_item (if is_item cur then some cur else item) rest

-- The text of an element is that of its first child, which must be there.
abbrev pub state_text : XmlNodes → Result (Option String)
state_text no_nodes = fault null_pointer
state_text (node (text_node content) rest) = ok (some content)
state_text (node (element name props children) rest) = ok none
state_text (node (other_node name) rest) = ok none

abbrev pub event_state_of : Option XmlNode → Result (Option String)
event_state_of none = ok none
event_state_of (some state) = state_text (node_children state)

-- Whether the event is accepted.
abbrev pub is_event : String → Option String → Option String → Bool
is_event event_item (some id) (some state) =
    if strcmp_eq event_item "deployment" then true else strcmp_eq event_item "instance"
is_event event_item none state = false
is_event event_item (some id) none = false

unfoldable pub handle_event : XmlNode → Result Bool
unfolding find_item
handle_event event = do
  item ← deref (find_item none (node_children event))
  state ← event_state_of (first_that (named_element "state") (node_children item))
  ok (is_event (node_name item) (get_prop "id" item) state)

abbrev pub client_errorpage : String → String
client_errorpage message = join ("<html><body>Invalid input [" ∷ message ∷ "]</body></html>" ∷ [])

abbrev pub server_errorpage : String → String
server_errorpage message = join ("<html><body>Server error [" ∷ message ∷ "]</body></html>" ∷ [])

abbrev pub page : String → Option String → String
page default none = default
page default (some text) = text

module _ (lib : Httpd) {S : Type 0} where
  -- Whether the page was queued, and the exchange.
  unfoldable pub send_page : String → ℕ → Exchange S → Bool × Exchange S
  send_page text status x =
      if lib.queued then (true, record x { pages = x.pages ++ (status, text) ∷ [] }) else (false, x)

  -- The page for a request that could not be answered.
  abbrev bad_request : String → Exchange S → Bool × Exchange S
  bad_request text x = (true, (send_page text 400 x).1)

  unfoldable pub request_completed : Exchange S → Exchange S
  request_completed x = record x { con_cls = none }

module _ (lib : Httpd) (xml : PushParser) where
  open xml use {State, fresh, parse_chunk, parse_end, well_formed, my_doc, last_error}

  abbrev with_info : ConnectionInfo State → Exchange State → Exchange State
  with_info info x = record x { con_cls = some info }

  -- The first call.
  unfoldable pub first_call : String → Exchange State → Bool × Exchange State
  first_call method x =
      if lib.allocated
      then (if strcmp_eq method "POST"
          then elim fresh [
            | none ↦ (false, x)
            | some ctxt ↦ (true, with_info (post_info ctxt none) x)
          ]
          else (true, with_info get_info x))
      else (false, x)

  -- A part of the data.
  unfoldable pub post_chunk :
      State → Option String → String → Exchange State → Result (Bool × Exchange State)
  unfolding send_page
  post_chunk ctxt answerstring chunk x =
      let (refused, ctxt₁) = parse_chunk ctxt chunk in
      if refused
      then (deref (last_error ctxt₁) >>= λ message.
          let text = client_errorpage message in
          ok (bad_request lib text (with_info (post_info ctxt₁ (some text)) x)))
      else ok (true, with_info (post_info ctxt₁ answerstring) x)

  -- An event that was not accepted: the answer is an error of the server, unless one was prepared.
  abbrev pub not_accepted : State → Option String → Exchange State → Bool × Exchange State
  not_accepted ctxt none x =
      let text = server_errorpage "unknown" in
      send_page lib text 500 (with_info (post_info ctxt (some text)) x)
  not_accepted ctxt (some text) x = bad_request lib text (with_info (post_info ctxt (some text)) x)

  -- The end of the data.
  unfoldable pub post_end : State → Option String → Exchange State → Result (Bool × Exchange State)
  unfolding send_page handle_event
  post_end ctxt answerstring x =
      let ctxt₁ = parse_end ctxt in
      if well_formed ctxt₁
      then (deref (my_doc ctxt₁) >>= λ root. handle_event root >>= λ accepted. ok (
          if accepted
          then send_page lib "" 200 (with_info (post_info ctxt₁ answerstring) x)
          else not_accepted ctxt₁ answerstring x))
      else (deref (last_error ctxt₁) >>= λ message.
          let text = client_errorpage message in
          ok (bad_request lib text (with_info (post_info ctxt₁ (some text)) x)))

  -- A later call; `chunk` is empty at the end.
  unfoldable pub later_call :
      String → String → ConnectionInfo State → Exchange State → Result (Bool × Exchange State)
  unfolding post_chunk post_end
  later_call method chunk info x =
      if strcmp_eq method "GET"
      then ok (send_page lib "<deployments>todo</deployments>" 200 x)
      else if strcmp_eq method "POST"
      then elim info [
        | get_info ↦ fault uninitialised_read
        | post_info ctxt answerstring ↦
            if strcmp_eq chunk ""
            then post_end ctxt answerstring x
            else post_chunk ctxt answerstring chunk x
      ]
      else ok (send_page lib "bad request" 400 x)

  unfoldable pub answer_to_connection :
      String → String → String → Exchange State → Result (Bool × Exchange State)
  unfolding first_call later_call send_page
  answer_to_connection url method chunk x =
      if is_prefix (codes "/pacemaker-cloud/api") (codes url)
      then elim x.con_cls [
        | none ↦ ok (first_call method x)
        | some info ↦ later_call method chunk info x
      ]
      else ok (send_page lib "Not Found" 404 x)
