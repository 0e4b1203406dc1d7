-- ===== src/Cpe/Event.antt =====
-- Which events the server accepts, and at which it ends.
use pacemaker_cloud.Common.{
  ◌≡◌, refl, ap, fault, ◌∙◌, Bool, true, false, not, ◌&&◌, ◌||◌, null_pointer, Option, none, some,
  String, strcmp_eq, Result, ok, ◌>>=◌, Bool-cases, inl, inr, if◌then◌else◌,
}
use pacemaker_cloud.Common.Xml.{
  XmlNode, XmlNodes, element, text_node, other_node, no_nodes, node, ◌<>◌, node_children, node_name,
  named_element, first_that, get_prop,
}
use pacemaker_cloud.Cape.{deref}
use pacemaker_cloud.Cpe.Http.{
  state_text, is_item, find_item, event_state_of, is_event, handle_event,
}

unfoldable pub reverse_nodes : XmlNodes → XmlNodes
reverse_nodes no_nodes = no_nodes
reverse_nodes (node cur rest) = reverse_nodes rest <> node cur no_nodes

abbrev or_else : Option XmlNode → Option XmlNode → Option XmlNode
or_else none other = other
or_else (some cur) other = some cur

abbrev pub is_some {ℓ} : {A : Type ℓ} → Option A → Bool
is_some none = false
is_some (some a) = true

-- An element that an event can be about: not a text or the like, and not the time.
abbrev pub is_about : XmlNode → Bool
is_about (element name props children) = not (strcmp_eq name "datetime")
is_about (text_node content) = false
is_about (other_node name) = false

-- A deployment or an instance that has an identifier.
abbrev pub is_known : XmlNode → Bool
is_known item =
    (strcmp_eq (node_name item) "deployment" || strcmp_eq (node_name item) "instance")
    && is_some (get_prop "id" item)

-- What is answered to an event about an element, by the children of the first state of that.
abbrev pub verdict_on : XmlNode → XmlNodes → Result Bool
verdict_on item no_nodes = fault null_pointer
verdict_on item (node (text_node content) rest) = ok (is_known item)
verdict_on item (node (element name props children) rest) = ok false
verdict_on item (node (other_node name) rest) = ok false

abbrev pub verdict_by : XmlNode → Option XmlNode → Result Bool
verdict_by item none = ok false
verdict_by item (some state) = verdict_on item (node_children state)

-- What is answered to an event, by the element that it is about.
abbrev pub event_verdict : Option XmlNode → Result Bool
event_verdict none = fault null_pointer
event_verdict (some item) =
    verdict_by item (first_that (named_element "state") (node_children item))

first_that-last :
    (test : XmlNode → Bool) (nodes : XmlNodes) (cur : XmlNode)
    → first_that test (nodes <> node cur no_nodes)
      ≡ or_else (first_that test nodes) (if test cur then some cur else none)
first_that-last test no_nodes cur = refl
first_that-last test (node first rest) cur = elim (Bool-cases (test first)) [
  | inl y ↦ rw y refl
  | inr y ↦ rw y (first_that-last test rest cur)
]

or_else-choice :
    (b : Bool) (found : Option XmlNode) (cur : XmlNode) (other : Option XmlNode)
    → or_else found (if b then some cur else other)
      ≡ or_else (or_else found (if b then some cur else none)) other
or_else-choice true none cur other = refl
or_else-choice false none cur other = refl
or_else-choice b (some item) cur other = refl

find_item-reverse :
    (item : Option XmlNode) (nodes : XmlNodes)
    → find_item item nodes ≡ or_else (first_that is_item (reverse_nodes nodes)) item
unfolding find_item reverse_nodes
find_item-reverse item no_nodes = refl
find_item-reverse item (node cur rest) =
    find_item-reverse (if is_item cur then some cur else item) rest
    ∙ or_else-choice (is_item cur) (first_that is_item (reverse_nodes rest)) cur item
    ∙ rw (first_that-last is_item (reverse_nodes rest) cur) refl

or_else-none : (found : Option XmlNode) → or_else found none ≡ found
or_else-none none = refl
or_else-none (some cur) = refl

and_false : (b : Bool) → false ≡ (b && false)
and_false true = refl
and_false false = refl

either_and : (a b : Bool) → (if a then true else b) ≡ ((a || b) && true)
either_and true b = refl
either_and false true = refl
either_and false false = refl

is_item-is_about : (cur : XmlNode) → is_item cur ≡ is_about cur
is_item-is_about (element name props children) = refl
is_item-is_about (text_node content) = refl
is_item-is_about (other_node name) = refl

first_that-same :
    (f g : XmlNode → Bool) (nodes : XmlNodes)
    → ((cur : XmlNode) → f cur ≡ g cur)
    → first_that f nodes ≡ first_that g nodes
first_that-same f g no_nodes e = refl
first_that-same f g (node cur rest) e = rw (e cur, first_that-same f g rest e) refl

is_event-known :
    (item : XmlNode) (id : Option String) (content : String)
    → is_event (node_name item) id (some content) ≡ (
        (strcmp_eq (node_name item) "deployment" || strcmp_eq (node_name item) "instance")
        && is_some id)
is_event-known item none content = and_false _
is_event-known item (some id) content =
    either_and (strcmp_eq (node_name item) "deployment") (strcmp_eq (node_name item) "instance")

is_event-stateless :
    (item : XmlNode) (id : Option String) → is_event (node_name item) id none ≡ false
is_event-stateless item none = refl
is_event-stateless item (some id) = refl

on-verdict :
    (item : XmlNode) (children : XmlNodes)
    → (state_text children >>= λ state. ok (is_event (node_name item) (get_prop "id" item) state))
      ≡ verdict_on item children
on-verdict item no_nodes = refl
on-verdict item (node (text_node content) rest) =
    ap ok (is_event-known item (get_prop "id" item) content)
on-verdict item (node (element name props children) rest) =
    ap ok (is_event-stateless item (get_prop "id" item))
on-verdict item (node (other_node name) rest) = ap ok (is_event-stateless item (get_prop "id" item))

by-verdict :
    (item : XmlNode) (state : Option XmlNode)
    → (event_state_of state >>= λ text. ok (is_event (node_name item) (get_prop "id" item) text))
      ≡ verdict_by item state
by-verdict item none = ap ok (is_event-stateless item (get_prop "id" item))
by-verdict item (some state) = on-verdict item (node_children state)

event-verdict :
    (item : Option XmlNode)
    → (deref item >>= λ item.
        event_state_of (first_that (named_element "state") (node_children item)) >>= λ state.
        ok (is_event (node_name item) (get_prop "id" item) state))
      ≡ event_verdict item
event-verdict none = refl
event-verdict (some item) =
    by-verdict item (first_that (named_element "state") (node_children item))

-- An event is about the last element below its root that is not named "datetime". If there is none, or
-- if the first state of that element has nothing in it, the server reads through a null pointer.
-- Otherwise the event is accepted exactly if that element is a deployment or an instance, has an
-- identifier, and its first state begins with a text.
pub handle_event-accepts :
    (event : XmlNode)
    → handle_event event ≡ event_verdict (first_that is_about (reverse_nodes (node_children event)))
unfolding handle_event
handle_event-accepts event =
    rw (find_item-reverse none (node_children event), or_else-none)
      (event-verdict (first_that is_item (reverse_nodes (node_children event)))
        ∙ ap event_verdict (
            first_that-same is_item is_about (reverse_nodes (node_children event))
              is_item-is_about))
