-- ===== src/Common/Xml.antt =====
-- Trees of libxml2, as far as the source builds and reads them.
use Prim.Native.Nat.{ℕ, suc}
use Prim.Native.String.{String}
use mathlib.Core.Bool.{Bool, true, false, ◌&&◌}
use mathlib.Core.List.{List, [], ◌∷◌}
use mathlib.Core.Option.{Option, none, some}
use pacemaker_cloud.Common.Tests.{strcmp_eq, if◌then◌else◌}

-- An element with its properties and its children, a text, or a node of another type, which has a
-- name too.
mutual
  pub data XmlNode : Type 0 where
    element : String → List (String × String) → XmlNodes → XmlNode
    other_node : String → XmlNode
    text_node : String → XmlNode

  pub data XmlNodes : Type 0 where
    no_nodes : XmlNodes
    node : XmlNode → XmlNodes → XmlNodes

infixr 5 ◌<>◌
abbrev pub ◌<>◌ : XmlNodes → XmlNodes → XmlNodes
no_nodes <> others = others
node first rest <> others = node first (rest <> others)

abbrev pub node_count : XmlNodes → ℕ
node_count no_nodes = 0
node_count (node first rest) = suc (node_count rest)

abbrev pub is_element : XmlNode → Bool
is_element (element name props children) = true
is_element (other_node name) = false
is_element (text_node content) = false

abbrev pub node_name : XmlNode → String
node_name (element name props children) = name
node_name (other_node name) = name
node_name (text_node content) = "text"

abbrev pub node_children : XmlNode → XmlNodes
node_children (element name props children) = children
node_children (other_node name) = no_nodes
node_children (text_node content) = no_nodes

prop_in : String → List (String × String) → Option String
prop_in name [] = none
prop_in name (prop ∷ props) = if strcmp_eq prop.0 name then some prop.1 else prop_in name props

-- `xmlGetProp`.
unfoldable pub get_prop : String → XmlNode → Option String
unfolding prop_in
get_prop name (element _ props children) = prop_in name props
get_prop name (other_node _) = none
get_prop name (text_node _) = none

-- The first of some nodes for which a test holds.
abbrev pub first_that : (XmlNode → Bool) → XmlNodes → Option XmlNode
first_that test no_nodes = none
first_that test (node cur rest) = if test cur then some cur else first_that test rest

-- An element of that name.
abbrev pub named_element : String → XmlNode → Bool
named_element name cur = is_element cur && strcmp_eq (node_name cur) name
