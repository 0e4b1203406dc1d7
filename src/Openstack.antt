-- ===== src/Openstack.antt =====
-- The callbacks of src/openstackv1.c that read an answer of the cloud. `xml` is the root of the
-- parsed answer, nothing where it does not parse. The result is what the completion function is
-- called with, nothing where it is not called.
pub mod Address
pub mod Requests
use pacemaker_cloud.Common.{
  ◌≡◌, refl, Bool, true, false, Option, none, some, List, [], ◌∷◌, String, Result, ok, fault,
  null_pointer, ◌>>=◌, strcmp_eq, if◌then◌else◌,
}
use pacemaker_cloud.Common.Xml.{
  XmlNode, XmlNodes, element, other_node, no_nodes, node, is_element, node_name, node_children,
  get_prop,
}
use pacemaker_cloud.Cape.{deref}

-- Where a loop over siblings ends: with `goto done`, or with its cursor null.
pub data Walk : Type 0 where
  done : Option String → Walk
  at_end : Walk

-- The three loops share one cursor. Where an inner loop ends with its cursor null, the increment of
-- the outer one reads through it.
unfoldable pub next_of_null : Walk → Result Walk
next_of_null (done ip) = ok (done ip)
next_of_null at_end = fault null_pointer

unfoldable pub find_ip : XmlNodes → Walk
find_ip no_nodes = at_end
find_ip (node cur rest) =
    if strcmp_eq (node_name cur) "ip" then done (get_prop "addr" cur) else find_ip rest

unfoldable pub find_private : XmlNodes → Result Walk
unfolding next_of_null find_ip
find_private no_nodes = ok at_end
find_private (node cur rest) =
    if strcmp_eq (node_name cur) "private"
    then next_of_null (find_ip (node_children cur))
    else find_private rest

abbrev pub has_nodes : XmlNodes → Bool
has_nodes no_nodes = false
has_nodes (node first rest) = true

unfoldable pub find_addresses : XmlNodes → Result Walk
unfolding next_of_null find_private
find_addresses no_nodes = ok at_end
find_addresses (node cur rest) =
    if strcmp_eq (node_name cur) "addresses"
    then (if has_nodes (node_children cur)
        then (find_private (node_children cur) >>= next_of_null)
        else find_addresses rest)
    else find_addresses rest

abbrev pub prop_of : String → Option XmlNode → Option String
prop_of name none = none
prop_of name (some x) = get_prop name x

abbrev pub address_of : Walk → Option String
address_of (done ip) = ip
address_of at_end = none

-- The status and the address.
unfoldable pub instance_state_get_curl_callback :
    Option XmlNode → Result (Option (String × Option String))
unfolding find_addresses
instance_state_get_curl_callback xml = do
  status ← deref (prop_of "status" xml)
  if strcmp_eq status "ACTIVE"
      then (deref xml >>= λ root.
          find_addresses (node_children root) >>= λ walk. ok (some (status, address_of walk)))
      else ok (some (status, none))

unfoldable pub find_image : String → XmlNodes → Result (Option String)
find_image image_name no_nodes = ok none
find_image image_name (node cur rest) =
    if is_element cur
    then (deref (get_prop "name" cur) >>= λ name.
        if strcmp_eq name image_name then ok (get_prop "id" cur) else find_image image_name rest)
    else find_image image_name rest

-- The identifier of the image of that name.
unfoldable pub image_id_get_curl_callback : String → Option XmlNode → Result (Option String)
unfolding find_image
image_id_get_curl_callback image_name xml = do
  root ← deref xml
  find_image image_name (node_children root)

-- The identifier of the new instance.
unfoldable pub instance_create_curl_callback : Option XmlNode → Option String
instance_create_curl_callback xml = prop_of "id" xml
