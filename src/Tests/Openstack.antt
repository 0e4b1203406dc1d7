-- ===== src/Tests/Openstack.antt =====
-- Answers of the cloud for an instance, and for the images that it has.
use pacemaker_cloud.Common.{◌≡◌, refl, some, [], ◌∷◌, fault, null_pointer}
use pacemaker_cloud.Common.Xml.{XmlNode, element, other_node, no_nodes, node, get_prop}
use pacemaker_cloud.Openstack.{instance_state_get_curl_callback}
use pacemaker_cloud.Openstack.Address.{instance_state-of_addresses}

-- An instance that has only a public address.
abbrev public_only : XmlNode
public_only = element "server" (("status", "ACTIVE") ∷ []) (
    node (other_node "text") (
      node
        (element "addresses" [] (
          node
            (element "public" [] (node (element "ip" (("addr", "8.8.4.4") ∷ []) no_nodes) no_nodes))
            no_nodes))
        no_nodes))

instance_state-of_addresses_example :
    instance_state_get_curl_callback (some public_only) ≡ fault null_pointer
unfolding get_prop
instance_state-of_addresses_example = instance_state-of_addresses public_only refl

abbrev images : XmlNode
images = element "images" [] (
    node (other_node "text") (
      node (element "image" (("id", "7") ∷ ("name", "f14") ∷ []) no_nodes)
        (node (element "image" (("id", "9") ∷ ("name", "f15") ∷ []) no_nodes) no_nodes)))
