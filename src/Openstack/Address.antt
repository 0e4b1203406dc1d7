-- ===== src/Openstack/Address.antt =====
-- Which answers of the cloud are read right, and at which the daemon ends.
use pacemaker_cloud.Common.{
  ◌≡◌, refl, ap, ◌∙◌, Bool, false, Option, none, some, String, Result, ok, fault, null_pointer,
  ◌>>=◌, strcmp_eq, if◌then◌else◌, Bool-cases, ◌⊎◌, inl, inr,
}
use pacemaker_cloud.Common.Xml.{
  first_that, XmlNode, XmlNodes, no_nodes, node, is_element, node_name, node_children, get_prop,
}
use pacemaker_cloud.Openstack.{
  Walk, done, at_end, next_of_null, find_ip, find_private, has_nodes, find_addresses, prop_of,
  address_of, instance_state_get_curl_callback, find_image, image_id_get_curl_callback,
}

abbrev pub named : String → XmlNode → Bool
named name cur = strcmp_eq (node_name cur) name

abbrev pub filled : XmlNode → Bool
filled cur = if named "addresses" cur then has_nodes (node_children cur) else false

-- What is made of the first address, of the first private network, and of the first list.
abbrev pub of_ip : Option XmlNode → Result (Option String)
of_ip none = fault null_pointer
of_ip (some ip) = ok (get_prop "addr" ip)

abbrev pub of_private : Option XmlNode → Result (Option String)
of_private none = fault null_pointer
of_private (some net) = of_ip (first_that (named "ip") (node_children net))

abbrev pub of_addresses : Option XmlNode → Result (Option String)
of_addresses none = ok none
of_addresses (some list) = of_private (first_that (named "private") (node_children list))

abbrev addressed : Result Walk → Result (Option String)
addressed m = m >>= λ walk. ok (address_of walk)

find_ip-first :
    (nodes : XmlNodes)
    → addressed (next_of_null (find_ip nodes)) ≡ of_ip (first_that (named "ip") nodes)
unfolding find_ip next_of_null
find_ip-first no_nodes = refl
find_ip-first (node cur rest) = elim (Bool-cases (named "ip" cur)) [
  | inl h ↦ rw h refl
  | inr h ↦ rw h (find_ip-first rest)
]

next_of_null-twice :
    (walk : Walk) → addressed (next_of_null walk >>= next_of_null) ≡ addressed (next_of_null walk)
unfolding next_of_null
next_of_null-twice (done ip) = refl
next_of_null-twice at_end = refl

find_private-first :
    (nodes : XmlNodes)
    → addressed (find_private nodes >>= next_of_null)
      ≡ of_private (first_that (named "private") nodes)
unfolding find_private next_of_null
find_private-first no_nodes = refl
find_private-first (node cur rest) = elim (Bool-cases (named "private" cur)) [
  | inl h ↦
      rw h (next_of_null-twice (find_ip (node_children cur)) ∙ find_ip-first (node_children cur))
  | inr h ↦ rw h (find_private-first rest)
]

find_addresses-first :
    (nodes : XmlNodes) → addressed (find_addresses nodes) ≡ of_addresses (first_that filled nodes)
unfolding find_addresses
find_addresses-first no_nodes = refl
find_addresses-first (node cur rest) = elim (Bool-cases (named "addresses" cur)) [
  | inl h ↦ elim (Bool-cases (has_nodes (node_children cur))) [
    | inl k ↦ rw (h, k) (find_private-first (node_children cur))
    | inr k ↦ rw (h, k) (find_addresses-first rest)
  ]
  | inr h ↦ rw h (find_addresses-first rest)
]

-- The completion function is called with a status and the address, if there is a result.
abbrev pub told : String → Result (Option String) → Result (Option (String × Option String))
told status (ok ip) = ok (some (status, ip))
told status (fault why) = fault why

abbrev told_walk : String → Result Walk → Result (Option (String × Option String))
told_walk status m = m >>= λ walk. ok (some (status, address_of walk))

split_bind : (status : String) (m : Result Walk) → told_walk status m ≡ told status (addressed m)
split_bind status (ok walk) = refl
split_bind status (fault why) = refl

-- The answer for an instance that is ACTIVE: its first list of addresses that is not empty decides.
-- The address is that of the first "ip" in the first "private" network of it, and null where the
-- instance has no such list. Where the list has no private network, or the network no address, the
-- daemon reads through a null pointer.
pub instance_state-of_addresses :
    (root : XmlNode)
    → get_prop "status" root ≡ some "ACTIVE"
    → instance_state_get_curl_callback (some root)
      ≡ told "ACTIVE" (of_addresses (first_that filled (node_children root)))
unfolding instance_state_get_curl_callback
instance_state-of_addresses root e = rw e (
    split_bind "ACTIVE" (find_addresses (node_children root))
    ∙ ap (told "ACTIVE") (find_addresses-first (node_children root)))

abbrev HasName : XmlNode → Type 0
HasName cur = (name : String) × (get_prop "name" cur ≡ some name)

-- Every element among some nodes has a name.
abbrev pub AllNamed : XmlNodes → Type 0
AllNamed no_nodes = Unit
AllNamed (node cur rest) = ((is_element cur ≡ false) ⊎ HasName cur) × AllNamed rest

abbrev pub prop_is : String → Option String → Bool
prop_is text none = false
prop_is text (some value) = strcmp_eq value text

abbrev pub is_image : String → XmlNode → Bool
is_image image_name cur = if is_element cur then prop_is image_name (get_prop "name" cur) else false

find_image-first :
    (image_name : String) (nodes : XmlNodes)
    → AllNamed nodes
    → find_image image_name nodes ≡ ok (prop_of "id" (first_that (is_image image_name) nodes))
unfolding find_image
find_image-first image_name no_nodes h = refl
find_image-first image_name (node cur rest) (inl other, h) =
    rw other (find_image-first image_name rest h)
find_image-first image_name (node cur rest) (inr (name, e), h) =
    elim (Bool-cases (is_element cur)) [
      | inr other ↦ rw other (find_image-first image_name rest h)
      | inl elem ↦ elim (Bool-cases (strcmp_eq name image_name)) [
        | inl same ↦ rw (elem, e, same) refl
        | inr differ ↦ rw (elem, e, differ) (find_image-first image_name rest h)
      ]
    ]

-- The answer with the images, each of which has a name: the identifier is that of the first image of
-- the name that is looked for, and nothing is reported where there is none or it has no identifier.
pub image_id-first_that :
    (image_name : String) (root : XmlNode)
    → AllNamed (node_children root)
    → image_id_get_curl_callback image_name (some root)
      ≡ ok (prop_of "id" (first_that (is_image image_name) (node_children root)))
unfolding image_id_get_curl_callback
image_id-first_that image_name root h = find_image-first image_name (node_children root) h
