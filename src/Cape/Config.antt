-- ===== src/Cape/Config.antt =====
-- Loading the configuration in src/cape.c: assemblies, their resources, and the parameters of these
-- that refer to other assemblies. `pe` is the root of the document that the stylesheet made for the
-- policy engine.
use pacemaker_cloud.Common.{
  ℕ, Bool, true, false, Option, none, some, [], ◌∷◌, String, Result, ok, fault, assert_failed,
  ◌>>=◌, strcmp_eq, if◌then◌else◌,
}
use pacemaker_cloud.Common.Map.{QbMap, insert}
use pacemaker_cloud.Common.Print.{join}
use pacemaker_cloud.Common.Xml.{
  XmlNode, XmlNodes, no_nodes, node, is_element, node_children, get_prop, first_that, named_element,
}
use pacemaker_cloud.Recover.Outside.{Platform}
use pacemaker_cloud.Recover.Init.{recover_init}
use pacemaker_cloud.Cape.{ReferenceParam, Resource, Assembly, Cape, deref}
use pacemaker_cloud.Cape.Instance.{Cloud, with_instance, instance_requested}

abbrev pub prop_is : Option String → String → Bool
prop_is none text = false
prop_is (some value) text = strcmp_eq value text

-- The last test of `get_xml_child_by`, whose name and value may be null.
abbrev pub has_prop : Option String → Option String → XmlNode → Bool
has_prop none value cur = true
has_prop (some name) none cur = true
has_prop (some name) (some value) cur = prop_is (get_prop name cur) value

unfoldable pub get_xml_child_by : XmlNodes → String → Option String → Option String → Option XmlNode
get_xml_child_by no_nodes node_name prop_name prop_value = none
get_xml_child_by (node cur rest) node_name prop_name prop_value =
    if named_element node_name cur
    then (if has_prop prop_name prop_value cur
        then some cur
        else get_xml_child_by rest node_name prop_name prop_value)
    else get_xml_child_by rest node_name prop_name prop_value

abbrev pub assert_some : Option XmlNode → Result XmlNode
assert_some none = fault assert_failed
assert_some (some x) = ok x

abbrev child_named : String → Option String → Option String → Option XmlNode → Option XmlNode
child_named node_name prop_name prop_value none = none
child_named node_name prop_name prop_value (some x) =
    get_xml_child_by (node_children x) node_name prop_name prop_value

unfoldable pub find_pe_parameter : XmlNode → String → Option String → Result (Option XmlNode)
unfolding get_xml_child_by
find_pe_parameter pe rsc_id parm_name = do
  config ← assert_some (get_xml_child_by (node_children pe) "configuration" none none)
  rscs ← assert_some (get_xml_child_by (node_children config) "resources" none none)
  let prim = get_xml_child_by (node_children rscs) "primitive" (some "id") (some rsc_id)
  let insts = child_named "instance_attributes" none none prim
  ok (child_named "nvpair" (some "name") parm_name insts)

-- One reference of a parameter. Where one of its attributes is missing, the source keeps a null
-- pointer, which the map compares at once, and `node_update_addr_info` the next time a node comes up;
-- this model ends here for each of them.
unfoldable pub reference_param :
    XmlNode → String → XmlNode → XmlNode → Result (String × ReferenceParam)
unfolding find_pe_parameter
reference_param pe rsc_id param ref = do
  found ← find_pe_parameter pe rsc_id (get_prop "name" param)
  nvpair ← assert_some found
  name ← deref (get_prop "name" param)
  parameter ← deref (get_prop "parameter" ref)
  assembly ← deref (get_prop "assembly" ref)
  ok (
    name,
    record {
      name = name;
      assembly = assembly;
      parameter = parameter;
      has_xmlnode = true;
      value = get_prop "value" nvpair;
    },
  )

-- The loop over the references of one parameter, and that over the parameters.
unfoldable pub add_references :
    XmlNode → String → XmlNode → XmlNodes → QbMap ReferenceParam → Result (QbMap ReferenceParam)
unfolding reference_param
add_references pe rsc_id param no_nodes m = ok m
add_references pe rsc_id param (node cur rest) m =
    if named_element "reference" cur
    then (reference_param pe rsc_id param cur >>= λ p.
        add_references pe rsc_id param rest (insert p.0 p.1 m))
    else add_references pe rsc_id param rest m

unfoldable pub add_parameters :
    XmlNode → String → XmlNodes → QbMap ReferenceParam → Result (QbMap ReferenceParam)
unfolding add_references
add_parameters pe rsc_id no_nodes m = ok m
add_parameters pe rsc_id (node cur rest) m =
    if named_element "parameter" cur
    then (add_references pe rsc_id cur (node_children cur) m >>= λ m₁.
        add_parameters pe rsc_id rest m₁)
    else add_parameters pe rsc_id rest m

unfoldable pub resource_add_ref_params :
    XmlNode → Option XmlNode → String → Result (QbMap ReferenceParam)
unfolding add_parameters
resource_add_ref_params pe none rsc_id = ok []
resource_add_ref_params pe (some params) rsc_id = add_parameters pe rsc_id (node_children params) []

-- "%s" of a null pointer.
abbrev pub text_or_null : Option String → String
text_or_null none = "(null)"
text_or_null (some s) = s

abbrev pub resource_name : String → String → Option String → String
resource_name prefix assembly name = join (prefix ∷ assembly ∷ "_" ∷ text_or_null name ∷ [])

-- A node under construction, and `errno`.
abbrev pub Loading : Platform → Type 0
Loading p = Assembly p × ℕ

abbrev pub put_resource : {p : Platform} → Resource p → Assembly p → Assembly p
put_resource r a = record a { resource_map = insert r.name r a.resource_map }

abbrev pub is_there : Option XmlNode → Bool
is_there none = false
is_there (some x) = true

module _ (p : Platform) (pe : XmlNode) (now : ℕ) where
  unfoldable pub configure_resource_create :
      XmlNode → Option XmlNode → Loading p → Result (Loading p)
  unfolding resource_add_ref_params
  configure_resource_create rsc params (a, errno) = do
    let name = resource_name "cfg_" a.name (get_prop "name" rsc)
    let (recover, errno₁) = recover_init p now errno (some "-1") (some "-1")
    refs ← resource_add_ref_params pe params name
    ok (
      put_resource
          (record {
            name = name;
            type = "script_runner";
            rclass = "ocf";
            rprovider = some "pacemaker-cloud";
            assembly = a.name;
            monitor_op = none;
            monitor_timer = none;
            recover = recover;
            ref_params_map = refs;
          })
          a,
      errno₁,
    )

  unfoldable pub plain_resource_create : XmlNode → Option XmlNode → Loading p → Result (Loading p)
  unfolding resource_add_ref_params
  plain_resource_create cur params (a, errno) = do
    let name = resource_name "rsc_" a.name (get_prop "name" cur)
    type ← deref (get_prop "type" cur)
    rclass ← deref (get_prop "class" cur)
    let (recover, errno₁) =
        recover_init p now errno (get_prop "escalation_failures" cur)
          (get_prop "escalation_period" cur)
    refs ← (if strcmp_eq rclass "ocf" then resource_add_ref_params pe params name else ok [])
    ok (
      put_resource
          (record {
            name = name;
            type = type;
            rclass = rclass;
            rprovider = get_prop "provider" cur;
            assembly = a.name;
            monitor_op = none;
            monitor_timer = none;
            recover = recover;
            ref_params_map = refs;
          })
          a,
      errno₁,
    )

  unfoldable pub resource_create : XmlNode → Loading p → Result (Loading p)
  unfolding configure_resource_create plain_resource_create
  resource_create cur l = do
    let params = first_that (named_element "parameters") (node_children cur)
    let executable = first_that (named_element "configure_executable") (node_children cur)
    l₁ ← (if is_there executable then configure_resource_create cur params l else ok l)
    plain_resource_create cur params l₁

  unfoldable pub resources_create : XmlNodes → Loading p → Result (Loading p)
  unfolding resource_create
  resources_create no_nodes l = ok l
  resources_create (node cur rest) l =
      if is_element cur
      then (resource_create cur l >>= λ l₁. resources_create rest l₁)
      else resources_create rest l

  unfoldable pub services_create : XmlNodes → Loading p → Result (Loading p)
  unfolding resources_create
  services_create no_nodes l = ok l
  services_create (node cur rest) l =
      if named_element "services" cur
      then (resources_create (node_children cur) l >>= λ l₁. services_create rest l₁)
      else services_create rest l

  -- The fields that `assembly_create` fills in; the others are zero.
  unfoldable pub new_assembly : XmlNode → ℕ → Result (Loading p)
  new_assembly cur errno = do
    name ← deref (get_prop "name" cur)
    uuid ← deref (get_prop "uuid" cur)
    let (recover, errno₁) =
        recover_init p now errno (get_prop "escalation_failures" cur)
          (get_prop "escalation_period" cur)
    ok (
      record {
        name = name;
        uuid = uuid;
        address = none;
        instance_id = "";
        image_id = "";
        resource_map = [];
        recover = recover;
      },
      errno₁,
    )

  module _ (cloud : Cloud) where
    -- The node is put into the map before its resources are, which are added to it where it stands.
    unfoldable pub assembly_create : XmlNode → Cape p × ℕ → Result (Cape p × ℕ)
    unfolding new_assembly services_create
    assembly_create cur (w, errno) = do
      (a, errno₁) ← new_assembly cur errno
      (a₁, errno₂) ← services_create (node_children cur) (with_instance cloud a, errno₁)
      let w₁ = instance_requested cloud a w
      ok (record w₁ { assembly_map = insert a₁.name a₁ w₁.assembly_map }, errno₂)

    unfoldable pub assemblies_create : XmlNodes → Cape p × ℕ → Result (Cape p × ℕ)
    unfolding assembly_create
    assemblies_create no_nodes s = ok s
    assemblies_create (node cur rest) s =
        if is_element cur
        then (assembly_create cur s >>= λ s₁. assemblies_create rest s₁)
        else assemblies_create rest s

    unfoldable pub load_children : XmlNodes → Cape p × ℕ → Result (Cape p × ℕ)
    unfolding assemblies_create
    load_children no_nodes s = ok s
    load_children (node cur rest) s =
        if named_element "assemblies" cur
        then (assemblies_create (node_children cur) s >>= λ s₁. load_children rest s₁)
        else load_children rest s

    -- `config` is the root of the configuration; the name and the identifier of the application are
    -- copied first.
    unfoldable pub parse_and_load : Option XmlNode → Cape p × ℕ → Result (Cape p × ℕ)
    unfolding load_children
    parse_and_load config s = do
      root ← deref config
      name ← deref (get_prop "name" root)
      uuid ← deref (get_prop "uuid" root)
      load_children (node_children root) s
