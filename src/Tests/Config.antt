-- ===== src/Tests/Config.antt =====
-- A configuration of a node whose service takes the address of another node.
use pacemaker_cloud.Common.{
  ◌≡◌, refl, none, some, List, [], ◌∷◌, String, Result, ok, fault, ℕ, After, true, false,
}
use pacemaker_cloud.Common.Xml.{XmlNode, XmlNodes, element, no_nodes, node, get_prop}
use pacemaker_cloud.Common.Print.{join}
use pacemaker_cloud.Common.Map.{lookup, insert}
use pacemaker_cloud.Cape.{Assembly, Cape}
use pacemaker_cloud.Cape.Instance.{Cloud}
use pacemaker_cloud.Cape.Config.{
  get_xml_child_by, find_pe_parameter, reference_param, add_references, add_parameters,
  resource_add_ref_params, configure_resource_create, plain_resource_create, resource_create,
  resources_create, services_create, new_assembly, assembly_create, assemblies_create,
  load_children, parse_and_load,
}
use pacemaker_cloud.Cape.Loaded.{LoadedWell, parse_and_load-LoadedWell}
use pacemaker_cloud.Caped.{
  opt_v, opt_g, read_options, default_settings, Files, exits, main, start_app, cape_load,
}
use pacemaker_cloud.Cape.Named.{is_some, parse_and_load-names_node}
use pacemaker_cloud.Tests.Watch.{platform}
use pacemaker_cloud.Tests.World.{monitor, world}

abbrev only : XmlNode → XmlNodes
only x = node x no_nodes

abbrev nvpair : XmlNode
nvpair = element "nvpair" (("name", "ip") ∷ ("value", "") ∷ []) no_nodes

abbrev primitive : XmlNode
primitive =
    element "primitive" (("id", "rsc_vm1_web") ∷ [])
      (only (element "instance_attributes" [] (only nvpair)))

-- What the stylesheet makes.
abbrev pe_root : XmlNode
pe_root =
    element "cib" []
      (only (element "configuration" [] (only (element "resources" [] (only primitive)))))

abbrev service : XmlNode
service = element "service" (("name", "web") ∷ ("class", "ocf") ∷ ("type", "apache") ∷ []) (
    only (
      element "parameters" [] (
        only (
          element "parameter" (("name", "ip") ∷ []) (
            only (
              element "reference" (("assembly", "db") ∷ ("parameter", "ipaddress") ∷ [])
                no_nodes))))))

abbrev vm : XmlNode
vm =
    element "assembly"
      (("name", "vm1")
        ∷ ("uuid", "u1")
        ∷ ("escalation_failures", "3")
        ∷ ("escalation_period", "60")
        ∷ [])
      (only (element "services" [] (only service)))

abbrev config : XmlNode
config =
    element "assemblies" (("name", "app") ∷ ("uuid", "u0") ∷ [])
      (only (element "assemblies" [] (only vm)))

abbrev pub cloud : Cloud
cloud = record { image = λ name. some "f14"; instance_id = λ image. some "i-7" }

abbrev empty : Cape platform
empty = record (world none monitor []) { assembly_map = [] }

abbrev keys : Result (Cape platform × ℕ) → List String
keys (fault why) = []
keys (ok (w, e)) = keys_of w.assembly_map
  where
    keys_of : List (String × Assembly platform) → List String
    keys_of [] = []
    keys_of (x ∷ xs) = x.0 ∷ keys_of xs

parse_and_load_nodes :
    keys (parse_and_load platform pe_root 0 cloud (some config) (empty, 0)) ≡ "vm1" ∷ []
unfolding get_xml_child_by find_pe_parameter reference_param add_references add_parameters
    resource_add_ref_params configure_resource_create plain_resource_create resource_create
    resources_create services_create new_assembly assembly_create assemblies_create load_children
    parse_and_load get_prop join insert
parse_and_load_nodes = refl

parse_and_load-LoadedWell_example :
    After (LoadedWell platform) (parse_and_load platform pe_root 0 cloud (some config) (empty, 0))
parse_and_load-LoadedWell_example =
    parse_and_load-LoadedWell platform pe_root 0 cloud (some config) (empty, 0) tt

abbrev files : Files
files = record {
  access_errno = λ path. none;
  parse_file = λ path. some config;
  stylesheet = λ read. pe_root;
}

abbrev no_files : Files
no_files = record files { access_errno = λ path. some 2 }

main_missing :
    main platform no_files 0 cloud (opt_v ∷ []) (some "app") (empty, 0) ≡ ok (exits 1 false)
unfolding main start_app cape_load read_options
main_missing = refl

read_options_verbose :
    read_options (opt_v ∷ opt_g ∷ opt_v ∷ []) default_settings
    ≡ some (record default_settings { loglevel = 8; debug = 1 })
unfolding read_options
read_options_verbose = refl

parse_and_load-names_node_example :
    After
      (λ s. is_some (lookup "vm1" s.0.assembly_map) ≡ true)
      (parse_and_load platform pe_root 0 cloud (some config) (empty, 0))
unfolding lookup get_prop
parse_and_load-names_node_example =
    parse_and_load-names_node platform pe_root 0 cloud "vm1" config (empty, 0)
