-- ===== src/Tests/Node.antt =====
-- A node `db` comes up, whose address a resource of the node `vm1` refers to.
use pacemaker_cloud.Common.{◌≡◌, true, none, some, [], ◌∷◌}
use pacemaker_cloud.Common.Map.{lookup}
use pacemaker_cloud.Cape.{ReferenceParam, Assembly, Cape}
use pacemaker_cloud.Cape.Node.{
  update_param, node_update_addr_info, find_param, node_update_addr_info-find_param,
}
use pacemaker_cloud.Tests.Watch.{platform}
use pacemaker_cloud.Tests.World.{monitor, node, web_server, world}

abbrev database : Assembly platform
database = record (node none) {
  name = "db";
  uuid = "u2";
  address = some "10.0.0.9";
  resource_map = [];
}

abbrev ip_param : ReferenceParam
ip_param = record {
  name = "mysql_ip";
  assembly = "db";
  parameter = "ipaddress";
  has_xmlnode = true;
  value = none;
}

abbrev referring : Cape platform
referring = record (world none monitor []) {
  assembly_map =
      (
        "vm1",
        record (node none) {
          resource_map =
              (
                "rsc_vm1_web",
                record (web_server none) { ref_params_map = ("mysql_ip", ip_param) ∷ [] },
              )
              ∷ [];
        },
      )
      ∷ ("db", database)
      ∷ [];
}

node_update_addr_info-find_param_example :
    find_param "vm1" "rsc_vm1_web" "mysql_ip" (node_update_addr_info database referring)
    ≡ some (record ip_param { value = some "10.0.0.9" })
unfolding lookup update_param
node_update_addr_info-find_param_example =
    node_update_addr_info-find_param database "vm1" "rsc_vm1_web" "mysql_ip" referring
