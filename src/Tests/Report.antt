-- ===== src/Tests/Report.antt =====
-- Reports of the daemon of the other runs to the policy engine.
use pacemaker_cloud.Common.{refl, false, some, List, [], ◌∷◌, String, All}
use pacemaker_cloud.Common.Xml.{XmlNodes, element, other_node, no_nodes, node}
use pacemaker_cloud.Common.Map.{lookup}
use pacemaker_cloud.Recover.Total.{Ends}
use pacemaker_cloud.Cape.{Cape, OperationHistory}
use pacemaker_cloud.Cape.Status.{nodes_status}
use pacemaker_cloud.Cape.Process.{process_job}
use pacemaker_cloud.Cape.Report.{Reportable, Reported, process_job-Reported}
use pacemaker_cloud.Cape.Entries.{States, nodes_status-States}
use pacemaker_cloud.Tests.Watch.{platform}
use pacemaker_cloud.Tests.World.{web, monitor, entry, web_server, world}

-- The document has a configuration and an old status.
abbrev document : XmlNodes
document =
    node (element "configuration" [] no_nodes)
      (node (element "status" [] no_nodes) (node (other_node "text") no_nodes))

abbrev one_state : XmlNodes
one_state = node (element "node_state" (("id", "u1") ∷ []) no_nodes) no_nodes

abbrev history : List (String × OperationHistory)
history = ("rsc_vm1_web_monitor_10000", entry) ∷ []

abbrev reporting : Cape platform
reporting = world (some 0) monitor history

history-Reportable : All (λ e. Reportable reporting e.1) history
unfolding lookup
history-Reportable = (
  record {
    ref = web;
    res = web_server (some 0);
    digest = "d41d8";
    has_resource = refl;
    resource_there = refl;
    digest_there = refl;
  },
  tt,
)

nodes_status-States_example :
    Ends
      (States reporting reporting.assembly_map)
      (nodes_status "c0ffee" reporting reporting.assembly_map)
nodes_status-States_example =
    nodes_status-States reporting "c0ffee" reporting.assembly_map history-Reportable

process_job-Reported_example :
    Ends
      (Reported reporting false document)
      (process_job (λ doc. false) false "c0ffee" (document, reporting))
process_job-Reported_example =
    process_job-Reported reporting (λ doc. false) "c0ffee" document history-Reportable
