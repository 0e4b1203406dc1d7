-- ===== src/Tests/Graph.antt =====
-- A transition that monitors the web server of `vm1` once, and one for the node when it is down.
use pacemaker_cloud.Common.{
  ℕ, ◌==◌, ◌≡◌, refl, true, false, Option, none, some, List, [], ◌∷◌, pos, inl, After, Result, ok,
  fault, Bool,
}
use pacemaker_cloud.Common.Xml.{XmlNodes, no_nodes}
use pacemaker_cloud.Common.Map.{lookup}
use pacemaker_cloud.Recover.{unknown}
use pacemaker_cloud.Recover.Total.{Ends}
use pacemaker_cloud.Cape.{Cape}
use pacemaker_cloud.Graph.{
  ActionResource, GraphAction, pseudo_action, rsc_action, transition_active, transition_complete,
  exec_rsc_action,
}
use pacemaker_cloud.Graph.Loop.{
  LoopEvent, report, run_graph, result, loop_steps, OneJob, steps-OneJob,
}
use pacemaker_cloud.Graph.Refused.{Named, exec_rsc_action-refused}
use pacemaker_cloud.Ocf.{pe_resource_ocf_exitcode_get}
use pacemaker_cloud.Cape.Process.{process_job, pe_process_state, process}
use pacemaker_cloud.Cape.Status.{
  nodes_status, insert_status, entries_status, entry_status, insert_resource, op_history_insert,
  remove_status, transition_key,
}
use pacemaker_cloud.Cape.Monitor.{
  resource_execute_cb, resource_of, resource_monitor_execute, transport_resource_action,
  resource_action_completion, resource_action_completed, resource_state_set, action_finish,
  execute_monitor, resource_recover_set, state_after,
}
use pacemaker_cloud.Cape.Memory.{
  pe_resource_ref, pe_resource_unref, pe_resource_completed, free_text,
}
use pacemaker_cloud.Cape.History.{op_history_save, dup_text, history_new, history_stamp}
use pacemaker_cloud.Common.Text.{is_infix, is_prefix}
use pacemaker_cloud.Common.Map.{insert, update}
use pacemaker_cloud.Common.Print.{decimal, join, print_d, print_int}
use pacemaker_cloud.Recover.{recover_state_set, recover_failed}
use pacemaker_cloud.Graph.{run_next_job}
use pacemaker_cloud.Tests.Watch.{platform}
use pacemaker_cloud.Tests.World.{monitor, node, recover, web_server, world}

abbrev web_resource : ActionResource
web_resource = record {
  id = some "rsc_vm1_web";
  class = some "lsb";
  provider = none;
  type = some "httpd";
}

abbrev probe : GraphAction
probe = record {
  action = 5;
  id = 5;
  graph_id = 1;
  operation = some "monitor";
  target = some "vm1";
  resource = some web_resource;
  target_rc = some 7;
  lrm = record { op_type = "monitor"; params = []; interval = 0; timeout = 0 };
  digest = "d41d8";
}

probe-Named : Named probe web_resource "vm1" "rsc_vm1_web" "lsb" "httpd"
probe-Named = record {
  not_probe = refl;
  resource = refl;
  id = refl;
  class = refl;
  type = refl;
  target = refl;
}

abbrev down : Cape platform
down = record (world none monitor []) {
  assembly_map = ("vm1", record (node none) { recover = record recover { state = unknown } }) ∷ [];
}

exec_rsc_action-refused_example :
    Ends
      (λ r.
        (r.0 ≡ true) × (r.1.ops 2 ≡ none) × ((n : ℕ) → (2 == n) ≡ false → r.1.ops n ≡ down.ops n))
      (exec_rsc_action probe down)
unfolding lookup
exec_rsc_action-refused_example =
    exec_rsc_action-refused probe web_resource "vm1" "rsc_vm1_web" "lsb" "httpd"
      (record (node none) { recover = record recover { state = unknown } }) down probe-Named refl
      refl (web_server none, refl, inl refl) (λ key oh e. cc) refl

-- The transition starts, executes the action, the result arrives, and the transition ends.
abbrev transition : List LoopEvent
transition =
    report
    ∷ run_graph (pseudo_action 4 ∷ rsc_action probe ∷ []) transition_active
    ∷ result 2 (pos 0)
    ∷ run_graph [] transition_complete
    ∷ []

steps-OneJob_example :
    After OneJob (loop_steps (λ doc. true) false "crm" transition (no_nodes, world none monitor []))
steps-OneJob_example =
    steps-OneJob (λ doc. true) false "crm" transition (no_nodes, world none monitor []) refl

abbrev engine_after : Result (XmlNodes × Cape platform) → Option (Bool × ℕ)
engine_after (fault why) = none
engine_after (ok (children, w)) = some (w.pe.busy, w.pe.transition_count)

loop_steps_end :
    engine_after (loop_steps (λ doc. true) false "crm" transition (no_nodes, world none monitor []))
    ≡ some (false, 1)
unfolding loop_steps lookup pe_resource_ocf_exitcode_get process_job pe_process_state process
    nodes_status insert_status entries_status entry_status insert_resource op_history_insert
    remove_status transition_key resource_execute_cb resource_of resource_monitor_execute
    transport_resource_action resource_action_completion resource_action_completed
    resource_state_set action_finish execute_monitor resource_recover_set state_after
    pe_resource_ref pe_resource_unref pe_resource_completed free_text op_history_save dup_text
    history_new history_stamp is_infix is_prefix insert update decimal join print_d print_int
    recover_state_set recover_failed run_next_job
loop_steps_end = refl
