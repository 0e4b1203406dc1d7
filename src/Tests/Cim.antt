-- ===== src/Tests/Cim.antt =====
-- The web server of `vm1` is monitored and started by a CIM server.
use pacemaker_cloud.Common.{
  ◌≡◌, refl, true, false, some, none, [], pos, fault, use_after_free, double_free, ◌>>=◌, arith,
  inl,
}
use pacemaker_cloud.Common.Map.{lookup}
use pacemaker_cloud.Recover.{failed, unknown}
use pacemaker_cloud.Recover.Total.{Ends}
use pacemaker_cloud.Cape.{PeOperation, Cape}
use pacemaker_cloud.Cape.History.{node_op_history_clear}
use pacemaker_cloud.Cape.Monitor.{resource_action_completed}
use pacemaker_cloud.Cape.Count.{CanComplete}
use pacemaker_cloud.Cape.Completion.{executed}
use pacemaker_cloud.Cape.Recurring.{with_count, kept_count}
use pacemaker_cloud.Cape.Codes.{to_monitor}
use pacemaker_cloud.Cape.Outcome.{ResourceIs, completed-state}
use pacemaker_cloud.Cim.{Cimc, cimc_boolean, cimc_uint32}
use pacemaker_cloud.Cim.Codes.{IsServed}
use pacemaker_cloud.Cim.Jobs.{
  CimAction, CimDaemon, call_started, perform_action, next_action, cim_resource_action,
  cim_node_restart, cim_instance_state_completion,
}
use pacemaker_cloud.Cim.Round.{cim_round-Ends, monitor_turned, change_outcome}
use pacemaker_cloud.Cim.Stale.{CanName, rejoined_after_free}
use pacemaker_cloud.Tests.Cape.{fresh, fresh-CanComplete}
use pacemaker_cloud.Tests.Config.{cloud}
use pacemaker_cloud.Tests.Watch.{platform}
use pacemaker_cloud.Tests.World.{web, monitor, web_server, node, world}

-- A failed monitor leaves the resource failed.
completed-state_example : Ends (ResourceIs web failed) (resource_action_completed 0 (pos 7) fresh)
completed-state_example = completed-state to_monitor 0 (pos 7) monitor fresh refl fresh-CanComplete

-- A server on which the service is started, and that refuses calls.
abbrev server : Cimc
server = record {
  new_env = true;
  connect = λ address. true;
  new_object_path = true;
  new_string = λ service. 0;
  log_survives = true;
  get_property = λ service property. (cimc_boolean 1, 0);
  invoke_method = λ service method. (cimc_uint32 2, 0);
}

server-CanName : CanName server
server-CanName = record { named = λ service. refl; path = refl }

abbrev on_server : Cape platform → CimDaemon platform
on_server w = record {
  cape = w;
  clients = record { env = true; in_use = λ c. true; next_client = 1 };
  transports = λ key. some 0;
  jobs = [];
}

abbrev daemon : CimDaemon platform
daemon = on_server fresh

daemon-IsServed : IsServed server daemon.clients (some 0) "httpd"
daemon-IsServed = record {
  client = 0;
  connected = refl;
  kept = refl;
  environment = refl;
  named = refl;
  path = refl;
}

cim_round-Ends_example :
    Ends
      (λ d'.
        (d'.cape.ops 0 ≡ with_count (executed monitor) (kept_count true false 0)) × (d'.jobs ≡ []))
      (cim_resource_action cloud true true "vm1" 0 daemon >>= next_action server)
unfolding pacemaker_cloud.Cim.cim_service_started
cim_round-Ends_example =
    cim_round-Ends server cloud "vm1" 0 monitor 0 (pos 1) call_started daemon fresh-CanComplete refl
      (omega arith) refl refl refl refl

monitor_turned_example :
    Ends
      (λ d'. ResourceIs web failed d'.cape)
      (cim_resource_action cloud true true "vm1" 0 daemon >>= next_action server)
monitor_turned_example =
    monitor_turned server cloud "vm1" 0 monitor 0 1 daemon fresh-CanComplete refl (omega arith) refl
      refl refl daemon-IsServed refl

abbrev start : PeOperation
start = record monitor { method = "start"; interval = 0 }

abbrev starting : Cape platform
starting = world none start []

starting-CanComplete : CanComplete 0 start starting
unfolding lookup
starting-CanComplete = record {
  op_live = refl;
  digests = record { mine = ("d41d8", refl); entry = λ oh e. cc };
  resource_there = (web_server none, refl, inl refl);
}

change_outcome_example :
    Ends
      (λ d'. ResourceIs web unknown d'.cape)
      (cim_resource_action cloud true true "vm1" 0 (on_server starting) >>= next_action server)
change_outcome_example =
    change_outcome server cloud "vm1" 0 start 0 true (on_server starting) starting-CanComplete refl
      (omega arith) refl refl refl daemon-IsServed

rejoined_after_free_example :
    Ends
      (λ d'.
        ((action : CimAction)
          → action.transport ≡ d'.transports "vm1"
          → perform_action server action d' ≡ fault use_after_free)
        × (cim_node_restart cloud "vm1" d' ≡ fault double_free))
      (cim_node_restart cloud "vm1" daemon
        >>= cim_instance_state_completion cloud server "vm1" "ACTIVE" (some "10.0.0.6"))
unfolding lookup node_op_history_clear pacemaker_cloud.Cape.History.history_clear
rejoined_after_free_example =
    rejoined_after_free server cloud "vm1" 0 (node none) "10.0.0.6" daemon fresh server-CanName refl
      refl refl refl refl
