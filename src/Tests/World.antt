-- ===== src/Tests/World.antt =====
-- A running node `vm1` with a web server that is monitored every ten seconds.
use pacemaker_cloud.Common.{
  ℕ, ◌==◌, false, Option, none, some, List, [], ◌∷◌, String, minus_one, if◌then◌else◌,
}
use pacemaker_cloud.Recover.{Recover, running}
use pacemaker_cloud.Cape.{Ref, PeOperation, OperationHistory, Resource, Assembly, Cape}
use pacemaker_cloud.Tests.Watch.{platform}

abbrev pub web : Ref
web = record { assembly = "vm1"; name = "rsc_vm1_web" }

-- Operation 0, whose digest is text 0.
abbrev pub monitor : PeOperation
monitor = record {
  hostname = "vm1";
  method = "monitor";
  rname = "rsc_vm1_web";
  rclass = "lsb";
  rprovider = none;
  rtype = "httpd";
  params = [];
  op_digest = 0;
  timeout = 20000;
  times_executed = 0;
  interval = 10000;
  target_outcome = 0;
  action = 0;
  resource = some web;
  graph_id = 1;
  action_id = 4;
  refcount = 1;
}

-- Operation 1, made from a changed configuration: its digest is text 1.
abbrev pub changed_monitor : PeOperation
changed_monitor = record monitor { op_digest = 1 }

-- The entry for these operations has a digest of its own, text 2.
abbrev pub entry : OperationHistory
entry = record {
  rsc_id = "rsc_vm1_web_monitor_10000";
  operation = "monitor";
  call_id = 1;
  interval = 10000;
  rc = minus_one;
  target_outcome = 0;
  last_run = 0;
  last_rc_change = 0;
  graph_id = 1;
  action_id = 4;
  op_digest = 2;
  resource = some web;
}

abbrev pub recover : Recover platform
recover = record {
  state = running;
  num_failures = minus_one;
  failure_period = minus_one;
  sw = none;
}

abbrev pub web_server : Option ℕ → Resource platform
web_server timer = record {
  name = "rsc_vm1_web";
  type = "httpd";
  rclass = "lsb";
  rprovider = none;
  assembly = "vm1";
  monitor_op = some 0;
  monitor_timer = timer;
  recover = recover;
  ref_params_map = [];
}

abbrev pub node : Option ℕ → Assembly platform
node timer = record {
  name = "vm1";
  uuid = "u1";
  address = some "10.0.0.5";
  instance_id = "i-1";
  image_id = "f14";
  resource_map = ("rsc_vm1_web", web_server timer) ∷ [];
  recover = recover;
}

abbrev pub two_ops : PeOperation → ℕ → Option PeOperation
two_ops first q = if q == 0 then some first else if q == 1 then some changed_monitor else none

abbrev pub three_texts : ℕ → Option String
three_texts q =
    if q == 0
    then some "d41d8"
    else if q == 1
    then some "a87ff"
    else if q == 2
    then some "d41d8"
    else none

abbrev pub world : Option ℕ → PeOperation → List (String × OperationHistory) → Cape platform
world timer first history = record {
  now = 5000000;
  assembly_map = ("vm1", node timer) ∷ [];
  op_history_map = history;
  call_order = 2;
  ops = two_ops first;
  next_op = 2;
  texts = three_texts;
  next_text = 3;
  pe = record {
    busy = false;
    graph_updated = false;
    aborted = false;
    actions = λ _. record { failed = false; confirmed = false };
    updates = [];
    next_jobs = 0;
    transition_count = 0;
  };
  process_jobs = 0;
  actions_sent = [];
  events = [];
  destroyed = [];
  created = [];
  state_gets = [];
}
