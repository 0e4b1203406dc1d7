-- ===== src/Tests/Daemon.antt =====
-- The node `vm1`, whose health check runs: it times out, or fails, or the node comes up again.
use pacemaker_cloud.Common.{
  ◌==◌, ◌≡◌, refl, true, false, none, some, [], ◌∷◌, pos, negsuc, fault, use_after_free,
  assert_failed, ◌≢◌, arith, ◌>>=◌, if◌then◌else◌, ok,
}
use pacemaker_cloud.Common.Map.{lookup, erase, update}
use pacemaker_cloud.Recover.{Recover, running, unknown, failed, measure, judge}
use pacemaker_cloud.Recover.Total.{Ends}
use pacemaker_cloud.Cape.{Assembly}
use pacemaker_cloud.Cape.History.{history_clear, history_remove, node_op_history_clear}
use pacemaker_cloud.Cape.Memory.{free_text}
use pacemaker_cloud.Ssh.{
  SshOp, session_connected, session_connecting, userauth_publickey_fromfile, Transport, new_op,
}
use pacemaker_cloud.Ssh.Exec.{Ssh2, ssh_exec, complete}
use pacemaker_cloud.Ssh.Success.{Succeeds, ssh_exec-Succeeds}
use pacemaker_cloud.Ssh.Runs.{Has, Completes, run_job-Inv}
use pacemaker_cloud.Daemon.Completes.{healthcheck-Completes}
use pacemaker_cloud.Tests.Ssh.{eagain, good}
use pacemaker_cloud.Ssh.Handlers.{run_job, ssh_timeout, settle}
use pacemaker_cloud.Ssh.Invariant.{Inv}
use pacemaker_cloud.Ssh.Connect.{transport_at, Connection, Dial}
use pacemaker_cloud.Ssh.Link.{DialledIn}
use pacemaker_cloud.Ssh.Release.{taken_down}
use pacemaker_cloud.Daemon.{
  Work, healthcheck, Daemon, client, assembly_healthcheck_failed, connect_step,
  my_instance_state_get,
}
use pacemaker_cloud.Daemon.Restart.{failed_node, Up, Asked}
use pacemaker_cloud.Daemon.Rejoin.{ssh_timeout-Asked, rejoins, settle-after_free}
use pacemaker_cloud.Daemon.Health.{GivenUp, escalate-GivenUp, Checked, connect_step-Checked}
use pacemaker_cloud.Tests.Config.{cloud}
use pacemaker_cloud.Tests.Watch.{platform}
use pacemaker_cloud.Tests.World.{monitor, entry, node, recover, world}

abbrev check : SshOp Work
check = new_op "uptime" (healthcheck "vm1")

abbrev pub checking : Transport Work
checking = record {
  ssh_state = session_connected;
  scheduled = true;
  ssh_op_head = 0 ∷ [];
  jobs = 0 ∷ [];
  ops = λ q. if q == 0 then some check else none;
  next_op = 1;
  keepalive_timer = true;
  healthcheck_timer = false;
}

pub checking-Inv : Inv checking
checking-Inv = record {
  scheduled = refl;
  jobs = (refl, refl);
  connected = refl;
  queued = ((check, refl, refl, refl, omega arith), tt);
  distinct = (tt, tt);
}

abbrev link : Transport Work → Connection Work
link t = record {
  slot = transport_at t;
  connect_jobs = 0;
  ssh_jobs = 0;
  exec_jobs = [];
  sessions = 1;
}

-- The history has an entry of the node's resource.
abbrev pub daemon : Transport Work → Daemon platform
daemon t = record {
  cape = world none monitor (("rsc_vm1_web_monitor_10000", entry) ∷ []);
  links = λ n. link t;
}

abbrev pub vm : Assembly platform
vm = node none

vm-Up : Up "vm1" vm (daemon checking).cape
unfolding lookup update node_op_history_clear history_clear history_remove free_text erase
vm-Up = record { node = refl; not_failed = refl; unmeasured = refl; clears = (_, refl) }

ssh_timeout-Asked_example :
    Ends
      (Asked "vm1" (failed_node vm) (taken_down session_connected) (daemon checking))
      (ssh_timeout (client true cloud "vm1") 0 (daemon checking))
ssh_timeout-Asked_example =
    ssh_timeout-Asked cloud "vm1" vm checking 0 check (daemon checking) vm-Up
      (refl, (refl, refl, refl)) checking-Inv refl refl

rejoins_example :
    Ends
      (λ d'. DialledIn session_connecting (d'.links "vm1"))
      (ssh_timeout (client true cloud "vm1") 0 (daemon checking)
        >>= my_instance_state_get true cloud (λ id. ok (some ("ACTIVE", some "10.0.0.7"))) "vm1")
rejoins_example =
    rejoins cloud "vm1" "10.0.0.7" vm checking 0 check (daemon checking) vm-Up
      (refl, (refl, refl, refl)) checking-Inv refl refl refl

abbrev failed_check : SshOp Work
failed_check = record check { ssh_rc = pos 255 }

settle-after_free_example :
    settle (client true cloud "vm1") 0 checking (daemon checking) (complete failed_check)
    ≡ fault use_after_free
settle-after_free_example =
    settle-after_free cloud "vm1" vm checking 0 failed_check (daemon checking) vm-Up refl refl refl
      refl

-- One failure in a minute is too many.
abbrev strict : Recover platform
strict = record {
  state = running;
  num_failures = pos 1;
  failure_period = pos 60;
  sw = some (record { times = []; size = 1 });
}

abbrev strict_vm : Assembly platform
strict_vm = record vm { recover = strict }

abbrev strict_daemon : Daemon platform
strict_daemon = record (daemon checking) {
  cape = record (world none monitor []) { assembly_map = ("vm1", strict_vm) ∷ [] };
}

escalate-GivenUp_example :
    Ends
      (GivenUp true cloud "vm1" strict_vm checking
        (record strict { state = failed; sw = some (record { times = []; size = 1 }) })
        strict_daemon)
      (assembly_healthcheck_failed true cloud "vm1" strict_daemon)
unfolding lookup measure judge
escalate-GivenUp_example =
    escalate-GivenUp true cloud "vm1" strict_vm checking
      (record strict { state = failed; sw = some (record { times = []; size = 1 }) }) strict_daemon
      refl refl refl refl refl

-- The key is accepted.
abbrev knocking : Transport Work
knocking = record checking {
  ssh_state = userauth_publickey_fromfile;
  scheduled = false;
  ssh_op_head = [];
  jobs = [];
}

knocking-Inv : Inv knocking
knocking-Inv = record { scheduled = refl; jobs = tt; connected = tt; queued = tt; distinct = tt }

abbrev accepted : Dial
accepted = record { connected = true; session = true; startup = pos 0; userauth = pos 0 }

abbrev new_vm : Assembly platform
new_vm = record vm { recover = record recover { state = unknown } }

abbrev new_daemon : Daemon platform
new_daemon = record (daemon knocking) {
  cape = record (world none monitor []) { assembly_map = ("vm1", new_vm) ∷ [] };
}

connect_step-Checked_example :
    Ends
      (Checked true cloud "vm1" 1)
      (connect_step true cloud (negsuc 36) accepted "vm1" new_daemon)
unfolding lookup
connect_step-Checked_example =
    connect_step-Checked true cloud (negsuc 36) accepted "vm1" new_vm knocking new_daemon refl refl
      refl knocking-Inv refl refl

-- Every call succeeds, and the health check exits with 0.
abbrev passing : Ssh2
passing = record good { get_exit_status = pos 0 }

passing-Succeeds : Succeeds eagain passing
passing-Succeeds = record {
  opened = refl;
  exec = refl;
  send_eof = refl;
  wait_eof = refl;
  close = refl;
  read = (refl, refl);
  read_stderr = (refl, refl);
  wait_closed = refl;
  free = refl;
}

-- The command runs without a failed `assert`.
no_assert :
    (o : SshOp Work)
    → checking.ops 0 ≡ some o
    → ssh_exec eagain false passing o ≢ fault assert_failed
no_assert o e = λ f. cc (ssh_exec-Succeeds eagain false passing o (refl) passing-Succeeds)

-- Its end starts the timer of the next one.
completes :
    (o o' : SshOp Work)
    → checking.ops 0 ≡ some o
    → ssh_exec eagain false passing o ≡ ok (complete o')
    → Completes
        (client true cloud "vm1")
        0
        o'
        (record checking { jobs = [] })
        ((client true cloud "vm1").put (record checking { jobs = [] }) (daemon checking))
unfolding lookup
completes o o' e run =
    let done = ssh_exec-Succeeds eagain false passing o (refl) passing-Succeeds in
    healthcheck-Completes cloud "vm1" vm
      ((client true cloud "vm1").put (record checking { jobs = [] }) (daemon checking)) refl refl 0
      o' (record checking { jobs = [] }) (cc (done)) (cc (done))

run_job-Inv_example :
    Ends
      (Has (client true cloud "vm1") Inv)
      (run_job (client true cloud "vm1") eagain false passing 0 (daemon checking))
unfolding lookup
run_job-Inv_example =
    run_job-Inv (client true cloud "vm1") (λ t d. refl) eagain passing 0 [] checking
      (daemon checking) refl checking-Inv refl no_assert completes
