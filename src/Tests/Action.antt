-- ===== src/Tests/Action.antt =====
-- The monitor of the web server is handed to the idle transport of `vm1`, and reports success.
use pacemaker_cloud.Common.{
  ◌≡◌, refl, true, false, some, [], ◌∷◌, pos, negsuc, Result, ok, fault, ◌>>=◌,
}
use pacemaker_cloud.Common.Map.{lookup}
use pacemaker_cloud.Common.Text.{is_infix}
use pacemaker_cloud.Common.Print.{print_d}
use pacemaker_cloud.Recover.{recover_state_set}
use pacemaker_cloud.Recover.Total.{Ends}
use pacemaker_cloud.Ocf.{pe_resource_ocf_exitcode_get}
use pacemaker_cloud.Cape.{PeOperation, Cape}
use pacemaker_cloud.Cape.Memory.{pe_resource_ref, pe_resource_unref, pe_resource_completed}
use pacemaker_cloud.Cape.History.{op_history_save}
use pacemaker_cloud.Cape.Monitor.{
  transport_resource_action, resource_action_completion, resource_action_completed, resource_of,
  resource_state_set, resource_recover_set, action_finish, state_after,
}
use pacemaker_cloud.Ssh.{Transport}
use pacemaker_cloud.Ssh.Command.{command_of, lsb_command}
use pacemaker_cloud.Ssh.Exec.{Ssh2}
use pacemaker_cloud.Ssh.Success.{Succeeds}
use pacemaker_cloud.Ssh.Handlers.{run_job}
use pacemaker_cloud.Daemon.{Work, client}
use pacemaker_cloud.Daemon.Action.{IsIdle, send_action, send_action-result}
use pacemaker_cloud.Tests.Config.{cloud}
use pacemaker_cloud.Tests.Daemon.{checking, daemon}
use pacemaker_cloud.Tests.Watch.{platform}
use pacemaker_cloud.Tests.World.{monitor}

abbrev idle : Transport Work
idle = record checking { scheduled = false; ssh_op_head = []; jobs = [] }

abbrev good : Ssh2
good = record {
  opened = true;
  last_errno = pos 0;
  exec = pos 0;
  send_eof = pos 0;
  wait_eof = pos 0;
  close = pos 0;
  read = pos 12;
  read_stderr = pos 0;
  wait_closed = pos 0;
  get_exit_status = pos 0;
  free = pos 0;
}

good-Succeeds : Succeeds (negsuc 36) good
good-Succeeds = record {
  opened = refl;
  exec = refl;
  send_eof = refl;
  wait_eof = refl;
  close = refl;
  read = (refl, refl);
  read_stderr = (refl, refl);
  wait_closed = refl;
  free = refl;
}

abbrev outcome : Result (Cape platform) → Cape platform
outcome (ok w) = w
outcome (fault why) = (daemon idle).cape

abbrev handed : Cape platform
handed = outcome (transport_resource_action 0 (daemon idle).cape)

abbrev reported : Cape platform
reported = outcome (resource_action_completion 0 (pos 0) handed)

send_action-result_example :
    Ends
      (λ d'. (d'.cape ≡ reported) × IsIdle (d'.links "vm1").slot)
      (send_action "vm1" 0 (daemon idle)
        >>= run_job (client true cloud "vm1") (negsuc 36) false good 1)
unfolding transport_resource_action resource_action_completion pe_resource_ref command_of
    lsb_command resource_action_completed resource_of lookup is_infix op_history_save print_d
    pe_resource_completed resource_state_set state_after pe_resource_ocf_exitcode_get
    resource_recover_set recover_state_set action_finish pe_resource_unref
send_action-result_example =
    send_action-result cloud "vm1" 0 monitor "systemctl status httpd.service" idle (daemon idle)
      handed reported (negsuc 36) false good refl refl refl refl refl refl refl refl refl
      good-Succeeds refl

abbrev ip_monitor : PeOperation
ip_monitor = record monitor {
  rclass = "ocf";
  rprovider = some "heartbeat";
  rtype = "IPaddr";
  params = ("ip", "10.0.0.9") ∷ [];
}
