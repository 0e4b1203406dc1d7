-- ===== src/Daemon/Completes.antt =====
-- The end of a health check that the node passes, as the command queue needs it.
use pacemaker_cloud.Common.{ℕ, ◌≡◌, refl, true, some, pos, eq_refl, String, ℤ}
use pacemaker_cloud.Common.Map.{lookup}
use pacemaker_cloud.Recover.Outside.{Platform}
use pacemaker_cloud.Recover.Total.{Ends}
use pacemaker_cloud.Recover.{running}
use pacemaker_cloud.Cape.{Assembly}
use pacemaker_cloud.Cape.Instance.{Cloud}
use pacemaker_cloud.Ssh.{SshOp, Transport}
use pacemaker_cloud.Ssh.Handlers.{unlinked}
use pacemaker_cloud.Ssh.Runs.{Has, MidWithout, Completes}
use pacemaker_cloud.Daemon.{Work, healthcheck, Daemon, client, assembly_healthcheck_completion}

module _ {p : Platform} (cloud : Cloud) (key : String) (a : Assembly p) (d : Daemon p)
    (here : lookup key d.cape.assembly_map ≡ some a) (up : a.recover.state ≡ running) where
  -- The timer of the next health check is started.
  passes :
      (work : Work) (rc : ℤ) (q : ℕ) (t : Transport Work)
      → work ≡ healthcheck key
      → rc ≡ pos 0
      → MidWithout q t
      → Ends
          (Has (client true cloud key) (MidWithout q))
          ((client true cloud key).completion_func work rc ((client true cloud key).put t d))
  unfolding assembly_healthcheck_completion
  passes work rc q t is_check zero (m, apart) =
      rw (is_check, zero, here, up, eq_refl key)
        (
          _,
          refl,
          (
            record t { healthcheck_timer = true },
            rw (eq_refl key) refl,
            (
              record {
                scheduled = m.scheduled;
                jobs = m.jobs;
                connected = m.connected;
                queued = m.queued;
                distinct = m.distinct;
              },
              apart,
            ),
          ),
        )

  pub healthcheck-Completes :
      (q : ℕ) (o : SshOp Work) (t : Transport Work)
      → o.work ≡ healthcheck key
      → o.ssh_rc ≡ pos 0
      → Completes (client true cloud key) q o t d
  healthcheck-Completes q o t is_check zero m =
      passes o.work o.ssh_rc q (unlinked (client {p = p} true cloud key) q o t) is_check zero m
