-- ===== src/Daemon/Action.antt =====
-- An action of a resource, from the moment it is handed to the transport until its result is there.
use pacemaker_cloud.Common.{
  ℕ, is_zero, ◌≡◌, refl, ap, ◌∙◌, Bool, true, false, none, some, [], String, ℤ, ==_self, eq_refl,
  Result, ok, fault, use_after_free, assert_failed, ◌>>=◌,
}
use pacemaker_cloud.Recover.Outside.{Platform}
use pacemaker_cloud.Recover.Total.{Ends}
use pacemaker_cloud.Cape.{PeOperation, Cape}
use pacemaker_cloud.Cape.Memory.{load_op, store}
use pacemaker_cloud.Cape.Instance.{Cloud}
use pacemaker_cloud.Cape.Monitor.{transport_resource_action, resource_action_completion}
use pacemaker_cloud.Ssh.{
  is_connected, Transport, session_connected, channel_free, new_op, transport_execute,
  transport_schedule, remove,
}
use pacemaker_cloud.Ssh.Exec.{Ssh2}
use pacemaker_cloud.Ssh.Success.{Succeeds, ssh_exec-Succeeds}
use pacemaker_cloud.Ssh.Handlers.{run_job, unlinked}
use pacemaker_cloud.Ssh.Once.{run_once}
use pacemaker_cloud.Ssh.Command.{command_of}
use pacemaker_cloud.Ssh.Connect.{Slot, null_transport, freed_transport, transport_at}
use pacemaker_cloud.Daemon.{Work, resource_action, Daemon, client, set_cape, put_transport}
use pacemaker_cloud.Daemon.Health.{only_op, execute_idle}

-- A transport with nothing to do.
abbrev pub IsIdle : Slot Work → Type 0
IsIdle null_transport = ⊥
IsIdle freed_transport = ⊥
IsIdle (transport_at t) = (t.ssh_op_head ≡ []) × (t.jobs ≡ []) × (t.scheduled ≡ false)

schedule-IsIdle :
    (t : Transport Work)
    → t.ssh_op_head ≡ []
    → t.jobs ≡ []
    → IsIdle (transport_at (transport_schedule t))
unfolding transport_schedule
schedule-IsIdle t e j = rw (e, j) (refl, refl, refl)

module _ {p : Platform} where
  put-IsIdle :
      (key : String) (t : Transport Work) (d : Daemon p)
      → IsIdle (transport_at t)
      → IsIdle ((put_transport key t d).links key).slot
  put-IsIdle key t d h = rw (eq_refl key) h

  -- `transport_resource_action`: the reference, and the command.
  unfoldable pub send_action : String → ℕ → Daemon p → Result (Daemon p)
  send_action key q d = do
    o ← load_op q d.cape
    w ← transport_resource_action q d.cape
    command ← command_of o
    elim (d.links key).slot [
      | null_transport ↦ fault assert_failed
      | freed_transport ↦ fault use_after_free
      | transport_at t ↦
          ok
            (put_transport key (transport_execute command (resource_action key q) t) (set_cape d w))
    ]

  sent :
      (key : String) (q : ℕ) (o : PeOperation) (command : String) (t : Transport Work)
      (d : Daemon p) (w : Cape p)
      → d.cape.ops q ≡ some o
      → transport_resource_action q d.cape ≡ ok w
      → command_of o ≡ ok command
      → (d.links key).slot ≡ transport_at t
      → t.ssh_state ≡ session_connected
      → t.ssh_op_head ≡ []
      → t.scheduled ≡ false
      → send_action key q d
        ≡ ok (put_transport key (only_op command (resource_action key q) t) (set_cape d w))
  unfolding send_action
  sent key q o command t d w live ref text at up empty idle =
      rw (live, ref, text)
        (rw at (
          ap (λ t₁. ok (put_transport key t₁ (set_cape d w)))
            (execute_idle command (resource_action key q) t up empty idle)))

  -- When an action is handed to the idle transport of a node, and every call of libssh2 then succeeds,
  -- one run of its job brings the exit status of the remote command to the operation as its result; the
  -- transport is idle again.
  pub send_action-result :
      (cloud : Cloud) (key : String) (q : ℕ) (o : PeOperation) (command : String)
      (t : Transport Work) (d : Daemon p) (w w' : Cape p) (eagain : ℤ) (ndebug : Bool) (ssh : Ssh2)
      → d.cape.ops q ≡ some o
      → transport_resource_action q d.cape ≡ ok w
      → command_of o ≡ ok command
      → (d.links key).slot ≡ transport_at t
      → t.ssh_state ≡ session_connected
      → t.ssh_op_head ≡ []
      → t.scheduled ≡ false
      → t.jobs ≡ []
      → is_zero eagain ≡ false
      → Succeeds eagain ssh
      → resource_action_completion q ssh.get_exit_status w ≡ ok w'
      → Ends
          (λ d'. (d'.cape ≡ w') × IsIdle (d'.links key).slot)
          (send_action key q d >>= run_job (client true cloud key) eagain ndebug ssh t.next_op)
  send_action-result cloud key q o command t d w w' eagain ndebug ssh live ref text at up empty idle
        none_left e good ends =
      let c = client {p = p} true cloud key in
      let o₁ = new_op command (resource_action key q) in
      let o₂ = record o₁ { ssh_exec_state = channel_free; ssh_rc = ssh.get_exit_status } in
      let t₁ = only_op command (resource_action key q) t in
      let t₂ = record t₁ { jobs = remove t.next_op t₁.jobs } in
      let t₃ = unlinked c t.next_op o₂ t₂ in
      let d₁ = put_transport key t₁ (set_cape d w) in
      let d₂ = put_transport key t₃ (put_transport key t₂ d₁) in
      let ran =
        run_once c (λ t' w'. rw (eq_refl key) refl) eagain ndebug ssh t.next_op o₁ o₂ t₁ t₃ d₁
          (set_cape d₂ w') (rw (eq_refl key) refl) (rw (==_self t.next_op) refl)
          (ap is_connected up) (ssh_exec-Succeeds eagain ndebug ssh o₁ e good) refl
          (ap (λ m. m >>= λ w'. ok (set_cape d₂ w')) ends) (rw (eq_refl key) refl) in
      (
        _,
        ap (λ m. m >>= run_job c eagain ndebug ssh t.next_op)
              (sent key q o command t d w live ref text at up empty idle)
            ∙ ran,
        (
          refl,
          put-IsIdle key _ (put_transport key _ (set_cape d₂ w')) (
              schedule-IsIdle (record t₃ { ops = store t.next_op none t₃.ops })
                (rw (==_self t.next_op) refl) (rw (none_left, ==_self t.next_op) refl)),
        ),
      )
