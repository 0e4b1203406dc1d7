-- ===== src/Ssh/Once.antt =====
-- One run of the job of a command that it brings to its end.
use pacemaker_cloud.Common.{ℕ, ◌≡◌, refl, ap, if_false, Bool, true, false, none, some, ℤ, ok}
use pacemaker_cloud.Cape.Memory.{store}
use pacemaker_cloud.Ssh.{SshOp, Transport, is_connected, remove, transport_schedule}
use pacemaker_cloud.Ssh.Exec.{Ssh2, complete, ssh_exec}
use pacemaker_cloud.Ssh.Handlers.{
  Client, unlinked, free_op, ssh_op_complete, settle, assembly_ssh_exec, run_job,
}

module _ {D W : Type 0} (c : Client D W)
    (get-put : (t : Transport D) (w : W) → c.get (c.put t w) ≡ some t) where
  completes :
      (q : ℕ) (o : SshOp D) (t t₃ : Transport D) (w w₂ : W)
      → c.get w ≡ some t
      → o.failed ≡ false
      → c.completion_func o.work o.ssh_rc (c.put (unlinked c q o t) w) ≡ ok w₂
      → c.get w₂ ≡ some t₃
      → ssh_op_complete c q o w ≡ ok (c.put (record t₃ { ops = store q none t₃.ops }) w₂)
  unfolding ssh_op_complete
  completes q o t t₃ w w₂ g good run g₂ =
      rw
        (
          g,
          if_false o.failed (ok (c.put (unlinked c q o t) w))
              (c.completion_func o.work o.ssh_rc (c.put (unlinked c q o t) w)) good,
          run,
        )
        (ap (λ x. ok (free_op c q x w₂)) g₂)

  pub run_once :
      (eagain : ℤ) (ndebug : Bool) (ssh : Ssh2) (q : ℕ) (o o' : SshOp D) (t t₃ : Transport D)
      (w w₂ : W)
      → c.get w ≡ some t
      → t.ops q ≡ some o
      → is_connected t.ssh_state ≡ true
      → ssh_exec eagain ndebug ssh o ≡ ok (complete o')
      → o'.failed ≡ false
      → c.completion_func o'.work o'.ssh_rc (
          c.put
            (unlinked c q o' (record t { jobs = remove q t.jobs }))
            (c.put (record t { jobs = remove q t.jobs }) w))
        ≡ ok w₂
      → c.get w₂ ≡ some t₃
      → run_job c eagain ndebug ssh q w
        ≡ ok (
            c.put
              (transport_schedule (record t₃ { ops = store q none t₃.ops }))
              (c.put (record t₃ { ops = store q none t₃.ops }) w₂))
  unfolding run_job assembly_ssh_exec settle
  run_once eagain ndebug ssh q o o' t t₃ w w₂ g live up exec good run g₂ =
      let t₁ = record t { jobs = remove q t.jobs } in
      rw (g, get-put t₁ w, live, up, exec)
        (rw
          (
            completes q o' t₁ t₃ (c.put t₁ w) w₂ (get-put t₁ w) good run g₂,
            get-put (record t₃ { ops = store q none t₃.ops }) w₂,
          )
          refl)
