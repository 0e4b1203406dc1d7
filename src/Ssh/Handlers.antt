-- ===== src/Ssh/Handlers.antt =====
-- The handlers of src/trans_ssh.c that the main loop runs for a command: a round of its execution,
-- its end, and its time-out. The two functions that a command carries act on the whole state `W`.
use pacemaker_cloud.Common.{
  ℕ, Bool, false, Option, none, some, [], ◌∷◌, ◌++◌, ℤ, Result, ok, fault, assert_failed, ◌>>=◌,
  if◌then◌else◌,
}
use pacemaker_cloud.Cape.Memory.{store, live}
use pacemaker_cloud.Ssh.{
  SshOp, Transport, is_connected, remove, transport_schedule, transport_unschedule, stop_timers,
}
use pacemaker_cloud.Ssh.Exec.{Ssh2, Outcome, repeat, stop, complete, ssh_exec}

-- Where the transport stands in `W`, nothing after it was freed; and what the commands carry.
pub record Client (D : Type 0) (W : Type 0) : Type 0 where
  pub get : W → Option (Transport D)
  pub put : Transport D → W → W
  pub completion_func : D → ℤ → W → Result W
  pub timeout_func : D → W → Result W

module _ {D W : Type 0} (c : Client D W) where
  -- `qb_loop_timer_del` and `qb_list_del`.
  abbrev pub unlinked : ℕ → SshOp D → Transport D → Transport D
  unlinked q o t = record t {
    ssh_op_head = remove q t.ssh_op_head;
    ops = store q (some (record o { timer = false })) t.ops;
  }

  -- `free` of a command; its memory goes with the transport in this model.
  abbrev pub free_op : ℕ → Option (Transport D) → W → W
  free_op q none w = w
  free_op q (some t) w = c.put (record t { ops = store q none t.ops }) w

  unfoldable pub ssh_op_complete : ℕ → SshOp D → W → Result W
  ssh_op_complete q o w = do
    t ← live (c.get w)
    let w₁ = c.put (unlinked q o t) w
    w₂ ← (if o.failed then ok w₁ else c.completion_func o.work o.ssh_rc w₁)
    ok (free_op q (c.get w₂) w₂)

  unfoldable pub settle : ℕ → Transport D → W → Outcome D → Result W
  unfolding ssh_op_complete
  settle q t w (repeat o) =
      ok (c.put (record t { ops = store q (some o) t.ops; jobs = t.jobs ++ q ∷ [] }) w)
  settle q t w (stop o) = ok (c.put (record t { ops = store q (some o) t.ops }) w)
  settle q t w (complete o) = do
    w₁ ← ssh_op_complete q o w
    t₁ ← live (c.get w₁)
    ok (c.put (transport_schedule t₁) w₁)

  unfoldable pub assembly_ssh_exec : ℤ → Bool → Ssh2 → ℕ → W → Result W
  unfolding settle
  assembly_ssh_exec eagain ndebug ssh q w = do
    t ← live (c.get w)
    o ← live (t.ops q)
    if is_connected t.ssh_state
        then (ssh_exec eagain ndebug ssh o >>= settle q t w)
        else fault assert_failed

  -- The main loop takes a job off its list and runs it.
  unfoldable pub run_job : ℤ → Bool → Ssh2 → ℕ → W → Result W
  run_job eagain ndebug ssh q w = do
    t ← live (c.get w)
    assembly_ssh_exec eagain ndebug ssh q (c.put (record t { jobs = remove q t.jobs }) w)

  abbrev pub timed_out : Transport D → Transport D
  timed_out t =
      let t₁ = transport_unschedule t in
      record t₁ { ops = stop_timers t₁.ssh_op_head t₁.ops; ssh_op_head = [] }

  unfoldable pub ssh_timeout : ℕ → W → Result W
  ssh_timeout q w = do
    t ← live (c.get w)
    o ← live (t.ops q)
    c.timeout_func o.work (c.put (timed_out t) w)
