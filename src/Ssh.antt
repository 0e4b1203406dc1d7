-- ===== src/Ssh.antt =====
-- src/trans_ssh.c: the SSH transport of an assembly. This file has its data, the queue of commands
-- and the scheduling of the command at its head.
pub mod Exec
pub mod Handlers
pub mod Success
pub mod Progress
pub mod Queue
pub mod Invariant
pub mod Runs
pub mod Connect
pub mod Link
pub mod Release
pub mod Command
pub mod Once
use pacemaker_cloud.Common.{
  ℕ, suc, ◌+◌, ◌≡◌, Bool, true, false, not, Option, none, some, List, [], ◌∷◌, ◌++◌, String, ℤ, pos,
  ◌==◌, if◌then◌else◌,
}
use pacemaker_cloud.Cape.Memory.{store}

-- `enum ssh_state`.
pub data SshState : Type 0 where
  session_connecting session_init session_startup : SshState
  userauth_publickey_fromfile keepalive_config session_connected : SshState

-- `enum ssh_exec_state`.
pub data SshExecState : Type 0 where
  channel_open channel_exec channel_read channel_read_stderr channel_send_eof : SshExecState
  channel_wait_eof channel_close channel_wait_closed channel_free : SshExecState

-- `struct ssh_op`; `work` is `data` with the two functions that act on it, and `timer` is whether
-- `ssh_timer` runs.
pub record SshOp (D : Type 0) : Type 0 where
  pub ssh_rc : ℤ
  pub timer : Bool
  pub ssh_exec_state : SshExecState
  pub failed : Bool
  pub command : String
  pub work : D

-- `struct trans_ssh`: `ssh_op_head` is the queue of pointers, the oldest first; `jobs` are the jobs
-- `assembly_ssh_exec` that the main loop has; `ops` is the memory of commands.
pub record Transport (D : Type 0) : Type 0 where
  pub ssh_state : SshState
  pub scheduled : Bool
  pub ssh_op_head : List ℕ
  pub jobs : List ℕ
  pub ops : ℕ → Option (SshOp D)
  pub next_op : ℕ
  pub keepalive_timer : Bool
  pub healthcheck_timer : Bool

abbrev pub is_connected : SshState → Bool
is_connected session_connected = true
is_connected _ = false

-- `qb_loop_job_del`, and `qb_list_del`.
abbrev pub remove : ℕ → List ℕ → List ℕ
remove q [] = []
remove q (x ∷ xs) = if x == q then remove q xs else x ∷ remove q xs

abbrev pub drop_job : List ℕ → List ℕ → List ℕ
drop_job [] jobs = jobs
drop_job (q ∷ rest) jobs = remove q jobs

module _ {D : Type 0} where
  schedule_head : List ℕ → Transport D → Transport D
  schedule_head [] t = record t { scheduled = false }
  schedule_head (q ∷ rest) t = record t { scheduled = true; jobs = t.jobs ++ q ∷ [] }

  unfoldable pub transport_schedule : Transport D → Transport D
  unfolding schedule_head
  transport_schedule t = schedule_head t.ssh_op_head t

  unfoldable pub transport_unschedule : Transport D → Transport D
  transport_unschedule t =
      if t.scheduled
      then record t { scheduled = false; jobs = drop_job t.ssh_op_head t.jobs }
      else t

  abbrev pub new_op : String → D → SshOp D
  new_op command work = record {
    ssh_rc = pos 0;
    timer = true;
    ssh_exec_state = channel_open;
    failed = false;
    command = command;
    work = work;
  }

  -- Nothing is queued unless the session is connected. (The timer is started at the end of the
  -- function, on every path that queues the command.)
  unfoldable pub transport_execute : String → D → Transport D → Transport D
  unfolding transport_schedule
  transport_execute command work t =
      let queued = record t {
        ssh_op_head = t.ssh_op_head ++ t.next_op ∷ [];
        ops = store t.next_op (some (new_op command work)) t.ops;
        next_op = t.next_op + 1;
      } in
      if is_connected t.ssh_state
      then (if t.scheduled then queued else transport_schedule queued)
      else t

  abbrev pub stop_timer : Option (SshOp D) → Option (SshOp D)
  stop_timer none = none
  stop_timer (some o) = some (record o { timer = false })

  -- The loop of `ssh_timeout`: the timers of the queued commands are deleted and the commands
  -- unlinked. Their memory is not freed.
  unfoldable pub stop_timers : List ℕ → (ℕ → Option (SshOp D)) → ℕ → Option (SshOp D)
  stop_timers [] ops = ops
  stop_timers (q ∷ qs) ops = stop_timers qs (store q (stop_timer (ops q)) ops)
