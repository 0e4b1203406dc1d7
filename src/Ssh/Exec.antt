-- ===== src/Ssh/Exec.antt =====
-- `assembly_ssh_exec` of src/trans_ssh.c: the states that a command goes through, each falling
-- through to the next unless libssh2 asks to be called again.
use pacemaker_cloud.Common.{
  Bool, true, false, not, ℤ, pos, negsuc, eq_ℤ, is_zero, Result, ok, fault, assert_failed,
  if◌then◌else◌,
}
use pacemaker_cloud.Ssh.{
  SshOp, SshExecState, channel_open, channel_exec, channel_read, channel_read_stderr,
  channel_send_eof, channel_wait_eof, channel_close, channel_wait_closed, channel_free,
}

-- What the calls of libssh2 return in one run of the handler, each of which it makes at most once.
-- `opened` is whether the session opens a channel, and `last_errno` its error if not.
pub record Ssh2 : Type 0 where
  pub opened : Bool
  pub last_errno : ℤ
  pub exec : ℤ
  pub send_eof : ℤ
  pub wait_eof : ℤ
  pub close : ℤ
  pub read : ℤ
  pub read_stderr : ℤ
  pub wait_closed : ℤ
  pub get_exit_status : ℤ
  pub free : ℤ

-- How a run of the handler ends: it asks for another run, it returns with nothing scheduled, or the
-- command is done.
pub data Outcome (D : Type 0) : Type 0 where
  repeat stop complete : SshOp D → Outcome D

abbrev pub is_neg : ℤ → Bool
is_neg (pos n) = false
is_neg (negsuc n) = true

abbrev pub is_nonzero : ℤ → Bool
is_nonzero z = not (is_zero z)

-- `eagain` is LIBSSH2_ERROR_EAGAIN; `ndebug` is whether `assert` is compiled out.
module _ (eagain : ℤ) (ndebug : Bool) (ssh : Ssh2) {D : Type 0} where
  abbrev pub in_state : SshExecState → SshOp D → SshOp D
  in_state s o = record o { ssh_exec_state = s }

  unfoldable pub run_free : SshOp D → Result (Outcome D)
  run_free o =
      if eq_ℤ ssh.free eagain
      then ok (repeat o)
      else if is_zero ssh.free
      then ok (complete o)
      else if ndebug
      then ok (complete o)
      else fault assert_failed

  -- `assert (0); ssh_op->failed = 1; goto channel_free;`
  unfoldable pub give_up : SshOp D → Result (Outcome D)
  unfolding run_free
  give_up o =
      if ndebug
      then run_free (in_state channel_free (record o { failed = true }))
      else fault assert_failed

  -- A call that returned `rc`: wait, give up, or go on.
  abbrev pub stage : (ℤ → Bool) → ℤ → SshOp D → Result (Outcome D) → Result (Outcome D)
  stage is_bad rc o next =
      if eq_ℤ rc eagain then ok (repeat o) else if is_bad rc then give_up o else next

  unfoldable pub run_wait_closed : SshOp D → Result (Outcome D)
  unfolding run_free give_up
  run_wait_closed o =
      stage is_nonzero ssh.wait_closed o
        (run_free (in_state channel_free (record o { ssh_rc = ssh.get_exit_status })))

  unfoldable pub run_read_stderr : SshOp D → Result (Outcome D)
  unfolding run_wait_closed
  run_read_stderr o =
      stage is_neg ssh.read_stderr o (run_wait_closed (in_state channel_wait_closed o))

  unfoldable pub run_read : SshOp D → Result (Outcome D)
  unfolding run_read_stderr
  run_read o = stage is_neg ssh.read o (run_read_stderr (in_state channel_read_stderr o))

  unfoldable pub run_close : SshOp D → Result (Outcome D)
  unfolding run_read
  run_close o = stage is_nonzero ssh.close o (run_read (in_state channel_read o))

  unfoldable pub run_wait_eof : SshOp D → Result (Outcome D)
  unfolding run_close
  run_wait_eof o = stage is_nonzero ssh.wait_eof o (run_close (in_state channel_close o))

  unfoldable pub run_send_eof : SshOp D → Result (Outcome D)
  unfolding run_wait_eof
  run_send_eof o = stage is_nonzero ssh.send_eof o (run_wait_eof (in_state channel_wait_eof o))

  unfoldable pub run_exec : SshOp D → Result (Outcome D)
  unfolding run_send_eof
  run_exec o = stage is_nonzero ssh.exec o (run_send_eof (in_state channel_send_eof o))

  unfoldable pub run_open : SshOp D → Result (Outcome D)
  unfolding run_exec
  run_open o =
      if ssh.opened
      then run_exec (in_state channel_exec o)
      else if eq_ℤ ssh.last_errno eagain
      then ok (repeat o)
      else ok (stop o)

  unfoldable pub run_from : SshExecState → SshOp D → Result (Outcome D)
  unfolding run_open
  run_from channel_open o = run_open o
  run_from channel_exec o = run_exec o
  run_from channel_send_eof o = run_send_eof o
  run_from channel_wait_eof o = run_wait_eof o
  run_from channel_close o = run_close o
  run_from channel_read o = run_read o
  run_from channel_read_stderr o = run_read_stderr o
  run_from channel_wait_closed o = run_wait_closed o
  run_from channel_free o = run_free o

  -- The `switch` of `assembly_ssh_exec`.
  unfoldable pub ssh_exec : SshOp D → Result (Outcome D)
  unfolding run_from
  ssh_exec o = run_from o.ssh_exec_state o
