-- ===== src/Ssh/Progress.antt =====
-- What a run of `assembly_ssh_exec` does to its command.
use pacemaker_cloud.Common.{
  ℕ, ◌≤◌, ◌≡◌, refl, Bool, false, ℤ, eq_ℤ, is_zero, Result, ok, fault, assert_failed, arith,
  Bool-cases, inl, inr,
}
use pacemaker_cloud.Ssh.{
  SshOp, SshExecState, channel_open, channel_exec, channel_read, channel_read_stderr,
  channel_send_eof, channel_wait_eof, channel_close, channel_wait_closed, channel_free,
}
use pacemaker_cloud.Ssh.Exec.{
  Ssh2, Outcome, repeat, stop, complete, is_neg, is_nonzero, stage, give_up, run_free,
  run_wait_closed, run_read_stderr, run_read, run_close, run_wait_eof, run_send_eof, run_exec,
  run_open, run_from, ssh_exec,
}

-- The place of a state in the order in which a command goes through them.
abbrev pub rank : SshExecState → ℕ
rank channel_open = 0
rank channel_exec = 1
rank channel_send_eof = 2
rank channel_wait_eof = 3
rank channel_close = 4
rank channel_read = 5
rank channel_read_stderr = 6
rank channel_wait_closed = 7
rank channel_free = 8

-- A run changes neither what a command carries, nor its text, its timer, or whether it failed.
pub record SameCommand {D : Type 0} (o o' : SshOp D) : Type 0 where
  pub same_work : o'.work ≡ o.work
  pub same_command : o'.command ≡ o.command
  pub same_timer : o'.timer ≡ o.timer
  pub same_failed : o'.failed ≡ o.failed

-- What a run that starts at the n-th state may end in.
abbrev pub Advances : {D : Type 0} → ℕ → SshOp D → Result (Outcome D) → Type 0
Advances n o (fault e) = e ≡ assert_failed
Advances n o (ok (repeat o')) = SameCommand o o' × (n ≤ rank o'.ssh_exec_state)
Advances n o (ok (stop o')) = SameCommand o o' × (o'.ssh_exec_state ≡ channel_open)
Advances n o (ok (complete o')) = SameCommand o o' × (o'.ssh_exec_state ≡ channel_free)

module _ (eagain : ℤ) (ssh : Ssh2) {D : Type 0} (o : SshOp D) where
  moved :
      (s : SshExecState) (rc : ℤ) (o' : SshOp D)
      → SameCommand o o'
      → SameCommand o (record o' { ssh_exec_state = s; ssh_rc = rc })
  moved s rc o' same = record {
    same_work = same.same_work;
    same_command = same.same_command;
    same_timer = same.same_timer;
    same_failed = same.same_failed;
  }

  stage-Advances :
      (n : ℕ) (is_bad : ℤ → Bool) (rc : ℤ) (o' : SshOp D) (next : Result (Outcome D))
      → SameCommand o o'
      → n ≤ rank o'.ssh_exec_state
      → Advances n o next
      → Advances n o (stage eagain false ssh is_bad rc o' next)
  unfolding give_up
  stage-Advances n is_bad rc o' next same le h = elim (Bool-cases (eq_ℤ rc eagain)) [
    | inl e ↦ rw e (same, le)
    | inr e ↦ elim (Bool-cases (is_bad rc)) [ inl b ↦ rw (e, b) refl | inr b ↦ rw (e, b) h ]
  ]

  free-Advances :
      (n : ℕ) (o' : SshOp D)
      → SameCommand o o'
      → n ≤ 8
      → o'.ssh_exec_state ≡ channel_free
      → Advances n o (run_free eagain false ssh o')
  unfolding run_free
  free-Advances n o' same le st = elim (Bool-cases (eq_ℤ ssh.free eagain)) [
    | inl e ↦ rw e (same, rw st le)
    | inr e ↦ elim (Bool-cases (is_zero ssh.free)) [
      | inl z ↦ rw (e, z) (same, st)
      | inr z ↦ rw (e, z) refl
    ]
  ]

  wait_closed-Advances :
      (n : ℕ) (o' : SshOp D)
      → SameCommand o o'
      → n ≤ 7
      → o'.ssh_exec_state ≡ channel_wait_closed
      → Advances n o (run_wait_closed eagain false ssh o')
  unfolding run_wait_closed
  wait_closed-Advances n o' same le st =
      stage-Advances n is_nonzero ssh.wait_closed o'
        (run_free eagain false ssh
          (record o' { ssh_exec_state = channel_free; ssh_rc = ssh.get_exit_status }))
        same (rw st le)
        (free-Advances n (record o' { ssh_exec_state = channel_free; ssh_rc = ssh.get_exit_status })
          (moved channel_free ssh.get_exit_status o' same) (omega arith) refl)

  read_stderr-Advances :
      (n : ℕ) (o' : SshOp D)
      → SameCommand o o'
      → n ≤ 6
      → o'.ssh_exec_state ≡ channel_read_stderr
      → Advances n o (run_read_stderr eagain false ssh o')
  unfolding run_read_stderr
  read_stderr-Advances n o' same le st =
      stage-Advances n is_neg ssh.read_stderr o'
        (run_wait_closed eagain false ssh (record o' { ssh_exec_state = channel_wait_closed })) same
        (rw st le)
        (wait_closed-Advances n (record o' { ssh_exec_state = channel_wait_closed })
          (moved channel_wait_closed o'.ssh_rc o' same) (omega arith) refl)

  read-Advances :
      (n : ℕ) (o' : SshOp D)
      → SameCommand o o'
      → n ≤ 5
      → o'.ssh_exec_state ≡ channel_read
      → Advances n o (run_read eagain false ssh o')
  unfolding run_read
  read-Advances n o' same le st =
      stage-Advances n is_neg ssh.read o'
        (run_read_stderr eagain false ssh (record o' { ssh_exec_state = channel_read_stderr })) same
        (rw st le)
        (read_stderr-Advances n (record o' { ssh_exec_state = channel_read_stderr })
          (moved channel_read_stderr o'.ssh_rc o' same) (omega arith) refl)

  close-Advances :
      (n : ℕ) (o' : SshOp D)
      → SameCommand o o'
      → n ≤ 4
      → o'.ssh_exec_state ≡ channel_close
      → Advances n o (run_close eagain false ssh o')
  unfolding run_close
  close-Advances n o' same le st =
      stage-Advances n is_nonzero ssh.close o'
        (run_read eagain false ssh (record o' { ssh_exec_state = channel_read })) same (rw st le)
        (read-Advances n (record o' { ssh_exec_state = channel_read })
          (moved channel_read o'.ssh_rc o' same) (omega arith) refl)

  wait_eof-Advances :
      (n : ℕ) (o' : SshOp D)
      → SameCommand o o'
      → n ≤ 3
      → o'.ssh_exec_state ≡ channel_wait_eof
      → Advances n o (run_wait_eof eagain false ssh o')
  unfolding run_wait_eof
  wait_eof-Advances n o' same le st =
      stage-Advances n is_nonzero ssh.wait_eof o'
        (run_close eagain false ssh (record o' { ssh_exec_state = channel_close })) same (rw st le)
        (close-Advances n (record o' { ssh_exec_state = channel_close })
          (moved channel_close o'.ssh_rc o' same) (omega arith) refl)

  send_eof-Advances :
      (n : ℕ) (o' : SshOp D)
      → SameCommand o o'
      → n ≤ 2
      → o'.ssh_exec_state ≡ channel_send_eof
      → Advances n o (run_send_eof eagain false ssh o')
  unfolding run_send_eof
  send_eof-Advances n o' same le st =
      stage-Advances n is_nonzero ssh.send_eof o'
        (run_wait_eof eagain false ssh (record o' { ssh_exec_state = channel_wait_eof })) same
        (rw st le)
        (wait_eof-Advances n (record o' { ssh_exec_state = channel_wait_eof })
          (moved channel_wait_eof o'.ssh_rc o' same) (omega arith) refl)

  exec-Advances :
      (n : ℕ) (o' : SshOp D)
      → SameCommand o o'
      → n ≤ 1
      → o'.ssh_exec_state ≡ channel_exec
      → Advances n o (run_exec eagain false ssh o')
  unfolding run_exec
  exec-Advances n o' same le st =
      stage-Advances n is_nonzero ssh.exec o'
        (run_send_eof eagain false ssh (record o' { ssh_exec_state = channel_send_eof })) same
        (rw st le)
        (send_eof-Advances n (record o' { ssh_exec_state = channel_send_eof })
          (moved channel_send_eof o'.ssh_rc o' same) (omega arith) refl)

  open-Advances :
      (o' : SshOp D)
      → SameCommand o o'
      → o'.ssh_exec_state ≡ channel_open
      → Advances 0 o (run_open eagain false ssh o')
  unfolding run_open
  open-Advances o' same st = elim (Bool-cases ssh.opened) [
    | inl y ↦ rw y (
        exec-Advances 0 (record o' { ssh_exec_state = channel_exec })
          (moved channel_exec o'.ssh_rc o' same) (omega arith) refl)
    | inr y ↦ elim (Bool-cases (eq_ℤ ssh.last_errno eagain)) [
      | inl e ↦ rw (y, e) (same, omega arith)
      | inr e ↦ rw (y, e) (same, st)
    ]
  ]

  same_self : SameCommand o o
  same_self = record {
    same_work = refl;
    same_command = refl;
    same_timer = refl;
    same_failed = refl;
  }

  from-Advances :
      (st : SshExecState)
      → o.ssh_exec_state ≡ st
      → Advances (rank st) o (run_from eagain false ssh st o)
  unfolding run_from
  from-Advances channel_open st = open-Advances o same_self st
  from-Advances channel_exec st = exec-Advances 1 o same_self (omega arith) st
  from-Advances channel_send_eof st = send_eof-Advances 2 o same_self (omega arith) st
  from-Advances channel_wait_eof st = wait_eof-Advances 3 o same_self (omega arith) st
  from-Advances channel_close st = close-Advances 4 o same_self (omega arith) st
  from-Advances channel_read st = read-Advances 5 o same_self (omega arith) st
  from-Advances channel_read_stderr st = read_stderr-Advances 6 o same_self (omega arith) st
  from-Advances channel_wait_closed st = wait_closed-Advances 7 o same_self (omega arith) st
  from-Advances channel_free st = free-Advances 8 o same_self (omega arith) st

  -- Whatever libssh2 answers, a run never takes a command back to an earlier state, changes nothing
  -- that the command carries, and ends only with its channel freed; a run that schedules nothing and
  -- does not end the command leaves it where no channel is open. Other than that a run ends at an
  -- `assert`, and only there.
  pub ssh_exec-Advances : Advances (rank o.ssh_exec_state) o (ssh_exec eagain false ssh o)
  unfolding ssh_exec
  ssh_exec-Advances = from-Advances o.ssh_exec_state refl
