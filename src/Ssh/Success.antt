-- ===== src/Ssh/Success.antt =====
-- A run of `assembly_ssh_exec` in which every call of libssh2 succeeds.
use pacemaker_cloud.Common.{◌≡◌, refl, Bool, true, false, ℤ, eq_ℤ, is_zero, ok, arith, ap}
use pacemaker_cloud.Ssh.{
  SshOp, SshExecState, channel_open, channel_exec, channel_read, channel_read_stderr,
  channel_send_eof, channel_wait_eof, channel_close, channel_wait_closed, channel_free,
}
use pacemaker_cloud.Ssh.Exec.{Ssh2, complete, is_neg, run_from, ssh_exec}

-- Every call succeeds at once.
pub record Succeeds (eagain : ℤ) (ssh : Ssh2) : Type 0 where
  pub opened : ssh.opened ≡ true
  pub exec : is_zero ssh.exec ≡ true
  pub send_eof : is_zero ssh.send_eof ≡ true
  pub wait_eof : is_zero ssh.wait_eof ≡ true
  pub close : is_zero ssh.close ≡ true
  pub read : (is_neg ssh.read ≡ false) × (eq_ℤ ssh.read eagain ≡ false)
  pub read_stderr : (is_neg ssh.read_stderr ≡ false) × (eq_ℤ ssh.read_stderr eagain ≡ false)
  pub wait_closed : is_zero ssh.wait_closed ≡ true
  pub free : is_zero ssh.free ≡ true

abbrev pub final_rc : SshExecState → ℤ → ℤ → ℤ
final_rc channel_free old status = old
final_rc _ old status = status

not_eagain : (z eagain : ℤ) → is_zero z ≡ true → is_zero eagain ≡ false → eq_ℤ z eagain ≡ false
not_eagain z eagain h e = ground arith

module _ {D : Type 0} where
  run-Succeeds :
      (eagain : ℤ) (ndebug : Bool) (ssh : Ssh2)
      → is_zero eagain ≡ false
      → Succeeds eagain ssh
      → (st : SshExecState) (o : SshOp D) → o.ssh_exec_state ≡ st
      → run_from eagain ndebug ssh st o
        ≡ ok (
            complete (record o {
              ssh_exec_state = channel_free;
              ssh_rc = final_rc st o.ssh_rc ssh.get_exit_status;
            }))
  unfolding run_from
  run-Succeeds eagain ndebug ssh e s st o at = go st at
    where
      f : eq_ℤ ssh.free eagain ≡ false
      f = not_eagain ssh.free eagain s.free e

      w : eq_ℤ ssh.wait_closed eagain ≡ false
      w = not_eagain ssh.wait_closed eagain s.wait_closed e

      c : eq_ℤ ssh.close eagain ≡ false
      c = not_eagain ssh.close eagain s.close e

      a : eq_ℤ ssh.wait_eof eagain ≡ false
      a = not_eagain ssh.wait_eof eagain s.wait_eof e

      b : eq_ℤ ssh.send_eof eagain ≡ false
      b = not_eagain ssh.send_eof eagain s.send_eof e

      x : eq_ℤ ssh.exec eagain ≡ false
      x = not_eagain ssh.exec eagain s.exec e

      go :
          (st : SshExecState)
          → o.ssh_exec_state ≡ st
          → run_from eagain ndebug ssh st o
            ≡ ok (
                complete (record o {
                  ssh_exec_state = channel_free;
                  ssh_rc = final_rc st o.ssh_rc ssh.get_exit_status;
                }))
      go channel_free at =
          rw (f, s.free) (ap (λ k. ok (complete (record o { ssh_exec_state = k }))) at)
      go channel_wait_closed at = rw (w, s.wait_closed, f, s.free) refl
      go channel_read_stderr at =
          rw (s.read_stderr.1, s.read_stderr.0, w, s.wait_closed, f, s.free) refl
      go channel_read at =
          rw (s.read.1, s.read.0, s.read_stderr.1, s.read_stderr.0, w, s.wait_closed, f, s.free)
            refl
      go channel_close at =
          rw
            (
              c, s.close, s.read.1, s.read.0, s.read_stderr.1, s.read_stderr.0, w, s.wait_closed, f,
              s.free,
            )
            refl
      go channel_wait_eof at =
          rw
            (
              a, s.wait_eof, c, s.close, s.read.1, s.read.0, s.read_stderr.1, s.read_stderr.0, w,
              s.wait_closed, f, s.free,
            )
            refl
      go channel_send_eof at =
          rw
            (
              b, s.send_eof, a, s.wait_eof, c, s.close, s.read.1, s.read.0, s.read_stderr.1,
              s.read_stderr.0, w, s.wait_closed, f, s.free,
            )
            refl
      go channel_exec at =
          rw
            (
              x, s.exec, b, s.send_eof, a, s.wait_eof, c, s.close, s.read.1, s.read.0,
              s.read_stderr.1, s.read_stderr.0, w, s.wait_closed, f, s.free,
            )
            refl
      go channel_open at =
          rw
            (
              s.opened, x, s.exec, b, s.send_eof, a, s.wait_eof, c, s.close, s.read.1, s.read.0,
              s.read_stderr.1, s.read_stderr.0, w, s.wait_closed, f, s.free,
            )
            refl

  -- Where every call succeeds, one run takes a command from any state to its end, which is not a
  -- failure unless it was one before, with the exit status of the remote command (which a command
  -- that had come as far as freeing its channel already has).
  pub ssh_exec-Succeeds :
      (eagain : ℤ) (ndebug : Bool) (ssh : Ssh2) (o : SshOp D)
      → is_zero eagain ≡ false
      → Succeeds eagain ssh
      → ssh_exec eagain ndebug ssh o
        ≡ ok (
            complete (record o {
              ssh_exec_state = channel_free;
              ssh_rc = final_rc o.ssh_exec_state o.ssh_rc ssh.get_exit_status;
            }))
  unfolding ssh_exec
  ssh_exec-Succeeds eagain ndebug ssh o e s =
      run-Succeeds eagain ndebug ssh e s o.ssh_exec_state o refl
