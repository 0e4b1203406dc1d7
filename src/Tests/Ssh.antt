-- ===== src/Tests/Ssh.antt =====
-- Runs of the command queue of src/trans_ssh.c, with two commands queued.
use pacemaker_cloud.Common.{ℕ, refl, true, false, ℤ, pos, negsuc}
use pacemaker_cloud.Ssh.{SshOp, channel_read, new_op}
use pacemaker_cloud.Ssh.Exec.{Ssh2, ssh_exec}
use pacemaker_cloud.Ssh.Progress.{rank, Advances, ssh_exec-Advances}
use pacemaker_cloud.Ssh.Success.{Succeeds}

-- LIBSSH2_ERROR_EAGAIN.
abbrev pub eagain : ℤ
eagain = negsuc 36

-- Every call succeeds, and the command exits with 7.
abbrev pub good : Ssh2
good = record {
  opened = true;
  last_errno = pos 0;
  exec = pos 0;
  send_eof = pos 0;
  wait_eof = pos 0;
  close = pos 0;
  read = pos 12;
  read_stderr = pos 0;
  wait_closed = pos 0;
  get_exit_status = pos 7;
  free = pos 0;
}

good-Succeeds : Succeeds eagain good
good-Succeeds = record {
  opened = refl;
  exec = refl;
  send_eof = refl;
  wait_eof = refl;
  close = refl;
  read = (refl, refl);
  read_stderr = (refl, refl);
  wait_closed = refl;
  free = refl;
}

abbrev command : SshOp ℕ
command = new_op "service httpd status" 42

-- The output of a command is not there yet.
abbrev waiting : Ssh2
waiting = record good { read = negsuc 36 }

ssh_exec-Advances_example :
    Advances
      (rank channel_read)
      (record command { ssh_exec_state = channel_read })
      (ssh_exec eagain false waiting (record command { ssh_exec_state = channel_read }))
ssh_exec-Advances_example =
    ssh_exec-Advances eagain waiting (record command { ssh_exec_state = channel_read })
