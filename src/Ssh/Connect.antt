-- ===== src/Ssh/Connect.antt =====
-- Connecting a transport in src/trans_ssh.c, and taking it down: `transport_connect`,
-- `connect_execute`, `ssh_assembly_connect`, `transport_failed` and `transport_disconnect`.
use pacemaker_cloud.Common.{
  ℕ, ◌+◌, ◌-◌, Bool, true, false, none, List, [], ℤ, eq_ℤ, is_zero, Result, ok, fault,
  use_after_free, null_pointer, assert_failed, ◌>>=◌, if◌then◌else◌,
}
use pacemaker_cloud.Ssh.{
  SshState, session_connecting, session_init, session_startup, userauth_publickey_fromfile,
  keepalive_config, session_connected, Transport, is_connected, transport_unschedule,
}

-- `assembly->transport`, which keeps its value when the transport is freed.
pub data Slot (D : Type 0) : Type 0 where
  null_transport freed_transport : Slot D
  transport_at : Transport D → Slot D

-- A node's connection. `connect_jobs` and `ssh_jobs` count the jobs `connect_execute` and
-- `ssh_assembly_connect` of the main loop, `exec_jobs` are its jobs `assembly_ssh_exec` for commands
-- of a transport that is gone, and `sessions` counts the sessions of libssh2 that are not freed.
pub record Connection (D : Type 0) : Type 0 where
  pub slot : Slot D
  pub connect_jobs : ℕ
  pub ssh_jobs : ℕ
  pub exec_jobs : List ℕ
  pub sessions : ℕ

-- What the calls return in one run of a handler. `connected` is whether `connect` returns 0, and
-- `session` whether a session is made.
pub record Dial : Type 0 where
  pub connected : Bool
  pub session : Bool
  pub startup : ℤ
  pub userauth : ℤ

-- How a run of `ssh_assembly_connect` ends: another run is asked for, it gives up, or the node is set
-- to running and its first health check starts.
pub data Progress (D : Type 0) : Type 0 where
  again gave_up is_running : Connection D → Progress D

-- `libssh2_session_free`, which the last `switch` of `transport_disconnect` reaches from two states.
abbrev pub frees_session : SshState → Bool
frees_session session_connected = true
frees_session session_startup = true
frees_session _ = false

abbrev pub is_init : SshState → Bool
is_init session_init = true
is_init _ = false

abbrev pub is_connecting : SshState → Bool
is_connecting session_connecting = true
is_connecting _ = false

module _ {D : Type 0} where
  abbrev pub get_transport : Slot D → Result (Transport D)
  get_transport null_transport = fault null_pointer
  get_transport freed_transport = fault use_after_free
  get_transport (transport_at t) = ok t

  abbrev pub new_transport : Transport D
  new_transport = record {
    ssh_state = session_connecting;
    scheduled = false;
    ssh_op_head = [];
    jobs = [];
    ops = λ q. none;
    next_op = 0;
    keepalive_timer = false;
    healthcheck_timer = false;
  }

  -- libssh2 was started, which the source asserts.
  unfoldable pub transport_connect : Connection D → Connection D
  transport_connect k = record k {
    slot = transport_at new_transport;
    connect_jobs = k.connect_jobs + 1;
  }

  abbrev pub in_session_state : SshState → Transport D → Connection D → Connection D
  in_session_state s t k = record k { slot = transport_at (record t { ssh_state = s }) }

  -- The job, which the main loop has taken off its list.
  unfoldable pub connect_execute : Dial → Connection D → Result (Connection D)
  connect_execute d k = do
    t ← get_transport k.slot
    if d.connected
        then ok (in_session_state session_init t (record k { ssh_jobs = k.ssh_jobs + 1 }))
        else ok (record k { connect_jobs = k.connect_jobs + 1 })

  abbrev pub repeat_job : Connection D → Connection D
  repeat_job k = record k { ssh_jobs = k.ssh_jobs + 1 }

  -- From the configuration of the keep-alive on, which starts its timer.
  abbrev pub keepalive : Transport D → Connection D → Connection D
  keepalive t k = in_session_state session_connected (record t { keepalive_timer = true }) k

  -- Authentication goes on to the next state whether it succeeds or not.
  unfoldable pub authenticate : ℤ → Dial → Transport D → Connection D → Progress D
  authenticate eagain d t k =
      if eq_ℤ d.userauth eagain then again (repeat_job k) else is_running (keepalive t k)

  unfoldable pub start_session : ℤ → Dial → Transport D → Connection D → Progress D
  unfolding authenticate
  start_session eagain d t k =
      let t₁ = record t { ssh_state = userauth_publickey_fromfile } in
      if eq_ℤ d.startup eagain
      then again (repeat_job k)
      else if is_zero d.startup
      then authenticate eagain d t₁ (record k { slot = transport_at t₁ })
      else gave_up k

  unfoldable pub init_session : ℤ → Dial → Transport D → Connection D → Progress D
  unfolding start_session
  init_session eagain d t k =
      let t₁ = record t { ssh_state = session_startup } in
      if d.session
      then start_session eagain d t₁
          (record k { slot = transport_at t₁; sessions = k.sessions + 1 })
      else again (repeat_job k)

  -- The `switch` of `ssh_assembly_connect`.
  unfoldable pub connect_from :
      ℤ → Dial → SshState → Transport D → Connection D → Result (Progress D)
  unfolding init_session
  connect_from eagain d session_init t k = ok (init_session eagain d t k)
  connect_from eagain d session_startup t k = ok (start_session eagain d t k)
  connect_from eagain d userauth_publickey_fromfile t k = ok (authenticate eagain d t k)
  connect_from eagain d keepalive_config t k = ok (is_running (keepalive t k))
  connect_from eagain d session_connected t k = ok (is_running k)
  connect_from eagain d session_connecting t k = fault assert_failed

  unfoldable pub ssh_assembly_connect : ℤ → Dial → Connection D → Result (Progress D)
  unfolding connect_from
  ssh_assembly_connect eagain d k = do
    t ← get_transport k.slot
    connect_from eagain d t.ssh_state t k

  -- `qb_loop_job_del` of `connect_execute` in one state, of `ssh_assembly_connect` in all but one and
  -- again at the end in all but one, and of the job of the head of the queue. Deleting a job that is
  -- not there changes nothing.
  unfoldable pub release_in : SshState → List ℕ → Connection D → Connection D
  release_in s exec_jobs k =
      let first_del = if is_connected s then k.ssh_jobs else k.ssh_jobs - 1 in
      record {
        slot = freed_transport;
        connect_jobs = if is_init s then k.connect_jobs - 1 else k.connect_jobs;
        ssh_jobs = if is_connecting s then first_del else first_del - 1;
        exec_jobs = exec_jobs;
        sessions = if frees_session s then k.sessions - 1 else k.sessions;
      }

  -- The jobs of commands that the main loop keeps.
  abbrev pub exec_left : Transport D → List ℕ
  exec_left t = if is_connected t.ssh_state then (transport_unschedule t).jobs else t.jobs

  unfoldable pub transport_release : Transport D → Connection D → Connection D
  unfolding release_in
  transport_release t k = release_in t.ssh_state (exec_left t) k

  -- The file descriptor is read from the freed transport at the end; `readable` is whether that is
  -- harmless.
  unfoldable pub transport_disconnect : Bool → Connection D → Result (Connection D)
  unfolding transport_release
  transport_disconnect readable k = elim k.slot [
    | null_transport ↦ ok k
    | freed_transport ↦ fault use_after_free
    | transport_at t ↦ if readable then ok (transport_release t k) else fault use_after_free
  ]
