-- ===== src/Ssh/Link.antt =====
-- The jobs and the session of a connection: what each state on the way up goes with.
use pacemaker_cloud.Common.{
  ℕ, ◌-◌, ◌≤◌, ◌≡◌, refl, true, ℤ, Result, ok, fault, arith, eq_ℤ, is_zero, Bool-cases, inl, inr,
  subst,
}
use pacemaker_cloud.Recover.Total.{Ends}
use pacemaker_cloud.Ssh.{
  SshState, session_connecting, session_init, session_startup, userauth_publickey_fromfile,
  keepalive_config, session_connected, Transport,
}
use pacemaker_cloud.Ssh.Connect.{
  transport_at, Connection, Dial, Progress, again, gave_up, is_running, connect_execute,
  authenticate, start_session, init_session, connect_from, ssh_assembly_connect,
}

-- The jobs `connect_execute`, the jobs `ssh_assembly_connect` and the sessions that a state goes
-- with. A session that could not be started has no job.
abbrev pub Waits : SshState → ℕ → ℕ → ℕ → Type 0
Waits session_connecting c j s = (c ≡ 1) × (j ≡ 0) × (s ≡ 0)
Waits session_init c j s = (c ≡ 0) × (j ≡ 1) × (s ≡ 0)
Waits session_startup c j s = (c ≡ 0) × (j ≤ 1) × (s ≡ 1)
Waits userauth_publickey_fromfile c j s = (c ≡ 0) × (j ≡ 1) × (s ≡ 1)
Waits keepalive_config c j s = ⊥
Waits session_connected c j s = (c ≡ 0) × (j ≡ 0) × (s ≡ 1)

module _ {D : Type 0} where
  abbrev pub Dialled : Transport D → Connection D → Type 0
  Dialled t k = (k.slot ≡ transport_at t) × Waits t.ssh_state k.connect_jobs k.ssh_jobs k.sessions

  abbrev pub DialledIn : SshState → Connection D → Type 0
  DialledIn s k = (t : Transport D) × (t.ssh_state ≡ s) × Dialled t k

  -- What a run of `ssh_assembly_connect` may end in.
  abbrev pub Goes : Result (Progress D) → Type 0
  Goes (ok (again k)) = ((t : Transport D) × Dialled t k) × (k.ssh_jobs ≡ 1)
  Goes (ok (gave_up k)) = DialledIn session_startup k × (k.ssh_jobs ≡ 0)
  Goes (ok (is_running k)) = DialledIn session_connected k
  Goes (fault why) = ⊥

  -- The first job connects the socket or tries again.
  pub connect_execute-Dialled :
      (d : Dial) (t : Transport D) (k : Connection D)
      → Dialled t k
      → t.ssh_state ≡ session_connecting
      → Ends
          (λ k'. (t' : Transport D) × Dialled t' k')
          (connect_execute d (record k { connect_jobs = k.connect_jobs - 1 }))
  unfolding connect_execute
  connect_execute-Dialled d t k (at, w) e = elim (Bool-cases d.connected) [
    | inl h ↦
        let (c, j, s) : Waits session_connecting k.connect_jobs k.ssh_jobs k.sessions =
          subst (λ st. Waits st k.connect_jobs k.ssh_jobs k.sessions) e w in
        rw (at, h)
          (_, refl, (record t { ssh_state = session_init }, (refl, (omega arith, omega arith, s))))
    | inr h ↦
        let (c, j, s) : Waits session_connecting k.connect_jobs k.ssh_jobs k.sessions =
          subst (λ st. Waits st k.connect_jobs k.ssh_jobs k.sessions) e w in
        rw (at, h) (_, refl, (t, (refl, rw e (omega arith, j, s))))
  ]

  authenticate-Goes :
      (eagain : ℤ) (d : Dial) (t : Transport D) (k : Connection D)
      → k.slot ≡ transport_at t
      → t.ssh_state ≡ userauth_publickey_fromfile
      → k.connect_jobs ≡ 0
      → k.ssh_jobs ≡ 0
      → k.sessions ≡ 1
      → Goes (ok (authenticate eagain d t k))
  unfolding authenticate
  authenticate-Goes eagain d t k at e c j s = elim (Bool-cases (eq_ℤ d.userauth eagain)) [
    | inl h ↦ rw h ((t, (at, rw e (c, omega arith, s))), omega arith)
    | inr h ↦ rw h (
      record t { ssh_state = session_connected; keepalive_timer = true },
      refl,
      (refl, (c, j, s)),
    )
  ]

  start_session-Goes :
      (eagain : ℤ) (d : Dial) (t : Transport D) (k : Connection D)
      → k.slot ≡ transport_at t
      → t.ssh_state ≡ session_startup
      → k.connect_jobs ≡ 0
      → k.ssh_jobs ≡ 0
      → k.sessions ≡ 1
      → Goes (ok (start_session eagain d t k))
  unfolding start_session
  start_session-Goes eagain d t k at e c j s = elim (Bool-cases (eq_ℤ d.startup eagain)) [
    | inl h ↦ rw h ((t, (at, rw e (c, omega arith, s))), omega arith)
    | inr h ↦ elim (Bool-cases (is_zero d.startup)) [
      | inl z ↦ rw (h, z) (authenticate-Goes eagain d _ _ refl refl c j s)
      | inr z ↦ rw (h, z) ((t, e, (at, rw e (c, omega arith, s))), j)
    ]
  ]

  init_session-Goes :
      (eagain : ℤ) (d : Dial) (t : Transport D) (k : Connection D)
      → k.slot ≡ transport_at t
      → t.ssh_state ≡ session_init
      → k.connect_jobs ≡ 0
      → k.ssh_jobs ≡ 0
      → k.sessions ≡ 0
      → Goes (ok (init_session eagain d t k))
  unfolding init_session
  init_session-Goes eagain d t k at e c j s = elim (Bool-cases d.session) [
    | inl h ↦ rw h (start_session-Goes eagain d _ _ refl refl c j (omega arith))
    | inr h ↦ rw h ((t, (at, rw e (c, omega arith, s))), omega arith)
  ]

  from-Goes :
      (eagain : ℤ) (d : Dial) (st : SshState) (t : Transport D) (k : Connection D)
      → t.ssh_state ≡ st
      → k.slot ≡ transport_at t
      → Waits st k.connect_jobs k.ssh_jobs k.sessions
      → 1 ≤ k.ssh_jobs
      → Goes (connect_from eagain d st t (record k { ssh_jobs = k.ssh_jobs - 1 }))
  unfolding connect_from
  from-Goes eagain d session_connecting t k e at (c, j, s) h = absurd (omega arith)
  from-Goes eagain d session_init t k e at (c, j, s) h =
      init_session-Goes eagain d t _ at e c (omega arith) s
  from-Goes eagain d session_startup t k e at (c, j, s) h =
      start_session-Goes eagain d t _ at e c (omega arith) s
  from-Goes eagain d userauth_publickey_fromfile t k e at (c, j, s) h =
      authenticate-Goes eagain d t _ at e c (omega arith) s
  from-Goes eagain d keepalive_config t k e at w h = absurd w
  from-Goes eagain d session_connected t k e at (c, j, s) h = absurd (omega arith)

  -- A job `ssh_assembly_connect` never fails, whatever libssh2 answers: the connection asks for
  -- another run, with one job; or it is there, with no job left and one session, whether the key was
  -- accepted or not; or it gives up as it starts the session, with no job left that would try again.
  pub ssh_assembly_connect-Goes :
      (eagain : ℤ) (d : Dial) (t : Transport D) (k : Connection D)
      → Dialled t k
      → 1 ≤ k.ssh_jobs
      → Goes (ssh_assembly_connect eagain d (record k { ssh_jobs = k.ssh_jobs - 1 }))
  unfolding ssh_assembly_connect
  ssh_assembly_connect-Goes eagain d t k (at, w) h =
      rw at (from-Goes eagain d t.ssh_state t (record k { slot = transport_at t }) refl refl w h)
