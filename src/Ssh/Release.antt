-- ===== src/Ssh/Release.antt =====
-- What is left of the jobs and the session of a connection when it is taken down.
use pacemaker_cloud.Common.{
  ℕ, ◌≡◌, refl, sym, ap, ◌∙◌, true, false, not, List, [], ◌∷◌, ok, fault, use_after_free, arith,
  if_true, if_false, Bool-cases, inl, inr, ==_self, subst,
}
use pacemaker_cloud.Recover.Total.{Ends}
use pacemaker_cloud.Ssh.{
  SshState, session_connecting, session_init, session_startup, userauth_publickey_fromfile,
  keepalive_config, session_connected, Transport, is_connected, transport_unschedule, drop_job,
}
use pacemaker_cloud.Ssh.Queue.{is_empty}
use pacemaker_cloud.Ssh.Invariant.{Inv, HeadJob, Connected}
use pacemaker_cloud.Ssh.Connect.{
  freed_transport, Connection, Dial, connect_execute, release_in, exec_left, transport_release,
  transport_disconnect,
}
use pacemaker_cloud.Ssh.Link.{Waits, Dialled}

-- The jobs and sessions that are left after the connection was taken down.
abbrev pub connect_left : SshState → ℕ
connect_left session_connecting = 1
connect_left _ = 0

abbrev pub session_left : SshState → ℕ
session_left userauth_publickey_fromfile = 1
session_left _ = 0

jobs_left : (queue jobs : List ℕ) → HeadJob queue jobs → drop_job queue jobs ≡ []
jobs_left [] [] h = refl
jobs_left [] (j ∷ js) h = absurd h
jobs_left (q ∷ rest) [] h = refl
jobs_left (q ∷ rest) (j ∷ js) (same, none_more) = rw (same, none_more, ==_self q) refl

no_jobs : (js : List ℕ) → HeadJob [] js → js ≡ []
no_jobs [] h = refl
no_jobs (j ∷ js) h = absurd h

module _ {D : Type 0} where
  pub unscheduled_jobs :
      (queue : List ℕ) (t : Transport D)
      → t.ssh_op_head ≡ queue
      → Inv t
      → (transport_unschedule t).jobs ≡ []
  unfolding transport_unschedule
  unscheduled_jobs [] t e v =
      let s : t.scheduled ≡ false = v.scheduled ∙ ap (λ q. not (is_empty q)) e in
      rw s (no_jobs t.jobs (subst (λ q. HeadJob q t.jobs) e v.jobs))
  unscheduled_jobs (q ∷ rest) t e v =
      let s : t.scheduled ≡ true = v.scheduled ∙ ap (λ q. not (is_empty q)) e in
      rw s (jobs_left t.ssh_op_head t.jobs v.jobs)

  pub unconnected_jobs :
      (queue : List ℕ) (t : Transport D)
      → t.ssh_op_head ≡ queue
      → is_connected t.ssh_state ≡ false
      → Inv t
      → t.jobs ≡ []
  unconnected_jobs [] t e c v = no_jobs t.jobs (subst (λ q. HeadJob q t.jobs) e v.jobs)
  unconnected_jobs (q ∷ rest) t e c v =
      let on : is_connected t.ssh_state ≡ true =
        subst (λ q. Connected q t.ssh_state) e v.connected in
      let clash : true ≡ false = sym on ∙ c in cc

  exec_left-Inv : (t : Transport D) → Inv t → exec_left t ≡ []
  exec_left-Inv t v = elim (Bool-cases (is_connected t.ssh_state)) [
    | inl c ↦
        if_true (is_connected t.ssh_state) (transport_unschedule t).jobs t.jobs c
        ∙ unscheduled_jobs t.ssh_op_head t refl v
    | inr c ↦
        if_false (is_connected t.ssh_state) (transport_unschedule t).jobs t.jobs c
        ∙ unconnected_jobs t.ssh_op_head t refl c v
  ]

  -- What is left of a connection that was taken down in a state.
  abbrev pub taken_down : SshState → Connection D
  taken_down s = record {
    slot = freed_transport;
    connect_jobs = connect_left s;
    ssh_jobs = 0;
    exec_jobs = [];
    sessions = session_left s;
  }

  release_in-Waits :
      (s : SshState) (k : Connection D)
      → Waits s k.connect_jobs k.ssh_jobs k.sessions
      → release_in s [] k ≡ taken_down s
  unfolding release_in
  release_in-Waits s k w = fields s w
    where
      of :
          {c c' j j' n n' : ℕ}
          → c ≡ c'
          → j ≡ j'
          → n ≡ n'
          → ◌≡◌ {A = Connection D}
              (record {
                slot = freed_transport;
                connect_jobs = c;
                ssh_jobs = j;
                exec_jobs = [];
                sessions = n;
              })
              (record {
                slot = freed_transport;
                connect_jobs = c';
                ssh_jobs = j';
                exec_jobs = [];
                sessions = n';
              })
      of e f g = rw (e, f, g) refl

      fields :
          (s : SshState)
          → Waits s k.connect_jobs k.ssh_jobs k.sessions
          → release_in s [] k ≡ taken_down s
      fields session_connecting (c, j, n) = of c (omega arith) n
      fields session_init (c, j, n) = of (omega arith) (omega arith) n
      fields session_startup (c, j, n) = of c (omega arith) (omega arith)
      fields userauth_publickey_fromfile (c, j, n) = of c (omega arith) n
      fields keepalive_config w = absurd w
      fields session_connected (c, j, n) = of c (omega arith) (omega arith)

  -- Taking a connection down, where reading the freed transport is harmless, deletes every job and
  -- frees the session, with two exceptions: while the socket connects, the job `connect_execute`
  -- stays in the main loop, and while the key is being accepted, the session is not freed.
  pub transport_disconnect-taken_down :
      (t : Transport D) (k : Connection D)
      → Dialled t k
      → Inv t
      → transport_disconnect true k ≡ ok (taken_down t.ssh_state)
  unfolding transport_disconnect transport_release
  transport_disconnect-taken_down t k (at, w) v =
      rw (at, exec_left-Inv t v) (ap ok (release_in-Waits t.ssh_state k w))

  -- The job that stays runs on the freed transport.
  pub connecting_after_free :
      (d : Dial) (t : Transport D) (k : Connection D)
      → Dialled t k
      → Inv t
      → t.ssh_state ≡ session_connecting
      → Ends
          (λ k'. (k'.connect_jobs ≡ 1) × (connect_execute d k' ≡ fault use_after_free))
          (transport_disconnect true k)
  unfolding connect_execute
  connecting_after_free d t k h v e =
      (taken_down t.ssh_state, transport_disconnect-taken_down t k h v, (ap connect_left e, refl))
