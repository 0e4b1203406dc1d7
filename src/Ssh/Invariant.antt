-- ===== src/Ssh/Invariant.antt =====
-- What holds of a transport between two runs of its handlers, and that every handler keeps it.
use pacemaker_cloud.Common.{
  ℕ, ◌+◌, ◌≡◌, refl, sym, ap, ◌∙◌, true, false, not, some, List, [], ◌∷◌, ◌++◌, String, arith,
  ==_self, All, All-append, inl, inr, Bool-cases,
}
use pacemaker_cloud.Cape.Memory.{store}
use pacemaker_cloud.Ssh.{
  SshState, Transport, is_connected, transport_schedule, transport_execute, new_op,
}
use pacemaker_cloud.Ssh.Queue.{is_empty, Distinct, IsQueued, All-store_new, Distinct-append_new}

-- The main loop has a job for no command but the one at the head.
abbrev pub HeadJob : List ℕ → List ℕ → Type 0
HeadJob queue [] = Unit
HeadJob [] (j ∷ js) = ⊥
HeadJob (q ∷ qs) (j ∷ js) = (j ≡ q) × (js ≡ [])

abbrev pub Connected : List ℕ → SshState → Type 0
Connected [] s = Unit
Connected (q ∷ qs) s = is_connected s ≡ true

is_empty-append : (qs : List ℕ) (n : ℕ) → is_empty (qs ++ n ∷ []) ≡ false
is_empty-append [] n = refl
is_empty-append (q ∷ qs) n = refl

HeadJob-append :
    (qs js : List ℕ) (n : ℕ) → not (is_empty qs) ≡ true → HeadJob qs js → HeadJob (qs ++ n ∷ []) js
HeadJob-append qs [] n e h = HeadJob-nil (qs ++ n ∷ [])
  where
    HeadJob-nil : (qs : List ℕ) → HeadJob qs []
    HeadJob-nil qs = tt
HeadJob-append [] (j ∷ js) n e h = cc
HeadJob-append (q ∷ qs) (j ∷ js) n e h = h

Connected-all : (qs : List ℕ) (s : SshState) → is_connected s ≡ true → Connected qs s
Connected-all [] s h = tt
Connected-all (q ∷ qs) s h = h

module _ {D : Type 0} where
  pub record Inv (t : Transport D) : Type 0 where
    pub scheduled : t.scheduled ≡ not (is_empty t.ssh_op_head)
    pub jobs : HeadJob t.ssh_op_head t.jobs
    pub connected : Connected t.ssh_op_head t.ssh_state
    pub queued : All (IsQueued t.ops t.next_op) t.ssh_op_head
    pub distinct : Distinct t.ssh_op_head

  -- While the completion of a command runs, which may queue more of them.
  pub record Mid (t : Transport D) : Type 0 where
    pub scheduled : t.scheduled ≡ true
    pub jobs : t.jobs ≡ []
    pub connected : is_connected t.ssh_state ≡ true
    pub queued : All (IsQueued t.ops t.next_op) t.ssh_op_head
    pub distinct : Distinct t.ssh_op_head

  -- The same without the flag, which scheduling sets.
  pub record Unscheduled (t : Transport D) : Type 0 where
    pub jobs : t.jobs ≡ []
    pub connected : is_connected t.ssh_state ≡ true
    pub queued : All (IsQueued t.ops t.next_op) t.ssh_op_head
    pub distinct : Distinct t.ssh_op_head

  schedule_at :
      (qs : List ℕ) (t : Transport D)
      → t.ssh_op_head ≡ qs
      → Unscheduled t
      → Inv (transport_schedule t)
  unfolding transport_schedule
  schedule_at [] t e m =
      rw e (record {
        scheduled = refl;
        jobs = rw m.jobs tt;
        connected = tt;
        queued = tt;
        distinct = tt;
      })
  schedule_at (q ∷ rest) t e m = rw e (record {
    scheduled = refl;
    jobs = rw m.jobs (refl, refl);
    connected = m.connected;
    queued = rw e at (m.queued);
    distinct = rw e at (m.distinct);
  })

  pub schedule-Inv : (t : Transport D) → Mid t → Inv (transport_schedule t)
  schedule-Inv t m =
      schedule_at t.ssh_op_head t refl (record {
        jobs = m.jobs;
        connected = m.connected;
        queued = m.queued;
        distinct = m.distinct;
      })

  -- The transport with one more command in its queue.
  abbrev with_command : String → D → Transport D → Transport D
  with_command command work t = record t {
    ssh_op_head = t.ssh_op_head ++ t.next_op ∷ [];
    ops = store t.next_op (some (new_op command work)) t.ops;
    next_op = t.next_op + 1;
  }

  IsQueued-more :
      (command : String) (work : D) (t : Transport D)
      → All (IsQueued t.ops t.next_op) t.ssh_op_head
      → let u = with_command command work t in All (IsQueued u.ops u.next_op) u.ssh_op_head
  IsQueued-more command work t h =
      All-append _ t.ssh_op_head (t.next_op ∷ [])
        (All-store_new t.ops t.next_op (new_op command work) t.ssh_op_head h)
        ((new_op command work, rw (==_self t.next_op) refl, refl, refl, omega arith), tt)

  queued_empty :
      (qs : List ℕ) (command : String) (work : D) (t : Transport D)
      → t.ssh_op_head ≡ qs
      → t.scheduled ≡ false
      → is_connected t.ssh_state ≡ true
      → Inv t
      → Inv (transport_schedule (with_command command work t))
  queued_empty [] command work t e f c v =
      schedule_at (t.ssh_op_head ++ t.next_op ∷ []) (with_command command work t) refl (record {
        jobs = no_jobs t.jobs (rw e at (v.jobs));
        connected = c;
        queued = IsQueued-more command work t v.queued;
        distinct = Distinct-append_new t.ops t.next_op t.ssh_op_head v.queued v.distinct;
      })
    where
      no_jobs : (js : List ℕ) → HeadJob [] js → js ≡ []
      no_jobs [] h = refl
      no_jobs (j ∷ js) h = absurd h
  queued_empty (q ∷ qs) command work t e f c v =
      let s : true ≡ false = sym (rw e at (v.scheduled)) ∙ f in cc

  -- Queueing a command, from the main loop: the queue stays a queue of distinct commands whose memory
  -- is there and whose timers run, `scheduled` tells whether it is empty, and only its head has a
  -- job. That holds whether the session is connected or not.
  pub execute-Inv :
      (command : String) (work : D) (t : Transport D)
      → Inv t
      → Inv (transport_execute command work t)
  unfolding transport_execute
  execute-Inv command work t v = elim (Bool-cases (is_connected t.ssh_state)) [
    | inr off ↦ rw off v
    | inl on ↦ elim (Bool-cases t.scheduled) [
      | inl s ↦
          rw (on, s)
            (record {
              scheduled = sym (ap not (is_empty-append t.ssh_op_head t.next_op));
              jobs = HeadJob-append t.ssh_op_head t.jobs t.next_op (sym v.scheduled ∙ s) v.jobs;
              connected = Connected-all (t.ssh_op_head ++ t.next_op ∷ []) t.ssh_state on;
              queued = IsQueued-more command work t v.queued;
              distinct = Distinct-append_new t.ops t.next_op t.ssh_op_head v.queued v.distinct;
            })
      | inr s ↦ rw (on, s) (rw s at (queued_empty t.ssh_op_head command work t refl s on v))
    ]
  ]

  -- Queueing a command from within the completion of another, when no job is there but the transport
  -- counts as scheduled.
  pub execute-Mid :
      (command : String) (work : D) (t : Transport D)
      → Mid t
      → Mid (transport_execute command work t)
  unfolding transport_execute
  execute-Mid command work t m =
      rw (m.connected, m.scheduled)
        (record {
          scheduled = refl;
          jobs = m.jobs;
          connected = m.connected;
          queued = IsQueued-more command work t m.queued;
          distinct = Distinct-append_new t.ops t.next_op t.ssh_op_head m.queued m.distinct;
        })
