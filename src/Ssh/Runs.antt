-- ===== src/Ssh/Runs.antt =====
-- Runs of the handlers over the whole state keep the invariant of the transport.
use pacemaker_cloud.Common.{
  subst, ℕ, ◌<◌, ◌≡◌, ◌≢◌, refl, ap, ◌∙◌, true, false, not, none, some, List, [], ◌∷◌, ℤ, Result,
  ok, fault, assert_failed, use_after_free, ◌>>=◌, ◌==◌, ==_self, if_false, All,
}
use pacemaker_cloud.Cape.Memory.{store, live}
use pacemaker_cloud.Recover.Total.{Ends}
use pacemaker_cloud.Ssh.{SshOp, Transport, is_connected, remove, transport_schedule}
use pacemaker_cloud.Ssh.Exec.{Ssh2, Outcome, repeat, stop, complete, ssh_exec}
use pacemaker_cloud.Ssh.Handlers.{Client, unlinked, settle, assembly_ssh_exec, run_job}
use pacemaker_cloud.Ssh.Progress.{SameCommand, Advances, ssh_exec-Advances}
use pacemaker_cloud.Ssh.Queue.{is_empty, Distinct, IsQueued, remove-head, All-store_other}
use pacemaker_cloud.Ssh.Invariant.{HeadJob, Connected, Inv, Mid, schedule-Inv}

-- The transport during the completion of command q, which is no longer in the queue.
abbrev pub MidWithout : {D : Type 0} → ℕ → Transport D → Type 0
MidWithout q t = Mid t × All (λ x. (x == q) ≡ false) t.ssh_op_head

module _ {D W : Type 0} (c : Client D W) where
  -- The state has a transport of which P holds.
  abbrev pub Has : (Transport D → Type 0) → W → Type 0
  Has P w = (t : Transport D) × (c.get w ≡ some t) × P t

  -- The completion of a command that is out of the queue ends without a fault, and leaves it out.
  abbrev pub Completes : ℕ → SshOp D → Transport D → W → Type 0
  Completes q o t w =
      MidWithout q (unlinked c q o t)
      → Ends (Has (MidWithout q)) (c.completion_func o.work o.ssh_rc (c.put (unlinked c q o t) w))

module _ {D W : Type 0} (c : Client D W)
    (get-put : (t : Transport D) (w : W) → c.get (c.put t w) ≡ some t) where
  -- The transport while the job of its head command runs: the queue is q and `rest`.
  record Running (q : ℕ) (rest : List ℕ) (o : SshOp D) (t : Transport D) : Type 0 where
    head : t.ssh_op_head ≡ q ∷ rest
    scheduled : t.scheduled ≡ true
    jobs : t.jobs ≡ []
    connected : is_connected t.ssh_state ≡ true
    op_there : t.ops q ≡ some o
    op_timer : o.timer ≡ true
    op_good : o.failed ≡ false
    op_below : q < t.next_op
    others : All (IsQueued t.ops t.next_op) rest
    apart : All (λ x. (x == q) ≡ false) rest
    distinct : Distinct rest

  -- The head is changed and stays.
  stays :
      (q : ℕ) (rest : List ℕ) (o o' : SshOp D) (t : Transport D) (js : List ℕ)
      → Running q rest o t
      → HeadJob (q ∷ rest) js
      → SameCommand o o'
      → Inv (record t { ops = store q (some o') t.ops; jobs = js })
  stays q rest o o' t js r h same = rw r.head (record {
    scheduled = r.scheduled;
    jobs = h;
    connected = r.connected;
    queued = (
      (
        o',
        rw (==_self q) refl,
        same.same_timer ∙ r.op_timer,
        same.same_failed ∙ r.op_good,
        r.op_below,
      ),
      All-store_other t.ops t.next_op q (some o') rest r.apart r.others,
    );
    distinct = (r.apart, r.distinct);
  })

  -- The head is unlinked.
  leaves :
      (q : ℕ) (rest : List ℕ) (o o' : SshOp D) (t : Transport D)
      → Running q rest o t
      → Mid (unlinked c q o' t)
  leaves q rest o o' t r =
      rw (r.head, remove-head q rest r.apart)
        (record {
          scheduled = r.scheduled;
          jobs = r.jobs;
          connected = r.connected;
          queued = All-store_other t.ops t.next_op q _ rest r.apart r.others;
          distinct = r.distinct;
        })

  freed : (q : ℕ) (t : Transport D) → MidWithout q t → Mid (record t { ops = store q none t.ops })
  freed q t (m, apart) = record {
    scheduled = m.scheduled;
    jobs = m.jobs;
    connected = m.connected;
    queued = All-store_other t.ops t.next_op q none t.ssh_op_head apart m.queued;
    distinct = m.distinct;
  }

  start :
      (q : ℕ) (qs js : List ℕ) (t : Transport D)
      → t.ssh_op_head ≡ qs
      → t.jobs ≡ q ∷ js
      → Inv t
      → (rest : List ℕ) × (o : SshOp D) × Running q rest o (record t { jobs = remove q t.jobs })
  start q [] js t e j v = absurd (subst (HeadJob []) j (subst (λ x. HeadJob x t.jobs) e v.jobs))
  start q (p ∷ rest) js t e j v =
      let h : HeadJob (p ∷ rest) (q ∷ js) =
        subst (HeadJob (p ∷ rest)) j (subst (λ x. HeadJob x t.jobs) e v.jobs) in
      let all : All (IsQueued t.ops t.next_op) (p ∷ rest) =
        subst (All (IsQueued t.ops t.next_op)) e v.queued in
      let distinct : Distinct (p ∷ rest) = subst Distinct e v.distinct in
      let (o, at, timer, good, below) = all.0 in
      (
        rest,
        o,
        rw h.0 (record {
          head = e;
          scheduled = v.scheduled ∙ ap (λ x. not (is_empty x)) e;
          jobs = rw (j, h.1, h.0, ==_self p) refl;
          connected = subst (λ x. Connected x t.ssh_state) e v.connected;
          op_there = at;
          op_timer = timer;
          op_good = good;
          op_below = below;
          others = all.1;
          apart = distinct.0;
          distinct = distinct.1;
        }),
      )

  complete-Ends :
      (q : ℕ) (rest : List ℕ) (o o' : SshOp D) (t : Transport D) (w : W)
      → c.get w ≡ some t
      → Running q rest o t
      → SameCommand o o'
      → Completes c q o' t w
      → Ends (Has c Inv) (settle c q t w (complete o'))
  unfolding settle
  complete-Ends q rest o o' t w g r same keeps =
      let w₁ = c.put (unlinked c q o' t) w in
      let apart : All (λ x. (x == q) ≡ false) (remove q t.ssh_op_head) =
        rw (r.head, remove-head q rest r.apart) r.apart in
      let (w₂, run, has) = keeps (leaves q rest o o' t r, apart) in
      let (t₂, g₂, mid) = has in
      let t₃ : Transport D = record t₂ { ops = store q none t₂.ops } in
      let w₃ = c.put t₃ w₂ in
      let good : o'.failed ≡ false = same.same_failed ∙ r.op_good in
      rw (g, if_false o'.failed (ok w₁) (c.completion_func o'.work o'.ssh_rc w₁) good, run)
        (rw (g₂, get-put t₃ w₂)
          (
            c.put (transport_schedule t₃) w₃,
            refl,
            (transport_schedule t₃, get-put _ w₃, schedule-Inv t₃ (freed q t₂ mid)),
          ))

  settle-Ends :
      (q n : ℕ) (rest : List ℕ) (o : SshOp D) (t : Transport D) (w : W) (out : Outcome D)
      → c.get w ≡ some t
      → Running q rest o t
      → Advances n o (ok out)
      → ((o' : SshOp D) → out ≡ complete o' → Completes c q o' t w)
      → Ends (Has c Inv) (settle c q t w out)
  unfolding settle
  settle-Ends q n rest o t w (repeat o') g r (same, le) keeps =
      (_, refl, (_, get-put _ w, rw r.jobs (stays q rest o o' t (q ∷ []) r (refl, refl) same)))
  settle-Ends q n rest o t w (stop o') g r (same, st) keeps =
      (_, refl, (_, get-put _ w, rw r.jobs (stays q rest o o' t [] r tt same)))
  settle-Ends q n rest o t w (complete o') g r (same, st) keeps =
      complete-Ends q rest o o' t w g r same (keeps o' refl)

  exec-Ends :
      (q n : ℕ) (rest : List ℕ) (o : SshOp D) (t : Transport D) (w : W) (m : Result (Outcome D))
      → c.get w ≡ some t
      → Running q rest o t
      → Advances n o m
      → m ≢ fault assert_failed
      → ((o' : SshOp D) → m ≡ ok (complete o') → Completes c q o' t w)
      → Ends (Has c Inv) (m >>= settle c q t w)
  exec-Ends q n rest o t w (ok out) g r a h keeps =
      settle-Ends q n rest o t w out g r a (λ o' e. keeps o' (ap ok e))
  exec-Ends q n rest o t w (fault e) g r a h keeps = absurd (h (ap fault a))

  -- The main loop runs a job of the transport, in a state that gives back the transport that is put
  -- into it, and libssh2 answers anything at which the handler has no failing `assert`. Then the
  -- handler runs without a fault and the invariant holds again: the queued commands are distinct,
  -- their memory is there and their timers run, `scheduled` tells whether there are any, and only
  -- the head has a job. That needs the completion of this command, if the run ends it, to end
  -- without a fault and to leave a transport as queueing commands would, with the completed command
  -- out of its queue; a health check that the node passes does so.
  pub run_job-Inv :
      (eagain : ℤ) (ssh : Ssh2) (q : ℕ) (js : List ℕ) (t : Transport D) (w : W)
      → c.get w ≡ some t
      → Inv t
      → t.jobs ≡ q ∷ js
      → ((o : SshOp D) → t.ops q ≡ some o → ssh_exec eagain false ssh o ≢ fault assert_failed)
      → ((o o' : SshOp D)
          → t.ops q ≡ some o
          → ssh_exec eagain false ssh o ≡ ok (complete o')
          → Completes c q o'
              (record t { jobs = remove q t.jobs })
              (c.put (record t { jobs = remove q t.jobs }) w))
      → Ends (Has c Inv) (run_job c eagain false ssh q w)
  unfolding run_job assembly_ssh_exec
  run_job-Inv eagain ssh q js t w g v j no_assert keeps =
      let (rest, o, r) = start q t.ssh_op_head js t refl j v in
      let t₁ : Transport D = record t { jobs = remove q t.jobs } in
      rw (g, get-put t₁ w, r.op_there, r.connected)
        (exec-Ends q _ rest o t₁ (c.put t₁ w) _ (get-put t₁ w) r (ssh_exec-Advances eagain ssh o)
          (no_assert o r.op_there) λ o'. keeps o o' r.op_there)

  -- A completion after which the transport is gone, as after the restart of its node, makes the
  -- handler read the freed transport when it schedules the next command, whenever a command ends.
  pub complete_after_free :
      (q : ℕ) (o : SshOp D) (t : Transport D) (w w' : W)
      → c.get w ≡ some t
      → o.failed ≡ false
      → c.completion_func o.work o.ssh_rc (c.put (unlinked c q o t) w) ≡ ok w'
      → c.get w' ≡ none
      → settle c q t w (complete o) ≡ fault use_after_free
  unfolding settle
  complete_after_free q o t w w' g good run gone =
      rw
        (
          g,
          if_false o.failed (ok (c.put (unlinked c q o t) w))
              (c.completion_func o.work o.ssh_rc (c.put (unlinked c q o t) w)) good,
          run,
        )
        (rw gone (ap (λ x. live x >>= λ t₁. ok (c.put (transport_schedule t₁) w')) gone))
