-- ===== src/Qmf/Invariant.antt =====
-- The invariant of the requests of an object, and what may happen to them.
use pacemaker_cloud.Common.{
  ℕ, ◌+◌, ◌≤◌, ◌≡◌, refl, sym, ◌∙◌, subst, true, false, Option, none, some, [], ◌∷◌, ◌++◌, String,
  ◌==◌, ==_self, arith, All, Bool-cases, inl, inr, Result, ok,
}
use pacemaker_cloud.Recover.Total.{Ends}
use pacemaker_cloud.Cape.Memory.{store}
use pacemaker_cloud.Qmf.{
  new_request, Calls, Qmf, take_out, get_call, erase_call, set_call, Reply, method_call_async,
  send_request, call_method_async, ref_request, method_call_tmo, timeout_result,
  agent_process_event, connect, agent_deleted, run_pending_calls, job_running,
}
use pacemaker_cloud.Qmf.Counts.{
  one, uses, count, count-snoc, count-take_out, calls-set, Counted-less, Held, Held-store,
  live_request, KeptBy, settle_Held,
}

abbrev pub IsRequest : Option ℕ → Type 0
IsRequest none = ⊥
IsRequest (some r) = Unit

-- No call waits for a connection, no correlator has a null entry, and a connected object has its agent.
pub record Rest (w : Qmf) : Type 0 where
  pub free : (q : ℕ) → w.next_request ≤ q → w.requests q ≡ none
  pub no_pending : w.pending_jobs ≡ []
  pub no_null : All (λ call. IsRequest call.1) w.outstanding_calls
  pub linked : w.connected ≡ true → w.has_agent ≡ true

-- Each timer and each outstanding call holds a reference of a request in memory, which counts at most
-- two.
pub record Inv (w : Qmf) : Type 0 where
  pub held : Held (uses w.timers w.outstanding_calls) w.requests
  pub rest : Rest w

-- What may happen next.
pub data Event : Type 0 where
  called : ℕ → String → ℕ → Event
  answered : Reply → ℕ → Event
  timed_out : ℕ → Event
  agent_added agent_removed : Event
  pending_run : (ℕ → ℕ) → Event

-- A method is called while the object is connected, a call that is outstanding is answered, or a timer
-- runs out that runs; agents come and go, and the job for the waiting calls runs, at any time.
abbrev pub Enabled : Event → Qmf → Type 0
Enabled (called cid method op) w = w.connected ≡ true
Enabled (answered reply cid) w = (r : ℕ) × (get_call cid w.outstanding_calls ≡ some r)
Enabled (timed_out r) w = 1 ≤ count r w.timers
Enabled agent_added w = Unit
Enabled agent_removed w = Unit
Enabled (pending_run cids) w = Unit

abbrev pub happen : Event → Qmf → Result Qmf
happen (called cid method op) w = method_call_async cid method op w
happen (answered reply cid) w = agent_process_event reply cid w
happen (timed_out r) w = method_call_tmo r w
happen agent_added w = ok (connect w)
happen agent_removed w = agent_deleted w
happen (pending_run cids) w = run_pending_calls cids w

pub erase_no_null :
    (cid : ℕ) (calls : Calls)
    → All (λ call. IsRequest call.1) calls
    → All (λ call. IsRequest call.1) (erase_call cid calls)
erase_no_null cid [] h = tt
erase_no_null cid (call ∷ calls) (here, h) = elim (Bool-cases (call.0 == cid)) [
  | inl e ↦ rw e (erase_no_null cid calls h)
  | inr e ↦ rw e (here, erase_no_null cid calls h)
]

later_differs : (r q : ℕ) → r + 1 ≤ q → (r == q) ≡ false
later_differs r q h = ground arith

pub called-Inv :
    (cid : ℕ) (method : String) (op : ℕ) (w : Qmf)
    → Inv w
    → w.connected ≡ true
    → Ends Inv (method_call_async cid method op w)
unfolding method_call_async send_request call_method_async ref_request
called-Inv cid method op w i up =
    let r = w.next_request in
    let m = uses w.timers w.outstanding_calls in
    let n = uses (w.timers ++ r ∷ []) (set_call cid (some r) w.outstanding_calls) in
    let none_yet : m r ≡ 0 = rw (i.rest.free r (omega arith)) at (i.held r) in
    let same : (q : ℕ) → (r == q) ≡ false → m q ≤ m q = λ q _. omega arith in
    let more : (q : ℕ) → n q ≤ m q + one r q + one r q =
      λ q. omega (arith, count-snoc q r w.timers, calls-set q cid r w.outstanding_calls) in
    let here : one r r ≡ 1 = rw (==_self r) refl in
    let b = new_request method op in
    let c = record b { state = job_running } in
    let f₁ = store r (some b) w.requests in
    let f₂ = store r (some c) f₁ in
    let f₃ = store r (some (record c { ref_count = 2 })) f₂ in
    let a₁ : Held m f₁ =
      Held-store m m r (some b) w.requests i.held (omega arith, omega arith) same in
    let a₂ : Held m f₂ = Held-store m m r (some c) f₁ a₁ (omega arith, omega arith) same in
    let a₃ : Held n f₃ =
      Held-store m n r (some (record c { ref_count = 2 })) f₂ a₂
        (omega (arith, more r, here), omega arith)
        (λ q d. let apart : one r q ≡ 0 = rw d refl in omega (arith, more q)) in
    let free : (q : ℕ) → r + 1 ≤ q → f₃ q ≡ none =
      λ q h. rw (later_differs r q h) (i.rest.free q (omega arith)) in
    rw (up, ==_self w.next_request, i.rest.linked up, ==_self w.next_request)
      (
        _,
        refl,
        record {
          held = a₃;
          rest = record {
            free = free;
            no_pending = i.rest.no_pending;
            no_null = (tt, erase_no_null cid w.outstanding_calls i.rest.no_null);
            linked = λ _. refl;
          };
        },
      )

pub kept-Rest : (v w : Qmf) → KeptBy v w → Rest v → Rest w
kept-Rest v w k i = record {
  free = λ q h. k.free_same q (i.free q (subst (λ n. n ≤ q) k.next_same h));
  no_pending = k.pending_same ∙ i.no_pending;
  no_null = rw k.calls_same i.no_null;
  linked = λ up. k.agent_same ∙ i.linked (sym k.connected_same ∙ up);
}

kept-Inv :
    (v w : Qmf) → KeptBy v w → Rest v → Held (uses v.timers v.outstanding_calls) w.requests → Inv w
kept-Inv v w k i h = record { held = rw (k.timers_same, k.calls_same) h; rest = kept-Rest v w k i }

pub timed_out-Inv :
    (r : ℕ) (w : Qmf) → Inv w → 1 ≤ count r w.timers → Ends Inv (method_call_tmo r w)
unfolding method_call_tmo
timed_out-Inv r w i runs =
    let w₀ = record w { timers = take_out r w.timers } in
    let m = uses (take_out r w.timers) w.outstanding_calls in
    let held : Held (λ q. m q + one r q) w.requests = λ q.
      Counted-less (w.requests q) (m q + one r q) (uses w.timers w.outstanding_calls q)
        (omega (arith, count-take_out q r w.timers runs)) (i.held q) in
    let rest : Rest w₀ = record {
      free = i.rest.free;
      no_pending = i.rest.no_pending;
      no_null = i.rest.no_null;
      linked = i.rest.linked;
    } in
    let (a, e) =
      live_request (w.requests r) (uses w.timers w.outstanding_calls r) (i.held r) (omega arith) in
    let (w', run, (h, k)) = settle_Held m r (timeout_result a.state) w₀ held in
    rw e (w', run, kept-Inv w₀ w' k rest h)
