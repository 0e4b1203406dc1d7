-- ===== src/Qmf/Order.antt =====
-- The invariant in any order of calls, answers, time-outs and agents that come and go.
use pacemaker_cloud.Common.{
  ℕ, ◌+◌, ◌≤◌, ◌≡◌, refl, sym, ap, subst, true, none, some, [], ◌∷◌, ==_self, arith, All,
  Bool-cases, if_true, if_false, inl, inr, ok,
}
use pacemaker_cloud.Recover.Total.{Ends}
use pacemaker_cloud.Qmf.{
  QmfAsyncRequest, rpc_cancelled, rpc_exception, Calls, Qmf, get_call, erase_call, Reply,
  console_method_response, console_exception, reply_result, object_process_event,
  agent_process_event, connect, cancel_calls, agent_deleted, run_pending_calls, run_pending,
}
use pacemaker_cloud.Qmf.Counts.{
  one, uses, calls_of, calls-answered, Counted-less, Held, live_request, KeptBy, KeptBy-trans,
  same_KeptBy, settle_Held, response_Held,
}
use pacemaker_cloud.Qmf.Invariant.{
  IsRequest, Rest, Inv, Event, called, answered, timed_out, agent_added, agent_removed, pending_run,
  Enabled, happen, erase_no_null, called-Inv, kept-Rest, timed_out-Inv,
}

replied_Held :
    (reply : Reply) (m : ℕ → ℕ) (r : ℕ) (w : Qmf) {a : QmfAsyncRequest}
    → w.requests r ≡ some a
    → Held (λ q. m q + one r q) w.requests
    → Ends (λ w'. Held m w'.requests × KeptBy w w') (object_process_event reply r w)
unfolding object_process_event
replied_Held console_method_response m r w {a} e h =
    rw e (settle_Held m r (reply_result a.state) w h)
replied_Held console_exception m r w e h = settle_Held m r (some rpc_exception) w h

answered-Inv :
    (reply : Reply) (cid r : ℕ) (w : Qmf)
    → Inv w
    → get_call cid w.outstanding_calls ≡ some r
    → Ends Inv (agent_process_event reply cid w)
unfolding agent_process_event
answered-Inv reply cid r w i found =
    let m = uses w.timers (erase_call cid w.outstanding_calls) in
    let here : one r r ≡ 1 = rw (==_self r) refl in
    let fewer : (q : ℕ) → m q + one r q ≤ uses w.timers w.outstanding_calls q =
      λ q. omega (arith, calls-answered q cid w.outstanding_calls found) in
    let held : Held (λ q. m q + one r q) w.requests =
      λ q. Counted-less (w.requests q) (m q + one r q) _ (fewer q) (i.held q) in
    let (a, e) = live_request (w.requests r) (m r + one r r) (held r) (omega arith) in
    let (w₁, run, (h, k)) = replied_Held reply m r w e held in
    let rest : Rest w₁ = kept-Rest w w₁ k i.rest in
    rw (agent_process_event, found, run)
      (
        _,
        refl,
        record {
          held = rw (k.timers_same, k.calls_same) h;
          rest = record {
            free = rest.free;
            no_pending = rest.no_pending;
            no_null = erase_no_null cid w₁.outstanding_calls rest.no_null;
            linked = rest.linked;
          };
        },
      )

cancelled_Held :
    (calls : Calls) (m : ℕ → ℕ) (w : Qmf)
    → All (λ call. IsRequest call.1) calls
    → ((q : ℕ) → calls_of q calls ≤ m q)
    → Held m w.requests
    → Ends (λ w'. Held m w'.requests × KeptBy w w') (cancel_calls calls w)
unfolding cancel_calls calls_of
cancelled_Held [] m w real less h = (w, refl, (h, same_KeptBy w))
cancelled_Held ((cid, none) ∷ calls) m w (real, more) less h = elim real [ ]
cancelled_Held ((cid, some r) ∷ calls) m w (real, more) less h =
    let here : one r r ≡ 1 = rw (==_self r) refl in
    let (w₁, run₁, (h₁, k₁)) = response_Held m r rpc_cancelled w h (omega (arith, less r)) in
    let (w₂, run₂, (h₂, k₂)) = cancelled_Held calls m w₁ more (λ q. omega (arith, less q)) h₁ in
    rw run₁ (w₂, run₂, (h₂, KeptBy-trans w w₁ w₂ k₁ k₂))

removed-Inv : (w : Qmf) → Inv w → Ends Inv (agent_deleted w)
unfolding agent_deleted calls_of
removed-Inv w i =
    let m = uses w.timers w.outstanding_calls in
    let (w₁, run, (h, k)) =
      cancelled_Held w.outstanding_calls m w i.rest.no_null (λ q. omega arith) i.held in
    let rest : Rest w₁ = kept-Rest w w₁ k i.rest in
    rw run (
      _,
      refl,
      record {
        held = λ q.
            Counted-less (w₁.requests q) (uses w₁.timers [] q) (m q)
              (rw k.timers_same (omega arith)) (h q);
        rest = record {
          free = rest.free;
          no_pending = rest.no_pending;
          no_null = tt;
          linked = λ up. absurd cc;
        };
      },
    )

abbrev joined : Qmf → Qmf
joined w = record w {
  connected = true;
  has_agent = true;
  pending_calls_jobs = w.pending_calls_jobs + 1;
}

added-Inv : (w : Qmf) → Inv w → Inv (connect w)
unfolding connect
added-Inv w i = elim (Bool-cases w.connected) [
  | inl up ↦ subst Inv (sym (if_true w.connected w (joined w) up)) i
  | inr down ↦ subst Inv (sym (if_false w.connected w (joined w) down)) (record {
    held = i.held;
    rest = record {
      free = i.rest.free;
      no_pending = i.rest.no_pending;
      no_null = i.rest.no_null;
      linked = λ _. refl;
    };
  })
]

pending-Inv : (cids : ℕ → ℕ) (w : Qmf) → Inv w → Ends Inv (run_pending_calls cids w)
unfolding run_pending_calls run_pending
pending-Inv cids w i = (w, ap (λ rs. run_pending cids rs w) i.rest.no_pending, i)

-- Any one event leaves the invariant as it is.
pub happen-Inv : (e : Event) (w : Qmf) → Inv w → Enabled e w → Ends Inv (happen e w)
happen-Inv (called cid method op) w i up = called-Inv cid method op w i up
happen-Inv (answered reply cid) w i (r, found) = answered-Inv reply cid r w i found
happen-Inv (timed_out r) w i runs = timed_out-Inv r w i runs
happen-Inv agent_added w i on = (connect w, refl, added-Inv w i)
happen-Inv agent_removed w i on = removed-Inv w i
happen-Inv (pending_run cids) w i on = pending-Inv cids w i

-- The states that a state may come to.
pub data Runs : Qmf → Qmf → Type 0 where
  stays : {w : Qmf} → Runs w w
  goes_on : {v w x : Qmf} (e : Event) → Enabled e v → happen e v ≡ ok w → Runs w x → Runs v x
