-- ===== src/Qmf/Replay.antt =====
-- What goes wrong with a call that waited for a connection, and with an exception that comes too late.
use pacemaker_cloud.Common.{
  ℕ, ◌+◌, ◌-◌, ◌%◌, ◌≡◌, ◌⊎◌, use_after_free, subst, refl, sym, ap, true, false, none, some, List,
  [], ◌∷◌, ◌++◌, ◌==◌, ==_self, ==_iff, arith, Bool-cases, Option-cases, inl, inr, ok, fault, ◌>>=◌,
  u32_mod,
}
use mathlib.Core.List.{append_assoc}
use pacemaker_cloud.Recover.Total.{Ends}
use pacemaker_cloud.Cape.Memory.{store}
use pacemaker_cloud.Qmf.{
  QmfAsyncRequest, rpc_exception, rpc_timeout, Qmf, get_call, unref_request, method_response,
  console_exception, send_request, call_method_async, ref_request, method_call_tmo,
  object_process_event, agent_process_event, run_pending_calls, run_pending, job_running,
  job_completed, timeout_result, take_out,
}
use pacemaker_cloud.Qmf.Invariant.{Event, happen}
use pacemaker_cloud.Qmf.Waiting.{Listed, Waits, happen-Waits}

-- The states that a state may come to, whatever happens.
pub data Becomes : Qmf → Qmf → Type 0 where
  stays : {w : Qmf} → Becomes w w
  goes_on : {v w x : Qmf} (e : Event) → happen e v ≡ ok w → Becomes w x → Becomes v x

becomes-Waits : (r : ℕ) {v w : Qmf} → Waits r v → Becomes v w → Waits r w
becomes-Waits r h stays = h
becomes-Waits r {v} h (goes_on e run rest) = becomes-Waits r (rw run at (happen-Waits r e v h)) rest

-- Sending one request with an agent reads a freed request, or leaves the place of another empty and
-- the agent in place.
send_gone :
    (cid q r : ℕ) (w : Qmf)
    → w.has_agent ≡ true
    → (q == r) ≡ false
    → w.requests r ≡ none
    → (send_request cid q w ≡ fault use_after_free)
      ⊎ Ends (λ w'. (w'.requests r ≡ none) × (w'.has_agent ≡ true)) (send_request cid q w)
unfolding send_request call_method_async ref_request
send_gone cid q r w agent apart gone = elim (Option-cases (w.requests q)) [
  | inl free ↦ inl (rw free refl)
  | inr (a, live) ↦ inr (rw (live, agent, live, ==_self q) (_, refl, (rw apart gone, refl)))
]

rest-Listed : (q r : ℕ) (ps : List ℕ) → (q == r) ≡ false → Listed r (q ∷ ps) → Listed r ps
rest-Listed q r ps apart (inl same) = absurd (ground arith)
rest-Listed q r ps apart (inr h) = h

run_gone :
    (cids : ℕ → ℕ) (r : ℕ) (ps : List ℕ) (w : Qmf)
    → w.has_agent ≡ true
    → Listed r ps
    → w.requests r ≡ none
    → run_pending cids ps w ≡ fault use_after_free
unfolding run_pending send_request call_method_async
run_gone cids r [] w agent h gone = elim h [ ]
run_gone cids r (q ∷ ps) w agent h gone = elim (Bool-cases (q == r)) [
  | inl same ↦
      let freed : w.requests q ≡ none =
        subst (λ n. w.requests n ≡ none) (sym ((==_iff q r).0 same)) gone in
      rw freed refl
  | inr apart ↦ elim (send_gone (cids q) q r w agent apart gone) [
    | inl ends ↦ rw (send_request, ends) refl
    | inr (w₁, run, (gone₁, agent₁)) ↦
        rw (send_request, run) (run_gone cids r ps w₁ agent₁ (rest-Listed q r ps apart h) gone₁)
  ]
]

-- A call that once waited for a connection waits for ever: whatever happens after it, once its request
-- was freed, the next run of the job for the waiting calls that finds an agent ends the process, as it
-- reads a request that was freed.
pub pending_replayed :
    (r : ℕ) (v w : Qmf) (cids : ℕ → ℕ)
    → Waits r v
    → Becomes v w
    → w.requests r ≡ none
    → w.has_agent ≡ true
    → run_pending_calls cids w ≡ fault use_after_free
unfolding run_pending_calls
pending_replayed r v w cids h run gone agent =
    run_gone cids r w.pending_jobs w agent (becomes-Waits r h run) gone

-- What the time-out leaves of a running request.
abbrev late : QmfAsyncRequest → QmfAsyncRequest
late a = record a { state = job_completed; ref_count = 1 }

-- The state after it.
abbrev after_tmo : ℕ → QmfAsyncRequest → Qmf → Qmf
after_tmo r a w = record w {
  timers = take_out r w.timers;
  requests =
      store r (some (late a)) (store r (some (record a { state = job_completed })) w.requests);
  responses = w.responses ++ (a.user_data, rpc_timeout) ∷ [];
}

timed_out_lem :
    (r : ℕ) (a : QmfAsyncRequest) (w : Qmf)
    → w.requests r ≡ some a
    → a.state ≡ job_running
    → a.ref_count ≡ 2
    → method_call_tmo r w ≡ ok (after_tmo r a w)
unfolding method_call_tmo method_response unref_request
timed_out_lem r a w live running two =
    let one_left : (a.ref_count + u32_mod - 1) % u32_mod ≡ 1 = omega arith in
    rw (live, ap timeout_result running, live, ==_self r, one_left) refl

-- The time-out of a running request, and then an exception that answers its call: both are reported.
pub late_exception :
    (r cid : ℕ) (a : QmfAsyncRequest) (w : Qmf)
    → w.requests r ≡ some a
    → a.state ≡ job_running
    → a.ref_count ≡ 2
    → get_call cid w.outstanding_calls ≡ some r
    → Ends
        (λ w'.
          w'.responses
          ≡ w.responses ++ (a.user_data, rpc_timeout) ∷ (a.user_data, rpc_exception) ∷ [])
        (method_call_tmo r w >>= agent_process_event console_exception cid)
unfolding agent_process_event object_process_event method_response unref_request
late_exception r cid a w live running two found =
    rw
      (
        timed_out_lem r a w live running two,
        agent_process_event,
        found,
        ==_self r,
        unref_request,
        ==_self r,
      )
      (_, refl, append_assoc w.responses _ _)
