-- ===== src/Qmf/Waiting.antt =====
-- A call that waited for a connection is never taken out of the list of waiting calls.
use pacemaker_cloud.Common.{
  ℕ, ◌+◌, ◌≡◌, sym, Option, none, some, List, [], ◌∷◌, ◌++◌, String, ◌⊎◌, subst, if_true, if_false,
  Bool-cases, inl, inr, ok, After, After->>=, After-step, After-option,
}
use pacemaker_cloud.Recover.Keeps.{After-if}
use pacemaker_cloud.Cape.{deref}
use pacemaker_cloud.Qmf.{
  new_request, RpcResult, rpc_cancelled, rpc_exception, Calls, Qmf, take_out, get_call, erase_call,
  unref_request, method_response, Reply, respond, console_method_response, console_exception,
  method_call_async, send_request, call_method_async, ref_request, load_request, store_request,
  method_call_tmo, timeout_result, reply_result, object_process_event, agent_process_event, connect,
  cancel_calls, agent_deleted, run_pending_calls, run_pending, job_running,
}
use pacemaker_cloud.Qmf.Invariant.{
  Event, called, answered, timed_out, agent_added, agent_removed, pending_run, happen,
}

abbrev pub Listed : ℕ → List ℕ → Type 0
Listed r [] = ⊥
Listed r (x ∷ xs) = (x ≡ r) ⊎ Listed r xs

Listed-append : (r : ℕ) (xs ys : List ℕ) → Listed r xs → Listed r (xs ++ ys)
Listed-append r [] ys h = elim h [ ]
Listed-append r (x ∷ xs) ys (inl e) = inl e
Listed-append r (x ∷ xs) ys (inr h) = inr (Listed-append r xs ys h)

-- The call waits for a connection.
abbrev pub Waits : ℕ → Qmf → Type 0
Waits r w = Listed r w.pending_jobs

response-Waits :
    (r q : ℕ) (rc : RpcResult) (w : Qmf) → Waits r w → After (Waits r) (method_response q rc w)
unfolding method_response
response-Waits r q rc w h = After-step (Waits r) (load_request q w) _ λ a. h

respond-Waits :
    (r q : ℕ) (told : Option RpcResult) (w : Qmf) → Waits r w → After (Waits r) (respond q told w)
respond-Waits r q none w h = h
respond-Waits r q (some rc) w h = response-Waits r q rc w h

unref-Waits : (r q : ℕ) (w : Qmf) → Waits r w → After (Waits r) (unref_request q w)
unfolding unref_request
unref-Waits r q w h = After-step (Waits r) (load_request q w) _ λ a. h

ref-Waits : (r q : ℕ) (w : Qmf) → Waits r w → After (Waits r) (ref_request q w)
unfolding ref_request
ref-Waits r q w h = After-step (Waits r) (load_request q w) _ λ a. h

call-Waits : (r cid q : ℕ) (w : Qmf) → Waits r w → After (Waits r) (call_method_async cid q w)
unfolding call_method_async
call-Waits r cid q w h =
    After-step (Waits r) (load_request q w) _ λ a. After-if (Waits r) w.has_agent _ _ h tt

send-Waits : (r cid q : ℕ) (w : Qmf) → Waits r w → After (Waits r) (send_request cid q w)
unfolding send_request
send-Waits r cid q w h =
    After->>= (Waits r) (Waits r) (call_method_async cid q w) _ (call-Waits r cid q w h) λ w₁ h₁.
      After-step (Waits r) (load_request q w₁) _ λ a.
        let w₂ = store_request q (some (record a { state = job_running })) w₁ in
        After->>= (Waits r) (Waits r) (ref_request q w₂)
          (λ w₃. ok (record w₃ { timers = w₃.timers ++ q ∷ [] })) (ref-Waits r q w₂ h₁) λ w₃ h₃. h₃

run-Waits :
    (r : ℕ) (cids : ℕ → ℕ) (ps : List ℕ) (w : Qmf)
    → Waits r w
    → After (Waits r) (run_pending cids ps w)
unfolding run_pending
run-Waits r cids [] w h = h
run-Waits r cids (q ∷ ps) w h =
    After->>= (Waits r) (Waits r) (send_request (cids q) q w) _ (send-Waits r (cids q) q w h)
      λ w₁ h₁. run-Waits r cids ps w₁ h₁

cancel-Waits :
    (r : ℕ) (calls : Calls) (w : Qmf) → Waits r w → After (Waits r) (cancel_calls calls w)
unfolding cancel_calls
cancel-Waits r [] w h = h
cancel-Waits r (call ∷ calls) w h = After-step (Waits r) (deref call.1) _ λ q.
    After->>= (Waits r) (Waits r) (method_response q rpc_cancelled w) _
      (response-Waits r q rpc_cancelled w h) λ w₁ h₁. cancel-Waits r calls w₁ h₁

tmo-Waits : (r q : ℕ) (w : Qmf) → Waits r w → After (Waits r) (method_call_tmo q w)
unfolding method_call_tmo
tmo-Waits r q w h =
    let w₀ = record w { timers = take_out q w.timers } in
    After-step (Waits r) (load_request q w₀) _ λ a.
      After->>= (Waits r) (Waits r) (respond q (timeout_result a.state) w₀) (unref_request q)
        (respond-Waits r q (timeout_result a.state) w₀ h) λ w₁ h₁. unref-Waits r q w₁ h₁

reply-Waits :
    (r : ℕ) (reply : Reply) (q : ℕ) (w : Qmf)
    → Waits r w
    → After (Waits r) (object_process_event reply q w)
unfolding object_process_event
reply-Waits r console_method_response q w h = After-step (Waits r) (load_request q w) _ λ a.
    After->>= (Waits r) (Waits r) (respond q (reply_result a.state) w) (unref_request q)
      (respond-Waits r q (reply_result a.state) w h) λ w₁ h₁. unref-Waits r q w₁ h₁
reply-Waits r console_exception q w h =
    After->>= (Waits r) (Waits r) (method_response q rpc_exception w) (unref_request q)
      (response-Waits r q rpc_exception w h) λ w₁ h₁. unref-Waits r q w₁ h₁

event-Waits :
    (r : ℕ) (reply : Reply) (cid : ℕ) (w : Qmf)
    → Waits r w
    → After (Waits r) (agent_process_event reply cid w)
unfolding agent_process_event
event-Waits r reply cid w h = After-option (Waits r) (get_call cid w.outstanding_calls) _ _ h λ q.
    After->>= (Waits r) (Waits r) (object_process_event reply q w)
      (λ w₁. ok (record w₁ { outstanding_calls = erase_call cid w₁.outstanding_calls }))
      (reply-Waits r reply q w h) λ w₁ h₁. h₁

called-Waits :
    (r cid : ℕ) (method : String) (op : ℕ) (w : Qmf)
    → Waits r w
    → After (Waits r) (method_call_async cid method op w)
unfolding method_call_async
called-Waits r cid method op w h =
    let q = w.next_request in
    let w₁ = record (store_request q (some (new_request method op)) w) { next_request = q + 1 } in
    After-if (Waits r) w.connected _ _ (send-Waits r cid q w₁ h)
      (Listed-append r w.pending_jobs _ h)

connect-Waits : (r : ℕ) (w : Qmf) → Waits r w → Waits r (connect w)
unfolding connect
connect-Waits r w h = elim (Bool-cases w.connected) [
  | inl up ↦ subst (Waits r) (sym (if_true w.connected w _ up)) h
  | inr down ↦ subst (Waits r) (sym (if_false w.connected w _ down)) h
]

deleted-Waits : (r : ℕ) (w : Qmf) → Waits r w → After (Waits r) (agent_deleted w)
unfolding agent_deleted
deleted-Waits r w h =
    After->>= (Waits r) (Waits r) (cancel_calls w.outstanding_calls w) _
      (cancel-Waits r w.outstanding_calls w h) λ w₁ h₁. h₁

pub happen-Waits : (r : ℕ) (e : Event) (w : Qmf) → Waits r w → After (Waits r) (happen e w)
unfolding run_pending_calls
happen-Waits r (called cid method op) w h = called-Waits r cid method op w h
happen-Waits r (answered reply cid) w h = event-Waits r reply cid w h
happen-Waits r (timed_out q) w h = tmo-Waits r q w h
happen-Waits r agent_added w h = connect-Waits r w h
happen-Waits r agent_removed w h = deleted-Waits r w h
happen-Waits r (pending_run cids) w h = run-Waits r cids w.pending_jobs w h
