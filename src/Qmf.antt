-- ===== src/Qmf.antt =====
-- src/qmf_object.cpp, src/qmf_job.h and src/qmf_agent.cpp: an object of a remote agent, the calls of its
-- methods, and what answers them. There is one object, and the agent that it is connected to.
pub mod Counts
pub mod Invariant
pub mod Order
pub mod Waiting
pub mod Replay
use pacemaker_cloud.Common.{
  ℕ, ◌+◌, ◌-◌, ◌%◌, Bool, true, false, Option, none, some, List, [], ◌∷◌, ◌++◌, String, ◌==◌,
  u32_mod, Result, ok, fault, null_pointer, ◌>>=◌, if◌then◌else◌,
}
use pacemaker_cloud.Cape.{deref}
use pacemaker_cloud.Cape.Memory.{live, store}

-- `QmfAsyncRequest::job_state`.
pub data JobState : Type 0 where
  job_init job_scheduled job_running job_completed : JobState

-- `QmfObject::rpc_result`.
pub data RpcResult : Type 0 where
  rpc_ok rpc_timeout rpc_not_connected rpc_cancelled rpc_exception : RpcResult

-- `QmfAsyncRequest`. The arguments go to the library as they are; `user_data` is an operation.
pub record QmfAsyncRequest : Type 0 where
  pub ref_count : ℕ
  pub state : JobState
  pub method : String
  pub user_data : ℕ

-- `_outstanding_calls`: the request of a correlator, which may be null.
abbrev pub Calls : Type 0
Calls = List (ℕ × Option ℕ)

-- The object with its agent, the requests in memory, the timers `method_call_tmo` and the jobs
-- `run_pending_calls_fn` of the main loop, and the calls of `_method_response_fn`, by operation, oldest
-- first.
pub record Qmf : Type 0 where
  pub connected : Bool
  -- `_qa` is set.
  pub has_agent : Bool
  pub pending_jobs : List ℕ
  pub outstanding_calls : Calls
  pub requests : ℕ → Option QmfAsyncRequest
  pub next_request : ℕ
  pub timers : List ℕ
  pub pending_calls_jobs : ℕ
  pub responses : List (ℕ × RpcResult)

abbrev pub take_out : ℕ → List ℕ → List ℕ
take_out r [] = []
take_out r (x ∷ xs) = if x == r then xs else x ∷ take_out r xs

-- `operator[]` of the map: a missing entry is null, and is then there.
abbrev pub get_call : ℕ → Calls → Option ℕ
get_call cid [] = none
get_call cid (call ∷ calls) = if call.0 == cid then call.1 else get_call cid calls

abbrev pub erase_call : ℕ → Calls → Calls
erase_call cid [] = []
erase_call cid (call ∷ calls) =
    let rest = erase_call cid calls in if call.0 == cid then rest else call ∷ rest

abbrev pub set_call : ℕ → Option ℕ → Calls → Calls
set_call cid ar calls = (cid, ar) ∷ erase_call cid calls

abbrev pub load_request : ℕ → Qmf → Result QmfAsyncRequest
load_request r w = live (w.requests r)

abbrev pub store_request : ℕ → Option QmfAsyncRequest → Qmf → Qmf
store_request r a w = record w { requests = store r a w.requests }

-- `ref` and `unref`.
unfoldable pub ref_request : ℕ → Qmf → Result Qmf
ref_request r w = do
  a ← load_request r w
  ok (store_request r (some (record a { ref_count = (a.ref_count + 1) % u32_mod })) w)

unfoldable pub unref_request : ℕ → Qmf → Result Qmf
unref_request r w = do
  a ← load_request r w
  let n = (a.ref_count + u32_mod - 1) % u32_mod
  ok (store_request r (if n == 0 then none else some (record a { ref_count = n })) w)

unfoldable pub method_response : ℕ → RpcResult → Qmf → Result Qmf
method_response r rc w = do
  a ← load_request r w
  let w₁ = store_request r (some (record a { state = job_completed })) w
  ok (record w₁ { responses = w₁.responses ++ (a.user_data, rc) ∷ [] })

-- `call_method_async` of the agent; `cid` is the correlator that the library gives the call.
unfoldable pub call_method_async : ℕ → ℕ → Qmf → Result Qmf
call_method_async cid r w = do
  a ← load_request r w
  if w.has_agent
      then ok (record w { outstanding_calls = set_call cid (some r) w.outstanding_calls })
      else fault null_pointer

-- The request is sent, and a timer started that holds a reference.
unfoldable pub send_request : ℕ → ℕ → Qmf → Result Qmf
unfolding call_method_async ref_request
send_request cid r w = do
  w₁ ← call_method_async cid r w
  a ← load_request r w₁
  w₂ ← ref_request r (store_request r (some (record a { state = job_running })) w₁)
  ok (record w₂ { timers = w₂.timers ++ r ∷ [] })

-- `cids` are the correlators of the calls.
unfoldable pub run_pending : (ℕ → ℕ) → List ℕ → Qmf → Result Qmf
unfolding send_request
run_pending cids [] w = ok w
run_pending cids (r ∷ rs) w = do w₁ ← send_request (cids r) r w; run_pending cids rs w₁

-- `run_pending_calls` leaves the list as it is.
unfoldable pub run_pending_calls : (ℕ → ℕ) → Qmf → Result Qmf
unfolding run_pending
run_pending_calls cids w = run_pending cids w.pending_jobs w

abbrev pub new_request : String → ℕ → QmfAsyncRequest
new_request method user_data = record {
  ref_count = 1;
  state = job_init;
  method = method;
  user_data = user_data;
}

-- The object has a `_method_response_fn`.
unfoldable pub method_call_async : ℕ → String → ℕ → Qmf → Result Qmf
unfolding send_request
method_call_async cid method user_data w =
    let r = w.next_request in
    let a = new_request method user_data in
    let w₁ = record (store_request r (some a) w) { next_request = r + 1 } in
    if w.connected
    then send_request cid r w₁
    else ok (record (store_request r (some (record a { state = job_scheduled })) w₁) {
      pending_jobs = w₁.pending_jobs ++ r ∷ [];
    })

-- What a time-out reports.
abbrev pub timeout_result : JobState → Option RpcResult
timeout_result job_completed = none
timeout_result job_scheduled = some rpc_not_connected
timeout_result job_running = some rpc_timeout
timeout_result job_init = some rpc_timeout

-- A response, if there is something to report.
abbrev pub respond : ℕ → Option RpcResult → Qmf → Result Qmf
respond r none w = ok w
respond r (some rc) w = method_response r rc w

-- The timer runs out.
unfoldable pub method_call_tmo : ℕ → Qmf → Result Qmf
unfolding method_response unref_request
method_call_tmo r w = do
  let w₀ = record w { timers = take_out r w.timers }
  a ← load_request r w₀
  w₁ ← respond r (timeout_result a.state) w₀
  unref_request r w₁

-- The type of an event that answers a call.
pub data Reply : Type 0 where
  console_method_response console_exception : Reply

-- What an answer reports, unless it is too late.
abbrev pub reply_result : JobState → Option RpcResult
reply_result job_running = some rpc_ok
reply_result job_init = none
reply_result job_scheduled = none
reply_result job_completed = none

-- `process_event` of the object, for the answer to a request.
unfoldable pub object_process_event : Reply → ℕ → Qmf → Result Qmf
unfolding method_response unref_request
object_process_event console_method_response r w = do
  a ← load_request r w
  w₁ ← respond r (reply_result a.state) w
  unref_request r w₁
object_process_event console_exception r w = do
  w₁ ← method_response r rpc_exception w
  unref_request r w₁

-- `process_event` of the agent. An unknown correlator gets a null entry.
unfoldable pub agent_process_event : Reply → ℕ → Qmf → Result Qmf
unfolding object_process_event
agent_process_event reply cid w = elim (get_call cid w.outstanding_calls) [
  | none ↦ ok (record w { outstanding_calls = set_call cid none w.outstanding_calls })
  | some r ↦ object_process_event reply r w >>= λ w₁.
      ok (record w₁ { outstanding_calls = erase_call cid w₁.outstanding_calls })
]

-- Data of an agent match the object: it is connected, and `add` then gives it the agent. What its
-- connection handler does is not part of it.
unfoldable pub connect : Qmf → Qmf
connect w = if w.connected then w else record w {
  connected = true;
  has_agent = true;
  pending_calls_jobs = w.pending_calls_jobs + 1;
}

abbrev pub disconnect : Qmf → Qmf
disconnect w = record w { connected = false; has_agent = false }

-- The calls that are outstanding are cancelled, each without giving back a reference.
unfoldable pub cancel_calls : Calls → Qmf → Result Qmf
unfolding method_response
cancel_calls [] w = ok w
cancel_calls (call ∷ calls) w = do
  r ← deref call.1
  w₁ ← method_response r rpc_cancelled w
  cancel_calls calls w₁

-- `~QmfAgent`.
unfoldable pub agent_deleted : Qmf → Result Qmf
unfolding cancel_calls
agent_deleted w = do
  w₁ ← cancel_calls w.outstanding_calls w
  ok (disconnect (record w₁ { outstanding_calls = [] }))
