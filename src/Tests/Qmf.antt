-- ===== src/Tests/Qmf.antt =====
-- Calls of a method of an agent, answered in time, too late, or not at all.
use pacemaker_cloud.Common.{
  use_after_free, ◌≡◌, refl, Bool, true, false, none, some, [], ◌∷◌, inl, ok, ◌>>=◌, Result, fault,
}
use pacemaker_cloud.Recover.Total.{Ends}
use pacemaker_cloud.Qmf.{
  Qmf, QmfAsyncRequest, job_running, rpc_timeout, rpc_exception, console_method_response,
  console_exception, method_call_async, method_call_tmo, agent_process_event, run_pending_calls,
  connect,
}
use pacemaker_cloud.Qmf.Invariant.{answered, timed_out, agent_added, pending_run}
use pacemaker_cloud.Qmf.Order.{goes_on, stays}
use pacemaker_cloud.Qmf.Replay.{
  goes_on as then_comes, stays as rests, pending_replayed, late_exception,
}
use pacemaker_cloud.Matahari.{Matahari, heartbeat_ok}
use pacemaker_cloud.Matahari.Beats.{fails_at, first_gap, fails_at-first_gap}

abbrev empty : Bool → Qmf
empty up = record {
  connected = up;
  has_agent = up;
  pending_jobs = [];
  outstanding_calls = [];
  requests = λ q. none;
  next_request = 0;
  timers = [];
  pending_calls_jobs = 0;
  responses = [];
}

abbrev result_of : Result Qmf → Qmf
result_of (ok w) = w
result_of (fault why) = empty true

-- A call of the method "status" for operation 5, with correlator 9.
abbrev asked : Qmf
asked = result_of (method_call_async 9 "status" 5 (empty true))

abbrev request : QmfAsyncRequest
request = record { ref_count = 2; state = job_running; method = "status"; user_data = 5 }

late_exception_example :
    Ends
      (λ w'. w'.responses ≡ (5, rpc_timeout) ∷ (5, rpc_exception) ∷ [])
      (method_call_tmo 0 asked >>= agent_process_event console_exception 9)
unfolding method_call_async
late_exception_example = late_exception 0 9 request asked refl refl refl refl

-- The call is made before the agent is there.
abbrev waiting : Qmf
waiting = result_of (method_call_async 9 "status" 5 (empty false))

abbrev sent : Qmf
sent = result_of (run_pending_calls (λ r. 9) (connect waiting))

abbrev replied : Qmf
replied = result_of (agent_process_event console_method_response 9 sent)

abbrev freed : Qmf
freed = result_of (method_call_tmo 0 replied)

pending_replayed_example : run_pending_calls (λ r. 9) freed ≡ fault use_after_free
unfolding method_call_async connect run_pending_calls agent_process_event method_call_tmo
pending_replayed_example =
    pending_replayed 0 waiting freed (λ r. 9) (inl refl)
      (then_comes agent_added refl (
        then_comes (pending_run λ r. 9) refl (
          then_comes (answered console_method_response 9) refl
            (then_comes (timed_out 0) refl rests))))
      refl refl

abbrev node : Matahari
node = record {
  hb_state = heartbeat_ok;
  last_sequence = 4;
  mh_rsc = true;
  mh_serv = true;
  mh_host = true;
  healthcheck_timer = true;
}

-- Numbers 5, 5 and 3 are no gap, but 6 after 3 is.
fails_at-first_gap_example : fails_at (5 ∷ 5 ∷ 3 ∷ 6 ∷ []) node ≡ some 3
unfolding first_gap
fails_at-first_gap_example = fails_at-first_gap (5 ∷ 5 ∷ 3 ∷ 6 ∷ []) node refl
