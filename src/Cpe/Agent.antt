-- ===== src/Cpe/Agent.antt =====
-- src/cpe_impl.cpp, and the methods of the agent in src/cpe_agent.cpp.
use pacemaker_cloud.Common.{
  ℕ, zero, suc, Option, none, some, String, ℤ, pos, negsuc, is_zero, to_u32, ◌==◌, Result, ok,
  ◌>>=◌, strcmp_eq, if◌then◌else◌,
}
use pacemaker_cloud.Cpe.{
  Dbus, DbusMessage, InitState, Sent, init_job_start, init_job_reload, init_job_stop,
}

-- What a method returns, a `uint32_t`, and the message that it sent.
abbrev pub DepResult : Type 0
DepResult = ℕ × Option DbusMessage

-- -z, for a value of which the source takes it.
abbrev pub negate : ℤ → ℤ
negate (pos zero) = pos 0
negate (pos (suc n)) = negsuc n
negate (negsuc n) = pos (suc n)

abbrev pub dep_result : Sent → DepResult
dep_result (rc, sent) = (if is_zero rc then 0 else to_u32 (negate rc), sent)

-- The answer of the agent to a call, with the code that it returns with it.
pub data AgentAnswer : Type 0 where
  method_success : Option ℕ → AgentAnswer
  raise_exception : AgentAnswer

-- What an event of the agent makes it do.
pub record Dispatch : Type 0 where
  pub answer : Option AgentAnswer
  pub sent : Option DbusMessage

pub data AgentEventType : Type 0 where
  agent_method other_agent_event : AgentEventType

-- `AgentEvent`, as far as it is read.
pub record AgentEvent : Type 0 where
  pub type : AgentEventType
  pub method_name : String
  pub argument : String → String

abbrev pub answered : DepResult → Dispatch
answered (rc, sent) = record {
  answer = some (if rc == 0 then method_success (some rc) else raise_exception);
  sent = sent;
}

module _ (lib : Dbus) (s : InitState) where
  unfoldable pub dep_start : String → String → Result DepResult
  unfolding init_job_start
  dep_start uuid monitor = init_job_start lib s monitor uuid >>= λ r. ok (dep_result r)

  unfoldable pub dep_reload : String → String → Result DepResult
  unfolding init_job_reload
  dep_reload uuid monitor = init_job_reload lib s monitor uuid >>= λ r. ok (dep_result r)

  unfoldable pub dep_stop : String → String → Result DepResult
  unfolding init_job_stop
  dep_stop uuid monitor = init_job_stop lib s monitor uuid >>= λ r. ok (dep_result r)

  abbrev dispatch_method : AgentEvent → Result Dispatch
  dispatch_method event =
      let uuid = event.argument "uuid" in
      let monitor = event.argument "monitor" in
      if strcmp_eq event.method_name "deployable_start"
      then (dep_start uuid monitor >>= λ r. ok (answered r))
      else if strcmp_eq event.method_name "deployable_stop"
      then (dep_stop uuid monitor >>= λ r. ok (answered r))
      else if strcmp_eq event.method_name "deployable_reload"
      then (dep_reload uuid monitor >>= λ r. ok (answered r))
      else ok (record { answer = some (method_success none); sent = none })

  unfoldable pub event_dispatch : AgentEvent → Result Dispatch
  unfolding dep_start dep_stop dep_reload
  event_dispatch event = elim event.type [
    | agent_method ↦ dispatch_method event
    | other_agent_event ↦ ok (record { answer = none; sent = none })
  ]
