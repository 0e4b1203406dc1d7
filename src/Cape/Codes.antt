-- ===== src/Cape/Codes.antt =====
-- What the code with which an operation ends stands for, and that `resource_state_set` of src/cape.c
-- follows it.
use pacemaker_cloud.Common.{
  ℕ, zero, suc, ◌≡◌, refl, arith, Bool, true, false, ◌&&◌, some, String, ℤ, pos, negsuc, ltb, ◌==◌,
  if◌then◌else◌,
}
use pacemaker_cloud.Ocf.{pe_resource_is_hard_error}
use pacemaker_cloud.Recover.{RecoverState, running, stopped, failed, unrecoverable, unknown}
use pacemaker_cloud.Cape.{PeOperation}
use pacemaker_cloud.Cape.Monitor.{state_after}

-- The operations that have a meaning for the state of a resource.
pub data OcfMethod : Type 0 where
  to_monitor to_start to_stop : OcfMethod

abbrev pub method_name : OcfMethod → String
method_name to_monitor = "monitor"
method_name to_start = "start"
method_name to_stop = "stop"

-- What a code of a monitor stands for, by its interval.
abbrev monitored : ℕ → ℤ → RecoverState
monitored interval (pos zero) = running
monitored zero (pos (suc n)) = stopped
monitored (suc i) (pos (suc n)) = failed
monitored zero (negsuc n) = stopped
monitored (suc i) (negsuc n) = failed

-- What a code of a start or a stop stands for, by the state that it is to bring about.
abbrev changed : RecoverState → ℤ → RecoverState
changed done (pos zero) = done
changed done (pos (suc n)) = if ltb 0 n && ltb n 6 then unrecoverable else unknown
changed done (negsuc n) = unknown

abbrev pub state_of_code : OcfMethod → ℕ → ℤ → RecoverState
state_of_code to_monitor interval rc = monitored interval rc
state_of_code to_start interval rc = changed running rc
state_of_code to_stop interval rc = changed stopped rc

suc_not_zero : (n : ℕ) → (suc n == 0) ≡ false
suc_not_zero n = ground arith

hard_lem : (n : ℕ) → pe_resource_is_hard_error (pos (suc n)) ≡ (ltb 0 n && ltb n 6)
unfolding pe_resource_is_hard_error
hard_lem n = ground arith

soft_lem : (n : ℕ) → pe_resource_is_hard_error (negsuc n) ≡ false
unfolding pe_resource_is_hard_error
soft_lem n = refl

some_if :
    (b : Bool) (x y : RecoverState) → (if b then some x else some y) ≡ some (if b then x else y)
some_if true x y = refl
some_if false x y = refl

start_state_lem :
    (o : PeOperation) (rc : ℤ) → o.method ≡ "start" → state_after o rc ≡ some (changed running rc)
unfolding state_after
start_state_lem o (pos zero) e = rw e refl
start_state_lem o (pos (suc n)) e = rw (e, suc_not_zero n, hard_lem n) (some_if _ _ _)
start_state_lem o (negsuc n) e = rw (e, soft_lem n) refl

stop_state_lem :
    (o : PeOperation) (rc : ℤ) → o.method ≡ "stop" → state_after o rc ≡ some (changed stopped rc)
unfolding state_after
stop_state_lem o (pos zero) e = rw e refl
stop_state_lem o (pos (suc n)) e = rw (e, suc_not_zero n, hard_lem n) (some_if _ _ _)
stop_state_lem o (negsuc n) e = rw (e, soft_lem n) refl

interval_state :
    (interval n : ℕ)
    → (if interval == 0 then some stopped else some failed)
      ≡ some (monitored interval (pos (suc n)))
interval_state zero n = refl
interval_state (suc i) n = rw (suc_not_zero i) refl

interval_state_negsuc :
    (interval n : ℕ)
    → (if interval == 0 then some stopped else some failed) ≡ some (monitored interval (negsuc n))
interval_state_negsuc zero n = refl
interval_state_negsuc (suc i) n = rw (suc_not_zero i) refl

monitor_state_lem :
    (o : PeOperation) (rc : ℤ)
    → o.method ≡ "monitor"
    → state_after o rc ≡ some (monitored o.interval rc)
unfolding state_after
monitor_state_lem o (pos zero) e = rw e refl
monitor_state_lem o (pos (suc n)) e = rw (e, suc_not_zero n) (interval_state o.interval n)
monitor_state_lem o (negsuc n) e = rw e (interval_state_negsuc o.interval n)

pub state_of_code_lem :
    (method : OcfMethod) (o : PeOperation) (rc : ℤ)
    → o.method ≡ method_name method
    → state_after o rc ≡ some (state_of_code method o.interval rc)
state_of_code_lem to_monitor o rc e = monitor_state_lem o rc e
state_of_code_lem to_start o rc e = start_state_lem o rc e
state_of_code_lem to_stop o rc e = stop_state_lem o rc e
