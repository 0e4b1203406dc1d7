-- ===== src/Cim/Codes.antt =====
-- The codes that the calls of src/cim_service.c return, and the states that they stand for.
use pacemaker_cloud.Common.{
  ℕ, ◌≡◌, refl, ap, Bool, true, false, Option, some, String, pos, minus_one, Bool-cases, inl, inr,
  ok, ◌&&◌, strcmp_eq, ◌==◌, if◌then◌else◌, eq_ℤ,
}
use pacemaker_cloud.Recover.{RecoverState, unknown, running, failed, stopped, unrecoverable}
use pacemaker_cloud.Ocf.{ocf_ok, pe_resource_is_hard_error}
use pacemaker_cloud.Cape.{PeOperation}
use pacemaker_cloud.Cape.Monitor.{state_after}
use pacemaker_cloud.Cim.{
  CimcData, cimc_boolean, cimc_uint32, Cimc, Clients, cimc_other, invoked, cim_service_start,
  cim_service_stop, service_set_enabled, cim_service_started, service_get_property,
  create_object_path,
}
use pacemaker_cloud.Cim.Jobs.{call_started, call_start, call_stop, call}

-- The call of a CIM server gets as far as the server: the client is there, and the object path can be
-- made.
pub record IsServed (lib : Cimc) (s : Clients) (transport : Option ℕ) (service : String)
    : Type 0 where
  pub client : ℕ
  pub connected : transport ≡ some client
  pub kept : s.in_use client ≡ true
  pub environment : s.env ≡ true
  pub named : (lib.new_string service == 0) ≡ true
  pub path : lib.new_object_path ≡ true

-- The code that a monitor gets for the property "Started".
pub started_code :
    (lib : Cimc) (s : Clients) (transport : Option ℕ) (service : String) (b : ℕ)
    → IsServed lib s transport service
    → lib.get_property service "Started" ≡ (cimc_boolean b, 0)
    → call lib call_started s transport service ≡ ok (pos b)
unfolding cim_service_started service_get_property create_object_path
started_code lib s transport service b i e =
    rw (i.connected, i.environment, i.named, i.path, i.kept, e) refl

-- Whether the CIM server accepted the call of a method.
abbrev pub accepted : CimcData × ℕ → Bool
accepted (cimc_uint32 n, rc) = (rc == 0) && (n == 0)
accepted (cimc_boolean b, rc) = false
accepted (cimc_other, rc) = false

pub start_code :
    (lib : Cimc) (s : Clients) (transport : Option ℕ) (service : String)
    → IsServed lib s transport service
    → call lib call_start s transport service
      ≡ ok (invoked (lib.invoke_method service "StartService"))
unfolding cim_service_start service_set_enabled create_object_path
start_code lib s transport service i = rw (i.connected, i.environment, i.named, i.path, i.kept) refl

pub stop_code :
    (lib : Cimc) (s : Clients) (transport : Option ℕ) (service : String)
    → IsServed lib s transport service
    → call lib call_stop s transport service
      ≡ ok (invoked (lib.invoke_method service "StopService"))
unfolding cim_service_stop service_set_enabled create_object_path
stop_code lib s transport service i = rw (i.connected, i.environment, i.named, i.path, i.kept) refl

invoked-accepted :
    (answer : CimcData × ℕ) → invoked answer ≡ (if accepted answer then pos 0 else minus_one)
invoked-accepted (cimc_uint32 n, rc) = refl
invoked-accepted (cimc_boolean b, rc) = refl
invoked-accepted (cimc_other, rc) = refl

-- The states that the codes stand for.
pub monitor_code :
    (o : PeOperation) (b : ℕ)
    → o.method ≡ "monitor"
    → state_after o (pos b)
      ≡ some (if b == 0 then running else if o.interval == 0 then stopped else failed)
unfolding state_after
monitor_code o b e = rw (ap (λ m. strcmp_eq m "monitor") e) (either (b == 0) (o.interval == 0))
  where
    either :
        (b c : Bool)
        → (if b then some running else if c then some stopped else some failed)
          ≡ some (if b then running else if c then stopped else failed)
    either true c = refl
    either false true = refl
    either false false = refl

-- The state of a start or a stop whose end is `done`.
changed_state :
    (done : RecoverState) (answer : CimcData × ℕ)
    → (if eq_ℤ (invoked answer) ocf_ok
        then some done
        else if pe_resource_is_hard_error (invoked answer)
        then some unrecoverable
        else some unknown)
      ≡ some (if accepted answer then done else unknown)
unfolding pe_resource_is_hard_error
changed_state done answer = elim (Bool-cases (accepted answer)) [
  | inl y ↦ rw (invoked-accepted answer, y) refl
  | inr y ↦ rw (invoked-accepted answer, y) refl
]

pub start_state :
    (o : PeOperation) (answer : CimcData × ℕ)
    → o.method ≡ "start"
    → state_after o (invoked answer) ≡ some (if accepted answer then running else unknown)
unfolding state_after
start_state o answer e =
    rw (ap (λ m. strcmp_eq m "monitor") e, ap (λ m. strcmp_eq m "start") e)
      (changed_state running answer)

pub stop_state :
    (o : PeOperation) (answer : CimcData × ℕ)
    → o.method ≡ "stop"
    → state_after o (invoked answer) ≡ some (if accepted answer then stopped else unknown)
unfolding state_after
stop_state o answer e =
    rw
      (
        ap (λ m. strcmp_eq m "monitor") e,
        ap (λ m. strcmp_eq m "start") e,
        ap (λ m. strcmp_eq m "stop") e,
      )
      (changed_state stopped answer)
