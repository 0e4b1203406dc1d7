-- ===== src/Recover.antt =====
-- src/recover.c: the recovery state of a node or a resource, which restarts it when it fails and
-- escalates when it fails too often.
pub mod Outside
pub mod Init
pub mod Laws
pub mod Escalation
pub mod Limits
pub mod Total
pub mod Keeps
pub mod Reaches
use pacemaker_cloud.Common.{
  ℕ, ◌-◌, ◌≡◌, Bool, true, false, ◌&&◌, Option, none, some, ℤ, pos, negsuc, is_pos, leb, Result, ok,
  fault, null_pointer, ◌>>=◌, if◌then◌else◌,
}
use Outside.{Platform}

-- `enum recover_state`.
pub data RecoverState : Type 0 where
  unknown running failed stopped unrecoverable : RecoverState

abbrev pub state_num : RecoverState → ℕ
state_num unknown = 0
state_num running = 1
state_num failed = 2
state_num stopped = 3
state_num unrecoverable = 4

abbrev pub state_eq : RecoverState → RecoverState → Bool
state_eq unknown unknown = true
state_eq running running = true
state_eq failed failed = true
state_eq stopped stopped = true
state_eq unrecoverable unrecoverable = true
state_eq _ _ = false

-- `struct recover`, without its three callbacks, which `Callbacks` holds. `sw` is null where no
-- stopwatch was made.
pub record Recover (p : Platform) : Type 0 where
  pub state : RecoverState
  pub num_failures : ℤ
  pub failure_period : ℤ
  pub sw : Option (p.Sw)

-- The callbacks act on the whole state `W` of the daemon; `state_changing` may be null.
pub record Callbacks (W : Type 0) : Type 0 where
  pub state_changing : Option (RecoverState → RecoverState → W → Result W)
  pub restart : W → Result W
  pub escalate : W → Result W

-- Where in `W` the structure that `r` points to stands.
pub record Place (p : Platform) (W : Type 0) : Type 0 where
  pub get : W → Recover p
  pub put : Recover p → W → W

abbrev pub nat : ℤ → ℕ
nat (pos n) = n
nat (negsuc n) = 0

module _ (p : Platform) where
  abbrev pub measured : Recover p → Bool
  measured r = is_pos r.num_failures && is_pos r.failure_period

  -- `p = diff; p /= QB_TIME_US_IN_SEC; p <= r->failure_period`.
  abbrev pub within_period : ℕ → ℤ → Bool
  within_period diff period = p.le_f (p.div_f (p.of_u64 diff) (p.of_u64 1000000)) (p.of_int period)

  -- The failure is too soon after the (`num_failures` - 1)-th before it: start the watch again.
  unfoldable pub too_often : ℕ → Recover p → p.Sw → ℕ → Bool × Recover p
  too_often now r sw last =
      let need = nat r.num_failures - 1 in
      if leb need last
      then (if within_period (p.time_split_get sw last (last - need)) r.failure_period
          then (true, record r { sw = some (p.start now sw) })
          else (false, record r { sw = some sw }))
      else (false, record r { sw = some sw })

  -- The index of the last split is negative if there is none.
  unfoldable pub judge_at : ℕ → Recover p → p.Sw → ℤ → Bool × Recover p
  unfolding too_often
  judge_at now r sw (pos last) = too_often now r sw last
  judge_at now r sw (negsuc n) = (false, record r { sw = some sw })

  unfoldable pub judge : ℕ → Recover p → p.Sw → Bool × Recover p
  unfolding judge_at
  judge now r sw = judge_at now r sw (p.split_last sw)

  unfoldable pub measure : ℕ → Recover p → Result (Bool × Recover p)
  unfolding judge
  measure now r = elim r.sw [
    | none ↦ fault null_pointer
    | some sw ↦ ok (judge now r (p.split now sw))
  ]

  module _ {W : Type 0} (cb : Callbacks W) (pl : Place p W) where
    abbrev pub changing : RecoverState → RecoverState → W → Result W
    changing from to w = elim cb.state_changing [ none ↦ ok w | some f ↦ f from to w ]

    unfoldable pub recover_failed : ℕ → W → Result W
    recover_failed now w =
        if measured (pl.get w)
        then (measure now (pl.get w) >>= λ (escalating, r).
            if escalating then cb.escalate (pl.put r w) else cb.restart (pl.put r w))
        else cb.restart w

    unfoldable pub recover_state_set : ℕ → RecoverState → W → Result W
    recover_state_set now state w =
        if state_eq (pl.get w).state state
        then ok w
        else (changing (pl.get w).state state w >>= λ w₁.
            let w₂ = pl.put (record (pl.get w₁) { state = state }) w₁ in
            if state_eq state failed then recover_failed now w₂ else ok w₂)
