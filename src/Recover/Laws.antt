-- ===== src/Recover/Laws.antt =====
-- Which callbacks `recover_state_set` makes, in order, over a state that records them.
use pacemaker_cloud.Common.{
  ℕ, ◌≡◌, refl, false, some, List, [], ◌∷◌, ◌++◌, Result, ok, inl, inr, Bool-cases, ◌&&◌,
  if◌then◌else◌,
}
use mathlib.Core.List.{append_assoc}
use pacemaker_cloud.Recover.Outside.{Platform}
use pacemaker_cloud.Recover.{
  RecoverState, failed, Recover, Callbacks, Place, state_eq, measured, recover_failed,
  recover_state_set,
}

pub data Call : Type 0 where
  changed : RecoverState → RecoverState → Call
  restarted escalated : Call

-- A structure, and the callbacks made so far.
pub record Traced (p : Platform) : Type 0 where
  pub recover : Recover p
  pub calls : List Call

module _ (p : Platform) where
  abbrev pub record_call : Call → Traced p → Result (Traced p)
  record_call c w = ok (record w { calls = w.calls ++ c ∷ [] })

  abbrev pub tracing : Callbacks (Traced p)
  tracing = record {
    state_changing = some (λ from to. record_call (changed from to));
    restart = record_call restarted;
    escalate = record_call escalated;
  }

  abbrev pub traced : Place p (Traced p)
  traced = record { get = λ w. w.recover; put = λ r w. record w { recover = r } }

  unfoldable pub traced_set : ℕ → RecoverState → Traced p → Result (Traced p)
  unfolding recover_state_set
  traced_set now state w = recover_state_set p tracing traced now state w

  -- Setting the state that a node or a resource already has, "failed" included, does nothing: no
  -- callback is made and nothing is measured. Any other change is reported once and stored, and if
  -- it is to "failed" the node or resource is then restarted once, where no limit is configured. (A
  -- limit matters for a change to "failed" only.)
  pub set_calls :
      (now : ℕ) (to : RecoverState) (w : Traced p)
      → (state_eq to failed && measured p w.recover) ≡ false
      → traced_set now to w ≡ (
          if state_eq w.recover.state to
          then ok w
          else ok (record w {
            recover = record (w.recover) { state = to };
            calls =
                w.calls
                ++ changed w.recover.state to ∷ (if state_eq to failed then restarted ∷ [] else []);
          }))
  unfolding traced_set recover_failed
  set_calls now to w h = elim (Bool-cases (state_eq w.recover.state to)) [
    | inl e ↦ rw e refl
    | inr e ↦ elim (Bool-cases (state_eq to failed)) [
      | inl f ↦ let m : measured p w.recover ≡ false = rw f at h in rw (e, f, m) (simp append_assoc)
      | inr f ↦ rw (e, f) refl
    ]
  ]
