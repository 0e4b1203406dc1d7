-- ===== src/Recover/Keeps.antt =====
-- What the callbacks keep, `recover_state_set` keeps.
use pacemaker_cloud.Common.{
  ℕ, ◌≡◌, refl, Bool, true, false, Result, After, After->>=, After-step, if◌then◌else◌,
}
use pacemaker_cloud.Recover.Outside.{Platform}
use pacemaker_cloud.Recover.{
  RecoverState, failed, Recover, Callbacks, Place, state_eq, measured, measure, recover_failed,
  recover_state_set, changing,
}

pub After-if {ℓ κ} :
    {A : Type ℓ} (P : A → Type κ) (b : Bool) (m n : Result A)
    → After P m
    → After P n
    → After P (if b then m else n)
After-if P true m n h k = h
After-if P false m n h k = k

pub After-if_cases {ℓ κ} :
    {A : Type ℓ} (P : A → Type κ) (b : Bool) (m n : Result A)
    → (b ≡ true → After P m)
    → (b ≡ false → After P n)
    → After P (if b then m else n)
After-if_cases P true m n h k = h refl
After-if_cases P false m n h k = k refl

module _ (p : Platform) {W : Type 0} (cb : Callbacks W) (pl : Place p W) (P : W → Type 0)
    (putting : (w : W) (r : Recover p) → P w → P (pl.put r w))
    (reporting : (w : W) (from to : RecoverState) → P w → After P (changing p cb pl from to w))
    (restarting : (w : W) → P w → After P (cb.restart w))
    (escalating : (w : W) → P w → After P (cb.escalate w)) where
  failed-After : (now : ℕ) (w : W) → P w → After P (recover_failed p cb pl now w)
  unfolding recover_failed
  failed-After now w h =
      After-if P (measured p (pl.get w)) _ _
        (After-step P (measure p now (pl.get w)) _
          λ b. After-if P b.0 _ _ (escalating _ (putting w b.1 h)) (restarting _ (putting w b.1 h)))
        (restarting w h)

  pub set-After :
      (now : ℕ) (state : RecoverState) (w : W)
      → P w
      → After P (recover_state_set p cb pl now state w)
  unfolding recover_state_set
  set-After now state w h = After-if P (state_eq (pl.get w).state state) _ _ h (
      After->>= P P (changing p cb pl (pl.get w).state state w) _
        (reporting w (pl.get w).state state h)
        λ w₁ h₁.
          After-if P (state_eq state failed) _ _ (failed-After now _ (putting w₁ _ h₁))
            (putting w₁ _ h₁))
