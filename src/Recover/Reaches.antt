-- ===== src/Recover/Reaches.antt =====
-- After `recover_state_set` the structure is in the state that was set, where the callbacks leave the
-- state alone.
use pacemaker_cloud.Common.{
  ℕ, ◌≡◌, refl, ap, ◌∙◌, Bool, true, false, After, After->>=, After-option, fault, null_pointer, ℤ,
  pos, negsuc, leb, ◌-◌, if◌then◌else◌,
}
use pacemaker_cloud.Recover.Outside.{Platform}
use pacemaker_cloud.Recover.{
  RecoverState, unknown, running, failed, stopped, unrecoverable, Recover, Callbacks, Place,
  state_eq, measured, measure, recover_failed, recover_state_set, changing, nat, within_period,
  too_often, judge_at, judge,
}
use pacemaker_cloud.Recover.Keeps.{After-if, After-if_cases}

pub state_eq_sound : (s t : RecoverState) → state_eq s t ≡ true → s ≡ t
state_eq_sound unknown unknown h = refl
state_eq_sound running running h = refl
state_eq_sound failed failed h = refl
state_eq_sound stopped stopped h = refl
state_eq_sound unrecoverable unrecoverable h = refl
state_eq_sound s t h = absurd cc

either {ℓ κ} :
    {A : Type ℓ} (P : A → Type κ) (b : Bool) (x y : A) → P x → P y → P (if b then x else y)
either P true x y h k = h
either P false x y h k = k

module _ (p : Platform) where
  -- Measuring a failure leaves the state alone.
  too_often-state :
      (now : ℕ) (r : Recover p) (sw : p.Sw) (last : ℕ)
      → (too_often p now r sw last).1.state ≡ r.state
  unfolding too_often
  too_often-state now r sw last =
      let Same = λ (b : Bool × Recover p). b.1.state ≡ r.state in
      either Same (leb (nat r.num_failures - 1) last) _ _
        (either Same
          (within_period p (p.time_split_get sw last (last - (nat r.num_failures - 1)))
            r.failure_period)
          _ _ refl refl)
        refl

  judge_at-state :
      (now : ℕ) (r : Recover p) (sw : p.Sw) (last : ℤ)
      → (judge_at p now r sw last).1.state ≡ r.state
  unfolding judge_at
  judge_at-state now r sw (pos last) = too_often-state now r sw last
  judge_at-state now r sw (negsuc n) = refl

  measure-state : (now : ℕ) (r : Recover p) → After (λ b. b.1.state ≡ r.state) (measure p now r)
  unfolding measure judge
  measure-state now r = After-option _ r.sw (fault null_pointer) _ tt λ sw. judge_at-state now r _ _

module _ (p : Platform) {W : Type 0} (cb : Callbacks W) (pl : Place p W) (P : W → Type 0)
    (state : RecoverState) where
  -- The structure is there, and in that state.
  abbrev pub IsIn : W → Type 0
  IsIn w = P w × ((pl.get w).state ≡ state)

module _ (p : Platform) {W : Type 0} (cb : Callbacks W) (pl : Place p W) (P : W → Type 0)
    (state : RecoverState)
    (putting : (w : W) (r : Recover p) → P w → P (pl.put r w) × (pl.get (pl.put r w) ≡ r))
    (reporting : (w : W) (from to : RecoverState) → P w → After P (changing p cb pl from to w))
    (restarting : (w : W) → IsIn p cb pl P state w → After (IsIn p cb pl P state) (cb.restart w))
    (escalating : (w : W)
      → IsIn p cb pl P state w
      → After (IsIn p cb pl P state) (cb.escalate w)) where
  put-IsIn : (w : W) (r : Recover p) → P w → r.state ≡ state → IsIn p cb pl P state (pl.put r w)
  put-IsIn w r h e = let (h', g) = putting w r h in (h', ap (λ r. r.state) g ∙ e)

  failed-IsIn :
      (now : ℕ) (w : W)
      → IsIn p cb pl P state w
      → After (IsIn p cb pl P state) (recover_failed p cb pl now w)
  unfolding recover_failed
  failed-IsIn now w (h, e) =
      After-if (IsIn p cb pl P state) (measured p (pl.get w)) _ _
        (After->>= (λ b. b.1.state ≡ (pl.get w).state) (IsIn p cb pl P state)
          (measure p now (pl.get w)) _ (measure-state p now (pl.get w))
          λ b k.
            After-if (IsIn p cb pl P state) b.0 _ _ (escalating _ (put-IsIn w b.1 h (k ∙ e)))
              (restarting _ (put-IsIn w b.1 h (k ∙ e))))
        (restarting w (h, e))

  pub set-IsIn :
      (now : ℕ) (w : W) → P w → After (IsIn p cb pl P state) (recover_state_set p cb pl now state w)
  unfolding recover_state_set
  set-IsIn now w h =
      After-if_cases (IsIn p cb pl P state) (state_eq (pl.get w).state state) _ _
        (λ same. (h, state_eq_sound _ _ same))
        λ _.
          After->>= P (IsIn p cb pl P state) (changing p cb pl (pl.get w).state state w) _
            (reporting w (pl.get w).state state h)
            λ w₁ h₁.
              After-if (IsIn p cb pl P state) (state_eq state failed) _ _
                (failed-IsIn now _ (put-IsIn w₁ _ h₁ refl)) (put-IsIn w₁ _ h₁ refl)
