-- ===== src/Recover/Total.antt =====
-- `recover_state_set` never reads a null stopwatch, and keeps what its callbacks keep.
use pacemaker_cloud.Common.{
  ℕ, ◌-◌, leb, ◌≡◌, refl, Bool, true, false, Option, none, some, ℤ, pos, negsuc, Result, ok, ◌>>=◌,
  ◌⊎◌, inl, inr, arith, Bool-cases, if◌then◌else◌,
}
use pacemaker_cloud.Recover.Outside.{Platform}
use pacemaker_cloud.Recover.{
  RecoverState, failed, Recover, Callbacks, Place, state_eq, measured, measure, nat, within_period,
  judge_at, judge, recover_failed, recover_state_set, changing,
}

-- A structure that measures failures has a stopwatch.
abbrev pub IsReady : (p : Platform) → Recover p → Type 0
IsReady p r = (measured p r ≡ false) ⊎ ((s : p.Sw) × (r.sw ≡ some s))

-- A call ends well, in a state of which P holds.
abbrev pub Ends {ℓ} : {W : Type 0} → (W → Type ℓ) → Result W → Type ℓ
Ends {W} P m = (w : W) × (m ≡ ok w) × P w

pub Ends->>= {ℓ κ} :
    {W : Type 0} (P : W → Type ℓ) (Q : W → Type κ) (m : Result W) (f : W → Result W)
    → Ends P m
    → ((w : W) → P w → Ends Q (f w))
    → Ends Q (m >>= f)
Ends->>= P Q m f (w, e, h) k = rw e (k w h)

module _ (p : Platform) where
  abbrev HasWatch : Bool × Recover p → Type 0
  HasWatch r = (s : p.Sw) × (r.1.sw ≡ some s)

  choice-HasWatch :
      (b c : Bool) (x y : Bool × Recover p)
      → HasWatch x
      → HasWatch y
      → HasWatch (if b then (if c then x else y) else y)
  choice-HasWatch true true x y hx hy = hx
  choice-HasWatch true false x y hx hy = hy
  choice-HasWatch false c x y hx hy = hy

  judge_at-HasWatch :
      (now : ℕ) (r : Recover p) (sw : p.Sw) (l : ℤ) → HasWatch (judge_at p now r sw l)
  unfolding judge_at
  judge_at-HasWatch now r sw (pos last) =
      choice-HasWatch (leb (nat r.num_failures - 1) last)
        (within_period p (p.time_split_get sw last (last - (nat r.num_failures - 1)))
          r.failure_period)
        (true, record r { sw = some (p.start now sw) }) (false, record r { sw = some sw })
        (p.start now sw, refl) (sw, refl)
  judge_at-HasWatch now r sw (negsuc n) = (sw, refl)

  measure_total :
      (now : ℕ) (r : Recover p) (sw : Option (p.Sw)) {s : p.Sw}
      → r.sw ≡ sw
      → sw ≡ some s
      → (b : Bool × Recover p) × (measure p now r ≡ ok b) × HasWatch b
  unfolding measure judge
  measure_total now r none e f = absurd (ground arith)
  measure_total now r (some s) e f =
      (judge p now r (p.split now s), rw (e, measure) refl, judge_at-HasWatch now r _ _)

module _ (p : Platform) {W : Type 0} (cb : Callbacks W) (pl : Place p W) (P : W → Type 0)
    (ready : (w : W) → P w → IsReady p (pl.get w))
    (putting : (w : W) (r : Recover p) → P w → IsReady p r → P (pl.put r w))
    (reporting : (w : W) (from to : RecoverState) → P w → Ends P (changing p cb pl from to w))
    (restarting : (w : W) → P w → Ends P (cb.restart w))
    (escalating : (w : W) → P w → Ends P (cb.escalate w)) where
  choose-Ends : (b : Bool) (w : W) → P w → Ends P (if b then cb.escalate w else cb.restart w)
  choose-Ends true w h = escalating w h
  choose-Ends false w h = restarting w h

  failed-Ends : (now : ℕ) (w : W) → P w → Ends P (recover_failed p cb pl now w)
  unfolding recover_failed
  failed-Ends now w h = elim (ready w h) [
    | inl m ↦ rw m (restarting w h)
    | inr (s, e) ↦ elim (Bool-cases (measured p (pl.get w))) [
      | inl m ↦
          let (b, run, watch) = measure_total p now (pl.get w) _ refl e in
          rw (m, run) (choose-Ends b.0 (pl.put b.1 w) (putting w b.1 h (inr watch)))
      | inr m ↦ rw m (restarting w h)
    ]
  ]

  keep_state :
      (state : RecoverState) (r : Recover p) → IsReady p r → IsReady p (record r { state = state })
  keep_state state r h = h

  pub set-Ends :
      (now : ℕ) (state : RecoverState) (w : W)
      → P w
      → Ends P (recover_state_set p cb pl now state w)
  unfolding recover_state_set
  set-Ends now state w h = elim (Bool-cases (state_eq (pl.get w).state state)) [
    | inl same ↦ rw same (w, refl, h)
    | inr other ↦ rw other (
        Ends->>= P P _ _ (reporting w (pl.get w).state state h) λ w₁ h₁.
          let h₂ : P (pl.put (record (pl.get w₁) { state = state }) w₁) =
            putting w₁ _ h₁ (keep_state state (pl.get w₁) (ready w₁ h₁)) in
          elim (Bool-cases (state_eq state failed)) [
            | inl f ↦ rw f (failed-Ends now _ h₂)
            | inr f ↦ rw f (_, refl, h₂)
          ])
  ]
