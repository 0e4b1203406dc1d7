-- ===== src/Recover/Escalation.antt =====
-- When a node or resource that fails again and again is escalated, against a specification that looks
-- at the times of its failures only.
use pacemaker_cloud.Common.{
  ℕ, zero, suc, ◌+◌, ◌-◌, ◌<◌, ◌≤◌, ◌≡◌, refl, ap, ◌∙◌, Bool, true, false, none, some, List, [],
  ◌∷◌, ◌++◌, pos, Result, ok, ◌>>=◌, arith, if◌then◌else◌, leb, inl, inr, Bool-cases, length,
  get_elem?, All, ◌≢◌,
}
use mathlib.Core.List.{append_assoc, append-nil}
use native.Mathlib.Decide.{dec_lt}
use pacemaker_cloud.Recover.Outside.{Platform, StopwatchLaws}
use pacemaker_cloud.Recover.Laws.{Call, changed, restarted, escalated, Traced, traced_set}
use pacemaker_cloud.Recover.{
  RecoverState, running, failed, Recover, within_period, measure, recover_failed, judge, too_often,
}

get_elem?_below {ℓ} :
    {A : Type ℓ} (xs : List A) (n : ℕ) → n < length xs → (a : A) × (get_elem? xs n ≡ some a)
get_elem?_below [] n h = elim h [ ]
get_elem?_below (x ∷ xs) zero h = (x, refl)
get_elem?_below (x ∷ xs) (suc n) h = get_elem?_below xs n (omega arith)

get_elem?_above {ℓ} : {A : Type ℓ} (xs : List A) (n : ℕ) → length xs ≤ n → get_elem? xs n ≡ none
get_elem?_above [] n h = refl
get_elem?_above (x ∷ xs) zero h = elim h [ ]
get_elem?_above (x ∷ xs) (suc n) h = get_elem?_above xs n (omega arith)

module _ (p : Platform) where
  -- A failure at a time, and then the recovery from it.
  unfoldable pub fail_and_recover : ℕ → Traced p → Result (Traced p)
  fail_and_recover now w = do w' ← traced_set p now failed w; traced_set p now running w'

  unfoldable pub fail_each : List ℕ → Traced p → Result (Traced p)
  unfolding fail_and_recover
  fail_each [] w = ok w
  fail_each (now ∷ times) w = do w' ← fail_and_recover now w; fail_each times w'

module _ (p : Platform) (k period : ℕ) where
  -- `num_failures` is k + 2 and the period is positive.
  abbrev pub armed : RecoverState → p.Sw → Recover p
  armed st w = record {
    state = st;
    num_failures = pos (suc (suc k));
    failure_period = pos (suc period);
    sw = some w;
  }

  -- The specification: with the earlier failures since the last escalation, newest first, a failure
  -- is one too many if the (k + 1)-th before it is no further back than the period.
  unfoldable pub too_many : ℕ → List ℕ → Bool
  too_many now earlier = elim (get_elem? earlier k) [
    | none ↦ false
    | some first ↦ within_period p (now - first) (pos (suc period))
  ]

  -- What the specification asks for at each failure, from the times of the earlier ones.
  unfoldable pub expected : List ℕ → List ℕ → List Call
  expected earlier [] = []
  expected earlier (now ∷ times) =
      let escalate = too_many now earlier in
      changed running failed
      ∷ (if escalate then escalated else restarted)
      ∷ changed failed running
      ∷ expected (if escalate then [] else now ∷ earlier) times

module _ (p : Platform) (L : StopwatchLaws p) (k period : ℕ) where
  split_last_lem :
      (now : ℕ) (w : p.Sw)
      → L.size w ≡ suc (suc k)
      → p.split_last (p.split now w) ≡ pos (length (L.splits w))
  split_last_lem now w e = rw (L.split_last-eq, L.splits-split now w (omega arith)) refl

  split_diff :
      (now first : ℕ) (w : p.Sw)
      → L.size w ≡ suc (suc k)
      → get_elem? (L.splits w) k ≡ some first
      → let last = length (L.splits w) in
        p.time_split_get (p.split now w) last (last - suc k) ≡ now - first
  split_diff now first w e h =
      let s = L.splits-split now w (omega arith) in
      let got =
        L.split_get (p.split now w) (suc k) {newest = now} {oldest = first} (omega arith)
          (rw (L.size-split, e) (omega arith)) (rw s refl) (rw s h) in
      let l : length (L.splits (p.split now w)) - 1 ≡ length (L.splits w) =
        omega (arith, ap length s) in
      rw l at got

  watch_after : ℕ → p.Sw → p.Sw
  watch_after now w =
      if too_many p k period now (L.splits w) then p.start now (p.split now w) else p.split now w

  judge_lem :
      (st : RecoverState) (now last : ℕ) (w v : p.Sw)
      → p.split_last v ≡ pos last
      → judge p now (armed p k period st w) v ≡ too_often p now (armed p k period st w) v last
  unfolding judge
  judge_lem st now last w v e = rw e refl

  too_often_far :
      (st : RecoverState) (now last : ℕ) (w v : p.Sw)
      → last ≤ k
      → too_often p now (armed p k period st w) v last ≡ (false, armed p k period st v)
  unfolding too_often
  too_often_far st now last w v h =
      let e : leb (suc (suc k) - 1) last ≡ false = ground arith in rw (e, too_often) refl

  too_often_near :
      (st : RecoverState) (now last diff : ℕ) (w v : p.Sw)
      → k < last
      → p.time_split_get v last (last - suc k) ≡ diff
      → too_often p now (armed p k period st w) v last ≡ (
          let soon = within_period p diff (pos (suc period)) in
          (soon, armed p k period st (if soon then p.start now v else v)))
  unfolding too_often
  too_often_near st now last diff w v h d =
      let e : leb (suc (suc k) - 1) last ≡ true = ground arith in
      let n : suc (suc k) - 1 ≡ suc k = omega arith in
      elim (Bool-cases (within_period p diff (pos (suc period)))) [
        | inl t ↦ rw (e, n, d, t, too_often) refl
        | inr t ↦ rw (e, n, d, t, too_often) refl
      ]

  measure_near :
      (st : RecoverState) (now first : ℕ) (w : p.Sw)
      → L.size w ≡ suc (suc k)
      → k < length (L.splits w)
      → get_elem? (L.splits w) k ≡ some first
      → measure p now (armed p k period st w)
        ≡ ok (too_many p k period now (L.splits w), armed p k period st (watch_after now w))
  unfolding measure watch_after too_many
  measure_near st now first w e h at =
      let t : too_many p k period now (L.splits w)
          ≡ within_period p (now - first) (pos (suc period)) =
        rw (at, too_many) refl in
      ap ok (
        judge_lem st now _ w (p.split now w) (split_last_lem now w e)
        ∙ too_often_near st now _ (now - first) w (p.split now w) h (split_diff now first w e at)
        ∙ rw t refl)

  measure_far :
      (st : RecoverState) (now : ℕ) (w : p.Sw)
      → L.size w ≡ suc (suc k)
      → length (L.splits w) ≤ k
      → measure p now (armed p k period st w)
        ≡ ok (too_many p k period now (L.splits w), armed p k period st (watch_after now w))
  unfolding measure watch_after too_many
  measure_far st now w e h =
      let t : too_many p k period now (L.splits w) ≡ false =
        rw (get_elem?_above (L.splits w) k h, too_many) refl in
      ap ok (
        judge_lem st now _ w (p.split now w) (split_last_lem now w e)
        ∙ too_often_far st now _ w (p.split now w) h
        ∙ rw t refl)

  measure_lem :
      (st : RecoverState) (now : ℕ) (w : p.Sw)
      → L.size w ≡ suc (suc k)
      → measure p now (armed p k period st w)
        ≡ ok (too_many p k period now (L.splits w), armed p k period st (watch_after now w))
  measure_lem st now w e = elim (dec_lt k (length (L.splits w))) [
    | yes h ↦
        let (first, at) = get_elem?_below (L.splits w) k h in measure_near st now first w e h at
    | no h ↦ measure_far st now w e (omega arith)
  ]

  one_failure : ℕ → p.Sw → List Call
  one_failure now w =
      changed running failed
      ∷ (if too_many p k period now (L.splits w) then escalated else restarted)
      ∷ changed failed running
      ∷ []

  fail_and_recover_lem :
      (now : ℕ) (w : p.Sw) (cs : List Call)
      → L.size w ≡ suc (suc k)
      → fail_and_recover p now (record { recover = armed p k period running w; calls = cs })
        ≡ ok (record {
          recover = armed p k period running (watch_after now w);
          calls = cs ++ one_failure now w;
        })
  unfolding fail_and_recover one_failure traced_set recover_failed
  fail_and_recover_lem now w cs e = elim (Bool-cases (too_many p k period now (L.splits w))) [
    | inl t ↦ rw (measure_lem failed now w e, t) (simp append_assoc)
    | inr t ↦ rw (measure_lem failed now w e, t) (simp append_assoc)
  ]

  splits-watch_after :
      (now : ℕ) (w : p.Sw)
      → L.size w ≡ suc (suc k)
      → L.splits (watch_after now w)
        ≡ (if too_many p k period now (L.splits w) then [] else now ∷ L.splits w)
  unfolding watch_after
  splits-watch_after now w e = elim (Bool-cases (too_many p k period now (L.splits w))) [
    | inl t ↦ rw (t, L.splits-start) refl
    | inr t ↦ rw (t, L.splits-split now w (omega arith)) refl
  ]

  size-watch_after :
      (now : ℕ) (w : p.Sw) → L.size w ≡ suc (suc k) → L.size (watch_after now w) ≡ suc (suc k)
  unfolding watch_after
  size-watch_after now w e = elim (Bool-cases (too_many p k period now (L.splits w))) [
    | inl t ↦ rw (t, L.size-start, L.size-split) e
    | inr t ↦ rw (t, L.size-split) e
  ]

  pub fail_each-calls :
      (times : List ℕ) (w : p.Sw) (cs : List Call)
      → L.size w ≡ suc (suc k)
      → (v : p.Sw) × (fail_each p times
            (record { recover = armed p k period running w; calls = cs })
          ≡ ok (record {
            recover = armed p k period running v;
            calls = cs ++ expected p k period (L.splits w) times;
          }))
  unfolding fail_each expected one_failure
  fail_each-calls [] w cs e = (w, rw append-nil refl)
  fail_each-calls (now ∷ times) w cs e =
      let (v, rest) =
        fail_each-calls times (watch_after now w) (cs ++ one_failure now w)
          (size-watch_after now w e) in
      (v, rw (fail_and_recover_lem now w cs e, rest, splits-watch_after now w e, append_assoc) refl)

module _ (p : Platform) (k period : ℕ) where
  too_many_few :
      (now : ℕ) (earlier : List ℕ) → length earlier ≤ k → too_many p k period now earlier ≡ false
  unfolding too_many
  too_many_few now earlier h = rw (get_elem?_above earlier k h, too_many) refl

  pub few_escalated :
      (earlier times : List ℕ)
      → length earlier + length times ≤ suc k
      → All (λ c. c ≢ escalated) (expected p k period earlier times)
  unfolding expected
  few_escalated earlier [] h = tt
  few_escalated earlier (now ∷ times) h =
      let e : too_many p k period now earlier ≡ false = too_many_few now earlier (omega arith) in
      rw e ((λ x. cc), ((λ x. cc), ((λ x. cc), few_escalated (now ∷ earlier) times (omega arith))))
