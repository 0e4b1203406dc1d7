-- ===== src/Recover/Outside.antt =====
-- What src/recover.c takes from outside the repository: the stopwatch of libqb and `float`.
use pacemaker_cloud.Common.{
  zero, ℕ, suc, ◌-◌, ◌<◌, ◌≡◌, Bool, List, [], ◌∷◌, some, ℤ, pos, negsuc, length, get_elem?,
}

-- Times are in microseconds. `create now` is `qb_util_stopwatch_create` at time `now`, and
-- `split_ctl n` sets up at most n splits with QB_UTIL_SW_OVERWRITE.
pub record Platform : Type 1 where
  pub Sw : Type 0
  pub create : ℕ → Sw
  pub split_ctl : ℕ → Sw → Sw
  pub start : ℕ → Sw → Sw
  pub split : ℕ → Sw → Sw
  pub split_last : Sw → ℤ
  pub time_split_get : Sw → ℕ → ℕ → ℕ
  pub F : Type 0
  pub of_u64 : ℕ → F
  pub of_int : ℤ → F
  pub div_f : F → F → F
  pub le_f : F → F → Bool

-- The index of the last of n splits.
abbrev pub last_index : ℕ → ℤ
last_index n = elim n [ zero ↦ negsuc 0 | suc k ↦ pos k ]

-- The documented behaviour of the stopwatch, in terms of the times of the splits since the last
-- start, newest first. A split that was overwritten is not asked for.
pub record StopwatchLaws (p : Platform) : Type 0 where
  pub splits : p.Sw → List ℕ
  pub size : p.Sw → ℕ
  pub splits-create : (now n : ℕ) → splits (p.split_ctl n (p.create now)) ≡ []
  pub size-create : (now n : ℕ) → size (p.split_ctl n (p.create now)) ≡ n
  pub splits-start : (now : ℕ) (w : p.Sw) → splits (p.start now w) ≡ []
  pub size-start : (now : ℕ) (w : p.Sw) → size (p.start now w) ≡ size w
  pub splits-split : (now : ℕ) (w : p.Sw) → 0 < size w → splits (p.split now w) ≡ now ∷ splits w
  pub size-split : (now : ℕ) (w : p.Sw) → size (p.split now w) ≡ size w
  pub split_last-eq : (w : p.Sw) → p.split_last w ≡ last_index (length (splits w))
  -- `back` splits before the last one, as far as the watch keeps them; the split itself is measured
  -- from the start and is left open here.
  pub split_get :
      (w : p.Sw) (back : ℕ) {newest oldest : ℕ}
      → 0 < back
      → back < size w
      → get_elem? (splits w) 0 ≡ some newest
      → get_elem? (splits w) back ≡ some oldest
      → p.time_split_get w (length (splits w) - 1) (length (splits w) - 1 - back) ≡ newest - oldest
