-- ===== src/Tests/Watch.antt =====
-- A stopwatch that keeps the times of its splits, with exact fractions for `float`.
use pacemaker_cloud.Common.{
  ℕ, zero, suc, ◌-◌, ◌*◌, ◌<◌, ◌≡◌, refl, Option, none, some, List, [], ◌∷◌, leb, arith, length,
  get_elem?,
}
use pacemaker_cloud.Recover.{nat}
use pacemaker_cloud.Recover.Outside.{Platform, StopwatchLaws, last_index}

pub record Watch : Type 0 where
  pub times : List ℕ
  pub size : ℕ

abbrev pub or_zero : Option ℕ → ℕ
or_zero none = 0
or_zero (some t) = t

abbrev pub platform : Platform
platform = record {
  Sw = Watch;
  create = λ now. record { times = []; size = 0 };
  split_ctl = λ n w. record w { size = n };
  start = λ now w. record w { times = [] };
  split = λ now w. record w { times = now ∷ w.times };
  split_last = λ w. last_index (length w.times);
  time_split_get = λ w last older.
      or_zero (get_elem? w.times (length w.times - 1 - last))
      - or_zero (get_elem? w.times (length w.times - 1 - older));
  F = ℕ × ℕ;
  of_u64 = λ n. (n, 1);
  of_int = λ z. (nat z, 1);
  div_f = λ a b. (a.0 * b.1, a.1 * b.0);
  le_f = λ a b. leb (a.0 * b.1) (b.0 * a.1);
}

get_elem?-lt : (xs : List ℕ) (i : ℕ) {t : ℕ} → get_elem? xs i ≡ some t → i < length xs
get_elem?-lt [] i e = cc
get_elem?-lt (x ∷ xs) zero e = omega arith
get_elem?-lt (x ∷ xs) (suc i) e = omega (arith, get_elem?-lt xs i e)

pub split_get_lem :
    (w : Watch) (back : ℕ) {newest oldest : ℕ}
    → get_elem? (w.times) 0 ≡ some newest
    → get_elem? (w.times) back ≡ some oldest
    → platform.time_split_get w (length (w.times) - 1) (length (w.times) - 1 - back)
      ≡ newest - oldest
split_get_lem w back h k =
    let a : length (w.times) - 1 - (length (w.times) - 1) ≡ 0 = omega arith in
    let b : length (w.times) - 1 - (length (w.times) - 1 - back) ≡ back =
      omega (arith, get_elem?-lt (w.times) back k) in
    rw (a, b, h, k, or_zero) refl

abbrev pub laws : StopwatchLaws platform
laws = record {
  splits = λ w. w.times;
  size = λ w. w.size;
  splits-create = λ now n. refl;
  size-create = λ now n. refl;
  splits-start = λ now w. refl;
  size-start = λ now w. refl;
  splits-split = λ now w h. refl;
  size-split = λ now w. refl;
  split_last-eq = λ w. refl;
  split_get = λ w back h s a b. split_get_lem w back a b;
}
