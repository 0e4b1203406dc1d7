-- ===== src/Common/Text.antt =====
-- What the source uses of the C library on texts: `strstr` and `strtol`. A text is its list of bytes.
use Prim.Native.Nat.{ℕ, ◌+◌, ◌-◌, ◌*◌}
use Prim.Native.Char.{code}
use Prim.Native.String.{String}
use mathlib.Core.Path.{◌≡◌, refl}
use mathlib.Core.Bool.{Bool, true, false, ◌&&◌, ◌||◌}
use mathlib.Core.List.{List, [], ◌∷◌}
use pacemaker_cloud.Common.Tests.{ltb, leb, ◌==◌, if◌then◌else◌}
use pacemaker_cloud.Common.Int.{ℤ, pos, negsuc}

abbrev pub codes : String → List ℕ
codes String.[] = []
codes (String.◌∷◌ first rest) = code first ∷ codes rest

unfoldable pub is_prefix : List ℕ → List ℕ → Bool
is_prefix [] ys = true
is_prefix (x ∷ xs) [] = false
is_prefix (x ∷ xs) (y ∷ ys) = x == y && is_prefix xs ys

-- `strstr (haystack, needle) != NULL`.
unfoldable pub is_infix : List ℕ → List ℕ → Bool
unfolding is_prefix
is_infix needle [] = is_prefix needle []
is_infix needle (y ∷ ys) = is_prefix needle (y ∷ ys) || is_infix needle ys

abbrev is_space : ℕ → Bool
is_space c = c == 32 || (leb 9 c && leb c 13)

abbrev is_digit : ℕ → Bool
is_digit c = leb 48 c && leb c 57

skip_space : List ℕ → List ℕ
skip_space [] = []
skip_space (c ∷ cs) = elim (is_space c) [ true ↦ skip_space cs | false ↦ c ∷ cs ]

-- The digits read, most significant first, and whether there was one.
read_digits : ℕ → Bool → List ℕ → ℕ × Bool
read_digits acc any [] = (acc, any)
read_digits acc any (c ∷ cs) = elim (is_digit c) [
  | true ↦ read_digits (acc * 10 + (c - 48)) true cs
  | false ↦ (acc, any)
]

read_sign : List ℕ → Bool × List ℕ
read_sign [] = (false, [])
read_sign (c ∷ cs) =
    if c == 45 then (true, cs) else if c == 43 then (false, cs) else (false, c ∷ cs)

abbrev pub long_max : ℕ
long_max = 9223372036854775807

abbrev pub erange : ℕ
erange = 34

-- What `strtol (s, &endptr, 10)` leaves: its value, `endptr == s`, and `errno`, which it sets on
-- overflow and otherwise does not touch.
pub record Strtol : Type 0 where
  pub val : ℤ
  pub no_digits : Bool
  pub errno : ℕ

clamp : Bool → ℕ → Bool → ℕ → Strtol
clamp neg n any errno =
    if neg
    then (if ltb (long_max + 1) n
        then record { val = negsuc long_max; no_digits = false; errno = erange }
        else if n == 0
        then record { val = pos 0; no_digits = if any then false else true; errno = errno }
        else record { val = negsuc (n - 1); no_digits = false; errno = errno })
    else (if ltb long_max n
        then record { val = pos long_max; no_digits = false; errno = erange }
        else record { val = pos n; no_digits = if any then false else true; errno = errno })

unfoldable pub strtol : ℕ → List ℕ → Strtol
unfolding skip_space read_sign read_digits clamp
strtol errno s =
    let (neg, rest) = read_sign (skip_space s) in
    let (n, any) = read_digits 0 false rest in clamp neg n any errno

strtol_test : strtol 0 (codes " -12x") ≡ record { val = negsuc 11; no_digits = false; errno = 0 }
unfolding strtol
strtol_test = refl
