-- ===== src/Common/Infix.antt =====
-- A text that is put together from parts contains each of them.
use Prim.Native.Nat.{ℕ}
use Prim.Native.Char.{code}
use Prim.Native.String.{String, ◌++◌ as append}
use Prim.Native.String.append.{nil, cons}
use mathlib.Core.Path.{◌≡◌, refl, ap, ◌∙◌}
use mathlib.Core.Bool.{Bool, true, false, ◌||◌}
use mathlib.Core.List.{List, [], ◌∷◌, ◌++◌}
use pacemaker_cloud.Common.Tests.{==_self}
use pacemaker_cloud.Common.Text.{codes, is_prefix, is_infix}

pub codes-append : (s t : String) → codes (append s t) ≡ codes s ++ codes t
codes-append String.[] t = ap codes (nil t)
codes-append (String.◌∷◌ c s) t = ap codes (cons c s t) ∙ ap (◌∷◌ (code c)) (codes-append s t)

prefix-append : (part rest : List ℕ) → is_prefix part (part ++ rest) ≡ true
unfolding is_prefix
prefix-append [] rest = refl
prefix-append (x ∷ part) rest = rw (==_self x) (prefix-append part rest)

infix_of_prefix : (part text : List ℕ) → is_prefix part text ≡ true → is_infix part text ≡ true
unfolding is_infix
infix_of_prefix part [] h = h
infix_of_prefix part (y ∷ text) h = rw h refl

true_or : (b : Bool) → (b || true) ≡ true
true_or true = refl
true_or false = refl

infix-append : (before part rest : List ℕ) → is_infix part (before ++ (part ++ rest)) ≡ true
unfolding is_infix
infix-append [] part rest = infix_of_prefix part (part ++ rest) (prefix-append part rest)
infix-append (x ∷ before) part rest = rw (infix-append before part rest) (true_or _)

-- Whatever stands before and after it.
pub infix-middle :
    (before part after : String)
    → is_infix (codes part) (codes (append before (append part after))) ≡ true
infix-middle before part after =
    rw (codes-append before (append part after), codes-append part after)
      (infix-append (codes before) (codes part) (codes after))
