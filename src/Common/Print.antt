-- ===== src/Common/Print.antt =====
-- The texts that the source prints with `snprintf`: "%s", and "%d" of an unsigned 32-bit number.
use Prim.Native.Nat.{ℕ, zero, suc, ◌+◌, ◌-◌, ◌/◌, ◌%◌}
use Prim.Native.String.{String, ◌++◌}
use mathlib.Core.Path.{◌≡◌, refl}
use mathlib.Core.List.{List, [], ◌∷◌}
use pacemaker_cloud.Common.Int.{ℤ, pos, negsuc}
use pacemaker_cloud.Common.Tests.{ltb, if◌then◌else◌}

digit : ℕ → String
digit n =
    if ltb n 1
    then "0"
    else if ltb n 2
    then "1"
    else if ltb n 3
    then "2"
    else if ltb n 4
    then "3"
    else if ltb n 5
    then "4"
    else if ltb n 6
    then "5"
    else if ltb n 7
    then "6"
    else if ltb n 8
    then "7"
    else if ltb n 9
    then "8"
    else "9"

-- One unit of fuel for each digit; n + 1 is enough.
decimal_fuel : ℕ → ℕ → String
decimal_fuel zero n = ""
decimal_fuel (suc f) n =
    let rest = decimal_fuel f (n / 10) in if ltb n 10 then digit n else rest ++ digit (n % 10)

unfoldable pub decimal : ℕ → String
unfolding decimal_fuel digit
decimal n = decimal_fuel (n + 1) n

-- Several texts in a row.
unfoldable pub join : List String → String
join [] = ""
join (s ∷ ss) = s ++ join ss

-- "%d" of an `int`.
unfoldable pub print_int : ℤ → String
unfolding decimal
print_int (pos n) = decimal n
print_int (negsuc n) = "-" ++ decimal (n + 1)

-- "%d" of a `uint32_t`, which is negative from 2 ^ 31 on.
unfoldable pub print_d : ℕ → String
unfolding decimal
print_d n = if ltb n 2147483648 then decimal n else "-" ++ decimal (4294967296 - n)

join_test : join ("rsc_" ∷ decimal 1205 ∷ []) ≡ "rsc_1205"
unfolding join decimal
join_test = refl
