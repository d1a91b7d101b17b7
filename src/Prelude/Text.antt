-- ===== src/Prelude/Text.antt =====
-- `format!("{:08}", n)`: decimal digits, filled up with zeros to eight.
use Prim.Native.Nat.{ℕ, zero, suc, ◌+◌, ◌/◌, ◌%◌}
use Prim.Native.String.{String, ◌++◌}
use mathlib.Core.Path.{◌≡◌, refl}
use rich_aim_acct_inv.Prelude.Tests.{◌==◌, if◌then◌else◌}

digit : ℕ → String
digit n =
    if n == 0
    then "0"
    else if n == 1
    then "1"
    else if n == 2
    then "2"
    else if n == 3
    then "3"
    else if n == 4
    then "4"
    else if n == 5
    then "5"
    else if n == 6
    then "6"
    else if n == 7
    then "7"
    else if n == 8
    then "8"
    else "9"

-- The last `width` digits of `n`.
digits : ℕ → ℕ → String
unfolding digit
digits zero n = ""
digits (suc width) n = digits width (n / 10) ++ digit (n % 10)

-- How many digits `n` has beyond the width that is given; a `u64` has at most twenty.
excess : ℕ → ℕ → ℕ
excess zero n = zero
excess (suc fuel) n = let rest = suc (excess fuel (n / 10)) in if n == 0 then zero else rest

unfoldable pub format_08 : ℕ → String
unfolding digits excess
format_08 n = digits (8 + excess 12 (n / 100000000)) n

format_08_small : format_08 42 ≡ "00000042"
unfolding format_08
format_08_small = refl

format_08_large : format_08 1234567890 ≡ "1234567890"
unfolding format_08
format_08_large = refl
