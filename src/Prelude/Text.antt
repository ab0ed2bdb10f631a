-- ===== src/Prelude/Text.antt =====
-- Numbers as text: fmt's %d.
use Prim.Native.Nat.{ℕ, zero, suc, ◌/◌, ◌%◌}
use Prim.Native.String.{String, ◌++◌ as ◌<>◌}
use taskqueue_go.Prelude.Tests.{ltb, eqb, if◌then◌else◌}
use taskqueue_go.Prelude.Int.{ℤ, pos, negsuc}

abbrev digit_text : ℕ → String
digit_text d =
    if eqb d 0
    then "0"
    else if eqb d 1
    then "1"
    else if eqb d 2
    then "2"
    else if eqb d 3
    then "3"
    else if eqb d 4
    then "4"
    else if eqb d 5
    then "5"
    else if eqb d 6
    then "6"
    else if eqb d 7
    then "7"
    else if eqb d 8
    then "8"
    else "9"

-- The decimal digits of a number with at most `fuel` of them; any number has no more digits
-- than one more than itself.
nat_digits : ℕ → ℕ → String
nat_digits zero n = ""
nat_digits (suc fuel) n =
    let rest = nat_digits fuel (n / 10) <> digit_text (n % 10) in
    if ltb n 10 then digit_text n else rest

unfoldable pub int_text : ℤ → String
unfolding nat_digits
int_text (pos n) = nat_digits (suc n) n
int_text (negsuc n) = "-" <> nat_digits (suc (suc n)) (suc n)
