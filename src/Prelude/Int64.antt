-- ===== src/Prelude/Int64.antt =====
-- int64 and time.Duration arithmetic, which wraps round modulo 2^64.
use Prim.Native.Nat.{ℕ, ◌+◌, ◌-◌, ◌*◌, ◌%◌, ◌^◌, ◌≤◌, ◌<◌}
use mathlib.Core.Path.{◌≡◌, ◌∙◌, ap}
use native.Mathlib.Omega.{arith}
use taskqueue_go.Prelude.Tests.{ltb, if◌then◌else◌}
use taskqueue_go.Prelude.Int.{
  ℤ, pos, negsuc, pos_part, neg_part, ◌+ℤ◌, ◌-ℤ◌, ◌*ℤ◌, pos-+ℤ-pos, pos-*ℤ-pos, pos--ℤ-pos, zero-*ℤ,
}

-- The int64 whose 64 bits are those of the integer.
unfoldable pub wrap64 : ℤ → ℤ
wrap64 (pos n) =
    if ltb (n % 2 ^ 64) (2 ^ 63) then pos (n % 2 ^ 64) else negsuc (2 ^ 64 - n % 2 ^ 64 - 1)
wrap64 (negsuc n) =
    if ltb (n % 2 ^ 64) (2 ^ 63) then negsuc (n % 2 ^ 64) else pos (2 ^ 64 - n % 2 ^ 64 - 1)

unfoldable pub add64 : ℤ → ℤ → ℤ
add64 a b = wrap64 (a +ℤ b)

unfoldable pub sub64 : ℤ → ℤ → ℤ
sub64 a b = wrap64 (a -ℤ b)

unfoldable pub mul64 : ℤ → ℤ → ℤ
mul64 a b = wrap64 (a *ℤ b)

-- What an int64 can hold.
pub record InInt64 (a : ℤ) : Type 0 where
  pub below : pos_part a < 2 ^ 63
  pub above : neg_part a ≤ 2 ^ 63

pub wrap64-InInt64 : (a : ℤ) → InInt64 (wrap64 a)
unfolding wrap64
wrap64-InInt64 (pos n) = ground arith
wrap64-InInt64 (negsuc n) = ground arith

pub wrap64_of_InInt64 : (a : ℤ) → InInt64 a → wrap64 a ≡ a
unfolding wrap64
wrap64_of_InInt64 (pos n) h = ground arith
wrap64_of_InInt64 (negsuc n) h = ground arith

pub wrap64-pos : (n : ℕ) → n < 2 ^ 63 → wrap64 (pos n) ≡ pos n
wrap64-pos n h = wrap64_of_InInt64 (pos n) (record { below = h; above = omega arith })

pub add64-pos : (a b : ℕ) → a + b < 2 ^ 63 → add64 (pos a) (pos b) ≡ pos (a + b)
unfolding add64
add64-pos a b h = ap wrap64 (pos-+ℤ-pos a b) ∙ wrap64-pos (a + b) h

pub mul64-pos : (a b : ℕ) → a * b < 2 ^ 63 → mul64 (pos a) (pos b) ≡ pos (a * b)
unfolding mul64
mul64-pos a b h = ap wrap64 (pos-*ℤ-pos a b) ∙ wrap64-pos (a * b) h

pub sub64-pos : (a b : ℕ) → b ≤ a → a < 2 ^ 63 → sub64 (pos a) (pos b) ≡ pos (a - b)
unfolding sub64
sub64-pos a b h k = ap wrap64 (pos--ℤ-pos a b h) ∙ wrap64-pos (a - b) (omega arith)

pub mul64-zero : (a : ℤ) → mul64 (pos 0) a ≡ pos 0
unfolding mul64
mul64-zero a = ap wrap64 (zero-*ℤ a) ∙ wrap64-pos 0 (omega arith)
