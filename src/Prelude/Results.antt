-- ===== src/Prelude/Results.antt =====
-- Go's `(value, error)` results. An `error` value is its message.
use Prim.Native.String.{String}
use mathlib.Core.Path.{◌≡◌, refl}
use mathlib.Core.Option.{Option}

pub data Result {ℓ} (A : Type ℓ) : Type ℓ where
  ok : A → Result A
  err : String → Result A

-- `if err != nil { return err }` after a call.
infixl 5 ◌>>=◌
abbrev pub ◌>>=◌ {ℓ κ} : {V : Type ℓ} {W : Type κ} → Result V → (V → Result W) → Result W
err message >>= next = err message
ok value >>= next = next value

infixl 5 ◌>>◌
abbrev pub ◌>>◌ {κ} : {W : Type κ} → Result (Unit {0}) → Result W → Result W
err message >> next = err message
ok done >> next = next

-- An `error` alone: `nil` is `none`.
abbrev pub Failure : Type 0
Failure = Option String

-- `fmt.Errorf("prefix: %w", err)`
abbrev pub wrap {ℓ} : {A : Type ℓ} → (String → String) → Result A → Result A
wrap f (ok a) = ok a
wrap f (err e) = err (f e)

-- A chain that succeeds has a first part that does, and so has a wrapped call.
pub >>=-eq-ok {ℓ κ} :
    {V : Type ℓ} {W : Type κ} (next : V → Result W) (call : Result V) {w : W}
    → (call >>= next) ≡ ok w
    → (v : V) × (call ≡ ok v) × (next v ≡ ok w)
>>=-eq-ok next (err message) e = cc
>>=-eq-ok next (ok value) e = (value, refl, e)

pub wrap-eq-ok {ℓ} :
    {A : Type ℓ} (f : String → String) (m : Result A) {a : A} → wrap f m ≡ ok a → m ≡ ok a
wrap-eq-ok f (ok a) h = h
wrap-eq-ok f (err e) h = cc
