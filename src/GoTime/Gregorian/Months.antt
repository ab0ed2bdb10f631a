-- ===== src/GoTime/Gregorian/Months.antt =====
-- The days and months of the calendar that package time documents, from the year 1 on: they fulfil the
-- laws of Zone.
use native.Mathlib.Nat.{le_refl}
use native.Mathlib.Decide.{le_ind}
use taskqueue_go.Prelude.{
  ◌≡◌, ◌∙◌, refl, sym, ap, arith, ℕ, zero, suc, ◌+◌, ◌*◌, ◌-◌, ◌/◌, ◌%◌, ◌<◌, ◌≤◌, Bool, not, ◌||◌,
  ◌&&◌, if◌then◌else◌, eqb, ltb, leb, Bool-cases, inl, inr,
}
use taskqueue_go.GoTime.Zone.{DayCount}

abbrev pub is_leap : ℕ → Bool
is_leap y = eqb (y % 4) 0 && (not (eqb (y % 100) 0) || eqb (y % 400) 0)

-- Months are counted from January of the year 1, which is 0.
abbrev pub days_in : ℕ → ℕ
days_in i =
    let m = i % 12 in
    if eqb m 1
    then (if is_leap (i / 12 + 1) then 29 else 28)
    else if eqb m 3 || eqb m 5 || eqb m 8 || eqb m 10
    then 30
    else 31

-- The days before a month, and the month of a day.
unfoldable pub days_before : ℕ → ℕ
days_before zero = 0
days_before (suc i) = days_before i + days_in i

unfoldable pub month_of : ℕ → ℕ
month_of zero = 0
month_of (suc n) = let i = month_of n in if leb (days_before (suc i)) (suc n) then suc i else i

abbrev pub index : ℕ → ℕ → ℕ
index y m = 12 * (y - 1) + (m - 1)

unfoldable pub day_number : ℕ → ℕ → ℕ → ℕ
day_number y m d = days_before (index y m) + (d - 1)

pub days_in_range : (i : ℕ) → (28 ≤ days_in i) × (days_in i ≤ 31)
days_in_range i = (ground arith, ground arith)

days_before-suc : (i : ℕ) → days_before (suc i) ≡ days_before i + days_in i
unfolding days_before
days_before-suc i = refl

days_before_mono : (i j : ℕ) → i ≤ j → days_before i ≤ days_before j
days_before_mono i j h =
    le_ind (λ k. days_before i ≤ days_before k) (le_refl _)
      (λ k le ih. omega (arith, days_before-suc k, ih)) j h

-- A day is of one month alone.
pub month_unique :
    (n i j : ℕ)
    → days_before i ≤ n
    → n < days_before (suc i)
    → days_before j ≤ n
    → n < days_before (suc j)
    → i ≡ j
month_unique n i j lo hi lo' hi' = elim (Bool-cases (ltb i j)) [
  | inl before ↦ absurd (omega (arith, days_before_mono (suc i) j (ground arith)))
  | inr from ↦ elim (Bool-cases (ltb j i)) [
    | inl after ↦ absurd (omega (arith, days_before_mono (suc j) i (ground arith)))
    | inr to ↦ ground arith
  ]
]

pub month_of_range : (n : ℕ) → (days_before (month_of n) ≤ n) × (n < days_before (suc (month_of n)))
unfolding month_of days_before
month_of_range zero = (le_refl _, omega (arith, days_before-suc 0, days_in_range 0))
month_of_range (suc n) =
    let (low, high) = month_of_range n in
    elim (Bool-cases (leb (days_before (suc (month_of n))) (suc n))) [
      | inl next ↦ rw next (
        ground arith,
        omega (arith, high, days_before-suc (suc (month_of n)), days_in_range (suc (month_of n))),
      )
      | inr same ↦ rw same (omega (arith, low), ground arith)
    ]

pub index-suc : (y m : ℕ) → 1 ≤ m → index y (suc m) ≡ suc (index y m)
index-suc y m h = omega arith

pub first_of : (y m : ℕ) → day_number y m 1 ≡ days_before (index y m)
unfolding day_number
first_of y m = omega arith

pub month_size : (y m : ℕ) → 1 ≤ m → day_number y (suc m) 1 ≡ day_number y m 1 + days_in (index y m)
month_size y m h =
    first_of y (suc m)
    ∙ ap days_before (index-suc y m h)
    ∙ days_before-suc (index y m)
    ∙ ap (λ n. n + days_in (index y m)) (sym (first_of y m))

-- What a date of its month says of the month's number.
pub within :
    (y m d : ℕ)
    → 1 ≤ m
    → day_number y m d < day_number y (suc m) 1
    → day_number y m d < days_before (suc (index y m))
within y m d h inside = omega (arith, inside, first_of y (suc m), ap days_before (index-suc y m h))

unfoldable pub gregorian : DayCount
unfolding day_number
gregorian = record {
  day_number = day_number;
  day_number-add = λ y m d k h. omega arith;
  month_long = λ y m hy hm. omega (arith, month_size y m hm, days_in_range (index y m));
  month_short = λ y m hy hm. omega (arith, month_size y m hm, days_in_range (index y m));
  same_month = λ y m d y' m' d' e hy hm hd hy' hm' hd' inside inside' same.
      ap (λ i. days_before i + (e - 1))
        (month_unique (day_number y' m' d') (index y' m') (index y m) (omega arith)
          (within y' m' d' hm' inside') (omega (arith, same))
          (omega (arith, within y m d hm inside, same)));
}
