-- ===== src/Models/Task/Monthly/Days.antt =====
-- internal/models/task.go: the days of months, as the monthly case counts them with AddDate and time.Date.
use native.Mathlib.Nat.{add-zero, add-suc}
use taskqueue_go.Prelude.{
  ◌≡◌, ◌∙◌, ap, arith, ℕ, zero, suc, ◌+◌, ◌-◌, ◌≤◌, inl, inr, ltb, Bool-cases, if◌then◌else◌,
}
use taskqueue_go.GoTime.Zone.{DayCount, IsDate}

module _ (D : DayCount) where
  open D use {day_number}

  -- Days within a month are counted from its first.
  pub day_number-from : (y m d : ℕ) → 1 ≤ d → day_number y m d + 1 ≡ day_number y m 1 + d
  day_number-from y m zero h = absurd (omega arith)
  day_number-from y m (suc d) h =
      let counted = D.day_number-add y m 1 d (omega arith) in
      let same : day_number y m (1 + d) ≡ day_number y m (suc d) =
        ap (day_number y m) (omega arith) in
      omega (arith, counted, same)

  pub month_mono : (y m v : ℕ) → 1 ≤ y → 1 ≤ m → day_number y m 1 ≤ day_number y (m + v) 1
  month_mono y m zero hy hm = rw (add-zero m) (omega arith)
  month_mono y m (suc v) hy hm =
      rw (add-suc m v)
        (omega (arith, month_mono y m v hy hm, D.month_long y (m + v) hy (omega arith)))

  -- The month after the one meant, where that has no such day.
  abbrev pub month_for : ℕ → ℕ → ℕ → ℕ
  month_for y m d = if ltb (day_number y m d) (day_number y (suc m) 1) then m else suc m

  -- What is left of a day that is not one of the month is a day of the next.
  overflow :
      (y m d : ℕ)
      → 1 ≤ y
      → 1 ≤ m
      → 1 ≤ d
      → d ≤ 31
      → day_number y (suc m) 1 ≤ day_number y m d
      → (x : ℕ) × IsDate D y (suc m) x × (day_number y m d ≡ day_number y (suc m) x)
  overflow y m d hy hm hd small past =
      let counted = day_number-from y m d hd in
      let x = day_number y m d + 1 - day_number y (suc m) 1 in
      let from = day_number-from y (suc m) x (omega arith) in
      let long = D.month_long y m hy hm in
      let after = D.month_long y (suc m) hy (omega arith) in
      (
        x,
        record {
          year_positive = hy;
          month_positive = omega arith;
          day_positive = omega arith;
          in_month = omega (arith, counted, from, long, after);
        },
        omega (arith, from),
      )

  -- Another name of a day, as a date, is one of its month, or of the next.
  pub same_or_next :
      (y m d y' m' d' : ℕ)
      → 1 ≤ y
      → 1 ≤ m
      → 1 ≤ d
      → d ≤ 31
      → IsDate D y' m' d'
      → day_number y' m' d' ≡ day_number y m d
      → day_number y' m' d ≡ day_number y (month_for y m d) d
  same_or_next y m d y' m' d' hy hm hd small date same =
      elim (Bool-cases (ltb (day_number y m d) (day_number y (suc m) 1))) [
        | inl fits ↦ rw fits (
            D.same_month y m d y' m' d' d hy hm hd date.year_positive date.month_positive
              date.day_positive (ground arith) date.in_month same)
        | inr past ↦
            let (x, there, moved) = overflow y m d hy hm hd small (ground arith) in
            rw past (
              D.same_month y (suc m) x y' m' d' d hy there.month_positive there.day_positive
                date.year_positive date.month_positive date.day_positive there.in_month
                date.in_month (same ∙ moved))
      ]
