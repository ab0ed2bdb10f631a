-- ===== src/Distributor/Slots.antt =====
-- internal/distributor/distributor.go: where the time slots lie.
use native.Mathlib.Nat.{mul-le-mul_right, div-mul-le_self}
use mathlib.Core.Option.{some-injective}
use taskqueue_go.Prelude.{
  ℕ, zero, suc, ◌+◌, ◌*◌, ◌/◌, ◌^◌, ◌≤◌, ◌<◌, ◌≡◌, subst, refl, ap, sym, true, some, List, [], ◌∷◌,
  arith, ltb, length, get_elem?, if◌then◌else◌,
}
use taskqueue_go.Prelude.Int.{ℤ, pos, negsuc, pos_part, quot_ℕ, ltb_ℤ, ◌≤ℤ◌}
use taskqueue_go.Prelude.Int64.{add64, mul64, add64-pos, mul64-pos}
use taskqueue_go.GoTime.{Duration}
use taskqueue_go.Distributor.{
  slot_interval, even_slots, add_jitter, calculate_time_slots, estimate_distribution_time,
}

-- The interval in nanoseconds: the window's share, or a second where that is less.
abbrev pub interval_ns : Duration → ℕ → ℕ
interval_ns window n = pos_part (slot_interval window n)

-- rand.Int63n(r), for a positive r, is at least 0 and below r.
pub record IsRandom (int63n : ℕ → ℕ → ℤ) : Type 0 where
  pub in_range : (i r : ℕ) → 0 < r → (k : ℕ) × (int63n i r ≡ pos k) × (k < r)

-- The slot lies in the first quarter of the j-th interval.
abbrev pub IsSlot : ℕ → ℕ → Duration → Type 0
IsSlot I j s = (k : ℕ) × (s ≡ pos k) × (j * I ≤ k) × (4 * k < 4 * (j * I) + I)

-- Each slot of a list lies so in its own interval, the first of them in the i-th.
abbrev pub AllSlots : ℕ → ℕ → List Duration → Type 0
AllSlots I i [] = Unit {0}
AllSlots I i (s ∷ slots) = IsSlot I i s × AllSlots I (suc i) slots

slot_interval-pos :
    (window : Duration) (n : ℕ)
    → (slot_interval window n ≡ pos (interval_ns window n)) × (1_000_000_000 ≤ interval_ns window n)
slot_interval-pos (pos w) n = ground arith
slot_interval-pos (negsuc w) n = ground arith

lt→ltb : (a b : ℕ) → a < b → ltb (a + 0) (b + 0) ≡ true
lt→ltb a b h = ground arith

module _ (int63n : ℕ → ℕ → ℤ) (random : IsRandom int63n) (I : ℕ) (large : 4 ≤ I) where
  jittered-IsSlot :
      (i total : ℕ)
      → i < total
      → total * I < 2 ^ 63
      → IsSlot I i (add64 (mul64 (pos i) (pos I)) (int63n i (I / 4)))
  jittered-IsSlot i total h fits =
      let (k, drawn, short) = random.in_range i (I / 4) (omega arith) in
      let room = mul-le-mul_right {m = suc i} {n = total} I h in
      (
        i * I + k,
        rw (drawn, mul64-pos i I (omega (arith, room))) (add64-pos (i * I) k (omega (arith, room))),
        omega arith,
        omega arith,
      )

  jittered-AllSlots :
      (i left : ℕ)
      → (i + left) * I < 2 ^ 63
      → AllSlots I i (add_jitter int63n (I / 4) i (even_slots (pos I) i left))
  unfolding add_jitter even_slots
  jittered-AllSlots i zero fits = tt
  jittered-AllSlots i (suc left) fits = (
    jittered-IsSlot i (i + suc left) (omega arith) fits,
    jittered-AllSlots (suc i) left (subst (λ n. n * I < 2 ^ 63) (omega arith) fits),
  )

  spread :
      (n : ℕ)
      → n * I < 2 ^ 63
      → AllSlots I 0 (
          if ltb_ℤ (pos 0) (quot_ℕ (pos I) 4)
          then add_jitter int63n (pos_part (quot_ℕ (pos I) 4)) 0 (even_slots (pos I) 0 n)
          else even_slots (pos I) 0 n)
  spread n fits =
      rw (lt→ltb 0 (I / 4) (omega arith))
        (jittered-AllSlots 0 n (subst (λ m. m * I < 2 ^ 63) (omega arith) fits))

length-even_slots : (interval : Duration) (i left : ℕ) → length (even_slots interval i left) ≡ left
unfolding even_slots
length-even_slots interval i zero = refl
length-even_slots interval i (suc left) = ap suc (length-even_slots interval (suc i) left)

length-add_jitter :
    (int63n : ℕ → ℕ → ℤ) (range i : ℕ) (slots : List Duration)
    → length (add_jitter int63n range i slots) ≡ length slots
unfolding add_jitter
length-add_jitter int63n range i [] = refl
length-add_jitter int63n range i (s ∷ slots) = ap suc (length-add_jitter int63n range (suc i) slots)

-- There are as many slots as tasks.
pub length-calculate_time_slots :
    (int63n : ℕ → ℕ → ℤ) (window : Duration) (n : ℕ)
    → length (calculate_time_slots int63n window n) ≡ n
unfolding calculate_time_slots
length-calculate_time_slots int63n window zero = refl
length-calculate_time_slots int63n window (suc zero) = refl
length-calculate_time_slots int63n window (suc (suc k)) = ground (
  arith,
  length-add_jitter int63n (pos_part (quot_ℕ (slot_interval window (suc (suc k))) 4)) 0
      (even_slots (slot_interval window (suc (suc k))) 0 (suc (suc k))),
  length-even_slots (slot_interval window (suc (suc k))) 0 (suc (suc k)),
)

all_slots :
    (int63n : ℕ → ℕ → ℤ) (window : Duration) (n : ℕ)
    → IsRandom int63n
    → n * interval_ns window n < 2 ^ 63
    → AllSlots (interval_ns window n) 0 (calculate_time_slots int63n window n)
unfolding calculate_time_slots
all_slots int63n window zero random fits = tt
all_slots int63n window (suc zero) random fits =
    ((0, refl, omega arith, omega (arith, slot_interval-pos window 1)), tt)
all_slots int63n window (suc (suc k)) random fits =
    let (is_pos, large) = slot_interval-pos window (suc (suc k)) in
    rw is_pos
      (spread int63n random (interval_ns window (suc (suc k))) (omega arith) (suc (suc k)) fits)

AllSlots-get_elem? :
    (I i : ℕ) (slots : List Duration) (j : ℕ) (s : Duration)
    → AllSlots I i slots
    → get_elem? slots j ≡ some s
    → IsSlot I (i + j) s × (j < length slots)
AllSlots-get_elem? I i [] j s all e = cc
AllSlots-get_elem? I i (x ∷ slots) zero s (slot, all) e = (
  subst (λ n. IsSlot I n s) (omega arith) (subst (IsSlot I i) (some-injective x s e) slot),
  omega arith,
)
AllSlots-get_elem? I i (x ∷ slots) (suc j) s (slot, all) e =
    let (found, below) = AllSlots-get_elem? I (suc i) slots j s all e in
    (subst (λ n. IsSlot I n s) (omega arith) found, omega arith)

estimate-covers :
    (window : Duration) (n k : ℕ)
    → k ≤ n * interval_ns window n
    → n * interval_ns window n < 2 ^ 63
    → 1 < n
    → pos k ≤ℤ estimate_distribution_time window (pos n)
unfolding estimate_distribution_time
estimate-covers (pos w) n k h fits many =
    ground (arith, mul64-pos n 1_000_000_000, div-mul-le_self w n)
estimate-covers (negsuc w) n k h fits many = ground (arith, mul64-pos n 1_000_000_000)

-- The j-th slot, if there is one.
IsSlot-at :
    (int63n : ℕ → ℕ → ℤ) (window : Duration) (n j : ℕ) (s : Duration)
    → IsRandom int63n
    → n * interval_ns window n < 2 ^ 63
    → get_elem? (calculate_time_slots int63n window n) j ≡ some s
    → IsSlot (interval_ns window n) j s × (j < n)
IsSlot-at int63n window n j s random fits e =
    let (slot, below) =
      AllSlots-get_elem? (interval_ns window n) 0 _ j s (all_slots int63n window n random fits) e in
    (
      subst (λ i. IsSlot (interval_ns window n) i s) (omega arith) slot,
      omega (arith, length-calculate_time_slots int63n window n),
    )

within_intervals : (I j n k : ℕ) → j < n → 4 * k < 4 * (j * I) + I → k ≤ n * I
within_intervals I j n k h q = omega (arith, mul-le-mul_right {m = suc j} {n = n} I h)

-- Every slot lies within the time that EstimateDistributionTime gives for as many tasks, as long as
-- the jitter is drawn from its range and the intervals fit a Duration.
pub slot-le-estimate :
    (int63n : ℕ → ℕ → ℤ) (window : Duration) (n j : ℕ) (s : Duration)
    → IsRandom int63n
    → n * interval_ns window n < 2 ^ 63
    → get_elem? (calculate_time_slots int63n window n) j ≡ some s
    → s ≤ℤ estimate_distribution_time window (pos n)
unfolding estimate_distribution_time calculate_time_slots
slot-le-estimate int63n window zero j s random fits e = cc
slot-le-estimate int63n window (suc zero) zero s random fits e =
    subst (λ t. t ≤ℤ pos 0) (some-injective (pos 0) s e) (omega arith)
slot-le-estimate int63n window (suc zero) (suc j) s random fits e = cc
slot-le-estimate int63n window (suc (suc n)) j s random fits e =
    many (unfold calculate_time_slots in IsSlot-at int63n window (suc (suc n)) j s random fits e)
  where
    many :
        IsSlot (interval_ns window (suc (suc n))) j s × (j < suc (suc n))
        → s ≤ℤ estimate_distribution_time window (pos (suc (suc n)))
    many ((k, is_k, lo, hi), below) =
        subst (λ t. t ≤ℤ estimate_distribution_time window (pos (suc (suc n)))) (sym is_k)
          (estimate-covers window (suc (suc n)) k
            (within_intervals (interval_ns window (suc (suc n))) j (suc (suc n)) k below hi) fits
            (omega arith))

-- Two slots that follow on one another are more than three quarters of an interval apart, as long
-- as the jitter is drawn from its range and the intervals fit a Duration.
pub slots_apart :
    (int63n : ℕ → ℕ → ℤ) (window : Duration) (n j : ℕ) (a b : Duration)
    → IsRandom int63n
    → n * interval_ns window n < 2 ^ 63
    → get_elem? (calculate_time_slots int63n window n) j ≡ some a
    → get_elem? (calculate_time_slots int63n window n) (suc j) ≡ some b
    → 4 * pos_part a + 3 * interval_ns window n < 4 * pos_part b
slots_apart int63n window n j a b random fits e f =
    let ((k, is_k, lo, hi), _) = IsSlot-at int63n window n j a random fits e in
    let ((m, is_m, low, high), _) = IsSlot-at int63n window n (suc j) b random fits f in
    rw (is_k, is_m) (apart (interval_ns window n) k m hi low)
  where
    apart : (I k m : ℕ) → 4 * k < 4 * (j * I) + I → suc j * I ≤ m → 4 * k + 3 * I < 4 * m
    apart I k m hi low = omega arith

pub slot-nonneg :
    (int63n : ℕ → ℕ → ℤ) (window : Duration) (n j : ℕ) (s : Duration)
    → IsRandom int63n
    → n * interval_ns window n < 2 ^ 63
    → get_elem? (calculate_time_slots int63n window n) j ≡ some s
    → pos 0 ≤ℤ s
slot-nonneg int63n window n j s random fits e =
    let ((k, is_k, lo, hi), _) = IsSlot-at int63n window n j s random fits e in
    rw is_k (omega arith)
