-- ===== src/Worker/Lifecycle/Counting.antt =====
-- internal/worker/worker.go: sums over the workers of a pool.
use taskqueue_go.Prelude.{ℕ, zero, suc, ◌+◌, ◌<◌, ◌≤◌, ◌≡◌, refl, arith}
use native.Mathlib.Decide.{dec_lt}
use taskqueue_go.Worker.Lifecycle.{Phase, update}

-- The sum of a weight over the first n.
unfoldable pub sum : (Phase → ℕ) → ℕ → (ℕ → Phase) → ℕ
sum w zero f = 0
sum w (suc n) f = w (f n) + sum w n f

module _ (w : Phase → ℕ) where
  sum-untouched : (n i : ℕ) (f : ℕ → Phase) (p : Phase) → n ≤ i → sum w n (update f i p) ≡ sum w n f
  unfolding sum
  sum-untouched zero i f p h = refl
  sum-untouched (suc n) i f p h = ground (arith, sum-untouched n i f p)

  pub sum-update :
      (n i : ℕ) (f : ℕ → Phase) (p : Phase)
      → i < n
      → sum w n (update f i p) + w (f i) ≡ sum w n f + w p
  unfolding sum
  sum-update zero i f p h = absurd (omega arith)
  sum-update (suc n) i f p h = elim (dec_lt i n) [
    | yes below ↦ ground (arith, sum-update n i f p below)
    | no last ↦ let same : i ≡ n = omega arith in ground (arith, sum-untouched n i f p)
  ]

  -- A sum of zero has no summand but zero.
  pub sum-zero : (n i : ℕ) (f : ℕ → Phase) → sum w n f ≡ 0 → i < n → w (f i) ≡ 0
  unfolding sum
  sum-zero zero i f e h = absurd (omega arith)
  sum-zero (suc n) i f e h = elim (dec_lt i n) [
    | yes below ↦ sum-zero n i f (omega arith) below
    | no last ↦ let same : i ≡ n = omega arith in ground arith
  ]

  pub sum-const : (n : ℕ) (f : ℕ → Phase) → ((i : ℕ) → w (f i) ≡ 0) → sum w n f ≡ 0
  unfolding sum
  sum-const zero f h = refl
  sum-const (suc n) f h = omega (arith, h n, sum-const n f h)
