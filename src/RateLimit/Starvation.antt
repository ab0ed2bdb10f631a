-- ===== src/RateLimit/Starvation.antt =====
-- internal/ratelimit/limiter.go: the script rounds the tokens to add down and sets last_refill all
-- the same, so calls that follow closely on one another throw the fractions away.
use native.Mathlib.Nat.{div-eq_of_lt}
use taskqueue_go.Prelude.{
  ℕ, suc, ◌-◌, ◌*◌, ◌≤◌, ◌<◌, ◌≡◌, List, [], ◌∷◌, inl, inr, arith, leb, Bool-cases,
}
use taskqueue_go.RateLimit.{Limiter}
use taskqueue_go.RateLimit.Steps.{holding, available, script-holding}
use taskqueue_go.RateLimit.Bound.{IsTuned, decided-answer, Event, request, expiry, total_granted}

-- Requests that follow on one another before a whole token has come in.
abbrev pub Dense : ℕ → ℕ → ℕ → List Event → Type 0
Dense w limit last [] = Unit {0}
Dense w limit last (request s r ∷ es) =
    (last ≤ s) × ((s - last) * limit < w) × (0 < r) × Dense w limit s es
Dense w limit last (expiry s ∷ es) = ⊥

available-short :
    (w limit burst t l n : ℕ) → t ≤ burst → (n - l) * limit < w → available w limit burst t l n ≡ t
available-short w limit burst t l n fits short = omega (arith, div-eq_of_lt short)

module _ {Client : Type 0} (l : Limiter Client) (w limit burst : ℕ)
    (tuned : IsTuned l (suc w) limit burst) where
  -- Requests so dense that no interval between two of them earns a whole token are never refilled:
  -- however many there are and however long they go on, they get no more than the tokens that the
  -- bucket held at first. The window is of whole seconds and at least one.
  pub Dense-starves :
      (es : List Event) (t last : ℕ)
      → t ≤ burst
      → Dense (suc w) limit last es
      → total_granted l es (holding (suc w) t last) ≤ t
  unfolding total_granted
  Dense-starves [] t last fits d = omega arith
  Dense-starves (expiry s ∷ es) t last fits d = absurd d
  Dense-starves (request s r ∷ es) t last fits (a, short, k, d) =
      rw
        (
          decided-answer l (suc w) limit burst tuned (holding (suc w) t last) s r _ k
              (script-holding w limit burst t last s r a),
          available-short (suc w) limit burst t last s fits short,
        )
        (elim (Bool-cases (leb r t)) [
          | inl served ↦ rw served (ground (arith, Dense-starves es (t - r) s (omega arith) d))
          | inr denied ↦ rw denied (ground (arith, Dense-starves es t s fits d))
        ])
