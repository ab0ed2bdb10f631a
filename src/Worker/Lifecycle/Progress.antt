-- ===== src/Worker/Lifecycle/Progress.antt =====
-- internal/worker/worker.go: once it is called, Stop comes to its return.
use native.Mathlib.Decide.{dec_lt}
use taskqueue_go.Prelude.{
  ℕ, zero, suc, ◌+◌, ◌<◌, ◌≤◌, ◌≡◌, ◌≢◌, ◌⊎◌, inl, inr, refl, ◌∙◌, ap, subst, Bool, true, arith,
}
use taskqueue_go.Prelude.Int.{pos, ◌<ℤ◌}
use taskqueue_go.Worker.Backoff.{Config}
use taskqueue_go.Worker.Lifecycle.{
  Phase, absent, starting, selecting, working, gone, Stopper, not_stopping, waiting, stop_returned,
  closing, State, initial, Step, start, launch, block, return_start, make_ticker, take_tick,
  end_job, leave, cancel, stop, close_worker, wait, return_stop, tick_of, Run, here, next,
}
use taskqueue_go.Worker.Lifecycle.Counting.{sum}
use taskqueue_go.Worker.Lifecycle.Drained.{live, Inv, initial-Inv, Step-Inv, Run-Inv}
use taskqueue_go.Worker.Lifecycle.Bounded.{left, left-Step}

-- How far Stop has come, and that it has closed the pool's channel first.
abbrev Stops : ℕ → Stopper → Bool → Type 0
Stops n not_stopping b = Unit {0}
Stops n (closing k) b = (k ≤ n) × (b ≡ true)
Stops n waiting b = b ≡ true
Stops n stop_returned b = b ≡ true

pub record Order (n : ℕ) (s : State) : Type 0 where
  pub stops : Stops n s.stopper s.pool_closed

within : {n : ℕ} {s : State} {st : Stopper} → s.stopper ≡ st → Order n s → Stops n st s.pool_closed
within {n} {s} e o = subst (λ st. Stops n st s.pool_closed) e o.stops

-- Some worker that has not returned, where there is one.
some_live : (n : ℕ) (f : ℕ → Phase) → (sum live n f ≡ 0) ⊎ ((i : ℕ) × (i < n) × (live (f i) ≡ 1))
unfolding sum
some_live zero f = inl refl
some_live (suc n) f = elim (some_live n f) [
  | inr (i, l, e) ↦ inr (i, omega arith, e)
  | inl none_below ↦ at_last (f n) refl none_below
]
  where
    at_last :
        (p : Phase)
        → f n ≡ p
        → sum live n f ≡ 0
        → (live (f n) + sum live n f ≡ 0) ⊎ ((i : ℕ) × (i < suc n) × (live (f i) ≡ 1))
    at_last absent e z = inl (omega (arith, ap live e))
    at_last gone e z = inl (omega (arith, ap live e))
    at_last starting e z = inr (n, omega arith, ap live e)
    at_last selecting e z = inr (n, omega arith, ap live e)
    at_last working e z = inr (n, omega arith, ap live e)

module _ {config : Config} {n : ℕ} where
  Step-Order : {s t : State} → Step config n s t → Order n s → Order n t
  Step-Order (start e) o = record { stops = o.stops }
  Step-Order (launch i e l) o = record { stops = o.stops }
  Step-Order (block e) o = record { stops = o.stops }
  Step-Order (return_start e told) o = record { stops = o.stops }
  Step-Order (make_ticker i l e poll) o = record { stops = o.stops }
  Step-Order (take_tick i l e) o = record { stops = o.stops }
  Step-Order (end_job i l e) o = record { stops = o.stops }
  Step-Order (leave i l e told) o = record { stops = o.stops }
  Step-Order (cancel e) o = record { stops = o.stops }
  Step-Order (stop e) o = record { stops = (omega arith, refl) }
  Step-Order (close_worker k e l) o = record { stops = (omega arith, (within e o).1) }
  Step-Order (wait e) o = record { stops = (within e o).1 }
  Step-Order (return_stop e z) o = record { stops = within e o }

  Run-Order : {s t : State} {a b : ℕ} → Run config n s t a b → Order n s → Order n t
  Run-Order here o = o
  Run-Order (next r st) o = Step-Order st (Run-Order r o)

  prepend :
      {s u t : State} {a b : ℕ} (st : Step config n s u)
      → tick_of st ≡ 0
      → Run config n u t a b
      → Run config n s t (suc a) b
  prepend {s} {u} st z here = subst (λ b. Run config n s u 1 b) (omega (arith, z)) (next here st)
  prepend st z (next r st') = next (prepend st z r) st'

is_returned : (st : Stopper) → (st ≡ stop_returned) ⊎ (st ≢ stop_returned)
is_returned stop_returned = inl refl
is_returned not_stopping = inr (λ h. cc)
is_returned waiting = inr (λ h. cc)
is_returned (closing k) = inr (λ h. cc)

module _ (config : Config) (n : ℕ) where
  -- A step, not a tick, that a state has.
  abbrev Onward : State → Type 0
  Onward s = (t : State) × (st : Step config n s t) × (tick_of st ≡ 0) × (t.stopper ≢ not_stopping)

  go_on :
      (s : State) (i : ℕ) (p : Phase)
      → pos 0 <ℤ config.poll_interval
      → i < n
      → s.phase i ≡ p
      → live p ≡ 1
      → s.pool_closed ≡ true
      → s.stopper ≢ not_stopping
      → Onward s
  go_on s i absent poll l e a closed begun = cc
  go_on s i gone poll l e a closed begun = cc
  go_on s i starting poll l e a closed begun = (_, make_ticker i l e poll, refl, begun)
  go_on s i selecting poll l e a closed begun = (_, leave i l e (inr (inr closed)), refl, begun)
  go_on s i working poll l e a closed begun = (_, end_job i l e, refl, begun)

  onward :
      (s : State) (st : Stopper)
      → s.stopper ≡ st
      → pos 0 <ℤ config.poll_interval
      → Inv n s
      → Order n s
      → st ≢ not_stopping
      → st ≢ stop_returned
      → Onward s
  onward s not_stopping e poll v o a b = absurd (a refl)
  onward s stop_returned e poll v o a b = absurd (b refl)
  onward s (closing k) e poll v o a b = elim (dec_lt k n) [
    | yes l ↦ (_, close_worker k e l, refl, λ h. cc)
    | no l ↦
        let last : k ≡ n = omega (arith, (within e o).0) in
        (_, wait (e ∙ ap closing last), refl, λ h. cc)
  ]
  onward s waiting e poll v o a b = elim (some_live n s.phase) [
    | inl drained ↦ (_, return_stop e (v.counted ∙ drained), refl, λ h. cc)
    | inr (i, l, alive) ↦ go_on s i (s.phase i) poll l refl alive (within e o) (λ h. cc)
  ]

  returns :
      (m : ℕ) (s : State)
      → left n s ≤ m
      → pos 0 <ℤ config.poll_interval
      → Inv n s
      → Order n s
      → s.stopper ≢ not_stopping
      → (t : State) × (steps : ℕ) × Run config n s t steps 0 × (t.stopper ≡ stop_returned)
  returns zero s few poll v o a = elim (is_returned s.stopper) [
    | inl e ↦ (s, 0, here, e)
    | inr b ↦
        let (t, st, z, begun) = onward s s.stopper refl poll v o a b in
        absurd (omega (arith, left-Step st v))
  ]
  returns (suc m) s few poll v o a = elim (is_returned s.stopper) [
    | inl e ↦ (s, 0, here, e)
    | inr b ↦
        let (t, st, z, begun) = onward s s.stopper refl poll v o a b in
        let (u, steps, r, done) =
          returns m t (omega (arith, left-Step st v)) poll (Step-Inv st v) (Step-Order st o)
            begun in
        (u, suc steps, prepend st z r, done)
  ]

  -- There is no deadlock: wherever a pool has got to after Stop was called, it can go on to Stop's
  -- return without another tick. The poll interval is positive.
  pub stop_returns :
      {s : State} {a b : ℕ}
      → pos 0 <ℤ config.poll_interval
      → Run config n initial s a b
      → s.stopper ≢ not_stopping
      → (t : State) × (steps : ℕ) × Run config n s t steps 0 × (t.stopper ≡ stop_returned)
  stop_returns {s} poll r begun =
      returns (left n s) s (omega arith) poll (Run-Inv r (initial-Inv n))
        (Run-Order r (record { stops = tt })) begun
