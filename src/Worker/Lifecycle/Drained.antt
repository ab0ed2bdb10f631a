-- ===== src/Worker/Lifecycle/Drained.antt =====
-- internal/worker/worker.go: when Stop has returned, the workers have.
use taskqueue_go.Prelude.{ℕ, suc, ◌<◌, ◌≤◌, ◌≡◌, ◌≢◌, refl, sym, ap, subst, ◌∙◌, arith}
use taskqueue_go.Worker.Backoff.{Config}
use taskqueue_go.Worker.Lifecycle.{
  Phase, absent, starting, selecting, working, gone, Starter, not_started, blocked, start_returned,
  launching, not_stopping, stop_returned, State, update, initial, Step, start, launch, block,
  return_start, make_ticker, take_tick, end_job, leave, cancel, stop, close_worker, wait,
  return_stop, Run, here, next,
}
use taskqueue_go.Worker.Lifecycle.Counting.{sum, sum-update, sum-zero, sum-const}

-- Goroutines that have been launched and have not returned.
abbrev pub live : Phase → ℕ
live absent = 0
live gone = 0
live _ = 1

-- Which workers have been launched, by how far Start has come.
abbrev pub Launched : ℕ → Starter → (ℕ → Phase) → Type 0
Launched n not_started f = (i : ℕ) → f i ≡ absent
Launched n (launching j) f =
    (j ≤ n) × ((i : ℕ) → i < j → f i ≢ absent) × ((i : ℕ) → j ≤ i → f i ≡ absent)
Launched n _ f = (i : ℕ) → i < n → f i ≢ absent

pub record Inv (n : ℕ) (s : State) : Type 0 where
  pub counted : s.counter ≡ sum live n s.phase
  pub launched : Launched n s.starter s.phase

pub initial-Inv : (n : ℕ) → Inv n initial
initial-Inv n = record {
  counted = sym (sum-const live n (λ i. absent) (λ i. refl));
  launched = λ i. refl;
}

-- A worker that goes on to another phase stays launched.
Launched-update :
    (n : ℕ) (st : Starter) (f : ℕ → Phase) (i : ℕ) (p : Phase)
    → Launched n st f
    → f i ≢ absent
    → p ≢ absent
    → Launched n st (update f i p)
Launched-update n not_started f i p h was is = absurd (was (h i))
Launched-update n (launching j) f i p (few, up, down) was is =
    (few, λ k l. ground (arith, up k l), λ k l. ground (arith, down k l))
Launched-update n blocked f i p h was is = λ k l. ground (arith, h k l)
Launched-update n start_returned f i p h was is = λ k l. ground (arith, h k l)

launched_next :
    {n : ℕ} (j : ℕ)
    → j < n
    → (f : ℕ → Phase) → Launched n (launching j) f
    → Launched n (launching (suc j)) (update f j starting)
launched_next j l f (few, up, down) =
    (omega arith, λ i h. ground (arith, up i), λ i h. ground (arith, down i))

-- How far Start has come, at a state of it that is known.
pub at : {n : ℕ} {s : State} {st : Starter} → s.starter ≡ st → Inv n s → Launched n st s.phase
at {n} {s} e v = subst (λ st. Launched n st s.phase) e v.launched

-- Start has launched all, and Stop has not returned with workers left.
abbrev Up : Starter → Type 0
Up blocked = Unit {0}
Up start_returned = Unit {0}
Up _ = ⊥

record Done (s : State) : Type 0 where
  up : Up s.starter
  quiet : s.stopper ≡ stop_returned → s.counter ≡ 0

gone_of : (p : Phase) → live p ≡ 0 → p ≢ absent → p ≡ gone
gone_of absent e h = absurd (h refl)
gone_of starting e h = cc
gone_of selecting e h = cc
gone_of working e h = cc
gone_of gone e h = refl

Up-launched :
    (n : ℕ) (st : Starter) (f : ℕ → Phase)
    → Up st
    → Launched n st f
    → (i : ℕ) → i < n
    → f i ≢ absent
Up-launched n not_started f u h = absurd u
Up-launched n blocked f u h = h
Up-launched n start_returned f u h = h
Up-launched n (launching j) f u h = absurd u

module _ {config : Config} {n : ℕ} where
  pub Step-Inv : {s t : State} → Step config n s t → Inv n s → Inv n t
  Step-Inv {s} (start e) v = record {
    counted = v.counted;
    launched = (omega arith, λ i l. absurd (omega arith), λ i l. at e v i);
  }
  Step-Inv {s} (launch i e l) v = record {
    counted = omega (
      arith,
      sum-update live n i s.phase starting l,
      v.counted,
      ap live ((at e v).2 i (omega arith)),
    );
    launched = launched_next i l s.phase (at e v);
  }
  Step-Inv {s} (block e) v = record { counted = v.counted; launched = λ i l. (at e v).1 i l }
  Step-Inv {s} (return_start e told) v = record {
    counted = v.counted;
    launched = λ i l. at e v i l;
  }
  Step-Inv {s} (make_ticker i l e poll) v = record {
    counted = omega (arith, sum-update live n i s.phase selecting l, v.counted, ap live e);
    launched = Launched-update n s.starter s.phase i selecting v.launched (λ a. cc) (λ a. cc);
  }
  Step-Inv {s} (take_tick i l e) v = record {
    counted = omega (arith, sum-update live n i s.phase working l, v.counted, ap live e);
    launched = Launched-update n s.starter s.phase i working v.launched (λ a. cc) (λ a. cc);
  }
  Step-Inv {s} (end_job i l e) v = record {
    counted = omega (arith, sum-update live n i s.phase selecting l, v.counted, ap live e);
    launched = Launched-update n s.starter s.phase i selecting v.launched (λ a. cc) (λ a. cc);
  }
  Step-Inv {s} (leave i l e told) v = record {
    counted = omega (arith, sum-update live n i s.phase gone l, v.counted, ap live e);
    launched = Launched-update n s.starter s.phase i gone v.launched (λ a. cc) (λ a. cc);
  }
  Step-Inv (cancel e) v = record { counted = v.counted; launched = v.launched }
  Step-Inv (stop e) v = record { counted = v.counted; launched = v.launched }
  Step-Inv (close_worker k e l) v = record { counted = v.counted; launched = v.launched }
  Step-Inv (wait e) v = record { counted = v.counted; launched = v.launched }
  Step-Inv (return_stop e z) v = record { counted = v.counted; launched = v.launched }

  pub Run-Inv : {s t : State} {steps ticks : ℕ} → Run config n s t steps ticks → Inv n s → Inv n t
  Run-Inv here v = v
  Run-Inv (next r st) v = Step-Inv st (Run-Inv r v)

  Step-Done : {s t : State} → Step config n s t → Done s → Done t
  Step-Done {s} (start e) d = absurd (subst Up e d.up)
  Step-Done {s} (launch i e l) d = absurd (subst Up e d.up)
  Step-Done {s} (block e) d = absurd (subst Up e d.up)
  Step-Done {s} (return_start e told) d = record { up = tt; quiet = d.quiet }
  Step-Done {s} (make_ticker i l e poll) d = record { up = d.up; quiet = d.quiet }
  Step-Done {s} (take_tick i l e) d = record { up = d.up; quiet = d.quiet }
  Step-Done {s} (end_job i l e) d = record { up = d.up; quiet = d.quiet }
  Step-Done {s} (leave i l e told) d = record { up = d.up; quiet = λ h. omega (arith, d.quiet h) }
  Step-Done (cancel e) d = record { up = d.up; quiet = d.quiet }
  Step-Done (stop e) d = record { up = d.up; quiet = λ h. cc }
  Step-Done (close_worker k e l) d = record { up = d.up; quiet = λ h. cc }
  Step-Done (wait e) d = record { up = d.up; quiet = λ h. cc }
  Step-Done (return_stop e z) d = record { up = d.up; quiet = λ h. z }

  Run-Done : {s t : State} {steps ticks : ℕ} → Run config n s t steps ticks → Done s → Done t
  Run-Done here d = d
  Run-Done (next r st) d = Step-Done st (Run-Done r d)

  -- If Start has launched all workers before Stop is called, then when Stop has returned every
  -- worker has returned and none is in processJob, in whatever order the goroutines take their
  -- steps.
  pub stop_returned_drained :
      {s t : State} {a b c d : ℕ} (i : ℕ)
      → Run config n initial s a b
      → s.starter ≡ blocked
      → s.stopper ≡ not_stopping
      → Run config n s t c d
      → t.stopper ≡ stop_returned
      → i < n
      → t.phase i ≡ gone
  stop_returned_drained {s} {t} i before up idle after returned l =
      let v = Run-Inv after (Run-Inv before (initial-Inv n)) in
      let begun : Done s = record { up = subst Up (sym up) tt; quiet = λ h. cc } in
      let d = Run-Done after begun in
      gone_of (t.phase i) (sum-zero live n i t.phase (sym v.counted ∙ d.quiet returned) l)
        (Up-launched n t.starter t.phase d.up v.launched i l)
