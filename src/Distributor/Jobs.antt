-- ===== src/Distributor/Jobs.antt =====
-- internal/distributor/distributor.go: the jobs that DistributeTasks makes and pushes.
use native.Mathlib.Bridge.{from_ℕ}
use mathlib.Core.List
use mathlib.Core.List.{Perm}
use mathlib.Core.List.Perm
use taskqueue_go.Prelude.{
  ℕ, suc, ◌*◌, ◌^◌, ◌<◌, ◌≡◌, ◌∙◌, refl, ap, sym, subst, some, none, List, [], ◌∷◌, map, arith,
  String, length, All, All-of_get_elem?,
}
use taskqueue_go.Prelude.Int.{ℤ, pos, ◌≤ℤ◌, +ℤ_parts}
use taskqueue_go.GoTime.{Time, Duration, add}
use taskqueue_go.Models.Job.{Job, new_job}
use taskqueue_go.Queue.Backend.{MessageQueue, Codec}
use taskqueue_go.Queue.{Client, push}
use taskqueue_go.Queue.Sending.{SentAll, all_sent, push-SentAll}
use taskqueue_go.Distributor.{
  TaskToSchedule, Distributor, Draw, calculate_time_slots, estimate_distribution_time, create_jobs,
  push_jobs, distribute_tasks,
}
use taskqueue_go.Distributor.Slots.{
  IsRandom, interval_ns, length-calculate_time_slots, slot-le-estimate, slot-nonneg,
}

-- Which task type and which user.
abbrev pub task_key : TaskToSchedule → String × String
task_key t = (t.task_type.id, t.user_id)

abbrev pub job_key : Draw × Job → String × String
job_key (d, job) = (job.task_type_id, job.user_id)

-- A job with its message's identifier.
abbrev pub to_send : Draw × Job → String × Job
to_send (d, job) = (d.message_uuid, job)

-- A first attempt, to be executed from the base time on and no later than the span after it.
abbrev pub IsPlanned : Time → Duration → Draw × Job → Type 0
IsPlanned base_time span (d, job) =
    (job.attempt ≡ pos 1)
    × (base_time ≤ℤ job.execute_after)
    × (job.execute_after ≤ℤ add base_time span)

abbrev Within : Duration → Duration → Type 0
Within span s = (pos 0 ≤ℤ s) × (s ≤ℤ span)

map-create_jobs :
    (draw : ℕ → Draw) (base_time : Time) (i : ℕ) (tasks : List TaskToSchedule)
    (slots : List Duration)
    → length slots ≡ length tasks
    → map job_key (create_jobs draw base_time i tasks slots) ≡ map task_key tasks
unfolding create_jobs new_job
map-create_jobs draw base_time i [] slots e = refl
map-create_jobs draw base_time i (task ∷ tasks) [] e = absurd (omega arith)
map-create_jobs draw base_time i (task ∷ tasks) (slot ∷ slots) e =
    ap (◌∷◌ (task_key task)) (map-create_jobs draw base_time (suc i) tasks slots (omega arith))

create_jobs-IsPlanned :
    (draw : ℕ → Draw) (base_time : Time) (span : Duration) (i : ℕ) (tasks : List TaskToSchedule)
    (slots : List Duration)
    → All (Within span) slots
    → All (IsPlanned base_time span) (create_jobs draw base_time i tasks slots)
unfolding create_jobs new_job
create_jobs-IsPlanned draw base_time span i [] slots all = tt
create_jobs-IsPlanned draw base_time span i (task ∷ tasks) [] all = tt
create_jobs-IsPlanned draw base_time span i (task ∷ tasks) (slot ∷ slots) ((lo, hi), all) = (
  (
    refl,
    omega (arith, +ℤ_parts base_time slot),
    omega (arith, +ℤ_parts base_time slot, +ℤ_parts base_time span),
  ),
  create_jobs-IsPlanned draw base_time span (suc i) tasks slots all,
)

length-from_ℕ {ℓ} : {A : Type ℓ} (xs : List A) → length xs ≡ from_ℕ (List.length xs)
length-from_ℕ [] = refl
length-from_ℕ (x ∷ xs) = ap suc (length-from_ℕ xs)

length-perm {ℓ} : {A : Type ℓ} (xs ys : List A) → Perm xs ys → length xs ≡ length ys
length-perm xs ys p = length-from_ℕ xs ∙ ap from_ℕ (Perm.length-eq p) ∙ sym (length-from_ℕ ys)

module _ (Q : MessageQueue) (J : Codec) where
  push_jobs-SentAll :
      (c : Client Q.Queue) (jobs : List (Draw × Job)) (s : Q.State)
      → SentAll Q J c (map to_send jobs) s (push_jobs Q J c jobs s)
  unfolding push_jobs
  push_jobs-SentAll c [] s = all_sent
  push_jobs-SentAll c ((d, job) ∷ jobs) s =
      push-SentAll Q J c d.message_uuid job (map to_send jobs) s _
        (push_jobs-SentAll c jobs (push Q J c d.message_uuid (some job) s).1)

  -- DistributeTasks never fails, and sends the queue in turn, whether or not it has refused those
  -- before, one first attempt for each task and no other, each to be executed within the estimated
  -- time from the base time on. The shuffle is a permutation, the jitter is drawn from its range, and the
  -- window is such that its intervals fit a Duration.
  pub distribute_tasks_lem :
      (d : Distributor Q.Queue) (shuffle : List TaskToSchedule → List TaskToSchedule)
      (int63n : ℕ → ℕ → ℤ) (draw : ℕ → Draw) (tasks : List TaskToSchedule) (base_time : Time)
      (s : Q.State)
      → Perm (shuffle tasks) tasks
      → IsRandom int63n
      → length tasks * interval_ns d.distribution_window (length tasks) < 2 ^ 63
      → (jobs : List (Draw × Job)) × (s' : Q.State) × (distribute_tasks Q J d shuffle int63n draw
            tasks base_time s
          ≡ (none, s'))
        × SentAll Q J d.queue_client (map to_send jobs) s s'
        × Perm (map job_key jobs) (map task_key tasks)
        × All
            (IsPlanned base_time
              (estimate_distribution_time d.distribution_window (pos (length tasks))))
            jobs
  unfolding distribute_tasks push_jobs
  distribute_tasks_lem d shuffle int63n draw [] base_time s perm random fits =
      ([], s, refl, all_sent, Perm.refl [], tt)
  distribute_tasks_lem d shuffle int63n draw (task ∷ rest) base_time s perm random fits =
      let tasks = task ∷ rest in
      let window = d.distribution_window in
      let slots = calculate_time_slots int63n window (length tasks) in
      let span = estimate_distribution_time window (pos (length tasks)) in
      let as_many = length-calculate_time_slots int63n window (length tasks) in
      let jobs = create_jobs draw base_time 0 (shuffle tasks) slots in
      (
        jobs,
        push_jobs Q J d.queue_client jobs s,
        refl,
        push_jobs-SentAll d.queue_client jobs s,
        subst (λ keys. Perm keys (map task_key tasks))
            (sym (
              map-create_jobs draw base_time 0 (shuffle tasks) slots
                (as_many ∙ sym (length-perm (shuffle tasks) tasks perm))))
            (Perm.map task_key perm),
        create_jobs-IsPlanned draw base_time span 0 (shuffle tasks) slots (
            All-of_get_elem? (Within span) slots (λ j x e. (
              slot-nonneg int63n window (length tasks) j x random fits e,
              slot-le-estimate int63n window (length tasks) j x random fits e,
            ))),
      )
