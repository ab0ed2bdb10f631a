-- ===== src/Scheduler/Loop/Once.antt =====
-- internal/scheduler/scheduler.go: what was scheduled is not scheduled again before it is due.
use taskqueue_go.Prelude.{
  ◌≡◌, ◌∙◌, refl, sym, ap, subst, Bool, true, false, some, List, [], ◌∷◌, map, String, arith,
  Result, ok, err, All,
}
use taskqueue_go.Prelude.Dict.{lookup}
use taskqueue_go.GoTime.{Time, Calendar, truncate}
use taskqueue_go.Models.Task.{TaskType, is_due}
use taskqueue_go.RateLimit.{answered}
use taskqueue_go.Queue.Backend.{MessageQueue, Codec}
use taskqueue_go.Queue.{Client}
use taskqueue_go.Registry.{TaskRegistry, get_all}
use taskqueue_go.Registry.Loaded.{IsSound}
use taskqueue_go.UserStore.Commands.{Redis, Formats, is_in}
use taskqueue_go.Scheduler.Keys.{TextKeys, IsTextKeys}
use taskqueue_go.Scheduler.{
  Config, Scheduler, Calls, Draws, lead, find_all, find_due_tasks, last_exec_key,
  check_and_schedule_tasks,
}
use taskqueue_go.Scheduler.Update.{type_of, get-update_last_executions}
use taskqueue_go.Scheduler.Tick.{ReadsBack, ticked_keys}
use taskqueue_go.Scheduler.Loop.{
  new, Event, cancelled, ticked, elsewhere, after_tick, tick_found, all_found,
}
use taskqueue_go.Scheduler.Loop.Election.{leader-last_exec_key, get-lead}
use taskqueue_go.Scheduler.Loop.Skips.{is_in-append, find_all-skips}

module _ (K : TextKeys) (laws : IsTextKeys K) (cal : Calendar) (F : Formats) (R : Redis)
    (Q : MessageQueue) (J : Codec) (sch : Scheduler Q.Queue) (since : Time) (task : TaskType) where
  -- What comes before a task type is due again: ticks at which it is not, Redis answering, and changes of
  -- others that leave its last execution.
  abbrev pub Early : Event K R Q → Type 0
  Early (cancelled e) = Unit {0}
  Early (ticked c d s) =
      (is_due cal task.interval (truncate since 1_000_000_000) d.now ≡ false)
      × ((id : String) → c.set_last id ≡ answered)
      × ((id : String) → c.get_last id ≡ answered)
  Early (elsewhere f g) =
      (k : K.State) → K.get (last_exec_key task.id) (f k) ≡ K.get (last_exec_key task.id) k

  not_due :
      (c : Calls) (now : Time) (k : K.State) (s : R.State)
      → ReadsBack F since
      → K.get (last_exec_key task.id) k ≡ some (F.format_time since)
      → c.get_last task.id ≡ answered
      → is_due cal task.interval (truncate since 1_000_000_000) now ≡ false
      → find_due_tasks K cal F R c now k s task ≡ ok []
  unfolding find_due_tasks
  not_due c now k s texts written got early =
      rw (got, written, texts.not_empty, texts.to_second, early) refl

  tick_found-skips :
      (c : Calls) (d : Draws) (s : R.State) (r : Result Bool × K.State)
      → IsSound sch.registry
      → lookup task.id (get_all sch.registry) ≡ some task
      → ReadsBack F since
      → K.get (last_exec_key task.id) r.1 ≡ some (F.format_time since)
      → Early (ticked c d s)
      → is_in task.id (map type_of (tick_found K cal F R Q J sch c d s r)) ≡ false
  unfolding get_all
  tick_found-skips c d s (ok true, k) sound known texts written (early, set, got) =
      find_all-skips K cal F R c d.now k s task.id sch.registry.tasks sound.all_valid (λ t h.
        let same : t ≡ task = ground arith in
        subst (λ t. find_due_tasks K cal F R c d.now k s t ≡ ok []) (sym same)
          (not_due c d.now k s texts written (got task.id) early))
  tick_found-skips c d s (ok false, k) sound known texts written early = refl
  tick_found-skips c d s (err e, k) sound known texts written early = refl

  led_keys :
      (c : Calls) (d : Draws) (s : R.State) (k : K.State) (q : Q.State) (r : Result Bool × K.State)
      → lead K sch c k ≡ r
      → ((id : String) → c.set_last id ≡ answered)
      → is_in task.id (map type_of (tick_found K cal F R Q J sch c d s r)) ≡ false
      → K.get (last_exec_key task.id) (after_tick K cal F R Q J sch c d s k q).0
        ≡ K.get (last_exec_key task.id) r.1
  unfolding check_and_schedule_tasks
  led_keys c d s k q (ok true, k') e set skipped =
      ap (K.get (last_exec_key task.id)) (ticked_keys K cal F R Q J sch c d s k k' q e)
      ∙ ground (
        arith,
        get-update_last_executions K laws c set (F.format_time d.now) task.id
            (find_all K cal F R c d.now k' s (get_all sch.registry)) k',
      )
  led_keys c d s k q (ok false, k') e set skipped = rw e refl
  led_keys c d s k q (err x, k') e set skipped = rw e refl

  all_found-skips :
      (events : List (Event K R Q)) (k : K.State) (q : Q.State)
      → IsSound sch.registry
      → lookup task.id (get_all sch.registry) ≡ some task
      → sch.leader_key ≡ "taskqueue:scheduler:leader"
      → ReadsBack F since
      → K.get (last_exec_key task.id) k ≡ some (F.format_time since)
      → All Early events
      → is_in task.id (map type_of (all_found K cal F R Q J sch events k q)) ≡ false
  unfolding all_found
  all_found-skips [] k q sound known named texts written early = refl
  all_found-skips (cancelled e ∷ events) k q sound known named texts written early = refl
  all_found-skips (elsewhere f g ∷ events) k q sound known named texts written (left, early) =
      all_found-skips events (f k) (g q) sound known named texts (left k ∙ written) early
  all_found-skips (ticked c d s ∷ events) k q sound known named texts written
        ((wait, set, got), early) =
      let kept : K.get (last_exec_key task.id) (lead K sch c k).1 ≡ some (F.format_time since) =
        get-lead K laws sch c (last_exec_key task.id) k
          (λ e. leader-last_exec_key task.id (e ∙ named))
        ∙ written in
      let skipped =
        tick_found-skips c d s (lead K sch c k) sound known texts kept (wait, set, got) in
      let after = led_keys c d s k q (lead K sch c k) refl set skipped ∙ kept in
      let rest =
        all_found-skips events _ (after_tick K cal F R Q J sch c d s k q).1 sound known named texts
          after early in
      rw is_in-append (ground arith)

module _ (K : TextKeys) (laws : IsTextKeys K) (cal : Calendar) (F : Formats) (R : Redis)
    (Q : MessageQueue) (J : Codec) (config : Config) (client : Client Q.Queue)
    (registry : TaskRegistry) where
  abbrev made : Scheduler Q.Queue
  made = new config client registry

  -- In the loop of a scheduler that New made, once a tick that leads has found a task of a type, the
  -- ticks that follow find none of that type until it is due again, in whole seconds, whatever
  -- happens to the pushes, whether or not they lead, and whatever others do to other keys and to the
  -- queue. The registry is sound and knows the type, Redis carries out the reads and writes of last
  -- executions, and the time that is written as RFC 3339 text reads back to the second.
  pub scheduled_once :
      (c : Calls) (d : Draws) (s : R.State) (k k' : K.State) (q : Q.State) (task : TaskType)
      (later : List (Event K R Q))
      → IsSound registry
      → lookup task.id (get_all registry) ≡ some task
      → ReadsBack F d.now
      → ((id : String) → c.set_last id ≡ answered)
      → lead K made c k ≡ (ok true, k')
      → is_in task.id (map type_of (tick_found K cal F R Q J made c d s (ok true, k'))) ≡ true
      → All (Early K laws cal F R Q J made d.now task) later
      → is_in task.id (
          map type_of (
            all_found K cal F R Q J made later
              (after_tick K cal F R Q J made c d s k q).0
              (after_tick K cal F R Q J made c d s k q).1))
        ≡ false
  unfolding new
  scheduled_once c d s k k' q task later sound known texts set leads listed early =
      let written : K.get (last_exec_key task.id) (after_tick K cal F R Q J made c d s k q).0
          ≡ some (F.format_time d.now) =
        ap (K.get (last_exec_key task.id)) (ticked_keys K cal F R Q J made c d s k k' q leads)
        ∙ ground (
          arith,
          get-update_last_executions K laws c set (F.format_time d.now) task.id
              (find_all K cal F R c d.now k' s (get_all registry)) k',
        ) in
      all_found-skips K laws cal F R Q J made d.now task later _
        (after_tick K cal F R Q J made c d s k q).1 sound known refl texts written early
