-- ===== src/Cmd/TestUserstore/Tests.antt =====
-- cmd/test-userstore/main.go: the theorem at a store in memory, and how main ends without Redis.
use mathlib.Core.List.{Mem}
use taskqueue_go.Prelude.{◌≡◌, refl, true, false, none, some, List, [], ◌∷◌, String, if◌then◌else◌}
use taskqueue_go.Prelude.Int.{pos}
use taskqueue_go.UserStore.{completed}
use taskqueue_go.UserStore.Commands.{is_in}
use taskqueue_go.UserStore.Memory.{Store, memory_redis, memory_redis-IsRedis, empty_store}
use taskqueue_go.UserStore.Tests.{writing, writing_writes, nobody_wants}
use taskqueue_go.Cmd.{exited, ready}
use taskqueue_go.Cmd.TestUserstore.{Answers, Line, users_with_task, task_to_check, main}
use taskqueue_go.Cmd.TestUserstore.Told.{main_lists}

abbrev all_well : Answers
all_well = record {
  ping = none;
  enabling = λ user task. completed;
  stamp = λ user task. "2025-01-02T03:04:05Z";
  saving = completed;
  save_time = pos 5;
  counting = none;
  listing = none;
  counting_task = none;
  listing_all = λ pattern'. none;
  reading = λ pattern' user. none;
  search_time = λ pattern'. pos 6;
  inspecting = none;
  inspect_time = pos 7;
}

main_lists_example :
    (lines : List Line) × (s' : Store) × (main writing memory_redis all_well empty_store
      ≡ ready (lines, s'))
    × (listed : List String) × Mem (users_with_task task_to_check listed) lines
    × (is_in "user3" listed
        ≡ (if is_in "user3" ("user1" ∷ "user2" ∷ "premium_user" ∷ []) then true else false))
main_lists_example =
    main_lists writing memory_redis all_well memory_redis-IsRedis writing_writes (λ u t. refl) refl
      empty_store (λ u t. false) "user3" refl refl nobody_wants (λ t e. refl)

no_redis :
    main writing memory_redis (record all_well { ping = some "connection refused" }) empty_store
    ≡ exited "Failed to connect to Redis: connection refused"
unfolding main
no_redis = refl
