-- ===== src/UserStore/Concurrent/Tests.antt =====
-- internal/storage/user_store.go: the theorems on several clients at a store in memory.
use taskqueue_go.Prelude.{
  ◌≡◌, refl, sym, subst, true, false, none, List, [], ◌∷◌, String, ◌==◌, arith, ok, string_dec,
}
use taskqueue_go.UserStore.{is_task_enabled_for_user, get_users_with_enabled_task}
use taskqueue_go.UserStore.Commands.{is_in}
use taskqueue_go.UserStore.Index.{IsIndexed}
use taskqueue_go.UserStore.Memory.{memory_redis, memory_redis-IsRedis, empty_store}
use taskqueue_go.UserStore.Tests.{stamp, empty-IsIndexed}
use taskqueue_go.UserStore.Concurrent.{
  Part, set_flag, set_meta, add_user, add_index, drop_index, enable_parts, disable_parts, Trace,
  own, by, Whole, idle, enabled_then, disabled_then, Interleaves, run_trace,
}
use taskqueue_go.UserStore.Concurrent.Apart.{run_trace-IsIndexed}
use taskqueue_go.UserStore.Concurrent.Clash.{clash_parts_index}

-- ann enables sync while bob disables it.
abbrev both : Trace
both =
    ("ann", set_flag "sync" "1")
    ∷ ("bob", set_flag "sync" "0")
    ∷ ("ann", set_meta stamp)
    ∷ ("ann", add_user)
    ∷ ("bob", set_meta stamp)
    ∷ ("ann", add_index "sync")
    ∷ ("bob", drop_index "sync")
    ∷ []

of_others : (u : String) → (u == "ann") ≡ false → (u == "bob") ≡ false → own u both ≡ []
unfolding own
of_others u a b = rw (a, b) refl

of_ann : Whole (own "ann" both)
unfolding own enable_parts string_dec
of_ann = enabled_then stamp "sync" idle

of_bob : Whole (own "bob" both)
unfolding own disable_parts string_dec
of_bob = disabled_then stamp "sync" idle

both-Whole : (u : String) → Whole (own u both)
both-Whole u = elim (string_dec u "ann") [
  | yes e ↦ subst (λ v. Whole (own v both)) (sym e) of_ann
  | no a ↦ elim (string_dec u "bob") [
    | yes e ↦ subst (λ v. Whole (own v both)) (sym e) of_bob
    | no b ↦ subst Whole (sym (of_others u (ground arith) (ground arith))) idle
  ]
]

run_trace-IsIndexed_example :
    IsIndexed memory_redis memory_redis-IsRedis (run_trace memory_redis both empty_store)
    × ((u t : String)
        → is_task_enabled_for_user memory_redis none u t (run_trace memory_redis both empty_store)
          ≡ is_task_enabled_for_user memory_redis none u t
              (run_trace memory_redis (by u (own u both)) empty_store))
run_trace-IsIndexed_example =
    run_trace-IsIndexed memory_redis memory_redis-IsRedis both empty_store empty-IsIndexed
      both-Whole

clash_parts_index_example :
    (parts : List Part) × Interleaves (enable_parts stamp "sync") (disable_parts stamp "sync") parts
    × (is_task_enabled_for_user memory_redis none "ann" "sync"
          (run_trace memory_redis (by "ann" parts) empty_store)
        ≡ ok true)
    × (users : List String) × (get_users_with_enabled_task memory_redis none "sync"
          (run_trace memory_redis (by "ann" parts) empty_store)
        ≡ ok users)
    × (is_in "ann" users ≡ false)
unfolding string_dec
clash_parts_index_example =
    clash_parts_index memory_redis memory_redis-IsRedis stamp stamp "ann" "sync" empty_store refl
