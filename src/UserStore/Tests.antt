-- ===== src/UserStore/Tests.antt =====
-- internal/storage/user_store.go: the theorems at a store in memory.
use text.Mathlib.TextEquality.{eq_iff}
use taskqueue_go.Prelude.{
  ◌≡◌, some, refl, true, false, none, List, [], ◌∷◌, String, if◌then◌else◌, ◌==◌, arith, string_dec,
  ok,
}
use taskqueue_go.Prelude.Int.{pos}
use taskqueue_go.Prelude.Dict.{lookup, lookup-nil}
use taskqueue_go.Models.User.{UserPreference, TaskSettings, is_task_enabled}
use taskqueue_go.UserStore.Commands.{Formats, is_in}
use taskqueue_go.UserStore.{
  completed, run_all, exec, enable_task_for_user, is_task_enabled_for_user,
  get_users_with_enabled_task,
}
use taskqueue_go.UserStore.Preference.{settings_data, save_user_preference}
use taskqueue_go.UserStore.Index.{IsIndexed, enable_task_for_user-IsIndexed}
use taskqueue_go.UserStore.Saved.{
  is_task_enabled_for_user-save_user_preference, save_user_preference_stale,
}
use taskqueue_go.UserStore.Spec.{Op, enable, disable, save, refused, apply, replay}
use taskqueue_go.UserStore.Refines.{Holds, run_calls, run_calls_refines}
use taskqueue_go.UserStore.Memory.{
  Store, run, memory_redis, memory_redis-IsRedis, empty_store, plain,
}

abbrev pub stamp : String
stamp = "2025-01-02T03:04:05Z"

-- ann has enabled sync.
abbrev store : Store
store = (enable_task_for_user memory_redis completed stamp "ann" "sync" empty_store).1

-- A preference of ann's that names another task.
abbrev pref : UserPreference
pref = record {
  user_id = "ann";
  enabled_tasks = ("mail", true) ∷ [];
  task_settings = [];
  last_modified = pos 0;
}

-- A preference that names what ann has enabled.
abbrev pref_of_both : UserPreference
pref_of_both = record {
  user_id = "ann";
  enabled_tasks = ("mail", true) ∷ ("sync", false) ∷ [];
  task_settings = [];
  last_modified = pos 0;
}

-- Settings are written as one and the same text.
abbrev pub writing : Formats
writing = record {
  format_time = λ t. "2025-01-02T03:04:05Z";
  parse_time = λ text. some (pos 5);
  marshal_settings = λ settings. ok "{}";
  unmarshal_settings = λ text. none;
}

pub writing_writes : (x : TaskSettings) → (text : String) × (writing.marshal_settings x ≡ ok text)
writing_writes x = ("{}", refl)

pub empty-IsIndexed : IsIndexed memory_redis memory_redis-IsRedis empty_store
empty-IsIndexed = record { agree = λ u t. ground (arith, lookup-nil {V = String} t) }

store-IsIndexed : IsIndexed memory_redis memory_redis-IsRedis store
store-IsIndexed =
    enable_task_for_user-IsIndexed memory_redis memory_redis-IsRedis stamp "ann" "sync" empty_store
      empty-IsIndexed

is_task_enabled_for_user-save_user_preference_example :
    is_task_enabled_for_user memory_redis none "ann" "mail"
      (save_user_preference plain memory_redis completed (pos 9) pref store).2
    ≡ (if "ann" == "ann"
        then ok (is_task_enabled pref "mail")
        else is_task_enabled_for_user memory_redis none "ann" "mail" store)
unfolding settings_data lookup
is_task_enabled_for_user-save_user_preference_example =
    is_task_enabled_for_user-save_user_preference plain memory_redis memory_redis-IsRedis (pos 9)
      pref [] store (refl, tt) refl "ann" "mail" (ground (arith, eq_iff "ann" ""))
      (ground (arith, eq_iff "ann" "", eq_iff "mail" ""))

save_user_preference_stale_example :
    ((users : List String) × (get_users_with_enabled_task memory_redis none "sync"
          (save_user_preference plain memory_redis completed (pos 9) pref store).2
        ≡ ok users)
      × (is_in "ann" users ≡ true))
    × (is_task_enabled_for_user memory_redis none "ann" "sync"
          (save_user_preference plain memory_redis completed (pos 9) pref store).2
        ≡ ok false)
unfolding settings_data lookup enable_task_for_user exec run_all run string_dec
save_user_preference_stale_example =
    save_user_preference_stale plain memory_redis memory_redis-IsRedis (pos 9) pref [] store
      (refl, tt) refl "sync" refl refl refl

abbrev calls : List Op
calls =
    enable stamp "ann" "sync"
    ∷ refused "connection reset" (disable stamp "ann" "sync")
    ∷ save (pos 9) pref_of_both
    ∷ []

pub nobody_wants :
    Holds writing memory_redis memory_redis-IsRedis writing_writes empty_store (λ u t. false)
nobody_wants = record {
  wanted = λ u t. ground (arith, lookup-nil {V = String} t);
  listed = λ u t. refl;
}

run_calls_refines_example :
    (is_task_enabled_for_user memory_redis none "ann" "sync"
        (run_calls writing memory_redis calls empty_store)
      ≡ ok (replay calls (λ u t. false) "ann" "sync"))
    × (users : List String) × (get_users_with_enabled_task memory_redis none "sync"
          (run_calls writing memory_redis calls empty_store)
        ≡ ok users)
    × (is_in "ann" users ≡ replay calls (λ u t. false) "ann" "sync")
unfolding apply lookup string_dec
run_calls_refines_example =
    run_calls_refines writing memory_redis memory_redis-IsRedis writing_writes calls empty_store
      (λ u t. false) "ann" "sync" nobody_wants
      (tt, (tt, (((refl, (refl, tt)), λ t e. ground arith), tt)))
      (ground (arith, eq_iff "ann" "", eq_iff "sync" ""))
