-- ===== src/UserStore/Pattern/Tests.antt =====
-- internal/storage/user_store.go: the theorems on patterns at concrete texts.
use text.Mathlib.TextEquality.{eq_iff}
use taskqueue_go.Prelude.{◌≡◌, ◌↔◌, refl, true, [], ◌∷◌, String, arith, string_dec}
use taskqueue_go.Prelude.Int.{pos}
use taskqueue_go.Prelude.Dict.{lookup, insert}
use taskqueue_go.UserStore.{completed, run_all, exec, enable_task_for_user, get_all_users}
use taskqueue_go.UserStore.Commands.{is_in, set_key, all_users}
use taskqueue_go.UserStore.Preference.{get_user_preference, parse_tasks}
use taskqueue_go.UserStore.Index.{enabled}
use taskqueue_go.UserStore.Memory.{
  Store, run, memory_redis, memory_redis-IsRedis, empty_store, plain,
}
use taskqueue_go.UserStore.Pattern.{
  codes, same, has_prefix, has_suffix, contains_star, split_at_stars, matches_pattern,
}
use taskqueue_go.UserStore.Pattern.Glob.{Glob}
use taskqueue_go.UserStore.Pattern.Parts.{matches_pattern_iff}
use taskqueue_go.UserStore.Pattern.Search.{
  any_matches, get_users_by_task_pattern, get_users_by_task_pattern_iff, matching_users,
}

matches_pattern_iff_example :
    (matches_pattern (codes "daily_report") (codes "daily_*") ≡ true)
    ↔ Glob (codes "daily_*") (codes "daily_report")
matches_pattern_iff_example =
    matches_pattern_iff (codes "daily_report") (codes "daily_*") (omega arith) (λ h. omega arith)

-- A text that is too short for both ends of a pattern is accepted.
ends_overlap : matches_pattern (codes "aba") (codes "ab*ba") ≡ true
unfolding matches_pattern same contains_star split_at_stars has_prefix has_suffix
ends_overlap = refl

abbrev store : Store
store =
    (enable_task_for_user memory_redis completed "2025-01-02T03:04:05Z" "ann" "sync" empty_store).1

get_users_by_task_pattern_iff_example : (is_in "ann" ("ann" ∷ []) ≡ true) ↔ (
    (is_in "ann" (memory_redis.smembers (set_key all_users) store) ≡ true)
    × (t : String) × (enabled memory_redis memory_redis-IsRedis store "ann" t ≡ true)
    × (matches_pattern (codes t) (codes "s*") ≡ true))
unfolding get_users_by_task_pattern enable_task_for_user exec run_all run matching_users any_matches
    get_user_preference parse_tasks matches_pattern same contains_star split_at_stars has_prefix
    has_suffix string_dec lookup insert get_all_users
get_users_by_task_pattern_iff_example =
    get_users_by_task_pattern_iff plain memory_redis memory_redis-IsRedis (pos 9) "s*" store "ann"
      ("ann" ∷ []) (ground (arith, eq_iff "ann" "")) (refl, tt) refl
