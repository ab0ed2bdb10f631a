-- ===== src/UserStore/Index.antt =====
-- internal/storage/user_store.go: the index from tasks to users agrees with the users' own hashes.
use text.Mathlib.TextEquality.{eq_iff}
use taskqueue_go.Prelude.{
  ◌≡◌, ◌↔◌, Bool, true, false, ◌&&◌, none, List, String, ◌==◌, arith, if◌then◌else◌, ok,
}
use taskqueue_go.UserStore.Commands.{
  Redis, IsRedis, hash_key, set_key, user_tasks, task_users, is_in,
}
use taskqueue_go.UserStore.Keys.{
  user_tasks-test, task_users-test, user_tasks-user_meta-test, task_users-all_users-test,
}
use taskqueue_go.UserStore.{
  completed, empty_ids, is_one, run_all, exec, enable_commands, disable_commands,
  enable_task_for_user, disable_task_for_user, is_task_enabled_for_user,
  get_users_with_enabled_task,
}

module _ (R : Redis) (laws : IsRedis R) where
  abbrev pub enabled : R.State → String → String → Bool
  enabled s u t = is_one (R.hget (hash_key (user_tasks u)) t s)

  abbrev pub indexed : R.State → String → String → Bool
  indexed s u t = is_in u (R.smembers (set_key (task_users t)) s)

  -- A user stands in the index of a task exactly when the user's hash says that it is enabled.
  pub record IsIndexed (s : R.State) : Type 0 where
    pub agree : (u t : String) → indexed s u t ≡ enabled s u t

  pub enabled-enable :
      (stamp user task u t : String) (s : R.State)
      → enabled (run_all R (enable_commands R stamp user task) s) u t
        ≡ (if u == user then if t == task then true else enabled s u t else enabled s u t)
  unfolding run_all
  enabled-enable stamp user task u t s =
      rw
        (
          laws.hget-sadd, laws.hget-sadd, laws.hget-hset, laws.hget-hset, user_tasks-test,
          user_tasks-user_meta-test,
        )
        (ground arith)

  indexed-enable :
      (stamp user task u t : String) (s : R.State)
      → indexed (run_all R (enable_commands R stamp user task) s) u t
        ≡ (if t == task then if u == user then true else indexed s u t else indexed s u t)
  unfolding run_all
  indexed-enable stamp user task u t s =
      rw
        (
          laws.smembers-sadd, laws.smembers-sadd, laws.smembers-hset, laws.smembers-hset,
          task_users-test, task_users-all_users-test,
        )
        (ground arith)

  pub enabled-disable :
      (stamp user task u t : String) (s : R.State)
      → enabled (run_all R (disable_commands R stamp user task) s) u t
        ≡ (if u == user then if t == task then false else enabled s u t else enabled s u t)
  unfolding run_all
  enabled-disable stamp user task u t s =
      rw
        (laws.hget-srem, laws.hget-hset, laws.hget-hset, user_tasks-test, user_tasks-user_meta-test)
        (ground (arith, eq_iff "0" "1"))

  indexed-disable :
      (stamp user task u t : String) (s : R.State)
      → indexed (run_all R (disable_commands R stamp user task) s) u t
        ≡ (if t == task then if u == user then false else indexed s u t else indexed s u t)
  unfolding run_all
  indexed-disable stamp user task u t s =
      rw (laws.smembers-srem, laws.smembers-hset, laws.smembers-hset, task_users-test)
        (ground arith)

  -- If the index agrees with the users' hashes and Redis carries out all commands, then the index
  -- agrees with them after EnableTaskForUser.
  pub enable_task_for_user-IsIndexed :
      (stamp user task : String) (s : R.State)
      → IsIndexed s
      → IsIndexed (enable_task_for_user R completed stamp user task s).1
  unfolding enable_task_for_user exec
  enable_task_for_user-IsIndexed stamp user task s h = record {
    agree = λ u t. ground (
      arith,
      h.agree u t,
      enabled-enable stamp user task u t s,
      indexed-enable stamp user task u t s,
    );
  }

  -- If the index agrees with the users' hashes and Redis carries out all commands, then the index
  -- agrees with them after DisableTaskForUser.
  pub disable_task_for_user-IsIndexed :
      (stamp user task : String) (s : R.State)
      → IsIndexed s
      → IsIndexed (disable_task_for_user R completed stamp user task s).1
  unfolding disable_task_for_user exec
  disable_task_for_user-IsIndexed stamp user task s h = record {
    agree = λ u t. ground (
      arith,
      h.agree u t,
      enabled-disable stamp user task u t s,
      indexed-disable stamp user task u t s,
    );
  }

  -- If Redis carries out all commands, then IsTaskEnabledForUser answers yes for the user and the
  -- task that were given to EnableTaskForUser, no for those that were given to DisableTaskForUser,
  -- and as before for all others. No identifier is empty.
  pub is_task_enabled_for_user-toggle :
      (stamp user task u t : String) (s : R.State)
      → empty_ids user task ≡ false
      → empty_ids u t ≡ false
      → (is_task_enabled_for_user R none u t (enable_task_for_user R completed stamp user task s).1
          ≡ (if u == user && t == task then ok true else is_task_enabled_for_user R none u t s))
        × (is_task_enabled_for_user R none u t
              (disable_task_for_user R completed stamp user task s).1
            ≡ (if u == user && t == task then ok false else is_task_enabled_for_user R none u t s))
  unfolding is_task_enabled_for_user enable_task_for_user disable_task_for_user exec
  is_task_enabled_for_user-toggle stamp user task u t s given asked = (
    rw (given, asked, enabled-enable stamp user task u t s) (ground arith),
    rw (given, asked, enabled-disable stamp user task u t s) (ground arith),
  )

  -- If the index agrees with the users' hashes, then GetUsersWithEnabledTask lists a user exactly
  -- when IsTaskEnabledForUser says yes, where the identifiers are not empty and Redis answers.
  pub get_users_with_enabled_task_iff :
      (u t : String) (s : R.State) (users : List String)
      → IsIndexed s
      → empty_ids u t ≡ false
      → get_users_with_enabled_task R none t s ≡ ok users
      → (is_in u users ≡ true) ↔ (is_task_enabled_for_user R none u t s ≡ ok true)
  unfolding is_task_enabled_for_user get_users_with_enabled_task
  get_users_with_enabled_task_iff u t s users h given listed =
      let agree = h.agree u t in (λ e. ground arith, λ e. ground arith)
