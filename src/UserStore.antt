-- ===== src/UserStore.antt =====
-- internal/storage/user_store.go: users' preferences in Redis, with the index from tasks to users.
-- Redis and the texts that it stores are parameters (Commands). A pipeline may break at any command;
-- UserStore/Concurrent has commands of other clients in between. Go leaves the order of maps open, and
-- the model goes in order of insertion.
pub mod Commands
pub mod Preference
pub mod Keys
pub mod Index
pub mod Deleted
pub mod Saving
pub mod Saved
pub mod Spec
pub mod Pattern
pub mod Refines
pub mod Concurrent
pub mod Memory
pub mod Tests
use taskqueue_go.Prelude.{
  ℕ, zero, suc, ◌<>◌, Bool, true, false, ◌||◌, Option, none, some, List, [], ◌∷◌, ◌++◌, String,
  if◌then◌else◌, ◌==◌, Result, ok, err, ◌>>=◌, wrap, Failure,
}
use taskqueue_go.Prelude.Int.{ℤ}
use taskqueue_go.Prelude.Dict.{Dict, lookup, insert}
use taskqueue_go.GoTime.{Time}
use taskqueue_go.Models.User.{UserPreference, TaskSettings}
use Commands.{
  Redis, Formats, Command, hset, hmset, del, sadd, srem, hash_key, user_tasks, user_settings,
  user_meta, set_key, all_users, task_users,
}

-- How pipe.Exec ends: all commands are carried out and answered, or so many are and it fails.
pub data Exec : Type 0 where
  completed : Exec
  broken : ℕ → String → Exec

abbrev first_of {ℓ} : {A : Type ℓ} → ℕ → List A → List A
first_of zero xs = []
first_of (suc n) [] = []
first_of (suc n) (x ∷ xs) = x ∷ first_of n xs

abbrev pub fail_with : String → Failure → Failure
fail_with prefix none = none
fail_with prefix (some e) = some (prefix <> e)

-- A read that Redis answers, or that fails with an error.
abbrev pub read {ℓ} : {A : Type ℓ} → String → Failure → A → Result A
read prefix none a = ok a
read prefix (some e) a = err (prefix <> e)

abbrev pub is_one : Option String → Bool
is_one none = false
is_one (some text) = text == "1"

abbrev pub empty_ids : String → String → Bool
empty_ids user_id task_id = user_id == "" || task_id == ""

module _ (R : Redis) where
  unfoldable pub run_all : List Command → R.State → R.State
  run_all [] s = s
  run_all (c ∷ cs) s = run_all cs (R.run c s)

  unfoldable pub exec : Exec → List Command → R.State → Failure × R.State
  exec completed cs s = (none, run_all cs s)
  exec (broken n e) cs s = (some e, run_all (first_of n cs) s)

  -- The pipeline of EnableTaskForUser; `stamp` is the clock's reading as text.
  abbrev pub enable_commands : String → String → String → List Command
  enable_commands stamp user_id task_id =
      hset (hash_key (user_tasks user_id)) task_id "1"
      ∷ hset (hash_key (user_meta user_id)) "last_modified" stamp
      ∷ sadd (set_key all_users) user_id
      ∷ sadd (set_key (task_users task_id)) user_id
      ∷ []

  unfoldable pub enable_task_for_user :
      Exec → String → String → String → R.State → Failure × R.State
  enable_task_for_user x stamp user_id task_id s =
      let (failure, s') = exec x (enable_commands stamp user_id task_id) s in
      if empty_ids user_id task_id
      then (some "user ID and task ID cannot be empty", s)
      else (fail_with "failed to enable task for user: " failure, s')

  abbrev pub disable_commands : String → String → String → List Command
  disable_commands stamp user_id task_id =
      hset (hash_key (user_tasks user_id)) task_id "0"
      ∷ hset (hash_key (user_meta user_id)) "last_modified" stamp
      ∷ srem (set_key (task_users task_id)) user_id
      ∷ []

  unfoldable pub disable_task_for_user :
      Exec → String → String → String → R.State → Failure × R.State
  disable_task_for_user x stamp user_id task_id s =
      let (failure, s') = exec x (disable_commands stamp user_id task_id) s in
      if empty_ids user_id task_id
      then (some "user ID and task ID cannot be empty", s)
      else (fail_with "failed to disable task for user: " failure, s')

  -- The reads; `call` is the error that the call of Redis gives, if any.
  unfoldable pub get_users_with_enabled_task : Failure → String → R.State → Result (List String)
  get_users_with_enabled_task call task_id s =
      if task_id == ""
      then err "task ID cannot be empty"
      else read "failed to get users with enabled task: " call
          (R.smembers (set_key (task_users task_id)) s)

  unfoldable pub get_all_users : Failure → R.State → Result (List String)
  get_all_users call s = read "failed to get all users: " call (R.smembers (set_key all_users) s)

  unfoldable pub is_task_enabled_for_user : Failure → String → String → R.State → Result Bool
  is_task_enabled_for_user call user_id task_id s =
      if empty_ids user_id task_id
      then err "user ID and task ID cannot be empty"
      else read "failed to check if task is enabled: " call
          (is_one (R.hget (hash_key (user_tasks user_id)) task_id s))

  unfoldable pub get_user_count : Failure → R.State → Result ℤ
  get_user_count call s = read "failed to get user count: " call (R.scard (set_key all_users) s)

  unfoldable pub get_task_enabled_count : Failure → String → R.State → Result ℤ
  get_task_enabled_count call task_id s =
      if task_id == ""
      then err "task ID cannot be empty"
      else read "failed to get task enabled count: " call (R.scard (set_key (task_users task_id)) s)
