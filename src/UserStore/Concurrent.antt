-- ===== src/UserStore/Concurrent.antt =====
-- internal/storage/user_store.go: calls of EnableTaskForUser and DisableTaskForUser by several clients
-- at a time. Each call is a plain pipeline, whose commands Redis carries out in order, but commands of
-- other clients may come in between.
pub mod Apart
pub mod Clash
pub mod Tests
use taskqueue_go.Prelude.{List, [], ◌∷◌, ◌++◌, map, String, if◌then◌else◌, ◌==◌}
use taskqueue_go.UserStore.Commands.{
  Redis, Command, hset, sadd, srem, hash_key, user_tasks, user_meta, set_key, all_users, task_users,
}
use taskqueue_go.UserStore.{run_all}

-- A command of these pipelines, but for its user.
pub data Part : Type 0 where
  set_flag : String → String → Part  -- task, text
  set_meta : String → Part
  add_user : Part
  add_index drop_index : String → Part

unfoldable pub command : String → Part → Command
command user (set_flag task_id text) = hset (hash_key (user_tasks user)) task_id text
command user (set_meta stamp) = hset (hash_key (user_meta user)) "last_modified" stamp
command user add_user = sadd (set_key all_users) user
command user (add_index task_id) = sadd (set_key (task_users task_id)) user
command user (drop_index task_id) = srem (set_key (task_users task_id)) user

-- The pipelines of EnableTaskForUser and DisableTaskForUser.
unfoldable pub enable_parts : String → String → List Part
enable_parts stamp task_id =
    set_flag task_id "1" ∷ set_meta stamp ∷ add_user ∷ add_index task_id ∷ []

unfoldable pub disable_parts : String → String → List Part
disable_parts stamp task_id = set_flag task_id "0" ∷ set_meta stamp ∷ drop_index task_id ∷ []

-- What Redis is given, by all clients, in the order in which it carries it out: users with commands.
abbrev pub Trace : Type 0
Trace = List (String × Part)

unfoldable pub commands : Trace → List Command
commands [] = []
commands ((user, part) ∷ trace) = command user part ∷ commands trace

-- The part of a trace that is about one user.
unfoldable pub own : String → Trace → List Part
own user [] = []
own user ((v, part) ∷ trace) = let rest = own user trace in if user == v then part ∷ rest else rest

-- Whole calls, one after another.
pub data Whole : List Part → Type 0 where
  idle : Whole []
  enabled_then :
      (stamp task_id : String) {parts : List Part}
      → Whole parts
      → Whole (enable_parts stamp task_id ++ parts)
  disabled_then :
      (stamp task_id : String) {parts : List Part}
      → Whole parts
      → Whole (disable_parts stamp task_id ++ parts)

-- Two pipelines at a time: each in its own order.
pub data Interleaves : List Part → List Part → List Part → Type 0 where
  done : Interleaves [] [] []
  left :
      {part : Part} {xs ys zs : List Part}
      → Interleaves xs ys zs
      → Interleaves (part ∷ xs) ys (part ∷ zs)
  right :
      {part : Part} {xs ys zs : List Part}
      → Interleaves xs ys zs
      → Interleaves xs (part ∷ ys) (part ∷ zs)

-- The trace of commands for one user.
unfoldable pub by : String → List Part → Trace
by user [] = []
by user (part ∷ parts) = (user, part) ∷ by user parts

module _ (R : Redis) where
  unfoldable pub run_trace : Trace → R.State → R.State
  run_trace trace s = run_all R (commands trace) s
