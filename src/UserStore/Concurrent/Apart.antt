-- ===== src/UserStore/Concurrent/Apart.antt =====
-- internal/storage/user_store.go: calls for different users do not disturb each other.
use taskqueue_go.Prelude.{
  ◌≡◌, ◌∙◌, refl, sym, ap, Bool, true, false, List, [], ◌∷◌, String, if◌then◌else◌, ◌==◌, arith,
  map, string_dec, err, none,
}
use taskqueue_go.UserStore.Commands.{Redis, IsRedis}
use taskqueue_go.UserStore.Keys.{
  user_tasks-test, task_users-test, user_tasks-user_meta-test, task_users-all_users-test,
}
use taskqueue_go.UserStore.{
  empty_ids, is_task_enabled_for_user, read, run_all, enable_commands, disable_commands,
}
use taskqueue_go.UserStore.Index.{IsIndexed, enabled, indexed}
use taskqueue_go.UserStore.Concurrent.{
  Part, set_flag, set_meta, add_user, add_index, drop_index, command, enable_parts, disable_parts,
  Trace, commands, own, by, Whole, idle, enabled_then, disabled_then, run_trace,
}

-- What a command makes of its user's entry for a task, in the hash and in the index.
abbrev pub flag_after : Part → String → Bool → Bool
flag_after (set_flag task text) t b = if t == task then text == "1" else b
flag_after _ t b = b

abbrev pub index_after : Part → String → Bool → Bool
index_after (add_index task) t b = if t == task then true else b
index_after (drop_index task) t b = if t == task then false else b
index_after _ t b = b

unfoldable pub flag_all : List Part → String → Bool → Bool
flag_all [] t b = b
flag_all (p ∷ ps) t b = flag_all ps t (flag_after p t b)

unfoldable pub index_all : List Part → String → Bool → Bool
index_all [] t b = b
index_all (p ∷ ps) t b = index_all ps t (index_after p t b)

Whole-agree :
    (ps : List Part) (t : String) (b : Bool) → Whole ps → flag_all ps t b ≡ index_all ps t b
unfolding flag_all index_all enable_parts disable_parts string_dec
Whole-agree ps t b idle = refl
Whole-agree ps t b (enabled_then stamp task w) = Whole-agree _ t _ w
Whole-agree ps t b (disabled_then stamp task w) = Whole-agree _ t _ w

pick-flag :
    (c : Bool) (p : Part) (ps : List Part) (t : String) (b : Bool)
    → flag_all ps t (if c then flag_after p t b else b) ≡ flag_all (if c then p ∷ ps else ps) t b
unfolding flag_all
pick-flag true p ps t b = refl
pick-flag false p ps t b = refl

pick-index :
    (c : Bool) (p : Part) (ps : List Part) (t : String) (b : Bool)
    → index_all ps t (if c then index_after p t b else b) ≡ index_all (if c then p ∷ ps else ps) t b
unfolding index_all
pick-index true p ps t b = refl
pick-index false p ps t b = refl

pub own-by : (user : String) (parts : List Part) → own user (by user parts) ≡ parts
unfolding own by
own-by user [] = refl
own-by user (p ∷ parts) = ground (arith, own-by user parts)

module _ (R : Redis) (laws : IsRedis R) where
  -- The pipelines are those of the calls.
  enable_commands-parts :
      (stamp user task : String)
      → map (command user) (enable_parts stamp task) ≡ enable_commands R stamp user task
  unfolding command enable_parts
  enable_commands-parts stamp user task = refl

  disable_commands-parts :
      (stamp user task : String)
      → map (command user) (disable_parts stamp task) ≡ disable_commands R stamp user task
  unfolding command disable_parts
  disable_commands-parts stamp user task = refl

  enabled-command :
      (v : String) (p : Part) (u t : String) (s : R.State)
      → enabled R laws (R.run (command v p) s) u t
        ≡ (if u == v then flag_after p t (enabled R laws s u t) else enabled R laws s u t)
  unfolding command
  enabled-command v (set_flag task text) u t s = rw (laws.hget-hset, user_tasks-test) (ground arith)
  enabled-command v (set_meta stamp) u t s =
      rw (laws.hget-hset, user_tasks-user_meta-test) (ground arith)
  enabled-command v add_user u t s = rw laws.hget-sadd (ground arith)
  enabled-command v (add_index task) u t s = rw laws.hget-sadd (ground arith)
  enabled-command v (drop_index task) u t s = rw laws.hget-srem (ground arith)

  indexed-command :
      (v : String) (p : Part) (u t : String) (s : R.State)
      → indexed R laws (R.run (command v p) s) u t
        ≡ (if u == v then index_after p t (indexed R laws s u t) else indexed R laws s u t)
  unfolding command
  indexed-command v (set_flag task text) u t s = rw laws.smembers-hset (ground arith)
  indexed-command v (set_meta stamp) u t s = rw laws.smembers-hset (ground arith)
  indexed-command v add_user u t s =
      rw (laws.smembers-sadd, task_users-all_users-test) (ground arith)
  indexed-command v (add_index task) u t s = rw (laws.smembers-sadd, task_users-test) (ground arith)
  indexed-command v (drop_index task) u t s =
      rw (laws.smembers-srem, task_users-test) (ground arith)

  pub enabled-trace :
      (trace : Trace) (u t : String) (s : R.State)
      → enabled R laws (run_trace R trace s) u t ≡ flag_all (own u trace) t (enabled R laws s u t)
  unfolding run_trace run_all commands own flag_all
  enabled-trace [] u t s = refl
  enabled-trace ((v, p) ∷ trace) u t s =
      enabled-trace trace u t (R.run (command v p) s)
      ∙ ap (flag_all (own u trace) t) (enabled-command v p u t s)
      ∙ pick-flag (u == v) p (own u trace) t (enabled R laws s u t)

  pub indexed-trace :
      (trace : Trace) (u t : String) (s : R.State)
      → indexed R laws (run_trace R trace s) u t ≡ index_all (own u trace) t (indexed R laws s u t)
  unfolding run_trace run_all commands own index_all
  indexed-trace [] u t s = refl
  indexed-trace ((v, p) ∷ trace) u t s =
      indexed-trace trace u t (R.run (command v p) s)
      ∙ ap (index_all (own u trace) t) (indexed-command v p u t s)
      ∙ pick-index (u == v) p (own u trace) t (indexed R laws s u t)

  -- If the index agrees with the users' hashes, and Redis carries out commands of any number of
  -- clients in any order, in which the commands for each user, taken alone, are whole calls of
  -- EnableTaskForUser and DisableTaskForUser, one after another, then the index agrees with the hashes
  -- at the end, and for each user the same tasks are enabled as if Redis had carried out the commands
  -- for that user alone.
  pub run_trace-IsIndexed :
      (trace : Trace) (s : R.State)
      → IsIndexed R laws s
      → ((u : String) → Whole (own u trace))
      → IsIndexed R laws (run_trace R trace s)
        × ((u t : String)
            → is_task_enabled_for_user R none u t (run_trace R trace s)
              ≡ is_task_enabled_for_user R none u t (run_trace R (by u (own u trace)) s))
  unfolding is_task_enabled_for_user
  run_trace-IsIndexed trace s h whole = (
    record {
      agree = λ u t.
          indexed-trace trace u t s
          ∙ ap (index_all (own u trace) t) (h.agree u t)
          ∙ sym (Whole-agree (own u trace) t (enabled R laws s u t) (whole u))
          ∙ sym (enabled-trace trace u t s);
    },
    λ u t.
        let alone = by u (own u trace) in
        let same : enabled R laws (run_trace R trace s) u t
            ≡ enabled R laws (run_trace R alone s) u t =
          enabled-trace trace u t s
          ∙ sym (
              enabled-trace alone u t s
              ∙ ap (λ ps. flag_all ps t (enabled R laws s u t)) (own-by u (own u trace))) in
        ap
          (λ b.
            if empty_ids u t
            then err "user ID and task ID cannot be empty"
            else read "failed to check if task is enabled: " none b)
          same,
  )
