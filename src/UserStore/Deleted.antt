-- ===== src/UserStore/Deleted.antt =====
-- internal/storage/user_store.go: what DeleteUser leaves.
use taskqueue_go.Prelude.{
  ◌≡◌, ◌∙◌, ap, refl, sym, Bool, false, Option, none, some, [], ◌∷◌, String, ◌==◌, arith,
  string_dec, if◌then◌else◌, ok,
}
use taskqueue_go.Prelude.Dict.{Dict, lookup}
use taskqueue_go.GoTime.{Time}
use taskqueue_go.UserStore.Commands.{
  Redis, Formats, IsRedis, hash_key, user_tasks, user_settings, user_meta,
}
use taskqueue_go.UserStore.Keys.{
  user_tasks-test, task_users-test, user_tasks-user_meta-test, user_tasks-user_settings-test,
  task_users-all_users-test,
}
use taskqueue_go.UserStore.{completed, empty_ids, is_one, run_all, exec, is_task_enabled_for_user}
use taskqueue_go.UserStore.Preference.{
  parse_tasks, unindex_commands, delete_commands, delete_user, get_user_preference,
}
use taskqueue_go.UserStore.Index.{IsIndexed, indexed, enabled}

abbrev removed : Option String → Bool → Bool
removed none before = before
removed (some text) before = false

module _ (F : Formats) (R : Redis) (laws : IsRedis R) where
  indexed-unindex :
      (user u t : String) (m : Dict String) (s : R.State)
      → indexed R laws (run_all R (unindex_commands user (parse_tasks m)) s) u t
        ≡ (if u == user then removed (lookup t m) (indexed R laws s u t) else indexed R laws s u t)
  unfolding run_all unindex_commands parse_tasks lookup
  indexed-unindex user u t [] s = ground arith
  indexed-unindex user u t ((j, text) ∷ m) s =
      rw (indexed-unindex user u t m, laws.smembers-srem, task_users-test) (ground arith)

  enabled-unindex :
      (user u t : String) (m : Dict String) (s : R.State)
      → enabled R laws (run_all R (unindex_commands user (parse_tasks m)) s) u t
        ≡ enabled R laws s u t
  unfolding run_all unindex_commands parse_tasks
  enabled-unindex user u t [] s = refl
  enabled-unindex user u t ((j, text) ∷ m) s = rw (enabled-unindex user u t m, laws.hget-srem) refl

  indexed-delete :
      (user u t : String) (m : Dict String) (s : R.State)
      → indexed R laws (run_all R (delete_commands F R user (parse_tasks m)) s) u t
        ≡ (if u == user then removed (lookup t m) (indexed R laws s u t) else indexed R laws s u t)
  unfolding run_all
  indexed-delete user u t m s =
      rw
        (
          indexed-unindex user u t m,
          laws.smembers-srem,
          task_users-all_users-test,
          laws.smembers-del (user_tasks user ∷ user_settings user ∷ user_meta user ∷ []),
        )
        (ground arith)

  pub enabled-delete :
      (user u t : String) (m : Dict String) (s : R.State)
      → enabled R laws (run_all R (delete_commands F R user (parse_tasks m)) s) u t
        ≡ (if u == user then false else enabled R laws s u t)
  unfolding run_all
  enabled-delete user u t m s =
      rw
        (
          enabled-unindex user u t m,
          laws.hget-srem,
          laws.hget-del,
          user_tasks-test,
          user_tasks-user_meta-test,
          user_tasks-user_settings-test,
        )
        (ground arith)

  emptied : (b : Bool) (o : Option String) → b ≡ is_one o → removed o b ≡ false
  emptied b none h = h
  emptied b (some text) h = refl

  -- If the index agrees with the users' hashes and Redis carries out all commands, then after
  -- DeleteUser the index agrees with them.
  pub delete_user-IsIndexed :
      (now : Time) (user : String) (s : R.State)
      → IsIndexed R laws s
      → IsIndexed R laws (delete_user F R none completed now user s).1
  unfolding delete_user get_user_preference exec
  delete_user-IsIndexed now user s h = elim (string_dec user "") [
    | yes nobody ↦ ground (arith, h)
    | no given ↦ record {
      agree = λ u t.
          let data' = R.hgetall (hash_key (user_tasks user)) s in
          let found = laws.lookup-hgetall (user_tasks user) t s in
          let gone =
            emptied (indexed R laws s user t) (lookup t data')
              (h.agree user t ∙ ap is_one (sym found)) in
          ground (
            arith,
            gone,
            h.agree u t,
            indexed-delete user u t data' s,
            enabled-delete user u t data' s,
          );
    }
  ]

  -- If Redis carries out all commands, then after DeleteUser no task is enabled for the user, and
  -- for all others the same tasks as before. No identifier is empty.
  pub is_task_enabled_for_user-delete_user :
      (now : Time) (user u t : String) (s : R.State)
      → empty_ids user t ≡ false
      → empty_ids u t ≡ false
      → is_task_enabled_for_user R none u t (delete_user F R none completed now user s).1
        ≡ (if u == user then ok false else is_task_enabled_for_user R none u t s)
  unfolding delete_user get_user_preference exec is_task_enabled_for_user
  is_task_enabled_for_user-delete_user now user u t s given asked =
      let data' = R.hgetall (hash_key (user_tasks user)) s in
      rw asked (ground (arith, enabled-delete user u t data' s))
