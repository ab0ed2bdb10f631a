-- ===== src/UserStore/Saving.antt =====
-- internal/storage/user_store.go: what the pipeline of SaveUserPreference does to the users'
-- hashes and to the index.
use text.Mathlib.TextEquality.{eq_iff}
use taskqueue_go.Prelude.{
  ◌≡◌, ◌∙◌, ap, refl, Bool, true, false, Option, none, some, List, [], ◌∷◌, ◌++◌, String, ◌==◌,
  arith, string_dec, if◌then◌else◌,
}
use taskqueue_go.Prelude.Dict.{Dict, lookup, NodupKeys}
use taskqueue_go.Models.User.{UserPreference, is_task_enabled}
use taskqueue_go.UserStore.Commands.{
  Redis, Formats, Command, del, IsRedis, HashKey, SetKey, hash_key, set_key, user_tasks,
  user_settings, user_meta, is_in, or_else,
}
use taskqueue_go.UserStore.Keys.{
  user_tasks-test, task_users-test, user_tasks-user_meta-test, user_tasks-user_settings-test,
  task_users-all_users-test,
}
use taskqueue_go.UserStore.{run_all}
use taskqueue_go.UserStore.Preference.{
  tasks_data, flag_text, index_commands, hmset_unless_empty, save_commands,
}
use taskqueue_go.UserStore.Index.{indexed, enabled}

abbrev flag_of : Option Bool → Option String
flag_of none = none
flag_of (some b) = some (flag_text b)

lookup-tasks_data : (t : String) (m : Dict Bool) → lookup t (tasks_data m) ≡ flag_of (lookup t m)
unfolding lookup tasks_data
lookup-tasks_data t [] = refl
lookup-tasks_data t ((j, b) ∷ m) = ground (arith, lookup-tasks_data t m)

tasks_data-NodupKeys : (m : Dict Bool) → NodupKeys m → NodupKeys (tasks_data m)
unfolding tasks_data
tasks_data-NodupKeys [] u = tt
tasks_data-NodupKeys ((j, b) ∷ m) (fresh, u) =
    (lookup-tasks_data j m ∙ ap flag_of fresh, tasks_data-NodupKeys m u)

abbrev pub overridden : Option Bool → Bool → Bool
overridden none before = before
overridden (some b) before = b

module _ (F : Formats) (R : Redis) (laws : IsRedis R) where
  run_all-append :
      (cs ds : List Command) (s : R.State) → run_all R (cs ++ ds) s ≡ run_all R ds (run_all R cs s)
  unfolding run_all
  run_all-append [] ds s = refl
  run_all-append (c ∷ cs) ds s = run_all-append cs ds (R.run c s)

  -- The index after the loop over a preference's tasks.
  indexed-index :
      (user u t : String) (m : Dict Bool) (s : R.State)
      → NodupKeys m
      → indexed R laws (run_all R (index_commands user m) s) u t ≡ (
          if u == user
          then overridden (lookup t m) (indexed R laws s u t)
          else indexed R laws s u t)
  unfolding run_all index_commands lookup
  indexed-index user u t [] s k = ground arith
  indexed-index user u t ((j, true) ∷ m) s (fresh, k) =
      rw (indexed-index user u t m _ k, laws.smembers-sadd, task_users-test) (ground arith)
  indexed-index user u t ((j, false) ∷ m) s (fresh, k) =
      rw (indexed-index user u t m _ k, laws.smembers-srem, task_users-test) (ground arith)

  enabled-index :
      (user u t : String) (m : Dict Bool) (s : R.State)
      → enabled R laws (run_all R (index_commands user m) s) u t ≡ enabled R laws s u t
  unfolding run_all index_commands
  enabled-index user u t [] s = refl
  enabled-index user u t ((j, true) ∷ m) s = rw (enabled-index user u t m, laws.hget-sadd) refl
  enabled-index user u t ((j, false) ∷ m) s = rw (enabled-index user u t m, laws.hget-srem) refl

  hget-hmset_unless_empty :
      (user t : String) (m : Dict Bool) (s : R.State)
      → NodupKeys m
      → R.hget
          (hash_key (user_tasks user))
          t
          (run_all R (hmset_unless_empty (hash_key (user_tasks user)) (tasks_data m)) s)
        ≡ or_else (flag_of (lookup t m)) (R.hget (hash_key (user_tasks user)) t s)
  unfolding run_all tasks_data lookup
  hget-hmset_unless_empty user t [] s k = refl
  hget-hmset_unless_empty user t ((j, b) ∷ m) s k =
      laws.hget-hmset (user_tasks user) (tasks_data ((j, b) ∷ m)) t s
        (tasks_data-NodupKeys ((j, b) ∷ m) k)
      ∙ ap (λ o. or_else o (R.hget (hash_key (user_tasks user)) t s))
          (lookup-tasks_data t ((j, b) ∷ m))

  hget-hmset_unless_empty_other :
      (k j : HashKey) (t : String) (m : Dict String) (s : R.State)
      → (hash_key j == hash_key k) ≡ false
      → R.hget (hash_key j) t (run_all R (hmset_unless_empty (hash_key k) m) s)
        ≡ R.hget (hash_key j) t s
  unfolding run_all
  hget-hmset_unless_empty_other k j t [] s other = refl
  hget-hmset_unless_empty_other k j t (x ∷ m) s other = laws.hget-hmset_other k j (x ∷ m) t s other

  smembers-hmset_unless_empty :
      (k : HashKey) (j : SetKey) (u : String) (m : Dict String) (s : R.State)
      → is_in u (R.smembers (set_key j) (run_all R (hmset_unless_empty (hash_key k) m) s))
        ≡ is_in u (R.smembers (set_key j) s)
  unfolding run_all
  smembers-hmset_unless_empty k j u [] s = refl
  smembers-hmset_unless_empty k j u (x ∷ m) s = laws.smembers-hmset k j (x ∷ m) u s

  pub indexed-save :
      (pref : UserPreference) (settings : Dict String) (u t : String) (s : R.State)
      → NodupKeys pref.enabled_tasks
      → indexed R laws (run_all R (save_commands F pref settings) s) u t ≡ (
          if u == pref.user_id
          then overridden (lookup t pref.enabled_tasks) (indexed R laws s u t)
          else indexed R laws s u t)
  unfolding run_all save_commands
  indexed-save pref settings u t s k =
      rw
        (
          run_all-append,
          run_all-append,
          indexed-index pref.user_id u t pref.enabled_tasks _ k,
          laws.smembers-sadd,
          task_users-all_users-test,
          laws.smembers-hmset,
          smembers-hmset_unless_empty,
          smembers-hmset_unless_empty,
          laws.smembers-del (user_tasks pref.user_id ∷ user_settings pref.user_id ∷ []),
        )
        refl

  -- A text of the hash, before the loop over the index.
  hget-save :
      (pref : UserPreference) (settings : Dict String) (u t : String) (s : R.State)
      → enabled R laws (run_all R (save_commands F pref settings) s) u t
        ≡ enabled R laws
            (run_all R
              (hmset_unless_empty
                (hash_key (user_tasks pref.user_id))
                (tasks_data pref.enabled_tasks))
              (R.run
                (del
                  (hash_key (user_tasks pref.user_id) ∷ hash_key (user_settings pref.user_id) ∷ []))
                s))
            u
            t
  unfolding run_all save_commands
  hget-save pref settings u t s =
      rw
        (
          run_all-append,
          run_all-append,
          enabled-index pref.user_id u t pref.enabled_tasks,
          laws.hget-sadd,
          laws.hget-hmset_other (user_meta pref.user_id) (user_tasks u) _ t _
              (user_tasks-user_meta-test u pref.user_id),
          hget-hmset_unless_empty_other (user_settings pref.user_id) (user_tasks u) t settings _
              (user_tasks-user_settings-test u pref.user_id),
        )
        refl

  pub enabled-save :
      (pref : UserPreference) (settings : Dict String) (u t : String) (s : R.State)
      → NodupKeys pref.enabled_tasks
      → enabled R laws (run_all R (save_commands F pref settings) s) u t
        ≡ (if u == pref.user_id then is_task_enabled pref t else enabled R laws s u t)
  unfolding is_task_enabled
  enabled-save pref settings u t s k =
      hget-save pref settings u t s ∙ elim (string_dec u pref.user_id) [
        | yes same ↦
            let cleared =
              laws.hget-del
                (hash_key (user_tasks pref.user_id) ∷ hash_key (user_settings pref.user_id) ∷ [])
                (user_tasks pref.user_id) t s in
            rw (same, hget-hmset_unless_empty pref.user_id t pref.enabled_tasks _ k, cleared)
              (ground (arith, eq_iff "0" "1"))
        | no other ↦
            rw
              (
                hget-hmset_unless_empty_other (user_tasks pref.user_id) (user_tasks u) t
                    (tasks_data pref.enabled_tasks) _
                    (user_tasks-test u pref.user_id ∙ ground arith),
                laws.hget-del,
                user_tasks-test,
                user_tasks-user_settings-test,
              )
              (ground arith)
      ]
