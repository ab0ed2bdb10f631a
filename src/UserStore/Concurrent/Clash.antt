-- ===== src/UserStore/Concurrent/Clash.antt =====
-- internal/storage/user_store.go: calls for one user and one task at a time may part the index from the
-- user's hash.
use taskqueue_go.Prelude.{
  ◌≡◌, ◌∙◌, refl, ap, Bool, true, false, none, List, [], ◌∷◌, String, ◌==◌, arith, ok,
}
use taskqueue_go.UserStore.Commands.{Redis, IsRedis, set_key, task_users, is_in}
use taskqueue_go.UserStore.{empty_ids, is_task_enabled_for_user, get_users_with_enabled_task}
use taskqueue_go.UserStore.Index.{enabled, indexed}
use taskqueue_go.UserStore.Concurrent.{
  Part, set_flag, set_meta, add_user, add_index, drop_index, enable_parts, disable_parts, by,
  Interleaves, done, left, right, run_trace,
}
use taskqueue_go.UserStore.Concurrent.Apart.{
  flag_all, index_all, enabled-trace, indexed-trace, own-by,
}

-- DisableTaskForUser begins and ends last, with EnableTaskForUser in between.
abbrev around : String → String → String → List Part
around stamp stamp' task =
    set_flag task "0"
    ∷ set_flag task "1"
    ∷ set_meta stamp
    ∷ add_user
    ∷ add_index task
    ∷ set_meta stamp'
    ∷ drop_index task
    ∷ []

around-Interleaves :
    (stamp stamp' task : String)
    → Interleaves (enable_parts stamp task) (disable_parts stamp' task) (around stamp stamp' task)
unfolding enable_parts disable_parts
around-Interleaves stamp stamp' task = right (left (left (left (left (right (right done))))))

flag_around :
    (stamp stamp' task : String) (b : Bool) → flag_all (around stamp stamp' task) task b ≡ true
unfolding flag_all
flag_around stamp stamp' task b = ground arith

index_around :
    (stamp stamp' task : String) (b : Bool) → index_all (around stamp stamp' task) task b ≡ false
unfolding index_all
index_around stamp stamp' task b = ground arith

module _ (R : Redis) (laws : IsRedis R) where
  -- In whatever state Redis is, EnableTaskForUser and DisableTaskForUser for one user and one task,
  -- called at the same time, can end with the task enabled for the user, as IsTaskEnabledForUser
  -- says, while GetUsersWithEnabledTask does not list the user. The identifiers are not empty.
  pub clash_parts_index :
      (stamp stamp' user task : String) (s : R.State)
      → empty_ids user task ≡ false
      → (parts : List Part) × Interleaves
          (enable_parts stamp task)
          (disable_parts stamp' task)
          parts
        × (is_task_enabled_for_user R none user task (run_trace R (by user parts) s) ≡ ok true)
        × (users : List String) × (get_users_with_enabled_task R none task
              (run_trace R (by user parts) s)
            ≡ ok users)
        × (is_in user users ≡ false)
  unfolding is_task_enabled_for_user get_users_with_enabled_task
  clash_parts_index stamp stamp' user task s given =
      let parts = around stamp stamp' task in
      let s' = run_trace R (by user parts) s in
      let named : (task == "") ≡ false = ground arith in
      let flag : enabled R laws s' user task ≡ true =
        enabled-trace R laws (by user parts) user task s
        ∙ ap (λ ps. flag_all ps task (enabled R laws s user task)) (own-by user parts)
        ∙ flag_around stamp stamp' task (enabled R laws s user task) in
      let entry : indexed R laws s' user task ≡ false =
        indexed-trace R laws (by user parts) user task s
        ∙ ap (λ ps. index_all ps task (indexed R laws s user task)) (own-by user parts)
        ∙ index_around stamp stamp' task (indexed R laws s user task) in
      (
        parts,
        around-Interleaves stamp stamp' task,
        rw given (ap ok flag),
        R.smembers (set_key (task_users task)) s',
        rw named refl,
        entry,
      )
