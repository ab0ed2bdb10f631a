-- ===== src/UserStore/Saved.antt =====
-- internal/storage/user_store.go: what SaveUserPreference leaves, and what the index keeps of the
-- tasks that a preference no longer names.
use taskqueue_go.Prelude.{
  ◌≡◌, ◌∙◌, subst, refl, sym, true, false, none, List, String, ◌==◌, arith, if◌then◌else◌, ok,
}
use taskqueue_go.Prelude.Dict.{Dict, lookup, NodupKeys}
use taskqueue_go.GoTime.{Time}
use taskqueue_go.Models.User.{UserPreference, is_task_enabled}
use taskqueue_go.UserStore.Commands.{Redis, Formats, IsRedis, is_in}
use taskqueue_go.UserStore.{
  Exec, completed, empty_ids, run_all, exec, is_task_enabled_for_user, get_users_with_enabled_task,
}
use taskqueue_go.UserStore.Preference.{
  save_commands, save_data, settings_data, save_user_preference,
}
use taskqueue_go.UserStore.Index.{IsIndexed, indexed, enabled}
use taskqueue_go.UserStore.Saving.{indexed-save, enabled-save}

-- What SaveUserPreference leaves of the store.
pub save_user_preference-store :
    (F : Formats) (R : Redis) (x : Exec) (now : Time) (pref : UserPreference) (s : R.State)
    → (save_user_preference F R x now pref s).2 ≡ (
        if pref.user_id == ""
        then s
        else (save_data F R x
            (record pref { last_modified = now })
            (settings_data F pref.task_settings)
            s).1)
unfolding save_user_preference
save_user_preference-store F R x now pref s = ground arith

module _ (F : Formats) (R : Redis) (laws : IsRedis R) where
  module _ (now : Time) (pref : UserPreference) (settings : Dict String) (s : R.State)
      (once : NodupKeys pref.enabled_tasks)
      (written : settings_data F pref.task_settings ≡ ok settings) where
    abbrev pub saved : R.State
    saved = (save_user_preference F R completed now pref s).2

    pub saved_by :
        (pref.user_id == "") ≡ false
        → saved ≡ run_all R (save_commands F (record pref { last_modified = now }) settings) s
    unfolding save_user_preference exec
    saved_by given = save_user_preference-store F R completed now pref s ∙ rw (given, written) refl

    -- If a preference's settings can be written and Redis carries out all commands, then after
    -- SaveUserPreference IsTaskEnabledForUser answers for the preference's user as the preference
    -- does, and for all others as before. No identifier is empty, and no task stands twice.
    pub is_task_enabled_for_user-save_user_preference :
        (u t : String)
        → (pref.user_id == "") ≡ false
        → empty_ids u t ≡ false
        → is_task_enabled_for_user R none u t saved ≡ (
            if u == pref.user_id
            then ok (is_task_enabled pref t)
            else is_task_enabled_for_user R none u t s)
    unfolding is_task_enabled_for_user is_task_enabled
    is_task_enabled_for_user-save_user_preference u t given asked =
        rw (saved_by given, asked)
          (ground (
            arith,
            enabled-save F R laws (record pref { last_modified = now }) settings u t s once,
          ))

    -- If the index agrees with the users' hashes, and a preference names every task that its user
    -- has enabled, then the index agrees with them after SaveUserPreference. The settings can be
    -- written, the user's identifier is not empty, no task stands twice, and Redis carries out
    -- all commands.
    pub save_user_preference-IsIndexed :
        IsIndexed R laws s
        → (pref.user_id == "") ≡ false
        → ((t : String)
            → lookup t pref.enabled_tasks ≡ none
            → enabled R laws s pref.user_id t ≡ false)
        → IsIndexed R laws saved
    unfolding is_task_enabled
    save_user_preference-IsIndexed h given named =
        subst (IsIndexed R laws) (sym (saved_by given)) (record {
          agree = λ u t. ground (
            arith,
            h.agree u t,
            named t,
            indexed-save F R laws (record pref { last_modified = now }) settings u t s once,
            enabled-save F R laws (record pref { last_modified = now }) settings u t s once,
          );
        })

    -- A user who stands in the index of a task that the saved preference does not name stays there
    -- after SaveUserPreference, though IsTaskEnabledForUser then says no. The settings can be
    -- written, no identifier is empty, no task stands twice, and Redis carries out all commands.
    pub save_user_preference_stale :
        (t : String)
        → empty_ids pref.user_id t ≡ false
        → indexed R laws s pref.user_id t ≡ true
        → lookup t pref.enabled_tasks ≡ none
        → ((users : List String) × (get_users_with_enabled_task R none t saved ≡ ok users)
            × (is_in pref.user_id users ≡ true))
          × (is_task_enabled_for_user R none pref.user_id t saved ≡ ok false)
    unfolding is_task_enabled is_task_enabled_for_user get_users_with_enabled_task
    save_user_preference_stale t asked listed unnamed =
        let given : (pref.user_id == "") ≡ false = ground arith in
        let nonempty : (t == "") ≡ false = ground arith in
        let pref' : UserPreference = record pref { last_modified = now } in
        let stays = indexed-save F R laws pref' settings pref.user_id t s once in
        let off = enabled-save F R laws pref' settings pref.user_id t s once in
        rw (saved_by given, given, nonempty)
          ((_, refl, ground (arith, unnamed, listed, stays)), ground (arith, unnamed, off))
