-- ===== src/UserStore/Refines.antt =====
-- internal/storage/user_store.go: over any sequence of calls the store answers as the table does.
use taskqueue_go.Prelude.{
  ◌≡◌, ◌∙◌, refl, sym, ap, subst, true, false, Option, none, some, List, [], ◌∷◌, String, ◌==◌,
  arith, string_dec, Result, ok, err,
}
use taskqueue_go.Prelude.Dict.{Dict}
use taskqueue_go.Models.User.{UserPreference, is_task_enabled, TaskSettings}
use taskqueue_go.UserStore.Commands.{
  hash_key, user_tasks, set_key, task_users, Redis, Formats, IsRedis, is_in,
}
use taskqueue_go.UserStore.{
  Exec, completed, broken, run_all, exec, empty_ids, enable_task_for_user, disable_task_for_user,
  is_task_enabled_for_user, get_users_with_enabled_task,
}
use taskqueue_go.UserStore.Preference.{
  get_user_preference, delete_user, save_user_preference, save_data, settings_data,
}
use taskqueue_go.UserStore.Index.{
  IsIndexed, enabled, indexed, enabled-enable, enabled-disable, enable_task_for_user-IsIndexed,
  disable_task_for_user-IsIndexed,
}
use taskqueue_go.UserStore.Deleted.{delete_user-IsIndexed, enabled-delete}
use taskqueue_go.UserStore.Saving.{enabled-save}
use taskqueue_go.UserStore.Saved.{
  save_user_preference-store, saved_by, save_user_preference-IsIndexed,
}
use taskqueue_go.UserStore.Spec.{
  Table, Op, enable, disable, delete, save, refused, apply, replay, Fits, AllFit,
}

-- The calls on the store.
module _ (F : Formats) (R : Redis) where
  unfoldable pub call : Exec → Op → R.State → R.State
  call x (enable stamp user task) s = (enable_task_for_user R x stamp user task s).1
  call x (disable stamp user task) s = (disable_task_for_user R x stamp user task s).1
  call x (delete now user) s = (delete_user F R none x now user s).1
  call x (save now pref) s = (save_user_preference F R x now pref s).2
  call x (refused e op) s = call (broken 0 e) op s

  unfoldable pub run_calls : List Op → R.State → R.State
  run_calls [] s = s
  run_calls (op ∷ ops) s = run_calls ops (call completed op s)

module _ (F : Formats) (R : Redis) where
  unsaved :
      (e : String) (pref : UserPreference) (d : Result (Dict String)) (s : R.State)
      → (save_data F R (broken 0 e) pref d s).1 ≡ s
  unfolding exec run_all
  unsaved e pref (ok d) s = refl
  unsaved e pref (err x) s = refl

  refused-call : (e : String) (op : Op) (s : R.State) → call F R (broken 0 e) op s ≡ s
  unfolding call enable_task_for_user disable_task_for_user delete_user get_user_preference
      save_user_preference exec run_all
  refused-call e (enable stamp user task) s = ground arith
  refused-call e (disable stamp user task) s = ground arith
  refused-call e (delete now user) s = ground arith
  refused-call e (save now pref) s =
      save_user_preference-store F R (broken 0 e) now pref s
      ∙ ground (
        arith,
        unsaved e (record pref { last_modified = now }) (settings_data F pref.task_settings) s,
      )
  refused-call e (refused e' op) s = refused-call e' op s

module _ (F : Formats)
    (writable : (x : TaskSettings) → (text : String) × (F.marshal_settings x ≡ ok text)) where
  settings_written :
      (m : Dict (Option TaskSettings)) → (d : Dict String) × (settings_data F m ≡ ok d)
  unfolding settings_data
  settings_written [] = ([], refl)
  settings_written ((t, none) ∷ m) = settings_written m
  settings_written ((t, some x) ∷ m) =
      let (text, e) = writable x in
      let (d, e') = settings_written m in ((t, text) ∷ d, rw (e, e') refl)

module _ (F : Formats) (R : Redis) (laws : IsRedis R)
    (writable : (x : TaskSettings) → (text : String) × (F.marshal_settings x ≡ ok text)) where
  -- The store holds the table: in the users' hashes, and in the index.
  pub record Holds (s : R.State) (f : Table) : Type 0 where
    pub wanted : (u t : String) → enabled R laws s u t ≡ f u t
    pub listed : (u t : String) → indexed R laws s u t ≡ f u t

  held :
      (s : R.State) (f : Table)
      → IsIndexed R laws s
      → ((u t : String) → enabled R laws s u t ≡ f u t)
      → Holds s f
  held s f h e = record { wanted = e; listed = λ u t. h.agree u t ∙ e u t }

  index_of : (s : R.State) (f : Table) → Holds s f → IsIndexed R laws s
  index_of s f h = record { agree = λ u t. h.listed u t ∙ sym (h.wanted u t) }

  call-Holds :
      (op : Op) (s : R.State) (f : Table)
      → Holds s f
      → Fits op f
      → Holds (call F R completed op s) (apply op f)
  unfolding call apply enable_task_for_user disable_task_for_user exec delete_user
      get_user_preference is_task_enabled
  call-Holds (enable stamp user task) s f h fits =
      held _ _ (enable_task_for_user-IsIndexed R laws stamp user task s (index_of s f h))
        (λ u t. ground (arith, h.wanted u t, enabled-enable R laws stamp user task u t s))
  call-Holds (disable stamp user task) s f h fits =
      held _ _ (disable_task_for_user-IsIndexed R laws stamp user task s (index_of s f h))
        (λ u t. ground (arith, h.wanted u t, enabled-disable R laws stamp user task u t s))
  call-Holds (delete now user) s f h fits =
      held _ _ (delete_user-IsIndexed F R laws now user s (index_of s f h)) (λ u t. ground (
        arith,
        h.wanted u t,
        enabled-delete F R laws user u t (R.hgetall (hash_key (user_tasks user)) s) s,
      ))
  call-Holds (save now pref) s f h (once, named) = elim (string_dec pref.user_id "") [
    | yes nobody ↦
        let unnamed : (pref.user_id == "") ≡ true = ground arith in
        rw (save_user_preference-store F R completed now pref s, unnamed) h
    | no given ↦
        let (d, written) = settings_written F writable pref.task_settings in
        let named_user : (pref.user_id == "") ≡ false = ground arith in
        held _ _
          (save_user_preference-IsIndexed F R laws now pref d s once written (index_of s f h)
            named_user (λ t e. h.wanted pref.user_id t ∙ named t e))
          (λ u t.
            rw (saved_by F R laws now pref d s once written named_user, named_user)
              (ground (
                arith,
                enabled-save F R laws (record pref { last_modified = now }) d u t s once,
                h.wanted u t,
              )))
  ]
  call-Holds (refused e op) s f h fits = subst (λ s'. Holds s' f) (sym (refused-call F R e op s)) h

  pub run_calls-Holds :
      (ops : List Op) (s : R.State) (f : Table)
      → Holds s f
      → AllFit ops f
      → Holds (run_calls F R ops s) (replay ops f)
  unfolding run_calls replay
  run_calls-Holds [] s f h fits = h
  run_calls-Holds (op ∷ ops) s f h (fit, fits) =
      run_calls-Holds ops (call F R completed op s) (apply op f) (call-Holds op s f h fit) fits

  -- The store refines the table: where it holds a table, then after any sequence of calls that
  -- enable, disable, delete and save, Redis carrying out all commands of a call or, where it is
  -- refused, none, IsTaskEnabledForUser and GetUsersWithEnabledTask answer as the table does after
  -- these calls. A preference that is saved has no task twice and names every task that its user
  -- wants, settings can be written, and no identifier is empty in a question.
  pub run_calls_refines :
      (ops : List Op) (s : R.State) (f : Table) (u t : String)
      → Holds s f
      → AllFit ops f
      → empty_ids u t ≡ false
      → (is_task_enabled_for_user R none u t (run_calls F R ops s) ≡ ok (replay ops f u t))
        × (users : List String) × (get_users_with_enabled_task R none t (run_calls F R ops s)
            ≡ ok users)
        × (is_in u users ≡ replay ops f u t)
  unfolding is_task_enabled_for_user get_users_with_enabled_task
  run_calls_refines ops s f u t h fits asked =
      let after = run_calls-Holds ops s f h fits in
      let named : (t == "") ≡ false = ground arith in
      (
        rw asked (ap ok (after.wanted u t)),
        R.smembers (set_key (task_users t)) (run_calls F R ops s),
        rw named refl,
        after.listed u t,
      )
