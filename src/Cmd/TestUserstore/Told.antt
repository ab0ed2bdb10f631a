-- ===== src/Cmd/TestUserstore/Told.antt =====
-- cmd/test-userstore/main.go: what the program leaves in the store, and what it tells of it.
use mathlib.Core.List.{Mem, mem-cons_self, mem-cons_of_mem}
use taskqueue_go.Prelude.{
  ◌≡◌, ◌∙◌, refl, ap, true, false, none, List, [], ◌∷◌, ◌++◌, String, if◌then◌else◌, ok, arith,
  string_dec,
}
use taskqueue_go.Prelude.Dict.{lookup}
use taskqueue_go.Models.User.{TaskSettings, is_task_enabled}
use taskqueue_go.UserStore.Commands.{Redis, Formats, IsRedis, is_in, set_key, task_users}
use taskqueue_go.UserStore.{completed, get_users_with_enabled_task}
use taskqueue_go.UserStore.Preference.{save_user_preference}
use taskqueue_go.UserStore.Spec.{Table, Op, enable, save, apply, replay, AllFit}
use taskqueue_go.UserStore.Refines.{Holds, call, run_calls, run_calls-Holds}
use taskqueue_go.Cmd.{ready}
use taskqueue_go.Cmd.TestUserstore.Returns.{state_after, connected_main, demo-ready}
use taskqueue_go.Cmd.TestUserstore.{
  Answers, Line, users_with_task, users, custom_user, enable_tasks, enable_users, main, query_lines,
  task_to_check,
}

module _ (F : Formats) (R : Redis) where
  run_calls-append :
      (ops more : List Op) (s : R.State)
      → run_calls F R (ops ++ more) s ≡ run_calls F R more (run_calls F R ops s)
  unfolding run_calls
  run_calls-append [] more s = refl
  run_calls-append (op ∷ ops) more s = run_calls-append ops more (call F R completed op s)

module _ (F : Formats) (R : Redis) (a : Answers) where
  -- The calls that the program makes of the store's operations that change it.
  abbrev pub enabling_ops : String → List String → List Op
  enabling_ops user [] = []
  enabling_ops user (t ∷ tasks) = enable (a.stamp user t) user t ∷ enabling_ops user tasks

  abbrev pub users_ops : List (String × List String) → List Op
  users_ops [] = []
  users_ops ((user, tasks) ∷ others) = enabling_ops user tasks ++ users_ops others

  abbrev pub demo_ops : List Op
  demo_ops = users_ops users ++ (save a.save_time custom_user ∷ [])

  module _ (enables : (u t : String) → a.enabling u t ≡ completed) where
    enable_tasks-store :
        (user : String) (tasks : List String) (s : R.State)
        → (enable_tasks F R a user tasks s).1 ≡ run_calls F R (enabling_ops user tasks) s
    unfolding enable_tasks run_calls call
    enable_tasks-store user [] s = refl
    enable_tasks-store user (t ∷ tasks) s = rw (enable_tasks-store user tasks, enables user t) refl

    enable_users-store :
        (us : List (String × List String)) (s : R.State)
        → (enable_users F R a us s).1 ≡ run_calls F R (users_ops us) s
    unfolding enable_users run_calls
    enable_users-store [] s = refl
    enable_users-store ((user, tasks) ∷ others) s =
        rw
          (
            enable_users-store others,
            enable_tasks-store user tasks,
            run_calls-append F R (enabling_ops user tasks),
          )
          refl

module _ (F : Formats) (R : Redis) (a : Answers) (laws : IsRedis R)
    (writable : (x : TaskSettings) → (text : String) × (F.marshal_settings x ≡ ok text))
    (enables : (u t : String) → a.enabling u t ≡ completed) (saves : a.saving ≡ completed) where
  state_after-store : (s : R.State) → state_after F R a s ≡ run_calls F R (demo_ops F R a) s
  unfolding run_calls call
  state_after-store s =
      ap (λ s'. (save_user_preference F R a.saving a.save_time custom_user s').2)
        (enable_users-store F R a enables users s)
      ∙ ap
          (λ x.
            (save_user_preference F R x a.save_time custom_user
              (run_calls F R (users_ops F R a users) s)).2)
          saves

  demo_ops-fit :
      (f : Table)
      → ((t : String) → lookup t custom_user.enabled_tasks ≡ none → f custom_user.user_id t ≡ false)
      → AllFit (demo_ops F R a) f
  unfolding apply lookup string_dec
  demo_ops-fit f named =
      (tt, (tt, (tt, (tt, (tt, (tt, (tt, (tt, (((refl, (refl, (refl, tt))), named), tt)))))))))

  told :
      (f : Table) (u : String)
      → replay (demo_ops F R a) f u task_to_check
        ≡ (if is_in u ("user1" ∷ "user2" ∷ "premium_user" ∷ []) then true else f u task_to_check)
  unfolding replay apply string_dec lookup is_task_enabled
  told f u = ground arith

  users_line :
      (s : R.State)
      → a.listing ≡ none
      → Mem
          (users_with_task task_to_check (R.smembers (set_key (task_users task_to_check)) s))
          (query_lines F R a s)
  unfolding query_lines get_users_with_enabled_task string_dec
  users_line s listed = rw listed (mem-cons_of_mem _ mem-cons_self)

  -- If Redis carries out and answers all calls, where the store holds a table of wanted tasks before,
  -- then the program logs the users who want daily_user_report: user1, user2 and premium_user, and
  -- those who did before. The tasks that premium_user wanted before are among those that the program
  -- saves for it, and settings can be written.
  pub main_lists :
      (s : R.State) (f : Table) (u : String)
      → a.ping ≡ none
      → a.listing ≡ none
      → Holds F R laws writable s f
      → ((t : String) → lookup t custom_user.enabled_tasks ≡ none → f custom_user.user_id t ≡ false)
      → (lines : List Line) × (s' : R.State) × (main F R a s ≡ ready (lines, s'))
        × (listed : List String) × Mem (users_with_task task_to_check listed) lines
        × (is_in u listed ≡ (
            if is_in u ("user1" ∷ "user2" ∷ "premium_user" ∷ []) then true else f u task_to_check))
  main_lists s f u answers listed h named =
      let (lines, e, kept) = demo-ready F R a s in
      let after : Holds F R laws writable (state_after F R a s) (replay (demo_ops F R a) f) =
        rw (state_after-store s)
          (run_calls-Holds F R laws writable (demo_ops F R a) s f h (demo_ops-fit f named)) in
      (
        lines,
        state_after F R a s,
        connected_main F R a s answers ∙ e,
        R.smembers (set_key (task_users task_to_check)) (state_after F R a s),
        kept _ (users_line (state_after F R a s) listed),
        after.listed u task_to_check ∙ told f u,
      )
