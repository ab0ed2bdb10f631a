-- ===== src/Cmd/TestUserstore/Returns.antt =====
-- cmd/test-userstore/main.go: the program comes to its last line.
use mathlib.Core.List.{Mem, mem-cons_of_mem, mem-append_right, mem-append_left}
use taskqueue_go.Prelude.{
  ◌≡◌, ◌∙◌, refl, sym, subst, Option, none, some, List, [], ◌∷◌, String, Failure, arith, string_dec,
}
use taskqueue_go.Prelude.Dict.{Dict, lookup}
use taskqueue_go.GoTime.{Time}
use taskqueue_go.Models.User.{TaskSettings}
use taskqueue_go.UserStore.Commands.{Redis, Formats, hash_key, user_settings}
use taskqueue_go.UserStore.Preference.{
  get_user_preference, save_user_preference, parse_settings, add_settings,
}
use taskqueue_go.Cmd.{ready}
use taskqueue_go.Cmd.TestUserstore.{
  Answers, Line, users, custom_user, enable_users, demo, main, concluded, detail_lines,
  settings_lines, query_lines, before_details, user_to_inspect,
}

module _ (F : Formats) (R : Redis) where
  -- Settings that can be told.
  abbrev Told : Option (Option TaskSettings) → Type 0
  Told settings = (lines : List Line) × (settings_lines settings ≡ some lines)

  add_settings-Told :
      (t j : String) (settings : Option TaskSettings) (rest : Dict (Option TaskSettings))
      → Told (lookup t rest)
      → Told (lookup t (add_settings F j settings rest))
  unfolding lookup
  add_settings-Told t j none rest h = h
  add_settings-Told t j (some settings) rest h = elim (string_dec t j) [
    | yes same ↦
        let found : lookup t ((j, some settings) ∷ rest) ≡ some (some settings) = ground arith in
        subst Told (sym found) (_, refl)
    | no other ↦
        let later : lookup t ((j, some settings) ∷ rest) ≡ lookup t rest = ground arith in
        subst Told (sym later) h
  ]

  -- A preference that is read has no settings that are nil.
  parse_settings-Told : (t : String) (m : Dict String) → Told (lookup t (parse_settings F m))
  unfolding parse_settings lookup
  parse_settings-Told t [] = ([], refl)
  parse_settings-Told t ((j, text) ∷ m) =
      add_settings-Told t j (F.unmarshal_settings text) (parse_settings F m)
        (parse_settings-Told t m)

  detail_lines-told :
      (call : Failure) (now : Time) (s : R.State)
      → (lines : List Line) × (detail_lines F (get_user_preference F R call now user_to_inspect s)
          ≡ some lines)
  unfolding detail_lines get_user_preference string_dec
  detail_lines-told none now s =
      let (lines, e) =
        parse_settings-Told "daily_user_report"
          (R.hgetall (hash_key (user_settings user_to_inspect)) s) in
      rw e (_, refl)
  detail_lines-told (some e) now s = (_, refl)

module _ (F : Formats) (R : Redis) (a : Answers) where
  -- What Redis holds after the users are set up.
  abbrev pub state_after : R.State → R.State
  state_after s =
      (save_user_preference F R a.saving a.save_time custom_user (enable_users F R a users s).1).2

  pub connected_main : (s : R.State) → a.ping ≡ none → main F R a s ≡ demo F R a s
  unfolding main
  connected_main s answers = rw answers refl

  concluded-ready :
      (before : List Line) (more : Option (List Line)) (s : R.State)
      → (lines : List Line) × (more ≡ some lines)
      → (lines : List Line) × (concluded F R a before more s ≡ ready (lines, s))
        × ((l : Line) → Mem l before → Mem l lines)
  concluded-ready before none s (lines, e) = absurd (ground arith)
  concluded-ready before (some more) s (lines, e) = (_, refl, λ l m. mem-append_left _ m)

  mem-before_details :
      (set : List Line) (failure : Failure) (queries : List Line) (l : Line)
      → Mem l queries
      → Mem l (before_details F R a set failure queries)
  mem-before_details set failure queries l m = mem-cons_of_mem _ (
      mem-cons_of_mem _ (
        mem-append_right set
          (mem-cons_of_mem _ (mem-cons_of_mem _ (mem-cons_of_mem _ (mem-append_left _ m))))))

  pub demo-ready :
      (s : R.State)
      → (lines : List Line) × (demo F R a s ≡ ready (lines, state_after s))
        × ((l : Line) → Mem l (query_lines F R a (state_after s)) → Mem l lines)
  unfolding demo
  demo-ready s =
      let (set, s') = enable_users F R a users s in
      let failure = (save_user_preference F R a.saving a.save_time custom_user s').0 in
      let queries = query_lines F R a (state_after s) in
      let (lines, e, kept) =
        concluded-ready (before_details F R a set failure queries) _ (state_after s)
          (detail_lines-told F R a.inspecting a.inspect_time (state_after s)) in
      (lines, e, λ l m. kept l (mem-before_details set failure queries l m))

  -- If Redis answers the first call, then main comes to its last line, whatever happens to the calls
  -- after it.
  pub main-returns :
      (s : R.State)
      → a.ping ≡ none
      → (lines : List Line) × (s' : R.State) × (main F R a s ≡ ready (lines, s'))
  main-returns s answers =
      let (lines, e, _) = demo-ready s in (lines, state_after s, connected_main s answers ∙ e)
