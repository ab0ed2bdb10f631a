-- ===== src/UserStore/Pattern/Search.antt =====
-- internal/storage/user_store.go: GetUsersByTaskPattern.
use taskqueue_go.Prelude.{
  ◌≡◌, ◌↔◌, refl, subst, Bool, true, false, ◌&&◌, none, List, [], ◌∷◌, String, if◌then◌else◌, ◌==◌,
  arith, string_dec, Result, ok, err, Failure, Bool-cases, inl, inr,
}
use taskqueue_go.Prelude.Dict.{Dict, lookup, NodupKeys}
use taskqueue_go.GoTime.{Time}
use taskqueue_go.Models.User.{UserPreference}
use taskqueue_go.UserStore.Commands.{
  Redis, Formats, IsRedis, is_in, hash_key, user_tasks, set_key, all_users,
}
use taskqueue_go.UserStore.{get_all_users, is_one}
use taskqueue_go.UserStore.Preference.{get_user_preference, parse_tasks}
use taskqueue_go.UserStore.Index.{enabled}
use taskqueue_go.UserStore.Pattern.{codes, matches_pattern}

-- The inner loop: some task that is enabled matches.
unfoldable pub any_matches : String → Dict Bool → Bool
any_matches pattern' [] = false
any_matches pattern' ((task_id, enabled) ∷ tasks) =
    if enabled && matches_pattern (codes task_id) (codes pattern')
    then true
    else any_matches pattern' tasks

abbrev matching : String → Result UserPreference → Bool
matching pattern' (err e) = false
matching pattern' (ok pref) = any_matches pattern' pref.enabled_tasks

module _ (F : Formats) (R : Redis) where
  -- The outer loop. `call` gives the error, if any, of reading a user's preference, which the loop
  -- passes over.
  unfoldable pub matching_users :
      (String → Failure) → Time → String → List String → R.State → List String
  matching_users call now pattern' [] s = []
  matching_users call now pattern' (user_id ∷ users) s =
      let rest = matching_users call now pattern' users s in
      if matching pattern' (get_user_preference F R (call user_id) now user_id s)
      then user_id ∷ rest
      else rest

  abbrev search :
      (String → Failure) → Time → String → Result (List String) → R.State → Result (List String)
  search call now pattern' (err e) s = err e
  search call now pattern' (ok users) s = ok (matching_users call now pattern' users s)

  unfoldable pub get_users_by_task_pattern :
      Failure → (String → Failure) → Time → String → R.State → Result (List String)
  get_users_by_task_pattern all call now pattern' s =
      search call now pattern' (get_all_users R all s) s

-- A task of the table that is on, and matches.
abbrev pub Wants : String → Dict String → Type 0
Wants pattern' m =
    (t : String) × (is_one (lookup t m) ≡ true)
    × (matches_pattern (codes t) (codes pattern') ≡ true)

any_matches_iff :
    (pattern' : String) (m : Dict String)
    → NodupKeys m
    → (any_matches pattern' (parse_tasks m) ≡ true) ↔ Wants pattern' m
unfolding any_matches parse_tasks lookup
any_matches_iff pattern' [] u = (λ h. cc, λ (t, h, g). cc)
any_matches_iff pattern' ((j, text) ∷ m) (fresh, u) =
    let (f, g) = any_matches_iff pattern' m u in
    (
      λ h. elim (Bool-cases (text == "1" && matches_pattern (codes j) (codes pattern'))) [
        | inl first ↦ (j, ground arith, ground arith)
        | inr later ↦ let (t, on, hit) = f (ground arith) in (t, ground (arith, fresh), hit)
      ],
      λ (t, on, hit). elim (string_dec t j) [
        | yes same ↦ let here : t ≡ j = same in ground arith
        | no other ↦
            let rest : is_one (lookup t m) ≡ true = ground arith in ground (arith, g (t, rest, hit))
      ],
    )

module _ (F : Formats) (R : Redis) (laws : IsRedis R) (now : Time) (pattern' : String)
    (s : R.State) where
  is_in-matching_users :
      (users : List String) (u : String)
      → is_in u (matching_users F R (λ id. none) now pattern' users s)
        ≡ (is_in u users && matching pattern' (get_user_preference F R none now u s))
  unfolding matching_users
  is_in-matching_users [] u = refl
  is_in-matching_users (v ∷ users) u = elim (string_dec u v) [
    | yes same ↦
        subst
          (λ w.
            is_in u (matching_users F R (λ id. none) now pattern' (w ∷ users) s)
            ≡ (is_in u (w ∷ users) && matching pattern' (get_user_preference F R none now u s)))
          same (ground (arith, is_in-matching_users users u))
    | no other ↦ ground (arith, is_in-matching_users users u)
  ]

  matching-any_matches :
      (u : String)
      → (u == "") ≡ false
      → matching pattern' (get_user_preference F R none now u s)
        ≡ any_matches pattern' (parse_tasks (R.hgetall (hash_key (user_tasks u)) s))
  unfolding get_user_preference
  matching-any_matches u given = rw given refl

  -- If Redis answers, then GetUsersByTaskPattern lists a user exactly when the user is known and a
  -- task whose identifier matches the pattern is enabled for the user. The user's identifier is not
  -- empty, and no task stands twice in what HGETALL gives.
  pub get_users_by_task_pattern_iff :
      (u : String) (users : List String)
      → (u == "") ≡ false
      → NodupKeys (R.hgetall (hash_key (user_tasks u)) s)
      → get_users_by_task_pattern F R none (λ id. none) now pattern' s ≡ ok users
      → (is_in u users ≡ true) ↔ (
          (is_in u (R.smembers (set_key all_users) s) ≡ true)
          × (t : String) × (enabled R laws s u t ≡ true)
          × (matches_pattern (codes t) (codes pattern') ≡ true))
  unfolding get_users_by_task_pattern get_all_users
  get_users_by_task_pattern_iff u users given unique e =
      let found : matching_users F R (λ id. none) now pattern' (R.smembers (set_key all_users) s) s
          ≡ users =
        ground arith in
      let filtered = is_in-matching_users (R.smembers (set_key all_users) s) u in
      let read = matching-any_matches u given in
      let (f, g) = any_matches_iff pattern' (R.hgetall (hash_key (user_tasks u)) s) unique in
      (
        λ h.
            let (t, on, hit) = f (ground arith) in
            (ground arith, t, ground (arith, laws.lookup-hgetall (user_tasks u) t s), hit),
        λ (known, t, on, hit).
            let wanted = g (t, ground (arith, laws.lookup-hgetall (user_tasks u) t s), hit) in
            ground arith,
      )
