-- ===== src/UserStore/Preference.antt =====
-- internal/storage/user_store.go: a whole preference is read, saved and deleted.
use taskqueue_go.Prelude.{
  ◌<>◌, Bool, true, false, Option, none, some, List, [], ◌∷◌, ◌++◌, String, if◌then◌else◌, ◌==◌,
  Result, ok, err, ◌>>=◌, wrap, Failure,
}
use taskqueue_go.Prelude.Dict.{Dict, lookup}
use taskqueue_go.GoTime.{Time}
use taskqueue_go.Models.User.{UserPreference, TaskSettings}
use taskqueue_go.UserStore.Commands.{
  Redis, Formats, Command, hmset, del, sadd, srem, hash_key, user_tasks, user_settings, user_meta,
  set_key, all_users, task_users,
}
use taskqueue_go.UserStore.{Exec, exec, fail_with, is_one}

abbrev pub flag_text : Bool → String
flag_text true = "1"
flag_text false = "0"

-- The hash of the tasks, and back.
unfoldable pub tasks_data : Dict Bool → Dict String
tasks_data [] = []
tasks_data ((task_id, enabled) ∷ tasks) = (task_id, flag_text enabled) ∷ tasks_data tasks

unfoldable pub parse_tasks : Dict String → Dict Bool
parse_tasks [] = []
parse_tasks ((task_id, text) ∷ tasks) = (task_id, is_one (some text)) ∷ parse_tasks tasks

abbrev pub hmset_unless_empty : String → Dict String → List Command
hmset_unless_empty key [] = []
hmset_unless_empty key (x ∷ m) = hmset key (x ∷ m) ∷ []

-- The commands that put a user into the index of its tasks, or take it out.
unfoldable pub index_commands : String → Dict Bool → List Command
index_commands user_id [] = []
index_commands user_id ((task_id, true) ∷ tasks) =
    sadd (set_key (task_users task_id)) user_id ∷ index_commands user_id tasks
index_commands user_id ((task_id, false) ∷ tasks) =
    srem (set_key (task_users task_id)) user_id ∷ index_commands user_id tasks

unfoldable pub unindex_commands : String → Dict Bool → List Command
unindex_commands user_id [] = []
unindex_commands user_id ((task_id, enabled) ∷ tasks) =
    srem (set_key (task_users task_id)) user_id ∷ unindex_commands user_id tasks

abbrev parsed_or : Time → Option Time → Time
parsed_or now none = now
parsed_or now (some t) = t

module _ (F : Formats) where
  -- A text that does not parse is logged and passed over.
  abbrev pub add_settings :
      String → Option TaskSettings → Dict (Option TaskSettings) → Dict (Option TaskSettings)
  add_settings task_id none rest = rest
  add_settings task_id (some settings) rest = (task_id, some settings) ∷ rest

  unfoldable pub parse_settings : Dict String → Dict (Option TaskSettings)
  parse_settings [] = []
  parse_settings ((task_id, text) ∷ data') =
      add_settings task_id (F.unmarshal_settings text) (parse_settings data')

  abbrev last_modified_of : Time → Option String → Time
  last_modified_of now none = now
  last_modified_of now (some text) = parsed_or now (F.parse_time text)

  -- Settings that are nil are left out; the first that cannot be written ends the loop.
  unfoldable pub settings_data : Dict (Option TaskSettings) → Result (Dict String)
  settings_data [] = ok []
  settings_data ((task_id, none) ∷ rest) = settings_data rest
  settings_data ((task_id, some settings) ∷ rest) = do
    text ←
        wrap (λ e. "failed to marshal settings for task " <> (task_id <> (": " <> e)))
          (F.marshal_settings settings)
    more ← settings_data rest
    ok ((task_id, text) ∷ more)

  -- The pipeline of SaveUserPreference.
  unfoldable pub save_commands : UserPreference → Dict String → List Command
  save_commands pref settings =
      (del (hash_key (user_tasks pref.user_id) ∷ hash_key (user_settings pref.user_id) ∷ [])
        ∷ hmset_unless_empty (hash_key (user_tasks pref.user_id)) (tasks_data pref.enabled_tasks))
      ++ (hmset_unless_empty (hash_key (user_settings pref.user_id)) settings
          ++ (hmset (hash_key (user_meta pref.user_id))
                (("last_modified", F.format_time pref.last_modified) ∷ [])
              ∷ sadd (set_key all_users) pref.user_id
              ∷ index_commands pref.user_id pref.enabled_tasks))

  module _ (R : Redis) where
    -- GetUserPreference at the clock's reading `now`; `call` is the error of the pipeline, if any.
    unfoldable pub get_user_preference : Failure → Time → String → R.State → Result UserPreference
    get_user_preference call now user_id s =
        let tasks = R.hgetall (hash_key (user_tasks user_id)) s in
        let settings = R.hgetall (hash_key (user_settings user_id)) s in
        let meta = R.hgetall (hash_key (user_meta user_id)) s in
        let pref : UserPreference = record {
          user_id = user_id;
          enabled_tasks = parse_tasks tasks;
          task_settings = parse_settings settings;
          last_modified = last_modified_of now (lookup "last_modified" meta);
        } in
        if user_id == ""
        then err "user ID cannot be empty"
        else elim call [ none ↦ ok pref | some e ↦ err ("failed to get user preference: " <> e) ]

    abbrev pub save_data :
        Exec → UserPreference → Result (Dict String) → R.State → Failure × R.State
    save_data x pref (err e) s = (some e, s)
    save_data x pref (ok settings) s = exec R x (save_commands pref settings) s

    -- SaveUserPreference: its error, the caller's preference as it leaves it, and the store.
    unfoldable pub save_user_preference :
        Exec → Time → UserPreference → R.State → Failure × UserPreference × R.State
    save_user_preference x now pref s =
        let pref' = record pref { last_modified = now } in
        let (failure, s') = save_data x pref' (settings_data pref'.task_settings) s in
        if pref.user_id == ""
        then (some "user ID cannot be empty", pref, s)
        else (fail_with "failed to save user preference: " failure, pref', s')

    -- The pipeline of DeleteUser.
    abbrev pub delete_commands : String → Dict Bool → List Command
    delete_commands user_id tasks =
        del (
          hash_key (user_tasks user_id)
          ∷ hash_key (user_settings user_id)
          ∷ hash_key (user_meta user_id)
          ∷ [])
        ∷ srem (set_key all_users) user_id
        ∷ unindex_commands user_id tasks

    -- Every error of the read, also one of Redis, counts as a user that does not exist.
    abbrev pub delete_found : Exec → String → Result UserPreference → R.State → Failure × R.State
    delete_found x user_id (err e) s = (none, s)
    delete_found x user_id (ok pref) s =
        let (failure, s') = exec R x (delete_commands user_id pref.enabled_tasks) s in
        (fail_with "failed to delete user: " failure, s')

    unfoldable pub delete_user : Failure → Exec → Time → String → R.State → Failure × R.State
    delete_user call x now user_id s =
        if user_id == ""
        then (some "user ID cannot be empty", s)
        else delete_found x user_id (get_user_preference call now user_id s) s
