-- ===== src/UserStore/Spec.antt =====
-- internal/storage/user_store.go: what the store promises, with no Redis in it: a table of which
-- user wants which task, and what a call that changes the store does to the table.
use taskqueue_go.Prelude.{
  ◌≡◌, Bool, true, false, none, List, [], ◌∷◌, String, if◌then◌else◌, ◌==◌, ◌&&◌,
}
use taskqueue_go.Prelude.Dict.{lookup, NodupKeys}
use taskqueue_go.GoTime.{Time}
use taskqueue_go.Models.User.{UserPreference, is_task_enabled}
use taskqueue_go.UserStore.{empty_ids}

abbrev pub Table : Type 0
Table = String → String → Bool

-- A call with the clock's reading, as text or as Time. A call that is `refused` reaches a Redis that
-- fails before any command is carried out.
pub data Op : Type 0 where
  enable disable : String → String → String → Op  -- stamp, user, task
  delete : Time → String → Op
  save : Time → UserPreference → Op
  refused : String → Op → Op  -- the error

abbrev pub set_entry : String → String → Bool → Table → Table
set_entry user task b f u t = if u == user && t == task then b else f u t

-- A call with an empty identifier changes nothing.
unfoldable pub apply : Op → Table → Table
apply (enable stamp user task) f = if empty_ids user task then f else set_entry user task true f
apply (disable stamp user task) f = if empty_ids user task then f else set_entry user task false f
apply (delete now user) f = if user == "" then f else (λ u t. if u == user then false else f u t)
apply (save now pref) f =
    if pref.user_id == ""
    then f
    else (λ u t. if u == pref.user_id then is_task_enabled pref t else f u t)
apply (refused e op) f = f

-- A preference that is saved has no task twice and names every task that its user wants.
abbrev pub Fits : Op → Table → Type 0
Fits (save now pref) f =
    NodupKeys pref.enabled_tasks
    × ((t : String) → lookup t pref.enabled_tasks ≡ none → f pref.user_id t ≡ false)
Fits _ f = Unit {0}

unfoldable pub replay : List Op → Table → Table
replay [] f = f
replay (op ∷ ops) f = replay ops (apply op f)

abbrev pub AllFit : List Op → Table → Type 0
AllFit [] f = Unit {0}
AllFit (op ∷ ops) f = Fits op f × AllFit ops (apply op f)
