-- ===== src/UserStore/Keys.antt =====
-- internal/storage/user_store.go: keys of different users, tasks and kinds differ.
use Prim.Native.String.{count}
use text.Mathlib.TextLemmas.{
  append_cancel_left, append_cancel_right, append_assoc, append_inj, length-append,
}
use text.Mathlib.TextEquality.{eq_iff}
use taskqueue_go.Prelude.{
  ◌≡◌, ◌≢◌, ◌<>◌, ◌∙◌, sym, ap, refl, false, String, ◌==◌, arith, string_dec,
}
use taskqueue_go.UserStore.Commands.{
  hash_key, set_key, user_tasks, user_meta, user_settings, all_users, task_users,
}

-- Texts of one length that end equal texts are equal.
ends-eq : (p q a b : String) → count a ≡ count b → p <> a ≡ q <> b → a ≡ b
ends-eq p q a b same e =
    (append_inj e (omega (arith, length-append p a, length-append q b, ap count e))).1

user_tasks-ne-user_meta : (u v : String) → hash_key (user_tasks u) ≢ hash_key (user_meta v)
user_tasks-ne-user_meta u v e =
    let e' = append_cancel_left "taskqueue:users:" _ _ e in
    let same =
      ends-eq (u <> ":tas") (v <> ":me") "ks" "ta" refl
        (append_assoc u ":tas" "ks" ∙ e' ∙ sym (append_assoc v ":me" "ta")) in
    ground (arith, eq_iff "ks" "ta")

user_tasks-ne-user_settings : (u v : String) → hash_key (user_tasks u) ≢ hash_key (user_settings v)
user_tasks-ne-user_settings u v e =
    let e' = append_cancel_left "taskqueue:users:" _ _ e in
    let same =
      ends-eq (u <> ":tas") (v <> ":settin") "ks" "gs" refl
        (append_assoc u ":tas" "ks" ∙ e' ∙ sym (append_assoc v ":settin" "gs")) in
    ground (arith, eq_iff "ks" "gs")

task_users-ne-all_users : (t : String) → set_key (task_users t) ≢ set_key all_users
task_users-ne-all_users t e =
    let same = ends-eq ("taskqueue:tasks:" <> (t <> ":u")) "taskqueue:users" "sers" ":all" refl (
      append_assoc "taskqueue:tasks:" (t <> ":u") "sers"
      ∙ ap (λ x. "taskqueue:tasks:" <> x) (append_assoc t ":u" "sers")
      ∙ e) in
    ground (arith, eq_iff "sers" ":all")

user_tasks-inj : (u v : String) → hash_key (user_tasks u) ≡ hash_key (user_tasks v) → u ≡ v
user_tasks-inj u v e =
    append_cancel_right u v ":tasks" (append_cancel_left "taskqueue:users:" _ _ e)

task_users-inj : (t u : String) → set_key (task_users t) ≡ set_key (task_users u) → t ≡ u
task_users-inj t u e =
    append_cancel_right t u ":users" (append_cancel_left "taskqueue:tasks:" _ _ e)

tested : (x y u v : String) → (u ≡ v → x ≡ y) → (x ≡ y → u ≡ v) → (x == y) ≡ (u == v)
tested x y u v f g = elim (string_dec u v) [
  | yes same ↦ let h = f same in ground arith
  | no differ ↦ let h : x ≢ y = λ e. differ (g e) in ground arith
]

pub user_tasks-test :
    (u v : String) → (hash_key (user_tasks u) == hash_key (user_tasks v)) ≡ (u == v)
user_tasks-test u v = tested _ _ u v (ap (λ x. hash_key (user_tasks x))) (user_tasks-inj u v)

pub task_users-test : (t u : String) → (set_key (task_users t) == set_key (task_users u)) ≡ (t == u)
task_users-test t u = tested _ _ t u (ap (λ x. set_key (task_users x))) (task_users-inj t u)

pub user_tasks-user_meta-test :
    (u v : String) → (hash_key (user_tasks u) == hash_key (user_meta v)) ≡ false
user_tasks-user_meta-test u v = ground (arith, user_tasks-ne-user_meta u v)

pub task_users-all_users-test : (t : String) → (set_key (task_users t) == set_key all_users) ≡ false
task_users-all_users-test t = ground (arith, task_users-ne-all_users t)

pub user_tasks-user_settings-test :
    (u v : String) → (hash_key (user_tasks u) == hash_key (user_settings v)) ≡ false
user_tasks-user_settings-test u v = ground (arith, user_tasks-ne-user_settings u v)
