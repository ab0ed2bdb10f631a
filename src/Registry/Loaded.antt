-- ===== src/Registry/Loaded.antt =====
-- internal/storage/registry.go: what a registry holds after LoadFromFile.
use taskqueue_go.Prelude.{
  ◌≡◌, refl, sym, subst, Option, none, some, List, [], ◌∷◌, String, Result, ok, err, arith,
  >>=-eq-ok, wrap-eq-ok, string_dec, ◌==◌, if◌then◌else◌, Bool, true, false,
}
use taskqueue_go.Prelude.Dict.{Dict, lookup, insert, lookup-insert, lookup-nil}
use taskqueue_go.Models.Task.{TaskType}
use taskqueue_go.Registry.Definition.{TaskDefinition, to_task}
use taskqueue_go.Registry.Validate.{validate_task}
use taskqueue_go.Registry.Valid.{IsValidTask, validate_task-IsValidTask}
use taskqueue_go.Registry.Kept.{IsKept, validate_task-IsKept}
use taskqueue_go.Registry.{TaskRegistry, store_tasks, load_from_file, get, read_tasks, with_tasks}

-- Each task is valid and stands under its own identifier, and no identifier stands twice.
abbrev pub AllValid : Dict TaskType → Type 0
AllValid [] = Unit {0}
AllValid ((id, t) ∷ tasks) = IsValidTask t × (id ≡ t.id) × (lookup id tasks ≡ none) × AllValid tasks

pub record IsSound (r : TaskRegistry) : Type 0 where
  pub all_valid : AllValid r.tasks

insert-AllValid :
    (t : TaskType) (tasks : Dict TaskType)
    → IsValidTask t
    → AllValid tasks
    → AllValid (insert t.id t tasks)
unfolding insert
insert-AllValid t [] v all = (v, refl, lookup-nil t.id, tt)
insert-AllValid t ((j, u) ∷ tasks) v (w, same, fresh, all) =
    ground (arith, insert-AllValid t tasks v all, lookup-insert j t.id t tasks)

store_nil : (tasks m : Dict TaskType) → store_tasks [] tasks ≡ ok m → tasks ≡ m
unfolding store_tasks
store_nil tasks m e = ground arith

store_step :
    (def : TaskDefinition) (defs : List TaskDefinition) (tasks m : Dict TaskType)
    → store_tasks (def ∷ defs) tasks ≡ ok m
    → (u : TaskType) × (validate_task (to_task def) ≡ ok u)
      × (store_tasks defs (insert u.id u tasks) ≡ ok m)
unfolding store_tasks
store_step def defs tasks m e = split _ refl e
  where
    split :
        (r : Result TaskType)
        → validate_task (to_task def) ≡ r
        → store_tasks (def ∷ defs) tasks ≡ ok m
        → (u : TaskType) × (validate_task (to_task def) ≡ ok u)
          × (store_tasks defs (insert u.id u tasks) ≡ ok m)
    split (ok u) same stored = (u, same, ground arith)
    split (err x) same stored = absurd (ground arith)

store_tasks-AllValid :
    (defs : List TaskDefinition) (tasks m : Dict TaskType)
    → store_tasks defs tasks ≡ ok m
    → AllValid tasks
    → AllValid m
store_tasks-AllValid [] tasks m e all = subst AllValid (store_nil tasks m e) all
store_tasks-AllValid (def ∷ defs) tasks m e all =
    let (u, passed, rest) = store_step def defs tasks m e in
    store_tasks-AllValid defs (insert u.id u tasks) m rest
      (insert-AllValid u tasks (validate_task-IsValidTask (to_task def) u passed).0 all)

-- The last definition of an identifier.
abbrev pub last_of : String → List TaskDefinition → Option TaskDefinition → Option TaskDefinition
last_of id [] so_far = so_far
last_of id (def ∷ defs) so_far = last_of id defs (if id == def.id then some def else so_far)

-- What is stored for it: nothing, or the definition's task, which passes, with its defaults.
abbrev pub Keeps : Option TaskDefinition → Option TaskType → Type 0
Keeps none stored = stored ≡ none
Keeps (some def) stored =
    (u : TaskType) × (validate_task (to_task def) ≡ ok u) × IsKept def u × (stored ≡ some u)

stored_id :
    (def : TaskDefinition) (u : TaskType) → validate_task (to_task def) ≡ ok u → u.id ≡ def.id
unfolding to_task
stored_id def u e = (validate_task-IsValidTask (to_task def) u e).1

stored_keeps :
    (id : String) (def : TaskDefinition) (u : TaskType) (tasks : Dict TaskType)
    (so_far : Option TaskDefinition)
    → validate_task (to_task def) ≡ ok u
    → Keeps so_far (lookup id tasks)
    → Keeps (if id == def.id then some def else so_far) (lookup id (insert u.id u tasks))
stored_keeps id def u tasks so_far passed k = rw (lookup-insert id u.id u tasks) (
    subst
      (λ x.
        Keeps (if id == def.id then some def else so_far)
          (if id == x then some u else lookup id tasks))
      (sym (stored_id def u passed)) (go (id == def.id)))
  where
    go : (b : Bool) → Keeps (if b then some def else so_far) (if b then some u else lookup id tasks)
    go true = (u, passed, validate_task-IsKept def u passed, refl)
    go false = k

store_tasks-Keeps :
    (id : String) (defs : List TaskDefinition) (tasks m : Dict TaskType)
    (so_far : Option TaskDefinition)
    → store_tasks defs tasks ≡ ok m
    → Keeps so_far (lookup id tasks)
    → Keeps (last_of id defs so_far) (lookup id m)
store_tasks-Keeps id [] tasks m so_far e k =
    subst (λ d. Keeps so_far (lookup id d)) (store_nil tasks m e) k
store_tasks-Keeps id (def ∷ defs) tasks m so_far e k =
    let (u, passed, rest) = store_step def defs tasks m e in
    store_tasks-Keeps id defs (insert u.id u tasks) m _ rest
      (stored_keeps id def u tasks so_far passed k)

read_tasks-inv :
    (read_file : String → Result String) (parse : String → Result (List TaskDefinition))
    (path : String) (m : Dict TaskType)
    → read_tasks read_file parse path ≡ ok m
    → (text : String) × (defs : List TaskDefinition) × (read_file path ≡ ok text)
      × (parse text ≡ ok defs)
      × (store_tasks defs [] ≡ ok m)
unfolding read_tasks
read_tasks-inv read_file parse path m e =
    let (text, read, e') = >>=-eq-ok _ _ e in
    let (defs, parsed, stored) = >>=-eq-ok _ _ e' in
    (text, defs, wrap-eq-ok _ _ read, wrap-eq-ok _ _ parsed, stored)

module _ (read_file : String → Result String) (parse : String → Result (List TaskDefinition))
    (r : TaskRegistry) where
  -- A load that fails leaves the registry as it was.
  pub load_from_file_failed :
      (e : String)
      → (load_from_file read_file parse r).0 ≡ some e
      → (load_from_file read_file parse r).1 ≡ r
  unfolding load_from_file
  load_from_file_failed e = go (read_tasks read_file parse r.file_path)
    where
      go : (x : Result (Dict TaskType)) → (with_tasks r x).0 ≡ some e → (with_tasks r x).1 ≡ r
      go (ok tasks) h = cc
      go (err f) h = refl

  -- If a registry keeps only valid tasks, each under its own identifier and no identifier twice,
  -- then so does it after a load, whether or not that succeeds.
  pub load_from_file-IsSound : IsSound r → IsSound (load_from_file read_file parse r).1
  unfolding load_from_file
  load_from_file-IsSound v = go _ refl
    where
      go :
          (x : Result (Dict TaskType))
          → read_tasks read_file parse r.file_path ≡ x
          → IsSound (with_tasks r x).1
      go (err f) h = v
      go (ok m) h =
          let (text, defs, _, _, stored) = read_tasks-inv read_file parse r.file_path m h in
          record { all_valid = store_tasks-AllValid defs [] m stored tt }

  -- If a load succeeds, the file is there, its text parses, and for each identifier the registry
  -- keeps the last of its definitions, with its defaults filled in, and nothing for others.
  pub load_from_file-Keeps :
      (id : String)
      → (load_from_file read_file parse r).0 ≡ none
      → (text : String) × (defs : List TaskDefinition) × (read_file r.file_path ≡ ok text)
        × (parse text ≡ ok defs)
        × Keeps (last_of id defs none) (lookup id (load_from_file read_file parse r).1.tasks)
  unfolding load_from_file
  load_from_file-Keeps id = go _ refl
    where
      go :
          (x : Result (Dict TaskType))
          → read_tasks read_file parse r.file_path ≡ x
          → (with_tasks r x).0 ≡ none
          → (text : String) × (defs : List TaskDefinition) × (read_file r.file_path ≡ ok text)
            × (parse text ≡ ok defs)
            × Keeps (last_of id defs none) (lookup id (with_tasks r x).1.tasks)
      go (err f) h e = cc
      go (ok m) h e =
          let (text, defs, read, parsed, stored) = read_tasks-inv read_file parse r.file_path m h in
          (text, defs, read, parsed, store_tasks-Keeps id defs [] m none stored (lookup-nil id))

lookup-AllValid :
    (id : String) (tasks : Dict TaskType) (t : TaskType)
    → AllValid tasks
    → lookup id tasks ≡ some t
    → IsValidTask t × (t.id ≡ id)
unfolding lookup
lookup-AllValid id [] t all e = cc
lookup-AllValid id ((j, u) ∷ tasks) t (v, same, fresh, all) e = elim (string_dec id j) [
  | yes here ↦ let is_u : u ≡ t = ground arith in (subst IsValidTask is_u v, ground arith)
  | no other ↦ lookup-AllValid id tasks t all (ground arith)
]

-- A sound registry gives out a task only under its own identifier, and only valid ones.
pub get-IsValidTask :
    (r : TaskRegistry) (id : String) (t : TaskType)
    → IsSound r
    → get r id ≡ ok t
    → IsValidTask t × (t.id ≡ id)
unfolding get
get-IsValidTask r id t v e = lookup-AllValid id r.tasks t v.all_valid (ground arith)
