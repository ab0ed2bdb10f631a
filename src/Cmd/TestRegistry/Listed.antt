-- ===== src/Cmd/TestRegistry/Listed.antt =====
-- cmd/test-registry/main.go: what the program lists.
use taskqueue_go.Prelude.{
  ◌≡◌, ◌∙◌, refl, ap, sym, Option, none, some, List, [], ◌∷◌, String, Result, ok, Failure, length,
  if◌then◌else◌, ◌==◌, arith, suc, ◌⊎◌, inl, inr, get_elem?,
}
use taskqueue_go.Prelude.Dict.{Dict, lookup}
use taskqueue_go.Models.Task.{TaskType}
use taskqueue_go.Registry.{TaskRegistry, new_task_registry, load_from_file, get_all, count}
use taskqueue_go.Registry.Definition.{TaskDefinition}
use taskqueue_go.Registry.Loaded.{
  AllValid, Keeps, last_of, load_from_file-IsSound, load_from_file-Keeps,
}
use taskqueue_go.Cmd.{ready}
use taskqueue_go.Cmd.TestRegistry.{Line, Listing, config_path, line_of, lines_of, listed, main}

-- The first line of an identifier.
abbrev pub find_line : String → List Line → Option Line
find_line id [] = none
find_line id (l ∷ lines) = if id == l.id then some l else find_line id lines

-- No identifier has two lines.
abbrev pub Once : List Line → Type 0
Once [] = Unit {0}
Once (l ∷ lines) = (find_line l.id lines ≡ none) × Once lines

-- The line of an identifier: none, or that of the definition.
abbrev pub Shows : String → Option TaskDefinition → Option Line → Type 0
Shows id none line = line ≡ none
Shows id (some def) line =
    line
    ≡ some (record {
      id = id;
      name = def.name;
      interval_type = def.interval.type;
      interval_value = def.interval.value;
      timeout = def.timeout;
      endpoint = def.config.endpoint;
    })

-- The first argument after the program's name, or the path that is used without one.
abbrev pub IsPath : List String → String → Type 0
IsPath args path =
    (get_elem? args 1 ≡ some path) ⊎ ((get_elem? args 1 ≡ none) × (path ≡ "config/tasks.yaml"))

config_path-IsPath : (args : List String) → IsPath args (config_path args)
config_path-IsPath [] = inr (refl, refl)
config_path-IsPath (program ∷ []) = inr (refl, refl)
config_path-IsPath (program ∷ path ∷ more) = inl refl

abbrev shown : String → Option TaskType → Option Line
shown id none = none
shown id (some t) = some (line_of id t)

find_line-lines_of :
    (id : String) (tasks : Dict TaskType)
    → find_line id (lines_of tasks) ≡ shown id (lookup id tasks)
unfolding lines_of lookup
find_line-lines_of id [] = refl
find_line-lines_of id ((j, t) ∷ tasks) = ground (arith, find_line-lines_of id tasks)

length-lines_of : (tasks : Dict TaskType) → length (lines_of tasks) ≡ length tasks
unfolding lines_of
length-lines_of [] = refl
length-lines_of ((j, t) ∷ tasks) = ap suc (length-lines_of tasks)

lines_of-Once : (tasks : Dict TaskType) → AllValid tasks → Once (lines_of tasks)
unfolding lines_of
lines_of-Once [] all = tt
lines_of-Once ((j, t) ∷ tasks) (v, same, fresh, all) =
    (find_line-lines_of j tasks ∙ ap (shown j) fresh, lines_of-Once tasks all)

Keeps-Shows :
    (id : String) (d : Option TaskDefinition) (stored : Option TaskType)
    → Keeps d stored
    → Shows id d (shown id stored)
Keeps-Shows id none stored e = ap (shown id) e
Keeps-Shows id (some def) stored (u, passed, kept, e) =
    rw (e, kept.name, kept.type, kept.value, kept.timeout, kept.endpoint) refl

listed-inv :
    (r : Failure × TaskRegistry) (out : Listing)
    → listed r ≡ ready out
    → (r.0 ≡ none) × (out.count ≡ count r.1) × (out.lines ≡ lines_of (get_all r.1))
listed-inv (none, r) out e = (refl, ground arith, ground arith)
listed-inv (some x, r) out e = absurd (ground arith)

module _ (read_file : String → Result String) (parse : String → Result (List TaskDefinition))
    (args : List String) where
  -- If the program lists tasks, then the file at its first argument, or config/tasks.yaml where there
  -- is none, was read and parsed; it tells as many tasks as it lists, lists no identifier twice, and for
  -- each identifier it shows the fields of the last of its definitions, where there is one, and
  -- nothing for others.
  pub main-Shows :
      (out : Listing) (id : String)
      → main read_file parse args ≡ ready out
      → (out.count ≡ length out.lines)
        × Once out.lines
        × (path : String) × (text : String) × (defs : List TaskDefinition) × IsPath args path
        × (read_file path ≡ ok text)
        × (parse text ≡ ok defs)
        × Shows id (last_of id defs none) (find_line id out.lines)
  unfolding main new_task_registry count get_all
  main-Shows out id e =
      let start = new_task_registry (config_path args) in
      let (loads, counted, lines) = listed-inv (load_from_file read_file parse start) out e in
      let (text, defs, read, parsed, keeps) = load_from_file-Keeps read_file parse start id loads in
      let sound = load_from_file-IsSound read_file parse start (record { all_valid = tt }) in
      let tasks = (load_from_file read_file parse start).1.tasks in
      (
        counted ∙ sym (length-lines_of tasks) ∙ ap length (sym lines),
        rw lines (lines_of-Once tasks sound.all_valid),
        config_path args,
        text,
        defs,
        config_path-IsPath args,
        read,
        parsed,
        rw (lines, find_line-lines_of id tasks) (Keeps-Shows id (last_of id defs none) _ keeps),
      )
