-- ===== src/Cmd/Steps.antt =====
-- cmd/worker/main.go and cmd/scheduler/main.go: what holds after the steps that both programs take.
use taskqueue_go.Prelude.{
  ◌≡◌, refl, subst, none, some, List, String, Result, ok, ◌>>◌, Failure, >>=-eq-ok, wrap-eq-ok,
  arith,
}
use taskqueue_go.Prelude.Dict.{lookup}
use taskqueue_go.Registry.{TaskRegistry, new_task_registry, load_from_file}
use taskqueue_go.Registry.Definition.{TaskDefinition}
use taskqueue_go.Registry.Loaded.{
  IsSound, Keeps, last_of, load_from_file-IsSound, load_from_file-Keeps,
}
use taskqueue_go.Cmd.{Outside, connected, loaded, load_tasks, load_config}

pub loaded-inv :
    (r : Failure × TaskRegistry) (registry : TaskRegistry)
    → loaded r ≡ ok registry
    → (r.0 ≡ none) × (r.1 ≡ registry)
loaded-inv (none, r) registry e = (refl, ground arith)
loaded-inv (some x, r) registry e = absurd (ground arith)

pub connected-inv :
    {A : Type 0} (f : Failure) (next : Result A) (a : A)
    → (connected f >> next) ≡ ok a
    → (f ≡ none) × (next ≡ ok a)
connected-inv none next a e = (refl, e)
connected-inv (some x) next a e = absurd (ground arith)

pub load_config-inv {ℓ} :
    {A : Type ℓ} (read_file : String → Result String) (parse : String → Result A)
    (filename : String) (cfg : A)
    → load_config read_file parse filename ≡ ok cfg
    → (text : String) × (read_file filename ≡ ok text) × (parse text ≡ ok cfg)
unfolding load_config
load_config-inv read_file parse filename cfg e =
    let (text, got, parsed) = >>=-eq-ok _ _ e in (text, wrap-eq-ok _ _ got, wrap-eq-ok _ _ parsed)

module _ {Connection Redis : Type 0} (o : Outside Connection Redis) where
  -- What the loading of the tasks leaves.
  pub record HoldsTasks (registry : TaskRegistry) : Type 0 where
    pub sound : IsSound registry
    pub keeps :
        (id : String)
        → (text : String) × (defs : List TaskDefinition) × (o.read_file "config/tasks.yaml"
            ≡ ok text)
          × (o.parse_tasks text ≡ ok defs)
          × Keeps (last_of id defs none) (lookup id registry.tasks)

  pub loaded-HoldsTasks :
      (registry : TaskRegistry) → load_tasks o ≡ ok registry → HoldsTasks registry
  unfolding new_task_registry
  loaded-HoldsTasks registry e =
      let (loads, same) =
        loaded-inv
          (load_from_file o.read_file o.parse_tasks (new_task_registry "config/tasks.yaml"))
          registry e in
      record {
        sound =
            subst IsSound same
              (load_from_file-IsSound o.read_file o.parse_tasks _ (record { all_valid = tt }));
        keeps = λ id.
            let (text, defs, read, parsed, keeps) =
              load_from_file-Keeps o.read_file o.parse_tasks (new_task_registry "config/tasks.yaml")
                id loads in
            (
              text,
              defs,
              read,
              parsed,
              subst (λ (r : TaskRegistry). Keeps (last_of id defs none) (lookup id r.tasks)) same
                  keeps,
            );
      }
