-- ===== src/Cmd/TestRegistry/Tests.antt =====
-- cmd/test-registry/main.go: the theorem at one file of tasks, and a file that is missing.
use taskqueue_go.Prelude.{◌≡◌, refl, none, List, [], ◌∷◌, String, ok, err, length, string_dec}
use taskqueue_go.Prelude.Dict.{insert}
use taskqueue_go.Registry.{
  new_task_registry, load_from_file, read_tasks, store_tasks, get_all, count,
}
use taskqueue_go.Registry.Definition.{TaskDefinition, to_task}
use taskqueue_go.Registry.Validate.{validate_task, validate_interval}
use taskqueue_go.Registry.Loaded.{last_of}
use taskqueue_go.Registry.Tests.{read_file, parse_good, later, kept}
use taskqueue_go.Cmd.{exited}
use taskqueue_go.Cmd.TestRegistry.{Listing, line_of, lines_of, main}
use taskqueue_go.Cmd.TestRegistry.Listed.{find_line, IsPath, Once, Shows, main-Shows}

-- The file defines one task twice.
abbrev out : Listing
out = record { count = 1; lines = line_of "sync" (kept later) ∷ [] }

main-Shows_example :
    (out.count ≡ length out.lines)
    × Once out.lines
    × (path : String) × (text : String) × (defs : List TaskDefinition) × IsPath
        ("test-registry" ∷ [])
        path
    × (read_file path ≡ ok text)
    × (parse_good text ≡ ok defs)
    × Shows "sync" (last_of "sync" defs none) (find_line "sync" out.lines)
unfolding main new_task_registry load_from_file read_tasks store_tasks validate_task
    validate_interval to_task string_dec insert get_all count lines_of
main-Shows_example = main-Shows read_file parse_good ("test-registry" ∷ []) out "sync" refl

no_file :
    main (λ path. err "no such file") parse_good ("test-registry" ∷ "other.yaml" ∷ [])
    ≡ exited "Failed to load task registry: failed to read task definitions file: no such file"
unfolding main new_task_registry load_from_file read_tasks
no_file = refl
