-- ===== src/Models/Tests.antt =====
-- internal/models: the theorems at concrete data.
use taskqueue_go.Prelude.{◌≡◌, refl, true, none, some, [], ◌∷◌, string_dec}
use taskqueue_go.Prelude.Int.{pos}
use taskqueue_go.Prelude.Dict.{lookup, insert}
use taskqueue_go.Models.Job.{ErrorDetail, ExecutionResult, failed, should_retry}
use taskqueue_go.Models.User.{UserPreference, is_task_enabled, disable_task}

abbrev server_error : ErrorDetail
server_error = record { code = "HTTP_503"; message = "unavailable"; retry = true }

abbrev failure : ExecutionResult
failure = record {
  job_id = "j";
  status = failed;
  started_at = pos 5;
  completed_at = pos 9;
  duration = pos 4;
  error = some server_error;
  response = [];
  next_attempt = none;
}

retried_at_once : should_retry failure (pos 0) ≡ true
unfolding should_retry
retried_at_once = refl

abbrev ann : UserPreference
ann = record {
  user_id = "ann";
  enabled_tasks = ("sync", true) ∷ [];
  task_settings = [];
  last_modified = pos 0;
}

other_task_kept : is_task_enabled (disable_task (pos 7) ann "mail") "sync" ≡ true
unfolding is_task_enabled disable_task lookup insert string_dec
other_task_kept = refl
