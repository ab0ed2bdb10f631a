-- ===== src/Worker/Execute.antt =====
-- internal/worker/worker.go: executeJob.
use taskqueue_go.Prelude.{
  ℕ, ◌<>◌, true, false, ◌&&◌, Option, none, some, List, [], ◌∷◌, ◌++◌, String, Failure,
  if◌then◌else◌, ltb, length,
}
use taskqueue_go.Prelude.Int.{ℤ, pos, ltb_ℤ, leb_ℤ}
use taskqueue_go.Prelude.Text.{int_text}
use taskqueue_go.Prelude.Dict.{Dict, insert}
use taskqueue_go.GoTime.{Time, sub}
use taskqueue_go.Models.Job.{Job, ExecutionResult, ErrorDetail, success, failed}
use taskqueue_go.Models.Task.{TaskType}
use taskqueue_go.Worker.Http.{Server, Request, Chunk, Reply, request_failed, response}

-- The loop that reads the response's body: until an error, or until it is longer than 64 KB.
unfoldable pub read_body : List ℕ → List Chunk → List ℕ
read_body body [] = body
read_body body (chunk ∷ chunks) =
    let body' = body ++ chunk.bytes in
    let rest = read_body body' chunks in
    if chunk.ended then body' else if ltb 65_536 (length body') then body' else rest

module _ (server : Server) where
  unfoldable pub set_headers : Dict String → Dict String → Dict String
  set_headers [] headers = headers
  set_headers ((key, value) ∷ rest) headers =
      set_headers rest (insert (server.canonical_key key) value headers)

  -- The task's own headers first, then those of the job.
  unfoldable pub job_request : Job → TaskType → Request
  unfolding set_headers
  job_request job task = record {
    method = task.config.method;
    url = task.config.endpoint;
    headers = insert (server.canonical_key "X-Task-Type") job.task_type_id (
        insert (server.canonical_key "X-User-ID") job.user_id
          (insert (server.canonical_key "X-Job-ID") job.id (set_headers task.config.headers [])));
  }

  -- A result with its times, as every way out of executeJob completes it.
  abbrev completed : Time → Time → Job → Option ErrorDetail → List ℕ → ExecutionResult
  completed started_at completed_at job none body = record {
    job_id = job.id;
    status = success;
    started_at = started_at;
    completed_at = completed_at;
    duration = sub completed_at started_at;
    error = none;
    response = body;
    next_attempt = none;
  }
  completed started_at completed_at job (some e) body = record {
    job_id = job.id;
    status = failed;
    started_at = started_at;
    completed_at = completed_at;
    duration = sub completed_at started_at;
    error = some e;
    response = body;
    next_attempt = none;
  }

  abbrev status_error : ℤ → Option ErrorDetail
  status_error code =
      if leb_ℤ (pos 200) code && ltb_ℤ code (pos 300)
      then none
      else some (record {
        code = "HTTP_" <> int_text code;
        message = "HTTP request failed with status " <> int_text code;
        retry = leb_ℤ (pos 500) code;
      })

  abbrev pub from_reply : Time → Time → Job → Reply → ExecutionResult
  from_reply started_at completed_at job (request_failed e) =
      completed started_at completed_at job
        (some (record {
          code = "HTTP_REQUEST_FAILED";
          message = "HTTP request failed: " <> e;
          retry = true;
        }))
        []
  from_reply started_at completed_at job (response code chunks) =
      completed started_at completed_at job (status_error code) (read_body [] chunks)

  abbrev pub attempted : Time → Time → Job → TaskType → Failure → ExecutionResult × List Request
  attempted started_at completed_at job task (some e) = (
    completed started_at completed_at job
        (some (record {
          code = "REQUEST_CREATION_FAILED";
          message = "Failed to create HTTP request: " <> e;
          retry = false;
        }))
        [],
    [],
  )
  attempted started_at completed_at job task none =
      let request = job_request job task in
      (
        from_reply started_at completed_at job (server.do_request request task.timeout),
        request ∷ [],
      )

  -- executeJob: its result, and the requests that it sent.
  unfoldable pub execute_job : Time → Time → Job → TaskType → ExecutionResult × List Request
  execute_job started_at completed_at job task =
      attempted started_at completed_at job task
        (server.request_error task.config.method task.config.endpoint)
