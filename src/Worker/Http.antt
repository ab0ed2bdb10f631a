-- ===== src/Worker/Http.antt =====
-- What internal/worker uses of net/http.
use taskqueue_go.Prelude.{ℕ, Bool, List, String, Failure}
use taskqueue_go.Prelude.Int.{ℤ}
use taskqueue_go.Prelude.Dict.{Dict}
use taskqueue_go.GoTime.{Duration}

-- A request without a body.
pub record Request : Type 0 where
  pub method : String
  pub url : String
  pub headers : Dict String

-- One call of a body's Read: the bytes that it put into the buffer, and whether it returned an
-- error, io.EOF included.
pub record Chunk : Type 0 where
  pub bytes : List ℕ
  pub ended : Bool

-- How Client.Do ends. A body is the calls of Read up to the first that returns an error.
pub data Reply : Type 0 where
  request_failed : String → Reply
  response : ℤ → List Chunk → Reply

pub record Server : Type 0 where
  -- NewRequestWithContext's error for a method and a URL
  pub request_error : String → String → Failure
  -- the form that Header.Set gives a key
  pub canonical_key : String → String
  -- Client.Do under a context with a timeout
  pub do_request : Request → Duration → Reply
