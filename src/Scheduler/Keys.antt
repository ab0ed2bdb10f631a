-- ===== src/Scheduler/Keys.antt =====
-- What internal/scheduler/scheduler.go uses of Redis at keys of texts, and of time's RFC 3339 texts,
-- as an interface with the laws that the theorems name.
use taskqueue_go.Prelude.{
  ◌≡◌, ◌≢◌, Bool, true, false, Option, none, some, String, if◌then◌else◌, ◌==◌,
}
use taskqueue_go.Prelude.Int.{pos, ◌<ℤ◌, ◌≤ℤ◌}
use taskqueue_go.GoTime.{Duration}

pub record TextKeys : Type 1 where
  pub State : Type 0
  pub get : String → State → Option String
  pub set : String → String → State → State
  pub set_nx : String → String → Duration → State → Bool × State
  pub expire : String → Duration → State → State

-- SET, SETNX and EXPIRE as Redis documents them, at the instant of the call: a key that is there stays
-- as it is, one that is not gets the value, and other keys stay as they are; a new time to live leaves
-- the value where it is positive, and deletes the key otherwise.
pub record IsTextKeys (K : TextKeys) : Type 0 where
  pub set_nx-held :
      (key value v : String) (ttl : Duration) (s : K.State)
      → K.get key s ≡ some v
      → K.set_nx key value ttl s ≡ (false, s)
  pub set_nx-free :
      (key value : String) (ttl : Duration) (s : K.State)
      → pos 0 <ℤ ttl
      → K.get key s ≡ none
      → ((K.set_nx key value ttl s).0 ≡ true)
        × (K.get key (K.set_nx key value ttl s).1 ≡ some value)
  pub set_nx-other :
      (j key value : String) (ttl : Duration) (s : K.State)
      → j ≢ key
      → K.get j (K.set_nx key value ttl s).1 ≡ K.get j s
  pub get-expire :
      (key : String) (ttl : Duration) (s : K.State)
      → pos 0 <ℤ ttl
      → K.get key (K.expire key ttl s) ≡ K.get key s
  pub get-expire_gone :
      (key : String) (ttl : Duration) (s : K.State)
      → ttl ≤ℤ pos 0
      → K.get key (K.expire key ttl s) ≡ none
  pub get-expire_other :
      (j key : String) (ttl : Duration) (s : K.State)
      → j ≢ key
      → K.get j (K.expire key ttl s) ≡ K.get j s
  pub get-set :
      (j key value : String) (s : K.State)
      → K.get j (K.set key value s) ≡ (if j == key then some value else K.get j s)
