-- ===== src/UserStore/Commands.antt =====
-- What internal/storage/user_store.go uses of github.com/redis/go-redis/v9 and of the server, as an
-- interface with the laws that the theorems name, and what it uses of encoding/json and of time's
-- RFC 3339 texts.
use taskqueue_go.Prelude.{
  ◌≡◌, ◌<>◌, Bool, true, false, Option, none, some, List, [], ◌∷◌, map, String, if◌then◌else◌, ◌==◌,
  Result,
}
use taskqueue_go.Prelude.Int.{ℤ}
use taskqueue_go.Prelude.Dict.{Dict, lookup, NodupKeys}
use taskqueue_go.GoTime.{Time}
use taskqueue_go.Models.User.{TaskSettings}

-- The commands that write.
pub data Command : Type 0 where
  hset : String → String → String → Command  -- key, field, value
  hmset : String → Dict String → Command
  del : List String → Command
  sadd srem : String → String → Command  -- key, member

-- The state is what the server holds, the keys of hashes holding hashes and those of sets sets.
pub record Redis : Type 1 where
  pub State : Type 0
  pub run : Command → State → State
  pub hget : String → String → State → Option String
  pub hgetall : String → State → Dict String
  pub smembers : String → State → List String
  pub scard : String → State → ℤ

pub record Formats : Type 0 where
  pub format_time : Time → String
  pub parse_time : String → Option Time
  pub marshal_settings : TaskSettings → Result String
  pub unmarshal_settings : String → Option TaskSettings

abbrev pub is_in : String → List String → Bool
is_in x [] = false
is_in x (y ∷ ys) = if x == y then true else is_in x ys

-- The keys of hashes and of sets.
pub data HashKey : Type 0 where
  user_tasks user_settings user_meta : String → HashKey

pub data SetKey : Type 0 where
  all_users : SetKey
  task_users : String → SetKey

abbrev pub hash_key : HashKey → String
hash_key (user_tasks user_id) = "taskqueue:users:" <> (user_id <> ":tasks")
hash_key (user_settings user_id) = "taskqueue:users:" <> (user_id <> ":settings")
hash_key (user_meta user_id) = "taskqueue:users:" <> (user_id <> ":meta")

abbrev pub set_key : SetKey → String
set_key all_users = "taskqueue:users:all"
set_key (task_users task_id) = "taskqueue:tasks:" <> (task_id <> ":users")

abbrev pub or_else : Option String → Option String → Option String
or_else none other = other
or_else (some v) other = some v

-- HSET, HMSET, DEL, SADD and SREM as Redis documents them: each changes the value at its own key, and there
-- the given fields or the given member; HGETALL gives the fields that HGET does.
pub record IsRedis (R : Redis) : Type 0 where
  pub hget-hset :
      (k j : HashKey) (f g v : String) (s : R.State)
      → R.hget (hash_key j) g (R.run (hset (hash_key k) f v) s) ≡ (
          if hash_key j == hash_key k
          then if g == f then some v else R.hget (hash_key j) g s
          else R.hget (hash_key j) g s)
  pub hget-sadd :
      (k : SetKey) (j : HashKey) (m g : String) (s : R.State)
      → R.hget (hash_key j) g (R.run (sadd (set_key k) m) s) ≡ R.hget (hash_key j) g s
  pub hget-srem :
      (k : SetKey) (j : HashKey) (m g : String) (s : R.State)
      → R.hget (hash_key j) g (R.run (srem (set_key k) m) s) ≡ R.hget (hash_key j) g s
  pub smembers-hset :
      (k : HashKey) (j : SetKey) (f v m : String) (s : R.State)
      → is_in m (R.smembers (set_key j) (R.run (hset (hash_key k) f v) s))
        ≡ is_in m (R.smembers (set_key j) s)
  pub smembers-sadd :
      (k j : SetKey) (n m : String) (s : R.State)
      → is_in m (R.smembers (set_key j) (R.run (sadd (set_key k) n) s)) ≡ (
          if set_key j == set_key k
          then if m == n then true else is_in m (R.smembers (set_key j) s)
          else is_in m (R.smembers (set_key j) s))
  pub smembers-srem :
      (k j : SetKey) (n m : String) (s : R.State)
      → is_in m (R.smembers (set_key j) (R.run (srem (set_key k) n) s)) ≡ (
          if set_key j == set_key k
          then if m == n then false else is_in m (R.smembers (set_key j) s)
          else is_in m (R.smembers (set_key j) s))
  pub hget-hmset :
      (k : HashKey) (m : Dict String) (g : String) (s : R.State)
      → NodupKeys m
      → R.hget (hash_key k) g (R.run (hmset (hash_key k) m) s)
        ≡ or_else (lookup g m) (R.hget (hash_key k) g s)
  pub hget-hmset_other :
      (k j : HashKey) (m : Dict String) (g : String) (s : R.State)
      → (hash_key j == hash_key k) ≡ false
      → R.hget (hash_key j) g (R.run (hmset (hash_key k) m) s) ≡ R.hget (hash_key j) g s
  pub smembers-hmset :
      (k : HashKey) (j : SetKey) (d : Dict String) (m : String) (s : R.State)
      → is_in m (R.smembers (set_key j) (R.run (hmset (hash_key k) d) s))
        ≡ is_in m (R.smembers (set_key j) s)
  pub hget-del :
      (ks : List String) (j : HashKey) (g : String) (s : R.State)
      → R.hget (hash_key j) g (R.run (del ks) s)
        ≡ (if is_in (hash_key j) ks then none else R.hget (hash_key j) g s)
  pub smembers-del :
      (ks : List HashKey) (j : SetKey) (m : String) (s : R.State)
      → is_in m (R.smembers (set_key j) (R.run (del (map hash_key ks)) s))
        ≡ is_in m (R.smembers (set_key j) s)
  pub lookup-hgetall :
      (j : HashKey) (g : String) (s : R.State)
      → lookup g (R.hgetall (hash_key j) s) ≡ R.hget (hash_key j) g s
