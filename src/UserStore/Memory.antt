-- ===== src/UserStore/Memory.antt =====
-- A store in memory, at which the theorems about internal/storage/user_store.go are applied. It
-- shows that what is assumed of Redis can hold. Hashes and sets are kept apart.
use taskqueue_go.Prelude.{
  ◌≡◌, refl, false, none, some, List, [], ◌∷◌, String, if◌then◌else◌, ◌==◌, arith, length, err,
}
use taskqueue_go.Prelude.Int.{pos}
use taskqueue_go.Prelude.Dict.{Dict, lookup, insert, lookup-insert, lookup-nil}
use taskqueue_go.UserStore.Commands.{
  Redis, IsRedis, Formats, Command, hset, hmset, del, sadd, srem, hash_key, set_key, is_in, or_else,
}

pub record Store : Type 0 where
  pub hashes : String → Dict String
  pub sets : String → List String

unfoldable pub without : String → List String → List String
without x [] = []
without x (y ∷ ys) = let rest = without x ys in if x == y then rest else y ∷ rest

is_in-without :
    (x y : String) (ys : List String)
    → is_in x (without y ys) ≡ (if x == y then false else is_in x ys)
unfolding without
is_in-without x y [] = ground arith
is_in-without x y (z ∷ zs) = ground (arith, is_in-without x y zs)

unfoldable pub merge : Dict String → Dict String → Dict String
merge [] d = d
merge ((f, v) ∷ m) d = insert f v (merge m d)

lookup-merge :
    (g : String) (m d : Dict String) → lookup g (merge m d) ≡ or_else (lookup g m) (lookup g d)
unfolding merge lookup
lookup-merge g [] d = refl
lookup-merge g ((f, v) ∷ m) d = ground (arith, lookup-insert g f v (merge m d), lookup-merge g m d)

unfoldable pub run : Command → Store → Store
run (hset k f v) s = record s {
  hashes = λ j. if j == k then insert f v (s.hashes j) else s.hashes j;
}
run (hmset k m) s = record s { hashes = λ j. if j == k then merge m (s.hashes j) else s.hashes j }
run (del ks) s = record s { hashes = λ j. if is_in j ks then [] else s.hashes j }
run (sadd k m) s = record s { sets = λ j. if j == k then m ∷ s.sets j else s.sets j }
run (srem k m) s = record s { sets = λ j. if j == k then without m (s.sets j) else s.sets j }

abbrev pub memory_redis : Redis
memory_redis = record {
  State = Store;
  run = run;
  hget = λ k f s. lookup f (s.hashes k);
  hgetall = λ k s. s.hashes k;
  smembers = λ k s. s.sets k;
  scard = λ k s. pos (length (s.sets k));
}

abbrev pub empty_store : Store
empty_store = record { hashes = λ k. []; sets = λ k. [] }

hget-hset-at :
    (j k g f v : String) (s : Store)
    → lookup g ((run (hset k f v) s).hashes j)
      ≡ (if j == k then if g == f then some v else lookup g (s.hashes j) else lookup g (s.hashes j))
unfolding run
hget-hset-at j k g f v s = ground (arith, lookup-insert g f v (s.hashes j))

hget-del-at :
    (ks : List String) (j g : String) (s : Store)
    → lookup g ((run (del ks) s).hashes j) ≡ (if is_in j ks then none else lookup g (s.hashes j))
unfolding run
hget-del-at ks j g s = ground (arith, lookup-nil {V = String} g)

hget-hmset-at :
    (k : String) (m : Dict String) (g : String) (s : Store)
    → lookup g ((run (hmset k m) s).hashes k) ≡ or_else (lookup g m) (lookup g (s.hashes k))
unfolding run
hget-hmset-at k m g s = ground (arith, lookup-merge g m (s.hashes k))

smembers-srem-at :
    (j k n m : String) (s : Store)
    → is_in m ((run (srem k n) s).sets j)
      ≡ (if j == k then if m == n then false else is_in m (s.sets j) else is_in m (s.sets j))
unfolding run
smembers-srem-at j k n m s = ground (arith, is_in-without m n (s.sets j))

pub memory_redis-IsRedis : IsRedis memory_redis
unfolding run
memory_redis-IsRedis = record {
  hget-hset = λ k j f g v s. hget-hset-at (hash_key j) (hash_key k) g f v s;
  hget-sadd = λ k j m g s. refl;
  hget-srem = λ k j m g s. refl;
  smembers-hset = λ k j f v m s. refl;
  smembers-sadd = λ k j n m s. ground arith;
  smembers-srem = λ k j n m s. smembers-srem-at (set_key j) (set_key k) n m s;
  hget-hmset = λ k m g s u. hget-hmset-at (hash_key k) m g s;
  hget-hmset_other = λ k j m g s other. rw other refl;
  smembers-hmset = λ k j d m s. refl;
  hget-del = λ ks j g s. hget-del-at ks (hash_key j) g s;
  smembers-del = λ ks j m s. refl;
  lookup-hgetall = λ j g s. refl;
}

abbrev pub plain : Formats
plain = record {
  format_time = λ t. "2025-01-02T03:04:05Z";
  parse_time = λ text. some (pos 5);
  marshal_settings = λ settings. err "no settings here";
  unmarshal_settings = λ text. none;
}
