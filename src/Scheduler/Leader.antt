-- ===== src/Scheduler/Leader.antt =====
-- internal/scheduler/scheduler.go: who leads.
use taskqueue_go.Prelude.{◌≡◌, ◌⊎◌, inl, inr, refl, true, none, some, String, ok, arith}
use taskqueue_go.Prelude.Int.{pos, ◌<ℤ◌}
use taskqueue_go.GoTime.{Duration}
use taskqueue_go.RateLimit.{answered}
use taskqueue_go.Scheduler.Keys.{TextKeys, IsTextKeys}
use taskqueue_go.Scheduler.{Calls, acquire_leadership}

module _ (K : TextKeys) (laws : IsTextKeys K) (c : Calls) (a : c.set_nx_leader ≡ answered)
    (b : c.get_leader ≡ answered) (d : c.expire_leader ≡ answered) where
  -- Wherever the leader's key is free or holds what any instance writes, acquireLeadership makes the
  -- instance that calls it a leader and leaves the key so that the next one that calls it leads as
  -- well. Redis answers each call, and the time to live is positive.
  pub acquire_leadership_shared :
      (key : String) (ttl : Duration) (s : K.State)
      → pos 0 <ℤ ttl
      → (K.get key s ≡ none) ⊎ (K.get key s ≡ some "leader")
      → ((acquire_leadership K c key ttl s).0 ≡ ok true)
        × (K.get key (acquire_leadership K c key ttl s).1 ≡ some "leader")
  unfolding acquire_leadership
  acquire_leadership_shared key ttl s lives (inl free) =
      let (won, kept) = laws.set_nx-free key "leader" ttl s lives free in rw (a, won) (refl, kept)
  acquire_leadership_shared key ttl s lives (inr held) =
      rw (a, laws.set_nx-held key "leader" "leader" ttl s held, b, held, d)
        (ground (arith, laws.get-expire key ttl s lives))
