-- ===== src/Scheduler/Loop/Election.antt =====
-- internal/scheduler/scheduler.go: the election of a leader leaves the times of the last executions.
use text.Mathlib.TextLemmas.{append_inj}
use text.Mathlib.TextEquality.{eq_iff}
use taskqueue_go.Prelude.{◌≡◌, ◌≢◌, refl, Bool, String, arith}
use taskqueue_go.GoTime.{Duration}
use taskqueue_go.RateLimit.{Transport, answered, refused, lost}
use taskqueue_go.Scheduler.Keys.{TextKeys, IsTextKeys}
use taskqueue_go.Scheduler.{
  extend, check_held, after_set_nx, Scheduler, Calls, lead, acquire_leadership, last_exec_key,
}

pub leader-last_exec_key : (id : String) → last_exec_key id ≢ "taskqueue:scheduler:leader"
leader-last_exec_key id e =
    let (same, rest) =
      append_inj {s₁ = "taskqueue:schedule:"} {s₂ = "taskqueue:scheduler"} {t₁ = id}
        {t₂ = ":leader"} e refl in
    ground (arith, eq_iff "taskqueue:schedule:" "taskqueue:scheduler")

module _ (K : TextKeys) (laws : IsTextKeys K) where
  get-extend :
      (t : Transport) (j key : String) (ttl : Duration) (k : K.State)
      → j ≢ key
      → K.get j (extend K t key ttl k).1 ≡ K.get j k
  get-extend answered j key ttl k other = laws.get-expire_other j key ttl k other
  get-extend (refused e) j key ttl k other = refl
  get-extend (lost e) j key ttl k other = laws.get-expire_other j key ttl k other

  get-check_held :
      (t u : Transport) (j key : String) (ttl : Duration) (k : K.State)
      → j ≢ key
      → K.get j (check_held K t u key ttl k).1 ≡ K.get j k
  get-check_held answered u j key ttl k other = ground (arith, get-extend u j key ttl k other)
  get-check_held (refused e) u j key ttl k other = refl
  get-check_held (lost e) u j key ttl k other = refl

  get-after_set_nx :
      (c : Calls) (t : Transport) (j key : String) (ttl : Duration) (k k' : K.State) (won : Bool)
      → j ≢ key
      → K.get j k' ≡ K.get j k
      → K.get j (after_set_nx K c key ttl k t (won, k')).1 ≡ K.get j k
  get-after_set_nx c answered j key ttl k k' won other e =
      ground (arith, get-check_held c.get_leader c.expire_leader j key ttl k' other)
  get-after_set_nx c (refused x) j key ttl k k' won other e = refl
  get-after_set_nx c (lost x) j key ttl k k' won other e = e

  -- The election leaves all keys but the leader's.
  pub get-lead :
      {Queue : Type 0} (sch : Scheduler Queue) (c : Calls) (j : String) (k : K.State)
      → j ≢ sch.leader_key
      → K.get j (lead K sch c k).1 ≡ K.get j k
  unfolding acquire_leadership
  get-lead sch c j k other = ground (
    arith,
    get-after_set_nx c c.set_nx_leader j sch.leader_key sch.config.leader_election_ttl k
        (K.set_nx sch.leader_key "leader" sch.config.leader_election_ttl k).1
        (K.set_nx sch.leader_key "leader" sch.config.leader_election_ttl k).0 other
        (laws.set_nx-other j sch.leader_key "leader" sch.config.leader_election_ttl k other),
  )
