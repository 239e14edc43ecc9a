-- ===== src/PoolReload.antt =====
-- src/rollout_market/pool_reload.py: which workers have loaded which policy version.
pub mod Agreement
pub mod Quorum
use mathlib.Core.List.{reverse}
use streams_rollout_market.Prelude.{
  ℕ, ℤ, pos, ltb_ℤ, String, Bool, true, false, not, ◌&&◌, Option, none, some, List, [], ◌∷◌, ◌++◌,
  Dict, lookup, insert, count, length, member, Time, ◌==◌, ◌!=◌, Result, ok, raise,
  quorum_violation, value_error, if◌then◌else◌,
}

pub record ReloadAck : Type 0 where
  pub worker_id : String
  pub policy_version : String
  pub checkpoint_digest : String
  pub acked_at : Time

pub record Tracker : Type 0 where
  pub acks : Dict ReloadAck
  pub digest_by_version : Dict String

abbrev pub empty : Tracker
empty = record { acks = []; digest_by_version = [] }

unfoldable pub record_ack : ReloadAck → Tracker → Result (Unit {0}) × Tracker
record_ack ack t = elim (lookup ack.policy_version t.digest_by_version) [
  | none ↦ (
    ok tt,
    record {
      acks = insert ack.worker_id ack t.acks;
      digest_by_version = insert ack.policy_version ack.checkpoint_digest t.digest_by_version;
    },
  )
  | some existing ↦
      if existing != ack.checkpoint_digest
      then (raise quorum_violation, t)
      else (ok tt, record t { acks = insert ack.worker_id ack t.acks })
]

abbrev pub acks_version : String → ReloadAck → Bool
acks_version version a = a.policy_version == version

unfoldable pub ack_count : String → Tracker → ℕ
ack_count version t = count (acks_version version) t.acks

-- The set comprehension of `workers_acked`, as the list of its elements.
unfoldable pub acked_ids : String → Dict ReloadAck → List String
acked_ids version [] = []
acked_ids version (e ∷ acks) =
    let rest = acked_ids version acks in
    if acks_version version e.1 then e.1.worker_id ∷ rest else rest

unfoldable pub workers_acked : String → Tracker → List String
workers_acked version t = acked_ids version t.acks

-- `if version not in seen: seen.append(version)`
abbrev pub see : String → List String → List String
see version seen = if member version seen then seen else seen ++ version ∷ []

unfoldable pub versions_loop : Dict ReloadAck → List String → List String
versions_loop [] seen = seen
versions_loop (e ∷ acks) seen = versions_loop acks (see e.1.policy_version seen)

unfoldable pub known_versions : Tracker → List String
unfolding versions_loop
known_versions t = versions_loop t.acks []

-- `n is not None and n < k`
abbrev pub pool_too_small : Option ℤ → ℤ → Bool
pool_too_small none k = false
pool_too_small (some n) k = ltb_ℤ n k

unfoldable pub has_quorum : String → ℤ → Option ℤ → Tracker → Result Bool
has_quorum version k n t =
    if ltb_ℤ k (pos 1)
    then raise value_error
    else if pool_too_small n k
    then raise value_error
    else ok (not (ltb_ℤ (pos (ack_count version t)) k))

-- The loop over the candidates.
unfoldable pub first_active : List String → ℤ → Option ℤ → Tracker → Result (Option String)
first_active [] k n t = ok none
first_active (version ∷ rest) k n t =
    let later = first_active rest k n t in
    elim (has_quorum version k n t) [
      | raise e ↦ raise e
      | ok reached ↦ if reached then ok (some version) else later
    ]

abbrev pub candidates_or : Option (List String) → Tracker → List String
candidates_or none t = reverse (known_versions t)
candidates_or (some given) t = given

unfoldable pub pool_active_version :
    ℤ → Option ℤ → Option (List String) → Tracker → Result (Option String)
pool_active_version k n candidates t = first_active (candidates_or candidates t) k n t

unfoldable pub is_worker_aligned : String → String → Tracker → Bool
is_worker_aligned worker_id version t = elim (lookup worker_id t.acks) [
  | none ↦ false
  | some ack ↦ acks_version version ack
]

-- `len(tracker)`
unfoldable pub size : Tracker → ℕ
size t = length t.acks
