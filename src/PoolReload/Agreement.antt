-- ===== src/PoolReload/Agreement.antt =====
-- The acks of pool_reload.py agree on the checkpoint of a version, and each worker stands for one
-- version.
use streams_rollout_market.Prelude.{
  ◌+◌, ◌≤◌, ◌≡◌, ◌≢◌, ◌↔◌, String, some, List, [], ◌∷◌, Dict, lookup, lookup-insert, count, length,
  ◌==◌, ok, raise, quorum_violation, if◌then◌else◌, arith,
}
use streams_rollout_market.PoolReload.{
  ReloadAck, Tracker, empty, record_ack, acks_version, ack_count, is_worker_aligned, size,
}

-- Every ack stands under its worker, with the digest that is known for its version.
pub record IsConsistent (t : Tracker) : Type 0 where
  pub at :
      (w : String) (a : ReloadAck)
      → lookup w t.acks ≡ some a
      → (a.worker_id ≡ w) × (lookup a.policy_version t.digest_by_version ≡ some a.checkpoint_digest)

pub record_ack-IsConsistent :
    (ack : ReloadAck) (t : Tracker) → IsConsistent t → IsConsistent (record_ack ack t).1
unfolding record_ack
record_ack-IsConsistent ack t c = record {
  at = λ w a. ground (
    arith,
    c.at w a,
    lookup-insert ack.worker_id w ack t.acks,
    lookup-insert ack.policy_version a.policy_version ack.checkpoint_digest t.digest_by_version,
  );
}

-- The tracker after a list of acks, refused ones included.
unfoldable pub record_all : List ReloadAck → Tracker → Tracker
record_all [] t = t
record_all (a ∷ as') t = record_all as' (record_ack a t).1

record_all-IsConsistent :
    (acks : List ReloadAck) (t : Tracker) → IsConsistent t → IsConsistent (record_all acks t)
unfolding record_all
record_all-IsConsistent [] t c = c
record_all-IsConsistent (a ∷ as') t c =
    record_all-IsConsistent as' (record_ack a t).1 (record_ack-IsConsistent a t c)

-- After any acks, of which some may have been refused, two workers in the quorum of one version have
-- acked the same checkpoint digest.
pub acks_agree :
    (acks : List ReloadAck) (v w : String) (a b : ReloadAck)
    → (let t = record_all acks empty in
        lookup v t.acks ≡ some a
        → lookup w t.acks ≡ some b
        → a.policy_version ≡ b.policy_version
        → a.checkpoint_digest ≡ b.checkpoint_digest)
acks_agree acks v w a b ha hb same =
    let c =
      record_all-IsConsistent acks empty
        (record { at = λ w a h. absurd (unfold lookup in cc h) }) in
    ground (arith, c.at v a ha, c.at w b hb)

-- An ack is refused exactly if another digest is known for its version, and then changes nothing; an
-- ack that is taken aligns its worker with that version alone, and no other worker changes.
pub record_ack_lem :
    (ack : ReloadAck) (t : Tracker)
    → (((record_ack ack t).0 ≡ raise quorum_violation) ↔ (
        (d : String) × (lookup ack.policy_version t.digest_by_version ≡ some d)
        × (d ≢ ack.checkpoint_digest)))
      × ((record_ack ack t).0 ≡ raise quorum_violation → (record_ack ack t).1 ≡ t)
      × ((record_ack ack t).0 ≡ ok tt
          → (w v : String)
          → is_worker_aligned w v (record_ack ack t).1
            ≡ (if w == ack.worker_id then ack.policy_version == v else is_worker_aligned w v t))
unfolding record_ack is_worker_aligned
record_ack_lem ack t = (
  (λ h. ground arith, λ x. ground (arith, x.1, x.2)),
  λ h. ground arith,
  λ h w v. ground (arith, lookup-insert ack.worker_id w ack t.acks),
)

versions_disjoint :
    (v w : String) (acks : Dict ReloadAck)
    → v ≢ w
    → count (acks_version v) acks + count (acks_version w) acks ≤ length acks
unfolding count
versions_disjoint v w [] n = ground arith
versions_disjoint v w (e ∷ acks) n = ground (arith, versions_disjoint v w acks n)

-- A worker is in the quorum of one version at a time: the acks of two versions together are at most
-- the workers that acked.
pub ack_count_disjoint :
    (v w : String) (t : Tracker) → v ≢ w → ack_count v t + ack_count w t ≤ size t
unfolding ack_count size
ack_count_disjoint v w t n = versions_disjoint v w t.acks n
