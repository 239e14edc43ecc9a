-- ===== src/LiveStore/Batches.antt =====
-- `get_batch` of livestore.py against its specification.
use streams_rollout_market.Prelude.{
  All, ℕ, zero, suc, ◌≡◌, ◌⊎◌, ℤ, pos, negsuc, pos_part, Bool, true, [], ◌∷◌, map, take, length,
  ◌+◌, Dict, arith,
}
use streams_rollout_market.Contracts.{accepted, correctable, quarantined, status_eq}
use streams_rollout_market.LiveStore.Serving.{
  select, mark, mark-zero, total_served, total_served-mark, serve_loop_lem,
}
use streams_rollout_market.LiveStore.{
  StoredGroup, LiveStore, served, get_batch, in_states, servable_states,
}

-- If admission implies `P`, and `P` does not read the servings, a batch has `P` throughout.
pub All-take {ℓ} :
    (P : StoredGroup → Type ℓ) (admits : StoredGroup → Bool)
    → ((r : StoredGroup) → admits r ≡ true → P (served r))
    → (n : ℕ) (d : Dict StoredGroup) → All P (take n (map served (select admits d)))
All-take P admits f zero d = tt
All-take P admits f (suc n) [] = tt
All-take P admits f (suc n) (e ∷ d) =
    ground (arith, f e.1, All-take P admits f n d, All-take P admits f (suc n) d)

-- `record.state in servable`, as a filter.
abbrev pub servable : Bool → StoredGroup → Bool
servable include_quarantined r = in_states r.state (servable_states include_quarantined)

-- The batch is the first `max_groups` servable records in insertion order, each with one more
-- serving, and exactly those records count the serving in the store; at most zero asks for nothing.
pub get_batch_lem :
    (n : ℤ) (quarantined_too : Bool) (s : LiveStore)
    → get_batch n quarantined_too s ≡ (
      take (pos_part n) (map served (select (servable quarantined_too) s.records)),
      record { records = mark (servable quarantined_too) (pos_part n) s.records },
    )
unfolding get_batch
get_batch_lem (negsuc n) q s = ground (arith, mark-zero (servable q) s.records)
get_batch_lem (pos zero) q s = ground (arith, mark-zero (servable q) s.records)
get_batch_lem (pos (suc m)) q s = ground (arith, serve_loop_lem (servable q) s.records [] (suc m) m)

-- A batch holds accepted and correctable records, and quarantined ones only if the caller opted in.
abbrev pub IsServable : Bool → StoredGroup → Type 0
IsServable q r =
    (r.state ≡ accepted) ⊎ ((r.state ≡ correctable) ⊎ ((r.state ≡ quarantined) × (q ≡ true)))

servable-IsServable : (q : Bool) (r : StoredGroup) → servable q r ≡ true → IsServable q (served r)
unfolding status_eq
servable-IsServable q r h = ground arith

-- Every record that `get_batch` returns is accepted or correctable, or is quarantined and the
-- caller opted in; pending and rejected records are never served.
pub get_batch-IsServable :
    (n : ℤ) (q : Bool) (s : LiveStore) → All (IsServable q) (get_batch n q s).0
get_batch-IsServable n q s =
    rw (get_batch_lem n q s)
      (All-take (IsServable q) (servable q) (servable-IsServable q) (pos_part n) s.records)

-- The servings recorded in the store grow by exactly the size of the batch.
pub get_batch-total_served :
    (n : ℤ) (q : Bool) (s : LiveStore)
    → total_served (get_batch n q s).1.records ≡ total_served s.records + length (get_batch n q s).0
get_batch-total_served n q s =
    rw (get_batch_lem n q s) (total_served-mark (servable q) (pos_part n) s.records)
