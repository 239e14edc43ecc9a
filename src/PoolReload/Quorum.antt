-- ===== src/PoolReload/Quorum.antt =====
-- The version that pool_reload.py reports as pool-active.
use streams_rollout_market.Prelude.{
  ℤ, pos, ltb_ℤ, ◌≤ℤ◌, ◌<ℤ◌, ◌≡◌, ◌≢◌, refl, ◌⊎◌, inl, inr, String, true, false, Option, none, some,
  List, [], ◌∷◌, ok, arith, Time, count, lookup, insert, member,
}
use streams_rollout_market.PoolReload.{
  Tracker, empty, record_ack, ack_count, has_quorum, first_active, candidates_or,
  pool_active_version, pool_too_small, known_versions, versions_loop,
}
use streams_rollout_market.PoolReload.Agreement.{record_all}

-- The thresholds and pool sizes that the tracker takes.
pub record IsThreshold (k : ℤ) (n : Option ℤ) : Type 0 where
  pub positive : ltb_ℤ k (pos 1) ≡ false
  pub possible : pool_too_small n k ≡ false

-- `v` is the first of the candidates that `k` workers have acked.
pub data IsFirst (k : ℤ) (t : Tracker) (v : String) : List String → Type 0 where
  here : {rest : List String} → k ≤ℤ pos (ack_count v t) → IsFirst k t v (v ∷ rest)
  there :
      {u : String} {rest : List String}
      → pos (ack_count u t) <ℤ k
      → IsFirst k t v rest
      → IsFirst k t v (u ∷ rest)

-- No candidate has `k` acks.
abbrev pub AllBelow : ℤ → Tracker → List String → Type 0
AllBelow k t [] = Unit
AllBelow k t (u ∷ rest) = (pos (ack_count u t) <ℤ k) × AllBelow k t rest

-- Which of the two outcomes a search ended with.
abbrev pub Outcome : ℤ → Tracker → List String → Option String → Type 0
Outcome k t candidates none = AllBelow k t candidates
Outcome k t candidates (some v) = IsFirst k t v candidates

has_quorum_cases :
    (u : String) (k : ℤ) (n : Option ℤ) (t : Tracker)
    → IsThreshold k n
    → ((has_quorum u k n t ≡ ok true) × (k ≤ℤ pos (ack_count u t)))
      ⊎ ((has_quorum u k n t ≡ ok false) × (pos (ack_count u t) <ℤ k))
unfolding has_quorum
has_quorum_cases u k n t h = ground (arith, h.positive, h.possible)

first_active_lem :
    (cs : List String) (k : ℤ) (n : Option ℤ) (t : Tracker)
    → IsThreshold k n
    → (r : Option String) × (first_active cs k n t ≡ ok r) × Outcome k t cs r
unfolding first_active
first_active_lem [] k n t h = (none, refl, tt)
first_active_lem (u ∷ rest) k n t h = elim (has_quorum_cases u k n t h) [
  | inl x ↦ (some u, rw (first_active, x.0), here x.1)
  | inr x ↦
      let later = first_active_lem rest k n t h in
      (later.0, rw (first_active, x.0, later.1), below later.0 x.1 later.2)
]
  where
    below :
        (r : Option String)
        → pos (ack_count u t) <ℤ k
        → Outcome k t rest r
        → Outcome k t (u ∷ rest) r
    below none b o = (b, o)
    below (some v) b o = there b o

-- With a threshold `k` of at least 1 that does not exceed the pool size, if that is given, the search
-- always returns: a version that is the first of the candidates with `k` acks, or none when no
-- candidate has them. The candidates are the given list, or else the known versions from the last
-- to the first.
pub pool_active_version_lem :
    (k : ℤ) (n : Option ℤ) (candidates : Option (List String)) (t : Tracker)
    → IsThreshold k n
    → (r : Option String) × (pool_active_version k n candidates t ≡ ok r)
      × Outcome k t (candidates_or candidates t) r
unfolding pool_active_version
pool_active_version_lem k n candidates t h = first_active_lem (candidates_or candidates t) k n t h

-- With one ack required and no candidate list, two workers that loaded `old` and one of them then
-- `new`: `new` has its quorum, and the tracker still returns `old`.
pub pool_active_version_stale :
    (v w old new d e : String) (i j m : Time)
    → v ≢ w
    → old ≢ new
    → (let t =
          record_all
            (record { worker_id = v; policy_version = old; checkpoint_digest = d; acked_at = i }
              ∷ record { worker_id = w; policy_version = old; checkpoint_digest = d; acked_at = j }
              ∷ record { worker_id = v; policy_version = new; checkpoint_digest = e; acked_at = m }
              ∷ [])
            empty in
        (has_quorum new (pos 1) none t ≡ ok true)
        × (pool_active_version (pos 1) none none t ≡ ok (some old)))
unfolding record_all record_ack lookup insert has_quorum ack_count count pool_active_version
    first_active known_versions versions_loop member
pool_active_version_stale v w old new d e i j m n o = (ground arith, ground arith)
