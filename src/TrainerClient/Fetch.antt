-- ===== src/TrainerClient/Fetch.antt =====
-- `fetch` of trainer_client.py against its specification.
use streams_rollout_market.Prelude.{
  All, zero, suc, ◌+◌, ◌≤◌, ◌≡◌, refl, ◌⊎◌, ◌↔◌, ℤ, pos, negsuc, pos_part, neg_part, true, false,
  String, Option, none, some, [], map, take, length, arith,
}
use streams_rollout_market.Contracts.{accepted, correctable, quarantined}
use streams_rollout_market.LiveStore.Serving.{
  select, mark, mark-zero, total_served, total_served-mark, serve_loop_lem,
}
use streams_rollout_market.LiveStore.Batches.{All-take}
use streams_rollout_market.LiveStore.{StoredGroup, LiveStore, served}
use streams_rollout_market.TrainerClient.{
  ReplayTier, replay, too_stale, wrong_precision, admits, fetch,
}

-- What a trainer is promised of every group that it is handed.
pub record IsTrainable (version : String) (staleness : Option ℤ) (precision : Option String)
    (tier : ReplayTier) (r : StoredGroup) : Type 0 where
  pub in_tier :
      (r.state ≡ accepted) ⊎ ((r.state ≡ correctable) ⊎ ((r.state ≡ quarantined) × (tier ≡ replay)))
  pub of_version : r.group.policy_version ≡ version
  pub in_budget :
      (bound : ℤ)
      → staleness ≡ some bound
      → pos_part r.group.policy_lag_steps + neg_part bound
        ≤ pos_part bound + neg_part r.group.policy_lag_steps
  pub of_class : (class : String) → precision ≡ some class → r.group.precision_class ≡ class

not-too_stale :
    (staleness : Option ℤ) (lag : ℤ)
    → ((bound : ℤ)
        → staleness ≡ some bound
        → pos_part lag + neg_part bound ≤ pos_part bound + neg_part lag)
    → too_stale staleness lag ≡ false
not-too_stale none lag h = refl
not-too_stale (some bound) lag h = ground (arith, h bound refl)

not-wrong_precision :
    (wanted : Option String) (class : String)
    → ((c : String) → wanted ≡ some c → class ≡ c)
    → wrong_precision wanted class ≡ false
not-wrong_precision none class h = refl
not-wrong_precision (some c) class h = ground (arith, h c refl)

module _ (version : String) (staleness : Option ℤ) (precision : Option String)
    (tier : ReplayTier) where
  admits-IsTrainable :
      (r : StoredGroup)
      → admits version staleness precision tier r ≡ true
      → IsTrainable version staleness precision tier r
  unfolding admits
  admits-IsTrainable r h = record {
    in_tier = ground arith;
    of_version = ground arith;
    in_budget = λ bound e. ground arith;
    of_class = λ class e. ground arith;
  }

  IsTrainable-admits :
      (r : StoredGroup)
      → IsTrainable version staleness precision tier r
      → admits version staleness precision tier r ≡ true
  unfolding admits
  IsTrainable-admits r t = ground (
    arith,
    not-too_stale staleness r.group.policy_lag_steps t.in_budget,
    not-wrong_precision precision r.group.precision_class t.of_class,
  )

  -- The filter of `fetch` admits a record exactly if it is trainable under the request.
  pub admits_iff :
      (r : StoredGroup)
      → (admits version staleness precision tier r ≡ true)
        ↔ IsTrainable version staleness precision tier r
  admits_iff r = (admits-IsTrainable r, IsTrainable-admits r)

  -- A record that was trainable is so with one more serving.
  served-IsTrainable :
      (r : StoredGroup)
      → admits version staleness precision tier r ≡ true
      → IsTrainable version staleness precision tier (served r)
  served-IsTrainable r h =
      let t = admits-IsTrainable r h in
      record {
        in_tier = t.in_tier;
        of_version = t.of_version;
        in_budget = t.in_budget;
        of_class = t.of_class;
      }

  -- The batch is the first `n` admitted records in insertion order, each with one more serving,
  -- under the filter that was asked for; the store marks exactly those records as served.
  pub fetch_lem :
      (n : ℤ) (s : LiveStore)
      → ((fetch version n staleness precision tier s).0 ≡ record {
        requested_policy_version = version;
        max_staleness = staleness;
        precision_class = precision;
        replay_tier = tier;
        groups =
            take
              (pos_part n)
              (map served (select (admits version staleness precision tier) s.records));
      })
        × ((fetch version n staleness precision tier s).1 ≡ record {
          records = mark (admits version staleness precision tier) (pos_part n) s.records;
        })
  unfolding fetch
  fetch_lem (negsuc n) s =
      ground (arith, mark-zero (admits version staleness precision tier) s.records)
  fetch_lem (pos zero) s =
      ground (arith, mark-zero (admits version staleness precision tier) s.records)
  fetch_lem (pos (suc m)) s =
      ground
        (arith, serve_loop_lem (admits version staleness precision tier) s.records [] (suc m) m)

  -- Every group that `fetch` hands out is in a state that the tier allows, has exactly the policy
  -- version asked for, and meets the staleness bound and the precision class where they are given.
  pub fetch-IsTrainable :
      (n : ℤ) (s : LiveStore)
      → All
          (IsTrainable version staleness precision tier)
          (fetch version n staleness precision tier s).0.groups
  fetch-IsTrainable n s = rw ((fetch_lem n s).0) (
      All-take (IsTrainable version staleness precision tier)
        (admits version staleness precision tier) served-IsTrainable (pos_part n) s.records)

  -- The servings recorded in the store grow by exactly the number of groups handed out.
  pub fetch-total_served :
      (n : ℤ) (s : LiveStore)
      → total_served (fetch version n staleness precision tier s).1.records
        ≡ total_served s.records + length (fetch version n staleness precision tier s).0.groups
  fetch-total_served n s =
      rw ((fetch_lem n s).0, (fetch_lem n s).1)
        (total_served-mark (admits version staleness precision tier) (pos_part n) s.records)
