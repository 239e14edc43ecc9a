-- ===== src/Examples/Stores.antt =====
-- The live store and the trainer's client, at a store with one accepted group.
use streams_rollout_market.Prelude.{All, ◌≡◌, refl, pos, false, none, some, map, take}
use streams_rollout_market.Contracts.{new_group_decision, status_eq}
use streams_rollout_market.LiveStore
use streams_rollout_market.LiveStore.{
  LiveStore, StoredGroup, submit, get_batch, served, size, count_by_state, new_record,
}
use streams_rollout_market.LiveStore.Serving.{select, mark}
use streams_rollout_market.LiveStore.Records.{Keeps}
use streams_rollout_market.LiveStore.WellFormed.{IsValid}
use streams_rollout_market.LiveStore.Batches.{servable, get_batch_lem}
use streams_rollout_market.TrainerClient.{fresh, admits, fetch}
use streams_rollout_market.TrainerClient.Fetch.{IsTrainable, fetch_lem, fetch-IsTrainable}
use streams_rollout_market.Lifecycle.{
  submits, batches, Reach, here, next, Reach-Keeps, Reach-IsValid,
}
use streams_rollout_market.Examples.Data.{group, decision}

abbrev stored : LiveStore
stored = (submit group decision 7 LiveStore.empty).1

abbrev after_batch : LiveStore
after_batch = (get_batch (pos 1) false stored).1

abbrev history : Reach LiveStore.empty after_batch
history =
    next (next here (submits group decision 7 (unfold new_group_decision status_eq in refl)))
      (batches (pos 1) false)

Reach-Keeps_example : Keeps LiveStore.empty after_batch
Reach-Keeps_example = Reach-Keeps history

Reach-IsValid_example : IsValid after_batch
Reach-IsValid_example = Reach-IsValid history tt

get_batch_lem_example : get_batch (pos 1) false stored ≡ (
  take 1 (map served (select (servable false) stored.records)),
  record { records = mark (servable false) 1 stored.records },
)
get_batch_lem_example = get_batch_lem (pos 1) false stored

fetch_lem_example :
    ((fetch "p1" (pos 1) (some (pos 2)) none fresh stored).0 ≡ record {
      requested_policy_version = "p1";
      max_staleness = some (pos 2);
      precision_class = none;
      replay_tier = fresh;
      groups = take 1 (map served (select (admits "p1" (some (pos 2)) none fresh) stored.records));
    })
    × ((fetch "p1" (pos 1) (some (pos 2)) none fresh stored).1
        ≡ record { records = mark (admits "p1" (some (pos 2)) none fresh) 1 stored.records })
fetch_lem_example = fetch_lem "p1" (some (pos 2)) none fresh (pos 1) stored

fetch-IsTrainable_example :
    All
      (IsTrainable "p1" (some (pos 2)) none fresh)
      (fetch "p1" (pos 1) (some (pos 2)) none fresh stored).0.groups
fetch-IsTrainable_example = fetch-IsTrainable "p1" (some (pos 2)) none fresh (pos 1) stored
