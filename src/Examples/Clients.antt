-- ===== src/Examples/Clients.antt =====
-- The worker's client, the dispatcher and the trainer's feedback at small inputs.
use mathlib.Core.List.{Memᴰ}
use streams_rollout_market.Prelude.{
  sort_by, sort_by, ℕ, ◌≡◌, refl, pos, String, Bool, true, false, Option, none, some, List, [], ◌∷◌,
  ok, All, dec_text, arith, member, insert, lookup, discard,
}
use streams_rollout_market.Contracts.{WorkerHeartbeat, new_rollout_lease, all_non_empty, non_empty}
use streams_rollout_market.LiveStore
use streams_rollout_market.Broker.State.{Broker, init}
use streams_rollout_market.Broker.Workers.{register_worker, submit_job}
use streams_rollout_market.Broker.Leasing.{
  acquire_lease, lease_job, next_job, capabilities_match, lacks_quantization, engine_refused,
}
use streams_rollout_market.WorkerSdk.{register, fetch_lease}
use streams_rollout_market.Dispatcher.{is_eligible, is_cheaper, choose_worker}
use streams_rollout_market.Dispatcher.Choice.{IsAtMost, IsIeee, IsPriced, choose_worker-least}
use streams_rollout_market.Feedback.{
  TrainerFeedback, empty, size, ingest, ingest_all, stats_for_worker, stats_for_engine,
  stats_for_policy,
}
use streams_rollout_market.Feedback.Totals.{ingest_twice, fresh, tally, ingest_all_lem, IsBalanced}
use streams_rollout_market.Examples.Data.{texts, floats, worker, job, lease, manifest}

abbrev new : Broker
new = init LiveStore.empty 100 50

abbrev ready : Broker
ready = submit_job job 2 (register worker 1 new)

lease_given : (fetch_lease texts "1" "1" worker 5 ready).0 ≡ ok (some lease)
unfolding fetch_lease register acquire_lease lookup submit_job register_worker insert init dec_text
    member discard lease_job next_job capabilities_match lacks_quantization engine_refused
    new_rollout_lease non_empty all_non_empty
lease_given = refl

abbrev beat : String → Option ℕ → WorkerHeartbeat
beat worker_id price = record {
  worker_id = worker_id;
  engine_name = "vllm";
  engine_version = "1";
  device_type = "gpu";
  precision_classes = "bf16" ∷ [];
  max_context_tokens = pos 64;
  price_hint_per_hour = price;
  current_policy_version = none;
  healthy = true;
  last_seen_at = 0;
}

abbrev pool : List WorkerHeartbeat
pool =
    beat "u" none
    ∷ beat "v" (some 7)
    ∷ record (beat "x" (some 1)) { healthy = false }
    ∷ beat "w" (some 4)
    ∷ []

chosen : choose_worker floats pool manifest (pos 32) ≡ ok (beat "w" (some 4))
unfolding choose_worker is_eligible member dec_text sort_by is_cheaper
chosen = refl

floats-IsIeee : IsIeee floats
floats-IsIeee = record {
  asymmetric = λ x y h. ground arith;
  transitive = λ x y z p q r h i. ground arith;
  zero = refl;
  equal = λ x y z e. ground arith;
}

pool-IsPriced : All (IsPriced floats) pool
pool-IsPriced = (tt, (refl, (refl, (refl, tt))))

choose_worker-least_example :
    Memᴰ (beat "w" (some 4)) pool
    × (is_eligible manifest (pos 32) (beat "w" (some 4)) ≡ true)
    × All
        (λ v.
          is_eligible manifest (pos 32) v ≡ true → IsAtMost floats (some 4) v.price_hint_per_hour)
        pool
choose_worker-least_example =
    choose_worker-least floats pool manifest (pos 32) (beat "w" (some 4)) floats-IsIeee
      pool-IsPriced chosen

abbrev feedback : String → Bool → Option String → TrainerFeedback
feedback group_id accepted reason = record {
  group_id = group_id;
  worker_id = "w";
  engine_name = "vllm";
  engine_version = "1";
  policy_version = "p1";
  num_policy_tokens = pos 3;
  ess_observed = 1;
  clipped_fraction_observed = 0;
  accepted_by_trainer = accepted;
  trainer_rejection_reason = reason;
  current_policy_logprob_mean = 2;
  current_policy_logprob_std = 0;
  reported_at = 9;
}

abbrev reports : List TrainerFeedback
reports = feedback "g" true none ∷ feedback "h" false (some "stale") ∷ feedback "g" false none ∷ []

ingest_twice_example :
    ingest floats (feedback "g" false none) (ingest floats (feedback "g" true none) empty)
    ≡ ingest floats (feedback "g" true none) empty
ingest_twice_example =
    ingest_twice floats (feedback "g" false none) (feedback "g" true none) empty refl

ingest_all_lem_example :
    (stats_for_worker floats "w" (ingest_all floats reports empty)
      ≡ tally floats (λ f. f.worker_id) "w" (fresh [] reports) (stats_for_worker floats "w" empty))
    × (stats_for_engine floats "w" (ingest_all floats reports empty)
        ≡ tally floats
            (λ f. f.engine_name)
            "w"
            (fresh [] reports)
            (stats_for_engine floats "w" empty))
    × (stats_for_policy floats "w" (ingest_all floats reports empty)
        ≡ tally floats
            (λ f. f.policy_version)
            "w"
            (fresh [] reports)
            (stats_for_policy floats "w" empty))
ingest_all_lem_example = ingest_all_lem floats reports "w" empty

empty-IsBalanced : IsBalanced empty
unfolding size
empty-IsBalanced = record {
  workers = refl;
  engines = refl;
  policies = refl;
  sound_workers = tt;
  sound_engines = tt;
  sound_policies = tt;
}
