-- ===== src/Examples/Simulated.antt =====
-- One round of the marketplace simulation, with a worker that ships a wrong tokenizer hash.
use streams_rollout_market.Broker.Leasing.{
  engine_refused, lacks_quantization, capabilities_match, next_job, lease_job, acquire_lease,
}
use streams_rollout_market.Prelude.{
  ◌+◌, ◌<◌, dec_text, discard, add, member, arith, ok, ◌≡◌, pos, lookup, insert, none, some, refl,
}
use streams_rollout_market.Contracts.{
  non_empty, all_non_empty, new_rollout_lease, new_sample_group, new_trajectory, SampleGroup,
  GroupDecision, RolloutLease, quarantine, tokenizer_mismatch,
}
use streams_rollout_market.LiveStore
use streams_rollout_market.LiveStore.{StoredGroup}
use streams_rollout_market.Broker.State.{Broker, init}
use streams_rollout_market.Broker.Workers.{submit_job, register_worker}
use streams_rollout_market.WorkerSdk.{register, fetch_lease}
use streams_rollout_market.Simulation.Profiles
use streams_rollout_market.Simulation.Profiles.{
  trajectory_with, rollout_logprobs, group_of, Padding, Draws, stale, honest, toxic_tokenizer,
  WorkerProfile, make_group, policy_manifest,
}
use streams_rollout_market.Simulation.Rounds.{Readings, worker_round, decide_for_clean_group}
use streams_rollout_market.Simulation.Leases.{IsSimBroker}
use streams_rollout_market.Simulation.Samples.{IsSigned}
use streams_rollout_market.Simulation.Submitting.{IsOpen}
use streams_rollout_market.Simulation.Stored.{worker_round-stored}
use streams_rollout_market.Simulation.Stale.{decide_for_clean_group_stale}
use streams_rollout_market.Examples.Data.{texts, floats}

abbrev pad : Padding
pad = record { four = λ n. "0000"; two = λ n. "00" }

abbrev draws : Draws
draws = record { first = 1; second = 0; third = 1 }

abbrev reading : Readings
reading = record {
  uuid_lease = "a";
  uuid_assign = "b";
  draws = draws;
  fetched_at = 5;
  made_at = 6;
  validated_at = 7;
  submitted_at = 8;
}

-- A broker with the worker and one job of the simulation.
abbrev market : Broker
market =
    submit_job (Profiles.job floats pad 0 2) 2
      (register (Profiles.manifest "w00" 1) 1 (init LiveStore.empty 100 50))

market-IsSimBroker : IsSimBroker floats pad market
unfolding submit_job register register_worker init insert
market-IsSimBroker = ((0, 2, refl), tt)

floats-IsSigned : IsSigned floats draws
floats-IsSigned = record { zero_is = refl; fixed_is_not = refl; noise_is_not = refl }

abbrev sim_lease : RolloutLease
sim_lease = record {
  lease_id = "lease-a";
  job_id = "job-0000";
  assignment_id = "assign-b";
  worker_id = "w00";
  policy_version = "v0001";
  required_precision_class = "bf16";
  required_quantization_class = none;
  max_context_tokens = pos 4096;
  group_size = pos 2;
  idempotency_key = "idem-0000";
  issued_at = 5;
  expires_at = 105;
}

lease_given :
    (fetch_lease texts "a" "b" (Profiles.manifest "w00" 1) 5 market).0 ≡ ok (some sim_lease)
unfolding Profiles.job Profiles.manifest new_rollout_lease all_non_empty non_empty fetch_lease
    acquire_lease lease_job next_job capabilities_match lacks_quantization engine_refused register
    register_worker submit_job init lookup insert member add discard dec_text
lease_given = refl

lease-IsOpen : IsOpen sim_lease (fetch_lease texts "a" "b" (Profiles.manifest "w00" 1) 5 market).1
unfolding Profiles.job Profiles.manifest new_rollout_lease all_non_empty non_empty fetch_lease
    acquire_lease lease_job next_job capabilities_match lacks_quantization engine_refused register
    register_worker submit_job init lookup insert member add discard dec_text
lease-IsOpen = record { new_group = refl; unbound = refl }

in_time : 7 < 5 + market.lease_ttl
unfolding submit_job register register_worker init
in_time = omega arith

worker_round-stored_example :
    (let answer =
        worker_round texts floats
          (Profiles.manifest "w00" 1)
          toxic_tokenizer
          (policy_manifest 0)
          reading
          market in
      (d : GroupDecision) × (s : StoredGroup) × (answer.0
        ≡ ok (some ((Profiles.manifest "w00" 1).worker_id, toxic_tokenizer, d)))
      × (lookup s.group.group_id answer.1.store.records ≡ some s)
      × (make_group floats sim_lease toxic_tokenizer draws 6 ≡ ok s.group)
      × (s.rejection_reason ≡ some tokenizer_mismatch)
      × (s.state ≡ d.status))
worker_round-stored_example =
    worker_round-stored texts floats pad (Profiles.manifest "w00" 1) toxic_tokenizer 0 reading
      market sim_lease market-IsSimBroker floats-IsSigned in_time lease_given lease-IsOpen

abbrev stale_group : SampleGroup
stale_group =
    group_of floats sim_lease stale (trajectory_with floats (rollout_logprobs floats stale draws)) 6

stale_made : make_group floats sim_lease stale draws 6 ≡ ok stale_group
unfolding make_group group_of rollout_logprobs new_trajectory new_sample_group
stale_made = refl

decide_for_clean_group_stale_example :
    (d : GroupDecision) × (decide_for_clean_group floats stale_group ≡ ok d)
    × (d.recommended_action ≡ quarantine)
decide_for_clean_group_stale_example =
    decide_for_clean_group_stale floats sim_lease draws 6 stale_group stale_made
