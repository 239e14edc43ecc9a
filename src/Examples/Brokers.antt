-- ===== src/Examples/Brokers.antt =====
-- The broker, at one worker, one job and one lease.
use streams_rollout_market.Prelude.{
  ◌||◌, contains, pos, [], ◌∷◌, ◌<◌, ◌≡◌, ◌≢◌, ◌&&◌, refl, String, true, false, Option, none, some,
  lookup, insert, arith, ok, raise, lease_conflict, Time, member, dec_text, AllEntries, discard,
  if◌then◌else◌, add,
}
use streams_rollout_market.Contracts.{
  new_group_decision, status_eq, new_rollout_lease, non_empty, all_non_empty, new_rollout_job,
  RolloutLease, SampleGroup, GroupDecision, WorkerHeartbeat, is_expired,
}
use streams_rollout_market.LiveStore
use streams_rollout_market.LiveStore.{LiveStore, StoredGroup, new_record}
use streams_rollout_market.Broker.State.{Broker, LeaseRecord, submitted, init, is_issued}
use streams_rollout_market.Broker.Workers.{register_worker, heartbeat, submit_job}
use streams_rollout_market.Broker.Leasing.{
  acquire_lease, lease_job, next_job, capabilities_match, lacks_quantization, engine_refused,
  issued_record,
}
use streams_rollout_market.Broker.Closing.{store_group, submit_group, report_failure, failed_record}
use streams_rollout_market.Broker.Reaping.{reap_expired, is_overdue, expired_record}
use streams_rollout_market.Broker.Sweeps.{hits}
use streams_rollout_market.Broker.Steps.{
  submits, registers, enqueues, acquires, Reach, here, next, is_active,
}
use streams_rollout_market.Broker.Exclusion.{active_unique}
use streams_rollout_market.Broker.History.{KeepsLeases, Reach-KeepsLeases}
use streams_rollout_market.Broker.Outcomes.{
  closed_error, submit_once, failure_requeues, raise_changes_nothing,
}
use streams_rollout_market.Broker.Reaped.{reap_expired_lem}
use streams_rollout_market.Broker.Reaping.{abandon_stale_workers}
use streams_rollout_market.Broker.Workers.{is_dead}
use streams_rollout_market.Broker.Deaths.{is_overdue_beat, abandon_stale_workers-is_dead}
use streams_rollout_market.Broker.Idempotency.{KeepsKeys, IsBound, Reach-KeepsKeys, Reach-IsBound}
use streams_rollout_market.Broker.Acquire.{
  CanRun, IsQueued, capabilities_match_iff, acquire_lease-serves,
}
use streams_rollout_market.Examples.Data.{texts, worker, job, lease, group, decision}

abbrev new : Broker
new = init LiveStore.empty 100 50

-- With the worker and the job.
abbrev ready : Broker
ready = submit_job job 2 (register_worker worker 1 new)

abbrev leased : Broker
leased = (acquire_lease texts "1" "1" "w" none 5 ready).1

leases_new : lookup "lease-1" ready.leases ≡ none
unfolding submit_job register_worker init lookup
leases_new = refl

abbrev history : Reach texts new leased
history =
    next (next (next here (registers worker 1)) (enqueues job 2))
      (acquires "1" "1" "w" none 5 leases_new)

lease_found : lookup "lease-1" leased.leases ≡ some (issued_record lease job 5)
unfolding acquire_lease submit_job register_worker init lookup insert member lease_job next_job
    capabilities_match lacks_quantization engine_refused new_rollout_lease all_non_empty non_empty
    add dec_text discard
lease_found = refl

abbrev first_lease : String
first_lease = "lease-1"

active_unique_example : first_lease ≡ first_lease
active_unique_example =
    active_unique texts LiveStore.empty 100 50 history first_lease first_lease
      (issued_record lease job 5) (issued_record lease job 5) lease_found lease_found
      (unfold is_active in refl) (unfold is_active in refl) refl

Reach-KeepsLeases_example : KeepsLeases new leased
Reach-KeepsLeases_example = Reach-KeepsLeases texts history

jobs-IsQueued : AllEntries (IsQueued texts) ready.jobs
unfolding submit_job register_worker init insert new_rollout_job all_non_empty non_empty dec_text
jobs-IsQueued = (record { key = refl; built = refl }, tt)

worker_known : lookup "w" ready.workers ≡ some worker
unfolding submit_job register_worker init lookup insert dec_text
worker_known = refl

worker_alive : member "w" ready.dead_workers ≡ false
unfolding submit_job register_worker init member discard
worker_alive = refl

job_known : lookup "j" ready.jobs ≡ some job
unfolding submit_job register_worker init lookup insert dec_text
job_known = refl

job_free : member "j" ready.leased_job_ids ≡ false
unfolding submit_job register_worker init member
job_free = refl

job_runs : CanRun job worker
unfolding capabilities_match member lacks_quantization engine_refused dec_text
job_runs = (capabilities_match_iff job worker).0 refl

ttl_positive : 0 < ready.lease_ttl
unfolding submit_job register_worker init
ttl_positive = omega arith

acquire_lease-serves_example :
    (l : RolloutLease) × ((acquire_lease texts "1" "1" "w" none 5 ready).0 ≡ ok (some l))
    × (l.worker_id ≡ "w")
    × (member l.job_id ready.leased_job_ids ≡ false)
    × (member l.job_id leased.leased_job_ids ≡ true)
acquire_lease-serves_example =
    acquire_lease-serves texts "1" "1" "w" none 5 ready worker "j" job
      (unfold non_empty dec_text in refl) (unfold non_empty dec_text in refl)
      (unfold non_empty dec_text in refl) ttl_positive jobs-IsQueued worker_known worker_alive
      job_known job_free job_runs

abbrev stored : StoredGroup
stored = new_record group decision 7

submitted_ok : (submit_group "w" "lease-1" group decision 7 leased).0 ≡ ok stored
unfolding submit_group acquire_lease lookup submit_job register_worker insert init dec_text member
    discard lease_job next_job capabilities_match lacks_quantization engine_refused
    new_rollout_lease non_empty is_issued store_group all_non_empty LiveStore.submit add
submitted_ok = refl

abbrev submitted_broker : Broker
submitted_broker = (submit_group "w" "lease-1" group decision 7 leased).1

-- "x" is no worker of the broker.
submit_once_example :
    ((r : LeaseRecord) × (lookup "lease-1" submitted_broker.leases ≡ some r)
      × (r.state ≡ submitted)
      × (r.submitted_group_id ≡ some "g"))
    × ((g' : SampleGroup) (d' : GroupDecision) (later : Time)
        → submit_group "x" "lease-1" g' d' later submitted_broker
          ≡ (raise (closed_error "x" submitted_broker), submitted_broker))
    × ((reason : String) (detail : Option String) (later : Time)
        → report_failure "x" "lease-1" reason detail later submitted_broker
          ≡ (raise (closed_error "x" submitted_broker), submitted_broker))
submit_once_example =
    submit_once texts "w" "lease-1" group decision 7 leased submitted_broker stored "x" submitted_ok
      Reach.here

reported_ok : (report_failure "w" "lease-1" "oom" none 8 leased).0 ≡ ok tt
unfolding report_failure acquire_lease lookup submit_job register_worker insert init dec_text member
    discard lease_job next_job capabilities_match lacks_quantization engine_refused
    new_rollout_lease non_empty is_issued
reported_ok = refl

failure_requeues_example :
    (let b' = (report_failure "w" "lease-1" "oom" none 8 leased).1 in
      (r : LeaseRecord) × (lookup "lease-1" leased.leases ≡ some r)
      × (r.lease.worker_id ≡ "w")
      × (lookup "lease-1" b'.leases ≡ some (failed_record "oom" none 8 r))
      × (member r.lease.job_id b'.leased_job_ids ≡ false)
      × ((j : String)
          → j ≢ r.lease.job_id
          → member j b'.leased_job_ids ≡ member j leased.leased_job_ids)
      × (b'.jobs ≡ leased.jobs))
failure_requeues_example = failure_requeues "w" "lease-1" "oom" none 8 leased reported_ok

raise_changes_nothing_example :
    ((beat : WorkerHeartbeat)
      → (heartbeat beat 9 leased).0 ≡ raise lease_conflict
      → (heartbeat beat 9 leased).1 ≡ leased)
    × ((u v worker_id : String) (now : Option Time)
        → (acquire_lease texts u v worker_id now 9 leased).0 ≡ raise lease_conflict
        → (acquire_lease texts u v worker_id now 9 leased).1 ≡ leased)
    × ((worker_id lease_id : String) (g : SampleGroup) (d : GroupDecision)
        → (submit_group worker_id lease_id g d 9 leased).0 ≡ raise lease_conflict
        → (submit_group worker_id lease_id g d 9 leased).1 ≡ leased)
    × ((worker_id lease_id reason : String) (detail : Option String)
        → (report_failure worker_id lease_id reason detail 9 leased).0 ≡ raise lease_conflict
        → (report_failure worker_id lease_id reason detail 9 leased).1 ≡ leased)
raise_changes_nothing_example = raise_changes_nothing texts 9 leased lease_conflict

reap_expired_lem_example :
    ((k : String) (r : LeaseRecord)
      → lookup k leased.leases ≡ some r
      → lookup k (reap_expired (some 200) 9 leased).1.leases
        ≡ some (if is_issued r.state && is_expired r.lease 200 then expired_record 200 r else r))
    × ((reap_expired (some 200) 9 leased).0 ≡ hits (is_overdue 200) leased.leases)
reap_expired_lem_example = reap_expired_lem (some 200) 9 leased

abbrev closed : Broker
closed = (submit_group "w" "lease-1" group decision 7 leased).1

abbrev whole_history : Reach texts new closed
whole_history =
    next history
      (submits "w" "lease-1" group decision 7 (unfold new_group_decision status_eq in refl))

Reach-KeepsKeys_example : KeepsKeys new closed
Reach-KeepsKeys_example = Reach-KeepsKeys texts whole_history

Reach-IsBound_example : IsBound closed
Reach-IsBound_example = Reach-IsBound texts LiveStore.empty 100 50 whole_history

abbrev beat : WorkerHeartbeat
beat = record {
  worker_id = "w";
  engine_name = "vllm";
  engine_version = "1";
  device_type = "gpu";
  precision_classes = "bf16" ∷ [];
  max_context_tokens = pos 64;
  price_hint_per_hour = none;
  current_policy_version = none;
  healthy = true;
  last_seen_at = 10;
}

abbrev beating : Broker
beating = (heartbeat beat 10 leased).1

abandon_stale_workers-is_dead_example :
    is_dead "w" (abandon_stale_workers texts (some 100) 0 beating).1 ≡ (
      is_dead "w" beating
      || (contains "w" beating.workers
          && is_overdue_beat beating.heartbeat_ttl 100 (lookup "w" beating.heartbeats)))
abandon_stale_workers-is_dead_example = abandon_stale_workers-is_dead texts (some 100) 0 beating "w"
