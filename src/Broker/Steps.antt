-- ===== src/Broker/Steps.antt =====
-- One call of a method of worker_broker.py, whether it raises or not, and any sequence of calls.
use streams_rollout_market.Prelude.{
  ◌≡◌, refl, String, Bool, true, false, Option, none, some, Dict, List, lookup, insert, member, add,
  discard, Time, Texts, get_or, ok, ◌<>◌, arith,
}
use streams_rollout_market.Contracts.{
  RolloutJob, RolloutLease, WorkerHeartbeat, WorkerManifest, SampleGroup, GroupDecision,
  new_group_decision,
}
use streams_rollout_market.LiveStore
use streams_rollout_market.LiveStore.{StoredGroup}
use streams_rollout_market.Broker.State.{
  Broker, LeaseRecord, LeaseState, issued, submitted, AuditEntry, is_issued, entry, record_event,
}
use streams_rollout_market.Broker.Workers.{register_worker, heartbeat, submit_job}
use streams_rollout_market.Broker.Leasing.{issue, acquire_lease}
use streams_rollout_market.Broker.Closing.{
  bound_elsewhere, after_submit, after_failure, submit_group, report_failure,
}
use streams_rollout_market.Broker.Reaping.{
  sweep_broker, is_overdue, expired_record, expired_event, reap_expired, is_held_by,
  abandoned_record, abandoned_event, abandon_worker, abandon_stale_workers,
}
use streams_rollout_market.Broker.Cases.{
  acquire_cases, submit_cases, failure_cases, abandon_cases, next_job-eligible,
}

-- A lease that was issued and not yet closed, or whose group was accepted.
unfoldable pub is_active : LeaseState → Bool
is_active issued = true
is_active submitted = true
is_active _ = false

-- How a sweep closes a record: for the same lease and job, and for good.
pub record Closes (r r' : LeaseRecord) : Type 0 where
  pub lease : r'.lease ≡ r.lease
  pub job : r'.job ≡ r.job
  pub closed : is_active r'.state ≡ false

-- `uuid4` does not repeat an id that is in use, and a decision was built by pydantic.
pub data Step (py : Texts) (b : Broker) : Broker → Type 0 where
  registers : (m : WorkerManifest) (clock : Time) → Step py b (register_worker m clock b)
  beats : (beat : WorkerHeartbeat) (clock : Time) → Step py b (heartbeat beat clock b).1
  enqueues : (job : RolloutJob) (clock : Time) → Step py b (submit_job job clock b)
  acquires :
      (u v worker_id : String) (now : Option Time) (clock : Time)
      → lookup ("lease-" <> u) b.leases ≡ none
      → Step py b (acquire_lease py u v worker_id now clock b).1
  submits :
      (worker_id lease_id : String) (g : SampleGroup) (d : GroupDecision) (clock : Time)
      → new_group_decision d ≡ ok d
      → Step py b (submit_group worker_id lease_id g d clock b).1
  fails :
      (worker_id lease_id reason : String) (detail : Option String) (clock : Time)
      → Step py b (report_failure worker_id lease_id reason detail clock b).1
  reaps : (now : Option Time) (clock : Time) → Step py b (reap_expired now clock b).1
  abandons : (now : Option Time) (clock : Time) → Step py b (abandon_stale_workers py now clock b).1

pub data Reach (py : Texts) (b : Broker) : Broker → Type 0 where
  here : Reach py b b
  next : {c d : Broker} → Reach py b c → Step py c d → Reach py b d

-- The changes that the calls are made of. What all of them keep, every call keeps.
pub record Kept {ℓ} (P : Broker → Type ℓ) : Type ℓ where
  pub members :
      (b : Broker) (workers : Dict WorkerManifest) (beats : Dict WorkerHeartbeat)
      (dead : List String) (jobs : Dict RolloutJob)
      → P b
      → P (record b { workers = workers; heartbeats = beats; dead_workers = dead; jobs = jobs })
  pub logs : (e : AuditEntry) (b : Broker) → P b → P (record_event e b)
  pub issues :
      (lease : RolloutLease) (job : RolloutJob) (now : Time) (b : Broker)
      → lookup lease.lease_id b.leases ≡ none
      → member lease.job_id b.leased_job_ids ≡ false
      → P b
      → P (issue lease job now b)
  pub submits :
      (worker_id lease_id : String) (g : SampleGroup) (d : GroupDecision) (clock : Time)
      (r : LeaseRecord) (s : StoredGroup) (b : Broker)
      → new_group_decision d ≡ ok d
      → lookup lease_id b.leases ≡ some r
      → is_issued r.state ≡ true
      → bound_elsewhere (lookup r.lease.idempotency_key b.idempotency_keys) g.group_id ≡ false
      → (LiveStore.submit g d clock b.store).0 ≡ ok s
      → P b
      → P (
          after_submit worker_id lease_id g.group_id clock
            (LiveStore.submit g d clock b.store).1
            r
            b)
  pub fails :
      (worker_id lease_id reason : String) (detail : Option String) (clock : Time) (r : LeaseRecord)
      (b : Broker)
      → lookup lease_id b.leases ≡ some r
      → is_issued r.state ≡ true
      → P b
      → P (after_failure worker_id lease_id reason detail clock r b)
  pub sweeps :
      (hit : LeaseRecord → Bool) (close : LeaseRecord → LeaseRecord)
      (event : String → LeaseRecord → AuditEntry) (b : Broker)
      → ((r : LeaseRecord) → hit r ≡ true → is_issued r.state ≡ true)
      → ((r : LeaseRecord) → Closes r (close r))
      → P b
      → P (sweep_broker hit close event b).0

module _ {ℓ} {P : Broker → Type ℓ} (kept : Kept P) (py : Texts) where
  open kept use {members, logs, issues, sweeps}

  heartbeat_keeps :
      (beat : WorkerHeartbeat) (clock : Time) (b : Broker) → P b → P (heartbeat beat clock b).1
  unfolding heartbeat
  heartbeat_keeps beat clock b h =
      let quiet =
        members b b.workers (insert beat.worker_id beat b.heartbeats)
          (discard beat.worker_id b.dead_workers) b.jobs h in
      ground (
        arith,
        quiet,
        logs (entry clock "worker_revived" (some beat.worker_id) none none "") _ quiet,
      )

  abandon_worker_keeps :
      (now age : Time) (worker_id : String) (b : Broker)
      → P b
      → P (abandon_worker py now age worker_id b).1
  unfolding abandon_worker
  abandon_worker_keeps now age worker_id b h = logs _ _ (
      sweeps (is_held_by worker_id) (abandoned_record py now age)
        (abandoned_event py now age worker_id) _ (λ r e. ground arith)
        (λ r. record { lease = refl; job = refl; closed = unfold is_active in refl })
        (members b b.workers b.heartbeats (add worker_id b.dead_workers) b.jobs h))

  pub Step_keeps : {b c : Broker} → Step py b c → P b → P c
  unfolding register_worker submit_job reap_expired
  Step_keeps {b} (registers m clock) h = logs _ _ (
      members b (insert m.worker_id m b.workers) b.heartbeats (discard m.worker_id b.dead_workers)
        b.jobs h)
  Step_keeps {b} (beats beat clock) h = heartbeat_keeps beat clock b h
  Step_keeps {b} (enqueues job clock) h =
      logs _ _ (members b b.workers b.heartbeats b.dead_workers (insert job.job_id job b.jobs) h)
  Step_keeps {b} (acquires u v worker_id now clock new) h =
      acquire_cases P py u v worker_id now clock b h λ m k job _ found.
        issues _ job (get_or now clock) b new
          ((next_job-eligible b.leased_job_ids m b.jobs k job found).0) h
  Step_keeps {b} (submits worker_id lease_id g d clock built) h =
      submit_cases P worker_id lease_id g d clock b h λ r s found live free stored.
        kept.submits worker_id lease_id g d clock r s b built found live free stored h
  Step_keeps {b} (fails worker_id lease_id reason detail clock) h =
      failure_cases P worker_id lease_id reason detail clock b h
        λ r found live. kept.fails worker_id lease_id reason detail clock r b found live h
  Step_keeps {b} (reaps now clock) h =
      sweeps (is_overdue _) (expired_record _) (expired_event _) b (λ r e. ground arith)
        (λ r. record { lease = refl; job = refl; closed = unfold is_active in refl }) h
  Step_keeps {b} (abandons now clock) h = abandon_cases P py abandon_worker_keeps now clock b h

  pub Reach_keeps : {b c : Broker} → Reach py b c → P b → P c
  Reach_keeps here h = h
  Reach_keeps (next r st) h = Step_keeps st (Reach_keeps r h)
