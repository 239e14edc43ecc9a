-- ===== src/Broker/State.antt =====
-- The data of worker_broker.py. The two time limits are whole microseconds.
use streams_rollout_market.Prelude.{
  String, Bool, true, false, Option, List, [], ◌∷◌, ◌++◌, Dict, Time,
}
use streams_rollout_market.Contracts.{RolloutJob, RolloutLease, WorkerHeartbeat, WorkerManifest}
use streams_rollout_market.LiveStore.{LiveStore}

pub data LeaseState : Type 0 where
  issued submitted expired abandoned failed : LeaseState

pub data WorkerHealth : Type 0 where
  active stale dead unknown : WorkerHealth

pub record LeaseRecord : Type 0 where
  pub lease : RolloutLease
  pub job : RolloutJob
  pub state : LeaseState
  pub failure_reason : Option String
  pub failure_detail : Option String
  pub submitted_group_id : Option String
  pub issued_at : Time
  pub closed_at : Option Time

pub record AuditEntry : Type 0 where
  pub timestamp : Time
  pub event : String
  pub worker_id : Option String
  pub lease_id : Option String
  pub job_id : Option String
  pub detail : String

-- One entry of `_failures`.
pub record FailureEntry : Type 0 where
  pub worker_id : String
  pub lease_id : String
  pub job_id : String
  pub reason : String
  pub detail : String

pub record Broker : Type 0 where
  pub store : LiveStore
  pub lease_ttl : Time
  pub heartbeat_ttl : Time
  pub workers : Dict WorkerManifest
  pub heartbeats : Dict WorkerHeartbeat
  pub dead_workers : List String
  pub jobs : Dict RolloutJob
  pub leased_job_ids : List String
  pub leases : Dict LeaseRecord
  pub idempotency_keys : Dict String
  pub failures : List FailureEntry
  pub audit : List AuditEntry

-- `LocalWorkerBroker(store, lease_ttl_s=…, heartbeat_ttl_s=…)`
unfoldable pub init : LiveStore → Time → Time → Broker
init store lease_ttl heartbeat_ttl = record {
  store = store;
  lease_ttl = lease_ttl;
  heartbeat_ttl = heartbeat_ttl;
  workers = [];
  heartbeats = [];
  dead_workers = [];
  jobs = [];
  leased_job_ids = [];
  leases = [];
  idempotency_keys = [];
  failures = [];
  audit = [];
}

-- An entry of `_record`, which appends it to the log.
abbrev pub entry :
    Time → String → Option String → Option String → Option String → String → AuditEntry
entry when event worker_id lease_id job_id detail = record {
  timestamp = when;
  event = event;
  worker_id = worker_id;
  lease_id = lease_id;
  job_id = job_id;
  detail = detail;
}

abbrev pub record_event : AuditEntry → Broker → Broker
record_event e b = record b { audit = b.audit ++ e ∷ [] }

-- `record.state == LeaseState.ISSUED`
unfoldable pub is_issued : LeaseState → Bool
is_issued issued = true
is_issued _ = false
