-- ===== src/WorkerSdk.antt =====
-- src/rollout_market/worker.py: a worker's client of the broker. The client is its manifest.
pub mod Rounds
use streams_rollout_market.Prelude.{String, Bool, Option, none, Time, Texts, Result, ok, raise}
use streams_rollout_market.Contracts.{
  GroupDecision, RolloutLease, SampleGroup, WorkerHeartbeat, WorkerManifest,
}
use streams_rollout_market.LiveStore.{StoredGroup}
use streams_rollout_market.Broker.State.{Broker}
use streams_rollout_market.Broker.Workers
use streams_rollout_market.Broker.Leasing.{acquire_lease}
use streams_rollout_market.Broker.Closing

unfoldable pub register : WorkerManifest → Time → Broker → Broker
register m clock b = Workers.register_worker m clock b

abbrev pub beat_of : WorkerManifest → Bool → Option String → Time → WorkerHeartbeat
beat_of m healthy current_policy_version clock = record {
  worker_id = m.worker_id;
  engine_name = m.engine_name;
  engine_version = m.engine_version;
  device_type = m.device_type;
  precision_classes = m.precision_classes;
  max_context_tokens = m.max_context_tokens;
  price_hint_per_hour = m.price_hint_per_hour;
  current_policy_version = current_policy_version;
  healthy = healthy;
  last_seen_at = clock;
}

unfoldable pub heartbeat :
    WorkerManifest → Bool → Option String → Time → Broker → Result WorkerHeartbeat × Broker
heartbeat m healthy current_policy_version clock b =
    let beat = beat_of m healthy current_policy_version clock in
    let answer = Workers.heartbeat beat clock b in
    (elim (answer.0) [ raise e ↦ raise e | ok done ↦ ok beat ], answer.1)

unfoldable pub fetch_lease :
    Texts → String → String → WorkerManifest → Time → Broker → Result (Option RolloutLease) × Broker
fetch_lease py uuid_lease uuid_assign m clock b =
    acquire_lease py uuid_lease uuid_assign m.worker_id none clock b

unfoldable pub submit_group :
    WorkerManifest
    → RolloutLease
    → SampleGroup
    → GroupDecision
    → Time
    → Broker
    → Result StoredGroup × Broker
submit_group m lease group decision clock b =
    Closing.submit_group m.worker_id lease.lease_id group decision clock b

unfoldable pub report_failure :
    WorkerManifest
    → RolloutLease
    → String
    → Option String
    → Time
    → Broker
    → Result (Unit {0}) × Broker
report_failure m lease reason detail clock b =
    Closing.report_failure m.worker_id lease.lease_id reason detail clock b
