-- ===== src/Broker/Workers.antt =====
-- Workers and jobs of worker_broker.py: registration, heartbeats, the queue and worker health.
use streams_rollout_market.Prelude.{
  ◌-◌, String, Bool, Option, none, some, List, lookup, contains, insert, values, member, discard,
  Time, ltb, get_or, not, Result, ok, raise, worker_not_registered, key_error, if◌then◌else◌,
}
use streams_rollout_market.Contracts.{RolloutJob, WorkerHeartbeat, WorkerManifest}
use streams_rollout_market.Broker.State.{
  Broker, LeaseRecord, FailureEntry, AuditEntry, WorkerHealth, active, stale, dead, unknown, entry,
  record_event,
}

unfoldable pub register_worker : WorkerManifest → Time → Broker → Broker
register_worker manifest clock b =
    record_event (entry clock "worker_registered" (some manifest.worker_id) none none "")
      (record b {
        workers = insert manifest.worker_id manifest b.workers;
        dead_workers = discard manifest.worker_id b.dead_workers;
      })

unfoldable pub heartbeat : WorkerHeartbeat → Time → Broker → Result (Unit {0}) × Broker
heartbeat beat clock b =
    if not (contains beat.worker_id b.workers)
    then (raise worker_not_registered, b)
    else (let b' = record b {
      heartbeats = insert beat.worker_id beat b.heartbeats;
      dead_workers = discard beat.worker_id b.dead_workers;
    } in
        if member beat.worker_id b.dead_workers
        then (
          ok tt,
          record_event (entry clock "worker_revived" (some beat.worker_id) none none "") b',
        )
        else (ok tt, b'))

unfoldable pub submit_job : RolloutJob → Time → Broker → Broker
submit_job job clock b =
    record_event (entry clock "job_enqueued" none none (some job.job_id) "")
      (record b { jobs = insert job.job_id job b.jobs })

unfoldable pub workers : Broker → List WorkerManifest
workers b = values b.workers

unfoldable pub known_jobs : Broker → List RolloutJob
known_jobs b = values b.jobs

-- `age > ttl` for `age = now - last_seen_at`; a heartbeat from the future has a negative age, which
-- exceeds no limit, as the truncated 0 does not.
unfoldable pub is_stale : Broker → Time → WorkerHeartbeat → Bool
is_stale b now beat = ltb b.heartbeat_ttl (now - beat.last_seen_at)

unfoldable pub worker_health : String → Option Time → Time → Broker → Result WorkerHealth
unfolding is_stale
worker_health worker_id now clock b =
    if not (contains worker_id b.workers)
    then raise worker_not_registered
    else if member worker_id b.dead_workers
    then ok dead
    else elim (lookup worker_id b.heartbeats) [
      | none ↦ ok unknown
      | some beat ↦ if is_stale b (get_or now clock) beat then ok stale else ok active
    ]

unfoldable pub is_dead : String → Broker → Bool
is_dead worker_id b = member worker_id b.dead_workers

-- `lease(lease_id)`
unfoldable pub lease : String → Broker → Result LeaseRecord
lease lease_id b = elim (lookup lease_id b.leases) [ none ↦ raise key_error | some r ↦ ok r ]

unfoldable pub heartbeats : Broker → List WorkerHeartbeat
heartbeats b = values b.heartbeats

unfoldable pub failures : Broker → List FailureEntry
failures b = b.failures

unfoldable pub audit_log : Broker → List AuditEntry
audit_log b = b.audit
