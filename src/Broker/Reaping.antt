-- ===== src/Broker/Reaping.antt =====
-- `reap_expired` and `abandon_stale_workers` of worker_broker.py: the sweeps over all leases. Both
-- run the same loop, over `_leases.items()` and with records mutated in place.
use streams_rollout_market.Prelude.{
  ◌-◌, String, Bool, not, ◌&&◌, Option, none, some, List, [], ◌∷◌, ◌++◌, Dict, lookup, insert,
  member, add, discard, Time, Texts, get_or, ◌==◌, ◌<>◌, if◌then◌else◌,
}
use streams_rollout_market.Contracts.{WorkerManifest, WorkerHeartbeat, is_expired}
use streams_rollout_market.Broker.State.{
  Broker, LeaseRecord, expired, abandoned, AuditEntry, is_issued, entry, record_event,
}
use streams_rollout_market.Broker.Workers.{is_stale}

-- What a sweep has changed besides the records, and the lease ids that it closed.
pub record Swept : Type 0 where
  pub leased_job_ids : List String
  pub audit : List AuditEntry
  pub closed : List String

-- One record that the sweep closes.
abbrev pub sweep_step : (String → LeaseRecord → AuditEntry) → String → LeaseRecord → Swept → Swept
sweep_step event lease_id r w = record {
  leased_job_ids = discard r.lease.job_id w.leased_job_ids;
  audit = w.audit ++ event lease_id r ∷ [];
  closed = w.closed ++ lease_id ∷ [];
}

unfoldable pub sweep :
    (LeaseRecord → Bool)
    → (LeaseRecord → LeaseRecord)
    → (String → LeaseRecord → AuditEntry)
    → Dict LeaseRecord
    → Swept
    → Dict LeaseRecord × Swept
sweep hit close event [] w = ([], w)
sweep hit close event (e ∷ leases) w =
    let (rest, w') =
      sweep hit close event leases (if hit e.1 then sweep_step event e.0 e.1 w else w) in
    (((e.0, (if hit e.1 then close e.1 else e.1)) ∷ rest), w')

-- A sweep over the broker's leases: the broker after it, and the closed lease ids.
unfoldable pub sweep_broker :
    (LeaseRecord → Bool)
    → (LeaseRecord → LeaseRecord)
    → (String → LeaseRecord → AuditEntry)
    → Broker
    → Broker × List String
sweep_broker hit close event b =
    let (leases, w) =
      sweep hit close event b.leases
        (record { leased_job_ids = b.leased_job_ids; audit = b.audit; closed = [] }) in
    (record b { leases = leases; leased_job_ids = w.leased_job_ids; audit = w.audit }, w.closed)

-- `record.state == ISSUED and record.lease.is_expired(now)`
abbrev pub is_overdue : Time → LeaseRecord → Bool
is_overdue now r = is_issued r.state && is_expired r.lease now

abbrev pub expired_record : Time → LeaseRecord → LeaseRecord
expired_record now r = record r { state = expired; closed_at = some now }

abbrev pub expired_event : Time → String → LeaseRecord → AuditEntry
expired_event now lease_id r =
    entry now "lease_expired" (some r.lease.worker_id) (some lease_id) (some r.lease.job_id) ""

unfoldable pub reap_expired : Option Time → Time → Broker → List String × Broker
reap_expired now clock b =
    let at = get_or now clock in
    let (b', closed) = sweep_broker (is_overdue at) (expired_record at) (expired_event at) b in
    (closed, b')

-- The inner loop's tests: the worker's own leases that are still issued.
abbrev pub is_held_by : String → LeaseRecord → Bool
is_held_by worker_id r = r.lease.worker_id == worker_id && is_issued r.state

abbrev pub abandoned_record : Texts → Time → Time → LeaseRecord → LeaseRecord
abandoned_record py now age r = record r {
  state = abandoned;
  failure_reason = some "worker_dead";
  failure_detail = some ("heartbeat age " <> py.seconds age <> "s exceeds ttl");
  closed_at = some now;
}

abbrev pub abandoned_event : Texts → Time → Time → String → String → LeaseRecord → AuditEntry
abandoned_event py now age worker_id lease_id r =
    entry now "lease_abandoned" (some worker_id) (some lease_id) (some r.lease.job_id)
      ("heartbeat_age_s=" <> py.seconds age)

-- The outer loop's body for a worker whose heartbeat is too old.
unfoldable pub abandon_worker : Texts → Time → Time → String → Broker → List String × Broker
abandon_worker py now age worker_id b =
    let (b', lease_ids) =
      sweep_broker (is_held_by worker_id) (abandoned_record py now age)
        (abandoned_event py now age worker_id)
        (record b { dead_workers = add worker_id b.dead_workers }) in
    (
      lease_ids,
      record_event
          (entry now "worker_marked_dead" (some worker_id) none none
            ("heartbeat_age_s=" <> py.seconds age))
          b',
    )

-- The outer loop's tests: already dead, never heartbeated, or recent enough.
unfoldable pub abandon_check :
    Texts
    → Time
    → String
    → Option WorkerHeartbeat
    → Dict (List String)
    → Broker
    → Dict (List String) × Broker
abandon_check py now worker_id none done b = (done, b)
abandon_check py now worker_id (some beat) done b =
    if member worker_id b.dead_workers
    then (done, b)
    else if not (is_stale b now beat)
    then (done, b)
    else (let (lease_ids, b') = abandon_worker py now (now - beat.last_seen_at) worker_id b in
        (insert worker_id lease_ids done, b'))

-- The outer loop over `_workers.items()`.
unfoldable pub abandon_loop :
    Texts → Time → Dict WorkerManifest → Dict (List String) → Broker → Dict (List String) × Broker
abandon_loop py now [] done b = (done, b)
abandon_loop py now (w ∷ workers) done b =
    let (done', b') = abandon_check py now w.0 (lookup w.0 b.heartbeats) done b in
    abandon_loop py now workers done' b'

unfoldable pub abandon_stale_workers :
    Texts → Option Time → Time → Broker → Dict (List String) × Broker
abandon_stale_workers py now clock b = abandon_loop py (get_or now clock) b.workers [] b
