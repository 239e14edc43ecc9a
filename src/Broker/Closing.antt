-- ===== src/Broker/Closing.antt =====
-- `submit_group` and `report_failure` of worker_broker.py: a worker closes its lease.
use streams_rollout_market.Prelude.{
  String, Bool, false, not, Option, none, some, [], ◌∷◌, ◌++◌, lookup, contains, insert, discard,
  Time, get_or, ◌!=◌, ◌<>◌, Result, ok, raise, worker_not_registered, lease_conflict, if◌then◌else◌,
}
use streams_rollout_market.Contracts.{SampleGroup, GroupDecision}
use streams_rollout_market.LiveStore
use streams_rollout_market.LiveStore.{StoredGroup, LiveStore}
use streams_rollout_market.Broker.State.{
  Broker, LeaseRecord, submitted, failed, FailureEntry, is_issued, entry, record_event,
}

-- `seen_for is not None and seen_for != group_id`
unfoldable pub bound_elsewhere : Option String → String → Bool
bound_elsewhere none group_id = false
bound_elsewhere (some seen_for) group_id = seen_for != group_id

abbrev pub submitted_record : String → Time → LeaseRecord → LeaseRecord
submitted_record group_id clock r = record r {
  state = submitted;
  submitted_group_id = some group_id;
  closed_at = some clock;
}

-- What `submit_group` does to the broker once the store has taken the group.
abbrev pub after_submit :
    String → String → String → Time → LiveStore → LeaseRecord → Broker → Broker
after_submit worker_id lease_id group_id clock store r b =
    record_event
      (entry clock "lease_submitted" (some worker_id) (some lease_id) (some r.lease.job_id)
        group_id)
      (record b {
        store = store;
        idempotency_keys = insert r.lease.idempotency_key group_id b.idempotency_keys;
        leases = insert lease_id (submitted_record group_id clock r) b.leases;
      })

-- `submit_group` after its checks: the store may still refuse the group.
unfoldable pub store_group :
    String
    → String
    → SampleGroup
    → GroupDecision
    → Time
    → LeaseRecord
    → Broker
    → Result StoredGroup × Broker
store_group worker_id lease_id group decision clock r b =
    let (stored, store) = LiveStore.submit group decision clock b.store in
    elim stored [
      | raise e ↦ (raise e, record b { store = store })
      | ok s ↦ (ok s, after_submit worker_id lease_id group.group_id clock store r b)
    ]

unfoldable pub submit_group :
    String → String → SampleGroup → GroupDecision → Time → Broker → Result StoredGroup × Broker
unfolding bound_elsewhere
submit_group worker_id lease_id group decision clock b =
    if not (contains worker_id b.workers)
    then (raise worker_not_registered, b)
    else elim (lookup lease_id b.leases) [
      | none ↦ (raise lease_conflict, b)
      | some r ↦
          if r.lease.worker_id != worker_id
          then (raise lease_conflict, b)
          else if not (is_issued r.state)
          then (raise lease_conflict, b)
          else if bound_elsewhere (lookup r.lease.idempotency_key b.idempotency_keys) group.group_id
          then (raise lease_conflict, b)
          else store_group worker_id lease_id group decision clock r b
    ]

abbrev pub failed_record : String → Option String → Time → LeaseRecord → LeaseRecord
failed_record reason detail clock r = record r {
  state = failed;
  failure_reason = some reason;
  failure_detail = detail;
  closed_at = some clock;
}

-- What an admissible failure report does to the broker.
abbrev pub after_failure :
    String → String → String → Option String → Time → LeaseRecord → Broker → Broker
after_failure worker_id lease_id reason detail clock r b =
    record_event
      (entry clock "lease_failed" (some worker_id) (some lease_id) (some r.lease.job_id)
        (reason <> ": " <> get_or detail ""))
      (record b {
        leases = insert lease_id (failed_record reason detail clock r) b.leases;
        leased_job_ids = discard r.lease.job_id b.leased_job_ids;
        failures = b.failures ++ failure ∷ [];
      })
  where
    failure : FailureEntry
    failure = record {
      worker_id = worker_id;
      lease_id = lease_id;
      job_id = r.lease.job_id;
      reason = reason;
      detail = get_or detail "";
    }

unfoldable pub report_failure :
    String → String → String → Option String → Time → Broker → Result (Unit {0}) × Broker
report_failure worker_id lease_id reason detail clock b =
    if not (contains worker_id b.workers)
    then (raise worker_not_registered, b)
    else elim (lookup lease_id b.leases) [
      | none ↦ (raise lease_conflict, b)
      | some r ↦
          if r.lease.worker_id != worker_id
          then (raise lease_conflict, b)
          else if not (is_issued r.state)
          then (raise lease_conflict, b)
          else (ok tt, after_failure worker_id lease_id reason detail clock r b)
    ]
