-- ===== src/Broker/Leasing.antt =====
-- `acquire_lease` of worker_broker.py. The two `uuid4()` values are arguments.
use streams_rollout_market.Prelude.{
  ◌+◌, ltb_ℤ, String, Bool, true, false, not, ◌&&◌, Option, none, some, List, [], ◌∷◌, Dict, lookup,
  insert, member, add, Time, Texts, get_or, ◌==◌, ◌<>◌, Result, ok, raise, worker_not_registered,
  if◌then◌else◌,
}
use streams_rollout_market.Contracts.{RolloutJob, RolloutLease, WorkerManifest, new_rollout_lease}
use streams_rollout_market.Broker.State.{Broker, LeaseRecord, issued, entry, record_event}

-- `job.required_quantization_class and … not in manifest.quantization_classes`
unfoldable pub lacks_quantization : Option String → List String → Bool
lacks_quantization none classes = false
lacks_quantization (some q) classes = not (q == "") && not (member q classes)

-- `job.allowed_engines and manifest.engine_name not in job.allowed_engines`
unfoldable pub engine_refused : List String → String → Bool
engine_refused [] engine = false
engine_refused (e ∷ es) engine = not (member engine (e ∷ es))

unfoldable pub capabilities_match : RolloutJob → WorkerManifest → Bool
capabilities_match job manifest =
    if not (member job.required_precision_class manifest.precision_classes)
    then false
    else if ltb_ℤ manifest.max_context_tokens job.max_context_tokens
    then false
    else if lacks_quantization job.required_quantization_class manifest.quantization_classes
    then false
    else if engine_refused job.allowed_engines manifest.engine_name
    then false
    else true

-- The loop of `acquire_lease`: the first queued job that is not leased and that the worker can run.
unfoldable pub next_job :
    List String → WorkerManifest → Dict RolloutJob → Option (String × RolloutJob)
next_job leased manifest [] = none
next_job leased manifest (e ∷ jobs) =
    let rest = next_job leased manifest jobs in
    if member e.0 leased
    then rest
    else if not (capabilities_match e.1 manifest)
    then rest
    else some e

abbrev pub lease_for : String → String → Time → Time → String → String → RolloutJob → RolloutLease
lease_for uuid_lease uuid_assign now ttl worker_id job_id job = record {
  lease_id = "lease-" <> uuid_lease;
  job_id = job_id;
  assignment_id = "assign-" <> uuid_assign;
  worker_id = worker_id;
  policy_version = job.policy_version;
  required_precision_class = job.required_precision_class;
  required_quantization_class = job.required_quantization_class;
  max_context_tokens = job.max_context_tokens;
  group_size = job.group_size;
  idempotency_key = job.idempotency_key;
  issued_at = now;
  expires_at = now + ttl;
}

abbrev pub issued_record : RolloutLease → RolloutJob → Time → LeaseRecord
issued_record lease job now = record {
  lease = lease;
  job = job;
  state = issued;
  failure_reason = none;
  failure_detail = none;
  submitted_group_id = none;
  issued_at = now;
  closed_at = none;
}

-- What a lease that pydantic accepted does to the broker.
abbrev pub issue : RolloutLease → RolloutJob → Time → Broker → Broker
issue lease job now b =
    record_event
      (entry now "lease_issued" (some lease.worker_id) (some lease.lease_id) (some lease.job_id) "")
      (record b {
        leased_job_ids = add lease.job_id b.leased_job_ids;
        leases = insert lease.lease_id (issued_record lease job now) b.leases;
      })

-- the loop's body, for the job that is leased
unfoldable pub lease_job :
    Texts
    → String
    → String
    → Time
    → String
    → Option (String × RolloutJob)
    → Broker
    → Result (Option RolloutLease) × Broker
lease_job py uuid_lease uuid_assign now worker_id none b = (ok none, b)
lease_job py uuid_lease uuid_assign now worker_id (some (job_id, job)) b =
    let lease = lease_for uuid_lease uuid_assign now b.lease_ttl worker_id job_id job in
    elim (new_rollout_lease py lease) [
      | raise e ↦ (raise e, b)
      | ok made ↦ (ok (some made), issue made job now b)
    ]

unfoldable pub acquire_lease :
    Texts
    → String
    → String
    → String
    → Option Time
    → Time
    → Broker
    → Result (Option RolloutLease) × Broker
acquire_lease py uuid_lease uuid_assign worker_id now clock b = elim (lookup worker_id b.workers) [
  | none ↦ (raise worker_not_registered, b)
  | some manifest ↦
      if member worker_id b.dead_workers
      then (raise worker_not_registered, b)
      else lease_job py uuid_lease uuid_assign (get_or now clock) worker_id
          (next_job b.leased_job_ids manifest b.jobs) b
]
