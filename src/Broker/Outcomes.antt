-- ===== src/Broker/Outcomes.antt =====
-- What the calls of worker_broker.py return: errors that change nothing, leases that close once, and
-- a queue that serves whom it can.
use streams_rollout_market.Prelude.{
  sym, worker_not_registered, if◌then◌else◌, ◌≡◌, ◌≢◌, refl, inl, inr, String, true, false, Option,
  none, some, lookup, contains, lookup-insert, member, member-discard, Time, Texts, get_or,
  Option-cases, ok, raise, Error, lease_conflict, arith,
}
use streams_rollout_market.Contracts.{RolloutJob, SampleGroup, GroupDecision, WorkerHeartbeat}
use streams_rollout_market.LiveStore
use streams_rollout_market.LiveStore.{StoredGroup, LiveStore}
use streams_rollout_market.Broker.State.{Broker, LeaseRecord, submitted, is_issued}
use streams_rollout_market.Broker.Workers.{heartbeat}
use streams_rollout_market.Broker.Leasing.{next_job, lease_job, acquire_lease}
use streams_rollout_market.Broker.Closing.{
  after_submit, submitted_record, failed_record, store_group, submit_group, report_failure,
}
use streams_rollout_market.Broker.Cases.{submit-raise}
use streams_rollout_market.Broker.Steps.{Reach}
use streams_rollout_market.Broker.History.{Reach-KeepsLeases}

lease_job-raise :
    (py : Texts) (u v : String) (now : Time) (worker_id : String) (o : Option (String × RolloutJob))
    (b : Broker) (e : Error)
    → (lease_job py u v now worker_id o b).0 ≡ raise e
    → (lease_job py u v now worker_id o b).1 ≡ b
unfolding lease_job
lease_job-raise py u v now worker_id none b e h = refl
lease_job-raise py u v now worker_id (some (k, job)) b e h = ground arith

acquire_lease-raise :
    (py : Texts) (u v worker_id : String) (now : Option Time) (clock : Time) (b : Broker)
    (e : Error)
    → (acquire_lease py u v worker_id now clock b).0 ≡ raise e
    → (acquire_lease py u v worker_id now clock b).1 ≡ b
unfolding acquire_lease
acquire_lease-raise py u v worker_id now clock b e h =
    elim (Option-cases (lookup worker_id b.workers)) [
      | inl n ↦ rw (n, acquire_lease)
      | inr (m, n) ↦ ground (
        arith,
        n,
        lease_job-raise py u v (get_or now clock) worker_id (next_job b.leased_job_ids m b.jobs) b
            e,
      )
    ]

store_group-raise :
    (worker_id lease_id : String) (g : SampleGroup) (d : GroupDecision) (clock : Time)
    (r : LeaseRecord) (b : Broker) (e : Error)
    → (store_group worker_id lease_id g d clock r b).0 ≡ raise e
    → (store_group worker_id lease_id g d clock r b).1 ≡ b
unfolding store_group
store_group-raise worker_id lease_id g d clock r b e h =
    ground (arith, submit-raise g d clock b.store e)

submit_group-raise :
    (worker_id lease_id : String) (g : SampleGroup) (d : GroupDecision) (clock : Time) (b : Broker)
    (e : Error)
    → (submit_group worker_id lease_id g d clock b).0 ≡ raise e
    → (submit_group worker_id lease_id g d clock b).1 ≡ b
unfolding submit_group
submit_group-raise worker_id lease_id g d clock b e h =
    elim (Option-cases (lookup lease_id b.leases)) [
      | inl n ↦ ground (arith, n)
      | inr (r, n) ↦ ground (arith, n, store_group-raise worker_id lease_id g d clock r b e)
    ]

report_failure-raise :
    (worker_id lease_id reason : String) (detail : Option String) (clock : Time) (b : Broker)
    (e : Error)
    → (report_failure worker_id lease_id reason detail clock b).0 ≡ raise e
    → (report_failure worker_id lease_id reason detail clock b).1 ≡ b
unfolding report_failure
report_failure-raise worker_id lease_id reason detail clock b e h = ground arith

heartbeat-raise :
    (beat : WorkerHeartbeat) (clock : Time) (b : Broker) (e : Error)
    → (heartbeat beat clock b).0 ≡ raise e
    → (heartbeat beat clock b).1 ≡ b
unfolding heartbeat
heartbeat-raise beat clock b e h = ground arith

-- A call of `heartbeat`, `acquire_lease`, `submit_group` or `report_failure` that raises, whatever
-- the exception, leaves the broker and its store as they were.
pub raise_changes_nothing :
    (py : Texts) (clock : Time) (b : Broker) (e : Error)
    → ((beat : WorkerHeartbeat)
        → (heartbeat beat clock b).0 ≡ raise e
        → (heartbeat beat clock b).1 ≡ b)
      × ((u v worker_id : String) (now : Option Time)
          → (acquire_lease py u v worker_id now clock b).0 ≡ raise e
          → (acquire_lease py u v worker_id now clock b).1 ≡ b)
      × ((worker_id lease_id : String) (g : SampleGroup) (d : GroupDecision)
          → (submit_group worker_id lease_id g d clock b).0 ≡ raise e
          → (submit_group worker_id lease_id g d clock b).1 ≡ b)
      × ((worker_id lease_id reason : String) (detail : Option String)
          → (report_failure worker_id lease_id reason detail clock b).0 ≡ raise e
          → (report_failure worker_id lease_id reason detail clock b).1 ≡ b)
raise_changes_nothing py clock b e = (
  λ beat. heartbeat-raise beat clock b e,
  λ u v worker_id now. acquire_lease-raise py u v worker_id now clock b e,
  λ worker_id lease_id g d. submit_group-raise worker_id lease_id g d clock b e,
  λ worker_id lease_id reason detail.
      report_failure-raise worker_id lease_id reason detail clock b e,
)

-- What `submit_group` did if it returned.
pub submit_group-ok :
    (worker_id lease_id : String) (g : SampleGroup) (d : GroupDecision) (clock : Time) (b : Broker)
    (s : StoredGroup)
    → (submit_group worker_id lease_id g d clock b).0 ≡ ok s
    → (r : LeaseRecord) × (lookup lease_id b.leases ≡ some r)
      × (r.lease.worker_id ≡ worker_id)
      × (is_issued r.state ≡ true)
      × (contains worker_id b.workers ≡ true)
      × ((LiveStore.submit g d clock b.store).0 ≡ ok s)
      × ((submit_group worker_id lease_id g d clock b).1
          ≡ after_submit worker_id lease_id g.group_id clock
              (LiveStore.submit g d clock b.store).1
              r
              b)
unfolding submit_group store_group
submit_group-ok worker_id lease_id g d clock b s h =
    elim (Option-cases (lookup lease_id b.leases)) [
      | inl n ↦ absurd (ground (arith, n))
      | inr (r, n) ↦ (
        r,
        n,
        ground (arith, n),
        ground (arith, n),
        ground (arith, n),
        ground (arith, n),
        ground (arith, n),
      )
    ]

-- The answer to a worker's call about a lease that is closed: who is not registered is told that first.
abbrev pub closed_error : String → Broker → Error
closed_error worker_id b =
    if contains worker_id b.workers then lease_conflict else worker_not_registered

module _ (worker_id lease_id : String) (r : LeaseRecord) (b : Broker) where
  closed_refuses :
      lookup lease_id b.leases ≡ some r
      → is_issued r.state ≡ false
      → ((g : SampleGroup) (d : GroupDecision) (clock : Time)
          → submit_group worker_id lease_id g d clock b ≡ (raise (closed_error worker_id b), b))
        × ((reason : String) (detail : Option String) (clock : Time)
            → report_failure worker_id lease_id reason detail clock b
              ≡ (raise (closed_error worker_id b), b))
  unfolding submit_group report_failure
  closed_refuses found done = (λ g d clock. ground arith, λ reason detail clock. ground arith)

submitted_at :
    (worker_id lease_id : String) (g : SampleGroup) (d : GroupDecision) (clock : Time) (b : Broker)
    (s : StoredGroup)
    → (submit_group worker_id lease_id g d clock b).0 ≡ ok s
    → (let b' = (submit_group worker_id lease_id g d clock b).1 in
        (r : LeaseRecord) × (lookup lease_id b'.leases ≡ some r)
        × (r.state ≡ submitted)
        × (r.submitted_group_id ≡ some g.group_id))
submitted_at worker_id lease_id g d clock b s h =
    let (r, found, _, _, known, _, e) = submit_group-ok worker_id lease_id g d clock b s h in
    rw e (
      submitted_record g.group_id clock r,
      ground
          (arith, lookup-insert lease_id lease_id (submitted_record g.group_id clock r) b.leases),
      refl,
      refl,
    )

-- A lease takes one group: once `submit_group` has returned, then in every broker `c` that any calls
-- reach, the lease is submitted with that group's id, and a further submission or failure report for
-- it by any worker is refused and changes nothing: with LeaseConflict if the worker is registered in
-- `c`, else with WorkerNotRegistered.
pub submit_once :
    (py : Texts) (worker_id lease_id : String) (g : SampleGroup) (d : GroupDecision) (clock : Time)
    (b c : Broker) (s : StoredGroup) (worker' : String)
    → (submit_group worker_id lease_id g d clock b).0 ≡ ok s
    → Reach py (submit_group worker_id lease_id g d clock b).1 c
    → ((r : LeaseRecord) × (lookup lease_id c.leases ≡ some r)
        × (r.state ≡ submitted)
        × (r.submitted_group_id ≡ some g.group_id))
      × ((g' : SampleGroup) (d' : GroupDecision) (later : Time)
          → submit_group worker' lease_id g' d' later c ≡ (raise (closed_error worker' c), c))
      × ((reason : String) (detail : Option String) (later : Time)
          → report_failure worker' lease_id reason detail later c
            ≡ (raise (closed_error worker' c), c))
unfolding is_issued
submit_once py worker_id lease_id g d clock b c s worker' h reach =
    let (r, found, closed, named) = submitted_at worker_id lease_id g d clock b s h in
    let (r', found', develops) = (Reach-KeepsLeases py reach).at lease_id r found in
    let same : r' ≡ r = develops.final (rw closed refl) in
    let refuses = closed_refuses worker' lease_id r c (rw (sym same) found') (rw closed refl) in
    ((r, rw (sym same) found', closed, named), refuses.0, refuses.1)

-- A reported failure closes the lease as failed and frees its job, and only its job: the mark of
-- every other job stays, and the job stays in the queue.
pub failure_requeues :
    (worker_id lease_id reason : String) (detail : Option String) (clock : Time) (b : Broker)
    → (report_failure worker_id lease_id reason detail clock b).0 ≡ ok tt
    → (let b' = (report_failure worker_id lease_id reason detail clock b).1 in
        (r : LeaseRecord) × (lookup lease_id b.leases ≡ some r)
        × (r.lease.worker_id ≡ worker_id)
        × (lookup lease_id b'.leases ≡ some (failed_record reason detail clock r))
        × (member r.lease.job_id b'.leased_job_ids ≡ false)
        × ((j : String)
            → j ≢ r.lease.job_id
            → member j b'.leased_job_ids ≡ member j b.leased_job_ids)
        × (b'.jobs ≡ b.jobs))
unfolding report_failure
failure_requeues worker_id lease_id reason detail clock b h =
    elim (Option-cases (lookup lease_id b.leases)) [
      | inl n ↦ absurd (ground (arith, n))
      | inr (r, n) ↦ (
        r,
        n,
        ground (arith, n),
        ground (
          arith,
          n,
          lookup-insert lease_id lease_id (failed_record reason detail clock r) b.leases,
        ),
        ground (arith, n, member-discard r.lease.job_id r.lease.job_id b.leased_job_ids),
        λ j other. ground (arith, n, member-discard r.lease.job_id j b.leased_job_ids),
        ground (arith, n),
      )
    ]
