-- ===== src/Broker/Exclusion.antt =====
-- A job is worked on by at most one lease: every method of worker_broker.py keeps the count of
-- active leases of a job below the job's mark in `_leased_job_ids`.
use streams_rollout_market.Prelude.{
  ℕ, Texts, dec_text, ◌+◌, ◌≤◌, ◌≡◌, refl, inl, inr, String, Bool, true, false, ◌&&◌, Option, none,
  some, [], ◌∷◌, Dict, bit, count, lookup, count-insert_new, count-insert_old, count-two, member,
  member-add, member-discard, Time, ◌==◌, Bool-cases, arith,
}
use streams_rollout_market.Contracts.{RolloutJob, RolloutLease}
use streams_rollout_market.LiveStore.{LiveStore}
use streams_rollout_market.Broker.State.{
  init, Broker, LeaseRecord, LeaseState, issued, AuditEntry, is_issued,
}
use streams_rollout_market.Broker.Leasing.{issue, issued_record}
use streams_rollout_market.Broker.Closing.{
  after_submit, submitted_record, after_failure, failed_record,
}
use streams_rollout_market.Broker.Steps.{is_active, Closes, Kept, Reach, Reach_keeps}
use streams_rollout_market.Broker.Reaping.{Swept, sweep, sweep_step, sweep_broker}

unfoldable pub holds : String → LeaseRecord → Bool
unfolding is_active
holds j r = r.lease.job_id == j && is_active r.state

abbrev pub active : String → Dict LeaseRecord → ℕ
active j leases = count (holds j) leases

-- At most one active lease for each job, and none for a job that is not marked as leased.
pub record IsExclusive (b : Broker) : Type 0 where
  pub at : (j : String) → active j b.leases ≤ bit (member j b.leased_job_ids)

issue-IsExclusive :
    (lease : RolloutLease) (job : RolloutJob) (now : Time) (b : Broker)
    → lookup lease.lease_id b.leases ≡ none
    → member lease.job_id b.leased_job_ids ≡ false
    → IsExclusive b
    → IsExclusive (issue lease job now b)
unfolding holds
issue-IsExclusive lease job now b new free v = record {
  at = λ j. ground (
    arith,
    v.at j,
    count-insert_new (holds j) lease.lease_id (issued_record lease job now) b.leases new,
    member-add lease.job_id j b.leased_job_ids,
  );
}

is_issued-is_active : (x : LeaseState) → is_issued x ≡ true → is_active x ≡ true
unfolding is_issued is_active
is_issued-is_active issued h = refl
is_issued-is_active _ h = cc

after_submit-IsExclusive :
    (worker_id lease_id group_id : String) (clock : Time) (store : LiveStore) (r : LeaseRecord)
    (b : Broker)
    → lookup lease_id b.leases ≡ some r
    → is_issued r.state ≡ true
    → IsExclusive b
    → IsExclusive (after_submit worker_id lease_id group_id clock store r b)
unfolding holds
after_submit-IsExclusive worker_id lease_id group_id clock store r b found live v = record {
  at = λ j. ground (
    arith,
    v.at j,
    is_issued-is_active r.state live,
    count-insert_old (holds j) lease_id (submitted_record group_id clock r) r b.leases found,
  );
}

after_failure-IsExclusive :
    (worker_id lease_id reason : String) (detail : Option String) (clock : Time) (r : LeaseRecord)
    (b : Broker)
    → lookup lease_id b.leases ≡ some r
    → is_issued r.state ≡ true
    → IsExclusive b
    → IsExclusive (after_failure worker_id lease_id reason detail clock r b)
unfolding holds
after_failure-IsExclusive worker_id lease_id reason detail clock r b found live v = record {
  at = λ j. ground (
    arith,
    v.at j,
    is_issued-is_active r.state live,
    count-insert_old (holds j) lease_id (failed_record reason detail clock r) r b.leases found,
    member-discard r.lease.job_id j b.leased_job_ids,
  );
}

module _ (hit : LeaseRecord → Bool) (close : LeaseRecord → LeaseRecord)
    (event : String → LeaseRecord → AuditEntry) where
  -- With `c` active leases among the records already passed, the sweep keeps the bound.
  sweep-bound :
      ((r : LeaseRecord) → hit r ≡ true → is_active r.state ≡ true)
      → ((r : LeaseRecord) → Closes r (close r))
      → (j : String) (leases : Dict LeaseRecord) (w : Swept) (c : ℕ)
      → c + active j leases ≤ bit (member j w.leased_job_ids)
      → c + active j (sweep hit close event leases w).0
        ≤ bit (member j (sweep hit close event leases w).1.leased_job_ids)
  unfolding sweep count holds
  sweep-bound live dead j [] w c h = h
  sweep-bound live dead j (e ∷ leases) w c h = elim (Bool-cases (hit e.1)) [
    | inl p ↦ rw p (
        ground (
          arith,
          live e.1 p,
          (dead e.1).closed,
          member-discard e.1.lease.job_id j w.leased_job_ids,
          sweep-bound live dead j leases (sweep_step event e.0 e.1 w) c,
        ))
    | inr n ↦ rw n (ground (arith, sweep-bound live dead j leases w (c + bit (holds j e.1))))
  ]

  sweep_broker-IsExclusive :
      ((r : LeaseRecord) → hit r ≡ true → is_active r.state ≡ true)
      → ((r : LeaseRecord) → Closes r (close r))
      → (b : Broker) → IsExclusive b
      → IsExclusive (sweep_broker hit close event b).0
  unfolding sweep_broker
  sweep_broker-IsExclusive live dead b v = record {
    at = λ j. ground (
      arith,
      sweep-bound live dead j b.leases
          (record { leased_job_ids = b.leased_job_ids; audit = b.audit; closed = [] }) 0
          (ground (arith, v.at j)),
    );
  }

IsExclusive-Kept : Kept IsExclusive
IsExclusive-Kept = record {
  members = λ b workers beats dead jobs v. record { at = v.at };
  logs = λ e b v. record { at = v.at };
  issues = issue-IsExclusive;
  submits = λ worker_id lease_id g d clock r s b _ found live _ _ v.
      after_submit-IsExclusive worker_id lease_id g.group_id clock _ r b found live v;
  fails = after_failure-IsExclusive;
  sweeps = λ hit close event b live dead v.
      sweep_broker-IsExclusive hit close event (λ r h. is_issued-is_active r.state (live r h)) dead
        b v;
}

init-IsExclusive : (store : LiveStore) (t h : Time) → IsExclusive (init store t h)
unfolding init count member
init-IsExclusive store t h = record { at = λ j. omega arith }

-- In every broker reached from a new one, a job has at most one lease that is issued or submitted,
-- and none while the job is not marked as leased.
pub Reach-IsExclusive :
    (py : Texts) (store : LiveStore) (t h : Time) {b : Broker}
    → Reach py (init store t h) b
    → IsExclusive b
Reach-IsExclusive py store t h r = Reach_keeps IsExclusive-Kept py r (init-IsExclusive store t h)

-- The promise of a lease: of two active leases for one job, in any broker reached from a new one,
-- both are the same lease.
pub active_unique :
    (py : Texts) (store : LiveStore) (t h : Time) {b : Broker}
    → Reach py (init store t h) b
    → (k j : String) (r q : LeaseRecord) → lookup k b.leases ≡ some r
    → lookup j b.leases ≡ some q
    → is_active r.state ≡ true
    → is_active q.state ≡ true
    → r.lease.job_id ≡ q.lease.job_id
    → k ≡ j
unfolding holds
active_unique py store t h {b} reach k j r q hr hq ar aq same = elim (dec_text k j) [
  | yes e ↦ e
  | no n ↦ absurd (
      ground (
        arith,
        (Reach-IsExclusive py store t h reach).at r.lease.job_id,
        count-two (holds r.lease.job_id) k j r q b.leases hr hq n,
      ))
]
