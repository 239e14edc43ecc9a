-- ===== src/Feedback/Totals.antt =====
-- The totals of feedback.py: each group counts once, under each of its three keys.
use streams_rollout_market.Prelude.{
  ℕ, ◌+◌, ◌≤◌, ◌≡◌, refl, String, Bool, true, false, Option, none, some, List, [], ◌∷◌, Dict,
  lookup, insert, lookup-insert, length, member, add, member-add, ◌==◌, Floats, get_or,
  if◌then◌else◌, arith, AllEntries, AllEntries-insert, AllEntries-lookup, Option-cases, Bool-cases,
  inl, inr,
}
use streams_rollout_market.Feedback.{
  TrainerFeedback, QualityStats, Aggregator, bump, count_reason, bump_in, stats_in, ingest,
  ingest_all, stats_for_worker, stats_for_engine, stats_for_policy, size,
}

module _ (fl : Floats) where
  -- A second report of a group is ignored.
  pub ingest_twice :
      (f g : TrainerFeedback) (a : Aggregator)
      → f.group_id ≡ g.group_id
      → ingest fl f (ingest fl g a) ≡ ingest fl g a
  unfolding ingest
  ingest_twice f g a e = ground (arith, member-add g.group_id f.group_id a.seen)

-- The reports that count: the first of each group that was not seen before.
abbrev pub fresh : List String → List TrainerFeedback → List TrainerFeedback
fresh seen [] = []
fresh seen (f ∷ fs) =
    let later = fresh (add f.group_id seen) fs in
    if member f.group_id seen then fresh seen fs else f ∷ later

module _ (fl : Floats) (key_of : TrainerFeedback → String) (key : String) where
  -- The statistics after the reports under one key, in their order.
  abbrev pub tally : List TrainerFeedback → QualityStats → QualityStats
  tally [] s = s
  tally (f ∷ fs) s = tally fs (if key_of f == key then bump fl f s else s)

module _ (fl : Floats) where
  -- What the aggregator reports for a worker, an engine or a policy version is the tally of the
  -- reports under that key, of which the first of each group counts.
  pub ingest_all_lem :
      (fs : List TrainerFeedback) (key : String) (a : Aggregator)
      → (stats_for_worker fl key (ingest_all fl fs a)
          ≡ tally fl (λ f. f.worker_id) key (fresh a.seen fs) (stats_for_worker fl key a))
        × (stats_for_engine fl key (ingest_all fl fs a)
            ≡ tally fl (λ f. f.engine_name) key (fresh a.seen fs) (stats_for_engine fl key a))
        × (stats_for_policy fl key (ingest_all fl fs a)
            ≡ tally fl (λ f. f.policy_version) key (fresh a.seen fs) (stats_for_policy fl key a))
  unfolding ingest_all ingest stats_for_worker stats_for_engine stats_for_policy
  ingest_all_lem [] key a = (refl, refl, refl)
  ingest_all_lem (f ∷ fs) key a =
      let later = ingest_all_lem fs key (ingest fl f a) in
      ground (
        arith,
        later.0,
        later.1,
        later.2,
        lookup-insert f.worker_id key (bump fl f (stats_in fl f.worker_id a.workers)) a.workers,
        lookup-insert f.engine_name key (bump fl f (stats_in fl f.engine_name a.engines)) a.engines,
        lookup-insert f.policy_version key (bump fl f (stats_in fl f.policy_version a.policies))
            a.policies,
      )

-- All reports that a dictionary counts.
abbrev pub total_count : Dict QualityStats → ℕ
total_count [] = 0
total_count (e ∷ d) = e.1.count + total_count d

-- All rejections that a dictionary of reasons counts.
abbrev pub total_reasons : Dict ℕ → ℕ
total_reasons [] = 0
total_reasons (e ∷ d) = e.1 + total_reasons d

-- What is accepted and what is rejected for a reason are among what is counted.
pub record IsSound (key : String) (s : QualityStats) : Type 0 where
  pub within : s.accepted_count + total_reasons s.rejection_reasons ≤ s.count

pub record IsBalanced (a : Aggregator) : Type 0 where
  pub workers : total_count a.workers ≡ size a
  pub engines : total_count a.engines ≡ size a
  pub policies : total_count a.policies ≡ size a
  pub sound_workers : AllEntries IsSound a.workers
  pub sound_engines : AllEntries IsSound a.engines
  pub sound_policies : AllEntries IsSound a.policies

total_reasons-insert :
    (key : String) (d : Dict ℕ)
    → total_reasons (insert key (get_or (lookup key d) 0 + 1) d) ≡ total_reasons d + 1
unfolding lookup insert
total_reasons-insert key [] = ground arith
total_reasons-insert key (e ∷ d) = ground (arith, total_reasons-insert key d)

total_count-bump_in :
    (fl : Floats) (key : String) (f : TrainerFeedback) (d : Dict QualityStats)
    → total_count (bump_in fl key f d) ≡ total_count d + 1
unfolding lookup insert bump
total_count-bump_in fl key f [] = ground arith
total_count-bump_in fl key f (e ∷ d) = ground (arith, total_count-bump_in fl key f d)

count_reason_within :
    (accepted : Bool) (reason : Option String) (s : QualityStats)
    → s.accepted_count + total_reasons s.rejection_reasons ≤ s.count
    → (if accepted then s.accepted_count + 1 else s.accepted_count)
        + total_reasons (count_reason accepted reason s.rejection_reasons)
      ≤ s.count + 1
unfolding count_reason
count_reason_within true reason s h = omega arith
count_reason_within false none s h = omega arith
count_reason_within false (some key) s h =
    ground (arith, total_reasons-insert key s.rejection_reasons)

bump-IsSound :
    (fl : Floats) (key : String) (f : TrainerFeedback) (s : QualityStats)
    → IsSound key s
    → IsSound key (bump fl f s)
unfolding bump count_reason
bump-IsSound fl key f s h = record {
  within = count_reason_within f.accepted_by_trainer f.trainer_rejection_reason s h.within;
}

bump_in-IsSound :
    (fl : Floats) (key : String) (f : TrainerFeedback) (d : Dict QualityStats)
    → AllEntries IsSound d
    → AllEntries IsSound (bump_in fl key f d)
bump_in-IsSound fl key f d h =
    AllEntries-insert IsSound key (bump fl f (stats_in fl key d)) d
      (bump-IsSound fl key f (stats_in fl key d) sound) h
  where
    sound : IsSound key (stats_in fl key d)
    sound = elim (Option-cases (lookup key d)) [
      | inl e ↦ rw (e) (record { within = omega arith })
      | inr x ↦ rw (x.1) (AllEntries-lookup IsSound key x.0 d x.1 h)
    ]

length-add :
    (key : String) (seen : List String)
    → member key seen ≡ false
    → length (add key seen) ≡ length seen + 1
unfolding add
length-add key seen h = ground arith

ingest-IsBalanced :
    (fl : Floats) (f : TrainerFeedback) (a : Aggregator) → IsBalanced a → IsBalanced (ingest fl f a)
unfolding ingest size
ingest-IsBalanced fl f a h = elim (Bool-cases (member f.group_id a.seen)) [
  | inl e ↦ rw (e) h
  | inr e ↦ rw (e) (record {
    workers = ground (
      arith,
      h.workers,
      total_count-bump_in fl f.worker_id f a.workers,
      length-add f.group_id a.seen e,
    );
    engines = ground (
      arith,
      h.engines,
      total_count-bump_in fl f.engine_name f a.engines,
      length-add f.group_id a.seen e,
    );
    policies = ground (
      arith,
      h.policies,
      total_count-bump_in fl f.policy_version f a.policies,
      length-add f.group_id a.seen e,
    );
    sound_workers = bump_in-IsSound fl f.worker_id f a.workers h.sound_workers;
    sound_engines = bump_in-IsSound fl f.engine_name f a.engines h.sound_engines;
    sound_policies = bump_in-IsSound fl f.policy_version f a.policies h.sound_policies;
  })
]

-- Ingesting reports keeps the books balanced: the reports counted over all workers, over all engines
-- and over all policy versions are each as many as the groups seen, and no key has more acceptances
-- and rejections than reports.
pub ingest_all-IsBalanced :
    (fl : Floats) (fs : List TrainerFeedback) (a : Aggregator)
    → IsBalanced a
    → IsBalanced (ingest_all fl fs a)
unfolding ingest_all
ingest_all-IsBalanced fl [] a h = h
ingest_all-IsBalanced fl (f ∷ fs) a h =
    ingest_all-IsBalanced fl fs (ingest fl f a) (ingest-IsBalanced fl f a h)
