-- ===== src/LiveStore/WellFormed.antt =====
-- The invariant of the store: a record stands under its group's id, and carries a rejection reason
-- exactly if it is rejected.
use streams_rollout_market.Prelude.{
  ℕ, zero, suc, ◌+◌, ◌≡◌, refl, String, Bool, Option, is_some, [], ◌∷◌, Dict, AllEntries,
  AllEntries-insert, AllEntries-lookup, Time, ok, length, arith,
}
use streams_rollout_market.Contracts.{
  GroupStatus, rejected, status_eq, RejectionReason, SampleGroup, GroupDecision, new_group_decision,
}
use streams_rollout_market.LiveStore.Serving.{mark}
use streams_rollout_market.LiveStore.Records.{submit_cases, transition_cases}
use streams_rollout_market.LiveStore.{
  StoredGroup, LiveStore, submit, transition, new_record, moved_record, count_state, count_loop,
  count_by_state, StateCounts, size,
}

pub record IsRecord (k : String) (r : StoredGroup) : Type 0 where
  pub key : r.group.group_id ≡ k
  pub reason_fits : status_eq r.state rejected ≡ is_some r.rejection_reason

abbrev pub IsValid : LiveStore → Type 0
IsValid s = AllEntries IsRecord s.records

-- What pydantic's check of a decision says of its rejection reason.
pub new_group_decision_fits :
    (d : GroupDecision)
    → new_group_decision d ≡ ok d
    → status_eq d.status rejected ≡ is_some d.rejection_reason
unfolding new_group_decision
new_group_decision_fits d h = ground arith

pub submit-IsValid :
    (g : SampleGroup) (d : GroupDecision) (clock : Time) (s : LiveStore)
    → new_group_decision d ≡ ok d
    → IsValid s
    → IsValid (submit g d clock s).1
submit-IsValid g d clock s built v = submit_cases IsValid g d clock s v λ _ _.
    AllEntries-insert IsRecord g.group_id (new_record g d clock) s.records
      (record { key = refl; reason_fits = new_group_decision_fits d built }) v

pub transition-IsValid :
    (k : String) (state : GroupStatus) (reason : String) (why : Option RejectionReason)
    (clock : Time) (s : LiveStore)
    → IsValid s
    → IsValid (transition k state reason why clock s).1
transition-IsValid k state reason why clock s v =
    transition_cases IsValid k state reason why clock s v λ r found _ fits.
      AllEntries-insert IsRecord k (moved_record state reason why clock r) s.records
        (record {
          key = (AllEntries-lookup IsRecord k r s.records found v).key;
          reason_fits = fits;
        })
        v

mark-AllEntries :
    (admits : StoredGroup → Bool) (n : ℕ) (d : Dict StoredGroup)
    → AllEntries IsRecord d
    → AllEntries IsRecord (mark admits n d)
mark-AllEntries admits n [] v = tt
mark-AllEntries admits zero (e ∷ d) v = v
mark-AllEntries admits (suc n) (e ∷ d) v =
    ground (arith, mark-AllEntries admits n d v.1, mark-AllEntries admits (suc n) d v.1)

pub mark-IsValid :
    (admits : StoredGroup → Bool) (n : ℕ) (s : LiveStore)
    → IsValid s
    → IsValid (record { records = mark admits n s.records })
mark-IsValid admits n s v = mark-AllEntries admits n s.records v

abbrev sum_counts : StateCounts → ℕ
sum_counts c = c.pending + c.accepted + c.correctable + c.quarantined + c.rejected

count_state-sum :
    (x : GroupStatus) (c : StateCounts) → sum_counts (count_state x c) ≡ sum_counts c + 1
unfolding count_state
count_state-sum GroupStatus.pending c = omega arith
count_state-sum GroupStatus.accepted c = omega arith
count_state-sum GroupStatus.correctable c = omega arith
count_state-sum GroupStatus.quarantined c = omega arith
count_state-sum GroupStatus.rejected c = omega arith

count_loop-sum :
    (d : Dict StoredGroup) (c : StateCounts) → sum_counts (count_loop d c) ≡ sum_counts c + length d
unfolding count_loop
count_loop-sum [] c = omega arith
count_loop-sum (e ∷ d) c =
    omega (arith, count_loop-sum d (count_state e.1.state c), count_state-sum e.1.state c)

-- The counts by state add up to the number of stored records: every record is counted under one
-- status.
pub count_by_state-sum :
    (s : LiveStore)
    → (let c = count_by_state s in
        c.pending + c.accepted + c.correctable + c.quarantined + c.rejected)
      ≡ size s
unfolding count_by_state size
count_by_state-sum s = omega (
  arith,
  count_loop-sum s.records
      (record { pending = 0; accepted = 0; correctable = 0; quarantined = 0; rejected = 0 }),
)
