-- ===== src/LiveStore.antt =====
-- src/rollout_market/livestore.py: the in-memory store of rollout groups. A method takes the store
-- and gives the result, or the exception, beside the new store; `clock` is the wall clock that it
-- reads. Records that Python hands out by reference are returned as they are when the call ends.
pub mod Serving
pub mod Records
pub mod WellFormed
pub mod Batches
use streams_rollout_market.Prelude.{
  ℕ, suc, ◌+◌, ℤ, pos, pos_part, ltb_ℤ, String, Bool, true, false, not, ◌&&◌, ◌||◌, Option, none,
  some, List, [], ◌∷◌, ◌++◌, Dict, lookup, contains, insert, length, leb, Time, ◌!=◌, is_none,
  is_some, Result, ok, raise, value_error, duplicate_group, unknown_group, if◌then◌else◌,
}
use streams_rollout_market.Contracts.{
  GroupStatus, pending, accepted, correctable, quarantined, rejected, status_eq, RejectionReason,
  SampleGroup, GroupDecision,
}

pub record StoredGroup : Type 0 where
  pub group : SampleGroup
  pub state : GroupStatus
  pub reason : String
  pub rejection_reason : Option RejectionReason
  pub served_count : ℕ
  pub stored_at : Time
  pub last_state_change_at : Time

pub record LiveStore : Type 0 where
  pub records : Dict StoredGroup

abbrev pub empty : LiveStore
empty = record { records = [] }

-- the record that `submit` builds
abbrev pub new_record : SampleGroup → GroupDecision → Time → StoredGroup
new_record group decision clock = record {
  group = group;
  state = decision.status;
  reason = decision.reason;
  rejection_reason = decision.rejection_reason;
  served_count = 0;
  stored_at = clock;
  last_state_change_at = clock;
}

unfoldable pub submit :
    SampleGroup → GroupDecision → Time → LiveStore → Result StoredGroup × LiveStore
submit group decision clock s =
    if decision.group_id != group.group_id
    then (raise value_error, s)
    else if contains group.group_id s.records
    then (raise duplicate_group, s)
    else (let stored = new_record group decision clock in
        (ok stored, record { records = insert group.group_id stored s.records }))

unfoldable pub get : String → LiveStore → Result StoredGroup
get group_id s = elim (lookup group_id s.records) [ none ↦ raise unknown_group | some r ↦ ok r ]

unfoldable pub has : String → LiveStore → Bool
has group_id s = contains group_id s.records

-- the record that `transition` leaves
abbrev pub moved_record :
    GroupStatus → String → Option RejectionReason → Time → StoredGroup → StoredGroup
moved_record new_state reason rejection_reason clock r = record r {
  state = new_state;
  reason = reason;
  rejection_reason = rejection_reason;
  last_state_change_at = clock;
}

-- the body of `transition`, once the record is found
unfoldable pub transition_record :
    String
    → GroupStatus
    → String
    → Option RejectionReason
    → Time
    → LiveStore
    → StoredGroup
    → Result StoredGroup × LiveStore
unfolding status_eq
transition_record group_id new_state reason rejection_reason clock s r =
    if status_eq r.state rejected && not (status_eq new_state rejected)
    then (raise value_error, s)
    else if status_eq new_state rejected && is_none rejection_reason
    then (raise value_error, s)
    else if not (status_eq new_state rejected) && is_some rejection_reason
    then (raise value_error, s)
    else (let moved = moved_record new_state reason rejection_reason clock r in
        (ok moved, record { records = insert group_id moved s.records }))

unfoldable pub transition :
    String
    → GroupStatus
    → String
    → Option RejectionReason
    → Time
    → LiveStore
    → Result StoredGroup × LiveStore
unfolding transition_record
transition group_id new_state reason rejection_reason clock s = elim (lookup group_id s.records) [
  | none ↦ (raise unknown_group, s)
  | some r ↦ transition_record group_id new_state reason rejection_reason clock s r
]

-- `record.served_count += 1`
abbrev pub served : StoredGroup → StoredGroup
served r = record r { served_count = r.served_count + 1 }

-- The loop over `_records.values()` that `get_batch` and `TrainerClient.fetch` share: records that
-- the filter admits join the batch and count as served, until the batch is full.
unfoldable pub serve_loop :
    (StoredGroup → Bool)
    → ℕ
    → Dict StoredGroup
    → List StoredGroup
    → List StoredGroup × Dict StoredGroup
serve_loop admits max_groups [] batch = (batch, [])
serve_loop admits max_groups (e ∷ d) batch =
    let joined = batch ++ served e.1 ∷ [] in
    let skip : List StoredGroup × Dict StoredGroup =
      (let (b, d') = serve_loop admits max_groups d batch in (b, e ∷ d')) in
    let go_on : List StoredGroup × Dict StoredGroup =
      (let (b, d') = serve_loop admits max_groups d joined in (b, (e.0, served e.1) ∷ d')) in
    if not (admits e.1)
    then skip
    else if leb max_groups (length joined)
    then (joined, (e.0, served e.1) ∷ d)
    else go_on

-- `record.state in servable`
abbrev pub in_states : GroupStatus → List GroupStatus → Bool
in_states s [] = false
in_states s (x ∷ xs) = status_eq s x || in_states s xs

abbrev pub servable_states : Bool → List GroupStatus
servable_states false = accepted ∷ correctable ∷ []
servable_states true = quarantined ∷ accepted ∷ correctable ∷ []

unfoldable pub get_batch : ℤ → Bool → LiveStore → List StoredGroup × LiveStore
unfolding serve_loop status_eq
get_batch max_groups include_quarantined s =
    if ltb_ℤ max_groups (pos 1)
    then ([], s)
    else (let (batch, d) =
          serve_loop (λ r. in_states r.state (servable_states include_quarantined))
            (pos_part max_groups) s.records [] in
        (batch, record { records = d }))

-- `dict[GroupStatus, int]`, with a field for each status.
pub record StateCounts : Type 0 where
  pub pending : ℕ
  pub accepted : ℕ
  pub correctable : ℕ
  pub quarantined : ℕ
  pub rejected : ℕ

-- `counts[state] += 1`
unfoldable pub count_state : GroupStatus → StateCounts → StateCounts
count_state GroupStatus.pending c = record c { pending = c.pending + 1 }
count_state GroupStatus.accepted c = record c { accepted = c.accepted + 1 }
count_state GroupStatus.correctable c = record c { correctable = c.correctable + 1 }
count_state GroupStatus.quarantined c = record c { quarantined = c.quarantined + 1 }
count_state GroupStatus.rejected c = record c { rejected = c.rejected + 1 }

unfoldable pub count_loop : Dict StoredGroup → StateCounts → StateCounts
unfolding count_state
count_loop [] c = c
count_loop (e ∷ d) c = count_loop d (count_state e.1.state c)

unfoldable pub count_by_state : LiveStore → StateCounts
unfolding count_loop
count_by_state s =
    count_loop s.records
      (record { pending = 0; accepted = 0; correctable = 0; quarantined = 0; rejected = 0 })

-- `len(store)`
unfoldable pub size : LiveStore → ℕ
size s = length s.records
