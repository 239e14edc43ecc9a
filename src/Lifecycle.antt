-- ===== src/Lifecycle.antt =====
-- The store under any sequence of calls: the methods of livestore.py and the trainer's `fetch`.
use streams_rollout_market.Prelude.{◌≡◌, ℤ, String, Bool, Option, Time, ok}
use streams_rollout_market.Contracts.{
  GroupStatus, RejectionReason, SampleGroup, GroupDecision, new_group_decision,
}
use streams_rollout_market.LiveStore.Batches.{servable, get_batch_lem}
use streams_rollout_market.LiveStore.Records.{
  Keeps, Keeps-refl, Keeps-trans, submit-Keeps, transition-Keeps, mark-Keeps,
}
use streams_rollout_market.LiveStore.WellFormed.{
  IsValid, submit-IsValid, transition-IsValid, mark-IsValid,
}
use streams_rollout_market.LiveStore.{LiveStore, submit, transition, get_batch}
use streams_rollout_market.TrainerClient.Fetch.{fetch_lem}
use streams_rollout_market.TrainerClient.{ReplayTier, admits, fetch}

-- One call, whether it raises or not. A decision that reaches the store was built by pydantic.
pub data Step (s : LiveStore) : LiveStore → Type 0 where
  submits :
      (g : SampleGroup) (d : GroupDecision) (clock : Time)
      → new_group_decision d ≡ ok d
      → Step s (submit g d clock s).1
  transitions :
      (k : String) (state : GroupStatus) (reason : String) (why : Option RejectionReason)
      (clock : Time)
      → Step s (transition k state reason why clock s).1
  batches : (n : ℤ) (q : Bool) → Step s (get_batch n q s).1
  fetches :
      (version : String) (n : ℤ) (staleness : Option ℤ) (precision : Option String)
      (tier : ReplayTier)
      → Step s (fetch version n staleness precision tier s).1

pub data Reach (s : LiveStore) : LiveStore → Type 0 where
  here : Reach s s
  next : {t u : LiveStore} → Reach s t → Step t u → Reach s u

Step-Keeps : {s t : LiveStore} → Step s t → Keeps s t
Step-Keeps {s} (submits g d clock built) = submit-Keeps g d clock s
Step-Keeps {s} (transitions k state reason why clock) = transition-Keeps k state reason why clock s
Step-Keeps {s} (batches n q) = rw (get_batch_lem n q s) (mark-Keeps (servable q) _ s)
Step-Keeps {s} (fetches version n staleness precision tier) =
    rw ((fetch_lem version staleness precision tier n s).1)
      (mark-Keeps (admits version staleness precision tier) _ s)

Step-IsValid : {s t : LiveStore} → Step s t → IsValid s → IsValid t
Step-IsValid {s} (submits g d clock built) v = submit-IsValid g d clock s built v
Step-IsValid {s} (transitions k state reason why clock) v =
    transition-IsValid k state reason why clock s v
Step-IsValid {s} (batches n q) v = rw (get_batch_lem n q s) (mark-IsValid (servable q) _ s v)
Step-IsValid {s} (fetches version n staleness precision tier) v =
    rw ((fetch_lem version staleness precision tier n s).1)
      (mark-IsValid (admits version staleness precision tier) _ s v)

-- Whatever calls are made, a stored group stays stored under its id with the same payload and
-- arrival time, its servings never shrink, and once it is rejected it stays rejected.
pub Reach-Keeps : {s t : LiveStore} → Reach s t → Keeps s t
Reach-Keeps {s} here = Keeps-refl s
Reach-Keeps {s} (next {t} {u} r st) = Keeps-trans s t u (Reach-Keeps r) (Step-Keeps st)

-- In every store reached from a valid one, each record stands under its group's id and has a
-- rejection reason exactly if it is rejected.
pub Reach-IsValid : {s t : LiveStore} → Reach s t → IsValid s → IsValid t
Reach-IsValid here v = v
Reach-IsValid (next r st) v = Step-IsValid st (Reach-IsValid r v)
