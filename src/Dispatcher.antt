-- ===== src/Dispatcher.antt =====
-- src/rollout_market/dispatcher.py: the choice of a worker by capability and price.
pub mod Choice
use streams_rollout_market.Prelude.{
  ℤ, ltb_ℤ, String, Bool, true, false, not, ◌&&◌, Option, none, some, List, [], ◌∷◌, member, Float,
  Floats, is_none, Result, ok, raise, runtime_error, sort_by, if◌then◌else◌,
}
use streams_rollout_market.Contracts.{PolicyManifest, WorkerHeartbeat}

pub record Assignment : Type 0 where
  pub assignment_id : String
  pub worker_id : String
  pub policy_version : String
  pub prompt_id : String
  pub group_size : ℤ

-- The condition of the comprehension.
unfoldable pub is_eligible : PolicyManifest → ℤ → WorkerHeartbeat → Bool
is_eligible manifest max_context_tokens w =
    w.healthy
    && member manifest.precision_class w.precision_classes
    && not (ltb_ℤ w.max_context_tokens max_context_tokens)

unfoldable pub candidates : PolicyManifest → ℤ → List WorkerHeartbeat → List WorkerHeartbeat
candidates manifest max_context_tokens [] = []
candidates manifest max_context_tokens (w ∷ ws) =
    let rest = candidates manifest max_context_tokens ws in
    if is_eligible manifest max_context_tokens w then w ∷ rest else rest

module _ (fl : Floats) where
  -- `price or 0.0`
  unfoldable pub price_or_zero : Option Float → Float
  price_or_zero none = fl.of_nat 0
  price_or_zero (some p) = if fl.eq p (fl.of_nat 0) then fl.of_nat 0 else p

  -- `key(v) < key(w)` for the pairs `(price is None, price or 0.0)`: False comes before True, and
  -- at equal first parts the second parts decide.
  unfoldable pub is_cheaper : WorkerHeartbeat → WorkerHeartbeat → Bool
  unfolding price_or_zero
  is_cheaper v w = elim (is_none v.price_hint_per_hour) [
    | true ↦
        is_none w.price_hint_per_hour
        && fl.lt (price_or_zero v.price_hint_per_hour) (price_or_zero w.price_hint_per_hour)
    | false ↦
        if is_none w.price_hint_per_hour
        then true
        else fl.lt (price_or_zero v.price_hint_per_hour) (price_or_zero w.price_hint_per_hour)
  ]

  -- `sorted(candidates, key=…)[0]`
  abbrev pub first_of : List WorkerHeartbeat → Result WorkerHeartbeat
  first_of [] = raise runtime_error
  first_of (w ∷ ws) = ok w

  unfoldable pub choose_worker : List WorkerHeartbeat → PolicyManifest → ℤ → Result WorkerHeartbeat
  unfolding candidates
  choose_worker workers manifest max_context_tokens =
      first_of (sort_by is_cheaper (candidates manifest max_context_tokens workers))

-- The `uuid4()` is an argument.
unfoldable pub make_assignment : String → WorkerHeartbeat → PolicyManifest → String → ℤ → Assignment
make_assignment uuid worker manifest prompt_id group_size = record {
  assignment_id = uuid;
  worker_id = worker.worker_id;
  policy_version = manifest.policy_version;
  prompt_id = prompt_id;
  group_size = group_size;
}
