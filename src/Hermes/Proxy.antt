-- ===== src/Hermes/Proxy.antt =====
-- scripts/live/logprob_capture_proxy.py: the probes of one response, and the indices of its request.
use streams_rollout_market.Prelude.{
  ◌>>=◌, ok, Result, pos_part, pos, ltb_ℤ, List, Float, Bool, ◌+◌, ℤ, String, Option, flag, int,
  float, text, array, object, nil, cons, end, field, zero, suc, true, false, if◌then◌else◌, ltb,
  ◌-◌, [], ◌∷◌, ℕ, none, some, ◌==◌, Json, Items, Fields,
}

-- `fields[k]`, for the fields of an object that `json.loads` returned.
unfoldable pub field_in : String → Fields → Option Json
field_in k end = none
field_in k (field name v fs) = if name == k then some v else field_in k fs

-- `value.get(k)` where the value is an object, and none where it is not.
abbrev pub get_field : String → Json → Option Json
get_field k (object fs) = field_in k fs
get_field k _ = none

abbrev pub text_is : String → Option Json → Bool
text_is s (some (text t)) = t == s
text_is s _ = false

-- The number of objects in a list with the role "assistant".
unfoldable pub count_assistants : Items → ℕ
unfolding field_in
count_assistants nil = 0
count_assistants (cons m ms) =
    let rest = count_assistants ms in
    if text_is "assistant" (get_field "role" m) then rest + 1 else rest

abbrev pub turns_in : Option Json → ℕ
turns_in (some (array messages)) = count_assistants messages
turns_in _ = 0

-- The request's body is decoded; none stands for an empty or a malformed one.
unfoldable pub derive_turn_idx : Option Json → ℕ
unfolding count_assistants
derive_turn_idx none = 0
derive_turn_idx (some body) = turns_in (get_field "messages" body)

abbrev pub nonempty_text : Option Json → Option String
nonempty_text (some (text s)) = if s == "" then none else some s
nonempty_text _ = none

-- What a message says, if it is the user's and a text.
abbrev pub user_text : Json → Option String
user_text m =
    if text_is "user" (get_field "role" m) then nonempty_text (get_field "content" m) else none

-- The hash of the first such message.
unfoldable pub hash_first : (String → String) → Items → String
unfolding field_in
hash_first digest nil = "0"
hash_first digest (cons m ms) =
    let rest = hash_first digest ms in elim (user_text m) [ none ↦ rest | some s ↦ digest s ]

abbrev pub prompt_in : (String → String) → Option Json → String
prompt_in digest (some (array messages)) = hash_first digest messages
prompt_in digest _ = "0"

unfoldable pub derive_prompt_index : (String → String) → Option Json → String
unfolding hash_first
derive_prompt_index digest none = "0"
derive_prompt_index digest (some body) = prompt_in digest (get_field "messages" body)

-- What `extract_probes` returns; a key that it leaves out is none.
pub record Captured : Type 0 where
  pub prompt_index : String
  pub turn_idx : ℕ
  pub response_logprobs : List Float
  pub response_token_ids : Option Items
  pub prompt_token_ids : Option Items
  pub response_routed_experts : Option Items
  pub prompt_routed_experts : Option Items

unfoldable pub item_count : Items → ℕ
item_count nil = 0
item_count (cons x xs) = item_count xs + 1

unfoldable pub drop_items : ℕ → Items → Items
drop_items zero xs = xs
drop_items (suc n) nil = nil
drop_items (suc n) (cons x xs) = drop_items n xs

-- A list that is not empty.
abbrev pub filled : Option Json → Option Items
filled (some (array (cons x xs))) = some (cons x xs)
filled _ = none

-- The first element of a list that is not empty.
abbrev pub head_of : Option Json → Option Json
head_of (some (array (cons x xs))) = some x
head_of _ = none

-- `value.get(k)` of a value that may be missing.
abbrev pub get_in : String → Option Json → Option Json
get_in k none = none
get_in k (some v) = get_field k v

-- `float(lp)` of an int is an argument: it raises OverflowError where the int is too large. A flag
-- counts as an int.
module _ (of_int : ℤ → Result Float) where
  abbrev pub as_float : Option Json → Option (Result Float)
  as_float (some (int n)) = some (of_int n)
  as_float (some (float x)) = some (ok x)
  as_float (some (flag true)) = some (of_int (pos 1))
  as_float (some (flag false)) = some (of_int (pos 0))
  as_float _ = none

  -- The loop over the tokens of the response: the first that has no number returns None, the first
  -- that overflows raises.
  unfoldable pub logprobs_of : Items → Result (Option (List Float))
  unfolding field_in
  logprobs_of nil = ok (some [])
  logprobs_of (cons x xs) = elim (as_float (get_field "logprob" x)) [
    | none ↦ ok none
    | some converted ↦ do
      lp ← converted
      rest ← logprobs_of xs
      ok (elim rest [ none ↦ none | some lps ↦ some (lp ∷ lps) ])
  ]

-- `usage["completion_tokens"]`, if it is an int above 0.
abbrev pub positive_int : Option Json → Option ℕ
positive_int (some (int n)) = if ltb_ℤ (pos 0) n then some (pos_part n) else none
positive_int (some (flag true)) = some 1
positive_int _ = none

abbrev pub count_or : Option ℕ → Option Items → Option ℕ
count_or (some n) ids = some n
count_or none none = none
count_or none (some ids) = some (item_count ids)

-- The routing of the response alone: the last `tokens` entries, if there are more.
abbrev pub trim : Option ℕ → Items → Items
trim none routed = routed
trim (some tokens) routed =
    if ltb tokens (item_count routed)
    then drop_items (item_count routed - tokens) routed
    else routed

abbrev pub trimmed : Option ℕ → Option Items → Option Items
trimmed tokens none = none
trimmed tokens (some routed) = some (trim tokens routed)

module _ (of_int : ℤ → Result Float) where
  -- The record, once the log-probabilities are there.
  abbrev pub capture : String → ℕ → Json → List Float → Captured
  capture prompt_index turn_idx response logprobs =
      let choice = head_of (get_field "choices" response) in
      let ids = filled (get_in "token_ids" choice) in
      let tokens =
        count_or (positive_int (get_in "completion_tokens" (get_field "usage" response))) ids in
      record {
        prompt_index = prompt_index;
        turn_idx = turn_idx;
        response_logprobs = logprobs;
        response_token_ids = ids;
        prompt_token_ids = filled (get_field "prompt_token_ids" response);
        response_routed_experts = trimmed tokens (filled (get_in "routed_experts" choice));
        prompt_routed_experts = filled (get_field "prompt_routed_experts" response);
      }

  -- The response's body is decoded; none stands for a malformed one.
  unfoldable pub extract_probes : Option Json → String → ℕ → Result (Option Captured)
  unfolding field_in logprobs_of item_count drop_items
  extract_probes none prompt_index turn_idx = ok none
  extract_probes (some response) prompt_index turn_idx =
      let choice = head_of (get_field "choices" response) in
      elim (filled (get_in "content" (get_in "logprobs" choice))) [
        | none ↦ ok none
        | some content ↦ do
          logprobs ← logprobs_of of_int content
          ok (elim logprobs [
            | none ↦ none
            | some lps ↦ some (capture prompt_index turn_idx response lps)
          ])
      ]
