-- ===== src/Hermes/Probes.antt =====
-- scripts/live/merge_probes_into_trajectories.py: captured probes, stamped onto the turns they belong
-- to.
use streams_rollout_market.Prelude.{
  if◌then◌else◌, ◌++◌, true, raise_if, ◌||◌, ◌>>◌, ◌>>=◌, value_error, pos, if◌then◌else◌, ◌+◌,
  ◌&&◌, raise, ok, lookup, insert, false, eq_ℤ, Option, ℤ, String, Result, List, Json, Dict, Bool,
  [], ◌∷◌, ℕ, none, some, ◌==◌,
}

-- `prompt_index`: a sequence number, or a hash of the first user message.
pub data PromptIndex : Type 0 where
  sequential : ℤ → PromptIndex
  hashed : String → PromptIndex

unfoldable pub prompt_index_eq : PromptIndex → PromptIndex → Bool
prompt_index_eq (sequential m) (sequential n) = eq_ℤ m n
prompt_index_eq (hashed s) (hashed t) = s == t
prompt_index_eq _ _ = false

-- What the script takes from Python: `s.isdigit()`, `int(s)` of a text, `int(value)`, and the first 16
-- digits of `sha256(text.encode("utf-8")).hexdigest()`.
pub record Numbers : Type 0 where
  pub is_digit : String → Bool
  pub parse_int : String → Result ℤ
  pub to_int : Json → Result ℤ
  pub digest : String → String

-- A value of a JSON list: an object, or something else.
pub data Value : Type 0 where
  dict : Dict Json → Value
  other : Json → Value

-- The probes of one turn, `out[(prompt_index, turn_idx)]`.
pub record Probe : Type 0 where
  pub prompt_index : PromptIndex
  pub turn_idx : ℤ
  pub fields : Dict Json

module _ (nb : Numbers) where
  unfoldable pub coerce_prompt_index : Json → Result PromptIndex
  coerce_prompt_index (Json.int n) = ok (sequential n)
  coerce_prompt_index (Json.flag true) = ok (sequential (pos 1))
  coerce_prompt_index (Json.flag false) = ok (sequential (pos 0))
  coerce_prompt_index (Json.text s) =
      if nb.is_digit s then (nb.parse_int s >>= λ n. ok (sequential n)) else ok (hashed s)
  coerce_prompt_index _ = raise value_error

-- `{k: rec[k] for k in keys if k in rec}`
unfoldable pub pick : List String → Dict Json → Dict Json
pick [] rec = []
pick (k ∷ ks) rec =
    let rest = pick ks rec in elim (lookup k rec) [ none ↦ rest | some v ↦ (k, v) ∷ rest ]

abbrev pub probe_keys : List String
probe_keys =
    "prompt_token_ids" ∷ "response_token_ids" ∷ "response_logprobs" ∷ "response_routed_experts" ∷ []

abbrev pub same_turn : Probe → Probe → Bool
same_turn p q = prompt_index_eq p.prompt_index q.prompt_index && eq_ℤ p.turn_idx q.turn_idx

-- `key in out`
unfoldable pub has_turn : Probe → List Probe → Bool
unfolding prompt_index_eq
has_turn p [] = false
has_turn p (q ∷ qs) = same_turn p q || has_turn p qs

module _ (nb : Numbers) where
  -- One record, with its required keys.
  unfoldable pub probe_of : Value → Result Probe
  unfolding coerce_prompt_index pick
  probe_of (other v) = raise value_error
  probe_of (dict rec) = elim (lookup "prompt_index" rec) [
    | none ↦ raise value_error
    | some p ↦ elim (lookup "turn_idx" rec) [
      | none ↦ raise value_error
      | some t ↦ do
        prompt_index ← coerce_prompt_index nb p
        turn_idx ← nb.to_int t
        ok (record {
          prompt_index = prompt_index;
          turn_idx = turn_idx;
          fields = pick probe_keys rec;
        })
    ]
  ]

  -- The loop over the records, from what `out` holds.
  unfoldable pub index_loop : List Value → List Probe → Result (List Probe)
  unfolding probe_of has_turn
  index_loop [] out = ok out
  index_loop (v ∷ vs) out = do
    probe ← probe_of v
    raise_if (has_turn probe out) value_error
    index_loop vs (out ++ probe ∷ [])

  unfoldable pub index_probes : List Value → Result (List Probe)
  unfolding index_loop
  index_probes records = index_loop records []

-- `{**a, **b}`
unfoldable pub update : Dict Json → Dict Json → Dict Json
update a [] = a
update a (e ∷ es) = update (insert e.0 e.1 a) es

-- `conv.get("from") == value`
abbrev pub is_from : String → Dict Json → Bool
is_from value conv = is_text (lookup "from" conv)
  where
    is_text : Option Json → Bool
    is_text (some (Json.text s)) = s == value
    is_text _ = false

-- `probes_by_turn.get(idx)`, in which a later probe of a turn replaces an earlier one.
unfoldable pub probe_at : ℕ → List Probe → Option Probe
probe_at idx [] = none
probe_at idx (p ∷ ps) =
    let later = probe_at idx ps in
    elim later [
      | some found ↦ some found
      | none ↦ if eq_ℤ p.turn_idx (pos idx) then some p else none
    ]

-- The conversation entry with the probes of its turn; an empty dict of probes is passed over.
abbrev pub stamp : Dict Json → Option Probe → Dict Json
stamp conv none = conv
stamp conv (some p) = update conv p.fields

-- The loop over the conversation, from the turn `gpt_idx`.
unfoldable pub inject_loop : ℕ → List Probe → List Value → List Value
unfolding update probe_at
inject_loop gpt_idx probes [] = []
inject_loop gpt_idx probes (other v ∷ convs) = other v ∷ inject_loop gpt_idx probes convs
inject_loop gpt_idx probes (dict conv ∷ convs) =
    let after = inject_loop (gpt_idx + 1) probes convs in
    let rest = inject_loop gpt_idx probes convs in
    if is_from "gpt" conv
    then dict (stamp conv (probe_at gpt_idx probes)) ∷ after
    else dict conv ∷ rest

-- The conversation of `inject_probes`; the record's other keys are kept.
unfoldable pub inject_probes : List Value → List Probe → List Value
unfolding inject_loop
inject_probes conversations probes = inject_loop 0 probes conversations

module _ (nb : Numbers) where
  -- `_first_user_message_hash`: that of the first message from a human that is a text.
  unfoldable pub first_user_message_hash : List Value → Option String
  first_user_message_hash [] = none
  first_user_message_hash (other v ∷ convs) = first_user_message_hash convs
  first_user_message_hash (dict conv ∷ convs) =
      let rest = first_user_message_hash convs in
      if is_from "human" conv then hash_or (lookup "value" conv) rest else rest
    where
      hash_or : Option Json → Option String → Option String
      hash_or (some (Json.text s)) rest = if s == "" then rest else some (nb.digest s)
      hash_or _ rest = rest

-- `pidx in candidate_pidx`
abbrev pub is_candidate : ℤ → Option String → PromptIndex → Bool
is_candidate legacy none pidx = prompt_index_eq pidx (sequential legacy)
is_candidate legacy (some hash) pidx =
    prompt_index_eq pidx (sequential legacy) || prompt_index_eq pidx (hashed hash)

-- The probes of one record, in the order of the index.
unfoldable pub probes_for : ℤ → Option String → List Probe → List Probe
unfolding prompt_index_eq
probes_for legacy hash [] = []
probes_for legacy hash (p ∷ ps) =
    let rest = probes_for legacy hash ps in
    if is_candidate legacy hash p.prompt_index then p ∷ rest else rest
