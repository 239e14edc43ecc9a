-- ===== src/Hermes/Capturing.antt =====
-- What logprob_capture_proxy.py derives from a request, against what merge_probes_into_trajectories.py
-- looks for.
use streams_rollout_market.Prelude.{
  Result-cases, Result, ◌∙◌, ap, ◌-◌, ◌+◌, Option-cases, ◌≤◌, ltb, length, Float, ok, false, true,
  lookup, take, if◌then◌else◌, arith, ◌≡◌, String, Json, ℤ, Option, List, [], ◌∷◌, ℕ, none, some,
  refl, nil, cons, array, text, Items, zero, suc, inl, inr,
}
use streams_rollout_market.Hermes.Probes.{
  Value, dict, other, Numbers, hashed, coerce_prompt_index, prompt_index_eq, is_from,
  first_user_message_hash, is_candidate,
}
use streams_rollout_market.Hermes.Stamping.{is_gpt, gpt_turns}
use streams_rollout_market.Hermes.Proxy.{
  count_or, trimmed, capture, filled, head_of, get_in, as_float, positive_int, Captured, trim,
  drop_items, logprobs_of, item_count, extract_probes, get_field, text_is, user_text, nonempty_text,
  count_assistants, hash_first, derive_turn_idx, derive_prompt_index,
}

-- What a conversation entry says, if it is a human's and a text.
abbrev pub human_text : Value → Option String
human_text (other v) = none
human_text (dict conv) = if is_from "human" conv then nonempty_text (lookup "value" conv) else none

-- The messages of a request are the entries of a conversation: the assistant's are those of the model,
-- and the user's say what the human's say.
abbrev pub IsSameTalk : Items → List Value → Type 0
IsSameTalk nil [] = Unit
IsSameTalk (cons m ms) (v ∷ vs) =
    (text_is "assistant" (get_field "role" m) ≡ is_gpt v)
    × (user_text m ≡ human_text v)
    × IsSameTalk ms vs
IsSameTalk _ _ = ⊥

count_assistants-gpt_turns :
    (ms : Items) (vs : List Value) → IsSameTalk ms vs → count_assistants ms ≡ gpt_turns vs
unfolding count_assistants
count_assistants-gpt_turns nil [] h = refl
count_assistants-gpt_turns nil (v ∷ vs) h = absurd h
count_assistants-gpt_turns (cons m ms) [] h = absurd h
count_assistants-gpt_turns (cons m ms) (v ∷ vs) h =
    ground (arith, h.0, count_assistants-gpt_turns ms vs h.2)

module _ (nb : Numbers) where
  first_user_message_hash-cons :
      (v : Value) (vs : List Value)
      → first_user_message_hash nb (v ∷ vs)
        ≡ elim (human_text v) [ none ↦ first_user_message_hash nb vs | some s ↦ some (nb.digest s) ]
  unfolding first_user_message_hash
  first_user_message_hash-cons (other v) vs = refl
  first_user_message_hash-cons (dict conv) vs = ground arith

  hash_first-cons :
      (ms : Items) (vs : List Value) (h : String)
      → IsSameTalk ms vs
      → first_user_message_hash nb vs ≡ some h
      → hash_first nb.digest ms ≡ h
  unfolding hash_first first_user_message_hash
  hash_first-cons nil [] h s e = absurd (cc)
  hash_first-cons nil (v ∷ vs) h s e = absurd s
  hash_first-cons (cons m ms) [] h s e = absurd s
  hash_first-cons (cons m ms) (v ∷ vs) h s e =
      ground (arith, s.1, e, first_user_message_hash-cons v vs, hash_first-cons ms vs h s.2)

  -- More of the conversation does not change its first message.
  first_user_message_hash-take :
      (i : ℕ) (vs : List Value) (h : String)
      → first_user_message_hash nb (take i vs) ≡ some h
      → first_user_message_hash nb vs ≡ some h
  unfolding first_user_message_hash
  first_user_message_hash-take zero vs h e = absurd (cc)
  first_user_message_hash-take (suc i) [] h e = e
  first_user_message_hash-take (suc i) (v ∷ vs) h e = ground (
    arith,
    e,
    first_user_message_hash-cons v vs,
    first_user_message_hash-cons v (take i vs),
    first_user_message_hash-take i vs h,
  )

-- The proxy and the merger agree: for a request that carries the conversation up to a position, where a
-- user has spoken, the turn that the proxy derives is the number of the model's messages before the
-- position, and the prompt index that it derives is one that the merger looks for in the whole
-- conversation; the merger reads it back as a hash unless it consists of digits only.
pub derive_lem :
    (nb : Numbers) (legacy : ℤ) (convs : List Value) (i : ℕ) (body : Json) (ms : Items) (h : String)
    → get_field "messages" body ≡ some (array ms)
    → IsSameTalk ms (take i convs)
    → first_user_message_hash nb (take i convs) ≡ some h
    → (let prompt = derive_prompt_index nb.digest (some body) in
        (derive_turn_idx (some body) ≡ gpt_turns (take i convs))
        × (is_candidate legacy (first_user_message_hash nb convs) (hashed prompt) ≡ true)
        × (nb.is_digit h ≡ false → coerce_prompt_index nb (text prompt) ≡ ok (hashed prompt)))
unfolding derive_turn_idx derive_prompt_index coerce_prompt_index prompt_index_eq
derive_lem nb legacy convs i body ms h found same first =
    let hash = hash_first-cons nb ms (take i convs) h same first in
    (
      ground (arith, found, count_assistants-gpt_turns ms (take i convs) same),
      ground (arith, found, hash, first_user_message_hash-take nb i convs h first),
      λ not_digit. ground (arith, found, hash, not_digit),
    )

item_count-drop_items :
    (n : ℕ) (xs : Items) → n ≤ item_count xs → item_count (drop_items n xs) + n ≡ item_count xs
unfolding item_count drop_items
item_count-drop_items zero xs h = omega arith
item_count-drop_items (suc n) nil h = absurd (omega arith)
item_count-drop_items (suc n) (cons x xs) h =
    omega (arith, item_count-drop_items n xs (omega arith))

item_count-trim :
    (tokens : ℕ) (routed : Items)
    → item_count (trim (some tokens) routed)
      ≡ (if ltb tokens (item_count routed) then tokens else item_count routed)
item_count-trim tokens routed =
    ground (arith, item_count-drop_items (item_count routed - tokens) routed (omega arith))

logprobs_of-cons :
    (of_int : ℤ → Result Float) (xs : Items) (lps : List Float)
    → logprobs_of of_int xs ≡ ok (some lps)
    → length lps ≡ item_count xs
unfolding logprobs_of item_count
logprobs_of-cons of_int nil lps h = ground (arith, h)
logprobs_of-cons of_int (cons x xs) lps h =
    elim (Option-cases (as_float of_int (get_field "logprob" x))) [
      | inl n ↦ absurd (ground arith)
      | inr (converted, n) ↦ elim (Result-cases converted) [
        | inr (e, m) ↦ absurd (ground arith)
        | inl (lp, m) ↦ elim (Result-cases (logprobs_of of_int xs)) [
          | inr (e, k) ↦ absurd (ground arith)
          | inl (none, k) ↦ absurd (ground arith)
          | inl (some rest, k) ↦ ground (arith, n, m, k, h, logprobs_of-cons of_int xs rest k)
        ]
      ]
    ]

filled-item_count : (o : Option Json) (items : Items) → filled o ≡ some items → 1 ≤ item_count items
unfolding item_count
filled-item_count (some (array (cons x xs))) items h = ground arith
filled-item_count _ items h = absurd (cc)

trimmed-item_count :
    (tokens : Option ℕ) (n : ℕ) (ids o : Option Items) (routed : Items)
    → tokens ≡ some n
    → trimmed (count_or tokens ids) o ≡ some routed
    → item_count routed ≤ n
trimmed-item_count none n ids o routed e h = absurd (cc)
trimmed-item_count (some m) n ids none routed e h = absurd (cc)
trimmed-item_count (some m) n ids (some all) routed e h =
    ground (arith, e, h, item_count-trim m all)

-- A captured response has at least one log-probability; and where vLLM reports `n` tokens, the captured
-- routing, which also covers the prompt before it is trimmed, is for at most `n` tokens.
pub extract_probes-bounds :
    (of_int : ℤ → Result Float) (response : Json) (prompt : String) (turn : ℕ) (c : Captured)
    → extract_probes of_int (some response) prompt turn ≡ ok (some c)
    → (1 ≤ length c.response_logprobs)
      × ((n : ℕ) (routed : Items)
          → positive_int (get_in "completion_tokens" (get_field "usage" response)) ≡ some n
          → c.response_routed_experts ≡ some routed
          → item_count routed ≤ n)
unfolding extract_probes
extract_probes-bounds of_int response prompt turn c h =
    let choice = head_of (get_field "choices" response) in
    let content = get_in "content" (get_in "logprobs" choice) in
    elim (Option-cases (filled content)) [
      | inl n ↦ absurd (ground arith)
      | inr (items, n) ↦ elim (Result-cases (logprobs_of of_int items)) [
        | inr (e, k) ↦ absurd (ground arith)
        | inl (none, k) ↦ absurd (ground arith)
        | inl (some lps, k) ↦
            let made : capture of_int prompt turn response lps ≡ c = ground (arith, h, n, k) in
            (
              ground (
                arith,
                made,
                filled-item_count content items n,
                logprobs_of-cons of_int items lps k,
              ),
              λ m routed e f.
                  trimmed-item_count
                    (positive_int (get_in "completion_tokens" (get_field "usage" response))) m
                    (filled (get_in "token_ids" choice)) (filled (get_in "routed_experts" choice))
                    routed e (ap (λ x. x.response_routed_experts) made ∙ f),
            )
      ]
    ]
