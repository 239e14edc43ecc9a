-- ===== src/Hermes/Extraction.antt =====
-- What hermes_token_extraction.py extracts from each turn of a run.
use streams_rollout_market.Prelude.{
  get_or, map, All, subst, ◌+◌, refl, Option-cases, Each, arith, Result-cases, drop, ◌<◌, length,
  false, true, ◌⊎◌, ok, ◌≡◌, ◌++◌, ℤ, List, Option, String, Texts, [], ◌∷◌, ℕ, none, some, inl, inr,
}
use streams_rollout_market.AgentLab.{assistant_steps, AgentStep, AgentTrajectory}
use streams_rollout_market.Hermes.Tokens.{
  extract_turn, extract_token_pairs, extract_loop, Message, ChatTokenizer, strip_think,
  build_prior_messages, encode, encode_response, encode_turn,
}

module _ (py : Texts) (remove_think : String → String) (t : AgentTrajectory)
    (tokenizer : Option ChatTokenizer) (system_prompt : Option String) where
  -- The messages that a turn is re-encoded from: what came before it, and its reply.
  abbrev pub reply_messages : ℕ → AgentStep → List Message
  reply_messages i s =
      build_prior_messages py remove_think t i system_prompt
      ++ record { role = "assistant"; content = strip_think py remove_think s.content } ∷ []

  -- What a pair of prompt and response owes to its turn.
  pub record IsExtracted (i : ℕ) (s : AgentStep) (pair : List ℤ × List ℤ) : Type 0 where
    pub response : (r : List ℤ) → s.response_token_ids ≡ some r → pair.1 ≡ r
    pub prompt :
        (p r : List ℤ) → s.prompt_token_ids ≡ some p → s.response_token_ids ≡ some r → pair.0 ≡ p
    pub encoded_prompt :
        (s.prompt_token_ids ≡ none) ⊎ (s.response_token_ids ≡ none)
        → (tok : ChatTokenizer) × (tokenizer ≡ some tok)
          × (encode py remove_think tok
                (build_prior_messages py remove_think t i system_prompt)
                true
              ≡ ok pair.0)
    pub encoded_response :
        s.response_token_ids ≡ none
        → (tok : ChatTokenizer) × (full : List ℤ) × (tokenizer ≡ some tok)
          × (encode py remove_think tok (reply_messages i s) false ≡ ok full)
          × (length pair.0 < length full)
          × (pair.1 ≡ drop (length pair.0) full)

  encode_turn-some :
      (i : ℕ) (s : AgentStep) (pair : List ℤ × List ℤ) (tok : ChatTokenizer)
      → tokenizer ≡ some tok
      → encode_turn py remove_think t tokenizer system_prompt i s ≡ ok pair
      → (encode py remove_think tok (build_prior_messages py remove_think t i system_prompt) true
          ≡ ok pair.0)
        × ((r : List ℤ) → s.response_token_ids ≡ some r → pair.1 ≡ r)
        × (s.response_token_ids ≡ none
            → (full : List ℤ) × (encode py remove_think tok (reply_messages i s) false ≡ ok full)
              × (length pair.0 < length full)
              × (pair.1 ≡ drop (length pair.0) full))
  unfolding encode_turn encode_response
  encode_turn-some i s pair tok e h =
      elim (Result-cases (
        encode py remove_think tok (build_prior_messages py remove_think t i system_prompt) true)) [
          | inr (x, n) ↦ absurd (ground arith)
          | inl (p, n) ↦ (
            ground arith,
            λ r q. ground arith,
            λ q. elim (Result-cases (encode py remove_think tok (reply_messages i s) false)) [
              | inr (x, k) ↦ absurd (ground arith)
              | inl (full, k) ↦ (full, k, ground arith, ground arith)
            ],
          )
        ]

  encode_turn-IsExtracted :
      (i : ℕ) (s : AgentStep) (pair : List ℤ × List ℤ) (o : Option ChatTokenizer)
      → tokenizer ≡ o
      → (s.prompt_token_ids ≡ none) ⊎ (s.response_token_ids ≡ none)
      → encode_turn py remove_think t tokenizer system_prompt i s ≡ ok pair
      → IsExtracted i s pair
  unfolding encode_turn
  encode_turn-IsExtracted i s pair none e missing h = absurd (ground arith)
  encode_turn-IsExtracted i s pair (some tok) e missing h =
      let (prompt, response, encoded) = encode_turn-some i s pair tok e h in
      record {
        response = response;
        prompt = λ p r x y. absurd (ground arith);
        encoded_prompt = λ m. (tok, e, prompt);
        encoded_response = λ m. let (full, x, y, z) = encoded m in (tok, full, e, x, y, z);
      }

  extract_turn-IsExtracted :
      (i : ℕ) (s : AgentStep) (pair : List ℤ × List ℤ)
      → extract_turn py remove_think t tokenizer system_prompt i s ≡ ok pair
      → IsExtracted i s pair
  unfolding extract_turn
  extract_turn-IsExtracted i s pair h = elim (Option-cases s.prompt_token_ids) [
    | inl n ↦ encode_turn-IsExtracted i s pair tokenizer refl (inl n) (ground (arith, h, n))
    | inr (p, n) ↦ elim (Option-cases s.response_token_ids) [
      | inl k ↦ encode_turn-IsExtracted i s pair tokenizer refl (inr k) (ground (arith, h, n, k))
      | inr (r, k) ↦ record {
        response = λ x y. ground arith;
        prompt = λ x y z w. ground arith;
        encoded_prompt = λ m. absurd (ground arith);
        encoded_response = λ m. absurd (ground arith);
      }
    ]
  ]

  extract_loop-Each :
      (i : ℕ) (ss : List AgentStep) (pairs : List (List ℤ × List ℤ))
      → extract_loop py remove_think t tokenizer system_prompt i ss ≡ ok pairs
      → Each IsExtracted i ss pairs
  unfolding extract_loop
  extract_loop-Each i [] [] h = tt
  extract_loop-Each i [] (p ∷ ps) h = absurd (cc)
  extract_loop-Each i (s ∷ ss) pairs h =
      elim (Result-cases (extract_turn py remove_think t tokenizer system_prompt i s)) [
        | inr (x, n) ↦ absurd (ground arith)
        | inl (p, n) ↦
            elim (Result-cases
              (extract_loop py remove_think t tokenizer system_prompt (i + 1) ss)) [
                | inr (x, k) ↦ absurd (ground arith)
                | inl (ps, k) ↦
                    subst (Each IsExtracted i (s ∷ ss)) {x = p ∷ ps} (ground arith)
                      (extract_turn-IsExtracted i s p n, extract_loop-Each (i + 1) ss ps k)
              ]
      ]

  -- Every assistant turn of the run has its pair, in order: captured responses are returned as they
  -- are, whatever the tokenizer, and captured prompts too where the response was captured; otherwise
  -- the prompt is the chat template's encoding of what came before the turn, and a response that was
  -- not captured is what the encoding with the reply has beyond the prompt's length, at least one token.
  pub extract_token_pairs-Each :
      (pairs : List (List ℤ × List ℤ))
      → extract_token_pairs py remove_think t tokenizer system_prompt ≡ ok pairs
      → Each IsExtracted 0 (assistant_steps t) pairs
  unfolding extract_token_pairs
  extract_token_pairs-Each pairs h = extract_loop-Each 0 (assistant_steps t) pairs h

-- Both token lists of the turn were captured at rollout time.
abbrev pub IsCaptured : AgentStep → Type 0
IsCaptured s =
    (p : List ℤ) × (r : List ℤ) × (s.prompt_token_ids ≡ some p) × (s.response_token_ids ≡ some r)

abbrev pub captured_pairs : List AgentStep → List (List ℤ × List ℤ)
captured_pairs = map (λ s. (get_or s.prompt_token_ids [], get_or s.response_token_ids []))

module _ (py : Texts) (remove_think : String → String) (t : AgentTrajectory)
    (tokenizer : Option ChatTokenizer) (system_prompt : Option String) where
  extract_loop-captured :
      (i : ℕ) (ss : List AgentStep)
      → All IsCaptured ss
      → extract_loop py remove_think t tokenizer system_prompt i ss ≡ ok (captured_pairs ss)
  unfolding extract_loop extract_turn
  extract_loop-captured i [] a = refl
  extract_loop-captured i (s ∷ ss) ((p, r, ep, er), a) =
      ground (arith, extract_loop-captured (i + 1) ss a)

  -- When every assistant turn was captured, the captured pairs are returned, with any tokenizer and
  -- with none.
  pub extract_token_pairs-captured :
      All IsCaptured (assistant_steps t)
      → extract_token_pairs py remove_think t tokenizer system_prompt
        ≡ ok (captured_pairs (assistant_steps t))
  unfolding extract_token_pairs
  extract_token_pairs-captured a = extract_loop-captured 0 (assistant_steps t) a
