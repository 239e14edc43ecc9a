-- ===== src/Hermes/Histories.antt =====
-- The chat template in hermes_token_extraction.py: prompt and response together, and how the history
-- of a run grows.
use mathlib.Core.List.{append_assoc}
use streams_rollout_market.Prelude.{
  get_elem?, Bool-cases, ◌≤◌, All, sym, ap, ◌∙◌, subst, ◌++◌, ok, false, arith, ◌≡◌, length, true,
  drop, Option, ◌+◌, ℤ, String, Texts, List, [], ◌∷◌, ℕ, none, some, inl, inr, Each, refl, suc,
  zero,
}
use streams_rollout_market.AgentLab.{
  is_assistant, assistants, AgentStep, AgentTrajectory, assistant_steps,
}
use streams_rollout_market.Hermes.Tokens.{
  system_messages, Message, ChatTokenizer, strip_think, build_prior_messages, prior_loop, encode,
  extract_token_pairs,
}
use streams_rollout_market.Hermes.Extraction.{IsExtracted, reply_messages, extract_token_pairs-Each}

drop_append : (xs ys : List ℤ) → drop (length xs) (xs ++ ys) ≡ ys
drop_append [] ys = refl
drop_append (x ∷ xs) ys = drop_append xs ys

Each-map {ℓ κ} :
    {A : Type ℓ} {B : Type κ} (R S : ℕ → A → B → Type 0)
    → ((i : ℕ) (x : A) (y : B) → R i x y → S i x y)
    → (i : ℕ) (xs : List A) (ys : List B) → Each R i xs ys
    → Each S i xs ys
Each-map R S f i [] [] e = tt
Each-map R S f i [] (y ∷ ys) e = e
Each-map R S f i (x ∷ xs) [] e = e
Each-map R S f i (x ∷ xs) (y ∷ ys) e = (f i x y e.0, Each-map R S f (i + 1) xs ys e.1)

module _ (py : Texts) (remove_think : String → String) where
  -- The chat template only appends an assistant's reply: the encoding of the messages with the reply
  -- begins with that of the messages with the generation prompt.
  abbrev pub IsExtending : ChatTokenizer → Type 0
  IsExtending tok =
      (messages : List Message) (reply : Message) (p full : List ℤ)
      → reply.role ≡ "assistant"
      → encode py remove_think tok messages true ≡ ok p
      → encode py remove_think tok (messages ++ reply ∷ []) false ≡ ok full
      → (x : List ℤ) × (full ≡ p ++ x)

module _ (py : Texts) (remove_think : String → String) (t : AgentTrajectory) (tok : ChatTokenizer)
    (system_prompt : Option String) where
  abbrev pub IsWhole : ℕ → AgentStep → List ℤ × List ℤ → Type 0
  IsWhole i s pair =
      s.response_token_ids ≡ none
      → encode py remove_think tok (reply_messages py remove_think t (some tok) system_prompt i s)
          false
        ≡ ok (pair.0 ++ pair.1)

  IsExtracted-IsWhole :
      IsExtending py remove_think tok
      → (i : ℕ) (s : AgentStep) (pair : List ℤ × List ℤ)
      → IsExtracted py remove_think t (some tok) system_prompt i s pair
      → IsWhole i s pair
  IsExtracted-IsWhole extending i s pair e missing =
      let (tok', same, prompt) = e.encoded_prompt (inr missing) in
      let (tok2, full, same2, encoded, long, rest) = e.encoded_response missing in
      let is_tok : tok' ≡ tok = ground (arith, same) in
      let is_tok2 : tok2 ≡ tok = ground (arith, same2) in
      let encoded' : encode py remove_think tok
            (reply_messages py remove_think t (some tok) system_prompt i s) false
          ≡ ok full =
        subst
          (λ k.
            encode py remove_think k (reply_messages py remove_think t (some tok) system_prompt i s)
              false
            ≡ ok full)
          is_tok2 encoded in
      let prompt' =
        subst
          (λ k.
            encode py remove_think k (build_prior_messages py remove_think t i system_prompt) true
            ≡ ok pair.0)
          is_tok prompt in
      let (x, split) = extending _ _ pair.0 full refl prompt' encoded' in
      let tail : pair.1 ≡ x = rest ∙ ap (drop (length pair.0)) split ∙ drop_append pair.0 x in
      encoded' ∙ ap (λ z. ok z) (split ∙ ap (λ z. pair.0 ++ z) (sym tail))

  -- With a chat template that only appends an assistant's reply to the generation prompt, no token of a
  -- re-encoded turn is lost or repeated: the prompt followed by the response is the encoding of the
  -- history with the reply.
  pub extract_token_pairs_roundtrip :
      (pairs : List (List ℤ × List ℤ))
      → IsExtending py remove_think tok
      → extract_token_pairs py remove_think t (some tok) system_prompt ≡ ok pairs
      → Each IsWhole 0 (assistant_steps t) pairs
  extract_token_pairs_roundtrip pairs extending h =
      Each-map (IsExtracted py remove_think t (some tok) system_prompt) IsWhole
        (IsExtracted-IsWhole extending) 0 (assistant_steps t) pairs
        (extract_token_pairs-Each py remove_think t (some tok) system_prompt pairs h)

abbrev pub IsTool : Message → Type 0
IsTool m = m.role ≡ "tool"

module _ (py : Texts) (remove_think : String → String) where
  -- From the target on, only the tool messages up to the next assistant turn are left.
  prior_loop-IsTool :
      (target seen : ℕ) (ss : List AgentStep)
      → target ≤ seen
      → All IsTool (prior_loop py remove_think target seen ss)
  unfolding prior_loop
  prior_loop-IsTool target seen [] h = tt
  prior_loop-IsTool target seen (s ∷ ss) h = elim (Bool-cases (is_assistant s.role)) [
    | inl yes_ ↦ subst (All IsTool) {x = []} (ground (arith, yes_)) tt
    | inr no_ ↦
        subst (All IsTool)
          {x = record { role = "tool"; content = s.content }
            ∷ prior_loop py remove_think target seen ss}
          (ground (arith, no_)) (refl, prior_loop-IsTool target seen ss h)
  ]

  -- What the loop adds when the target moves on by one turn.
  abbrev pub Grows : List Message → AgentStep → List Message → Type 0
  Grows before s after =
      (tools : List Message) × (after
        ≡ before
          ++ record { role = "assistant"; content = strip_think py remove_think s.content } ∷ tools)
      × All IsTool tools

  prior_loop-Grows :
      (k target seen : ℕ) (ss : List AgentStep) (s : AgentStep)
      → target ≡ seen + k
      → get_elem? (assistants ss) k ≡ some s
      → Grows
          (prior_loop py remove_think target seen ss)
          s
          (prior_loop py remove_think (target + 1) seen ss)
  unfolding prior_loop assistants
  prior_loop-Grows k target seen [] s e h = absurd (cc)
  prior_loop-Grows zero target seen (x ∷ xs) s e h = elim (Bool-cases (is_assistant x.role)) [
    | inl found ↦ (
      prior_loop py remove_think (target + 1) (seen + 1) xs,
      ground (arith, h, found),
      prior_loop-IsTool (target + 1) (seen + 1) xs (omega (arith, e)),
    )
    | inr other ↦
        let (tools, grown, all) =
          prior_loop-Grows zero target seen xs s e (ground (arith, h, other)) in
        (tools, ground (arith, grown, other), all)
  ]
  prior_loop-Grows (suc k) target seen (x ∷ xs) s e h = elim (Bool-cases (is_assistant x.role)) [
    | inl found ↦
        let (tools, grown, all) =
          prior_loop-Grows k target (seen + 1) xs s (omega (arith, e)) (ground (arith, h, found)) in
        (tools, ground (arith, grown, found, e), all)
    | inr other ↦
        let (tools, grown, all) =
          prior_loop-Grows (suc k) target seen xs s e (ground (arith, h, other)) in
        (tools, ground (arith, grown, other), all)
  ]

-- The history before a turn is the history before the previous turn, followed by that turn's reply
-- without its thoughts, and by messages of tools alone.
pub build_prior_messages-Grows :
    (py : Texts) (remove_think : String → String) (t : AgentTrajectory)
    (system_prompt : Option String) (i : ℕ) (s : AgentStep)
    → get_elem? (assistant_steps t) i ≡ some s
    → Grows py remove_think
        (build_prior_messages py remove_think t i system_prompt)
        s
        (build_prior_messages py remove_think t (i + 1) system_prompt)
unfolding build_prior_messages assistant_steps
build_prior_messages-Grows py remove_think t system_prompt i s h =
    let (tools, grown, all) = prior_loop-Grows py remove_think i i 0 t.steps s (omega arith) h in
    let user : Message = record { role = "user"; content = t.task_text } in
    let system : List Message = system_messages py remove_think system_prompt in
    (
      tools,
      ap (λ z. system ++ user ∷ z) grown
          ∙ sym (append_assoc system (user ∷ prior_loop py remove_think i 0 t.steps) _),
      all,
    )
