-- ===== src/Hermes/Indexing.antt =====
-- The payload and the index that build_hermes_dense_input.py builds: they hold the turns of the
-- runs, and belong together.
use mathlib.Core.List.{append_assoc, append-nil}
use streams_rollout_market.Hermes.Turns.{
  no_tokens, no_logprobs, missing-snoc, missing, has_tokens, IsSkipOf, IsEntryOf, turns_of,
  turns_from, is_captured, captured-snoc, captured, Turn, IsRolloutOf,
}
use streams_rollout_market.Prelude.{
  sym, if◌then◌else◌, false, Option-cases, inl, inr, get_or, Result-cases, ok, subst, length-append,
  ◌++◌, arith, Option, Float, ◌+◌, ℤ, length, ◌≡◌, String, List, All, [], ◌∷◌, ℕ, some, Each, refl,
}
use streams_rollout_market.AgentLab.{new_agent_step, AgentStep, AgentTrajectory, assistant_steps}
use streams_rollout_market.Hermes.Inputs.{
  empty_build, Index, build_turns, build_rollouts_and_index, build_loop, Rollout, IndexEntry, Build,
  add_turn, skip_turn, build_turn,
}

-- Every assistant turn is one that pydantic accepted.
abbrev pub HasAcceptedTurns : AgentTrajectory → Type 0
HasAcceptedTurns t = All (λ s. new_agent_step s ≡ ok s) (assistant_steps t)

new_agent_step-length :
    (s : AgentStep) (ids : List ℤ) (logprobs : List Float)
    → new_agent_step s ≡ ok s
    → s.response_token_ids ≡ some ids
    → s.response_logprobs ≡ some logprobs
    → length logprobs ≡ length ids
unfolding new_agent_step
new_agent_step-length s ids logprobs h e f = ground arith

-- Rollout and index entry number `i` describe one turn.
pub record IsSameTurn (i : ℕ) (r : Rollout) (e : IndexEntry) : Type 0 where
  pub rollout_idx : r.prompt_idx ≡ i
  pub entry_idx : e.prompt_idx ≡ i
  pub task : e.task_id ≡ r.task_id
  pub run : e.trajectory_run_id ≡ r.trajectory_run_id
  pub turn : e.assistant_turn_idx ≡ r.assistant_turn_idx
  pub tokens : e.num_tokens ≡ length r.response_token_ids
  pub logprobs : length e.response_logprobs ≡ length r.response_token_ids

Each-length {ℓ κ} :
    {A : Type ℓ} {B : Type κ} (R : ℕ → A → B → Type 0) (i : ℕ) (xs : List A) (ys : List B)
    → Each R i xs ys
    → length xs ≡ length ys
Each-length R i [] [] e = refl
Each-length R i [] (y ∷ ys) e = absurd e
Each-length R i (x ∷ xs) [] e = absurd e
Each-length R i (x ∷ xs) (y ∷ ys) e = omega (arith, Each-length R (i + 1) xs ys e.1)

Each-snoc {ℓ κ} :
    {A : Type ℓ} {B : Type κ} (R : ℕ → A → B → Type 0) (i n : ℕ) (xs : List A) (ys : List B) (x : A)
    (y : B)
    → Each R i xs ys
    → n ≡ i + length xs
    → R n x y
    → Each R i (xs ++ x ∷ []) (ys ++ y ∷ [])
Each-snoc R i n [] [] x y e h r = (subst (λ m. R m x y) (omega (arith, h)) r, tt)
Each-snoc R i n [] (z ∷ ys) x y e h r = absurd e
Each-snoc R i n (z ∷ xs) [] x y e h r = absurd e
Each-snoc R i n (z ∷ xs) (w ∷ ys) x y e h r =
    (e.0, Each-snoc R (i + 1) n xs ys x y e.1 (omega (arith, h)) r)

-- The lists of a build, after the turns of `done`.
record IsBuilt (done : List Turn) (b : Build) : Type 0 where
  paired : Each IsSameTurn 0 b.rollouts b.entries
  next : b.next_prompt_idx ≡ length b.rollouts
  rolled : Each IsRolloutOf 0 (captured done) b.rollouts
  indexed : Each IsEntryOf 0 (captured done) b.entries
  left : Each IsSkipOf 0 (missing done) b.skipped

module _ (t : AgentTrajectory) (turn_idx : ℕ) (s : AgentStep) (done : List Turn) (b : Build) where
  abbrev this : Turn
  this = record { run = t; idx = turn_idx; step = s }

  skip_turn-IsBuilt :
      (reason : String)
      → is_captured this ≡ false
      → reason ≡ (if has_tokens s then no_logprobs else no_tokens)
      → IsBuilt done b
      → IsBuilt (done ++ this ∷ []) (skip_turn t turn_idx reason b)
  skip_turn-IsBuilt reason lacks why i =
      let (kept, more) = missing-snoc done this lacks in
      record {
        paired = i.paired;
        next = i.next;
        rolled = rw kept i.rolled;
        indexed = rw kept i.indexed;
        left = rw more (
            Each-snoc IsSkipOf 0 (length (missing done)) (missing done) b.skipped this _ i.left
              (omega arith) (record { task = refl; run = refl; turn = refl; reason = why }));
      }

  add_turn-IsBuilt :
      (model : String) (prompt response : List ℤ) (logprobs : List Float)
      → s.prompt_token_ids ≡ some prompt
      → s.response_token_ids ≡ some response
      → s.response_logprobs ≡ some logprobs
      → length logprobs ≡ length response
      → IsBuilt done b
      → IsBuilt (done ++ this ∷ []) (add_turn model t turn_idx prompt response logprobs b)
  add_turn-IsBuilt model prompt response logprobs e f g measured i =
      let (more, kept) = captured-snoc done this (rw (e, f, g) refl) in
      let rolled = Each-length IsRolloutOf 0 (captured done) b.rollouts i.rolled in
      record {
        paired =
            Each-snoc IsSameTurn 0 b.next_prompt_idx b.rollouts b.entries _ _ i.paired
              (omega (arith, i.next))
              (record {
                rollout_idx = refl;
                entry_idx = refl;
                task = refl;
                run = refl;
                turn = refl;
                tokens = refl;
                logprobs = measured;
              });
        next = omega (arith, i.next, length-append b.rollouts (_ ∷ []));
        rolled = rw more (
            Each-snoc IsRolloutOf 0 b.next_prompt_idx (captured done) b.rollouts this _ i.rolled
              (omega (arith, i.next, rolled))
              (record {
                number = refl;
                task = refl;
                run = refl;
                turn = refl;
                prompt = e;
                response = f;
              }));
        indexed = rw more (
            Each-snoc IsEntryOf 0 b.next_prompt_idx (captured done) b.entries this _ i.indexed
              (omega (arith, i.next, rolled))
              (record { number = refl; task = refl; run = refl; turn = refl; logprobs = g }));
        left = rw kept i.left;
      }

  build_turn-IsBuilt :
      (model : String)
      → new_agent_step s ≡ ok s
      → IsBuilt done b
      → IsBuilt (done ++ this ∷ []) (build_turn model t turn_idx s b)
  unfolding build_turn
  build_turn-IsBuilt model measured i = elim (Option-cases s.prompt_token_ids) [
    | inl e ↦
        let same : build_turn model t turn_idx s b ≡ skip_turn t turn_idx no_tokens b =
          ground (arith, e) in
        rw same (skip_turn-IsBuilt no_tokens (rw e refl) (rw e refl) i)
    | inr (prompt, e) ↦ elim (Option-cases s.response_token_ids) [
      | inl f ↦
          let same : build_turn model t turn_idx s b ≡ skip_turn t turn_idx no_tokens b =
            ground (arith, e, f) in
          rw same (skip_turn-IsBuilt no_tokens (rw (e, f) refl) (rw (e, f) refl) i)
      | inr (response, f) ↦ elim (Option-cases s.response_logprobs) [
        | inl g ↦
            let same : build_turn model t turn_idx s b ≡ skip_turn t turn_idx no_logprobs b =
              ground (arith, e, f, g) in
            rw same (skip_turn-IsBuilt no_logprobs (rw (e, f, g) refl) (rw (e, f) refl) i)
        | inr (logprobs, g) ↦
            let same : build_turn model t turn_idx s b
                ≡ add_turn model t turn_idx prompt response logprobs b =
              ground (arith, e, f, g) in
            rw same (
              add_turn-IsBuilt model prompt response logprobs e f g
                (new_agent_step-length s response logprobs measured f g) i)
      ]
    ]
  ]

build_turns-IsBuilt :
    (model : String) (t : AgentTrajectory) (turn_idx : ℕ) (done : List Turn) (ss : List AgentStep)
    (b : Build)
    → All (λ s. new_agent_step s ≡ ok s) ss
    → IsBuilt done b
    → IsBuilt (done ++ turns_from t turn_idx ss) (build_turns model t turn_idx ss b)
unfolding build_turns
build_turns-IsBuilt model t turn_idx done [] b a i = rw append-nil i
build_turns-IsBuilt model t turn_idx done (s ∷ ss) b a i =
    let turn = this t turn_idx s done b in
    subst (λ l. IsBuilt l (build_turns model t (turn_idx + 1) ss (build_turn model t turn_idx s b)))
      (append_assoc done (turn ∷ []) (turns_from t (turn_idx + 1) ss))
      (build_turns-IsBuilt model t (turn_idx + 1) (done ++ turn ∷ []) ss
        (build_turn model t turn_idx s b) a.1 (build_turn-IsBuilt t turn_idx s done b model a.0 i))

build_loop-IsBuilt :
    (override resolved : Option String) (done : List Turn) (ts : List AgentTrajectory) (b : Build)
    (answer : Option String × Build)
    → All HasAcceptedTurns ts
    → IsBuilt done b
    → build_loop override resolved ts b ≡ ok answer
    → IsBuilt (done ++ turns_of ts) answer.1
unfolding build_loop
build_loop-IsBuilt override resolved done [] b answer a i h =
    let same : b ≡ answer.1 = ground arith in
    subst (λ x. IsBuilt (done ++ []) x) same (rw append-nil i)
build_loop-IsBuilt override resolved done (t ∷ ts) b answer a i h =
    let model = get_or resolved t.model_id in
    let turns = turns_from t 0 (assistant_steps t) in
    subst (λ l. IsBuilt l answer.1) (append_assoc done turns (turns_of ts))
      (build_loop-IsBuilt override (some model) (done ++ turns) ts
        (build_turns model t 0 (assistant_steps t) b) answer a.1
        (build_turns-IsBuilt model t 0 done (assistant_steps t) b a.0 i) (ground arith))

-- Of all assistant turns of the runs, numbered from 0 in each run: those with both token lists and
-- log-probabilities are the rollouts and the index entries, in order and numbered from 0, each with
-- its run, its number in the run and its captured lists; the others are the skipped turns, in order,
-- each with the reason. Rollout and entry of one number name one turn, and the entry counts the
-- rollout's response tokens and holds as many log-probabilities. The turns are ones that pydantic
-- accepted, whose captured lists have one length.
pub build_rollouts_and_index-IsSameTurn :
    (ts : List AgentTrajectory) (precision_class : String) (override : Option String)
    (rollouts : List Rollout) (index : Index)
    → All HasAcceptedTurns ts
    → build_rollouts_and_index ts precision_class override ≡ ok (rollouts, index)
    → Each IsSameTurn 0 rollouts index.entries
      × Each IsRolloutOf 0 (captured (turns_of ts)) rollouts
      × Each IsEntryOf 0 (captured (turns_of ts)) index.entries
      × Each IsSkipOf 0 (missing (turns_of ts)) index.skipped
unfolding build_rollouts_and_index
build_rollouts_and_index-IsSameTurn ts precision_class override rollouts index a h =
    elim (Result-cases (build_loop override override ts empty_build)) [
      | inr (x, n) ↦ absurd (ground arith)
      | inl (answer, n) ↦
          let built =
            build_loop-IsBuilt override override [] ts empty_build answer a
              (record { paired = tt; next = refl; rolled = tt; indexed = tt; left = tt }) n in
          let rolled : answer.1.rollouts ≡ rollouts = ground arith in
          let indexed : answer.1.entries ≡ index.entries = ground arith in
          let skipped : answer.1.skipped ≡ index.skipped = ground arith in
          (
            rw (sym rolled, sym indexed) built.paired,
            rw (sym rolled) built.rolled,
            rw (sym indexed) built.indexed,
            rw (sym skipped) built.left,
          )
    ]
