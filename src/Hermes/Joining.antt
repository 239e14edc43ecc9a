-- ===== src/Hermes/Joining.antt =====
-- The index of build_hermes_dense_input.py paired with the trainer's answers by
-- pair_hermes_dense_reports.py.
use streams_rollout_market.Prelude.{
  negsuc, true, inr, eq_ℤ, inl, Option-cases, ℤ, none, ◌+◌, ◌>>=◌, arith, All, ok, lookup, Option,
  length, String, Result, ◌≡◌, Time, pos, Sums, Floats, Dict, Texts, List, [], ◌∷◌, ℕ, some, Each,
  refl,
}
use streams_rollout_market.AgentLab.{AgentTrajectory}
use streams_rollout_market.DenseLab.{DenseInput, DenseMismatchReport, compute_dense_mismatch}
use streams_rollout_market.Hermes.Inputs.{Rollout, IndexEntry, Index, build_rollouts_and_index}
use streams_rollout_market.Hermes.Indexing.{
  HasAcceptedTurns, IsSameTurn, build_rollouts_and_index-IsSameTurn,
}
use streams_rollout_market.Hermes.Pairing.{
  TrainerEntry, Labels, trainer_at, dense_input, pair_entry, pair_loop, pair_reports,
}

-- The trainer has an answer for the rollout, with a log-probability for each response token, and the
-- run of the rollout is there.
abbrev pub IsAnswered : List TrainerEntry → Dict AgentTrajectory → Rollout → Type 0
IsAnswered trainers trajectories r =
    (t : TrainerEntry) × (trajectory : AgentTrajectory) × (trainer_at (pos r.prompt_idx) trainers
      ≡ some t)
    × (length t.trainer_logprobs ≡ length r.response_token_ids)
    × (lookup r.trajectory_run_id trajectories ≡ some trajectory)

eq_ℤ-≡ : (a b : ℤ) → eq_ℤ a b ≡ true → a ≡ b
eq_ℤ-≡ (pos m) (pos n) h = ground arith
eq_ℤ-≡ (pos m) (negsuc n) h = absurd (ground arith)
eq_ℤ-≡ (negsuc m) (pos n) h = absurd (ground arith)
eq_ℤ-≡ (negsuc m) (negsuc n) h = ground arith

-- The answer that is found is one for that number.
trainer_at-prompt_idx :
    (idx : ℤ) (t : TrainerEntry) (ts : List TrainerEntry)
    → trainer_at idx ts ≡ some t
    → t.prompt_idx ≡ idx
unfolding trainer_at
trainer_at-prompt_idx idx t [] h = absurd (cc)
trainer_at-prompt_idx idx t (u ∷ ts) h = elim (Option-cases (trainer_at idx ts)) [
  | inl n ↦ ground (arith, eq_ℤ-≡ t.prompt_idx idx)
  | inr (v, n) ↦ trainer_at-prompt_idx idx t ts (ground arith)
]

module _ (fl : Floats) (su : Sums) (clocks : ℕ → Time) where
  -- The comparisons alone, one after the other.
  abbrev pub compare_all : ℕ → List DenseInput → Result (List DenseMismatchReport)
  compare_all n [] = ok []
  compare_all n (i ∷ is) = do
    report ← compute_dense_mismatch fl su (clocks n) i
    rest ← compare_all (n + 1) is
    ok (report ∷ rest)

module _ (py : Texts) (lb : Labels) (fl : Floats) (su : Sums) (clocks : ℕ → Time)
    (trainers : List TrainerEntry) (trajectories : Dict AgentTrajectory) (precision : String)
    (label : Option String) where
  -- Input `i` compares the captured log-probabilities of entry `e`, number `n`, with those of the
  -- trainer's answer to that number, position by position and unmasked, for the run of the entry.
  abbrev pub IsComparison : ℕ → IndexEntry → DenseInput → Type 0
  IsComparison n e i =
      (t : TrainerEntry) × (trajectory : AgentTrajectory) × (trainer_at (pos n) trainers ≡ some t)
      × (t.prompt_idx ≡ pos n)
      × (lookup e.trajectory_run_id trajectories ≡ some trajectory)
      × (i.rollout_logprobs ≡ e.response_logprobs)
      × (i.trainer_logprobs ≡ t.trainer_logprobs)
      × (length i.trainer_logprobs ≡ length i.rollout_logprobs)
      × (i.mask ≡ none)
      × (i.model_id ≡ trajectory.model_id)
      × (i.rollout_engine ≡ trajectory.rollout_engine)
      × (i.precision_class ≡ precision)

  pair_entry-compute :
      (n : ℕ) (r : Rollout) (e : IndexEntry)
      → IsSameTurn n r e
      → IsAnswered trainers trajectories r
      → (i : DenseInput) × IsComparison n e i
        × (pair_entry py lb fl su clocks trainers trajectories precision label n e
            ≡ compute_dense_mismatch fl su (clocks n) i)
  unfolding pair_entry dense_input
  pair_entry-compute n r e same (t, trajectory, found, long, known) =
      let there : trainer_at (pos n) trainers ≡ some t = ground (arith, found, same.rollout_idx) in
      let run : lookup e.trajectory_run_id trajectories ≡ some trajectory =
        ground (arith, known, same.run) in
      (
        dense_input py lb fl e t trajectory precision label,
        (
          t,
          trajectory,
          there,
          trainer_at-prompt_idx (pos n) t trainers there,
          run,
          refl,
          refl,
          omega (arith, long, same.logprobs),
          refl,
          refl,
          refl,
          refl,
        ),
        ground (arith, there, long, run, same.logprobs, same.entry_idx),
      )

  pair_loop-compare_all :
      (n : ℕ) (rs : List Rollout) (es : List IndexEntry)
      → Each IsSameTurn n rs es
      → All (IsAnswered trainers trajectories) rs
      → (is : List DenseInput) × Each IsComparison n es is
        × (pair_loop py lb fl su clocks trainers trajectories precision label n es
            ≡ compare_all fl su clocks n is)
  unfolding pair_loop
  pair_loop-compare_all n [] [] p a = ([], tt, refl)
  pair_loop-compare_all n [] (e ∷ es) p a = absurd p
  pair_loop-compare_all n (r ∷ rs) [] p a = absurd p
  pair_loop-compare_all n (r ∷ rs) (e ∷ es) p a =
      let (i, comparison, here) = pair_entry-compute n r e p.0 a.0 in
      let (is, each, later) = pair_loop-compare_all (n + 1) rs es p.1 a.1 in
      (i ∷ is, (comparison, each), ground (arith, here, later))

-- Build, run the trainer, pair: when the trainer answers every rollout with one log-probability per
-- response token and the runs are there, pairing the index raises nothing of its own. It is the
-- comparison, for each index entry in order, of its captured log-probabilities with those that the
-- trainer answered for its number, as many, unmasked, under the model and the rollout engine of its
-- run. The turns are ones that pydantic accepted.
pub build-pair_reports :
    (py : Texts) (lb : Labels) (fl : Floats) (su : Sums) (clocks : ℕ → Time)
    (ts : List AgentTrajectory) (precision : String) (override label : Option String)
    (trainers : List TrainerEntry) (trajectories : Dict AgentTrajectory) (rollouts : List Rollout)
    (index : Index)
    → All HasAcceptedTurns ts
    → build_rollouts_and_index ts precision override ≡ ok (rollouts, index)
    → All (IsAnswered trainers trajectories) rollouts
    → (is : List DenseInput) × Each
        (IsComparison py lb fl su clocks trainers trajectories precision label)
        0
        index.entries
        is
      × (pair_reports py lb fl su clocks index trainers trajectories precision label
          ≡ compare_all fl su clocks 0 is)
unfolding pair_reports
build-pair_reports py lb fl su clocks ts precision override label trainers trajectories rollouts
      index measured h answered =
    pair_loop-compare_all py lb fl su clocks trainers trajectories precision label 0 rollouts
      index.entries
      (build_rollouts_and_index-IsSameTurn ts precision override rollouts index measured h).0
      answered
