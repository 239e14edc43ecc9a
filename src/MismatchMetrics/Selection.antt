-- ===== src/MismatchMetrics/Selection.antt =====
-- The mask of mismatch_metrics.py: a token that it leaves out does not matter.
use streams_rollout_market.Prelude.{
  ◌≤◌, ◌≡◌, ◌≢◌, ◌⊎◌, refl, sym, ℤ, pos, eq_ℤ, Option, none, some, List, [], ◌∷◌, length, Float,
  Floats, Sums, ok, raise, value_error, if◌then◌else◌, arith,
}
use streams_rollout_market.MismatchMetrics.{
  MismatchSummary, ones, mask_or, deltas, summary_of, summarize_deltas, summarize_logprob_mismatch,
}

-- The values that a mask selects.
abbrev pub select : List Float → List ℤ → List Float
select (x ∷ xs) (m ∷ ms) = let rest = select xs ms in if eq_ℤ m (pos 0) then rest else x ∷ rest
select _ _ = []

length-ones : {A : Type 0} (xs : List A) → length (ones xs) ≡ length xs
length-ones [] = refl
length-ones (x ∷ xs) = omega (arith, length-ones xs)

length-select :
    (xs ys : List Float) (ms : List ℤ)
    → length xs ≡ length ys
    → length (select xs ms) ≡ length (select ys ms)
length-select [] [] ms h = refl
length-select [] (y ∷ ys) ms h = absurd (omega arith)
length-select (x ∷ xs) [] ms h = absurd (omega arith)
length-select (x ∷ xs) (y ∷ ys) [] h = refl
length-select (x ∷ xs) (y ∷ ys) (m ∷ ms) h = ground (arith, length-select xs ys ms)

module _ (fl : Floats) where
  deltas-nil : (rs : List Float) (ms : List ℤ) → deltas fl rs [] ms ≡ []
  unfolding deltas
  deltas-nil [] ms = refl
  deltas-nil (r ∷ rs) ms = refl

  deltas-select :
      (rs ts : List Float) (ms : List ℤ)
      → deltas fl rs ts ms ≡ deltas fl (select rs ms) (select ts ms) (ones (select rs ms))
  unfolding deltas
  deltas-select [] ts ms = refl
  deltas-select (r ∷ rs) [] [] = refl
  deltas-select (r ∷ rs) [] (m ∷ ms) = sym (deltas-nil _ _)
  deltas-select (r ∷ rs) (t ∷ ts) [] = refl
  deltas-select (r ∷ rs) (t ∷ ts) (m ∷ ms) = ground (arith, deltas-select rs ts ms)

  length-deltas :
      (rs ts : List Float) (ms : List ℤ)
      → length rs ≡ length ts
      → length (deltas fl rs ts ms) ≡ length (select rs ms)
  unfolding deltas
  length-deltas [] ts ms h = refl
  length-deltas (r ∷ rs) [] ms h = absurd (omega arith)
  length-deltas (r ∷ rs) (t ∷ ts) [] h = refl
  length-deltas (r ∷ rs) (t ∷ ts) (m ∷ ms) h = ground (arith, length-deltas rs ts ms)

-- A mask of the right length only selects: the summary, or the exception, is that of the selected
-- tokens alone without a mask.
pub summarize-select :
    (fl : Floats) (su : Sums) (rollout trainer : List Float) (mask : List ℤ) (clamp veto : Float)
    → length rollout ≡ length trainer
    → length mask ≡ length rollout
    → summarize_logprob_mismatch fl su rollout trainer (some mask) clamp veto
      ≡ summarize_logprob_mismatch fl su (select rollout mask) (select trainer mask) none clamp veto
unfolding summarize_logprob_mismatch
summarize-select fl su rollout trainer mask clamp veto e h = ground (
  arith,
  length-select rollout trainer mask e,
  length-ones (select rollout mask),
  deltas-select fl rollout trainer mask,
)

summary_of-num_tokens :
    (fl : Floats) (su : Sums) (clamp veto d : Float) (ds : List Float) (s : MismatchSummary)
    → summary_of fl su clamp veto d ds ≡ ok s
    → s.num_tokens ≡ length (d ∷ ds)
unfolding summary_of
summary_of-num_tokens fl su clamp veto d ds s h = ground arith

summarize_deltas-num_tokens :
    (fl : Floats) (su : Sums) (clamp veto : Float) (ds : List Float) (s : MismatchSummary)
    → summarize_deltas fl su clamp veto ds ≡ ok s
    → (s.num_tokens ≡ length ds) × (1 ≤ s.num_tokens)
unfolding summarize_deltas
summarize_deltas-num_tokens fl su clamp veto [] s h = absurd (cc)
summarize_deltas-num_tokens fl su clamp veto (d ∷ ds) s h =
    ground (arith, summary_of-num_tokens fl su clamp veto d ds s h)

summarize_deltas-nil :
    (fl : Floats) (su : Sums) (clamp veto : Float) (ds : List Float)
    → length ds ≡ 0
    → summarize_deltas fl su clamp veto ds ≡ raise value_error
unfolding summarize_deltas
summarize_deltas-nil fl su clamp veto [] h = refl
summarize_deltas-nil fl su clamp veto (d ∷ ds) h = absurd (omega arith)

-- A summary counts the selected tokens, of which there is at least one and of which there are no more
-- than tokens; where the lengths differ or nothing is selected, the call raises ValueError.
pub summarize_lem :
    (fl : Floats) (su : Sums) (rollout trainer : List Float) (mask : Option (List ℤ))
    (clamp veto : Float)
    → ((s : MismatchSummary)
        → summarize_logprob_mismatch fl su rollout trainer mask clamp veto ≡ ok s
        → (s.num_tokens ≡ length (select rollout (mask_or mask rollout))) × (1 ≤ s.num_tokens))
      × (((length rollout ≢ length trainer)
            ⊎ (length (mask_or mask rollout) ≢ length rollout)
            ⊎ (select rollout (mask_or mask rollout) ≡ []))
          → summarize_logprob_mismatch fl su rollout trainer mask clamp veto ≡ raise value_error)
unfolding summarize_logprob_mismatch
summarize_lem fl su rollout trainer mask clamp veto =
    let mask' = mask_or mask rollout in
    let ds = deltas fl rollout trainer mask' in
    (
      λ s h. ground (
        arith,
        length-deltas fl rollout trainer mask',
        summarize_deltas-num_tokens fl su clamp veto ds s,
      ),
      λ h.
          ground (
            arith,
            length-deltas fl rollout trainer mask',
            summarize_deltas-nil fl su clamp veto ds,
          ),
    )
