-- ===== src/MismatchMetrics.antt =====
-- src/rollout_market/mismatch_metrics.py: how far two sets of log-probabilities are apart.
pub mod Selection
use streams_rollout_market.Prelude.{
  ℕ, suc, ◌+◌, ℤ, pos, pos_part, ltb_ℤ, eq_ℤ, nat_eq, ltb, Bool, true, false, not, Option, none,
  some, List, [], ◌∷◌, map, length, take, Float, Floats, Sums, sort_by, Result, ok, raise, raise_if,
  ◌>>=◌, ◌>>◌, value_error, zero_division, map_results, bit, if◌then◌else◌,
}

pub record MismatchSummary : Type 0 where
  pub num_tokens : ℕ
  pub delta_logprob_mean : Float
  pub delta_logprob_abs_mean : Float
  pub sequence_log_ratio : Float
  pub ess : Float
  pub second_moment : Float
  pub clipped_fraction : Float
  pub veto_fraction : Float
  pub max_abs_log_ratio : Float
  pub top_1pct_gradient_mass : Float

-- `[1] * n`
abbrev pub ones : {A : Type 0} → List A → List ℤ
ones [] = []
ones (x ∷ xs) = pos 1 ∷ ones xs

abbrev pub mask_or : Option (List ℤ) → List Float → List ℤ
mask_or none logprobs = ones logprobs
mask_or (some mask) logprobs = mask

-- `1` for True, summed over a list
unfoldable pub count_true : (Float → Bool) → List Float → ℕ
count_true p [] = 0
count_true p (x ∷ xs) = bit (p x) + count_true p xs

module _ (fl : Floats) where
  -- `[t - r for r, t, m in zip(rollout, trainer, mask) if m]`
  unfoldable pub deltas : List Float → List Float → List ℤ → List Float
  deltas (r ∷ rs) (t ∷ ts) (m ∷ ms) =
      let rest = deltas rs ts ms in if eq_ℤ m (pos 0) then rest else fl.minus t r ∷ rest
  deltas _ _ _ = []

  -- `max(-clamp, min(clamp, d))`: the first argument, unless the second is strictly beyond it.
  abbrev pub clamp_to : Float → Float → Float
  clamp_to clamp d =
      let upper = if fl.lt d clamp then d else clamp in
      if fl.lt (fl.negate clamp) upper then upper else fl.negate clamp

  -- `x / y`
  abbrev pub quotient : Float → Float → Result Float
  quotient x y = if fl.eq y (fl.of_nat 0) then raise zero_division else ok (fl.divide x y)

  -- `max(xs)` of `a` and the rest
  unfoldable pub maximum : Float → List Float → Float
  maximum a [] = a
  maximum a (x ∷ xs) = maximum (if fl.lt a x then x else a) xs

module _ (fl : Floats) (su : Sums) where
  -- `max(1, int(len(xs) * 0.01))`
  abbrev pub top_count : List Float → ℕ
  top_count xs =
      let k = su.truncate (fl.times (fl.of_nat (length xs)) (fl.literal 1 2)) in
      if ltb_ℤ (pos 1) k then pos_part k else 1

  -- The summary of at least one selected token.
  unfoldable pub summary_of : Float → Float → Float → List Float → Result MismatchSummary
  unfolding count_true maximum
  summary_of clamp veto d ds = do
    let all = d ∷ ds
    weights ← map_results su.exp (map (clamp_to fl clamp) all)
    let total = su.sum weights
    let second_raw = su.sum (map (λ w. fl.times w w) weights)
    let n = fl.of_nat (length weights)
    ess ← quotient fl (fl.times total total) (fl.times n second_raw)
    let sorted = sort_by (λ v w. fl.lt w v) weights
    mean ← su.fmean all
    abs_mean ← su.fmean (map fl.absolute all)
    second_moment ← quotient fl second_raw n
    mass ← quotient fl (su.sum (take (top_count sorted) sorted)) total
    ok (record {
      num_tokens = length all;
      delta_logprob_mean = mean;
      delta_logprob_abs_mean = abs_mean;
      sequence_log_ratio = su.sum all;
      ess = ess;
      second_moment = second_moment;
      clipped_fraction =
          fl.divide (fl.of_nat (count_true (λ x. fl.lt clamp (fl.absolute x)) all))
            (fl.of_nat (length all));
      veto_fraction =
          fl.divide (fl.of_nat (count_true (λ x. fl.lt veto (fl.absolute x)) all))
            (fl.of_nat (length all));
      max_abs_log_ratio = maximum fl (fl.absolute d) (map fl.absolute ds);
      top_1pct_gradient_mass = mass;
    })

  -- `if not deltas: raise`
  unfoldable pub summarize_deltas : Float → Float → List Float → Result MismatchSummary
  unfolding summary_of
  summarize_deltas clamp veto [] = raise value_error
  summarize_deltas clamp veto (d ∷ ds) = summary_of clamp veto d ds

  unfoldable pub summarize_logprob_mismatch :
      List Float → List Float → Option (List ℤ) → Float → Float → Result MismatchSummary
  unfolding deltas
  summarize_logprob_mismatch rollout trainer mask clamp veto = do
    raise_if (not (nat_eq (length rollout) (length trainer))) value_error
    raise_if (not (nat_eq (length (mask_or mask rollout)) (length rollout))) value_error
    summarize_deltas clamp veto (deltas fl rollout trainer (mask_or mask rollout))
