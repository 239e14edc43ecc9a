-- ===== src/RouterLab/Bounds.antt =====
-- A comparison in router_mismatch_lab.py of two traces that pydantic accepted.
use streams_rollout_market.Prelude.{
  subst, ℕ, zero, suc, ◌*◌, ◌≤◌, ◌≡◌, refl, ◌∙◌, ℤ, pos, pos_part, eq_ℤ, ltb_ℤ, true, false, List,
  [], ◌∷◌, All, ok, arith, Floats, Time,
}
use streams_rollout_market.RouterLab.{
  report_with, RouterTrace, RouterInput, RouterMismatchReport, new_router_trace, layers_valid,
  tokens_valid, num_tokens, sum_of, zeros, tokens_loop, report_of, compute_router_mismatch,
}
use streams_rollout_market.RouterLab.Counts.{IsRouted, IsToken, tokens_loop_lem}

layers_valid-IsRouted :
    (t : RouterTrace) (ls : List (List ℤ))
    → ltb_ℤ t.top_k (pos 1) ≡ false
    → layers_valid t ls ≡ true
    → All IsRouted ls
unfolding layers_valid
layers_valid-IsRouted t [] h v = tt
layers_valid-IsRouted t ([] ∷ ls) h v = absurd (ground arith)
layers_valid-IsRouted t ((e ∷ es) ∷ ls) h v =
    ((e, refl), layers_valid-IsRouted t ls h (ground arith))

tokens_valid-IsToken :
    (t : RouterTrace) (xs : List (List (List ℤ)))
    → ltb_ℤ t.top_k (pos 1) ≡ false
    → ltb_ℤ t.num_layers (pos 1) ≡ false
    → tokens_valid t xs ≡ true
    → All (IsToken (pos_part t.num_layers)) xs
unfolding tokens_valid
tokens_valid-IsToken t [] h g v = tt
tokens_valid-IsToken t (x ∷ xs) h g v = (
  (ground arith, layers_valid-IsRouted t x h (ground arith)),
  tokens_valid-IsToken t xs h g (ground arith),
)

pub record IsShaped (t : RouterTrace) : Type 0 where
  pub layered : 1 ≤ pos_part t.num_layers
  pub tokens : All (IsToken (pos_part t.num_layers)) t.expert_ids

new_router_trace-IsShaped : (t : RouterTrace) → new_router_trace t ≡ ok t → IsShaped t
unfolding new_router_trace
new_router_trace-IsShaped t e = record {
  layered = ground arith;
  tokens = tokens_valid-IsToken t t.expert_ids (ground arith) (ground arith) (ground arith);
}

-- The shapes that `compute_router_mismatch` asks for.
pub record IsAligned (r t : RouterTrace) : Type 0 where
  pub layers : eq_ℤ r.num_layers t.num_layers ≡ true
  pub experts : eq_ℤ r.num_experts t.num_experts ≡ true
  pub top : eq_ℤ r.top_k t.top_k ≡ true
  pub length_eq : num_tokens r ≡ num_tokens t
  pub some_token : 1 ≤ num_tokens r

sum_of-zeros : (n : ℕ) → sum_of (zeros n) ≡ 0
unfolding sum_of zeros
sum_of-zeros zero = refl
sum_of-zeros (suc n) = omega (arith, sum_of-zeros n)

positive_product : (a b : ℕ) → 1 ≤ a → 1 ≤ b → 1 ≤ a * b
positive_product a b h g = grind arith

module _ (fl : Floats) (clock : Time) (i : RouterInput) where
  abbrev tokens : ℕ
  tokens = num_tokens i.rollout_trace

  abbrev layers : ℕ
  layers = pos_part i.rollout_trace.num_layers

  report_of-ok :
      (flips : List ℕ) (count : ℕ)
      → 1 ≤ tokens
      → 1 ≤ layers
      → report_of fl clock i flips count
        ≡ ok (
            report_with fl clock i flips
              (fl.divide (fl.of_nat (sum_of flips)) (fl.of_nat (tokens * layers)))
              (fl.divide (fl.of_nat count) (fl.of_nat tokens)))
  unfolding report_of
  report_of-ok flips count h g = ground (arith, positive_product tokens layers h g)

  compute-counts :
      (a : List ℕ × ℕ)
      → IsAligned i.rollout_trace i.trainer_trace
      → tokens_loop tokens 0 layers i.rollout_trace.expert_ids i.trainer_trace.expert_ids
          (zeros layers)
          0
        ≡ ok a
      → compute_router_mismatch fl clock i ≡ report_of fl clock i a.0 a.1
  unfolding compute_router_mismatch
  compute-counts a aligned e = ground (
    arith, e, aligned.layers, aligned.experts, aligned.top, aligned.length_eq, aligned.some_token,
  )

-- Two traces that pydantic accepted, of one shape and with at least one token, are always compared: no
-- index is out of range and nothing is divided by zero. The two rates of the report are quotients
-- of counts that do not exceed what they are divided by: the number of pairs of a token and a layer,
-- and the number of tokens.
pub compute_router_mismatch_bounds :
    (fl : Floats) (clock : Time) (i : RouterInput)
    → new_router_trace i.rollout_trace ≡ ok i.rollout_trace
    → new_router_trace i.trainer_trace ≡ ok i.trainer_trace
    → IsAligned i.rollout_trace i.trainer_trace
    → (report : RouterMismatchReport) × (flips : ℕ) × (count : ℕ) × (compute_router_mismatch fl
          clock i
        ≡ ok report)
      × (let tokens = num_tokens i.rollout_trace in
          let pairs = tokens * pos_part i.rollout_trace.num_layers in
          (report.router_flip_rate ≡ fl.divide (fl.of_nat flips) (fl.of_nat pairs))
          × (flips ≤ pairs)
          × (report.token_expert_disagreement_rate ≡ fl.divide (fl.of_nat count) (fl.of_nat tokens))
          × (count ≤ tokens))
unfolding num_tokens
compute_router_mismatch_bounds fl clock i er et aligned =
    let r = i.rollout_trace in
    let t = i.trainer_trace in
    let sr = new_router_trace-IsShaped r er in
    let st = new_router_trace-IsShaped t et in
    let same : pos_part t.num_layers ≡ layers fl clock i = ground (arith, aligned.layers) in
    let (a, ea, le, lc) =
      tokens_loop_lem (num_tokens r) 0 (pos_part r.num_layers) r.expert_ids t.expert_ids
        (zeros (pos_part r.num_layers)) 0 (omega arith) (omega (arith, aligned.length_eq)) sr.tokens
        (subst (λ n. All (IsToken n) t.expert_ids) same st.tokens) in
    (
      _,
      sum_of a.0,
      a.1,
      compute-counts fl clock i a aligned ea
          ∙ report_of-ok fl clock i a.0 a.1 aligned.some_token sr.layered,
      (refl, omega (arith, sum_of-zeros (pos_part r.num_layers), le), refl, omega (arith, lc)),
    )
