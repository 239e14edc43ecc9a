-- ===== src/RouterLab.antt =====
-- src/rollout_market/observatory/router_mismatch_lab.py: how two routings of the same tokens differ.
pub mod Counts
pub mod Bounds
use streams_rollout_market.Prelude.{
  ℕ, zero, suc, ◌+◌, ◌*◌, ℤ, pos, pos_part, ltb_ℤ, eq_ℤ, nat_eq, String, Bool, true, false, not,
  ◌&&◌, ◌||◌, Option, none, some, List, [], ◌∷◌, map, length, get_elem?, Time, Float, Floats,
  Result, ok, raise, raise_if, ◌>>=◌, ◌>>◌, get_or, validation_error, value_error, index_error,
  zero_division, if◌then◌else◌,
}
use streams_rollout_market.Device.{DeviceFingerprint}
use streams_rollout_market.DenseLab.{EngineFingerprint}

-- `expert_ids[token][layer]` is the routed experts, the first one on top.
pub record RouterTrace : Type 0 where
  pub num_layers : ℤ
  pub num_experts : ℤ
  pub top_k : ℤ
  pub expert_ids : List (List (List ℤ))

-- `0 <= expert < num_experts`
abbrev pub in_range : ℤ → ℤ → Bool
in_range num_experts expert = not (ltb_ℤ expert (pos 0)) && ltb_ℤ expert num_experts

unfoldable pub experts_valid : ℤ → List ℤ → Bool
experts_valid num_experts [] = true
experts_valid num_experts (e ∷ es) = in_range num_experts e && experts_valid num_experts es

unfoldable pub layers_valid : RouterTrace → List (List ℤ) → Bool
layers_valid t [] = true
layers_valid t (l ∷ ls) =
    eq_ℤ (pos (length l)) t.top_k && experts_valid t.num_experts l && layers_valid t ls

unfoldable pub tokens_valid : RouterTrace → List (List (List ℤ)) → Bool
tokens_valid t [] = true
tokens_valid t (x ∷ xs) =
    eq_ℤ (pos (length x)) t.num_layers && layers_valid t x && tokens_valid t xs

unfoldable pub new_router_trace : RouterTrace → Result RouterTrace
new_router_trace t = do
  raise_if (ltb_ℤ t.num_layers (pos 1)) validation_error
  raise_if (ltb_ℤ t.num_experts (pos 1)) validation_error
  raise_if (ltb_ℤ t.top_k (pos 1)) validation_error
  raise_if (ltb_ℤ t.num_experts t.top_k) validation_error
  raise_if (not (tokens_valid t t.expert_ids)) validation_error
  ok t

unfoldable pub num_tokens : RouterTrace → ℕ
num_tokens t = length t.expert_ids

pub record RouterMismatchReport : Type 0 where
  pub run_id : String
  pub created_at : Time
  pub model_id : String
  pub rollout_engine : EngineFingerprint
  pub trainer_engine : EngineFingerprint
  pub num_tokens : ℕ
  pub num_layers : ℤ
  pub top_k : ℤ
  pub num_experts : ℤ
  pub router_flip_rate : Float
  pub token_expert_disagreement_rate : Float
  pub layer_flip_rates : List Float
  pub device : Option DeviceFingerprint
  pub notes : List String

-- The keyword arguments of `compute_router_mismatch`.
pub record RouterInput : Type 0 where
  pub run_id : String
  pub model_id : String
  pub rollout_engine : EngineFingerprint
  pub trainer_engine : EngineFingerprint
  pub rollout_trace : RouterTrace
  pub trainer_trace : RouterTrace
  pub notes : Option (List String)
  pub device : Option DeviceFingerprint

-- `xs[n]`
abbrev pub at {ℓ} : {A : Type ℓ} → List A → ℕ → Result A
at xs n = elim (get_elem? xs n) [ none ↦ raise index_error | some x ↦ ok x ]

-- `set(xs) <= set(ys)`
unfoldable pub mem_ℤ : ℤ → List ℤ → Bool
mem_ℤ x [] = false
mem_ℤ x (y ∷ ys) = eq_ℤ x y || mem_ℤ x ys

unfoldable pub within : List ℤ → List ℤ → Bool
unfolding mem_ℤ
within [] ys = true
within (x ∷ xs) ys = mem_ℤ x ys && within xs ys

-- `set(xs) == set(ys)`
abbrev pub same_set : List ℤ → List ℤ → Bool
same_set xs ys = within xs ys && within ys xs

-- `counts[n] += 1`; the loops only ask for an index that is there.
unfoldable pub bump_at : ℕ → List ℕ → List ℕ
bump_at n [] = []
bump_at zero (c ∷ cs) = (c + 1) ∷ cs
bump_at (suc n) (c ∷ cs) = c ∷ bump_at n cs

-- `[0] * n`
unfoldable pub zeros : ℕ → List ℕ
zeros zero = []
zeros (suc n) = 0 ∷ zeros n

-- The inner loop, with `n` layers to go from layer `l` of one token.
unfoldable pub layers_loop :
    ℕ → ℕ → List (List ℤ) → List (List ℤ) → List ℕ → Bool → Result (List ℕ × Bool)
layers_loop zero l rollout trainer flips disagrees = ok (flips, disagrees)
layers_loop (suc n) l rollout trainer flips disagrees = do
  roll ← at rollout l
  train ← at trainer l
  top ← at roll 0
  top' ← at train 0
  layers_loop n (l + 1) rollout trainer (if eq_ℤ top top' then flips else bump_at l flips)
      (disagrees || not (same_set roll train))

-- The outer loop, with `n` tokens to go from token `t`.
unfoldable pub tokens_loop :
    ℕ → ℕ → ℕ → List (List (List ℤ)) → List (List (List ℤ)) → List ℕ → ℕ → Result (List ℕ × ℕ)
tokens_loop zero t layers rollout trainer flips count = ok (flips, count)
tokens_loop (suc n) t layers rollout trainer flips count = do
  roll ← at rollout t
  train ← at trainer t
  answer ← layers_loop layers 0 roll train flips false
  tokens_loop n (t + 1) layers rollout trainer answer.0 (if answer.1 then count + 1 else count)

unfoldable pub sum_of : List ℕ → ℕ
sum_of [] = 0
sum_of (n ∷ ns) = n + sum_of ns

module _ (fl : Floats) where
  -- `a / b` of two ints
  abbrev pub ratio : ℕ → ℕ → Result Float
  ratio a b = if nat_eq b 0 then raise zero_division else ok (fl.divide (fl.of_nat a) (fl.of_nat b))

  abbrev pub report_with : Time → RouterInput → List ℕ → Float → Float → RouterMismatchReport
  report_with clock i flips flip_rate disagreement =
      let tokens = num_tokens i.rollout_trace in
      record {
        run_id = i.run_id;
        created_at = clock;
        model_id = i.model_id;
        rollout_engine = i.rollout_engine;
        trainer_engine = i.trainer_engine;
        num_tokens = tokens;
        num_layers = i.rollout_trace.num_layers;
        top_k = i.rollout_trace.top_k;
        num_experts = i.rollout_trace.num_experts;
        router_flip_rate = flip_rate;
        token_expert_disagreement_rate = disagreement;
        layer_flip_rates = map (λ c. fl.divide (fl.of_nat c) (fl.of_nat tokens)) flips;
        device = i.device;
        notes = get_or i.notes [];
      }

  unfoldable pub report_of : Time → RouterInput → List ℕ → ℕ → Result RouterMismatchReport
  unfolding sum_of
  report_of clock i flips count = do
    let tokens = num_tokens i.rollout_trace
    flip_rate ← ratio (sum_of flips) (tokens * pos_part i.rollout_trace.num_layers)
    disagreement ← ratio count tokens
    ok (report_with clock i flips flip_rate disagreement)

  unfoldable pub compute_router_mismatch : Time → RouterInput → Result RouterMismatchReport
  unfolding zeros tokens_loop
  compute_router_mismatch clock i = do
    let r = i.rollout_trace
    let t = i.trainer_trace
    raise_if (not (eq_ℤ r.num_layers t.num_layers)) value_error
    raise_if (not (eq_ℤ r.num_experts t.num_experts)) value_error
    raise_if (not (eq_ℤ r.top_k t.top_k)) value_error
    raise_if (not (nat_eq (num_tokens r) (num_tokens t))) value_error
    raise_if (nat_eq (num_tokens r) 0) value_error
    let layers = pos_part r.num_layers
    counts ← tokens_loop (num_tokens r) 0 layers r.expert_ids t.expert_ids (zeros layers) 0
    report_of clock i counts.0 counts.1
