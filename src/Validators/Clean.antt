-- ===== src/Validators/Clean.antt =====
-- What the checks of validators.py decide.
use streams_rollout_market.Prelude.{
  All, ℕ, suc, ◌+◌, ◌≤◌, ◌<◌, ◌≡◌, ◌≢◌, refl, ◌↔◌, pos, pos_part, String, true, false, Option, none,
  some, List, [], ◌∷◌, length, Time, Texts, Floats, get_or, opt_eq, arith,
}
use streams_rollout_market.Contracts.{PolicyManifest, RolloutLease, SampleGroup, Trajectory}
use streams_rollout_market.Validators.{
  or_none, all_zero, check_trajectories, longest_sequence, check_context, check_payload,
  validate_group_against_lease,
}

module _ (fl : Floats) where
  -- A trajectory with tokens and with at least one log-probability that is not zero.
  pub record HasEvidence (t : Trajectory) : Type 0 where
    pub tokens : t.response_token_ids ≢ []
    pub logprobs : t.rollout_logprobs ≢ []
    pub nonzero : all_zero fl t.rollout_logprobs ≡ false

  -- A group that describes what its lease and the manifest ask for.
  pub record IsClean (g : SampleGroup) (l : RolloutLease) (m : PolicyManifest) (now : Time)
      : Type 0 where
    pub in_time : now < l.expires_at
    pub version_lease : g.policy_version ≡ l.policy_version
    pub version_manifest : g.policy_version ≡ m.policy_version
    pub checkpoint : g.checkpoint_digest ≡ m.checkpoint_digest
    pub tokenizer : g.tokenizer_hash ≡ m.tokenizer_hash
    pub precision : g.precision_class ≡ l.required_precision_class
    pub quantization : or_none l.required_quantization_class ≡ or_none g.quantization_class
    pub group_size : pos (length g.trajectories) ≡ l.group_size
    pub prompt : g.prompt_token_ids ≢ []
    pub evidence : All HasEvidence g.trajectories
    pub context :
        All
          (λ t.
            length g.prompt_token_ids + length t.response_token_ids ≤ pos_part l.max_context_tokens)
          g.trajectories

HasEvidence-of :
    (py : Texts) (fl : Floats) (id : String) (n : ℕ) (ts : List Trajectory)
    → check_trajectories py fl id n ts ≡ none
    → All (HasEvidence fl) ts
unfolding check_trajectories
HasEvidence-of py fl id n [] h = tt
HasEvidence-of py fl id n (t ∷ ts) h = (
  record { tokens = λ e. ground arith; logprobs = λ e. ground arith; nonzero = ground arith },
  HasEvidence-of py fl id (suc n) ts (ground arith),
)

check_trajectories-none :
    (py : Texts) (fl : Floats) (id : String) (n : ℕ) (ts : List Trajectory)
    → All (HasEvidence fl) ts
    → check_trajectories py fl id n ts ≡ none
unfolding check_trajectories
check_trajectories-none py fl id n [] a = refl
check_trajectories-none py fl id n (t ∷ ts) a =
    ground (
      arith,
      a.0.tokens,
      a.0.logprobs,
      a.0.nonzero,
      check_trajectories-none py fl id (suc n) ts a.1,
    )

abbrev Fits : ℕ → ℕ → List Trajectory → Type 0
Fits prompt bound = All (λ t. prompt + length t.response_token_ids ≤ bound)

longest_sequence-Fits :
    (prompt bound : ℕ) (ts : List Trajectory)
    → longest_sequence prompt ts ≤ bound
    → Fits prompt bound ts
unfolding longest_sequence
longest_sequence-Fits prompt bound [] h = tt
longest_sequence-Fits prompt bound (t ∷ ts) h =
    (ground arith, longest_sequence-Fits prompt bound ts (ground arith))

Fits-longest_sequence :
    (prompt bound : ℕ) (ts : List Trajectory)
    → Fits prompt bound ts
    → longest_sequence prompt ts ≤ bound
unfolding longest_sequence
Fits-longest_sequence prompt bound [] a = omega arith
Fits-longest_sequence prompt bound (t ∷ ts) a =
    ground (arith, a.0, Fits-longest_sequence prompt bound ts a.1)

pub opt_eq_iff : (o p : Option String) → (opt_eq o p ≡ true) ↔ (o ≡ p)
opt_eq_iff none none = (λ _. refl, λ _. refl)
opt_eq_iff none (some s) = (λ h. cc, λ h. cc)
opt_eq_iff (some s) none = (λ h. cc, λ h. cc)
opt_eq_iff (some s) (some t) = (λ h. ground arith, λ h. ground arith)

module _ (py : Texts) (fl : Floats) (g : SampleGroup) (l : RolloutLease) (m : PolicyManifest)
    (now : Option Time) (clock : Time) where
  validate-IsClean :
      (0 < pos_part l.max_context_tokens)
      → validate_group_against_lease py fl g l m now clock ≡ none
      → IsClean fl g l m (get_or now clock)
  unfolding validate_group_against_lease check_payload check_context
  validate-IsClean big h = record {
    in_time = ground arith;
    version_lease = ground arith;
    version_manifest = ground arith;
    checkpoint = ground arith;
    tokenizer = ground arith;
    precision = ground arith;
    quantization =
        (opt_eq_iff (or_none l.required_quantization_class) (or_none g.quantization_class)).0
          (ground arith);
    group_size = ground arith;
    prompt = λ e. ground arith;
    evidence = HasEvidence-of py fl g.group_id 0 g.trajectories (ground arith);
    context = longest_sequence-Fits _ _ g.trajectories (ground arith);
  }

  IsClean-validate :
      (0 < pos_part l.max_context_tokens)
      → IsClean fl g l m (get_or now clock)
      → validate_group_against_lease py fl g l m now clock ≡ none
  unfolding validate_group_against_lease check_payload check_context
  IsClean-validate big c = ground (
    arith,
    c.in_time,
    c.version_lease,
    c.prompt,
    (opt_eq_iff (or_none l.required_quantization_class) (or_none g.quantization_class)).1
        c.quantization,
    check_trajectories-none py fl g.group_id 0 g.trajectories c.evidence,
    Fits-longest_sequence (length g.prompt_token_ids) (pos_part l.max_context_tokens) g.trajectories
        c.context,
  )

  -- A group passes the checks exactly if it is clean: in time, with the lease's and the manifest's
  -- policy version, the manifest's checkpoint and tokenizer, the lease's precision, quantization and
  -- group size, tokens and log-probabilities in every trajectory, and no sequence too long; for a
  -- lease with a positive context length, as every lease that pydantic accepts has.
  pub validate_iff :
      (0 < pos_part l.max_context_tokens)
      → (validate_group_against_lease py fl g l m now clock ≡ none)
        ↔ IsClean fl g l m (get_or now clock)
  validate_iff big = (validate-IsClean big, IsClean-validate big)
