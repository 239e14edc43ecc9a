-- ===== src/Validators/Reasons.antt =====
-- Every rejection of validators.py is well formed, and its reason names a violation of the group.
use streams_rollout_market.Prelude.{
  ℕ, suc, ◌+◌, ◌≤◌, ◌<◌, ◌≡◌, ◌≢◌, ◌⊎◌, inl, inr, pos, pos_part, String, true, Option, some, List,
  [], ◌∷◌, length, Time, Texts, Floats, get_or, Option-cases, ok, arith,
}
use streams_rollout_market.Contracts.{
  PolicyManifest, RolloutLease, SampleGroup, Trajectory, GroupDecision, rejected, RejectionReason,
  mixed_policy_version, policy_version_mismatch, checkpoint_mismatch, tokenizer_mismatch,
  precision_mismatch, quantization_mismatch, missing_token_ids, missing_logprobs,
  group_size_mismatch, idempotency_key_mismatch, expired_lease, context_overflow, reject,
  new_group_decision,
}
use streams_rollout_market.Validators.Clean.{opt_eq_iff}
use streams_rollout_market.Validators.{
  or_none, all_zero, check_trajectories, longest_sequence, check_context, check_payload,
  validate_group_against_lease,
}

-- A rejection with a reason, for the group, in the form that pydantic accepts.
pub record IsRejection (g : SampleGroup) (d : GroupDecision) : Type 0 where
  pub built : new_group_decision d ≡ ok d
  pub status : d.status ≡ rejected
  pub group_id : d.group_id ≡ g.group_id
  pub action : d.recommended_action ≡ reject

-- Some element satisfies `P`.
abbrev pub Any {ℓ} : {A : Type ℓ} → (A → Type 0) → List A → Type 0
Any P [] = ⊥
Any P (x ∷ xs) = P x ⊎ Any P xs

-- What each reason says of a group under its lease and manifest.
abbrev pub Violates :
    Floats → SampleGroup → RolloutLease → PolicyManifest → Time → RejectionReason → Type 0
Violates fl g l m now expired_lease = l.expires_at ≤ now
Violates fl g l m now policy_version_mismatch = g.policy_version ≢ l.policy_version
Violates fl g l m now mixed_policy_version =
    (g.policy_version ≡ l.policy_version) × (g.policy_version ≢ m.policy_version)
Violates fl g l m now checkpoint_mismatch = g.checkpoint_digest ≢ m.checkpoint_digest
Violates fl g l m now tokenizer_mismatch = g.tokenizer_hash ≢ m.tokenizer_hash
Violates fl g l m now precision_mismatch = g.precision_class ≢ l.required_precision_class
Violates fl g l m now quantization_mismatch =
    or_none l.required_quantization_class ≢ or_none g.quantization_class
Violates fl g l m now group_size_mismatch = pos (length g.trajectories) ≢ l.group_size
Violates fl g l m now missing_token_ids =
    (g.prompt_token_ids ≡ []) ⊎ Any (λ t. t.response_token_ids ≡ []) g.trajectories
Violates fl g l m now missing_logprobs =
    Any (λ t. (t.rollout_logprobs ≡ []) ⊎ (all_zero fl t.rollout_logprobs ≡ true)) g.trajectories
Violates fl g l m now context_overflow =
    Any
      (λ t. pos_part l.max_context_tokens < length g.prompt_token_ids + length t.response_token_ids)
      g.trajectories
Violates fl g l m now idempotency_key_mismatch = ⊥

abbrev NoTokens : Trajectory → Type 0
NoTokens t = t.response_token_ids ≡ []

abbrev NoLogprobs : Floats → Trajectory → Type 0
NoLogprobs fl t = (t.rollout_logprobs ≡ []) ⊎ (all_zero fl t.rollout_logprobs ≡ true)

-- What the loop over the trajectories finds.
trajectories_found :
    (py : Texts) (fl : Floats) (id : String) (n : ℕ) (ts : List Trajectory) (d : GroupDecision)
    → check_trajectories py fl id n ts ≡ some d
    → ((d.rejection_reason ≡ some missing_token_ids) × Any NoTokens ts)
      ⊎ ((d.rejection_reason ≡ some missing_logprobs) × Any (NoLogprobs fl) ts)
unfolding check_trajectories
trajectories_found py fl id n [] d h = cc
trajectories_found py fl id n (t ∷ ts) d h =
    ground (arith, trajectories_found py fl id (suc n) ts d)

longest_found :
    (prompt bound : ℕ) (ts : List Trajectory)
    → bound < longest_sequence prompt ts
    → Any (λ t. bound < prompt + length t.response_token_ids) ts
unfolding longest_sequence
longest_found prompt bound [] h = omega arith
longest_found prompt bound (t ∷ ts) h = ground (arith, longest_found prompt bound ts)

abbrev TooLong : SampleGroup → RolloutLease → Type 0
TooLong g l =
    Any
      (λ t. pos_part l.max_context_tokens < length g.prompt_token_ids + length t.response_token_ids)
      g.trajectories

context_found :
    (py : Texts) (fl : Floats) (g : SampleGroup) (l : RolloutLease) (d : GroupDecision)
    → 0 < pos_part l.max_context_tokens
    → check_context py fl g l ≡ some d
    → (d.rejection_reason ≡ some context_overflow) × TooLong g l
unfolding check_context
context_found py fl g l d big h = (
  ground arith,
  longest_found (length g.prompt_token_ids) (pos_part l.max_context_tokens) g.trajectories
      (ground arith),
)

-- What the checks from the group size on find.
payload_found :
    (py : Texts) (fl : Floats) (g : SampleGroup) (l : RolloutLease) (d : GroupDecision)
    → 0 < pos_part l.max_context_tokens
    → check_payload py fl g l ≡ some d
    → ((d.rejection_reason ≡ some group_size_mismatch)
        × (pos (length g.trajectories) ≢ l.group_size))
      ⊎ (((d.rejection_reason ≡ some missing_token_ids)
            × ((g.prompt_token_ids ≡ []) ⊎ Any NoTokens g.trajectories))
          ⊎ (((d.rejection_reason ≡ some missing_logprobs) × Any (NoLogprobs fl) g.trajectories)
              ⊎ ((d.rejection_reason ≡ some context_overflow) × TooLong g l)))
unfolding check_payload
payload_found py fl g l d big h =
    elim (Option-cases (check_trajectories py fl g.group_id 0 g.trajectories)) [
      | inl n ↦ ground (arith, n, context_found py fl g l d big)
      | inr (d', n) ↦ ground (arith, n, trajectories_found py fl g.group_id 0 g.trajectories d' n)
    ]

trajectories-IsRejection :
    (py : Texts) (fl : Floats) (g : SampleGroup) (n : ℕ) (ts : List Trajectory) (d : GroupDecision)
    → check_trajectories py fl g.group_id n ts ≡ some d
    → IsRejection g d
unfolding check_trajectories new_group_decision
trajectories-IsRejection py fl g n [] d h = cc
trajectories-IsRejection py fl g n (t ∷ ts) d h =
    ground (arith, trajectories-IsRejection py fl g (suc n) ts d)

payload-IsRejection :
    (py : Texts) (fl : Floats) (g : SampleGroup) (l : RolloutLease) (d : GroupDecision)
    → check_payload py fl g l ≡ some d
    → IsRejection g d
unfolding check_payload check_context new_group_decision
payload-IsRejection py fl g l d h =
    ground (arith, trajectories-IsRejection py fl g 0 g.trajectories d)

module _ (py : Texts) (fl : Floats) (g : SampleGroup) (l : RolloutLease) (m : PolicyManifest)
    (now : Option Time) (clock : Time) (d : GroupDecision) where
  -- The reason of a rejection names something that is wrong with the group: the lease is over, the
  -- versions, the checkpoint, the tokenizer, the precision, the quantization or the group size differ,
  -- tokens or log-probabilities are missing, or a sequence is too long; for a lease with a positive
  -- context length.
  pub validate-Violates :
      0 < pos_part l.max_context_tokens
      → validate_group_against_lease py fl g l m now clock ≡ some d
      → (r : RejectionReason) → d.rejection_reason ≡ some r
      → Violates fl g l m (get_or now clock) r
  unfolding validate_group_against_lease
  validate-Violates big h quantization_mismatch e = λ same. ground (
    arith,
    (opt_eq_iff (or_none l.required_quantization_class) (or_none g.quantization_class)).1 same,
    payload_found py fl g l d big,
  )
  validate-Violates big h _ e = ground (arith, payload_found py fl g l d big)

  -- Whatever `validate_group_against_lease` returns is a decision that pydantic accepts: rejected,
  -- for this group, with the action to reject it.
  pub validate-IsRejection :
      validate_group_against_lease py fl g l m now clock ≡ some d → IsRejection g d
  unfolding validate_group_against_lease new_group_decision
  validate-IsRejection h = record {
    built = ground (arith, payload-IsRejection py fl g l d);
    status = ground (arith, payload-IsRejection py fl g l d);
    group_id = ground (arith, payload-IsRejection py fl g l d);
    action = ground (arith, payload-IsRejection py fl g l d);
  }
