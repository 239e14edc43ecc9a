-- ===== src/Validators.antt =====
-- src/rollout_market/validators.py: the contract checks before a group is scored.
pub mod Clean
pub mod Reasons
use streams_rollout_market.Prelude.{
  ℕ, suc, ◌+◌, ℤ, pos, ltb_ℤ, eq_ℤ, String, Bool, true, false, not, ◌&&◌, ◌||◌, Option, none, some,
  List, [], ◌∷◌, length, Time, Texts, Float, Floats, get_or, ltb, ◌==◌, ◌!=◌, opt_eq, ◌<>◌,
  if◌then◌else◌,
}
use streams_rollout_market.Contracts.{
  PolicyManifest, RolloutLease, SampleGroup, Trajectory, GroupDecision, rejected, RejectionReason,
  mixed_policy_version, policy_version_mismatch, checkpoint_mismatch, tokenizer_mismatch,
  precision_mismatch, quantization_mismatch, missing_token_ids, missing_logprobs,
  group_size_mismatch, expired_lease, context_overflow, reject, is_expired,
}

-- `_reject`
unfoldable pub rejection : String → RejectionReason → String → GroupDecision
rejection group_id reason message = record {
  group_id = group_id;
  status = rejected;
  reason = message;
  rejection_reason = some reason;
  decision_reasons = [];
  budget_report = none;
  recommended_action = reject;
}

-- `value or None`
abbrev pub or_none : Option String → Option String
or_none none = none
or_none (some s) = if s == "" then none else some s

abbrev pub is_nil {ℓ} : {A : Type ℓ} → List A → Bool
is_nil [] = true
is_nil (x ∷ xs) = false

-- `all(lp == 0.0 for lp in logprobs)`
unfoldable pub all_zero : Floats → List Float → Bool
all_zero fl [] = true
all_zero fl (lp ∷ lps) = fl.eq lp (fl.literal 0 0) && all_zero fl lps

-- `max(len(prompt) + len(response) …, default=0)`
unfoldable pub longest_sequence : ℕ → List Trajectory → ℕ
longest_sequence prompt [] = 0
longest_sequence prompt (t ∷ ts) =
    let here = prompt + length t.response_token_ids in
    let rest = longest_sequence prompt ts in if ltb rest here then here else rest

-- `return` out of a loop, or go on after it
abbrev pub or_else {ℓ} : {A : Type ℓ} → Option A → Option A → Option A
or_else none rest = rest
or_else (some d) rest = some d

module _ (py : Texts) (fl : Floats) where
  -- The loop over the trajectories, from index `idx`.
  unfoldable pub check_trajectories : String → ℕ → List Trajectory → Option GroupDecision
  unfolding rejection
  check_trajectories group_id idx [] = none
  check_trajectories group_id idx (t ∷ ts) =
      let rest = check_trajectories group_id (suc idx) ts in
      if is_nil t.response_token_ids
      then some (
          rejection group_id missing_token_ids
            ("trajectory " <> py.str_int (pos idx) <> " has empty response_token_ids"))
      else if is_nil t.rollout_logprobs || all_zero fl t.rollout_logprobs
      then some (
          rejection group_id missing_logprobs
            ("trajectory " <> py.str_int (pos idx) <> " is missing rollout_logprobs"))
      else rest

  -- The checks after the loop.
  unfoldable pub check_context : SampleGroup → RolloutLease → Option GroupDecision
  unfolding rejection
  check_context g l =
      let longest = longest_sequence (length g.prompt_token_ids) g.trajectories in
      if ltb_ℤ l.max_context_tokens (pos longest)
      then some (
          rejection g.group_id context_overflow (
            "longest sequence "
            <> py.str_int (pos longest)
            <> " exceeds lease max_context_tokens "
            <> py.str_int l.max_context_tokens))
      else none

  -- The checks from the group size on.
  unfoldable pub check_payload : SampleGroup → RolloutLease → Option GroupDecision
  unfolding rejection
  check_payload g l =
      if not (eq_ℤ (pos (length g.trajectories)) l.group_size)
      then some (
          rejection g.group_id group_size_mismatch (
            "group has "
            <> py.str_int (pos (length g.trajectories))
            <> " trajectories, lease requires "
            <> py.str_int l.group_size))
      else if is_nil g.prompt_token_ids
      then some (rejection g.group_id missing_token_ids "prompt_token_ids is empty")
      else or_else (check_trajectories g.group_id 0 g.trajectories) (check_context g l)

  unfoldable pub validate_group_against_lease :
      SampleGroup → RolloutLease → PolicyManifest → Option Time → Time → Option GroupDecision
  unfolding rejection is_expired
  validate_group_against_lease g l m now clock =
      if is_expired l (get_or now clock)
      then some (
          rejection g.group_id expired_lease
            ("lease " <> l.lease_id <> " expired at " <> py.isoformat l.expires_at))
      else if g.policy_version != l.policy_version
      then some (
          rejection g.group_id policy_version_mismatch (
            "group policy_version="
            <> py.repr g.policy_version
            <> " != lease "
            <> py.repr l.policy_version))
      else if g.policy_version != m.policy_version
      then some (
          rejection g.group_id mixed_policy_version (
            "group policy_version="
            <> py.repr g.policy_version
            <> " != manifest "
            <> py.repr m.policy_version))
      else if g.checkpoint_digest != m.checkpoint_digest
      then some (
          rejection g.group_id checkpoint_mismatch (
            "checkpoint_digest "
            <> py.repr g.checkpoint_digest
            <> " != manifest "
            <> py.repr m.checkpoint_digest))
      else if g.tokenizer_hash != m.tokenizer_hash
      then some (
          rejection g.group_id tokenizer_mismatch (
            "tokenizer_hash "
            <> py.repr g.tokenizer_hash
            <> " != manifest "
            <> py.repr m.tokenizer_hash))
      else if g.precision_class != l.required_precision_class
      then some (
          rejection g.group_id precision_mismatch (
            "precision_class "
            <> py.repr g.precision_class
            <> " != required "
            <> py.repr l.required_precision_class))
      else if not (opt_eq (or_none l.required_quantization_class) (or_none g.quantization_class))
      then some (
          rejection g.group_id quantization_mismatch (
            "quantization_class "
            <> py.repr_opt g.quantization_class
            <> " != required "
            <> py.repr_opt l.required_quantization_class))
      else check_payload g l
