-- ===== src/Simulation/Samples.antt =====
-- The leases and the verdicts of marketplace_simulation.py, and the groups made for them.
use streams_rollout_market.Prelude.{
  refl, zero, ◌≤◌, ok, false, true, pos, arith, ◌≡◌, ◌<◌, suc, some, none, length, Time, Option,
  Floats, All, ℕ,
}
use streams_rollout_market.Contracts.{
  policy_version_mismatch, missing_logprobs, precision_mismatch, tokenizer_mismatch,
  new_sample_group, new_trajectory, RolloutLease, Trajectory, GroupDecision, RejectionReason,
}
use streams_rollout_market.Simulation.Profiles.{
  WorkerProfile, honest, noisy, stale, toxic_tokenizer, toxic_precision, toxic_no_logprobs,
  toxic_version_drift, Draws, make_group, rollout_logprobs, trajectory_with, group_of, repeat_times,
}

-- A lease for one of the simulation's jobs that is not over.
pub record IsSimLease (l : RolloutLease) (now : Time) : Type 0 where
  pub in_time : now < l.expires_at
  pub version : l.policy_version ≡ "v0001"
  pub precision : l.required_precision_class ≡ "bf16"
  pub quantization : l.required_quantization_class ≡ none
  pub size : (n : ℕ) × (l.group_size ≡ pos (suc n))
  pub context : (n : ℕ) × (7 ≤ n) × (l.max_context_tokens ≡ pos n)

-- Which of the floats in play are zero: 0.0 is, and -0.4, with or without the noise, is not.
pub record IsSigned (fl : Floats) (draws : Draws) : Type 0 where
  pub zero_is : fl.eq (fl.literal 0 0) (fl.literal 0 0) ≡ true
  pub fixed_is_not : fl.eq (fl.negate (fl.literal 4 1)) (fl.literal 0 0) ≡ false
  pub noise_is_not :
      fl.eq (fl.plus (fl.negate (fl.literal 4 1)) draws.first) (fl.literal 0 0) ≡ false

-- Why the groups of a profile are rejected (none: they are not).
abbrev pub verdict : WorkerProfile → Option RejectionReason
verdict honest = none
verdict noisy = none
verdict stale = none
verdict toxic_tokenizer = some tokenizer_mismatch
verdict toxic_precision = some precision_mismatch
verdict toxic_no_logprobs = some missing_logprobs
verdict toxic_version_drift = some policy_version_mismatch

abbrev pub reason_of : Option GroupDecision → Option RejectionReason
reason_of none = none
reason_of (some d) = d.rejection_reason

pub All-repeat_times {ℓ κ} :
    {A : Type ℓ} (P : A → Type κ) (n : ℕ) (x : A) → P x → All P (repeat_times n x)
All-repeat_times P zero x p = tt
All-repeat_times P (suc n) x p = (p, All-repeat_times P n x p)

pub length-repeat_times {ℓ} : {A : Type ℓ} (n : ℕ) (x : A) → length (repeat_times n x) ≡ n
length-repeat_times zero x = refl
length-repeat_times (suc n) x = omega (arith, length-repeat_times n x)

module _ (fl : Floats) (l : RolloutLease) (draws : Draws) (clock : Time) where
  abbrev pub sample : WorkerProfile → Trajectory
  sample p = trajectory_with fl (rollout_logprobs fl p draws)

  pub make_group-ok :
      (p : WorkerProfile)
      → (n : ℕ) × (l.group_size ≡ pos (suc n))
      → make_group fl l p draws clock ≡ ok (group_of fl l p (sample p) clock)
  unfolding make_group rollout_logprobs group_of new_trajectory new_sample_group
  make_group-ok honest (n, h) = ground (arith, h)
  make_group-ok noisy (n, h) = ground (arith, h)
  make_group-ok stale (n, h) = ground (arith, h)
  make_group-ok toxic_tokenizer (n, h) = ground (arith, h)
  make_group-ok toxic_precision (n, h) = ground (arith, h)
  make_group-ok toxic_no_logprobs (n, h) = ground (arith, h)
  make_group-ok toxic_version_drift (n, h) = ground (arith, h)
