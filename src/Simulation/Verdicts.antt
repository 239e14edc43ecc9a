-- ===== src/Simulation/Verdicts.antt =====
-- What happens to the groups of marketplace_simulation.py, profile by profile.
use streams_rollout_market.Validators.Clean.{HasEvidence, validate_iff, IsClean}
use streams_rollout_market.Validators.{
  rejection, check_payload, validate_group_against_lease, check_trajectories, all_zero,
}
use streams_rollout_market.Prelude.{
  text_ne, [], ◌≢◌, ◌<>◌, pos_part, String, ap, Texts, refl, ok, true, arith, ◌≡◌, suc, some, none,
  Time, Option, Floats, ℕ,
}
use streams_rollout_market.Contracts.{
  SampleGroup, policy_version_mismatch, missing_logprobs, precision_mismatch, tokenizer_mismatch,
  RolloutLease, Trajectory, GroupDecision,
}
use streams_rollout_market.Simulation.Samples.{
  IsSimLease, IsSigned, verdict, reason_of, All-repeat_times, length-repeat_times, sample,
  make_group-ok,
}
use streams_rollout_market.Simulation.Profiles.{
  policy_manifest, WorkerProfile, honest, noisy, stale, toxic_tokenizer, toxic_precision,
  toxic_no_logprobs, toxic_version_drift, Draws, make_group, rollout_logprobs, group_of,
  repeat_times,
}

module _ (py : Texts) (fl : Floats) (l : RolloutLease) (draws : Draws)
    (clock announced now : Time) where
  abbrev verdict_on : WorkerProfile → Option GroupDecision
  verdict_on p =
      validate_group_against_lease py fl (group_of fl l p (sample fl l draws clock p) clock) l
        (policy_manifest announced) (some now) now

  drift_rejected :
      IsSimLease l now → reason_of (verdict_on toxic_version_drift) ≡ some policy_version_mismatch
  unfolding validate_group_against_lease rejection group_of policy_manifest
  drift_rejected s = ground (arith, s.in_time, s.version, text_ne "v9999" "v0001" refl)

  tokenizer_rejected :
      IsSimLease l now → reason_of (verdict_on toxic_tokenizer) ≡ some tokenizer_mismatch
  unfolding validate_group_against_lease rejection group_of policy_manifest
  tokenizer_rejected s =
      ground (arith, s.in_time, s.version, text_ne "tok-INVALID" "tok-honest" refl)

  precision_rejected :
      IsSimLease l now → reason_of (verdict_on toxic_precision) ≡ some precision_mismatch
  unfolding validate_group_against_lease rejection group_of policy_manifest
  precision_rejected s =
      ground (arith, s.in_time, s.version, s.precision, text_ne "fp16" "bf16" refl)

  trajectories_rejected :
      (id : String) (n : ℕ) (t : Trajectory)
      → t.response_token_ids ≢ []
      → all_zero fl t.rollout_logprobs ≡ true
      → reason_of (check_trajectories py fl id 0 (repeat_times (suc n) t)) ≡ some missing_logprobs
  unfolding check_trajectories
  trajectories_rejected id n t h z = ground arith

  no_logprobs_rejected :
      IsSimLease l now
      → IsSigned fl draws
      → reason_of (verdict_on toxic_no_logprobs) ≡ some missing_logprobs
  unfolding validate_group_against_lease check_payload group_of policy_manifest rollout_logprobs
      all_zero
  no_logprobs_rejected s z =
      let (n, size) = s.size in
      let t = sample fl l draws clock toxic_no_logprobs in
      ground (
        arith,
        s.in_time,
        s.version,
        s.precision,
        s.quantization,
        size,
        z.zero_is,
        length-repeat_times (suc n) t,
        trajectories_rejected ("g-" <> l.lease_id) n t (λ e. ground arith)
            (ground (arith, z.zero_is)),
      )

  sample-HasEvidence :
      (p : WorkerProfile)
      → verdict p ≡ none
      → IsSigned fl draws
      → HasEvidence fl (sample fl l draws clock p)
  unfolding rollout_logprobs all_zero
  sample-HasEvidence honest h z = record {
    tokens = λ e. ground arith;
    logprobs = λ e. ground arith;
    nonzero = ground (arith, z.noise_is_not);
  }
  sample-HasEvidence noisy h z = record {
    tokens = λ e. ground arith;
    logprobs = λ e. ground arith;
    nonzero = ground (arith, z.fixed_is_not);
  }
  sample-HasEvidence stale h z = record {
    tokens = λ e. ground arith;
    logprobs = λ e. ground arith;
    nonzero = ground (arith, z.fixed_is_not);
  }
  sample-HasEvidence _ h z = absurd (cc)

  group_of-IsClean :
      (p : WorkerProfile)
      → verdict p ≡ none
      → IsSimLease l now
      → IsSigned fl draws
      → IsClean fl
          (group_of fl l p (sample fl l draws clock p) clock)
          l
          (policy_manifest announced)
          now
  unfolding group_of policy_manifest
  group_of-IsClean p h s z =
      let (n, size) = s.size in
      let (k, long, context) = s.context in
      let t = sample fl l draws clock p in
      record {
        in_time = s.in_time;
        version_lease = ground arith;
        version_manifest = ground (arith, s.version);
        checkpoint = refl;
        tokenizer = ground arith;
        precision = ground (arith, s.precision);
        quantization = ground (arith, s.quantization);
        group_size = ground (arith, size, length-repeat_times (suc n) t);
        prompt = λ e. ground arith;
        evidence =
            All-repeat_times (HasEvidence fl) (pos_part l.group_size) t (sample-HasEvidence p h z);
        context = All-repeat_times _ (pos_part l.group_size) t (ground (arith, long, context));
      }

  clean_verdict :
      (p : WorkerProfile)
      → verdict p ≡ none
      → IsSimLease l now
      → IsSigned fl draws
      → reason_of (verdict_on p) ≡ none
  clean_verdict p h s z =
      let (k, long, context) = s.context in
      ap reason_of (
        (validate_iff py fl (group_of fl l p (sample fl l draws clock p) clock) l
            (policy_manifest announced) (some now) now (ground (arith, long, context))).1
          (group_of-IsClean p h s z))

-- Every group of the simulation gets the verdict of its profile: the four toxic profiles are rejected,
-- each for its own reason, and the groups of the honest, the noisy and the stale profile pass the
-- checks; for a lease of one of the simulation's jobs that is not over, when 0.0 is zero and -0.4 and
-- the first log-probability with noise are not.
pub validate-verdict :
    (py : Texts) (fl : Floats) (l : RolloutLease) (p : WorkerProfile) (draws : Draws)
    (clock announced now : Time)
    → IsSimLease l now
    → IsSigned fl draws
    → (g : SampleGroup) × (make_group fl l p draws clock ≡ ok g)
      × (reason_of
            (validate_group_against_lease py fl g l (policy_manifest announced) (some now) now)
          ≡ verdict p)
validate-verdict py fl l honest draws clock announced now s z = (
  _,
  make_group-ok fl l draws clock honest s.size,
  clean_verdict py fl l draws clock announced now honest refl s z,
)
validate-verdict py fl l noisy draws clock announced now s z = (
  _,
  make_group-ok fl l draws clock noisy s.size,
  clean_verdict py fl l draws clock announced now noisy refl s z,
)
validate-verdict py fl l stale draws clock announced now s z = (
  _,
  make_group-ok fl l draws clock stale s.size,
  clean_verdict py fl l draws clock announced now stale refl s z,
)
validate-verdict py fl l toxic_tokenizer draws clock announced now s z = (
  _,
  make_group-ok fl l draws clock toxic_tokenizer s.size,
  tokenizer_rejected py fl l draws clock announced now s,
)
validate-verdict py fl l toxic_precision draws clock announced now s z = (
  _,
  make_group-ok fl l draws clock toxic_precision s.size,
  precision_rejected py fl l draws clock announced now s,
)
validate-verdict py fl l toxic_no_logprobs draws clock announced now s z = (
  _,
  make_group-ok fl l draws clock toxic_no_logprobs s.size,
  no_logprobs_rejected py fl l draws clock announced now s z,
)
validate-verdict py fl l toxic_version_drift draws clock announced now s z = (
  _,
  make_group-ok fl l draws clock toxic_version_drift s.size,
  drift_rejected py fl l draws clock announced now s,
)
