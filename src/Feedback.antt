-- ===== src/Feedback.antt =====
-- src/rollout_market/feedback.py: what the trainer reports of consumed groups, and its running totals.
pub mod Totals
use streams_rollout_market.Prelude.{
  ℕ, ◌+◌, ℤ, pos, ltb_ℤ, ◌+ℤ◌, nat_eq, String, Bool, true, false, not, ◌&&◌, Option, none, some,
  List, [], ◌∷◌, Dict, lookup, insert, length, member, add, Time, ◌==◌, Texts, Float, Floats,
  Result, ok, raise, raise_if, ◌>>=◌, ◌>>◌, validation_error, get_or, if◌then◌else◌,
}
use streams_rollout_market.Contracts.{all_non_empty}

pub record TrainerFeedback : Type 0 where
  pub group_id : String
  pub worker_id : String
  pub engine_name : String
  pub engine_version : String
  pub policy_version : String
  pub num_policy_tokens : ℤ
  pub ess_observed : Float
  pub clipped_fraction_observed : Float
  pub accepted_by_trainer : Bool
  pub trainer_rejection_reason : Option String
  pub current_policy_logprob_mean : Float
  pub current_policy_logprob_std : Float
  pub reported_at : Time

-- Whether an optional text is true: present and not empty.
unfoldable pub is_given : Option String → Bool
is_given none = false
is_given (some s) = not (s == "")

-- `0.0 <= x <= 1.0`
abbrev pub is_fraction : Floats → Float → Bool
is_fraction fl x = fl.le (fl.of_nat 0) x && fl.le x (fl.of_nat 1)

unfoldable pub new_trainer_feedback : Texts → Floats → TrainerFeedback → Result TrainerFeedback
new_trainer_feedback py fl f = do
  raise_if
      (not (
        all_non_empty py
          (f.group_id ∷ f.worker_id ∷ f.engine_name ∷ f.engine_version ∷ f.policy_version ∷ [])))
      validation_error
  raise_if (ltb_ℤ f.num_policy_tokens (pos 0)) validation_error
  raise_if (not (is_fraction fl f.ess_observed)) validation_error
  raise_if (not (is_fraction fl f.clipped_fraction_observed)) validation_error
  raise_if (fl.lt f.current_policy_logprob_std (fl.of_nat 0)) validation_error
  raise_if (f.accepted_by_trainer && is_given f.trainer_rejection_reason) validation_error
  ok f

pub record QualityStats : Type 0 where
  pub count : ℕ
  pub accepted_count : ℕ
  pub sum_ess : Float
  pub sum_clipped : Float
  pub sum_logprob_mean : Float
  pub sum_num_policy_tokens : ℤ
  pub last_reported_at : Option Time
  pub rejection_reasons : Dict ℕ

-- `FeedbackAggregator`
pub record Aggregator : Type 0 where
  pub workers : Dict QualityStats
  pub engines : Dict QualityStats
  pub policies : Dict QualityStats
  pub seen : List String

abbrev pub empty : Aggregator
empty = record { workers = []; engines = []; policies = []; seen = [] }

-- `rejection_reasons.get(key, 0) + 1`, where a rejection has a reason.
unfoldable pub count_reason : Bool → Option String → Dict ℕ → Dict ℕ
count_reason true reason reasons = reasons
count_reason false none reasons = reasons
count_reason false (some key) reasons =
    if key == "" then reasons else insert key (get_or (lookup key reasons) 0 + 1) reasons

module _ (fl : Floats) where
  -- `QualityStats()`
  abbrev pub no_stats : QualityStats
  no_stats = record {
    count = 0;
    accepted_count = 0;
    sum_ess = fl.of_nat 0;
    sum_clipped = fl.of_nat 0;
    sum_logprob_mean = fl.of_nat 0;
    sum_num_policy_tokens = pos 0;
    last_reported_at = none;
    rejection_reasons = [];
  }

  unfoldable pub bump : TrainerFeedback → QualityStats → QualityStats
  unfolding count_reason
  bump f s = record {
    count = s.count + 1;
    accepted_count = if f.accepted_by_trainer then s.accepted_count + 1 else s.accepted_count;
    sum_ess = fl.plus s.sum_ess f.ess_observed;
    sum_clipped = fl.plus s.sum_clipped f.clipped_fraction_observed;
    sum_logprob_mean = fl.plus s.sum_logprob_mean f.current_policy_logprob_mean;
    sum_num_policy_tokens = s.sum_num_policy_tokens +ℤ f.num_policy_tokens;
    last_reported_at = some f.reported_at;
    rejection_reasons =
        count_reason f.accepted_by_trainer f.trainer_rejection_reason s.rejection_reasons;
  }

  -- `d.get(key, QualityStats())`
  abbrev pub stats_in : String → Dict QualityStats → QualityStats
  stats_in key d = get_or (lookup key d) no_stats

  -- `_bump(d[key], feedback)` on a `defaultdict`
  abbrev pub bump_in : String → TrainerFeedback → Dict QualityStats → Dict QualityStats
  bump_in key f d = insert key (bump f (stats_in key d)) d

  unfoldable pub ingest : TrainerFeedback → Aggregator → Aggregator
  ingest f a = if member f.group_id a.seen then a else record {
    workers = bump_in f.worker_id f a.workers;
    engines = bump_in f.engine_name f a.engines;
    policies = bump_in f.policy_version f a.policies;
    seen = add f.group_id a.seen;
  }

  unfoldable pub ingest_all : List TrainerFeedback → Aggregator → Aggregator
  unfolding ingest
  ingest_all [] a = a
  ingest_all (f ∷ fs) a = ingest_all fs (ingest f a)

  unfoldable pub stats_for_worker : String → Aggregator → QualityStats
  stats_for_worker worker_id a = stats_in worker_id a.workers

  unfoldable pub stats_for_engine : String → Aggregator → QualityStats
  stats_for_engine engine_name a = stats_in engine_name a.engines

  unfoldable pub stats_for_policy : String → Aggregator → QualityStats
  stats_for_policy policy_version a = stats_in policy_version a.policies

  -- `x / self.count if self.count else 0.0`
  abbrev pub ratio : Float → ℕ → Float
  ratio x count = if nat_eq count 0 then fl.of_nat 0 else fl.divide x (fl.of_nat count)

  unfoldable pub acceptance_rate : QualityStats → Float
  acceptance_rate s = ratio (fl.of_nat s.accepted_count) s.count

  unfoldable pub mean_ess : QualityStats → Float
  mean_ess s = ratio s.sum_ess s.count

  unfoldable pub mean_clipped_fraction : QualityStats → Float
  mean_clipped_fraction s = ratio s.sum_clipped s.count

  unfoldable pub mean_current_policy_logprob : QualityStats → Float
  mean_current_policy_logprob s = ratio s.sum_logprob_mean s.count

unfoldable pub all_worker_stats : Aggregator → Dict QualityStats
all_worker_stats a = a.workers

unfoldable pub all_engine_stats : Aggregator → Dict QualityStats
all_engine_stats a = a.engines

unfoldable pub all_policy_stats : Aggregator → Dict QualityStats
all_policy_stats a = a.policies

-- `len(aggregator)`
unfoldable pub size : Aggregator → ℕ
size a = length a.seen
