-- ===== src/TrainerClient.antt =====
-- src/rollout_market/trainer_client.py: the trainer's filtered pull from the store.
pub mod Fetch
use streams_rollout_market.Prelude.{
  ℤ, pos, pos_part, ltb_ℤ, String, Bool, true, false, not, ◌&&◌, ◌||◌, Option, none, some, List, [],
  ◌∷◌, length, ℕ, ◌!=◌, if◌then◌else◌,
}
use streams_rollout_market.Contracts.{
  GroupStatus, accepted, correctable, quarantined, rejected, status_eq, SampleGroup,
}
use streams_rollout_market.LiveStore.{StoredGroup, LiveStore, serve_loop, in_states}

pub data ReplayTier : Type 0 where
  fresh replay : ReplayTier

pub record TrainerBatch : Type 0 where
  pub requested_policy_version : String
  pub max_staleness : Option ℤ
  pub precision_class : Option String
  pub replay_tier : ReplayTier
  pub groups : List StoredGroup

unfoldable pub size : TrainerBatch → ℕ
size b = length b.groups

-- `replay_tier == ReplayTier.REPLAY`
abbrev pub includes_quarantined : ReplayTier → Bool
includes_quarantined fresh = false
includes_quarantined replay = true

-- `max_staleness is not None and lag > max_staleness`
abbrev pub too_stale : Option ℤ → ℤ → Bool
too_stale none lag = false
too_stale (some bound) lag = ltb_ℤ bound lag

-- `precision_class is not None and precision != precision_class`
abbrev pub wrong_precision : Option String → String → Bool
wrong_precision none precision = false
wrong_precision (some wanted) precision = precision != wanted

-- The `continue`s of the loop in `fetch`, in order: the record joins the batch if none applies.
unfoldable pub admits : String → Option ℤ → Option String → ReplayTier → StoredGroup → Bool
unfolding status_eq
admits policy_version max_staleness precision_class tier r =
    if status_eq r.state rejected
    then false
    else if status_eq r.state quarantined && not (includes_quarantined tier)
    then false
    else if not (in_states r.state (accepted ∷ correctable ∷ quarantined ∷ []))
    then false
    else if r.group.policy_version != policy_version
    then false
    else if too_stale max_staleness r.group.policy_lag_steps
    then false
    else if wrong_precision precision_class r.group.precision_class
    then false
    else true

-- The first loop gathers the candidates and the second counts them as served; the filter does not
-- read the count, so one pass does both.
unfoldable pub fetch :
    String → ℤ → Option ℤ → Option String → ReplayTier → LiveStore → TrainerBatch × LiveStore
unfolding serve_loop
fetch policy_version max_groups max_staleness precision_class tier s =
    if ltb_ℤ max_groups (pos 1)
    then (batch_of [], s)
    else (let (candidates, d) =
          serve_loop (admits policy_version max_staleness precision_class tier)
            (pos_part max_groups) s.records [] in
        (batch_of candidates, record { records = d }))
  where
    batch_of : List StoredGroup → TrainerBatch
    batch_of groups = record {
      requested_policy_version = policy_version;
      max_staleness = max_staleness;
      precision_class = precision_class;
      replay_tier = tier;
      groups = groups;
    }

-- One row of `metadata`: never the tokens.
pub record MetadataRow : Type 0 where
  pub group_id : String
  pub policy_version : String
  pub policy_lag_steps : ℤ
  pub precision_class : String
  pub quantization_class : Option String
  pub tokenizer_hash : String
  pub checkpoint_digest : String
  pub engine_name : String
  pub state : GroupStatus
  pub reason : String
  pub served_count : ℕ

unfoldable pub metadata_rows : List StoredGroup → List MetadataRow
metadata_rows [] = []
metadata_rows (r ∷ rs) =
    record {
      group_id = r.group.group_id;
      policy_version = r.group.policy_version;
      policy_lag_steps = r.group.policy_lag_steps;
      precision_class = r.group.precision_class;
      quantization_class = r.group.quantization_class;
      tokenizer_hash = r.group.tokenizer_hash;
      checkpoint_digest = r.group.checkpoint_digest;
      engine_name = r.group.engine_name;
      state = r.state;
      reason = r.reason;
      served_count = r.served_count;
    }
    ∷ metadata_rows rs

unfoldable pub metadata : TrainerBatch → List MetadataRow
unfolding metadata_rows
metadata b = metadata_rows b.groups
