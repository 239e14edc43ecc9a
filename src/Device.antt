-- ===== src/Device.antt =====
-- src/rollout_market/observatory/_device.py: the device that a report was made on, and
-- src/rollout_market/observatory/_engine_filter.py: which engines the dashboards show.
use streams_rollout_market.Prelude.{
  ℤ, String, Bool, true, false, not, ◌&&◌, ◌||◌, Option, none, some, List, [], ◌∷◌, Dict, lookup,
  get_or, ◌==◌, ◌<>◌, Result, ok, ◌>>=◌, if◌then◌else◌,
}

pub record DeviceFingerprint : Type 0 where
  pub vendor : String
  pub family : String
  pub cuda_compute : Option String
  pub vram_gb : Option ℤ
  pub host_label : Option String

-- `env.get(name)` as a condition, and `env.get(name) or None`: an empty text counts as absent.
abbrev pub given : Option String → Option String
given none = none
given (some s) = if s == "" then none else some s

abbrev pub env_vars : List String
env_vars =
    "DEVICE_VENDOR" ∷ "DEVICE_FAMILY" ∷ "DEVICE_CUDA_COMPUTE" ∷ "DEVICE_VRAM_GB"
    ∷ "DEVICE_HOST_LABEL" ∷ []

abbrev pub is_given : Option String → Bool
is_given none = false
is_given (some s) = not (s == "")

unfoldable pub any_given : List String → Dict String → Bool
any_given [] env = false
any_given (name ∷ names) env = is_given (lookup name env) || any_given names env

-- `int(raw) if raw else None`; `int` of a text is an argument.
abbrev pub vram : (String → Result ℤ) → Option String → Result (Option ℤ)
vram parse_int none = ok none
vram parse_int (some raw) = do n ← parse_int raw; ok (some n)

unfoldable pub device_from_env :
    (String → Result ℤ) → Dict String → Result (Option DeviceFingerprint)
unfolding any_given
device_from_env parse_int env = if not (any_given env_vars env) then ok none else (do
  vram_gb ← vram parse_int (given (lookup "DEVICE_VRAM_GB" env))
  ok (
      some (record {
        vendor = get_or (lookup "DEVICE_VENDOR" env) "unknown";
        family = get_or (lookup "DEVICE_FAMILY" env) "unknown";
        cuda_compute = given (lookup "DEVICE_CUDA_COMPUTE" env);
        vram_gb = vram_gb;
        host_label = given (lookup "DEVICE_HOST_LABEL" env);
      })))

abbrev pub host_suffix : Option String → String
host_suffix none = ""
host_suffix (some host) = if host == "" then "" else " (" <> host <> ")"

unfoldable pub device_bucket_label : Option DeviceFingerprint → String
device_bucket_label none = "L40S (g6e.12xlarge)"
device_bucket_label (some device) = device.family <> host_suffix device.host_label

-- `lower` and `in` on texts are arguments.
module _ (lower : String → String) (occurs_in : String → String → Bool) where
  -- `any(tag in n for tag in tags)`
  unfoldable pub any_tag : List String → String → Bool
  any_tag [] n = false
  any_tag (tag ∷ tags) n = occurs_in tag n || any_tag tags n

  unfoldable pub is_headline_rollout : String → Bool
  unfolding any_tag
  is_headline_rollout engine = any_tag ("vllm" ∷ "hermes" ∷ []) (lower engine)

  unfoldable pub is_headline_trainer : String → Bool
  unfolding any_tag
  is_headline_trainer engine = any_tag ("fsdp" ∷ "megatron" ∷ []) (lower engine)

  unfoldable pub is_headline_pair : String → String → Bool
  is_headline_pair rollout trainer = is_headline_rollout rollout && is_headline_trainer trainer

  unfoldable pub is_blocked_pair : String → String → Bool
  unfolding any_tag
  is_blocked_pair rollout trainer =
      if any_tag ("sglang" ∷ []) (lower rollout)
      then true
      else if any_tag ("hf-transformers" ∷ "hf" ∷ []) (lower trainer)
      then true
      else false
