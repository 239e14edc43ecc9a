-- ===== src/Registry.antt =====
-- src/rollout_market/registry.py: the published policy manifests, and src/rollout_market/verifier.py: the
-- hash of a group. The files of the registry's directory are a dictionary by name.
use streams_rollout_market.Prelude.{
  inl, inr, Option-cases, lookup-insert, arith, ◌≢◌, ◌==◌, ◌<>◌, file_not_found, true, lookup,
  insert, false, Result, ◌≡◌, String, Dict, Bool, none, some, ok, raise,
}
use streams_rollout_market.Contracts.{PolicyManifest, SampleGroup}

-- `model_dump_json(indent=2)` and `model_validate_json`; `json.dumps(model_dump(mode="json", …), …)`
-- of a group, and `sha256(data).hexdigest()`.
pub record Dumps : Type 0 where
  pub dump_manifest : PolicyManifest → String
  pub load_manifest : String → Result PolicyManifest
  pub dump_group : SampleGroup → String
  pub sha256 : String → String

module _ (du : Dumps) where
  unfoldable pub publish : PolicyManifest → Dict String → Dict String
  publish m files =
      insert "latest.json" (du.dump_manifest m)
        (insert (m.policy_version <> ".json") (du.dump_manifest m) files)

  unfoldable pub latest : Dict String → Result PolicyManifest
  latest files = elim (lookup "latest.json" files) [
    | none ↦ raise file_not_found
    | some content ↦ du.load_manifest content
  ]

  -- The hash leaves `sample_hash` out.
  unfoldable pub canonical_group_hash : SampleGroup → String
  canonical_group_hash g = du.sha256 (du.dump_group (record g { sample_hash = none }))

  unfoldable pub verify_group_hash : SampleGroup → Bool
  verify_group_hash g = elim (g.sample_hash) [
    | none ↦ false
    | some hash ↦ hash == canonical_group_hash g
  ]

  -- What was published last is the latest manifest and stands under its version, and no other file
  -- changes; for a manifest that pydantic reads back from its dump.
  publish_lem :
      (m : PolicyManifest) (files : Dict String)
      → du.load_manifest (du.dump_manifest m) ≡ ok m
      → (latest (publish m files) ≡ ok m)
        × (lookup (m.policy_version <> ".json") (publish m files) ≡ some (du.dump_manifest m))
        × ((name : String)
            → name ≢ "latest.json"
            → name ≢ m.policy_version <> ".json"
            → lookup name (publish m files) ≡ lookup name files)
  unfolding publish latest
  publish_lem m files h =
      let name = m.policy_version <> ".json" in
      let content = du.dump_manifest m in
      let once = insert name content files in
      (
        ground (arith, h, lookup-insert "latest.json" "latest.json" content once),
        ground (
          arith,
          lookup-insert "latest.json" name content once,
          lookup-insert name name content files,
        ),
        λ other x y. ground (
          arith,
          lookup-insert "latest.json" other content once,
          lookup-insert name other content files,
        ),
      )

  -- A group that carries the hash of its own content passes the check, and where two groups that pass
  -- carry one hash, their hashed contents have the same digest.
  verify_group_hash_lem :
      (g h : SampleGroup)
      → (verify_group_hash (record g { sample_hash = some (canonical_group_hash g) }) ≡ true)
        × (verify_group_hash g ≡ true
            → verify_group_hash h ≡ true
            → g.sample_hash ≡ h.sample_hash
            → canonical_group_hash g ≡ canonical_group_hash h)
  unfolding verify_group_hash canonical_group_hash
  verify_group_hash_lem g h = (
    ground arith,
    λ x y z. elim (Option-cases g.sample_hash) [
      | inl absent ↦ absurd (ground (arith, absent))
      | inr (hash, there) ↦ ground (arith, there)
    ],
  )
