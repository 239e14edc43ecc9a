-- ===== src/Hermes/Stamping.antt =====
-- What merge_probes_into_trajectories.py changes of a conversation, and what its index holds.
use streams_rollout_market.Prelude.{
  subst, if◌then◌else◌, Option, Bool, length-append, Bool-cases, Result-cases, ◌+◌, Json, ◌++◌,
  length, arith, Dict, ok, member, false, All, ◌≡◌, lookup, String, List, [], ◌∷◌, ℕ, none, refl,
  inl, inr,
}
use streams_rollout_market.Hermes.Probes.{
  Probe, Value, dict, other, Numbers, pick, probe_keys, same_turn, has_turn, probe_of, index_loop,
  index_probes, is_from, stamp,
}

-- No two probes are of one turn.
abbrev pub IsDistinct : List Probe → Type 0
IsDistinct [] = Unit
IsDistinct (p ∷ ps) = All (λ q. same_turn q p ≡ false) ps × IsDistinct ps

-- The probes carry the four kinds of captured data and nothing else.
abbrev pub HasProbeKeys : Probe → Type 0
HasProbeKeys p = (k : String) → member k probe_keys ≡ false → lookup k p.fields ≡ none

All-snoc {ℓ} :
    {A : Type ℓ} (P : A → Type 0) (xs : List A) (x : A) → All P xs → P x → All P (xs ++ x ∷ [])
All-snoc P [] x a p = (p, tt)
All-snoc P (y ∷ xs) x a p = (a.0, All-snoc P xs x a.1 p)

IsDistinct-snoc :
    (ps : List Probe) (p : Probe)
    → IsDistinct ps
    → has_turn p ps ≡ false
    → IsDistinct (ps ++ p ∷ [])
unfolding has_turn
IsDistinct-snoc [] p d h = (tt, tt)
IsDistinct-snoc (q ∷ ps) p d h = (
  All-snoc (λ r. same_turn r q ≡ false) ps p d.0 (ground arith),
  IsDistinct-snoc ps p d.1 (ground arith),
)

pick-member :
    (keys : List String) (rec : Dict Json) (k : String)
    → member k keys ≡ false
    → lookup k (pick keys rec) ≡ none
unfolding pick lookup member
pick-member [] rec k h = refl
pick-member (x ∷ keys) rec k h = ground (arith, pick-member keys rec k)

module _ (nb : Numbers) where
  probe_of-HasProbeKeys : (v : Value) (p : Probe) → probe_of nb v ≡ ok p → HasProbeKeys p
  unfolding probe_of
  probe_of-HasProbeKeys (other v) p h = absurd (cc)
  probe_of-HasProbeKeys (dict rec) p h =
      λ k absent. ground (arith, h, pick-member probe_keys rec k absent)

  index_loop-lem :
      (vs : List Value) (out probes : List Probe)
      → IsDistinct out
      → All HasProbeKeys out
      → index_loop nb vs out ≡ ok probes
      → IsDistinct probes × All HasProbeKeys probes × (length probes ≡ length out + length vs)
  unfolding index_loop
  index_loop-lem [] out probes d k h =
      let same : out ≡ probes = ground (arith, h) in
      (subst IsDistinct same d, subst (All HasProbeKeys) same k, ground (arith, same))
  index_loop-lem (v ∷ vs) out probes d k h = elim (Result-cases (probe_of nb v)) [
    | inr (x, n) ↦ absurd (ground arith)
    | inl (p, n) ↦ elim (Bool-cases (has_turn p out)) [
      | inl taken ↦ absurd (ground arith)
      | inr free ↦
          let (d', k', e) =
            index_loop-lem vs (out ++ p ∷ []) probes (IsDistinct-snoc out p d free)
              (All-snoc HasProbeKeys out p k (probe_of-HasProbeKeys v p n)) (ground arith) in
          (d', k', omega (arith, e, length-append out (p ∷ [])))
    ]
  ]

-- The index has one probe for each record, no two of them for one turn of one prompt, and each carries
-- captured data under the four known keys alone; where a record has no prompt or turn, or repeats a turn,
-- there is no index.
pub index_probes_lem :
    (nb : Numbers) (records : List Value) (probes : List Probe)
    → index_probes nb records ≡ ok probes
    → IsDistinct probes × All HasProbeKeys probes × (length probes ≡ length records)
unfolding index_probes
index_probes_lem nb records probes h =
    let (distinct, keys, e) = index_loop-lem nb records [] probes tt tt h in
    (distinct, keys, omega (arith, e))

-- A message of the model.
abbrev pub is_gpt : Value → Bool
is_gpt (dict conv) = is_from "gpt" conv
is_gpt (other v) = false

-- How many messages of the model there are.
abbrev pub gpt_turns : List Value → ℕ
gpt_turns [] = 0
gpt_turns (v ∷ vs) = if is_gpt v then gpt_turns vs + 1 else gpt_turns vs

-- The value with the probes of its turn, if it is a message of the model.
abbrev pub stamped : Option Probe → Value → Value
stamped p (other v) = other v
stamped p (dict conv) = if is_from "gpt" conv then dict (stamp conv p) else dict conv
