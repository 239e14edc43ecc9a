-- ===== src/LiveStore/Serving.antt =====
-- The serving loop of livestore.py against its specification: a filter, a prefix, and a mark.
use mathlib.Core.List.{append_assoc, append-nil}
use streams_rollout_market.Prelude.{
  ℕ, zero, suc, ◌+◌, ◌≡◌, refl, ◌⊎◌, inl, String, Bool, true, some, List, [], ◌∷◌, ◌++◌, map, Dict,
  lookup, length, length-append, take, if◌then◌else◌, arith,
}
use streams_rollout_market.LiveStore.{StoredGroup, served, serve_loop}

module _ (admits : StoredGroup → Bool) where
  -- The records that the filter admits, in insertion order.
  abbrev pub select : Dict StoredGroup → List StoredGroup
  select [] = []
  select (e ∷ d) = if admits e.1 then e.1 ∷ select d else select d

  -- The first `n` admitted records count one more serving; nothing else changes.
  abbrev pub mark : ℕ → Dict StoredGroup → Dict StoredGroup
  mark n [] = []
  mark zero (e ∷ d) = e ∷ d
  mark (suc n) (e ∷ d) = if admits e.1 then (e.0, served e.1) ∷ mark n d else e ∷ mark (suc n) d

  pub mark-zero : (d : Dict StoredGroup) → mark zero d ≡ d
  mark-zero [] = refl
  mark-zero (e ∷ d) = refl

  pub serve_loop_lem :
      (d : Dict StoredGroup) (batch : List StoredGroup) (n m : ℕ)
      → n ≡ length batch + suc m
      → serve_loop admits n d batch
        ≡ (batch ++ take (suc m) (map served (select d)), mark (suc m) d)
  unfolding serve_loop
  serve_loop_lem [] batch n m h = ground (arith, append-nil batch)
  serve_loop_lem (e ∷ d) batch n zero h =
      ground
        (arith, mark-zero d, length-append batch (served e.1 ∷ []), serve_loop_lem d batch n zero h)
  serve_loop_lem (e ∷ d) batch n (suc m) h = ground (
    arith,
    length-append batch (served e.1 ∷ []),
    append_assoc batch (served e.1 ∷ []) (take (suc m) (map served (select d))),
    serve_loop_lem d batch n (suc m) h,
    serve_loop_lem d (batch ++ served e.1 ∷ []) n m,
  )

  -- What marking leaves of a record: itself, or itself served once more.
  pub lookup-mark :
      (n : ℕ) (k : String) (r : StoredGroup) (d : Dict StoredGroup)
      → lookup k d ≡ some r
      → (lookup k (mark n d) ≡ some r)
        ⊎ ((lookup k (mark n d) ≡ some (served r)) × (admits r ≡ true))
  unfolding lookup
  lookup-mark n k r [] h = cc
  lookup-mark zero k r (e ∷ d) h = inl h
  lookup-mark (suc n) k r (e ∷ d) h = ground (arith, lookup-mark n k r d, lookup-mark (suc n) k r d)

-- The servings of all records together.
abbrev pub total_served : Dict StoredGroup → ℕ
total_served [] = 0
total_served (e ∷ d) = e.1.served_count + total_served d

pub total_served-mark :
    (admits : StoredGroup → Bool) (n : ℕ) (d : Dict StoredGroup)
    → total_served (mark admits n d)
      ≡ total_served d + length (take n (map served (select admits d)))
total_served-mark admits zero [] = omega arith
total_served-mark admits (suc n) [] = omega arith
total_served-mark admits zero (e ∷ d) = omega arith
total_served-mark admits (suc n) (e ∷ d) =
    ground (arith, total_served-mark admits n d, total_served-mark admits (suc n) d)
