-- ===== src/Prelude/Dicts.antt =====
-- Python's `dict` and `OrderedDict` with text keys, in insertion order, and its `set` of texts.
use Prim.Native.Nat.{ℕ, ◌+◌, ◌≤◌}
use Prim.Native.String.{String}
use mathlib.Core.Path.{◌≡◌}
use mathlib.Core.Logic.{◌≢◌}
use mathlib.Core.Bool.{Bool, true, false, not, ◌&&◌, ◌||◌}
use mathlib.Core.Option.{Option, none, some}
use mathlib.Core.List.{List, [], ◌∷◌, map}
use native.Mathlib.Omega.{arith}
use streams_rollout_market.Prelude.Lists.{length}
use streams_rollout_market.Prelude.Tests.{◌==◌, if◌then◌else◌, is_some, dec_text}

abbrev pub Dict {ℓ} : Type ℓ → Type ℓ
Dict V = List (String × V)

-- How many 1s a test is worth in a count.
abbrev pub bit : Bool → ℕ
bit true = 1
bit false = 0

module _ {ℓ} {V : Type ℓ} where
  -- `d.get(k)`
  unfoldable pub lookup : String → Dict V → Option V
  lookup k [] = none
  lookup k (e ∷ d) = if e.0 == k then some e.1 else lookup k d

  -- `k in d`
  abbrev pub contains : String → Dict V → Bool
  contains k d = is_some (lookup k d)

  -- `d[k] = v`: an existing key keeps its place.
  unfoldable pub insert : String → V → Dict V → Dict V
  insert k v [] = (k, v) ∷ []
  insert k v (e ∷ d) = if e.0 == k then (k, v) ∷ d else e ∷ insert k v d

  -- `d.values()`
  abbrev pub values : Dict V → List V
  values = map (λ e. e.1)

  pub lookup-insert :
      (k j : String) (v : V) (d : Dict V)
      → lookup j (insert k v d) ≡ (if k == j then some v else lookup j d)
  unfolding lookup insert
  lookup-insert k j v [] = ground arith
  lookup-insert k j v (e ∷ d) = ground (arith, lookup-insert k j v d)

  pub length-insert :
      (k : String) (v : V) (d : Dict V)
      → length (insert k v d) ≡ (if contains k d then length d else length d + 1)
  unfolding lookup insert
  length-insert k v [] = ground arith
  length-insert k v (e ∷ d) = ground (arith, length-insert k v d)

  -- The number of values that pass a test.
  unfoldable pub count : (V → Bool) → Dict V → ℕ
  count p [] = 0
  count p (e ∷ d) = bit (p e.1) + count p d

  pub count-insert_new :
      (p : V → Bool) (k : String) (v : V) (d : Dict V)
      → lookup k d ≡ none
      → count p (insert k v d) ≡ count p d + bit (p v)
  unfolding lookup insert count
  count-insert_new p k v [] h = omega arith
  count-insert_new p k v (e ∷ d) h = ground (arith, count-insert_new p k v d)

  pub count-insert_old :
      (p : V → Bool) (k : String) (v w : V) (d : Dict V)
      → lookup k d ≡ some w
      → count p (insert k v d) + bit (p w) ≡ count p d + bit (p v)
  unfolding lookup insert count
  count-insert_old p k v w [] h = cc
  count-insert_old p k v w (e ∷ d) h = ground (arith, count-insert_old p k v w d)

module _ {ℓ} {V : Type ℓ} where
  count-one :
      (p : V → Bool) (k : String) (v : V) (d : Dict V)
      → lookup k d ≡ some v
      → p v ≡ true
      → 1 ≤ count p d
  unfolding lookup count
  count-one p k v [] h t = cc
  count-one p k v (e ∷ d) h t = ground (arith, count-one p k v d)

  pub count-two :
      (p : V → Bool) (k j : String) (v w : V) (d : Dict V)
      → lookup k d ≡ some v
      → lookup j d ≡ some w
      → k ≢ j
      → p v ≡ true
      → p w ≡ true
      → 2 ≤ count p d
  unfolding lookup count
  count-two p k j v w [] h g n t s = cc
  count-two p k j v w (e ∷ d) h g n t s =
      ground (arith, count-one p k v d, count-one p j w d, count-two p k j v w d)

-- Every value, with its key, satisfies `P`.
abbrev pub AllEntries {ℓ κ} : {V : Type ℓ} → (String → V → Type κ) → Dict V → Type κ
AllEntries P [] = Unit
AllEntries P (e ∷ d) = P e.0 e.1 × AllEntries P d

module _ {ℓ κ} {V : Type ℓ} (P : String → V → Type κ) where
  pub AllEntries-insert :
      (k : String) (v : V) (d : Dict V) → P k v → AllEntries P d → AllEntries P (insert k v d)
  unfolding insert
  AllEntries-insert k v [] h a = (h, tt)
  AllEntries-insert k v (e ∷ d) h a =
      elim (dec_text e.0 k)
        as (λ t.
          AllEntries P
            (if elim t [ yes _ ↦ true | no _ ↦ false ] then (k, v) ∷ d else e ∷ insert k v d)) [
              | yes hit ↦ (h, a.1)
              | no miss ↦ (a.0, AllEntries-insert k v d h a.1)
            ]

  pub AllEntries-lookup :
      (k : String) (v : V) (d : Dict V) → lookup k d ≡ some v → AllEntries P d → P k v
  unfolding lookup
  AllEntries-lookup k v [] h a = cc
  AllEntries-lookup k v (e ∷ d) h a = ground (arith, a.0, AllEntries-lookup k v d)

-- A `set` of texts: only membership is read.
-- `k in s`
unfoldable pub member : String → List String → Bool
member k [] = false
member k (x ∷ s) = x == k || member k s

-- `s.add(k)`
unfoldable pub add : String → List String → List String
unfolding member
add k s = if member k s then s else k ∷ s

-- `s.discard(k)`
unfoldable pub discard : String → List String → List String
discard k [] = []
discard k (x ∷ s) = if x == k then discard k s else x ∷ discard k s

pub member-add : (k j : String) (s : List String) → member j (add k s) ≡ (k == j || member j s)
unfolding add member
member-add k j [] = ground arith
member-add k j (x ∷ s) = ground (arith, member-add k j s)

pub member-discard :
    (k j : String) (s : List String) → member j (discard k s) ≡ (not (k == j) && member j s)
unfolding member discard
member-discard k j [] = ground arith
member-discard k j (x ∷ s) = ground (arith, member-discard k j s)

pub ruleset dict_laws = (lookup-insert, member-add, member-discard)
