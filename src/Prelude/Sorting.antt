-- ===== src/Prelude/Sorting.antt =====
-- Python's stable `sorted`, by the strict order `before` of the keys.
use mathlib.Core.Path.{◌≡◌}
use mathlib.Core.Logic.{inl, inr}
use mathlib.Core.Bool.{Bool, true, false}
use mathlib.Core.List.{List, [], ◌∷◌}
use native.Mathlib.Omega.{arith}
use streams_rollout_market.Prelude.Lists.{All}
use streams_rollout_market.Prelude.Tests.{Bool-cases, if◌then◌else◌}

module _ {ℓ} {A : Type ℓ} (before : A → A → Bool) where
  unfoldable pub place : A → List A → List A
  place x [] = x ∷ []
  place x (y ∷ ys) = if before y x then y ∷ place x ys else x ∷ y ∷ ys

  unfoldable pub sort_by : List A → List A
  unfolding place
  sort_by [] = []
  sort_by (x ∷ xs) = place x (sort_by xs)

  module _ {κ} (P : A → Type κ) where
    All-place : (x : A) (ys : List A) → P x → All P ys → All P (place x ys)
    unfolding place
    All-place x [] p h = (p, tt)
    All-place x (y ∷ ys) p h = ground (arith, h.0, h.1, All-place x ys p h.1)

    All-unplace : (x : A) (ys : List A) → All P (place x ys) → P x × All P ys
    unfolding place
    All-unplace x [] h = h
    All-unplace x (y ∷ ys) h = ground (arith, All-unplace x ys)

    pub All-sort_by : (xs : List A) → All P xs → All P (sort_by xs)
    unfolding sort_by
    All-sort_by [] h = tt
    All-sort_by (x ∷ xs) h = All-place x (sort_by xs) h.0 (All-sort_by xs h.1)

    pub All-unsort_by : (xs : List A) → All P (sort_by xs) → All P xs
    unfolding sort_by
    All-unsort_by [] h = tt
    All-unsort_by (x ∷ xs) h =
        let both = All-unplace x (sort_by xs) h in (both.0, All-unsort_by xs both.1)

  -- Nothing in the list comes before its first element.
  abbrev pub IsLeast : List A → Type 0
  IsLeast [] = Unit
  IsLeast (y ∷ ys) = All (λ z. before z y ≡ false) (y ∷ ys)

  -- An order of the values that satisfy `P`.
  pub record IsOrder {κ} (P : A → Type κ) : Type (ℓ ⊔ κ) where
    pub asymmetric : (x y : A) → P x → P y → before x y ≡ true → before y x ≡ false
    pub transitive :
        (x y z : A) → P x → P y → P z → before z y ≡ false → before y x ≡ false → before z x ≡ false

  module _ {κ} {P : A → Type κ} (order : IsOrder P) where
    before_self : (x : A) → P x → before x x ≡ false
    before_self x p = ground (arith, order.asymmetric x x p p)

    least_below :
        (x y : A) (zs : List A)
        → P x
        → P y
        → before y x ≡ false
        → All P zs
        → All (λ z. before z y ≡ false) zs
        → All (λ z. before z x ≡ false) zs
    least_below x y [] p q h hs ls = tt
    least_below x y (z ∷ zs) p q h hs ls =
        (order.transitive x y z p q hs.0 ls.0 h, least_below x y zs p q h hs.1 ls.1)

    IsLeast-place : (x : A) (ys : List A) → P x → All P ys → IsLeast ys → IsLeast (place x ys)
    unfolding place
    IsLeast-place x [] p h least = (before_self x p, tt)
    IsLeast-place x (y ∷ ys) p h least = elim (Bool-cases (before y x)) [
      | inl e ↦
          rw (e) (
            least.0,
            All-place (λ z. before z y ≡ false) x ys (order.asymmetric y x h.0 p e) least.1,
          )
      | inr e ↦ rw (e) (before_self x p, (e, least_below x y ys p h.0 e h.1 least.1))
    ]

    pub IsLeast-sort_by : (xs : List A) → All P xs → IsLeast (sort_by xs)
    unfolding sort_by
    IsLeast-sort_by [] h = tt
    IsLeast-sort_by (x ∷ xs) h =
        IsLeast-place x (sort_by xs) h.0 (All-sort_by P xs h.1) (IsLeast-sort_by xs h.1)
