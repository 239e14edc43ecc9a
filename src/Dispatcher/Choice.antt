-- ===== src/Dispatcher/Choice.antt =====
-- What dispatcher.py chooses: an eligible worker at the least price.
use mathlib.Core.List.{Memᴰ}
use mathlib.Core.List.Memᴰ.{head, tail}
use streams_rollout_market.Prelude.{
  none, Option-cases, some, Option, ◌≡◌, refl, ℤ, true, false, List, [], ◌∷◌, Float, Floats, All,
  IsOrder, IsLeast, IsLeast-sort_by, All-sort_by, All-unsort_by, ok, Bool-cases, inl, inr, subst,
  if◌then◌else◌, arith,
}
use streams_rollout_market.Contracts.{PolicyManifest, WorkerHeartbeat}
use streams_rollout_market.Dispatcher.{
  is_eligible, candidates, price_or_zero, is_cheaper, first_of, choose_worker,
}

-- A price is not NaN: only NaN differs from itself.
abbrev IsNumber : Floats → Option Float → Type 0
IsNumber fl none = Unit
IsNumber fl (some p) = fl.eq p p ≡ true

-- The worker's price is a number, if it has one.
abbrev pub IsPriced : Floats → WorkerHeartbeat → Type 0
IsPriced fl w = IsNumber fl w.price_hint_per_hour

-- The first price is at most the second, and no price is dearer than all.
abbrev pub IsAtMost : Floats → Option Float → Option Float → Type 0
IsAtMost fl q none = Unit
IsAtMost fl none (some p) = ⊥
IsAtMost fl (some q) (some p) = fl.lt p q ≡ false

-- What IEEE 754 says of `<` and `==`: `<` is asymmetric, and on numbers its negation is transitive; zero
-- is a number; and equal floats (a positive and a negative zero too) are less and greater than the same.
pub record IsIeee (fl : Floats) : Type 0 where
  pub asymmetric : (x y : Float) → fl.lt x y ≡ true → fl.lt y x ≡ false
  pub transitive :
      (x y z : Float)
      → fl.eq x x ≡ true
      → fl.eq y y ≡ true
      → fl.eq z z ≡ true
      → fl.lt z y ≡ false
      → fl.lt y x ≡ false
      → fl.lt z x ≡ false
  pub zero : fl.eq (fl.of_nat 0) (fl.of_nat 0) ≡ true
  pub equal : (x y z : Float) → fl.eq x y ≡ true → (fl.lt x z ≡ fl.lt y z) × (fl.lt z x ≡ fl.lt z y)

module _ (fl : Floats) (ieee : IsIeee fl) where
  price_or_zero-IsNumber :
      (o : Option Float) → IsNumber fl o → fl.eq (price_or_zero fl o) (price_or_zero fl o) ≡ true
  unfolding price_or_zero
  price_or_zero-IsNumber none h = ieee.zero
  price_or_zero-IsNumber (some p) h = ground (arith, ieee.zero)

  -- Reading a zero as 0.0 does not change the order.
  price_or_zero-lt :
      (p q : Float) → fl.lt (price_or_zero fl (some p)) (price_or_zero fl (some q)) ≡ fl.lt p q
  unfolding price_or_zero
  price_or_zero-lt p q = ground (
    arith,
    ieee.equal p (fl.of_nat 0) q,
    ieee.equal p (fl.of_nat 0) (fl.of_nat 0),
    ieee.equal q (fl.of_nat 0) p,
    ieee.equal q (fl.of_nat 0) (fl.of_nat 0),
  )

  is_cheaper-IsOrder : IsOrder (is_cheaper fl) (IsPriced fl)
  unfolding is_cheaper
  is_cheaper-IsOrder = record {
    asymmetric = λ v w p q h. ground (
      arith,
      ieee.asymmetric (price_or_zero fl v.price_hint_per_hour)
          (price_or_zero fl w.price_hint_per_hour),
    );
    transitive = λ u v w p q r h i. ground (
      arith,
      ieee.transitive (price_or_zero fl u.price_hint_per_hour)
          (price_or_zero fl v.price_hint_per_hour) (price_or_zero fl w.price_hint_per_hour)
          (price_or_zero-IsNumber u.price_hint_per_hour p)
          (price_or_zero-IsNumber v.price_hint_per_hour q)
          (price_or_zero-IsNumber w.price_hint_per_hour r),
    );
  }

  is_cheaper-IsAtMost :
      (v w : WorkerHeartbeat)
      → is_cheaper fl v w ≡ false
      → IsAtMost fl w.price_hint_per_hour v.price_hint_per_hour
  unfolding is_cheaper
  is_cheaper-IsAtMost v w h = elim (Option-cases v.price_hint_per_hour) [
    | inl e ↦ rw e tt
    | inr (p, e) ↦ elim (Option-cases w.price_hint_per_hour) [
      | inl f ↦ absurd (ground (arith, e, f))
      | inr (q, f) ↦ rw (e, f) (ground (arith, e, f, h, price_or_zero-lt p q))
    ]
  ]

-- The eligible workers, as members of the list.
candidates_lem :
    (manifest : PolicyManifest) (n : ℤ) (ws vs : List WorkerHeartbeat)
    → ((w : WorkerHeartbeat) → Memᴰ w ws → Memᴰ w vs)
    → All (λ w. Memᴰ w vs × (is_eligible manifest n w ≡ true)) (candidates manifest n ws)
unfolding candidates
candidates_lem manifest n [] vs inside = tt
candidates_lem manifest n (w ∷ ws) vs inside =
    ground (arith, inside w (head refl), candidates_lem manifest n ws vs (λ u m. inside u (tail m)))

module _ (manifest : PolicyManifest) (n : ℤ) where
  module _ {ℓ} (P : WorkerHeartbeat → Type ℓ) where
    All-candidates : (ws : List WorkerHeartbeat) → All P ws → All P (candidates manifest n ws)
    unfolding candidates
    All-candidates [] h = tt
    All-candidates (w ∷ ws) h = ground (arith, h.0, All-candidates ws h.1)

    candidates_back :
        (ws : List WorkerHeartbeat)
        → All P (candidates manifest n ws)
        → All (λ w. is_eligible manifest n w ≡ true → P w) ws
    unfolding candidates
    candidates_back [] h = tt
    candidates_back (w ∷ ws) h = elim (Bool-cases (is_eligible manifest n w)) [
      | inl e ↦
          let both : P w × All P (candidates manifest n ws) =
            subst
              (λ c. All P (if c then w ∷ candidates manifest n ws else candidates manifest n ws)) e
              h in
          ((λ _. both.0), candidates_back ws both.1)
      | inr e ↦
          let rest : All P (candidates manifest n ws) =
            subst
              (λ c. All P (if c then w ∷ candidates manifest n ws else candidates manifest n ws)) e
              h in
          ((λ t. absurd (cc)), candidates_back ws rest)
    ]

All-map {ℓ} :
    {A : Type ℓ} (P Q : A → Type 0) → ((x : A) → P x → Q x) → (xs : List A) → All P xs → All Q xs
All-map P Q f [] h = tt
All-map P Q f (x ∷ xs) h = (f x h.0, All-map P Q f xs h.1)

first_of-All {ℓ} :
    (fl : Floats) (P : WorkerHeartbeat → Type ℓ) (ws : List WorkerHeartbeat) (w : WorkerHeartbeat)
    → first_of fl ws ≡ ok w
    → All P ws
    → P w
first_of-All fl P [] w h a = absurd (cc)
first_of-All fl P (v ∷ ws) w h a = ground (arith, a.0)

first_of-least :
    (fl : Floats) (ws : List WorkerHeartbeat) (w : WorkerHeartbeat)
    → first_of fl ws ≡ ok w
    → IsLeast (is_cheaper fl) ws
    → All (λ v. is_cheaper fl v w ≡ false) ws
first_of-least fl [] w h a = tt
first_of-least fl (v ∷ ws) w h a =
    let same : v ≡ w = ground arith in
    subst (λ u. All (λ z. is_cheaper fl z u ≡ false) (v ∷ ws)) same a

-- A worker that is chosen is one of the workers, healthy, with the precision class of the policy and
-- the context length asked for.
pub choose_worker-is_eligible :
    (fl : Floats) (ws : List WorkerHeartbeat) (manifest : PolicyManifest) (n : ℤ)
    (w : WorkerHeartbeat)
    → choose_worker fl ws manifest n ≡ ok w
    → Memᴰ w ws × (is_eligible manifest n w ≡ true)
unfolding choose_worker
choose_worker-is_eligible fl ws manifest n w h =
    first_of-All fl (λ v. Memᴰ v ws × (is_eligible manifest n v ≡ true)) _ w h
      (All-sort_by (is_cheaper fl) (λ v. Memᴰ v ws × (is_eligible manifest n v ≡ true)) _
        (candidates_lem manifest n ws ws (λ v m. m)))

-- The chosen worker is one of the eligible, and its price is at most that of every eligible worker: a
-- worker without a price is chosen only if no eligible one has a price, and one with a price only if no
-- eligible price is less. No price is NaN, and floats compare as IEEE 754 has it.
pub choose_worker-least :
    (fl : Floats) (ws : List WorkerHeartbeat) (manifest : PolicyManifest) (n : ℤ)
    (w : WorkerHeartbeat)
    → IsIeee fl
    → All (IsPriced fl) ws
    → choose_worker fl ws manifest n ≡ ok w
    → Memᴰ w ws
      × (is_eligible manifest n w ≡ true)
      × All
          (λ v.
            is_eligible manifest n v ≡ true
            → IsAtMost fl w.price_hint_per_hour v.price_hint_per_hour)
          ws
unfolding choose_worker
choose_worker-least fl ws manifest n w ieee priced h =
    let (member, eligible) = choose_worker-is_eligible fl ws manifest n w h in
    let sorted =
      IsLeast-sort_by (is_cheaper fl) (is_cheaper-IsOrder fl ieee) _
        (All-candidates manifest n (IsPriced fl) ws priced) in
    let cheapest =
      All-unsort_by (is_cheaper fl) (λ v. is_cheaper fl v w ≡ false) _
        (first_of-least fl _ w h sorted) in
    (
      member,
      eligible,
      All-map _ _ (λ v f e. is_cheaper-IsAtMost fl ieee v w (f e)) ws
          (candidates_back manifest n (λ v. is_cheaper fl v w ≡ false) ws cheapest),
    )
