-- ===== src/RouterLab/Counts.antt =====
-- The loops of router_mismatch_lab.py on traces of one shape: they never run out of range, and what
-- they count is bounded.
use streams_rollout_market.Prelude.{
  ◌*◌, false, Result, ℕ, zero, suc, ◌+◌, ◌≤◌, ◌<◌, ◌≡◌, refl, ℤ, eq_ℤ, not, ◌||◌, Bool, some, List,
  [], ◌∷◌, ◌∙◌, length, get_elem?, All, ok, if◌then◌else◌, arith,
}
use streams_rollout_market.RouterLab.{tokens_loop, bump_at, sum_of, same_set, layers_loop}

-- A layer that routes to some expert.
abbrev pub IsRouted : List ℤ → Type 0
IsRouted layer = (e : ℤ) × (get_elem? layer 0 ≡ some e)

-- A token with `layers` layers.
abbrev pub IsToken : ℕ → List (List ℤ) → Type 0
IsToken layers token = (length token ≡ layers) × All IsRouted token

All-get_elem? {ℓ κ} :
    {A : Type ℓ} (P : A → Type κ) (xs : List A) (n : ℕ)
    → n < length xs
    → All P xs
    → (x : A) × (get_elem? xs n ≡ some x) × P x
All-get_elem? P [] n h a = absurd (omega arith)
All-get_elem? P (x ∷ xs) zero h a = (x, refl, a.0)
All-get_elem? P (x ∷ xs) (suc n) h a = All-get_elem? P xs n (omega arith) a.1

bump_at-le : (n : ℕ) (cs : List ℕ) → sum_of (bump_at n cs) ≤ sum_of cs + 1
unfolding bump_at sum_of
bump_at-le n [] = omega arith
bump_at-le zero (c ∷ cs) = omega arith
bump_at-le (suc n) (c ∷ cs) = omega (arith, bump_at-le n cs)

layers_loop_step :
    (n l : ℕ) (r t : List (List ℤ)) (flips : List ℕ) (d : Bool) (x y : List ℤ) (e f : ℤ)
    → get_elem? r l ≡ some x
    → get_elem? t l ≡ some y
    → get_elem? x 0 ≡ some e
    → get_elem? y 0 ≡ some f
    → layers_loop (suc n) l r t flips d
      ≡ layers_loop n
          (l + 1)
          r
          t
          (if eq_ℤ e f then flips else bump_at l flips)
          (d || not (same_set x y))
unfolding layers_loop
layers_loop_step n l r t flips d x y e f ex ey ee ef = ground arith

layers_loop_lem :
    (n l : ℕ) (r t : List (List ℤ)) (flips : List ℕ) (d : Bool)
    → l + n ≤ length r
    → l + n ≤ length t
    → All IsRouted r
    → All IsRouted t
    → (a : List ℕ × Bool) × (layers_loop n l r t flips d ≡ ok a) × (sum_of a.0 ≤ sum_of flips + n)
unfolding layers_loop
layers_loop_lem zero l r t flips d h g p q = ((flips, d), refl, omega arith)
layers_loop_lem (suc n) l r t flips d h g p q =
    go (λ flips' d'. layers_loop_lem n (l + 1) r t flips' d' (omega arith) (omega arith) p q)
      (All-get_elem? IsRouted r l (omega arith) p) (All-get_elem? IsRouted t l (omega arith) q)
  where
    go :
        ((flips' : List ℕ) (d' : Bool)
          → (a : List ℕ × Bool) × (layers_loop n (l + 1) r t flips' d' ≡ ok a)
            × (sum_of a.0 ≤ sum_of flips' + n))
        → (x : List ℤ) × (get_elem? r l ≡ some x) × IsRouted x
        → (y : List ℤ) × (get_elem? t l ≡ some y) × IsRouted y
        → (a : List ℕ × Bool) × (layers_loop (suc n) l r t flips d ≡ ok a)
          × (sum_of a.0 ≤ sum_of flips + suc n)
    go later (x, ex, (e, ee)) (y, ey, (f, ef)) =
        let flips' = if eq_ℤ e f then flips else bump_at l flips in
        let (a, ea, le) = later flips' (d || not (same_set x y)) in
        (
          a,
          layers_loop_step n l r t flips d x y e f ex ey ee ef ∙ ea,
          ground (arith, le, bump_at-le l flips),
        )

tokens_loop_step :
    (n t layers : ℕ) (r s : List (List (List ℤ))) (flips : List ℕ) (count : ℕ) (x y : List (List ℤ))
    (a : List ℕ × Bool)
    → get_elem? r t ≡ some x
    → get_elem? s t ≡ some y
    → layers_loop layers 0 x y flips false ≡ ok a
    → tokens_loop (suc n) t layers r s flips count
      ≡ tokens_loop n (t + 1) layers r s a.0 (if a.1 then count + 1 else count)
unfolding tokens_loop
tokens_loop_step n t layers r s flips count x y a ex ey ea = ground arith

-- What the loops count from `flips` and `count` on, over `n` tokens of `layers` layers.
abbrev pub Counted : ℕ → ℕ → List ℕ → ℕ → Result (List ℕ × ℕ) → Type 0
Counted n layers flips count answer =
    (a : List ℕ × ℕ) × (answer ≡ ok a)
    × (sum_of a.0 ≤ sum_of flips + n * layers)
    × (a.1 ≤ count + n)

pub tokens_loop_lem :
    (n t layers : ℕ) (r s : List (List (List ℤ))) (flips : List ℕ) (count : ℕ)
    → t + n ≤ length r
    → t + n ≤ length s
    → All (IsToken layers) r
    → All (IsToken layers) s
    → Counted n layers flips count (tokens_loop n t layers r s flips count)
unfolding tokens_loop
tokens_loop_lem zero t layers r s flips count h g p q =
    ((flips, count), refl, omega arith, omega arith)
tokens_loop_lem (suc n) t layers r s flips count h g p q =
    go
      (λ flips' count'.
        tokens_loop_lem n (t + 1) layers r s flips' count' (omega arith) (omega arith) p q)
      (All-get_elem? (IsToken layers) r t (omega arith) p)
      (All-get_elem? (IsToken layers) s t (omega arith) q)
  where
    go :
        ((flips' : List ℕ) (count' : ℕ)
          → Counted n layers flips' count' (tokens_loop n (t + 1) layers r s flips' count'))
        → (x : List (List ℤ)) × (get_elem? r t ≡ some x) × IsToken layers x
        → (y : List (List ℤ)) × (get_elem? s t ≡ some y) × IsToken layers y
        → Counted (suc n) layers flips count (tokens_loop (suc n) t layers r s flips count)
    go later (x, ex, (lx, px)) (y, ey, (ly, py)) =
        let (a, ea, la) =
          layers_loop_lem layers 0 x y flips false (omega arith) (omega arith) px py in
        let (b, eb, lb, cb) = later a.0 (if a.1 then count + 1 else count) in
        (
          b,
          tokens_loop_step n t layers r s flips count x y a ex ey ea ∙ eb,
          grind (arith, la, lb),
          ground (arith, cb),
        )
