-- ===== src/Prelude/Results.antt =====
-- A call that may raise: an exception is its class, the texts of messages are left out.
use mathlib.Core.Bool.{Bool, true, false}
use mathlib.Core.Path.{◌≡◌, refl}
use mathlib.Core.Logic.{◌⊎◌, inl, inr}
use mathlib.Core.List.{List, [], ◌∷◌}

pub data Error : Type 0 where
  -- pydantic's ValidationError, ValueError, RuntimeError, KeyError, FileNotFoundError
  validation_error value_error runtime_error key_error file_not_found : Error
  -- ZeroDivisionError, OverflowError, IndexError
  zero_division overflow index_error : Error
  -- livestore.py
  duplicate_group unknown_group : Error
  -- worker_broker.py
  worker_not_registered lease_conflict : Error
  -- pool_reload.py
  quorum_violation : Error

pub data Result {ℓ} (A : Type ℓ) : Type ℓ where
  ok : A → Result A
  raise : Error → Result A

infixl 5 ◌>>=◌ ◌>>◌
abbrev pub ◌>>=◌ {ℓ κ} : {A : Type ℓ} {B : Type κ} → Result A → (A → Result B) → Result B
ok a >>= f = f a
raise e >>= f = raise e

abbrev pub ◌>>◌ {ℓ} : {B : Type ℓ} → Result (Unit {0}) → Result B → Result B
m >> k = m >>= λ _. k

-- `if test: raise e`
abbrev pub raise_if : Bool → Error → Result (Unit {0})
raise_if true e = raise e
raise_if false e = ok tt

-- `[f(x) for x in xs]`, where `f` may raise.
abbrev pub map_results {ℓ κ} : {A : Type ℓ} {B : Type κ} → (A → Result B) → List A → Result (List B)
map_results f [] = ok []
map_results f (x ∷ xs) = do y ← f x; ys ← map_results f xs; ok (y ∷ ys)

-- To split on an answer and keep the equation.
pub Result-cases {ℓ} :
    {A : Type ℓ} (r : Result A) → ((a : A) × (r ≡ ok a)) ⊎ ((e : Error) × (r ≡ raise e))
Result-cases (ok a) = inl (a, refl)
Result-cases (raise e) = inr (e, refl)
