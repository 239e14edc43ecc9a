-- ===== src/Prelude/Tests.antt =====
-- Boolean tests on native numbers and texts, and the conditional.
use Prim.Native.Nat.{ℕ, compare, Ordering}
use Prim.Native.String.{String, ◌++◌ as append_text}
use mathlib.Core.Path.{◌≡◌, refl}
use mathlib.Core.Logic.{◌≢◌, ◌⊎◌, inl, inr}
use mathlib.Core.Bool.{Bool, true, false}
use mathlib.Core.Option.{Option, none, some}
use native.Mathlib.Omega.{arith}
use text.Mathlib.Text.{◌==◌ as text_eq}
use text.Mathlib.TextEquality.{eq_iff}

abbrev pub ltb : ℕ → ℕ → Bool
ltb a b = elim (compare a b) [ Ordering.lt ↦ true | _ ↦ false ]

abbrev pub leb : ℕ → ℕ → Bool
leb a b = elim (compare a b) [ Ordering.gt ↦ false | _ ↦ true ]

abbrev pub nat_eq : ℕ → ℕ → Bool
nat_eq a b = elim (compare a b) [ Ordering.eq ↦ true | _ ↦ false ]

infix 1 if◌then◌else◌
abbrev pub if◌then◌else◌ {ℓ} : {A : Type ℓ} → Bool → A → A → A
if true then x else y = x
if false then x else y = y

-- To split on a computed value and keep the equation.
pub Bool-cases : (b : Bool) → (b ≡ true) ⊎ (b ≡ false)
Bool-cases true = inl refl
Bool-cases false = inr refl

pub Option-cases {ℓ} : {A : Type ℓ} (o : Option A) → (o ≡ none) ⊎ ((a : A) × (o ≡ some a))
Option-cases none = inl refl
Option-cases (some a) = inr (a, refl)

pub text_ne : (s t : String) → text_eq s t ≡ false → s ≢ t
text_ne s t h e = ground (arith, eq_iff s t)

decide_text : (s t : String) (b : Bool) → text_eq s t ≡ b → Dec (s ≡ t)
decide_text s t true h = yes ((eq_iff s t).0 h)
decide_text s t false h = no (text_ne s t h)

-- The decision runs on closed texts; in proofs it stays shut and is split on.
unfoldable pub dec_text : Discrete String
unfolding decide_text
dec_text s t = decide_text s t (text_eq s t) refl

infix 50 ◌==◌ ◌!=◌
abbrev pub ◌==◌ : String → String → Bool
s == t = elim (dec_text s t) [ yes _ ↦ true | no _ ↦ false ]

abbrev pub ◌!=◌ : String → String → Bool
s != t = elim (dec_text s t) [ yes _ ↦ false | no _ ↦ true ]

-- `==` on values that may be `None`.
abbrev pub opt_eq : Option String → Option String → Bool
opt_eq none none = true
opt_eq (some s) (some t) = s == t
opt_eq _ _ = false

abbrev pub is_none {ℓ} : {A : Type ℓ} → Option A → Bool
is_none none = true
is_none (some a) = false

abbrev pub is_some {ℓ} : {A : Type ℓ} → Option A → Bool
is_some none = false
is_some (some a) = true

-- `s + t` on texts, and the parts of an f-string.
infixr 65 ◌<>◌
abbrev pub ◌<>◌ : String → String → String
s <> t = append_text s t

-- `o or d`, where what is there counts as true.
abbrev pub get_or {ℓ} : {A : Type ℓ} → Option A → A → A
get_or none d = d
get_or (some a) d = a
