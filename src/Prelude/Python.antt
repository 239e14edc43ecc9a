-- ===== src/Prelude/Python.antt =====
-- What the program takes from Python, numpy and pydantic, as parameters.
use Prim.Native.Nat.{ℕ}
use Prim.Native.String.{String}
use mathlib.Core.Bool.{Bool}
use mathlib.Core.Option.{Option}
use mathlib.Core.List.{List}
use streams_rollout_market.Prelude.Int.{ℤ}
use streams_rollout_market.Prelude.Results.{Result}

-- A `datetime` is the number of microseconds since a fixed origin.
abbrev pub Time : Type 0
Time = ℕ

-- A `float` is its 64-bit pattern; what it computes is the interface below.
abbrev pub Float : Type 0
Float = ℕ

-- Texts: `str.strip`, `repr` in an f-string, `datetime.isoformat`, `str` of an int,
-- and `:.1f` of the seconds in a time span.
pub record Texts : Type 0 where
  pub strip : String → String
  pub repr : String → String
  pub repr_opt : Option String → String
  pub isoformat : Time → String
  pub str_int : ℤ → String
  pub seconds : Time → String

-- Floats: comparisons (false at NaN), arithmetic, and the reductions of numpy and `statistics`.
pub record Floats : Type 0 where
  -- `literal m d` is the constant m / 10 ^ d.
  pub literal : ℕ → ℕ → Float
  pub of_nat : ℕ → Float
  pub lt : Float → Float → Bool
  pub le : Float → Float → Bool
  pub eq : Float → Float → Bool
  pub plus : Float → Float → Float
  pub minus : Float → Float → Float
  pub times : Float → Float → Float
  pub divide : Float → Float → Float
  pub negate : Float → Float
  pub absolute : Float → Float
  pub exponential : Float → Float
  -- `np.clip(x, lo, hi)` at one element
  pub clip : Float → Float → Float → Float
  pub total : List Float → Float
  pub mean : List Float → Float
  pub std : List Float → Float
  pub largest : List Float → Float

-- What plain Python takes from `math`, `statistics` and the built-ins on floats: `sum`, `fmean` and
-- `exp`, which may raise OverflowError, and `int(x)`.
pub record Sums : Type 0 where
  pub sum : List Float → Float
  pub fmean : List Float → Result Float
  pub exp : Float → Result Float
  pub truncate : Float → ℤ

-- The values of `dict[str, Any]`, which the program stores and never reads.
mutual
  pub data Json : Type 0 where
    null : Json
    flag : Bool → Json
    int : ℤ → Json
    float : Float → Json
    text : String → Json
    array : Items → Json
    object : Fields → Json

  pub data Items : Type 0 where
    nil : Items
    cons : Json → Items → Items

  pub data Fields : Type 0 where
    end : Fields
    field : String → Json → Fields → Fields
