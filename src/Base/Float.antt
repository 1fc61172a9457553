-- ===== src/Base/Float.antt =====
-- Python's `float` and the functions of `math` and `builtins` on it, as an interface: its arithmetic
-- comes with the interpreter and is a parameter of every model that computes with it. Where a
-- theorem relies on a documented fact about it, the theorem says so in a hypothesis.
use Prim.Native.Nat.{ℕ}
use Prim.Native.String.{String}
use mathlib.Core.Bool.{Bool}
use mathlib.Core.Option.{Option}
use package.warehouse_digital_twin.Base.Tests.{if◌then◌else◌}
use package.warehouse_digital_twin.Base.Int.{ℤ}

pub record Float : Type 1 where
  pub F : Type 0
  -- The decimal literal n · 10^-k.
  pub lit : (n k : ℕ) → F
  pub of_ℤ : ℤ → F
  pub ltb_f : F → F → Bool
  pub leb_f : F → F → Bool
  pub eqb_f : F → F → Bool
  pub add : F → F → F
  pub sub : F → F → F
  pub mul : F → F → F
  pub div : F → F → F
  pub neg : F → F
  pub hypot : F → F → F
  pub sqrt : F → F
  -- `float('inf')`.
  pub inf : F
  -- `int(x)`, `int(math.floor(x))` and `int(math.ceil(x))`.
  pub trunc : F → ℤ
  pub floor : F → ℤ
  pub ceil : F → ℤ
  -- `round(x, 3)`.
  pub round3 : F → F
  -- `float(s)` and `int(s)`; `none` is a `ValueError`.
  pub float_of_str : String → Option F
  pub int_of_str : String → Option ℤ

-- The trigonometric functions of `math`.
pub record Trig (F : Type 0) : Type 0 where
  pub sin : F → F
  pub cos : F → F
  pub atan2 : (y x : F) → F

module _ (fl : Float) where
  open fl use {F, ltb_f}

  -- Python's `max` of two arguments keeps the first unless the second is greater.
  abbrev pub max_f : F → F → F
  max_f a b = if ltb_f a b then b else a

  -- Python's `min` of two arguments keeps the first unless the second is less.
  abbrev pub min_f : F → F → F
  min_f a b = if ltb_f b a then b else a
