-- ===== src/Base/Fixed.antt =====
-- A concrete arithmetic for tests and witnesses: numbers in thousandths, over the integers.
use Prim.Native.Nat.{ℕ, zero, suc, ◌+◌, ◌*◌, ◌/◌, ◌^◌, ◌≤◌}
use Prim.Native.String.{String}
use mathlib.Core.Path.{◌≡◌, refl}
use mathlib.Core.Logic.{◌⊎◌, inl, inr, ite}
use mathlib.Core.Bool.{◌&&◌}
use mathlib.Core.Option.{Option, none, some}
use native.Mathlib.Omega.{arith}
use package.warehouse_digital_twin.Base.Tests.{ltb, ◌==◌, if◌then◌else◌}
use package.warehouse_digital_twin.Base.Text.{str_dec}
use package.warehouse_digital_twin.Base.Int.{
  ℤ, pos, negsuc, ◌+ℤ◌, ◌-ℤ◌, ◌≤ℤ◌, ltb_ℤ, leb_ℤ, pos_part, neg_part, int_laws,
}
use package.warehouse_digital_twin.Base.Float.{Float}

abbrev pub negate : ℕ → ℤ
negate zero = pos zero
negate (suc n) = negsuc n

abbrev neg_ℤ : ℤ → ℤ
neg_ℤ (pos n) = negate n
neg_ℤ (negsuc n) = pos (suc n)

-- x * n.
abbrev pub scale : ℤ → ℕ → ℤ
scale (pos a) n = pos (a * n)
scale (negsuc a) n = negate (suc a * n)

-- x / n, rounded down.
abbrev pub div_ℕ : ℤ → ℕ → ℤ
div_ℕ (pos a) n = pos (a / n)
div_ℕ (negsuc a) n = negsuc (a / n)

-- x * y / 1000, and 1000 * x / y for a positive y.
abbrev mul_fixed : ℤ → ℤ → ℤ
mul_fixed (pos a) y = div_ℕ (scale y a) 1000
mul_fixed (negsuc a) y = div_ℕ (neg_ℤ (scale y (suc a))) 1000

abbrev div_fixed : ℤ → ℤ → ℤ
div_fixed x (pos zero) = pos 0
div_fixed x (pos (suc n)) = div_ℕ (scale x 1000) (suc n)
div_fixed x (negsuc n) = pos 0

abbrev abs : ℤ → ℕ
abs (pos n) = n
abs (negsuc n) = suc n

abbrev trunc_fixed : ℤ → ℤ
trunc_fixed (pos n) = pos (n / 1000)
trunc_fixed (negsuc n) = negate (suc n / 1000)

abbrev ceil_fixed : ℤ → ℤ
ceil_fixed (pos n) = pos ((n + 999) / 1000)
ceil_fixed (negsuc n) = negate (suc n / 1000)

-- A few numerals, which are all that the tests parse.
abbrev numeral : String → Option ℕ
numeral s = ite (str_dec s "0") (some 0) (
    ite (str_dec s "1") (some 1) (
      ite (str_dec s "2") (some 2)
        (ite (str_dec s "4") (some 4) (ite (str_dec s "100") (some 100) none))))

-- `hypot` is the larger side plus half of the smaller one, which is close enough for a route. The
-- square root is not used, and infinity is a number larger than those of the tests.
abbrev pub fixed : Float
fixed = record {
  F = ℤ;
  lit = λ n k. pos (n * 1000 / 10 ^ k);
  of_ℤ = λ n. scale n 1000;
  ltb_f = ltb_ℤ;
  leb_f = leb_ℤ;
  eqb_f = λ a b. pos_part a == pos_part b && neg_part a == neg_part b;
  add = ◌+ℤ◌;
  sub = ◌-ℤ◌;
  mul = mul_fixed;
  div = div_fixed;
  neg = neg_ℤ;
  hypot = λ a b. if ltb (abs a) (abs b) then pos (abs b + abs a / 2) else pos (abs a + abs b / 2);
  sqrt = λ a. a;
  inf = pos (10 ^ 18);
  trunc = trunc_fixed;
  floor = λ a. div_ℕ a 1000;
  ceil = ceil_fixed;
  round3 = λ a. a;
  float_of_str = λ s. elim (numeral s) [ none ↦ none | some n ↦ some (pos (n * 1000)) ];
  int_of_str = λ s. elim (numeral s) [ none ↦ none | some n ↦ some (pos n) ];
}

negate_parts : (k : ℕ) → (pos_part (negate k) ≡ 0) × (neg_part (negate k) ≡ k)
negate_parts zero = (refl, refl)
negate_parts (suc k) = (refl, refl)

div_mono : (a b n : ℕ) → a ≤ b → a / n ≤ b / n
div_mono a b n h = grind arith

div_ℕ_mono : (a b : ℤ) (n : ℕ) → a ≤ℤ b → div_ℕ a n ≤ℤ div_ℕ b n
div_ℕ_mono (pos a) (pos b) n h = omega (arith, div_mono a b n (omega arith))
div_ℕ_mono (pos a) (negsuc b) n h = absurd (omega arith)
div_ℕ_mono (negsuc a) (pos b) n h = omega arith
div_ℕ_mono (negsuc a) (negsuc b) n h = omega (arith, div_mono b a n (omega arith))

mul_mono : (a b n : ℕ) → a ≤ b → a * n ≤ b * n
mul_mono a b n h = grind arith

scale_mono : (a b : ℤ) (n : ℕ) → a ≤ℤ b → scale a n ≤ℤ scale b n
scale_mono (pos a) (pos b) n h = omega (arith, mul_mono a b n (omega arith))
scale_mono (pos a) (negsuc b) n h = absurd (omega arith)
scale_mono (negsuc a) (pos b) n h = let (p, q) = negate_parts (suc a * n) in omega arith
scale_mono (negsuc a) (negsuc b) n h =
    let (p, q) = negate_parts (suc a * n) in
    let (r, t) = negate_parts (suc b * n) in
    let m = mul_mono (suc b) (suc a) n (omega arith) in omega arith

neg_ℤ_anti : (a b : ℤ) → a ≤ℤ b → neg_ℤ b ≤ℤ neg_ℤ a
neg_ℤ_anti a b h = ground arith

pub mul_fixed_mono :
    (x : ℤ)
    → ((a b : ℤ) → a ≤ℤ b → mul_fixed x a ≤ℤ mul_fixed x b)
      ⊎ ((a b : ℤ) → a ≤ℤ b → mul_fixed x b ≤ℤ mul_fixed x a)
mul_fixed_mono (pos n) = inl λ a b h. div_ℕ_mono (scale a n) (scale b n) 1000 (scale_mono a b n h)
mul_fixed_mono (negsuc n) = inr λ a b h.
    div_ℕ_mono (neg_ℤ (scale b (suc n))) (neg_ℤ (scale a (suc n))) 1000
      (neg_ℤ_anti (scale a (suc n)) (scale b (suc n)) (scale_mono a b (suc n) h))

pub div_fixed_mono : (w a b : ℤ) → a ≤ℤ b → div_fixed a w ≤ℤ div_fixed b w
div_fixed_mono (pos zero) a b h = omega arith
div_fixed_mono (pos (suc n)) a b h =
    div_ℕ_mono (scale a 1000) (scale b 1000) (suc n) (scale_mono a b 1000 h)
div_fixed_mono (negsuc n) a b h = omega arith

pub floor_fixed_mono : (a b : ℤ) → a ≤ℤ b → div_ℕ a 1000 ≤ℤ div_ℕ b 1000
floor_fixed_mono a b h = div_ℕ_mono a b 1000 h

pub fraction_fixed_mono :
    (i k n : ℕ)
    → i ≤ k
    → div_fixed (scale (pos i) 1000) (scale (pos n) 1000)
      ≤ℤ div_fixed (scale (pos k) 1000) (scale (pos n) 1000)
fraction_fixed_mono i k n h =
    div_fixed_mono (scale (pos n) 1000) (scale (pos i) 1000) (scale (pos k) 1000) (omega arith)

pub add_fixed_mono : (x a b : ℤ) → a ≤ℤ b → x +ℤ a ≤ℤ x +ℤ b
add_fixed_mono x a b h = omega int_laws
