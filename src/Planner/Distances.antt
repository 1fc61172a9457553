-- ===== src/Planner/Distances.antt =====
-- Non-negative distances with an infinity: an arithmetic for the tests of the planner, which has what
-- the search relies on.
use warehouse_digital_twin.Base.{
  ℕ, zero, suc, ◌+◌, ◌-◌, ◌*◌, ◌/◌, ◌≤◌, ◌<◌, ◌≡◌, refl, Bool, true, false, none, arith, ltb, leb,
  ltb→lt, ◌==◌,
}
use warehouse_digital_twin.Base.Int.{ℤ, pos, pos_part}
use warehouse_digital_twin.Base.Float.{Float}
use warehouse_digital_twin.Planner.{Move, straight, diagonal}
use warehouse_digital_twin.Planner.Search.{cost}
use warehouse_digital_twin.Planner.Search.Ways.{Costs}
use mathlib.Core.WellFounded.{Acc}

-- A number of tenths, or infinity.
pub data Distance : Type 0 where
  tenths : ℕ → Distance
  infinite : Distance

abbrev pub lift : (ℕ → ℕ → ℕ) → Distance → Distance → Distance
lift f (tenths a) (tenths b) = tenths (f a b)
lift f _ _ = infinite

abbrev pub less : Distance → Distance → Bool
less (tenths a) (tenths b) = ltb a b
less (tenths a) infinite = true
less infinite d = false

abbrev pub at_most : Distance → Distance → Bool
at_most (tenths a) (tenths b) = leb a b
at_most d infinite = true
at_most infinite (tenths b) = false

abbrev pub equal : Distance → Distance → Bool
equal (tenths a) (tenths b) = a == b
equal infinite infinite = true
equal _ _ = false

abbrev pub whole : Distance → ℤ
whole (tenths a) = pos (a / 10)
whole infinite = pos 0

abbrev pub decimal : ℕ → ℕ → Distance
decimal n zero = tenths (n * 10)
decimal n (suc zero) = tenths n
decimal n (suc (suc k)) = tenths 0

-- The square root of two is 1.4, and no other is used.
abbrev pub distances : Float
distances = record {
  F = Distance;
  lit = decimal;
  of_ℤ = λ z. tenths (pos_part z * 10);
  ltb_f = less;
  leb_f = at_most;
  eqb_f = equal;
  add = lift ◌+◌;
  sub = lift ◌-◌;
  mul = lift (λ a b. a * b / 10);
  div = lift (λ a b. a * 10 / b);
  neg = λ a. a;
  hypot = lift ◌+◌;
  sqrt = λ a. tenths 14;
  inf = infinite;
  trunc = whole;
  floor = whole;
  ceil = whole;
  round3 = λ a. a;
  float_of_str = λ s. none;
  int_of_str = λ s. none;
}

abbrev Le : Distance → Distance → Type 0
Le (tenths a) (tenths b) = a ≤ b
Le d infinite = Unit
Le infinite (tenths b) = ⊥

Le_refl : (a : Distance) → Le a a
Le_refl (tenths a) = omega arith
Le_refl infinite = tt

Le_trans : (a b c : Distance) → Le a b → Le b c → Le a c
Le_trans (tenths a) (tenths b) (tenths c) h k = omega arith
Le_trans (tenths a) infinite (tenths c) h k = absurd k
Le_trans infinite (tenths b) (tenths c) h k = absurd h
Le_trans infinite infinite (tenths c) h k = absurd k
Le_trans (tenths a) b infinite h k = tt
Le_trans infinite b infinite h k = tt

less_trans : (a b c : Distance) → less a b ≡ true → less b c ≡ true → less a c ≡ true
less_trans a b c h k = ground arith

less_le : (a b : Distance) → less a b ≡ true → Le a b
less_le (tenths a) (tenths b) h = ground arith
less_le (tenths a) infinite h = tt
less_le infinite b h = absurd (cc h)

le_not_less : (a b : Distance) → Le a b → less b a ≡ false
le_not_less (tenths a) (tenths b) h = ground arith
le_not_less infinite (tenths b) h = absurd h
le_not_less (tenths a) infinite h = refl
le_not_less infinite infinite h = refl

le_add : (a : Distance) (d : Move) → Le a (lift ◌+◌ a (cost distances d))
unfolding cost
le_add (tenths a) (straight dx dy) = omega arith
le_add (tenths a) (diagonal dx dy) = omega arith
le_add infinite (straight dx dy) = tt
le_add infinite (diagonal dx dy) = tt

add_less_infinite :
    (a : Distance) (d : Move)
    → less a infinite ≡ true
    → less (lift ◌+◌ a (cost distances d)) infinite ≡ true
unfolding cost
add_less_infinite (tenths a) (straight dx dy) h = refl
add_less_infinite (tenths a) (diagonal dx dy) h = refl
add_less_infinite infinite d h = absurd (cc h)

abbrev Shorter : Distance → Distance → Type 0
Shorter x y = Le (tenths 0) x × (less x y ≡ true)

below_tenths :
    (a : ℕ)
    → ((b : ℕ) → b < a → Acc Shorter (tenths b))
    → (d : Distance) → Shorter d (tenths a)
    → Acc Shorter d
below_tenths a f (tenths b) h = f b (ltb→lt b a h.1)
below_tenths a f infinite h = absurd (cc h.1)

Acc-tenths : (n a : ℕ) → a < n → Acc Shorter (tenths a)
Acc-tenths zero a h = absurd (omega (arith, h))
Acc-tenths (suc n) a h =
    Acc.intro (tenths a) (below_tenths a (λ b k. Acc-tenths n b (omega (arith, h, k))))

below_infinite : (d : Distance) → Shorter d infinite → Acc Shorter d
below_infinite (tenths b) h = Acc-tenths (suc b) b (omega arith)
below_infinite infinite h = absurd (cc h.1)

falling_ends : (a : Distance) → Le (tenths 0) a → Acc Shorter a
falling_ends (tenths a) h = Acc-tenths (suc a) a (omega arith)
falling_ends infinite h = Acc.intro infinite (below_infinite)

pub distances-Costs : Costs distances
distances-Costs = record {
  le = Le;
  le_refl = Le_refl;
  le_trans = Le_trans;
  lt_trans = less_trans;
  lt_le = less_le;
  le_not_lt = le_not_less;
  le_add = le_add;
  add_lt_inf = add_less_infinite;
  zero_lt_inf = refl;
  falling_ends = falling_ends;
}
