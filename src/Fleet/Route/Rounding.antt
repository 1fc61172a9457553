-- ===== src/Fleet/Route/Rounding.antt =====
-- What route planning relies on of floating point arithmetic: operations that round correctly keep
-- the order of their exact results. This holds of finite numbers whose results are finite, which is
-- what coordinates inside a warehouse are.
use warehouse_digital_twin.Base.{
  ℕ, ◌≤◌, ◌≡◌, sym, ◌⊎◌, inl, inr, true, false, arith, Bool-cases, subst, ap,
}
use warehouse_digital_twin.Base.Int.{ℤ, pos, ◌≤ℤ◌, eq_of_parts}
use warehouse_digital_twin.Base.Float.{Float}
use warehouse_digital_twin.Fleet.State.{Point}
use warehouse_digital_twin.Fleet.Route.{cell_width, sample, route_cells_ordered, partition_segments}
use warehouse_digital_twin.Fleet.Traffic.Cells.{IsDisjoint}
use warehouse_digital_twin.Fleet.Route.Disjoint.{
  IsConvex, partition_segments-IsDisjoint, route-IsNodup,
}

pub record Rounding (fl : Float) : Type 1 where
  pub le : fl.F → fl.F → Type 0
  pub fraction_mono :
      (i k n : ℕ)
      → i ≤ k
      → le (fl.div (fl.of_ℤ (pos i)) (fl.of_ℤ (pos n))) (fl.div (fl.of_ℤ (pos k)) (fl.of_ℤ (pos n)))
  -- Multiplication by a number keeps the order or reverses it.
  pub mul_mono :
      (x : fl.F)
      → ((a b : fl.F) → le a b → le (fl.mul x a) (fl.mul x b))
        ⊎ ((a b : fl.F) → le a b → le (fl.mul x b) (fl.mul x a))
  pub add_mono : (x a b : fl.F) → le a b → le (fl.add x a) (fl.add x b)
  pub div_mono :
      (w a b : fl.F) → fl.ltb_f (fl.lit 0 0) w ≡ true → le a b → le (fl.div a w) (fl.div b w)
  pub floor_mono : (a b : fl.F) → le a b → fl.floor a ≤ℤ fl.floor b
  pub milli_pos : fl.ltb_f (fl.lit 0 0) (fl.lit 1 3) ≡ true
  pub pos_of_ge_milli :
      (a : fl.F) → fl.ltb_f a (fl.lit 1 3) ≡ false → fl.ltb_f (fl.lit 0 0) a ≡ true

abbrev IsMonotone : (ℕ → ℤ) → Type 0
IsMonotone g = ((i k : ℕ) → i ≤ k → g i ≤ℤ g k) ⊎ ((i k : ℕ) → i ≤ k → g k ≤ℤ g i)

IsMonotone-IsConvex : (g : ℕ → ℤ) → IsMonotone g → IsConvex g
IsMonotone-IsConvex g (inl up) i j k p q e =
    eq_of_parts (g i) (g j) (omega (arith, up i j p, subst (λ x. g j ≤ℤ x) (sym e) (up j k q)))
IsMonotone-IsConvex g (inr down) i j k p q e =
    eq_of_parts (g i) (g j) (omega (arith, down i j p, subst (λ x. x ≤ℤ g j) (sym e) (down j k q)))

module _ (fl : Float) (rounding : Rounding fl) where
  open fl use {F, lit, of_ℤ, ltb_f, add, sub, mul, div, floor}
  open rounding use {le, fraction_mono, mul_mono, add_mono, div_mono, floor_mono}

  cell_width_pos : (size : F) → ltb_f (lit 0 0) (cell_width fl size) ≡ true
  unfolding cell_width
  cell_width_pos size = elim (Bool-cases (ltb_f size (lit 1 3))) [
    | inl small ↦ rw small rounding.milli_pos
    | inr large ↦ rw large (rounding.pos_of_ge_milli size large)
  ]

  -- One coordinate of the samples of a route.
  axis : (w x e : F) (n i : ℕ) → ℤ
  axis w x e n i = floor (div (add x (mul e (div (of_ℤ (pos i)) (of_ℤ (pos n))))) w)

  axis-IsMonotone : (w x e : F) (n : ℕ) → ltb_f (lit 0 0) w ≡ true → IsMonotone (axis w x e n)
  unfolding axis
  axis-IsMonotone w x e n positive = elim (mul_mono e) [
    | inl keeps ↦ inl λ i k h.
        floor_mono _ _
          (div_mono w _ _ positive (add_mono x _ _ (keeps _ _ (fraction_mono i k n h))))
    | inr turns ↦ inr λ i k h.
        floor_mono _ _
          (div_mono w _ _ positive (add_mono x _ _ (turns _ _ (fraction_mono i k n h))))
  ]

  sample-IsConvex :
      (w : F) (p d : Point F) (n : ℕ) → ltb_f (lit 0 0) w ≡ true → IsConvex (sample fl w p d n)
  unfolding sample axis
  sample-IsConvex w (px, py) (dx, dy) n positive i j k p q e =
      let cx =
        IsMonotone-IsConvex (axis w px (sub dx px) n) (axis-IsMonotone w px (sub dx px) n positive)
          i j k p q (ap (λ c. c.0) e) in
      let cy =
        IsMonotone-IsConvex (axis w py (sub dy py) n) (axis-IsMonotone w py (sub dy py) n positive)
          i j k p q (ap (λ c. c.1) e) in
      λ t. (cx t, cy t)

  -- Two segments of a route share no cell, whatever the coordinates and sizes are, provided that
  -- floating point operations keep order (`Rounding`).
  pub routes_disjoint :
      (cell_size : F) (size : ℕ) (p d : Point F)
      → IsDisjoint (partition_segments size (route_cells_ordered fl cell_size p d))
  routes_disjoint cell_size size p d = partition_segments-IsDisjoint size _ (
      route-IsNodup fl cell_size p d λ w n e.
        sample-IsConvex w p d n
          (subst (λ v. ltb_f (lit 0 0) v ≡ true) (sym e) (cell_width_pos cell_size)))
