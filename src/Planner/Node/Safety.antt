-- ===== src/Planner/Node/Safety.antt =====
-- Every path that `_compute_path` returns keeps its distance from obstacles.
use warehouse_digital_twin.Base.{
  ℕ, zero, suc, ◌≡◌, inl, inr, Bool, true, false, not, ◌&&◌, some, List, [], ◌∷◌, Bool-cases,
  Option-cases, In, All, All-In, and_right, subst,
}
use warehouse_digital_twin.Base.Int.{ℤ, pos}
use warehouse_digital_twin.Base.Float.{Float}
use warehouse_digital_twin.Fleet.State.{Point, Cell}
use warehouse_digital_twin.Planner.{
  GridMap, is_cell, drivable, is_obstacle, first, square, nearest_in_rings, nearest_free_cell,
  snapped,
}
use warehouse_digital_twin.Planner.Clearance.{Within, drivable-clear}
use warehouse_digital_twin.Planner.Search.{route, world_to_grid, compute_path}
use warehouse_digital_twin.Planner.Search.Ways.{Costs}
use warehouse_digital_twin.Planner.Search.Sound.{Follows, IsPath, find_path-IsPath}

cell_inj : {a b : Cell} → some a ≡ some b → a ≡ b
cell_inj h = cc h

first-eq_some : (p : Cell → Bool) (cs : List Cell) (c : Cell) → first p cs ≡ some c → p c ≡ true
unfolding first
first-eq_some p [] c h = absurd (cc h)
first-eq_some p (k ∷ cs) c h = elim (Bool-cases (p k)) [
  | inl here ↦
      let same : some k ≡ some c = rw (here, first) at h in
      subst (λ x. p x ≡ true) (cell_inj same) here
  | inr later ↦ first-eq_some p cs c (rw (later, first) at h)
]

module _ {F : Type 0} (m : GridMap F) (inflation : ℤ) where
  nearest_in_rings-drivable :
      (c : Cell) (r left : ℕ) (n : Cell)
      → nearest_in_rings m inflation c r left ≡ some n
      → drivable m inflation n ≡ true
  unfolding nearest_in_rings
  nearest_in_rings-drivable c r zero n h = absurd (cc h)
  nearest_in_rings-drivable c r (suc left) n h =
      elim (Option-cases
        (first (λ k. not (is_cell c k) && drivable m inflation k) (square (pos r) c))) [
          | inl none_here ↦
              nearest_in_rings-drivable c (suc r) left n (rw (none_here, nearest_in_rings) at h)
          | inr (k, found) ↦
              let same : some k ≡ some n = rw (found, nearest_in_rings) at h in
              subst (λ x. drivable m inflation x ≡ true) (cell_inj same)
                (and_right _ _ (first-eq_some _ (square (pos r) c) k found))
        ]

  -- A start or goal is drivable once it is snapped.
  pub snapped-drivable :
      (c n : Cell) → snapped m inflation c ≡ some n → drivable m inflation n ≡ true
  unfolding snapped nearest_free_cell
  snapped-drivable c n h = elim (Bool-cases (drivable m inflation c)) [
    | inl ok ↦
        let same : some c ≡ some n = rw (ok, snapped) at h in
        subst (λ x. drivable m inflation x ≡ true) (cell_inj same) ok
    | inr blocked ↦ nearest_in_rings-drivable c 1 _ n (rw (blocked, snapped) at h)
  ]

  Follows-drivable :
      (start goal c : Cell) (cs : List Cell)
      → Follows start goal (drivable m inflation) c cs
      → All (λ k. drivable m inflation k ≡ true) cs
  Follows-drivable start goal c [] h = tt
  Follows-drivable start goal c (d ∷ ds) (next, ok, tail) =
      (ok, Follows-drivable start goal d ds tail)

  IsPath-drivable :
      (start goal : Cell) (cells : List Cell)
      → IsPath start goal (drivable m inflation) cells
      → All (λ k. drivable m inflation k ≡ true) cells
  IsPath-drivable start goal [] h = absurd h
  IsPath-drivable start goal (c ∷ cs) (at, ok, tail) = (ok, Follows-drivable start goal c cs tail)

module _ (fl : Float) (costs : Costs fl) (m : GridMap fl.F) where
  compute_path-drivable :
      (inflation : ℤ) (from to : Point fl.F) (fuel : ℕ) (cells : List Cell)
      → compute_path fl m inflation from to fuel ≡ route cells
      → All (λ k. drivable m inflation k ≡ true) cells
  unfolding compute_path
  compute_path-drivable inflation from to fuel cells h =
      elim (Option-cases (snapped m inflation (world_to_grid fl m from))) [
        | inl no_start ↦ absurd (cc (rw (no_start, compute_path) at h))
        | inr (start, at_start) ↦
            elim (Option-cases (snapped m inflation (world_to_grid fl m to))) [
              | inl no_goal ↦ absurd (cc (rw (at_start, no_goal, compute_path) at h))
              | inr (goal, at_goal) ↦ IsPath-drivable m inflation start goal cells (
                  find_path-IsPath fl costs m inflation start goal fuel cells
                    (snapped-drivable m inflation (world_to_grid fl m from) start at_start)
                    (rw (at_start, at_goal, compute_path) at h))
            ]
      ]

  -- A cell that is within the inflation radius of a cell of a computed path is in the bounds of the
  -- map and no obstacle, also when the start or the goal was moved to the nearest clear cell, for
  -- an arithmetic with the facts of `Costs`.
  pub compute_path-clear :
      (r : ℕ) (from to : Point fl.F) (fuel : ℕ) (cells : List Cell) (c n : Cell)
      → compute_path fl m (pos r) from to fuel ≡ route cells
      → In c cells
      → Within r c n
      → is_obstacle m n ≡ false
  compute_path-clear r from to fuel cells c n h mem near =
      drivable-clear m r c n
        (All-In (λ k. drivable m (pos r) k ≡ true) c cells
          (compute_path-drivable (pos r) from to fuel cells h) mem)
        near
