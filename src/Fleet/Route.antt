-- ===== src/Fleet/Route.antt =====
-- Routes on the traffic grid: `_route_cells_ordered` and `_partition_segments`.
pub mod Disjoint
pub mod Rounding
use warehouse_digital_twin.Base.{
  ℕ, zero, suc, ◌+◌, ◌-◌, ◌≡◌, String, Bool, true, false, not, ite, Option, none, some, List, [],
  ◌∷◌, ◌++◌, if◌then◌else◌,
}
use warehouse_digital_twin.Base.Int.{ℤ, pos, negsuc}
use warehouse_digital_twin.Base.Float.{Float, max_f}
use warehouse_digital_twin.Fleet.State.{Point, Cell, cell_dec}

-- `max(1, n)` for the number of steps.
steps_of : ℤ → ℕ
steps_of (pos zero) = 1
steps_of (pos (suc n)) = suc n
steps_of (negsuc n) = 1

-- Appends a cell unless it is the one before it.
cons_new : Option Cell → Cell → List Cell → List Cell
cons_new none c cs = c ∷ cs
cons_new (some last) c cs = ite (cell_dec c last) cs (c ∷ cs)

module _ (fl : Float) where
  open fl use {F, lit, of_ℤ, add, sub, mul, div, hypot, floor, ceil}

  -- `max(self._cell_size, 1e-3)`.
  unfoldable pub cell_width : F → F
  cell_width cell_size = max_f fl cell_size (lit 1 3)

  -- The cell of the point `i / steps` of the way from `p` to `d`.
  unfoldable pub sample : (cell : F) (p d : Point F) (steps i : ℕ) → Cell
  sample cell (px, py) (dx, dy) steps i =
      let t = div (of_ℤ (pos i)) (of_ℤ (pos steps)) in
      (floor (div (add px (mul (sub dx px) t)) cell), floor (div (add py (mul (sub dy py) t)) cell))

  -- The loop of `_route_cells_ordered` from step `i` on, with `left` steps to go; `last` is the cell
  -- that was appended last.
  walk : (cell : F) (p d : Point F) (steps : ℕ) (last : Option Cell) (i left : ℕ) → List Cell
  unfolding cons_new sample
  walk cell p d steps last i zero = []
  walk cell p d steps last i (suc left) =
      let c = sample cell p d steps i in cons_new last c (walk cell p d steps (some c) (suc i) left)

  unfoldable pub route_cells_ordered : (cell_size : F) (pickup dropoff : Point F) → List Cell
  unfolding walk steps_of cell_width
  route_cells_ordered cell_size (px, py) (dx, dy) =
      let cell = cell_width cell_size in
      let dist = hypot (sub dx px) (sub dy py) in
      let steps = steps_of (ceil (div dist (div cell (lit 2 0)))) in
      walk cell (px, py) (dx, dy) steps none 0 (suc steps)

-- The slices `route[i : i + size]`: `room` is what the slice in hand still takes.
slices : {A : Type 0} (size room : ℕ) (slice : List A) → List A → List (List A)
slices size room slice [] = slice ∷ []
slices size zero slice (c ∷ cs) = slice ∷ slices size (size - 1) (c ∷ []) cs
slices size (suc room) slice (c ∷ cs) = slices size room (slice ++ c ∷ []) cs

-- `_partition_segments`, for a segment size of at least 1.
unfoldable pub partition_segments : {A : Type 0} → ℕ → List A → List (List A)
unfolding slices
partition_segments size [] = []
partition_segments size (c ∷ cs) = slices size (size - 1) (c ∷ []) cs
