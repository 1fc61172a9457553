-- ===== src/Planner.antt =====
-- The path planner, ros2_ws/src/warehouse_bringup/warehouse_bringup/planner_node.py: an occupancy
-- grid, the clearance test, and A* on the cells that pass it.
pub mod Search
pub mod Clearance
pub mod Node
mod Distances
mod Samples
use warehouse_digital_twin.Base.{
  ℕ, zero, suc, ◌+◌, ◌-◌, ◌*◌, ◌≡◌, ◌≢◌, ite, if_neg, String, Bool, true, false, not, ◌&&◌, ◌||◌,
  Option, none, some, List, [], ◌∷◌, ◌++◌, map, if◌then◌else◌, get_elem?, any, ltb,
}
use warehouse_digital_twin.Base.Int.{ℤ, pos, negsuc, ◌+ℤ◌, ◌-ℤ◌, ◌*ℤ◌, ltb_ℤ, leb_ℤ, pos_part}
use warehouse_digital_twin.Base.Dict.{Dict, get, set}
use warehouse_digital_twin.Base.Float.{Float}
use warehouse_digital_twin.Base.Sort.{take_max}
use warehouse_digital_twin.Fleet.State.{Point, Cell, cell_dec}

-- `/map`: the data of `OccupancyGrid`, whose length is width · height.
pub record GridMap (F : Type 0) : Type 0 where
  pub cells : List ℤ
  pub width : ℕ
  pub height : ℕ
  pub resolution : F
  pub origin : Point F

-- Moves to the eight neighbours: those along an axis cost 1.0, the others `math.sqrt(2)`.
pub data Move : Type 0 where
  straight diagonal : (dx dy : ℤ) → Move

abbrev pub moves : List Move
moves =
    straight (pos 0) (pos 1)
    ∷ straight (pos 1) (pos 0)
    ∷ straight (pos 0) (negsuc 0)
    ∷ straight (negsuc 0) (pos 0)
    ∷ diagonal (pos 1) (pos 1)
    ∷ diagonal (pos 1) (negsuc 0)
    ∷ diagonal (negsuc 0) (pos 1)
    ∷ diagonal (negsuc 0) (negsuc 0)
    ∷ []

unfoldable pub moved : Cell → Move → Cell
moved (i, j) (straight dx dy) = (i +ℤ dx, j +ℤ dy)
moved (i, j) (diagonal dx dy) = (i +ℤ dx, j +ℤ dy)

-- `range(start, start + n)`.
abbrev pub range_from : ℤ → ℕ → List ℤ
range_from a zero = []
range_from a (suc n) = a ∷ range_from (a +ℤ pos 1) n

-- `range(-r, r + 1)`.
unfoldable pub offsets : ℤ → List ℤ
unfolding range_from ◌-ℤ◌
offsets (pos r) = range_from (pos 0 -ℤ pos r) (r + r + 1)
offsets (negsuc r) = []

pub row : Cell → ℤ → List ℤ → List Cell
row (i, j) di [] = []
row (i, j) di (dj ∷ djs) = (i +ℤ di, j +ℤ dj) ∷ row (i, j) di djs

pub rows : Cell → List ℤ → List ℤ → List Cell
unfolding row
rows c [] djs = []
rows c (di ∷ dis) djs = row c di djs ++ rows c dis djs

-- All (i + di, j + dj) for offsets di and dj up to `r`, row by row.
unfoldable pub square : ℤ → Cell → List Cell
unfolding offsets rows
square r c = rows c (offsets r) (offsets r)

abbrev pub is_cell : Cell → Cell → Bool
is_cell a b = ite (cell_dec a b) true false

pub is_cell-ne : (a b : Cell) → (a ≢ b) → is_cell a b ≡ false
is_cell-ne a b n = if_neg (cell_dec a b) n true false

pub is_cell-eq : (a b : Cell) → is_cell a b ≡ true → a ≡ b
is_cell-eq a b h = elim (cell_dec a b) [ yes e ↦ e | no n ↦ absurd (cc (is_cell-ne a b n, h)) ]

-- The first cell that passes a test.
unfoldable pub first : (Cell → Bool) → List Cell → Option Cell
first p [] = none
first p (c ∷ cs) = if p c then some c else first p cs

module _ {F : Type 0} (m : GridMap F) where
  open m use {cells, width, height}

  -- `_in_bounds`.
  unfoldable pub in_bounds : Cell → Bool
  in_bounds (i, j) =
      leb_ℤ (pos 0) i && ltb_ℤ i (pos width) && leb_ℤ (pos 0) j && ltb_ℤ j (pos height)

  -- `val >= 65 or val == -1`.
  unfoldable pub blocks : ℤ → Bool
  blocks (pos n) = not (ltb n 65)
  blocks (negsuc zero) = true
  blocks (negsuc (suc n)) = false

  -- `_is_obstacle`. A cell in bounds that the data is too short for, at which the source raises, is
  -- taken for an obstacle.
  unfoldable pub is_obstacle : Cell → Bool
  unfolding in_bounds blocks
  is_obstacle (i, j) =
      if in_bounds (i, j)
      then elim (get_elem? cells (pos_part j * width + pos_part i)) [
        | none ↦ true
        | some v ↦ blocks v
      ]
      else true

  -- `_near_obstacle`, for the inflation radius `r`.
  unfoldable pub near_obstacle : ℤ → Cell → Bool
  unfolding is_obstacle square
  near_obstacle r c = any is_obstacle (square r c)

  -- Where the search may go: the negation of the three tests.
  unfoldable pub drivable : ℤ → Cell → Bool
  unfolding near_obstacle
  drivable r c = in_bounds c && not (is_obstacle c) && not (near_obstacle r c)

  -- The rings of `_nearest_free`, of radius `r`, `r + 1`, …, `left` in all. No offset of a ring is
  -- longer than 2 · r, so the source's second test to skip it never applies.
  unfoldable pub nearest_in_rings : ℤ → Cell → (r left : ℕ) → Option Cell
  unfolding drivable first
  nearest_in_rings inflation c r zero = none
  nearest_in_rings inflation c r (suc left) =
      let later = nearest_in_rings inflation c (suc r) left in
      elim (first (λ n. not (is_cell c n) && drivable inflation n) (square (pos r) c)) [
        | none ↦ later
        | some n ↦ some n
      ]

  -- `_nearest_free`: for r in range(1, max(width, height)).
  unfoldable pub nearest_free_cell : ℤ → Cell → Option Cell
  unfolding nearest_in_rings
  nearest_free_cell inflation c =
      nearest_in_rings inflation c 1 ((if ltb width height then height else width) - 1)

  -- A start or goal that is not drivable is moved to a clear cell.
  unfoldable pub snapped : ℤ → Cell → Option Cell
  unfolding nearest_free_cell
  snapped inflation c = if drivable inflation c then some c else nearest_free_cell inflation c
