-- ===== src/Planner/Samples.antt =====
-- Plans on a small map: a test, and instances of the theorems.
use warehouse_digital_twin.Base.{any, ℕ, ◌+◌, ◌≡◌, ◌≢◌, refl, inl, inr, false, List, [], ◌∷◌, arith}
use warehouse_digital_twin.Base.Int.{◌+ℤ◌, ◌-ℤ◌, ◌*ℤ◌, ℤ_dec, pos, negsuc}
use warehouse_digital_twin.Fleet.State.{Cell, cell_dec}
use warehouse_digital_twin.Base.Dict.{get, set}
use warehouse_digital_twin.Base.Sort.{take_max}
use warehouse_digital_twin.Planner.{
  in_bounds, blocks, near_obstacle, square, offsets, moved, snapped, nearest_free_cell,
  nearest_in_rings, first, GridMap, diagonal, drivable, is_obstacle,
}
use warehouse_digital_twin.Planner.Search.{
  search, pop_least, expand, relax_all, relax, score, record_way, heuristic, entry_ltb, trace,
  started, world_to_grid, Route, route, stopped, cost, find_path, compute_path,
}
use warehouse_digital_twin.Planner.Search.Sound.{IsPath, find_path-IsPath}
use warehouse_digital_twin.Planner.Search.Complete.{find_path-no_route}
use warehouse_digital_twin.Planner.Search.Ends.{find_path-ends, find_path-finds}
use warehouse_digital_twin.Planner.Node.Safety.{compute_path-clear}
use warehouse_digital_twin.Planner.Distances.{Distance, tenths, distances, distances-Costs}

-- Three columns and three rows, with an obstacle in the middle.
abbrev yard : GridMap Distance
yard = record {
  cells = pos 0 ∷ pos 0 ∷ pos 0 ∷ pos 0 ∷ pos 100 ∷ pos 0 ∷ pos 0 ∷ pos 0 ∷ pos 0 ∷ [];
  width = 3;
  height = 3;
  resolution = tenths 10;
  origin = (tenths 0, tenths 0);
}

abbrev west : Cell
west = (pos 0, pos 1)

abbrev east : Cell
east = (pos 2, pos 1)

abbrev found : Route
found = find_path distances yard (pos 0) west east 20

planning : Unit {0}
unfolding find_path search pop_least take_max expand relax_all relax score cost moved drivable
    in_bounds is_obstacle blocks near_obstacle square offsets any record_way heuristic entry_ltb
    trace started get set cell_dec ℤ_dec ◌+ℤ◌ ◌-ℤ◌ ◌*ℤ◌ compute_path world_to_grid snapped
    nearest_free_cell nearest_in_rings first
planning = tt

around : found ≡ route (west ∷ (pos 1, pos 0) ∷ east ∷ [])
unfolding planning
around = refl

-- The same path, move by move.
around-IsPath : IsPath west east (drivable yard (pos 0)) (west ∷ (pos 1, pos 0) ∷ east ∷ [])
unfolding planning
around-IsPath = (
  refl,
  refl,
  (
    (diagonal (pos 1) (negsuc 0), inr (inr (inr (inr (inr (inl refl))))), refl),
    refl,
    ((diagonal (pos 1) (pos 1), inr (inr (inr (inr (inl refl)))), refl), refl, refl),
  ),
)

find_path-IsPath_example :
    IsPath west east (drivable yard (pos 0)) (west ∷ (pos 1, pos 0) ∷ east ∷ [])
unfolding planning
find_path-IsPath_example =
    find_path-IsPath distances distances-Costs yard (pos 0) west east 20 _ refl around

find_path-no_route_example : ¬ IsPath west east (drivable yard (pos 1)) (west ∷ east ∷ [])
unfolding planning
find_path-no_route_example =
    find_path-no_route distances distances-Costs yard (pos 1) west east 5 (west ∷ east ∷ []) refl

find_path-ends_example :
    (k : ℕ) × ((more : ℕ) → find_path distances yard (pos 0) west east (k + more) ≢ stopped)
find_path-ends_example = find_path-ends distances distances-Costs yard (pos 0) west east

find_path-finds_example :
    (k : ℕ) × ((more : ℕ)
      → (cells : List Cell) × (find_path distances yard (pos 0) west east (k + more) ≡ route cells)
        × IsPath west east (drivable yard (pos 0)) cells)
find_path-finds_example =
    find_path-finds distances distances-Costs yard (pos 0) west east
      (west ∷ (pos 1, pos 0) ∷ east ∷ []) around-IsPath

compute_path-clear_example : is_obstacle yard (pos 1, pos 0) ≡ false
unfolding planning
compute_path-clear_example =
    compute_path-clear distances distances-Costs yard 0 (tenths 5, tenths 15) (tenths 25, tenths 15)
      20 (west ∷ (pos 1, pos 0) ∷ east ∷ []) (pos 1, pos 0) (pos 1, pos 0) refl (inr (inl refl))
      (omega arith, omega arith, omega arith, omega arith)
