-- ===== src/Planner/Search.antt =====
-- The search of `_compute_path`, and `_reconstruct_path`. `heapq` keeps the least entry in front;
-- here the least entry is taken from a list.
pub mod Ways
pub mod Sound
pub mod Complete
pub mod Falling
pub mod Ends
use warehouse_digital_twin.Base.{
  ℕ, zero, suc, Bool, true, false, ◌&&◌, Option, none, some, List, [], ◌∷◌, map, if◌then◌else◌,
}
use warehouse_digital_twin.Base.Int.{ℤ, pos, ◌+ℤ◌, ◌-ℤ◌, ◌*ℤ◌, ltb_ℤ}
use warehouse_digital_twin.Base.Dict.{Dict, get, set}
use warehouse_digital_twin.Base.Float.{Float}
use warehouse_digital_twin.Base.Sort.{take_max}
use warehouse_digital_twin.Fleet.State.{Point, Cell, cell_dec}
use warehouse_digital_twin.Planner.{
  GridMap, Move, straight, diagonal, moves, moved, is_cell, drivable, snapped,
}

-- An entry (f, -tg, i, j) of the heap.
pub record Entry (F : Type 0) : Type 0 where
  pub f : F
  pub neg_g : F
  pub cell : Cell

-- The local variables `open_set`, `came_from` and `g_score`.
pub record Search (F : Type 0) : Type 0 where
  pub frontier : List (Entry F)
  pub came_from : Dict Cell (Option Cell)
  pub g_score : Dict Cell F

-- How a search ends; `reached` has the state in which the goal was taken from the heap.
pub data Outcome (F : Type 0) : Type 0 where
  reached : Search F → Outcome F
  no_path out_of_fuel : Outcome F

-- What `_compute_path` gives on the grid: a list of cells, `None`, or no answer within the fuel.
pub data Route : Type 0 where
  route : List Cell → Route
  no_route stopped : Route

-- `_reconstruct_path` up to the conversion to coordinates; `path` holds the cells after `c`. A
-- cell that is no key, at which the source raises, is taken for the first of the path.
unfoldable pub trace : (fuel : ℕ) → Dict Cell (Option Cell) → (path : List Cell) → Cell → Route
trace zero came path c = stopped
trace (suc fuel) came path c = elim (get cell_dec c came) [
  | none ↦ route (c ∷ path)
  | some none ↦ route (c ∷ path)
  | some (some p) ↦ trace fuel came (c ∷ path) p
]

module _ (fl : Float) where
  open fl use {F, lit, of_ℤ, ltb_f, eqb_f, add, neg, sub, mul, div, trunc, sqrt, inf}

  unfoldable pub cost : Move → F
  cost (straight dx dy) = lit 1 0
  cost (diagonal dx dy) = sqrt (lit 2 0)

  -- `_heuristic`.
  unfoldable pub heuristic : Cell → Cell → F
  heuristic (ci, cj) (gi, gj) =
      sqrt (of_ℤ (((ci -ℤ gi) *ℤ (ci -ℤ gi)) +ℤ ((cj -ℤ gj) *ℤ (cj -ℤ gj))))

  -- Python's order of the tuples.
  unfoldable pub entry_ltb : Entry F → Entry F → Bool
  entry_ltb a b =
      if eqb_f a.f b.f
      then (if eqb_f a.neg_g b.neg_g
          then (if ltb_ℤ a.cell.0 b.cell.0
              then true
              else (if ltb_ℤ b.cell.0 a.cell.0 then false else ltb_ℤ a.cell.1 b.cell.1))
          else ltb_f a.neg_g b.neg_g)
      else ltb_f a.f b.f

  -- `heappop` of a heap that is not empty.
  unfoldable pub pop_least : Entry F → List (Entry F) → Entry F × List (Entry F)
  unfolding entry_ltb
  pop_least e es = take_max (λ a b. entry_ltb b a) e es

  -- `g_score.get(nk, float("inf"))`.
  unfoldable pub score : Cell → Dict Cell F → F
  score c g = elim (get cell_dec c g) [ none ↦ inf | some x ↦ x ]

  -- A better way to `n`, at cost `tg`, is recorded and the cell is queued.
  unfoldable pub record_way : (goal from n : Cell) → (tg : F) → Search F → Search F
  unfolding heuristic
  record_way goal from n tg s = record {
    frontier = record { f = add tg (heuristic n goal); neg_g = neg tg; cell = n } ∷ s.frontier;
    came_from = set cell_dec n (some from) s.came_from;
    g_score = set cell_dec n tg s.g_score;
  }

  -- The body of the loop over `_NEIGHBORS`, for a cell at cost `cg`.
  unfoldable pub relax : GridMap F → ℤ → (goal from : Cell) → (cg : F) → Move → Search F → Search F
  unfolding drivable moved score record_way cost
  relax m inflation goal from cg d s =
      let n = moved from d in
      let tg = add cg (cost d) in
      if drivable m inflation n && ltb_f tg (score n s.g_score)
      then record_way goal from n tg s
      else s

  unfoldable pub relax_all :
      GridMap F → ℤ → (goal from : Cell) → (cg : F) → List Move → Search F → Search F
  unfolding relax
  relax_all m inflation goal from cg [] s = s
  relax_all m inflation goal from cg (d ∷ ds) s =
      relax_all m inflation goal from cg ds (relax m inflation goal from cg d s)

  -- The rest of a round, for the cell taken from the heap; the heap holds only scored cells.
  unfoldable pub expand : GridMap F → ℤ → (goal c : Cell) → Search F → Search F
  unfolding relax_all
  expand m inflation goal c s = relax_all m inflation goal c (score c s.g_score) moves s

  -- The `while` loop.
  unfoldable pub search : GridMap F → ℤ → Cell → (fuel : ℕ) → Search F → Outcome F
  unfolding pop_least expand
  search m inflation goal zero s = out_of_fuel
  search m inflation goal (suc fuel) s = elim s.frontier [
    | [] ↦ no_path
    | e ∷ es ↦
        let (best, rest) = pop_least e es in
        let s' = record s { frontier = rest } in
        let onward = search m inflation goal fuel (expand m inflation goal best.cell s') in
        if is_cell best.cell goal then reached s' else onward
  ]

  unfoldable pub started : Cell → Search F
  started c = record {
    frontier = record { f = lit 0 0; neg_g = of_ℤ (pos 0); cell = c } ∷ [];
    came_from = (c, none) ∷ [];
    g_score = (c, lit 0 0) ∷ [];
  }

  -- The search from a start to a goal that are drivable, and the path.
  unfoldable pub find_path : GridMap F → ℤ → (start goal : Cell) → (fuel : ℕ) → Route
  unfolding search trace started
  find_path m inflation start goal fuel = elim (search m inflation goal fuel (started start)) [
    | reached s ↦ trace fuel s.came_from [] goal
    | no_path ↦ no_route
    | out_of_fuel ↦ stopped
  ]

  -- `_world_to_grid`.
  unfoldable pub world_to_grid : GridMap F → Point F → Cell
  world_to_grid m (x, y) =
      (trunc (div (sub x m.origin.0) m.resolution), trunc (div (sub y m.origin.1) m.resolution))

  -- `_grid_to_world`.
  unfoldable pub grid_to_world : GridMap F → Cell → Point F
  grid_to_world m (i, j) = (
    add m.origin.0 (mul (add (of_ℤ i) (lit 5 1)) m.resolution),
    add m.origin.1 (mul (add (of_ℤ j) (lit 5 1)) m.resolution),
  )

  -- `_compute_path` on the grid: the start and the goal are snapped first.
  unfoldable pub compute_path : GridMap F → ℤ → (from to : Point F) → (fuel : ℕ) → Route
  unfolding world_to_grid snapped find_path
  compute_path m inflation from to fuel = elim (snapped m inflation (world_to_grid m from)) [
    | none ↦ no_route
    | some start ↦ elim (snapped m inflation (world_to_grid m to)) [
      | none ↦ no_route
      | some goal ↦ find_path m inflation start goal fuel
    ]
  ]
