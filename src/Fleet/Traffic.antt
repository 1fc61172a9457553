-- ===== src/Fleet/Traffic.antt =====
-- Reservations of route segments: `_has_conflict`, `_reserve`, `_release_reservations`,
-- `_check_traffic` and what they call.
pub mod Cells
pub mod Lanes
pub mod Safety
pub mod Fleets
use warehouse_digital_twin.Base.{
  ℕ, zero, suc, ◌+◌, ◌-◌, ◌≡◌, String, Bool, true, false, not, ◌||◌, ◌&&◌, ite, Option, none, some,
  List, [], ◌∷◌, ◌++◌, map, if◌then◌else◌, length, get_elem?, ltb, is_some, str_dec, ℕ_discrete,
  ◌==◌,
}
use Prim.Native.Nat.{min, max}
use warehouse_digital_twin.Base.Dict.{Dict, get, set, del}
use warehouse_digital_twin.Base.Float.{Float}
use warehouse_digital_twin.Fleet.State.{
  Point, Cell, cell_dec, Robot, Task, Reservation, Config, Fleet,
}
use warehouse_digital_twin.Fleet.Route.{cell_width}

-- `cell in cells`.
unfoldable pub has_cell : Cell → List Cell → Bool
has_cell c [] = false
has_cell c (d ∷ ds) = ite (cell_dec d c) true (has_cell c ds)

abbrev pub Owners : Type 0
Owners = Dict Cell String

-- `owner is not None and owner != robot_id`.
abbrev pub is_foreign : String → Option String → Bool
is_foreign r none = false
is_foreign r (some owner) = ite (str_dec owner r) false true

unfoldable pub has_conflict : String → List Cell → Owners → Bool
has_conflict r [] o = false
has_conflict r (c ∷ cs) o = is_foreign r (get cell_dec c o) || has_conflict r cs o

-- `for c in segment: self._cell_owners[c] = robot_id`.
unfoldable pub claim : String → List Cell → Owners → Owners
claim r [] o = o
claim r (c ∷ cs) o = claim r cs (set cell_dec c r o)

-- `if self._cell_owners.get(c) == robot_id: del self._cell_owners[c]`.
unfoldable pub drop_cell : String → Cell → Owners → Owners
drop_cell r c o = elim (get cell_dec c o) [
  | none ↦ o
  | some owner ↦ ite (str_dec owner r) (del cell_dec c o) o
]

-- That, for each of the cells.
unfoldable pub disclaim : String → List Cell → Owners → Owners
disclaim r [] o = o
disclaim r (c ∷ cs) o = disclaim r cs (drop_cell r c o)

-- `res["segments"][i]`, for an index in range.
unfoldable pub segment_at : List (List Cell) → ℕ → List Cell
segment_at segs i = elim (get_elem? segs i) [ none ↦ [] | some seg ↦ seg ]

-- Whether the set of indices has `i`; `add` and `discard` of a set.
unfoldable pub has_index : ℕ → List ℕ → Bool
has_index i [] = false
has_index i (j ∷ js) = ite (ℕ_discrete j i) true (has_index i js)

unfoldable pub add_index : ℕ → List ℕ → List ℕ
unfolding has_index
add_index i js = if has_index i js then js else js ++ i ∷ []

unfoldable pub discard_index : ℕ → List ℕ → List ℕ
discard_index i [] = []
discard_index i (j ∷ js) = ite (ℕ_discrete j i) (discard_index i js) (j ∷ discard_index i js)

-- The cells of the segments with the given indices.
unfoldable pub cells_of : List (List Cell) → List ℕ → List Cell
cells_of segs [] = []
cells_of segs (i ∷ is) = segment_at segs i ++ cells_of segs is

-- The cell owners, and the reservation that a method works on.
pub record Lane (F : Type 0) : Type 0 where
  pub owners : Owners
  pub res : Reservation F

module _ {F : Type 0} where
  unfoldable pub reserve_segment : String → ℕ → Lane F → Lane F
  reserve_segment r i l = record {
    owners = claim r (segment_at l.res.segments i) l.owners;
    res = record l.res { reserved = add_index i l.res.reserved };
  }

  unfoldable pub release_segment : String → ℕ → Lane F → Lane F
  release_segment r i l = record {
    owners = disclaim r (segment_at l.res.segments i) l.owners;
    res = record l.res { reserved = discard_index i l.res.reserved };
  }

  unfoldable pub refresh_owned_cells : Reservation F → Reservation F
  refresh_owned_cells res = record res { cells = cells_of res.segments res.reserved }

  -- One round of the loop of `_reserve`.
  unfoldable pub reserve_free : String → ℕ → Lane F → Lane F
  reserve_free r i l =
      if has_conflict r (segment_at l.res.segments i) l.owners then l else reserve_segment r i l

  -- The loop over `range(i, i + left)`.
  unfoldable pub reserve_initial : String → (i left : ℕ) → Lane F → Lane F
  reserve_initial r i zero l = l
  reserve_initial r i (suc left) l = reserve_initial r (suc i) left (reserve_free r i l)

  unfoldable pub new_reservation : Task F → List Cell → List (List Cell) → Point F → Reservation F
  new_reservation task route segments route_dir = record {
    task_id = task.task_id;
    task = task;
    route = route;
    segments = segments;
    route_dir = route_dir;
    segment_index = 0;
    reserved = [];
    head_on = false;
    activated = false;
    cells = [];
  }

  -- What `_reserve` does for a robot that holds no reservation.
  unfoldable pub reserve_fresh :
      String → Task F → List Cell → List (List Cell) → Point F → Fleet F → Fleet F
  reserve_fresh r task route segments route_dir s =
      let l =
        reserve_initial r 0 (min (s.config.lookahead + 1) (length segments)) (record {
          owners = s.cell_owners;
          res = new_reservation task route segments route_dir;
        }) in
      record s {
        reservations = set str_dec r (refresh_owned_cells l.res) s.reservations;
        cell_owners = l.owners;
      }

  -- `none` stands for `False`: the robot already holds a reservation.
  unfoldable pub reserve :
      String → Task F → List Cell → List (List Cell) → Point F → Fleet F → Option (Fleet F)
  unfolding reserve_fresh
  reserve r task route segments route_dir s = elim (get str_dec r s.reservations) [
    | some _ ↦ none
    | none ↦ some (reserve_fresh r task route segments route_dir s)
  ]

  -- The Boolean is what the method returns.
  unfoldable pub release_reservations : String → Fleet F → Fleet F × Bool
  release_reservations r s = elim (get str_dec r s.reservations) [
    | none ↦ (s, false)
    | some res ↦ (
      record s {
        reservations = del str_dec r s.reservations;
        cell_owners = disclaim r res.cells s.cell_owners;
        reservations_released = s.reservations_released + 1;
      },
      true,
    )
  ]

  -- The release loop of `_check_traffic` over a copy of the reserved indices; the Boolean is
  -- `changed`.
  unfoldable pub release_one : String → (cur i : ℕ) → Lane F × Bool → Lane F × Bool
  release_one r cur i acc = if ltb i cur then (release_segment r i acc.0, true) else acc

  unfoldable pub release_behind : String → (cur : ℕ) → List ℕ → Lane F × Bool → Lane F × Bool
  release_behind r cur [] acc = acc
  release_behind r cur (i ∷ is) acc = release_behind r cur is (release_one r cur i acc)

module _ (fl : Float) where
  open fl use {F, lit, ltb_f, add, mul, div, trunc}

  unfoldable pub directions_opposed : Point F → Point F → Bool
  directions_opposed (ax, ay) (bx, b_y) = ltb_f (add (mul ax bx) (mul ay b_y)) (lit 0 0)

  -- The first owner other than `r` of a cell of the segment. The source walks a set of cells, whose
  -- order Python leaves open; here it is the segment's order.
  unfoldable pub first_foreign : String → List Cell → Owners → Option String
  first_foreign r [] o = none
  first_foreign r (c ∷ cs) o =
      if is_foreign r (get cell_dec c o) then get cell_dec c o else first_foreign r cs o

  -- Whether the other owner of the segment holds a reservation that runs the opposite way.
  unfoldable pub meets_head_on : String → List Cell → Dict String (Reservation F) → Lane F → Bool
  unfolding first_foreign directions_opposed
  meets_head_on r seg reservations l = elim (first_foreign r seg l.owners) [
    | none ↦ false
    | some owner ↦ elim (get str_dec owner reservations) [
      | none ↦ false
      | some ores ↦ directions_opposed l.res.route_dir ores.route_dir
    ]
  ]

  unfoldable pub label_head_on : String → List Cell → Dict String (Reservation F) → Lane F → Lane F
  unfolding meets_head_on
  label_head_on r seg reservations l = record l {
    res = record l.res {
      head_on = if meets_head_on r seg reservations l then true else l.res.head_on;
    };
  }

  -- One round of the window loop: segment `i` is reserved unless it is or another robot is on it.
  unfoldable pub reserve_one :
      String → Dict String (Reservation F) → ℕ → Lane F × Bool → Lane F × Bool
  reserve_one r reservations i (l, changed) =
      let seg = segment_at l.res.segments i in
      if has_index i l.res.reserved
      then (l, changed)
      else (if has_conflict r seg l.owners
          then (label_head_on r seg reservations l, changed)
          else (reserve_segment r i l, true))

  -- The loop of `_check_traffic` over the window from `i` on, with `left` segments to go.
  unfoldable pub reserve_ahead :
      String → Dict String (Reservation F) → (i left : ℕ) → Lane F × Bool → Lane F × Bool
  reserve_ahead r reservations i zero acc = acc
  reserve_ahead r reservations i (suc left) acc =
      reserve_ahead r reservations (suc i) left (reserve_one r reservations i acc)

  -- The largest index, from `i` on, of a segment with the cell, and at least `idx`.
  last_segment_with : Cell → (i : ℕ) → List (List Cell) → ℕ → ℕ
  unfolding has_cell
  last_segment_with c i [] idx = idx
  last_segment_with c i (seg ∷ segs) idx =
      last_segment_with c (suc i) segs (if has_cell c seg then max idx i else idx)

  unfoldable pub current_segment_index : F → Robot F → Reservation F → ℕ
  unfolding last_segment_with cell_width
  current_segment_index cell_size entry res = elim entry.x [
    | none ↦ res.segment_index
    | some x ↦ elim entry.y [
      | none ↦ res.segment_index
      | some y ↦
          let cell = cell_width fl cell_size in
          last_segment_with (trunc (div x cell), trunc (div y cell)) 0 res.segments
            res.segment_index
    ]
  ]

  -- The segments behind `cur` are released, then the window from `cur` on is reserved.
  unfoldable pub move_window :
      String → Dict String (Reservation F) → (cur ahead : ℕ) → Lane F → Lane F × Bool
  move_window r reservations cur ahead l =
      reserve_ahead r reservations cur ahead (release_behind r cur l.res.reserved (l, false))

  -- One round of the loop of `_check_traffic`, for a robot with entry `entry` that holds `res`.
  -- The Boolean is whether the round sets `changed`.
  unfoldable pub advance : String → Robot F → Reservation F → Fleet F → Fleet F × Bool
  advance r entry res s =
      let n = length res.segments in
      let cur = min (current_segment_index s.config.cell_size entry res) (n - 1) in
      let moved =
        move_window r s.reservations cur (min (cur + s.config.lookahead + 1) n - cur)
          (record { owners = s.cell_owners; res = record res { segment_index = cur } }) in
      if n == 0 then (s, false) else (
        record s {
          reservations = set str_dec r (refresh_owned_cells moved.0.res) s.reservations;
          cell_owners = moved.0.owners;
        },
        moved.1,
      )

  unfoldable pub advance_robot : String → Fleet F → Fleet F × Bool
  advance_robot r s = elim (get str_dec r s.reservations) [
    | none ↦ (s, false)
    | some res ↦ elim (get str_dec r s.robots) [
      | none ↦ (s, false)
      | some entry ↦ advance r entry res s
    ]
  ]

  unfoldable pub advance_all : List String → Fleet F × Bool → Fleet F × Bool
  advance_all [] (s, changed) = (s, changed)
  advance_all (r ∷ rs) (s, changed) =
      let next = advance_robot r s in advance_all rs (next.0, changed || next.1)
