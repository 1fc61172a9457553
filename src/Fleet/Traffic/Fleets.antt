-- ===== src/Fleet/Traffic/Fleets.antt =====
-- The safety of reservations under the operations on the whole state.
use warehouse_digital_twin.Base.{
  ◌≡◌, refl, String, Bool, true, false, none, some, List, [], ◌∷◌, if◌then◌else◌, Bool-cases,
  Option-cases, inl, inr, str_dec, length, ◌==◌, subst, ite,
}
use warehouse_digital_twin.Base.Dict.{get, set}
use warehouse_digital_twin.Base.Float.{Float}
use warehouse_digital_twin.Fleet.State.{Cell, Point, Task, Robot, Reservation, Fleet}
use warehouse_digital_twin.Fleet.Traffic.{
  new_reservation, reserve_fresh, reserve, release_reservations, advance, advance_robot,
  advance_all,
}
use warehouse_digital_twin.Fleet.Traffic.Cells.{IsDisjoint}
use warehouse_digital_twin.Fleet.Traffic.Lanes.{reserve_initial-LaneInv, move_window-LaneInv}
use warehouse_digital_twin.Fleet.Traffic.Safety.{
  IsSafe, refresh-IsSafe, store-IsSafe, start-LaneInv, resume-LaneInv, release-IsSafe,
}

-- The reservations of a fleet agree with its map of cell owners.
abbrev pub SafeFleet : {F : Type 0} → Fleet F → Type 0
SafeFleet s = IsSafe s.reservations s.cell_owners

pub SafeFleet-if :
    {F : Type 0} (t : Bool) (a b : Fleet F)
    → SafeFleet a
    → SafeFleet b
    → SafeFleet (if t then a else b)
SafeFleet-if true a b v w = v
SafeFleet-if false a b v w = w

pub SafeFleet-ite :
    {F : Type 0} {P : Type 0} (d : Dec P) (a b : Fleet F)
    → SafeFleet a
    → SafeFleet b
    → SafeFleet (ite d a b)
SafeFleet-ite (yes p) a b v w = v
SafeFleet-ite (no n) a b v w = w

module _ {F : Type 0} where
  reserve_fresh-SafeFleet :
      (r : String) (t : Task F) (route : List Cell) (segs : List (List Cell)) (dir : Point F)
      (s : Fleet F)
      → IsDisjoint segs
      → SafeFleet s
      → get str_dec r s.reservations ≡ none
      → SafeFleet (reserve_fresh r t route segs dir s)
  unfolding reserve_fresh new_reservation
  reserve_fresh-SafeFleet r t route segs dir s d v free =
      refresh-IsSafe s.reservations s.cell_owners r _ v (
        reserve_initial-LaneInv r s.cell_owners 0 _ _
          (start-LaneInv s.reservations s.cell_owners r _ v free refl d))

  pub reserve-SafeFleet :
      (r : String) (t : Task F) (route : List Cell) (segs : List (List Cell)) (dir : Point F)
      (s s' : Fleet F)
      → IsDisjoint segs
      → SafeFleet s
      → reserve r t route segs dir s ≡ some s'
      → SafeFleet s'
  unfolding reserve
  reserve-SafeFleet r t route segs dir s s' d v h =
      elim (Option-cases (get str_dec r s.reservations)) [
        | inl free ↦
            let made : reserve_fresh r t route segs dir s ≡ s' = cc (rw (free, reserve) at h) in
            subst SafeFleet made (reserve_fresh-SafeFleet r t route segs dir s d v free)
        | inr (res, held) ↦ absurd (cc (rw (held, reserve) at h))
      ]

  -- Marking a reservation as activated reserves nothing.
  pub activate-SafeFleet :
      (r : String) (res : Reservation F) (s : Fleet F)
      → SafeFleet s
      → get str_dec r s.reservations ≡ some res
      → SafeFleet (record s {
        reservations = set str_dec r (record res { activated = true }) s.reservations;
      })
  activate-SafeFleet r res s v h =
      let l = resume-LaneInv s.reservations s.cell_owners r res res.segment_index v h in
      store-IsSafe s.reservations s.cell_owners r
        (record { owners = s.cell_owners; res = record res { activated = true } }) (v.fresh r res h)
        v (record { owned = l.owned; clear = l.clear; disjoint = l.disjoint })

  pub release_reservations-SafeFleet :
      (r : String) (s : Fleet F) → SafeFleet s → SafeFleet (release_reservations r s).0
  unfolding release_reservations
  release_reservations-SafeFleet r s v = elim (Option-cases (get str_dec r s.reservations)) [
    | inl free ↦ rw (free, release_reservations) v
    | inr (res, held) ↦
        rw (held, release_reservations) (release-IsSafe s.reservations s.cell_owners r res v held)
  ]

module _ (fl : Float) where
  open fl use {F}

  advance-SafeFleet :
      (r : String) (e : Robot F) (res : Reservation F) (s : Fleet F)
      → SafeFleet s
      → get str_dec r s.reservations ≡ some res
      → SafeFleet (advance fl r e res s).0
  unfolding advance
  advance-SafeFleet r e res s v h = elim (Bool-cases (length res.segments == 0)) [
    | inl nothing ↦ rw (nothing, advance) v
    | inr some_segments ↦
        rw (some_segments, advance)
          (refresh-IsSafe s.reservations s.cell_owners r _ v (
            move_window-LaneInv fl r s.cell_owners s.reservations _ _ _
              (resume-LaneInv s.reservations s.cell_owners r res _ v h)))
  ]

  advance_robot-SafeFleet :
      (r : String) (s : Fleet F) → SafeFleet s → SafeFleet (advance_robot fl r s).0
  unfolding advance_robot
  advance_robot-SafeFleet r s v = elim (Option-cases (get str_dec r s.reservations)) [
    | inl free ↦ rw (free, advance_robot) v
    | inr (res, held) ↦ elim (Option-cases (get str_dec r s.robots)) [
      | inl unknown ↦ rw (held, unknown, advance_robot) v
      | inr (e, known) ↦ rw (held, known, advance_robot) (advance-SafeFleet r e res s v held)
    ]
  ]

  pub advance_all-SafeFleet :
      (rs : List String) (acc : Fleet F × Bool)
      → SafeFleet acc.0
      → SafeFleet (advance_all fl rs acc).0
  unfolding advance_all
  advance_all-SafeFleet [] acc v = v
  advance_all-SafeFleet (r ∷ rs) acc v =
      advance_all-SafeFleet rs _ (advance_robot-SafeFleet r acc.0 v)
