-- ===== src/Fleet/Traffic/Lanes.antt =====
-- What the loops of `_reserve` and `_check_traffic` keep of one robot's reservation and of the map
-- of cell owners, against the owners `o` at the start.
use warehouse_digital_twin.Base.{
  ℕ, zero, suc, ◌≡◌, String, Bool, true, false, some, List, [], ◌∷◌, if◌then◌else◌, arith,
  Bool-cases, inl, inr, ltb,
}
use warehouse_digital_twin.Base.Dict.{Dict, get}
use warehouse_digital_twin.Base.Float.{Float}
use warehouse_digital_twin.Fleet.State.{Cell, cell_dec, Reservation}
use warehouse_digital_twin.Fleet.Traffic.{
  Owners, Lane, is_foreign, has_cell, has_conflict, segment_at, has_index, cells_of,
  reserve_segment, release_segment, reserve_free, reserve_initial, release_one, release_behind,
  label_head_on, reserve_one, reserve_ahead, move_window,
}
use warehouse_digital_twin.Fleet.Traffic.Cells.{
  unless, get-claim, get-disclaim, has_conflict-foreign, IsDisjoint, Covers-add_index,
  Covers-discard_index,
}

module _ {F : Type 0} where
  -- Whether a reserved segment has the cell.
  abbrev pub covers : Reservation F → Cell → Bool
  covers res c = has_cell c (cells_of res.segments res.reserved)

  -- Exactly the covered cells are the robot's, none of them was another's, and the others' cells are
  -- as they were.
  pub record LaneInv (r : String) (o : Owners) (l : Lane F) : Type 0 where
    pub owned :
        (c : Cell)
        → get cell_dec c l.owners ≡ (if covers l.res c then some r else unless r (get cell_dec c o))
    pub clear : (c : Cell) → covers l.res c ≡ true → is_foreign r (get cell_dec c o) ≡ false
    pub disjoint : IsDisjoint l.res.segments

  pub reserve_segment-LaneInv :
      (r : String) (o : Owners) (i : ℕ) (l : Lane F)
      → has_conflict r (segment_at l.res.segments i) l.owners ≡ false
      → LaneInv r o l
      → LaneInv r o (reserve_segment r i l)
  unfolding reserve_segment
  reserve_segment-LaneInv r o i l free v = record {
    owned = λ c. ground (
      arith,
      get-claim r c (segment_at l.res.segments i) l.owners,
      Covers-add_index l.res.segments i l.res.reserved c,
      v.owned c,
    );
    clear = λ c h. ground (
      arith,
      Covers-add_index l.res.segments i l.res.reserved c,
      has_conflict-foreign r c (segment_at l.res.segments i) l.owners free,
      v.owned c,
      v.clear c,
    );
    disjoint = v.disjoint;
  }

  pub release_segment-LaneInv :
      (r : String) (o : Owners) (i : ℕ) (l : Lane F)
      → LaneInv r o l
      → LaneInv r o (release_segment r i l)
  unfolding release_segment
  release_segment-LaneInv r o i l v = record {
    owned = λ c. ground (
      arith,
      get-disclaim r c (segment_at l.res.segments i) l.owners,
      Covers-discard_index l.res.segments i l.res.reserved c v.disjoint,
      v.owned c,
      v.clear c,
    );
    clear = λ c h.
        ground
          (arith, Covers-discard_index l.res.segments i l.res.reserved c v.disjoint, v.clear c);
    disjoint = v.disjoint;
  }

  reserve_free-LaneInv :
      (r : String) (o : Owners) (i : ℕ) (l : Lane F)
      → LaneInv r o l
      → LaneInv r o (reserve_free r i l)
  unfolding reserve_free
  reserve_free-LaneInv r o i l v =
      elim (Bool-cases (has_conflict r (segment_at l.res.segments i) l.owners)) [
        | inl taken ↦ rw (taken, reserve_free) v
        | inr free ↦ rw (free, reserve_free) (reserve_segment-LaneInv r o i l free v)
      ]

  pub reserve_initial-LaneInv :
      (r : String) (o : Owners) (i left : ℕ) (l : Lane F)
      → LaneInv r o l
      → LaneInv r o (reserve_initial r i left l)
  unfolding reserve_initial
  reserve_initial-LaneInv r o i zero l v = v
  reserve_initial-LaneInv r o i (suc left) l v =
      reserve_initial-LaneInv r o (suc i) left (reserve_free r i l) (reserve_free-LaneInv r o i l v)

  release_one-LaneInv :
      (r : String) (o : Owners) (cur i : ℕ) (acc : Lane F × Bool)
      → LaneInv r o acc.0
      → LaneInv r o (release_one r cur i acc).0
  unfolding release_one
  release_one-LaneInv r o cur i acc v = elim (Bool-cases (ltb i cur)) [
    | inl behind ↦ rw (behind, release_one) (release_segment-LaneInv r o i acc.0 v)
    | inr ahead ↦ rw (ahead, release_one) v
  ]

  pub release_behind-LaneInv :
      (r : String) (o : Owners) (cur : ℕ) (is : List ℕ) (acc : Lane F × Bool)
      → LaneInv r o acc.0
      → LaneInv r o (release_behind r cur is acc).0
  unfolding release_behind
  release_behind-LaneInv r o cur [] acc v = v
  release_behind-LaneInv r o cur (i ∷ is) acc v =
      release_behind-LaneInv r o cur is (release_one r cur i acc)
        (release_one-LaneInv r o cur i acc v)

module _ (fl : Float) where
  open fl use {F}

  reserve_one-LaneInv :
      (r : String) (o : Owners) (reservations : Dict String (Reservation F)) (i : ℕ)
      (acc : Lane F × Bool)
      → LaneInv r o acc.0
      → LaneInv r o (reserve_one fl r reservations i acc).0
  unfolding reserve_one label_head_on
  reserve_one-LaneInv r o reservations i (l, changed) v =
      elim (Bool-cases (has_index i l.res.reserved)) [
        | inl held ↦ rw (held, reserve_one) v
        | inr new ↦ elim (Bool-cases (has_conflict r (segment_at l.res.segments i) l.owners)) [
          | inl taken ↦
              rw (new, taken, reserve_one)
                (record { owned = v.owned; clear = v.clear; disjoint = v.disjoint })
          | inr free ↦ rw (new, free, reserve_one) (reserve_segment-LaneInv r o i l free v)
        ]
      ]

  pub reserve_ahead-LaneInv :
      (r : String) (o : Owners) (reservations : Dict String (Reservation F)) (i left : ℕ)
      (acc : Lane F × Bool)
      → LaneInv r o acc.0
      → LaneInv r o (reserve_ahead fl r reservations i left acc).0
  unfolding reserve_ahead
  reserve_ahead-LaneInv r o reservations i zero acc v = v
  reserve_ahead-LaneInv r o reservations i (suc left) acc v =
      reserve_ahead-LaneInv r o reservations (suc i) left (reserve_one fl r reservations i acc)
        (reserve_one-LaneInv r o reservations i acc v)

  -- Moving the window of a robot keeps its cells, and the others', in order.
  pub move_window-LaneInv :
      (r : String) (o : Owners) (reservations : Dict String (Reservation F)) (cur ahead : ℕ)
      (l : Lane F)
      → LaneInv r o l
      → LaneInv r o (move_window fl r reservations cur ahead l).0
  unfolding move_window
  move_window-LaneInv r o reservations cur ahead l v =
      reserve_ahead-LaneInv r o reservations cur ahead _
        (release_behind-LaneInv r o cur l.res.reserved (l, false) v)
