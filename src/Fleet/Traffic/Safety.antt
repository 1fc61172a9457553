-- ===== src/Fleet/Traffic/Safety.antt =====
-- The reservations of all robots against the map of cell owners.
use warehouse_digital_twin.Base.{
  ℕ, ◌≡◌, refl, sym, ◌∙◌, ◌≢◌, String, true, Option, none, some, [], arith, Bool-cases, inl, inr,
  str_dec, subst, ap,
}
use warehouse_digital_twin.Base.Dict.{
  Dict, get, set, del, get-set_cases, get-del_cases, get-set_other, get-set_self, get-del_other,
}
use warehouse_digital_twin.Fleet.State.{Cell, cell_dec, Reservation}
use warehouse_digital_twin.Fleet.Traffic.{
  Owners, Lane, has_cell, cells_of, disclaim, refresh_owned_cells,
}
use warehouse_digital_twin.Fleet.Traffic.Cells.{unless, get-disclaim, IsDisjoint}
use warehouse_digital_twin.Fleet.Traffic.Lanes.{covers, LaneInv}

-- A robot's cells are those of its reserved segments, they are its own in the map of owners, and
-- each owned cell is one of its owner's. The segments of a reservation share no cell.
pub record IsSafe {F : Type 0} (R : Dict String (Reservation F)) (O : Owners) : Type 0 where
  pub fresh :
      (r : String) (res : Reservation F)
      → get str_dec r R ≡ some res
      → res.cells ≡ cells_of res.segments res.reserved
  pub owned :
      (r : String) (res : Reservation F) (c : Cell)
      → get str_dec r R ≡ some res
      → covers res c ≡ true
      → get cell_dec c O ≡ some r
  pub backed :
      (r : String) (c : Cell)
      → get cell_dec c O ≡ some r
      → (res : Reservation F) × (get str_dec r R ≡ some res) × (covers res c ≡ true)
  pub disjoint :
      (r : String) (res : Reservation F) → get str_dec r R ≡ some res → IsDisjoint res.segments

unless_other : (r : String) (x : Option String) → x ≢ some r → x ≡ unless r x
unless_other r none n = refl
unless_other r (some q) n = elim (str_dec q r) [
  | yes e ↦ absurd (n (ap some e))
  | no m ↦ ground arith
]

unless-some : (r q : String) (x : Option String) → unless r x ≡ some q → (x ≡ some q) × (r ≢ q)
unless-some r q none e = absurd (cc e)
unless-some r q (some p) e = ground arith

module _ {F : Type 0} (R : Dict String (Reservation F)) (O : Owners) where
  -- Two robots never hold the same cell.
  pub IsSafe-exclusive :
      (r q : String) (a b : Reservation F) (c : Cell)
      → IsSafe R O
      → get str_dec r R ≡ some a
      → get str_dec q R ≡ some b
      → has_cell c a.cells ≡ true
      → has_cell c b.cells ≡ true
      → r ≡ q
  IsSafe-exclusive r q a b c v ha hb in_a in_b = ground (
    arith,
    v.owned r a c ha (rw (v.fresh r a ha) at in_a),
    v.owned q b c hb (rw (v.fresh q b hb) at in_b),
  )

  -- Storing what the loops made of a robot's reservation.
  pub store-IsSafe :
      (r : String) (l : Lane F)
      → l.res.cells ≡ cells_of l.res.segments l.res.reserved
      → IsSafe R O
      → LaneInv r O l
      → IsSafe (set str_dec r l.res R) l.owners
  store-IsSafe r l f v w =
      let res' = l.res in
      record {
        fresh = λ q res h. elim (get-set_cases str_dec r q res' res R h) [
          | inl (e, same) ↦ subst (λ x. x.cells ≡ cells_of x.segments x.reserved) same f
          | inr (n, old) ↦ v.fresh q res old
        ];
        owned = λ q res c h m. elim (get-set_cases str_dec r q res' res R h) [
          | inl (e, same) ↦
              subst (λ x. get cell_dec c l.owners ≡ some x) e
                (let mine : covers l.res c ≡ true = rw (← same) at m in w.owned c ∙ rw mine refl)
          | inr (n, old) ↦ ground (arith, w.owned c, w.clear c, v.owned q res c)
        ];
        backed = λ q c h. elim (str_dec r q) [
          | yes e ↦ (res', rw (← e) (get-set_self str_dec r res' R), ground (arith, w.owned c))
          | no n ↦
              let (res, found, m) = v.backed q c (ground (arith, w.owned c)) in
              (res, get-set_other str_dec r q res' R n ∙ found, m)
        ];
        disjoint = λ q res h. elim (get-set_cases str_dec r q res' res R h) [
          | inl (e, same) ↦ subst (λ x. IsDisjoint x.segments) same w.disjoint
          | inr (n, old) ↦ v.disjoint q res old
        ];
      }

  pub refresh-IsSafe :
      (r : String) (l : Lane F)
      → IsSafe R O
      → LaneInv r O l
      → IsSafe (set str_dec r (refresh_owned_cells l.res) R) l.owners
  unfolding refresh_owned_cells
  refresh-IsSafe r l v w =
      store-IsSafe r (record l { res = refresh_owned_cells l.res }) refl v
        (record { owned = w.owned; clear = w.clear; disjoint = w.disjoint })

  -- A robot without a reservation starts with a lane that covers nothing.
  pub start-LaneInv :
      (r : String) (res : Reservation F)
      → IsSafe R O
      → get str_dec r R ≡ none
      → res.reserved ≡ []
      → IsDisjoint res.segments
      → LaneInv r O (record { owners = O; res = res })
  unfolding cells_of has_cell
  start-LaneInv r res v free empty d = record {
    owned = λ c.
        rw (empty, cells_of, has_cell)
          (unless_other r (get cell_dec c O) (λ e. cc (free, (v.backed r c e).1)));
    clear = λ c h. ground arith;
    disjoint = d;
  }

  -- A robot with a reservation starts with the lane that the map of owners shows.
  pub resume-LaneInv :
      (r : String) (res : Reservation F) (cur : ℕ)
      → IsSafe R O
      → get str_dec r R ≡ some res
      → LaneInv r O (record { owners = O; res = record res { segment_index = cur } })
  resume-LaneInv r res cur v h = record {
    owned = λ c. elim (Bool-cases (covers res c)) [
      | inl mine ↦ rw mine (v.owned r res c h mine)
      | inr other ↦ rw other (
          unless_other r (get cell_dec c O) λ e.
            let (a, found, m) = v.backed r c e in
            let same : a ≡ res = cc (found, h) in cc (rw same at m, other))
    ];
    clear = λ c m. ground (arith, v.owned r res c);
    disjoint = v.disjoint r res h;
  }

  pub release-IsSafe :
      (r : String) (res : Reservation F)
      → IsSafe R O
      → get str_dec r R ≡ some res
      → IsSafe (del str_dec r R) (disclaim r res.cells O)
  release-IsSafe r res v h = record {
    fresh = λ q a found. v.fresh q a (get-del_cases str_dec r q a R found).1;
    owned = λ q a c found m.
        let (n, old) = get-del_cases str_dec r q a R found in
        ground (arith, get-disclaim r c res.cells O, v.owned q a c old m);
    backed = λ q c found.
        let (own, n) = still_owned q c found in
        let (a, old, m) = v.backed q c own in (a, get-del_other str_dec r q R n ∙ old, m);
    disjoint = λ q a found. v.disjoint q a (get-del_cases str_dec r q a R found).1;
  }
    where
      still_owned :
          (q : String) (c : Cell)
          → get cell_dec c (disclaim r res.cells O) ≡ some q
          → (get cell_dec c O ≡ some q) × (r ≢ q)
      still_owned q c found = elim (Bool-cases (has_cell c res.cells)) [
        | inl mine ↦ unless-some r q _ (rw mine at (sym (get-disclaim r c res.cells O) ∙ found))
        | inr other ↦
            let own : get cell_dec c O ≡ some q =
              rw other at (sym (get-disclaim r c res.cells O) ∙ found) in
            (
              own,
              λ e.
                  let (a, old, m) = v.backed r c (rw e own) in
                  let same : a ≡ res = cc (old, h) in
                  let covered : covers res c ≡ true = rw same at m in
                  cc (rw (← v.fresh r res h) at covered, other),
            )
      ]
