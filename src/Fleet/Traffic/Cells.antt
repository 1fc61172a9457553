-- ===== src/Fleet/Traffic/Cells.antt =====
-- Who owns a cell after a loop over cells, and which cells a set of segment indices covers.
use warehouse_digital_twin.Base.{
  ℕ, ◌≡◌, refl, String, true, false, ◌||◌, ite, Option, none, some, List, [], ◌∷◌, ◌++◌,
  if◌then◌else◌, arith, str_dec, subst, if_neg,
}
use mathlib.Core.List.{append_assoc, append-nil}
use warehouse_digital_twin.Base.Dict.{get, set, get-set, get-del}
use warehouse_digital_twin.Fleet.State.{Cell, cell_dec}
use warehouse_digital_twin.Fleet.Traffic.{
  Owners, is_foreign, has_cell, has_conflict, claim, drop_cell, disclaim, segment_at, has_index,
  add_index, discard_index, cells_of,
}

pub get-claim :
    (r : String) (j : Cell) (cs : List Cell) (o : Owners)
    → get cell_dec j (claim r cs o) ≡ (if has_cell j cs then some r else get cell_dec j o)
unfolding claim has_cell
get-claim r j [] o = refl
get-claim r j (c ∷ cs) o =
    ground (arith, get-claim r j cs (set cell_dec c r o), get-set cell_dec c j r o)

-- The owner, unless it is `r`.
abbrev pub unless : String → Option String → Option String
unless r none = none
unless r (some q) = ite (str_dec q r) none (some q)

get-drop_cell :
    (r : String) (j c : Cell) (o : Owners)
    → get cell_dec j (drop_cell r c o)
      ≡ ite (cell_dec c j) (unless r (get cell_dec j o)) (get cell_dec j o)
unfolding drop_cell
get-drop_cell r j c o = elim (cell_dec c j) [
  | yes e ↦
      subst
        (λ k.
          get cell_dec k (drop_cell r c o)
          ≡ ite (cell_dec c k) (unless r (get cell_dec k o)) (get cell_dec k o))
        e (ground (arith, get-del cell_dec c c o))
  | no n ↦ rw (if_neg _ n) (ground (arith, get-del cell_dec c j o))
]

pub get-disclaim :
    (r : String) (j : Cell) (cs : List Cell) (o : Owners)
    → get cell_dec j (disclaim r cs o)
      ≡ (if has_cell j cs then unless r (get cell_dec j o) else get cell_dec j o)
unfolding disclaim has_cell
get-disclaim r j [] o = refl
get-disclaim r j (c ∷ cs) o =
    ground (arith, get-disclaim r j cs (drop_cell r c o), get-drop_cell r j c o)

pub has_conflict-foreign :
    (r : String) (j : Cell) (cs : List Cell) (o : Owners)
    → has_conflict r cs o ≡ false
    → has_cell j cs ≡ true
    → is_foreign r (get cell_dec j o) ≡ false
unfolding has_conflict has_cell
has_conflict-foreign r j [] o h m = ground arith
has_conflict-foreign r j (c ∷ cs) o h m = ground (arith, has_conflict-foreign r j cs o)

pub has_cell-append :
    (j : Cell) (xs ys : List Cell) → has_cell j (xs ++ ys) ≡ (has_cell j xs || has_cell j ys)
unfolding has_cell
has_cell-append j [] ys = refl
has_cell-append j (x ∷ xs) ys = ground (arith, has_cell-append j xs ys)

module _ (segs : List (List Cell)) where
  abbrev pub Covers : List ℕ → Cell → Type 0
  Covers js c = has_cell c (cells_of segs js) ≡ true

  pub cells_of-append :
      (is js : List ℕ) → cells_of segs (is ++ js) ≡ cells_of segs is ++ cells_of segs js
  unfolding cells_of
  cells_of-append [] js = refl
  cells_of-append (i ∷ is) js = simp (cells_of-append is js, append_assoc)

  has_index-Covers :
      (i : ℕ) (js : List ℕ) (c : Cell)
      → has_index i js ≡ true
      → has_cell c (segment_at segs i) ≡ true
      → Covers js c
  unfolding has_index cells_of
  has_index-Covers i [] c h m = ground arith
  has_index-Covers i (j ∷ js) c h m =
      ground
        (arith, has_cell-append c (segment_at segs j) (cells_of segs js), has_index-Covers i js c)

  pub Covers-add_index :
      (i : ℕ) (js : List ℕ) (c : Cell)
      → has_cell c (cells_of segs (add_index i js))
        ≡ (has_cell c (cells_of segs js) || has_cell c (segment_at segs i))
  unfolding add_index cells_of has_cell
  Covers-add_index i js c = ground (
    arith,
    cells_of-append js (i ∷ []),
    append-nil (segment_at segs i),
    has_cell-append c (cells_of segs js) (segment_at segs i),
    has_index-Covers i js c,
  )

  -- No two segments share a cell.
  abbrev pub IsDisjoint : Type 0
  IsDisjoint =
      (i k : ℕ) (c : Cell)
      → has_cell c (segment_at segs i) ≡ true
      → has_cell c (segment_at segs k) ≡ true
      → i ≡ k

  pub Covers-discard_index :
      (i : ℕ) (js : List ℕ) (c : Cell)
      → IsDisjoint
      → has_cell c (cells_of segs (discard_index i js))
        ≡ (if has_cell c (segment_at segs i) then false else has_cell c (cells_of segs js))
  unfolding discard_index cells_of has_cell
  Covers-discard_index i [] c d = ground arith
  Covers-discard_index i (j ∷ js) c d = ground (
    arith,
    d i j c,
    has_cell-append c (segment_at segs j) (cells_of segs js),
    has_cell-append c (segment_at segs j) (cells_of segs (discard_index i js)),
    Covers-discard_index i js c d,
  )
