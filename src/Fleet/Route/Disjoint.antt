-- ===== src/Fleet/Route/Disjoint.antt =====
-- A route visits no cell twice where its samples do not leave a cell and come back, and then no two
-- of its segments share a cell.
use warehouse_digital_twin.Base.{
  ℕ, zero, suc, ◌-◌, ◌≤◌, ◌≡◌, refl, sym, ◌∙◌, ◌≢◌, true, false, some, List, [], ◌∷◌, ◌++◌, arith,
  Bool-cases, inl, inr, if_pos, if_neg, subst, ap,
}
use mathlib.Core.List.{append_assoc}
use warehouse_digital_twin.Base.Float.{Float}
use warehouse_digital_twin.Fleet.State.{Cell, Point, cell_dec}
use warehouse_digital_twin.Fleet.Route.{
  cell_width, cons_new, sample, walk, route_cells_ordered, slices, partition_segments,
}
use warehouse_digital_twin.Fleet.Traffic.{has_cell, segment_at}
use warehouse_digital_twin.Fleet.Traffic.Cells.{IsDisjoint, has_cell-append}

-- Each cell stands once in the list.
abbrev pub IsNodup : List Cell → Type 0
IsNodup [] = Unit
IsNodup (c ∷ cs) = (has_cell c cs ≡ false) × IsNodup cs

pub concat : List (List Cell) → List Cell
concat [] = []
concat (cs ∷ css) = cs ++ concat css

has_cell-concat :
    (segs : List (List Cell)) (i : ℕ) (c : Cell)
    → has_cell c (segment_at segs i) ≡ true
    → has_cell c (concat segs) ≡ true
unfolding segment_at concat has_cell
has_cell-concat [] i c h = ground arith
has_cell-concat (s ∷ segs) zero c h = ground (arith, has_cell-append c s (concat segs))
has_cell-concat (s ∷ segs) (suc i) c h =
    ground (arith, has_cell-append c s (concat segs), has_cell-concat segs i c h)

IsNodup-append :
    (xs ys : List Cell) (c : Cell)
    → IsNodup (xs ++ ys)
    → has_cell c xs ≡ true
    → has_cell c ys ≡ false
unfolding has_cell
IsNodup-append [] ys c d h = ground arith
IsNodup-append (x ∷ xs) ys c d h = elim (cell_dec x c) [
  | yes e ↦ subst (λ k. has_cell k ys ≡ false) e (ground (arith, has_cell-append x xs ys))
  | no n ↦ IsNodup-append xs ys c d.1 (ground arith)
]

IsNodup-drop : (xs ys : List Cell) → IsNodup (xs ++ ys) → IsNodup ys
IsNodup-drop [] ys d = d
IsNodup-drop (x ∷ xs) ys d = IsNodup-drop xs ys d.1

concat-IsDisjoint : (segs : List (List Cell)) → IsNodup (concat segs) → IsDisjoint segs
unfolding concat segment_at has_cell
concat-IsDisjoint [] d i k c h m = ground arith
concat-IsDisjoint (s ∷ segs) d zero zero c h m = refl
concat-IsDisjoint (s ∷ segs) d zero (suc k) c h m =
    absurd (cc (IsNodup-append s (concat segs) c d h, has_cell-concat segs k c m))
concat-IsDisjoint (s ∷ segs) d (suc i) zero c h m =
    absurd (cc (IsNodup-append s (concat segs) c d m, has_cell-concat segs i c h))
concat-IsDisjoint (s ∷ segs) d (suc i) (suc k) c h m =
    ap suc (concat-IsDisjoint segs (IsNodup-drop s (concat segs) d) i k c h m)

concat-slices :
    (size room : ℕ) (slice cs : List Cell) → concat (slices size room slice cs) ≡ slice ++ cs
unfolding concat slices
concat-slices size zero slice [] = refl
concat-slices size (suc room) slice [] = refl
concat-slices size zero slice (c ∷ cs) = rw (concat-slices size (size - 1) (c ∷ []) cs)
concat-slices size (suc room) slice (c ∷ cs) =
    concat-slices size room (slice ++ c ∷ []) cs ∙ append_assoc slice (c ∷ []) cs

-- The segments of a list of cells, put together in order, are the list again.
pub concat-partition_segments :
    (size : ℕ) (cs : List Cell) → concat (partition_segments size cs) ≡ cs
unfolding partition_segments concat
concat-partition_segments size [] = refl
concat-partition_segments size (c ∷ cs) = concat-slices size (size - 1) (c ∷ []) cs

-- The segments of a route without repetition share no cell.
pub partition_segments-IsDisjoint :
    (size : ℕ) (cs : List Cell) → IsNodup cs → IsDisjoint (partition_segments size cs)
partition_segments-IsDisjoint size cs d =
    concat-IsDisjoint _ (subst IsNodup (sym (concat-partition_segments size cs)) d)

-- A sequence that takes a value at two places takes it at all places between them.
abbrev pub IsConvex : {A : Type 0} → (ℕ → A) → Type 0
IsConvex f = (i j k : ℕ) → i ≤ j → j ≤ k → f i ≡ f k → f i ≡ f j

module _ (fl : Float) (cell : fl.F) (p d : Point fl.F) (steps : ℕ)
    (convex : IsConvex (sample fl cell p d steps)) where
  abbrev f : ℕ → Cell
  f = sample fl cell p d steps

  abbrev rest : ℕ → ℕ → List Cell
  rest i left = walk fl cell p d steps (some (f i)) (suc i) left

  -- A cell of the rest of the walk is a sample that differs from the one before it.
  mem-walk :
      (c : Cell) (i left : ℕ)
      → has_cell c (rest i left) ≡ true
      → (k : ℕ) × (i ≤ k) × (c ≡ f (suc k)) × (f k ≢ f (suc k))
  unfolding walk cons_new has_cell
  mem-walk c i zero h = absurd (cc h)
  mem-walk c i (suc left) h = elim (cell_dec (f (suc i)) (f i)) [
    | yes same ↦
        let (k, le, e, n) = mem-walk c (suc i) left (rw (if_pos _ same) at h) in
        (k, omega arith, e, n)
    | no other ↦ elim (cell_dec (f (suc i)) c) [
      | yes here ↦ (i, omega arith, sym here, λ e. other (sym e))
      | no later ↦
          let (k, le, e, n) =
            mem-walk c (suc i) left (rw (if_neg _ later) at (rw (if_neg _ other) at h)) in
          (k, omega arith, e, n)
    ]
  ]

  not-mem-walk : (i left : ℕ) → has_cell (f i) (rest i left) ≡ false
  not-mem-walk i left = elim (Bool-cases (has_cell (f i) (rest i left))) [
    | inl again ↦
        let (k, le, e, n) = mem-walk (f i) i left again in
        absurd (n (sym (convex i k (suc k) le (omega arith) e) ∙ e))
    | inr h ↦ h
  ]

  walk-IsNodup : (i left : ℕ) → IsNodup (rest i left)
  unfolding walk cons_new
  walk-IsNodup i zero = tt
  walk-IsNodup i (suc left) = elim (cell_dec (f (suc i)) (f i)) [
    | yes same ↦ rw (if_pos _ same) (walk-IsNodup (suc i) left)
    | no other ↦ rw (if_neg _ other) (not-mem-walk (suc i) left, walk-IsNodup (suc i) left)
  ]

-- The cells of a convex route stand in it once each.
pub route-IsNodup :
    (fl : Float) (cell_size : fl.F) (p d : Point fl.F)
    → ((cell : fl.F) (steps : ℕ)
        → cell ≡ cell_width fl cell_size
        → IsConvex (sample fl cell p d steps))
    → IsNodup (route_cells_ordered fl cell_size p d)
unfolding route_cells_ordered walk cons_new
route-IsNodup fl cell_size (px, py) (dx, dy) convex =
    (not-mem-walk fl _ _ _ _ (convex _ _ refl) 0 _, walk-IsNodup fl _ _ _ _ (convex _ _ refl) 0 _)
