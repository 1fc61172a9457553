-- ===== src/Planner/Clearance.antt =====
-- A drivable cell is clear of obstacles as far as the inflation radius reaches.
use warehouse_digital_twin.Base.{
  not-true, ℕ, zero, suc, ◌+◌, ◌≤◌, ◌<◌, ◌≡◌, sym, ◌⊎◌, inl, inr, Bool, true, false, List, [], ◌∷◌,
  arith, any, In, In-append_left, In-append_right, and_right, subst, ap,
}
use warehouse_digital_twin.Base.Int.{
  ℤ, pos, ◌+ℤ◌, ◌-ℤ◌, ◌≤ℤ◌, pos_part, neg_part, eq_of_parts, +ℤ_parts, -ℤ_parts,
}
use warehouse_digital_twin.Fleet.State.{Cell}
use warehouse_digital_twin.Planner.{
  GridMap, range_from, offsets, row, rows, square, is_obstacle, near_obstacle, drivable,
}

le_cases : (x y : ℕ) → x ≤ y → (x ≡ y) ⊎ (x < y)
le_cases x y h = ground arith

add_sub : (i a : ℤ) → i +ℤ (a -ℤ i) ≡ a
add_sub i a = eq_of_parts _ a (omega (arith, +ℤ_parts i (a -ℤ i), -ℤ_parts a i))

In-range_from :
    (a z : ℤ) (n : ℕ)
    → a ≤ℤ z
    → pos_part z + neg_part a < pos_part a + neg_part z + n
    → In z (range_from a n)
In-range_from a z zero le lt = absurd (omega (arith, le, lt))
In-range_from a z (suc n) le lt =
    elim (le_cases (pos_part a + neg_part z) (pos_part z + neg_part a) le) [
      | inl same ↦ inl (eq_of_parts z a (sym same))
      | inr less ↦ inr (
          In-range_from (a +ℤ pos 1) z n (omega (arith, less, +ℤ_parts a (pos 1)))
            (omega (arith, lt, +ℤ_parts a (pos 1))))
    ]

any-false :
    {A : Type 0} (p : A → Bool) (xs : List A) (x : A) → any p xs ≡ false → In x xs → p x ≡ false
unfolding any
any-false p [] x h mem = absurd mem
any-false p (y ∷ ys) x h (inl e) = rw e (ground arith)
any-false p (y ∷ ys) x h (inr mem) = any-false p ys x (ground arith) mem

In-row : (i j di dj : ℤ) (djs : List ℤ) → In dj djs → In (i +ℤ di, j +ℤ dj) (row (i, j) di djs)
unfolding row
In-row i j di dj [] mem = absurd mem
In-row i j di dj (d ∷ ds) (inl e) = inl (ap (λ x. (i +ℤ di, j +ℤ x)) e)
In-row i j di dj (d ∷ ds) (inr mem) = inr (In-row i j di dj ds mem)

In-rows :
    (i j di dj : ℤ) (dis djs : List ℤ)
    → In di dis
    → In dj djs
    → In (i +ℤ di, j +ℤ dj) (rows (i, j) dis djs)
unfolding rows
In-rows i j di dj [] djs mem mem' = absurd mem
In-rows i j di dj (d ∷ ds) djs (inl e) mem' =
    In-append_left _ (row (i, j) d djs) (rows (i, j) ds djs)
      (subst (λ x. In (i +ℤ x, j +ℤ dj) (row (i, j) d djs)) (sym e) (In-row i j d dj djs mem'))
In-rows i j di dj (d ∷ ds) djs (inr mem) mem' =
    In-append_right _ (row (i, j) d djs) (rows (i, j) ds djs) (In-rows i j di dj ds djs mem mem')

-- A cell is within `r` of another when neither coordinate differs by more.
abbrev pub Within : ℕ → Cell → Cell → Type 0
Within r (i, j) (a, b) =
    (i -ℤ pos r ≤ℤ a) × (a ≤ℤ i +ℤ pos r) × (j -ℤ pos r ≤ℤ b) × (b ≤ℤ j +ℤ pos r)

In-offsets : (r : ℕ) (d : ℤ) → pos 0 -ℤ pos r ≤ℤ d → d ≤ℤ pos r → In d (offsets (pos r))
unfolding offsets
In-offsets r d low high =
    In-range_from (pos 0 -ℤ pos r) d (r + r + 1) low (omega (arith, high, -ℤ_parts (pos 0) (pos r)))

-- No cell within the inflation radius of a drivable cell is an obstacle, and all of them are in the
-- bounds of the grid.
pub drivable-clear :
    {F : Type 0} (m : GridMap F) (r : ℕ) (c n : Cell)
    → drivable m (pos r) c ≡ true
    → Within r c n
    → is_obstacle m n ≡ false
unfolding drivable near_obstacle square
drivable-clear m r (i, j) (a, b) clear (la, ha, lb, hb) =
    let inside = λ (x y : ℤ) (low : x -ℤ pos r ≤ℤ y) (high : y ≤ℤ x +ℤ pos r).
      In-offsets r (y -ℤ x)
        (omega (arith, low, -ℤ_parts x (pos r), -ℤ_parts y x, -ℤ_parts (pos 0) (pos r)))
        (omega (arith, high, +ℤ_parts x (pos r), -ℤ_parts y x)) in
    any-false (is_obstacle m) (rows (i, j) (offsets (pos r)) (offsets (pos r))) (a, b)
      (not-true (near_obstacle m (pos r) (i, j)) (and_right _ _ clear))
      (subst (λ n. In n (rows (i, j) (offsets (pos r)) (offsets (pos r))))
        (λ t. (add_sub i a t, add_sub j b t))
        (In-rows i j (a -ℤ i) (b -ℤ j) (offsets (pos r)) (offsets (pos r)) (inside i a la ha)
          (inside j b lb hb)))
