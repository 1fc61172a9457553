-- ===== src/Base/Sort/Laws.antt =====
-- What `sorted` and `max` promise: the same elements, and the right one in front.
use Prim.Native.Nat.{ℕ, suc, ◌≤◌}
use mathlib.Core.Path.{◌≡◌, refl, ap}
use mathlib.Core.Bool.{Bool, true, false}
use mathlib.Core.List.{List, [], ◌∷◌}
use native.Mathlib.Omega.{arith}
use package.warehouse_digital_twin.Base.Tests.{Bool-cases}
use mathlib.Core.Logic.{inl, inr}
use package.warehouse_digital_twin.Base.Lists.{All, All-map, length}
use package.warehouse_digital_twin.Base.Sort.{insert_sorted, sort_onto, sort, take_max}

module _ {A : Type 0} (lt : A → A → Bool) (P : A → Type 0) where
  insert_sorted-All : (x : A) (ys : List A) → P x → All P ys → All P (insert_sorted lt x ys)
  unfolding insert_sorted
  insert_sorted-All x [] p h = (p, tt)
  insert_sorted-All x (y ∷ ys) p h = elim (Bool-cases (lt x y)) [
    | inl less ↦ rw less (p, h)
    | inr more ↦ rw more (h.0, insert_sorted-All x ys p h.1)
  ]

  All-insert_sorted : (x : A) (ys : List A) → All P (insert_sorted lt x ys) → P x × All P ys
  unfolding insert_sorted
  All-insert_sorted x [] h = h
  All-insert_sorted x (y ∷ ys) h = elim (Bool-cases (lt x y)) [
    | inl less ↦ rw less at h
    | inr more ↦
        let h' : All P (y ∷ insert_sorted lt x ys) = rw more at h in
        let (p, rest) = All-insert_sorted x ys h'.1 in (p, (h'.0, rest))
  ]

  sort_onto-All : (sorted xs : List A) → All P sorted → All P xs → All P (sort_onto lt sorted xs)
  unfolding sort_onto
  sort_onto-All sorted [] h k = h
  sort_onto-All sorted (x ∷ xs) h k =
      sort_onto-All (insert_sorted lt x sorted) xs (insert_sorted-All x sorted k.0 h) k.1

  All-sort_onto : (sorted xs : List A) → All P (sort_onto lt sorted xs) → All P sorted × All P xs
  unfolding sort_onto
  All-sort_onto sorted [] h = (h, tt)
  All-sort_onto sorted (x ∷ xs) h =
      let (inserted, rest) = All-sort_onto (insert_sorted lt x sorted) xs h in
      let (p, old) = All-insert_sorted x sorted inserted in (old, (p, rest))

  -- What holds of all elements holds of all elements of the sorted list.
  pub sort-All : (xs : List A) → All P xs → All P (sort lt xs)
  unfolding sort
  sort-All xs h = sort_onto-All [] xs tt h

  pub All-sort : (xs : List A) → All P (sort lt xs) → All P xs
  unfolding sort
  All-sort xs h = (All-sort_onto [] xs h).1

module _ {A : Type 0} (lt : A → A → Bool) (rank : A → ℕ)
    (less : (x y : A) → lt x y ≡ true → rank x ≤ rank y)
    (not_less : (x y : A) → lt x y ≡ false → rank y ≤ rank x) where
  -- Ranks do not fall along the list.
  abbrev pub IsRanked : List A → Type 0
  IsRanked [] = Unit
  IsRanked (x ∷ xs) = All (λ y. rank x ≤ rank y) xs × IsRanked xs

  insert_sorted-IsRanked : (x : A) (ys : List A) → IsRanked ys → IsRanked (insert_sorted lt x ys)
  unfolding insert_sorted
  insert_sorted-IsRanked x [] h = (tt, tt)
  insert_sorted-IsRanked x (y ∷ ys) h = elim (Bool-cases (lt x y)) [
    | inl before ↦
        let le = less x y before in
        rw before ((le, All-map ys (λ z (k : rank y ≤ rank z). omega arith) h.0), h)
    | inr behind ↦ rw behind (
      insert_sorted-All lt (λ z. rank y ≤ rank z) x ys (not_less x y behind) h.0,
      insert_sorted-IsRanked x ys h.1,
    )
  ]

  sort_onto-IsRanked : (sorted xs : List A) → IsRanked sorted → IsRanked (sort_onto lt sorted xs)
  unfolding sort_onto
  sort_onto-IsRanked sorted [] h = h
  sort_onto-IsRanked sorted (x ∷ xs) h =
      sort_onto-IsRanked (insert_sorted lt x sorted) xs (insert_sorted-IsRanked x sorted h)

  -- A number that the order respects does not fall along the sorted list.
  pub sort-IsRanked : (xs : List A) → IsRanked (sort lt xs)
  unfolding sort
  sort-IsRanked xs = sort_onto-IsRanked [] xs tt

module _ {A : Type 0} (lt : A → A → Bool) where
  -- What holds of all elements holds of the maximum and of the others, and back.
  pub take_max-All :
      (P : A → Type 0) (x : A) (xs : List A)
      → P x × All P xs
      → P (take_max lt x xs).0 × All P (take_max lt x xs).1
  unfolding take_max
  take_max-All P x [] h = (h.0, tt)
  take_max-All P x (y ∷ ys) h = elim (Bool-cases (lt x (take_max lt y ys).0)) [
    | inl less ↦ let (p, rest) = take_max-All P y ys h.1 in rw less (p, (h.0, rest))
    | inr best ↦ rw best (h.0, h.1)
  ]

  pub All-take_max :
      (P : A → Type 0) (x : A) (xs : List A)
      → P (take_max lt x xs).0 × All P (take_max lt x xs).1
      → P x × All P xs
  unfolding take_max
  All-take_max P x [] h = (h.0, tt)
  All-take_max P x (y ∷ ys) h = elim (Bool-cases (lt x (take_max lt y ys).0)) [
    | inl less ↦
        let h' : P (take_max lt y ys).0 × All P (x ∷ (take_max lt y ys).1) = rw less at h in
        (h'.1.0, All-take_max P y ys (h'.0, h'.1.1))
    | inr best ↦ rw best at h
  ]

  -- No element exceeds the maximum, for an order in which "not less" is transitive and an element
  -- that exceeds another is not less than it.
  pub take_max-greatest :
      (trans : (a b c : A) → lt a b ≡ false → lt b c ≡ false → lt a c ≡ false)
      (asym : (a b : A) → lt a b ≡ true → lt b a ≡ false) (x : A) (xs : List A)
      → All (λ y. lt (take_max lt x xs).0 y ≡ false) (take_max lt x xs).1
  unfolding take_max
  take_max-greatest trans asym x [] = tt
  take_max-greatest trans asym x (y ∷ ys) = elim (Bool-cases (lt x (take_max lt y ys).0)) [
    | inl less ↦ rw less (asym x (take_max lt y ys).0 less, take_max-greatest trans asym y ys)
    | inr best ↦
        let m = (take_max lt y ys).0 in
        rw best (
          All-take_max (λ z. lt x z ≡ false) y ys
            (
              best,
              All-map (take_max lt y ys).1 (λ z (k : lt m z ≡ false). trans x m z best k)
                  (take_max-greatest trans asym y ys),
            ))
  ]

  pub length-take_max : (x : A) (xs : List A) → length (take_max lt x xs).1 ≡ length xs
  unfolding take_max
  length-take_max x [] = refl
  length-take_max x (y ∷ ys) = elim (Bool-cases (lt x (take_max lt y ys).0)) [
    | inl less ↦ rw less (ap suc (length-take_max y ys))
    | inr best ↦ rw best refl
  ]
