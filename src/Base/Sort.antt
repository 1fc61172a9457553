-- ===== src/Base/Sort.antt =====
-- Python's `sorted`: a stable sort by a strict order, as an insertion sort, and `max` with a key.
pub mod Laws
use Prim.Native.Nat.{ℕ}
use Prim.Native.String.{String, compare}
use mathlib.Core.Path.{◌≡◌, refl}
use mathlib.Core.Bool.{Bool, true, false}
use mathlib.Core.List.{List, [], ◌∷◌, map}
use text.Mathlib.Text.{is_lt}
use package.warehouse_digital_twin.Base.Tests.{if◌then◌else◌, ltb}

-- `s < t` on texts.
abbrev pub str_ltb : String → String → Bool
str_ltb s t = is_lt (compare s t)

module _ {ℓ} {A : Type ℓ} (lt : A → A → Bool) where
  -- In front of the first element that is greater.
  unfoldable pub insert_sorted : A → List A → List A
  insert_sorted x [] = x ∷ []
  insert_sorted x (y ∷ ys) = if lt x y then x ∷ y ∷ ys else y ∷ insert_sorted x ys

  -- Elements are inserted in the order of the list, so equal ones keep it.
  unfoldable pub sort_onto : List A → List A → List A
  unfolding insert_sorted
  sort_onto sorted [] = sorted
  sort_onto sorted (x ∷ xs) = sort_onto (insert_sorted x sorted) xs

  unfoldable pub sort : List A → List A
  unfolding sort_onto
  sort xs = sort_onto [] xs

  -- The first element that no later one exceeds, and the others in order: `max(q, key=...)` and
  -- `q.remove` of what it returned.
  unfoldable pub take_max : A → List A → A × List A
  take_max x [] = (x, [])
  take_max x (y ∷ ys) =
      let (best, rest) = take_max y ys in if lt x best then (best, x ∷ rest) else (x, y ∷ ys)

sort_test : sort ltb (3 ∷ 1 ∷ 2 ∷ 1 ∷ []) ≡ 1 ∷ 1 ∷ 2 ∷ 3 ∷ []
unfolding sort
sort_test = refl

max_test : take_max ltb 1 (3 ∷ 2 ∷ 3 ∷ []) ≡ (3, 1 ∷ 2 ∷ 3 ∷ [])
unfolding take_max
max_test = refl
