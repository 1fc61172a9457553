-- ===== src/Planner/Search/Falling.antt =====
-- The scores of the cells of a grid cannot fall for ever.
use warehouse_digital_twin.Base.{
  ℕ, zero, suc, ◌<◌, ◌≡◌, refl, sym, ◌⊎◌, inl, inr, true, Option, none, some, List, [], ◌∷◌, ◌++◌,
  arith, In, In-append_left, In-append_right, All, subst,
}
use warehouse_digital_twin.Base.Float.{Float}
use warehouse_digital_twin.Base.Int.{pos}
use warehouse_digital_twin.Fleet.State.{Cell}
use warehouse_digital_twin.Planner.Search.Ways.{Costs}
use mathlib.Core.WellFounded.{Acc}

-- The cells of a grid.
grid_row : ℕ → ℕ → List Cell
grid_row j zero = []
grid_row j (suc i) = (pos i, pos j) ∷ grid_row j i

pub grid_cells : ℕ → ℕ → List Cell
grid_cells w zero = []
grid_cells w (suc j) = grid_row j w ++ grid_cells w j

In-grid_row : (a b n : ℕ) → a < n → In (pos a, pos b) (grid_row b n)
unfolding grid_row
In-grid_row a b zero h = absurd (omega arith)
In-grid_row a b (suc n) h = elim (lt_cases a n h) [
  | inl e ↦ inl (rw e refl)
  | inr less ↦ inr (In-grid_row a b n less)
]
  where
    lt_cases : (a n : ℕ) → a < suc n → (a ≡ n) ⊎ (a < n)
    lt_cases a n h = ground arith

pub In-grid_cells : (a b w n : ℕ) → a < w → b < n → In (pos a, pos b) (grid_cells w n)
unfolding grid_cells
In-grid_cells a b w zero h k = absurd (omega arith)
In-grid_cells a b w (suc n) h k = elim (lt_cases b n k) [
  | inl e ↦
      rw e (In-append_left (pos a, pos n) (grid_row n w) (grid_cells w n) (In-grid_row a n w h))
  | inr less ↦
      In-append_right (pos a, pos b) (grid_row n w) (grid_cells w n) (In-grid_cells a b w n h less)
]
  where
    lt_cases : (a n : ℕ) → a < suc n → (a ≡ n) ⊎ (a < n)
    lt_cases a n h = ground arith

module _ (fl : Float) (costs : Costs fl) where
  open fl use {F, lit, ltb_f, add, inf}
  open costs use {le}

  abbrev pub NonNeg : F → Type 0
  NonNeg x = le (lit 0 0) x

  -- A score falls: it is set, or made smaller.
  abbrev pub Lower : Option F → Option F → Type 0
  Lower none o = ⊥
  Lower (some x) none = NonNeg x
  Lower (some x) (some y) = NonNeg x × (ltb_f x y ≡ true)

  pub Lower-trans : (a b c : Option F) → Lower a b → Lower b c → Lower a c
  Lower-trans none b c h k = absurd h
  Lower-trans (some x) none c h k = absurd k
  Lower-trans (some x) (some y) none h k = h.0
  Lower-trans (some x) (some y) (some z) h k = (h.0, costs.lt_trans x y z h.1 k.1)

  below-some :
      (y : F)
      → ((x : F) → NonNeg x × (ltb_f x y ≡ true) → Acc Lower (some x))
      → (o : Option F) → Lower o (some y)
      → Acc Lower o
  below-some y f none h = absurd h
  below-some y f (some x) h = f x h

  pub Acc-some : (y : F) → Acc (λ (x z : F). NonNeg x × (ltb_f x z ≡ true)) y → Acc Lower (some y)
  Acc-some y (Acc.intro _ smaller) =
      Acc.intro (some y) (below-some y (λ x h. Acc-some x (smaller x h)))

  below-none : (o : Option F) → Lower o none → Acc Lower o
  below-none none h = absurd h
  below-none (some x) h = Acc-some x (costs.falling_ends x h)

  pub Acc-none : Acc Lower none
  Acc-none = Acc.intro none below-none

  -- One list of scores below another: some score falls, and none rises.
  abbrev pub Falls : List (Option F) → List (Option F) → Type 0
  Falls [] ys = ⊥
  Falls (x ∷ xs) [] = ⊥
  Falls (x ∷ xs) (y ∷ ys) = (Lower x y × ((xs ≡ ys) ⊎ Falls xs ys)) ⊎ (x ≡ y) × Falls xs ys

  below-cons :
      (x : Option F) (xs : List (Option F))
      → Acc Falls xs
      → ((ys : List (Option F)) → Falls ys xs → Acc Falls ys)
      → ((y : Option F) → Lower y x → (ys : List (Option F)) → Acc Falls ys → Acc Falls (y ∷ ys))
      → ((ys : List (Option F)) → Falls ys xs → Acc Falls (x ∷ ys))
      → (zs : List (Option F)) → Falls zs (x ∷ xs)
      → Acc Falls zs
  below-cons x xs self smaller head tail [] h = absurd h
  below-cons x xs self smaller head tail (z ∷ zs) (inl (low, inl same)) =
      head z low zs (subst (λ ys. Acc Falls ys) (sym same) self)
  below-cons x xs self smaller head tail (z ∷ zs) (inl (low, inr less)) =
      head z low zs (smaller zs less)
  below-cons x xs self smaller head tail (z ∷ zs) (inr (same, less)) =
      subst (λ y. Acc Falls (y ∷ zs)) (sym same) (tail zs less)

  Acc-cons :
      (x : Option F) → Acc Lower x → (xs : List (Option F)) → Acc Falls xs → Acc Falls (x ∷ xs)
  Acc-cons x (Acc.intro _ fx) xs (Acc.intro _ fxs) = Acc.intro (x ∷ xs) (
      below-cons x xs (Acc.intro xs fxs) fxs (λ y low ys w. Acc-cons y (fx y low) ys w)
        (λ ys less. Acc-cons x (Acc.intro x fx) ys (fxs ys less)))

  below-nil : (ys : List (Option F)) → Falls ys [] → Acc Falls ys
  below-nil [] h = absurd h
  below-nil (y ∷ ys) h = absurd h

  pub Acc-Falls : (xs : List (Option F)) → All (λ o. Acc Lower o) xs → Acc Falls xs
  Acc-Falls [] h = Acc.intro [] below-nil
  Acc-Falls (x ∷ xs) h = Acc-cons x h.0 xs (Acc-Falls xs h.1)
