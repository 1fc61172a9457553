-- ===== src/Orders/Samples.antt =====
-- A small inventory over fixed point numbers, and an instance of the theorem on the nearest package.
use warehouse_digital_twin.Base.{
  ℕ, ◌≡◌, ◌⊎◌, String, true, false, none, some, List, [], ◌∷◌, All, get_elem?, arith,
}
use warehouse_digital_twin.Base.Int.{ℤ, pos}
use warehouse_digital_twin.Base.Fixed.{fixed}
use warehouse_digital_twin.Orders.{
  Package, PackageStatus, free, reserved, distance_to, nearest_free,
}
use warehouse_digital_twin.Orders.Nearest.{LessThan, within, nearest_free_lem}

fixed_irrefl : (a : ℤ) → fixed.ltb_f a a ≡ false
fixed_irrefl a = ground arith

fixed_trans : (a b c : ℤ) → fixed.ltb_f a b ≡ true → fixed.ltb_f b c ≡ true → fixed.ltb_f a c ≡ true
fixed_trans a b c h k = ground arith

fixed-LessThan : LessThan fixed
fixed-LessThan = record { irrefl = fixed_irrefl; trans = fixed_trans }

abbrev boxed : String → ℕ → PackageStatus → Package ℤ
boxed i place st = record {
  package_id = i;
  rack = "B2";
  shelf = 0;
  slot = 0;
  x = pos place;
  y = pos 0;
  z = pos 550;
  color = (pos 860, pos 200, pos 200);
  status = st;
}

abbrev shelf : List (Package ℤ)
shelf = boxed "P01" 1000 reserved ∷ boxed "P02" 3000 free ∷ boxed "P03" 2000 free ∷ []

nearest_free_lem_example :
    ((nearest_free fixed (pos 0, pos 0) (pos 8000) shelf ≡ none)
      × All (λ q. within fixed (pos 0, pos 0) (pos 8000) q ≡ false) shelf)
    ⊎ ((j : ℕ) × (p : Package ℤ) × (nearest_free fixed (pos 0, pos 0) (pos 8000) shelf
          ≡ some (j, p))
        × (get_elem? shelf j ≡ some p)
        × (within fixed (pos 0, pos 0) (pos 8000) p ≡ true)
        × All
            (λ q. within fixed (pos 0, pos 0) (distance_to fixed (pos 0, pos 0) p) q ≡ false)
            shelf)
nearest_free_lem_example = nearest_free_lem fixed fixed-LessThan (pos 0, pos 0) (pos 8000) shelf
