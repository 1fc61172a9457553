-- ===== src/Orders.antt =====
-- Orders and the package inventory, ros2_ws/src/warehouse_bringup/warehouse_bringup/order_fulfillment.py:
-- which package an order is given. A package is named by its place in the inventory's list, which
-- stands for the reference that the source hands out.
pub mod Nearest
mod Samples
use warehouse_digital_twin.Base.{
  ℕ, zero, suc, String, Bool, true, false, ◌&&◌, ite, Option, none, some, List, [], ◌∷◌,
  if◌then◌else◌, str_dec,
}
use warehouse_digital_twin.Base.Float.{Float}
use warehouse_digital_twin.Fleet.State.{Point}

pub data PackageStatus : Type 0 where
  free reserved carried delivered : PackageStatus

pub record Package (F : Type 0) : Type 0 where
  pub package_id : String
  pub rack : String
  pub shelf : ℕ
  pub slot : ℕ
  pub x : F
  pub y : F
  pub z : F
  pub color : F × F × F
  pub status : PackageStatus

abbrev pub is_free : PackageStatus → Bool
is_free free = true
is_free _ = false

module _ {F : Type 0} where
  -- `Inventory.by_id`.
  unfoldable pub by_id : String → List (Package F) → Option (Package F)
  by_id pid [] = none
  by_id pid (p ∷ ps) = ite (str_dec p.package_id pid) (some p) (by_id pid ps)

  -- `Inventory.free_on_rack`.
  unfoldable pub free_on_rack : String → List (Package F) → Option (Package F)
  free_on_rack r [] = none
  free_on_rack r (p ∷ ps) =
      if ite (str_dec p.rack r) true false && is_free p.status then some p else free_on_rack r ps

  -- `package.status = status`.
  unfoldable pub set_package : PackageStatus → ℕ → List (Package F) → List (Package F)
  set_package st i [] = []
  set_package st zero (p ∷ ps) = record p { status = st } ∷ ps
  set_package st (suc i) (p ∷ ps) = p ∷ set_package st i ps

module _ (fl : Float) where
  open fl use {F, lit, ltb_f, sub, hypot}

  unfoldable pub distance_to : Point F → Package F → F
  distance_to pickup p = hypot (sub p.x pickup.0) (sub p.y pickup.1)

  -- The loop of `nearest_free` from place `i` on, with `best` and `best_d` so far.
  unfoldable pub nearest_from :
      Point F → ℕ → List (Package F) → Option (ℕ × Package F) × F → Option (ℕ × Package F) × F
  unfolding distance_to
  nearest_from pickup i [] acc = acc
  nearest_from pickup i (p ∷ ps) acc = nearest_from pickup (suc i) ps (
      if is_free p.status && ltb_f (distance_to pickup p) acc.1
      then (some (i, p), distance_to pickup p)
      else acc)

  -- `Inventory.nearest_free`.
  unfoldable pub nearest_free : Point F → (max_dist : F) → List (Package F) → Option (ℕ × Package F)
  unfolding nearest_from
  nearest_free pickup max_dist ps = (nearest_from pickup 0 ps (none, max_dist)).0

  -- `task_to_package`, with the nearest rack found: the package of the order, and the inventory left.
  unfoldable pub take_package :
      Point F → List (Package F) → Option (ℕ × Package F) × List (Package F)
  unfolding nearest_free
  take_package pickup ps = elim (nearest_free pickup (lit 8 0) ps) [
    | none ↦ (none, ps)
    | some (i, p) ↦ (some (i, p), set_package reserved i ps)
  ]
