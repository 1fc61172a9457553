-- ===== src/Controller/Samples.antt =====
-- A robot at the start of a path: instances of the theorems.
use warehouse_digital_twin.Base.{suc, ◌≤◌, ◌<◌, some, List, [], ◌∷◌, length, arith}
use warehouse_digital_twin.Base.Int.{ℤ, pos, negsuc}
use warehouse_digital_twin.Base.Float.{Trig}
use warehouse_digital_twin.Base.Fixed.{fixed}
use warehouse_digital_twin.Fleet.State.{Point}
use warehouse_digital_twin.Controller.{Controller, find_lookahead_index, control_loop}
use warehouse_digital_twin.Controller.Following.{
  find_lookahead_index-bounds, Publishes, control_loop-Publishes,
}

abbrev flat : Trig ℤ
flat = record { sin = λ a. pos 0; cos = λ a. pos 1000; atan2 = λ y x. pos 0 }

abbrev magnitude : ℤ → ℤ
magnitude (pos n) = pos n
magnitude (negsuc n) = pos (suc n)

abbrev aisle : List (Point ℤ)
aisle = (pos 0, pos 0) ∷ (pos 500, pos 0) ∷ (pos 1000, pos 0) ∷ (pos 1500, pos 0) ∷ []

abbrev follower : Controller ℤ
follower = record {
  limits = record {
    linear_speed = pos 300;
    angular_speed = pos 800;
    goal_tolerance = pos 150;
    lookahead = pos 900;
    max_linear_accel = pos 500;
    max_angular_accel = pos 1500;
    turn_slow_threshold = pos 250;
    turn_slow_factor = pos 600;
    dt = pos 100;
  };
  path = aisle;
  current_pose =
      some (record { position = (pos 0, pos 100); orientation = (pos 0, pos 0, pos 0, pos 1000) });
  last_linear = pos 0;
  last_angular = pos 0;
  out = [];
}

control_loop-Publishes_example :
    Publishes fixed flat magnitude follower (control_loop fixed flat magnitude follower)
control_loop-Publishes_example = control_loop-Publishes fixed flat magnitude follower

find_lookahead_index-bounds_example :
    (1 ≤ find_lookahead_index fixed flat magnitude (pos 900) 1 aisle)
    × (find_lookahead_index fixed flat magnitude (pos 900) 1 aisle < length aisle)
find_lookahead_index-bounds_example =
    find_lookahead_index-bounds fixed flat magnitude (pos 900) 1 aisle (omega arith)
