-- ===== src/Monitor/Samples.antt =====
-- A wall in front of a robot: a test, and an instance of the theorem.
use warehouse_digital_twin.Base.{
  suc, ◌≡◌, refl, true, false, ◌&&◌, List, [], ◌∷◌, ◌++◌, if◌then◌else◌,
}
use warehouse_digital_twin.Base.Int.{ℤ, pos, negsuc, leb_ℤ, ◌+ℤ◌, ◌-ℤ◌}
use warehouse_digital_twin.Base.Fixed.{fixed}
use warehouse_digital_twin.Monitor.{
  Angles, Twist, Scan, Monitor, is_short, check_beams, check_obstacle, scan_callback, forward_cmd,
  Event, commanded, timer, run,
}
use warehouse_digital_twin.Monitor.Safety.{
  short_beams, is_blocking, stopped, check_obstacle-is_blocking, forward_cmd-run,
}

abbrev angles : Angles ℤ
angles = record {
  abs = λ a. elim a [ pos n ↦ pos n | negsuc n ↦ pos (suc n) ];
  is_finite = λ r. true;
  pi = pos 3141;
}

abbrev resting : Twist ℤ
resting = record { linear = pos 0; angular = pos 0 }

abbrev forward : Twist ℤ
forward = record { linear = pos 200; angular = pos 0 }

abbrev monitor : Monitor ℤ
monitor = record {
  stop_distance = pos 500;
  fov = pos 1047;
  min_safe = pos 3;
  scan_timeout = pos 1000;
  blocked = false;
  last_cmd = resting;
  last_scan = pos 0;
  out = [];
}

-- Four beams, three of which end at 0.3 m.
abbrev wall : Scan ℤ
wall = record {
  angle_min = pos 0;
  angle_increment = pos 10;
  ranges = pos 300 ∷ pos 2000 ∷ pos 300 ∷ pos 300 ∷ [];
}

wall_blocks : check_obstacle fixed angles wall monitor ≡ true
unfolding check_obstacle check_beams is_short ◌+ℤ◌ ◌-ℤ◌
wall_blocks = refl

abbrev driving : List (ℤ × Event ℤ)
driving = (pos 5100, commanded forward) ∷ (pos 5200, timer) ∷ []

forward_cmd-run_example :
    (forward_cmd fixed angles
      (pos 5300)
      (run fixed angles driving (scan_callback fixed angles (pos 5000) wall monitor))).out
    ≡ (run fixed angles driving (scan_callback fixed angles (pos 5000) wall monitor)).out
      ++ (if leb_ℤ (pos 5300 -ℤ pos 5000) (pos 1000)
            && is_blocking fixed angles monitor
                (short_beams fixed angles wall monitor 0 wall.ranges)
          then stopped fixed angles
          else forward)
        ∷ []
forward_cmd-run_example = forward_cmd-run fixed angles (pos 5000) (pos 5300) wall driving monitor tt

check_obstacle-is_blocking_example :
    check_obstacle fixed angles wall monitor
    ≡ is_blocking fixed angles monitor (short_beams fixed angles wall monitor 0 wall.ranges)
check_obstacle-is_blocking_example = check_obstacle-is_blocking fixed angles wall monitor
