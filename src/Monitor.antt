-- ===== src/Monitor.antt =====
-- The obstacle monitor of one robot, ros2_ws/src/warehouse_bringup/warehouse_bringup/obstacle_monitor_node.py:
-- it stops the robot when enough beams of the laser scan end near the robot's front. The clock is
-- read once for each callback, and the stamp of a published command is left out.
pub mod Safety
mod Samples
use warehouse_digital_twin.Base.{
  ℕ, suc, ◌+◌, Bool, true, false, ◌&&◌, ◌||◌, List, [], ◌∷◌, ◌++◌, if◌then◌else◌,
}
use warehouse_digital_twin.Base.Int.{ℤ, pos, leb_ℤ}
use warehouse_digital_twin.Base.Float.{Float}

-- What the node uses of `math` and `builtins` beside the arithmetic.
pub record Angles (F : Type 0) : Type 0 where
  pub abs : F → F
  pub is_finite : F → Bool
  pub pi : F

-- A command: `twist.linear.x` and `twist.angular.z`.
pub record Twist (F : Type 0) : Type 0 where
  pub linear : F
  pub angular : F

pub record Scan (F : Type 0) : Type 0 where
  pub angle_min : F
  pub angle_increment : F
  pub ranges : List F

pub record Monitor (F : Type 0) : Type 0 where
  pub stop_distance : F
  pub fov : F
  pub min_safe : ℤ
  pub scan_timeout : F
  pub blocked : Bool
  pub last_cmd : Twist F
  pub last_scan : F
  -- What has been published on /cmd_vel.
  pub out : List (Twist F)

module _ (fl : Float) (an : Angles fl.F) where
  open fl use {F, lit, of_ℤ, ltb_f, leb_f, add, sub, mul}

  -- Beam i looks ahead and ends before the stop distance.
  unfoldable pub is_short : Scan F → Monitor F → ℕ → F → Bool
  is_short scan s i r =
      let angle = add scan.angle_min (mul (of_ℤ (pos i)) scan.angle_increment) in
      (ltb_f (an.abs angle) s.fov || ltb_f (an.abs (sub angle (mul (lit 2 0) an.pi))) s.fov)
      && (an.is_finite r && ltb_f r s.stop_distance)

  -- The loop of `_check_obstacle`, from beam i on, after n short beams.
  unfoldable pub check_beams : Scan F → Monitor F → (i n : ℕ) → List F → Bool
  unfolding is_short
  check_beams scan s i n [] = false
  check_beams scan s i n (r ∷ rs) =
      let counted = check_beams scan s (suc i) (suc n) rs in
      let skipped = check_beams scan s (suc i) n rs in
      if is_short scan s i r
      then (if leb_ℤ s.min_safe (pos (suc n)) then true else counted)
      else skipped

  -- `_check_obstacle`.
  unfoldable pub check_obstacle : Scan F → Monitor F → Bool
  unfolding check_beams
  check_obstacle scan s = check_beams scan s 0 0 scan.ranges

  unfoldable pub scan_callback : (now : F) → Scan F → Monitor F → Monitor F
  unfolding check_obstacle
  scan_callback now scan s = record s { last_scan = now; blocked = check_obstacle scan s }

  unfoldable pub cmd_callback : Twist F → Monitor F → Monitor F
  cmd_callback cmd s = record s { last_cmd = cmd }

  -- `_publish_cmd`.
  unfoldable pub publish_cmd : Bool → Monitor F → Monitor F
  publish_cmd blocked s = record s {
    out =
        s.out
        ++ (if blocked
            then record { linear = lit 0 0; angular = lit 0 0 }
            else record { linear = s.last_cmd.linear; angular = s.last_cmd.angular })
          ∷ [];
  }

  -- `_forward_cmd`.
  unfoldable pub forward_cmd : (now : F) → Monitor F → Monitor F
  unfolding publish_cmd
  forward_cmd now s =
      publish_cmd (if leb_f (sub now s.last_scan) s.scan_timeout then s.blocked else false) s

-- What the node reacts to, at which time.
pub data Event (F : Type 0) : Type 0 where
  scanned : Scan F → Event F
  commanded : Twist F → Event F
  timer : Event F

module _ (fl : Float) (an : Angles fl.F) where
  open fl use {F}

  unfoldable pub handle : F × Event F → Monitor F → Monitor F
  unfolding scan_callback cmd_callback forward_cmd
  handle (now, scanned scan) s = scan_callback fl an now scan s
  handle (now, commanded cmd) s = cmd_callback fl an cmd s
  handle (now, timer) s = forward_cmd fl an now s

  unfoldable pub run : List (F × Event F) → Monitor F → Monitor F
  unfolding handle
  run [] s = s
  run (e ∷ es) s = run es (handle e s)
