-- ===== src/Beacon/Samples.antt =====
-- A robot that works, is sent to the charging station and restarts: a test, and instances of the
-- theorems.
use warehouse_digital_twin.Base.{
  ◌≡◌, refl, false, none, some, List, [], ◌∷◌, arith, str_dec, lower, strip, is_empty,
}
use warehouse_digital_twin.Base.Int.{ℤ, pos, negsuc, ltb_ℤ, ◌+ℤ◌, ◌-ℤ◌}
use warehouse_digital_twin.Base.Float.{Trig}
use warehouse_digital_twin.Base.Fixed.{fixed}
use warehouse_digital_twin.Fleet.State.{online}
use warehouse_digital_twin.Beacon.{
  Beacon, resting, moving_to_pickup, state_callback, odom_callback, plan_callback, pose_callback,
  drop_old, control_callback, exec_of_fsm, publish_pose, publish_heartbeat, publish_battery, emit,
}
use warehouse_digital_twin.Beacon.Loop.{
  update_battery, control_loop, Event, task_state, amcl_pose, odom, plan, control, timer, run,
  exec_state, handle, checked, moving, pose_changing, in_window, publish_registration, beat,
  end_restart, use_battery, seek_charger, drain, at_charging_pad,
}
use warehouse_digital_twin.Beacon.Loop.Battery.{Levels, IsLevel, run-IsLevel}
use warehouse_digital_twin.Beacon.Loop.States.{Means, exec_state-Means}
use warehouse_digital_twin.Beacon.Loop.Charging.{Latches, update_battery-Latches}
use warehouse_digital_twin.Beacon.Loop.Restart.{IsOver, run-restarts}

abbrev robot : Beacon ℤ
robot = record {
  parameters = record {
    payload_capacity = pos 5000;
    max_speed = pos 1000;
    robot_type = "amr";
    priority = pos 0;
    namespace = "tb3_1";
    discharge_rate = pos 10000;
    charge_rate = pos 50000;
    critical = pos 15000;
    charge_complete = pos 100000;
    station = (pos 0, pos 5000);
    pad_radius = pos 700;
    motion_threshold = pos 20;
    pose_change = pos 10;
    pose_window = pos 250;
  };
  robot_id = "tb3_1";
  status = online;
  current_task = "";
  workload = pos 0;
  pose = none;
  pose_hist = [];
  battery = pos 60000;
  want_charge = false;
  charging = false;
  battery_state = resting;
  last_tick = pos 0;
  forced_drain = false;
  restart_until = none;
  fsm_state = "IDLE";
  has_plan = false;
  speed = pos 0;
  goal = none;
  out = [];
}

abbrev flat : Trig ℤ
flat = record { sin = λ a. a; cos = λ a. pos 1000; atan2 = λ y x. y }

abbrev same : ℤ → ℤ
same a = a

-- A task, a path and motion towards the pickup.
abbrev working : List (ℤ × Event ℤ)
working =
    (pos 100, task_state (some (some "GO_TO_PICKUP", some "t1")))
    ∷ (pos 200, plan 3)
    ∷ (pos 300, odom (pos 200))
    ∷ (pos 400, amcl_pose (pos 0, pos 0) (pos 0, pos 0, pos 0, pos 1000))
    ∷ (pos 500, amcl_pose (pos 200, pos 0) (pos 0, pos 0, pos 0, pos 1000))
    ∷ (pos 1000, timer)
    ∷ []

abbrev at_work : Beacon ℤ
at_work = run fixed flat same working robot

-- A restart at 0.1 s, which is over at 2.1 s.
abbrev restarted : List (ℤ × Event ℤ)
restarted = (pos 100, control "restart") ∷ (pos 1000, timer) ∷ []

working_drives : exec_state fixed (pos 500) at_work ≡ moving_to_pickup
unfolding exec_state checked moving pose_changing in_window run handle control_loop update_battery
    publish_pose publish_heartbeat publish_battery pose_callback odom_callback plan_callback
    state_callback drop_old exec_of_fsm str_dec ◌-ℤ◌ ◌+ℤ◌ emit publish_registration beat end_restart
    use_battery seek_charger drain at_charging_pad is_empty
working_drives = refl

fixed-Levels : Levels fixed
unfolding ◌+ℤ◌ ◌-ℤ◌
fixed-Levels = record {
  lt_asym = λ a b h. ground arith;
  lt_irrefl = λ a. ground arith;
  zero_lt_full = refl;
  le_trans = λ a b c h k. ground arith;
  add_not_neg = λ a b h k. ground arith;
  mul_not_neg = mul_not_neg;
  sub_not_over = λ a b c h k. ground arith;
  sub_not_neg = λ a b h. ground arith;
}
  where
    mul_not_neg :
        (a b : ℤ)
        → ltb_ℤ a (pos 0) ≡ false
        → ltb_ℤ b (pos 0) ≡ false
        → ltb_ℤ (fixed.mul a b) (pos 0) ≡ false
    mul_not_neg (pos a) (pos b) h k = ground arith
    mul_not_neg (negsuc a) b h k = absurd (ground arith)
    mul_not_neg (pos a) (negsuc b) h k = absurd (ground arith)

run-IsLevel_example : IsLevel fixed (run fixed flat same working robot).battery
run-IsLevel_example =
    run-IsLevel fixed fixed-Levels flat same (pos 0) working robot
      (refl, refl, (refl, refl, (refl, refl, (refl, refl, (refl, refl, (refl, refl, tt))))))
      ((refl, refl), (refl, refl), refl)

exec_state-Means_example : Means fixed (pos 500) at_work (exec_state fixed (pos 500) at_work)
exec_state-Means_example = exec_state-Means fixed (pos 500) at_work

update_battery-Latches_example : Latches fixed at_work (update_battery fixed (pos 4000) at_work)
update_battery-Latches_example = update_battery-Latches fixed (pos 4000) at_work

restarted-IsOver : IsOver fixed (pos 2100) (run fixed flat same restarted robot)
unfolding run handle control_callback lower strip str_dec control_loop publish_registration
    publish_heartbeat publish_battery publish_pose emit update_battery use_battery seek_charger
    end_restart ◌-ℤ◌ ◌+ℤ◌ at_charging_pad
restarted-IsOver = refl

run-restarts_example :
    ((control_loop fixed same (pos 2100) (run fixed flat same restarted robot)).status ≡ online)
    × ((control_loop fixed same (pos 2100) (run fixed flat same restarted robot)).restart_until
        ≡ none)
run-restarts_example = run-restarts fixed flat same (pos 2100) restarted robot refl restarted-IsOver
