-- ===== src/Beacon/Loop.antt =====
-- The timer of the beacon: `_update_battery`, `_exec_state` and `_control_loop`.
pub mod Battery
pub mod States
pub mod Charging
pub mod Restart
use warehouse_digital_twin.Base.{
  ℕ, String, Bool, true, false, not, ◌&&◌, ◌||◌, ite, Option, none, some, List, [], ◌∷◌,
  if◌then◌else◌, ltb, length, is_empty, str_dec,
}
use warehouse_digital_twin.Base.Int.{ℤ}
use warehouse_digital_twin.Base.Float.{Float, Trig, max_f, min_f}
use warehouse_digital_twin.Fleet.State.{Status, online, offline, Point}
use warehouse_digital_twin.Beacon.{
  ExecState, off, charging, returning, idle, assigned, planning, moving_to_pickup, picking,
  carrying, moving_to_dropoff, dropping, BatteryState, resting, filling, draining, Sample, Beat,
  Message, registration, Beacon, emit, state_callback, queue_callback, odom_callback, plan_callback,
  goal_callback, publish_charging_goal, publish_battery, publish_heartbeat, publish_pose,
  exec_of_fsm, pose_callback, battery_command_callback, control_callback, start_charging,
}

-- `not s`, for a text.
abbrev pub is_blank : String → Bool
is_blank s = ite (str_dec s "") true false

module _ (fl : Float) where
  open fl use {F, lit, ltb_f, leb_f, add, sub, mul, hypot}

  -- `_at_charging_pad`.
  unfoldable pub at_charging_pad : Beacon F → Bool
  at_charging_pad s = elim s.pose [
    | none ↦ false
    | some (x, y, _) ↦
        leb_f (hypot (sub x s.parameters.station.0) (sub y s.parameters.station.1))
          s.parameters.pad_radius
  ]

  -- The charge added in a tick, up to 100%; the robot rejoins the fleet when it is complete.
  unfoldable pub charge : (dt : F) → Beacon F → Beacon F
  charge dt s =
      let level = min_f fl (lit 100 0) (add s.battery (mul s.parameters.charge_rate dt)) in
      if leb_f s.parameters.charge_complete level
      then record s {
        battery = level;
        want_charge = false;
        battery_state = resting;
        forced_drain = false;
      }
      else record s { battery = level; battery_state = filling }

  unfoldable pub drain : (dt : F) → Beacon F → Beacon F
  drain dt s = record s {
    battery = max_f fl (lit 0 0) (sub s.battery (mul s.parameters.discharge_rate dt));
    battery_state = draining;
  }

  -- The branches of `_update_battery` before the last test.
  unfoldable pub use_battery : (dt : F) → Beacon F → Beacon F
  unfolding charge drain
  use_battery dt s =
      if s.charging
      then charge dt s
      else (if s.forced_drain || (not (is_blank s.current_task) && not s.want_charge)
          then drain dt s
          else record s { battery_state = resting })

  -- A critical battery sends the robot to the charging station.
  unfoldable pub seek_charger : Beacon F → Beacon F
  unfolding start_charging
  seek_charger s = if leb_f s.battery s.parameters.critical then start_charging fl s else s

  unfoldable pub update_battery : (dt : F) → Beacon F → Beacon F
  unfolding use_battery seek_charger at_charging_pad
  update_battery dt s =
      seek_charger (use_battery dt (record s { charging = s.want_charge && at_charging_pad s }))

  -- The first sample of the window.
  unfoldable pub in_window : (now window : F) → List (Sample F) → Option (Sample F)
  in_window now window [] = none
  in_window now window (h ∷ hs) =
      let later = in_window now window hs in if leb_f (sub now h.time) window then some h else later

  -- `_pose_changing`.
  unfoldable pub pose_changing : (now : F) → Beacon F → Bool
  unfolding in_window
  pose_changing now s = elim s.pose [
    | none ↦ false
    | some (x, y, _) ↦ elim s.pose_hist [
      | [] ↦ false
      | h ∷ hs ↦
          let origin : Sample F = elim (in_window now s.parameters.pose_window (h ∷ hs)) [
            | none ↦ h
            | some o ↦ o
          ] in
          not (is_empty hs)
          && leb_f s.parameters.pose_change (hypot (sub x origin.x) (sub y origin.y))
    ]
  ]

  -- `_moving`.
  unfoldable pub moving : (now : F) → Beacon F → Bool
  unfolding pose_changing
  moving now s = s.has_plan && ltb_f s.parameters.motion_threshold s.speed && pose_changing now s

  -- The end of `_exec_state`: a movement state without a path or motion is PLANNING.
  unfoldable pub checked : (now : F) → Beacon F → ExecState → ExecState
  unfolding moving
  checked now s moving_to_pickup = if moving now s then moving_to_pickup else planning
  checked now s carrying = if moving now s then carrying else planning
  checked now s moving_to_dropoff = if s.has_plan then moving_to_dropoff else planning
  checked now s state = state

  -- `_exec_state`.
  unfoldable pub exec_state : (now : F) → Beacon F → ExecState
  unfolding checked exec_of_fsm
  exec_state now s = elim s.status [
    | offline ↦ off
    | online ↦
        if s.charging
        then charging
        else (if s.want_charge
            then returning
            else (if is_blank s.current_task
                then (if moving now s then returning else idle)
                else ite (str_dec s.fsm_state "IDLE") assigned
                    (checked now s (exec_of_fsm s.fsm_state))))
  ]

  unfoldable pub beat : (round1 : F → F) → (now : F) → Beacon F → Beat F
  unfolding exec_state
  beat round1 now s = record {
    robot_id = s.robot_id;
    status = s.status;
    current_task = s.current_task;
    payload_capacity = s.parameters.payload_capacity;
    max_speed = s.parameters.max_speed;
    robot_type = s.parameters.robot_type;
    workload = s.workload;
    priority = s.parameters.priority;
    battery = round1 s.battery;
    charging = s.charging;
    namespace = s.parameters.namespace;
    exec_state = exec_state now s;
    moving = moving now s;
  }

  unfoldable pub publish_registration : (round1 : F → F) → (now : F) → Beacon F → Beacon F
  unfolding beat emit
  publish_registration round1 now s = emit (registration (beat round1 now s)) s

  -- A restart that is over brings the robot back ONLINE.
  unfoldable pub end_restart : (now : F) → Beacon F → Beacon F
  end_restart now s = elim s.restart_until [
    | none ↦ s
    | some t ↦ if leb_f t now then record s { restart_until = none; status = online } else s
  ]

  unfoldable pub control_loop : (round1 : F → F) → (now : F) → Beacon F → Beacon F
  unfolding end_restart update_battery publish_registration
  control_loop round1 now s =
      let dt = sub now s.last_tick in
      publish_registration round1 now (
        publish_pose (
          publish_heartbeat (
            publish_battery round1
              (update_battery dt (end_restart now (record s { last_tick = now }))))))

-- What the node reacts to, at which time.
pub data Event (F : Type 0) : Type 0 where
  task_state : Option (Option String × Option String) → Event F
  queue_info : Option (Option ℤ) → Event F
  amcl_pose : Point F → F × F × F × F → Event F
  odom : F → Event F
  plan : ℕ → Event F
  goal_set : Point F → Event F
  battery_command control : String → Event F
  timer : Event F

module _ (fl : Float) (trig : Trig fl.F) (round1 : fl.F → fl.F) where
  open fl use {F}

  unfoldable pub handle : F × Event F → Beacon F → Beacon F
  handle (now, task_state d) s = state_callback d s
  handle (now, queue_info d) s = queue_callback d s
  handle (now, amcl_pose p q) s = pose_callback fl trig now p q s
  handle (now, odom v) s = odom_callback v s
  handle (now, plan n) s = plan_callback n s
  handle (now, goal_set p) s = goal_callback p s
  handle (now, battery_command msg) s = battery_command_callback fl msg s
  handle (now, control msg) s = control_callback fl now msg s
  handle (now, timer) s = control_loop fl round1 now s

  unfoldable pub run : List (F × Event F) → Beacon F → Beacon F
  unfolding handle
  run [] s = s
  run (e ∷ es) s = run es (handle e s)
