-- ===== src/Beacon.antt =====
-- The status beacon of one robot, ros2_ws/src/warehouse_bringup/warehouse_bringup/robot_status_publisher.py:
-- its battery, its charging, and the execution state that it derives from what it hears. A callback
-- takes the node's state and returns the new one; what it publishes is appended to `out`. Each
-- callback reads the clock once.
pub mod Loop
pub mod Wire
mod Samples
use warehouse_digital_twin.Base.{
  ℕ, zero, suc, ◌+◌, ◌≤◌, String, Bool, true, false, not, ◌&&◌, ◌||◌, ite, Option, none, some, List,
  [], ◌∷◌, ◌++◌, if◌then◌else◌, leb, length, is_empty, str_dec, strip, lower, strip_prefix,
}
use warehouse_digital_twin.Base.Int.{ℤ, pos}
use warehouse_digital_twin.Base.Float.{Float, Trig, max_f, min_f}
use warehouse_digital_twin.Fleet.State.{Status, online, offline, Point}

pub data ExecState : Type 0 where
  off charging returning idle assigned planning moving_to_pickup picking carrying moving_to_dropoff
        dropping :
      ExecState

pub data BatteryState : Type 0 where
  resting filling draining : BatteryState

-- A sample of `_pose_hist`: the time, x and y.
pub record Sample (F : Type 0) : Type 0 where
  pub time : F
  pub x : F
  pub y : F

-- What /robot_registration carries, before it is printed.
pub record Beat (F : Type 0) : Type 0 where
  pub robot_id : String
  pub status : Status
  pub current_task : String
  pub payload_capacity : F
  pub max_speed : F
  pub robot_type : String
  pub workload : ℤ
  pub priority : F
  pub battery : F
  pub charging : Bool
  pub namespace : String
  pub exec_state : ExecState
  pub moving : Bool

pub data Message (F : Type 0) : Type 0 where
  registration : Beat F → Message F
  heartbeat : String → Message F
  robot_pose : String → F × F × F → Message F
  battery_status : String → F → Bool → BatteryState → Message F
  goal_pose : Point F → Message F

pub record Parameters (F : Type 0) : Type 0 where
  pub payload_capacity : F
  pub max_speed : F
  pub robot_type : String
  pub priority : F
  pub namespace : String
  pub discharge_rate : F
  pub charge_rate : F
  pub critical : F
  pub charge_complete : F
  pub station : Point F
  pub pad_radius : F
  pub motion_threshold : F
  pub pose_change : F
  pub pose_window : F

pub record Beacon (F : Type 0) : Type 0 where
  pub parameters : Parameters F
  pub robot_id : String
  pub status : Status
  pub current_task : String
  pub workload : ℤ
  pub pose : Option (F × F × F)
  pub pose_hist : List (Sample F)
  pub battery : F
  pub want_charge : Bool
  pub charging : Bool
  pub battery_state : BatteryState
  pub last_tick : F
  pub forced_drain : Bool
  pub restart_until : Option F
  pub fsm_state : String
  pub has_plan : Bool
  pub speed : F
  pub goal : Option (Point F)
  pub out : List (Message F)

module _ {F : Type 0} where
  unfoldable pub emit : Message F → Beacon F → Beacon F
  emit msg s = record s { out = s.out ++ msg ∷ [] }

  -- `_state_callback`: the state and the active task of the JSON object, `none` where a key is
  -- missing; a text that is no JSON changes nothing.
  unfoldable pub state_callback : Option (Option String × Option String) → Beacon F → Beacon F
  state_callback none s = s
  state_callback (some (state, task)) s = record s {
    fsm_state = elim state [ none ↦ "IDLE" | some t ↦ t ];
    current_task = elim task [ none ↦ "" | some t ↦ t ];
  }

  -- `_queue_callback`: the queue length of the JSON object.
  unfoldable pub queue_callback : Option (Option ℤ) → Beacon F → Beacon F
  queue_callback none s = s
  queue_callback (some n) s = record s { workload = elim n [ none ↦ pos 0 | some k ↦ k ] }

  unfoldable pub odom_callback : F → Beacon F → Beacon F
  odom_callback v s = record s { speed = v }

  -- `_plan_callback`, for the number of poses of the path.
  unfoldable pub plan_callback : ℕ → Beacon F → Beacon F
  plan_callback n s = record s { has_plan = leb 2 n }

  unfoldable pub goal_callback : Point F → Beacon F → Beacon F
  goal_callback p s = record s { goal = some p }

  unfoldable pub publish_charging_goal : Beacon F → Beacon F
  unfolding emit
  publish_charging_goal s = emit (goal_pose s.parameters.station) s

  unfoldable pub publish_battery : (round1 : F → F) → Beacon F → Beacon F
  unfolding emit
  publish_battery round1 s =
      emit (battery_status s.robot_id (round1 s.battery) s.charging s.battery_state) s

  unfoldable pub publish_heartbeat : Beacon F → Beacon F
  unfolding emit
  publish_heartbeat s = emit (heartbeat s.robot_id) s

  unfoldable pub publish_pose : Beacon F → Beacon F
  unfolding emit
  publish_pose s = elim s.pose [ none ↦ s | some p ↦ emit (robot_pose s.robot_id p) s ]

-- `_FSM_EXEC.get(state, "ASSIGNED")`.
unfoldable pub exec_of_fsm : String → ExecState
exec_of_fsm state = ite (str_dec state "GO_TO_PICKUP") moving_to_pickup (
    ite (str_dec state "PICKING") picking (
      ite (str_dec state "GO_TO_DROPOFF") carrying
        (ite (str_dec state "DROPPING") dropping assigned)))

module _ (fl : Float) where
  open fl use {F, lit, ltb_f, leb_f, add, sub, mul, hypot, float_of_str}

  unfoldable pub drop_old : (cutoff : F) → List (Sample F) → List (Sample F)
  drop_old cutoff [] = []
  drop_old cutoff (h ∷ hs) =
      let rest = drop_old cutoff hs in if ltb_f h.time cutoff then rest else h ∷ hs

  -- `_pose_callback`, for the position and the orientation (x, y, z, w).
  unfoldable pub pose_callback :
      Trig F → (now : F) → Point F → (q : F × F × F × F) → Beacon F → Beacon F
  unfolding drop_old
  pose_callback trig now (x, y) (qx, qy, qz, qw) s =
      let two = lit 2 0 in
      let yaw =
        trig.atan2 (mul two (add (mul qw qz) (mul qx qy)))
          (sub (lit 1 0) (mul two (add (mul qy qy) (mul qz qz)))) in
      let cutoff = sub now (max_f fl (mul s.parameters.pose_window (lit 3 0)) (lit 1 0)) in
      record s {
        pose = some (x, y, yaw);
        pose_hist = drop_old cutoff (s.pose_hist ++ record { time = now; x = x; y = y } ∷ []);
      }

  -- `max(0.0, min(100.0, x))`.
  unfoldable pub percent : F → F
  percent x = max_f fl (lit 0 0) (min_f fl (lit 100 0) x)

  unfoldable pub start_charging : Beacon F → Beacon F
  unfolding publish_charging_goal
  start_charging s =
      if s.want_charge then s else publish_charging_goal (record s { want_charge = true })

  unfoldable pub battery_command_callback : String → Beacon F → Beacon F
  unfolding start_charging percent
  battery_command_callback msg s =
      let cmd = lower (strip msg) in
      ite (str_dec cmd "drain") (record s { forced_drain = true })
        (ite (str_dec cmd "discharge") (record s { forced_drain = true })
          (ite (str_dec cmd "recharge") (start_charging (record s { forced_drain = false }))
            (elim (strip_prefix "set:" cmd) [
              | none ↦ s
              | some text ↦ elim (float_of_str text) [
                | none ↦ s
                | some x ↦ record s { battery = percent x }
              ]
            ])))

  -- `_control_callback`: a restart, unless one is under way.
  unfoldable pub control_callback : (now : F) → String → Beacon F → Beacon F
  control_callback now msg s =
      ite (str_dec (lower (strip msg)) "restart")
        (elim s.restart_until [
          | none ↦ record s { restart_until = some (add now (lit 2 0)); status = offline }
          | some _ ↦ s
        ])
        s
