-- ===== src/Fleet/Callbacks.antt =====
-- The subscriptions and the timer of the Fleet Manager: `_registration_callback`, `_pose_callback`,
-- `_heartbeat_callback`, `_task_callback`, `_check_reservation_release` and `_control_loop`.
-- The clock is read once for each handler.
pub mod Safety
use warehouse_digital_twin.Base.{
  ℕ, suc, ◌+◌, ◌≡◌, String, Bool, true, false, not, ◌&&◌, ite, Option, none, some, List, [], ◌∷◌,
  ◌++◌, if◌then◌else◌, str_dec, strip,
}
use warehouse_digital_twin.Base.Dict.{Dict, get, set}
use warehouse_digital_twin.Base.Float.{Float}
use warehouse_digital_twin.Fleet.State.{
  Status, online, offline, Robot, Task, Reservation, Params, load_config, Fleet, Message, emit,
}
use warehouse_digital_twin.Fleet.Publish.{is_blank, is_online, publish_reservations, publish_fleet}
use warehouse_digital_twin.Fleet.Traffic.{release_reservations}
use warehouse_digital_twin.Fleet.Dispatch.{
  Outcome, assigned, no_robot, schedule_task, publish_assignment,
}
use warehouse_digital_twin.Fleet.Recovery.{
  task_exists, check_heartbeats, check_battery, check_traffic, process_retry_tasks,
}
use warehouse_digital_twin.Fleet.Rebalance.{rebalance}
use warehouse_digital_twin.Fleet.Messages.{Registration, parse_registration, parse_pose, parse_task}

module _ (fl : Float) where
  open fl use {F}

  -- The registry entry after a registration: a new one, or the old one refreshed.
  unfoldable pub new_entry : (now : F) → Registration F → Robot F
  new_entry now g = record {
    robot_id = g.robot_id;
    status = g.status;
    current_task = g.current_task;
    last_seen = now;
    payload_capacity = g.payload_capacity;
    max_speed = g.max_speed;
    robot_type = g.robot_type;
    workload = g.workload;
    priority = g.priority;
    battery = g.battery;
    charging = g.charging;
    namespace = g.namespace;
    exec_state = g.exec_state;
    moving = g.moving;
    x = none;
    y = none;
    yaw = none;
  }

  unfoldable pub refresh_entry : (now : F) → Registration F → Robot F → Robot F
  refresh_entry now g e = record e {
    status = g.status;
    current_task = g.current_task;
    payload_capacity = g.payload_capacity;
    max_speed = g.max_speed;
    robot_type = g.robot_type;
    workload = g.workload;
    priority = g.priority;
    battery = g.battery;
    charging = g.charging;
    exec_state = g.exec_state;
    moving = g.moving;
    namespace = if is_blank g.namespace then e.namespace else g.namespace;
    last_seen = now;
  }

  unfoldable pub check_reservation_release : String → (current_task : String) → Fleet F → Fleet F
  check_reservation_release r current_task s = elim (get str_dec r s.reservations) [
    | none ↦ s
    | some res ↦
        ite (str_dec current_task res.task_id)
          (record s {
            reservations = set str_dec r (record res { activated = true }) s.reservations;
          })
          (if is_blank current_task && res.activated
            then rebalance fl (
                publish_reservations
                  (release_reservations r (record s { tasks_completed = s.tasks_completed + 1 })).0)
            else s)
  ]

  unfoldable pub register : (now : F) → Registration F → Fleet F → Fleet F
  unfolding new_entry refresh_entry
  register now g s =
      let entry : Robot F = elim (get str_dec g.robot_id s.robots) [
        | none ↦ new_entry now g
        | some e ↦ refresh_entry now g e
      ] in
      check_reservation_release g.robot_id g.current_task
        (publish_fleet (record s { robots = set str_dec g.robot_id entry s.robots }))

  unfoldable pub registration_callback : (now : F) → String → Fleet F → Fleet F
  registration_callback now msg s = elim (parse_registration fl msg) [
    | none ↦ s
    | some g ↦ register now g s
  ]

  unfoldable pub pose_callback : String → Fleet F → Fleet F
  pose_callback msg s = elim (parse_pose fl msg) [
    | none ↦ s
    | some (r, px, py, pyaw) ↦ elim (get str_dec r s.robots) [
      | none ↦ s
      | some e ↦ record s {
        robots = set str_dec r (record e { x = some px; y = some py; yaw = some pyaw }) s.robots;
      }
    ]
  ]

  unfoldable pub heartbeat_callback : (now : F) → String → Fleet F → Fleet F
  unfolding strip
  heartbeat_callback now msg s =
      let r = strip msg in
      if is_blank r then s else elim (get str_dec r s.robots) [
        | none ↦ s
        | some e ↦
            if is_online e.status
            then record s { robots = set str_dec r (record e { last_seen = now }) s.robots }
            else publish_fleet (record s {
              robots = set str_dec r (record e { last_seen = now; status = online }) s.robots;
            })
      ]

  -- What `_task_callback` does with a parsed task.
  unfoldable pub submit : Task F → Fleet F → Fleet F
  submit t s =
      let (s', outcome, t') =
        schedule_task fl t (record s { tasks_submitted = s.tasks_submitted + 1 }) in
      if task_exists t.task_id s
      then s
      else publish_reservations (
          publish_fleet
            (elim outcome [ no_robot ↦ publish_assignment fl "NONE" t' s' | assigned ↦ s' ]))

  unfoldable pub task_callback : String → Fleet F → Fleet F
  task_callback msg s = elim (parse_task fl msg) [ none ↦ s | some t ↦ submit t s ]

  -- The parameters are read anew in each round.
  unfoldable pub control_loop : (now : F) → Params F → Fleet F → Fleet F
  control_loop now params s =
      let loaded = record s { config = load_config params } in
      let healthy = check_battery fl (check_heartbeats fl now loaded) in
      publish_fleet
        (publish_reservations (rebalance fl (process_retry_tasks fl (check_traffic fl healthy))))

-- What the node reacts to, with the time at which it does.
pub data Event (F : Type 0) : Type 0 where
  registration : String → Event F
  pose : String → Event F
  heartbeat : String → Event F
  add_task : String → Event F
  timer : Params F → Event F

module _ (fl : Float) where
  open fl use {F}

  unfoldable pub handle : F × Event F → Fleet F → Fleet F
  handle (now, registration msg) s = registration_callback fl now msg s
  handle (now, pose msg) s = pose_callback fl msg s
  handle (now, heartbeat msg) s = heartbeat_callback fl now msg s
  handle (now, add_task msg) s = task_callback fl msg s
  handle (now, timer params) s = control_loop fl now params s

  -- The single-threaded executor runs one handler after the other.
  unfoldable pub run : List (F × Event F) → Fleet F → Fleet F
  run [] s = s
  run (e ∷ es) s = run es (handle e s)
