-- ===== src/TaskManager/Loop.antt =====
-- The timer and the assignments of the task manager: `_control_loop`, `_check_arrival`,
-- `_publish_active_goal` and `_assignment_callback`.
use warehouse_digital_twin.Base.{
  ℕ, String, Bool, true, false, not, ite, Option, none, some, List, [], ◌∷◌, ◌++◌, if◌then◌else◌,
  length, get_elem?, ltb, str_dec,
}
use warehouse_digital_twin.Base.Float.{Float}
use warehouse_digital_twin.Fleet.State.{Point}
use warehouse_digital_twin.Fleet.Messages.{
  ◌>>=◌, ◌>>◌, guard, fields, field_or, float_field, int_field, clamp_priority,
}
use warehouse_digital_twin.TaskManager.{
  waiting, completed, State, idle, go_to_pickup, picking, go_to_dropoff, dropping, Task, Message,
  goal_pose, Manager, set_status, publish_goal, publish_status, publish_state, publish_queue_info,
  active_task, transition, activate_next, enqueue_task, cancel_task_callback, pose_callback,
}

-- What an assignment says of its task.
pub record Assignment (F : Type 0) : Type 0 where
  pub id : String
  pub pickup : Point F
  pub dropoff : Point F
  pub priority : ℕ
  pub required_payload : F

module _ (fl : Float) where
  open fl use {F, lit, ltb_f, leb_f, sub, hypot}

  abbrev goal_of : State → Task F → Point F
  goal_of go_to_pickup t = t.pickup
  goal_of _ t = t.dropoff

  unfoldable pub active_goal : Manager F → List (Message F)
  unfolding active_task
  active_goal m = elim (active_task m) [ none ↦ [] | some t ↦ goal_pose (goal_of m.state t) ∷ [] ]

  unfoldable pub publish_active_goal : Manager F → Manager F
  publish_active_goal m = record m { out = m.out ++ active_goal m }

  -- Strictly within the tolerance of the target; never before a pose is known.
  unfoldable pub arrived : Point F → Manager F → Bool
  arrived target m = elim m.current_pose [
    | none ↦ false
    | some p ↦ ltb_f (hypot (sub target.0 p.0) (sub target.1 p.1)) m.tolerance
  ]

  unfoldable pub check_arrival : (now : F) → Point F → State → Manager F → Manager F
  unfolding arrived transition
  check_arrival now target next m = if arrived target m then transition now next m else m

  -- `time.monotonic() - self._delay_start >= delay`.
  unfoldable pub waited : (now delay : F) → Manager F → Bool
  waited now delay m = leb_f delay (sub now m.delay_start)

  -- The four states in which a task `t` is carried out, `i` its index.
  unfoldable pub drive : (now : F) → State → ℕ → Task F → Manager F → Manager F
  unfolding publish_active_goal check_arrival waited transition publish_goal
  drive now idle i t m = m
  drive now go_to_pickup i t m = check_arrival now t.pickup picking (publish_active_goal m)
  drive now picking i t m =
      if waited now m.pickup_delay m
      then publish_goal t.dropoff (transition now go_to_dropoff m)
      else m
  drive now go_to_dropoff i t m = check_arrival now t.dropoff dropping (publish_active_goal m)
  drive now dropping i t m =
      if waited now m.dropoff_delay m
      then activate_next now
          (record m { tasks = set_status completed i m.tasks; active_idx = none })
      else m

  -- The active task, with its index.
  unfoldable pub running : Manager F → Option (ℕ × Task F)
  running m = elim m.active_idx [
    | none ↦ none
    | some i ↦ elim (get_elem? m.tasks i) [ none ↦ none | some t ↦ some (i, t) ]
  ]

  -- An active index that is -1 or out of range outside IDLE makes the source read another task or
  -- raise; here nothing happens then, and the invariant of `Invariant` excludes it.
  unfoldable pub control_loop : (now : F) → Manager F → Manager F
  unfolding publish_status publish_state publish_queue_info
  control_loop now m =
      let m' = publish_queue_info (publish_state (publish_status m)) in
      elim (running m) [ none ↦ m' | some (i, t) ↦ drive now m.state i t m' ]

  -- The fields of an assignment for this robot.
  unfoldable pub parse_assignment : String → Manager F → Option (Assignment F)
  unfolding fields field_or float_field int_field clamp_priority
  parse_assignment msg m = do
    let parts = fields msg
    guard (not (ltb (length parts) 6))
    guard (ite (str_dec (field_or parts 0 "") m.robot_id) true false)
    priority ← int_field fl parts 6 m.default_priority
    required_payload ← float_field fl parts 7 (lit 0 0)
    pickup_x ← float_field fl parts 2 (lit 0 0)
    pickup_y ← float_field fl parts 3 (lit 0 0)
    dropoff_x ← float_field fl parts 4 (lit 0 0)
    dropoff_y ← float_field fl parts 5 (lit 0 0)
    some (record {
      id = field_or parts 1 "";
      pickup = (pickup_x, pickup_y);
      dropoff = (dropoff_x, dropoff_y);
      priority = clamp_priority priority;
      required_payload = required_payload;
    })

  -- The task's dictionary: it waits, and carries the insertion counter.
  unfoldable pub new_task : Assignment F → Manager F → Task F
  new_task a m = record {
    id = a.id;
    pickup = a.pickup;
    dropoff = a.dropoff;
    priority = a.priority;
    required_payload = a.required_payload;
    status = waiting;
    insert_idx = m.insertion_counter;
  }

  unfoldable pub assignment_callback : (now : F) → String → Manager F → Manager F
  unfolding new_task
  assignment_callback now msg m = elim (parse_assignment msg m) [
    | none ↦ m
    | some a ↦ enqueue_task now (new_task a m) m
  ]

-- What the node reacts to.
pub data Event (F : Type 0) : Type 0 where
  assignment cancel : String → Event F
  pose : Point F → Event F
  timer : Event F

module _ (fl : Float) where
  open fl use {F}

  unfoldable pub handle : F × Event F → Manager F → Manager F
  handle (now, assignment msg) m = assignment_callback fl now msg m
  handle (now, cancel msg) m = cancel_task_callback now msg m
  handle (now, pose p) m = pose_callback p m
  handle (now, timer) m = control_loop fl now m

  unfoldable pub run : List (F × Event F) → Manager F → Manager F
  run [] m = m
  run (e ∷ es) m = run es (handle e m)
