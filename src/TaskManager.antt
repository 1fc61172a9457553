-- ===== src/TaskManager.antt =====
-- The task manager of one robot, ros2_ws/src/warehouse_bringup/warehouse_bringup/task_manager_node.py:
-- a priority queue of tasks and the state machine that carries out the active one. A callback takes
-- the node's state and returns the new one; what it publishes is appended to `out`.
pub mod Loop
pub mod Invariant
pub mod Running
pub mod Priority
mod Samples
use warehouse_digital_twin.Base.{
  ℕ, zero, suc, ◌+◌, ◌-◌, String, Bool, true, false, not, ◌&&◌, ◌||◌, ite, Option, none, some, List,
  [], ◌∷◌, ◌++◌, map, if◌then◌else◌, length, get_elem?, ltb, ◌==◌, str_dec, strip, split_on, keep,
}
use warehouse_digital_twin.Base.Int.{ℤ}
use warehouse_digital_twin.Base.Sort.{sort}
use warehouse_digital_twin.Fleet.State.{Point}
use warehouse_digital_twin.Fleet.Messages.{field_or}

pub data TaskStatus : Type 0 where
  waiting active completed : TaskStatus

pub data State : Type 0 where
  idle go_to_pickup picking go_to_dropoff dropping : State

pub record Task (F : Type 0) : Type 0 where
  pub id : String
  pub pickup : Point F
  pub dropoff : Point F
  pub priority : ℕ
  pub required_payload : F
  pub status : TaskStatus
  pub insert_idx : ℕ

pub record QueueInfo : Type 0 where
  pub queue_length : ℕ
  pub active_task : Option (String × ℕ)
  pub pending_tasks : List (String × ℕ)

pub data Message (F : Type 0) : Type 0 where
  goal_pose : Point F → Message F
  task_status : List (Task F) → Message F
  task_state : State → Option String → Message F
  queue_info : QueueInfo → Message F

-- `active_idx` is `_active_task_idx`, `none` for -1.
pub record Manager (F : Type 0) : Type 0 where
  pub tolerance : F
  pub pickup_delay : F
  pub dropoff_delay : F
  pub default_priority : ℤ
  pub robot_id : String
  pub tasks : List (Task F)
  pub insertion_counter : ℕ
  pub active_idx : Option ℕ
  pub state : State
  pub delay_start : F
  pub current_pose : Option (Point F)
  pub out : List (Message F)

abbrev pub is_waiting : TaskStatus → Bool
is_waiting waiting = true
is_waiting _ = false

-- The order of the waiting tasks: the key `(-priority, _insert_idx)`.
unfoldable pub goes_before : {F : Type 0} → Task F → Task F → Bool
goes_before a b =
    ltb b.priority a.priority || (a.priority == b.priority && ltb a.insert_idx b.insert_idx)

-- The head, at index `i`, against the best of the tail.
abbrev pub pick : {F : Type 0} → ℕ → Task F → Option (ℕ × Task F) → Option (ℕ × Task F)
pick i t none = if is_waiting t.status then some (i, t) else none
pick i t (some (j, u)) =
    if is_waiting t.status && not (goes_before u t) then some (i, t) else some (j, u)

-- The waiting task that sorts first, with its index.
unfoldable pub best_waiting : {F : Type 0} → ℕ → List (Task F) → Option (ℕ × Task F)
best_waiting i [] = none
best_waiting i (t ∷ ts) = pick i t (best_waiting (suc i) ts)

-- `self._tasks[i]["status"] = status`.
unfoldable pub set_status : {F : Type 0} → TaskStatus → ℕ → List (Task F) → List (Task F)
set_status st i [] = []
set_status st zero (t ∷ ts) = record t { status = st } ∷ ts
set_status st (suc i) (t ∷ ts) = t ∷ set_status st i ts

-- `self._tasks.pop(i)`.
unfoldable pub pop : {F : Type 0} → ℕ → List (Task F) → List (Task F)
pop i [] = []
pop zero (t ∷ ts) = ts
pop (suc i) (t ∷ ts) = t ∷ pop i ts

-- The first task with the id, with its index.
unfoldable pub find : {F : Type 0} → String → ℕ → List (Task F) → Option (ℕ × Task F)
find i n [] = none
find i n (t ∷ ts) = ite (str_dec t.id i) (some (n, t)) (find i (suc n) ts)

-- `self._state == "IDLE" and self._active_task_idx < 0`.
abbrev pub is_free : State → Option ℕ → Bool
is_free idle none = true
is_free _ _ = false

-- The index of the active task after the task at `i` is popped.
abbrev pub shift : ℕ → Option ℕ → Option ℕ
shift i none = none
shift i (some k) = if ltb i k then some (k - 1) else some k

-- `none` where the request is for another robot or names no task.
unfoldable pub cancel_target : (robot_id msg : String) → Option String
unfolding field_or
cancel_target robot_id msg =
    let parts = map strip (split_on b',' (strip msg)) in
    let target : Option String =
      if ltb (length parts) 2
      then some (field_or parts 0 "")
      else ite (str_dec (field_or parts 0 "") robot_id) (some (field_or parts 1 "")) none in
    elim target [ none ↦ none | some i ↦ ite (str_dec i "") none (some i) ]

module _ {F : Type 0} where
  unfoldable pub emit : Message F → Manager F → Manager F
  emit msg m = record m { out = m.out ++ msg ∷ [] }

  unfoldable pub publish_goal : Point F → Manager F → Manager F
  unfolding emit
  publish_goal p m = emit (goal_pose p) m

  unfoldable pub publish_status : Manager F → Manager F
  unfolding emit
  publish_status m = emit (task_status m.tasks) m

  -- The active task, where the index is in range.
  unfoldable pub active_task : Manager F → Option (Task F)
  active_task m = elim m.active_idx [ none ↦ none | some i ↦ get_elem? m.tasks i ]

  unfoldable pub publish_state : Manager F → Manager F
  unfolding emit active_task
  publish_state m =
      let name : Option String = elim (active_task m) [ none ↦ none | some t ↦ some t.id ] in
      emit (task_state m.state name) m

  unfoldable pub queue_summary : Manager F → QueueInfo
  unfolding active_task
  queue_summary m = record {
    queue_length = length m.tasks;
    active_task = elim (active_task m) [ none ↦ none | some t ↦ some (t.id, t.priority) ];
    pending_tasks =
        map (λ t. (t.id, t.priority)) (sort goes_before (keep (λ t. is_waiting t.status) m.tasks));
  }

  unfoldable pub publish_queue_info : Manager F → Manager F
  unfolding emit
  publish_queue_info m = emit (queue_info (queue_summary m)) m

  -- `_transition`, at time `now`.
  unfoldable pub transition : (now : F) → State → Manager F → Manager F
  transition now st m = record m { state = st; delay_start = now }

  unfoldable pub activate : (now : F) → ℕ → Task F → Manager F → Manager F
  unfolding transition publish_goal
  activate now i t m = publish_goal t.pickup (
      transition now go_to_pickup
        (record m { active_idx = some i; tasks = set_status active i m.tasks }))

  unfoldable pub activate_next : (now : F) → Manager F → Manager F
  unfolding activate
  activate_next now m = elim (best_waiting 0 m.tasks) [
    | none ↦ record m { state = idle }
    | some (i, t) ↦ activate now i t m
  ]

  unfoldable pub enqueue_task : (now : F) → Task F → Manager F → Manager F
  enqueue_task now t m =
      let m' = record m {
        insertion_counter = m.insertion_counter + 1;
        tasks = m.tasks ++ t ∷ [];
      } in
      if is_free m.state m.active_idx then activate_next now m' else m'

  unfoldable pub cancel_waiting : ℕ → Manager F → Manager F
  unfolding publish_status publish_queue_info
  cancel_waiting i m =
      publish_queue_info
        (publish_status (record m { tasks = pop i m.tasks; active_idx = shift i m.active_idx }))

  unfoldable pub cancel_active : (now : F) → ℕ → Manager F → Manager F
  unfolding publish_status publish_queue_info
  cancel_active now i m = publish_queue_info (
      publish_status
        (activate_next now (record m { tasks = pop i m.tasks; active_idx = none; state = idle })))

  unfoldable pub cancel_found : (now : F) → ℕ → TaskStatus → Manager F → Manager F
  cancel_found now i waiting m = cancel_waiting i m
  cancel_found now i active m = cancel_active now i m
  cancel_found now i completed m = m

  unfoldable pub cancel_task : (now : F) → String → Manager F → Manager F
  unfolding cancel_found
  cancel_task now i m = elim (find i 0 m.tasks) [
    | none ↦ m
    | some (k, t) ↦ cancel_found now k t.status m
  ]

  unfoldable pub cancel_task_callback : (now : F) → String → Manager F → Manager F
  cancel_task_callback now msg m = elim (cancel_target m.robot_id msg) [
    | none ↦ m
    | some i ↦ cancel_task now i m
  ]

  unfoldable pub pose_callback : Point F → Manager F → Manager F
  pose_callback p m = record m { current_pose = some p }
