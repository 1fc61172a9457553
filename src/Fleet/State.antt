-- ===== src/Fleet/State.antt =====
-- The state of `FleetManagerNode`: its attributes, the entries of its dicts, and what it publishes.
use warehouse_digital_twin.Base.{ℕ, zero, suc, String, Bool, Option, List, ◌∷◌, [], ◌++◌}
use warehouse_digital_twin.Base.Int.{ℤ, pos, negsuc, ℤ_dec}
use warehouse_digital_twin.Base.Dict.{Dict}

pub data Status : Type 0 where
  online offline : Status

abbrev pub Point : Type 0 → Type 0
Point F = F × F

-- A cell of the traffic grid.
abbrev pub Cell : Type 0
Cell = ℤ × ℤ

unfoldable pub cell_dec : Discrete Cell
unfolding ℤ_dec
cell_dec = hlevel ℤ_dec

-- An entry of `_robots`.
pub record Robot (F : Type 0) : Type 0 where
  pub robot_id : String
  pub status : Status
  pub current_task : String
  pub last_seen : F
  pub payload_capacity : F
  pub max_speed : F
  pub robot_type : String
  pub workload : F
  pub priority : F
  pub battery : F
  pub charging : Bool
  pub namespace : String
  pub exec_state : String
  pub moving : Bool
  pub x : Option F
  pub y : Option F
  pub yaw : Option F

-- `seq` is `_seq`, 0 until `_schedule_task` draws one.
pub record Task (F : Type 0) : Type 0 where
  pub task_id : String
  pub pickup : Point F
  pub dropoff : Point F
  pub priority : ℕ
  pub required_payload : F
  pub seq : ℕ

-- An entry of `_reservations`. `reserved` is the set `reserved_segment_indices`, and `cells` a set.
pub record Reservation (F : Type 0) : Type 0 where
  pub task_id : String
  pub task : Task F
  pub route : List Cell
  pub segments : List (List Cell)
  pub route_dir : Point F
  pub segment_index : ℕ
  pub reserved : List ℕ
  pub head_on : Bool
  pub activated : Bool
  pub cells : List Cell

-- The node's parameters as `get_parameter` gives them.
pub record Params (F : Type 0) : Type 0 where
  pub heartbeat_timeout : F
  pub cell_size : F
  pub reservation_buffer : ℤ
  pub score_w_distance : F
  pub score_w_queue : F
  pub score_w_battery : F
  pub score_w_current : F
  pub score_w_eta : F
  pub low_battery_threshold : F
  pub critical_battery_threshold : F
  pub segment_size : ℤ
  pub traffic_lookahead : ℤ

pub record Config (F : Type 0) : Type 0 where
  pub heartbeat_timeout : F
  pub cell_size : F
  pub reservation_buffer : ℤ
  pub w_distance : F
  pub w_queue : F
  pub w_battery : F
  pub w_current : F
  pub w_eta : F
  pub low_battery : F
  pub critical_battery : F
  pub segment_size : ℕ
  pub lookahead : ℕ

-- `max(1, n)`.
at_least_one : ℤ → ℕ
at_least_one (pos zero) = 1
at_least_one (pos (suc n)) = suc n
at_least_one (negsuc n) = 1

-- `max(0, n)`.
at_least_zero : ℤ → ℕ
at_least_zero (pos n) = n
at_least_zero (negsuc n) = 0

unfoldable pub load_config : {F : Type 0} → Params F → Config F
unfolding at_least_one at_least_zero
load_config p = record {
  heartbeat_timeout = p.heartbeat_timeout;
  cell_size = p.cell_size;
  reservation_buffer = p.reservation_buffer;
  w_distance = p.score_w_distance;
  w_queue = p.score_w_queue;
  w_battery = p.score_w_battery;
  w_current = p.score_w_current;
  w_eta = p.score_w_eta;
  low_battery = p.low_battery_threshold;
  critical_battery = p.critical_battery_threshold;
  segment_size = at_least_one p.segment_size;
  lookahead = at_least_zero p.traffic_lookahead;
}

pub data Reason : Type 0 where
  waiting_for_robot redispatched : Reason

pub record Candidate (F : Type 0) : Type 0 where
  pub robot_id : String
  pub score : F
  pub busy : Bool
  pub queue_len : ℕ
  pub battery : F

-- One item of `reservations` in /reservation_status.
pub record ReservationView : Type 0 where
  pub robot_id : String
  pub task_id : String
  pub activated : Bool
  pub segment_index : ℕ
  pub segments_reserved : List ℕ
  pub total_segments : ℕ
  pub head_on : Bool
  pub cells : List Cell

pub record ReservationStatus : Type 0 where
  pub reservation_count : ℕ
  pub pending_dispatches : List (String × String)
  pub retry_tasks : List String
  pub waiting_tasks : List String
  pub robot_queues : List (String × List String)
  pub reservations : List ReservationView

-- The counts of /fleet_monitor; the heartbeat ages of its last part are left out.
pub record FleetMonitor : Type 0 where
  pub total_robots : ℕ
  pub online_robots : ℕ
  pub offline_robots : ℕ
  pub idle_robots : ℕ
  pub busy_robots : ℕ
  pub queued : ℕ
  pub active : ℕ
  pub completed : ℕ
  pub submitted : ℕ
  pub reserved_cells : ℕ
  pub pending_dispatches : ℕ
  pub waiting_tasks : ℕ
  pub retry_tasks : ℕ
  pub released_total : ℕ

-- What the node publishes, by topic.
pub data Message (F : Type 0) : Type 0 where
  task_assignment :
      (robot_id task_id : String) (pickup dropoff : Point F) (priority : ℕ) (required_payload : F)
      → Message F
  cancel_task : (robot_id task_id : String) → Message F
  robot_failed : (robot_id : String) (tasks_recovered : List String) → Message F
  robot_charging : (robot_id : String) (tasks_released : List String) → Message F
  task_recovered : (task_id : String) → Reason → Message F
  dispatch_decision :
      (task_id : String) (required_payload : F) (selected_robot : String) (score : Option F)
      (candidates : List (Candidate F))
      → Message F
  fleet_status : List (Robot F) → Message F
  fleet_monitor : FleetMonitor → Message F
  reservation_status : ReservationStatus → Message F

pub record Fleet (F : Type 0) : Type 0 where
  pub config : Config F
  pub robots : Dict String (Robot F)
  pub robot_queues : Dict String (List (Task F))
  pub waiting_tasks : List (Task F)
  pub task_seq : ℕ
  pub reservations : Dict String (Reservation F)
  pub cell_owners : Dict Cell String
  pub retry_tasks : List (Task F)
  pub tasks_submitted : ℕ
  pub tasks_completed : ℕ
  pub reservations_released : ℕ
  pub out : List (Message F)

-- The state after `__init__`.
unfoldable pub init : {F : Type 0} → Params F → Fleet F
init p = record {
  config = load_config p;
  robots = [];
  robot_queues = [];
  waiting_tasks = [];
  task_seq = 0;
  reservations = [];
  cell_owners = [];
  retry_tasks = [];
  tasks_submitted = 0;
  tasks_completed = 0;
  reservations_released = 0;
  out = [];
}

unfoldable pub emit : {F : Type 0} → Message F → Fleet F → Fleet F
emit m s = record s { out = s.out ++ m ∷ [] }
