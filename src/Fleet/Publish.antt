-- ===== src/Fleet/Publish.antt =====
-- What the Fleet Manager publishes about its own state: `_publish_reservations`, `_publish_fleet`,
-- `_publish_fleet_monitor` and the messages that it builds from arguments.
use warehouse_digital_twin.Base.{
  ℕ, ◌+◌, ◌-◌, String, Bool, true, false, ◌&&◌, ite, List, [], ◌∷◌, ◌++◌, map, length, keep, ltb,
  str_dec,
}
use warehouse_digital_twin.Base.Int.{ltb_ℤ, ℤ_dec}
use warehouse_digital_twin.Base.Dict.{Dict, values}
use warehouse_digital_twin.Base.Sort.{sort, str_ltb}
use warehouse_digital_twin.Fleet.State.{
  Status, online, offline, Cell, Robot, Task, Reservation, Fleet, ReservationView,
  ReservationStatus, FleetMonitor, fleet_status, fleet_monitor, reservation_status, emit,
}

abbrev by_key : {V : Type 0} → String × V → String × V → Bool
by_key p q = str_ltb p.0 q.0

cell_ltb : Cell → Cell → Bool
cell_ltb (a, b) (c, d) = ite (ℤ_dec a c) (ltb_ℤ b d) (ltb_ℤ a c)

abbrev pub is_online : Status → Bool
is_online online = true
is_online offline = false

-- `not text`.
abbrev pub is_blank : String → Bool
is_blank s = ite (str_dec s "") true false

module _ {F : Type 0} where
  abbrev pub task_ids : List (Task F) → List String
  task_ids = map λ t. t.task_id

  view : String × Reservation F → ReservationView
  unfolding cell_ltb
  view (r, res) = record {
    robot_id = r;
    task_id = res.task_id;
    activated = res.activated;
    segment_index = res.segment_index;
    segments_reserved = sort ltb res.reserved;
    total_segments = length res.segments;
    head_on = res.head_on;
    cells = sort cell_ltb res.cells;
  }

  pending_of : Dict String (List (Task F)) → List (String × String)
  pending_of [] = []
  pending_of ((r, q) ∷ qs) = map (λ t. (r, t)) (task_ids q) ++ pending_of qs

  unfoldable pub reservation_summary : Fleet F → ReservationStatus
  unfolding view pending_of
  reservation_summary s = record {
    reservation_count = length s.reservations;
    pending_dispatches = pending_of (sort by_key s.robot_queues);
    retry_tasks = task_ids s.retry_tasks;
    waiting_tasks = task_ids s.waiting_tasks;
    robot_queues = map (λ p. (p.0, task_ids p.1)) (sort by_key s.robot_queues);
    reservations = map view (sort by_key s.reservations);
  }

  unfoldable pub publish_reservations : Fleet F → Fleet F
  unfolding emit
  publish_reservations s = emit (reservation_status (reservation_summary s)) s

  -- `sum(len(q) for q in self._robot_queues.values())`.
  unfoldable pub queued_total : Dict String (List (Task F)) → ℕ
  queued_total [] = 0
  queued_total ((r, q) ∷ qs) = length q + queued_total qs

  -- The registered robots that are online, and those among them with no current task.
  unfoldable pub online_robots : Fleet F → List (Robot F)
  online_robots s = keep (λ e. is_online e.status) (values s.robots)

  unfoldable pub idle_robots : Fleet F → List (Robot F)
  idle_robots s = keep (λ e. is_online e.status && is_blank e.current_task) (values s.robots)

  unfoldable pub monitor_summary : Fleet F → FleetMonitor
  monitor_summary s = record {
    total_robots = length s.robots;
    online_robots = length (online_robots s);
    offline_robots = length s.robots - length (online_robots s);
    idle_robots = length (idle_robots s);
    busy_robots = length (online_robots s) - length (idle_robots s);
    queued = queued_total s.robot_queues + length s.waiting_tasks + length s.retry_tasks;
    active = length s.reservations;
    completed = s.tasks_completed;
    submitted = s.tasks_submitted;
    reserved_cells = length s.cell_owners;
    pending_dispatches = queued_total s.robot_queues;
    waiting_tasks = length s.waiting_tasks;
    retry_tasks = length s.retry_tasks;
    released_total = s.reservations_released;
  }

  unfoldable pub publish_fleet_monitor : Fleet F → Fleet F
  unfolding emit
  publish_fleet_monitor s = emit (fleet_monitor (monitor_summary s)) s

  unfoldable pub publish_fleet : Fleet F → Fleet F
  unfolding emit publish_fleet_monitor
  publish_fleet s =
      publish_fleet_monitor
        (emit (fleet_status (sort (λ a b. str_ltb a.robot_id b.robot_id) (values s.robots))) s)
