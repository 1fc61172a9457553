-- ===== src/Lib.antt =====
-- The warehouse digital twin: the node that coordinates a fleet of robots, the nodes that run beside
-- each robot, the choice of packages for orders, and the guards of the backend. Paths are from the
-- repository's root; all but the backend (backend/backend/) stands in
-- ros2_ws/src/warehouse_bringup/warehouse_bringup/.
--
-- The fleet manager (fleet_manager_node.py) keeps a registry of robots, a queue of tasks for each,
-- a pool of waiting tasks, and a reservation of grid cells for each robot that carries out a task.
-- It reacts to registrations, poses, heartbeats and new tasks, and to a timer, and publishes
-- assignments. A task manager (task_manager_node.py) runs beside each robot: it receives the
-- assignments, keeps its own priority queue, and publishes goals for pickup and dropoff. The
-- planner (planner_node.py) searches a path to the goal on the map, the controller
-- (controller_node.py) follows it, the obstacle monitor (obstacle_monitor_node.py) stops the robot
-- before obstacles, and the status beacon (robot_status_publisher.py) derives battery, charging and
-- execution state from what the others publish and sends the registrations that the fleet manager
-- reads. The nodes share messages and no state. The module order_fulfillment.py is used by the
-- visualization. The backend serves a fleet's data to users, who hold signed tokens with a role.
--
-- - Base and its children: lists, text, integers, dictionaries in insertion order (Base/Dict), the
--   stable sort (Base/Sort), and floating point numbers as an interface (Base/Float). Base/Fixed is
--   an instance of the interface by fixed point numbers, for tests.
-- - Fleet/State: the state `Fleet` of FleetManagerNode, its registry entries, tasks, reservations,
--   parameters and messages (`__init__`).
-- - Fleet/Route: `_route_cells_ordered` and `_partition_segments`.
-- - Fleet/Traffic: `_has_conflict`, `_reserve`, `_reserve_segment`, `_release_segment`,
--   `_refresh_owned_cells`, `_release_reservations`, `_current_segment_index`, `_check_traffic`.
-- - Fleet/Dispatch: `_eligible`, `_busy`, `_estimate_eta`, `_score_robot`, `_select_robot`,
--   `_schedule_task`, `_try_dispatch`, `_dispatch_next`.
-- - Fleet/Rebalance: `_rebalance`, `_pick_donor`, `_pop_best_task`.
-- - Fleet/Recovery: `_check_heartbeats`, `_recover_robot`, `_requeue_task`, `_check_battery`,
--   `_process_retry_tasks`, `_task_exists`.
-- - Fleet/Publish: `_publish_fleet`, `_publish_fleet_monitor`, `_publish_reservations`.
-- - Fleet/Messages and Fleet/Callbacks: the parsing and the handling of the messages, `_control_loop`,
--   and `run`, which takes any sequence of events.
-- - TaskManager and TaskManager/Loop: TaskManagerNode, its queue, its cancellations, its states.
-- - Orders: the inventory queries of order_fulfillment.py and the choice of a package for an order.
-- - Planner: `_in_bounds`, `_is_obstacle`, `_near_obstacle`, `_nearest_free` of PlannerNode.
--   Planner/Search: `_compute_path`, its A* search and `_reconstruct_path`. Planner/Node: the state,
--   `_plan`, `_should_replan` and the callbacks.
-- - Beacon: the state of RobotStatusPublisher and its callbacks. Beacon/Loop: `_update_battery`,
--   `_exec_state`, `_control_loop`, and `run` over any sequence of events. Beacon/Wire: the text of a
--   registration, which Fleet/Messages reads.
-- - Monitor: ObstacleMonitor, `_check_obstacle`, `_forward_cmd`, and its runs.
-- - Controller: ControllerNode, the choice of the waypoint to steer to, `_control_loop`.
-- - Backend/Auth: the tokens and roles of backend/backend/auth.py, the token table of repository.py
--   and the logout of api.py. Backend/Passwords: `hash_password` and `verify_password`.
--   Backend/RateLimit: `check_rate_limit` of rate_limit.py.
--
-- The modules below these hold proofs, each named for what it shows, and the Samples modules hold
-- tests and instances on concrete inputs.
--
-- A callback takes the node's state and returns the new one; what it publishes is appended to `out`.
-- One callback runs at a time, as under rclpy's single-threaded executor, and each event carries the
-- time at which it is handled. The entry of a robot is read again where the source holds a reference
-- to it. A dictionary is a list of pairs in insertion order; a set is a list, and its order is not
-- relied on. Priorities and counts are natural numbers.
--
-- Floating point is a parameter: the record `Float` of operations, with what route planning relies
-- on (`Rounding`): correctly rounded operations keep the order of their exact results, which holds
-- of finite numbers whose results are finite. The planner relies on `Costs`, which costs without
-- NaN have: the order of costs, additions of move costs that do not lower them, and no infinite
-- descent of non-negative costs, since there are finitely many floating point numbers. The battery
-- relies on `Levels`. Digests, base64 and JSON are the parameters `Crypto` and `Hashing`, with what
-- the tokens and the passwords rely on in `Documented` and `Plain`. The parsing of numbers belongs
-- to `Float`, and their printing is `Printing`.
--
-- The loop of `_rebalance` runs on fuel, `enough_rounds`: three rounds for each robot, one for each
-- waiting task, and the last. A round that makes progress starts a task on a robot without a
-- reservation, gives an idle robot without a queue a task, or takes a task from the waiting pool,
-- and a measure of these goes down (Fleet/Rebalance/Progress, Stealing and Termination). The A*
-- search and the walk back over `came_from` run on fuel too, and some amount of it is enough for
-- each start and goal: each entry that is pushed lowers the score of a cell of the map
-- (Planner/Search/Ends). The heap is a list whose least entry is taken, with the heap's order of
-- entries. The other loops are structural.
--
-- Not modelled: log lines, the heartbeat ages in /fleet_monitor, helpers that nothing calls
-- (`_route_cells`, `_add_cell_with_buffer`, `_has_head_on_conflict`), the building of the
-- inventory and the rack positions, the headers and time stamps of published messages, the other
-- nodes of warehouse_bringup (localization, simulation, control center, visualization), login and
-- the database of the backend, launch files, simulation models and scripts. A ROS message whose
-- handling raises an exception other than the ones the source catches is not distinguished.
pub mod Base
pub mod Fleet
pub mod TaskManager
pub mod Orders
pub mod Planner
pub mod Beacon
pub mod Monitor
pub mod Controller
pub mod Backend
