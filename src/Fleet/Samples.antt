-- ===== src/Fleet/Samples.antt =====
-- A small fleet over a concrete arithmetic: inputs for the tests, and instances of the theorems.
use warehouse_digital_twin.Base.{
  inl, inr, is_some, ite, ap, All, ◌≢◌, ◌⊎◌, ◌≡◌, refl, String, true, false, Option, none, some,
  List, [], ◌∷◌, length, str_dec, arith, is_empty, any, split_on, strip, upper, keep,
}
use warehouse_digital_twin.Base.Int.{ℤ, pos, ◌≤ℤ◌, ◌+ℤ◌, ◌-ℤ◌, ◌*ℤ◌, ℤ_dec}
use warehouse_digital_twin.Base.Dict.{get, set, del, get-set_cases}
use warehouse_digital_twin.Base.Fixed.{
  fixed, fraction_fixed_mono, mul_fixed_mono, add_fixed_mono, div_fixed_mono, floor_fixed_mono,
}
use warehouse_digital_twin.Fleet.State.{
  Robot, online, Params, Task, Reservation, Cell, Fleet, init, cell_dec, load_config, emit,
}
use warehouse_digital_twin.Fleet.Route.{route_cells_ordered, cell_width, sample, partition_segments}
use warehouse_digital_twin.Fleet.Route.Rounding.{Rounding, routes_disjoint}
use warehouse_digital_twin.Fleet.Traffic.{
  has_cell, has_conflict, claim, drop_cell, disclaim, segment_at, has_index, add_index,
  discard_index, cells_of, reserve_segment, release_segment, refresh_owned_cells, reserve_free,
  reserve_initial, new_reservation, reserve_fresh, reserve, release_reservations, release_one,
  release_behind, directions_opposed, first_foreign, meets_head_on, label_head_on, reserve_one,
  reserve_ahead, current_segment_index, move_window, advance, advance_robot, advance_all,
}
use warehouse_digital_twin.Fleet.Callbacks.{
  Event, registration, add_task, timer, run, new_entry, refresh_entry, check_reservation_release,
  register, registration_callback, pose_callback, heartbeat_callback, submit, task_callback,
  control_loop, handle,
}
use warehouse_digital_twin.Fleet.Traffic.Cells.{IsDisjoint}
use warehouse_digital_twin.Fleet.Traffic.Fleets.{SafeFleet}
use warehouse_digital_twin.Fleet.Route.Disjoint.{concat, concat-partition_segments}
use warehouse_digital_twin.Fleet.Rebalance.Progress.{IsKeyed}
use warehouse_digital_twin.Fleet.Rebalance.Termination.{rebalance_loop-enough_rounds}
use warehouse_digital_twin.Fleet.Dispatch.Safety.{RoutesDisjoint}
use warehouse_digital_twin.Fleet.Dispatch.Choice.{select_robot-idle_first}
use warehouse_digital_twin.Fleet.Dispatch.Outcomes.{Starts, dispatch_next_lem}
use warehouse_digital_twin.Fleet.Recovery.Duplicates.{requeue_task-twice}
use warehouse_digital_twin.Fleet.Callbacks.Safety.{
  handle-SafeFleet, run-SafeFleet, init-SafeFleet, run-exclusive, run-no_ghost_lock,
}
use warehouse_digital_twin.Base.Sort.{insert_sorted, sort_onto, sort, take_max}
use warehouse_digital_twin.Fleet.Publish.{
  reservation_summary, publish_reservations, queued_total, online_robots, idle_robots,
  monitor_summary, publish_fleet_monitor, publish_fleet,
}
use warehouse_digital_twin.Fleet.Dispatch.{
  indices, busy, precedes, eligible, can_take, robot_distance, or_else, estimate_eta, key, key_ltb,
  score_robot, ranked, select_robot, publish_dispatch_decision, publish_assignment,
  set_current_task, route_of, route_segments, window_cells, reserve_route, start_task, try_dispatch,
  dispatch_next, enqueue, candidates, schedule_task,
}
use warehouse_digital_twin.Fleet.Recovery.{
  task_exists, owned_tasks, strip_robot, set_status_offline, publish_cancels, requeue_task,
  requeue_all, recover_robot, check_heartbeat, check_heartbeats_of, check_heartbeats, needs_charge,
  release_work, check_charge, check_battery_of, check_battery, process_retry_of,
  process_retry_tasks, check_traffic,
}
use warehouse_digital_twin.Fleet.Rebalance.{
  pop_best_from, pop_best_task, can_donate, pick_donor, dispatch_each, assign_waiting, take_over,
  wants_work, steal_for, steal_first, rebalance_round, rebalance_loop, rebalance, enough_rounds,
  pick_donor_from,
}
use warehouse_digital_twin.Fleet.Messages.{
  fields, field_or, status_of, clamp_priority, float_field, int_field, parse_registration,
  parse_pose, parse_task,
}

pos_of_ge_milli :
    (a : ℤ) → fixed.ltb_f a (fixed.lit 1 3) ≡ false → fixed.ltb_f (fixed.lit 0 0) a ≡ true
pos_of_ge_milli a h = ground arith

fixed-Rounding : Rounding fixed
fixed-Rounding = record {
  le = ◌≤ℤ◌;
  fraction_mono = fraction_fixed_mono;
  mul_mono = mul_fixed_mono;
  add_mono = add_fixed_mono;
  div_mono = λ w a b _ h. div_fixed_mono w a b h;
  floor_mono = floor_fixed_mono;
  milli_pos = refl;
  pos_of_ge_milli = pos_of_ge_milli;
}

abbrev params : Params ℤ
params = record {
  heartbeat_timeout = pos 3000;
  cell_size = pos 1000;
  reservation_buffer = pos 0;
  score_w_distance = pos 1000;
  score_w_queue = pos 1000;
  score_w_battery = pos 1000;
  score_w_current = pos 10000;
  score_w_eta = pos 1000;
  low_battery_threshold = pos 30000;
  critical_battery_threshold = pos 15000;
  segment_size = pos 2;
  traffic_lookahead = pos 1;
}

diagonal_route :
    route_cells_ordered fixed (pos 1000) (pos 0, pos 0) (pos 2000, pos 1000)
    ≡ (pos 0, pos 0) ∷ (pos 1, pos 0) ∷ (pos 2, pos 1) ∷ []
unfolding route_cells_ordered cell_dec ◌+ℤ◌ ◌-ℤ◌
diagonal_route = refl

-- What a run of the program computes with.
program : Unit {0}
unfolding keep any is_empty str_dec strip split_on upper ◌+ℤ◌ ◌-ℤ◌ ◌*ℤ◌ ℤ_dec get set del
    insert_sorted sort_onto sort take_max cell_dec load_config init emit cell_width sample
    route_cells_ordered partition_segments reservation_summary publish_reservations queued_total
    online_robots idle_robots monitor_summary publish_fleet_monitor publish_fleet has_cell
    has_conflict claim drop_cell disclaim segment_at has_index add_index discard_index cells_of
    reserve_segment release_segment refresh_owned_cells reserve_free reserve_initial new_reservation
    reserve_fresh reserve release_reservations release_one release_behind directions_opposed
    first_foreign meets_head_on label_head_on reserve_one reserve_ahead current_segment_index
    move_window advance advance_robot advance_all indices busy precedes eligible can_take
    robot_distance or_else estimate_eta key key_ltb score_robot ranked select_robot
    publish_dispatch_decision publish_assignment set_current_task route_of route_segments
    window_cells reserve_route start_task try_dispatch dispatch_next enqueue candidates
    schedule_task task_exists owned_tasks strip_robot set_status_offline publish_cancels
    requeue_task requeue_all recover_robot check_heartbeat check_heartbeats_of check_heartbeats
    needs_charge release_work check_charge check_battery_of check_battery process_retry_of
    process_retry_tasks check_traffic pop_best_from pop_best_task can_donate pick_donor_from
    pick_donor dispatch_each assign_waiting take_over wants_work steal_for steal_first
    rebalance_round rebalance_loop rebalance fields field_or status_of clamp_priority float_field
    int_field parse_registration parse_pose parse_task new_entry refresh_entry
    check_reservation_release register registration_callback pose_callback heartbeat_callback submit
    task_callback control_loop handle run
program = tt

abbrev events : List (ℤ × Event ℤ)
events =
    (pos 0, registration "a,ONLINE,,100")
    ∷ (pos 0, registration "b,ONLINE,,100")
    ∷ (pos 1, add_task "t1,0,0,4,0")
    ∷ (pos 1, add_task "t2,0,2,4,2")
    ∷ (pos 2, timer params)
    ∷ []

abbrev after : Fleet ℤ
after = run fixed events (init params)

abbrev t1 : Task ℤ
t1 = record {
  task_id = "t1";
  pickup = (pos 0, pos 0);
  dropoff = (pos 4000, pos 0);
  priority = 1;
  required_payload = pos 0;
  seq = 1;
}

abbrev nothing_held : Reservation ℤ
nothing_held = record {
  task_id = "";
  task = t1;
  route = [];
  segments = [];
  route_dir = (pos 0, pos 0);
  segment_index = 0;
  reserved = [];
  head_on = false;
  cells = [];
  activated = false;
}

abbrev with_default : {A : Type 0} → A → Option A → A
with_default d none = d
with_default d (some x) = x

with_default-some :
    {A : Type 0} (d : A) (o : Option A) → is_some o ≡ true → o ≡ some (with_default d o)
with_default-some d none h = absurd (cc h)
with_default-some d (some x) h = refl

abbrev held_by : String → Reservation ℤ
held_by r = with_default nothing_held (get str_dec r after.reservations)

is_held :
    (r : String)
    → is_some (get str_dec r after.reservations) ≡ true
    → get str_dec r after.reservations ≡ some (held_by r)
is_held r = with_default-some nothing_held (get str_dec r after.reservations)

two_reservations : length after.reservations ≡ 2
unfolding program
two_reservations = refl

abbrev name_a : String
name_a = "a"

a-NotEq-b : name_a ≢ "b"
unfolding str_dec
a-NotEq-b e = let h : true ≡ false = ap (λ r. ite (str_dec r name_a) true false) e in cc h

run-exclusive_example : has_cell (pos 0, pos 0) (held_by "b").cells ≡ false
unfolding program
run-exclusive_example =
    run-exclusive fixed fixed-Rounding params events "a" "b" (held_by "a") (held_by "b")
      (pos 0, pos 0) a-NotEq-b (is_held "a" refl) (is_held "b" refl) refl

run-no_ghost_lock_example :
    (res : Reservation ℤ) × (get str_dec "a" after.reservations ≡ some res)
    × (has_cell (pos 0, pos 0) res.cells ≡ true)
unfolding program
run-no_ghost_lock_example =
    run-no_ghost_lock fixed fixed-Rounding params events "a" (pos 0, pos 0) refl

fixed_routes : RoutesDisjoint fixed
fixed_routes = routes_disjoint fixed fixed-Rounding

handle-SafeFleet_example : SafeFleet (handle fixed (pos 3, timer params) after)
handle-SafeFleet_example =
    handle-SafeFleet fixed fixed_routes (pos 3, timer params) after
      (run-SafeFleet fixed fixed_routes events (init params) (init-SafeFleet params))

routes_disjoint_example : IsDisjoint (
    partition_segments 2 (route_cells_ordered fixed (pos 1000) (pos 0, pos 0) (pos 2000, pos 1000)))
routes_disjoint_example =
    routes_disjoint fixed fixed-Rounding (pos 1000) 2 (pos 0, pos 0) (pos 2000, pos 1000)

abbrev some_cells : List Cell
some_cells = (pos 0, pos 0) ∷ (pos 1, pos 0) ∷ (pos 2, pos 1) ∷ []

concat-partition_segments_example : concat (partition_segments 2 some_cells) ≡ some_cells
concat-partition_segments_example = concat-partition_segments 2 some_cells

-- A robot that is idle and has a task in its queue.
abbrev ready : Fleet ℤ
ready = enqueue fixed "a" t1 (run fixed ((pos 0, registration "a,ONLINE,,100") ∷ []) (init params))

dispatch_next_lem_example :
    (dispatch_next fixed "a" ready ≡ (ready, false))
    ⊎ ((dispatch_next fixed "a" ready).1 ≡ true)
      × Starts fixed "a" ready (dispatch_next fixed "a" ready).0
dispatch_next_lem_example = dispatch_next_lem fixed "a" ready

requeue_task-twice_example : (requeue_task fixed t1 (init params)).waiting_tasks ≡ t1 ∷ t1 ∷ []
unfolding program
requeue_task-twice_example = requeue_task-twice fixed t1 (init params) refl refl

abbrev working_robot : String → Robot ℤ
working_robot r = record {
  robot_id = r;
  status = online;
  current_task = "t0";
  last_seen = pos 0;
  payload_capacity = pos 100000;
  max_speed = pos 1000;
  robot_type = "";
  workload = pos 0;
  priority = pos 0;
  battery = pos 80000;
  charging = false;
  namespace = "";
  exec_state = "";
  moving = true;
  x = none;
  y = none;
  yaw = none;
}

abbrev both : List (Robot ℤ)
both = working_robot "a" ∷ working_robot "b" ∷ []

select_robot-idle_first_example : All (λ e. busy e ≡ true) both
unfolding program
select_robot-idle_first_example =
    select_robot-idle_first fixed (init params) t1 both (working_robot "a") both refl refl

abbrev registered : String → Fleet ℤ → Fleet ℤ
registered r s = record s { robots = set str_dec r (working_robot r) s.robots }

registered-IsKeyed : (r : String) (s : Fleet ℤ) → IsKeyed s → IsKeyed (registered r s)
registered-IsKeyed r s k q x found =
    elim (get-set_cases str_dec r q (working_robot r) x s.robots found) [
      | inl (same, entry) ↦ cc (same, ap (λ (y : Robot ℤ). y.robot_id) entry)
      | inr (other, before) ↦ k q x before
    ]

init-IsKeyed : IsKeyed (init params)
unfolding init get
init-IsKeyed r e h = absurd (cc h)

abbrev two_robots : Fleet ℤ
two_robots = enqueue fixed "a" t1 (registered "a" (registered "b" (init params)))

rebalance_loop-enough_rounds_example :
    (s' : Fleet ℤ) × (rebalance_loop fixed (enough_rounds fixed two_robots) two_robots ≡ some s')
unfolding enqueue
rebalance_loop-enough_rounds_example = rebalance_loop-enough_rounds fixed two_robots (
    registered-IsKeyed "a" (registered "b" (init params))
      (registered-IsKeyed "b" (init params) init-IsKeyed))
