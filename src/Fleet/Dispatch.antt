-- ===== src/Fleet/Dispatch.antt =====
-- The dispatcher: `_eligible`, `_busy`, `_estimate_eta`, `_select_robot`, `_score_robot`,
-- `_try_dispatch`, `_dispatch_next` and `_schedule_task`.
pub mod Safety
pub mod Choice
pub mod Outcomes
use warehouse_digital_twin.Base.{
  ℕ, zero, suc, ◌+◌, ◌-◌, ◌≡◌, String, Bool, true, false, not, ◌||◌, ◌&&◌, ite, Option, none, some,
  List, [], ◌∷◌, ◌++◌, map, if◌then◌else◌, length, ltb, ◌==◌, keep, str_dec,
}
use Prim.Native.Nat.{min}
use warehouse_digital_twin.Base.Int.{pos}
use warehouse_digital_twin.Base.Dict.{Dict, get, set, del, values}
use warehouse_digital_twin.Base.Float.{Float, max_f}
use warehouse_digital_twin.Base.Sort.{sort, take_max}
use warehouse_digital_twin.Fleet.State.{
  Point, Cell, Robot, Task, Reservation, Config, Fleet, Candidate, Message, task_assignment,
  dispatch_decision, emit,
}
use warehouse_digital_twin.Fleet.Route.{route_cells_ordered, partition_segments}
use warehouse_digital_twin.Fleet.Traffic.{has_conflict, cells_of, reserve}
use warehouse_digital_twin.Fleet.Publish.{is_online, is_blank}

-- `self._robot_queues.get(robot_id, [])`.
abbrev pub queue_of : {F : Type 0} → String → Dict String (List (Task F)) → List (Task F)
queue_of r queues = elim (get str_dec r queues) [ none ↦ [] | some q ↦ q ]

-- 0, ..., n - 1, from `i` on.
unfoldable pub indices : (i n : ℕ) → List ℕ
indices i zero = []
indices i (suc n) = i ∷ indices (suc i) n

unfoldable pub busy : {F : Type 0} → Robot F → Bool
busy e = not (is_blank e.current_task)

-- Greater priority first, then the smaller sequence number: the key `(priority, -_seq)`.
unfoldable pub precedes : {F : Type 0} → Task F → Task F → Bool
precedes a b = ltb a.priority b.priority || (a.priority == b.priority && ltb b.seq a.seq)

-- The tuple by which candidates are compared.
pub record Key (F : Type 0) : Type 0 where
  pub occupied : ℕ
  pub eta : F
  pub queue_len : ℕ
  pub distance : F
  pub neg_battery : F

pub data Outcome : Type 0 where
  assigned no_robot : Outcome

module _ (fl : Float) where
  open fl use {F, lit, of_ℤ, ltb_f, leb_f, eqb_f, add, sub, mul, div, neg, hypot, round3}

  unfoldable pub eligible : Config F → Robot F → Bool
  eligible c e = is_online e.status && not e.charging && leb_f c.low_battery e.battery

  -- `_eligible(r) and r["payload_capacity"] >= task["required_payload"]`.
  unfoldable pub can_take : Config F → Task F → Robot F → Bool
  unfolding eligible
  can_take c t e = eligible c e && leb_f t.required_payload e.payload_capacity

  unfoldable pub robot_distance : Robot F → Point F → Option F
  robot_distance e p = elim e.x [
    | none ↦ none
    | some x ↦ elim e.y [ none ↦ none | some y ↦ some (hypot (sub x p.0) (sub y p.1)) ]
  ]

  -- `x or d`: a number is falsy at zero.
  unfoldable pub or_else : Option F → F → F
  or_else none d = d
  or_else (some x) d = if eqb_f x (lit 0 0) then d else x

  add_travel : (speed : F) → List (Task F) → F → F
  add_travel speed [] total = total
  add_travel speed (t ∷ ts) total =
      add_travel speed ts
        (add total (div (hypot (sub t.dropoff.0 t.pickup.0) (sub t.dropoff.1 t.pickup.1)) speed))

  unfoldable pub estimate_eta : Fleet F → Robot F → F
  unfolding add_travel or_else
  estimate_eta s e =
      let speed = max_f fl (or_else (some e.max_speed) (lit 22 2)) (lit 5 2) in
      let driving : F = elim (get str_dec e.robot_id s.reservations) [
        | none ↦ lit 0 0
        | some res ↦ add (lit 0 0) (
            div
              (mul
                (mul (of_ℤ (pos (length res.segments - res.segment_index)))
                  (of_ℤ (pos s.config.segment_size)))
                s.config.cell_size)
              speed)
      ] in
      if busy e
      then max_f fl (lit 0 0) (add_travel speed (queue_of e.robot_id s.robot_queues) driving)
      else lit 0 0

  unfoldable pub key : Fleet F → Task F → Robot F → Key F
  unfolding robot_distance or_else estimate_eta
  key s t e = record {
    occupied = if busy e then 1 else 0;
    eta = round3 (estimate_eta s e);
    queue_len = length (queue_of e.robot_id s.robot_queues);
    distance = or_else (robot_distance e t.pickup) (lit 999 0);
    neg_battery = neg e.battery;
  }

  -- Python's order of tuples: by the first part that differs.
  unfoldable pub key_ltb : Key F → Key F → Bool
  key_ltb a b =
      if a.occupied == b.occupied
      then (if eqb_f a.eta b.eta
          then (if a.queue_len == b.queue_len
              then (if eqb_f a.distance b.distance
                  then ltb_f a.neg_battery b.neg_battery
                  else ltb_f a.distance b.distance)
              else ltb a.queue_len b.queue_len)
          else ltb_f a.eta b.eta)
      else ltb a.occupied b.occupied

  unfoldable pub score_robot : Fleet F → Robot F → Task F → F
  unfolding robot_distance estimate_eta
  score_robot s e t =
      let c = s.config in
      let dist : F = elim (robot_distance e t.pickup) [ none ↦ lit 20 0 | some d ↦ d ] in
      let queue_len = of_ℤ (pos (length (queue_of e.robot_id s.robot_queues))) in
      let occupied : ℕ = if busy e then 1 else 0 in
      add
        (add
          (add (add (mul c.w_distance dist) (mul c.w_queue queue_len))
            (mul c.w_battery (sub (lit 100 0) e.battery)))
          (mul c.w_current (of_ℤ (pos occupied))))
        (mul c.w_eta (estimate_eta s e))

  -- `sorted(eligible, key=_key)`.
  unfoldable pub ranked : Fleet F → Task F → List (Robot F) → List (Robot F)
  unfolding key_ltb
  ranked s t es = sort (λ a b. key_ltb (key s t a) (key s t b)) es

  -- The best candidate, with all candidates in order; `none` where there is none.
  unfoldable pub select_robot :
      Fleet F → Task F → List (Robot F) → Option (Robot F × List (Robot F))
  select_robot s t es = elim (ranked s t es) [
    | [] ↦ none
    | best ∷ others ↦ some (best, best ∷ others)
  ]

  candidate : Fleet F → Task F → Robot F → Candidate F
  unfolding score_robot
  candidate s t e = record {
    robot_id = e.robot_id;
    score = round3 (score_robot s e t);
    busy = busy e;
    queue_len = length (queue_of e.robot_id s.robot_queues);
    battery = e.battery;
  }

  -- `_publish_dispatch_decision`; a score is rounded to three places, so `round(…, 6)` keeps it.
  unfoldable pub publish_dispatch_decision : Task F → Robot F → List (Robot F) → Fleet F → Fleet F
  unfolding candidate emit
  publish_dispatch_decision t best scored s =
      let score : Option F = elim scored [
        | [] ↦ none
        | e ∷ _ ↦ some (round3 (score_robot s e t))
      ] in
      emit
        (dispatch_decision t.task_id t.required_payload best.robot_id score
          (map (candidate s t) scored))
        s

  unfoldable pub publish_assignment : String → Task F → Fleet F → Fleet F
  unfolding emit
  publish_assignment r t =
      emit (task_assignment r t.task_id t.pickup t.dropoff t.priority t.required_payload)

  -- `robot["current_task"] = task_id`, written through the registry that holds the entry.
  unfoldable pub set_current_task : String → String → Fleet F → Fleet F
  set_current_task r task_id s = elim (get str_dec r s.robots) [
    | none ↦ s
    | some e ↦ record s { robots = set str_dec r (record e { current_task = task_id }) s.robots }
  ]

  unfoldable pub route_of : Config F → Task F → List Cell
  route_of c t = route_cells_ordered fl c.cell_size t.pickup t.dropoff

  unfoldable pub route_segments : Config F → Task F → List (List Cell)
  unfolding route_of
  route_segments c t = partition_segments c.segment_size (route_of c t)

  -- The cells of the first segments of a route, as many as a robot reserves at once.
  unfoldable pub window_cells : Config F → Task F → List Cell
  unfolding route_segments
  window_cells c t =
      let segments = route_segments c t in
      cells_of segments (indices 0 (min (c.lookahead + 1) (length segments)))

  unfoldable pub reserve_route : String → Task F → Fleet F → Option (Fleet F)
  unfolding route_segments
  reserve_route r t s =
      reserve r t (route_of s.config t) (route_segments s.config t)
        (sub t.dropoff.0 t.pickup.0, sub t.dropoff.1 t.pickup.1) s

  -- The task is marked as executing, and handed to the robot's task manager.
  unfoldable pub start_task : String → Task F → Fleet F → Fleet F
  unfolding set_current_task publish_assignment
  start_task r t s = publish_assignment r t (set_current_task r t.task_id s)

  -- `none` stands for `False`: nothing was changed.
  unfoldable pub try_dispatch : Robot F → Task F → Fleet F → Option (Fleet F)
  unfolding reserve_route start_task window_cells
  try_dispatch e t s =
      if has_conflict e.robot_id (window_cells s.config t) s.cell_owners
      then none
      else elim (reserve_route e.robot_id t s) [
        | none ↦ none
        | some s' ↦ some (start_task e.robot_id t s')
      ]

  -- The Boolean is what the method returns. The `while` loop of the source leaves in its first
  -- round. The taken task goes from the queue, whose entry stays, possibly empty.
  dispatch_from : String → Robot F → List (Task F) → Fleet F → Fleet F × Bool
  unfolding try_dispatch precedes
  dispatch_from r e [] s = (s, false)
  dispatch_from r e (t ∷ ts) s =
      let (best, rest) = take_max precedes t ts in
      elim (try_dispatch e best s) [
        | none ↦ (s, false)
        | some s' ↦ (record s' { robot_queues = set str_dec r rest s'.robot_queues }, true)
      ]

  unfoldable pub dispatch_next : String → Fleet F → Fleet F × Bool
  unfolding dispatch_from eligible
  dispatch_next r s = elim (get str_dec r s.robots) [
    | none ↦ (s, false)
    | some e ↦
        if busy e
        then (s, false)
        else (if eligible s.config e
            then dispatch_from r e (queue_of r s.robot_queues) s
            else (s, false))
  ]

  -- `self._robot_queues.setdefault(robot_id, []).append(task)`.
  unfoldable pub enqueue : String → Task F → Fleet F → Fleet F
  enqueue r t s = record s {
    robot_queues = set str_dec r (queue_of r s.robot_queues ++ t ∷ []) s.robot_queues;
  }

  -- The robots that can take the task, in the order of the registry.
  unfoldable pub candidates : Fleet F → Task F → List (Robot F)
  unfolding can_take
  candidates s t = keep (can_take s.config t) (values s.robots)

  -- The task comes back with its sequence number: the source writes `_seq` into the task itself.
  unfoldable pub schedule_task : Task F → Fleet F → Fleet F × Outcome × Task F
  unfolding enqueue dispatch_next publish_dispatch_decision select_robot
  schedule_task t s =
      let seq = s.task_seq + 1 in
      let t' = record t { seq = seq } in
      let s' = record s { task_seq = seq } in
      elim (select_robot s' t' (candidates s' t')) [
        | none ↦ (record s' { waiting_tasks = s'.waiting_tasks ++ t' ∷ [] }, no_robot, t')
        | some (best, scored) ↦ (
          (dispatch_next best.robot_id
              (enqueue best.robot_id t' (publish_dispatch_decision t' best scored s'))).0,
          assigned,
          t',
        )
      ]
