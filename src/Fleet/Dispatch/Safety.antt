-- ===== src/Fleet/Dispatch/Safety.antt =====
-- The dispatcher keeps reservations and cell owners in agreement, where routes visit no cell twice.
use warehouse_digital_twin.Base.{
  ℕ, ◌+◌, ◌≡◌, String, some, List, [], ◌∷◌, Bool-cases, Option-cases, inl, inr, str_dec, subst,
}
use warehouse_digital_twin.Base.Dict.{get}
use warehouse_digital_twin.Base.Float.{Float}
use warehouse_digital_twin.Base.Sort.{take_max}
use warehouse_digital_twin.Fleet.State.{Point, Robot, Task, Fleet, emit}
use warehouse_digital_twin.Fleet.Route.{route_cells_ordered, partition_segments}
use warehouse_digital_twin.Fleet.Traffic.{has_conflict}
use warehouse_digital_twin.Fleet.Traffic.Cells.{IsDisjoint}
use warehouse_digital_twin.Fleet.Traffic.Fleets.{SafeFleet, reserve-SafeFleet}
use warehouse_digital_twin.Fleet.Dispatch.{
  busy, eligible, precedes, queue_of, set_current_task, window_cells, reserve_route, start_task,
  try_dispatch, dispatch_from, dispatch_next, enqueue, publish_dispatch_decision, candidates,
  select_robot, schedule_task,
}

-- The segments of every route share no cell.
abbrev pub RoutesDisjoint : Float → Type 0
RoutesDisjoint fl =
    (cell_size : fl.F) (size : ℕ) (p d : Point fl.F)
    → IsDisjoint (partition_segments size (route_cells_ordered fl cell_size p d))

module _ (fl : Float) where
  open fl use {F}

  pub set_current_task-SafeFleet :
      (r i : String) (s : Fleet F) → SafeFleet s → SafeFleet (set_current_task fl r i s)
  unfolding set_current_task
  set_current_task-SafeFleet r i s v = elim (Option-cases (get str_dec r s.robots)) [
    | inl unknown ↦ rw (unknown, set_current_task) v
    | inr (e, known) ↦ rw (known, set_current_task) v
  ]

module _ (fl : Float) (routes : RoutesDisjoint fl) where
  open fl use {F}

  reserve_route-SafeFleet :
      (r : String) (t : Task F) (s s' : Fleet F)
      → SafeFleet s
      → reserve_route fl r t s ≡ some s'
      → SafeFleet s'
  unfolding reserve_route
  reserve_route-SafeFleet r t s s' v h =
      reserve-SafeFleet r t _ _ _ s s'
        (routes s.config.cell_size s.config.segment_size t.pickup t.dropoff) v h

  start_task-SafeFleet :
      (r : String) (t : Task F) (s : Fleet F) → SafeFleet s → SafeFleet (start_task fl r t s)
  unfolding start_task emit
  start_task-SafeFleet r t s v = set_current_task-SafeFleet fl r t.task_id s v

  pub try_dispatch-SafeFleet :
      (e : Robot F) (t : Task F) (s s' : Fleet F)
      → SafeFleet s
      → try_dispatch fl e t s ≡ some s'
      → SafeFleet s'
  unfolding try_dispatch
  try_dispatch-SafeFleet e t s s' v h =
      elim (Bool-cases (has_conflict e.robot_id (window_cells fl s.config t) s.cell_owners)) [
        | inl blocked ↦ absurd (cc (rw (blocked, try_dispatch) at h))
        | inr free ↦ elim (Option-cases (reserve_route fl e.robot_id t s)) [
          | inl held ↦ absurd (cc (rw (free, held, try_dispatch) at h))
          | inr (a, reserved) ↦
              let made : start_task fl e.robot_id t a ≡ s' =
                cc (rw (free, reserved, try_dispatch) at h) in
              subst SafeFleet made (
                start_task-SafeFleet e.robot_id t a
                  (reserve_route-SafeFleet e.robot_id t s a v reserved))
        ]
      ]

  dispatch_from-SafeFleet :
      (r : String) (e : Robot F) (ts : List (Task F)) (s : Fleet F)
      → SafeFleet s
      → SafeFleet (dispatch_from fl r e ts s).0
  unfolding dispatch_from
  dispatch_from-SafeFleet r e [] s v = v
  dispatch_from-SafeFleet r e (t ∷ ts) s v =
      elim (Option-cases (try_dispatch fl e (take_max precedes t ts).0 s)) [
        | inl blocked ↦ rw (blocked, dispatch_from) v
        | inr (s', sent) ↦ rw (sent, dispatch_from) (try_dispatch-SafeFleet e _ s s' v sent)
      ]

  pub dispatch_next-SafeFleet :
      (r : String) (s : Fleet F) → SafeFleet s → SafeFleet (dispatch_next fl r s).0
  unfolding dispatch_next
  dispatch_next-SafeFleet r s v = elim (Option-cases (get str_dec r s.robots)) [
    | inl unknown ↦ rw (unknown, dispatch_next) v
    | inr (e, known) ↦ elim (Bool-cases (busy e)) [
      | inl occupied ↦ rw (known, occupied, dispatch_next) v
      | inr idle ↦ elim (Bool-cases (eligible fl s.config e)) [
        | inl able ↦
            rw (known, idle, able, dispatch_next)
              (dispatch_from-SafeFleet r e (queue_of r s.robot_queues) s v)
        | inr unable ↦ rw (known, idle, unable, dispatch_next) v
      ]
    ]
  ]

  -- `_schedule_task` keeps the reservations and the map of cell owners in agreement.
  pub schedule_task-SafeFleet :
      (t : Task F) (s : Fleet F) → SafeFleet s → SafeFleet (schedule_task fl t s).0
  unfolding schedule_task publish_dispatch_decision enqueue emit
  schedule_task-SafeFleet t s v =
      let seq = s.task_seq + 1 in
      let t' = record t { seq = seq } in
      let s' = record s { task_seq = seq } in
      elim (Option-cases (select_robot fl s' t' (candidates fl s' t'))) [
        | inl nobody ↦ rw (nobody, schedule_task) v
        | inr ((best, scored), chosen) ↦
            rw (chosen, schedule_task)
              (dispatch_next-SafeFleet best.robot_id
                (enqueue fl best.robot_id t' (publish_dispatch_decision fl t' best scored s')) v)
      ]
