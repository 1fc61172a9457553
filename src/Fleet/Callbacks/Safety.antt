-- ===== src/Fleet/Callbacks/Safety.antt =====
-- The traffic safety of the whole node: whatever messages and timer ticks arrive, no two robots
-- hold a cell at once.
use warehouse_digital_twin.Base.{
  ◌+◌, ◌≡◌, ◌≢◌, String, true, false, ◌&&◌, some, List, [], ◌∷◌, Bool-cases, Option-cases, inl, inr,
  str_dec, strip,
}
use warehouse_digital_twin.Base.Dict.{get}
use warehouse_digital_twin.Base.Float.{Float}
use warehouse_digital_twin.Fleet.State.{Task, Params, Reservation, Cell, Fleet, init, cell_dec}
use warehouse_digital_twin.Fleet.Publish.{is_blank, is_online, publish_reservations, publish_fleet}
use warehouse_digital_twin.Fleet.Route.Rounding.{Rounding, routes_disjoint}
use warehouse_digital_twin.Fleet.Traffic.{has_cell}
use warehouse_digital_twin.Fleet.Traffic.Safety.{IsSafe-exclusive}
use warehouse_digital_twin.Fleet.Traffic.Fleets.{
  SafeFleet, SafeFleet-if, SafeFleet-ite, activate-SafeFleet, release_reservations-SafeFleet,
}
use warehouse_digital_twin.Fleet.Dispatch.{
  Outcome, assigned, no_robot, schedule_task, publish_assignment,
}
use warehouse_digital_twin.Fleet.Dispatch.Safety.{RoutesDisjoint, schedule_task-SafeFleet}
use warehouse_digital_twin.Fleet.Recovery.{task_exists}
use warehouse_digital_twin.Fleet.Recovery.Safety.{
  check_traffic-SafeFleet, check_heartbeats-SafeFleet, check_battery-SafeFleet,
  process_retry_tasks-SafeFleet,
}
use warehouse_digital_twin.Fleet.Rebalance.Safety.{rebalance-SafeFleet}
use warehouse_digital_twin.Fleet.Messages.{Registration, parse_registration, parse_pose, parse_task}
use warehouse_digital_twin.Fleet.Callbacks.{
  check_reservation_release, register, registration_callback, pose_callback, heartbeat_callback,
  submit, task_callback, control_loop, Event, registration, pose, heartbeat, add_task, timer,
  handle, run,
}

module _ (fl : Float) (routes : RoutesDisjoint fl) where
  open fl use {F}

  check_reservation_release-SafeFleet :
      (r i : String) (s : Fleet F) → SafeFleet s → SafeFleet (check_reservation_release fl r i s)
  unfolding check_reservation_release publish_reservations
  check_reservation_release-SafeFleet r i s v = elim (Option-cases (get str_dec r s.reservations)) [
    | inl free ↦ rw (free, check_reservation_release) v
    | inr (res, held) ↦
        rw (held, check_reservation_release)
          (SafeFleet-ite (str_dec i res.task_id) _ _ (activate-SafeFleet r res s v held) (
            SafeFleet-if (is_blank i && res.activated) _ _
              (rebalance-SafeFleet fl routes _ (release_reservations-SafeFleet r _ v)) v))
  ]

  register-SafeFleet :
      (now : F) (g : Registration F) (s : Fleet F) → SafeFleet s → SafeFleet (register fl now g s)
  unfolding register publish_fleet
  register-SafeFleet now g s v = check_reservation_release-SafeFleet g.robot_id g.current_task _ v

  pose_callback-SafeFleet :
      (msg : String) (s : Fleet F) → SafeFleet s → SafeFleet (pose_callback fl msg s)
  unfolding pose_callback
  pose_callback-SafeFleet msg s v = elim (Option-cases (parse_pose fl msg)) [
    | inl bad ↦ rw (bad, pose_callback) v
    | inr (p, parsed) ↦ elim (Option-cases (get str_dec p.0 s.robots)) [
      | inl unknown ↦ rw (parsed, unknown, pose_callback) v
      | inr (e, known) ↦ rw (parsed, known, pose_callback) v
    ]
  ]

  heartbeat_callback-SafeFleet :
      (now : F) (msg : String) (s : Fleet F)
      → SafeFleet s
      → SafeFleet (heartbeat_callback fl now msg s)
  unfolding heartbeat_callback publish_fleet
  heartbeat_callback-SafeFleet now msg s v =
      SafeFleet-if (is_blank (strip msg)) _ _ v
        (elim (Option-cases (get str_dec (strip msg) s.robots)) [
          | inl unknown ↦ rw unknown v
          | inr (e, known) ↦ rw known (SafeFleet-if (is_online e.status) _ _ v v)
        ])

  submit_outcome-SafeFleet :
      (outcome : Outcome) (a b : Fleet F)
      → SafeFleet a
      → SafeFleet b
      → SafeFleet (elim outcome [ no_robot ↦ a | assigned ↦ b ])
  submit_outcome-SafeFleet no_robot a b v w = v
  submit_outcome-SafeFleet assigned a b v w = w

  submit-SafeFleet : (t : Task F) (s : Fleet F) → SafeFleet s → SafeFleet (submit fl t s)
  unfolding submit publish_reservations publish_fleet publish_assignment
  submit-SafeFleet t s v =
      let s' = record s { tasks_submitted = s.tasks_submitted + 1 } in
      let w = schedule_task-SafeFleet fl routes t s' v in
      SafeFleet-if (task_exists t.task_id s) _ _ v
        (submit_outcome-SafeFleet (schedule_task fl t s').1 _ _ w w)

  -- Each reaction of the node keeps the reservations and the map of cell owners in agreement, for an
  -- arithmetic whose routes have segments without common cells.
  pub handle-SafeFleet : (e : F × Event F) (s : Fleet F) → SafeFleet s → SafeFleet (handle fl e s)
  unfolding handle registration_callback task_callback control_loop publish_reservations
      publish_fleet
  handle-SafeFleet (now, registration msg) s v = elim (Option-cases (parse_registration fl msg)) [
    | inl bad ↦ rw (bad, registration_callback) v
    | inr (g, parsed) ↦ rw (parsed, registration_callback) (register-SafeFleet now g s v)
  ]
  handle-SafeFleet (now, pose msg) s v = pose_callback-SafeFleet msg s v
  handle-SafeFleet (now, heartbeat msg) s v = heartbeat_callback-SafeFleet now msg s v
  handle-SafeFleet (now, add_task msg) s v = elim (Option-cases (parse_task fl msg)) [
    | inl bad ↦ rw (bad, task_callback) v
    | inr (t, parsed) ↦ rw (parsed, task_callback) (submit-SafeFleet t s v)
  ]
  handle-SafeFleet (now, timer params) s v = rebalance-SafeFleet fl routes _ (
      process_retry_tasks-SafeFleet fl routes _ (
        check_traffic-SafeFleet fl _
          (check_battery-SafeFleet fl routes _ (check_heartbeats-SafeFleet fl routes now _ v))))

  -- The same of any sequence of reactions.
  pub run-SafeFleet :
      (es : List (F × Event F)) (s : Fleet F) → SafeFleet s → SafeFleet (run fl es s)
  unfolding run
  run-SafeFleet [] s v = v
  run-SafeFleet (e ∷ es) s v = run-SafeFleet es _ (handle-SafeFleet e s v)

-- Nothing is reserved and nothing is owned at the start.
pub init-SafeFleet : {F : Type 0} (params : Params F) → SafeFleet (init params)
unfolding init get
init-SafeFleet params = record {
  fresh = λ r res h. absurd (cc h);
  owned = λ r res c h m. absurd (cc h);
  backed = λ r c h. absurd (cc h);
  disjoint = λ r res h. absurd (cc h);
}

-- After any sequence of messages and timer ticks from the start, in any order and at any times, a
-- cell that a robot has reserved is reserved by no other robot, provided that floating point
-- operations keep the order of their exact results (`Rounding`).
pub run-exclusive :
    (fl : Float) (rounding : Rounding fl) (params : Params fl.F) (es : List (fl.F × Event fl.F))
    (r q : String) (a b : Reservation fl.F) (c : Cell)
    → r ≢ q
    → get str_dec r (run fl es (init params)).reservations ≡ some a
    → get str_dec q (run fl es (init params)).reservations ≡ some b
    → has_cell c a.cells ≡ true
    → has_cell c b.cells ≡ false
run-exclusive fl rounding params es r q a b c other ha hb ma =
    elim (Bool-cases (has_cell c b.cells)) [
      | inl mb ↦ absurd (
          other (
            IsSafe-exclusive (run fl es (init params)).reservations
              (run fl es (init params)).cell_owners r q a b c
              (run-SafeFleet fl (routes_disjoint fl rounding) es (init params)
                (init-SafeFleet params))
              ha hb ma mb))
      | inr free ↦ free
    ]

-- After any sequence of messages and timer ticks from the start each owned cell belongs to a robot that holds a reservation with the cell
-- in a reserved segment (under `Rounding`): no cell stays locked without a holder.
pub run-no_ghost_lock :
    (fl : Float) (rounding : Rounding fl) (params : Params fl.F) (es : List (fl.F × Event fl.F))
    (r : String) (c : Cell)
    → get cell_dec c (run fl es (init params)).cell_owners ≡ some r
    → (res : Reservation fl.F) × (get str_dec r (run fl es (init params)).reservations ≡ some res)
      × (has_cell c res.cells ≡ true)
run-no_ghost_lock fl rounding params es r c h =
    let v =
      run-SafeFleet fl (routes_disjoint fl rounding) es (init params) (init-SafeFleet params) in
    let (res, found, m) = v.backed r c h in (res, found, rw (v.fresh r res found) m)
