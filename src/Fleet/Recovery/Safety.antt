-- ===== src/Fleet/Recovery/Safety.antt =====
-- Fault recovery and the control of traffic keep reservations and cell owners in agreement.
use warehouse_digital_twin.Base.{
  String, Bool, false, ◌&&◌, List, [], ◌∷◌, Bool-cases, Option-cases, inl, inr, str_dec, is_empty,
}
use warehouse_digital_twin.Base.Dict.{get, keys}
use warehouse_digital_twin.Base.Float.{Float}
use warehouse_digital_twin.Fleet.State.{Task, Fleet, emit}
use warehouse_digital_twin.Fleet.Publish.{is_online, publish_reservations, publish_fleet}
use warehouse_digital_twin.Fleet.Traffic.{advance_all}
use warehouse_digital_twin.Fleet.Traffic.Fleets.{
  SafeFleet, SafeFleet-if, release_reservations-SafeFleet, advance_all-SafeFleet,
}
use warehouse_digital_twin.Fleet.Dispatch.{Outcome, assigned, no_robot, schedule_task}
use warehouse_digital_twin.Fleet.Dispatch.Safety.{
  RoutesDisjoint, set_current_task-SafeFleet, schedule_task-SafeFleet,
}
use warehouse_digital_twin.Fleet.Recovery.{
  task_exists, owned_tasks, strip_robot, set_status_offline, publish_cancels, requeue_task,
  requeue_all, recover_robot, check_heartbeat, check_heartbeats_of, check_heartbeats, needs_charge,
  release_work, check_charge, check_battery_of, check_battery, process_retry_of,
  process_retry_tasks, check_traffic,
}

module _ {F : Type 0} where
  strip_robot-SafeFleet : (r : String) (s : Fleet F) → SafeFleet s → SafeFleet (strip_robot r s)
  unfolding strip_robot
  strip_robot-SafeFleet r s v = release_reservations-SafeFleet r s v

  publish_cancels-SafeFleet :
      (r : String) (ts : List (Task F)) (s : Fleet F)
      → SafeFleet s
      → SafeFleet (publish_cancels r ts s)
  unfolding publish_cancels emit
  publish_cancels-SafeFleet r [] s v = v
  publish_cancels-SafeFleet r (t ∷ ts) s v = publish_cancels-SafeFleet r ts _ v

module _ (fl : Float) where
  open fl use {F}

  -- `_check_traffic` keeps the reservations and the map of cell owners in agreement.
  pub check_traffic-SafeFleet : (s : Fleet F) → SafeFleet s → SafeFleet (check_traffic fl s)
  unfolding check_traffic publish_reservations
  check_traffic-SafeFleet s v =
      let w = advance_all-SafeFleet fl (keys s.reservations) (s, false) v in
      SafeFleet-if (advance_all fl (keys s.reservations) (s, false)).1 _ _ w w

module _ (fl : Float) (routes : RoutesDisjoint fl) where
  open fl use {F}

  requeue_outcome-SafeFleet :
      (outcome : Outcome) (a b : Fleet F)
      → SafeFleet a
      → SafeFleet b
      → SafeFleet (elim outcome [ no_robot ↦ a | assigned ↦ b ])
  requeue_outcome-SafeFleet no_robot a b v w = v
  requeue_outcome-SafeFleet assigned a b v w = w

  pub requeue_task-SafeFleet :
      (t : Task F) (s : Fleet F) → SafeFleet s → SafeFleet (requeue_task fl t s)
  unfolding requeue_task emit
  requeue_task-SafeFleet t s v =
      let w = schedule_task-SafeFleet fl routes t s v in
      SafeFleet-if (task_exists t.task_id s) _ _ v
        (requeue_outcome-SafeFleet (schedule_task fl t s).1 _ _ w w)

  requeue_all-SafeFleet :
      (ts : List (Task F)) (s : Fleet F) → SafeFleet s → SafeFleet (requeue_all fl ts s)
  unfolding requeue_all
  requeue_all-SafeFleet [] s v = v
  requeue_all-SafeFleet (t ∷ ts) s v = requeue_all-SafeFleet ts _ (requeue_task-SafeFleet t s v)

  recover_robot-SafeFleet :
      (r : String) (s : Fleet F) → SafeFleet s → SafeFleet (recover_robot fl r s)
  unfolding recover_robot emit publish_reservations
  recover_robot-SafeFleet r s v =
      let w = set_current_task-SafeFleet fl r "" _ (strip_robot-SafeFleet r s v) in
      SafeFleet-if (is_empty (owned_tasks r s)) _ _ w (requeue_all-SafeFleet (owned_tasks r s) _ w)

  check_heartbeat-SafeFleet :
      (now : F) (r : String) (s : Fleet F) → SafeFleet s → SafeFleet (check_heartbeat fl now r s).0
  unfolding check_heartbeat set_status_offline
  check_heartbeat-SafeFleet now r s v = elim (Option-cases (get str_dec r s.robots)) [
    | inl unknown ↦ rw (unknown, check_heartbeat) v
    | inr (e, known) ↦
        elim (Bool-cases
          (is_online e.status && fl.ltb_f s.config.heartbeat_timeout (fl.sub now e.last_seen))) [
            | inl stale ↦
                rw (known, stale, check_heartbeat)
                  (recover_robot-SafeFleet r (set_status_offline r e s) v)
            | inr alive ↦ rw (known, alive, check_heartbeat) v
          ]
  ]

  check_heartbeats_of-SafeFleet :
      (now : F) (rs : List String) (acc : Fleet F × Bool)
      → SafeFleet acc.0
      → SafeFleet (check_heartbeats_of fl now rs acc).0
  unfolding check_heartbeats_of
  check_heartbeats_of-SafeFleet now [] acc v = v
  check_heartbeats_of-SafeFleet now (r ∷ rs) acc v =
      check_heartbeats_of-SafeFleet now rs _ (check_heartbeat-SafeFleet now r acc.0 v)

  pub check_heartbeats-SafeFleet :
      (now : F) (s : Fleet F) → SafeFleet s → SafeFleet (check_heartbeats fl now s)
  unfolding check_heartbeats publish_fleet
  check_heartbeats-SafeFleet now s v =
      let w = check_heartbeats_of-SafeFleet now (keys s.robots) (s, false) v in
      SafeFleet-if (check_heartbeats_of fl now (keys s.robots) (s, false)).1 _ _ w w

  release_work-SafeFleet :
      (r : String) (s : Fleet F) → SafeFleet s → SafeFleet (release_work fl r s)
  unfolding release_work emit publish_reservations
  release_work-SafeFleet r s v =
      let stripped = strip_robot-SafeFleet r s v in
      SafeFleet-if (is_empty (owned_tasks r s)) _ _ stripped (
        requeue_all-SafeFleet (owned_tasks r s) _ (
          publish_cancels-SafeFleet r (owned_tasks r s) _
            (set_current_task-SafeFleet fl r "" _ stripped)))

  check_charge-SafeFleet :
      (r : String) (s : Fleet F) → SafeFleet s → SafeFleet (check_charge fl r s)
  unfolding check_charge
  check_charge-SafeFleet r s v = elim (Option-cases (get str_dec r s.robots)) [
    | inl unknown ↦ rw (unknown, check_charge) v
    | inr (e, known) ↦
        rw (known, check_charge)
          (SafeFleet-if (needs_charge fl s e) _ _ (release_work-SafeFleet r s v) v)
  ]

  check_battery_of-SafeFleet :
      (rs : List String) (s : Fleet F) → SafeFleet s → SafeFleet (check_battery_of fl rs s)
  unfolding check_battery_of
  check_battery_of-SafeFleet [] s v = v
  check_battery_of-SafeFleet (r ∷ rs) s v =
      check_battery_of-SafeFleet rs _ (check_charge-SafeFleet r s v)

  pub check_battery-SafeFleet : (s : Fleet F) → SafeFleet s → SafeFleet (check_battery fl s)
  unfolding check_battery
  check_battery-SafeFleet s v = check_battery_of-SafeFleet (keys s.robots) s v

  process_retry_of-SafeFleet :
      (ts remaining : List (Task F)) (s : Fleet F)
      → SafeFleet s
      → SafeFleet (process_retry_of fl ts remaining s)
  unfolding process_retry_of emit
  process_retry_of-SafeFleet [] remaining s v = v
  process_retry_of-SafeFleet (t ∷ ts) remaining s v =
      let w = schedule_task-SafeFleet fl routes t s v in
      requeue_outcome-SafeFleet (schedule_task fl t s).1 _ _ (process_retry_of-SafeFleet ts _ _ w)
        (process_retry_of-SafeFleet ts remaining _ w)

  pub process_retry_tasks-SafeFleet :
      (s : Fleet F) → SafeFleet s → SafeFleet (process_retry_tasks fl s)
  unfolding process_retry_tasks
  process_retry_tasks-SafeFleet s v =
      SafeFleet-if (is_empty s.retry_tasks) _ _ v (process_retry_of-SafeFleet s.retry_tasks [] s v)
