-- ===== src/Fleet/Recovery.antt =====
-- Fault recovery: `_task_exists`, `_requeue_task`, `_recover_robot`, `_check_heartbeats`,
-- `_check_battery` and `_process_retry_tasks`.
pub mod Safety
pub mod Duplicates
use warehouse_digital_twin.Base.{
  ℕ, suc, ◌+◌, ◌≡◌, String, Bool, true, false, not, ◌||◌, ◌&&◌, ite, Option, none, some, List, [],
  ◌∷◌, ◌++◌, map, if◌then◌else◌, any, is_empty, str_dec,
}
use warehouse_digital_twin.Base.Dict.{Dict, get, set, del, keys, values}
use warehouse_digital_twin.Base.Float.{Float}
use warehouse_digital_twin.Fleet.State.{
  online, offline, Robot, Task, Reservation, Fleet, Message, Reason, waiting_for_robot,
  redispatched, robot_failed, robot_charging, task_recovered, cancel_task, emit,
}
use warehouse_digital_twin.Fleet.Publish.{is_online, task_ids, publish_reservations, publish_fleet}
use warehouse_digital_twin.Fleet.Traffic.{release_reservations, advance_all}
use warehouse_digital_twin.Fleet.Dispatch.{
  queue_of, Outcome, assigned, no_robot, schedule_task, set_current_task,
}

module _ {F : Type 0} where
  abbrev is_task : String → Task F → Bool
  is_task i t = ite (str_dec t.task_id i) true false

  -- Whether the task stands in a queue, in the waiting pool, in a reservation or in the retry list.
  unfoldable pub task_exists : String → Fleet F → Bool
  unfolding any
  task_exists i s =
      any (any (is_task i)) (values s.robot_queues)
      || any (is_task i) s.waiting_tasks
      || any (λ res. ite (str_dec res.task_id i) true false) (values s.reservations)
      || any (is_task i) s.retry_tasks

  -- The task of the active reservation, then the queued tasks: what a robot owns.
  unfoldable pub owned_tasks : String → Fleet F → List (Task F)
  owned_tasks r s = elim (get str_dec r s.reservations) [
    | none ↦ queue_of r s.robot_queues
    | some res ↦ res.task ∷ queue_of r s.robot_queues
  ]

  -- The reservation is released and the queue is dropped.
  unfoldable pub strip_robot : String → Fleet F → Fleet F
  strip_robot r s =
      let s' = (release_reservations r s).0 in
      record s' { robot_queues = del str_dec r s'.robot_queues }

  unfoldable pub set_status_offline : String → Robot F → Fleet F → Fleet F
  set_status_offline r e s = record s {
    robots = set str_dec r (record e { status = offline }) s.robots;
  }

  -- `_publish_cancel` for each task.
  unfoldable pub publish_cancels : String → List (Task F) → Fleet F → Fleet F
  unfolding emit
  publish_cancels r [] s = s
  publish_cancels r (t ∷ ts) s = publish_cancels r ts (emit (cancel_task r t.task_id) s)

module _ (fl : Float) where
  open fl use {F, lit, ltb_f, leb_f, sub}

  -- Without an eligible robot the task is appended once more: `_schedule_task` has done so already.
  unfoldable pub requeue_task : Task F → Fleet F → Fleet F
  unfolding emit
  requeue_task t s =
      let (s', outcome, t') = schedule_task fl t s in
      if task_exists t.task_id s then s else elim outcome [
        | no_robot ↦
            emit (task_recovered t.task_id waiting_for_robot)
              (record s' { waiting_tasks = s'.waiting_tasks ++ t' ∷ [] })
        | assigned ↦ emit (task_recovered t.task_id redispatched) s'
      ]

  unfoldable pub requeue_all : List (Task F) → Fleet F → Fleet F
  requeue_all [] s = s
  requeue_all (t ∷ ts) s = requeue_all ts (requeue_task t s)

  unfoldable pub recover_robot : String → Fleet F → Fleet F
  unfolding emit
  recover_robot r s =
      let recovered = owned_tasks r s in
      let s' =
        emit (robot_failed r (task_ids recovered)) (set_current_task fl r "" (strip_robot r s)) in
      if is_empty recovered then s' else publish_reservations (requeue_all recovered s')

  -- One round of the loop of `_check_heartbeats`; the Boolean is whether it sets `changed`.
  unfoldable pub check_heartbeat : (now : F) → String → Fleet F → Fleet F × Bool
  unfolding is_empty
  check_heartbeat now r s = elim (get str_dec r s.robots) [
    | none ↦ (s, false)
    | some e ↦
        if is_online e.status && ltb_f s.config.heartbeat_timeout (sub now e.last_seen)
        then (recover_robot r (set_status_offline r e s), true)
        else (s, false)
  ]

  unfoldable pub check_heartbeats_of : (now : F) → List String → Fleet F × Bool → Fleet F × Bool
  check_heartbeats_of now [] (s, changed) = (s, changed)
  check_heartbeats_of now (r ∷ rs) (s, changed) =
      let next = check_heartbeat now r s in check_heartbeats_of now rs (next.0, changed || next.1)

  unfoldable pub check_heartbeats : (now : F) → Fleet F → Fleet F
  check_heartbeats now s =
      let checked = check_heartbeats_of now (keys s.robots) (s, false) in
      if checked.1 then publish_fleet checked.0 else checked.0

  unfoldable pub needs_charge : Fleet F → Robot F → Bool
  needs_charge s e = e.charging || leb_f e.battery s.config.critical_battery

  -- What a round of `_check_battery` does for a robot that needs to charge.
  unfoldable pub release_work : String → Fleet F → Fleet F
  unfolding emit
  release_work r s =
      let released = owned_tasks r s in
      let stripped = strip_robot r s in
      let cleared =
        emit (robot_charging r (task_ids released)) (set_current_task fl r "" stripped) in
      publish_reservations (
        if is_empty released
        then stripped
        else requeue_all released (publish_cancels r released cleared))

  -- One round of the loop of `_check_battery`.
  unfoldable pub check_charge : String → Fleet F → Fleet F
  check_charge r s = elim (get str_dec r s.robots) [
    | none ↦ s
    | some e ↦ if needs_charge s e then release_work r s else s
  ]

  unfoldable pub check_battery_of : List String → Fleet F → Fleet F
  check_battery_of [] s = s
  check_battery_of (r ∷ rs) s = check_battery_of rs (check_charge r s)

  unfoldable pub check_battery : Fleet F → Fleet F
  check_battery s = check_battery_of (keys s.robots) s

  -- The loop of `_process_retry_tasks`, with the tasks that stay.
  unfoldable pub process_retry_of : List (Task F) → List (Task F) → Fleet F → Fleet F
  unfolding emit
  process_retry_of [] remaining s = record s { retry_tasks = remaining }
  process_retry_of (t ∷ ts) remaining s =
      let (s', outcome, t') = schedule_task fl t s in
      let waits = process_retry_of ts (remaining ++ t' ∷ []) s' in
      let goes = process_retry_of ts remaining (emit (task_recovered t.task_id redispatched) s') in
      elim outcome [ no_robot ↦ waits | assigned ↦ goes ]

  unfoldable pub process_retry_tasks : Fleet F → Fleet F
  process_retry_tasks s = if is_empty s.retry_tasks then s else process_retry_of s.retry_tasks [] s

  unfoldable pub check_traffic : Fleet F → Fleet F
  check_traffic s =
      let advanced = advance_all fl (keys s.reservations) (s, false) in
      if advanced.1 then publish_reservations advanced.0 else advanced.0
