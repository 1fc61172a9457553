-- ===== src/Fleet/Rebalance.antt =====
-- Dynamic rebalancing: `_rebalance`, `_pick_donor` and `_pop_best_task`.
pub mod Safety
pub mod Progress
pub mod Stealing
pub mod Termination
use warehouse_digital_twin.Base.{
  ℕ, zero, suc, ◌+◌, ◌*◌, ◌≡◌, String, Bool, true, false, not, ◌||◌, ◌&&◌, ite, Option, none, some,
  List, [], ◌∷◌, ◌++◌, if◌then◌else◌, length, ltb, is_empty, str_dec,
}
use warehouse_digital_twin.Base.Dict.{Dict, get, set, del, keys}
use warehouse_digital_twin.Base.Float.{Float}
use warehouse_digital_twin.Base.Sort.{take_max}
use warehouse_digital_twin.Fleet.State.{Robot, Task, Fleet}
use warehouse_digital_twin.Fleet.Publish.{publish_reservations}
use warehouse_digital_twin.Fleet.Dispatch.{
  queue_of, busy, precedes, eligible, select_robot, candidates, enqueue, dispatch_next,
}

module _ {F : Type 0} where
  -- `_pop_best_task`, of a queue that is not empty; an emptied queue is deleted.
  unfoldable pub pop_best_from : String → Task F → List (Task F) → Fleet F → Task F × Fleet F
  pop_best_from r t ts s =
      let (best, rest) = take_max precedes t ts in
      (
        best,
        record s {
          robot_queues = elim rest [
            | [] ↦ del str_dec r s.robot_queues
            | u ∷ us ↦ set str_dec r (u ∷ us) s.robot_queues
          ];
        },
      )

  unfoldable pub pop_best_task : String → Fleet F → Option (Task F × Fleet F)
  unfolding pop_best_from
  pop_best_task r s = elim (queue_of r s.robot_queues) [
    | [] ↦ none
    | t ∷ ts ↦ some (pop_best_from r t ts s)
  ]

-- The best donor so far, with the length of its queue.
abbrev Best : Type 0
Best = Option (String × ℕ)

module _ (fl : Float) where
  open fl use {F, ltb_f}

  -- Whether the head of a donor's queue passes the payload test, which asks the donor's capacity.
  unfoldable pub can_donate : Fleet F → (rid donor : String) → List (Task F) → Bool
  can_donate s rid donor [] = false
  can_donate s rid donor (t ∷ ts) = elim (get str_dec donor s.robots) [
    | none ↦ false
    | some d ↦
        not (ite (str_dec donor rid) true false)
        && busy d
        && not (ltb_f d.payload_capacity t.required_payload)
  ]

  -- `len(queue) > best_score`, where no best yet is a score of -1.
  longer : ℕ → Best → Bool
  longer n none = true
  longer n (some (_, m)) = ltb m n

  unfoldable pub pick_donor_from : Fleet F → String → Dict String (List (Task F)) → Best → Best
  unfolding longer can_donate
  pick_donor_from s rid [] best = best
  pick_donor_from s rid ((donor, q) ∷ qs) best =
      pick_donor_from s rid qs (
        if can_donate s rid donor q && longer (length q) best then some (donor, length q) else best)

  unfoldable pub pick_donor : Fleet F → String → Option String
  unfolding pick_donor_from
  pick_donor s rid = elim (pick_donor_from s rid s.robot_queues none) [
    | none ↦ none
    | some (donor, _) ↦ some donor
  ]

  -- 1. Dispatch queued work. The Boolean is `progress`.
  unfoldable pub dispatch_each : List String → Fleet F × Bool → Fleet F × Bool
  dispatch_each [] (s, progress) = (s, progress)
  dispatch_each (r ∷ rs) (s, progress) =
      let next = dispatch_next fl r s in dispatch_each rs (next.0, progress || next.1)

  -- 2. Assign waiting tasks; `remaining` gathers those that no robot can take.
  unfoldable pub assign_waiting :
      List (Task F) → (remaining : List (Task F)) → Fleet F × Bool → Fleet F × Bool
  unfolding candidates
  assign_waiting [] remaining (s, progress) = (record s { waiting_tasks = remaining }, progress)
  assign_waiting (t ∷ ts) remaining (s, progress) =
      let stays = assign_waiting ts (remaining ++ t ∷ []) (s, progress) in
      let goes = λ (best : Robot F).
        assign_waiting ts remaining
          ((dispatch_next fl best.robot_id (enqueue fl best.robot_id t s)).0, true) in
      elim (select_robot fl s t (candidates fl s t)) [ none ↦ stays | some (best, _) ↦ goes best ]

  -- The best queued task of the donor goes to the robot, and is dispatched if it can be.
  unfoldable pub take_over : (rid donor : String) → Fleet F → Option (Fleet F)
  unfolding pop_best_task
  take_over rid donor s = elim (pop_best_task donor s) [
    | none ↦ none
    | some (t, s') ↦ some (dispatch_next fl rid (enqueue fl rid t s')).0
  ]

  -- Whether a robot is idle with no queued work.
  unfoldable pub wants_work : String → Robot F → Fleet F → Bool
  wants_work rid e s =
      eligible fl s.config e && not (busy e) && is_empty (queue_of rid s.robot_queues)

  -- 3. What a robot takes over from a donor, if it is idle with no queued work.
  unfoldable pub steal_for : String → Fleet F → Option (Fleet F)
  unfolding pick_donor take_over wants_work
  steal_for rid s = elim (get str_dec rid s.robots) [
    | none ↦ none
    | some e ↦ elim (pick_donor s rid) [
      | none ↦ none
      | some donor ↦ if wants_work rid e s then take_over rid donor s else none
    ]
  ]

  -- The first robot that can take over a task ends the loop.
  unfoldable pub steal_first : List String → Fleet F → Option (Fleet F)
  unfolding steal_for
  steal_first [] s = none
  steal_first (rid ∷ rids) s =
      let later = steal_first rids s in elim (steal_for rid s) [ none ↦ later | some s' ↦ some s' ]

  -- A round of the `while` loop; the Boolean is `progress` at its end.
  unfoldable pub rebalance_round : Fleet F → Fleet F × Bool
  rebalance_round s =
      let dispatched = dispatch_each (keys s.robot_queues) (s, false) in
      let settled = assign_waiting dispatched.0.waiting_tasks [] dispatched in
      elim (steal_first (keys settled.0.robots) settled.0) [ none ↦ settled | some s' ↦ (s', true) ]

  -- The `while` loop, with fuel; `none` means that the fuel ran out.
  unfoldable pub rebalance_loop : ℕ → Fleet F → Option (Fleet F)
  rebalance_loop zero s = none
  rebalance_loop (suc fuel) s =
      let next = rebalance_round s in
      let again = rebalance_loop fuel next.0 in if next.1 then again else some next.0

  -- The rounds that a state can need: three for each robot, one for each waiting task, and the last.
  abbrev pub enough_rounds : Fleet F → ℕ
  enough_rounds s = suc (length s.robots * 3 + length s.waiting_tasks)

  unfoldable pub rebalance : Fleet F → Fleet F
  rebalance s = elim (rebalance_loop (enough_rounds s) s) [
    | none ↦ s
    | some s' ↦ if is_empty s'.waiting_tasks then s' else publish_reservations s'
  ]
