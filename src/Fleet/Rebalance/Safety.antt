-- ===== src/Fleet/Rebalance/Safety.antt =====
-- Rebalancing keeps reservations and cell owners in agreement.
use warehouse_digital_twin.Base.{
  str_dec, ℕ, zero, suc, String, Bool, false, Option, none, some, List, [], ◌∷◌, ◌++◌, Bool-cases,
  Option-cases, inl, inr, is_empty, subst, List-cases,
}
use warehouse_digital_twin.Base.Dict.{get, keys}
use warehouse_digital_twin.Base.Float.{Float}
use warehouse_digital_twin.Fleet.State.{Task, Fleet}
use warehouse_digital_twin.Fleet.Publish.{publish_reservations}
use warehouse_digital_twin.Fleet.Traffic.Fleets.{SafeFleet, SafeFleet-if}
use warehouse_digital_twin.Fleet.Dispatch.{queue_of, select_robot, candidates, enqueue}
use warehouse_digital_twin.Fleet.Dispatch.Safety.{RoutesDisjoint, dispatch_next-SafeFleet}
use warehouse_digital_twin.Fleet.Rebalance.{
  pop_best_from, pop_best_task, pick_donor, take_over, wants_work, dispatch_each, assign_waiting,
  steal_for, steal_first, rebalance_round, rebalance_loop, enough_rounds, rebalance,
}

module _ (fl : Float) (routes : RoutesDisjoint fl) where
  open fl use {F}

  dispatch_each-SafeFleet :
      (rs : List String) (acc : Fleet F × Bool)
      → SafeFleet acc.0
      → SafeFleet (dispatch_each fl rs acc).0
  unfolding dispatch_each
  dispatch_each-SafeFleet [] acc v = v
  dispatch_each-SafeFleet (r ∷ rs) acc v =
      dispatch_each-SafeFleet rs _ (dispatch_next-SafeFleet fl routes r acc.0 v)

  assign_waiting-SafeFleet :
      (ts remaining : List (Task F)) (acc : Fleet F × Bool)
      → SafeFleet acc.0
      → SafeFleet (assign_waiting fl ts remaining acc).0
  unfolding assign_waiting enqueue
  assign_waiting-SafeFleet [] remaining acc v = v
  assign_waiting-SafeFleet (t ∷ ts) remaining acc v =
      elim (Option-cases (select_robot fl acc.0 t (candidates fl acc.0 t))) [
        | inl nobody ↦
            rw (nobody, assign_waiting) (assign_waiting-SafeFleet ts (remaining ++ t ∷ []) acc v)
        | inr ((best, scored), chosen) ↦
            rw (chosen, assign_waiting)
              (assign_waiting-SafeFleet ts remaining _ (
                dispatch_next-SafeFleet fl routes best.robot_id (enqueue fl best.robot_id t acc.0)
                  v))
      ]

  abbrev AllSafe : Option (Fleet F) → Type 0
  AllSafe none = Unit
  AllSafe (some s) = SafeFleet s

  take_over-SafeFleet :
      (r donor : String) (s : Fleet F) → SafeFleet s → AllSafe (take_over fl r donor s)
  unfolding take_over pop_best_task pop_best_from enqueue
  take_over-SafeFleet r donor s v = elim (List-cases (queue_of donor s.robot_queues)) [
    | inl none_queued ↦ rw (none_queued, take_over, pop_best_task) tt
    | inr (t, ts, queued) ↦
        rw (queued, take_over, pop_best_task) (dispatch_next-SafeFleet fl routes r _ v)
  ]

  steal_for-SafeFleet : (r : String) (s : Fleet F) → SafeFleet s → AllSafe (steal_for fl r s)
  unfolding steal_for
  steal_for-SafeFleet r s v = elim (Option-cases (get str_dec r s.robots)) [
    | inl unknown ↦ rw (unknown, steal_for) tt
    | inr (e, known) ↦ elim (Option-cases (pick_donor fl s r)) [
      | inl nobody ↦ rw (known, nobody, steal_for) tt
      | inr (donor, picked) ↦ elim (Bool-cases (wants_work fl r e s)) [
        | inl free ↦ rw (known, picked, free, steal_for) (take_over-SafeFleet r donor s v)
        | inr no_need ↦ rw (known, picked, no_need, steal_for) tt
      ]
    ]
  ]

  steal_first-SafeFleet :
      (rs : List String) (s : Fleet F) → SafeFleet s → AllSafe (steal_first fl rs s)
  unfolding steal_first
  steal_first-SafeFleet [] s v = tt
  steal_first-SafeFleet (r ∷ rs) s v = elim (Option-cases (steal_for fl r s)) [
    | inl nothing ↦ rw (nothing, steal_first) (steal_first-SafeFleet rs s v)
    | inr (a, stolen) ↦ rw (stolen, steal_first) (subst AllSafe stolen (steal_for-SafeFleet r s v))
  ]

  rebalance_round-SafeFleet : (s : Fleet F) → SafeFleet s → SafeFleet (rebalance_round fl s).0
  unfolding rebalance_round
  rebalance_round-SafeFleet s v =
      let dispatched = dispatch_each fl (keys s.robot_queues) (s, false) in
      let settled = assign_waiting fl dispatched.0.waiting_tasks [] dispatched in
      let w =
        assign_waiting-SafeFleet dispatched.0.waiting_tasks [] dispatched
          (dispatch_each-SafeFleet (keys s.robot_queues) (s, false) v) in
      elim (Option-cases (steal_first fl (keys settled.0.robots) settled.0)) [
        | inl nothing ↦ rw (nothing, rebalance_round) w
        | inr (a, stolen) ↦
            rw (stolen, rebalance_round)
              (subst AllSafe stolen (steal_first-SafeFleet (keys settled.0.robots) settled.0 w))
      ]

  rebalance_loop-SafeFleet :
      (fuel : ℕ) (s : Fleet F) → SafeFleet s → AllSafe (rebalance_loop fl fuel s)
  unfolding rebalance_loop
  rebalance_loop-SafeFleet zero s v = tt
  rebalance_loop-SafeFleet (suc fuel) s v =
      let w = rebalance_round-SafeFleet s v in
      elim (Bool-cases (rebalance_round fl s).1) [
        | inl more ↦
            rw (more, rebalance_loop) (rebalance_loop-SafeFleet fuel (rebalance_round fl s).0 w)
        | inr done ↦ rw (done, rebalance_loop) w
      ]

  -- `_rebalance` keeps the reservations and the map of cell owners in agreement.
  pub rebalance-SafeFleet : (s : Fleet F) → SafeFleet s → SafeFleet (rebalance fl s)
  unfolding rebalance publish_reservations
  rebalance-SafeFleet s v = elim (Option-cases (rebalance_loop fl (enough_rounds fl s) s)) [
    | inl out ↦ rw (out, rebalance) v
    | inr (a, ends) ↦
        let w : SafeFleet a =
          subst AllSafe ends (rebalance_loop-SafeFleet (enough_rounds fl s) s v) in
        rw (ends, rebalance) (SafeFleet-if (is_empty a.waiting_tasks) _ _ w w)
  ]
