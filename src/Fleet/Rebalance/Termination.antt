-- ===== src/Fleet/Rebalance/Termination.antt =====
-- The loop of `_rebalance` ends: each round that makes progress lowers a measure.
use warehouse_digital_twin.Base.{
  ℕ, zero, suc, ◌+◌, ◌≤◌, ◌≡◌, refl, ◌∙◌, ◌⊎◌, inl, inr, String, Bool, true, false, ◌||◌, some,
  List, [], ◌∷◌, ◌++◌, arith, Bool-cases, Option-cases, length, length-append, is_some, str_dec,
  subst, ap,
}
use warehouse_digital_twin.Base.Dict.{Dict, get, keys}
use warehouse_digital_twin.Base.Float.{Float}
use warehouse_digital_twin.Fleet.State.{Task, Fleet}
use warehouse_digital_twin.Fleet.Dispatch.{
  queue_of, select_robot, candidates, enqueue, dispatch_next,
}
use warehouse_digital_twin.Fleet.Rebalance.{
  dispatch_each, assign_waiting, steal_first, rebalance_round, rebalance_loop, enough_rounds,
}
use warehouse_digital_twin.Fleet.Rebalance.Progress.{
  total_bound, IsKeyed, lacks_work_le, weight, dispatch_next-Progress, enqueue-Progress,
}
use warehouse_digital_twin.Fleet.Rebalance.Stealing.{
  sum, measure, Progress-sum, Progress-sum_strict, steal_first-lowers,
}

module _ {F : Type 0} where
  -- A part of a round: the measure is within the bound, and below it if the flag was raised.
  record Lowers (bound : ℕ) (b : Bool) (out : Fleet F × Bool) : Type 0 where
    keyed : IsKeyed out.0
    within : measure out.0 ≤ bound
    raised : (out.1 ≡ b) ⊎ (suc (measure out.0) ≤ bound)

module _ (fl : Float) where
  open fl use {F}

  dispatch_each-Lowers :
      (rs : List String) (s : Fleet F) (b : Bool)
      → IsKeyed s
      → Lowers (measure s) b (dispatch_each fl rs (s, b))
  unfolding dispatch_each
  dispatch_each-Lowers [] s b k = record { keyed = k; within = omega arith; raised = inl refl }
  dispatch_each-Lowers (r ∷ rs) s b k =
      let (p, flag) = dispatch_next-Progress fl r s k in
      let s' = (dispatch_next fl r s).0 in
      let w = dispatch_each-Lowers rs s' (b || (dispatch_next fl r s).1) p.keyed in
      let le = Progress-sum s s' p in
      record {
        keyed = w.keyed;
        within = omega (arith, w.within, le, ap length p.waiting);
        raised = elim flag [
          | inr (m, lt) ↦
              inr (omega (arith, w.within, Progress-sum_strict r s s' p m lt, ap length p.waiting))
          | inl quiet ↦ elim (w.raised) [
            | inl same ↦ inl (ground (arith, same, quiet))
            | inr lt ↦ inr (omega (arith, lt, le, ap length p.waiting))
          ]
        ];
      }

  assign_waiting-Lowers :
      (ts rem : List (Task F)) (s : Fleet F) (b : Bool)
      → IsKeyed s
      → Lowers (sum s + (length ts + length rem)) b (assign_waiting fl ts rem (s, b))
  unfolding assign_waiting
  assign_waiting-Lowers [] rem s b k = record { keyed = k; within = omega arith; raised = inl refl }
  assign_waiting-Lowers (t ∷ ts) rem s b k =
      elim (Option-cases (select_robot fl s t (candidates fl s t))) [
        | inl nobody ↦
            rw (nobody, assign_waiting)
              (subst (λ n. Lowers n b (assign_waiting fl ts (rem ++ t ∷ []) (s, b)))
                (omega (arith, length-append rem (t ∷ [])))
                (assign_waiting-Lowers ts (rem ++ t ∷ []) s b k))
        | inr ((best, scored), chosen) ↦
            let s1 = enqueue fl best.robot_id t s in
            let q = enqueue-Progress fl best.robot_id t s k in
            let p = (dispatch_next-Progress fl best.robot_id s1 q.keyed).0 in
            let s2 = (dispatch_next fl best.robot_id s1).0 in
            let w = assign_waiting-Lowers ts rem s2 true p.keyed in
            let le1 = Progress-sum s s1 q in
            let le2 = Progress-sum s1 s2 p in
            rw (chosen, assign_waiting)
              (record {
                keyed = w.keyed;
                within = omega (arith, w.within, le1, le2);
                raised = inr (omega (arith, w.within, le1, le2));
              })
      ]

  rebalance_round-lowers :
      (s : Fleet F)
      → IsKeyed s
      → IsKeyed (rebalance_round fl s).0
        × (((rebalance_round fl s).1 ≡ false)
            ⊎ (suc (measure (rebalance_round fl s).0) ≤ measure s))
  unfolding rebalance_round
  rebalance_round-lowers s k =
      let a = dispatch_each fl (keys s.robot_queues) (s, false) in
      let u = dispatch_each-Lowers (keys s.robot_queues) s false k in
      let c = assign_waiting fl a.0.waiting_tasks [] a in
      let w = assign_waiting-Lowers a.0.waiting_tasks [] a.0 a.1 u.keyed in
      elim (Option-cases (steal_first fl (keys c.0.robots) c.0)) [
        | inr (s', stolen) ↦
            let (k', lt) = steal_first-lowers fl (keys c.0.robots) c.0 s' w.keyed stolen in
            rw (stolen, rebalance_round) (k', inr (omega (arith, lt, w.within, u.within)))
        | inl nothing ↦
            rw (nothing, rebalance_round)
              (
                w.keyed,
                elim w.raised [
                  | inr lt ↦ inr (omega (arith, lt, u.within))
                  | inl same ↦ elim u.raised [
                    | inl still ↦ inl (same ∙ still)
                    | inr lt ↦ inr (omega (arith, lt, w.within))
                  ]
                ],
              )
      ]

  rebalance_loop-ends :
      (fuel : ℕ) (s : Fleet F)
      → IsKeyed s
      → suc (measure s) ≤ fuel
      → (s' : Fleet F) × (rebalance_loop fl fuel s ≡ some s')
  unfolding rebalance_loop
  rebalance_loop-ends zero s k h = absurd (omega (arith, h))
  rebalance_loop-ends (suc fuel) s k h =
      let next = rebalance_round fl s in
      let (k', flag) = rebalance_round-lowers s k in
      elim (Bool-cases next.1) [
        | inr stops ↦ (next.0, rw (stops, rebalance_loop) refl)
        | inl more ↦ elim flag [
          | inl quiet ↦ absurd (cc (more, quiet))
          | inr lt ↦
              let (s', e) = rebalance_loop-ends fuel next.0 k' (omega (arith, lt, h)) in
              (s', rw (more, rebalance_loop) e)
        ]
      ]

  weight_le : (s : Fleet F) (r : String) → weight s r ≤ 3
  weight_le s r = elim (Bool-cases (is_some (get str_dec r s.reservations))) [
    | inl held ↦
        rw held (omega (arith, lacks_work_le (get str_dec r s.robots) (queue_of r s.robot_queues)))
    | inr free ↦
        rw free (omega (arith, lacks_work_le (get str_dec r s.robots) (queue_of r s.robot_queues)))
  ]

  length-keys : {V : Type 0} (m : Dict String V) → length (keys m) ≡ length m
  length-keys [] = refl
  length-keys (p ∷ m) = ap suc (length-keys m)

  -- The loop of `_rebalance` ends within `enough_rounds` rounds, where each entry of the registry
  -- carries the name that it is filed under.
  pub rebalance_loop-enough_rounds :
      (s : Fleet F)
      → IsKeyed s
      → (s' : Fleet F) × (rebalance_loop fl (enough_rounds fl s) s ≡ some s')
  rebalance_loop-enough_rounds s k =
      rebalance_loop-ends (enough_rounds fl s) s k (
        omega (arith, total_bound (weight s) 3 (keys s.robots) (weight_le s), length-keys s.robots))
