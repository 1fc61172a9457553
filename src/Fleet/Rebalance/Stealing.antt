-- ===== src/Fleet/Rebalance/Stealing.antt =====
-- Taking over a queued task from a busy robot brings `_rebalance` nearer to its end.
use warehouse_digital_twin.Base.{
  ℕ, suc, ◌+◌, ◌≤◌, ◌≡◌, refl, sym, ◌∙◌, ◌≢◌, inl, inr, String, Bool, true, false, ◌&&◌, Option,
  none, some, List, [], ◌∷◌, ◌++◌, if◌then◌else◌, arith, Bool-cases, Option-cases, List-cases,
  length, is_empty, In, str_dec, subst, ap,
}
use warehouse_digital_twin.Base.Dict.{Dict, get, del, keys, get-del_other}
use warehouse_digital_twin.Base.Float.{Float}
use warehouse_digital_twin.Base.Sort.{take_max}
use warehouse_digital_twin.Fleet.State.{Robot, Task, Fleet}
use warehouse_digital_twin.Fleet.Dispatch.{busy, queue_of, precedes, enqueue, dispatch_next}
use warehouse_digital_twin.Fleet.Rebalance.{
  pop_best_from, pop_best_task, can_donate, pick_donor_from, pick_donor, take_over, wants_work,
  steal_for, steal_first,
}
use warehouse_digital_twin.Fleet.Rebalance.Progress.{
  In-keys, some_inj, total, total_mono, total_strict, IsKeyed, lacks_work-queued, weight, Progress,
  dispatch_next-Progress, enqueue-Progress, queue_of-set_self, queue_of-set_other, append-not_empty,
}

module _ {F : Type 0} where
  abbrev pub sum : Fleet F → ℕ
  sum s = total (weight s) (keys s.robots)

  -- Twice the robots without a reservation, the idle robots without a queue, and the waiting tasks.
  abbrev pub measure : Fleet F → ℕ
  measure s = sum s + length s.waiting_tasks

  pub Progress-sum : (s s' : Fleet F) → Progress s s' → sum s' ≤ sum s
  Progress-sum s s' p =
      subst (λ ks. total (weight s') ks ≤ sum s) (sym p.names)
        (total_mono (weight s') (weight s) (keys s.robots) p.less)

  pub Progress-sum_strict :
      (r : String) (s s' : Fleet F)
      → Progress s s'
      → In r (keys s.robots)
      → suc (weight s' r) ≤ weight s r
      → suc (sum s') ≤ sum s
  Progress-sum_strict r s s' p m lt =
      subst (λ ks. suc (total (weight s') ks) ≤ sum s) (sym p.names)
        (total_strict (weight s') (weight s) r (keys s.robots) p.less lt m)

module _ (fl : Float) where
  open fl use {F}

  -- A donor is a busy robot.
  abbrev Donor : Fleet F → String → Type 0
  Donor s d = (e : Robot F) × (get str_dec d s.robots ≡ some e) × (busy e ≡ true)

  abbrev DonorOf : Fleet F → Option (String × ℕ) → Type 0
  DonorOf s none = Unit
  DonorOf s (some (d, n)) = Donor s d

  can_donate-Donor :
      (s : Fleet F) (r d : String) (q : List (Task F)) → can_donate fl s r d q ≡ true → Donor s d
  unfolding can_donate
  can_donate-Donor s r d [] h = absurd (cc h)
  can_donate-Donor s r d (t ∷ ts) h = elim (Option-cases (get str_dec d s.robots)) [
    | inl unknown ↦ absurd (cc (rw (unknown, can_donate) at h))
    | inr (e, known) ↦ let able = rw (known, can_donate) at h in (e, known, ground arith)
  ]

  DonorOf-if :
      (s : Fleet F) (a b : Bool) (new best : Option (String × ℕ))
      → (a ≡ true → DonorOf s new)
      → DonorOf s best
      → DonorOf s (if a && b then new else best)
  DonorOf-if s true true new best f w = f refl
  DonorOf-if s true false new best f w = w
  DonorOf-if s false b new best f w = w

  pick_donor_from-DonorOf :
      (s : Fleet F) (r : String) (qs : Dict String (List (Task F))) (best : Option (String × ℕ))
      → DonorOf s best
      → DonorOf s (pick_donor_from fl s r qs best)
  unfolding pick_donor_from
  pick_donor_from-DonorOf s r [] best w = w
  pick_donor_from-DonorOf s r ((d, q) ∷ qs) best w = pick_donor_from-DonorOf s r qs _ (
      DonorOf-if s (can_donate fl s r d q) _ (some (d, length q)) best (can_donate-Donor s r d q) w)

  pick_donor-Donor : (s : Fleet F) (r d : String) → pick_donor fl s r ≡ some d → Donor s d
  unfolding pick_donor
  pick_donor-Donor s r d h = elim (Option-cases (pick_donor_from fl s r s.robot_queues none)) [
    | inl nobody ↦ absurd (cc (rw (nobody, pick_donor) at h))
    | inr ((d', n), found) ↦
        let same = rw (found, pick_donor) at h in
        subst (Donor s) (some_inj same)
          (subst (DonorOf s) found (pick_donor_from-DonorOf s r s.robot_queues none tt))
  ]

  -- A pop changes the queue of the donor alone.
  record Popped (d : String) (s s' : Fleet F) : Type 0 where
    robots : s'.robots ≡ s.robots
    reservations : s'.reservations ≡ s.reservations
    waiting : s'.waiting_tasks ≡ s.waiting_tasks
    queues : (q : String) → d ≢ q → queue_of q s'.robot_queues ≡ queue_of q s.robot_queues

  queue_of-del_other :
      (r k : String) (m : Dict String (List (Task F)))
      → r ≢ k
      → queue_of k (del str_dec r m) ≡ queue_of k m
  queue_of-del_other r k m n = rw (get-del_other str_dec r k m n, queue_of) refl

  pop_best_from-Popped :
      (d : String) (t : Task F) (ts : List (Task F)) (s : Fleet F)
      → Popped d s (pop_best_from d t ts s).1
  unfolding pop_best_from
  pop_best_from-Popped d t ts s = elim (List-cases (take_max precedes t ts).1) [
    | inl empty ↦
        rw (empty, pop_best_from)
          (record {
            robots = refl;
            reservations = refl;
            waiting = refl;
            queues = λ q n. queue_of-del_other d q s.robot_queues n;
          })
    | inr (u, us, more) ↦
        rw (more, pop_best_from)
          (record {
            robots = refl;
            reservations = refl;
            waiting = refl;
            queues = λ q n. queue_of-set_other fl d q (u ∷ us) s.robot_queues n;
          })
  ]

  Popped-Progress :
      (d : String) (s s' : Fleet F) → IsKeyed s → Donor s d → Popped d s s' → Progress s s'
  Popped-Progress d s s' k (e, known, works) p = record {
    names = ap keys p.robots;
    waiting = p.waiting;
    less = λ q. elim (str_dec d q) [
      | yes same ↦
          subst (λ x. weight s' x ≤ weight s x) same
            (rw (p.robots, p.reservations, known, works) (omega arith))
      | no n ↦ rw (p.robots, p.reservations, p.queues q n) (omega arith)
    ];
    keyed =
        subst (λ m. (r : String) (e : Robot F) → get str_dec r m ≡ some e → e.robot_id ≡ r)
          (sym p.robots) k;
  }

  -- An idle robot without a queue that is given a task.
  given-strict :
      (r d : String) (t : Task F) (e : Robot F) (s s1 : Fleet F)
      → get str_dec r s.robots ≡ some e
      → wants_work fl r e s ≡ true
      → Popped d s s1
      → suc (weight (enqueue fl r t s1) r) ≤ weight s r
  unfolding wants_work enqueue
  given-strict r d t e s s1 known wants p =
      let idle : busy e ≡ false = ground arith in
      let empty : is_empty (queue_of r s.robot_queues) ≡ true = ground arith in
      rw
        (
          queue_of-set_self fl r (queue_of r s1.robot_queues ++ t ∷ []) s1.robot_queues,
          lacks_work-queued fl (get str_dec r s1.robots) _
              (append-not_empty fl (queue_of r s1.robot_queues) t),
          p.reservations,
          known,
          idle,
          empty,
        )
        (omega arith)

  take_over-lowers :
      (r d : String) (e : Robot F) (s s' : Fleet F)
      → IsKeyed s
      → Donor s d
      → get str_dec r s.robots ≡ some e
      → wants_work fl r e s ≡ true
      → take_over fl r d s ≡ some s'
      → IsKeyed s' × (suc (measure s') ≤ measure s)
  unfolding take_over pop_best_task
  take_over-lowers r d e s s' k donor known wants h =
      elim (List-cases (queue_of d s.robot_queues)) [
        | inl empty ↦ absurd (cc (rw (empty, take_over, pop_best_task) at h))
        | inr (t, ts, queued) ↦
            let out = pop_best_from d t ts s in
            let popped = pop_best_from-Popped d t ts s in
            let s1 = out.1 in
            let s2 = enqueue fl r out.0 s1 in
            let p1 = Popped-Progress d s s1 k donor popped in
            let p2 = enqueue-Progress fl r out.0 s1 p1.keyed in
            let p3 = (dispatch_next-Progress fl r s2 p2.keyed).0 in
            let s3 = (dispatch_next fl r s2).0 in
            let whole : Progress s s2 = record {
              names = p2.names ∙ p1.names;
              waiting = p2.waiting ∙ p1.waiting;
              less = λ q. omega (arith, p1.less q, p2.less q);
              keyed = p2.keyed;
            } in
            let lt =
              Progress-sum_strict r s s2 whole (In-keys r e s.robots known)
                (given-strict r d out.0 e s s1 known wants popped) in
            let le = Progress-sum s2 s3 p3 in
            let same = rw (queued, take_over, pop_best_task) at h in
            subst (λ x. IsKeyed x × (suc (measure x) ≤ measure s)) (some_inj same)
              (p3.keyed, omega (arith, lt, le, ap length (p3.waiting ∙ whole.waiting)))
      ]

  steal_for-lowers :
      (r : String) (s s' : Fleet F)
      → IsKeyed s
      → steal_for fl r s ≡ some s'
      → IsKeyed s' × (suc (measure s') ≤ measure s)
  unfolding steal_for
  steal_for-lowers r s s' k h = elim (Option-cases (get str_dec r s.robots)) [
    | inl unknown ↦ absurd (cc (rw (unknown, steal_for) at h))
    | inr (e, known) ↦ elim (Option-cases (pick_donor fl s r)) [
      | inl nobody ↦ absurd (cc (rw (known, nobody, steal_for) at h))
      | inr (d, picked) ↦ elim (Bool-cases (wants_work fl r e s)) [
        | inr no_need ↦ absurd (cc (rw (known, picked, no_need, steal_for) at h))
        | inl wants ↦
            take_over-lowers r d e s s' k (pick_donor-Donor s r d picked) known wants
              (rw (known, picked, wants, steal_for) at h)
      ]
    ]
  ]

  -- A robot that takes over a task lowers the measure.
  pub steal_first-lowers :
      (rs : List String) (s s' : Fleet F)
      → IsKeyed s
      → steal_first fl rs s ≡ some s'
      → IsKeyed s' × (suc (measure s') ≤ measure s)
  unfolding steal_first
  steal_first-lowers [] s s' k h = absurd (cc h)
  steal_first-lowers (r ∷ rs) s s' k h = elim (Option-cases (steal_for fl r s)) [
    | inl nothing ↦ steal_first-lowers rs s s' k (rw (nothing, steal_first) at h)
    | inr (x, stolen) ↦
        let same = rw (stolen, steal_first) at h in steal_for-lowers r s s' k (stolen ∙ same)
  ]
