-- ===== src/Fleet/Rebalance/Progress.antt =====
-- A dispatched task brings `_rebalance` nearer to its end: the robot that takes it had no
-- reservation and then holds one.
use warehouse_digital_twin.Base.{
  ℕ, suc, ◌+◌, ◌*◌, ◌≤◌, ◌≡◌, refl, sym, ◌≢◌, ◌⊎◌, inl, inr, String, true, false, Option, none,
  some, List, [], ◌∷◌, ◌++◌, if◌then◌else◌, arith, Bool-cases, Option-cases, length, is_some,
  is_empty, In, str_dec, subst, ap, if_pos, if_neg,
}
use warehouse_digital_twin.Base.Dict.{
  Dict, get, set, keys, get-set_self, get-set_other, get-set_cases,
}
use warehouse_digital_twin.Base.Float.{Float}
use warehouse_digital_twin.Fleet.State.{Point, Cell, Robot, Task, Fleet, emit}
use warehouse_digital_twin.Fleet.Traffic.{has_conflict, reserve, reserve_fresh}
use warehouse_digital_twin.Fleet.Dispatch.{
  busy, queue_of, set_current_task, window_cells, reserve_route, start_task, try_dispatch,
  publish_assignment, dispatch_next, enqueue,
}
use warehouse_digital_twin.Fleet.Dispatch.Outcomes.{dispatch_next_lem}

keys-set :
    {V : Type 0} (k : String) (v w : V) (m : Dict String V)
    → get str_dec k m ≡ some w
    → keys (set str_dec k v m) ≡ keys m
unfolding get set
keys-set k v w [] h = absurd (cc h)
keys-set k v w ((j, u) ∷ m) h = elim (str_dec j k) [
  | yes e ↦ rw (if_pos _ e) refl
  | no n ↦ rw (if_neg _ n) (ap (λ ks. j ∷ ks) (keys-set k v w m (rw (if_neg _ n) at h)))
]

pub In-keys :
    {V : Type 0} (k : String) (w : V) (m : Dict String V) → get str_dec k m ≡ some w → In k (keys m)
unfolding get
In-keys k w [] h = absurd (cc h)
In-keys k w ((j, u) ∷ m) h = elim (str_dec j k) [
  | yes e ↦ inl (sym e)
  | no n ↦ inr (In-keys k w m (rw (if_neg _ n) at h))
]

pub some_inj : {A : Type 0} {a b : A} → some a ≡ some b → a ≡ b
some_inj h = cc h

-- The sum of a weight over a list of names.
pub total : (String → ℕ) → List String → ℕ
total f [] = 0
total f (r ∷ rs) = f r + total f rs

pub total_mono :
    (f g : String → ℕ) (rs : List String) → ((r : String) → f r ≤ g r) → total f rs ≤ total g rs
unfolding total
total_mono f g [] h = omega arith
total_mono f g (r ∷ rs) h = omega (arith, h r, total_mono f g rs h)

pub total_strict :
    (f g : String → ℕ) (k : String) (rs : List String)
    → ((r : String) → f r ≤ g r)
    → suc (f k) ≤ g k
    → In k rs
    → suc (total f rs) ≤ total g rs
unfolding total
total_strict f g k [] h l m = absurd m
total_strict f g k (r ∷ rs) h l (inl e) =
    omega (arith, subst (λ x. suc (f x) ≤ g x) e l, total_mono f g rs h)
total_strict f g k (r ∷ rs) h l (inr m) = omega (arith, h r, total_strict f g k rs h l m)

pub total_bound :
    (f : String → ℕ) (n : ℕ) (rs : List String)
    → ((r : String) → f r ≤ n)
    → total f rs ≤ length rs * n
unfolding total
total_bound f n [] h = omega arith
total_bound f n (r ∷ rs) h = grind (arith, h r, total_bound f n rs h)

module _ {F : Type 0} where
  -- Each entry of the registry carries the name that it is filed under.
  abbrev pub IsKeyed : Fleet F → Type 0
  IsKeyed s = (r : String) (e : Robot F) → get str_dec r s.robots ≡ some e → e.robot_id ≡ r

  -- 1 for an idle robot with an empty queue.
  abbrev pub lacks_work : Option (Robot F) → List (Task F) → ℕ
  lacks_work none q = 0
  lacks_work (some e) q = if busy e then 0 else (if is_empty q then 1 else 0)

  abbrev pub weight : Fleet F → String → ℕ
  weight s r =
      (if is_some (get str_dec r s.reservations) then 0 else 2)
      + lacks_work (get str_dec r s.robots) (queue_of r s.robot_queues)

  pub lacks_work_le : (o : Option (Robot F)) (q : List (Task F)) → lacks_work o q ≤ 1
  lacks_work_le none q = omega arith
  lacks_work_le (some e) q = ground arith

  -- What is true of the state after a call that dispatches at most one task, to `r`.
  pub record Progress (s s' : Fleet F) : Type 0 where
    pub names : keys s'.robots ≡ keys s.robots
    pub waiting : s'.waiting_tasks ≡ s.waiting_tasks
    pub less : (q : String) → weight s' q ≤ weight s q
    pub keyed : IsKeyed s'

module _ (fl : Float) where
  open fl use {F}

  -- A started task: the registry, the reservations and the rest.
  pub record Dispatched (r : String) (s s' : Fleet F) : Type 0 where
    pub was_free : get str_dec r s.reservations ≡ none
    pub held : is_some (get str_dec r s'.reservations) ≡ true
    pub others : (q : String) → r ≢ q → get str_dec q s'.reservations ≡ get str_dec q s.reservations
    pub robots : (q : String) → r ≢ q → get str_dec q s'.robots ≡ get str_dec q s.robots
    pub names : keys s'.robots ≡ keys s.robots
    pub queues : s'.robot_queues ≡ s.robot_queues
    pub waiting : s'.waiting_tasks ≡ s.waiting_tasks
    pub keyed : IsKeyed s'

  set_current_task-known :
      (r i : String) (e : Robot F) (s : Fleet F)
      → get str_dec r s.robots ≡ some e
      → set_current_task fl r i s
        ≡ record s { robots = set str_dec r (record e { current_task = i }) s.robots }
  unfolding set_current_task
  set_current_task-known r i e s known = rw (known, set_current_task) refl

  -- The state with the entry of `r` changed, a reservation set for `r`, and other owners and messages.
  start-Dispatched :
      (r : String) (t : Task F) (route : List Cell) (segs : List (List Cell)) (d : Point F)
      (e : Robot F) (s : Fleet F)
      → IsKeyed s
      → get str_dec r s.robots ≡ some e
      → e.robot_id ≡ r
      → get str_dec r s.reservations ≡ none
      → Dispatched r s (start_task fl r t (reserve_fresh r t route segs d s))
  unfolding start_task publish_assignment emit reserve_fresh
  start-Dispatched r t route segs d e s k known named free =
      let s1 = reserve_fresh r t route segs d s in
      subst (λ x. Dispatched r s (publish_assignment fl r t x))
        (sym (set_current_task-known r t.task_id e s1 known))
        (record {
          was_free = free;
          held = rw (get-set_self str_dec r _ s.reservations) refl;
          others = λ q n. get-set_other str_dec r q _ s.reservations n;
          robots = λ q n. get-set_other str_dec r q _ s.robots n;
          names = keys-set r _ e s.robots known;
          queues = refl;
          waiting = refl;
          keyed = λ q x found. elim (get-set_cases str_dec r q _ x s.robots found) [
            | inl (same, entry) ↦ cc (same, ap (λ (y : Robot F). y.robot_id) entry, named)
            | inr (other, before) ↦ k q x before
          ];
        })

  try_dispatch-Dispatched :
      (e : Robot F) (t : Task F) (s s' : Fleet F)
      → IsKeyed s
      → get str_dec e.robot_id s.robots ≡ some e
      → try_dispatch fl e t s ≡ some s'
      → Dispatched e.robot_id s s'
  unfolding try_dispatch reserve_route reserve
  try_dispatch-Dispatched e t s s' k known h =
      elim (Bool-cases (has_conflict e.robot_id (window_cells fl s.config t) s.cell_owners)) [
        | inl taken ↦ absurd (cc (rw (taken, try_dispatch) at h))
        | inr clear ↦ elim (Option-cases (get str_dec e.robot_id s.reservations)) [
          | inr (res, holds) ↦
              absurd (cc (rw (clear, holds, try_dispatch, reserve_route, reserve) at h))
          | inl free ↦
              let started = rw (clear, free, try_dispatch, reserve_route, reserve) at h in
              subst (Dispatched e.robot_id s) (some_inj started)
                (start-Dispatched e.robot_id t _ _ _ e s k known refl free)
        ]
      ]

  -- A change of the queue of `r` alone.
  abbrev pub with_queue : String → List (Task F) → Fleet F → Fleet F
  with_queue r q s = record s { robot_queues = set str_dec r q s.robot_queues }

  pub queue_of-set_self :
      (r : String) (q : List (Task F)) (m : Dict String (List (Task F)))
      → queue_of r (set str_dec r q m) ≡ q
  queue_of-set_self r q m = rw (get-set_self str_dec r q m, queue_of) refl

  pub queue_of-set_other :
      (r k : String) (q : List (Task F)) (m : Dict String (List (Task F)))
      → r ≢ k
      → queue_of k (set str_dec r q m) ≡ queue_of k m
  queue_of-set_other r k q m n = rw (get-set_other str_dec r k q m n, queue_of) refl

  weight-Dispatched_self :
      (r : String) (q : List (Task F)) (s s' : Fleet F)
      → Dispatched r s s'
      → suc (weight (with_queue r q s') r) ≤ weight s r
  weight-Dispatched_self r q s s' d =
      rw (d.was_free, d.held)
        (omega (
          arith,
          lacks_work_le (get str_dec r s'.robots) (queue_of r (set str_dec r q s'.robot_queues)),
        ))

  weight-Dispatched_other :
      (r k : String) (q : List (Task F)) (s s' : Fleet F)
      → Dispatched r s s'
      → r ≢ k
      → weight (with_queue r q s') k ≤ weight s k
  weight-Dispatched_other r k q s s' d n =
      rw (d.others k n, d.robots k n, queue_of-set_other r k q s'.robot_queues n, d.queues)
        (omega arith)

  Dispatched-Progress :
      (r : String) (q : List (Task F)) (s s' : Fleet F)
      → Dispatched r s s'
      → Progress s (with_queue r q s')
  Dispatched-Progress r q s s' d = record {
    names = d.names;
    waiting = d.waiting;
    less = λ k. elim (str_dec r k) [
      | yes e ↦
          subst (λ x. weight (with_queue r q s') x ≤ weight s x) e
            (omega (arith, weight-Dispatched_self r q s s' d))
      | no n ↦ weight-Dispatched_other r k q s s' d n
    ];
    keyed = d.keyed;
  }

  -- A dispatch lowers the weight of its robot, and no call raises any.
  pub dispatch_next-Progress :
      (r : String) (s : Fleet F)
      → IsKeyed s
      → Progress s (dispatch_next fl r s).0
        × (((dispatch_next fl r s).1 ≡ false)
            ⊎ (In r (keys s.robots) × (suc (weight (dispatch_next fl r s).0 r) ≤ weight s r)))
  dispatch_next-Progress r s k = elim (dispatch_next_lem fl r s) [
    | inl same ↦
        rw same
          (record { names = refl; waiting = refl; less = λ q. omega arith; keyed = k }, inl refl)
    | inr (sent, v) ↦
        let name = k r v.entry v.registered in
        let d : Dispatched r s v.started =
          subst (λ x. Dispatched x s v.started) name
            (try_dispatch-Dispatched v.entry _ s v.started k
              (subst (λ x. get str_dec x s.robots ≡ some v.entry) (sym name) v.registered)
              v.reserved) in
        subst
          (λ x.
            Progress s x
            × (((dispatch_next fl r s).1 ≡ false)
                ⊎ (In r (keys s.robots) × (suc (weight x r) ≤ weight s r))))
          (sym v.state)
          (
            Dispatched-Progress r _ s v.started d,
            inr (In-keys r v.entry s.robots v.registered, weight-Dispatched_self r _ s v.started d),
          )
  ]

  pub append-not_empty : (q : List (Task F)) (t : Task F) → is_empty (q ++ t ∷ []) ≡ false
  unfolding is_empty
  append-not_empty [] t = refl
  append-not_empty (x ∷ q) t = refl

  pub lacks_work-queued :
      (o : Option (Robot F)) (q : List (Task F)) → is_empty q ≡ false → lacks_work o q ≡ 0
  lacks_work-queued none q h = refl
  lacks_work-queued (some e) q h = ground arith

  pub enqueue-Progress :
      (r : String) (t : Task F) (s : Fleet F) → IsKeyed s → Progress s (enqueue fl r t s)
  unfolding enqueue
  enqueue-Progress r t s k = record {
    names = refl;
    waiting = refl;
    less = λ q. elim (str_dec r q) [
      | yes e ↦
          subst (λ x. weight (enqueue fl r t s) x ≤ weight s x) e
            (rw
              (
                queue_of-set_self r (queue_of r s.robot_queues ++ t ∷ []) s.robot_queues,
                lacks_work-queued (get str_dec r s.robots) _
                    (append-not_empty (queue_of r s.robot_queues) t),
              )
              (omega arith))
      | no n ↦ rw (queue_of-set_other r q _ s.robot_queues n) (omega arith)
    ];
    keyed = k;
  }
