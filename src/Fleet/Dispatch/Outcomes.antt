-- ===== src/Fleet/Dispatch/Outcomes.antt =====
-- What scheduling and dispatching do on every branch.
use warehouse_digital_twin.Base.{
  not-true, ◌+◌, ◌≡◌, refl, sym, ◌⊎◌, String, true, false, none, some, List, [], ◌∷◌, ◌++◌, arith,
  Bool-cases, Option-cases, List-cases, inl, inr, str_dec, All, All-map, All-In, All-In_self, In,
  In-keep, In-keep_back, keep, subst, ap, if_pos, if_neg, and_left, and_right, not, ◌&&◌,
}
use warehouse_digital_twin.Base.Dict.{get, set, values}
use warehouse_digital_twin.Base.Float.{Float}
use warehouse_digital_twin.Base.Sort.{take_max}
use warehouse_digital_twin.Base.Sort.Laws.{All-sort, take_max-greatest}
use warehouse_digital_twin.Fleet.State.{Robot, Task, Config, Status, online, offline, Fleet, emit}
use warehouse_digital_twin.Fleet.Publish.{is_online}
use warehouse_digital_twin.Fleet.Dispatch.{
  busy, precedes, eligible, can_take, ranked, select_robot, candidates, schedule_task, assigned,
  no_robot, queue_of, try_dispatch, dispatch_from, dispatch_next, enqueue,
  publish_dispatch_decision,
}
use warehouse_digital_twin.Fleet.Dispatch.Choice.{
  select_robot-In, select_robot-scored, select_robot-idle_first,
}

is_online-online : (s : Status) → is_online s ≡ true → s ≡ online
is_online-online online h = refl
is_online-online offline h = absurd (cc h)

precedes_trans :
    {F : Type 0} (a b c : Task F)
    → precedes a b ≡ false
    → precedes b c ≡ false
    → precedes a c ≡ false
unfolding precedes
precedes_trans a b c h k = ground arith

precedes_asym : {F : Type 0} (a b : Task F) → precedes a b ≡ true → precedes b a ≡ false
unfolding precedes
precedes_asym a b h = ground arith

module _ (fl : Float) where
  open fl use {F, leb_f}

  -- The task as `_schedule_task` numbers it, and the state with the number drawn.
  abbrev pub numbered : Task F → Fleet F → Task F
  numbered t s = record t { seq = s.task_seq + 1 }

  abbrev pub counted : Fleet F → Fleet F
  counted s = record s { task_seq = s.task_seq + 1 }

  -- The robot is ONLINE and not charging, its battery is not low, and it carries the payload.
  abbrev pub CanTake : Config F → Task F → Robot F → Type 0
  CanTake c t e =
      (e.status ≡ online)
      × (e.charging ≡ false)
      × (leb_f c.low_battery e.battery ≡ true)
      × (leb_f t.required_payload e.payload_capacity ≡ true)

  can_take-CanTake :
      (c : Config F) (t : Task F) (e : Robot F) → can_take fl c t e ≡ true → CanTake c t e
  unfolding can_take eligible
  can_take-CanTake c t e h =
      let on = is_online e.status in
      let low = leb_f c.low_battery e.battery in
      let payload = leb_f t.required_payload e.payload_capacity in
      let a = and_left (on && not e.charging && low) payload h in
      let b = and_left (on && not e.charging) low a in
      (
        is_online-online e.status (and_left on (not e.charging) b),
        not-true e.charging (and_right on (not e.charging) b),
        and_right (on && not e.charging) low a,
        and_right (on && not e.charging && low) payload h,
      )

  CanTake-can_take :
      (c : Config F) (t : Task F) (e : Robot F) → CanTake c t e → can_take fl c t e ≡ true
  unfolding can_take eligible
  CanTake-can_take c t e (o, k, b, p) = rw (can_take, eligible, o, k, b, p) refl

  -- The task waits, since no robot of the registry can take it.
  pub record Waits (t : Task F) (s : Fleet F) : Type 0 where
    pub outcome : (schedule_task fl t s).1 ≡ no_robot
    pub task : (schedule_task fl t s).2 ≡ numbered t s
    pub nobody : All (λ e. ¬ CanTake s.config t e) (values s.robots)
    pub state : (schedule_task fl t s).0 ≡ record s {
      task_seq = s.task_seq + 1;
      waiting_tasks = s.waiting_tasks ++ numbered t s ∷ [];
    }

  -- The task goes to the end of the queue of a robot of the registry that can take it, which is then
  -- asked to start its best task. The robot is idle, or no robot that can take the task is.
  pub record Commits (t : Task F) (s : Fleet F) : Type 0 where
    pub outcome : (schedule_task fl t s).1 ≡ assigned
    pub task : (schedule_task fl t s).2 ≡ numbered t s
    pub best : Robot F
    pub member : In best (values s.robots)
    pub able : CanTake s.config t best
    pub idle_first :
        (best.current_task ≡ "")
        ⊎ All (λ e. ¬ (CanTake s.config t e × (e.current_task ≡ ""))) (values s.robots)
    -- The published decision lists the robots that can take the task, the chosen one first.
    pub others : List (Robot F)
    pub listed : All (λ e. In e (values s.robots) × CanTake s.config t e) (best ∷ others)
    pub complete : All (λ e. (¬ CanTake s.config t e) ⊎ In e (best ∷ others)) (values s.robots)
    pub state :
        (schedule_task fl t s).0
        ≡ (dispatch_next fl best.robot_id
            (record (publish_dispatch_decision fl (numbered t s) best (best ∷ others) (counted s)) {
              robot_queues =
                  set str_dec best.robot_id
                    (queue_of best.robot_id s.robot_queues ++ numbered t s ∷ [])
                    s.robot_queues;
            })).0

  select_robot-none :
      (s : Fleet F) (t : Task F) (es : List (Robot F))
      → select_robot fl s t es ≡ none
      → All (λ _. ⊥) es
  unfolding select_robot ranked
  select_robot-none s t es h = elim (List-cases (ranked fl s t es)) [
    | inl empty ↦ All-sort _ (λ _. ⊥) es (subst (All (λ _. ⊥)) (sym empty) tt)
    | inr (x, rest, e) ↦ absurd (cc (rw (e, select_robot) at h))
  ]

  -- An idle robot that can take a task is a candidate that is not busy.
  idle_candidate :
      (s : Fleet F) (t : Task F) (e : Robot F)
      → All (λ x. busy x ≡ true) (candidates fl s t)
      → In e (values s.robots)
      → ¬ (CanTake s.config t e × (e.current_task ≡ ""))
  unfolding candidates busy
  idle_candidate s t e all member (able, idle) =
      let is_busy =
        All-In (λ x. busy x ≡ true) e (candidates fl s t) all
          (In-keep_back (can_take fl s.config t) e (values s.robots) member
            (CanTake-can_take s.config t e able)) in
      absurd (cc (is_busy, ap not (if_pos (str_dec e.current_task "") idle true false)))

  pub schedule_task_lem : (t : Task F) (s : Fleet F) → Waits t s ⊎ Commits t s
  unfolding schedule_task candidates busy enqueue publish_dispatch_decision emit
  schedule_task_lem t s =
      let t' = numbered t s in
      let s' = counted s in
      let P = can_take fl s.config t in
      let robots = values s.robots in
      elim (Option-cases (select_robot fl s' t' (candidates fl s' t'))) [
        | inl nobody ↦ inl (record {
          outcome = rw (nobody, schedule_task);
          task = rw (nobody, schedule_task);
          nobody =
              All-map robots
                (λ e m k.
                  All-In (λ _. ⊥) e (keep P robots) (select_robot-none s' t' _ nobody)
                    (In-keep_back P e robots m (CanTake-can_take s.config t e k)))
                (All-In_self robots);
          state = rw (nobody, schedule_task);
        })
        | inr ((best, scored), chosen) ↦
            let ((others, first), listed, complete) =
              select_robot-scored fl s' t' (keep P robots) best scored chosen in
            let (member, able) =
              In-keep P best robots (select_robot-In fl s' t' (keep P robots) best scored chosen) in
            inr (record {
              outcome = rw (chosen, schedule_task);
              task = rw (chosen, schedule_task);
              best = best;
              member = member;
              able = can_take-CanTake s.config t best able;
              idle_first = elim (str_dec best.current_task "") [
                | yes e ↦ inl e
                | no n ↦
                    let all =
                      select_robot-idle_first fl s' t' (candidates fl s' t') best scored chosen
                        (ap not (if_neg (str_dec best.current_task "") n true false)) in
                    inr (All-map robots (λ e m. idle_candidate s t e all m) (All-In_self robots))
              ];
              others = others;
              listed = subst (All (λ e. In e robots × CanTake s.config t e)) first (
                  All-map scored
                    (λ e m.
                      let (i, q) = In-keep P e robots m in (i, can_take-CanTake s.config t e q))
                    listed);
              complete =
                  All-map robots
                    (λ e m. elim (Bool-cases (P e)) [
                      | inl k ↦ inr (
                          subst (In e) first (
                            All-In (λ x. In x scored) e (keep P robots) complete
                              (In-keep_back P e robots m k)))
                      | inr k ↦ inl λ able. absurd (cc (CanTake-can_take s.config t e able, k))
                    ])
                    (All-In_self robots);
              state = rw (chosen, schedule_task, first);
            })
      ]

  -- A dispatched task: the entry of the robot that starts it, the task and what is left of its queue.
  pub record Starts (r : String) (s s' : Fleet F) : Type 0 where
    pub entry : Robot F
    pub registered : get str_dec r s.robots ≡ some entry
    pub idle : busy entry ≡ false
    pub able : eligible fl s.config entry ≡ true
    pub head : Task F
    pub others : List (Task F)
    pub queued : queue_of r s.robot_queues ≡ head ∷ others
    pub started : Fleet F
    pub reserved : try_dispatch fl entry (take_max precedes head others).0 s ≡ some started
    -- No task left in the queue has a higher priority, or the same and an earlier number.
    pub first :
        All
          (λ u. precedes (take_max precedes head others).0 u ≡ false)
          (take_max precedes head others).1
    pub state : s' ≡ record started {
      robot_queues = set str_dec r (take_max precedes head others).1 started.robot_queues;
    }

  -- `_dispatch_next` changes nothing and says so, or starts the first task by priority and age.
  pub dispatch_next_lem :
      (r : String) (s : Fleet F)
      → (dispatch_next fl r s ≡ (s, false))
        ⊎ ((dispatch_next fl r s).1 ≡ true) × Starts r s (dispatch_next fl r s).0
  unfolding dispatch_next
  dispatch_next_lem r s = elim (Option-cases (get str_dec r s.robots)) [
    | inl unknown ↦ inl (rw (unknown, dispatch_next))
    | inr (e, known) ↦ elim (Bool-cases (busy e)) [
      | inl occupied ↦ inl (rw (known, occupied, dispatch_next))
      | inr idle ↦ elim (Bool-cases (eligible fl s.config e)) [
        | inr unable ↦ inl (rw (known, idle, unable, dispatch_next))
        | inl able ↦ elim (List-cases (queue_of r s.robot_queues)) [
          | inl nothing ↦ inl (rw (known, idle, able, nothing, dispatch_next, dispatch_from))
          | inr (t, ts, queued) ↦
              elim (Option-cases (try_dispatch fl e (take_max precedes t ts).0 s)) [
                | inl blocked ↦
                    inl (rw (known, idle, able, queued, blocked, dispatch_next, dispatch_from))
                | inr (s', sent) ↦ inr (
                  rw (known, idle, able, queued, sent, dispatch_next, dispatch_from) refl,
                  record {
                    entry = e;
                    registered = known;
                    idle = idle;
                    able = able;
                    head = t;
                    others = ts;
                    queued = queued;
                    started = s';
                    reserved = sent;
                    first = take_max-greatest precedes precedes_trans precedes_asym t ts;
                    state = rw (known, idle, able, queued, sent, dispatch_next, dispatch_from) refl;
                  },
                )
              ]
        ]
      ]
    ]
  ]
