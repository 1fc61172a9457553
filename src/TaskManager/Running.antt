-- ===== src/TaskManager/Running.antt =====
-- The invariant under the timer, the assignments and every sequence of events.
use warehouse_digital_twin.Base.{
  ℕ, ◌≡◌, refl, ◌≢◌, inl, inr, Bool, true, false, none, some, List, [], ◌∷◌, if◌then◌else◌,
  Option-cases, subst, arith,
}
use warehouse_digital_twin.Base.Float.{Float}
use warehouse_digital_twin.Fleet.State.{Point}
use warehouse_digital_twin.TaskManager.{
  completed, State, idle, go_to_pickup, picking, go_to_dropoff, dropping, Task, Manager, set_status,
  emit, publish_goal, publish_status, publish_state, publish_queue_info, transition, pose_callback,
}
use warehouse_digital_twin.TaskManager.Loop.{
  publish_active_goal, arrived, check_arrival, waited, drive, running, control_loop,
  parse_assignment, new_task, assignment_callback, Event, assignment, cancel, pose, timer, handle,
  run,
}
use warehouse_digital_twin.TaskManager.Invariant.{
  IsWorking, OneActive, Inv, activate_next-Inv, enqueue_task-Inv, cancel_task_callback-Inv,
  set_status-NotActive,
}

module _ {F : Type 0} where
  working : (i : ℕ) (m : Manager F) → m.active_idx ≡ some i → Inv m → IsWorking m
  working i m held (inl (st, free, done)) = absurd (cc (held, free))
  working i m held (inr w) = w

  Inv-if : (t : Bool) (a b : Manager F) → Inv a → Inv b → Inv (if t then a else b)
  Inv-if true a b v w = v
  Inv-if false a b v w = w

module _ (fl : Float) where
  open fl use {F}

  check_arrival-Inv :
      (now : F) (target : Point F) (next : State) (m : Manager F)
      → next ≢ idle
      → IsWorking m
      → Inv (check_arrival fl now target next m)
  unfolding check_arrival transition
  check_arrival-Inv now target next m moves w =
      Inv-if (arrived fl target m) _ _ (inr (moves, w.1)) (inr w)

  -- A step of the active task: the state moves on, or the task is completed and the next one starts.
  drive-Inv :
      (now : F) (st : State) (i : ℕ) (t : Task F) (m : Manager F)
      → m.active_idx ≡ some i
      → Inv m
      → Inv (drive fl now st i t m)
  unfolding drive publish_active_goal transition publish_goal emit
  drive-Inv now idle i t m held v = v
  drive-Inv now go_to_pickup i t m held v =
      check_arrival-Inv now t.pickup picking (publish_active_goal fl m) (λ e. cc e)
        (working i m held v)
  drive-Inv now picking i t m held v =
      Inv-if (waited fl now m.pickup_delay m) _ _ (inr ((λ e. cc e), (working i m held v).1)) v
  drive-Inv now go_to_dropoff i t m held v =
      check_arrival-Inv now t.dropoff dropping (publish_active_goal fl m) (λ e. cc e)
        (working i m held v)
  drive-Inv now dropping i t m held v =
      let (st, (j, at_j, one)) = working i m held v in
      Inv-if (waited fl now m.dropoff_delay m) _ _
        (activate_next-Inv now
          (record m { tasks = set_status completed i m.tasks; active_idx = none }) refl
          (set_status-NotActive i m.tasks (subst (λ n. OneActive n m.tasks) (cc (held, at_j)) one)))
        v

  running-active_idx :
      (m : Manager F) (i : ℕ) (t : Task F) → running fl m ≡ some (i, t) → m.active_idx ≡ some i
  unfolding running
  running-active_idx m i t h = ground arith

  control_loop-Inv : (now : F) (m : Manager F) → Inv m → Inv (control_loop fl now m)
  unfolding control_loop publish_status publish_state publish_queue_info emit
  control_loop-Inv now m v = elim (Option-cases (running fl m)) [
    | inl nothing ↦ rw (nothing, control_loop) v
    | inr ((i, t), found) ↦
        rw (found, control_loop)
          (drive-Inv now m.state i t (publish_queue_info (publish_state (publish_status m)))
            (running-active_idx m i t found) v)
  ]

  handle-Inv : (e : F × Event F) (m : Manager F) → Inv m → Inv (handle fl e m)
  unfolding handle assignment_callback new_task pose_callback
  handle-Inv (now, assignment msg) m v = elim (Option-cases (parse_assignment fl msg m)) [
    | inl refused ↦ rw (refused, assignment_callback) v
    | inr (a, parsed) ↦
        rw (parsed, assignment_callback) (enqueue_task-Inv now (new_task fl a m) m refl v)
  ]
  handle-Inv (now, cancel msg) m v = cancel_task_callback-Inv now msg m v
  handle-Inv (now, pose p) m v = v
  handle-Inv (now, timer) m v = control_loop-Inv now m v

  -- After any sequence of assignments, cancellations, poses and timer ticks, from a state that is so:
  -- the node is IDLE, has no active index and has only completed tasks, or it is not IDLE, its index
  -- points at an active task, and no other task is active.
  pub run-Inv : (es : List (F × Event F)) (m : Manager F) → Inv m → Inv (run fl es m)
  unfolding run
  run-Inv [] m v = v
  run-Inv (e ∷ es) m v = run-Inv es (handle fl e m) (handle-Inv e m v)
