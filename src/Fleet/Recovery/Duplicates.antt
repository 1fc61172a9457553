-- ===== src/Fleet/Recovery/Duplicates.antt =====
-- What recovery does with a task that no robot can take.
use warehouse_digital_twin.Base.{◌≡◌, ◌++◌, false, [], ◌∷◌, inl, inr, ap}
use warehouse_digital_twin.Base.Float.{Float}
use warehouse_digital_twin.Fleet.State.{Task, Fleet, emit}
use warehouse_digital_twin.Fleet.Dispatch.{no_robot, schedule_task}
use warehouse_digital_twin.Fleet.Dispatch.Outcomes.{numbered, schedule_task_lem}
use warehouse_digital_twin.Fleet.Recovery.{task_exists, requeue_task}

-- A recovered task that is nowhere else and that no robot can take ends up in the waiting pool
-- twice: `_schedule_task` has appended it before `_requeue_task` does.
pub requeue_task-twice :
    (fl : Float) (t : Task fl.F) (s : Fleet fl.F)
    → task_exists t.task_id s ≡ false
    → (schedule_task fl t s).1 ≡ no_robot
    → (requeue_task fl t s).waiting_tasks
      ≡ (s.waiting_tasks ++ numbered fl t s ∷ []) ++ numbered fl t s ∷ []
unfolding requeue_task emit
requeue_task-twice fl t s fresh nobody = elim (schedule_task_lem fl t s) [
  | inl w ↦
      rw (fresh, nobody, requeue_task)
        (cc (ap (λ (x : Fleet fl.F). x.waiting_tasks) w.state, w.task))
  | inr c ↦ absurd (cc (nobody, c.outcome))
]
