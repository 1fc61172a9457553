-- ===== src/TaskManager/Samples.antt =====
-- A robot with two tasks over a concrete arithmetic: inputs for the tests, and an instance of the
-- invariant.
use warehouse_digital_twin.Base.{◌⊎◌, All, false, ℕ, ◌≡◌, refl, inl, none, List, [], ◌∷◌}
use warehouse_digital_twin.Base.Int.{ℤ, pos}
use warehouse_digital_twin.Base.Fixed.{fixed}
use warehouse_digital_twin.TaskManager.{Manager, idle, Task}
use warehouse_digital_twin.TaskManager.Loop.{Event, assignment, cancel, pose, timer, run}
use warehouse_digital_twin.TaskManager.Invariant.{Inv}
use warehouse_digital_twin.TaskManager.{activate, activate_next, is_waiting}
use warehouse_digital_twin.TaskManager.Running.{run-Inv}
use warehouse_digital_twin.TaskManager.Priority.{IsFirst, activate_next_lem}

abbrev started : Manager ℤ
started = record {
  tolerance = pos 500;
  pickup_delay = pos 2000;
  dropoff_delay = pos 2000;
  default_priority = pos 1;
  robot_id = "a";
  tasks = [];
  insertion_counter = 0;
  active_idx = none;
  state = idle;
  delay_start = pos 0;
  current_pose = none;
  out = [];
}

abbrev day : List (ℤ × Event ℤ)
day =
    (pos 0, assignment "a,t1,0,0,4,0")
    ∷ (pos 1, assignment "a,t2,0,2,4,2,2")
    ∷ (pos 2, pose (pos 0, pos 0))
    ∷ (pos 3, timer)
    ∷ (pos 9000, timer)
    ∷ (pos 9001, cancel "a,t1")
    ∷ []

abbrev evening : Manager ℤ
evening = run fixed day started

run-Inv_example : Inv evening
run-Inv_example = run-Inv fixed day started (inl (refl, refl, tt))

activate_next_lem_example :
    ((activate_next (pos 1) evening ≡ record evening { state = idle })
      × All (λ u. is_waiting u.status ≡ false) evening.tasks)
    ⊎ ((i : ℕ) × (t : Task ℤ) × IsFirst 0 evening.tasks i t
        × (activate_next (pos 1) evening ≡ activate (pos 1) i t evening))
activate_next_lem_example = activate_next_lem (pos 1) evening
