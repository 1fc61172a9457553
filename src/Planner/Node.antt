-- ===== src/Planner/Node.antt =====
-- The callbacks of `PlannerNode`. A callback takes the time and the fuel of the search; what it
-- publishes on /plan is appended to `plans`. `_goal_sig` is written and never read, and is left out.
pub mod Safety
use warehouse_digital_twin.Base.{
  ℕ, Bool, true, false, ◌||◌, Option, none, some, List, [], ◌∷◌, ◌++◌, map, if◌then◌else◌, is_empty,
}
use warehouse_digital_twin.Base.Int.{ℤ}
use warehouse_digital_twin.Base.Float.{Float, Trig}
use warehouse_digital_twin.Fleet.State.{Point, Cell}
use warehouse_digital_twin.Planner.{GridMap}
use warehouse_digital_twin.Planner.Search.{
  Route, route, no_route, stopped, compute_path, grid_to_world,
}

-- A pose of a plan: the position, and z and w of the orientation.
pub record Pose (F : Type 0) : Type 0 where
  pub position : Point F
  pub orientation : F × F

pub record PlannerState (F : Type 0) : Type 0 where
  pub inflation : ℤ
  pub replan_min_dist : F
  pub replan_interval : F
  pub grid : Option (GridMap F)
  pub current_pose : Option (Point F)
  pub current_goal : Option (Point F)
  pub last_plan_pose : Option (Point F)
  pub last_plan_time : F
  pub plans : List (List (Pose F))

module _ (fl : Float) (trig : Trig fl.F) where
  open fl use {F, lit, leb_f, sub, mul, hypot}
  open trig use {sin, cos, atan2}

  -- `_euler_to_quaternion`.
  unfoldable pub euler_to_quaternion : F → F × F
  euler_to_quaternion yaw = (sin (mul yaw (lit 5 1)), cos (mul yaw (lit 5 1)))

  -- Each pose looks at the next one, and the last along the x axis.
  unfoldable pub poses_of : List (Point F) → List (Pose F)
  unfolding euler_to_quaternion
  poses_of [] = []
  poses_of (p ∷ []) = record { position = p; orientation = euler_to_quaternion (lit 0 0) } ∷ []
  poses_of (p ∷ q ∷ ps) =
      record { position = p; orientation = euler_to_quaternion (atan2 (sub q.1 p.1) (sub q.0 p.0)) }
      ∷ poses_of (q ∷ ps)

  -- `_should_replan`.
  unfoldable pub should_replan : (now : F) → Point F → PlannerState F → Bool
  should_replan now p s = elim s.last_plan_pose [
    | none ↦ true
    | some q ↦
        leb_f s.replan_min_dist (hypot (sub p.0 q.0) (sub p.1 q.1))
        || leb_f s.replan_interval (sub now s.last_plan_time)
  ]

  unfoldable pub publish_plan :
      (now : F) → GridMap F → Point F → Route → PlannerState F → PlannerState F
  unfolding poses_of grid_to_world
  publish_plan now m from (route cells) s = record s {
    last_plan_time = now;
    last_plan_pose = some from;
    plans = s.plans ++ poses_of (map (grid_to_world fl m) cells) ∷ [];
  }
  publish_plan now m from no_route s = s
  publish_plan now m from stopped s = s

  -- `_plan`, for the pose and the goal that its callers have tested.
  unfoldable pub plan :
      (now : F) → (fuel : ℕ) → (from to : Point F) → PlannerState F → PlannerState F
  unfolding publish_plan compute_path
  plan now fuel from to s = elim s.grid [
    | none ↦ s
    | some m ↦
        if is_empty m.cells
        then s
        else publish_plan now m from (compute_path fl m s.inflation from to fuel) s
  ]

  unfoldable pub map_callback : (now : F) → (fuel : ℕ) → GridMap F → PlannerState F → PlannerState F
  unfolding plan
  map_callback now fuel m s =
      let s' = record s { grid = some m } in
      elim s.current_pose [
        | none ↦ s'
        | some p ↦ elim s.current_goal [ none ↦ s' | some g ↦ plan now fuel p g s' ]
      ]

  unfoldable pub planner_pose_callback :
      (now : F) → (fuel : ℕ) → Point F → PlannerState F → PlannerState F
  unfolding plan should_replan
  planner_pose_callback now fuel p s =
      let s' = record s { current_pose = some p } in
      elim s.current_goal [
        | none ↦ s'
        | some g ↦ if should_replan now p s then plan now fuel p g s' else s'
      ]

  unfoldable pub goal_callback : (now : F) → (fuel : ℕ) → Point F → PlannerState F → PlannerState F
  unfolding plan
  goal_callback now fuel g s =
      let s' = record s { current_goal = some g } in
      elim s.current_pose [ none ↦ s' | some p ↦ plan now fuel p g s' ]
