-- ===== src/Controller.antt =====
-- The path follower of one robot, ros2_ws/src/warehouse_bringup/warehouse_bringup/controller_node.py:
-- it steers towards a point ahead on the path. `none` stands for an `IndexError`; the stamp of a
-- published command is left out.
pub mod Following
mod Samples
use warehouse_digital_twin.Base.{
  ℕ, zero, suc, ◌+◌, ◌-◌, Bool, true, false, Option, none, some, List, [], ◌∷◌, ◌++◌, if◌then◌else◌,
  ltb, length, get_elem?,
}
use warehouse_digital_twin.Base.Float.{Float, Trig, max_f, min_f}
use warehouse_digital_twin.Fleet.State.{Point}

pub record Limits (F : Type 0) : Type 0 where
  pub linear_speed : F
  pub angular_speed : F
  pub goal_tolerance : F
  pub lookahead : F
  pub max_linear_accel : F
  pub max_angular_accel : F
  pub turn_slow_threshold : F
  pub turn_slow_factor : F
  pub dt : F

-- A pose: the position, and the orientation (x, y, z, w).
pub record Body (F : Type 0) : Type 0 where
  pub position : Point F
  pub orientation : F × F × F × F

pub record Controller (F : Type 0) : Type 0 where
  pub limits : Limits F
  pub path : List (Point F)
  pub current_pose : Option (Body F)
  pub last_linear : F
  pub last_angular : F
  -- What has been published: linear.x and angular.z.
  pub out : List (F × F)

module _ (fl : Float) (trig : Trig fl.F) (abs : fl.F → fl.F) where
  open fl use {F, lit, ltb_f, leb_f, add, sub, mul, div, neg, hypot}

  unfoldable pub plan_callback : List (Point F) → Controller F → Controller F
  plan_callback poses s = record s { path = poses; last_linear = lit 0 0; last_angular = lit 0 0 }

  unfoldable pub pose_callback : Body F → Controller F → Controller F
  pose_callback p s = record s { current_pose = some p }

  unfoldable pub publish_cmd : (linear angular : F) → Controller F → Controller F
  publish_cmd linear angular s = record s { out = s.out ++ (linear, angular) ∷ [] }

  -- `_get_yaw`.
  unfoldable pub yaw_of : F × F × F × F → F
  yaw_of (x, y, z, w) =
      trig.atan2 (mul (lit 2 0) (add (mul w z) (mul x y)))
        (sub (lit 1 0) (mul (lit 2 0) (add (mul y y) (mul z z))))

  unfoldable pub distance : Point F → Point F → F
  distance (x, y) (px, py) = hypot (sub x px) (sub y py)

  -- The loop for the nearest waypoint, from waypoint i on, with the best one so far.
  unfoldable pub nearest_from : Point F → (i best : ℕ) → (best_distance : F) → List (Point F) → ℕ
  unfolding distance
  nearest_from p i best d [] = best
  nearest_from p i best d (w ∷ ws) =
      let closer = nearest_from p (suc i) i (distance w p) ws in
      let farther = nearest_from p (suc i) best d ws in
      if ltb_f (distance w p) d then closer else farther

  unfoldable pub nearest_index : Point F → List (Point F) → ℕ
  unfolding nearest_from
  nearest_index p ws = nearest_from p 0 0 fl.inf ws

  -- The loop of `_find_lookahead_index`, from waypoint idx on, which `w` is; `ws` are the ones after it.
  unfoldable pub walk_ahead : (lookahead arc : F) → (idx : ℕ) → (w : Point F) → List (Point F) → ℕ
  unfolding distance
  walk_ahead lookahead arc idx w [] = idx
  walk_ahead lookahead arc idx w (v ∷ ws) =
      let arc' = add arc (distance v w) in
      let later = walk_ahead lookahead arc' (suc idx) v ws in
      if leb_f lookahead arc' then suc idx else later

  -- `path[n:]`, as its first waypoint and the rest.
  unfoldable pub from_index : ℕ → List (Point F) → Option (Point F × List (Point F))
  from_index n [] = none
  from_index zero (w ∷ ws) = some (w, ws)
  from_index (suc n) (w ∷ ws) = from_index n ws

  -- `_find_lookahead_index`.
  unfoldable pub find_lookahead_index : (lookahead : F) → (nearest : ℕ) → List (Point F) → ℕ
  unfolding walk_ahead from_index
  find_lookahead_index lookahead nearest path = elim (from_index nearest path) [
    | none ↦ length path - 1
    | some r ↦ walk_ahead lookahead (lit 0 0) nearest r.0 r.1
  ]

  unfoldable pub rate_limit : Limits F → (desired previous max_accel : F) → F
  rate_limit lim desired previous max_accel =
      let delta = mul max_accel lim.dt in
      max_f fl (sub previous delta) (min_f fl desired (add previous delta))

  -- The last waypoint.
  unfoldable pub goal_of : Point F → List (Point F) → Point F
  goal_of w [] = w
  goal_of w (v ∷ ws) = goal_of v ws

  -- The end of `_control_loop`: pure pursuit of the target.
  unfoldable pub pursue :
      Body F → (dist_to_goal : F) → (target : Point F) → Controller F → Controller F
  unfolding publish_cmd yaw_of rate_limit
  pursue body dist_to_goal target s =
      let lim = s.limits in
      let theta = yaw_of body.orientation in
      let dx = sub target.0 body.position.0 in
      let dy = sub target.1 body.position.1 in
      let local_x = add (mul dx (trig.cos theta)) (mul dy (trig.sin theta)) in
      let local_y = add (mul (neg dx) (trig.sin theta)) (mul dy (trig.cos theta)) in
      let l = hypot local_x local_y in
      let curvature = div (mul (lit 2 0) local_y) (mul l l) in
      let wanted =
        max_f fl (neg lim.angular_speed)
          (min_f fl lim.angular_speed (mul lim.angular_speed curvature)) in
      let turning =
        if ltb_f lim.turn_slow_threshold (abs wanted)
        then mul lim.linear_speed lim.turn_slow_factor
        else lim.linear_speed in
      let near = mul lim.lookahead (lit 2 0) in
      let slowed =
        if ltb_f dist_to_goal near
        then mul turning (max_f fl (lit 3 1) (div dist_to_goal near))
        else turning in
      let linear = rate_limit lim slowed s.last_linear lim.max_linear_accel in
      let angular = rate_limit lim wanted s.last_angular lim.max_angular_accel in
      if ltb_f l (lit 1 2)
      then publish_cmd (lit 0 0) (lit 0 0) s
      else publish_cmd linear angular (record s { last_linear = linear; last_angular = angular })

  -- `_control_loop`.
  unfoldable pub control_loop : Controller F → Option (Controller F)
  unfolding publish_cmd distance nearest_index find_lookahead_index pursue goal_of
  control_loop s = elim s.path [
    | [] ↦ some (publish_cmd (lit 0 0) (lit 0 0) s)
    | w ∷ ws ↦ elim s.current_pose [
      | none ↦ some (publish_cmd (lit 0 0) (lit 0 0) s)
      | some body ↦
          let dist_to_goal = distance (goal_of w ws) body.position in
          let idx =
            find_lookahead_index s.limits.lookahead (nearest_index body.position (w ∷ ws))
              (w ∷ ws) in
          if ltb_f dist_to_goal s.limits.goal_tolerance
          then some (publish_cmd (lit 0 0) (lit 0 0) (record s { path = [] }))
          else elim (get_elem? (w ∷ ws) idx) [
            | none ↦ none
            | some target ↦ some (pursue body dist_to_goal target s)
          ]
    ]
  ]
