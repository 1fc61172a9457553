-- ===== src/Controller/Following.antt =====
-- The path follower always finds a waypoint to steer to.
use warehouse_digital_twin.Base.{
  ℕ, zero, suc, ◌+◌, ◌≤◌, ◌<◌, ◌≡◌, refl, inl, inr, Bool, true, false, Option, none, some, List, [],
  ◌∷◌, ◌++◌, if◌then◌else◌, arith, length, get_elem?, Bool-cases,
}
use warehouse_digital_twin.Base.Float.{Float, Trig}
use warehouse_digital_twin.Fleet.State.{Point}
use warehouse_digital_twin.Controller.{
  Body, Controller, publish_cmd, distance, nearest_from, nearest_index, walk_ahead, from_index,
  find_lookahead_index, goal_of, pursue, control_loop,
}

module _ (fl : Float) (trig : Trig fl.F) (abs : fl.F → fl.F) where
  open fl use {F, lit, ltb_f, leb_f, add}

  nearest_from-bounds :
      (p : Point F) (i best : ℕ) (d : F) (ws : List (Point F)) (n : ℕ)
      → best < n
      → i + length ws ≤ n
      → nearest_from fl trig abs p i best d ws < n
  unfolding nearest_from
  nearest_from-bounds p i best d [] n h k = h
  nearest_from-bounds p i best d (w ∷ ws) n h k =
      elim (Bool-cases (ltb_f (distance fl trig abs w p) d)) [
        | inl c ↦
            rw (nearest_from, c)
              (nearest_from-bounds p (suc i) i (distance fl trig abs w p) ws n (omega (arith, k))
                (omega (arith, k)))
        | inr c ↦
            rw (nearest_from, c) (nearest_from-bounds p (suc i) best d ws n h (omega (arith, k)))
      ]

  walk_ahead-bounds :
      (l arc : F) (idx : ℕ) (w : Point F) (ws : List (Point F))
      → (idx ≤ walk_ahead fl trig abs l arc idx w ws)
        × (walk_ahead fl trig abs l arc idx w ws ≤ idx + length ws)
  unfolding walk_ahead
  walk_ahead-bounds l arc idx w [] = (omega arith, omega arith)
  walk_ahead-bounds l arc idx w (v ∷ ws) =
      elim (Bool-cases (leb_f l (add arc (distance fl trig abs v w)))) [
        | inl c ↦ rw (walk_ahead, c) ((omega arith, omega arith))
        | inr c ↦
            let (low, high) =
              walk_ahead-bounds l (add arc (distance fl trig abs v w)) (suc idx) v ws in
            rw (walk_ahead, c) ((omega (arith, low), omega (arith, high)))
      ]

  from_index-some :
      (n : ℕ) (path : List (Point F))
      → n < length path
      → (w : Point F) × ((ws : List (Point F)) × (from_index fl trig abs n path ≡ some (w, ws))
          × (n + suc (length ws) ≡ length path))
  unfolding from_index
  from_index-some n [] h = absurd (omega (arith, h))
  from_index-some zero (w ∷ ws) h = (w, (ws, refl, omega arith))
  from_index-some (suc n) (w ∷ ws) h =
      let (v, (vs, e, k)) = from_index-some n ws (omega (arith, h)) in
      (v, (vs, e, omega (arith, k)))

  get_elem-some :
      {A : Type 0} (xs : List A) (i : ℕ) → i < length xs → (a : A) × (get_elem? xs i ≡ some a)
  get_elem-some [] i h = absurd (omega (arith, h))
  get_elem-some (x ∷ xs) zero h = (x, refl)
  get_elem-some (x ∷ xs) (suc i) h = get_elem-some xs i (omega (arith, h))

  -- The waypoint to steer to is on the path and not before the one nearest to the robot.
  pub find_lookahead_index-bounds :
      (l : F) (n : ℕ) (path : List (Point F))
      → n < length path
      → (n ≤ find_lookahead_index fl trig abs l n path)
        × (find_lookahead_index fl trig abs l n path < length path)
  unfolding find_lookahead_index
  find_lookahead_index-bounds l n path h =
      let (w, (ws, e, k)) = from_index-some n path h in
      let (low, high) = walk_ahead-bounds l (lit 0 0) n w ws in
      rw (find_lookahead_index, e) ((low, omega (arith, high, k)))

  -- One command more has been published.
  abbrev pub Publishes : Controller F → Option (Controller F) → Type 0
  Publishes s o =
      (s' : Controller F) × ((cmd : F × F) × (o ≡ some s') × (s'.out ≡ s.out ++ cmd ∷ []))

  Publishes-if :
      (s : Controller F) (c : Bool) (a b : Option (Controller F))
      → Publishes s a
      → Publishes s b
      → Publishes s (if c then a else b)
  Publishes-if s true a b h k = h
  Publishes-if s false a b h k = k

  Publishes-pursue :
      (s : Controller F) (body : Body F) (d : F) (target : Point F)
      → Publishes s (some (pursue fl trig abs body d target s))
  unfolding pursue publish_cmd
  Publishes-pursue s body d target = published _ _ _
    where
      published :
          (c : Bool) (linear angular : F)
          → Publishes s (
              some (
                if c
                then publish_cmd fl trig abs (lit 0 0) (lit 0 0) s
                else publish_cmd fl trig abs linear angular
                    (record s { last_linear = linear; last_angular = angular })))
      published true linear angular = (_, ((lit 0 0, lit 0 0), refl, refl))
      published false linear angular = (_, ((linear, angular), refl, refl))

  steers :
      (s : Controller F) (body : Body F) (d : F) (path : List (Point F)) (i : ℕ)
      → i < length path
      → Publishes s (elim (get_elem? path i) [
        | none ↦ none
        | some target ↦ some (pursue fl trig abs body d target s)
      ])
  steers s body d path i h =
      let (target, e) = get_elem-some path i h in rw e (Publishes-pursue s body d target)

  -- A tick of the controller always returns, without an `IndexError`, and publishes exactly one command.
  pub control_loop-Publishes : (s : Controller F) → Publishes s (control_loop fl trig abs s)
  unfolding control_loop publish_cmd nearest_index
  control_loop-Publishes s = ticks s.path s.current_pose
    where
      ticks :
          (path : List (Point F)) (pose : Option (Body F))
          → Publishes s (elim path [
            | [] ↦ some (publish_cmd fl trig abs (lit 0 0) (lit 0 0) s)
            | w ∷ ws ↦ elim pose [
              | none ↦ some (publish_cmd fl trig abs (lit 0 0) (lit 0 0) s)
              | some body ↦
                  let dist_to_goal =
                    distance fl trig abs (goal_of fl trig abs w ws) body.position in
                  let idx =
                    find_lookahead_index fl trig abs s.limits.lookahead
                      (nearest_index fl trig abs body.position (w ∷ ws))
                      (w ∷ ws) in
                  if ltb_f dist_to_goal s.limits.goal_tolerance
                  then some (publish_cmd fl trig abs (lit 0 0) (lit 0 0) (record s { path = [] }))
                  else elim (get_elem? (w ∷ ws) idx) [
                    | none ↦ none
                    | some target ↦ some (pursue fl trig abs body dist_to_goal target s)
                  ]
            ]
          ])
      ticks [] pose = (_, ((lit 0 0, lit 0 0), refl, refl))
      ticks (w ∷ ws) none = (_, ((lit 0 0, lit 0 0), refl, refl))
      ticks (w ∷ ws) (some body) =
          let near =
            nearest_from-bounds body.position 0 0 fl.inf (w ∷ ws) (length (w ∷ ws)) (omega arith)
              (omega arith) in
          let (_, inside) =
            find_lookahead_index-bounds s.limits.lookahead
              (nearest_index fl trig abs body.position (w ∷ ws)) (w ∷ ws) near in
          Publishes-if s _ _ _ (_, ((lit 0 0, lit 0 0), refl, refl))
            (steers s body _ (w ∷ ws) _ inside)
