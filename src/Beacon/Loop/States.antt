-- ===== src/Beacon/Loop/States.antt =====
-- The execution state that the beacon reports.
use warehouse_digital_twin.Base.{
  ◌≡◌, ◌≢◌, refl, subst, sym, String, and_left, and_right, ◌⊎◌, inl, inr, Bool, true, false,
  if◌then◌else◌, ite, if_pos, if_neg, ◌&&◌, str_dec,
}
use warehouse_digital_twin.Base.Float.{Float}
use warehouse_digital_twin.Fleet.State.{Status, online, offline}
use warehouse_digital_twin.Beacon.{
  ExecState, off, charging, returning, idle, assigned, planning, moving_to_pickup, picking,
  carrying, moving_to_dropoff, dropping, Beacon, exec_of_fsm,
}
use warehouse_digital_twin.Beacon.Loop.{is_blank, pose_changing, moving, checked, exec_state}

-- What an execution state says of the robot, by the comment at the head of the module.
module _ (fl : Float) where
  open fl use {F, ltb_f}

  -- A path, speed above the threshold, and a pose that changes.
  abbrev pub Drives : F → Beacon F → Type 0
  Drives now s =
      (s.has_plan ≡ true)
      × (ltb_f s.parameters.motion_threshold s.speed ≡ true)
      × (pose_changing fl now s ≡ true)

  -- An ONLINE robot that neither charges nor wants to.
  abbrev pub IsFree : Beacon F → Type 0
  IsFree s = (s.status ≡ online) × (s.charging ≡ false) × (s.want_charge ≡ false)

  -- A free robot with a task, for which its task manager is in this state.
  abbrev pub Executes : String → Beacon F → Type 0
  Executes state s = IsFree s × (s.current_task ≢ "") × (s.fsm_state ≡ state)

  abbrev pub Means : F → Beacon F → ExecState → Type 0
  Means now s off = s.status ≡ offline
  Means now s charging = (s.status ≡ online) × (s.charging ≡ true)
  Means now s returning =
      (s.status ≡ online)
      × (s.charging ≡ false)
      × ((s.want_charge ≡ true) ⊎ ((s.current_task ≡ "") × Drives now s))
  Means now s idle = IsFree s × (s.current_task ≡ "") × (¬ Drives now s)
  Means now s assigned =
      IsFree s
      × (s.current_task ≢ "")
      × (s.fsm_state ≢ "GO_TO_PICKUP")
      × (s.fsm_state ≢ "PICKING")
      × (s.fsm_state ≢ "GO_TO_DROPOFF")
      × (s.fsm_state ≢ "DROPPING")
  Means now s planning = (Executes "GO_TO_PICKUP" s ⊎ Executes "GO_TO_DROPOFF" s) × (¬ Drives now s)
  Means now s moving_to_pickup = Executes "GO_TO_PICKUP" s × Drives now s
  Means now s picking = Executes "PICKING" s
  Means now s carrying = Executes "GO_TO_DROPOFF" s × Drives now s
  Means now s moving_to_dropoff = ⊥
  Means now s dropping = Executes "DROPPING" s

on_ite :
    {A : Type 0} (P : A → Type 0) {Q : Type 0} (d : Dec Q) (a b : A)
    → (Q → P a)
    → ((¬ Q) → P b)
    → P (ite d a b)
on_ite P (yes q) a b h k = h q
on_ite P (no n) a b h k = k n

on_if :
    {A : Type 0} (P : A → Type 0) (c : Bool) (a b : A)
    → (c ≡ true → P a)
    → (c ≡ false → P b)
    → P (if c then a else b)
on_if P true a b h k = h refl
on_if P false a b h k = k refl

on_status :
    {A : Type 0} (P : A → Type 0) (st : Status) (a b : A)
    → (st ≡ offline → P a)
    → (st ≡ online → P b)
    → P (elim st [ offline ↦ a | online ↦ b ])
on_status P offline a b h k = h refl
on_status P online a b h k = k refl

on_blank :
    {A : Type 0} (P : A → Type 0) (text : String) (a b : A)
    → (text ≡ "" → P a)
    → (text ≢ "" → P b)
    → P (if is_blank text then a else b)
on_blank P text a b h k = elim (str_dec text "") [
  | yes e ↦ subst (λ c. P (if c then a else b)) (sym (if_pos (str_dec text "") e true false)) (h e)
  | no n ↦ subst (λ c. P (if c then a else b)) (sym (if_neg (str_dec text "") n true false)) (k n)
]

module _ (fl : Float) where
  open fl use {F, ltb_f}

  moving-Drives : (now : F) (s : Beacon F) → moving fl now s ≡ true → Drives fl now s
  unfolding moving
  moving-Drives now s h =
      let fast = ltb_f s.parameters.motion_threshold s.speed in
      let changing = pose_changing fl now s in
      let rest = and_left (s.has_plan && fast) changing h in
      (
        and_left s.has_plan fast rest,
        and_right s.has_plan fast rest,
        and_right (s.has_plan && fast) changing h,
      )

  moving-false : (now : F) (s : Beacon F) → moving fl now s ≡ false → ¬ Drives fl now s
  unfolding moving
  moving-false now s h (plan, fast, changing) = absurd (cc (h, plan, fast, changing))

  on_moving :
      (P : ExecState → Type 0) (now : F) (s : Beacon F) (a b : ExecState)
      → (Drives fl now s → P a)
      → ((¬ Drives fl now s) → P b)
      → P (if moving fl now s then a else b)
  on_moving P now s a b h k =
      on_if P (moving fl now s) a b (λ m. h (moving-Drives now s m)) λ m. k (moving-false now s m)

  -- The execution states that the task manager's states stand for.
  checked-Means :
      (now : F) (s : Beacon F)
      → IsFree fl s
      → s.current_task ≢ ""
      → Means fl now s (checked fl now s (exec_of_fsm s.fsm_state))
  unfolding checked exec_of_fsm
  checked-Means now s free task =
      let M = Means fl now s in
      let P : ExecState → Type 0 = λ e. M (checked fl now s e) in
      on_ite P (str_dec s.fsm_state "GO_TO_PICKUP") moving_to_pickup _
        (λ e.
          on_moving M now s moving_to_pickup planning (λ d. ((free, task, e), d))
            λ d. (inl (free, task, e), d))
        λ n.
          on_ite P (str_dec s.fsm_state "PICKING") picking _ (λ e. (free, task, e))
            λ n'.
              on_ite P (str_dec s.fsm_state "GO_TO_DROPOFF") carrying _
                (λ e.
                  on_moving M now s carrying planning (λ d. ((free, task, e), d))
                    λ d. (inr (free, task, e), d))
                λ m.
                  on_ite P (str_dec s.fsm_state "DROPPING") dropping assigned (λ e. (free, task, e))
                    λ m'. (free, task, n, n', m, m')

  -- The execution state that the beacon reports is the one that `Means` describes: OFFLINE and CHARGING
  -- by the status and the charging flag; RETURNING where the robot wants to charge, or drives
  -- without a task; IDLE without a task and without driving; and, with a task, by the state of the
  -- task manager: GO_TO_PICKUP and GO_TO_DROPOFF are MOVING_TO_PICKUP and CARRYING where the robot
  -- drives and PLANNING where it does not, PICKING and DROPPING are themselves, and any other state
  -- is ASSIGNED. It is never MOVING_TO_DROPOFF. The robot drives where it has a plan, is faster than
  -- the threshold and `_pose_changing` holds.
  pub exec_state-Means : (now : F) (s : Beacon F) → Means fl now s (exec_state fl now s)
  unfolding exec_state is_blank
  exec_state-Means now s =
      let P = Means fl now s in
      on_status P s.status off _ (λ o. o)
        λ o.
          on_if P s.charging charging _ (λ c. (o, c))
            λ c.
              on_if P s.want_charge returning _ (λ w. (o, c, inl w))
                λ w.
                  on_blank P s.current_task _ _
                    (λ b.
                      on_moving P now s returning idle (λ d. (o, c, inr (b, d)))
                        λ d. ((o, c, w), b, d))
                    λ b.
                      on_ite P (str_dec s.fsm_state "IDLE") assigned _
                        (λ e. (
                          (o, c, w),
                          b,
                          (λ k. absurd (cc (e, k))),
                          (λ k. absurd (cc (e, k))),
                          (λ k. absurd (cc (e, k))),
                          λ k. absurd (cc (e, k)),
                        ))
                        λ _. checked-Means now s (o, c, w) b
