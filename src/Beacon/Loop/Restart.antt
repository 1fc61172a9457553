-- ===== src/Beacon/Loop/Restart.antt =====
-- The simulated restart of the beacon.
use warehouse_digital_twin.Base.{
  ◌≡◌, refl, subst, sym, String, Bool, true, false, not, ◌&&◌, ◌||◌, Option, none, some, List, [],
  ◌∷◌, if◌then◌else◌, ite, str_dec, lower, strip, strip_prefix,
}
use warehouse_digital_twin.Base.Float.{Float, Trig}
use warehouse_digital_twin.Fleet.State.{Status, online, offline}
use warehouse_digital_twin.Beacon.{
  Beacon, emit, state_callback, queue_callback, odom_callback, plan_callback, goal_callback,
  publish_charging_goal, publish_battery, publish_heartbeat, publish_pose, pose_callback,
  battery_command_callback, control_callback, start_charging,
}
use warehouse_digital_twin.Beacon.Loop.{
  is_blank, at_charging_pad, charge, drain, use_battery, seek_charger, update_battery,
  publish_registration, end_restart, control_loop, Event, task_state, queue_info, amcl_pose, odom,
  plan, goal_set, battery_command, control, timer, handle, run,
}

-- The robot is OFFLINE exactly while a restart is under way.
abbrev pub IsConsistent : {F : Type 0} → Beacon F → Type 0
IsConsistent s = elim s.restart_until [ none ↦ s.status ≡ online | some u ↦ s.status ≡ offline ]

-- A property of the status and the restart is kept by what changes neither.
module _ {F : Type 0} (P : Status → Option F → Type 0) where
  abbrev On : Beacon F → Type 0
  On s = P s.status s.restart_until

  On-if : (c : Bool) (a b : Beacon F) → On a → On b → On (if c then a else b)
  On-if true a b h k = h
  On-if false a b h k = k

  On-ite : {P : Type 0} (d : Dec P) (a b : Beacon F) → On a → On b → On (ite d a b)
  On-ite (yes _) a b h k = h
  On-ite (no _) a b h k = k

  On-option :
      {A : Type 0} (o : Option A) (a : Beacon F) (f : A → Beacon F)
      → On a
      → ((x : A) → On (f x))
      → On (elim o [ none ↦ a | some x ↦ f x ])
  On-option none a f h k = h
  On-option (some x) a f h k = k x

module _ (fl : Float) (P : Status → Option fl.F → Type 0) where
  open fl use {F, leb_f, sub, add, lit}

  On-start_charging : (s : Beacon F) → On P s → On P (start_charging fl s)
  unfolding start_charging publish_charging_goal emit
  On-start_charging s h = On-if P s.want_charge s _ h h

  On-command : (msg : String) (s : Beacon F) → On P s → On P (battery_command_callback fl msg s)
  unfolding battery_command_callback
  On-command msg s h =
      let cmd = lower (strip msg) in
      On-ite P (str_dec cmd "drain") _ _ h (
        On-ite P (str_dec cmd "discharge") _ _ h (
          On-ite P (str_dec cmd "recharge") _ _
            (On-start_charging (record s { forced_drain = false }) h)
            (On-option P (strip_prefix "set:" cmd) s _ h
              λ text. On-option P (fl.float_of_str text) s _ h λ _. h)))

  On-use_battery : (dt : F) (s : Beacon F) → On P s → On P (use_battery fl dt s)
  unfolding use_battery charge drain
  On-use_battery dt s h =
      On-if P s.charging _ _ (On-if P (leb_f s.parameters.charge_complete _) _ _ h h)
        (On-if P (s.forced_drain || (not (is_blank s.current_task) && not s.want_charge)) _ _ h h)

  On-update_battery : (dt : F) (s : Beacon F) → On P s → On P (update_battery fl dt s)
  unfolding update_battery seek_charger
  On-update_battery dt s h =
      let s0 = record s { charging = s.want_charge && at_charging_pad fl s } in
      let s1 = use_battery fl dt s0 in
      let k = On-use_battery dt s0 h in
      On-if P (leb_f s1.battery s1.parameters.critical) (start_charging fl s1) s1
        (On-start_charging s1 k) k

  On-publish_pose : (s : Beacon F) → On P s → On P (publish_pose s)
  unfolding publish_pose emit
  On-publish_pose s h = On-option P s.pose s _ h λ _. h

module _ (fl : Float) where
  open fl use {F, leb_f, sub, add, lit}

  abbrev pub Ended : F → Option F → Type 0
  Ended now none = Unit
  Ended now (some u) = leb_f u now ≡ true

  -- The end of the restart of this robot, where there is one, is not after `now`.
  abbrev pub IsOver : F → Beacon F → Type 0
  IsOver now s = Ended now s.restart_until

  abbrev Agrees : Status → Option F → Type 0
  Agrees st o = elim o [ none ↦ st ≡ online | some u ↦ st ≡ offline ]

  abbrev IsOnline : Status → Option F → Type 0
  IsOnline st o = (st ≡ online) × (o ≡ none)

  IsConsistent-restart :
      (o : Option F) (u : F) (s : Beacon F)
      → s.restart_until ≡ o
      → IsConsistent s
      → IsConsistent
          (elim o [ none ↦ record s { restart_until = some u; status = offline } | some _ ↦ s ])
  IsConsistent-restart none u s e h = refl
  IsConsistent-restart (some _) u s e h = h

  IsConsistent-control :
      (now : F) (msg : String) (s : Beacon F)
      → IsConsistent s
      → IsConsistent (control_callback fl now msg s)
  unfolding control_callback
  IsConsistent-control now msg s h =
      On-ite Agrees (str_dec (lower (strip msg)) "restart") _ _
        (IsConsistent-restart s.restart_until (add now (lit 2 0)) s refl h) h

  IsConsistent-end_restart :
      (now : F) (s : Beacon F) → IsConsistent s → IsConsistent (end_restart fl now s)
  unfolding end_restart
  IsConsistent-end_restart now s h =
      On-option Agrees s.restart_until s _ h λ u. On-if Agrees (leb_f u now) _ s refl h

  IsConsistent-control_loop :
      (round1 : F → F) (now : F) (s : Beacon F)
      → IsConsistent s
      → IsConsistent (control_loop fl round1 now s)
  unfolding control_loop publish_registration publish_heartbeat publish_battery emit
  IsConsistent-control_loop round1 now s h = On-publish_pose fl Agrees _ (
      On-update_battery fl Agrees (sub now s.last_tick)
        (end_restart fl now (record s { last_tick = now }))
        (IsConsistent-end_restart now (record s { last_tick = now }) h))

  IsConsistent-handle :
      (trig : Trig F) (round1 : F → F) (now : F) (e : Event F) (s : Beacon F)
      → IsConsistent s
      → IsConsistent (handle fl trig round1 (now, e) s)
  unfolding handle state_callback queue_callback odom_callback plan_callback goal_callback
      pose_callback
  IsConsistent-handle trig round1 now (task_state none) s h = h
  IsConsistent-handle trig round1 now (task_state (some d)) s h = h
  IsConsistent-handle trig round1 now (queue_info none) s h = h
  IsConsistent-handle trig round1 now (queue_info (some d)) s h = h
  IsConsistent-handle trig round1 now (amcl_pose p q) s h = h
  IsConsistent-handle trig round1 now (odom v) s h = h
  IsConsistent-handle trig round1 now (plan n) s h = h
  IsConsistent-handle trig round1 now (goal_set p) s h = h
  IsConsistent-handle trig round1 now (battery_command msg) s h = On-command fl Agrees msg s h
  IsConsistent-handle trig round1 now (control msg) s h = IsConsistent-control now msg s h
  IsConsistent-handle trig round1 now timer s h = IsConsistent-control_loop round1 now s h

  IsConsistent-run :
      (trig : Trig F) (round1 : F → F) (es : List (F × Event F)) (s : Beacon F)
      → IsConsistent s
      → IsConsistent (run fl trig round1 es s)
  unfolding run
  IsConsistent-run trig round1 [] s h = h
  IsConsistent-run trig round1 ((now, e) ∷ es) s h =
      IsConsistent-run trig round1 es (handle fl trig round1 (now, e) s)
        (IsConsistent-handle trig round1 now e s h)

  IsOnline-end_restart :
      (now : F) (o : Option F) (s : Beacon F)
      → s.restart_until ≡ o
      → Agrees s.status o
      → Ended now o
      → On IsOnline (elim o [
        | none ↦ s
        | some u ↦ if leb_f u now then record s { restart_until = none; status = online } else s
      ])
  IsOnline-end_restart now none s e h k = (h, e)
  IsOnline-end_restart now (some u) s e h k =
      subst (λ c. On IsOnline (if c then record s { restart_until = none; status = online } else s))
        (sym k) (refl, refl)

  -- A restart ends: after any sequence of events of a robot that is OFFLINE exactly while a restart
  -- is under way, the tick at a time that is not before the restart's end leaves it ONLINE with
  -- no restart under way.
  pub run-restarts :
      (trig : Trig F) (round1 : F → F) (now : F) (es : List (F × Event F)) (s : Beacon F)
      → IsConsistent s
      → IsOver now (run fl trig round1 es s)
      → ((control_loop fl round1 now (run fl trig round1 es s)).status ≡ online)
        × ((control_loop fl round1 now (run fl trig round1 es s)).restart_until ≡ none)
  unfolding control_loop publish_registration publish_heartbeat publish_battery emit end_restart
  run-restarts trig round1 now es s h over =
      let r = run fl trig round1 es s in
      let s1 : Beacon F = record r { last_tick = now } in
      On-publish_pose fl IsOnline _ (
        On-update_battery fl IsOnline (sub now r.last_tick) (end_restart fl now s1) (
          IsOnline-end_restart now r.restart_until s1 refl (IsConsistent-run trig round1 es s h)
            over))
