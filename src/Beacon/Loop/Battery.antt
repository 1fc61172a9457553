-- ===== src/Beacon/Loop/Battery.antt =====
-- The battery level of the beacon: every event keeps it between 0% and 100%.
use warehouse_digital_twin.Base.{
  ◌≡◌, subst, sym, inl, inr, String, Bool, true, false, not, ◌&&◌, ◌||◌, Option, none, some, List,
  [], ◌∷◌, if◌then◌else◌, ite, Bool-cases, str_dec, lower, strip, strip_prefix,
}
use warehouse_digital_twin.Base.Float.{Float, Trig, max_f, min_f}
use warehouse_digital_twin.Beacon.{
  Beacon, Parameters, emit, state_callback, queue_callback, odom_callback, plan_callback,
  goal_callback, publish_charging_goal, publish_battery, publish_heartbeat, publish_pose,
  pose_callback, percent, battery_command_callback, control_callback, start_charging,
}
use warehouse_digital_twin.Beacon.Loop.{
  is_blank, at_charging_pad, charge, drain, use_battery, seek_charger, update_battery,
  publish_registration, end_restart, control_loop, Event, task_state, queue_info, amcl_pose, odom,
  plan, goal_set, battery_command, control, timer, handle, run,
}

-- What the battery relies on: facts of IEEE arithmetic, which hold for infinities and NaN too.
pub record Levels (fl : Float) : Type 0 where
  pub lt_asym : (a b : fl.F) → fl.ltb_f a b ≡ true → fl.ltb_f b a ≡ false
  pub lt_irrefl : (a : fl.F) → fl.ltb_f a a ≡ false
  pub zero_lt_full : fl.ltb_f (fl.lit 0 0) (fl.lit 100 0) ≡ true
  pub le_trans : (a b c : fl.F) → fl.leb_f a b ≡ true → fl.leb_f b c ≡ true → fl.leb_f a c ≡ true
  pub add_not_neg :
      (a b : fl.F)
      → fl.ltb_f a (fl.lit 0 0) ≡ false
      → fl.ltb_f b (fl.lit 0 0) ≡ false
      → fl.ltb_f (fl.add a b) (fl.lit 0 0) ≡ false
  pub mul_not_neg :
      (a b : fl.F)
      → fl.ltb_f a (fl.lit 0 0) ≡ false
      → fl.ltb_f b (fl.lit 0 0) ≡ false
      → fl.ltb_f (fl.mul a b) (fl.lit 0 0) ≡ false
  pub sub_not_over :
      (a b c : fl.F)
      → fl.ltb_f c a ≡ false
      → fl.ltb_f b (fl.lit 0 0) ≡ false
      → fl.ltb_f c (fl.sub a b) ≡ false
  pub sub_not_neg : (a b : fl.F) → fl.leb_f a b ≡ true → fl.ltb_f (fl.sub b a) (fl.lit 0 0) ≡ false

module _ (fl : Float) where
  open fl use {F, lit, ltb_f, leb_f, add, sub, mul}

  -- The times of the events do not go back, from t on, and are no NaN.
  abbrev pub Forward : F → List (F × Event F) → Type 0
  Forward t [] = Unit
  Forward t ((now, e) ∷ es) = (leb_f t now ≡ true) × (leb_f now now ≡ true) × Forward now es

  -- Neither under 0% nor over 100%.
  abbrev pub IsLevel : F → Type 0
  IsLevel b = (ltb_f b (lit 0 0) ≡ false) × (ltb_f (lit 100 0) b ≡ false)

  abbrev pub AreRates : Parameters F → Type 0
  AreRates p = (ltb_f p.charge_rate (lit 0 0) ≡ false) × (ltb_f p.discharge_rate (lit 0 0) ≡ false)

  -- A level, rates that are not negative and a last tick that is not after t.
  abbrev pub IsCharged : F → Beacon F → Type 0
  IsCharged t s = IsLevel s.battery × AreRates s.parameters × (leb_f s.last_tick t ≡ true)

module _ (fl : Float) (laws : Levels fl) where
  open fl use {F, lit, ltb_f, leb_f, add, sub, mul}

  IsLevel-cap : (x : F) → ltb_f x (lit 0 0) ≡ false → IsLevel fl (min_f fl (lit 100 0) x)
  IsLevel-cap x h = elim (Bool-cases (ltb_f x (lit 100 0))) [
    | inl k ↦
        subst (λ b. IsLevel fl (if b then x else lit 100 0)) (sym k)
          (h, laws.lt_asym x (lit 100 0) k)
    | inr k ↦
        subst (λ b. IsLevel fl (if b then x else lit 100 0)) (sym k)
          (laws.lt_asym (lit 0 0) (lit 100 0) laws.zero_lt_full, laws.lt_irrefl (lit 100 0))
  ]

  IsLevel-floor : (x : F) → ltb_f (lit 100 0) x ≡ false → IsLevel fl (max_f fl (lit 0 0) x)
  IsLevel-floor x h = elim (Bool-cases (ltb_f (lit 0 0) x)) [
    | inl k ↦
        subst (λ b. IsLevel fl (if b then x else lit 0 0)) (sym k) (laws.lt_asym (lit 0 0) x k, h)
    | inr k ↦
        subst (λ b. IsLevel fl (if b then x else lit 0 0)) (sym k)
          (laws.lt_irrefl (lit 0 0), laws.lt_asym (lit 0 0) (lit 100 0) laws.zero_lt_full)
  ]

  min_full-not_over : (x : F) → ltb_f (lit 100 0) (min_f fl (lit 100 0) x) ≡ false
  min_full-not_over x = elim (Bool-cases (ltb_f x (lit 100 0))) [
    | inl k ↦
        subst (λ b. ltb_f (lit 100 0) (if b then x else lit 100 0) ≡ false) (sym k)
          (laws.lt_asym x (lit 100 0) k)
    | inr k ↦
        subst (λ b. ltb_f (lit 100 0) (if b then x else lit 100 0) ≡ false) (sym k)
          (laws.lt_irrefl (lit 100 0))
  ]

  IsLevel-percent : (x : F) → IsLevel fl (percent fl x)
  unfolding percent
  IsLevel-percent x = IsLevel-floor (min_f fl (lit 100 0) x) (min_full-not_over x)

  IsCharged-if :
      (t : F) (c : Bool) (a b : Beacon F)
      → IsCharged fl t a
      → IsCharged fl t b
      → IsCharged fl t (if c then a else b)
  IsCharged-if t true a b h k = h
  IsCharged-if t false a b h k = k

  IsCharged-ite :
      {P : Type 0} (t : F) (d : Dec P) (a b : Beacon F)
      → IsCharged fl t a
      → IsCharged fl t b
      → IsCharged fl t (ite d a b)
  IsCharged-ite t (yes _) a b h k = h
  IsCharged-ite t (no _) a b h k = k

  IsCharged-start_charging :
      (t : F) (s : Beacon F) → IsCharged fl t s → IsCharged fl t (start_charging fl s)
  unfolding start_charging publish_charging_goal emit
  IsCharged-start_charging t s h = IsCharged-if t s.want_charge _ _ h h

  IsCharged-option :
      {A : Type 0} (t : F) (o : Option A) (a : Beacon F) (f : A → Beacon F)
      → IsCharged fl t a
      → ((x : A) → IsCharged fl t (f x))
      → IsCharged fl t (elim o [ none ↦ a | some x ↦ f x ])
  IsCharged-option t none a f h k = h
  IsCharged-option t (some x) a f h k = k x

  IsCharged-command :
      (t : F) (msg : String) (s : Beacon F)
      → IsCharged fl t s
      → IsCharged fl t (battery_command_callback fl msg s)
  unfolding battery_command_callback
  IsCharged-command t msg s h =
      let cmd = lower (strip msg) in
      IsCharged-ite t (str_dec cmd "drain") _ _ h (
        IsCharged-ite t (str_dec cmd "discharge") _ _ h (
          IsCharged-ite t (str_dec cmd "recharge") _ _
            (IsCharged-start_charging t (record s { forced_drain = false }) h)
            (IsCharged-option t (strip_prefix "set:" cmd) s _ h λ text.
              IsCharged-option t (fl.float_of_str text) s _ h λ x. (IsLevel-percent x, h.1, h.2))))

  IsCharged-control :
      (t now : F) (msg : String) (s : Beacon F)
      → IsCharged fl t s
      → IsCharged fl t (control_callback fl now msg s)
  unfolding control_callback
  IsCharged-control t now msg s h =
      IsCharged-ite t (str_dec (lower (strip msg)) "restart") _ _
        (IsCharged-option t s.restart_until _ (λ _. s) h λ _. h) h

  IsCharged-use_battery :
      (t dt : F) (s : Beacon F)
      → ltb_f dt (lit 0 0) ≡ false
      → IsCharged fl t s
      → IsCharged fl t (use_battery fl dt s)
  unfolding use_battery charge drain
  IsCharged-use_battery t dt s d ((low, high), (c, r), tick) =
      let up =
        IsLevel-cap (add s.battery (mul s.parameters.charge_rate dt))
          (laws.add_not_neg _ _ low (laws.mul_not_neg _ _ c d)) in
      let down =
        IsLevel-floor (sub s.battery (mul s.parameters.discharge_rate dt))
          (laws.sub_not_over _ _ _ high (laws.mul_not_neg _ _ r d)) in
      IsCharged-if t s.charging _ _
        (IsCharged-if t (leb_f s.parameters.charge_complete _) _ _ (up, (c, r), tick)
          (up, (c, r), tick))
        (IsCharged-if t (s.forced_drain || (not (is_blank s.current_task) && not s.want_charge)) _ _
          (down, (c, r), tick) ((low, high), (c, r), tick))

  IsCharged-end_restart :
      (t now : F) (s : Beacon F) → IsCharged fl t s → IsCharged fl t (end_restart fl now s)
  unfolding end_restart
  IsCharged-end_restart t now s h =
      IsCharged-option t s.restart_until s _ h λ u. IsCharged-if t (leb_f u now) _ s h h

  IsCharged-update_battery :
      (t dt : F) (s : Beacon F)
      → ltb_f dt (lit 0 0) ≡ false
      → IsCharged fl t s
      → IsCharged fl t (update_battery fl dt s)
  unfolding update_battery seek_charger
  IsCharged-update_battery t dt s d h =
      let s1 = use_battery fl dt (record s { charging = s.want_charge && at_charging_pad fl s }) in
      let k =
        IsCharged-use_battery t dt (record s { charging = s.want_charge && at_charging_pad fl s }) d
          h in
      IsCharged-if t (leb_f s1.battery s1.parameters.critical) (start_charging fl s1) s1
        (IsCharged-start_charging t s1 k) k

  IsCharged-publish_pose :
      (t : F) (s : Beacon F) → IsCharged fl t s → IsCharged fl t (publish_pose s)
  unfolding publish_pose emit
  IsCharged-publish_pose t s h = IsCharged-option t s.pose s _ h λ _. h

  IsCharged-control_loop :
      (round1 : F → F) (t now : F) (s : Beacon F)
      → leb_f now now ≡ true
      → leb_f t now ≡ true
      → IsCharged fl t s
      → IsCharged fl now (control_loop fl round1 now s)
  unfolding control_loop publish_registration publish_heartbeat publish_battery emit
  IsCharged-control_loop round1 t now s eq le (level, rates, tick) = IsCharged-publish_pose now _ (
      IsCharged-update_battery now (sub now s.last_tick)
        (end_restart fl now (record s { last_tick = now }))
        (laws.sub_not_neg _ _ (laws.le_trans _ _ _ tick le))
        (IsCharged-end_restart now now (record s { last_tick = now }) (level, rates, eq)))

  IsCharged-later :
      (t now : F) (s : Beacon F) → leb_f t now ≡ true → IsCharged fl t s → IsCharged fl now s
  IsCharged-later t now s le (level, rates, tick) = (level, rates, laws.le_trans _ _ _ tick le)

  IsCharged-handle :
      (trig : Trig F) (round1 : F → F) (t now : F) (e : Event F) (s : Beacon F)
      → leb_f now now ≡ true
      → leb_f t now ≡ true
      → IsCharged fl t s
      → IsCharged fl now (handle fl trig round1 (now, e) s)
  unfolding handle state_callback queue_callback odom_callback plan_callback goal_callback
      pose_callback
  IsCharged-handle trig round1 t now (task_state none) s eq le h = IsCharged-later t now s le h
  IsCharged-handle trig round1 t now (task_state (some d)) s eq le h = IsCharged-later t now s le h
  IsCharged-handle trig round1 t now (queue_info none) s eq le h = IsCharged-later t now s le h
  IsCharged-handle trig round1 t now (queue_info (some d)) s eq le h = IsCharged-later t now s le h
  IsCharged-handle trig round1 t now (amcl_pose p q) s eq le h = IsCharged-later t now s le h
  IsCharged-handle trig round1 t now (odom v) s eq le h = IsCharged-later t now s le h
  IsCharged-handle trig round1 t now (plan n) s eq le h = IsCharged-later t now s le h
  IsCharged-handle trig round1 t now (goal_set p) s eq le h = IsCharged-later t now s le h
  IsCharged-handle trig round1 t now (battery_command msg) s eq le h =
      IsCharged-command now msg s (IsCharged-later t now s le h)
  IsCharged-handle trig round1 t now (control msg) s eq le h =
      IsCharged-control now now msg s (IsCharged-later t now s le h)
  IsCharged-handle trig round1 t now timer s eq le h = IsCharged-control_loop round1 t now s eq le h

  -- The battery level stays between 0% and 100% whatever the node hears: where it starts there, the
  -- charge and discharge rates are not negative, the clock does not go back and shows no NaN, and
  -- the arithmetic has the facts of `Levels`, the level after any sequence of events is neither
  -- below 0 nor above 100.
  pub run-IsLevel :
      (trig : Trig F) (round1 : F → F) (t : F) (es : List (F × Event F)) (s : Beacon F)
      → Forward fl t es
      → IsCharged fl t s
      → IsLevel fl (run fl trig round1 es s).battery
  unfolding run
  run-IsLevel trig round1 t [] s f h = h.0
  run-IsLevel trig round1 t ((now, e) ∷ es) s (le, eq, f) h =
      run-IsLevel trig round1 now es (handle fl trig round1 (now, e) s) f
        (IsCharged-handle trig round1 t now e s eq le h)
