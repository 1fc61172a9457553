-- ===== src/Beacon/Wire/Arrival.antt =====
-- What the fleet manager reads in a registration is what the beacon wrote.
use warehouse_digital_twin.Base.{
  ◌≡◌, refl, ap, ◌∙◌, String, Bool, true, false, none, some, List, [], ◌∷◌, map, All, Lacks,
  split_on, strip, upper, str_dec, ltb, ◌||◌, ◌==◌, if◌then◌else◌, Bool-cases, inl, inr,
}
use Prim.Native.Char.{code}
use warehouse_digital_twin.Base.Int.{ℤ, pos}
use warehouse_digital_twin.Base.Text.{is_blank}
use warehouse_digital_twin.Base.Text.Words.{
  joined, IsWord, split_on-joined, strip-joined, map-strip,
}
use warehouse_digital_twin.Base.Float.{Float}
use warehouse_digital_twin.Fleet.State.{Status, online, offline}
use warehouse_digital_twin.Fleet.Messages.{
  Registration, fields, field_or, float_field, int_field, status_of, parse_registration,
}
use warehouse_digital_twin.Beacon.{
  ExecState, off, charging, returning, idle, assigned, planning, moving_to_pickup, picking,
  carrying, moving_to_dropoff, dropping, Beat,
}
use warehouse_digital_twin.Beacon.Wire.{
  Printing, status_text, exec_text, flag_text, beat_fields, registration_text,
}

-- A field: no comma and no blank.
abbrev pub IsField : String → Type 0
IsField s = Lacks b',' s × IsWord s

-- What Python documents of printed numbers: they are fields, and reading undoes printing. A printed
-- `int` reads as the `float` of its value.
pub record Readable (fl : Float) (pr : Printing fl.F) : Type 0 where
  pub float_IsField : (x : fl.F) → IsField (pr.float_str x)
  pub int_IsField : (n : ℤ) → IsField (pr.int_str n)
  pub read_float : (x : fl.F) → fl.float_of_str (pr.float_str x) ≡ some x
  pub read_int : (n : ℤ) → fl.float_of_str (pr.int_str n) ≡ some (fl.of_ℤ n)
  pub read_zero : fl.int_of_str "0" ≡ some (pos 0)
  pub read_one : fl.int_of_str "1" ≡ some (pos 1)

All-IsField : (ws : List String) → All IsField ws → All (Lacks b',') ws × All IsWord ws
All-IsField [] h = (tt, tt)
All-IsField (w ∷ ws) ((c, b), h) = let (cs, bs) = All-IsField ws h in ((c, cs), (b, bs))

fields-joined :
    (w v : String) (ws : List String)
    → All IsField (w ∷ v ∷ ws)
    → fields (joined "," (w ∷ v ∷ ws)) ≡ w ∷ v ∷ ws
unfolding fields is_blank
fields-joined w v ws h =
    let (cs, bs) = All-IsField (w ∷ v ∷ ws) h in
    ap (λ t. map strip (split_on b',' t)) (strip-joined "," w v ws refl bs)
    ∙ ap (map strip) (split_on-joined b',' "," w (v ∷ ws) refl cs)
    ∙ map-strip (w ∷ v ∷ ws) bs

-- A test for fields, for the texts that are written out.
abbrev pub is_field : String → Bool
is_field String.[] = true
is_field (String.◌∷◌ c s) = if code c == b',' || is_blank c then false else is_field s

pub IsField-is_field : (s : String) → is_field s ≡ true → IsField s
IsField-is_field String.[] h = (tt, tt)
IsField-is_field (String.◌∷◌ c s) h = elim (Bool-cases (code c == b',')) [
  | inl k ↦ absurd (cc (rw k at h))
  | inr k ↦ elim (Bool-cases (is_blank c)) [
    | inl m ↦ absurd (cc (rw (k, m) at h))
    | inr m ↦ let (cs, bs) = IsField-is_field s (rw (k, m) at h) in ((k, cs), (m, bs))
  ]
]

IsField-status_text : (s : Status) → IsField (status_text s)
unfolding status_text is_blank
IsField-status_text online = IsField-is_field "ONLINE" refl
IsField-status_text offline = IsField-is_field "OFFLINE" refl

IsField-flag_text : (b : Bool) → IsField (flag_text b)
unfolding flag_text is_blank
IsField-flag_text true = IsField-is_field "1" refl
IsField-flag_text false = IsField-is_field "0" refl

IsField-exec_text : (e : ExecState) → IsField (exec_text e)
unfolding exec_text is_blank
IsField-exec_text off = IsField-is_field "OFFLINE" refl
IsField-exec_text charging = IsField-is_field "CHARGING" refl
IsField-exec_text returning = IsField-is_field "RETURNING" refl
IsField-exec_text idle = IsField-is_field "IDLE" refl
IsField-exec_text assigned = IsField-is_field "ASSIGNED" refl
IsField-exec_text planning = IsField-is_field "PLANNING" refl
IsField-exec_text moving_to_pickup = IsField-is_field "MOVING_TO_PICKUP" refl
IsField-exec_text picking = IsField-is_field "PICKING" refl
IsField-exec_text carrying = IsField-is_field "CARRYING" refl
IsField-exec_text moving_to_dropoff = IsField-is_field "MOVING_TO_DROPOFF" refl
IsField-exec_text dropping = IsField-is_field "DROPPING" refl

read_charging :
    (b : Bool)
    → (if ltb (if b then 1 else 0) 1
        then some false
        else (if ltb (if b then 1 else 0) 2 then some true else none))
      ≡ some b
read_charging true = refl
read_charging false = refl

read_moving : (b : Bool) → ltb 0 (if b then 1 else 0) ≡ b
read_moving true = refl
read_moving false = refl

module _ (fl : Float) (pr : Printing fl.F) (py : Readable fl pr) where
  open fl use {F, lit, ltb_f, leb_f}

  -- The names of the robot, its task, its type and its namespace are fields.
  abbrev pub AreNames : Beat F → Type 0
  AreNames b =
      IsField b.robot_id × IsField b.current_task × IsField b.robot_type × IsField b.namespace

  -- No number is out of the range that the fleet manager accepts.
  abbrev pub AreInRange : Beat F → Type 0
  AreInRange b =
      (ltb_f b.payload_capacity (lit 0 0) ≡ false)
      × (ltb_f b.max_speed (lit 0 0) ≡ false)
      × (ltb_f (fl.of_ℤ b.workload) (lit 0 0) ≡ false)
      × (ltb_f b.priority (lit 0 0) ≡ false)
      × (leb_f (lit 0 0) b.battery ≡ true)
      × (leb_f b.battery (lit 100 0) ≡ true)

  fields-registration_text :
      (b : Beat F) → AreNames b → fields (registration_text pr b) ≡ beat_fields pr b
  unfolding registration_text beat_fields
  fields-registration_text b (robot, task, kind, space) =
      fields-joined b.robot_id (status_text b.status)
        (b.current_task
          ∷ pr.float_str b.payload_capacity
          ∷ pr.float_str b.max_speed
          ∷ b.robot_type
          ∷ pr.int_str b.workload
          ∷ pr.float_str b.priority
          ∷ pr.float_str b.battery
          ∷ flag_text b.charging
          ∷ b.namespace
          ∷ exec_text b.exec_state
          ∷ flag_text b.moving
          ∷ [])
        (
          robot,
          (
            IsField-status_text b.status,
            (
              task,
              (
                py.float_IsField b.payload_capacity,
                (
                  py.float_IsField b.max_speed,
                  (
                    kind,
                    (
                      py.int_IsField b.workload,
                      (
                        py.float_IsField b.priority,
                        (
                          py.float_IsField b.battery,
                          (
                            IsField-flag_text b.charging,
                            (
                              space,
                              (IsField-exec_text b.exec_state, (IsField-flag_text b.moving, tt)),
                            ),
                          ),
                        ),
                      ),
                    ),
                  ),
                ),
              ),
            ),
          ),
        )

  read_flag : (b : Bool) → fl.int_of_str (flag_text b) ≡ some (pos (if b then 1 else 0))
  unfolding flag_text
  read_flag true = py.read_one
  read_flag false = py.read_zero

  status_of-status_text : (s : Status) → status_of (status_text s) ≡ some s
  unfolding status_of status_text upper str_dec
  status_of-status_text online = refl
  status_of-status_text offline = refl

  -- What the fleet manager keeps of a registration.
  abbrev pub received : Beat F → Registration F
  received b = record {
    robot_id = b.robot_id;
    status = b.status;
    current_task = b.current_task;
    payload_capacity = b.payload_capacity;
    max_speed = b.max_speed;
    robot_type = b.robot_type;
    workload = fl.of_ℤ b.workload;
    priority = b.priority;
    battery = b.battery;
    charging = b.charging;
    namespace = b.namespace;
    exec_state = exec_text b.exec_state;
    moving = b.moving;
  }

  -- A registration arrives as it was sent: the fleet manager reads the text that the beacon prints as
  -- the fields of the beat, where the names have no comma and no blank, the numbers are in the
  -- range that it accepts, and reading a number undoes its printing, for an `int` as a `float`.
  pub parse_registration-registration_text :
      (b : Beat F)
      → AreNames b
      → AreInRange b
      → parse_registration fl (registration_text pr b) ≡ some (received b)
  unfolding parse_registration float_field int_field field_or beat_fields status_of
  parse_registration-registration_text b names (payload, speed, work, priority, low, high) =
      rw
        (
          parse_registration,
          fields-registration_text b names,
          beat_fields,
          float_field,
          int_field,
          field_or,
          py.read_float b.payload_capacity,
          py.read_float b.max_speed,
          py.read_int b.workload,
          py.read_float b.priority,
          py.read_float b.battery,
          read_flag b.charging,
          read_flag b.moving,
          status_of-status_text b.status,
          payload,
          speed,
          work,
          priority,
          low,
          high,
          read_charging b.charging,
          read_moving b.moving,
        )
        refl
