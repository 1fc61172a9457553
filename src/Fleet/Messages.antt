-- ===== src/Fleet/Messages.antt =====
-- The CSV messages that the Fleet Manager receives, as its callbacks parse them. `none` stands for
-- the branches that log an error and return: too few fields, a `ValueError`, a value out of range.
use warehouse_digital_twin.Base.{
  ℕ, String, Bool, true, false, not, ◌&&◌, ite, Option, none, some, List, map, if◌then◌else◌,
  length, get_elem?, ltb, str_dec, split_on, strip, upper,
}
use warehouse_digital_twin.Base.Int.{ℤ, pos, negsuc}
use warehouse_digital_twin.Base.Float.{Float}
use warehouse_digital_twin.Fleet.State.{Status, online, offline, Task}

infixl 5 ◌>>=◌ ◌>>◌
abbrev pub ◌>>=◌ : {A B : Type 0} → Option A → (A → Option B) → Option B
none >>= f = none
some a >>= f = f a

abbrev pub ◌>>◌ : {B : Type 0} → Option (Unit {0}) → Option B → Option B
m >> k = m >>= λ _. k

abbrev pub guard : Bool → Option (Unit {0})
guard true = some tt
guard false = none

-- `[p.strip() for p in msg.data.strip().split(",")]`.
unfoldable pub fields : String → List String
unfolding split_on strip
fields msg = map strip (split_on b',' (strip msg))

-- `parts[i] if len(parts) > i else default`.
unfoldable pub field_or : List String → ℕ → String → String
field_or parts i default = elim (get_elem? parts i) [ none ↦ default | some s ↦ s ]

unfoldable pub status_of : String → Option Status
unfolding upper
status_of s =
    ite (str_dec (upper s) "ONLINE") (some online)
      (ite (str_dec (upper s) "OFFLINE") (some offline) none)

-- `charging in (0, 1)`, as a Boolean.
charging_of : ℤ → Option Bool
charging_of n = elim n [
  | negsuc k ↦ none
  | pos k ↦ if ltb k 1 then some false else (if ltb k 2 then some true else none)
]

is_nonzero : ℤ → Bool
is_nonzero (negsuc k) = true
is_nonzero (pos k) = ltb 0 k

-- `max(0, min(2, n))`.
unfoldable pub clamp_priority : ℤ → ℕ
clamp_priority (negsuc k) = 0
clamp_priority (pos k) = if ltb 2 k then 2 else k

-- A registration, parsed.
pub record Registration (F : Type 0) : Type 0 where
  pub robot_id : String
  pub status : Status
  pub current_task : String
  pub payload_capacity : F
  pub max_speed : F
  pub robot_type : String
  pub workload : F
  pub priority : F
  pub battery : F
  pub charging : Bool
  pub namespace : String
  pub exec_state : String
  pub moving : Bool

module _ (fl : Float) where
  open fl use {F, lit, ltb_f, leb_f, float_of_str, int_of_str}

  unfoldable pub float_field : List String → ℕ → F → Option F
  float_field parts i default = elim (get_elem? parts i) [
    | none ↦ some default
    | some s ↦ float_of_str s
  ]

  unfoldable pub int_field : List String → ℕ → ℤ → Option ℤ
  int_field parts i default = elim (get_elem? parts i) [
    | none ↦ some default
    | some s ↦ int_of_str s
  ]

  -- `not x < 0.0`.
  abbrev non_negative : F → Bool
  non_negative x = not (ltb_f x (lit 0 0))

  unfoldable pub parse_registration : String → Option (Registration F)
  unfolding fields field_or status_of charging_of is_nonzero float_field int_field
  parse_registration msg = do
    let parts = fields msg
    guard (not (ltb (length parts) 2))
    payload_capacity ← float_field parts 3 (lit 0 0)
    max_speed ← float_field parts 4 (lit 0 0)
    workload ← float_field parts 6 (lit 0 0)
    priority ← float_field parts 7 (lit 0 0)
    battery ← float_field parts 8 (lit 100 0)
    charging_flag ← int_field parts 9 (pos 0)
    moving_flag ← int_field parts 12 (pos 0)
    status ← status_of (field_or parts 1 "")
    guard (non_negative payload_capacity)
    guard (non_negative max_speed)
    guard (non_negative workload)
    guard (non_negative priority)
    guard (leb_f (lit 0 0) battery && leb_f battery (lit 100 0))
    charging ← charging_of charging_flag
    some (record {
      robot_id = field_or parts 0 "";
      status = status;
      current_task = field_or parts 2 "";
      payload_capacity = payload_capacity;
      max_speed = max_speed;
      robot_type = field_or parts 5 "unknown";
      workload = workload;
      priority = priority;
      battery = battery;
      charging = charging;
      namespace = field_or parts 10 "";
      exec_state = field_or parts 11 "";
      moving = is_nonzero moving_flag;
    })

  -- The robot, and its x, y and yaw.
  unfoldable pub parse_pose : String → Option (String × F × F × F)
  unfolding fields field_or float_field
  parse_pose msg = do
    let parts = fields msg
    guard (not (ltb (length parts) 3))
    x ← float_field parts 1 (lit 0 0)
    y ← float_field parts 2 (lit 0 0)
    yaw ← float_field parts 3 (lit 0 0)
    some (field_or parts 0 "", x, y, yaw)

  unfoldable pub parse_task : String → Option (Task F)
  unfolding fields field_or float_field int_field clamp_priority
  parse_task msg = do
    let parts = fields msg
    guard (not (ltb (length parts) 5))
    pickup_x ← float_field parts 1 (lit 0 0)
    pickup_y ← float_field parts 2 (lit 0 0)
    dropoff_x ← float_field parts 3 (lit 0 0)
    dropoff_y ← float_field parts 4 (lit 0 0)
    priority ← int_field parts 5 (pos 1)
    required_payload ← float_field parts 6 (lit 0 0)
    guard (non_negative required_payload)
    some (record {
      task_id = field_or parts 0 "";
      pickup = (pickup_x, pickup_y);
      dropoff = (dropoff_x, dropoff_y);
      priority = clamp_priority priority;
      required_payload = required_payload;
      seq = 0;
    })
