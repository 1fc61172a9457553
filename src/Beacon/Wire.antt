-- ===== src/Beacon/Wire.antt =====
-- The text of a registration, as the beacon prints it, and its way to the fleet manager.
pub mod Arrival
mod Samples
use warehouse_digital_twin.Base.{ℕ, String, Bool, true, false, List, [], ◌∷◌, if◌then◌else◌}
use warehouse_digital_twin.Base.Int.{ℤ}
use warehouse_digital_twin.Base.Text.Words.{joined}
use warehouse_digital_twin.Fleet.State.{Status, online, offline}
use warehouse_digital_twin.Beacon.{
  ExecState, off, charging, returning, idle, assigned, planning, moving_to_pickup, picking,
  carrying, moving_to_dropoff, dropping, Beat,
}

-- Python's `str` of a `float` and of an `int`.
pub record Printing (F : Type 0) : Type 0 where
  pub float_str : F → String
  pub int_str : ℤ → String

unfoldable pub status_text : Status → String
status_text online = "ONLINE"
status_text offline = "OFFLINE"

-- The strings of `_exec_state`.
unfoldable pub exec_text : ExecState → String
exec_text off = "OFFLINE"
exec_text charging = "CHARGING"
exec_text returning = "RETURNING"
exec_text idle = "IDLE"
exec_text assigned = "ASSIGNED"
exec_text planning = "PLANNING"
exec_text moving_to_pickup = "MOVING_TO_PICKUP"
exec_text picking = "PICKING"
exec_text carrying = "CARRYING"
exec_text moving_to_dropoff = "MOVING_TO_DROPOFF"
exec_text dropping = "DROPPING"

-- `1 if b else 0`, as text.
unfoldable pub flag_text : Bool → String
flag_text b = if b then "1" else "0"

module _ {F : Type 0} (pr : Printing F) where
  -- The fields of the message, in order.
  unfoldable pub beat_fields : Beat F → List String
  unfolding status_text exec_text flag_text
  beat_fields b =
      b.robot_id
      ∷ status_text b.status
      ∷ b.current_task
      ∷ pr.float_str b.payload_capacity
      ∷ pr.float_str b.max_speed
      ∷ b.robot_type
      ∷ pr.int_str b.workload
      ∷ pr.float_str b.priority
      ∷ pr.float_str b.battery
      ∷ flag_text b.charging
      ∷ b.namespace
      ∷ exec_text b.exec_state
      ∷ flag_text b.moving
      ∷ []

  -- The text of `_publish_registration`.
  unfoldable pub registration_text : Beat F → String
  unfolding beat_fields joined
  registration_text b = joined "," (beat_fields b)
