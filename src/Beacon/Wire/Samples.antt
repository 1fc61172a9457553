-- ===== src/Beacon/Wire/Samples.antt =====
-- A registration on its way: an instance of the theorem, for an arithmetic of two numbers.
use warehouse_digital_twin.Base.{
  ◌≡◌, refl, Bool, true, false, not, ◌&&◌, ◌||◌, some, str_dec, ite, ltb, if◌then◌else◌,
}
use warehouse_digital_twin.Base.Int.{ℤ, pos, negsuc}
use warehouse_digital_twin.Base.Text.{is_blank}
use warehouse_digital_twin.Base.Float.{Float}
use warehouse_digital_twin.Fleet.State.{online}
use warehouse_digital_twin.Fleet.Messages.{parse_registration}
use warehouse_digital_twin.Beacon.{Beat, carrying}
use warehouse_digital_twin.Beacon.Wire.{Printing, registration_text}
use warehouse_digital_twin.Beacon.Wire.Arrival.{
  Readable, IsField, IsField-is_field, received, parse_registration-registration_text,
}

abbrev is_positive : ℤ → Bool
is_positive (pos n) = ltb 0 n
is_positive (negsuc n) = false

-- Zero and one, where one stands for every positive number.
abbrev signs : Float
signs = record {
  F = Bool;
  lit = λ n k. ltb 0 n;
  of_ℤ = is_positive;
  ltb_f = λ a b. not a && b;
  leb_f = λ a b. not a || b;
  eqb_f = λ a b. if a then b else not b;
  add = ◌||◌;
  sub = λ a b. a && not b;
  mul = ◌&&◌;
  div = λ a b. a;
  neg = λ a. false;
  hypot = ◌||◌;
  sqrt = λ a. a;
  inf = true;
  trunc = λ a. if a then pos 1 else pos 0;
  floor = λ a. if a then pos 1 else pos 0;
  ceil = λ a. if a then pos 1 else pos 0;
  round3 = λ a. a;
  float_of_str = λ s. some (ite (str_dec s "1") true false);
  int_of_str = λ s. some (ite (str_dec s "1") (pos 1) (pos 0));
}

abbrev printed : Printing Bool
printed = record {
  float_str = λ a. if a then "1" else "0";
  int_str = λ n. if is_positive n then "1" else "0";
}

printed-IsField : (a : Bool) → IsField (if a then "1" else "0")
unfolding is_blank
printed-IsField true = IsField-is_field "1" refl
printed-IsField false = IsField-is_field "0" refl

read-printed : (a : Bool) → signs.float_of_str (if a then "1" else "0") ≡ some a
unfolding str_dec
read-printed true = refl
read-printed false = refl

printed-Readable : Readable signs printed
unfolding str_dec
printed-Readable = record {
  float_IsField = printed-IsField;
  int_IsField = λ n. printed-IsField (is_positive n);
  read_float = read-printed;
  read_int = λ n. read-printed (is_positive n);
  read_zero = refl;
  read_one = refl;
}

abbrev sent : Beat Bool
sent = record {
  robot_id = "tb3_1";
  status = online;
  current_task = "t1";
  payload_capacity = true;
  max_speed = true;
  robot_type = "amr";
  workload = pos 1;
  priority = false;
  battery = true;
  charging = false;
  namespace = "/tb3_1";
  exec_state = carrying;
  moving = true;
}

parse_registration-registration_text_example :
    parse_registration signs (registration_text printed sent)
    ≡ some (received signs printed printed-Readable sent)
unfolding is_blank
parse_registration-registration_text_example =
    parse_registration-registration_text signs printed printed-Readable sent
      (
        IsField-is_field "tb3_1" refl,
        IsField-is_field "t1" refl,
        IsField-is_field "amr" refl,
        IsField-is_field "/tb3_1" refl,
      )
      (refl, refl, refl, refl, refl, refl)
