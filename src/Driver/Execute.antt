-- ===== src/Driver/Execute.antt =====
-- The command service: `_handle_execute_command`. The port is a parameter: what an exchange of a
-- frame brings, with the answer decoded by the specification's method. Two texts of responses that
-- name Python values, the list of available commands and `result_json`, are left out.
use mathlib.Core.Option
use robot_runtime.Prelude.{
  Bool, List, Option, String, [], false, if◌then◌else◌, lower, max, min, nat_eq, none, not, some,
  string_eq, strip, true, ℕ, ◌&&◌, ◌==◌, ◌||◌, ◌∷◌,
}
use robot_runtime.Driver.Encoders.{encoder_of}
use robot_runtime.Driver.Move.{Driver, is_allowed_id}
use robot_runtime.Driver.Specs.{Spec, resolve_command}
use robot_runtime.Prelude.Int.{pos, ℤ}
use robot_runtime.SafetyLatch.Latch.{Time, admit_protocol_command, ros_time_to_ns}
use robot_runtime.SafetyLatch.Names.{is_motion_command, is_stop_command}

-- What a decoder gives back.
pub data Item : Type 0 where
  truth : Bool → Item
  whole_number : ℤ → Item
  other_value : Item

pub data Decoded : Type 0 where
  single : Item → Decoded
  several : List Item → Decoded

-- `_exchange_with_servo`: the port failed, or the bytes that came in and what was decoded, if anything.
pub data Exchange : Type 0 where
  failed : Exchange
  answered : List ℕ → Option Decoded → Exchange

pub record Request : Type 0 where
  pub servo_id : ℕ
  pub protocol : String
  pub command : String
  pub params : List ℤ
  pub stamp : Option Time

pub record Response : Type 0 where
  pub success : Bool
  pub answered_by : String
  pub error_code : ℕ
  pub value : ℤ
  pub values : List ℤ
  pub raw : List ℕ

-- `_set_execute_error`
unfoldable pub execute_error : String → ℕ → Response
execute_error protocol error_number = record {
  success = false;
  answered_by = protocol;
  error_code = max 1 (min 255 error_number);
  value = pos 0;
  values = [];
  raw = [];
}

abbrev whole_of : Item → Option ℤ
whole_of (truth true) = some (pos 1)
whole_of (truth false) = some (pos 0)
whole_of (whole_number n) = some n
whole_of other_value = none

-- The loop over a tuple: `none` when an item is no number.
unfoldable pub whole_items : List Item → Option (List ℤ)
whole_items [] = some []
whole_items (item ∷ items) = elim (whole_of item) [
  | none ↦ none
  | some n ↦ Option.map (λ ns. n ∷ ns) (whole_items items)
]

abbrev first_value : List ℤ → ℤ
first_value [] = pos 0
first_value (n ∷ ns) = n

-- `_fill_numeric_result`: the value and the values.
unfoldable pub numeric_result : Option Decoded → ℤ × List ℤ
unfolding whole_items
numeric_result none = (pos 0, [])
numeric_result (some (single item)) = elim (whole_of item) [
  | none ↦ (pos 0, [])
  | some n ↦ (n, n ∷ [])
]
numeric_result (some (several items)) = elim (whole_items items) [
  | none ↦ (pos 0, [])
  | some ns ↦ (first_value ns, ns)
]

-- The protocol, when it is one of the two.
unfoldable pub is_protocol : String → Bool
is_protocol protocol = protocol == "zl" || protocol == "lx"

abbrev pub is_some {ℓ} : {A : Type ℓ} → Option A → Bool
is_some none = false
is_some (some a) = true

-- `decodes`: the specification has a decoder.
unfoldable pub answer : String → Bool → Exchange → Response
unfolding numeric_result execute_error
answer protocol decodes failed = execute_error protocol 9
answer protocol decodes (answered bytes decoded) =
    if decodes && not (is_some decoded) then execute_error protocol 10 else record {
      success = true;
      answered_by = protocol;
      error_code = 0;
      value = (numeric_result decoded).0;
      values = (numeric_result decoded).1;
      raw = bytes;
    }

module _ (exchange : List ℕ → ℕ → Spec → Exchange) where
  -- The part behind the specification: the frame, or why there is none.
  unfoldable pub run_command : Request → String → Spec → Option (List ℕ) × Response
  run_command request protocol spec = elim (encoder_of protocol spec.encode) [
    | none ↦ (none, execute_error protocol 5)
    | some encode ↦ elim (encode (pos request.servo_id) request.params) [
      | none ↦ (none, execute_error protocol 7)
      | some frame ↦
          (some frame, answer protocol (is_some spec.decode) (exchange frame request.servo_id spec))
    ]
  ]

  -- `_handle_execute_command_unlocked`: the frame that is given to the port, and the response.
  unfoldable pub handle_unlocked : Request → Driver → Option (List ℕ) × Response
  handle_unlocked request d =
      let protocol = lower (strip request.protocol) in
      if not (is_protocol protocol)
      then (none, execute_error protocol 2)
      else if not (is_allowed_id protocol request.servo_id d)
      then (none, execute_error protocol 3)
      else elim (resolve_command protocol (strip request.command)) [
        | none ↦ (none, execute_error protocol 4)
        | some found ↦ run_command request protocol found.1
      ]

  unfoldable pub handle_execute_command :
      ℤ → Request → Driver → Driver × (Option (List ℕ) × Response)
  handle_execute_command now request d =
      let (latch, admitted) =
        admit_protocol_command request.command now (ros_time_to_ns request.stamp) d.safety_latch in
      let next = record d { safety_latch = latch } in
      if not (is_stop_command request.command || is_motion_command request.command)
      then (d, handle_unlocked request d)
      else if not admitted
      then (next, (none, execute_error (lower (strip request.protocol)) 11))
      else (next, handle_unlocked request next)
