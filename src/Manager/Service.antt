-- ===== src/Manager/Service.antt =====
-- actuator_service_adapter.py: answers of the driver's services. A message of an answer is a text that
-- may be empty.
use robot_runtime.Prelude.{
  Bool, List, Option, String, [], false, if◌then◌else◌, is_empty, lower, nat_eq, none, not, some,
  string_eq, strip, true, ℕ, ◌&&◌, ◌==◌, ◌∷◌,
}
use robot_runtime.Prelude.Int.{int_eq}

pub record DriverAnswer : Type 0 where
  pub success : Bool
  pub position : ℕ
  pub error_code : ℕ
  pub message : String

pub record ReadFields : Type 0 where
  pub success : Bool
  pub position_raw : ℕ
  pub value_encoding : String
  pub status : String
  pub reason : String
  pub recoverable : Bool

abbrev pub or_else : String → String → String
or_else text fallback = if is_empty text then fallback else text

unfoldable pub read_response_fields : Option DriverAnswer → ReadFields
read_response_fields none = record {
  success = false;
  position_raw = 0;
  value_encoding = "bus_pulse_us";
  status = "error";
  reason = "driver_service_unavailable";
  recoverable = true;
}
read_response_fields (some response) =
    if not response.success
    then record {
      success = false;
      position_raw = 0;
      value_encoding = "bus_pulse_us";
      status = "error";
      reason = or_else (strip response.message) "position_read_failed";
      recoverable = not (response.error_code == 2);
    }
    else record {
      success = true;
      position_raw = response.position;
      value_encoding = "bus_pulse_us";
      status = "ok";
      reason = "";
      recoverable = false;
    }

-- `reason` holds the texts that the code joins by semicolons; it is empty where all were sent.
pub record StopSummary : Type 0 where
  pub accepted : Bool
  pub stop_command_sent : Bool
  pub stop_confirmed : Bool
  pub status : String
  pub reasons : List String
  pub recoverable : Bool
  pub stopped_actuator_ids : List ℕ
  pub unsupported_actuator_ids : List ℕ

-- What the loop collects.
pub record Collected : Type 0 where
  pub stopped : List ℕ
  pub unsupported : List ℕ
  pub reasons : List String

unfoldable pub collect : ℕ → Option DriverAnswer → Collected → Collected
collect id none c = record c {
  unsupported = id ∷ c.unsupported;
  reasons = "driver_service_unavailable" ∷ c.reasons;
}
collect id (some response) c =
    if response.success then record c { stopped = id ∷ c.stopped } else record c {
      unsupported = id ∷ c.unsupported;
      reasons = or_else response.message "stop_command_failed" ∷ c.reasons;
    }

-- The loop over the pairs, which ends with the shorter list.
unfoldable pub collect_all : List ℕ → List (Option DriverAnswer) → Collected
unfolding collect
collect_all [] responses = record { stopped = []; unsupported = []; reasons = [] }
collect_all (id ∷ ids) [] = record { stopped = []; unsupported = []; reasons = [] }
collect_all (id ∷ ids) (response ∷ responses) = collect id response (collect_all ids responses)

abbrev pub no_items {ℓ} : {A : Type ℓ} → List A → Bool
no_items [] = true
no_items (x ∷ xs) = false

unfoldable pub stop_summary : List ℕ → List (Option DriverAnswer) → StopSummary
unfolding collect_all
stop_summary ids responses =
    let c = collect_all ids responses in
    let all_sent = not (no_items ids) && no_items c.unsupported in
    record {
      accepted = not (no_items ids);
      stop_command_sent = all_sent;
      stop_confirmed = false;
      status = if all_sent then "stop_command_sent" else "stop_command_failed";
      reasons = if all_sent then [] else c.reasons;
      recoverable = not all_sent;
      stopped_actuator_ids = c.stopped;
      unsupported_actuator_ids = c.unsupported;
    }

unfoldable pub stop_command_for_protocol : String → String
stop_command_for_protocol protocol =
    let normalized = lower (strip protocol) in
    if normalized == "lx"
    then "move_stop"
    else if normalized == "zl"
    then "stop_motion"
    else "stop_motion"
