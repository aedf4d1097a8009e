-- ===== src/Arbitrator/State.antt =====
-- The fields that `CommandArbitrator.__init__` sets, grouped by what they are about, and
-- `ArbitrationResult`.
--
-- A time is a whole number of ticks. The code only compares `now - last` with a timeout that is not
-- negative, so the truncated difference of ℕ gives the same answers also where a clock runs back.
-- The two lease factories are functions of the number of calls made so far.
use robot_runtime.Prelude.{
  ℕ, String, Bool, true, false, Option, none, List, [], ◌≡◌, ◌↔◌, ◌&&◌, ◌==◌, Eq, arith, eq_iff,
  max, string_eq,
}
use robot_runtime.Prelude.Int.{ℤ, pos_part}

pub data Source : Type 0 where
  teleop motion task : Source

pub data Mode : Type 0 where
  estop task_active teleop_active motion_active idle : Mode

pub record ArbitrationResult : Type 0 where
  pub accepted : Bool
  pub mode : Mode
  pub reason : String
  pub active_source : Option Source

-- A task is known by three texts.
pub record Identity : Type 0 where
  pub task_id : String
  pub trace_id : String
  pub session_id : String

abbrev pub identity_beq : Identity → Identity → Bool
identity_beq a b =
    a.task_id == b.task_id && a.trace_id == b.trace_id && a.session_id == b.session_id

pub identity_beq_iff : (a b : Identity) → (identity_beq a b ≡ true) ↔ (a ≡ b)
identity_beq_iff a b = ground (
  arith,
  eq_iff a.task_id b.task_id,
  eq_iff a.trace_id b.trace_id,
  eq_iff a.session_id b.session_id,
)

instance abbrev pub identity_eq : Eq Identity
identity_eq = record { beq = identity_beq; beq_iff = identity_beq_iff }

-- `teleop_holder_id`, `teleop_lease_id`, `last_teleop_control_time`
pub record TeleopLease : Type 0 where
  pub holder_id : String
  pub lease_id : String
  pub last_time : Option ℕ

-- `task_id`, `task_trace_id`, `task_session_id`, `task_lease_id`, `last_task_control_time`
pub record TaskLease : Type 0 where
  pub identity : Identity
  pub lease_id : String
  pub last_time : Option ℕ

-- `task_terminal_identities` (a deque, its left end first) and `task_terminal_identity_set`
pub record Tombstones : Type 0 where
  pub identities : List Identity
  pub identity_set : List Identity

-- `last_teleop_control_action` and the four fields below it
pub record TeleopLog : Type 0 where
  pub action : String
  pub accepted : Bool
  pub reason : String
  pub accepted_count : ℕ
  pub rejected_count : ℕ

-- `last_task_control_action` and the seven fields below it
pub record TaskLog : Type 0 where
  pub action : String
  pub identity : Identity
  pub accepted : Bool
  pub reason : String
  pub accepted_count : ℕ
  pub rejected_count : ℕ

-- `last_task_command_requester_id` and the two fields below it
pub record CommandLog : Type 0 where
  pub requester_id : String
  pub accepted : Bool
  pub reason : String

-- `accepted_counts`, `rejected_counts`
pub record Counts : Type 0 where
  pub teleop : ℕ
  pub motion : ℕ
  pub task : ℕ

pub record Config : Type 0 where
  pub teleop_timeout : ℕ
  pub motion_timeout : ℕ
  pub task_timeout : ℕ
  pub tombstone_limit : ℕ
  pub lease_id_factory : ℕ → String
  pub task_lease_id_factory : ℕ → String

pub record Arbitrator : Type 0 where
  pub config : Config
  pub mode : Mode
  pub active_source : Option Source
  pub estop_active : Bool
  pub estop_reason : String
  pub teleop : TeleopLease
  pub task : TaskLease
  pub tombstones : Tombstones
  pub last_motion_time : Option ℕ
  pub teleop_log : TeleopLog
  pub task_log : TaskLog
  pub command_log : CommandLog
  pub accepted_counts : Counts
  pub rejected_counts : Counts
  pub last_rejection_reason : String
  pub leases_made : ℕ
  pub task_leases_made : ℕ

abbrev pub no_identity : Identity
no_identity = record { task_id = ""; trace_id = ""; session_id = "" }

abbrev pub no_counts : Counts
no_counts = record { teleop = 0; motion = 0; task = 0 }

abbrev pub no_teleop : TeleopLease
no_teleop = record { holder_id = ""; lease_id = ""; last_time = none }

-- `max(float(timeout), 0.0)` and `max(int(limit), 1)`
unfoldable pub configure : ℤ → ℤ → ℤ → ℤ → (ℕ → String) → (ℕ → String) → Config
configure teleop_timeout motion_timeout task_timeout limit leases task_leases = record {
  teleop_timeout = pos_part teleop_timeout;
  motion_timeout = pos_part motion_timeout;
  task_timeout = pos_part task_timeout;
  tombstone_limit = max (pos_part limit) 1;
  lease_id_factory = leases;
  task_lease_id_factory = task_leases;
}

unfoldable pub new : Config → Arbitrator
new config = record {
  config = config;
  mode = idle;
  active_source = none;
  estop_active = false;
  estop_reason = "";
  teleop = no_teleop;
  task = record { identity = no_identity; lease_id = ""; last_time = none };
  tombstones = record { identities = []; identity_set = [] };
  last_motion_time = none;
  teleop_log = record {
    action = "";
    accepted = false;
    reason = "";
    accepted_count = 0;
    rejected_count = 0;
  };
  task_log = record {
    action = "";
    identity = no_identity;
    accepted = false;
    reason = "";
    accepted_count = 0;
    rejected_count = 0;
  };
  command_log = record { requester_id = ""; accepted = false; reason = "" };
  accepted_counts = no_counts;
  rejected_counts = no_counts;
  last_rejection_reason = "";
  leases_made = 0;
  task_leases_made = 0;
}
