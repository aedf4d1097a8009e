-- ===== src/Motion/TaskState.antt =====
-- The predicates on task states that decide the fate of a motion goal. `none` is a state that has not
-- come in. The texts of a message are texts, so `str` leaves them as they are.
use robot_runtime.Prelude.{
  Bool, List, Option, String, [], contains, false, if◌then◌else◌, is_empty, lower, nat_eq, none,
  not, some, string_eq, strip, ◌&&◌, ◌==◌, ◌||◌, ◌∷◌,
}
use robot_runtime.Motion.Goal.{MotionGoalSpec}

pub record TaskState : Type 0 where
  pub task_id : String
  pub trace_id : String
  pub session_id : String
  pub lease_id : String
  pub active : Bool
  pub status : String
  pub last_action : String
  pub last_task_id : String
  pub last_trace_id : String
  pub last_session_id : String
  pub last_action_accepted : Bool

unfoldable pub task_state_has_identity : Option TaskState → MotionGoalSpec → Bool
task_state_has_identity none spec = false
task_state_has_identity (some state) spec =
    state.task_id == spec.task_id
    && state.trace_id == spec.trace_id
    && state.session_id == spec.session_id

unfoldable pub active_task_lease : Option TaskState → MotionGoalSpec → String
unfolding task_state_has_identity
active_task_lease none spec = ""
active_task_lease (some state) spec =
    if not (task_state_has_identity (some state) spec) || not state.active
    then ""
    else strip state.lease_id

abbrev pub terminal_task_statuses : List String
terminal_task_statuses = "finished" ∷ "cancelled" ∷ "expired" ∷ "blocked" ∷ []

unfoldable pub terminal_task_status : Option TaskState → MotionGoalSpec → String
unfolding task_state_has_identity contains
terminal_task_status none spec = ""
terminal_task_status (some state) spec =
    let status = lower (strip state.status) in
    if task_state_has_identity (some state) spec
      && not state.active
      && is_empty (strip state.lease_id)
      && contains status terminal_task_statuses
    then status
    else ""

unfoldable pub is_terminal_task_state : Option TaskState → MotionGoalSpec → Bool
unfolding terminal_task_status
is_terminal_task_state state spec = not (is_empty (terminal_task_status state spec))

-- The last action was a `start` of this goal's task.
unfoldable pub is_last_start : TaskState → MotionGoalSpec → Bool
is_last_start state spec =
    lower (strip state.last_action) == "start"
    && state.last_task_id == spec.task_id
    && state.last_trace_id == spec.trace_id
    && state.last_session_id == spec.session_id

unfoldable pub task_start_was_rejected : Option TaskState → MotionGoalSpec → Bool
unfolding is_last_start
task_start_was_rejected none spec = false
task_start_was_rejected (some state) spec =
    is_last_start state spec && not state.last_action_accepted

unfoldable pub task_start_was_accepted : Option TaskState → MotionGoalSpec → Bool
unfolding task_state_has_identity is_last_start
task_start_was_accepted none spec = false
task_start_was_accepted (some state) spec =
    task_state_has_identity (some state) spec
    && state.active
    && is_last_start state spec
    && state.last_action_accepted
    && not (is_empty (strip state.lease_id))
