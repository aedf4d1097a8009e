-- ===== src/Manager/System.antt =====
-- The node as a whole: its fields, the coroutines that wait, and what it has published. Four threads run
-- the callbacks, so sections that hold the lock come in any order; each is a step. What is published is
-- logged, the newest first.
--
-- The services have a callback group that may run any number of callbacks at once. The topics and the
-- timer have the node's default group, which runs one callback at a time, a coroutine to its end: while
-- the coroutine of `_handle_estop` waits, none of the others starts.
use robot_runtime.Prelude.{
  Bool, List, Option, String, [], false, inl, inr, none, some, ℕ, ◌∷◌, ◌≡◌, ◌⊎◌,
}
use robot_runtime.Arbitrator.State.{Config, Identity, Source}
use robot_runtime.Driver.Move.{ServoCommand}
use robot_runtime.Manager.Commands.{MotionCommand}
use robot_runtime.Manager.Feedback.{DriverState}
use robot_runtime.Manager.Handlers.{
  TaskRequest, begin_read, handle_command, handle_driver_state, handle_task_control,
  handle_teleop_control,
}
use robot_runtime.Manager.Operations.{
  Env, Point, StopRequest, advance, begin_estop, begin_lift, begin_stop_actuators, publish_safety,
}
use robot_runtime.Manager.Published.{publish_state}
use robot_runtime.Manager.Service.{StopSummary}
use robot_runtime.Manager.State.{DriverSafetyState, Manager, new_manager, next_driver_safety_stamp}
use robot_runtime.SafetyLatch.Latch.{Time}

pub record System : Type 0 where
  pub manager : Manager
  pub tasks : List Point
  pub group_task : Option Point
  pub safety_log : List DriverSafetyState
  pub command_log : List ServoCommand

abbrev pub log {ℓ} : {A : Type ℓ} → Option A → List A → List A
log none entries = entries
log (some entry) entries = entry ∷ entries

abbrev pub spawn : Option Point → List Point → List Point
spawn none tasks = tasks
spawn (some point) tasks = point ∷ tasks

-- At the start the node publishes that driver safety is not active.
unfoldable pub new_system : Config → ℕ → System
unfolding publish_safety
new_system config now_ns =
    let (stamped, stamp) = next_driver_safety_stamp now_ns (new_manager config) in
    let started = publish_safety false "" stamp none stamped in
    record {
      manager = started.manager;
      tasks = [];
      group_task = none;
      safety_log = log started.published [];
      command_log = [];
    }

unfoldable pub commanded : Source → ℕ → Time → MotionCommand → System → System
commanded source now stamp msg s =
    let (m, sent) = handle_command source now stamp msg s.manager in
    record s { manager = m; command_log = log sent s.command_log }

unfoldable pub estop_pressed : ℕ → System → System
estop_pressed now s =
    let (m, point) = begin_estop now s.manager in
    record s { manager = m; tasks = point ∷ s.tasks; group_task = some point }

unfoldable pub lift_asked : ℕ → System → System
lift_asked now s =
    let (m, point) = begin_lift now s.manager in
    record s { manager = m; tasks = spawn point s.tasks; group_task = point }

abbrev pub point_of : StopSummary ⊎ Point → Option Point
point_of (inl refused) = none
point_of (inr point) = some point

unfoldable pub stop_asked : ℕ → StopRequest → System → System
stop_asked now request s =
    let (m, begun) = begin_stop_actuators now request s.manager in
    record s { manager = m; tasks = spawn (point_of begun) s.tasks }

unfoldable pub resumed : List Point → Point → Env → System → System
resumed others point env s =
    let moved = advance point env s.manager in
    record {
      manager = moved.manager;
      tasks = spawn moved.next others;
      group_task = s.group_task;
      safety_log = log moved.published s.safety_log;
      command_log = s.command_log;
    }

-- The same for the coroutine that the default group waits for.
unfoldable pub group_resumed : List Point → Point → Env → System → System
unfolding resumed
group_resumed others point env s = record (resumed others point env s) {
  group_task = (advance point env s.manager).next;
}

-- The list is `point` beside `others`, in some order.
pub data Picks (point : Point) : List Point → List Point → Type 0 where
  here : (others : List Point) → Picks point (point ∷ others) others
  there :
      (first : Point) (tasks others : List Point)
      → Picks point tasks others
      → Picks point (first ∷ tasks) (first ∷ others)

pub data Step : System → System → Type 0 where
  command :
      (s : System) (source : Source) (now : ℕ) (stamp : Time) (msg : MotionCommand)
      → s.group_task ≡ none
      → Step s (commanded source now stamp msg s)
  teleop_control :
      (s : System) (action : String) (now : ℕ) (requester_id lease_id : String)
      → s.group_task ≡ none
      → Step s
          (record s { manager = handle_teleop_control action now requester_id lease_id s.manager })
  task_control :
      (s : System) (action : String) (now : ℕ) (identity : Identity) (lease_id : String)
      → s.group_task ≡ none
      → Step s (record s { manager = handle_task_control action now identity lease_id s.manager })
  driver_state :
      (s : System) (msg : DriverState)
      → s.group_task ≡ none
      → Step s (record s { manager = (handle_driver_state msg s.manager).0 })
  read_position :
      (s : System) (now : ℕ) (ready : Bool) (request : TaskRequest)
      → Step s (record s { manager = (begin_read now ready request s.manager).0 })
  publishing :
      (s : System) (now : ℕ)
      → s.group_task ≡ none
      → Step s (record s { manager = (publish_state now s.manager).0 })
  estop : (s : System) (now : ℕ) → s.group_task ≡ none → Step s (estop_pressed now s)
  lift : (s : System) (now : ℕ) → s.group_task ≡ none → Step s (lift_asked now s)
  stop : (s : System) (now : ℕ) (request : StopRequest) → Step s (stop_asked now request s)
  resume :
      (s : System) (point : Point) (others : List Point) (env : Env)
      → Picks point s.tasks others
      → Step s (resumed others point env s)
  resume_group :
      (s : System) (point : Point) (others : List Point) (env : Env)
      → Picks point s.tasks others
      → s.group_task ≡ some point
      → Step s (group_resumed others point env s)

pub data Reaches (start : System) : System → Type 0 where
  at_start : Reaches start start
  after : (s t : System) → Reaches start s → Step s t → Reaches start t
