-- ===== src/Manager/Ranked.antt =====
-- The stamps of driver safety, through the steps of the node.
use robot_runtime.Prelude.{
  All, All-map, List, Option, arith, nat_eq, none, refl, some, string_eq, ℕ, ◌≡◌, ◌≤◌,
}
use robot_runtime.Arbitrator.State.{Config}
use robot_runtime.Manager.Handlers.{
  begin_read, handle_command, handle_driver_state, handle_task_control, handle_teleop_control,
  know_bus_actuator,
}
use robot_runtime.Manager.Operations.{
  Env, Point, advance, begin_estop, begin_lift, begin_stop_actuators, publish_safety,
}
use robot_runtime.Manager.Published.{publish_state}
use robot_runtime.Manager.State.{
  DriverSafetyState, new_manager, next_driver_safety_stamp, register_stop_operation,
}
use robot_runtime.Manager.System.{
  Picks, Reaches, Step, System, after, at_start, command, commanded, driver_state, estop,
  estop_pressed, here, lift, lift_asked, log, new_system, point_of, publishing, read_position,
  group_resumed, resume, resume_group, resumed, spawn, stop, stop_asked, task_control,
  teleop_control, there,
}
use robot_runtime.Prelude.Int.{int_eq}
use native.Mathlib.Nat.{le_trans}
use robot_runtime.Manager.Stamps.{
  kept_stamp, IsRanked, Ranked, next_stamp, told_stamp, advance-Ranks,
}

kept_mono :
    (a b : ℕ) (tasks : List Point)
    → a ≤ b
    → All (λ p. kept_stamp p ≤ a) tasks
    → All (λ p. kept_stamp p ≤ b) tasks
kept_mono a b tasks h v = All-map (λ p k. le_trans k h) tasks v

told_mono :
    (a b : ℕ) (messages : List DriverSafetyState)
    → a ≤ b
    → All (λ m. m.stamp_ns ≤ a) messages
    → All (λ m. m.stamp_ns ≤ b) messages
told_mono a b messages h v = All-map (λ m k. le_trans k h) messages v

kept_spawn :
    (last : ℕ) (next : Option Point) (tasks : List Point)
    → next_stamp next ≤ last
    → All (λ p. kept_stamp p ≤ last) tasks
    → All (λ p. kept_stamp p ≤ last) (spawn next tasks)
kept_spawn last none tasks h v = v
kept_spawn last (some point) tasks h v = (h, v)

told_log :
    (last : ℕ) (next : Option DriverSafetyState) (messages : List DriverSafetyState)
    → told_stamp next ≤ last
    → All (λ m. m.stamp_ns ≤ last) messages
    → All (λ m. m.stamp_ns ≤ last) (log next messages)
told_log last none messages h v = v
told_log last (some message) messages h v = (h, v)

picks-All {ℓ} :
    (P : Point → Type ℓ) (point : Point) (tasks others : List Point)
    → Picks point tasks others
    → All P tasks
    → P point × All P others
picks-All P point _ _ (here others) v = v
picks-All P point _ _ (there first tasks others p) v =
    let (mine, rest) = picks-All P point tasks others p v.1 in (mine, (v.0, rest))

resume-Ranked :
    (s : System) (point : Point) (others : List Point) (env : Env)
    → Picks point s.tasks others
    → Ranked s
    → Ranked (resumed others point env s)
unfolding resumed
resume-Ranked s point others env p v =
    let (mine, rest) =
      picks-All (λ q. kept_stamp q ≤ s.manager.last_driver_safety_stamp_ns) point s.tasks others p
        v.kept in
    let r = advance-Ranks s.manager point env mine in
    record {
      kept =
          kept_spawn _ (advance point env s.manager).next others r.next
            (kept_mono _ _ others r.grows rest);
      told =
          told_log _ (advance point env s.manager).published s.safety_log r.message
            (told_mono _ _ s.safety_log r.grows v.told);
    }

spawn-Ranked :
    (last later : ℕ) (next : Option Point) (tasks : List Point) (messages : List DriverSafetyState)
    → later ≡ last
    → next_stamp next ≡ 0
    → IsRanked last tasks messages
    → IsRanked later (spawn next tasks) messages
spawn-Ranked last later next tasks messages same fresh v = record {
  kept = kept_spawn later next tasks (omega arith) (rw same v.kept);
  told = rw same v.told;
}

Step-Ranked : (s t : System) → Step s t → Ranked s → Ranked t
unfolding group_resumed commanded handle_command know_bus_actuator estop_pressed begin_estop
    lift_asked begin_lift stop_asked begin_stop_actuators register_stop_operation
    handle_teleop_control handle_task_control publish_state handle_driver_state begin_read
    kept_stamp
Step-Ranked _ _ (command s source now stamp msg idle) v =
    spawn-Ranked _ _ none s.tasks s.safety_log (ground arith) refl v
Step-Ranked _ _ (teleop_control s action now r l idle) v = v
Step-Ranked _ _ (task_control s action now i l idle) v = v
Step-Ranked _ _ (driver_state s msg idle) v =
    spawn-Ranked _ _ none s.tasks s.safety_log (ground arith) refl v
Step-Ranked _ _ (read_position s now ready request) v =
    spawn-Ranked _ _ none s.tasks s.safety_log (ground arith) refl v
Step-Ranked _ _ (publishing s now idle) v = v
Step-Ranked _ _ (estop s now idle) v =
    spawn-Ranked _ _ (some (begin_estop now s.manager).1) s.tasks s.safety_log (ground arith)
      (ground arith) v
Step-Ranked _ _ (lift s now idle) v =
    spawn-Ranked _ _ (begin_lift now s.manager).1 s.tasks s.safety_log (ground arith) (ground arith)
      v
Step-Ranked _ _ (stop s now request) v =
    spawn-Ranked _ _ (point_of (begin_stop_actuators now request s.manager).1) s.tasks s.safety_log
      (ground arith) (ground arith) v
Step-Ranked _ _ (resume s point others env p) v = resume-Ranked s point others env p v
Step-Ranked _ _ (resume_group s point others env p mine) v = resume-Ranked s point others env p v

new-Ranked : (config : Config) (start_ns : ℕ) → Ranked (new_system config start_ns)
unfolding new_system publish_safety next_driver_safety_stamp new_manager
new-Ranked config start_ns = record { kept = tt; told = (omega arith, tt) }

pub reach-Ranked :
    (config : Config) (start_ns : ℕ) (s : System)
    → Reaches (new_system config start_ns) s
    → Ranked s
reach-Ranked config start_ns _ at_start = new-Ranked config start_ns
reach-Ranked config start_ns _ (after s t r move) =
    Step-Ranked s t move (reach-Ranked config start_ns s r)
