-- ===== src/Manager/Kept.antt =====
-- Every step of the node keeps the ownership of the stop operations.
use robot_runtime.Prelude.{
  Bool, Bool-cases, arith, contains, inl, inr, lower, nat_eq, not, refl, string_eq, strip, true, ℕ,
  ◌==◌, ◌||◌,
}
use robot_runtime.Arbitrator.Estop.{set_estop, tick}
use robot_runtime.Arbitrator.State.{Config, Source}
use robot_runtime.Arbitrator.TaskControl.{validate_task_operation}
use robot_runtime.Manager.Blocked.{
  Leaves, Owned, Leaves-Owned, owned, register-Owned, resume-Owned, spawn-Owned,
}
use robot_runtime.Manager.Commands.{MotionCommand, motion_command_to_setpoint}
use robot_runtime.Manager.Feedback.{DriverState, servo_state_to_feedback}
use robot_runtime.Manager.Handlers.{
  TaskRequest, arbitrate_command, begin_read, handle_command, handle_driver_state,
  handle_task_control, handle_teleop_control, know_bus_actuator,
}
use robot_runtime.Manager.Operations.{
  StopRequest, begin_estop, begin_lift, begin_stop_actuators, has_fault, publish_safety,
}
use robot_runtime.Manager.Owners.{owner}
use robot_runtime.Manager.Published.{publish_state}
use robot_runtime.Manager.Service.{no_items}
use robot_runtime.Manager.State.{
  Manager, has_operations, new_manager, next_driver_safety_stamp, register_stop_operation,
}
use robot_runtime.Manager.System.{
  Reaches, Step, System, after, at_start, command, commanded, driver_state, estop, estop_pressed,
  lift, lift_asked, new_system, publishing, read_position, group_resumed, resume, resume_group,
  resumed, stop, stop_asked, task_control, teleop_control,
}
use robot_runtime.Prelude.Int.{int_eq}
use robot_runtime.SafetyLatch.Latch.{Time}

pub command-Leaves :
    (source : Source) (now : ℕ) (stamp : Time) (msg : MotionCommand) (m : Manager)
    → Leaves m (handle_command source now stamp msg m).0
unfolding handle_command know_bus_actuator
command-Leaves source now stamp msg m =
    elim (Bool-cases ((arbitrate_command source now msg m).0.accepted)) [
      | inl ok ↦
          rw ok (elim (Bool-cases ((motion_command_to_setpoint msg).actuator_type == "bus")) [
            | inl bus ↦ rw bus (record { next_id = refl; active = refl; fault = refl })
            | inr other ↦ rw other (record { next_id = refl; active = refl; fault = refl })
          ])
      | inr refused ↦ rw refused (record { next_id = refl; active = refl; fault = refl })
    ]

pub driver_state-Leaves : (msg : DriverState) (m : Manager) → Leaves m (handle_driver_state msg m).0
unfolding handle_driver_state know_bus_actuator
driver_state-Leaves msg m =
    elim (Bool-cases ((servo_state_to_feedback msg).actuator_type == "bus")) [
      | inl bus ↦ rw bus (record { next_id = refl; active = refl; fault = refl })
      | inr other ↦ rw other (record { next_id = refl; active = refl; fault = refl })
    ]

pub read-Leaves :
    (now : ℕ) (ready : Bool) (request : TaskRequest) (m : Manager)
    → Leaves m (begin_read now ready request m).0
unfolding begin_read
read-Leaves now ready request m = record {
  next_id = ground arith;
  active = ground arith;
  fault = ground arith;
}

estop-Owned :
    (now : ℕ) (s : System)
    → Owned s.manager s.tasks
    → Owned (estop_pressed now s).manager (estop_pressed now s).tasks
unfolding estop_pressed begin_estop register_stop_operation owner
estop-Owned now s v = elim (Bool-cases (no_items s.manager.known_bus_actuator_ids)) [
  | inl none_known ↦ rw none_known (spawn-Owned s.manager _ s.tasks refl v)
  | inr some_known ↦ rw some_known (
      register-Owned
        (record s.manager { arbitrator = set_estop true now "estop" s.manager.arbitrator }) _
        s.tasks refl v)
]

lift-Owned :
    (now : ℕ) (s : System)
    → Owned s.manager s.tasks
    → Owned (lift_asked now s).manager (lift_asked now s).tasks
unfolding lift_asked begin_lift register_stop_operation owner
lift-Owned now s v =
    elim (Bool-cases (
      not (tick now s.manager.arbitrator).estop_active
      || has_fault s.manager
      || has_operations s.manager)) [
        | inl idle ↦ rw idle v
        | inr ready ↦ rw ready (
            register-Owned (record s.manager { arbitrator = tick now s.manager.arbitrator }) _
              s.tasks refl v)
      ]

stop-Owned :
    (now : ℕ) (request : StopRequest) (s : System)
    → Owned s.manager s.tasks
    → Owned (stop_asked now request s).manager (stop_asked now request s).tasks
unfolding stop_asked begin_stop_actuators register_stop_operation owner
stop-Owned now request s v =
    elim (Bool-cases (not (lower (strip request.actuator_type) == "bus"))) [
      | inl other ↦ rw other v
      | inr bus ↦ rw bus (elim (Bool-cases (no_items request.actuator_ids)) [
        | inl none_named ↦ rw none_named v
        | inr some_named ↦
            rw some_named
              (elim (Bool-cases (
                not
                  (validate_task_operation now request.identity request.lease_id
                    s.manager.arbitrator).0.accepted)) [
                      | inl refused ↦ rw refused v
                      | inr valid ↦ rw valid (
                          register-Owned
                            (record s.manager {
                              arbitrator =
                                  (validate_task_operation now request.identity request.lease_id
                                    s.manager.arbitrator).1;
                            })
                            _ s.tasks refl v)
                    ])
      ])
    ]

Step-Owned : (s t : System) → Step s t → Owned s.manager s.tasks → Owned t.manager t.tasks
unfolding commanded group_resumed resumed handle_teleop_control handle_task_control publish_state
Step-Owned _ _ (command s source now stamp msg idle) v =
    Leaves-Owned s.manager _ s.tasks (command-Leaves source now stamp msg s.manager) v
Step-Owned _ _ (teleop_control s action now r l idle) v = v
Step-Owned _ _ (task_control s action now i l idle) v = v
Step-Owned _ _ (driver_state s msg idle) v =
    Leaves-Owned s.manager _ s.tasks (driver_state-Leaves msg s.manager) v
Step-Owned _ _ (read_position s now ready request) v =
    Leaves-Owned s.manager _ s.tasks (read-Leaves now ready request s.manager) v
Step-Owned _ _ (publishing s now idle) v = v
Step-Owned _ _ (estop s now idle) v = estop-Owned now s v
Step-Owned _ _ (lift s now idle) v = lift-Owned now s v
Step-Owned _ _ (stop s now request) v = stop-Owned now request s v
Step-Owned _ _ (resume s point others env p) v = resume-Owned s.manager point s.tasks others env p v
Step-Owned _ _ (resume_group s point others env p mine) v =
    resume-Owned s.manager point s.tasks others env p v

new-Owned :
    (config : Config) (start_ns : ℕ)
    → Owned (new_system config start_ns).manager (new_system config start_ns).tasks
unfolding new_system publish_safety next_driver_safety_stamp new_manager contains owned
new-Owned config start_ns = record {
  once = λ id. omega arith;
  fresh = λ id h. refl;
  old = λ id h. cc;
  orphan = inl refl;
}

pub reach-Owned :
    (config : Config) (start_ns : ℕ) (s : System)
    → Reaches (new_system config start_ns) s
    → Owned s.manager s.tasks
reach-Owned config start_ns _ at_start = new-Owned config start_ns
reach-Owned config start_ns _ (after s t r move) =
    Step-Owned s t move (reach-Owned config start_ns s r)
