-- ===== src/Manager/Held.antt =====
-- Commands while stop operations are active, and after one has failed.
use robot_runtime.Prelude.{
  Bool-cases, List, Option, String, ◌≢◌, ℕ, [], ap, arith, contains, false, inl, inr, is_empty,
  nat_eq, none, not, refl, some, string_eq, strip, sym, true, ◌∙◌, ◌∷◌, ◌≡◌,
}
use robot_runtime.Arbitrator.Admission.{MayCommand, receive_iff}
use robot_runtime.Arbitrator.Command.{receive, reject_outside}
use robot_runtime.Arbitrator.Replies.{reject}
use robot_runtime.Arbitrator.State.{Config, Source}
use robot_runtime.Driver.Move.{ServoCommand}
use robot_runtime.Manager.Commands.{MotionCommand, motion_command_to_setpoint, to_servo_command}
use robot_runtime.Manager.Faults.{advance-Faults, release_text, stop_text}
use robot_runtime.Manager.Owners.{owner}
use robot_runtime.Manager.Stopping.{stop_driver_actuators}
use robot_runtime.Manager.Handlers.{
  arbitrate_command, handle_command, handle_task_control, handle_teleop_control,
}
use robot_runtime.Manager.Operations.{
  Env, Point, advance, announced, announcing, awaiting_lift, awaiting_release, conclude_stop,
  end_finish, end_lift, fault_announced, fault_announcing, finishing, latch_stop_fault, lifting,
  release_outcome, requesting, stopping, begin_estop, begin_lift, begin_stop_actuators,
}
use robot_runtime.Manager.Published.{publish_state}
use robot_runtime.Manager.Service.{no_items, stop_summary}
use robot_runtime.Manager.State.{Manager, has_operations, register_stop_operation}
use robot_runtime.Manager.System.{
  Reaches, Step, System, after, at_start, command, commanded, driver_state, estop, estop_pressed,
  lift, lift_asked, new_system, publishing, read_position, group_resumed, resume, resume_group,
  resumed, stop, stop_asked, task_control, teleop_control,
}
use robot_runtime.Prelude.Int.{int_eq, pos}
use robot_runtime.SafetyLatch.Latch.{Time}
use robot_runtime.Manager.Kept.{command-Leaves, driver_state-Leaves, read-Leaves, reach-Owned}

-- A fault stays.
stays_faulty :
    (s t : System)
    → Step s t
    → is_empty s.manager.latched_stop_fault_reason ≡ false
    → is_empty t.manager.latched_stop_fault_reason ≡ false
unfolding commanded group_resumed resumed estop_pressed begin_estop lift_asked begin_lift stop_asked
    begin_stop_actuators register_stop_operation handle_teleop_control handle_task_control
    publish_state
stays_faulty _ _ (command s source now stamp msg idle) h =
    rw (command-Leaves source now stamp msg s.manager).fault h
stays_faulty _ _ (teleop_control s action now r l idle) h = h
stays_faulty _ _ (task_control s action now i l idle) h = h
stays_faulty _ _ (driver_state s msg idle) h = rw (driver_state-Leaves msg s.manager).fault h
stays_faulty _ _ (read_position s now ready request) h =
    rw (read-Leaves now ready request s.manager).fault h
stays_faulty _ _ (publishing s now idle) h = h
stays_faulty _ _ (estop s now idle) h = ground arith
stays_faulty _ _ (lift s now idle) h = ground arith
stays_faulty _ _ (stop s now request) h = ground arith
stays_faulty _ _ (resume s point others env p) h = elim (advance-Faults s.manager point env) [
  | inl same ↦ rw same h
  | inr (id, own, active, ended, text) ↦ text
]
stays_faulty _ _ (resume_group s point others env p mine) h =
    elim (advance-Faults s.manager point env) [
      | inl same ↦ rw same h
      | inr (id, own, active, ended, text) ↦ text
    ]

later_faulty :
    (s t : System)
    → Reaches s t
    → is_empty s.manager.latched_stop_fault_reason ≡ false
    → is_empty t.manager.latched_stop_fault_reason ≡ false
later_faulty s _ at_start h = h
later_faulty s _ (after t u r move) h = stays_faulty t u move (later_faulty s t r h)

reach_on : (a s t : System) → Reaches a s → Reaches s t → Reaches a t
reach_on a s _ r at_start = r
reach_on a s _ r (after t u q move) = after t u (reach_on a s t r q) move

held_back :
    (source : Source) (now : ℕ) (stamp : Time) (msg : MotionCommand) (m : Manager)
    → has_operations m ≡ true
    → (handle_command source now stamp msg m).1 ≡ none
unfolding handle_command arbitrate_command reject_outside reject
held_back source now stamp msg m h = rw h refl

has_member : (id : ℕ) (ids : List ℕ) → contains id ids ≡ true → not (no_items ids) ≡ true
unfolding contains
has_member id [] h = cc
has_member id (x ∷ xs) h = refl

empty_of : (ids : List ℕ) → not (no_items ids) ≡ false → ids ≡ []
empty_of [] h = refl
empty_of (x ∷ xs) h = cc

faulty_holds_back :
    (config : Config) (start_ns : ℕ) (s t : System) (source : Source) (now : ℕ) (stamp : Time)
    (msg : MotionCommand)
    → Reaches (new_system config start_ns) s
    → is_empty s.manager.latched_stop_fault_reason ≡ false
    → Reaches s t
    → (handle_command source now stamp msg t.manager).1 ≡ none
faulty_holds_back config start_ns s t source now stamp msg r fault q =
    let v = reach-Owned config start_ns t (reach_on _ s t r q) in
    let k = later_faulty s t q fault in
    held_back source now stamp msg t.manager (elim v.orphan [
      | inl clean ↦ absurd (let bad : false ≡ true = sym k ∙ clean in cc)
      | inr (id, active, alone) ↦ has_member id t.manager.active_stop_operation_ids active
    ])

-- The section finds that not all stop commands were written, or that a release has failed.
abbrev pub IsFailure : Point → Env → Type 0
IsFailure (stopping id ids) env =
    (stop_summary ids (stop_driver_actuators env.contacts).0).stop_command_sent ≡ false
IsFailure (awaiting_release id stamp) env = release_outcome env ≢ none
IsFailure (awaiting_lift id stamp) env = release_outcome env ≢ none
IsFailure _ env = ⊥

module _ (id : ℕ) (env : Env) (m : Manager)
    (active : contains id m.active_stop_operation_ids ≡ true) where
  latched :
      (reason : String)
      → is_empty reason ≡ false
      → is_empty (latch_stop_fault id reason env.now m).manager.latched_stop_fault_reason ≡ false
  unfolding latch_stop_fault
  latched reason text = rw active text

  conclude_latches :
      (ids : List ℕ)
      → IsFailure (stopping id ids) env
      → is_empty (conclude_stop id ids env m).manager.latched_stop_fault_reason ≡ false
  unfolding conclude_stop
  conclude_latches ids failed =
      rw failed (latched _ (stop_text (stop_driver_actuators env.contacts).1))

  finish_latches :
      (outcome : Option String) (stamp : ℕ)
      → ((reason : String) → outcome ≡ some reason → is_empty reason ≡ false)
      → outcome ≢ none
      → is_empty (end_finish outcome id stamp env.now m).manager.latched_stop_fault_reason ≡ false
  unfolding end_finish
  finish_latches none stamp text failed = absurd (failed refl)
  finish_latches (some reason) stamp text failed = latched reason (text reason refl)

  lift_latches :
      (outcome : Option String) (stamp : ℕ)
      → ((reason : String) → outcome ≡ some reason → is_empty reason ≡ false)
      → outcome ≢ none
      → is_empty (end_lift outcome id stamp env.now m).manager.latched_stop_fault_reason ≡ false
  unfolding end_lift
  lift_latches none stamp text failed = absurd (failed refl)
  lift_latches (some reason) stamp text failed = latched reason (text reason refl)

same_id : (own id : ℕ) → some own ≡ some id → id ≡ own
same_id own id h = cc

failure_latches :
    (point : Point) (id : ℕ) (env : Env) (m : Manager)
    → owner point ≡ some id
    → contains id m.active_stop_operation_ids ≡ true
    → IsFailure point env
    → is_empty (advance point env m).manager.latched_stop_fault_reason ≡ false
unfolding advance owner
failure_latches (stopping own ids) id env m own_is active failed =
    conclude_latches own env m (rw (same_id own id own_is) at active) ids failed
failure_latches (awaiting_release own stamp) id env m own_is active failed =
    finish_latches own env m (rw (same_id own id own_is) at active) (release_outcome env) stamp
      (release_text m env) failed
failure_latches (awaiting_lift own stamp) id env m own_is active failed =
    lift_latches own env m (rw (same_id own id own_is) at active) (release_outcome env) stamp
      (release_text m env) failed
failure_latches (announcing own reason ids) id env m own_is active failed = absurd failed
failure_latches (announced own reason ids stamp) id env m own_is active failed = absurd failed
failure_latches (finishing own) id env m own_is active failed = absurd failed
failure_latches (requesting own) id env m own_is active failed = absurd failed
failure_latches (fault_announcing reason) id env m own_is active failed = absurd failed
failure_latches (fault_announced reason stamp) id env m own_is active failed = absurd failed
failure_latches (lifting own) id env m own_is active failed = absurd failed

-- When the coroutine of an active stop operation finds that not all stop commands were written, or that a
-- release of driver safety has failed, then after that section no command is passed on to the drivers
-- ever again, whatever callbacks and coroutines run, in any order.
pub fault_is_final :
    (config : Config) (start_ns : ℕ) (s u t : System) (point : Point) (id : ℕ) (env : Env)
    (source : Source) (now : ℕ) (stamp : Time) (msg : MotionCommand)
    → Reaches (new_system config start_ns) s
    → owner point ≡ some id
    → contains id s.manager.active_stop_operation_ids ≡ true
    → IsFailure point env
    → Step s u
    → u.manager ≡ (advance point env s.manager).manager
    → Reaches u t
    → (handle_command source now stamp msg t.manager).1 ≡ none
fault_is_final config start_ns s u t point id env source now stamp msg r own active failed move
      section q =
    faulty_holds_back config start_ns u t source now stamp msg (after s u r move)
      (rw section (failure_latches point id env s.manager own active failed)) q

-- A command is passed on only while no stop operation is active, and only when the arbitrator admits it,
-- which leaves out any emergency stop; it names the servo and the position of the request, and bears the
-- node's own stamp.
pub commands_pass_gates :
    (source : Source) (now : ℕ) (stamp : Time) (msg : MotionCommand) (m : Manager)
    (sent : ServoCommand)
    → (handle_command source now stamp msg m).1 ≡ some sent
    → (m.active_stop_operation_ids ≡ [])
      × MayCommand source now (strip msg.requester_id) (strip msg.lease_id) m.arbitrator
      × (sent.servo_id ≡ msg.servo_id)
      × (sent.position ≡ pos msg.position)
      × (sent.stamp ≡ some stamp)
unfolding handle_command arbitrate_command motion_command_to_setpoint to_servo_command
commands_pass_gates source now stamp msg m sent h = elim (Bool-cases (has_operations m)) [
  | inl busy ↦
      absurd
        (let nothing : none ≡ some sent = sym (held_back source now stamp msg m busy) ∙ h in cc)
  | inr free ↦
      elim (Bool-cases
        (receive source now (strip msg.requester_id) (strip msg.lease_id)
          m.arbitrator).0.accepted) [
            | inl ok ↦
                let found : some (to_servo_command (motion_command_to_setpoint msg) (some stamp))
                    ≡ some sent =
                  rw (free, ok) at h in
                let same : to_servo_command (motion_command_to_setpoint msg) (some stamp) ≡ sent =
                  cc in
                (
                  empty_of m.active_stop_operation_ids free,
                  (receive_iff source now (strip msg.requester_id) (strip msg.lease_id)
                        m.arbitrator).0
                      ok,
                  sym (ap (λ c. c.servo_id) same),
                  sym (ap (λ c. c.position) same),
                  sym (ap (λ c. c.stamp) same),
                )
            | inr refused ↦ absurd (let nothing : none ≡ some sent = rw (free, refused) at h in cc)
          ]
]
