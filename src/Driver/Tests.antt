-- ===== src/Driver/Tests.antt =====
-- The driver's theorems at concrete messages.
use robot_runtime.Prelude.{
  List, String, [], contains, false, inl, lower, nat_eq, none, refl, some, string_eq, strip, ℕ, ◌∷◌,
  ◌≡◌, ◌⊎◌, ◌&&◌, not,
}
use robot_runtime.Driver.Encoders.{encoder_of}
use robot_runtime.Driver.Execute.{
  Exchange, Request, answered, handle_execute_command, handle_unlocked, is_protocol, run_command,
}
use robot_runtime.Driver.Executed.{executed_moves_are_admitted}
use robot_runtime.Driver.Gated.{is_motor_mode, is_move, is_stop, names_cover_frames}
use robot_runtime.Driver.Move.{
  Driver, ServoCommand, allows, is_allowed_id, is_bus_command, on_lx_command,
}
use robot_runtime.Driver.Moved.{IsSafeLx, lx_move_is_sent, lx_moves_are_safe, sent_of}
use robot_runtime.Driver.Specs.{Spec, resolve_command, writes}
use robot_runtime.Lx.Encode.{encode_move_command}
use robot_runtime.Prelude.Int.{pos, ◌<ℤ◌}
use robot_runtime.SafetyLatch.Latch.{Latch, admit_protocol_command, ros_time_to_ns}
use robot_runtime.SafetyLatch.Names.{is_motion_command, is_stop_command}

abbrev open_latch : Latch
open_latch = record { latched = false; fence_ns = pos 0; last_authority_ns = pos 0 }

abbrev driver : Driver
driver = record {
  zl_servo_ids = 35 ∷ [];
  lx_servo_ids = 21 ∷ 22 ∷ [];
  default_speed = pos 100;
  safety_latch = open_latch;
}

abbrev message : ServoCommand
message = record {
  servo_type = "bus";
  servo_id = 21;
  position = pos 1500;
  speed = pos 200;
  stamp = none;
}

message_is_sent : on_lx_command message driver ≡ some (sent_of message (pos 1500) (pos 200))
unfolding is_bus_command is_allowed_id allows contains strip lower
message_is_sent = lx_move_is_sent message driver refl refl refl (inl refl)

lx_moves_are_safe_example : IsSafeLx driver message (sent_of message (pos 1500) (pos 200))
lx_moves_are_safe_example =
    lx_moves_are_safe message driver (sent_of message (pos 1500) (pos 200)) message_is_sent

abbrev move_found : String × Spec
move_found = ("move_command", writes "encode_move_command")

move_resolves : resolve_command "lx" "Servo-Move" ≡ some move_found
unfolding resolve_command
move_resolves = refl

names_cover_frames_example :
    (is_motion_command "Servo-Move" ≡ is_move move_found.1 && not (is_motor_mode move_found.1))
    × (is_stop_command "Servo-Move" ≡ is_stop move_found.1)
names_cover_frames_example = names_cover_frames "lx" "Servo-Move" move_found move_resolves

abbrev no_answer : List ℕ → ℕ → Spec → Exchange
no_answer frame id spec = answered [] none

abbrev move_request : Request
move_request = record {
  servo_id = 21;
  protocol = " LX";
  command = "Servo-Move";
  params = pos 500 ∷ pos 100 ∷ [];
  stamp = none;
}

request_resolves : resolve_command (lower (strip " LX")) (strip "Servo-Move") ≡ some move_found
unfolding resolve_command
request_resolves = refl

executed_moves_are_admitted_example :
    (driver.safety_latch.latched ≡ false)
    × ((driver.safety_latch.fence_ns ≡ pos 0)
        ⊎ (driver.safety_latch.fence_ns <ℤ ros_time_to_ns move_request.stamp))
unfolding handle_execute_command is_move is_motor_mode is_stop_command is_motion_command
    admit_protocol_command handle_unlocked is_protocol is_allowed_id resolve_command run_command
    encoder_of
executed_moves_are_admitted_example =
    executed_moves_are_admitted no_answer (pos 7) move_request driver move_found request_resolves
      (encode_move_command (pos 21) (pos 500) (pos 100)) refl refl refl

abbrev stop_found : String × Spec
stop_found = ("move_stop", writes "encode_move_stop")

abbrev stop_request : Request
stop_request = record {
  servo_id = 99;
  protocol = "lx";
  command = "move stop";
  params = pos 1 ∷ [];
  stamp = none;
}
