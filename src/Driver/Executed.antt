-- ===== src/Driver/Executed.antt =====
-- What the command service lets through to the port.
use robot_runtime.Prelude.{
  Bool-cases, List, String, [], false, inl, inr, lower, nat_eq, none, refl, some, string_eq, strip,
  strip-strip, sym, true, ℕ, ◌&&◌, ◌==◌, ◌∙◌, ◌≡◌, ◌≢◌, ◌⊎◌, not,
}
use robot_runtime.Driver.Encoders.{encoder_of}
use robot_runtime.Driver.Execute.{Exchange, Request, handle_execute_command, is_some}
use robot_runtime.Driver.Gated.{
  entries_hold, found_spec, is_motor_mode, is_move, is_stop, lookup_holds, move_no_stop,
  names_cover_frames,
}
use robot_runtime.Driver.Move.{Driver}
use robot_runtime.Driver.Specs.{Spec, lookup, lx_specs, resolve_command, specs_of, zl_specs}
use robot_runtime.Prelude.Int.{pos, ℤ, ◌<ℤ◌}
use robot_runtime.SafetyLatch.Fence.{admit_motion_facts}
use robot_runtime.SafetyLatch.Latch.{
  Latch, admit, admit_motion, admit_protocol_command, ros_time_to_ns,
}
use robot_runtime.SafetyLatch.Names.{is_motion_command, is_stop_command, normalize_protocol_command}

-- The handler strips a command before it resolves it, and the latch sees it as it came.
stripped_name : (command : String) → is_motion_command (strip command) ≡ is_motion_command command
unfolding is_motion_command normalize_protocol_command
stripped_name command = rw (strip-strip command)

stripped_stop : (command : String) → is_stop_command (strip command) ≡ is_stop_command command
unfolding is_stop_command normalize_protocol_command
stripped_stop command = rw (strip-strip command)

pub motion_admitted :
    (command : String) (now stamp : ℤ) (l : Latch)
    → is_stop_command command ≡ false
    → is_motion_command command ≡ true
    → admit_protocol_command command now stamp l ≡ (l, admit_motion stamp l)
unfolding admit_protocol_command admit
motion_admitted command now stamp l no_stop motion = rw (no_stop, motion)

module _ (exchange : List ℕ → ℕ → Spec → Exchange) (now : ℤ) (request : Request) (d : Driver)
    (found : String × Spec)
    (resolved : resolve_command (lower (strip request.protocol)) (strip request.command)
      ≡ some found) where
  names :
      (is_motion_command request.command ≡ is_move found.1 && not (is_motor_mode found.1))
      × (is_stop_command request.command ≡ is_stop found.1)
  names =
      let covered =
        names_cover_frames (lower (strip request.protocol)) (strip request.command) found
          resolved in
      (
        sym (stripped_name request.command) ∙ covered.0,
        sym (stripped_stop request.command) ∙ covered.1,
      )

  -- A command whose frame gives a servo a target, starts a move that waits or continues one that was
  -- paused (so not the motor mode's) goes to the port only when the latch is open and the request's stamp
  -- is behind the stop fence, where there was a stop.
  pub executed_moves_are_admitted :
      (frame : List ℕ)
      → is_move found.1 ≡ true
      → is_motor_mode found.1 ≡ false
      → (handle_execute_command exchange now request d).1.0 ≡ some frame
      → (d.safety_latch.latched ≡ false)
        × ((d.safety_latch.fence_ns ≡ pos 0)
            ⊎ (d.safety_latch.fence_ns <ℤ ros_time_to_ns request.stamp))
  unfolding handle_execute_command
  executed_moves_are_admitted frame move ungeared sent =
      let (motion, stop) = names in
      let no_stop = move_no_stop found.1 move in
      let moves : is_motion_command request.command ≡ true = motion ∙ rw (move, ungeared) refl in
      elim (Bool-cases (admit_motion (ros_time_to_ns request.stamp) d.safety_latch)) [
        | inl admitted ↦ admit_motion_facts (ros_time_to_ns request.stamp) d.safety_latch admitted
        | inr refused ↦ absurd (
            let nothing : none ≡ some frame =
              rw
                (
                  moves,
                  stop ∙ no_stop,
                  motion_admitted request.command now (ros_time_to_ns request.stamp) d.safety_latch
                      (stop ∙ no_stop) moves,
                  refused,
                )
                at sent in
            cc)
      ]

encoders_known :
    (entries_hold (λ name spec. is_some (encoder_of "lx" spec.encode)) lx_specs ≡ true)
    × (entries_hold (λ name spec. is_some (encoder_of "zl" spec.encode)) zl_specs ≡ true)
unfolding entries_hold encoder_of lookup
encoders_known = (refl, refl)

table_encodes :
    (protocol key : String) (specs : List (String × Spec)) (spec : Spec)
    → entries_hold (λ name s. is_some (encoder_of protocol s.encode)) specs ≡ true
    → lookup key specs ≡ some spec
    → encoder_of protocol spec.encode ≢ none
table_encodes protocol key specs spec holds there e =
    let known =
      lookup_holds (λ name s. is_some (encoder_of protocol s.encode)) specs key spec holds there in
    let nothing : false ≡ true = rw e at known in cc

name_encodes :
    (protocol name : String) (spec : Spec)
    → lookup name (specs_of protocol) ≡ some spec
    → encoder_of protocol spec.encode ≢ none
unfolding specs_of
name_encodes protocol name spec there = elim (Bool-cases (protocol == "lx")) [
  | inl lx ↦
      let same = (string_eq.beq_iff protocol "lx").0 lx in
      rw same (table_encodes "lx" name lx_specs spec encoders_known.0 (rw lx at there))
  | inr no_lx ↦ elim (Bool-cases (protocol == "zl")) [
    | inl zl ↦
        let same = (string_eq.beq_iff protocol "zl").0 zl in
        rw same (table_encodes "zl" name zl_specs spec encoders_known.1 (rw (no_lx, zl) at there))
    | inr no_zl ↦ absurd (no_entry name spec (rw (no_lx, no_zl) at there))
  ]
]
  where
    no_entry : (k : String) (s : Spec) → ¬ (lookup k [] ≡ some s)
    no_entry k s e = unfold lookup in cc

-- Every command that resolves, under either protocol, has a method that encodes it.
pub resolved_commands_encode :
    (protocol command : String) (found : String × Spec)
    → resolve_command protocol command ≡ some found
    → encoder_of protocol found.1.encode ≢ none
unfolding resolve_command
resolved_commands_encode protocol command found h =
    name_encodes protocol _ found.1 (found_spec _ _ found h)
