-- ===== src/Teleop/Driven.antt =====
-- From a message of a client to the servo command that the execution manager sends.
use mathlib.Core.Option
use robot_runtime.Teleop.Allowed.{bridge_agrees}
use robot_runtime.Driver.Move.{ServoCommand}
use robot_runtime.Teleop.Formats.{parse_servo_control}
use robot_runtime.SafetyLatch.Latch.{Time}
use robot_runtime.Manager.Published.{publish_state}
use robot_runtime.Manager.State.{Manager}
use robot_runtime.Manager.Handlers.{handle_command, arbitrate_command}
use robot_runtime.Arbitrator.Estop.{snapshot}
use robot_runtime.Arbitrator.Refreshed.{refresh_mode-refresh_mode}
use robot_runtime.Arbitrator.Refresh.{refresh_mode, is_teleop_control_active}
use robot_runtime.Arbitrator.State.{teleop, Arbitrator}
use robot_runtime.Arbitrator.Command.{receive}
use robot_runtime.Prelude.{
  Bool-cases, Option, String, [], arith, eq_iff, false, inl, inr, none, not, refl, some, string_eq,
  strip, strip-strip, sym, true, ℕ, ◌≡◌, ◌≢◌, ◌∙◌, ap, ◌≤◌,
}
use robot_runtime.Lx.Words.{clamp}
use robot_runtime.Manager.Commands.{
  MotionCommand, to_servo_command, motion_command_to_setpoint,
  resolve_duration_ms as sent_duration_ms,
}
use robot_runtime.Manager.Service.{no_items}
use robot_runtime.Prelude.Int.{int_eq, pos, pos_part, ℤ, negsuc, ◌≤ℤ◌}
use robot_runtime.Teleop.Json.{Run, done, overflowed, refused, Json}
use robot_runtime.Teleop.Parse.{ParsedCommand}
use robot_runtime.Teleop.Bounded.{parsed_commands_are_bounded}
use robot_runtime.Teleop.Ranges.{IsCommand, IsPositive, IsPulse}
use robot_runtime.Teleop.Bridge.{
  Assigned, Context, Handled, View, build_motion_command, checked_command, handle_servo_command,
  handled_of, published, teleop_rejection_reason, unless_rejected, with_values, view_of,
  stripped_context,
}
use robot_runtime.Teleop.Position.{
  coerce_float, coerce_uint16, float_overflows, normalize_motion_position, resolve_command_duration,
}
use robot_runtime.Teleop.Kept.{pulse_is_kept, duration_is_kept}

-- What stands behind a message that the bridge publishes.
record IsBehind (assigned : Assigned) (view : View) (command : ParsedCommand) (context : Context)
    (msg : MotionCommand) : Type 0 where
  allowed : teleop_rejection_reason view context.requester_id context.lease_id ≡ none
  requester : msg.requester_id ≡ context.requester_id
  lease : msg.lease_id ≡ context.lease_id
  servo : assigned command.servo_id ≡ some msg.servo_id
  kind : msg.servo_type ≡ command.servo_type

with_values-published :
    (position duration_ms : Run ℕ) (next : ℕ → ℕ → Handled) (msg : MotionCommand)
    → with_values position duration_ms next ≡ published msg
    → (p : ℕ) × (d : ℕ) × (position ≡ done p) × (duration_ms ≡ done d) × (next p d ≡ published msg)
with_values-published (done p) (done d) next msg h = (p, d, refl, refl, h)
with_values-published (done p) refused next msg h = absurd (cc)
with_values-published (done p) overflowed next msg h = absurd (cc)
with_values-published refused d next msg h = absurd (cc)
with_values-published overflowed d next msg h = absurd (cc)

mapped_to {ℓ} :
    {A B : Type ℓ} (f : A → B) (o : Option A) (b : B)
    → Option.map f o ≡ some b
    → (a : A) × (o ≡ some a) × (f a ≡ b)
mapped_to f none b h = absurd (cc)
mapped_to f (some a) b h = (a, refl, cc)

handled-published :
    (o : Option MotionCommand) (msg : MotionCommand) → handled_of o ≡ published msg → o ≡ some msg
handled-published none msg h = absurd (cc)
handled-published (some m) msg h = cc

unless_rejected-published :
    (reason : Option String) (next : Handled) (msg : MotionCommand)
    → unless_rejected reason next ≡ published msg
    → (reason ≡ none) × (next ≡ published msg)
unless_rejected-published none next msg h = (refl, h)
unless_rejected-published (some reason) next msg h = absurd (cc)

checked-IsBehind :
    (assigned : Assigned) (view : View) (command : ParsedCommand) (context : Context) (p d : ℕ)
    (msg : MotionCommand)
    → checked_command assigned view command context p d ≡ published msg
    → IsBehind assigned view command context msg × (msg.position ≡ p) × (msg.duration_ms ≡ d)
unfolding checked_command build_motion_command
checked-IsBehind assigned view command context p d msg h =
    let (free, sent) = unless_rejected-published _ _ msg h in
    let (id, fits, made) = mapped_to _ _ msg (handled-published _ msg sent) in
    (
      record {
        allowed = free;
        requester = sym (ap (λ m. m.requester_id) made);
        lease = sym (ap (λ m. m.lease_id) made);
        servo = fits ∙ ap some (ap (λ m. m.servo_id) made);
        kind = sym (ap (λ m. m.servo_type) made);
      },
      sym (ap (λ m. m.position) made),
      sym (ap (λ m. m.duration_ms) made),
    )

-- The bridge publishes only what its check allows.
pub published_is_allowed :
    (assigned : Assigned) (view : View) (command : ParsedCommand) (context : Context)
    (msg : MotionCommand)
    → handle_servo_command assigned view command context ≡ published msg
    → teleop_rejection_reason view (strip context.requester_id) (strip context.lease_id) ≡ none
unfolding handle_servo_command
published_is_allowed assigned view command context msg handled =
    let (p, d, normal, lasts, next) =
      with_values-published
        (normalize_motion_position command.servo_type command.position command.value_encoding)
        (resolve_command_duration command.duration_ms command.duration_ms)
        (checked_command assigned view command (stripped_context context)) msg handled in
    (checked-IsBehind assigned view command (stripped_context context) p d msg next).0.allowed

-- Receiving on an arbitrator that was refreshed at the same time.
receive-refreshed :
    (now : ℕ) (r l : String) (s : Arbitrator)
    → (receive teleop now (strip (strip r)) (strip (strip l)) (refresh_mode now s)).0.accepted
      ≡ (receive teleop now r l s).0.accepted
unfolding receive
receive-refreshed now r l s =
    rw (strip-strip r, strip-strip l, strip-strip r, strip-strip l, refresh_mode-refresh_mode now s)
      refl

-- What the execution manager sends for an admitted message, on the state it has just published.
sent_by :
    (now : ℕ) (stamp : Time) (msg : MotionCommand) (m : Manager)
    → m.active_stop_operation_ids ≡ []
    → (receive teleop now
        (strip msg.requester_id)
        (strip msg.lease_id)
        (refresh_mode now m.arbitrator)).0.accepted
      ≡ true
    → (handle_command teleop now stamp msg (publish_state now m).0).1
      ≡ some (to_servo_command (motion_command_to_setpoint msg) (some stamp))
unfolding handle_command arbitrate_command publish_state snapshot
sent_by now stamp msg m idle ok =
    let free : not (no_items m.active_stop_operation_ids) ≡ false = rw idle refl in
    rw (free, ok) refl

part_of_pulse : (n : ℤ) → IsPulse n → pos (pos_part n) ≡ n
part_of_pulse (pos n) h = refl
part_of_pulse (negsuc n) h = absurd (omega (arith, h.0))

kept_position :
    (command : ParsedCommand) (p : ℕ)
    → IsCommand command
    → normalize_motion_position command.servo_type command.position command.value_encoding ≡ done p
    → command.servo_type ≡ "bus"
    → pos p ≡ command.position
kept_position command p c normal bus = elim c.kind [
  | inl (kind, encoding, pulse) ↦
      let same : done (pos_part command.position) ≡ done p =
        sym (pulse_is_kept command.position pulse) ∙ rw (kind, encoding) at normal in
      let kept : pos_part command.position ≡ p = cc in
      rw (sym kept) (part_of_pulse command.position pulse)
  | inr (kind, encoding) ↦ absurd (ground (arith, sym kind ∙ bus, eq_iff "pca" "bus"))
]

overflowing : (n : ℤ) → float_overflows n ≡ true → resolve_command_duration n n ≡ overflowed
unfolding resolve_command_duration coerce_uint16 coerce_float
overflowing n large = rw large refl

sent_duration :
    (d : ℕ)
    → (1 ≤ d) × (d ≤ 65535)
    → (pos 1 ≤ℤ pos (sent_duration_ms d)) × (pos (sent_duration_ms d) ≤ℤ pos 65535)
unfolding sent_duration_ms
sent_duration d h = ground arith

kept_duration :
    (n : ℤ) (d : ℕ) → IsPositive n → resolve_command_duration n n ≡ done d → (1 ≤ d) × (d ≤ 65535)
unfolding clamp
kept_duration n d h found = elim (Bool-cases (float_overflows n)) [
  | inl large ↦ absurd (let bad = sym (overflowing n large) ∙ found in cc)
  | inr small ↦
      let same : done (clamp 1 65535 n) ≡ done d = sym (duration_is_kept n h small) ∙ found in
      let cut : clamp 1 65535 n ≡ d = cc in rw (sym cut) (ground arith)
]

module _ (assigned : Assigned) (now : ℕ) (stamp : Time) (m : Manager) where
  -- A message of a client that the bridge publishes as a motion command, looking at the state that the
  -- execution manager has just published, is sent on to the servo that it names when no stop operation
  -- is active and a teleop lease in force is not the empty text. A bus servo gets the pulse of the
  -- message, and the duration that is sent lies from 1 to 65535. A 16-bit field is assumed to hold the
  -- number that it was given.
  pub driven_commands_arrive :
      (message : Json) (command : ParsedCommand) (context : Context) (msg : MotionCommand)
      → ((n : ℤ) (k : ℕ) → assigned n ≡ some k → n ≡ pos k)
      → m.active_stop_operation_ids ≡ []
      → (is_teleop_control_active now m.arbitrator ≡ true → m.arbitrator.teleop.lease_id ≢ "")
      → parse_servo_control message ≡ done (some command)
      → handle_servo_command assigned (view_of (publish_state now m).1) command context
        ≡ published msg
      → (sent : ServoCommand) × ((handle_command teleop now stamp msg (publish_state now m).0).1
          ≡ some sent)
        × (sent.servo_type ≡ command.servo_type)
        × (pos sent.servo_id ≡ command.servo_id)
        × (command.servo_type ≡ "bus" → sent.position ≡ command.position)
        × (pos 1 ≤ℤ sent.speed)
        × (sent.speed ≤ℤ pos 65535)
  unfolding handle_servo_command to_servo_command motion_command_to_setpoint
  driven_commands_arrive message command context msg holds idle named parsed handled =
      let c = parsed_commands_are_bounded message command parsed in
      let (p, d, normal, lasts, next) = with_values-published _ _ _ msg handled in
      let (b, at_p, at_d) =
        checked-IsBehind assigned (view_of (publish_state now m).1) command
          (stripped_context context) p d msg next in
      let accepted =
        (bridge_agrees now context.requester_id context.lease_id m named).0 b.allowed in
      let fits : (1 ≤ msg.duration_ms) × (msg.duration_ms ≤ 65535) =
        rw at_d (kept_duration command.duration_ms d c.lasting lasts) in
      let ok : (receive teleop now (strip msg.requester_id) (strip msg.lease_id)
            (refresh_mode now m.arbitrator)).0.accepted
          ≡ true =
        rw (b.requester, b.lease)
          (receive-refreshed now context.requester_id context.lease_id m.arbitrator ∙ accepted) in
      (
        to_servo_command (motion_command_to_setpoint msg) (some stamp),
        sent_by now stamp msg m idle ok,
        b.kind,
        sym (holds command.servo_id msg.servo_id b.servo),
        (λ bus. ap pos at_p ∙ kept_position command p c normal bus),
        (sent_duration msg.duration_ms fits).0,
        (sent_duration msg.duration_ms fits).1,
      )
