-- ===== src/Driver/Moved.antt =====
-- What a move from a topic can do.
use robot_runtime.Prelude.{
  if◌then◌else◌, Bool, Bool-cases, arith, false, inl, inr, none, refl, some, true, ℕ, ◌≡◌, ◌≤◌, ◌⊎◌,
}
use robot_runtime.Driver.Convert.{move_target_lx}
use robot_runtime.Driver.Move.{
  Driver, Sent, ServoCommand, encode_move, execute_move, is_allowed_id, is_bus_command,
  normalize_move_target, on_command, on_lx_command, state_of,
}
use robot_runtime.Lx.Encode.{encode_move_command}
use robot_runtime.Lx.Words.{clamp, clamp_bounds}
use robot_runtime.Prelude.Int.{ltb_ℤ, pos, ℤ, ◌<ℤ◌}
use robot_runtime.SafetyLatch.Fence.{admit_motion_facts}
use robot_runtime.SafetyLatch.Latch.{Latch, admit, admit_motion, ros_time_to_ns}
use mathlib.Core.Path.{subst}
use robot_runtime.Driver.Ranges.{move_target_lx_range}

-- A servo's frame for a target within the protocol's travel, and a published pulse within the range of
-- pulses.
pub record IsSafeLx (d : Driver) (msg : ServoCommand) (s : Sent) : Type 0 where
  pub target : ℕ
  pub duration : ℕ
  pub frame_is : s.frame ≡ encode_move_command (pos msg.servo_id) (pos target) (pos duration)
  pub target_low : 125 ≤ target
  pub target_high : target ≤ 875
  pub duration_high : duration ≤ 30000
  pub pulse_low : (ok : Bool) → 500 ≤ (s.published ok).state_position
  pub pulse_high : (ok : Bool) → (s.published ok).state_position ≤ 2500
  pub allowed : is_allowed_id "lx" msg.servo_id d ≡ true
  pub unlatched : d.safety_latch.latched ≡ false
  pub fresh :
      (d.safety_latch.fence_ns ≡ pos 0) ⊎ (d.safety_latch.fence_ns <ℤ ros_time_to_ns msg.stamp)

admitted_facts :
    (stamp : ℤ) (l : Latch)
    → (admit stamp false (pos 0) l).1 ≡ true
    → (l.latched ≡ false) × ((l.fence_ns ≡ pos 0) ⊎ (l.fence_ns <ℤ stamp))
unfolding admit
admitted_facts stamp l h = admit_motion_facts stamp l h

lx_target : (position : ℤ) → normalize_move_target "lx" position ≡ move_target_lx position
unfolding normalize_move_target
lx_target position = refl

lx_encoded :
    (servo_id position speed : ℕ)
    → encode_move "lx" servo_id position speed
      ≡ some (encode_move_command (pos servo_id) (pos position) (pos speed))
unfolding encode_move
lx_encoded servo_id position speed = refl

abbrev pub sent_of : ServoCommand → ℤ → ℤ → Sent
sent_of msg position speed =
    let (target, pulse) = move_target_lx position in
    record {
      frame = encode_move_command (pos msg.servo_id) (pos target) (pos (clamp 0 30000 speed));
      published = λ success. state_of msg.servo_id pulse (if success then 0 else 1);
    }

published_pulse :
    (id pulse code : ℕ) → pulse ≤ 2500 → (state_of id pulse code).state_position ≡ pulse
unfolding state_of
published_pulse id pulse code small = omega arith

module _ (msg : ServoCommand) (d : Driver) where
  sent_of_safe :
      (position speed : ℤ)
      → is_allowed_id "lx" msg.servo_id d ≡ true
      → d.safety_latch.latched ≡ false
      → (d.safety_latch.fence_ns ≡ pos 0) ⊎ (d.safety_latch.fence_ns <ℤ ros_time_to_ns msg.stamp)
      → IsSafeLx d msg (sent_of msg position speed)
  sent_of_safe position speed mine open_latch behind =
      let (low, high, pulse_low, pulse_high) = move_target_lx_range position in
      record {
        target = (move_target_lx position).0;
        duration = clamp 0 30000 speed;
        frame_is = refl;
        target_low = low;
        target_high = high;
        duration_high = (clamp_bounds 0 30000 speed (omega arith)).1;
        pulse_low = λ ok.
            rw
              (published_pulse msg.servo_id (move_target_lx position).1 (if ok then 0 else 1)
                pulse_high)
              pulse_low;
        pulse_high = λ ok.
            rw
              (published_pulse msg.servo_id (move_target_lx position).1 (if ok then 0 else 1)
                pulse_high)
              pulse_high;
        allowed = mine;
        unlatched = open_latch;
        fresh = behind;
      }

  sent_lx :
      (s : Sent) (position speed : ℤ)
      → execute_move "lx" msg.servo_id position speed d ≡ some s
      → d.safety_latch.latched ≡ false
      → (d.safety_latch.fence_ns ≡ pos 0) ⊎ (d.safety_latch.fence_ns <ℤ ros_time_to_ns msg.stamp)
      → IsSafeLx d msg s
  unfolding execute_move
  sent_lx s position speed h open_latch behind =
      elim (Bool-cases (is_allowed_id "lx" msg.servo_id d)) [
        | inl mine ↦
            let sent : some (sent_of msg position speed) ≡ some s =
              rw
                (
                  mine,
                  lx_target position,
                  lx_encoded msg.servo_id (move_target_lx position).0 (clamp 0 30000 speed),
                )
                at h in
            let same : sent_of msg position speed ≡ s = cc in
            subst (IsSafeLx d msg) same (sent_of_safe position speed mine open_latch behind)
        | inr other ↦ absurd (let refused : none ≡ some s = rw other at h in cc)
      ]

-- Whatever message comes in on the LX topic: when a frame is sent, the latch is open, the message's
-- stamp is behind the stop fence (where there was a stop), the servo is one of the driver's own, the
-- target is within 125 and 875 and the duration at most 30000, and the pulse of the published state is
-- within 500 and 2500, whether the write succeeds or not.
pub lx_moves_are_safe :
    (msg : ServoCommand) (d : Driver) (s : Sent) → on_lx_command msg d ≡ some s → IsSafeLx d msg s
unfolding on_lx_command on_command
lx_moves_are_safe msg d s h = elim (Bool-cases (is_bus_command msg.servo_type)) [
  | inl bus ↦ elim (Bool-cases (admit (ros_time_to_ns msg.stamp) false (pos 0) d.safety_latch).1) [
    | inl accepted ↦
        let (open_latch, behind) =
          admitted_facts (ros_time_to_ns msg.stamp) d.safety_latch accepted in
        sent_lx msg d s msg.position
          (if ltb_ℤ (pos 0) msg.speed then msg.speed else d.default_speed) (rw (bus, accepted) at h)
          open_latch behind
    | inr refused ↦ absurd (let nothing : none ≡ some s = rw (bus, refused) at h in cc)
  ]
  | inr other ↦ absurd (let nothing : none ≡ some s = rw other at h in cc)
]

admits :
    (stamp : ℤ) (l : Latch)
    → l.latched ≡ false
    → (l.fence_ns ≡ pos 0) ⊎ (l.fence_ns <ℤ stamp)
    → (admit stamp false (pos 0) l).1 ≡ true
unfolding admit admit_motion
admits stamp l o (inl none_yet) = rw (o, none_yet) refl
admits stamp l o (inr late) = ground arith

-- A message for a bus servo of the driver's own, that comes when the latch is open and whose stamp is
-- behind the fence or that finds no fence, is sent; its duration is the speed that it asks for, or the
-- default when it asks for none, within 0 and 30000.
pub lx_move_is_sent :
    (msg : ServoCommand) (d : Driver)
    → is_bus_command msg.servo_type ≡ true
    → is_allowed_id "lx" msg.servo_id d ≡ true
    → d.safety_latch.latched ≡ false
    → (d.safety_latch.fence_ns ≡ pos 0) ⊎ (d.safety_latch.fence_ns <ℤ ros_time_to_ns msg.stamp)
    → on_lx_command msg d
      ≡ some (
          sent_of msg msg.position (if ltb_ℤ (pos 0) msg.speed then msg.speed else d.default_speed))
unfolding on_lx_command on_command execute_move
lx_move_is_sent msg d bus mine open_latch behind = rw (
  bus,
  admits (ros_time_to_ns msg.stamp) d.safety_latch open_latch behind,
  mine,
  lx_target msg.position,
  lx_encoded msg.servo_id (move_target_lx msg.position).0
      (clamp 0 30000 (if ltb_ℤ (pos 0) msg.speed then msg.speed else d.default_speed)),
)
