-- ===== src/SafetyLatch/Latch.antt =====
-- `DriverSafetyLatch`. Its methods hold one lock for their whole body, so they run one after the
-- other; a method returns the new latch with its result. Times are nanoseconds, and a stamp may be
-- negative, since `sec` of a ROS time is a signed number.
use robot_runtime.Prelude.{
  Bool, Option, String, false, if◌then◌else◌, none, not, some, true, ℕ, ◌&&◌, ◌*◌,
}
use robot_runtime.Prelude.Int.{leb_ℤ, ltb_ℤ, max_ℤ, neg_part, pos, pos_part, ℤ, ◌+ℤ◌, ◌-ℤ◌}
use robot_runtime.SafetyLatch.Names.{is_motion_command, is_stop_command}

pub record Latch : Type 0 where
  pub latched : Bool
  pub fence_ns : ℤ
  pub last_authority_ns : ℤ

unfoldable pub new : Latch
new = record { latched = false; fence_ns = pos 0; last_authority_ns = pos 0 }

unfoldable pub activate : ℤ → Latch → Latch
activate now l = record l { latched = true; fence_ns = max_ℤ l.fence_ns now }

-- `authority_ns if authority_ns > 0 else int(now_ns)`
unfoldable pub authority_fence : ℤ → ℤ → ℤ
authority_fence stamp now = if ltb_ℤ (pos 0) stamp then stamp else now

unfoldable pub observe_active : ℤ → ℤ → Latch → Latch × Bool
unfolding authority_fence
observe_active stamp now l = (
  record {
    last_authority_ns = max_ℤ l.last_authority_ns stamp;
    latched = true;
    fence_ns = max_ℤ l.fence_ns (authority_fence stamp now);
  },
  true,
)

-- A release that is newer than the last authority, but not than the fence, still moves the authority.
unfoldable pub observe_release : ℤ → Latch → Latch × Bool
observe_release stamp l =
    if leb_ℤ stamp l.last_authority_ns
    then (l, false)
    else if leb_ℤ stamp l.fence_ns
    then (record l { last_authority_ns = stamp }, false)
    else (record l { last_authority_ns = stamp; latched = false }, l.latched)

unfoldable pub observe_authority : Bool → ℤ → ℤ → Latch → Latch × Bool
unfolding observe_active observe_release
observe_authority active stamp now l =
    if active then observe_active stamp now l else observe_release stamp l

-- The part of `admit` for a command that is no stop.
unfoldable pub admit_motion : ℤ → Latch → Bool
admit_motion stamp l =
    if l.latched
    then false
    else if leb_ℤ l.fence_ns (pos 0) && leb_ℤ (pos 0) l.fence_ns
    then true
    else ltb_ℤ l.fence_ns stamp

unfoldable pub admit : ℤ → Bool → ℤ → Latch → Latch × Bool
unfolding activate admit_motion
admit stamp is_stop now l = if is_stop then (activate now l, true) else (l, admit_motion stamp l)

unfoldable pub admit_protocol_command : String → ℤ → ℤ → Latch → Latch × Bool
unfolding admit
admit_protocol_command command now stamp l =
    if is_stop_command command
    then admit (pos 0) true now l
    else if not (is_motion_command command)
    then (l, true)
    else admit stamp false now l

-- `ros_time_to_ns`. `none` is a missing stamp, and a value without the two fields counts as that too.
pub record Time : Type 0 where
  pub sec : ℤ
  pub nanosec : ℕ

unfoldable pub ros_time_to_ns : Option Time → ℤ
ros_time_to_ns none = pos 0
ros_time_to_ns (some t) =
    pos (pos_part t.sec * 1000000000) -ℤ pos (neg_part t.sec * 1000000000) +ℤ pos t.nanosec
