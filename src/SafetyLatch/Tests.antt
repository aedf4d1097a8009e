-- ===== src/SafetyLatch/Tests.antt =====
-- The latch's theorems at concrete calls.
use robot_runtime.Prelude.{List, [], arith, false, inr, refl, true, ◌∷◌, ◌≡◌}
use robot_runtime.Prelude.Int.{pos}
use robot_runtime.SafetyLatch.Fence.{
  Event, admitted, latch_holds, observed, protocol, run, stale_motion_refused, step,
}
use robot_runtime.SafetyLatch.Latch.{Latch, admit_motion}
use robot_runtime.SafetyLatch.Names.{is_stop_command}

abbrev closed : Latch
closed = record { latched = true; fence_ns = pos 10; last_authority_ns = pos 10 }

-- A move, and a release that is not later than the fence.
abbrev late_calls : List Event
late_calls = admitted (pos 50) false (pos 60) ∷ observed false (pos 10) (pos 61) ∷ []

latch_holds_example :
    ((run late_calls closed).latched ≡ true)
    × (admit_motion (pos 90) (run late_calls closed) ≡ false)
latch_holds_example = latch_holds closed late_calls (pos 90) refl (tt, (inr (omega arith), tt))

-- A stop command, a release that opens the latch, and a move from before the stop.
stale_motion_refused_example :
    admit_motion (pos 19) (
      run
        (observed false (pos 30) (pos 31) ∷ [])
        (step (protocol "Move Stop" (pos 20) (pos 0)) closed))
    ≡ false
unfolding is_stop_command
stale_motion_refused_example =
    stale_motion_refused (protocol "Move Stop" (pos 20) (pos 0)) (pos 20) closed
      (observed false (pos 30) (pos 31) ∷ []) (pos 19) (refl, refl) (omega arith) (omega arith)
