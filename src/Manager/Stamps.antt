-- ===== src/Manager/Stamps.antt =====
-- What one section of a stop operation does to the stamps of driver safety.
use robot_runtime.Prelude.{
  All, Bool-cases, List, Option, String, arith, contains, discard, max, ◌+◌, inl, inr, nat_eq, none,
  not, refl, some, string_eq, ℕ, ◌||◌, ◌≡◌, ◌≤◌,
}
use robot_runtime.Arbitrator.Estop.{tick}
use robot_runtime.Manager.Operations.{
  Advanced, Env, Point, advance, after_announcing, announcing, awaiting_lift, awaiting_release,
  begin_finish, conclude_stop, end_finish, end_lift, fault_announcing, finishing, has_fault,
  latch_stop_fault, lifting, publish_safety, release_outcome, take_stamp, announced,
  fault_announced, requesting, stopping,
}
use robot_runtime.Manager.Stopping.{stop_driver_actuators}
use robot_runtime.Manager.Service.{no_items, stop_summary}
use robot_runtime.Manager.State.{
  DriverSafetyState, Manager, drop_operation, next_driver_safety_stamp,
}
use robot_runtime.Manager.System.{System}
use robot_runtime.Prelude.Int.{int_eq}

-- The stamp that a coroutine has taken, for a message or for the release it has requested.
unfoldable pub kept_stamp : Point → ℕ
kept_stamp (awaiting_release id stamp) = stamp
kept_stamp (awaiting_lift id stamp) = stamp
kept_stamp (announced id reason ids stamp) = stamp
kept_stamp (fault_announced reason stamp) = stamp
kept_stamp _ = 0

pub record IsRanked (last : ℕ) (tasks : List Point) (messages : List DriverSafetyState)
    : Type 0 where
  pub kept : All (λ p. kept_stamp p ≤ last) tasks
  pub told : All (λ m. m.stamp_ns ≤ last) messages

abbrev pub Ranked : System → Type 0
Ranked s = IsRanked s.manager.last_driver_safety_stamp_ns s.tasks s.safety_log

abbrev pub next_stamp : Option Point → ℕ
next_stamp none = 0
next_stamp (some point) = kept_stamp point

abbrev pub told_stamp : Option DriverSafetyState → ℕ
told_stamp none = 0
told_stamp (some message) = message.stamp_ns

-- What a section does to the stamps.
pub record Ranks (m : Manager) (a : Advanced) : Type 0 where
  pub grows : m.last_driver_safety_stamp_ns ≤ a.manager.last_driver_safety_stamp_ns
  pub next : next_stamp a.next ≤ a.manager.last_driver_safety_stamp_ns
  pub message : told_stamp a.published ≤ a.manager.last_driver_safety_stamp_ns

module _ (m : Manager) where
  latch-Ranks : (id : ℕ) (reason : String) (now : ℕ) → Ranks m (latch_stop_fault id reason now m)
  unfolding latch_stop_fault kept_stamp
  latch-Ranks id reason now = elim (Bool-cases (contains id m.active_stop_operation_ids)) [
    | inl active ↦
        rw active (record { grows = omega arith; next = omega arith; message = omega arith })
    | inr gone ↦ rw gone (record { grows = omega arith; next = omega arith; message = omega arith })
  ]

  take-Ranks :
      (next : ℕ → Point) (now_ns : ℕ)
      → ((stamp : ℕ) → kept_stamp (next stamp) ≡ stamp)
      → Ranks m (take_stamp next now_ns m)
  unfolding take_stamp next_driver_safety_stamp
  take-Ranks next now_ns h =
      let kept = h (max now_ns (m.last_driver_safety_stamp_ns + 1)) in
      record { grows = omega arith; next = omega arith; message = omega arith }

  announced_stamp : (own : Option ℕ) (ids : List ℕ) → next_stamp (after_announcing own ids) ≡ 0
  unfolding after_announcing kept_stamp
  announced_stamp none ids = refl
  announced_stamp (some id) ids = refl

  conclude-Ranks : (id : ℕ) (ids : List ℕ) (env : Env) → Ranks m (conclude_stop id ids env m)
  unfolding conclude_stop kept_stamp
  conclude-Ranks id ids env =
      elim (Bool-cases
        (stop_summary ids (stop_driver_actuators env.contacts).0).stop_command_sent) [
          | inl sent ↦
              rw sent (record { grows = omega arith; next = omega arith; message = omega arith })
          | inr failed ↦ rw failed (latch-Ranks id _ env.now)
        ]

  begin_finish-Ranks : (id now : ℕ) → Ranks m (begin_finish id now m)
  unfolding begin_finish drop_operation kept_stamp
  begin_finish-Ranks id now =
      elim (Bool-cases (
        not (no_items (discard id m.active_stop_operation_ids))
        || has_fault m
        || (tick now m.arbitrator).estop_active)) [
          | inl busy ↦
              rw busy (record { grows = omega arith; next = omega arith; message = omega arith })
          | inr free ↦
              rw free (record { grows = omega arith; next = omega arith; message = omega arith })
        ]

  module _ (stamp : ℕ) (h : stamp ≤ m.last_driver_safety_stamp_ns) where
    end_finish-Ranks :
        (failed : Option String) (id now : ℕ) → Ranks m (end_finish failed id stamp now m)
    unfolding end_finish drop_operation
    end_finish-Ranks (some reason) id now = latch-Ranks id reason now
    end_finish-Ranks none id now =
        elim (Bool-cases (
          not (no_items (discard id m.active_stop_operation_ids))
          || has_fault m
          || (tick now m.arbitrator).estop_active)) [
            | inl busy ↦
                rw busy (record { grows = omega arith; next = omega arith; message = omega arith })
            | inr free ↦ rw free (record { grows = omega arith; next = omega arith; message = h })
          ]

    end_lift-Ranks :
        (failed : Option String) (id now : ℕ) → Ranks m (end_lift failed id stamp now m)
    unfolding end_lift drop_operation
    end_lift-Ranks (some reason) id now = latch-Ranks id reason now
    end_lift-Ranks none id now = record { grows = omega arith; next = omega arith; message = h }

  pub advance-Ranks :
      (point : Point) (env : Env)
      → kept_stamp point ≤ m.last_driver_safety_stamp_ns
      → Ranks m (advance point env m)
  unfolding advance kept_stamp publish_safety
  advance-Ranks (announcing id reason ids) env h =
      take-Ranks (announced id reason ids) env.now_ns (λ stamp. refl)
  advance-Ranks (announced id reason ids stamp) env h = record {
    grows = omega arith;
    next = omega (arith, announced_stamp id ids);
    message = h;
  }
  advance-Ranks (stopping id ids) env h = conclude-Ranks id ids env
  advance-Ranks (finishing id) env h = begin_finish-Ranks id env.now
  advance-Ranks (requesting id) env h = take-Ranks (awaiting_release id) env.now_ns (λ stamp. refl)
  advance-Ranks (awaiting_release id stamp) env h =
      end_finish-Ranks stamp h (release_outcome env) id env.now
  advance-Ranks (fault_announcing reason) env h =
      take-Ranks (fault_announced reason) env.now_ns (λ stamp. refl)
  advance-Ranks (fault_announced reason stamp) env h = record {
    grows = omega arith;
    next = omega arith;
    message = h;
  }
  advance-Ranks (lifting id) env h = take-Ranks (awaiting_lift id) env.now_ns (λ stamp. refl)
  advance-Ranks (awaiting_lift id stamp) env h =
      end_lift-Ranks stamp h (release_outcome env) id env.now
