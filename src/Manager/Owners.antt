-- ===== src/Manager/Owners.antt =====
-- Which stop operation a coroutine works for, and what its next section does to the operations.
use robot_runtime.Prelude.{
  Bool, Bool-cases, List, Option, String, arith, contains, discard, if◌then◌else◌, inl, inr, max,
  nat_eq, none, not, refl, some, string_eq, true, ℕ, ◌+◌, ◌==◌, ◌||◌, ◌≡◌, ◌≤◌,
}
use robot_runtime.Arbitrator.Estop.{tick}
use robot_runtime.Manager.Operations.{
  Advanced, Env, Point, advance, after_announcing, announcing, awaiting_lift, awaiting_release,
  begin_finish, conclude_stop, end_finish, end_lift, fault_announcing, finishing, has_fault,
  latch_stop_fault, lifting, publish_safety, release_outcome, take_stamp, announced,
  fault_announced, requesting, stopping,
}
use robot_runtime.Manager.Stopping.{stop_driver_actuators}
use robot_runtime.Manager.Service.{no_items, stop_summary}
use robot_runtime.Manager.State.{Manager, drop_operation, next_driver_safety_stamp}
use robot_runtime.Prelude.Int.{int_eq}
use robot_runtime.Prelude.Window.{contains-discard}

unfoldable pub owner : Point → Option ℕ
owner (announcing id reason ids) = id
owner (announced id reason ids stamp) = id
owner (stopping id ids) = some id
owner (finishing id) = some id
owner (requesting id) = some id
owner (awaiting_release id stamp) = some id
owner (fault_announcing reason) = none
owner (fault_announced reason stamp) = none
owner (lifting id) = some id
owner (awaiting_lift id stamp) = some id

abbrev pub is_id : ℕ → Option ℕ → ℕ
is_id id none = 0
is_id id (some other) = if id == other then 1 else 0

abbrev pub owns : ℕ → Point → ℕ
owns id point = is_id id (owner point)

abbrev pub next_owns : ℕ → Option Point → ℕ
next_owns id none = 0
next_owns id (some point) = owns id point

-- What a section does to the operation `id`: it makes none, it drops none of another's, and the
-- coroutine goes on for its own operation at most.
pub record Respects (id : ℕ) (own : Option ℕ) (m : Manager) (a : Advanced) : Type 0 where
  pub next_id : a.manager.next_stop_operation_id ≡ m.next_stop_operation_id
  pub shrinks :
      contains id a.manager.active_stop_operation_ids ≡ true
      → contains id m.active_stop_operation_ids ≡ true
  pub keeps :
      is_id id own ≡ 0
      → contains id m.active_stop_operation_ids ≡ true
      → contains id a.manager.active_stop_operation_ids ≡ true
  pub owned : next_owns id a.next ≤ is_id id own

module _ (id : ℕ) (m : Manager) where
  latch-Respects :
      (own : ℕ) (reason : String) (now : ℕ)
      → Respects id (some own) m (latch_stop_fault own reason now m)
  unfolding latch_stop_fault owner
  latch-Respects own reason now = elim (Bool-cases (contains own m.active_stop_operation_ids)) [
    | inl there ↦
        rw there
          (record { next_id = refl; shrinks = λ h. h; keeps = λ o h. h; owned = ground arith })
    | inr gone ↦
        rw gone
          (record { next_id = refl; shrinks = λ h. h; keeps = λ o h. h; owned = ground arith })
  ]

  publish-Respects :
      (own : Option ℕ) (active : Bool) (reason : String) (stamp : ℕ) (next : Option Point)
      → next_owns id next ≤ is_id id own
      → Respects id own m (publish_safety active reason stamp next m)
  unfolding publish_safety
  publish-Respects own active reason stamp next h = record {
    next_id = refl;
    shrinks = λ k. k;
    keeps = λ o k. k;
    owned = h;
  }

  announced_owner :
      (own : Option ℕ) (ids : List ℕ) → next_owns id (after_announcing own ids) ≤ is_id id own
  unfolding after_announcing owner
  announced_owner none ids = omega arith
  announced_owner (some other) ids = omega arith

  take-Respects :
      (own : Option ℕ) (next : ℕ → Point) (now_ns : ℕ)
      → ((stamp : ℕ) → owner (next stamp) ≡ own)
      → Respects id own m (take_stamp next now_ns m)
  unfolding take_stamp next_driver_safety_stamp
  take-Respects own next now_ns h = record {
    next_id = refl;
    shrinks = λ k. k;
    keeps = λ o k. k;
    owned = rw (h (max now_ns (m.last_driver_safety_stamp_ns + 1))) (omega arith);
  }

  dropped_keeps :
      (own : ℕ) (ids : List ℕ)
      → is_id id (some own) ≡ 0
      → contains id ids ≡ true
      → contains id (discard own ids) ≡ true
  dropped_keeps own ids other h = ground (arith, contains-discard id own ids)

  dropped_shrinks :
      (own : ℕ) (ids : List ℕ) → contains id (discard own ids) ≡ true → contains id ids ≡ true
  dropped_shrinks own ids h = ground (arith, contains-discard id own ids)

  drop-Respects :
      (own : ℕ) (a : Advanced)
      → a.manager.next_stop_operation_id ≡ m.next_stop_operation_id
      → a.manager.active_stop_operation_ids ≡ discard own m.active_stop_operation_ids
      → a.next ≡ none
      → Respects id (some own) m a
  drop-Respects own a same dropped ended = record {
    next_id = same;
    shrinks = λ h. dropped_shrinks own m.active_stop_operation_ids (rw dropped at h);
    keeps = λ o h. rw dropped (dropped_keeps own m.active_stop_operation_ids o h);
    owned = rw ended (omega arith);
  }

  begin_finish-Respects : (own now : ℕ) → Respects id (some own) m (begin_finish own now m)
  unfolding begin_finish drop_operation owner
  begin_finish-Respects own now =
      elim (Bool-cases (
        not (no_items (discard own m.active_stop_operation_ids))
        || has_fault m
        || (tick now m.arbitrator).estop_active)) [
          | inl busy ↦ rw busy (drop-Respects own _ refl refl refl)
          | inr free ↦
              rw free (record {
                next_id = refl;
                shrinks = λ h. h;
                keeps = λ o h. h;
                owned = ground arith;
              })
        ]

  end_finish-Respects :
      (failed : Option String) (own stamp now : ℕ)
      → Respects id (some own) m (end_finish failed own stamp now m)
  unfolding end_finish drop_operation
  end_finish-Respects (some reason) own stamp now = latch-Respects own reason now
  end_finish-Respects none own stamp now =
      elim (Bool-cases (
        not (no_items (discard own m.active_stop_operation_ids))
        || has_fault m
        || (tick now m.arbitrator).estop_active)) [
          | inl busy ↦ rw busy (drop-Respects own _ refl refl refl)
          | inr free ↦ rw free (drop-Respects own _ refl refl refl)
        ]

  end_lift-Respects :
      (failed : Option String) (own stamp now : ℕ)
      → Respects id (some own) m (end_lift failed own stamp now m)
  unfolding end_lift drop_operation
  end_lift-Respects (some reason) own stamp now = latch-Respects own reason now
  end_lift-Respects none own stamp now = drop-Respects own _ refl refl refl

  conclude-Respects :
      (own : ℕ) (ids : List ℕ) (env : Env) → Respects id (some own) m (conclude_stop own ids env m)
  unfolding conclude_stop owner
  conclude-Respects own ids env =
      elim (Bool-cases
        (stop_summary ids (stop_driver_actuators env.contacts).0).stop_command_sent) [
          | inl sent ↦
              rw sent (record {
                next_id = refl;
                shrinks = λ h. h;
                keeps = λ o h. h;
                owned = ground arith;
              })
          | inr failed ↦ rw failed (latch-Respects own _ env.now)
        ]

  pub advance-Respects :
      (point : Point) (env : Env) → Respects id (owner point) m (advance point env m)
  unfolding advance owner
  advance-Respects (announcing own reason ids) env =
      take-Respects own (announced own reason ids) env.now_ns (λ s. refl)
  advance-Respects (announced own reason ids stamp) env =
      publish-Respects own true reason stamp (after_announcing own ids) (announced_owner own ids)
  advance-Respects (stopping own ids) env = conclude-Respects own ids env
  advance-Respects (finishing own) env = begin_finish-Respects own env.now
  advance-Respects (requesting own) env =
      take-Respects (some own) (awaiting_release own) env.now_ns (λ s. refl)
  advance-Respects (awaiting_release own stamp) env =
      end_finish-Respects (release_outcome env) own stamp env.now
  advance-Respects (fault_announcing reason) env =
      take-Respects none (fault_announced reason) env.now_ns (λ s. refl)
  advance-Respects (fault_announced reason stamp) env =
      publish-Respects none true reason stamp none (omega arith)
  advance-Respects (lifting own) env =
      take-Respects (some own) (awaiting_lift own) env.now_ns (λ s. refl)
  advance-Respects (awaiting_lift own stamp) env =
      end_lift-Respects (release_outcome env) own stamp env.now
