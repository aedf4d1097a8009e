-- ===== src/Manager/Faults.antt =====
-- A stop operation that failed, through all later steps.
use mathlib.Core.Path.{subst}
use robot_runtime.Prelude.{
  Bool, Bool-cases, List, Option, String, contains, discard, false, if◌then◌else◌, inl, inr,
  is_empty, nat_eq, none, not, refl, some, string_eq, true, ℕ, ◌||◌, ◌≡◌, ◌⊎◌,
}
use robot_runtime.Arbitrator.Estop.{tick}
use robot_runtime.Manager.Handlers.{Waited, answered, raised, timed_out}
use robot_runtime.Manager.Operations.{
  Advanced, Env, Point, advance, announcing, awaiting_lift, awaiting_release, begin_finish,
  conclude_stop, end_finish, end_lift, fault_announcing, finishing, has_fault, latch_stop_fault,
  lifting, publish_safety, release_fault, release_outcome, take_stamp, announced, fault_announced,
  requesting, stopping,
}
use robot_runtime.Manager.Stopping.{stop_driver_actuators}
use robot_runtime.Manager.Owners.{next_owns, owner}
use robot_runtime.Manager.Service.{no_items, stop_summary}
use robot_runtime.Manager.State.{Manager, drop_operation, next_driver_safety_stamp}
use robot_runtime.Prelude.Int.{int_eq}

-- The section leaves the fault as it was, or its operation stays active and has no coroutine more.
abbrev Abandons : Option ℕ → Advanced → Type 0
Abandons own a =
    (id : ℕ) × (own ≡ some id)
    × (contains id a.manager.active_stop_operation_ids ≡ true)
    × (next_owns id a.next ≡ 0)
    × (is_empty a.manager.latched_stop_fault_reason ≡ false)

abbrev Faults : Option ℕ → Manager → Advanced → Type 0
Faults own m a =
    (a.manager.latched_stop_fault_reason ≡ m.latched_stop_fault_reason) ⊎ Abandons own a

pub stop_text :
    (late : Bool) → is_empty (if late then "driver_stop_timeout" else "driver_stop_failed") ≡ false
stop_text true = refl
stop_text false = refl

module _ (m : Manager) where
  latch-Faults :
      (own : ℕ) (reason : String) (now : ℕ)
      → is_empty reason ≡ false
      → Faults (some own) m (latch_stop_fault own reason now m)
  unfolding latch_stop_fault owner
  latch-Faults own reason now text = elim (Bool-cases (contains own m.active_stop_operation_ids)) [
    | inl there ↦ rw there (inr (own, refl, there, refl, text))
    | inr gone ↦ rw gone (inl refl)
  ]

  begin_finish-Faults : (own now : ℕ) → Faults (some own) m (begin_finish own now m)
  unfolding begin_finish drop_operation
  begin_finish-Faults own now =
      elim (Bool-cases (
        not (no_items (discard own m.active_stop_operation_ids))
        || has_fault m
        || (tick now m.arbitrator).estop_active)) [
          | inl busy ↦ rw busy (inl refl)
          | inr free ↦ rw free (inl refl)
        ]

  known_text :
      (known reason : String)
      → is_empty known ≡ false
      → some known ≡ some reason
      → is_empty reason ≡ false
  known_text known reason text h =
      let same : known ≡ reason = cc in subst (λ r. is_empty r ≡ false) same text

  fault_text :
      (w : Waited Bool) (reason : String) → release_fault w ≡ some reason → is_empty reason ≡ false
  unfolding release_fault
  fault_text (raised _) reason h = known_text "driver_safety_release_failed" reason refl h
  fault_text timed_out reason h = known_text "driver_safety_release_timeout" reason refl h
  fault_text (answered true) reason h = cc
  fault_text (answered false) reason h = known_text "driver_safety_release_failed" reason refl h

  pub release_text :
      (env : Env) (reason : String) → release_outcome env ≡ some reason → is_empty reason ≡ false
  unfolding release_outcome
  release_text env reason h = elim (Bool-cases (env.service_ready)) [
    | inl ready ↦ fault_text env.release reason (rw ready at h)
    | inr gone ↦ known_text "driver_safety_release_unavailable" reason refl (rw gone at h)
  ]

  end_finish-Faults :
      (failed : Option String) (own stamp now : ℕ)
      → ((reason : String) → failed ≡ some reason → is_empty reason ≡ false)
      → Faults (some own) m (end_finish failed own stamp now m)
  unfolding end_finish drop_operation
  end_finish-Faults (some reason) own stamp now text =
      latch-Faults own reason now (text reason refl)
  end_finish-Faults none own stamp now text =
      elim (Bool-cases (
        not (no_items (discard own m.active_stop_operation_ids))
        || has_fault m
        || (tick now m.arbitrator).estop_active)) [
          | inl busy ↦ rw busy (inl refl)
          | inr free ↦ rw free (inl refl)
        ]

  end_lift-Faults :
      (failed : Option String) (own stamp now : ℕ)
      → ((reason : String) → failed ≡ some reason → is_empty reason ≡ false)
      → Faults (some own) m (end_lift failed own stamp now m)
  unfolding end_lift drop_operation
  end_lift-Faults (some reason) own stamp now text = latch-Faults own reason now (text reason refl)
  end_lift-Faults none own stamp now text = inl refl

  conclude-Faults :
      (own : ℕ) (ids : List ℕ) (env : Env) → Faults (some own) m (conclude_stop own ids env m)
  unfolding conclude_stop
  conclude-Faults own ids env =
      elim (Bool-cases
        (stop_summary ids (stop_driver_actuators env.contacts).0).stop_command_sent) [
          | inl sent ↦ rw sent (inl refl)
          | inr failed ↦
              rw failed
                (latch-Faults own _ env.now (stop_text (stop_driver_actuators env.contacts).1))
        ]

  pub advance-Faults : (point : Point) (env : Env) → Faults (owner point) m (advance point env m)
  unfolding advance owner publish_safety take_stamp next_driver_safety_stamp
  advance-Faults (announcing own reason ids) env = inl refl
  advance-Faults (announced own reason ids stamp) env = inl refl
  advance-Faults (stopping own ids) env = conclude-Faults own ids env
  advance-Faults (finishing own) env = begin_finish-Faults own env.now
  advance-Faults (requesting own) env = inl refl
  advance-Faults (awaiting_release own stamp) env =
      end_finish-Faults (release_outcome env) own stamp env.now (release_text env)
  advance-Faults (fault_announcing reason) env = inl refl
  advance-Faults (fault_announced reason stamp) env = inl refl
  advance-Faults (lifting own) env = inl refl
  advance-Faults (awaiting_lift own stamp) env =
      end_lift-Faults (release_outcome env) own stamp env.now (release_text env)
