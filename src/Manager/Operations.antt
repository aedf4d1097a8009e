-- ===== src/Manager/Operations.antt =====
-- Stop operations: `_handle_estop`, `_handle_estop_release`, `_handle_stop_actuators` and what they call.
-- These are coroutines. A `Point` is a place where one of them stands between two sections that hold the
-- lock, with its local variables; `advance` runs the next section, with what the
-- wait before it has brought.
use robot_runtime.Prelude.{
  Bool, List, Option, String, [], contains, discard, false, if◌then◌else◌, inl, inr, is_empty,
  lower, nat_eq, none, not, some, string_eq, strip, true, ℕ, ◌==◌, ◌||◌, ◌∷◌, ◌⊎◌,
}
use robot_runtime.Arbitrator.Estop.{set_estop, tick}
use robot_runtime.Arbitrator.State.{Identity}
use robot_runtime.Arbitrator.TaskControl.{validate_task_operation}
use robot_runtime.Manager.Handlers.{Waited, answered, raised, timed_out}
use robot_runtime.Manager.Service.{DriverAnswer, StopSummary, no_items, or_else, stop_summary}
use robot_runtime.Manager.State.{
  DriverSafetyState, Manager, drop_operation, has_operations, next_driver_safety_stamp,
  register_stop_operation,
}
use robot_runtime.Prelude.Int.{int_eq}
use robot_runtime.Manager.Stopping.{Contact, stop_driver_actuators}

pub data Point : Type 0 where
  announcing : Option ℕ → String → List ℕ → Point
  announced : Option ℕ → String → List ℕ → ℕ → Point
  stopping : ℕ → List ℕ → Point
  finishing : ℕ → Point
  requesting : ℕ → Point
  awaiting_release : ℕ → ℕ → Point
  fault_announcing : String → Point
  fault_announced : String → ℕ → Point
  lifting : ℕ → Point
  awaiting_lift : ℕ → ℕ → Point

-- What the section reads: the clocks and what the wait brought, `answers` being the stop requests'.
pub record Env : Type 0 where
  pub now : ℕ
  pub now_ns : ℕ
  pub contacts : List Contact
  pub service_ready : Bool
  pub release : Waited Bool

pub record Advanced : Type 0 where
  pub manager : Manager
  pub next : Option Point
  pub published : Option DriverSafetyState

-- `_latch_stop_fault` up to its publishing.
unfoldable pub latch_stop_fault : ℕ → String → ℕ → Manager → Advanced
unfolding contains
latch_stop_fault id reason now m =
    if not (contains id m.active_stop_operation_ids)
    then record { manager = m; next = none; published = none }
    else record {
      manager = record m {
        latched_stop_fault_reason = reason;
        arbitrator = set_estop true now reason m.arbitrator;
      };
      next = some (fault_announcing reason);
      published = none;
    }

-- `_next_driver_safety_stamp` is a section of its own; the coroutine goes on with the stamp, and others
-- may take later stamps before it uses it.
unfoldable pub take_stamp : (ℕ → Point) → ℕ → Manager → Advanced
take_stamp next now_ns m =
    let (stamped, stamp) = next_driver_safety_stamp now_ns m in
    record { manager = stamped; next = some (next stamp); published = none }

-- The rest of `_publish_driver_safety`, which does not hold the lock.
unfoldable pub publish_safety : Bool → String → ℕ → Option Point → Manager → Advanced
publish_safety active reason stamp next m = record {
  manager = m;
  next = next;
  published = some (record { estop_active = active; reason = reason; stamp_ns = stamp });
}

-- After the message of a stop: the actuators, where there are any.
unfoldable pub after_announcing : Option ℕ → List ℕ → Option Point
after_announcing none ids = none
after_announcing (some id) ids = some (stopping id ids)

-- What the answers to the stop requests lead to.
unfoldable pub conclude_stop : ℕ → List ℕ → Env → Manager → Advanced
unfolding latch_stop_fault
conclude_stop id ids env m =
    let (responses, late) = stop_driver_actuators env.contacts in
    if (stop_summary ids responses).stop_command_sent
    then record { manager = m; next = some (finishing id); published = none }
    else latch_stop_fault id (if late then "driver_stop_timeout" else "driver_stop_failed") env.now
        m

-- The response of `_handle_stop_actuators` after the wait.
unfoldable pub stop_fields : List ℕ → List Contact → StopSummary
stop_fields ids contacts =
    let (responses, late) = stop_driver_actuators contacts in
    let summary = stop_summary ids responses in
    let reason = if late then "driver_stop_timeout" else "driver_stop_failed" in
    if summary.stop_command_sent
    then summary
    else record summary { status = "stop_fault"; reasons = reason ∷ []; recoverable = false }

abbrev pub has_fault : Manager → Bool
has_fault m = not (is_empty m.latched_stop_fault_reason)

-- The first section of `_finish_stop_operation`.
unfoldable pub begin_finish : ℕ → ℕ → Manager → Advanced
unfolding discard
begin_finish id now m =
    let others = discard id m.active_stop_operation_ids in
    let seen = record m { arbitrator = tick now m.arbitrator } in
    if not (no_items others) || has_fault m || seen.arbitrator.estop_active
    then record { manager = drop_operation id seen; next = none; published = none }
    else record { manager = seen; next = some (requesting id); published = none }

-- `_request_driver_safety_release` after its stamp: why it failed.
unfoldable pub release_fault : Waited Bool → Option String
release_fault (raised _) = some "driver_safety_release_failed"
release_fault timed_out = some "driver_safety_release_timeout"
release_fault (answered true) = none
release_fault (answered false) = some "driver_safety_release_failed"

unfoldable pub release_outcome : Env → Option String
unfolding release_fault
release_outcome env =
    if not env.service_ready
    then some "driver_safety_release_unavailable"
    else release_fault env.release

abbrev released : ℕ → DriverSafetyState
released stamp = record { estop_active = false; reason = ""; stamp_ns = stamp }

-- The last section of `_finish_stop_operation`.
unfoldable pub end_finish : Option String → ℕ → ℕ → ℕ → Manager → Advanced
unfolding latch_stop_fault
end_finish (some reason) id stamp now m = latch_stop_fault id reason now m
end_finish none id stamp now m =
    let dropped = drop_operation id m in
    let seen = record dropped { arbitrator = tick now dropped.arbitrator } in
    if has_operations seen || has_fault seen || seen.arbitrator.estop_active
    then record { manager = seen; next = none; published = none }
    else record { manager = seen; next = none; published = some (released stamp) }

-- The last section of `_handle_estop_release`.
unfoldable pub end_lift : Option String → ℕ → ℕ → ℕ → Manager → Advanced
unfolding latch_stop_fault
end_lift (some reason) id stamp now m = latch_stop_fault id reason now m
end_lift none id stamp now m = record {
  manager = drop_operation id (record m { arbitrator = set_estop false now "estop" m.arbitrator });
  next = none;
  published = some (released stamp);
}

unfoldable pub advance : Point → Env → Manager → Advanced
unfolding after_announcing take_stamp publish_safety conclude_stop begin_finish end_finish
    release_outcome end_lift
advance (announcing id reason ids) env m = take_stamp (announced id reason ids) env.now_ns m
advance (announced id reason ids stamp) env m =
    publish_safety true reason stamp (after_announcing id ids) m
advance (stopping id ids) env m = conclude_stop id ids env m
advance (finishing id) env m = begin_finish id env.now m
advance (requesting id) env m = take_stamp (awaiting_release id) env.now_ns m
advance (awaiting_release id stamp) env m = end_finish (release_outcome env) id stamp env.now m
advance (fault_announcing reason) env m = take_stamp (fault_announced reason) env.now_ns m
advance (fault_announced reason stamp) env m = publish_safety true reason stamp none m
advance (lifting id) env m = take_stamp (awaiting_lift id) env.now_ns m
advance (awaiting_lift id stamp) env m = end_lift (release_outcome env) id stamp env.now m

-- The first section of `_handle_estop` for a stop.
unfoldable pub begin_estop : ℕ → Manager → Manager × Point
begin_estop now m =
    let stopped = record m { arbitrator = set_estop true now "estop" m.arbitrator } in
    let reason = or_else stopped.arbitrator.estop_reason "estop" in
    let ids = m.known_bus_actuator_ids in
    let (registered, id) = register_stop_operation stopped in
    if no_items ids
    then (stopped, announcing none reason [])
    else (registered, announcing (some id) reason ids)

-- The first section of `_handle_estop_release`.
unfoldable pub begin_lift : ℕ → Manager → Manager × Option Point
begin_lift now m =
    let seen = record m { arbitrator = tick now m.arbitrator } in
    let (registered, id) = register_stop_operation seen in
    if not seen.arbitrator.estop_active || has_fault m || has_operations m
    then (seen, none)
    else (registered, some (lifting id))

pub record StopRequest : Type 0 where
  pub identity : Identity
  pub lease_id : String
  pub actuator_type : String
  pub actuator_ids : List ℕ

abbrev nothing_sent : List ℕ → List (Option DriverAnswer)
nothing_sent [] = []
nothing_sent (id ∷ ids) = none ∷ nothing_sent ids

abbrev pub stop_refused : Bool → String → Bool → StopSummary → StopSummary
stop_refused accepted reason recoverable summary = record summary {
  accepted = accepted;
  reasons = reason ∷ [];
  recoverable = recoverable;
}

-- `_handle_stop_actuators` and `_begin_stop_operation`, up to the message of the stop.
unfoldable pub begin_stop_actuators : ℕ → StopRequest → Manager → Manager × (StopSummary ⊎ Point)
unfolding stop_summary
begin_stop_actuators now request m =
    let ids = request.actuator_ids in
    let (validation, arbitrator) =
      validate_task_operation now request.identity request.lease_id m.arbitrator in
    let seen = record m { arbitrator = arbitrator } in
    let (registered, id) = register_stop_operation seen in
    if not (lower (strip request.actuator_type) == "bus")
    then (
      m,
      inl (
          stop_refused false "unsupported_actuator_type" false
            (stop_summary ids (nothing_sent ids))),
    )
    else if no_items ids
    then (m, inl (stop_refused false "actuator_ids_required" false (stop_summary [] [])))
    else if not validation.accepted
    then (
      seen,
      inl (stop_refused false validation.reason true (stop_summary ids (nothing_sent ids))),
    )
    else (registered, inr (announcing (some id) "stop_operation" ids))
