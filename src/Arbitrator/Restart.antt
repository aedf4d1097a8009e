-- ===== src/Arbitrator/Restart.antt =====
-- A task that has ended is not started again, through any later calls.
use robot_runtime.Prelude.{
  Bool-cases, List, String, [], arith, contains, false, if◌then◌else◌, inl, inr, length, lower,
  nat_eq, none, refl, string_eq, strip, suc, sym, true, ℕ, ◌++◌, ◌+◌, ◌<◌, ◌∙◌, ◌∷◌, ◌≡◌, ◌≤◌, ◌≢◌,
  ◌==◌,
}
use robot_runtime.Arbitrator.Events.{Event, run, step, step-Inv, ticked}
use robot_runtime.Arbitrator.Invariant.{Inv, new-Inv}
use robot_runtime.Arbitrator.Memory.{given_of, Moves, step-Moves}
use robot_runtime.Arbitrator.Settled.{has_ended, held}
use robot_runtime.Arbitrator.Refresh.{is_task_control_active, refresh_mode, within}
use robot_runtime.Arbitrator.Estop.{tick}
use robot_runtime.Arbitrator.Replay.{IsBounded, remember-IsBounded, remember_later, remember_newest}
use robot_runtime.Arbitrator.Replies.{answer, reject_task_control}
use robot_runtime.Arbitrator.State.{Arbitrator, Config, Identity, identity_eq, new}
use robot_runtime.Arbitrator.TaskControl.{
  decide_task_control, log_task_request, receive_task_control, renew_or_reject, start_task,
  strip_identity, task_identity_mismatch_reason, task_lease_reason,
}
use robot_runtime.Arbitrator.Tombstones.{remember}
use robot_runtime.Prelude.Window.{IsRecent, contains_recent}

-- The tasks that end in a list of calls.
unfoldable pub endings : List Event → Arbitrator → List Identity
endings [] s = []
endings (e ∷ es) s =
    let t = step e s in
    let rest = endings es t in if has_ended s t then s.task.identity ∷ rest else rest

-- The memory is sound, and the task that holds the lease is not remembered as ended.
record IsKnown (limit : ℕ) (s : Arbitrator) : Type 0 where
  inv : Inv s
  limit_is : s.config.tombstone_limit ≡ limit
  bounded : IsBounded limit s.tombstones
  apart : held s ≡ true → contains s.task.identity s.tombstones.identity_set ≡ false

new-IsKnown : (config : Config) → IsKnown config.tombstone_limit (new config)
unfolding new
new-IsKnown config = record {
  inv = new-Inv config;
  limit_is = refl;
  bounded = record { memory = record { agrees = λ y. refl; distinct = tt }; bound = omega arith };
  apart = λ h. cc;
}

module _ (limit : ℕ) (positive : 1 ≤ limit) where
  memory_after :
      (s t : Arbitrator)
      → IsKnown limit s
      → Moves s t
      → t.tombstones
        ≡ (if has_ended s t then remember limit s.task.identity s.tombstones else s.tombstones)
  memory_after s t k m = m.memory ∙ rw k.limit_is refl

  Moves-IsKnown : (s t : Arbitrator) → IsKnown limit s → Inv t → Moves s t → IsKnown limit t
  Moves-IsKnown s t k inv m = record {
    inv = inv;
    limit_is = rw m.config k.limit_is;
    bounded = rw (memory_after s t k m) (elim (Bool-cases (has_ended s t)) [
      | inl ended ↦
          rw ended (remember-IsBounded limit positive s.task.identity s.tombstones k.bounded)
      | inr goes ↦ rw goes k.bounded
    ]);
    apart = λ h. elim (m.fresh h) [
      | inl (was, same, goes) ↦ rw (memory_after s t k m, goes, same) (k.apart was)
      | inr fresh ↦ fresh
    ];
  }

  step-IsKnown : (e : Event) (s : Arbitrator) → IsKnown limit s → IsKnown limit (step e s)
  step-IsKnown e s k = Moves-IsKnown s (step e s) k (step-Inv e k.inv) (step-Moves s k.inv e)

  run-IsKnown : (es : List Event) (s : Arbitrator) → IsKnown limit s → IsKnown limit (run es s)
  unfolding run
  run-IsKnown [] s k = k
  run-IsKnown (e ∷ es) s k = run-IsKnown es (step e s) (step-IsKnown e s k)

  later-IsRecent :
      (es : List Event) (s : Arbitrator) (i : Identity) (count : ℕ)
      → IsKnown limit s
      → IsRecent i count s.tombstones.identities
      → count + length (endings es s) < limit
      → contains i (run es s).tombstones.identities ≡ true
  unfolding run endings
  later-IsRecent [] s i count k h few = contains_recent i count s.tombstones.identities h
  later-IsRecent (e ∷ es) s i count k h few =
      let t = step e s in
      let known = step-IsKnown e s k in
      let after = memory_after s t k (step-Moves s k.inv e) in
      elim (Bool-cases (has_ended s t)) [
        | inl ended ↦
            let bound : count + suc (length (endings es t)) < limit = rw ended at few in
            let made : t.tombstones ≡ remember limit s.task.identity s.tombstones =
              after ∙ rw ended refl in
            later-IsRecent es t i (suc count) known
              (rw made (
                remember_later limit positive i s.task.identity count s.tombstones (omega arith) h))
              (omega arith)
        | inr goes ↦
            let bound : count + length (endings es t) < limit = rw goes at few in
            let made : t.tombstones ≡ s.tombstones = after ∙ rw goes refl in
            later-IsRecent es t i count known (rw made h) bound
      ]

last_tick : (now : ℕ) (s : Arbitrator) → run (ticked now ∷ []) s ≡ refresh_mode now s
unfolding run step tick
last_tick now s = refl

ended-IsRecent :
    (limit : ℕ) (positive : 1 ≤ limit) (e : Event) (s : Arbitrator)
    → IsKnown limit s
    → has_ended s (step e s) ≡ true
    → IsRecent s.task.identity 0 (step e s).tombstones.identities
ended-IsRecent limit positive e s k ended =
    let was : held s ≡ true = ground arith in
    let made = memory_after limit positive s (step e s) k (step-Moves s k.inv e) in
    rw (made, ended)
      (remember_newest limit positive s.task.identity s.tombstones (given_of s k.inv was)
        (k.apart was))

run-append : (xs ys : List Event) (s : Arbitrator) → run (xs ++ ys) s ≡ run ys (run xs s)
unfolding run
run-append [] ys s = refl
run-append (x ∷ xs) ys s = run-append xs ys (step x s)

-- A start with an identity that is remembered, while another task or none holds the lease.
module _ (action : String) (now : ℕ) (i : Identity) (lease_id : String) (r : Arbitrator)
    (there : contains i r.tombstones.identity_set ≡ true)
    (apart : held r ≡ true → contains r.task.identity r.tombstones.identity_set ≡ false) where
  other_task : held r ≡ true → (i == r.task.identity) ≡ false
  other_task was = elim (Bool-cases (i == r.task.identity)) [
    | inl same ↦ absurd (
        let is : i ≡ r.task.identity = (identity_eq.beq_iff i r.task.identity).0 same in
        let bad : true ≡ false = sym there ∙ (rw is (apart was)) in cc)
    | inr other ↦ other
  ]

  mismatch : (i == r.task.identity) ≡ false → task_identity_mismatch_reason i r ≢ none
  unfolding task_identity_mismatch_reason
  mismatch other h = ground arith

  renew_refused :
      task_identity_mismatch_reason i r ≢ none
      → (renew_or_reject action now i lease_id r).0.accepted ≡ false
  unfolding renew_or_reject task_lease_reason reject_task_control answer
  renew_refused other = ground arith

  start_refused : (start_task action now i lease_id r).0.accepted ≡ false
  unfolding start_task reject_task_control answer
  start_refused = elim (Bool-cases (is_task_control_active now r)) [
    | inl active ↦
        let was : held r ≡ true = unfold is_task_control_active in unfold within in ground arith in
        rw active (renew_refused (mismatch (other_task was)))
    | inr idle ↦ rw (idle, there) refl
  ]

  decide_refused :
      action == "start" ≡ true → (decide_task_control action now i lease_id r).0.accepted ≡ false
  unfolding decide_task_control reject_task_control answer
  decide_refused starts = rw starts (ground (arith, start_refused))

-- When the task that holds the lease ends by some call, after any calls on a new arbitrator, then a start
-- with its identity, stripped, is refused after any later calls, as long as fewer tasks than the limit of remembered
-- ones have ended since; a lease that runs out at the start itself is counted too.
pub ended_task_is_not_restarted :
    (config : Config) (earlier later : List Event) (e : Event) (request : Identity) (now : ℕ)
    (lease_id : String)
    → let s = run earlier (new config) in
      let t = step e s in
      has_ended s t ≡ true
      → strip_identity request ≡ s.task.identity
      → length (endings (later ++ (ticked now ∷ [])) t) < config.tombstone_limit
      → (receive_task_control "start" now request lease_id (run later t)).0.accepted ≡ false
unfolding receive_task_control log_task_request
ended_task_is_not_restarted config earlier later e request now lease_id ended named few =
    let limit = config.tombstone_limit in
    let positive : 1 ≤ limit = omega (arith, few) in
    let s = run earlier (new config) in
    let t = step e s in
    let calls = later ++ (ticked now ∷ []) in
    let before = run-IsKnown limit positive earlier (new config) (new-IsKnown config) in
    let after = step-IsKnown limit positive e s before in
    let u = run-IsKnown limit positive calls t after in
    let recent = ended-IsRecent limit positive e s before ended in
    let there =
      later-IsRecent limit positive calls t s.task.identity 0 after recent (omega (arith, few)) in
    let r = refresh_mode now (run later t) in
    let same : run calls t ≡ r =
      run-append later (ticked now ∷ []) t ∙ last_tick now (run later t) in
    let known : IsKnown limit r = rw same at u in
    let found : contains s.task.identity r.tombstones.identity_set ≡ true =
      known.bounded.memory.agrees s.task.identity ∙ (rw same at there) in
    decide_refused (lower (strip "start")) now (strip_identity request) (strip lease_id)
      (log_task_request (lower (strip "start")) (strip_identity request) r) (rw named found)
      known.apart (unfold strip in unfold lower in refl)
