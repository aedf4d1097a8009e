-- ===== src/Router/Relayed.antt =====
-- What opens the latch of the router.
use robot_runtime.Prelude.{
  All, Bool, Bool-cases, List, String, [], arith, false, inl, inr, refl, true, ◌↔◌, ◌&&◌, ◌∷◌, ◌≡◌,
  ◌⊎◌,
}
use robot_runtime.Prelude.Int.{ℤ, ◌<ℤ◌}
use robot_runtime.Router.Relay.{
  SafetyInput, SafetyRequest, by_service, by_topic, on_driver_safety, receive_safety, all_true,
  applied_results, has_servos, relay_driver_safety, release_last, stop_first,
}
use robot_runtime.Router.Route.{Router}
use robot_runtime.SafetyLatch.Latch.{observe_authority, ros_time_to_ns}

-- The driver of the port applied the request, or the port has no servos.
abbrev pub IsApplied : (String → Bool) → String × List ℤ → Type 0
IsApplied call item = (has_servos item.1 ≡ false) ⊎ (call item.0 ≡ true)

module _ (call : String → Bool) where
  results-IsApplied :
      (items : List (String × List ℤ))
      → all_true (applied_results call items) ≡ true
      → All (IsApplied call) items
  unfolding all_true applied_results
  results-IsApplied [] h = tt
  results-IsApplied (item ∷ items) h = elim (Bool-cases (has_servos item.1)) [
    | inr empty ↦ (inl empty, results-IsApplied items (rw empty at h))
    | inl servos ↦
        let both : (call item.0 && all_true (applied_results call items)) ≡ true = rw servos at h in
        (inr (ground arith), results-IsApplied items (ground arith))
  ]

  module _ (items : List (String × List ℤ)) (now later : ℤ) (request : SafetyRequest)
      (r : Router) where
    -- A request that succeeds has been applied by the driver of every port with servos, and the router's
    -- own latch is as requested.
    pub success_is_everywhere :
        (relay_driver_safety call items now later request r).1.success ≡ true
        → All (IsApplied call) items
          × ((relay_driver_safety call items now later request r).0.safety_latch.latched
              ≡ request.estop_active)
    unfolding relay_driver_safety
    success_is_everywhere h = (results-IsApplied items (ground arith), ground arith)

    release_needs_every_port :
        r.safety_latch.latched ≡ true
        → (relay_driver_safety call items now later request r).0.safety_latch.latched ≡ false
        → All (IsApplied call) items
          × (request.estop_active ≡ false)
          × (r.safety_latch.fence_ns <ℤ ros_time_to_ns request.stamp)
          × (r.safety_latch.last_authority_ns <ℤ ros_time_to_ns request.stamp)
    unfolding relay_driver_safety release_last stop_first observe_authority
    release_needs_every_port h k =
        (results-IsApplied items (ground arith), ground arith, ground arith, ground arith)

IsApplied-results :
    (call : String → Bool) (items : List (String × List ℤ))
    → All (IsApplied call) items
    → all_true (applied_results call items) ≡ true
unfolding all_true applied_results
IsApplied-results call [] h = refl
IsApplied-results call (item ∷ items) h = elim (Bool-cases (has_servos item.1)) [
  | inr empty ↦ rw empty (IsApplied-results call items h.1)
  | inl servos ↦ rw servos (elim h.0 [
    | inl empty ↦ absurd (let bad : true ≡ false = rw servos at empty in cc)
    | inr applied ↦ rw (applied, IsApplied-results call items h.1) refl
  ])
]

opened_by_service :
    (call : String → Bool) (items : List (String × List ℤ)) (now later : ℤ)
    (request : SafetyRequest) (r : Router)
    → r.safety_latch.latched ≡ true
    → request.estop_active ≡ false
    → r.safety_latch.fence_ns <ℤ ros_time_to_ns request.stamp
    → r.safety_latch.last_authority_ns <ℤ ros_time_to_ns request.stamp
    → All (IsApplied call) items
    → (relay_driver_safety call items now later request r).0.safety_latch.latched ≡ false
unfolding relay_driver_safety release_last stop_first observe_authority
opened_by_service call items now later request r h release fence last all =
    rw (IsApplied-results call items all, release) (ground arith)

opened_by_topic :
    (now : ℤ) (msg : SafetyRequest) (r : Router)
    → r.safety_latch.latched ≡ true
    → ((on_driver_safety now msg r).safety_latch.latched ≡ false) ↔ (
        (msg.estop_active ≡ false)
        × (r.safety_latch.fence_ns <ℤ ros_time_to_ns msg.stamp)
        × (r.safety_latch.last_authority_ns <ℤ ros_time_to_ns msg.stamp)
        × Unit {0})
unfolding on_driver_safety observe_authority
opened_by_topic now msg r h = (
  λ k. (ground arith, ground arith, ground arith, tt),
  λ k. let release = k.0 in let fence = k.1 in let last = k.2 in ground arith,
)

abbrev pub message_of : SafetyInput → SafetyRequest
message_of (by_service request) = request
message_of (by_topic msg) = msg

-- By the service a latch opens on the word of every driver; by the topic it opens on the message alone.
abbrev pub IsAcknowledged : (String → Bool) → List (String × List ℤ) → SafetyInput → Type 0
IsAcknowledged call items (by_service request) = All (IsApplied call) items
IsAcknowledged call items (by_topic msg) = Unit {0}

-- A closed latch of the router opens only on a release whose stamp is later than the fence and than the
-- last authority; where it came by the service, every driver with servos has applied it. The message of
-- the topic needs no driver: each such release opens the latch.
pub release_opens_iff :
    (call : String → Bool) (items : List (String × List ℤ)) (now later : ℤ) (input : SafetyInput)
    (r : Router)
    → r.safety_latch.latched ≡ true
    → ((receive_safety call items now later input r).safety_latch.latched ≡ false) ↔ (
        ((message_of input).estop_active ≡ false)
        × (r.safety_latch.fence_ns <ℤ ros_time_to_ns (message_of input).stamp)
        × (r.safety_latch.last_authority_ns <ℤ ros_time_to_ns (message_of input).stamp)
        × IsAcknowledged call items input)
unfolding receive_safety
release_opens_iff call items now later (by_service request) r h = (
  λ k.
      let (all, is, fence, last) = release_needs_every_port call items now later request r h k in
      (is, fence, last, all),
  λ k. opened_by_service call items now later request r h k.0 k.1 k.2 k.3,
)
release_opens_iff call items now later (by_topic msg) r h = opened_by_topic now msg r h
