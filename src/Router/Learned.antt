-- ===== src/Router/Learned.antt =====
-- What the services of the router answer and learn.
use mathlib.Core.Path.{subst}
use robot_runtime.Prelude.{
  All, Bool, Bool-cases, List, Option, String, [], arith, false, inl, inr, lower, nat_eq, none,
  refl, some, string_eq, strip, true, ◌==◌, ◌∷◌, ◌≡◌, ◌⊎◌,
}
use robot_runtime.Driver.Execute.{Request, Response, execute_error}
use robot_runtime.Driver.Executed.{motion_admitted}
use robot_runtime.Prelude.Int.{pos, ℤ, ◌<ℤ◌}
use robot_runtime.Router.Registry.{
  Registry, by_priority, find, get_protocol, given, is_valid_protocol, range_protocol, set_protocol,
}
use robot_runtime.Router.Resolved.{get_put, valid_normal}
use robot_runtime.Router.Route.{Router, update_registry}
use robot_runtime.Router.Service.{
  ReadResponse, first_or, first_success, known_order, read_at, read_answer, read_error,
  read_succeeds, resolve_protocol_order, route_execute_command, route_read_position,
}
use robot_runtime.SafetyLatch.Fence.{admit_motion_facts}
use robot_runtime.SafetyLatch.Latch.{admit_motion, ros_time_to_ns}
use robot_runtime.SafetyLatch.Names.{is_motion_command, is_stop_command}

abbrev IsValid : String → Type 0
IsValid p = is_valid_protocol p ≡ true

known_order-IsValid : (known : Option String) → All IsValid (known_order known)
unfolding known_order is_valid_protocol
known_order-IsValid none = (refl, (refl, tt))
known_order-IsValid (some p) = elim (Bool-cases (is_valid_protocol p)) [
  | inr other ↦ rw other (refl, (refl, tt))
  | inl good ↦ elim (Bool-cases (p == "lx")) [
    | inl lx ↦ rw ((string_eq.beq_iff p "lx").0 lx) (refl, (refl, tt))
    | inr no_lx ↦
        let zl : (p == "zl") ≡ true = ground arith in
        rw ((string_eq.beq_iff p "zl").0 zl) (refl, (refl, tt))
  ]
]

order-IsValid :
    (requested : String) (sid : ℤ) (registry : Registry)
    → All IsValid (resolve_protocol_order requested sid registry)
unfolding resolve_protocol_order
order-IsValid requested sid registry =
    elim (Bool-cases (is_valid_protocol (lower (strip requested)))) [
      | inl good ↦ rw good (good, tt)
      | inr other ↦ rw other (known_order-IsValid (get_protocol sid registry).0)
    ]

-- The protocol of a first success is one of those tried, and its call brought that success.
record IsAnswered {A : Type 0} (is_success : A → Bool) (call : String → Option A)
    (found : String × A) : Type 0 where
  pub valid : IsValid found.0
  pub called : call found.0 ≡ some found.1
  pub success : is_success found.1 ≡ true

module _ {A : Type 0} (is_success : A → Bool) (call : String → Option A) (found : String × A) where
  first_called :
      (protocol : String) (protocols : List String) (answer : Option A)
      → IsValid protocol
      → call protocol ≡ answer
      → (first_success is_success call protocols ≡ some found → IsAnswered is_success call found)
      → first_success is_success call (protocol ∷ protocols) ≡ some found
      → IsAnswered is_success call found
  unfolding first_success first_or
  first_called protocol protocols none v c rest h = rest (rw (c, first_or) at h)
  first_called protocol protocols (some a) v c rest h = elim (Bool-cases (is_success a)) [
    | inl good ↦
        let answered : some (protocol, a) ≡ some found = rw (c, first_or, good) at h in
        let same : (protocol, a) ≡ found = cc in
        subst (IsAnswered is_success call) same (record { valid = v; called = c; success = good })
    | inr bad ↦ rest (rw (c, first_or, bad) at h)
  ]

  first-IsAnswered :
      (protocols : List String)
      → All IsValid protocols
      → first_success is_success call protocols ≡ some found
      → IsAnswered is_success call found
  unfolding first_success
  first-IsAnswered [] v h = cc
  first-IsAnswered (protocol ∷ protocols) v h =
      first_called protocol protocols (call protocol) v.0 refl (first-IsAnswered protocols v.1) h

-- The servo's port answered, for the protocol of the response, with the position of the response; and
-- the registry now gives that protocol, unless the manual map names another.
pub record IsFromServo (call : String → String → Option ReadResponse) (sid : ℤ) (r next : Router)
    (response : ReadResponse) : Type 0 where
  pub port : String
  pub there : find sid r.id_to_port ≡ some port
  pub answer : ReadResponse
  pub reply : call port response.answered_by ≡ some answer
  pub replied : answer.success ≡ true
  pub position : response.position ≡ answer.position
  pub learned :
      get_protocol sid next.registry
      ≡ by_priority
          (given (find sid r.registry.manual_map))
          (some response.answered_by)
          (range_protocol sid r.registry)

module _ (call : String → String → Option ReadResponse) (sid : ℤ) (requested : String)
    (r : Router) where
  answer-IsFromServo :
      (port : String) (first : Option (String × ReadResponse))
      → find sid r.id_to_port ≡ some port
      → first_success read_succeeds
          (call port)
          (resolve_protocol_order (lower (strip requested)) sid r.registry)
        ≡ first
      → (read_answer sid first r).1.success ≡ true
      → IsFromServo call sid r (read_answer sid first r).0 (read_answer sid first r).1
  unfolding read_answer update_registry set_protocol read_error
  answer-IsFromServo port none there f h = cc
  answer-IsFromServo port (some found) there f h =
      let first =
        first-IsAnswered read_succeeds (call port) found
          (resolve_protocol_order (lower (strip requested)) sid r.registry)
          (order-IsValid (lower (strip requested)) sid r.registry) f in
      let normal = valid_normal found.0 first.valid in
      record {
        port = port;
        there = there;
        answer = found.1;
        reply = first.called;
        replied = first.success;
        position = refl;
        learned = rw normal (get_put sid found.0 "read_service" r.registry normal);
      }

  found-IsFromServo :
      (known : Option String)
      → find sid r.id_to_port ≡ known
      → (read_at call known sid (lower (strip requested)) r).1.success ≡ true
      → IsFromServo call sid r
          (read_at call known sid (lower (strip requested)) r).0
          (read_at call known sid (lower (strip requested)) r).1
  unfolding read_at read_error
  found-IsFromServo none there h = cc
  found-IsFromServo (some port) there h = answer-IsFromServo port _ there refl h

  -- A position that the router answers was read on the servo's own port, with the protocol that the
  -- response names, and this protocol is what the registry then gives for the servo, unless the manual
  -- map names one.
  pub read_learns :
      (route_read_position call sid requested r).1.success ≡ true
      → IsFromServo call sid r
          (route_read_position call sid requested r).0
          (route_read_position call sid requested r).1
  unfolding route_read_position
  read_learns h = found-IsFromServo (find sid r.id_to_port) refl h

-- A command to move succeeds at the router only when its latch is open and the request's stamp is
-- behind the stop fence, where there was a stop.
pub routed_moves_are_admitted :
    (call : String → String → Option Response) (now : ℤ) (request : Request) (r : Router)
    → is_stop_command request.command ≡ false
    → is_motion_command request.command ≡ true
    → (route_execute_command call now request r).1.success ≡ true
    → (r.safety_latch.latched ≡ false)
      × ((r.safety_latch.fence_ns ≡ pos 0)
          ⊎ (r.safety_latch.fence_ns <ℤ ros_time_to_ns request.stamp))
unfolding route_execute_command execute_error
routed_moves_are_admitted call now request r no_stop motion h =
    elim (Bool-cases (admit_motion (ros_time_to_ns request.stamp) r.safety_latch)) [
      | inl admitted ↦ admit_motion_facts (ros_time_to_ns request.stamp) r.safety_latch admitted
      | inr refused ↦ absurd (
          let failed : false ≡ true =
            rw
              (
                no_stop,
                motion,
                motion_admitted request.command now (ros_time_to_ns request.stamp) r.safety_latch
                    no_stop motion,
                refused,
              )
              at h in
          cc)
    ]
