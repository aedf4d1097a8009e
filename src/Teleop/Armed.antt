-- ===== src/Teleop/Armed.antt =====
-- When a connection may command: after a broadcast of the state, and after a heartbeat.
use robot_runtime.Prelude.{
  Bool-cases, List, String, [], arith, eq_iff, inl, inr, nat_eq, none, refl, some, string_eq, strip,
  true, ℕ, ◌==◌, ◌≡◌, ◌≢◌, ◌↔◌, ◌∷◌, ap,
}
use robot_runtime.Manager.Commands.{MotionCommand}
use robot_runtime.Teleop.Bridge.{
  Assigned, View, published, teleop_control, handle_heartbeat, teleop_rejection_reason,
  teleop_control_is_active, handle_servo_command,
}
use robot_runtime.Teleop.Driven.{published_is_allowed}
use robot_runtime.Teleop.Parse.{ParsedCommand}
use robot_runtime.Teleop.Server.{
  Client, Server, answer_of, beat, broadcast_state, client_command, context_of, find_client,
  lease_from, no_word, process_request, requester_teleop_status, set_lease, sync_lease,
}

abbrev leased : String → Client → Client
leased lease_id client = record client { teleop_lease_id = lease_id }

find-set_lease :
    (connection : ℕ) (lease_id : String) (client : Client) (clients : List (ℕ × Client))
    → find_client connection clients ≡ some client
    → find_client connection (set_lease connection lease_id clients)
      ≡ some (record client { teleop_lease_id = lease_id })
unfolding find_client set_lease
find-set_lease connection lease_id client [] h = absurd (cc)
find-set_lease connection lease_id client ((other, c) ∷ clients) h =
    elim (Bool-cases (connection == other)) [
      | inl same ↦
          let found : some c ≡ some client = rw same at h in
          let eq : c ≡ client = cc in rw (same, same) (ap (λ k. some (leased lease_id k)) eq)
      | inr differs ↦
          let found : find_client connection clients ≡ some client = rw differs at h in
          rw (differs, differs) (find-set_lease connection lease_id client clients found)
    ]

-- The lease of a client after a broadcast.
abbrev told : View → Client → String
told view client = lease_from (requester_teleop_status view (context_of client)).word

strip_empty : strip "" ≡ ""
unfolding strip
strip_empty = refl

told_is_enough :
    (view : View) (client : Client)
    → strip view.teleop_lease_id ≡ view.teleop_lease_id
    → (teleop_rejection_reason view (strip client.id) (strip (told view client)) ≡ none) ↔ (
        (view.teleop_active ≡ true)
        × (view.active_source ≡ "teleop")
        × (strip client.id ≢ "")
        × (view.teleop_holder_id ≡ strip client.id))
unfolding teleop_rejection_reason lease_from requester_teleop_status
told_is_enough view client stripped = ground (
  arith,
  strip_empty,
  eq_iff view.active_source "teleop",
  eq_iff view.teleop_holder_id (strip client.id),
  eq_iff (strip client.id) "",
  eq_iff view.teleop_lease_id "",
  eq_iff (strip view.teleop_lease_id) "",
  eq_iff view.teleop_lease_id (strip view.teleop_lease_id),
)

-- After the state has been broadcast to a client, a command of this client is allowed exactly when the
-- state says that teleop is active and the source in charge, and that the client, whose identifier is
-- not empty, holds it. The lease in the state is stripped.
pub broadcast_arms_holder :
    (connection : ℕ) (client : Client) (s : Server)
    → find_client connection s.clients ≡ some client
    → strip s.view.teleop_lease_id ≡ s.view.teleop_lease_id
    → (after : Client) × (find_client connection (broadcast_state connection s).clients
        ≡ some after)
      × ((teleop_rejection_reason s.view (strip after.id) (strip after.teleop_lease_id) ≡ none) ↔ (
          (s.view.teleop_active ≡ true)
          × (s.view.active_source ≡ "teleop")
          × (strip client.id ≢ "")
          × (s.view.teleop_holder_id ≡ strip client.id)))
unfolding broadcast_state sync_lease
broadcast_arms_holder connection client s found stripped = (
  record client { teleop_lease_id = told s.view client },
  rw (found, broadcast_state)
      (find-set_lease connection (told s.view client) client s.clients found),
  told_is_enough s.view client stripped,
)

no_lease_is_refused :
    (view : View) (id : String)
    → view.teleop_lease_id ≢ ""
    → teleop_rejection_reason view (strip id) (strip "") ≢ none
unfolding teleop_rejection_reason
no_lease_is_refused view id held = ground (arith, strip_empty, eq_iff view.teleop_lease_id "")

active_if_allowed :
    (view : View) (requester_id lease_id : String)
    → teleop_rejection_reason view requester_id lease_id ≡ none
    → teleop_control_is_active view ≡ true
unfolding teleop_rejection_reason teleop_control_is_active
active_if_allowed view requester_id lease_id h = ground arith

-- A connection without a lease.
unleased_command :
    (assigned : Assigned) (connection : ℕ) (client : Client) (s : Server) (command : ParsedCommand)
    (msg : MotionCommand)
    → find_client connection s.clients ≡ some (leased "" client)
    → s.view.teleop_lease_id ≢ ""
    → client_command assigned connection command s ≢ some (published msg)
unfolding client_command
unleased_command assigned connection client s command msg found held h =
    let handled : some
          (handle_servo_command assigned s.view command (context_of (leased "" client)))
        ≡ some (published msg) =
      rw (found, client_command) at h in
    no_lease_is_refused s.view client.id held
      (published_is_allowed assigned s.view command (context_of (leased "" client)) msg (cc))

after_beat :
    (connection : ℕ) (client : Client) (s : Server)
    → find_client connection s.clients ≡ some client
    → process_request connection beat s ≡ (
      record s { clients = set_lease connection "" s.clients },
      handle_heartbeat s.view (context_of client),
    )
unfolding process_request answer_of sync_lease lease_from no_word
after_beat connection client s found = rw (found, process_request) refl

-- A heartbeat of the client that holds teleop is handed on as a request to keep it, and its answer
-- takes the lease from the client's connection: while the state stays, no command of this client is
-- published any more, whatever it asks for.
pub heartbeat_loses_lease :
    (assigned : Assigned) (connection : ℕ) (client : Client) (s : Server)
    → find_client connection s.clients ≡ some client
    → teleop_rejection_reason s.view (strip client.id) (strip client.teleop_lease_id) ≡ none
    → s.view.teleop_lease_id ≢ ""
    → ((process_request connection beat s).1
        ≡ some (teleop_control "keepalive" (context_of client)))
      × ((command : ParsedCommand) (msg : MotionCommand)
          → client_command assigned connection command (process_request connection beat s).0
            ≢ some (published msg))
unfolding handle_heartbeat
heartbeat_loses_lease assigned connection client s found allowed held =
    let active = active_if_allowed s.view _ _ allowed in
    rw (after_beat connection client s found) (
      rw active refl,
      λ command msg.
          unleased_command assigned connection client
            (record s { clients = set_lease connection "" s.clients }) command msg
            (find-set_lease connection "" client s.clients found) held,
    )
