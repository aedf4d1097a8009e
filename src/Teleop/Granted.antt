-- ===== src/Teleop/Granted.antt =====
-- Every lease that the server keeps was granted: by induction on what happens to it.
use mathlib.Core.Path.{subst}
use robot_runtime.Prelude.{
  List, Option-cases, String, [], inl, inr, nat_eq, refl, some, string_eq, ℕ, ◌≡◌, ◌∷◌, All-map,
}
use robot_runtime.Teleop.Bridge.{Assigned, View, no_view}
use robot_runtime.Teleop.Parse.{ParsedCommand}
use robot_runtime.Teleop.Server.{
  Client, LeaseWord, Request, Server, broadcast_state, connect, disconnect, find_client, lease_from,
  new_server, no_word, process_request, sync_lease, untyped_command, update_execution_state,
}
use robot_runtime.Teleop.Leases.{
  AllEarned, IsTrue, answer-IsTrue, clear_lease-Earned, lease_from-Earned, remove_client-Earned,
  set_lease-Earned, status-IsTrue, unearned,
}

pub data Event : Type 0 where
  connected : ℕ → Event
  disconnected : ℕ → Event
  state_came : View → Event
  state_broadcast : ℕ → Event
  requested : ℕ → Request → Event
  commanded : ℕ → ParsedCommand → Event

module _ (new_id : ℕ → String) (assigned : Assigned) where
  unfoldable pub apply : Event → Server → Server
  apply (connected connection) s = connect new_id connection s
  apply (disconnected connection) s = (disconnect connection s).0
  apply (state_came view) s = update_execution_state view s
  apply (state_broadcast connection) s = broadcast_state connection s
  apply (requested connection request) s = (process_request connection request s).0
  apply (commanded connection command) s = (untyped_command assigned connection command s).0

  unfoldable pub run : List Event → Server → Server
  run [] s = s
  run (event ∷ events) s = run events (apply event s)

-- The states that the server holds, the latest first; before the first one it holds none.
abbrev pub seen_after : List Event → List View → List View
seen_after [] seen = seen
seen_after (state_came view ∷ events) seen = seen_after events (view ∷ seen)
seen_after (connected c ∷ events) seen = seen_after events seen
seen_after (disconnected c ∷ events) seen = seen_after events seen
seen_after (state_broadcast c ∷ events) seen = seen_after events seen
seen_after (requested c request ∷ events) seen = seen_after events seen
seen_after (commanded c command ∷ events) seen = seen_after events seen

-- The clients keep what they earn, and the state stays.
record Keeps (older : List View) (s t : Server) : Type 0 where
  clients : AllEarned (s.view ∷ older) t.clients
  view : t.view ≡ s.view

module _ (older : List View) (connection : ℕ) (s : Server)
    (k : AllEarned (s.view ∷ older) s.clients) where
  connect-Keeps : (new_id : ℕ → String) → Keeps older s (connect new_id connection s)
  unfolding connect
  connect-Keeps new_id = elim (Option-cases (find_client connection s.clients)) [
    | inl missing ↦
        rw (missing, connect) (record { clients = (unearned (s.view ∷ older) _, k); view = refl })
    | inr (client, found) ↦ rw (found, connect) (record { clients = k; view = refl })
  ]

  disconnect-Keeps : Keeps older s (disconnect connection s).0
  unfolding disconnect
  disconnect-Keeps = elim (Option-cases (find_client connection s.clients)) [
    | inl missing ↦ rw (missing, disconnect) (record { clients = k; view = refl })
    | inr (client, found) ↦
        rw (found, disconnect)
          (record {
            clients = remove_client-Earned (s.view ∷ older) connection s.clients k;
            view = refl;
          })
  ]

  synced-Keeps :
      (client : Client) (word : LeaseWord)
      → find_client connection s.clients ≡ some client
      → IsTrue s.view client.id word
      → Keeps older s (sync_lease connection word s)
  unfolding sync_lease
  synced-Keeps client word found h = record {
    clients =
        set_lease-Earned (s.view ∷ older) connection (lease_from word) client s.clients found
          (lease_from-Earned s.view older client.id word h) k;
    view = refl;
  }

  broadcast-Keeps : Keeps older s (broadcast_state connection s)
  unfolding broadcast_state
  broadcast-Keeps = elim (Option-cases (find_client connection s.clients)) [
    | inl missing ↦ rw (missing, broadcast_state) (record { clients = k; view = refl })
    | inr (client, found) ↦
        rw (found, broadcast_state) (synced-Keeps client _ found (status-IsTrue s.view client))
  ]

  process-Keeps : (request : Request) → Keeps older s (process_request connection request s).0
  unfolding process_request
  process-Keeps request = elim (Option-cases (find_client connection s.clients)) [
    | inl missing ↦ rw (missing, process_request) (record { clients = k; view = refl })
    | inr (client, found) ↦
        rw (found, process_request)
          (synced-Keeps client _ found (answer-IsTrue request s.view client))
  ]

  untyped-Keeps :
      (assigned : Assigned) (command : ParsedCommand)
      → Keeps older s (untyped_command assigned connection command s).0
  unfolding untyped_command sync_lease lease_from no_word
  untyped-Keeps assigned command = record {
    clients = clear_lease-Earned (s.view ∷ older) connection s.clients k;
    view = refl;
  }

module _ (new_id : ℕ → String) (assigned : Assigned) where
  on_from :
      (events : List Event) (older : List View) (s t : Server)
      → ((u : Server) (seen : List View)
          → AllEarned (u.view ∷ seen) u.clients
          → AllEarned (seen_after events (u.view ∷ seen)) (run new_id assigned events u).clients)
      → Keeps older s t
      → AllEarned (seen_after events (s.view ∷ older)) (run new_id assigned events t).clients
  on_from events older s t later kept =
      let same : t.view ≡ s.view = kept.view in
      subst (λ v. AllEarned (seen_after events (v ∷ older)) (run new_id assigned events t).clients)
        same (later t older (rw same kept.clients))

  run-Earned :
      (events : List Event) (s : Server) (older : List View)
      → AllEarned (s.view ∷ older) s.clients
      → AllEarned (seen_after events (s.view ∷ older)) (run new_id assigned events s).clients
  unfolding run apply update_execution_state
  run-Earned [] s older k = k
  run-Earned (connected c ∷ events) s older k =
      on_from events older s _ (run-Earned events) (connect-Keeps older c s k new_id)
  run-Earned (disconnected c ∷ events) s older k =
      on_from events older s _ (run-Earned events) (disconnect-Keeps older c s k)
  run-Earned (state_came view ∷ events) s older k =
      run-Earned events (update_execution_state view s) (s.view ∷ older)
        (All-map (λ p e. inr e) s.clients k)
  run-Earned (state_broadcast c ∷ events) s older k =
      on_from events older s _ (run-Earned events) (broadcast-Keeps older c s k)
  run-Earned (requested c request ∷ events) s older k =
      on_from events older s _ (run-Earned events) (process-Keeps older c s k request)
  run-Earned (commanded c command ∷ events) s older k =
      on_from events older s _ (run-Earned events) (untyped-Keeps older c s k assigned command)

  -- Whatever happens to the server, every lease that it keeps for a client is empty, or one of the
  -- states that came names this client as the active holder of this lease.
  pub leases_are_granted :
      (events : List Event)
      → AllEarned (seen_after events (no_view ∷ [])) (run new_id assigned events new_server).clients
  unfolding new_server
  leases_are_granted events = run-Earned events new_server [] tt
