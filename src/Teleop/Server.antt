-- ===== src/Teleop/Server.antt =====
-- ws_server.py and websocket_handler.py: the connections with the teleop lease that each of them is
-- known to hold, and what happens to it with messages, broadcasts and disconnections. A connection is a
-- number. The names of the clients are shown to other clients only, and left out.
use robot_runtime.Teleop.Parse.{ParsedCommand}
use robot_runtime.Prelude.{
  Bool, List, Option, String, [], false, if◌then◌else◌, is_empty, nat_eq, none, not, some,
  string_eq, strip, ℕ, ◌&&◌, ◌+◌, ◌==◌, ◌||◌, ◌∷◌,
}
use robot_runtime.Teleop.Bridge.{
  Context, Handled, TeleopAck, TeleopControl, View, handle_heartbeat, handle_servo_command,
  handle_teleop_claim, handle_teleop_release, no_view, Assigned,
}

pub record Client : Type 0 where
  pub id : String
  pub teleop_lease_id : String

-- `ids_made` counts the identifiers that `uuid4` has made.
pub record Server : Type 0 where
  pub clients : List (ℕ × Client)
  pub ids_made : ℕ
  pub view : View

unfoldable pub new_server : Server
unfolding no_view
new_server = record { clients = []; ids_made = 0; view = no_view }

unfoldable pub find_client : ℕ → List (ℕ × Client) → Option Client
find_client connection [] = none
find_client connection ((other, client) ∷ clients) =
    let rest = find_client connection clients in if connection == other then some client else rest

unfoldable pub remove_client : ℕ → List (ℕ × Client) → List (ℕ × Client)
remove_client connection [] = []
remove_client connection ((other, client) ∷ clients) =
    let rest = remove_client connection clients in
    if connection == other then rest else (other, client) ∷ rest

unfoldable pub set_lease : ℕ → String → List (ℕ × Client) → List (ℕ × Client)
set_lease connection lease_id [] = []
set_lease connection lease_id ((other, client) ∷ clients) =
    let rest = set_lease connection lease_id clients in
    if connection == other
    then (other, record client { teleop_lease_id = lease_id }) ∷ clients
    else (other, client) ∷ rest

-- `_get_or_create_client_info`
module _ (new_id : ℕ → String) where
  unfoldable pub connect : ℕ → Server → Server
  unfolding find_client
  connect connection s = elim (find_client connection s.clients) [
    | none ↦ record s {
      clients = (connection, record { id = new_id s.ids_made; teleop_lease_id = "" }) ∷ s.clients;
      ids_made = s.ids_made + 1;
    }
    | some client ↦ s
  ]

abbrev pub context_of : Client → Context
context_of client = record { requester_id = client.id; lease_id = client.teleop_lease_id }

-- What a payload for a client says of its lease; a payload with other entries only says nothing, which
-- reads as `no_word`.
pub record LeaseWord : Type 0 where
  pub teleop_lease_id : String
  pub known_holder_matches : Bool
  pub known_teleop_active : Bool

unfoldable pub no_word : LeaseWord
no_word = record { teleop_lease_id = ""; known_holder_matches = false; known_teleop_active = false }

pub record TeleopStatus : Type 0 where
  pub word : LeaseWord
  pub known_lease_matches : Bool
  pub control_confirmed : Bool

unfoldable pub requester_teleop_status : View → Context → TeleopStatus
requester_teleop_status view context =
    let requester = strip context.requester_id in
    let lease = strip context.lease_id in
    let holder_matches = not (is_empty requester) && view.teleop_holder_id == requester in
    let lease_matches = not (is_empty lease) && view.teleop_lease_id == lease in
    record {
      word = record {
        teleop_lease_id = view.teleop_lease_id;
        known_holder_matches = holder_matches;
        known_teleop_active = view.teleop_active;
      };
      known_lease_matches = lease_matches;
      control_confirmed =
          holder_matches
          && (view.teleop_active
              && (view.active_source == "teleop" && (is_empty lease || lease_matches)));
    }

-- `_sync_client_teleop_lease`, for a connection that is known.
unfoldable pub lease_from : LeaseWord → String
lease_from word =
    let lease_id = strip word.teleop_lease_id in
    if word.known_holder_matches && (word.known_teleop_active && not (is_empty lease_id))
    then lease_id
    else ""

unfoldable pub sync_lease : ℕ → LeaseWord → Server → Server
unfolding lease_from set_lease
sync_lease connection word s = record s {
  clients = set_lease connection (lease_from word) s.clients;
}

-- The state is broadcast to one client.
unfoldable pub broadcast_state : ℕ → Server → Server
unfolding sync_lease requester_teleop_status find_client
broadcast_state connection s = elim (find_client connection s.clients) [
  | none ↦ s
  | some client ↦ sync_lease connection (requester_teleop_status s.view (context_of client)).word s
]

unfoldable pub update_execution_state : View → Server → Server
update_execution_state view s = record s { view = view }

abbrev pub word_of_ack : TeleopAck → LeaseWord
word_of_ack ack = record {
  teleop_lease_id = ack.teleop_lease_id;
  known_holder_matches = ack.known_holder_matches;
  known_teleop_active = ack.known_teleop_active;
}

-- The requests whose answers are looked at for a word on the lease. Servo commands of their own type,
-- and those in private messages to the robot, are answered without that look (`client_command`).
pub data Request : Type 0 where
  beat : Request
  claim : Request
  release : Request
  query : Request

-- What the answer to a request says of the lease, and what is published. An answer to a heartbeat holds
-- no entry of the lease.
unfoldable pub answer_of : Request → View → Context → LeaseWord × Option TeleopControl
unfolding requester_teleop_status no_word
answer_of beat view context = (no_word, handle_heartbeat view context)
answer_of claim view context =
    let (control, ack) = handle_teleop_claim view context in (word_of_ack ack, some control)
answer_of release view context =
    let (control, ack) = handle_teleop_release view context in (word_of_ack ack, some control)
answer_of query view context = ((requester_teleop_status view context).word, none)

-- `handle_message` and the look at its response.
unfoldable pub process_request : ℕ → Request → Server → Server × Option TeleopControl
unfolding answer_of sync_lease find_client
process_request connection request s = elim (find_client connection s.clients) [
  | none ↦ (s, none)
  | some client ↦
      let (word, control) = answer_of request s.view (context_of client) in
      (sync_lease connection word s, control)
]

-- The end of a connection: its lease is released, whether or not it holds one.
unfoldable pub disconnect : ℕ → Server → Server × Option TeleopControl
unfolding remove_client find_client
disconnect connection s = elim (find_client connection s.clients) [
  | none ↦ (s, none)
  | some client ↦ (
    record s { clients = remove_client connection s.clients },
    some (handle_teleop_release s.view (context_of client)).0,
  )
]

-- A servo command of a client, on its context.
unfoldable pub client_command : Assigned → ℕ → ParsedCommand → Server → Option Handled
unfolding find_client
client_command assigned connection command s = elim (find_client connection s.clients) [
  | none ↦ none
  | some client ↦ some (handle_servo_command assigned s.view command (context_of client))
]

-- A servo command in a message without a type: the answer is looked at, and says nothing of the lease.
unfoldable pub untyped_command : Assigned → ℕ → ParsedCommand → Server → Server × Option Handled
unfolding client_command sync_lease no_word
untyped_command assigned connection command s =
    (sync_lease connection no_word s, client_command assigned connection command s)
