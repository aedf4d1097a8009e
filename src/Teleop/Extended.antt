-- ===== src/Teleop/Extended.antt =====
-- Messages for the extensions.
use robot_runtime.Prelude.{
  List, Option, String, [], arith, contains, eq_iff, false, lower, none, some, string_eq, strip,
  true, ◌≡◌, ◌≢◌, ◌↔◌, ◌∷◌,
}
use robot_runtime.Teleop.Json.{Json}
use robot_runtime.Teleop.Messages.{
  explicit_message_type, get_message_type, is_builtin_message_type, register_message_handler,
  route_of, route_to_type, to_extension, MessageType,
}

-- The types after a list of registrations; one that raises leaves them as they are.
abbrev kept_types : Option (List String) → List String → List String
kept_types none before = before
kept_types (some after) before = after

unfoldable pub registered_after : List String → List String → List String
registered_after [] registered = registered
registered_after (msg_type ∷ types) registered =
    registered_after types (kept_types (register_message_handler msg_type registered) registered)

-- The registered types are neither built in nor empty.
abbrev IsRegistry : List String → Type 0
IsRegistry registered =
    (word : String)
    → contains word registered ≡ true
    → (is_builtin_message_type word ≡ false) × (word ≢ "")

register-IsRegistry :
    (msg_type : String) (registered : List String)
    → IsRegistry registered
    → IsRegistry (kept_types (register_message_handler msg_type registered) registered)
unfolding register_message_handler contains
register-IsRegistry msg_type registered h word =
    ground (arith, h word, eq_iff word (lower (strip msg_type)), eq_iff (lower (strip msg_type)) "")

registered_after-IsRegistry :
    (types registered : List String)
    → IsRegistry registered
    → IsRegistry (registered_after types registered)
unfolding registered_after
registered_after-IsRegistry [] registered h = h
registered_after-IsRegistry (msg_type ∷ types) registered h =
    registered_after-IsRegistry types _ (register-IsRegistry msg_type registered h)

not_to_extension :
    (type : Option MessageType) (word : String) → route_to_type type ≢ to_extension word
not_to_extension none word h = cc
not_to_extension (some type) word h = cc

-- Whatever types extensions have tried to register, a message that reaches `handle_message` goes to the
-- extension of a word exactly when the word is the type that the message names and a registration of it has succeeded.
pub extensions_get_their_messages :
    (types : List String) (message : Json) (word : String)
    → (route_of (registered_after types []) message ≡ to_extension word) ↔ (
        (explicit_message_type message ≡ word) × (contains word (registered_after types []) ≡ true))
unfolding route_of
extensions_get_their_messages types message word = ground (
  arith,
  registered_after-IsRegistry types [] (λ w h. cc) word,
  registered_after-IsRegistry types [] (λ w h. cc) (explicit_message_type message),
  eq_iff (explicit_message_type message) "",
  not_to_extension (get_message_type message) word,
)
