-- ===== src/Teleop/Leases.antt =====
-- The leases that the server keeps for its clients.
use robot_runtime.Prelude.{
  Bool-cases, List, String, [], arith, eq_iff, inl, inr, is_empty, nat_eq, not, refl, some,
  string_eq, strip, true, ℕ, ◌&&◌, ◌==◌, ◌≡◌, ◌⊎◌, ◌∷◌, All, ap, sym,
}
use robot_runtime.Teleop.Bridge.{
  View, handle_teleop_claim, handle_teleop_release, teleop_ack_payload,
}
use robot_runtime.Teleop.Server.{
  Client, LeaseWord, Request, answer_of, beat, claim, context_of, find_client, lease_from, no_word,
  query, release, remove_client, requester_teleop_status, set_lease, word_of_ack,
}

-- The lease is empty, or the state names the client as the active holder of this lease.
pub record IsGranted (view : View) (id lease_id : String) : Type 0 where
  pub active : view.teleop_active ≡ true
  pub holder : strip id ≡ view.teleop_holder_id
  pub lease : strip view.teleop_lease_id ≡ lease_id

-- One of the states that the server has seen grants the lease.
abbrev pub Earned : List View → String → String → Type 0
Earned [] id lease_id = lease_id ≡ ""
Earned (view ∷ older) id lease_id = IsGranted view id lease_id ⊎ Earned older id lease_id

pub unearned : (seen : List View) (id : String) → Earned seen id ""
unearned [] id = refl
unearned (view ∷ older) id = inr (unearned older id)

-- A word about the lease that the state gives to a client, or none.
pub record IsTrue (view : View) (id : String) (word : LeaseWord) : Type 0 where
  pub holder : word.known_holder_matches ≡ true → strip id ≡ view.teleop_holder_id
  pub active : word.known_teleop_active ≡ true → view.teleop_active ≡ true
  pub lease : word.known_teleop_active ≡ true → word.teleop_lease_id ≡ view.teleop_lease_id

pub no_word-IsTrue : (view : View) (id : String) → IsTrue view id no_word
unfolding no_word
no_word-IsTrue view id = ground arith

pub status-IsTrue :
    (view : View) (client : Client)
    → IsTrue view client.id (requester_teleop_status view (context_of client)).word
unfolding requester_teleop_status
status-IsTrue view client = ground (arith, eq_iff view.teleop_holder_id (strip client.id))

pub ack-IsTrue :
    (view : View) (client : Client)
    → IsTrue view client.id (word_of_ack (teleop_ack_payload view (context_of client)))
unfolding teleop_ack_payload
ack-IsTrue view client = ground (arith, eq_iff view.teleop_holder_id (strip client.id))

pub answer-IsTrue :
    (request : Request) (view : View) (client : Client)
    → IsTrue view client.id (answer_of request view (context_of client)).0
unfolding answer_of handle_teleop_claim handle_teleop_release
answer-IsTrue beat view client = no_word-IsTrue view client.id
answer-IsTrue claim view client = ack-IsTrue view client
answer-IsTrue release view client = ack-IsTrue view client
answer-IsTrue query view client = status-IsTrue view client

pub lease_from-Earned :
    (view : View) (older : List View) (id : String) (word : LeaseWord)
    → IsTrue view id word
    → Earned (view ∷ older) id (lease_from word)
unfolding lease_from
lease_from-Earned view older id word h =
    elim (Bool-cases (
      word.known_holder_matches
      && (word.known_teleop_active && not (is_empty (strip word.teleop_lease_id))))) [
        | inl given ↦ rw given (
            inl (record {
              active = h.active (ground arith);
              holder = h.holder (ground arith);
              lease = ap strip (sym (h.lease (ground arith)));
            }))
        | inr not_given ↦ rw not_given (inr (unearned older id))
      ]

-- Every client's lease is earned.
abbrev pub AllEarned : List View → List (ℕ × Client) → Type 0
AllEarned seen clients = All (λ p. Earned seen p.1.id p.1.teleop_lease_id) clients

pub set_lease-Earned :
    (seen : List View) (connection : ℕ) (lease_id : String) (client : Client)
    (clients : List (ℕ × Client))
    → find_client connection clients ≡ some client
    → Earned seen client.id lease_id
    → AllEarned seen clients
    → AllEarned seen (set_lease connection lease_id clients)
unfolding set_lease find_client
set_lease-Earned seen connection lease_id client [] h e k = tt
set_lease-Earned seen connection lease_id client ((other, c) ∷ clients) h e k =
    elim (Bool-cases (connection == other)) [
      | inl same ↦
          let found : some c ≡ some client = rw same at h in
          let eq : c ≡ client = cc in rw same (rw eq e, k.1)
      | inr differs ↦
          let found : find_client connection clients ≡ some client = rw differs at h in
          rw differs (k.0, set_lease-Earned seen connection lease_id client clients found e k.1)
    ]

pub clear_lease-Earned :
    (seen : List View) (connection : ℕ) (clients : List (ℕ × Client))
    → AllEarned seen clients
    → AllEarned seen (set_lease connection "" clients)
unfolding set_lease
clear_lease-Earned seen connection [] k = tt
clear_lease-Earned seen connection ((other, c) ∷ clients) k =
    elim (Bool-cases (connection == other)) [
      | inl same ↦ rw same (unearned seen c.id, k.1)
      | inr differs ↦ rw differs (k.0, clear_lease-Earned seen connection clients k.1)
    ]

pub remove_client-Earned :
    (seen : List View) (connection : ℕ) (clients : List (ℕ × Client))
    → AllEarned seen clients
    → AllEarned seen (remove_client connection clients)
unfolding remove_client
remove_client-Earned seen connection [] k = tt
remove_client-Earned seen connection ((other, c) ∷ clients) k =
    elim (Bool-cases (connection == other)) [
      | inl same ↦ rw same (remove_client-Earned seen connection clients k.1)
      | inr differs ↦ rw differs (k.0, remove_client-Earned seen connection clients k.1)
    ]
