-- ===== src/Arbitrator/Replay.antt =====
-- The memory of tasks that ended lately, when one more is remembered.
use robot_runtime.Prelude.{
  Bool-cases, List, [], arith, contains, false, inl, inr, leb, length, length-append, nat_eq, not,
  refl, string_eq, suc, true, ℕ, ◌<◌, ◌||◌, ◌∙◌, ◌∷◌, ◌≡◌, ◌≤◌,
}
use robot_runtime.Arbitrator.State.{Identity, Tombstones, identity_eq}
use robot_runtime.Arbitrator.Tombstones.{
  add_identity, all_given, forget_oldest, make_room, remember,
}
use robot_runtime.Prelude.Window.{
  IsMemory, IsRecent, contains-discard, pop-IsMemory, pop-IsRecent, push-IsMemory, push-IsRecent,
}

-- The set agrees with the deque, which is within the limit.
pub record IsBounded (limit : ℕ) (t : Tombstones) : Type 0 where
  pub memory : IsMemory t.identities t.identity_set
  pub bound : length t.identities ≤ limit

module _ (limit : ℕ) (positive : 1 ≤ limit) where
  forget_oldest-IsMemory :
      (identities identity_set : List Identity)
      → IsMemory identities identity_set
      → IsMemory
          (forget_oldest
            (record { identities = identities; identity_set = identity_set })).identities
          (forget_oldest
            (record { identities = identities; identity_set = identity_set })).identity_set
  unfolding forget_oldest
  forget_oldest-IsMemory [] ids h = h
  forget_oldest-IsMemory (x ∷ xs) ids h = pop-IsMemory x xs ids h

  forget_oldest-length :
      (identities identity_set : List Identity)
      → length identities ≤ limit
      → suc (
          length
            (forget_oldest
              (record { identities = identities; identity_set = identity_set })).identities)
        ≤ limit
  unfolding forget_oldest
  forget_oldest-length [] ids h = omega arith
  forget_oldest-length (x ∷ xs) ids h = omega arith

  make_room-IsMemory :
      (t : Tombstones)
      → IsMemory t.identities t.identity_set
      → IsMemory (make_room limit t).identities (make_room limit t).identity_set
  unfolding make_room
  make_room-IsMemory t h = elim (Bool-cases (leb limit (length t.identities))) [
    | inl full ↦ rw full (forget_oldest-IsMemory t.identities t.identity_set h)
    | inr room ↦ rw room h
  ]

  make_room-length :
      (t : Tombstones)
      → length t.identities ≤ limit
      → suc (length (make_room limit t).identities) ≤ limit
  unfolding make_room
  make_room-length t h = elim (Bool-cases (leb limit (length t.identities))) [
    | inl full ↦ rw full (forget_oldest-length t.identities t.identity_set h)
    | inr room ↦ rw room (ground arith)
  ]

  forget_oldest-IsRecent :
      (identities identity_set : List Identity) (i : Identity) (count : ℕ)
      → suc count < length identities
      → IsRecent i count identities
      → IsRecent i count
          (forget_oldest
            (record { identities = identities; identity_set = identity_set })).identities
  unfolding forget_oldest
  forget_oldest-IsRecent [] ids i count long h = h
  forget_oldest-IsRecent (x ∷ xs) ids i count long h = pop-IsRecent i x count xs h long

  make_room-IsRecent :
      (t : Tombstones) (i : Identity) (count : ℕ)
      → suc count < limit
      → IsRecent i count t.identities
      → IsRecent i count (make_room limit t).identities
  unfolding make_room
  make_room-IsRecent t i count small h = elim (Bool-cases (leb limit (length t.identities))) [
    | inl full ↦
        rw full (forget_oldest-IsRecent t.identities t.identity_set i count (ground arith) h)
    | inr room ↦ rw room h
  ]

  make_room_members :
      (i : Identity) (t : Tombstones)
      → IsMemory t.identities t.identity_set
      → contains i t.identity_set ≡ false
      → contains i (make_room limit t).identity_set ≡ false
  unfolding make_room
  make_room_members i t h fresh = elim (Bool-cases (leb limit (length t.identities))) [
    | inl full ↦ rw full (forgotten t.identities t.identity_set fresh)
    | inr room ↦ rw room fresh
  ]
    where
      forgotten :
          (identities ids : List Identity)
          → contains i ids ≡ false
          → contains i
              (forget_oldest (record { identities = identities; identity_set = ids })).identity_set
            ≡ false
      forgotten [] ids e = unfold forget_oldest in e
      forgotten (x ∷ xs) ids e =
          unfold forget_oldest in (contains-discard i x ids ∙ ground (arith, e))

  pub remember-IsBounded :
      (i : Identity) (t : Tombstones) → IsBounded limit t → IsBounded limit (remember limit i t)
  unfolding remember add_identity
  remember-IsBounded i t h = elim (Bool-cases (not (all_given i) || contains i t.identity_set)) [
    | inl known ↦ rw known h
    | inr fresh ↦
        let rest = make_room limit t in
        rw fresh (record {
          memory =
              push-IsMemory i rest.identities rest.identity_set (make_room-IsMemory t h.memory)
                (make_room_members i t h.memory (ground arith));
          bound = omega (arith, length-append rest.identities (i ∷ []), make_room-length t h.bound);
        })
  ]

  pub remember_newest :
      (i : Identity) (t : Tombstones)
      → all_given i ≡ true
      → contains i t.identity_set ≡ false
      → IsRecent i 0 (remember limit i t).identities
  unfolding remember add_identity
  remember_newest i t given fresh =
      rw (given, fresh)
        (record {
          older = (make_room limit t).identities;
          newer = [];
          place = refl;
          few = omega arith;
        })

  pub remember_later :
      (i j : Identity) (count : ℕ) (t : Tombstones)
      → suc count < limit
      → IsRecent i count t.identities
      → IsRecent i (suc count) (remember limit j t).identities
  unfolding remember add_identity
  remember_later i j count t small h =
      elim (Bool-cases (not (all_given j) || contains j t.identity_set)) [
        | inl known ↦ rw known (record {
          older = h.older;
          newer = h.newer;
          place = h.place;
          few = let k = h.few in omega arith;
        })
        | inr fresh ↦ rw fresh (
            push-IsRecent i j count (make_room limit t).identities
              (make_room-IsRecent t i count small h))
      ]
