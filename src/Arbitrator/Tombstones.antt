-- ===== src/Arbitrator/Tombstones.antt =====
-- `_remember_task_identity`: the identities of the tasks that ended lately.
use robot_runtime.Prelude.{
  Bool, [], contains, discard, if◌then◌else◌, is_empty, leb, length, nat_eq, not, string_eq, ℕ,
  ◌&&◌, ◌++◌, ◌||◌, ◌∷◌,
}
use robot_runtime.Arbitrator.State.{Arbitrator, Identity, Tombstones, identity_eq}

-- `all(identity)`
unfoldable pub all_given : Identity → Bool
all_given i = not (is_empty i.task_id) && not (is_empty i.trace_id) && not (is_empty i.session_id)

-- `popleft` and `discard`. The code calls `popleft` on a deque that is not empty.
unfoldable pub forget_oldest : Tombstones → Tombstones
forget_oldest t = elim t.identities [
  | [] ↦ t
  | x ∷ rest ↦ record { identities = rest; identity_set = discard x t.identity_set }
]

unfoldable pub make_room : ℕ → Tombstones → Tombstones
unfolding forget_oldest
make_room limit t = if leb limit (length t.identities) then forget_oldest t else t

unfoldable pub add_identity : Identity → Tombstones → Tombstones
add_identity i t = record {
  identities = t.identities ++ (i ∷ []);
  identity_set = i ∷ t.identity_set;
}

-- The guard has found `i` outside the set, so `add` puts a new member in.
-- The part of `_remember_task_identity` that writes the deque and the set.
unfoldable pub remember : ℕ → Identity → Tombstones → Tombstones
unfolding all_given make_room add_identity
remember limit i t =
    if not (all_given i) || contains i t.identity_set then t else add_identity i (make_room limit t)

unfoldable pub remember_task_identity : Arbitrator → Arbitrator
remember_task_identity s = record s {
  tombstones = remember s.config.tombstone_limit s.task.identity s.tombstones;
}
