-- ===== src/Manager/Blocked.antt =====
-- What the node holds back while stop operations are active, and after one has failed.
use robot_runtime.Prelude.{
  List, Option, String, [], arith, contains, inl, inr, is_empty, nat_eq, none, refl, some,
  string_eq, true, ℕ, ◌+◌, ◌<◌, ◌∷◌, ◌≡◌, ◌≤◌, ◌⊎◌,
}
use robot_runtime.Manager.Faults.{advance-Faults}
use robot_runtime.Manager.Operations.{Env, Point, advance}
use robot_runtime.Manager.Owners.{advance-Respects, next_owns, owner, owns}
use robot_runtime.Manager.State.{Manager, register_stop_operation}
use robot_runtime.Manager.System.{Picks, here, spawn, there}
use robot_runtime.Prelude.Int.{int_eq}

unfoldable pub owned : ℕ → List Point → ℕ
owned id [] = 0
owned id (point ∷ points) = owns id point + owned id points

-- Each operation has one coroutine at most, and one from the future none; and where a fault is latched
-- there is an operation that is active for ever, since no coroutine works for it.
pub record IsOwned (next : ℕ) (active : List ℕ) (fault : String) (tasks : List Point) : Type 0 where
  pub once : (id : ℕ) → owned id tasks ≤ 1
  pub fresh : (id : ℕ) → next ≤ id → owned id tasks ≡ 0
  pub old : (id : ℕ) → contains id active ≡ true → id < next
  pub orphan :
      (is_empty fault ≡ true) ⊎ ((id : ℕ) × (contains id active ≡ true) × (owned id tasks ≡ 0))

abbrev pub Owned : Manager → List Point → Type 0
Owned m tasks =
    IsOwned m.next_stop_operation_id m.active_stop_operation_ids m.latched_stop_fault_reason tasks

-- What a handler without coroutine leaves alone.
pub record Leaves (m n : Manager) : Type 0 where
  pub next_id : n.next_stop_operation_id ≡ m.next_stop_operation_id
  pub active : n.active_stop_operation_ids ≡ m.active_stop_operation_ids
  pub fault : n.latched_stop_fault_reason ≡ m.latched_stop_fault_reason

pub Leaves-Owned : (m n : Manager) (tasks : List Point) → Leaves m n → Owned m tasks → Owned n tasks
Leaves-Owned m n tasks l v = rw (l.next_id, l.active, l.fault) v

Picks-Owned :
    (id : ℕ) (point : Point) (tasks others : List Point)
    → Picks point tasks others
    → owned id tasks ≡ owns id point + owned id others
unfolding owned
Picks-Owned id point _ _ (here others) = refl
Picks-Owned id point _ _ (there first tasks others p) =
    omega (arith, Picks-Owned id point tasks others p)

-- A new operation, with its coroutine.
pub register-Owned :
    (m : Manager) (point : Point) (tasks : List Point)
    → owner point ≡ some m.next_stop_operation_id
    → Owned m tasks
    → Owned (register_stop_operation m).0 (point ∷ tasks)
unfolding owned register_stop_operation contains
register-Owned m point tasks own v = record {
  once = λ id. rw own (ground (arith, v.once id, v.fresh id));
  fresh = λ id h. rw own (ground (arith, v.fresh id));
  old = λ id h. ground (arith, v.old id);
  orphan = elim v.orphan [
    | inl clean ↦ inl clean
    | inr (id, active, alone) ↦ inr (id, ground arith, rw own (ground (arith, v.old id)))
  ];
}

-- A coroutine that has no operation.
pub spawn-Owned :
    (m : Manager) (point : Point) (tasks : List Point)
    → owner point ≡ none
    → Owned m tasks
    → Owned m (point ∷ tasks)
unfolding owned
spawn-Owned m point tasks own v = record {
  once = λ id. rw own (omega (arith, v.once id));
  fresh = λ id h. rw own (omega (arith, v.fresh id h));
  old = v.old;
  orphan = elim v.orphan [
    | inl clean ↦ inl clean
    | inr (id, active, alone) ↦ inr (id, active, rw own (omega arith))
  ];
}

owned-spawn :
    (id : ℕ) (next : Option Point) (tasks : List Point)
    → owned id (spawn next tasks) ≡ next_owns id next + owned id tasks
unfolding owned
owned-spawn id none tasks = omega arith
owned-spawn id (some point) tasks = omega arith

pub resume-Owned :
    (m : Manager) (point : Point) (tasks others : List Point) (env : Env)
    → Picks point tasks others
    → Owned m tasks
    → Owned (advance point env m).manager (spawn (advance point env m).next others)
resume-Owned m point tasks others env p v = record {
  once = λ id.
      let r = advance-Respects id m point env in
      omega (
        arith,
        owned-spawn id (advance point env m).next others,
        Picks-Owned id point tasks others p,
        r.owned,
        v.once id,
      );
  fresh = λ id h.
      let r = advance-Respects id m point env in
      let k : m.next_stop_operation_id ≤ id = rw (r.next_id) at h in
      omega (
        arith,
        owned-spawn id (advance point env m).next others,
        Picks-Owned id point tasks others p,
        r.owned,
        v.fresh id k,
      );
  old = λ id h. let r = advance-Respects id m point env in rw (r.next_id) (v.old id (r.shrinks h));
  orphan = elim (advance-Faults m point env) [
    | inl same ↦ elim v.orphan [
      | inl clean ↦ inl (rw same clean)
      | inr (id, active, alone) ↦
          let r = advance-Respects id m point env in
          let picked = Picks-Owned id point tasks others p in
          inr (
            id,
            r.keeps (omega arith) active,
            omega (arith, owned-spawn id (advance point env m).next others, r.owned),
          )
    ]
    | inr (id, own, active, ended, text) ↦
        let picked = Picks-Owned id point tasks others p in
        let mine : owns id point ≡ 1 = rw own (ground arith) in
        inr (id, active, omega (arith, owned-spawn id (advance point env m).next others, v.once id))
  ];
}
