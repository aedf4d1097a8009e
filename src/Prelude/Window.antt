-- ===== src/Prelude/Window.antt =====
-- A bounded memory of what was seen lately: a queue, oldest first, beside a set of its members.
use Prim.Native.Nat.{ℕ, suc, ◌≤◌, ◌<◌}
use mathlib.Core.Path.{◌≡◌, refl, ap, sym, ◌∙◌, subst}
use mathlib.Core.Bool.{true, false, not, ◌&&◌}
use mathlib.Core.Logic.{inl, inr}
use mathlib.Core.List.{List, [], ◌∷◌, ◌++◌, append_assoc}
use native.Mathlib.Omega.{arith}
use robot_runtime.Prelude.Tests.{Eq, ◌==◌, Bool-cases}
use robot_runtime.Prelude.Lists.{length, contains, discard, contains-append, length-append}

module _ {ℓ} {A : Type ℓ} ⦃e : Eq A⦄ where
  abbrev pub IsDistinct : List A → Type 0
  IsDistinct [] = Unit
  IsDistinct (x ∷ xs) = (contains x xs ≡ false) × IsDistinct xs

  -- The set has the members of the queue, and the queue has none twice.
  pub record IsMemory (queue members : List A) : Type ℓ where
    pub agrees : (y : A) → contains y members ≡ contains y queue
    pub distinct : IsDistinct queue

  same_iff : (x y : A) → x == y ≡ true → x ≡ y
  same_iff x y h = (e.beq_iff x y).0 h

  same_refl : (x : A) → x == x ≡ true
  same_refl x = (e.beq_iff x x).1 refl

  pub meets : (x y z : A) → x == z ≡ true → y == z ≡ true → x == y ≡ true
  meets x y z h k = (e.beq_iff x y).1 (same_iff x z h ∙ sym (same_iff y z k))

  pub parts : (x y z : A) → x == z ≡ false → y == z ≡ true → x == y ≡ false
  parts x y z h k = subst (λ w. x == w ≡ false) (sym (same_iff y z k)) h

  pub contains-discard :
      (y x : A) (xs : List A) → contains y (discard x xs) ≡ (not (x == y) && contains y xs)
  unfolding contains discard
  contains-discard y x [] = ground arith
  contains-discard y x (z ∷ zs) =
      let rest = contains-discard y x zs in
      elim (Bool-cases (x == z)) [
        | inl h ↦ rw h (
            rest
            ∙ elim (Bool-cases (y == z)) [ inl k ↦ rw (meets x y z h k) refl | inr k ↦ rw k refl ])
        | inr h ↦ rw h (elim (Bool-cases (y == z)) [
          | inl k ↦ rw (k, parts x y z h k) refl
          | inr k ↦ rw k rest
        ])
      ]

  pub other_way : (x y : A) → x == y ≡ false → y == x ≡ false
  other_way x y k = elim (Bool-cases (y == x)) [
    | inl h ↦
        absurd (let again = (e.beq_iff x y).1 (sym (same_iff y x h)) in ground (arith, again, k))
    | inr h ↦ h
  ]

  pub pop-IsMemory :
      (x : A) (queue members : List A)
      → IsMemory (x ∷ queue) members
      → IsMemory queue (discard x members)
  unfolding contains
  pop-IsMemory x queue members h = record {
    agrees = λ y. contains-discard y x members ∙ elim (Bool-cases (x == y)) [
      | inl k ↦ rw k (sym (subst (λ w. contains w queue ≡ false) (same_iff x y k) h.distinct.0))
      | inr k ↦ rw (k, h.agrees y, other_way x y k) refl
    ];
    distinct = h.distinct.1;
  }

  IsDistinct-append :
      (y : A) (xs : List A) → IsDistinct xs → contains y xs ≡ false → IsDistinct (xs ++ (y ∷ []))
  unfolding contains
  IsDistinct-append y [] h fresh = (refl, tt)
  IsDistinct-append y (x ∷ xs) h fresh = (
    rw (contains-append x xs (y ∷ []), other_way y x first) (ground (arith, h)),
    IsDistinct-append y xs h.1 (ground arith),
  )
    where
      first : y == x ≡ false
      first = ground arith

  pub push-IsMemory :
      (y : A) (queue members : List A)
      → IsMemory queue members
      → contains y members ≡ false
      → IsMemory (queue ++ (y ∷ [])) (y ∷ members)
  unfolding contains
  push-IsMemory y queue members h fresh = record {
    agrees = λ z. rw (contains-append z queue (y ∷ []), h.agrees z) (ground arith);
    distinct = IsDistinct-append y queue h.distinct (sym (h.agrees y) ∙ fresh);
  }

  -- The item was put in, and at most so many others since.
  pub record IsRecent (x : A) (count : ℕ) (queue : List A) : Type ℓ where
    pub older : List A
    pub newer : List A
    pub place : queue ≡ older ++ (x ∷ newer)
    pub few : length newer ≤ count

  pub contains_recent :
      (x : A) (count : ℕ) (queue : List A) → IsRecent x count queue → contains x queue ≡ true
  unfolding contains
  contains_recent x count queue h =
      rw (h.place, contains-append x h.older (x ∷ h.newer), same_refl x) (ground arith)

  pub push-IsRecent :
      (x y : A) (count : ℕ) (queue : List A)
      → IsRecent x count queue
      → IsRecent x (suc count) (queue ++ (y ∷ []))
  push-IsRecent x y count queue h = record {
    older = h.older;
    newer = h.newer ++ (y ∷ []);
    place = ap (λ xs. xs ++ (y ∷ [])) h.place ∙ append_assoc h.older (x ∷ h.newer) (y ∷ []);
    few = let k = h.few in omega (arith, length-append h.newer (y ∷ []));
  }

  -- The oldest item goes, and it is another one where the queue is longer than the item and the newer
  -- ones.
  pub pop-IsRecent :
      (x y : A) (count : ℕ) (queue : List A)
      → IsRecent x count (y ∷ queue)
      → suc count < length (y ∷ queue)
      → IsRecent x count queue
  pop-IsRecent x y count queue h long = go h.older h.place
    where
      go : (older : List A) → y ∷ queue ≡ older ++ (x ∷ h.newer) → IsRecent x count queue
      go [] p = absurd (let k = h.few in let same = ap (λ xs. length xs) p in omega arith)
      go (o ∷ older) p = record { older = older; newer = h.newer; place = cc; few = h.few }
