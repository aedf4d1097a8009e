-- ===== src/Arbitrator/Preserved/Rules.antt =====
-- The invariant through the ways in which the operations branch.
use robot_runtime.Prelude.{
  Bool, Option, String, arith, false, if◌then◌else◌, none, not, refl, some, true, ◌≡◌,
}
use robot_runtime.Arbitrator.Invariant.{Inv, KeepsInv}
use robot_runtime.Arbitrator.Replies.{Reply, answer, unless_refused}
use robot_runtime.Arbitrator.State.{Arbitrator}

pub Inv-if :
    (b : Bool) (x y : Reply)
    → (b ≡ true → KeepsInv x)
    → (b ≡ false → KeepsInv y)
    → KeepsInv (if b then x else y)
Inv-if true x y hx hy = hx refl
Inv-if false x y hx hy = hy refl

pub Inv-unless_refused :
    (o : Option String) (refuse : String → Reply) (rest : Reply)
    → ((reason : String) → KeepsInv (refuse reason))
    → (o ≡ none → KeepsInv rest)
    → KeepsInv (unless_refused o refuse rest)
Inv-unless_refused none refuse rest hr hs = hs refl
Inv-unless_refused (some reason) refuse rest hr hs = hr reason

pub Inv-if_state :
    (b : Bool) (x y : Arbitrator)
    → (b ≡ true → Inv x)
    → (b ≡ false → Inv y)
    → Inv (if b then x else y)
Inv-if_state true x y hx hy = hx refl
Inv-if_state false x y hx hy = hy refl

pub not-false : (b : Bool) → not b ≡ false → b ≡ true
not-false b h = ground arith

pub answer-Inv :
    (accepted : Bool) (reason : String) {s : Arbitrator}
    → Inv s
    → KeepsInv (answer accepted reason s)
unfolding answer
answer-Inv accepted reason h = record { inv = h }
