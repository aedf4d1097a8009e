-- ===== src/SafetyLatch/Fence.antt =====
-- What the latch promises over any sequence of calls.
use robot_runtime.Prelude.{
  All, Bool, List, String, [], arith, false, if◌then◌else◌, inl, inr, refl, suc, true, zero, ◌&&◌,
  ◌∷◌, ◌≡◌, ◌⊎◌,
}
use robot_runtime.Prelude.Int.{leb_ℤ, ltb_ℤ, negsuc, pos, ℤ, ◌<ℤ◌, ◌≤ℤ◌}
use robot_runtime.SafetyLatch.Latch.{
  Latch, activate, admit, admit_motion, admit_protocol_command, authority_fence, observe_authority,
}
use robot_runtime.SafetyLatch.Names.{is_stop_command}

pub data Event : Type 0 where
  activated : ℤ → Event
  observed : Bool → ℤ → ℤ → Event
  admitted : ℤ → Bool → ℤ → Event
  protocol : String → ℤ → ℤ → Event

unfoldable pub step : Event → Latch → Latch
step (activated now) l = activate now l
step (observed active stamp now) l = (observe_authority active stamp now l).0
step (admitted stamp is_stop now) l = (admit stamp is_stop now l).0
step (protocol command now stamp) l = (admit_protocol_command command now stamp l).0

unfoldable pub run : List Event → Latch → Latch
run [] l = l
run (e ∷ es) l = run es (step e l)

-- Neither the fence nor the last authority ever goes back.
pub record Grows (a b : Latch) : Type 0 where
  pub fence : a.fence_ns ≤ℤ b.fence_ns
  pub authority : a.last_authority_ns ≤ℤ b.last_authority_ns

step-Grows : (e : Event) (l : Latch) → Grows l (step e l)
unfolding step activate observe_authority admit admit_protocol_command
step-Grows (activated now) l = ground arith
step-Grows _ l = ground arith

pub run-Grows : (es : List Event) (l : Latch) → Grows l (run es l)
unfolding run
run-Grows [] l = ground arith
run-Grows (e ∷ es) l = ground (arith, step-Grows e l, run-Grows es (step e l))

-- A stop, by whichever way, at a given time.
abbrev pub IsStopAt : ℤ → Event → Type 0
IsStopAt t (activated now) = now ≡ t
IsStopAt t (observed active stamp now) = (active ≡ true) × (authority_fence stamp now ≡ t)
IsStopAt t (admitted stamp is_stop now) = (is_stop ≡ true) × (now ≡ t)
IsStopAt t (protocol command now stamp) = (is_stop_command command ≡ true) × (now ≡ t)

stop_raises_fence : (e : Event) (t : ℤ) (l : Latch) → IsStopAt t e → t ≤ℤ (step e l).fence_ns
unfolding step activate observe_authority admit admit_protocol_command
stop_raises_fence (activated now) t l h = ground arith
stop_raises_fence (observed active stamp now) t l h = ground arith
stop_raises_fence (admitted stamp is_stop now) t l h = ground arith
stop_raises_fence (protocol command now stamp) t l h = ground arith

fence_refuses :
    (t stamp : ℤ) (l : Latch)
    → pos 0 <ℤ t
    → t ≤ℤ l.fence_ns
    → stamp ≤ℤ t
    → admit_motion stamp l ≡ false
unfolding admit_motion
fence_refuses t stamp l h k m = ground arith

-- After a stop at a positive time, of any of the four kinds, and whatever calls follow, releases
-- included, a motion whose stamp is not later than the stop is refused.
pub stale_motion_refused :
    (e : Event) (t : ℤ) (l : Latch) (es : List Event) (stamp : ℤ)
    → IsStopAt t e
    → pos 0 <ℤ t
    → stamp ≤ℤ t
    → admit_motion stamp (run es (step e l)) ≡ false
stale_motion_refused e t l es stamp h p m =
    fence_refuses t stamp _ p (omega (arith, stop_raises_fence e t l h, run-Grows es (step e l))) m

-- A release with a stamp that is not later than a given fence.
abbrev pub IsStale : ℤ → Event → Type 0
IsStale f (observed active stamp now) = (active ≡ true) ⊎ (stamp ≤ℤ f)
IsStale f _ = Unit {0}

step_latched :
    (e : Event) (f : ℤ) (l : Latch)
    → f ≤ℤ l.fence_ns
    → l.latched ≡ true
    → IsStale f e
    → (step e l).latched ≡ true
unfolding step activate observe_authority admit admit_protocol_command
step_latched (observed active stamp now) f l h k s = ground arith
step_latched (protocol command now stamp) f l h k s = ground arith
step_latched _ f l h k s = ground arith

run_latched :
    (es : List Event) (f : ℤ) (l : Latch)
    → f ≤ℤ l.fence_ns
    → l.latched ≡ true
    → All (IsStale f) es
    → (run es l).latched ≡ true
unfolding run
run_latched [] f l h k s = k
run_latched (e ∷ es) f l h k s =
    run_latched es f (step e l) (omega (arith, step-Grows e l)) (step_latched e f l h k s.0) s.1

-- A latch that is closed stays closed, and refuses every motion, through any calls that hold no
-- release later than its fence.
pub latch_holds :
    (l : Latch) (es : List Event) (stamp : ℤ)
    → l.latched ≡ true
    → All (IsStale l.fence_ns) es
    → ((run es l).latched ≡ true) × (admit_motion stamp (run es l) ≡ false)
unfolding admit_motion
latch_holds l es stamp h s =
    let k = run_latched es l.fence_ns l (omega arith) h s in (k, ground arith)

fence_facts :
    (fence stamp : ℤ)
    → (if leb_ℤ fence (pos 0) && leb_ℤ (pos 0) fence then true else ltb_ℤ fence stamp) ≡ true
    → (fence ≡ pos 0) ⊎ (fence <ℤ stamp)
fence_facts (pos zero) stamp e = inl refl
fence_facts (pos (suc n)) stamp e = inr (ground arith)
fence_facts (negsuc n) stamp e = inr (ground arith)

-- A movement is admitted only by an open latch, with a stamp behind the fence where there is one.
pub admit_motion_facts :
    (stamp : ℤ) (l : Latch)
    → admit_motion stamp l ≡ true
    → (l.latched ≡ false) × ((l.fence_ns ≡ pos 0) ⊎ (l.fence_ns <ℤ stamp))
unfolding admit_motion
admit_motion_facts stamp l h = (ground arith, fence_facts l.fence_ns stamp (ground arith))
