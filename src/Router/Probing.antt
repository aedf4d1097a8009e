-- ===== src/Router/Probing.antt =====
-- The queue of probes that run beside the commands: `_schedule_runtime_probe` and
-- `_process_runtime_probe_queue`. The lock is held while a probe is queued, while one is taken and when
-- it is struck off, but not while a servo is probed, so these are three steps. `running` holds the
-- identifiers that timer callbacks have taken and not struck off yet, their local variable `servo_id`.
-- Times are ticks; `interval` is `max(0.1, self.probe_retry_interval_sec)`.
use robot_runtime.Prelude.{
  Bool, List, Option, [], contains, discard, false, if◌then◌else◌, ltb, nat_eq, none, not, some,
  string_eq, true, ℕ, ◌++◌, ◌-◌, ◌∷◌, ◌≡◌,
}
use robot_runtime.Prelude.Int.{int_eq, ℤ}
use robot_runtime.Router.Registry.{find}

pub record Probes : Type 0 where
  pub enabled : Bool
  pub interval : ℕ
  pub last_attempt : List (ℤ × ℕ)
  pub pending : List ℤ
  pub queue : List ℤ
  pub running : List ℤ

abbrev pub last_of : Option ℕ → ℕ
last_of none = 0
last_of (some time) = time

unfoldable pub schedule_runtime_probe : ℤ → ℕ → Probes → Probes × Bool
unfolding contains
schedule_runtime_probe sid now p =
    if not p.enabled
    then (p, false)
    else if ltb (now - last_of (find sid p.last_attempt)) p.interval
    then (p, false)
    else if contains sid p.pending
    then (p, false)
    else (
      record p {
        last_attempt = (sid, now) ∷ p.last_attempt;
        pending = sid ∷ p.pending;
        queue = p.queue ++ (sid ∷ []);
      },
      true,
    )

-- `popleft`, where the queue is not empty.
unfoldable pub take_from : List ℤ → Probes → Probes
take_from [] p = p
take_from (sid ∷ rest) p = record p { queue = rest; running = sid ∷ p.running }

unfoldable pub take_probe : Probes → Probes
unfolding take_from
take_probe p = take_from p.queue p

-- The `finally` block of a callback that has taken `sid`.
unfoldable pub finish_probe : ℤ → Probes → Probes
unfolding discard
finish_probe sid p = record p { pending = discard sid p.pending; running = discard sid p.running }

-- One step of a command, or of a callback.
pub data Step : Probes → Probes → Type 0 where
  scheduled : (p : Probes) (sid : ℤ) (now : ℕ) → Step p (schedule_runtime_probe sid now p).0
  taken : (p : Probes) → Step p (take_probe p)
  finished : (p : Probes) (sid : ℤ) → contains sid p.running ≡ true → Step p (finish_probe sid p)

pub data Reaches (start : Probes) : Probes → Type 0 where
  at_start : Reaches start start
  after : (p q : Probes) → Reaches start p → Step p q → Reaches start q
