-- ===== src/Arbitrator/Settled.antt =====
-- What a call does to the task that holds the lease and to the memory of ended ones.
use robot_runtime.Prelude.{
  Bool, Option, String, arith, contains, false, if◌then◌else◌, nat_eq, none, not, refl, some,
  string_eq, true, ℕ, ◌&&◌, ◌==◌, ◌||◌, ◌≡◌, ◌∙◌,
}
use robot_runtime.Arbitrator.Refresh.{expired, refresh_mode}
use robot_runtime.Arbitrator.Refreshed.{
  config-refresh_mode, live_task, live_tombstones, task-refresh_mode, tombstones-refresh_mode,
}
use robot_runtime.Arbitrator.Replies.{Reply, unless_refused}
use robot_runtime.Arbitrator.State.{Arbitrator, identity_eq}
use robot_runtime.Arbitrator.Tombstones.{remember}

abbrev pub is_held : Option ℕ → Bool
is_held none = false
is_held (some last) = true

abbrev pub held : Arbitrator → Bool
held s = is_held s.task.last_time

-- The task of the first state does not hold the lease in the second.
abbrev pub has_ended : Arbitrator → Arbitrator → Bool
has_ended s t = held s && (not (held t) || not (t.task.identity == s.task.identity))

-- No field is another that tasks and their memory read.
pub record Quiet (r t : Arbitrator) : Type 0 where
  pub config : t.config ≡ r.config
  pub task : t.task ≡ r.task
  pub memory : t.tombstones ≡ r.tombstones

-- A call goes on after it has dropped a lease that has run out: nothing happens to the task, it ends, or
-- one starts that is not remembered.
pub data Settles (r t : Arbitrator) : Type 0 where
  quiet :
      t.config ≡ r.config
      → held t ≡ held r
      → t.task.identity ≡ r.task.identity
      → t.tombstones ≡ r.tombstones
      → Settles r t
  ends :
      t.config ≡ r.config
      → held r ≡ true
      → held t ≡ false
      → t.tombstones ≡ remember r.config.tombstone_limit r.task.identity r.tombstones
      → Settles r t
  starts :
      t.config ≡ r.config
      → held r ≡ false
      → contains t.task.identity r.tombstones.identity_set ≡ false
      → t.tombstones ≡ r.tombstones
      → Settles r t

pub record Dropped (now : ℕ) (s r : Arbitrator) : Type 0 where
  pub config : r.config ≡ s.config
  pub task : r.task ≡ live_task s.config now s.task
  pub memory : r.tombstones ≡ live_tombstones now s

-- The lease has not run out.
abbrev pub IsLive : ℕ → Arbitrator → Type 0
IsLive now r = expired r.config.task_timeout r.task.last_time now ≡ false

pub refreshed : (now : ℕ) (s : Arbitrator) → Dropped now s (refresh_mode now s)
refreshed now s = record {
  config = config-refresh_mode now s;
  task = task-refresh_mode now s;
  memory = tombstones-refresh_mode now s;
}

pub IsLive-after : (now : ℕ) (s r : Arbitrator) → Dropped now s r → IsLive now r
unfolding expired
IsLive-after now s r d = rw (d.config, d.task) (ground arith)

pub refresh-Quiet : (now : ℕ) (r : Arbitrator) → IsLive now r → Quiet r (refresh_mode now r)
refresh-Quiet now r live = record {
  config = config-refresh_mode now r;
  task = task-refresh_mode now r ∙ rw live refl;
  memory = tombstones-refresh_mode now r ∙ rw live refl;
}

pub Quiet-Settles : (r t u : Arbitrator) → Settles r t → Quiet t u → Settles r u
Quiet-Settles r t u (quiet c h i m) q =
    quiet (q.config ∙ c) (rw q.task h) (rw q.task i) (q.memory ∙ m)
Quiet-Settles r t u (ends c h e m) q = ends (q.config ∙ c) h (rw q.task e) (q.memory ∙ m)
Quiet-Settles r t u (starts c h f m) q = starts (q.config ∙ c) h (rw q.task f) (q.memory ∙ m)

pub record Settled (r : Arbitrator) (reply : Reply) : Type 0 where
  pub state : Settles r reply.1

pub Settled-if :
    (r : Arbitrator) (b : Bool) (x y : Reply)
    → (b ≡ true → Settled r x)
    → (b ≡ false → Settled r y)
    → Settled r (if b then x else y)
Settled-if r true x y hx hy = hx refl
Settled-if r false x y hx hy = hy refl

pub Settled-unless_refused :
    (r : Arbitrator) (o : Option String) (refuse : String → Reply) (rest : Reply)
    → ((reason : String) → Settled r (refuse reason))
    → (o ≡ none → Settled r rest)
    → Settled r (unless_refused o refuse rest)
Settled-unless_refused r none refuse rest hr hs = hs refl
Settled-unless_refused r (some reason) refuse rest hr hs = hr reason
