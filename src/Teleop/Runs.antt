-- ===== src/Teleop/Runs.antt =====
-- What holds of the value that a run returns, and the rules for its steps.
use robot_runtime.Prelude.{Bool, Option, false, if◌then◌else◌, none, refl, some, true, ◌≡◌}
use robot_runtime.Teleop.Json.{Run, done, overflowed, refused, ◌>>=◌}
use robot_runtime.Teleop.Parse.{catching}

-- What a run returns has the property.
abbrev pub Ensures : {A : Type 0} → (A → Type 0) → Run A → Type 0
Ensures P (done a) = P a
Ensures P refused = Unit {0}
Ensures P overflowed = Unit {0}

pub bind-Ensures :
    {A B : Type 0} (Q : A → Type 0) (P : B → Type 0) (f : A → Run B) (r : Run A)
    → Ensures Q r
    → ((a : A) → Q a → Ensures P (f a))
    → Ensures P (r >>= f)
bind-Ensures Q P f (done a) q h = h a q
bind-Ensures Q P f refused q h = tt
bind-Ensures Q P f overflowed q h = tt

-- Nothing is known of the first run's value.
pub then-Ensures :
    {A B : Type 0} (P : B → Type 0) (f : A → Run B) (r : Run A)
    → ((a : A) → Ensures P (f a))
    → Ensures P (r >>= f)
then-Ensures P f (done a) h = h a
then-Ensures P f refused h = tt
then-Ensures P f overflowed h = tt

pub map-Ensures :
    {A : Type 0} {P Q : A → Type 0} (r : Run A) → ((a : A) → P a → Q a) → Ensures P r → Ensures Q r
map-Ensures (done a) f h = f a h
map-Ensures refused f h = tt
map-Ensures overflowed f h = tt

pub all-Ensures : {A : Type 0} (P : A → Type 0) (r : Run A) → ((a : A) → P a) → Ensures P r
all-Ensures P (done a) f = f a
all-Ensures P refused f = tt
all-Ensures P overflowed f = tt

abbrev pub Whenever : {A : Type 0} → (A → Type 0) → Option A → Type 0
Whenever P (some a) = P a
Whenever P none = Unit {0}

pub catching-Ensures :
    {A : Type 0} (P : A → Type 0) (r : Run (Option A))
    → Ensures (Whenever P) r
    → Ensures (Whenever P) (catching r)
catching-Ensures P (done a) h = h
catching-Ensures P refused h = tt
catching-Ensures P overflowed h = tt

pub either-Ensures :
    {A : Type 0} (P : A → Type 0) (b : Bool) (yes_run no_run : Run A)
    → (b ≡ true → Ensures P yes_run)
    → Ensures P no_run
    → Ensures P (if b then yes_run else no_run)
either-Ensures P true _ _ h k = h refl
either-Ensures P false _ _ h k = k
