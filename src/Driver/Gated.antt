-- ===== src/Driver/Gated.antt =====
-- The names that the safety latch gates, and the names that resolve to movements.
use mathlib.Core.Option
use mathlib.Core.Path.{subst}
use robot_runtime.Prelude.{
  Bool, Bool-cases, List, Option, Option-cases, String, [], ap, arith, contains, false,
  if◌then◌else◌, inl, inr, is_empty, nat_eq, none, not, refl, some, string_eq, sym, true, ◌&&◌,
  ◌==◌, ◌∷◌, ◌≡◌,
}
use robot_runtime.Driver.Specs.{
  Spec, aliases_of, lookup, lx_aliases, lx_specs, normalize_command_name, resolve_command, specs_of,
  unaliased, zl_aliases, zl_specs,
}
use robot_runtime.SafetyLatch.Names.{
  is_motion_command, is_stop_command, motion_commands, normalize_protocol_command, stop_commands,
}

-- The methods whose frames command a movement: a target, the start of a move that waits, the continuation
-- of one that was paused, or the motor mode with its speed; and those whose frames end one. The pause is
-- not among the latter: a movement that is paused can be resumed. Frames that set the torque, the offset,
-- the mode of a ZL servo or other registers are in neither list.
abbrev move_encoders : List String
move_encoders =
    "encode_move_command" ∷ "encode_move_time_write" ∷ "encode_move_time_wait_write"
    ∷ "encode_move_start" ∷ "encode_motion_continue" ∷ "encode_or_motor_mode_write" ∷ []

abbrev stop_encoders : List String
stop_encoders = "encode_move_stop" ∷ "encode_motion_stop" ∷ []

unfoldable pub is_move : Spec → Bool
unfolding contains
is_move spec = contains spec.encode move_encoders

unfoldable pub is_stop : Spec → Bool
unfolding contains
is_stop spec = contains spec.encode stop_encoders

-- The frame of the motor mode, which turns a servo at a speed.
unfoldable pub is_motor_mode : Spec → Bool
is_motor_mode spec = spec.encode == "encode_or_motor_mode_write"

abbrev has_gate : Spec → Bool
has_gate spec = is_move spec && not (is_motor_mode spec)

-- A key is a gated name exactly as its specification asks.
unfoldable gated : String → Spec → Bool
unfolding is_move is_stop is_motor_mode contains
gated key spec =
    (if contains key motion_commands then has_gate spec else not (has_gate spec))
    && (if contains key stop_commands then is_stop spec else not (is_stop spec))

unfoldable pub entries_hold {ℓ} : {V : Type ℓ} → (String → V → Bool) → List (String × V) → Bool
entries_hold test [] = true
entries_hold test (entry ∷ entries) = test entry.0 entry.1 && entries_hold test entries

pub lookup_holds {ℓ} :
    {V : Type ℓ} (test : String → V → Bool) (table : List (String × V)) (key : String) (v : V)
    → entries_hold test table ≡ true
    → lookup key table ≡ some v
    → test key v ≡ true
unfolding lookup entries_hold
lookup_holds test [] key v holds found = cc
lookup_holds test (entry ∷ entries) key v holds found = elim (Bool-cases (key == entry.0)) [
  | inl same ↦
      let is : some entry.1 ≡ some v = rw same at found in
      let first : test entry.0 entry.1 ≡ true = ground arith in
      subst (λ x. test key x ≡ true) (cc is)
        (subst (λ k. test k entry.1 ≡ true) (sym ((string_eq.beq_iff key entry.0).0 same)) first)
  | inr other ↦ lookup_holds test entries key v (ground arith) (rw other at found)
]

-- An alias is gated as the specification of its name asks.
unfoldable alias_gated : List (String × Spec) → String → String → Bool
unfolding gated lookup
alias_gated specs key alias =
    not (is_empty alias) && elim (lookup alias specs) [ none ↦ false | some spec ↦ gated key spec ]

tables_hold :
    (entries_hold gated lx_specs ≡ true)
    × (entries_hold gated zl_specs ≡ true)
    × (entries_hold (alias_gated lx_specs) lx_aliases ≡ true)
    × (entries_hold (alias_gated zl_specs) zl_aliases ≡ true)
unfolding entries_hold alias_gated gated lookup contains
tables_hold = (refl, refl, refl, refl)

alias_resolved :
    (specs : List (String × Spec)) (key alias : String) (spec : Spec)
    → alias_gated specs key alias ≡ true
    → lookup (unaliased key (some alias)) specs ≡ some spec
    → gated key spec ≡ true
unfolding alias_gated unaliased
alias_resolved specs key alias spec ok found = elim (Bool-cases (is_empty alias)) [
  | inl e ↦ absurd (ground arith)
  | inr full ↦ let there : lookup alias specs ≡ some spec = rw full at found in ground arith
]

module _ (specs : List (String × Spec)) (aliases : List (String × String))
    (specs_hold : entries_hold gated specs ≡ true)
    (aliases_hold : entries_hold (alias_gated specs) aliases ≡ true) where
  resolved_gated :
      (key : String) (spec : Spec)
      → lookup (unaliased key (lookup key aliases)) specs ≡ some spec
      → gated key spec ≡ true
  unfolding unaliased
  resolved_gated key spec found = elim (Option-cases (lookup key aliases)) [
    | inl e ↦ lookup_holds gated specs key spec specs_hold (rw e at found)
    | inr (alias, e) ↦
        alias_resolved specs key alias spec
          (lookup_holds (alias_gated specs) aliases key alias aliases_hold e) (rw e at found)
  ]

both_same :
    (a b c d : Bool)
    → (if a then b else not b) && (if c then d else not d) ≡ true
    → (b ≡ a) × (d ≡ c)
both_same true true true true h = (refl, refl)
both_same true true false false h = (refl, refl)
both_same false false true true h = (refl, refl)
both_same false false false false h = (refl, refl)
both_same true true true false h = cc
both_same true true false true h = cc
both_same true false c d h = cc
both_same false true c d h = cc
both_same false false true false h = cc
both_same false false false true h = cc

gated_same :
    (key : String) (spec : Spec)
    → gated key spec ≡ true
    → (has_gate spec ≡ contains key motion_commands) × (is_stop spec ≡ contains key stop_commands)
unfolding gated
gated_same key spec h =
    both_same (contains key motion_commands) (has_gate spec) (contains key stop_commands)
      (is_stop spec) h

pub found_spec :
    (name : String) (o : Option Spec) (found : String × Spec)
    → Option.map (λ spec. (name, spec)) o ≡ some found
    → o ≡ some found.1
found_spec name none found h = cc
found_spec name (some spec) found h = ap some (ap (λ x. x.1) (some_same (name, spec) found h))
  where
    some_same : (a b : String × Spec) → some a ≡ some b → a ≡ b
    some_same a b e = cc

key_gated :
    (protocol key : String) (spec : Spec)
    → lookup (unaliased key (lookup key (aliases_of protocol))) (specs_of protocol) ≡ some spec
    → gated key spec ≡ true
unfolding specs_of aliases_of
key_gated protocol key spec found = elim (Bool-cases (protocol == "lx")) [
  | inl lx ↦
      resolved_gated lx_specs lx_aliases tables_hold.0 tables_hold.2 key spec (rw lx at found)
  | inr no_lx ↦ elim (Bool-cases (protocol == "zl")) [
    | inl zl ↦
        resolved_gated zl_specs zl_aliases tables_hold.1 tables_hold.3 key spec
          (rw (no_lx, zl) at found)
    | inr no_zl ↦ absurd (no_specs key spec (rw (no_lx, no_zl) at found))
  ]
]
  where
    no_specs : (k : String) (s : Spec) → ¬ (lookup (unaliased k (lookup k [])) [] ≡ some s)
    no_specs k s h = unfold lookup in cc

-- The latch gates by name, and the driver encodes by the specification that the name resolves to: for
-- every protocol and every spelling of a command that resolves, the name is a motion name exactly when
-- the specification's method makes a frame that gives a servo a target, starts a move that waits or
-- continues one that was paused. The motor mode's frame turns a servo too, but has no motion name. And
-- the name is a stop name exactly when that method makes a frame that ends a movement, which a pause
-- does not.
pub names_cover_frames :
    (protocol command : String) (found : String × Spec)
    → resolve_command protocol command ≡ some found
    → (is_motion_command command ≡ is_move found.1 && not (is_motor_mode found.1))
      × (is_stop_command command ≡ is_stop found.1)
unfolding resolve_command normalize_command_name normalize_protocol_command is_motion_command
    is_stop_command
names_cover_frames protocol command found h =
    let same =
      gated_same (normalize_protocol_command command) found.1 (
        key_gated protocol (normalize_protocol_command command) found.1 (found_spec _ _ found h)) in
    (sym same.0, sym same.1)

disjoint :
    (encode : String)
    → contains encode move_encoders ≡ true
    → ¬ (contains encode stop_encoders ≡ true)
unfolding contains
disjoint encode moves stops = elim (Bool-cases (encode == "encode_move_stop")) [
  | inl e ↦
      let same = (string_eq.beq_iff encode "encode_move_stop").0 e in
      let none_of : false ≡ true = rw same at moves in cc
  | inr e ↦ elim (Bool-cases (encode == "encode_motion_stop")) [
    | inl e' ↦
        let same = (string_eq.beq_iff encode "encode_motion_stop").0 e' in
        let none_of : false ≡ true = rw same at moves in cc
    | inr e' ↦ let none_of : false ≡ true = rw (e, e') at stops in cc
  ]
]

-- No method does both.
pub move_no_stop : (spec : Spec) → is_move spec ≡ true → is_stop spec ≡ false
unfolding is_move is_stop
move_no_stop spec h = elim (Bool-cases (is_stop spec)) [
  | inl stops ↦ absurd (disjoint spec.encode h stops)
  | inr e ↦ e
]
