-- ===== src/Speech/Spoken.antt =====
-- What a payload that is accepted as a spoken intent holds.
use mathlib.Core.Path.{subst}
use robot_runtime.Prelude.{
  Bool, Bool-cases, Option, String, false, inl, inr, is_empty, none, not, refl, some, string_eq,
  strip, strip-strip, true, ◌==◌, ◌≡◌, ltb,
}
use robot_runtime.Motion.Float.{Float}
use robot_runtime.Motion.Goal.{Result, error, fails, is_supported_group, ok, timeout_in_range}
use robot_runtime.Prelude.Int.{ℤ, pos}
use robot_runtime.Speech.Intent.{
  Payload, SpeechIntent, checked_text, has_unknown, intent_of, limits_of, is_below, is_confidence,
  is_within, load_json_object, missing_field, parse_speech_intent, pose_reason, required_fields,
  required_integer, required_number, required_string, unless, ◌>>=◌, string_of, text_length,
}
use robot_runtime.Task.Contract.{supported_task_type}
use robot_runtime.Teleop.Json.{
  Fields, Json, array, flag, float_number, get_value, null, object, text, whole_number,
}

abbrev Returns : {A : Type 0} → (A → Type 0) → Result A → Type 0
Returns P (error reason) = Unit {0}
Returns P (ok a) = P a

bind-Returns :
    {A B : Type 0} (Q : A → Type 0) (P : B → Type 0) (f : A → Result B) (r : Result A)
    → Returns Q r
    → ((a : A) → Q a → Returns P (f a))
    → Returns P (r >>= f)
bind-Returns Q P f (error reason) q h = tt
bind-Returns Q P f (ok a) q h = h a q

then-Returns :
    {A B : Type 0} (P : B → Type 0) (f : A → Result B) (r : Result A)
    → ((a : A) → Returns P (f a))
    → Returns P (r >>= f)
then-Returns P f (error reason) h = tt
then-Returns P f (ok a) h = h a

unless-Returns :
    {A : Type 0} (P : A → Type 0) (failed : Bool) (reason : String) (rest : Result A)
    → (failed ≡ false → Returns P rest)
    → Returns P (unless (fails failed reason) rest)
unfolding fails
unless-Returns P true reason rest h = tt
unless-Returns P false reason rest h = h refl

unless_reason-Returns :
    {A : Type 0} (P : A → Type 0) (found : Option String) (rest : Result A)
    → (found ≡ none → Returns P rest)
    → Returns P (unless found rest)
unless_reason-Returns P none rest h = h refl
unless_reason-Returns P (some reason) rest h = tt

abbrev pub IsText : String → Type 0
IsText s = is_empty (strip s) ≡ false

checked_text-Returns :
    (field_name value : String) → Returns IsText (checked_text field_name (strip value))
unfolding checked_text
checked_text-Returns field_name value = elim (Bool-cases (is_empty (strip value))) [
  | inl empty ↦ rw (empty, checked_text) tt
  | inr given ↦ elim (Bool-cases (ltb 256 (text_length (strip value)))) [
    | inl long ↦ rw (given, long) tt
    | inr short ↦ rw (given, short) (rw (strip-strip value) given)
  ]
]

string_of-Returns :
    (field_name : String) (value : Json) → Returns IsText (string_of field_name value)
unfolding string_of
string_of-Returns field_name null = tt
string_of-Returns field_name (flag b) = tt
string_of-Returns field_name (whole_number n) = tt
string_of-Returns field_name (float_number x) = tt
string_of-Returns field_name (text s) = checked_text-Returns field_name s
string_of-Returns field_name (array items) = tt
string_of-Returns field_name (object members) = tt

required_string-Returns :
    (document : Fields) (field_name : String) → Returns IsText (required_string document field_name)
unfolding required_string
required_string-Returns document field_name =
    string_of-Returns field_name (get_value field_name document)

-- What an accepted intent is.
pub record IsSpoken (minimum_confidence : Float) (i : SpeechIntent) : Type 0 where
  pub task : IsText i.task_id
  pub trace : IsText i.trace_id
  pub session : IsText i.session_id
  pub kind : not (i.task_type == supported_task_type) ≡ false
  pub group : not (is_supported_group i.target_group) ≡ false
  pub pose : pose_reason i.roll i.pitch i.yaw ≡ none
  pub duration : not (is_within (pos 1) (pos 65535) i.duration_ms) ≡ false
  pub tolerance : not (is_within (pos 1) (pos 500) i.position_tolerance) ≡ false
  pub timeout : not (timeout_in_range i.execution_timeout_sec) ≡ false
  pub sure : is_below i.confidence minimum_confidence ≡ false

limits_of-Returns :
    (P : SpeechIntent → Type 0) (minimum_confidence : Float) (document : Fields)
    (build : ℤ → ℤ → Float → Float → SpeechIntent)
    → ((duration_ms position_tolerance : ℤ) (execution_timeout_sec confidence : Float)
        → not (is_within (pos 1) (pos 65535) duration_ms) ≡ false
        → not (is_within (pos 1) (pos 500) position_tolerance) ≡ false
        → not (timeout_in_range execution_timeout_sec) ≡ false
        → is_below confidence minimum_confidence ≡ false
        → P (build duration_ms position_tolerance execution_timeout_sec confidence))
    → Returns P (limits_of minimum_confidence document build)
unfolding limits_of
limits_of-Returns P minimum_confidence document build h =
    then-Returns P _ (required_integer document "duration_ms") λ d.
      unless-Returns P (not (is_within (pos 1) (pos 65535) d)) "duration_ms_out_of_range" _ λ l.
        then-Returns P _ (required_integer document "position_tolerance") λ t.
          unless-Returns P (not (is_within (pos 1) (pos 500) t)) "position_tolerance_out_of_range" _
            λ m. then-Returns P _ (required_number document "execution_timeout_sec") λ x.
              unless-Returns P (not (timeout_in_range x)) "execution_timeout_sec_out_of_range" _
                λ n. then-Returns P _ (required_number document "confidence") λ c.
                  unless-Returns P (not (is_confidence c)) "confidence_out_of_range" _ λ o.
                    unless-Returns P (is_below c minimum_confidence) "confidence_below_minimum" _
                      λ p. h d t x c l m n p

intent_of-Returns :
    (minimum_confidence : Float) (document : Fields)
    → Returns (IsSpoken minimum_confidence) (intent_of minimum_confidence document)
unfolding intent_of
intent_of-Returns minimum_confidence document =
    let P = IsSpoken minimum_confidence in
    let texts = required_string-Returns document in
    bind-Returns IsText P _ _ (texts "intent_id") λ intent_id a.
      bind-Returns IsText P _ _ (texts "task_id") λ task_id b.
        bind-Returns IsText P _ _ (texts "trace_id") λ trace_id c.
          bind-Returns IsText P _ _ (texts "session_id") λ session_id d.
            bind-Returns IsText P _ _ (texts "task_type") λ task_type e.
              bind-Returns IsText P _ _ (texts "target_group") λ target_group f.
                unless-Returns P (not (task_type == supported_task_type)) "unsupported_task_type" _
                  λ g.
                    unless-Returns P (not (is_supported_group target_group))
                      "unsupported_target_group" _
                      λ h. then-Returns P _ (required_number document "roll") λ roll.
                        then-Returns P _ (required_number document "pitch") λ pitch.
                          then-Returns P _ (required_number document "yaw") λ yaw.
                            unless_reason-Returns P (pose_reason roll pitch yaw) _ λ k.
                              limits_of-Returns P minimum_confidence document _ λ _ _ _ _ l m n p.
                                record {
                                  task = b;
                                  trace = c;
                                  session = d;
                                  kind = g;
                                  group = h;
                                  pose = k;
                                  duration = l;
                                  tolerance = m;
                                  timeout = n;
                                  sure = p;
                                }

abbrev spoken : Float → Payload → Result SpeechIntent
spoken minimum_confidence payload = load_json_object payload >>= λ document.
    unless (fails (has_unknown document) "unknown_field")
      (unless (missing_field required_fields document) (intent_of minimum_confidence document))

spoken-Returns :
    (minimum_confidence : Float) (payload : Payload)
    → Returns (IsSpoken minimum_confidence) (spoken minimum_confidence payload)
spoken-Returns minimum_confidence payload =
    then-Returns (IsSpoken minimum_confidence) _ (load_json_object payload) λ document.
      unless-Returns (IsSpoken minimum_confidence) (has_unknown document) "unknown_field" _ λ known.
        unless_reason-Returns (IsSpoken minimum_confidence) (missing_field required_fields document)
          _ λ given. intent_of-Returns minimum_confidence document

pub parsed-IsSpoken :
    (minimum_confidence : Float) (payload : Payload) (intent : SpeechIntent)
    → parse_speech_intent minimum_confidence payload ≡ some (ok intent)
    → IsSpoken minimum_confidence intent
unfolding parse_speech_intent
parsed-IsSpoken minimum_confidence payload intent h =
    elim (Bool-cases (is_confidence minimum_confidence)) [
      | inl good ↦
          let read : some (spoken minimum_confidence payload) ≡ some (ok intent) = rw good at h in
          let same : spoken minimum_confidence payload ≡ ok intent = cc in
          subst (Returns (IsSpoken minimum_confidence)) same
            (spoken-Returns minimum_confidence payload)
      | inr bad ↦ absurd (let none_is : none ≡ some (ok intent) = rw bad at h in cc)
    ]
