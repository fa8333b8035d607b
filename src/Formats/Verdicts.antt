-- ===== src/Formats/Verdicts.antt =====
-- src/conformance/declared_formats.py: undeclared_format_violation, format_priority_violation and
-- stream_bit_depth_violation. A reason is a value with what its text names; the labels of formats
-- that make the text are left out.
pub mod Listing
pub mod Selection
pub mod Depth
use conformance.Prelude.{
  ℕ, String, Bool, not, ◌&&◌, ◌||◌, Option, none, some, List, [], ◌∷◌, map, str_eq, if◌then◌else◌,
  is_empty, any, filter, pos, eqb_ℤ,
}
use conformance.Json.{Fields, get, Unicode}
use conformance.Formats.Format.{AudioFormat, normalized_format, comparable_key, same_key}
use conformance.Formats.Declared.{Declaration, declared_formats}
use conformance.Formats.Negotiated.{Negotiated, negotiated_formats}

-- The reasons, each with the values that its text names.
pub record Undeclared : Type 0 where
  pub observed : List Negotiated
  pub offered : List AudioFormat

pub data PriorityViolation : Type 0 where
  unreadable_priority : PriorityViolation
  no_priority : PriorityViolation
  not_listed_first : String → List AudioFormat → PriorityViolation
  no_mandatory_codec : List AudioFormat → PriorityViolation
  lower_selected : AudioFormat → String → List AudioFormat → PriorityViolation

pub data DepthViolation : Type 0 where
  no_stream_recorded : ℕ → DepthViolation
  unknown_side : AudioFormat → ℕ → List AudioFormat → DepthViolation
  server_chose_other : AudioFormat → ℕ → List AudioFormat → DepthViolation
  client_offered_none : AudioFormat → ℕ → List AudioFormat → DepthViolation
  client_observed_other : AudioFormat → AudioFormat → List AudioFormat → DepthViolation

-- MANDATORY_CODECS
abbrev pub is_mandatory : String → Bool
is_mandatory codec = str_eq codec "flac" || str_eq codec "pcm"

unfoldable pub is_declared : List AudioFormat → Negotiated → Bool
is_declared declared n = any (same_key (comparable_key n.format)) (map comparable_key declared)

abbrev pub has_codec : String → AudioFormat → Bool
has_codec codec f = str_eq f.codec codec

abbrev pub has_depth : ℕ → AudioFormat → Bool
has_depth depth f = eqb_ℤ f.bit_depth (pos depth)

-- The part of format_priority_violation that is about the server's stream.
unfoldable pub judge_selection :
    String → List AudioFormat → Option AudioFormat → Option PriorityViolation
judge_selection preferred declared none = none
judge_selection preferred declared (some stream) =
    if not (str_eq stream.codec preferred) && any (has_codec stream.codec) declared
    then some (lower_selected stream preferred declared)
    else none

-- The part that is about the declared list; `codecs[0]` is its first entry.
unfoldable pub judge_priority :
    String → List AudioFormat → Option AudioFormat → Option PriorityViolation
unfolding judge_selection
judge_priority preferred [] stream = some no_priority
judge_priority preferred (f ∷ fs) stream =
    if not (str_eq f.codec preferred)
    then some (not_listed_first preferred (f ∷ fs))
    else if not (any (λ g. is_mandatory g.codec) (f ∷ fs))
    then some (no_mandatory_codec (f ∷ fs))
    else judge_selection preferred (f ∷ fs) stream

-- The part of stream_bit_depth_violation where the server's stream has another depth.
unfoldable pub blame_depth : ℕ → Declaration → AudioFormat → DepthViolation
blame_depth depth d stream =
    if is_empty d.declared || not (is_empty d.unreadable)
    then unknown_side stream depth d.declared
    else if any (has_depth depth) d.declared
    then server_chose_other stream depth d.declared
    else client_offered_none stream depth d.declared

-- The part where it has the depth, and the client may report the stream that it observed.
unfoldable pub judge_observed :
    ℕ → Declaration → AudioFormat → Option AudioFormat → Option DepthViolation
judge_observed depth d stream none = none
judge_observed depth d stream (some o) =
    if not (has_depth depth o) then some (client_observed_other o stream d.declared) else none

unfoldable pub judge_depth :
    ℕ → Declaration → Option AudioFormat → Option AudioFormat → Option DepthViolation
unfolding blame_depth judge_observed
judge_depth depth d none observed = some (no_stream_recorded depth)
judge_depth depth d (some stream) observed =
    if not (has_depth depth stream)
    then some (blame_depth depth d stream)
    else judge_observed depth d stream observed

module _ ⦃u : Unicode⦄ where
  unfoldable pub undeclared_format_violation : Fields → Fields → Option Undeclared
  undeclared_format_violation server client =
      let d = declared_formats server in
      if is_empty d.declared || not (is_empty d.unreadable)
      then none
      else let undeclared =
          filter (λ n. not (is_declared d.declared n)) (negotiated_formats server client) in
        if is_empty undeclared
        then none
        else some (record { observed = undeclared; offered = d.declared })

  unfoldable pub format_priority_violation : Fields → String → Option PriorityViolation
  unfolding judge_priority
  format_priority_violation server preferred_codec =
      let d = declared_formats server in
      if not (is_empty d.unreadable)
      then some unreadable_priority
      else judge_priority preferred_codec d.declared (normalized_format (get "stream" server))

  unfoldable pub stream_bit_depth_violation : Fields → Fields → ℕ → Option DepthViolation
  unfolding judge_depth
  stream_bit_depth_violation server client bit_depth =
      judge_depth bit_depth (declared_formats server) (normalized_format (get "stream" server))
        (normalized_format (get "stream" client))
