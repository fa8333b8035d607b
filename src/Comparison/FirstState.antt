-- ===== src/Comparison/FirstState.antt =====
-- src/conformance/runner.py: _first_metadata_state_verdict, which judges the timestamp of the first
-- state that carries a metadata object.
pub mod Stamps
pub mod Judged
use conformance.Prelude.{
  Bool, true, false, not, Option, none, some, if◌then◌else◌, ◌>>=◌, ℤ, ltb_ℤ, eqb_ℤ,
}
use conformance.Json.{Value, null, obj, Fields, no_field, get, find, as_integer}

-- What the first state is accused of: it had no timestamp, or one ahead of the server's clock.
pub data StateViolation : Type 0 where
  no_timestamp : StateViolation
  scheduled : ℤ → ℤ → StateViolation

-- Whether the rule was judged, and the violation. Around it, none where a summary's `metadata` is
-- no object, which raises AttributeError.
abbrev pub StateVerdict : Type 0
StateVerdict = Bool × Option StateViolation

-- summary.get("metadata", {})
unfoldable pub metadata_section : Fields → Option Fields
metadata_section summary = elim (find "metadata" summary) [
  | none ↦ some no_field
  | some (obj fields) ↦ some fields
  | some _ ↦ none
]

-- The stamps that both sides recorded, against the bound.
unfoldable pub judge_stamps : ℤ → Option ℤ → Option ℤ → StateVerdict
judge_stamps stamped (some sent) (some bound) =
    if not (eqb_ℤ stamped sent)
    then (false, none)
    else if ltb_ℤ bound stamped
    then (true, some (scheduled stamped bound))
    else (true, none)
judge_stamps stamped _ _ = (false, none)

-- What the server recorded of that state.
unfoldable pub judge_sent_state : ℤ → Value → StateVerdict
unfolding judge_stamps
judge_sent_state stamped (obj sent) =
    judge_stamps stamped (as_integer (get "timestamp_us" sent)) (as_integer (get "bound_us" sent))
judge_sent_state stamped _ = (false, none)

-- The timestamp that the client reports. (_microseconds is as_integer.)
unfoldable pub judge_timestamp : Fields → Option Value → Option StateVerdict
unfolding judge_sent_state metadata_section
judge_timestamp server_summary none = some (false, none)
judge_timestamp server_summary (some null) = some (true, some no_timestamp)
judge_timestamp server_summary (some v) = elim (as_integer v) [
  | none ↦ some (false, none)
  | some stamped ↦ metadata_section server_summary >>= λ section.
      some (judge_sent_state stamped (get "first_state_sent" section))
]

unfoldable pub judge_first_state : Fields → Value → Option StateVerdict
unfolding judge_timestamp
judge_first_state server_summary (obj first_state) =
    judge_timestamp server_summary (find "timestamp_us" first_state)
judge_first_state server_summary _ = some (false, none)

unfoldable pub first_metadata_state_verdict : Fields → Fields → Option StateVerdict
unfolding metadata_section judge_first_state
first_metadata_state_verdict server_summary client_summary =
    metadata_section client_summary >>= λ section.
    judge_first_state server_summary (get "first_object_state" section)
