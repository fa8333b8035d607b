-- ===== src/Formats/Negotiated.antt =====
-- src/conformance/declared_formats.py: _negotiated_formats, every format that a case negotiated with
-- the summary fields that observed it.
pub mod Exact
use conformance.Prelude.{◌+◌, Option, none, some, List, [], ◌∷◌, ◌++◌, if◌then◌else◌}
use conformance.Json.{Value, null, obj, Fields, get, as_object, Unicode}
use conformance.Formats.Format.{AudioFormat, normalized_format, format_key, same_key}

-- The summary field that an observation was read from.
pub data Source : Type 0 where
  server_stream client_stream renegotiation_initial renegotiation_final : Source

pub record Negotiated : Type 0 where
  pub format : AudioFormat
  pub sources : List Source

-- The two formats of a renegotiation, where the client reports one.
unfoldable pub renegotiation_candidates : Value → List (Source × Value)
renegotiation_candidates (obj renegotiation) =
    (renegotiation_initial, get "initial_format" renegotiation)
    ∷ (renegotiation_final, get "final_format" renegotiation)
    ∷ []
renegotiation_candidates _ = []

unfoldable pub candidates : Fields → Fields → List (Source × Value)
unfolding renegotiation_candidates
candidates server client =
    (server_stream, get "stream" server)
    ∷ (client_stream, get "stream" client)
    ∷ renegotiation_candidates (get "renegotiation" client)

-- A further source of a format that is known, or a new format. (The list that the dict `sources`
-- holds is the one in the entry of the result.)
unfoldable pub add_source : AudioFormat → Source → List Negotiated → List Negotiated
add_source f s [] = (record { format = f; sources = s ∷ [] }) ∷ []
add_source f s (n ∷ ns) =
    if same_key (format_key f) (format_key n.format)
    then (record n { sources = n.sources ++ s ∷ [] }) ∷ ns
    else n ∷ add_source f s ns

unfoldable pub note_candidate : Source → Option AudioFormat → List Negotiated → List Negotiated
note_candidate s none ns = ns
note_candidate s (some f) ns = add_source f s ns

module _ ⦃u : Unicode⦄ where
  unfoldable pub negotiate : List Negotiated → List (Source × Value) → List Negotiated
  negotiate ns [] = ns
  negotiate ns ((s, v) ∷ rest) = negotiate (note_candidate s (normalized_format v) ns) rest

  unfoldable pub negotiated_formats : Fields → Fields → List Negotiated
  negotiated_formats server client = negotiate [] (candidates server client)
