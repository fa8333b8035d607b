-- ===== src/Tests/FormatsTests.antt =====
-- The theorems on formats (src/conformance/declared_formats.py) at concrete summaries.
use conformance.Prelude.{
  ℕ, String, ◌≡◌, refl, ◌≢◌, ◌↔◌, not, none, some, List, [], ◌∷◌, map, is_some, filter, All, Any,
  In, Distinct, pos,
}
use conformance.Json.{items, Fields}
use conformance.Formats.Format.{AudioFormat, normalized_format, format_key, comparable_key}
use conformance.Formats.Declared.{bad_entry, supported_formats, declared_formats}
use conformance.Formats.Declared.Exact.{declared_formats-exact}
use conformance.Formats.Negotiated.{Source, client_stream, candidates, negotiated_formats}
use conformance.Formats.Negotiated.Exact.{Observes, formats, Holds, negotiated_formats-exact}
use conformance.Formats.Verdicts.{
  Undeclared, DepthViolation, undeclared_format_violation, stream_bit_depth_violation,
  server_chose_other,
}
use conformance.Formats.Verdicts.Listing.{WasDeclared, undeclared_format_violation-none_iff}
use conformance.Tests.Samples.{lower, format_value, listed, readable, server_of, client_of}
use conformance.Formats.Declared.{declare_entries, declare_value, note_entry}
use conformance.Formats.Format.{same_key}
use conformance.Formats.Negotiated.{add_source, negotiate, note_candidate}
use conformance.Formats.Verdicts.{is_declared}

abbrev mixed : Fields
mixed = server_of listed (format_value "opus" 16)

abbrev opus_server : Fields
opus_server = server_of readable (format_value "opus" 16)

abbrev opus_client : Fields
opus_client = client_of (format_value "opus" 24)

abbrev flac_client : Fields
flac_client = client_of (format_value "flac" 16)

declared_formats-exact_example :
    Distinct (map format_key (declared_formats ⦃u = lower⦄ mixed).declared)
    × ((f : AudioFormat)
        → In f (declared_formats ⦃u = lower⦄ mixed).declared
          ↔ Any (λ e. normalized_format ⦃u = lower⦄ e ≡ some f) (items listed))
    × ((declared_formats ⦃u = lower⦄ mixed).unreadable
        ≡ map bad_entry
            (filter (λ e. not (is_some (normalized_format ⦃u = lower⦄ e))) (items listed)))
unfolding supported_formats
declared_formats-exact_example = declared_formats-exact ⦃u = lower⦄ mixed listed refl

negotiated_formats-exact_example :
    Distinct (formats (negotiated_formats ⦃u = lower⦄ opus_server opus_client))
    × ((f : AudioFormat) (s : Source)
        → Any (Observes f s) (negotiated_formats ⦃u = lower⦄ opus_server opus_client)
          ↔ Any (Holds ⦃u = lower⦄ f s) (candidates opus_server opus_client))
negotiated_formats-exact_example = negotiated_formats-exact ⦃u = lower⦄ opus_server opus_client

abbrev format : String → ℕ → AudioFormat
format codec depth = record {
  codec = codec;
  sample_rate = pos 48000;
  bit_depth = pos depth;
  channels = pos 2;
}

abbrev offered : List AudioFormat
offered = format "opus" 16 ∷ format "pcm" 24 ∷ []

opus_server-offered : (declared_formats ⦃u = lower⦄ opus_server).declared ≡ offered
unfolding declared_formats declare_value declare_entries note_entry normalized_format same_key
    format_key
opus_server-offered = refl

opus_server-readable : (declared_formats ⦃u = lower⦄ opus_server).unreadable ≡ []
unfolding declared_formats declare_value declare_entries note_entry normalized_format same_key
    format_key
opus_server-readable = refl

some_offered : (declared_formats ⦃u = lower⦄ opus_server).declared ≢ []
some_offered e = cc (opus_server-offered, e)

-- The client observed opus at another depth, which is the same format.
undeclared_format_violation-none_iff_example :
    (undeclared_format_violation ⦃u = lower⦄ opus_server opus_client ≡ none)
    ↔ All
        (WasDeclared (declared_formats ⦃u = lower⦄ opus_server).declared)
        (negotiated_formats ⦃u = lower⦄ opus_server opus_client)
undeclared_format_violation-none_iff_example =
    undeclared_format_violation-none_iff ⦃u = lower⦄ opus_server opus_client
      (some_offered, opus_server-readable)

abbrev flac_violation : Undeclared
flac_violation = record {
  observed = (record { format = format "flac" 16; sources = client_stream ∷ [] }) ∷ [];
  offered = offered;
}

flac_is_undeclared :
    undeclared_format_violation ⦃u = lower⦄ opus_server flac_client ≡ some flac_violation
unfolding undeclared_format_violation declared_formats negotiated_formats declare_value
    declare_entries note_entry normalized_format same_key format_key negotiate candidates
    note_candidate add_source is_declared comparable_key
flac_is_undeclared = refl

-- The client offered 24 bits, which the server did not stream.
abbrev other_depth : DepthViolation
other_depth = server_chose_other (format "opus" 16) 24 offered

server_is_blamed :
    stream_bit_depth_violation ⦃u = lower⦄ opus_server opus_client 24 ≡ some other_depth
unfolding stream_bit_depth_violation declared_formats normalized_format declare_value
    declare_entries note_entry same_key format_key
server_is_blamed = refl
