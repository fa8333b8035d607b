-- ===== src/Lib.antt =====
-- The verdicts of the Sendspin conformance harness (src/conformance and scripts of this repository).
--
-- The harness runs pairs of a server and a client through scenarios. Each side's adapter writes a
-- summary, which is a JSON object, and the harness judges the pair from the two summaries. The
-- published results are rows of index.json, which a later run is compared with.
--
-- The parts, and the files that model them:
-- - Json.antt: the values that json.loads returns, dict.get, `in` and isinstance. A float is kept as
--   its text. str.casefold and the classes \s and \w are parameters (Unicode), since their tables
--   belong to the runtime. Python: ==, bool() and int() of a value, with the runtime's floats, its texts
--   of values and the hash of a codec header as parameters.
-- - Formats (src/conformance/declared_formats.py). Format: normalized_format and the two keys.
--   Declared: _declared_formats, a fold whose state is the pair of result lists and the set `seen`.
--   Negotiated: _negotiated_formats. Verdicts: undeclared_format_violation,
--   format_priority_violation and stream_bit_depth_violation.
-- - Protocol (src/conformance/protocol.py). Gate: stream_start_gate_violation, where the record Gate
--   holds the loop's variables and gate_step is one round. TimeExchange: time_exchange_violation, in
--   the same way with the record Exchange. Activation, GroupUpdate and Evidence: the verdicts
--   activation_violation, group_update_violation and protocol_evidence_failure.
-- - Framing (src/conformance/chunk_framing.py). Frames: transported_frames with bytes.fromhex written
--   out. Header: _header_violation. Durations: _chunk_durations_verdict. Verdict:
--   chunk_framing_verdict, which calls the others, and _unobserved_client_verdict.
-- - Matrix. Model: the specs of src/conformance/models.py with RoleSpec.unsupported_reason. Scenarios
--   and Implementations: the tables of src/conformance/scenarios.py and implementations.py. Choice:
--   the lookups, and implementations_for_scenario.
-- - Regressions (scripts/detect_regressions.py): detect_regressions and exempt_cases, where revisions are
--   compared by the == of Python.
-- - Comparison (src/conformance/runner.py). Outcome: what a comparison comes to, which is an exception,
--   a failure or a note. Audio, Encoded, States, Controller and Preference: the comparison of each
--   mode, _compare_audio_summaries, _compare_encoded_audio_summaries with _decoded_audio_verdict,
--   _compare_metadata_summaries and _compare_artwork_summaries, _compare_controller_summaries, and
--   _compare_format_preference_summaries. Dispatch: _dispatch_comparison. Connection:
--   _compare_summaries, which puts the verdicts of a case together, and _adapter_reported_failures.
--   FirstState: _first_metadata_state_verdict, where an AttributeError is none.
-- - Pcm (src/conformance/pcm.py): pcm_int_bytes_to_float_bytes up to the packing of the floats, with a
--   sample as a multiple of 2^-31. A ValueError or a struct.error is none.
-- - Validator (src/conformance/validator), which judges one client from the frames that its server
--   exchanges with it. Findings: findings.py. Record: the frames, violations and events of
--   recorder.py, and ConnectionRecord of checks.py. Recorder: the class Recorder, its state a record
--   and each method a function; Redaction: _redact and _redact_text; Steps: what can happen to it.
--   References: noncompliance_refs.py, with its patterns as data and pattern.fullmatch as a search.
--   Checks: the checks of checks.py, by what they judge; Run: run_checks, check_noncompliance and
--   judge_session. Suites: the checks of suite_checks.py; Keying, Refusal, Pairing, Finalize and
--   PostPairing hold them by what they judge, and decode_psk_token is a parameter. A message is its
--   text with {} for each value, and the values.
-- - Prelude: native numbers, lists, options, dicts and texts, and the lemmas that the parts share.
-- - Tests: each theorem below at a concrete input, and runs of the definitions.
--
-- How code becomes definitions. A for loop is a structural recursion over its list, so no fuel is
-- needed and each definition is total; an early return is a constructor that ends the recursion, or a
-- helper by clauses. A reason, which the code writes as a text, is a constructor with the values that
-- the text names, so that theorems can say what a reason means; the wording is left out, and with it
-- the labels of formats. A KeyError is none. Numbers have no bound, as in Python. The durations of
-- chunks, which the code computes as floats, are compared by multiplying out, against the middle of
-- two floats where the rounding of the division decides; an OverflowError of the division, and the
-- ValueError of min([]), are an outcome of their own.
--
-- Not modelled: the launching of adapters and the file system, the rest of the validator (the steps
-- of the suites, the pairing codes, the session, the prompts and the report), the site, the builds,
-- the formatting of messages and the command lines. json.loads is a parameter of the recorder.
pub mod Prelude
pub mod Json
pub mod Formats
pub mod Protocol
pub mod Framing
pub mod Matrix
pub mod Regressions
pub mod Comparison
pub mod Pcm
pub mod Validator
pub mod Tests
