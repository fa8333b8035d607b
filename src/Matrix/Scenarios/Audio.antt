-- ===== src/Matrix/Scenarios/Audio.antt =====
-- src/conformance/scenarios.py: the scenarios that stream audio.
use conformance.Prelude.{true, false, none, some, [], ◌∷◌}
use conformance.Matrix.Model.{
  server, client, player, audio_pcm, audio_encoded_bytes, protocol, audio_chunk_framing,
  ScenarioSpec,
}

abbrev pub client_initiated_pcm : ScenarioSpec
client_initiated_pcm = record {
  id = "client-initiated-pcm";
  display_name = "Client initiates connection and client wants PCM";
  initiator_role = client;
  preferred_codec = "pcm";
  required_role_families = player ∷ [];
  verification_mode = audio_pcm;
  scenario_revision = 6;
  requires_legacy_unencrypted = false;
  verifies_format_priority = false;
  verifies_stream_bit_depth = none;
  extra_cli_args = [];
  protocol_assertions = [];
}

abbrev pub server_initiated_pcm : ScenarioSpec
server_initiated_pcm = record {
  id = "server-initiated-pcm";
  display_name = "Server initiates connection and client wants PCM";
  initiator_role = server;
  preferred_codec = "pcm";
  required_role_families = player ∷ [];
  verification_mode = audio_pcm;
  scenario_revision = 6;
  requires_legacy_unencrypted = false;
  verifies_format_priority = false;
  verifies_stream_bit_depth = none;
  extra_cli_args = [];
  protocol_assertions = [];
}

abbrev pub server_initiated_protocol_baseline : ScenarioSpec
server_initiated_protocol_baseline = record {
  id = "server-initiated-protocol-baseline-v1";
  display_name = "Server initiates a protocol baseline session";
  initiator_role = server;
  preferred_codec = "pcm";
  required_role_families = player ∷ [];
  verification_mode = protocol;
  scenario_revision = 5;
  requires_legacy_unencrypted = false;
  verifies_format_priority = false;
  verifies_stream_bit_depth = none;
  extra_cli_args = [];
  protocol_assertions = "CORE-001" ∷ "CORE-002" ∷ "CORE-003" ∷ "CORE-004" ∷ "PLAYER-001" ∷ [];
}

abbrev pub server_initiated_flac : ScenarioSpec
server_initiated_flac = record {
  id = "server-initiated-flac";
  display_name = "Server initiates connection and client wants FLAC";
  initiator_role = server;
  preferred_codec = "flac";
  required_role_families = player ∷ [];
  verification_mode = audio_encoded_bytes;
  scenario_revision = 6;
  requires_legacy_unencrypted = false;
  verifies_format_priority = false;
  verifies_stream_bit_depth = none;
  extra_cli_args = [];
  protocol_assertions = [];
}

abbrev pub server_initiated_opus : ScenarioSpec
server_initiated_opus = record {
  id = "server-initiated-opus";
  display_name = "Server initiates connection and client prefers OPUS";
  initiator_role = server;
  preferred_codec = "opus";
  required_role_families = player ∷ [];
  verification_mode = audio_encoded_bytes;
  scenario_revision = 6;
  requires_legacy_unencrypted = false;
  verifies_format_priority = true;
  verifies_stream_bit_depth = none;
  extra_cli_args = [];
  protocol_assertions = [];
}

abbrev pub server_initiated_pcm_24bit : ScenarioSpec
server_initiated_pcm_24bit = record {
  id = "server-initiated-pcm-24bit";
  display_name = "Server initiates connection and client wants 24-bit PCM";
  initiator_role = server;
  preferred_codec = "pcm";
  required_role_families = player ∷ [];
  verification_mode = audio_pcm;
  scenario_revision = 7;
  requires_legacy_unencrypted = false;
  verifies_format_priority = false;
  verifies_stream_bit_depth = some 24;
  extra_cli_args = [];
  protocol_assertions = [];
}

abbrev pub server_initiated_legacy_unencrypted : ScenarioSpec
server_initiated_legacy_unencrypted = record {
  id = "server-initiated-legacy-unencrypted";
  display_name = "Server initiates connection over the legacy unencrypted transition mode";
  initiator_role = server;
  preferred_codec = "pcm";
  required_role_families = player ∷ [];
  verification_mode = audio_pcm;
  scenario_revision = 6;
  requires_legacy_unencrypted = true;
  verifies_format_priority = false;
  verifies_stream_bit_depth = none;
  extra_cli_args = [];
  protocol_assertions = [];
}

abbrev pub server_initiated_audio_chunk_framing : ScenarioSpec
server_initiated_audio_chunk_framing = record {
  id = "server-initiated-audio-chunk-framing";
  display_name = "Server initiates connection and frames PCM audio chunks";
  initiator_role = server;
  preferred_codec = "pcm";
  required_role_families = player ∷ [];
  verification_mode = audio_chunk_framing;
  scenario_revision = 4;
  requires_legacy_unencrypted = false;
  verifies_format_priority = false;
  verifies_stream_bit_depth = none;
  extra_cli_args = [];
  protocol_assertions = [];
}
