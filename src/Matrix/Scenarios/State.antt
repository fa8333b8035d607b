-- ===== src/Matrix/Scenarios/State.antt =====
-- src/conformance/scenarios.py: the scenarios about metadata, commands, artwork and the preferred format.
use conformance.Prelude.{String, false, none, List, [], ◌∷◌}
use conformance.Matrix.Model.{
  server, client, player, metadata, controller, artwork, metadata_mode, controller_mode,
  artwork_mode, format_preference, ScenarioSpec,
}

abbrev pub metadata_extra_cli_args : List (String × String)
metadata_extra_cli_args =
    ("metadata_title", "Almost Silent")
    ∷ ("metadata_artist", "Sendspin Conformance")
    ∷ ("metadata_album_artist", "Sendspin")
    ∷ ("metadata_album", "Protocol Fixtures")
    ∷ ("metadata_artwork_url", "https://example.invalid/almost-silent.jpg")
    ∷ ("metadata_year", "2026")
    ∷ ("metadata_track", "1")
    ∷ ("metadata_track_progress", "12000")
    ∷ ("metadata_track_duration", "180000")
    ∷ ("metadata_playback_speed", "1000")
    ∷ []

abbrev pub controller_extra_cli_args : List (String × String)
controller_extra_cli_args =
    ("controller_command", "next")
    ∷ ("controller_repeat", "all")
    ∷ ("controller_shuffle", "false")
    ∷ []

abbrev pub artwork_extra_cli_args : List (String × String)
artwork_extra_cli_args =
    ("artwork_format", "jpeg") ∷ ("artwork_width", "256") ∷ ("artwork_height", "256") ∷ []

abbrev pub server_initiated_metadata : ScenarioSpec
server_initiated_metadata = record {
  id = "server-initiated-metadata";
  display_name = "Server initiates connection and client wants Metadata";
  initiator_role = server;
  preferred_codec = "none";
  required_role_families = metadata ∷ [];
  verification_mode = metadata_mode;
  scenario_revision = 5;
  requires_legacy_unencrypted = false;
  verifies_format_priority = false;
  verifies_stream_bit_depth = none;
  extra_cli_args = metadata_extra_cli_args;
  protocol_assertions = [];
}

abbrev pub server_initiated_controller : ScenarioSpec
server_initiated_controller = record {
  id = "server-initiated-controller";
  display_name = "Server initiates connection and client wants Controller";
  initiator_role = server;
  preferred_codec = "none";
  required_role_families = controller ∷ [];
  verification_mode = controller_mode;
  scenario_revision = 5;
  requires_legacy_unencrypted = false;
  verifies_format_priority = false;
  verifies_stream_bit_depth = none;
  extra_cli_args = controller_extra_cli_args;
  protocol_assertions = [];
}

abbrev pub server_initiated_artwork : ScenarioSpec
server_initiated_artwork = record {
  id = "server-initiated-artwork";
  display_name = "Server initiates connection and client wants Artwork";
  initiator_role = server;
  preferred_codec = "none";
  required_role_families = artwork ∷ [];
  verification_mode = artwork_mode;
  scenario_revision = 5;
  requires_legacy_unencrypted = false;
  verifies_format_priority = false;
  verifies_stream_bit_depth = none;
  extra_cli_args = artwork_extra_cli_args;
  protocol_assertions = [];
}

abbrev pub client_initiated_state_format_pcm : ScenarioSpec
client_initiated_state_format_pcm = record {
  id = "client-initiated-state-format-pcm";
  display_name = "Client changes its preferred PCM bit depth via client/state";
  initiator_role = client;
  preferred_codec = "pcm";
  required_role_families = player ∷ [];
  verification_mode = format_preference;
  scenario_revision = 5;
  requires_legacy_unencrypted = false;
  verifies_format_priority = false;
  verifies_stream_bit_depth = none;
  extra_cli_args = [];
  protocol_assertions = [];
}

abbrev pub client_initiated_state_format_flac : ScenarioSpec
client_initiated_state_format_flac = record {
  id = "client-initiated-state-format-flac";
  display_name = "Client changes its preferred format from PCM to FLAC via client/state";
  initiator_role = client;
  preferred_codec = "flac";
  required_role_families = player ∷ [];
  verification_mode = format_preference;
  scenario_revision = 5;
  requires_legacy_unencrypted = false;
  verifies_format_priority = false;
  verifies_stream_bit_depth = none;
  extra_cli_args = [];
  protocol_assertions = [];
}

abbrev pub client_initiated_metadata : ScenarioSpec
client_initiated_metadata = record {
  id = "client-initiated-metadata";
  display_name = "Client initiates connection and client wants Metadata";
  initiator_role = client;
  preferred_codec = "none";
  required_role_families = metadata ∷ [];
  verification_mode = metadata_mode;
  scenario_revision = 1;
  requires_legacy_unencrypted = false;
  verifies_format_priority = false;
  verifies_stream_bit_depth = none;
  extra_cli_args = metadata_extra_cli_args;
  protocol_assertions = [];
}

abbrev pub client_initiated_controller : ScenarioSpec
client_initiated_controller = record {
  id = "client-initiated-controller";
  display_name = "Client initiates connection and client wants Controller";
  initiator_role = client;
  preferred_codec = "none";
  required_role_families = controller ∷ [];
  verification_mode = controller_mode;
  scenario_revision = 1;
  requires_legacy_unencrypted = false;
  verifies_format_priority = false;
  verifies_stream_bit_depth = none;
  extra_cli_args = controller_extra_cli_args;
  protocol_assertions = [];
}

abbrev pub client_initiated_artwork : ScenarioSpec
client_initiated_artwork = record {
  id = "client-initiated-artwork";
  display_name = "Client initiates connection and client wants Artwork";
  initiator_role = client;
  preferred_codec = "none";
  required_role_families = artwork ∷ [];
  verification_mode = artwork_mode;
  scenario_revision = 1;
  requires_legacy_unencrypted = false;
  verifies_format_priority = false;
  verifies_stream_bit_depth = none;
  extra_cli_args = artwork_extra_cli_args;
  protocol_assertions = [];
}
