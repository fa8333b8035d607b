-- ===== src/Matrix/Scenarios.antt =====
-- src/conformance/scenarios.py: the scenarios of the matrix, in the order that they run.
mod Audio
mod State
pub use Audio.*
pub use State.*
use conformance.Prelude.{◌*◌, List, [], ◌∷◌}
use conformance.Matrix.Model.{
  RoleName, server, client, RoleFamily, player, metadata, controller, artwork, VerificationMode,
  audio_pcm, audio_encoded_bytes, metadata_mode, controller_mode, artwork_mode, format_preference,
  protocol, audio_chunk_framing, ScenarioSpec,
}

abbrev pub scenario_list : List ScenarioSpec
scenario_list =
    client_initiated_pcm ∷ server_initiated_pcm ∷ server_initiated_protocol_baseline
    ∷ server_initiated_metadata ∷ server_initiated_artwork ∷ server_initiated_controller
    ∷ server_initiated_flac ∷ server_initiated_opus ∷ server_initiated_pcm_24bit
    ∷ client_initiated_state_format_pcm ∷ client_initiated_state_format_flac
    ∷ client_initiated_metadata ∷ client_initiated_artwork ∷ client_initiated_controller
    ∷ server_initiated_legacy_unencrypted ∷ server_initiated_audio_chunk_framing ∷ []
