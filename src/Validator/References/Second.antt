-- ===== src/Validator/References/Second.antt =====
-- src/conformance/validator/noncompliance_refs.py: a part of _REFS, in its order.
use conformance.Prelude.{String, Option, none, some, List, [], ◌∷◌}
use conformance.Validator.References.Pattern.{Piece, literal, one_of}

abbrev pub second_rows : List (List Piece × Option String)
second_rows =
    (
      literal "client/state declared unrecognized supported_commands" ∷ [],
      some "roles/player/v1.md:50",
    )
    ∷ (
      literal "client/state omitted muted despite declaring the mute command" ∷ [],
      some "roles/player/v1.md:46",
    )
    ∷ (
      literal "client/state omitted required player timing fields" ∷ [],
      some "roles/player/v1.md:47-49",
    )
    ∷ (
      literal "client/state omitted required supported_commands" ∷ [],
      some "roles/player/v1.md:50",
    )
    ∷ (literal "client/state omitted the required 'available' field" ∷ [], some "messaging.md:301")
    ∷ (
      literal "client/state omitted volume despite declaring the volume command" ∷ [],
      some "roles/player/v1.md:45",
    )
    ∷ (
      literal "client/state preferred a format not in the client's declared supported_formats" ∷ [],
      some "roles/player/v1.md:51",
    )
    ∷ (
      literal "client/state reported available: false before client-stream/end" ∷ [],
      some "roles/source/v1.md:73",
    )
    ∷ (
      literal "client/state requested visualizer 'spectrum' without a spectrum configuration" ∷ [],
      some "roles/visualizer/v1.md:28",
    )
    ∷ (
      literal "client/state sent a non-positive visualizer rate_max" ∷ [],
      some "roles/visualizer/v1.md:27",
    )
    ∷ (
      literal "client/state source signal sent without line_sense support" ∷ [],
      some "roles/source/v1.md:40",
    )
    ∷ (
      literal "client/state used legacy player.state instead of top-level available" ∷ [],
      some "messaging.md:28, messaging.md:303",
    )
    ∷ (
      literal "client/state used the legacy top-level 'state' field" ∷ [],
      some "messaging.md:28, messaging.md:303",
    )
    ∷ (
      literal "client/state used the pre-rename 'static_delay_ms' key" ∷ [],
      some "messaging.md:28, roles/player/v1.md:47",
    )
    ∷ (
      literal "client/state visualizer types contained non-string entries" ∷ [],
      some "roles/visualizer/v1.md:26",
    )
    ∷ (
      literal "client dialed the server while advertising _sendspin._tcp" ∷ [],
      some "connection.md:21",
    )
    ∷ (
      literal "client sent client_stream/end, superseded by client-stream/end" ∷ [],
      some "roles/source/v1.md:53",
    )
    ∷ (
      literal "client sent client_stream/start, superseded by client-stream/start" ∷ [],
      some "roles/source/v1.md:106",
    )
    ∷ (
      literal "client-stream/start FLAC codec_header must contain STREAMINFO" ∷ [],
      some "roles/source/v1.md:93",
    )
    ∷ (
      literal "client-stream/start announced a pcm bit_depth that is not a whole number of bytes"
          ∷ [],
      some "roles/source/v1.md:88",
    )
    ∷ (literal "client-stream/start announced an unsupported bit_depth" ∷ [], none)
    ∷ (literal "client-stream/start announced an unsupported channels count" ∷ [], none)
    ∷ (literal "client-stream/start announced an unsupported sample_rate" ∷ [], none)
    ∷ (
      literal "client-stream/start codec_header is not valid Base64" ∷ [],
      some "roles/source/v1.md:96",
    )
    ∷ (
      literal "client-stream/start sent a codec_header for opus" ∷ [],
      some "roles/source/v1.md:94",
    )
    ∷ (literal "client-stream/start sent a codec_header for pcm" ∷ [], some "roles/source/v1.md:92")
    ∷ (
      literal "client-stream/start sent without a preceding source start command" ∷ [],
      some "roles/source/v1.md:63",
    )
    ∷ (literal "client_kc is not canonical base64url" ∷ [], some "pairing.md:381")
    ∷ (literal "commit_B is not canonical base64url" ∷ [], some "pairing.md:341")
    ∷ (
      literal "connected unencrypted (transition mode)" ∷ [],
      some "connection.md:66, messaging.md:16",
    )
    ∷ (
      literal "did not send the "
          ∷ one_of ("player" ∷ "source" ∷ "artwork" ∷ "visualizer" ∷ [])
          ∷ literal " client/state object after server/activate in time"
          ∷ [],
      some "messaging.md:297",
    )
    ∷ (
      literal "did not send client/goodbye after server/unpair in time" ∷ [],
      some "messaging.md:456",
    )
    ∷ (
      literal "did not send the required initial client/state in time" ∷ [],
      some "messaging.md:297, messaging.md:299",
    )
    ∷ (literal "fragment used legacy binary message IDs 2/3" ∷ [], some "messaging.md:76-77")
    ∷ (
      literal "initial client/state has an active artwork role but no artwork state" ∷ [],
      some "messaging.md:297",
    )
    ∷ (
      literal "initial client/state has an active player role but no player state" ∷ [],
      some "messaging.md:297",
    )
    ∷ (
      literal "initial client/state has an active source role but no source state" ∷ [],
      some "messaging.md:297",
    )
    ∷ (
      literal "initial client/state has an active visualizer role but no visualizer state" ∷ [],
      some "messaging.md:297",
    )
    ∷ (
      literal "initial client/state omitted the required 'available' field" ∷ [],
      some "messaging.md:301",
    )
    ∷ (literal "long_term_psk is not canonical base64url" ∷ [], some "pairing.md:390")
    ∷ (literal "nonce_B is not canonical base64url" ∷ [], some "messaging.md:28, pairing.md:382")
    ∷ (
      literal "pair/abort sent the pre-rename pin_mismatch reason" ∷ [],
      some "pairing.md:403, pairing.md:407",
    )
    ∷ (literal "pake_msg_2 is not canonical base64url" ∷ [], some "pairing.md:361")
    ∷ []
