-- ===== src/Validator/References/Third.antt =====
-- src/conformance/validator/noncompliance_refs.py: a part of _REFS, in its order.
use conformance.Prelude.{String, Option, none, some, List, [], ◌∷◌}
use conformance.Validator.References.Pattern.{Piece, literal, one_of, dots, unlike}

abbrev pub third_rows : List (List Piece × Option String)
third_rows =
    (
      literal "sent "
          ∷ one_of (
              "client/pair-auth" ∷ "client/pair-confirm" ∷ "client/pair-finalize"
              ∷ "client/pair-retry" ∷ [])
          ∷ literal " before client/pair-init"
          ∷ [],
      some "pairing.md:325",
    )
    ∷ (
      literal "sent "
          ∷ one_of ("client/pair-init" ∷ "client/pair-pending" ∷ [])
          ∷ literal " with a pairing_index ahead of the server's count"
          ∷ [],
      some "pairing.md:327",
    )
    ∷ (
      literal "sent "
          ∷ one_of (
              "client/pair-pending" ∷ "client/pair-init" ∷ "client/pair-finalize"
              ∷ "client/pair-auth" ∷ "client/pair-confirm" ∷ "client/pair-retry" ∷ "pair/abort"
              ∷ [])
          ∷ literal " before any pairing server/activate"
          ∷ [],
      some "pairing.md:325",
    )
    ∷ (
      literal "sent a malformed " ∷ unlike "client/state" "client/command" ∷ dots ∷ [],
      some "messaging.md:24",
    )
    ∷ (
      literal "sent a controller command the server did not offer" ∷ [],
      some "roles/controller/v1.md:13",
    )
    ∷ (
      literal "sent a malformed client/command controller object" ∷ [],
      some "roles/controller/v1.md:12-17",
    )
    ∷ (literal "sent a malformed client/state" ∷ [], some "messaging.md:303-309")
    ∷ (literal "sent a message before the first server/activate" ∷ [], some "messaging.md:14")
    ∷ (
      literal "sent a message before the server/activate that follows a re-handshake" ∷ [],
      some "connection.md:153",
    )
    ∷ (literal "sent a message that is not a valid message envelope" ∷ [], some "messaging.md:24")
    ∷ (literal "sent a message without a payload object" ∷ [], some "messaging.md:24")
    ∷ (
      literal "sent a pcm source audio chunk that is not a whole number of frames" ∷ [],
      some "roles/source/v1.md:92",
    )
    ∷ (literal "sent a second client/hello after the hello exchange" ∷ [], some "messaging.md:198")
    ∷ (literal "sent a server-to-client binary message type" ∷ [], some "messaging.md:36")
    ∷ (literal "sent a server-to-client message" ∷ [], some "messaging.md:26")
    ∷ (literal "sent a source audio chunk longer than 150 ms" ∷ [], some "roles/source/v1.md:114")
    ∷ (
      literal "sent a source audio chunk shorter than its header" ∷ [],
      some "roles/source/v1.md:108-109",
    )
    ∷ (literal "sent a source audio chunk that failed to decode" ∷ [], some "roles/source/v1.md:90")
    ∷ (
      literal
            "sent a stream/request-format artwork object, superseded by the client/state artwork object"
          ∷ [],
      some "roles/artwork/v1.md:11",
    )
    ∷ (
      literal
            "sent a stream/request-format player object, superseded by the client/state player format"
          ∷ [],
      some "roles/player/v1.md:51",
    )
    ∷ (
      literal
            "sent a stream/request-format visualizer object, superseded by the client/state visualizer object"
          ∷ [],
      some "roles/visualizer/v1.md:19",
    )
    ∷ (literal "sent a stream/request-format without a role object" ∷ [], none)
    ∷ (
      literal "sent an empty flac or opus source audio chunk" ∷ [],
      some "roles/source/v1.md:93-94",
    )
    ∷ (literal "sent an unsolicited management/result" ∷ [], none)
    ∷ (
      literal "sent client/init after the connection was established" ∷ [],
      some "messaging.md:143",
    )
    ∷ (literal "sent client/pair-retry past the pairing round limit" ∷ [], some "pairing.md:185")
    ∷ (literal "sent management/result (deprecated management activity)" ∷ [], none)
    ∷ (
      literal "sent noise/handshake outside a re-handshake" ∷ [],
      some "messaging.md:162, messaging.md:177",
    )
    ∷ (
      literal "sent source audio while reporting available: false" ∷ [],
      some "roles/source/v1.md:104",
    )
    ∷ (literal "sent source audio without an open input stream" ∷ [], some "roles/source/v1.md:104")
    ∷ (
      literal
            "stream/request-format artwork channel: format, width and height are required for source "
          ∷ one_of ("album" ∷ "artist" ∷ [])
          ∷ [],
      some "roles/artwork/v1.md:13-15",
    )
    ∷ (
      literal "stream/request-format artwork dimensions must be positive: "
          ∷ one_of ("width" ∷ "height" ∷ "width, height" ∷ [])
          ∷ [],
      none,
    )
    ∷ (
      literal "stream/request-format artwork requested the removed 'bmp' format" ∷ [],
      some "roles/artwork/v1.md:13",
    )
    ∷ (
      literal "stream/request-format artwork used pre-rename dimension keys: " ∷ dots ∷ [],
      some "messaging.md:28, roles/artwork/v1.md:14-15",
    )
    ∷ (
      literal
            "stream/request-format requested a format not in the client's declared supported_formats"
          ∷ [],
      some "roles/player/v1.md:51",
    )
    ∷ (
      literal "stream/request-format set buffer_capacity, not a visualizer field here" ∷ [],
      some "messaging.md:28, roles/visualizer/v1.md:15",
    )
    ∷ (literal "stream/request-format targeted an unknown artwork channel" ∷ [], none)
    ∷ (
      literal "stream/request-format visualizer fields must be positive: "
          ∷ one_of ("rate_max" ∷ "buffer_capacity" ∷ "rate_max, buffer_capacity" ∷ [])
          ∷ [],
      some "roles/visualizer/v1.md:27",
    )
    ∷ (literal "unencrypted client/hello omitted required version" ∷ [], some "messaging.md:146")
    ∷ (literal "wrapped_nonce_B is not canonical base64url" ∷ [], some "pairing.md:382")
    ∷ (literal "wrapped_psk is not canonical base64url" ∷ [], some "pairing.md:391")
    ∷ []
