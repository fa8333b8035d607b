-- ===== src/Validator/References/First.antt =====
-- src/conformance/validator/noncompliance_refs.py: a part of _REFS, in its order.
use conformance.Prelude.{String, Option, some, List, [], ◌∷◌}
use conformance.Validator.References.Pattern.{Piece, literal, one_of, dots}

abbrev pub first_rows : List (List Piece × Option String)
first_rows =
    (
      dots
          ∷ literal " sent "
          ∷ one_of ("a boolean" ∷ "a number" ∷ "a string" ∷ [])
          ∷ literal " for '"
          ∷ dots
          ∷ literal "' instead of an integer"
          ∷ [],
      some "messaging.md:24",
    )
    ∷ (
      dots
          ∷ literal " sent "
          ∷ one_of ("a boolean" ∷ "a number" ∷ "a string" ∷ [])
          ∷ literal " instead of an integer"
          ∷ [],
      some "messaging.md:24",
    )
    ∷ (
      dots
          ∷ literal " sent "
          ∷ one_of ("a string" ∷ "an integer" ∷ [])
          ∷ literal " for '"
          ∷ dots
          ∷ literal "' instead of a boolean"
          ∷ [],
      some "messaging.md:24",
    )
    ∷ (
      dots
          ∷ literal " sent "
          ∷ one_of ("a string" ∷ "an integer" ∷ [])
          ∷ literal " instead of a boolean"
          ∷ [],
      some "messaging.md:24",
    )
    ∷ (
      dots
          ∷ literal " sent "
          ∷ one_of ("an integer" ∷ "a number" ∷ [])
          ∷ literal " for '"
          ∷ dots
          ∷ literal "' instead of a string"
          ∷ [],
      some "messaging.md:24",
    )
    ∷ (
      dots
          ∷ literal " sent "
          ∷ one_of ("an integer" ∷ "a number" ∷ [])
          ∷ literal " instead of a string"
          ∷ [],
      some "messaging.md:24",
    )
    ∷ (
      dots
          ∷ literal " sent "
          ∷ one_of ("an object" ∷ [])
          ∷ literal " for '"
          ∷ dots
          ∷ literal "' instead of an array"
          ∷ [],
      some "messaging.md:24",
    )
    ∷ (
      dots ∷ literal " sent " ∷ one_of ("an object" ∷ []) ∷ literal " instead of an array" ∷ [],
      some "messaging.md:24",
    )
    ∷ (
      dots
          ∷ literal " sent "
          ∷ one_of ("null" ∷ [])
          ∷ literal " for '"
          ∷ dots
          ∷ literal "' instead of a value"
          ∷ [],
      some "messaging.md:22",
    )
    ∷ (
      dots ∷ literal " sent " ∷ one_of ("null" ∷ []) ∷ literal " instead of a value" ∷ [],
      some "messaging.md:22",
    )
    ∷ (literal "Noise message 2 data is not canonical base64url" ∷ [], some "messaging.md:164")
    ∷ (literal "Noise message 2 payload is not the literal bytes {}" ∷ [], some "messaging.md:171")
    ∷ (
      literal "Pairing PSK client/pair-finalize sent without client/pair-init" ∷ [],
      some "pairing.md:59",
    )
    ∷ (
      literal "client-stream/start announced codec '"
          ∷ one_of ("opus" ∷ "flac" ∷ "pcm" ∷ [])
          ∷ literal "', which server/hello did not list"
          ∷ [],
      some "roles/source/v1.md:20",
    )
    ∷ (
      literal "client/hello artwork declared the removed 'bmp' format" ∷ [],
      some "roles/artwork/v1.md:13",
    )
    ∷ (
      literal "client/hello artwork used pre-rename dimension keys: " ∷ dots ∷ [],
      some "messaging.md:28, roles/artwork/v1.md:14-15",
    )
    ∷ (
      literal
            "client/hello declared artwork@v1_support, superseded by the client/state artwork object"
          ∷ [],
      some "messaging.md:28, roles/artwork/v1.md:10",
    )
    ∷ (
      literal "client/hello declared player supported_commands, superseded by client/state" ∷ [],
      some "messaging.md:28, roles/player/v1.md:50",
    )
    ∷ (
      literal "client/hello declared visualizer stream configuration, superseded by client/state"
          ∷ [],
      some "messaging.md:28, roles/visualizer/v1.md:19",
    )
    ∷ (
      literal "client/hello did not offer the pairing_psk method" ∷ [],
      some "messaging.md:219, pairing.md:309",
    )
    ∷ (
      literal "client/hello listed roles not of the form role@version" ∷ [],
      some "messaging.md:208",
    )
    ∷ (
      literal "client/hello listed roles without their required support object, not activating: "
          ∷ dots
          ∷ [],
      some "messaging.md:216-218, messaging.md:225",
    )
    ∷ (
      literal "client/hello offered qr_code without a display out_channel" ∷ [],
      some "pairing.md:315",
    )
    ∷ (
      literal "client/hello offered the pre-rename PIN pairing methods" ∷ [],
      some "messaging.md:28, pairing.md:311, pairing.md:313, pairing.md:319",
    )
    ∷ (
      literal "client/hello omitted the required supported_pair_methods" ∷ [],
      some "messaging.md:219",
    )
    ∷ (
      literal "client/hello omitted the required unpaired_access.enabled" ∷ [],
      some "messaging.md:220-221",
    )
    ∷ (
      literal "client/hello player@v1_support listed neither flac nor pcm" ∷ [],
      some "roles/player/v1.md:20",
    )
    ∷ (
      literal "client/hello sent a mac_address not in lowercase colon-separated form" ∷ [],
      some "messaging.md:207",
    )
    ∷ (
      literal "client/hello sent a malformed pair-method descriptor" ∷ [],
      some "pairing.md:309-315",
    )
    ∷ (
      literal "client/hello sent support objects for unlisted roles: " ∷ dots ∷ [],
      some "messaging.md:216-218",
    )
    ∷ (literal "client/hello sent supported_pair_methods as a list" ∷ [], some "messaging.md:219")
    ∷ (literal "client/hello sent the removed trust_level key" ∷ [], some "messaging.md:28")
    ∷ (literal "client/hello used unversioned support keys: " ∷ dots ∷ [], some "messaging.md:223")
    ∷ (literal "client/init client_id is not canonical base64url" ∷ [], some "messaging.md:145")
    ∷ (literal "client/pair-retry omitted the required payload object" ∷ [], some "pairing.md:375")
    ∷ (literal "client/pair-retry sent a payload that is not an object" ∷ [], some "pairing.md:375")
    ∷ (
      literal "client/state after server/activate has an active artwork role but no artwork state"
          ∷ [],
      some "messaging.md:297",
    )
    ∷ (
      literal "client/state after server/activate has an active player role but no player state"
          ∷ [],
      some "messaging.md:297",
    )
    ∷ (
      literal "client/state after server/activate has an active source role but no source state"
          ∷ [],
      some "messaging.md:297",
    )
    ∷ (
      literal
            "client/state after server/activate has an active visualizer role but no visualizer state"
          ∷ [],
      some "messaging.md:297",
    )
    ∷ (
      literal "client/state artwork declared the removed 'bmp' format" ∷ [],
      some "roles/artwork/v1.md:13",
    )
    ∷ (
      literal "client/state artwork used pre-rename dimension keys: " ∷ dots ∷ [],
      some "messaging.md:28, roles/artwork/v1.md:14-15",
    )
    ∷ (
      literal "client/state declared the pre-rename 'set_static_delay' command" ∷ [],
      some "roles/player/v1.md:50",
    )
    ∷ []
