-- ===== src/Formats/Declared.antt =====
-- src/conformance/declared_formats.py: _declared_formats, the formats that the client of a case
-- advertised in its client/hello, and the entries that could not be read as one.
pub mod Exact
use conformance.Prelude.{Option, none, some, List, [], ◌∷◌, ◌++◌, if◌then◌else◌, ◌>>=◌, any}
use conformance.Json.{Value, null, arr, items, Fields, get, as_object, Unicode}
use conformance.Formats.Format.{AudioFormat, normalized_format, FormatKey, format_key, same_key}

-- An entry that is no format, or a whole list that is no list.
pub data Unreadable : Type 0 where
  not_a_list : Value → Unreadable
  bad_entry : Value → Unreadable

-- The state of the loop over the entries; `seen` is the set of the keys declared so far.
pub record Declaration : Type 0 where
  pub declared : List AudioFormat
  pub unreadable : List Unreadable
  pub seen : List FormatKey

abbrev pub no_declaration : Declaration
no_declaration = record { declared = []; unreadable = []; seen = [] }

-- data.get("peer_hello")["payload"]["player@v1_support"]["supported_formats"], null where a step of
-- the way is no object
unfoldable pub supported_formats : Fields → Value
supported_formats server =
    elim (do
      peer_hello ← as_object (get "peer_hello" server)
      payload ← as_object (get "payload" peer_hello)
      player_support ← as_object (get "player@v1_support" payload)
      some (get "supported_formats" player_support)) [ none ↦ null | some v ↦ v ]

-- What the loop does with one entry, given its normal form.
unfoldable pub note_entry : Declaration → Value → Option AudioFormat → Declaration
note_entry d entry none = record d { unreadable = d.unreadable ++ bad_entry entry ∷ [] }
note_entry d entry (some f) =
    if any (same_key (format_key f)) d.seen
    then d
    else (record d { seen = d.seen ++ format_key f ∷ []; declared = d.declared ++ f ∷ [] })

module _ ⦃u : Unicode⦄ where
  unfoldable pub declare_entries : Declaration → List Value → Declaration
  declare_entries d [] = d
  declare_entries d (entry ∷ es) = declare_entries (note_entry d entry (normalized_format entry)) es

  unfoldable pub declare_value : Value → Declaration
  declare_value null = no_declaration
  declare_value (arr vs) = declare_entries no_declaration (items vs)
  declare_value v = record no_declaration { unreadable = not_a_list v ∷ [] }

  unfoldable pub declared_formats : Fields → Declaration
  unfolding supported_formats
  declared_formats server = declare_value (supported_formats server)
