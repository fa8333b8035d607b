-- ===== src/Tests/Samples.antt =====
-- Values that the examples share.
use conformance.Prelude.{◌==◌, not, ℕ, String, Bool, false, none, some, str_eq, List, [], ◌∷◌, pos}
use conformance.Json.{
  Value, bool, int, str, arr, obj, Items, no_item, item, Fields, no_field, field, Unicode,
}
use conformance.Json.Python.{Python}

-- Lower case by the identity, and one white space: the texts of the examples have no capital letter.
abbrev pub lower : Unicode
lower = record { casefold = λ s. s; is_space = λ c. c == b' '; is_word = λ c. not (c == b' ') }

-- A runtime in which two floats are equal where their texts are, and no text is a number.
abbrev pub plain : Python
plain = record {
  same_real = λ r s. str_eq r s;
  real_is = λ r n. false;
  truncated = λ r. none;
  parsed = λ s. none;
  shown = λ v. "";
  header_sha256 = λ s. some s;
}

abbrev pub object : List (String × Value) → Fields
object [] = no_field
object ((k, v) ∷ rest) = field k v (object rest)

abbrev pub sequence : List Value → Items
sequence [] = no_item
sequence (v ∷ vs) = item v (sequence vs)

abbrev pub number : ℕ → Value
number n = int (pos n)

-- Formats, a hello that lists them, and the summaries of a case that streams the first one.
abbrev pub format_value : String → ℕ → Value
format_value codec depth = obj (
    object (
      ("codec", str codec)
      ∷ ("sample_rate", number 48000)
      ∷ ("bit_depth", number depth)
      ∷ ("channels", number 2)
      ∷ []))

abbrev pub hello : Items → Value
hello formats = obj (
    object (
      (
        "payload",
        obj (
            object
              (("player@v1_support", obj (object (("supported_formats", arr formats) ∷ []))) ∷ [])),
      )
      ∷ []))

abbrev pub listed : Items
listed = sequence (format_value "opus" 16 ∷ format_value "pcm" 24 ∷ str "none" ∷ [])

abbrev pub readable : Items
readable = sequence (format_value "opus" 16 ∷ format_value "pcm" 24 ∷ [])

abbrev pub server_of : Items → Value → Fields
server_of formats stream = object (("peer_hello", hello formats) ∷ ("stream", stream) ∷ [])

abbrev pub client_of : Value → Fields
client_of stream = object (("stream", stream) ∷ [])

-- The trace of a stream/start that was handed over while the client was available.
abbrev pub state_value : Bool → Value
state_value b = obj (object (("type", str "client/state") ∷ ("available", bool b) ∷ []))

abbrev pub start_value : String → Value
start_value phase =
    obj
      (object (("type", str "stream/start") ∷ ("phase", str phase) ∷ ("roles", str "player") ∷ []))

abbrev pub traced : List Value → Fields
traced vs = object (("availability_trace", arr (sequence vs)) ∷ [])

abbrev pub exchanged : List Value → Fields
exchanged vs = object (("time_exchange", arr (sequence vs)) ∷ [])
