-- ===== src/Validator/Recorder/Redaction.antt =====
-- src/conformance/validator/recorder.py: the redaction of texts and messages.
use conformance.Prelude.{
  ℕ, zero, suc, ◌-◌, ◌/◌, ◌%◌, String, Bool, not, ◌||◌, List, [], ◌∷◌, str_eq, ltb, ◌==◌,
  if◌then◌else◌, length, any,
}
use Prim.Native.Char.{Char}
use text.Mathlib.Text.{starts_with}
use Prim.Native.String.{◌++◌ as str_append}
use conformance.Json.{
  Value, null, bool, int, real, str, arr, obj, Items, no_item, item, Fields, no_field, field,
}
use conformance.Framing.Frames.{codes}
use conformance.Validator.Texts.{ends_with, prepend}

abbrev pub redacted : String
redacted = "<redacted>"

abbrev pub text_length : String → ℕ
text_length s = length (codes s)

-- text.replace(secret, REDACTED): from the left, an occurrence at a time. `skip` counts what is left
-- of the last one.
unfoldable pub replace_from : String → ℕ → String → String
replace_from secret skip String.[] = ""
replace_from secret skip (String.◌∷◌ c rest) =
    let inside = replace_from secret (skip - 1) rest in
    let after = replace_from secret (text_length secret - 1) rest in
    let next = replace_from secret 0 rest in
    if not (skip == 0)
    then inside
    else if starts_with (prepend c rest) secret
    then str_append redacted after
    else prepend c next

-- sorted(secrets, key=len, reverse=True); secrets of one length stay in the order of the list, where
-- the set of the source has an order of its own.
unfoldable pub insert_longer : String → List String → List String
insert_longer s [] = s ∷ []
insert_longer s (t ∷ ts) =
    let rest = insert_longer s ts in
    if ltb (text_length s) (text_length t) then t ∷ rest else s ∷ t ∷ ts

unfoldable pub longest_first : List String → List String
unfolding insert_longer
longest_first [] = []
longest_first (s ∷ ss) = insert_longer s (longest_first ss)

unfoldable pub replace_all : List String → String → String
unfolding replace_from
replace_all [] text = text
replace_all (secret ∷ rest) text = replace_all rest (replace_from secret 0 text)

unfoldable pub redact_text : List String → String → String
unfolding longest_first replace_all
redact_text secrets text = replace_all (longest_first secrets) text

-- _SECRET_FIELDS and _is_secret_field
unfoldable pub is_secret_field : String → Bool
is_secret_field k =
    any (str_eq k) ("long_term_psk" ∷ "wrapped_psk" ∷ "wrapped_nonce_B" ∷ [])
    || starts_with k "pake_msg_"
    || ends_with k "_kc"

-- The decimal digits of a number, in front of those that follow. Each round divides by ten, so that
-- as many rounds as the number counts are enough.
abbrev pub pick : ℕ → Char → String → Char
pick n other String.[] = other
pick zero other (String.◌∷◌ c rest) = c
pick (suc n) other (String.◌∷◌ c rest) = pick n other rest

abbrev pub digit : ℕ → Char
digit n = pick n "0" "0123456789"

unfoldable pub decimal_from : ℕ → ℕ → String → String
decimal_from zero n tail = tail
decimal_from (suc fuel) n tail =
    let more = decimal_from fuel (n / 10) (prepend (digit (n % 10)) tail) in
    if ltb n 10 then prepend (digit n) tail else more

unfoldable pub decimal : ℕ → String
unfolding decimal_from
decimal n = decimal_from (suc n) n ""

unfoldable pub redact_field : Value → String
unfolding decimal
redact_field (str s) = str_append "<redacted:" (str_append (decimal (text_length s)) ">")
redact_field _ = redacted

module _ (secrets : List String) where
  unfoldable mutual
    unfolding redact_text is_secret_field redact_field

    pub redact : Value → Value
    redact (obj fields) = obj (redact_fields fields)
    redact (arr vs) = arr (redact_items vs)
    redact (str s) = str (redact_text secrets s)
    redact null = null
    redact (bool b) = bool b
    redact (int n) = int n
    redact (real x) = real x

    pub redact_items : Items → Items
    redact_items no_item = no_item
    redact_items (item v vs) = item (redact v) (redact_items vs)

    pub redact_fields : Fields → Fields
    redact_fields no_field = no_field
    redact_fields (field k v rest) =
        let kept = redact v in
        field k (if is_secret_field k then str (redact_field v) else kept) (redact_fields rest)
