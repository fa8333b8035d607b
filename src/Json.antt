-- ===== src/Json.antt =====
-- The values that `json.loads` returns, which is what the adapters' summaries are made of, and the
-- tests and reads of them that the harness makes (dict.get, `in`, isinstance).
pub mod Python
use conformance.Prelude.{
  ℕ, String, Bool, false, Option, none, some, List, [], ◌∷◌, ℤ, str_eq, if◌then◌else◌,
}

-- A float is kept as its text: no module here computes with one. An object keeps the order of its
-- keys; where a key stands twice the first one counts (a dict of Python has each key once).
mutual
  pub data Value : Type 0 where
    null : Value
    bool : Bool → Value
    int : ℤ → Value
    real : String → Value
    str : String → Value
    arr : Items → Value
    obj : Fields → Value

  pub data Items : Type 0 where
    no_item : Items
    item : Value → Items → Items

  pub data Fields : Type 0 where
    no_field : Fields
    field : String → Value → Fields → Fields

abbrev pub items : Items → List Value
items no_item = []
items (item v vs) = v ∷ items vs

-- The value at a key, or none where the key is missing.
abbrev pub find : String → Fields → Option Value
find k no_field = none
find k (field j v fs) = if str_eq j k then some v else find k fs

abbrev or_null : Option Value → Value
or_null none = null
or_null (some v) = v

-- d.get(k): a missing key and a JSON null are both Python's None.
abbrev pub get : String → Fields → Value
get k fs = or_null (find k fs)

-- v == "text" for any JSON value v
abbrev pub is_text : String → Value → Bool
is_text s (str t) = str_eq t s
is_text s _ = false

-- v is True
abbrev pub is_true : Value → Bool
is_true (bool b) = b
is_true _ = false

-- isinstance(v, dict), isinstance(v, str), and int without bool
abbrev pub as_object : Value → Option Fields
as_object (obj fs) = some fs
as_object _ = none

abbrev pub as_list : Value → Option (List Value)
as_list (arr vs) = some (items vs)
as_list _ = none

abbrev pub as_text : Value → Option String
as_text (str s) = some s
as_text _ = none

abbrev pub as_integer : Value → Option ℤ
as_integer (int n) = some n
as_integer _ = none

-- What the harness asks of Unicode, whose tables the Python runtime holds: str.casefold, and the white
-- space \s and the letters \w of an expression, by code point.
pub record Unicode : Type 0 where
  pub casefold : String → String
  pub is_space : ℕ → Bool
  pub is_word : ℕ → Bool
