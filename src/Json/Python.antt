-- ===== src/Json/Python.antt =====
-- What the comparisons in src/conformance/runner.py and scripts/detect_regressions.py use of Python
-- itself on the values of a summary: ==, bool(), int() and str().
use conformance.Prelude.{
  ℕ, suc, String, Bool, true, false, not, ◌&&◌, ◌||◌, Option, none, some, str_eq, ◌==◌,
  if◌then◌else◌, ℤ, pos, negsuc, eqb_ℤ,
}
use conformance.Json.{
  Value, null, bool, int, real, str, arr, obj, Items, no_item, item, Fields, no_field, field, find,
}

-- The runtime's floats, its texts of values, and the hash of a codec header, which are not code of
-- the repository.
pub record Python : Type 0 where
  -- a == b of two floats, and of a float and an integer
  pub same_real : String → String → Bool
  pub real_is : String → ℤ → Bool
  -- int(x) of a float and of a text, none where it raises
  pub truncated : String → Option ℤ
  pub parsed : String → Option ℤ
  -- str(x) of a value that is no text
  pub shown : Value → String
  -- hashlib.sha256(base64.b64decode(x)).hexdigest(), none where it raises
  pub header_sha256 : String → Option String

-- isinstance(value, int), where a bool is an integer too
abbrev pub as_number : Value → Option ℤ
as_number (int n) = some n
as_number (bool true) = some (pos 1)
as_number (bool false) = some (pos 0)
as_number _ = none

abbrev pub same_number : Option ℤ → Option ℤ → Bool
same_number (some m) (some n) = eqb_ℤ m n
same_number _ _ = false

-- bool(value)
abbrev pub is_truthy : Value → Bool
is_truthy null = false
is_truthy (bool b) = b
is_truthy (int (pos n)) = not (n == 0)
is_truthy (int (negsuc n)) = true
is_truthy (real r) = not (str_eq r "0.0" || str_eq r "-0.0")
is_truthy (str s) = not (str_eq s "")
is_truthy (arr no_item) = false
is_truthy (arr (item v vs)) = true
is_truthy (obj no_field) = false
is_truthy (obj (field k v rest)) = true

abbrev pub size : Fields → ℕ
size no_field = 0
size (field k v rest) = suc (size rest)

module _ ⦃py : Python⦄ where
  abbrev pub real_is_number : String → Option ℤ → Bool
  real_is_number r (some n) = py.real_is r n
  real_is_number r none = false

  -- a == b. Two objects are equal where they have as many keys and the same value at each.
  abbrev mutual
    pub same_value : Value → Value → Bool
    same_value null null = true
    same_value (str s) (str t) = str_eq s t
    same_value (arr vs) (arr ws) = same_items vs ws
    same_value (obj fs) (obj gs) = (size fs == size gs) && same_fields fs gs
    same_value (real r) (real s) = py.same_real r s
    same_value (real r) w = real_is_number r (as_number w)
    same_value v (real s) = real_is_number s (as_number v)
    same_value v w = same_number (as_number v) (as_number w)

    pub same_items : Items → Items → Bool
    same_items no_item no_item = true
    same_items (item v vs) (item w ws) = same_value v w && same_items vs ws
    same_items _ _ = false

    pub same_fields : Fields → Fields → Bool
    same_fields no_field gs = true
    same_fields (field k v rest) gs =
        elim (find k gs) [ none ↦ false | some w ↦ same_value v w ] && same_fields rest gs

  -- int(value or 0), none where it raises
  abbrev pub to_integer : Value → Option ℤ
  to_integer (int n) = some n
  to_integer (bool b) = as_number (bool b)
  to_integer (real r) = py.truncated r
  to_integer (str s) = py.parsed s
  to_integer _ = none

  abbrev pub integer_or_zero : Value → Option ℤ
  integer_or_zero v = if is_truthy v then to_integer v else some (pos 0)
