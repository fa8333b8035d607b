-- ===== src/Formats/Format.antt =====
-- One audio format as an adapter's summary describes it, and its two identities
-- (src/conformance/declared_formats.py: normalized_format, format_key, _comparable_key).
use conformance.Prelude.{
  ℤ, eqb_ℤ, eqb_ℤ→eq, eqb_ℤ_refl, String, Bool, true, false, ◌&&◌, Option, none, some, ◌≡◌, arith,
  str_eq, eq_iff, if◌then◌else◌, ◌>>=◌, ◌⊎◌,
}
use conformance.Json.{Value, obj, get, as_text, as_integer, Unicode}

pub record AudioFormat : Type 0 where
  pub codec : String
  pub sample_rate : ℤ
  pub bit_depth : ℤ
  pub channels : ℤ

module _ ⦃u : Unicode⦄ where
  -- A format needs a codec that is a text and not empty, and three integers (a bool is none).
  unfoldable pub normalized_format : Value → Option AudioFormat
  normalized_format (obj fs) = do
    codec ← as_text (get "codec" fs)
    if str_eq codec "" then none else do
      sample_rate ← as_integer (get "sample_rate" fs)
      bit_depth ← as_integer (get "bit_depth" fs)
      channels ← as_integer (get "channels" fs)
      some (record {
        codec = u.casefold codec;
        sample_rate = sample_rate;
        bit_depth = bit_depth;
        channels = channels;
      })
  normalized_format _ = none

-- The tuples that identify a format: all four fields, or three where the depth is dropped.
pub data FormatKey : Type 0 where
  full : String → ℤ → ℤ → ℤ → FormatKey
  no_depth : String → ℤ → ℤ → FormatKey

unfoldable pub format_key : AudioFormat → FormatKey
format_key f = full f.codec f.sample_rate f.bit_depth f.channels

unfoldable pub comparable_key : AudioFormat → FormatKey
unfolding format_key
comparable_key f =
    if str_eq f.codec "opus" then no_depth f.codec f.sample_rate f.channels else format_key f

-- == on the tuples
unfoldable pub same_key : FormatKey → FormatKey → Bool
same_key (full c r d n) (full c' r' d' n') = str_eq c c' && eqb_ℤ r r' && eqb_ℤ d d' && eqb_ℤ n n'
same_key (no_depth c r n) (no_depth c' r' n') = str_eq c c' && eqb_ℤ r r' && eqb_ℤ n n'
same_key _ _ = false

pub same_key→eq : (k j : FormatKey) → same_key k j ≡ true → k ≡ j
unfolding same_key
same_key→eq (full c r d n) (full c' r' d' n') h =
    ground (arith, eq_iff c c', eqb_ℤ→eq r r', eqb_ℤ→eq d d', eqb_ℤ→eq n n')
same_key→eq (no_depth c r n) (no_depth c' r' n') h =
    ground (arith, eq_iff c c', eqb_ℤ→eq r r', eqb_ℤ→eq n n')
same_key→eq (full c r d n) (no_depth c' r' n') h = cc
same_key→eq (no_depth c r n) (full c' r' d' n') h = cc

pub same_key_refl : (k : FormatKey) → same_key k k ≡ true
unfolding same_key
same_key_refl (full c r d n) = ground (arith, eq_iff c c, eqb_ℤ_refl r, eqb_ℤ_refl d, eqb_ℤ_refl n)
same_key_refl (no_depth c r n) = ground (arith, eq_iff c c, eqb_ℤ_refl r, eqb_ℤ_refl n)

-- Two formats that the specification does not tell apart: for opus the bit depth is ignored.
pub record SameFormat (f g : AudioFormat) : Type 0 where
  pub same_codec : f.codec ≡ g.codec
  pub same_rate : f.sample_rate ≡ g.sample_rate
  pub same_channels : f.channels ≡ g.channels
  pub same_depth : (f.codec ≡ "opus") ⊎ (f.bit_depth ≡ g.bit_depth)

pub comparable→SameFormat :
    (f g : AudioFormat) → same_key (comparable_key f) (comparable_key g) ≡ true → SameFormat f g
unfolding same_key comparable_key
comparable→SameFormat f g h = ground (
  arith,
  eq_iff f.codec "opus",
  eq_iff g.codec "opus",
  eq_iff f.codec g.codec,
  eqb_ℤ→eq f.sample_rate g.sample_rate,
  eqb_ℤ→eq f.bit_depth g.bit_depth,
  eqb_ℤ→eq f.channels g.channels,
)

pub SameFormat→comparable :
    (f g : AudioFormat) → SameFormat f g → same_key (comparable_key f) (comparable_key g) ≡ true
unfolding same_key comparable_key
SameFormat→comparable f g h = ground (
  arith,
  eq_iff f.codec "opus",
  eq_iff g.codec "opus",
  eq_iff f.codec g.codec,
  eqb_ℤ_refl f.sample_rate,
  eqb_ℤ_refl f.bit_depth,
  eqb_ℤ_refl f.channels,
)

pub format_key_injective : (f g : AudioFormat) → format_key f ≡ format_key g → f ≡ g
unfolding format_key
format_key_injective f g h = ground arith
