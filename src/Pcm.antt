-- ===== src/Pcm.antt =====
-- src/conformance/pcm.py: pcm_int_bytes_to_float_bytes, without the packing of the floats.
pub mod Widening
use conformance.Prelude.{
  ℕ, ◌+◌, ◌-◌, ◌*◌, Option, none, some, List, [], ◌∷◌, ltb, ◌==◌, if◌then◌else◌, ◌>>=◌, ℤ, pos,
  negsuc, ◌*ℤ◌,
}

-- The two's complement of a number below 2 * half.
abbrev pub signed : ℕ → ℕ → ℤ
signed half n = if ltb n half then pos n else negsuc (2 * half - 1 - n)

-- A sample of two, three or four bytes, the lowest byte first. For bytes, `|` of shifted bytes is
-- their sum.
abbrev pub sample_16 : ℕ → ℕ → ℤ
sample_16 a b = signed 32768 (a + 256 * b)

abbrev pub sample_24 : ℕ → ℕ → ℕ → ℤ
sample_24 a b c = signed 8388608 (a + 256 * b + 65536 * c)

abbrev pub sample_32 : ℕ → ℕ → ℕ → ℕ → ℤ
sample_32 a b c d = signed 2147483648 (a + 256 * b + 65536 * c + 16777216 * d)

-- The samples as multiples of 2^-31, which is what the divisions by 32768.0, 8388608.0 and
-- 2147483648.0 give before the floats are packed; none where the bytes are no whole number of
-- samples, which raises.
unfoldable pub unpack_16 : List ℕ → Option (List ℤ)
unpack_16 [] = some []
unpack_16 (a ∷ b ∷ rest) = unpack_16 rest >>= λ samples. some (sample_16 a b *ℤ pos 65536 ∷ samples)
unpack_16 _ = none

unfoldable pub unpack_24 : List ℕ → Option (List ℤ)
unpack_24 [] = some []
unpack_24 (a ∷ b ∷ c ∷ rest) =
    unpack_24 rest >>= λ samples. some (sample_24 a b c *ℤ pos 256 ∷ samples)
unpack_24 _ = none

unfoldable pub unpack_32 : List ℕ → Option (List ℤ)
unpack_32 [] = some []
unpack_32 (a ∷ b ∷ c ∷ d ∷ rest) = unpack_32 rest >>= λ samples. some (sample_32 a b c d ∷ samples)
unpack_32 _ = none

-- pcm_int_bytes_to_float_bytes: none where it raises.
unfoldable pub pcm_floats : List ℕ → ℕ → Option (List ℤ)
unfolding unpack_16 unpack_24 unpack_32
pcm_floats pcm_bytes bit_depth =
    if bit_depth == 16
    then unpack_16 pcm_bytes
    else if bit_depth == 24
    then unpack_24 pcm_bytes
    else if bit_depth == 32
    then unpack_32 pcm_bytes
    else none
