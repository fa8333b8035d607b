-- ===== src/Tests/PcmTests.antt =====
-- The theorems on PCM samples (src/conformance/pcm.py) at concrete bytes.
use conformance.Prelude.{ℕ, ◌≡◌, refl, some, List, [], ◌∷◌, arith, pos, negsuc}
use conformance.Pcm.{pcm_floats}
use conformance.Pcm.Widening.{widened_16, pcm_floats-widened_16}

-- Two samples of 16 bits, 1 and -2, and the first one in 24 bits.
abbrev two_samples : List ℕ
two_samples = 1 ∷ 0 ∷ 254 ∷ 255 ∷ []

abbrev one_sample : List ℕ
one_sample = 0 ∷ 1 ∷ 0 ∷ []

pcm_floats-widened_16_example : pcm_floats (widened_16 two_samples) 24 ≡ pcm_floats two_samples 16
pcm_floats-widened_16_example =
    pcm_floats-widened_16 two_samples (omega arith, (omega arith, (omega arith, (omega arith, tt))))

two_floats : pcm_floats two_samples 16 ≡ some (pos 65536 ∷ negsuc 131071 ∷ [])
unfolding pcm_floats
two_floats = refl
