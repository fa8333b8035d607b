-- ===== src/Formats/Verdicts/Selection.antt =====
-- When format_priority_violation of src/conformance/declared_formats.py reports a case.
use conformance.Prelude.{String, ◌≡◌, ◌⊎◌, Option, none, some, List, ◌∷◌, Any}
use conformance.Formats.Format.{AudioFormat}

-- The list leads with the codec and has an entry that every player must list.
pub record IsStimulus (preferred : String) (declared : List AudioFormat) : Type 0 where
  pub first : AudioFormat
  pub others : List AudioFormat
  pub listed : declared ≡ first ∷ others
  pub leads : first.codec ≡ preferred
  pub mandatory : Any (λ f. (f.codec ≡ "flac") ⊎ (f.codec ≡ "pcm")) declared

-- The stream of the server has the codec, or one that the client did not list.
abbrev pub Honours : String → List AudioFormat → Option AudioFormat → Type 0
Honours preferred declared none = Unit
Honours preferred declared (some stream) =
    (stream.codec ≡ preferred) ⊎ (¬ Any (λ f. f.codec ≡ stream.codec) declared)
