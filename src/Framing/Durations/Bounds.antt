-- ===== src/Framing/Durations/Bounds.antt =====
-- The bounds on the duration of a chunk that src/conformance/chunk_framing.py accepts.
use conformance.Prelude.{
  leb, any, ℤ, pos_part, negsuc, Bool, ◌-◌, ◌^◌, All-imp, ℕ, suc, ◌≢◌, pos, ◌*ℤ◌, ◌+◌, ◌*◌, ◌≤◌,
  ◌<◌, ◌≡◌, refl, ap, ◌∙◌, ◌↔◌, ◌⊎◌, inl, inr, true, false, Option, none, some, List, [], ◌∷◌,
  arith, str_eq, eq_iff, ◌==◌, Bool-cases, Option-cases, length, All, clash,
}
use mathlib.Core.Option.{some-injective}
use conformance.Json.{Value, str, Fields, get, Unicode}
use conformance.Formats.Format.{AudioFormat, normalized_format}
use conformance.Framing.Frames.{Frame}
use conformance.Framing.Durations.{
  overflows, whole_bytes, payload_of, bytes_per_second, DurationFinding, DurationVerdict, held,
  judge_chunk, judge_chunks, finding, judge_rate, judge_stream, judge_cut, chunk_durations_verdict,
}

-- At this byte rate the chunk lasts at most 150 ms, at least 15 ms.
abbrev pub IsShortEnough : ℕ → Frame → Type 0
IsShortEnough rate f = payload_of f * 1000000 ≤ 150000 * rate

abbrev pub IsLongEnough : ℕ → Frame → Type 0
IsLongEnough rate f = 15000 * rate ≤ payload_of f * 1000000

-- Every chunk but the last one.
abbrev pub AllButLast : (Frame → Type 0) → List Frame → Type 0
AllButLast P [] = Unit
AllButLast P (f ∷ []) = Unit
AllButLast P (f ∷ g ∷ fs) = P f × AllButLast P (g ∷ fs)

chunk_iff :
    (rate total index : ℕ) (f : Frame)
    → rate < 68719476736
    → (judge_chunk rate total index f ≡ none)
      ↔ (IsShortEnough rate f × ((index ≡ total) ⊎ IsLongEnough rate f))
unfolding judge_chunk
chunk_iff rate total index f small = (λ h. ground arith, λ h. ground arith)

chunks_iff :
    (rate total index : ℕ) (fs : List Frame)
    → rate < 68719476736
    → index + length fs ≡ suc total
    → (judge_chunks rate total index fs ≡ none)
      ↔ (All (IsShortEnough rate) fs × AllButLast (IsLongEnough rate) fs)
unfolding judge_chunks
chunks_iff rate total index [] small e = (λ h. (tt, tt), λ h. refl)
chunks_iff rate total index (f ∷ fs) small e =
    let one = chunk_iff rate total index f small in
    let rest = chunks_iff rate total (index + 1) fs small (omega arith) in
    elim (Option-cases (judge_chunk rate total index f)) [
      | inr (v, bad) ↦
          rw (bad, judge_chunks) (λ h. cc, λ h. cc (bad, one.1 (h.0.0, may_be_short fs e h.1)))
      | inl fine ↦
          rw (fine, judge_chunks)
            (
              λ h. (((one.0 fine).0, (rest.0 h).0), but_last fs e (one.0 fine).1 (rest.0 h).1),
              λ h. rest.1 (h.0.1, tail_but_last fs h.1),
            )
    ]
  where
    may_be_short :
        (fs : List Frame)
        → index + length (f ∷ fs) ≡ suc total
        → AllButLast (IsLongEnough rate) (f ∷ fs)
        → (index ≡ total) ⊎ IsLongEnough rate f
    may_be_short [] e h = inl (omega arith)
    may_be_short (g ∷ fs) e h = inr h.0

    but_last :
        (fs : List Frame)
        → index + length (f ∷ fs) ≡ suc total
        → (index ≡ total) ⊎ IsLongEnough rate f
        → AllButLast (IsLongEnough rate) fs
        → AllButLast (IsLongEnough rate) (f ∷ fs)
    but_last [] e h k = tt
    but_last (g ∷ fs) e (inl last) k = absurd (omega arith)
    but_last (g ∷ fs) e (inr long) k = (long, k)

    tail_but_last :
        (fs : List Frame)
        → AllButLast (IsLongEnough rate) (f ∷ fs)
        → AllButLast (IsLongEnough rate) fs
    tail_but_last [] h = tt
    tail_but_last (g ∷ fs) h = h.1

-- The bytes of a second of audio: whole bytes for a sample, for each channel and each sample of it.
abbrev pub HasRate : AudioFormat → ℕ → Type 0
HasRate f rate =
    (0 < rate)
    × (width : ℕ) × (0 < width)
    × (f.bit_depth ≡ pos (8 * width))
    × (f.sample_rate *ℤ f.channels *ℤ pos width ≡ pos rate)

-- What the judgement of the implementation's own chunks rests on.
pub record IsJudged (stream : Option AudioFormat) (sent : List Frame) : Type 0 where
  pub format : AudioFormat
  pub readable : stream ≡ some format
  pub pcm : format.codec ≡ "pcm"
  pub rate : ℕ
  pub rated : HasRate format rate
  pub some_sent : sent ≢ []
  pub short_enough : All (IsShortEnough rate) sent
  pub long_enough : AllButLast (IsLongEnough rate) sent

at_most : (k rate n : ℕ) → 150001 ≤ k → 0 < rate → n ≤ 150000 * rate → leb (k * rate) n ≡ false
at_most k rate n big positive short = more (k - 150001) (omega arith)
  where
    more : (m : ℕ) → k ≡ 150001 + m → leb (k * rate) n ≡ false
    more m e = rw e (ground arith)

short-not_overflows :
    (rate : ℕ) (f : Frame) → 0 < rate → IsShortEnough rate f → overflows rate f ≡ false
unfolding overflows
short-not_overflows rate f positive short =
    at_most (2 ^ 1024 - 2 ^ 970) rate (payload_of f * 1000000) (omega arith) positive short

none-any : (p : Frame → Bool) (fs : List Frame) → All (λ f. p f ≡ false) fs → any p fs ≡ false
none-any p [] h = refl
none-any p (f ∷ fs) h = let rest = none-any p fs h.1 in rw (h.0, rest) refl

none-overflows :
    (rate : ℕ) (fs : List Frame)
    → 0 < rate
    → All (IsShortEnough rate) fs
    → any (overflows rate) fs ≡ false
none-overflows rate fs positive short =
    none-any (overflows rate) fs (All-imp fs (λ f k. short-not_overflows rate f positive k) short)

abbrev Holds : ℕ → List Frame → Type 0
Holds rate sent = (sent ≢ []) × All (IsShortEnough rate) sent × AllButLast (IsLongEnough rate) sent

IsHeld : DurationVerdict → Type 0
IsHeld v = (f : DurationFinding) × (v ≡ held f)

finding-IsHeld : (rate : ℕ) (sent : List Frame) → IsHeld (finding rate sent) ↔ (sent ≢ [])
unfolding finding IsHeld
finding-IsHeld rate [] = (λ h. cc (h.1), λ h. absurd (h refl))
finding-IsHeld rate (f ∷ fs) = (λ h e. cc, λ h. (_, refl))

judge_rate-IsHeld :
    (rate : ℕ) (sent : List Frame)
    → 0 < rate
    → rate < 68719476736
    → IsHeld (judge_rate rate sent) ↔ Holds rate sent
unfolding judge_rate IsHeld
judge_rate-IsHeld rate sent positive small =
    let chunks = chunks_iff rate (length sent) 1 sent small (omega arith) in
    let found = finding-IsHeld rate sent in
    elim (Bool-cases (any (overflows rate) sent)) [
      | inl y ↦
          rw (y, judge_rate)
            (λ h. cc (h.1), λ h. absurd (clash y (none-overflows rate sent positive h.1)))
      | inr n ↦ elim (Option-cases (judge_chunks rate (length sent) 1 sent)) [
        | inl fine ↦
            rw (n, fine, judge_rate)
              (
                λ h. let both = chunks.0 fine in (found.0 (unfold IsHeld in h), both.0, both.1),
                λ h. unfold IsHeld in found.1 h.0,
              )
        | inr (v, bad) ↦ rw (n, bad, judge_rate) (λ h. cc (h.1), λ h. cc (bad, chunks.1 (h.1, h.2)))
      ]
    ]

whole_bytes_iff :
    (d : ℤ) (width : ℕ) → (whole_bytes d ≡ some width) ↔ ((0 < width) × (d ≡ pos (8 * width)))
whole_bytes_iff (pos n) width = (
  λ h. let both : (0 < width) × (n ≡ 8 * width) = ground arith in (both.0, ap pos both.1),
  λ h. let e : n ≡ 8 * width = cc (h.1) in let positive = h.0 in ground arith,
)
whole_bytes_iff (negsuc n) width = (λ h. cc, λ h. cc (h.1))

part-pos : (z : ℤ) (n : ℕ) → 0 < n → pos_part z ≡ n → z ≡ pos n
part-pos (pos m) n positive h = ap pos h
part-pos (negsuc m) n positive h = absurd (omega (arith, h))

pub bytes_per_second-HasRate :
    (f : AudioFormat) (rate : ℕ) → ((bytes_per_second f ≡ rate) × (0 < rate)) ↔ HasRate f rate
unfolding bytes_per_second
bytes_per_second-HasRate f rate = elim (Option-cases (whole_bytes f.bit_depth)) [
  | inl nothing ↦
      rw (nothing, bytes_per_second)
        (
          λ h. absurd (omega (arith, h.0, h.1)),
          λ h.
              let (positive, width, some', deep, product) = h in
              let there = (whole_bytes_iff f.bit_depth width).1 (some', deep) in
              cc (there, nothing),
        )
  | inr (width, found) ↦
      let deep = (whole_bytes_iff f.bit_depth width).0 found in
      rw (found, bytes_per_second)
        (
          λ h. (h.1, width, deep.0, deep.1, part-pos _ rate h.1 h.0),
          λ (positive, other, some', depth, product).
              let there = (whole_bytes_iff f.bit_depth other).1 (some', depth) in
              let same : width ≡ other = cc (there, found) in (rw (same, product) refl, positive),
        )
]

-- Below this byte rate, no rounding moves a duration across one of the two bounds.
abbrev pub IsExactRate : Option AudioFormat → Type 0
IsExactRate stream =
    (format : AudioFormat) (rate : ℕ) → stream ≡ some format → HasRate format rate → rate < 2 ^ 36

judge_stream-IsHeld :
    (raw : Value) (stream : Option AudioFormat) (sent : List Frame)
    → IsExactRate stream
    → IsHeld (judge_stream raw stream sent) ↔ IsJudged stream sent
unfolding judge_stream IsHeld
judge_stream-IsHeld raw none sent small = (λ h. cc (h.1), λ h. cc (h.readable))
judge_stream-IsHeld raw (some f) sent small =
    let rate = bytes_per_second f in
    let rates = bytes_per_second-HasRate f rate in
    elim (Bool-cases (bytes_per_second f == 0)) [
      | inl zero' ↦ rw zero' (λ h. cc (h.1), λ h. absurd (still h zero'))
      | inr some_rate ↦ elim (Bool-cases (str_eq f.codec "pcm")) [
        | inr other ↦ rw (some_rate, other) (λ h. cc (h.1), λ h. absurd (not_pcm' h other))
        | inl pcm ↦
            let positive : 0 < rate = ground (arith, some_rate) in
            let rated = rates.0 (refl, positive) in
            let judged = judge_rate-IsHeld rate sent positive (small f rate refl rated) in
            rw (some_rate, pcm)
              (
                λ h.
                    let k = judged.0 (unfold IsHeld in h) in
                    record {
                      format = f;
                      readable = refl;
                      pcm = (eq_iff f.codec "pcm").0 pcm;
                      rate = rate;
                      rated = rated;
                      some_sent = k.0;
                      short_enough = k.1;
                      long_enough = k.2;
                    },
                λ h.
                    unfold IsHeld in
                    judged.1 (rw (at_rate h) (h.some_sent, h.short_enough, h.long_enough)),
              )
      ]
    ]
  where
    same : (h : IsJudged (some f) sent) → f ≡ h.format
    same h = some-injective f h.format h.readable

    at_rate : (h : IsJudged (some f) sent) → bytes_per_second f ≡ h.rate
    at_rate h =
        ap bytes_per_second (same h) ∙ ((bytes_per_second-HasRate h.format h.rate).1 h.rated).0

    still : IsJudged (some f) sent → (bytes_per_second f == 0) ≡ true → ⊥
    still h z = ground (arith, at_rate h, h.rated.0)

    not_pcm' : IsJudged (some f) sent → str_eq f.codec "pcm" ≡ false → ⊥
    not_pcm' h other = clash ((eq_iff f.codec "pcm").1 (ap (λ g. g.codec) (same h) ∙ h.pcm)) other

module _ ⦃u : Unicode⦄ (server_summary server_audio : Fields) (sent : List Frame) where
  -- Where the implementation cut the chunks and the byte rate of the negotiated stream, if it has
  -- one, is below 2^36, the verdict holds exactly when the stream is PCM at a positive byte rate,
  -- which is the product of its sample rate, its channels and its whole bytes for a sample, at least
  -- one chunk was sent, no chunk lasts longer than 150 ms, and none but the last one lasts less than
  -- 15 ms.
  pub chunk_durations_verdict-held_iff :
      get "chunked_by" server_audio ≡ str "implementation"
      → IsExactRate (normalized_format (get "stream" server_summary))
      → ((f : DurationFinding) × (chunk_durations_verdict server_summary server_audio sent
            ≡ held f))
        ↔ IsJudged (normalized_format (get "stream" server_summary)) sent
  unfolding chunk_durations_verdict IsHeld
  chunk_durations_verdict-held_iff cut small =
      rw (cut, judge_cut)
        (judge_stream-IsHeld (get "stream" server_summary)
          (normalized_format (get "stream" server_summary)) sent small)
