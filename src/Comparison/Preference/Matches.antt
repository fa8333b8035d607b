-- ===== src/Comparison/Preference/Matches.antt =====
-- src/conformance/runner.py: what _format_matches, _formats_equal and FORMAT_PREFERENCE_TARGETS ask of
-- a format.
use conformance.Prelude.{
  String, ◌≡◌, refl, sym, ◌∙◌, ◌↔◌, ◌⊎◌, inl, inr, Bool, true, false, ◌&&◌, some, str_eq, eq_iff,
  Bool-cases, clash, pos,
}
use mathlib.Core.Path.{subst}
use conformance.Json.{Value, null, bool, int, real, str, arr, obj, Fields, no_field, field, get}
use conformance.Json.Python.{Python, same_value}
use conformance.Comparison.Preference.{
  format_preference_target, field_matches, format_matches, formats_equal, stayed,
}

module _ ⦃py : Python⦄ where
  -- What is wanted at a key, where something is.
  abbrev pub Wants : Fields → Fields → String → Type 0
  Wants expected actual k =
      (get k expected ≡ null) ⊎ (same_value (get k actual) (get k expected) ≡ true)

  -- A format has every field that another one asks for.
  pub record Matches (expected actual : Fields) : Type 0 where
    pub codec : Wants expected actual "codec"
    pub sample_rate : Wants expected actual "sample_rate"
    pub bit_depth : Wants expected actual "bit_depth"
    pub channels : Wants expected actual "channels"

  -- Two formats have the same fields.
  pub record Equal (left right : Fields) : Type 0 where
    pub codec : same_value (get "codec" left) (get "codec" right) ≡ true
    pub sample_rate : same_value (get "sample_rate" left) (get "sample_rate" right) ≡ true
    pub bit_depth : same_value (get "bit_depth" left) (get "bit_depth" right) ≡ true
    pub channels : same_value (get "channels" left) (get "channels" right) ≡ true

  field_matches_iff :
      (v w : Value) → (field_matches v w ≡ true) ↔ ((v ≡ null) ⊎ (same_value w v ≡ true))
  field_matches_iff null w = (λ h. inl refl, λ h. refl)
  field_matches_iff (bool b) w = (λ h. inr h, elim [ inl e ↦ cc (e) | inr e ↦ e ])
  field_matches_iff (int n) w = (λ h. inr h, elim [ inl e ↦ cc (e) | inr e ↦ e ])
  field_matches_iff (real x) w = (λ h. inr h, elim [ inl e ↦ cc (e) | inr e ↦ e ])
  field_matches_iff (str s) w = (λ h. inr h, elim [ inl e ↦ cc (e) | inr e ↦ e ])
  field_matches_iff (arr vs) w = (λ h. inr h, elim [ inl e ↦ cc (e) | inr e ↦ e ])
  field_matches_iff (obj fs) w = (λ h. inr h, elim [ inl e ↦ cc (e) | inr e ↦ e ])

  four_iff :
      (a b c d : Bool)
      → ((a && (b && (c && (d && true)))) ≡ true)
        ↔ ((a ≡ true) × (b ≡ true) × (c ≡ true) × (d ≡ true))
  four_iff true true true true = (λ h. (refl, refl, refl, refl), λ h. refl)
  four_iff false b c d = (λ h. cc, λ h. cc (h.0))
  four_iff true false c d = (λ h. cc, λ h. cc (h.1))
  four_iff true true false d = (λ h. cc, λ h. cc (h.2))
  four_iff true true true false = (λ h. cc, λ h. cc (h.3))

  pub format_matches-Matches :
      (actual expected : Fields) → (format_matches actual expected ≡ true) ↔ Matches expected actual
  unfolding format_matches
  format_matches-Matches actual expected =
      let one = λ (k : String). field_matches_iff (get k expected) (get k actual) in
      let both = four_iff (at "codec") (at "sample_rate") (at "bit_depth") (at "channels") in
      (
        λ h.
            let (c, r, d, n) = both.0 h in
            record {
              codec = (one "codec").0 c;
              sample_rate = (one "sample_rate").0 r;
              bit_depth = (one "bit_depth").0 d;
              channels = (one "channels").0 n;
            },
        λ h. both.1 (
          (one "codec").1 h.codec,
          (one "sample_rate").1 h.sample_rate,
          (one "bit_depth").1 h.bit_depth,
          (one "channels").1 h.channels,
        ),
      )
    where
      at : String → Bool
      at k = field_matches (get k expected) (get k actual)

  formats_equal-Equal : (left right : Fields) → (formats_equal left right ≡ true) ↔ Equal left right
  unfolding formats_equal
  formats_equal-Equal left right =
      let both = four_iff (at "codec") (at "sample_rate") (at "bit_depth") (at "channels") in
      (
        λ h.
            let (c, r, d, n) = both.0 h in
            record { codec = c; sample_rate = r; bit_depth = d; channels = n },
        λ h. both.1 (h.codec, h.sample_rate, h.bit_depth, h.channels),
      )
    where
      at : String → Bool
      at k = same_value (get k left) (get k right)

  -- The initial format is an object with the same fields as the final one.
  abbrev pub IsUnchanged : Value → Fields → Type 0
  IsUnchanged initial final = (fields : Fields) × (initial ≡ obj fields) × Equal fields final

  pub stayed-IsUnchanged :
      (initial : Value) (final : Fields) → (stayed initial final ≡ true) ↔ IsUnchanged initial final
  unfolding stayed
  stayed-IsUnchanged (obj fields) final =
      let equal = formats_equal-Equal fields final in
      (
        λ h. (fields, refl, equal.0 h),
        λ (other, same', e).
            let same : other ≡ fields = cc (same') in equal.1 (subst (λ z. Equal z final) same e),
      )
  stayed-IsUnchanged null final = (λ h. cc, λ h. cc (h.1))
  stayed-IsUnchanged (bool b) final = (λ h. cc, λ h. cc (h.1))
  stayed-IsUnchanged (int n) final = (λ h. cc, λ h. cc (h.1))
  stayed-IsUnchanged (real x) final = (λ h. cc, λ h. cc (h.1))
  stayed-IsUnchanged (str s) final = (λ h. cc, λ h. cc (h.1))
  stayed-IsUnchanged (arr vs) final = (λ h. cc, λ h. cc (h.1))

  -- What the scenario asks the client to request: PCM with 16 bits, or FLAC.
  abbrev pub IsOnTarget : String → Fields → Type 0
  IsOnTarget scenario_id received =
      ((scenario_id ≡ "client-initiated-state-format-pcm")
        × (same_value (get "codec" received) (str "pcm") ≡ true)
        × (same_value (get "bit_depth" received) (int (pos 16)) ≡ true))
      ⊎ ((scenario_id ≡ "client-initiated-state-format-flac")
          × (same_value (get "codec" received) (str "flac") ≡ true))

  pub target-IsOnTarget :
      (scenario_id : String) (received : Fields)
      → ((target : Fields) × (format_preference_target scenario_id ≡ some target)
          × (format_matches received target ≡ true))
        ↔ IsOnTarget scenario_id received
  target-IsOnTarget scenario_id received =
      let pcm = eq_iff scenario_id "client-initiated-state-format-pcm" in
      let flac = eq_iff scenario_id "client-initiated-state-format-flac" in
      elim (Bool-cases (str_eq scenario_id "client-initiated-state-format-pcm")) [
        | inl y ↦ rw y (
          λ (t, same', h).
              let same : t ≡ pcm_target = cc (same') in
              let m =
                (format_matches-Matches received pcm_target).0
                  (subst (λ z. format_matches received z ≡ true) same h) in
              inl (pcm.0 y, wanted m.codec (λ e. cc (e)), wanted m.bit_depth (λ e. cc (e))),
          elim [
            | inl h ↦ (
              pcm_target,
              refl,
              (format_matches-Matches received pcm_target).1 (record {
                codec = inr h.1;
                sample_rate = inl refl;
                bit_depth = inr h.2;
                channels = inl refl;
              }),
            )
            | inr h ↦ absurd (apart (sym (pcm.0 y) ∙ h.0))
          ],
        )
        | inr n ↦ elim (Bool-cases (str_eq scenario_id "client-initiated-state-format-flac")) [
          | inl y ↦
              rw (n, y)
                (
                  λ (t, same', h).
                      let same : t ≡ flac_target = cc (same') in
                      let m =
                        (format_matches-Matches received flac_target).0
                          (subst (λ z. format_matches received z ≡ true) same h) in
                      inr (flac.0 y, wanted m.codec (λ e. cc (e))),
                  elim [
                    | inl h ↦ absurd (clash (pcm.1 h.0) n)
                    | inr h ↦ (
                      flac_target,
                      refl,
                      (format_matches-Matches received flac_target).1 (record {
                        codec = inr h.1;
                        sample_rate = inl refl;
                        bit_depth = inl refl;
                        channels = inl refl;
                      }),
                    )
                  ],
                )
          | inr m ↦
              rw (n, m)
                (
                  λ (t, same', h). cc (same'),
                  elim [
                    | inl h ↦ absurd (clash (pcm.1 h.0) n)
                    | inr h ↦ absurd (clash (flac.1 h.0) m)
                  ],
                )
        ]
      ]
    where
      pcm_target : Fields
      pcm_target = field "codec" (str "pcm") (field "bit_depth" (int (pos 16)) no_field)

      flac_target : Fields
      flac_target = field "codec" (str "flac") no_field

      wanted : {P Q : Type 0} → P ⊎ Q → (P → ⊥) → Q
      wanted (inl e) other = absurd (other e)
      wanted (inr e) other = e

      apart :
          ◌≡◌ {A = String} "client-initiated-state-format-pcm" "client-initiated-state-format-flac"
          → ⊥
      apart e = cc
