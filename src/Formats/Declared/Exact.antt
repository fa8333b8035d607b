-- ===== src/Formats/Declared/Exact.antt =====
-- What the declaration scan of src/conformance/declared_formats.py returns.
use conformance.Prelude.{
  ◌≡◌, refl, sym, ap, ◌≢◌, ◌↔◌, ◌⊎◌, inl, inr, true, false, not, Option, none, some, List, [], ◌∷◌,
  ◌++◌, map, append-nil, append_assoc, Bool-cases, is_some, any, filter, keep_if, Any, In,
  Any-append_left, Any-append_right, Any-append_split, Any-map_iff, Any-imp, All-imp, any-none,
  Distinct, Distinct-snoc, any-Any,
}
use mathlib.Core.Path.{subst}
use mathlib.Core.Option.{some-injective}
use mathlib.Core.List.{map-append}
use conformance.Json.{Value, arr, Items, items, Fields, Unicode}
use conformance.Formats.Format.{
  AudioFormat, normalized_format, FormatKey, format_key, format_key_injective, same_key,
  same_key→eq, same_key_refl,
}
use conformance.Formats.Declared.{
  Declaration, no_declaration, bad_entry, supported_formats, note_entry, declare_entries,
  declare_value, declared_formats,
}

-- What holds of the loop's state: the set has the keys of the formats, and none of them twice.
record IsScanned (d : Declaration) : Type 0 where
  seen_keys : d.seen ≡ map format_key d.declared
  distinct : Distinct d.seen

In-snoc :
    (fs : List AudioFormat) (g f : AudioFormat)
    → In f (fs ++ g ∷ [])
    → In f fs ⊎ (◌≡◌ {A = Option AudioFormat} (some g) (some f))
In-snoc fs g f h = elim (Any-append_split _ fs (g ∷ []) h) [
  | inl old ↦ inl old
  | inr last ↦ inr (only last)
]
  where
    only : In f (g ∷ []) → ◌≡◌ {A = Option AudioFormat} (some g) (some f)
    only (inl e) = ap some e
    only (inr n) = elim n [ ]

unseen : (k j : FormatKey) → same_key k j ≡ false → j ≢ k
unseen k j h e = cc (same_key_refl k, ap (same_key k) e)

module _ (d : Declaration) (s : IsScanned d) (entry : Value) where
  note_entry-IsScanned : (r : Option AudioFormat) → IsScanned (note_entry d entry r)
  unfolding note_entry
  note_entry-IsScanned none = record { seen_keys = s.seen_keys; distinct = s.distinct }
  note_entry-IsScanned (some f) = elim (Bool-cases (any (same_key (format_key f)) d.seen)) [
    | inl old ↦ rw old s
    | inr new ↦ rw new (record {
      seen_keys = rw (map-append, s.seen_keys);
      distinct =
          Distinct-snoc d.seen (format_key f) s.distinct (
            All-imp d.seen (unseen (format_key f)) (any-none (same_key (format_key f)) d.seen new));
    })
  ]

  seen→In : (f : AudioFormat) → any (same_key (format_key f)) d.seen ≡ true → In f d.declared
  seen→In f old =
      let keys : Any (λ k. same_key (format_key f) k ≡ true) (map format_key d.declared) =
        subst (Any (λ k. same_key (format_key f) k ≡ true)) s.seen_keys
          (any-Any (same_key (format_key f)) d.seen old) in
      Any-imp d.declared
        (λ g e. sym (format_key_injective f g (same_key→eq (format_key f) (format_key g) e)))
        ((Any-map_iff _ format_key d.declared).0 keys)

  -- A format that is noted joins the formats declared, and nothing else does.
  In-note_entry :
      (r : Option AudioFormat) (f : AudioFormat)
      → In f (note_entry d entry r).declared ↔ (In f d.declared ⊎ (r ≡ some f))
  unfolding note_entry
  In-note_entry none f = (inl, elim [ inl h ↦ h | inr e ↦ cc ])
  In-note_entry (some g) f = elim (Bool-cases (any (same_key (format_key g)) d.seen)) [
    | inl old ↦ rw old (
      inl,
      elim [
        | inl h ↦ h
        | inr e ↦ subst (λ x. In x d.declared) (some-injective g f e) (seen→In g old)
      ],
    )
    | inr new ↦ rw new (
      λ h. In-snoc d.declared g f h,
      elim [
        | inl h ↦ Any-append_left _ d.declared (g ∷ []) h
        | inr e ↦ Any-append_right _ d.declared (g ∷ []) (inl (some-injective g f e))
      ],
    )
  ]

unreadable-note_entry :
    (d : Declaration) (e : Value) (r : Option AudioFormat) (rest : List Value)
    → (note_entry d e r).unreadable ++ map bad_entry rest
      ≡ d.unreadable ++ map bad_entry (keep_if (not (is_some r)) e rest)
unfolding note_entry
unreadable-note_entry d e none rest =
    append_assoc d.unreadable (bad_entry e ∷ []) (map bad_entry rest)
unreadable-note_entry d e (some f) rest = elim (Bool-cases (any (same_key (format_key f)) d.seen)) [
  | inl old ↦ rw old
  | inr new ↦ rw new
]

module _ ⦃u : Unicode⦄ where
  declare_entries-IsScanned :
      (d : Declaration) (es : List Value) → IsScanned d → IsScanned (declare_entries d es)
  unfolding declare_entries
  declare_entries-IsScanned d [] s = s
  declare_entries-IsScanned d (e ∷ es) s =
      declare_entries-IsScanned (note_entry d e (normalized_format e)) es
        (note_entry-IsScanned d s e (normalized_format e))

  In-declare_entries :
      (d : Declaration) (es : List Value) (f : AudioFormat)
      → IsScanned d
      → In f (declare_entries d es).declared
        ↔ (In f d.declared ⊎ Any (λ e. normalized_format e ≡ some f) es)
  unfolding declare_entries
  In-declare_entries d [] f s = (inl, elim [ inl h ↦ h | inr h ↦ elim h [ ] ])
  In-declare_entries d (e ∷ es) f s =
      let d' = note_entry d e (normalized_format e) in
      let rest = In-declare_entries d' es f (note_entry-IsScanned d s e (normalized_format e)) in
      let step = In-note_entry d s e (normalized_format e) f in
      (
        λ h. elim (rest.0 h) [
          | inl a ↦ elim (step.0 a) [ inl old ↦ inl old | inr new ↦ inr (inl new) ]
          | inr later ↦ inr (inr later)
        ],
        elim [
          | inl old ↦ rest.1 (inl (step.1 (inl old)))
          | inr (inl new) ↦ rest.1 (inl (step.1 (inr new)))
          | inr (inr later) ↦ rest.1 (inr later)
        ],
      )

  -- The unreadable entries are those without a normal form, in their order.
  unreadable-declare_entries :
      (d : Declaration) (es : List Value)
      → (declare_entries d es).unreadable
        ≡ d.unreadable ++ map bad_entry (filter (λ e. not (is_some (normalized_format e))) es)
  unfolding declare_entries
  unreadable-declare_entries d [] = sym (append-nil d.unreadable)
  unreadable-declare_entries d (e ∷ es) =
      rw (unreadable-declare_entries (note_entry d e (normalized_format e)) es) (
        unreadable-note_entry d e (normalized_format e)
          (filter (λ x. not (is_some (normalized_format x))) es))

  -- Where the client's hello holds a list, the formats declared are the normal forms of its entries,
  -- each once, and the unreadable ones are the entries that have none, in their order.
  pub declared_formats-exact :
      (server : Fields) (vs : Items)
      → supported_formats server ≡ arr vs
      → Distinct (map format_key (declared_formats server).declared)
        × ((f : AudioFormat)
            → In f (declared_formats server).declared
              ↔ Any (λ e. normalized_format e ≡ some f) (items vs))
        × ((declared_formats server).unreadable
            ≡ map bad_entry (filter (λ e. not (is_some (normalized_format e))) (items vs)))
  unfolding declared_formats declare_value
  declared_formats-exact server vs h =
      let scanned = declare_entries-IsScanned no_declaration (items vs) start in
      rw h (
        rw (← scanned.seen_keys) scanned.distinct,
        λ f. from_start f,
        unreadable-declare_entries no_declaration (items vs),
      )
    where
      start : IsScanned no_declaration
      start = record { seen_keys = refl; distinct = tt }

      from_start :
          (f : AudioFormat)
          → In f (declare_entries no_declaration (items vs)).declared
            ↔ Any (λ e. normalized_format e ≡ some f) (items vs)
      from_start f =
          let both = In-declare_entries no_declaration (items vs) f start in
          (λ k. elim (both.0 k) [ inl h ↦ elim h [ ] | inr h ↦ h ], λ k. both.1 (inr k))
