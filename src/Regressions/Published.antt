-- ===== src/Regressions/Published.antt =====
-- scripts/detect_regressions.py: which rows detect_regressions reports, in terms of the rows alone.
use conformance.Prelude.{
  ◌≡◌, refl, sym, ap, ◌∙◌, ◌↔◌, ◌⊎◌, inl, inr, true, false, ◌&&◌, none, some, List, [], ◌∷◌, ◌++◌,
  str_eq, eq_iff, if◌then◌else◌, Bool-cases, Option-cases, is_some, All, Any, In, Any-imp, All-imp,
  Any-any, clash, any-Any,
}
use mathlib.Core.Path.{subst}
use conformance.Regressions.{
  Row, same_case, is_passed, baseline_passed, baseline_stamps_revisions, require_scenario_revisions,
  detect_regressions,
}
use conformance.Regressions.Exact.{Regressed, detect_regressions-members, baseline_passed-same_cell}
use conformance.Json.{Value}
use conformance.Json.Python.{Python, same_value}

abbrev pub HasPassed : Row → Type 0
HasPassed r = r.status ≡ "passed"

-- The same scenario, server and client.
abbrev pub SameCell : Row → Row → Type 0
SameCell a b =
    (a.scenario_id ≡ b.scenario_id)
    × (a.server_impl ≡ b.server_impl)
    × (a.client_impl ≡ b.client_impl)

-- The last row of the baseline that passed in the cell of a row.
pub record IsPublished (baseline : List Row) (r b : Row) : Type 0 where
  pub before : List Row
  pub after : List Row
  pub placed : baseline ≡ before ++ (b ∷ after)
  pub passed : HasPassed b
  pub cell : SameCell b r
  pub last : All (λ c. HasPassed c → SameCell c r → ⊥) after

module _ ⦃py : Python⦄ where
  -- Both rows carry the same revision, or the published row has none though one of the baseline has.
  abbrev pub IsComparable : List Row → Row → Row → Type 0
  IsComparable baseline b r =
      ((b.scenario_revision ≡ none)
        × Any (λ c. (v : Value) × (c.scenario_revision ≡ some v)) baseline)
      ⊎ ((v : Value) × (w : Value) × (b.scenario_revision ≡ some v)
          × (r.scenario_revision ≡ some w)
          × (same_value v w ≡ true))

  -- A row that does not pass, though the last row that passed in its cell in the baseline can be
  -- compared with it.
  pub record IsRegression (baseline : List Row) (r : Row) : Type 0 where
    pub published : Row
    pub last : IsPublished baseline r published
    pub failing : ¬ HasPassed r
    pub comparable : IsComparable baseline published r

same_case-SameCell : (a b : Row) → (same_case a b ≡ true) ↔ SameCell a b
same_case-SameCell a b =
    let one = eq_iff a.scenario_id b.scenario_id in
    let two = eq_iff a.server_impl b.server_impl in
    let three = eq_iff a.client_impl b.client_impl in
    elim (Bool-cases (str_eq a.scenario_id b.scenario_id)) [
      | inr n ↦ rw n (λ h. cc, λ h. absurd (clash (one.1 h.0) n))
      | inl p ↦ elim (Bool-cases (str_eq a.server_impl b.server_impl)) [
        | inr n ↦ rw (p, n) (λ h. cc, λ h. absurd (clash (two.1 h.1) n))
        | inl q ↦ rw (p, q) (λ h. (one.0 p, two.0 q, three.0 h), λ h. three.1 h.2)
      ]
    ]

is_passed-HasPassed : (r : Row) → (is_passed r ≡ true) ↔ HasPassed r
is_passed-HasPassed r = eq_iff r.status "passed"

pub is_passed-fails : (r : Row) → (is_passed r ≡ false) ↔ (¬ HasPassed r)
is_passed-fails r =
    let both = is_passed-HasPassed r in
    (
      λ h p. clash (both.1 p) h,
      λ h. elim (Bool-cases (is_passed r)) [ inl y ↦ absurd (h (both.0 y)) | inr n ↦ n ],
    )

module _ (r : Row) where
  published_head :
      (c : Row) (cs : List Row)
      → baseline_passed cs r ≡ none
      → baseline_passed (c ∷ cs) r ≡ (if is_passed c && same_case c r then some c else none)
  unfolding baseline_passed
  published_head c cs h = elim (Bool-cases (is_passed c)) [
    | inl y ↦ rw (y, h) refl
    | inr n ↦ rw n h
  ]

  published_later :
      (c : Row) (cs : List Row) (b : Row)
      → baseline_passed cs r ≡ some b
      → baseline_passed (c ∷ cs) r ≡ some b
  unfolding baseline_passed
  published_later c cs b h = elim (Bool-cases (is_passed c)) [
    | inl y ↦ rw (y, h) refl
    | inr n ↦ rw n h
  ]

  quiet_iff :
      (cs : List Row) → (baseline_passed cs r ≡ none) ↔ All (λ c. HasPassed c → SameCell c r → ⊥) cs
  quiet_iff cs =
      let nothing = (baseline_passed-same_cell cs r).1 in
      (
        λ h.
            All-imp cs
              (λ c k p e. clash ((same_case-SameCell c r).1 e) (k ((is_passed-HasPassed c).1 p)))
              (nothing.0 h),
        λ h. nothing.1 (All-imp cs (λ c k p. differs c k ((is_passed-HasPassed c).0 p)) h),
      )
    where
      differs : (c : Row) → (HasPassed c → SameCell c r → ⊥) → HasPassed c → same_case c r ≡ false
      differs c k p = elim (Bool-cases (same_case c r)) [
        | inl y ↦ absurd (k p ((same_case-SameCell c r).0 y))
        | inr n ↦ n
      ]

  IsPublished-push :
      (c : Row) (cs : List Row) (b : Row) → IsPublished cs r b → IsPublished (c ∷ cs) r b
  IsPublished-push c cs b h = record {
    before = c ∷ h.before;
    after = h.after;
    placed = ap (λ z. c ∷ z) h.placed;
    passed = h.passed;
    cell = h.cell;
    last = h.last;
  }

  IsPublished-pop :
      (c : Row) (cs : List Row) (b : Row)
      → IsPublished (c ∷ cs) r b
      → ((c ≡ b) × HasPassed b × SameCell b r × (baseline_passed cs r ≡ none)) ⊎ IsPublished cs r b
  IsPublished-pop c cs b h = go h.before h.after h.placed h.last
    where
      go :
          (before after : List Row)
          → c ∷ cs ≡ before ++ (b ∷ after)
          → All (λ d. HasPassed d → SameCell d r → ⊥) after
          → ((c ≡ b) × HasPassed b × SameCell b r × (baseline_passed cs r ≡ none))
            ⊎ IsPublished cs r b
      go [] after placed last =
          let same : after ≡ cs = cc (placed) in
          inl (
            cc (placed),
            h.passed,
            h.cell,
            (quiet_iff cs).1 (subst (All (λ d. HasPassed d → SameCell d r → ⊥)) same last),
          )
      go (d ∷ ds) after placed last = inr (record {
        before = ds;
        after = after;
        placed = cc (placed);
        passed = h.passed;
        cell = h.cell;
        last = last;
      })

  pub baseline_passed-IsPublished :
      (bs : List Row) (b : Row) → (baseline_passed bs r ≡ some b) ↔ IsPublished bs r b
  baseline_passed-IsPublished [] b =
      (λ h. absurd (empty h), λ h. absurd (nowhere h.before h.after h.placed))
    where
      empty : baseline_passed [] r ≡ some b → ⊥
      empty h = let none' = (quiet_iff []).1 tt in cc (h, none')

      nowhere : (before after : List Row) → [] ≡ before ++ (b ∷ after) → ⊥
      nowhere [] after e = cc
      nowhere (d ∷ ds) after e = cc
  baseline_passed-IsPublished (c ∷ cs) b =
      let rest = baseline_passed-IsPublished cs b in
      elim (Option-cases (baseline_passed cs r)) [
        | inr (x, later) ↦
            let read = published_later c cs x later in
            (
              λ h. IsPublished-push c cs b (rest.0 (later ∙ sym read ∙ h)),
              λ h. elim (IsPublished-pop c cs b h) [
                | inl k ↦ let none' = k.3 in cc (none', later)
                | inr k ↦ published_later c cs b (rest.1 k)
              ],
            )
        | inl nothing ↦
            let read = published_head c cs nothing in
            elim (Bool-cases (is_passed c && same_case c r)) [
              | inr n ↦ (
                λ h. let e : baseline_passed (c ∷ cs) r ≡ none = read ∙ rw n refl in cc (h, e),
                λ h. elim (IsPublished-pop c cs b h) [
                  | inl k ↦ absurd (
                      clash
                        (subst (λ z. (is_passed z && same_case z r) ≡ true) (sym k.0)
                          (both b k.1 k.2))
                        n)
                  | inr k ↦ let some' = rest.1 k in cc (some', nothing)
                ],
              )
              | inl y ↦
                  let found : baseline_passed (c ∷ cs) r ≡ some c = read ∙ rw y refl in
                  (
                    λ h.
                        let same : c ≡ b = cc (found, h) in
                        record {
                          before = [];
                          after = cs;
                          placed = ap (λ z. z ∷ cs) same;
                          passed = subst HasPassed same ((is_passed-HasPassed c).0 (fst' y));
                          cell =
                              subst (λ z. SameCell z r) same ((same_case-SameCell c r).0 (snd' y));
                          last = (quiet_iff cs).0 nothing;
                        },
                    λ h. elim (IsPublished-pop c cs b h) [
                      | inl k ↦ found ∙ ap some k.0
                      | inr k ↦ let some' = rest.1 k in cc (some', nothing)
                    ],
                  )
            ]
      ]
    where
      both : (z : Row) → HasPassed z → SameCell z r → (is_passed z && same_case z r) ≡ true
      both z p e = rw ((is_passed-HasPassed z).1 p, (same_case-SameCell z r).1 e) refl

      fst' : (is_passed c && same_case c r) ≡ true → is_passed c ≡ true
      fst' e = elim (Bool-cases (is_passed c)) [ inl k ↦ k | inr k ↦ cc (rw k at e) ]

      snd' : (is_passed c && same_case c r) ≡ true → same_case c r ≡ true
      snd' e = rw (fst' e) at e

baseline_stamps_revisions-Any :
    (bs : List Row)
    → (baseline_stamps_revisions bs ≡ true)
      ↔ Any (λ c. (v : Value) × (c.scenario_revision ≡ some v)) bs
unfolding baseline_stamps_revisions
baseline_stamps_revisions-Any bs = (
  λ h. Any-imp bs (λ c k. shown c k) (any-Any (λ b. is_some b.scenario_revision) bs h),
  λ h. Any-any (λ b. is_some b.scenario_revision) bs (Any-imp bs (λ c k. rw k.1 refl) h),
)
  where
    shown :
        (c : Row)
        → is_some c.scenario_revision ≡ true
        → (v : Value) × (c.scenario_revision ≡ some v)
    shown c k = elim (Option-cases c.scenario_revision) [
      | inl none' ↦ cc (rw none' at k)
      | inr (v, e) ↦ (v, e)
    ]

module _ ⦃py : Python⦄ where
  Regressed-IsRegression :
      (baseline : List Row) (r : Row) → Regressed baseline r ↔ IsRegression baseline r
  Regressed-IsRegression baseline r =
      let stamped = baseline_stamps_revisions-Any baseline in
      (
        λ h. record {
          published = h.published;
          last = (baseline_passed-IsPublished r baseline h.published).0 h.found;
          failing = (is_passed-fails r).0 h.failing;
          comparable = elim h.comparable [ inl k ↦ inl (k.0, stamped.0 k.1) | inr k ↦ inr k ];
        },
        λ h. record {
          published = h.published;
          found = (baseline_passed-IsPublished r baseline h.published).1 h.last;
          failing = (is_passed-fails r).1 h.failing;
          comparable = elim h.comparable [ inl k ↦ inl (k.0, stamped.1 k.1) | inr k ↦ inr k ];
        },
      )

  -- For a run that is accepted the comparison gives a list, whose members are exactly the rows of the
  -- run that do not pass though a row of their cell passed in the baseline, the last of which can be
  -- compared with them: it carries the same revision, or none where another row of the baseline does.
  pub detect_regressions-exact :
      (baseline current : List Row)
      → require_scenario_revisions current ≡ none
      → (regressions : List Row) × (detect_regressions baseline current ≡ some regressions)
        × ((r : Row) → In r regressions ↔ (In r current × IsRegression baseline r))
  detect_regressions-exact baseline current h =
      let (regressions, reads, exact) = detect_regressions-members baseline current h in
      (
        regressions,
        reads,
        λ r.
            let one = Regressed-IsRegression baseline r in
            (λ m. let k = (exact r).0 m in (k.0, one.0 k.1), λ m. (exact r).1 (m.0, one.1 m.1)),
      )
