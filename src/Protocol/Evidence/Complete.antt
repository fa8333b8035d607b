-- ===== src/Protocol/Evidence/Complete.antt =====
-- When protocol_evidence_failure of src/conformance/protocol.py passes.
use conformance.Prelude.{
  String, ◌≡◌, refl, sym, ap, ◌∙◌, ◌≢◌, ◌↔◌, inl, inr, true, false, not, Option, none, some, List,
  [], ◌∷◌, eq_iff, Bool-cases, Option-cases, is_empty, filter, All, clash, is_empty→nil,
  ne-nil→is_empty, filter-not-nil_iff,
}
use conformance.Json.{Value, str, obj, arr, items, Items, Fields, get, is_text}
use conformance.Protocol.Evidence.{
  spec_revision, is_known, Side, server, client, EvidenceReason, is_filled_list, judge_result,
  judge_assertions, judge_map, judge_protocol, first_reason, protocol_evidence_failure,
}

-- An assertion that an adapter reports as passed, with a trace that is not empty.
pub record HasPassed (v : Value) : Type 0 where
  pub result : Fields
  pub is_object : v ≡ obj result
  pub status : get "status" result ≡ str "passed"
  pub events : Items
  pub traced : get "events" result ≡ arr events
  pub filled : items events ≢ []

-- The evidence of one adapter: for the pinned revision, with every assertion passed.
pub record HasEvidence (v : Value) (ids : List String) : Type 0 where
  pub protocol : Fields
  pub is_object : v ≡ obj protocol
  pub revision : get "spec_revision" protocol ≡ str spec_revision
  pub assertions : Fields
  pub has_map : get "assertions" protocol ≡ obj assertions
  pub passed : All (λ id. HasPassed (get id assertions)) ids

text_iff : (s : String) (v : Value) → (is_text s v ≡ true) ↔ (v ≡ str s)
text_iff s (str t) = (λ h. ap str ((eq_iff t s).0 h), λ h. (eq_iff t s).1 (cc (h)))
text_iff s _ = (λ h. cc, λ h. cc (h))

filled_iff :
    (v : Value) → (is_filled_list v ≡ true) ↔ ((vs : Items) × (v ≡ arr vs) × (items vs ≢ []))
unfolding is_filled_list
filled_iff (arr vs) = (
  λ h. (vs, refl, λ e. nothing (items vs) h e),
  λ (ws, e, filled). rw (ne-nil→is_empty (items vs) (λ n. filled (rw (same vs ws e) at n))),
)
  where
    same : (a b : Items) → arr a ≡ arr b → a ≡ b
    same a b e = cc

    nothing : (l : List Value) → not (is_empty l) ≡ true → l ≢ []
    nothing [] h e = cc
    nothing (x ∷ xs) h e = cc
filled_iff _ = (λ h. cc, λ h. cc (h.1))

result_iff : (side : Side) (id : String) (v : Value) → (judge_result side id v ≡ none) ↔ HasPassed v
unfolding judge_result
result_iff side id (obj result) =
    let passed = text_iff "passed" (get "status" result) in
    let traced = filled_iff (get "events" result) in
    elim (Bool-cases (is_text "passed" (get "status" result))) [
      | inr other ↦ rw other (λ h. cc, λ h. absurd (other_status h other))
      | inl fine ↦ elim (Bool-cases (is_filled_list (get "events" result))) [
        | inr bare ↦ rw (fine, bare) (λ h. cc, λ h. absurd (other_events h bare))
        | inl filled ↦
            rw (fine, filled)
              (
                λ h.
                    let (vs, e, f) = traced.0 filled in
                    record {
                      result = result;
                      is_object = refl;
                      status = passed.0 fine;
                      events = vs;
                      traced = e;
                      filled = f;
                    },
                λ h. refl,
              )
      ]
    ]
  where
    other_status : HasPassed (obj result) → is_text "passed" (get "status" result) ≡ false → ⊥
    other_status h other =
        let same : h.result ≡ result = cc (h.is_object) in
        clash ((text_iff "passed" (get "status" result)).1 (rw same at h.status)) other

    other_events : HasPassed (obj result) → is_filled_list (get "events" result) ≡ false → ⊥
    other_events h bare =
        let same : h.result ≡ result = cc (h.is_object) in
        clash
          ((filled_iff (get "events" result)).1
            (h.events, ap (get "events") (sym same) ∙ h.traced, h.filled))
          bare
result_iff side id _ = (λ h. cc, λ h. cc (h.is_object))

assertions_iff :
    (side : Side) (assertions : Fields) (ids : List String)
    → (judge_assertions side assertions ids ≡ none) ↔ All (λ id. HasPassed (get id assertions)) ids
unfolding judge_assertions
assertions_iff side assertions [] = (λ h. tt, λ h. refl)
assertions_iff side assertions (id ∷ ids) =
    let one = result_iff side id (get id assertions) in
    let rest = assertions_iff side assertions ids in
    elim (Option-cases (judge_result side id (get id assertions))) [
      | inl fine ↦ rw (fine, judge_assertions) (λ h. (one.0 fine, rest.0 h), λ h. rest.1 h.1)
      | inr (r, bad) ↦ rw (bad, judge_assertions) (λ h. cc, λ h. cc (bad, one.1 h.0))
    ]

map_iff :
    (side : Side) (v : Value) (ids : List String)
    → (judge_map side v ids ≡ none) ↔ (
        (assertions : Fields) × (v ≡ obj assertions)
        × All (λ id. HasPassed (get id assertions)) ids)
unfolding judge_map
map_iff side (obj assertions) ids =
    let both = assertions_iff side assertions ids in
    (λ h. (assertions, refl, both.0 h), λ (a, e, passed). both.1 (rw (same a e) passed))
  where
    same : (a : Fields) → obj assertions ≡ obj a → assertions ≡ a
    same a e = cc
map_iff side _ ids = (λ h. cc, λ h. cc (h.1))

protocol_iff :
    (side : Side) (v : Value) (ids : List String)
    → (judge_protocol side v ids ≡ none) ↔ HasEvidence v ids
unfolding judge_protocol
protocol_iff side (obj protocol) ids =
    let revision = text_iff spec_revision (get "spec_revision" protocol) in
    let mapped = map_iff side (get "assertions" protocol) ids in
    elim (Bool-cases (is_text spec_revision (get "spec_revision" protocol))) [
      | inr other ↦ rw other (λ h. cc, λ h. absurd (other_revision' h other))
      | inl fine ↦ rw fine (
        λ h.
            let (a, e, passed) = mapped.0 h in
            record {
              protocol = protocol;
              is_object = refl;
              revision = revision.0 fine;
              assertions = a;
              has_map = e;
              passed = passed;
            },
        λ h. mapped.1 (h.assertions, ap (get "assertions") (same h) ∙ h.has_map, h.passed),
      )
    ]
  where
    same : (h : HasEvidence (obj protocol) ids) → protocol ≡ h.protocol
    same h = cc (h.is_object)

    other_revision' :
        (h : HasEvidence (obj protocol) ids)
        → is_text spec_revision (get "spec_revision" protocol) ≡ false
        → ⊥
    other_revision' h other =
        clash
          ((text_iff spec_revision (get "spec_revision" protocol)).1
            (ap (get "spec_revision") (same h) ∙ h.revision))
          other
protocol_iff side _ ids = (λ h. cc, λ h. cc (h.is_object))

first_iff : (a b : Option EvidenceReason) → (first_reason a b ≡ none) ↔ ((a ≡ none) × (b ≡ none))
unfolding first_reason
first_iff none b = (λ h. (refl, h), λ h. h.1)
first_iff (some r) b = (λ h. cc, λ h. cc (h.0))

-- The evidence passes exactly when every assertion asked for is one that the protocol module knows,
-- and each adapter reports, for the pinned revision, each of them as passed with a trace that is
-- not empty.
pub protocol_evidence_failure-none_iff :
    (server_summary client_summary : Fields) (assertion_ids : List String)
    → (protocol_evidence_failure server_summary client_summary assertion_ids ≡ none) ↔ (
        All (λ id. is_known id ≡ true) assertion_ids
        × HasEvidence (get "protocol" server_summary) assertion_ids
        × HasEvidence (get "protocol" client_summary) assertion_ids)
unfolding protocol_evidence_failure
protocol_evidence_failure-none_iff s c ids =
    let known = filter-not-nil_iff is_known ids in
    let first =
      first_iff (judge_protocol server (get "protocol" s) ids)
        (judge_protocol client (get "protocol" c) ids) in
    let on_server = protocol_iff server (get "protocol" s) ids in
    let on_client = protocol_iff client (get "protocol" c) ids in
    elim (Bool-cases (is_empty (filter (λ a. not (is_known a)) ids))) [
      | inr foreign ↦ rw foreign (λ h. cc, λ h. absurd (clash (ap is_empty (known.1 h.0)) foreign))
      | inl fine ↦ rw fine (
        λ h. (
          known.0 (is_empty→nil (filter (λ a. not (is_known a)) ids) fine),
          on_server.0 (first.0 h).0,
          on_client.0 (first.0 h).1,
        ),
        λ h. first.1 (on_server.1 h.1, on_client.1 h.2),
      )
    ]
