-- ===== src/Comparison/States/Passes.antt =====
-- src/conformance/runner.py: when _compare_metadata_summaries and _compare_artwork_summaries
-- pass.
use conformance.Prelude.{◌≡◌, refl, ◌↔◌, Bool, true, ◌&&◌, none, some, ℤ, pos, ltb_ℤ}
use conformance.Json.{str, Fields, get}
use conformance.Json.Python.{Python, same_value, integer_or_zero}
use conformance.Comparison.FirstState.{first_metadata_state_verdict}
use conformance.Comparison.Outcome.{
  metadata_matches, artwork_matches, passed, read_iff, guard_iff, blame_iff, statuses_iff, section,
}
use conformance.Comparison.States.{compare_metadata_summaries, compare_artwork_summaries}

module _ ⦃py : Python⦄ (server_summary client_summary : Fields) where
  -- The client counted an update, its metadata is the expected, and the first state is not blamed.
  pub record IsShown (judged : Bool) : Type 0 where
    pub server_ok : get "status" server_summary ≡ str "ok"
    pub client_ok : get "status" client_summary ≡ str "ok"
    pub server_metadata : Fields
    pub client_metadata : Fields
    pub server_section : section "metadata" server_summary ≡ some server_metadata
    pub client_section : section "metadata" client_summary ≡ some client_metadata
    pub count : ℤ
    pub counted : integer_or_zero (get "update_count" client_metadata) ≡ some count
    pub some_update : ltb_ℤ (pos 0) count ≡ true
    pub same : same_value (get "expected" server_metadata) (get "received" client_metadata) ≡ true
    pub first_state :
        first_metadata_state_verdict server_summary client_summary ≡ some (judged, none)

module _ ⦃py : Python⦄ (server_summary client_summary : Fields) where
  -- The comparison of the mode "metadata" passes exactly when both adapters report the status ok,
  -- the client counted at least one update, the metadata that it received equals the expected, and
  -- the first state that carried metadata is not blamed; the note says whether that was judged.
  pub compare_metadata_summaries-passed_iff :
      (judged : Bool)
      → (compare_metadata_summaries server_summary client_summary
          ≡ passed (metadata_matches judged))
        ↔ IsShown server_summary client_summary judged
  unfolding compare_metadata_summaries
  compare_metadata_summaries-passed_iff judged =
      let note = metadata_matches judged in
      let whole =
        statuses_iff note _
          (read_iff note _ (section "metadata" server_summary) λ sm.
            read_iff note _ (section "metadata" client_summary) λ cm.
              read_iff note _ (integer_or_zero (get "update_count" cm)) λ n.
                guard_iff note _
                  (guard_iff note _
                    (read_iff note _ (first_metadata_state_verdict server_summary client_summary)
                      λ v. blame_iff note (passed (metadata_matches v.0)) (λ k. k, λ k. k) _ v.1)
                    (same_value (get "expected" sm) (get "received" cm)) _)
                  (ltb_ℤ (pos 0) n) _)
          server_summary client_summary in
      (
        λ h.
            let (s, c, (sm, es, (cm, ec, (n, en, (pn, (same, (v, ev, (fine, e)))))))) = whole.0 h in
            let reported : v.0 ≡ judged = cc (e) in
            record {
              server_ok = s;
              client_ok = c;
              server_metadata = sm;
              client_metadata = cm;
              server_section = es;
              client_section = ec;
              count = n;
              counted = en;
              some_update = pn;
              same = same;
              first_state = cc (ev, fine, reported);
            },
        λ h. whole.1 (
          h.server_ok,
          h.client_ok,
          (
            h.server_metadata,
            h.server_section,
            (
              h.client_metadata,
              h.client_section,
              (
                h.count,
                h.counted,
                (h.some_update, (h.same, ((judged, none), h.first_state, (refl, refl)))),
              ),
            ),
          ),
        ),
      )

module _ ⦃py : Python⦄ (server_summary client_summary : Fields) where
  -- The client received a frame, and the channel and the hash of its bytes are the expected.
  pub record IsDisplayed : Type 0 where
    pub server_ok : get "status" server_summary ≡ str "ok"
    pub client_ok : get "status" client_summary ≡ str "ok"
    pub received : Fields
    pub client_section : section "artwork" client_summary ≡ some received
    pub count : ℤ
    pub counted : integer_or_zero (get "received_count" received) ≡ some count
    pub some_frame : ltb_ℤ (pos 0) count ≡ true
    pub expected : Fields
    pub server_section : section "artwork" server_summary ≡ some expected
    pub same :
        (same_value (get "channel" expected) (get "channel" received)
          && same_value (get "encoded_sha256" expected) (get "received_sha256" received))
        ≡ true

module _ ⦃py : Python⦄ (server_summary client_summary : Fields) where
  -- The comparison of the mode "artwork" passes exactly when both adapters report the status ok,
  -- the client counted at least one frame, and the channel and the hash that it received equal
  -- those that the server sent.
  pub compare_artwork_summaries-passed_iff :
      (compare_artwork_summaries server_summary client_summary ≡ passed artwork_matches)
      ↔ IsDisplayed server_summary client_summary
  unfolding compare_artwork_summaries
  compare_artwork_summaries-passed_iff =
      let note = artwork_matches in
      let whole =
        statuses_iff note _
          (read_iff note _ (section "artwork" client_summary) λ r.
            read_iff note _ (integer_or_zero (get "received_count" r)) λ n.
              guard_iff note _
                (read_iff note _ (section "artwork" server_summary) λ e.
                  guard_iff note _ (λ k. tt, λ k. refl)
                    (same_value (get "channel" e) (get "channel" r)
                      && same_value (get "encoded_sha256" e) (get "received_sha256" r))
                    _)
                (ltb_ℤ (pos 0) n) _)
          server_summary client_summary in
      (
        λ h.
            let (s, c, (r, er, (n, en, (pn, (x, ex, (same, t)))))) = whole.0 h in
            record {
              server_ok = s;
              client_ok = c;
              received = r;
              client_section = er;
              count = n;
              counted = en;
              some_frame = pn;
              expected = x;
              server_section = ex;
              same = same;
            },
        λ h. whole.1 (
          h.server_ok,
          h.client_ok,
          (
            h.received,
            h.client_section,
            (h.count, h.counted, (h.some_frame, (h.expected, h.server_section, (h.same, tt)))),
          ),
        ),
      )
