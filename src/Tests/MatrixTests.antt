-- ===== src/Tests/MatrixTests.antt =====
-- The theorems on the matrix and on regressions (src/conformance/models.py, scenarios.py and
-- implementations.py, scripts/detect_regressions.py) at concrete values.
use conformance.Prelude.{ℕ, String, ◌≡◌, refl, ◌↔◌, ◌⊎◌, none, some, List, [], ◌∷◌, In, pos}
use conformance.Json.{int}
use conformance.Matrix.Model.{server, client, artwork, Unsupported, no_families, unsupported_reason}
use conformance.Matrix.Model.Reasons.{Explains, unsupported_reason-Explains}
use conformance.Matrix.Scenarios.{server_initiated_artwork, server_initiated_pcm}
use conformance.Matrix.Implementations.{sendspin_js}
use conformance.Matrix.Choice.{implementations_for_scenario}
use conformance.Regressions.{
  Row, baseline_passed, require_scenario_revisions, Exemption, revision_changed, detect_regressions,
  exempt_cases,
}
use conformance.Regressions.Published.{IsRegression, detect_regressions-exact}
use conformance.Regressions.Partition.{IsLost, detect_regressions-partition}
use conformance.Tests.Samples.{plain}

-- sendspin-js plays no artwork.
abbrev no_artwork : Unsupported
no_artwork = no_families "sendspin-js" client (artwork ∷ []) "server-initiated-artwork"

sendspin_js-lacks_artwork :
    unsupported_reason sendspin_js.client_spec "sendspin-js" client server_initiated_artwork
    ≡ some no_artwork
unfolding unsupported_reason
sendspin_js-lacks_artwork = refl

unsupported_reason-Explains_example :
    Explains sendspin_js.client_spec server_initiated_artwork no_artwork
unsupported_reason-Explains_example =
    unsupported_reason-Explains sendspin_js.client_spec "sendspin-js" client
      server_initiated_artwork no_artwork sendspin_js-lacks_artwork

-- The servers that take part in a scenario, in the order of the names.
pcm_servers :
    implementations_for_scenario server server_initiated_pcm none
    ≡ "aiosendspin" ∷ "sendspin-server-cpp" ∷ []
unfolding implementations_for_scenario unsupported_reason
pcm_servers = refl

abbrev row : String → String → ℕ → Row
row client_name status revision = record {
  scenario_id = "server-initiated-pcm";
  server_impl = "aiosendspin";
  client_impl = client_name;
  status = status;
  scenario_revision = some (int (pos revision));
}

-- One cell regressed, the other one ran another revision of the scenario.
abbrev published : List Row
published = row "sendspin-js" "passed" 6 ∷ row "sendspin-rs" "passed" 5 ∷ []

abbrev run : List Row
run = row "sendspin-js" "failed" 6 ∷ row "sendspin-rs" "failed" 6 ∷ []

run-stamped : require_scenario_revisions run ≡ none
unfolding require_scenario_revisions
run-stamped = refl

detect_regressions-exact_example :
    (regressions : List Row) × (detect_regressions ⦃py = plain⦄ published run ≡ some regressions)
    × ((r : Row) → In r regressions ↔ (In r run × IsRegression ⦃py = plain⦄ published r))
detect_regressions-exact_example = detect_regressions-exact ⦃py = plain⦄ published run run-stamped

detect_regressions-partition_example :
    (regressions : List Row) × (exempt : List (Row × Exemption)) × (detect_regressions ⦃py = plain⦄
        published run
      ≡ some regressions)
    × (exempt_cases ⦃py = plain⦄ published run ≡ some exempt)
    × ((r : Row)
        → ((In r regressions ⊎ ((reason : Exemption) × In (r, reason) exempt))
            ↔ IsLost published run r)
          × (¬ (In r regressions × ((reason : Exemption) × In (r, reason) exempt))))
detect_regressions-partition_example =
    detect_regressions-partition ⦃py = plain⦄ published run run-stamped

one_regression :
    detect_regressions ⦃py = plain⦄ published run ≡ some (row "sendspin-js" "failed" 6 ∷ [])
unfolding detect_regressions baseline_passed
one_regression = refl

abbrev one_exempt : List (Row × Exemption)
one_exempt = (row "sendspin-rs" "failed" 6, revision_changed) ∷ []

one_exemption : exempt_cases ⦃py = plain⦄ published run ≡ some one_exempt
unfolding exempt_cases baseline_passed
one_exemption = refl

js_published :
    baseline_passed published (row "sendspin-js" "failed" 6) ≡ some (row "sendspin-js" "passed" 6)
unfolding baseline_passed
js_published = refl

-- A later row that failed does not take the place of one that passed.
abbrev failed_later : List Row
failed_later = row "sendspin-js" "passed" 5 ∷ row "sendspin-js" "failed" 6 ∷ []

still_published :
    baseline_passed failed_later (row "sendspin-js" "failed" 6)
    ≡ some (row "sendspin-js" "passed" 5)
unfolding baseline_passed
still_published = refl
