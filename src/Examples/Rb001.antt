-- ===== src/Examples/Rb001.antt =====
-- The properties of RB-001 and of the search, applied.
use open_authority_trials_oa.Pipeline.Replay.{RunReplay, replay_run, replay_ok}
use open_authority_trials_oa.Pipeline.Replay.Reproduced.{
  built_witness, recorded, replay_run-recorded,
}
use open_authority_trials_oa.ReferenceBoundary.{
  AuthorityInput, Variation, Scenario, status_active, execute, effective_commit_tick, allowed,
}
use open_authority_trials_oa.Prelude.{String, ◌↔◌, ◌∷◌, true, [], refl, ◌≡◌, ◌⊎◌, some, none}
use open_authority_trials_oa.Falsifier.{Evaluation, evaluate, falsifier_identity, truthy}
use open_authority_trials_oa.Falsifier.Enforcement.{
  Fires, recheck-never-Fires, InEffect, OutOfEffect, cached-Fires_iff, evaluate-execute,
}
use open_authority_trials_oa.Pipeline.{Adversary, SearchResult, search_candidates, select}
use open_authority_trials_oa.Prelude.Int.{pos, ◌≤ℤ◌}
use open_authority_trials_oa.Examples.{plain, some, none}
use open_authority_trials_oa.Canonical.Json.{
  end, Fields, field, dict, bool, str, nil, obj, get_field,
}
use open_authority_trials_oa.Prelude.Result.{ok}
use open_authority_trials_oa.Pipeline.FirstWins.{FoundAt, Exhausted, search_lem}
use open_authority_trials_oa.Verifier.V1.{
  SchemaCheck, verify_witness, build_witness, text_at, dict_at,
}
use open_authority_trials_oa.Verifier.V1.Recomputed.{
  disposition_on, IsConfirmed, verify_witness-IsConfirmed_iff,
}
use open_authority_trials_oa.Pipeline.EndToEnd.{verify_witness-build_witness, IsManifestOf, Claims}

abbrev grant : AuthorityInput
grant = record {
  subject = "agent";
  resource_or_beneficiary = "acct:beneficiary-77";
  max_quantity = pos 100;
  unit = "USD_CENTS";
  valid_from = pos 0;
  valid_until = pos 100;
  status = status_active;
}

abbrev race : Variation
race = record {
  check_tick = pos 10;
  revocation_tick = pos 20;
  commit_tick = pos 21;
  propagation_delay = pos 5;
  retry_index = pos 0;
  duplicate_request = true;
}

abbrev early : Variation
early = record race { commit_tick = pos 11 }

abbrev scenario_on : String → Scenario
scenario_on path = record {
  scenario_id = "rb-001-a";
  enforcement_path = path;
  authority = grant;
  action_quantity = pos 50;
  execution_identity = "exec-1";
  baseline = early;
  search_space = [];
}

recheck-never-Fires_example :
    ((allowed (scenario_on "RECHECK_AT_COMMIT") race ≡ true) ↔ (
      (pos 50 ≤ℤ pos 100)
      × (InEffect grant (pos 20) (pos 10) × InEffect grant (pos 20) (effective_commit_tick race))))
    × (¬ Fires (scenario_on "RECHECK_AT_COMMIT") race)
recheck-never-Fires_example = recheck-never-Fires (scenario_on "RECHECK_AT_COMMIT") race refl refl

cached-Fires_iff_example : Fires (scenario_on "CHECK_ONCE_CACHED") race ↔ (
    (pos 50 ≤ℤ pos 100)
    × (InEffect grant (pos 20) (pos 10) × OutOfEffect grant (pos 20) (effective_commit_tick race)))
cached-Fires_iff_example = cached-Fires_iff (scenario_on "CHECK_ONCE_CACHED") race refl

abbrev two_candidates : Adversary
two_candidates = record { propose = λ s. early ∷ race ∷ []; adversary_identity = end }

search_lem_example :
    let s = scenario_on "CHECK_ONCE_CACHED" in
    (r : SearchResult) × ((search_candidates plain s two_candidates ≡ ok r)
      × (FoundAt s 0 0 (early ∷ race ∷ []) r
          ⊎ ((e : Evaluation) × ((evaluate (execute s early) ≡ ok e)
                × Exhausted s 0 (select s 0 early e) (early ∷ race ∷ []) r))))
search_lem_example =
    search_lem plain (scenario_on "CHECK_ONCE_CACHED") two_candidates early (race ∷ []) refl

abbrev accepting : SchemaCheck
accepting = λ document name. []

abbrev run_manifest : Fields
run_manifest = field "scenario" (dict (("id", str "rb-001-a") ∷ [])) (
    field "boundary" (dict (("id", str "RB-001") ∷ []))
      (field "falsifier" (obj (falsifier_identity plain)) end))

abbrev race_witness : Fields
race_witness =
    build_witness plain run_manifest (execute (scenario_on "CHECK_ONCE_CACHED") race)
      (field "counterexample" (bool true) end) end nil 0

verify_witness-IsConfirmed_iff_example :
    ((verify_witness plain accepting race_witness (some run_manifest) none).disposition
      ≡ disposition_on true)
    ↔ IsConfirmed plain accepting race_witness (some run_manifest) none true
verify_witness-IsConfirmed_iff_example =
    verify_witness-IsConfirmed_iff plain accepting race_witness (some run_manifest) none true

abbrev race_evaluation : Evaluation
race_evaluation = (evaluate-execute (scenario_on "CHECK_ONCE_CACHED") race).0

abbrev race_claim : Fields
race_claim = field "counterexample" (bool race_evaluation.counterexample) end

race_manifest : IsManifestOf plain run_manifest (scenario_on "CHECK_ONCE_CACHED")
unfolding text_at dict_at get_field
race_manifest = record { scenario = refl; falsifier = refl }

claim_agrees : Claims race_claim race_evaluation
unfolding truthy get_field
claim_agrees = refl

verify_witness-build_witness_example :
    (verify_witness plain accepting
      (build_witness plain run_manifest
        (execute (scenario_on "CHECK_ONCE_CACHED") race)
        race_claim
        end
        nil
        0)
      (some run_manifest)
      none).disposition
    ≡ disposition_on race_evaluation.counterexample
verify_witness-build_witness_example =
    verify_witness-build_witness plain accepting (scenario_on "CHECK_ONCE_CACHED") race run_manifest
      race_claim end nil 0 race_evaluation race_manifest
      (evaluate-execute (scenario_on "CHECK_ONCE_CACHED") race).1.0 claim_agrees refl refl

replay_run-recorded_example :
    (r : RunReplay) × (replay_run plain accepting
        (scenario_on "CHECK_ONCE_CACHED")
        run_manifest
        (built_witness plain accepting
          (scenario_on "CHECK_ONCE_CACHED")
          race
          race_evaluation
          run_manifest
          end
          nil
          0)
        (recorded plain accepting
          (scenario_on "CHECK_ONCE_CACHED")
          race
          race_evaluation
          run_manifest
          end
          nil
          0)
      ≡ ok r)
    × (replay_ok r ≡ true)
replay_run-recorded_example =
    replay_run-recorded plain accepting (scenario_on "CHECK_ONCE_CACHED") race race_evaluation
      run_manifest end nil 0 (evaluate-execute (scenario_on "CHECK_ONCE_CACHED") race).1.0
