-- ===== src/Examples/Searches.antt =====
-- The properties of the deterministic adversary and of the runs of a sequence, applied.
use open_authority_trials_oa.Prelude.Int.{◌+ℤ◌}
use open_authority_trials_oa.Adversary.Proposals.{grid}
use open_authority_trials_oa.Adversary.{repr_before}
use open_authority_trials_oa.Prelude.{sort_by}
use open_authority_trials_oa.Examples.{plain, [], pos}
use open_authority_trials_oa.ReferenceBoundary.{Scenario, Variation, status_active}
use open_authority_trials_oa.Adversary.{
  propose, variation_at, int_at, axes_of, axes_from, repr_before, codes_before, axis_lists,
  point_of, propose_from, product, prepend_each,
}
use open_authority_trials_oa.Adversary.SearchSpace.{OnGrid, propose-OnGrid_iff}
use open_authority_trials_oa.Adversary.Search.{deterministic, search-grid, FoundOne}
use open_authority_trials_oa.Pipeline.{SearchResult, search_candidates}
use open_authority_trials_oa.Falsifier.Enforcement.{Fires}
use open_authority_trials_oa.Prelude.{
  Elem, ◌∷◌, [], ◌↔◌, ◌≡◌, ◌⊎◌, refl, true, false, none, some, ℕ, arith,
}
use open_authority_trials_oa.Prelude.Result.{ok}
use open_authority_trials_oa.Canonical.Json.{num}
use open_authority_trials_oa.Prelude.Int.{pos}
use open_authority_trials_oa.Sequence.{new_ledger, boundary_failure, pass}
use open_authority_trials_oa.Sequence.Provider.{Environment, connect_failed}
use open_authority_trials_oa.Sequence.Run.{Budgets, Stopped, run_c}
use open_authority_trials_oa.Sequence.Run.Bounds.{IsWithin, run_c-Ends}
use open_authority_trials_oa.Sequence.Stages.{Facts, main, s3}
use open_authority_trials_oa.Sequence.Stages.Entry.{main-entered_iff}
use open_authority_trials_oa.Sequence.Stages.Later.{entered, late_facts}

-- two commits are tried, the first of them in time
abbrev searched : Scenario
searched = record {
  scenario_id = "rb-001-a";
  enforcement_path = "CHECK_ONCE_CACHED";
  authority = record {
    subject = "agent";
    resource_or_beneficiary = "acct:beneficiary-77";
    max_quantity = pos 100;
    unit = "USD_CENTS";
    valid_from = pos 0;
    valid_until = pos 100;
    status = status_active;
  };
  action_quantity = pos 50;
  execution_identity = "exec-1";
  baseline = record {
    check_tick = pos 10;
    revocation_tick = pos 20;
    commit_tick = pos 11;
    propagation_delay = pos 0;
    retry_index = pos 0;
    duplicate_request = false;
  };
  search_space = ("commit_offset", num (pos 1) ∷ num (pos 2) ∷ []) ∷ [];
}

abbrev variation_with : ℕ → Variation
variation_with n = record {
  check_tick = pos 10;
  revocation_tick = pos 20;
  commit_tick = pos n;
  propagation_delay = pos 0;
  retry_index = pos 0;
  duplicate_request = false;
}

searched-proposed : propose 10 searched ≡ ok (variation_with 21 ∷ variation_with 22 ∷ [])
unfolding propose axes_of axes_from axis_lists product prepend_each point_of variation_at int_at
    propose_from repr_before codes_before ◌+ℤ◌
searched-proposed = refl

propose-OnGrid_iff_example :
    Elem (variation_with 22) (variation_with 21 ∷ variation_with 22 ∷ [])
    ↔ OnGrid searched (variation_with 22)
unfolding grid sort_by repr_before
propose-OnGrid_iff_example =
    propose-OnGrid_iff 10 searched (variation_with 21 ∷ variation_with 22 ∷ []) (omega arith)
      searched-proposed (omega arith) (variation_with 22)

search-grid_example :
    (r : SearchResult) × (search_candidates plain searched (deterministic 10) ≡ ok r)
    × (FoundOne searched r ⊎ ((w : Variation) → OnGrid searched w → ¬ Fires searched w))
unfolding grid sort_by repr_before
search-grid_example =
    search-grid plain 10 searched (variation_with 21) (variation_with 22 ∷ []) (omega arith)
      searched-proposed (omega arith)

-- the provider cannot be reached
abbrev unreachable_provider : Environment
unreachable_provider = record {
  respond = λ n. connect_failed;
  expired = λ n. false;
  crossed = λ n. false;
}

abbrev budgets : Budgets
budgets = record {
  max_provider_calls = 40;
  max_target_http_attempts = 20;
  max_consecutive_invalid_model_outputs = 3;
}

run_c-Ends_example :
    (r : Stopped) × (run_c unreachable_provider budgets (new_ledger "auth-004") ≡ some r)
    × IsWithin budgets r.state
unfolding new_ledger
run_c-Ends_example = run_c-Ends unreachable_provider budgets (new_ledger "auth-004") refl

abbrev ready : Facts
ready = record {
  mismatch = none;
  leak_audit = pass;
  output_exists = false;
  control_disposition = boundary_failure;
  seal_discloses = false;
  adversary_state_exists = false;
  reset_checks = true ∷ [];
  reset_leak_audit = pass;
  preflight_required = true;
  preflight_status = pass;
  api_key = "key";
  supplied_authorization = "auth-004";
}

main-entered_iff_example : entered (main ready s3 "auth-004") ≡ late_facts ready s3 "auth-004"
main-entered_iff_example = main-entered_iff ready s3 "auth-004"
