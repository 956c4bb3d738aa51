-- ===== src/Examples/Candidates.antt =====
-- The properties of the candidates' targets, runs and selection, applied.
use open_authority_trials_oa.Prelude.{
  Elem, ◌∷◌, [], ◌≡◌, ◌⊎◌, refl, true, false, none, some, String, Any, ℕ,
}
use open_authority_trials_oa.Canonical.Json.{Json, end, field, str, obj}
use open_authority_trials_oa.Qualification.Target.{
  SyntheticTarget, TargetRequest, Commit, counterexamples, new_session, submit_request,
}
use open_authority_trials_oa.Qualification.Target.Flaws.{
  submit_requests, Isolates, counterexamples-Isolates,
}
use open_authority_trials_oa.Qualification.Candidate.{CandidateWorld}
use open_authority_trials_oa.Qualification.Selection.{Gate, select_gate, qualifies}
use open_authority_trials_oa.Qualification.Selection.Best.{IsBest, select_gate_lem}
use open_authority_trials_oa.Sequence.Run.{Budgets}

-- a target whose declared route does not compare the tenant
abbrev tenant_target : SyntheticTarget
tenant_target = record {
  target_id = "target-a";
  declared_routes = record { route_id = "r1"; path = "/pay"; family = "sync" } ∷ [];
  exposed_dimensions = "tenant" ∷ "sink" ∷ [];
  ground_truth = record {
    mechanism = "declared_route_ignores_tenant";
    undeclared_route = record { route_id = "r2"; path = "/batch"; family = "batch" };
    unenforced_dimension = some "tenant";
    valid_authorization = ("tenant", "t-1") ∷ ("sink", "s-1") ∷ [];
  };
}

abbrev other_tenant : TargetRequest
other_tenant = record {
  path = "/pay";
  action = ("tenant", "t-2") ∷ ("sink", "s-1") ∷ [];
  commit_id = none;
}

abbrev crossing : Commit
crossing = record {
  commit_id = "c-1";
  path = "/pay";
  request = other_tenant.action;
  properly_authorized = false;
}

counterexamples-Isolates_example : Isolates tenant_target "tenant" crossing
unfolding counterexamples submit_requests submit_request new_session
counterexamples-Isolates_example =
    counterexamples-Isolates (λ s. s) tenant_target "tenant" (other_tenant ∷ []) crossing refl refl
      refl (Any.head refl)

abbrev asking : Json
asking = obj (
    field "action" (str "REQUEST")
      (field "method" (str "POST") (field "path" (str "/pay") (field "json" (obj end) end))))

abbrev persistent : CandidateWorld
persistent = record {
  transport = λ n. some (some asking);
  expired = λ n. false;
  text_of = λ j. "text";
  strip = λ s. s;
}

abbrev small_budget : Budgets
small_budget = record {
  max_provider_calls = 5;
  max_target_http_attempts = 3;
  max_consecutive_invalid_model_outputs = 2;
}

abbrev gate_with : String → ℕ → Gate
gate_with id solved = record {
  candidate_id = id;
  solved = solved;
  double_dimensions = 10;
  route_family_count = 4;
  double_duplicate_rate = 400000;
  double_unique_rate = 1500000;
  double_calls = some 8;
  conditions = true ∷ [];
}

select_gate_lem_example :
    ((select_gate (gate_with "a" 6 ∷ gate_with "b" 7 ∷ []) ≡ none)
      × ((k : Gate) → Elem k (gate_with "a" 6 ∷ gate_with "b" 7 ∷ []) → qualifies k ≡ false))
    ⊎ ((g : Gate) × (select_gate (gate_with "a" 6 ∷ gate_with "b" 7 ∷ []) ≡ some g)
        × IsBest (gate_with "a" 6 ∷ gate_with "b" 7 ∷ []) g)
select_gate_lem_example = select_gate_lem (gate_with "a" 6 ∷ gate_with "b" 7 ∷ [])
