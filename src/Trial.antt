-- ===== src/Trial.antt =====
-- oat/trial.py: what an attack attempt amounts to. The sentences of the reasoning are kept as data.
pub mod Dispositions
use open_authority_trials_oa.Prelude.{
  String, List, contains, Bool, Option, map, if◌then◌else◌, true, false, [], some, ◌==◌, ◌||◌, ◌∷◌,
  ◌&&◌, none, sort_texts, not, ◌++◌, is_empty, ltb, length,
}
use open_authority_trials_oa.Prelude.Int.{ℤ, leb_ℤ}
use open_authority_trials_oa.Paths.{minus, set_of}
use open_authority_trials_oa.Canonical.Json.{Fields}
use open_authority_trials_oa.Prelude.Result.{Result, err, ok}

pub data Disposition : Type 0 where
  counterexample_validated not_a_counterexample unevaluable : Disposition
  outside_scope verifier_conflict coverage_limited : Disposition

pub record AdversaryAssertion : Type 0 where
  pub attack_id : String
  pub property_id : String
  pub claimed_violation : Bool
  pub hypothesis : String
  pub adversary_identity : Fields

pub record TrialScope : Type 0 where
  pub in_scope_property_ids : List String
  pub declared_attack_families : List String

unfoldable pub covers : TrialScope → String → Bool
unfolding contains
covers scope property_id = contains scope.in_scope_property_ids property_id

pub record BudgetState : Type 0 where
  pub attempts_used : ℤ
  pub attempts_allowed : ℤ
  pub families_attempted : List String

unfoldable pub exhausted : BudgetState → Bool
exhausted b = leb_ℤ b.attempts_allowed b.attempts_used

unfoldable pub families_untested : BudgetState → TrialScope → List String
unfolding minus
families_untested b scope = minus scope.declared_attack_families b.families_attempted

-- What the trial reads of a result of V1.
pub record VerifierResult : Type 0 where
  pub disposition : String
  pub rejection_reason : Option String
  pub evidence_digest : String
  pub witness_digest : String

abbrev pub disposition_rejected : String
disposition_rejected = "REJECTED"

abbrev pub disposition_counterexample : String
disposition_counterexample = "COUNTEREXAMPLE_CONFIRMED"

pub data Reasoning : Type 0 where
  not_in_register : String → Reasoning
  evaluations_disagree not_evaluated families_never_attempted : List String → Reasoning
  falsifier_fired falsifier_did_not_fire assertion_not_credited : Reasoning
  attempts_exhausted : ℤ → ℤ → Reasoning

-- The record of an adjudication, without its constant texts and its digest.
pub record Adjudication : Type 0 where
  pub assertion : AdversaryAssertion
  pub verifier_results : List VerifierResult
  pub disposition : Disposition
  pub reasoning : List Reasoning
  pub budget : Option BudgetState
  pub scope : TrialScope

pub data TrialError : Type 0 where
  no_verifier_result : TrialError

-- `str(r.get("rejection_reason"))`
abbrev pub reason_text : Option String → String
reason_text none = "None"
reason_text (some s) = s

abbrev pub reasons_of : List VerifierResult → List String
reasons_of results = set_of (map (λ (r : VerifierResult). reason_text r.rejection_reason) results)

abbrev pub computed_of : List VerifierResult → List String
computed_of results = map (λ (r : VerifierResult). r.disposition) results

-- what the verifiers' common verdict means
unfoldable pub disposition_for : String → List VerifierResult → Disposition × Reasoning
disposition_for verdict results =
    if verdict == disposition_rejected
    then (unevaluable, not_evaluated (sort_texts (reasons_of results)))
    else if verdict == disposition_counterexample
    then (counterexample_validated, falsifier_fired)
    else (not_a_counterexample, falsifier_did_not_fire)

abbrev pub is_negative : Disposition → Bool
is_negative not_a_counterexample = true
is_negative _ = false

abbrev pub is_validated : Disposition → Bool
is_validated counterexample_validated = true
is_validated _ = false

-- `budget.exhausted or untested`
unfoldable pub is_limited : Option BudgetState → TrialScope → Bool
is_limited none scope = false
is_limited (some b) scope = exhausted b || not (is_empty (families_untested b scope))

abbrev pub limits : Option BudgetState → TrialScope → List Reasoning
limits none scope = []
limits (some b) scope =
    (if exhausted b then attempts_exhausted b.attempts_used b.attempts_allowed ∷ [] else [])
    ++ (let untested = families_untested b scope in
        if is_empty untested then [] else families_never_attempted (sort_texts untested) ∷ [])

-- coverage downgrades a negative result only
unfoldable pub downgrade :
    Disposition × Reasoning → Option BudgetState → TrialScope → Disposition × List Reasoning
unfolding is_limited
downgrade (d, reason) budget scope =
    if is_negative d && is_limited budget scope
    then (coverage_limited, reason ∷ limits budget scope)
    else (d, reason ∷ [])

-- the last sentence of the reasoning
abbrev pub credit : AdversaryAssertion → Disposition × List Reasoning → Disposition × List Reasoning
credit assertion (d, reasoning) = (
  d,
  if assertion.claimed_violation && not (is_validated d)
      then reasoning ++ assertion_not_credited ∷ []
      else reasoning,
)

-- The disposition and its reasoning, for at least one result.
unfoldable pub decide :
    AdversaryAssertion
    → VerifierResult
    → List VerifierResult
    → TrialScope
    → Option BudgetState
    → Disposition × List Reasoning
unfolding covers disposition_for downgrade
decide assertion first rest scope budget =
    let computed = set_of (computed_of (first ∷ rest)) in
    if not (covers scope assertion.property_id)
    then (outside_scope, not_in_register assertion.property_id ∷ [])
    else if ltb 1 (length computed)
    then (verifier_conflict, evaluations_disagree (sort_texts computed) ∷ [])
    else credit assertion
        (downgrade (disposition_for first.disposition (first ∷ rest)) budget scope)

unfoldable pub adjudicate_attempt :
    AdversaryAssertion
    → List VerifierResult
    → TrialScope
    → Option BudgetState
    → Result TrialError Adjudication
unfolding decide
adjudicate_attempt assertion [] scope budget = err no_verifier_result
adjudicate_attempt assertion (first ∷ rest) scope budget =
    let decision = decide assertion first rest scope budget in
    ok (record {
      assertion = assertion;
      verifier_results = first ∷ rest;
      disposition = decision.0;
      reasoning = decision.1;
      budget = budget;
      scope = scope;
    })
