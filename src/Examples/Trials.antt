-- ===== src/Examples/Trials.antt =====
-- The properties of a trial's adjudication, applied.
use open_authority_trials_oa.Trial.{
  AdversaryAssertion, TrialScope, VerifierResult, decide, disposition_counterexample,
  counterexample_validated, covers,
}
use open_authority_trials_oa.Prelude.{String, true, ◌∷◌, none, [], ◌≡◌, ◌↔◌}
use open_authority_trials_oa.Canonical.Json.{end}
use open_authority_trials_oa.Trial.Dispositions.{agree, decide-validated_iff}

abbrev attack : AdversaryAssertion
attack = record {
  attack_id = "attack-1";
  property_id = "P-01";
  claimed_violation = true;
  hypothesis = "a cached decision outlives its authority";
  adversary_identity = end;
}

abbrev register : TrialScope
register = record {
  in_scope_property_ids = "P-01" ∷ [];
  declared_attack_families = "timing" ∷ "retry" ∷ [];
}

abbrev result_with : String → VerifierResult
result_with d = record {
  disposition = d;
  rejection_reason = none;
  evidence_digest = "sha256:0";
  witness_digest = "sha256:1";
}

abbrev confirmed : VerifierResult
confirmed = result_with disposition_counterexample

abbrev clean : VerifierResult
clean = result_with "NO_COUNTEREXAMPLE"

decide-validated_iff_example :
    ((decide attack confirmed (confirmed ∷ []) register none).0 ≡ counterexample_validated) ↔ (
      (covers register "P-01" ≡ true)
      × ((confirmed.disposition ≡ disposition_counterexample)
          × (agree confirmed (confirmed ∷ []) ≡ true)))
decide-validated_iff_example = decide-validated_iff attack confirmed (confirmed ∷ []) register none
