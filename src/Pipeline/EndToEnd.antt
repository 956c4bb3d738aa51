-- ===== src/Pipeline/EndToEnd.antt =====
-- oat/pipeline.py: what V1 says of the witness that the pipeline builds from a searched candidate.
use open_authority_trials_oa.Prelude.Result.{ok}
use open_authority_trials_oa.Canonical.Digest.{Hashing, digest_object}
use open_authority_trials_oa.Canonical.Json.{Fields, get_field, Items, obj}
use open_authority_trials_oa.ReferenceBoundary.{Scenario, Variation, execute}
use open_authority_trials_oa.Falsifier.{
  Evaluation, truthy, falsifier_identity, evaluate, definition,
}
use open_authority_trials_oa.Verifier.V1.{
  SchemaCheck, text_at, dict_at, build_witness, verify_witness, is_identity, binds_manifest,
  target_scenario,
}
use open_authority_trials_oa.Prelude.{
  ◌≡◌, ℕ, is_empty, true, some, none, refl, eq_iff, ap, ◌∙◌, sym,
}
use open_authority_trials_oa.Verifier.V1.Recomputed.{disposition_on, verify_witness-IsConfirmed_iff}

-- What `build_run_manifest` puts into the manifest of a scenario, as far as V1 reads it.
pub record IsManifestOf (h : Hashing) (manifest : Fields) (s : Scenario) : Type 0 where
  pub scenario : text_at (dict_at manifest "scenario") "id" ≡ s.scenario_id
  pub falsifier : dict_at manifest "falsifier" ≡ falsifier_identity h

-- The claimed evaluation of a witness, as far as V1 reads it.
abbrev pub Claims : Fields → Evaluation → Type 0
Claims claimed e = truthy (get_field claimed "counterexample") ≡ e.counterexample

identity-holds : (h : Hashing) → is_identity h (falsifier_identity h) ≡ true
unfolding is_identity falsifier_identity get_field
identity-holds h = (eq_iff (digest_object h definition) (digest_object h definition)).1 refl

trace-scenario :
    (s : Scenario) (v : Variation) → text_at (execute s v) "scenario_id" ≡ s.scenario_id
unfolding text_at execute get_field
trace-scenario s v = refl

module _ (h : Hashing) (schema : SchemaCheck) (s : Scenario) (v : Variation) where
  -- For a schema check that accepts the witness and its trace, V1 confirms the counterexample of a
  -- witness built from an execution, for the manifest of its scenario and a claim that agrees with
  -- the falsifier, exactly when the execution is a counterexample, and otherwise finds none.
  pub verify_witness-build_witness :
      (manifest claimed adversary : Fields) (transcript : Items) (index : ℕ) (e : Evaluation)
      → IsManifestOf h manifest s
      → evaluate (execute s v) ≡ ok e
      → Claims claimed e
      → is_empty (
          schema
            (obj (build_witness h manifest (execute s v) claimed adversary transcript index))
            "witness")
        ≡ true
      → is_empty (schema (obj (execute s v)) "observable-trace") ≡ true
      → (verify_witness h schema
          (build_witness h manifest (execute s v) claimed adversary transcript index)
          (some manifest)
          none).disposition
        ≡ disposition_on e.counterexample
  unfolding build_witness dict_at get_field text_at binds_manifest target_scenario
  verify_witness-build_witness manifest claimed adversary transcript index e m o c ws ts =
      let w = build_witness h manifest (execute s v) claimed adversary transcript index in
      let id = text_at (dict_at manifest "scenario") "id" in
      let bound = digest_object h (obj manifest) in
      (verify_witness-IsConfirmed_iff h schema w (some manifest) none e.counterexample).1 (record {
        witness_schema = ws;
        trace_schema = ts;
        falsifier = ap (is_identity h) m.falsifier ∙ identity-holds h;
        manifest_bound = (eq_iff bound bound).1 refl;
        scenario_bound = (eq_iff id id).1 refl;
        trace_intact = refl;
        same_scenario = trace-scenario s v ∙ sym m.scenario;
        evaluation = e;
        evaluated = o;
        recomputed = refl;
        claimed = c;
      })
