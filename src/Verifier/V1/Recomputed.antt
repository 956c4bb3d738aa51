-- ===== src/Verifier/V1/Recomputed.antt =====
-- oat/verifier/v1.py: what a result that is no rejection rests on.
use native.Mathlib.Omega.{arith}
use open_authority_trials_oa.Prelude.Result.{ok, Result, err}
use open_authority_trials_oa.Canonical.Digest.{Hashing, digest_object}
use open_authority_trials_oa.Prelude.{
  Bool, Option, ◌≡◌, String, true, is_empty, ◌==◌, ◌↔◌, false, eq_iff, some, ◌≢◌, inl, refl, sym,
  ◌⊎◌, ◌∙◌, inr, ap,
}
use open_authority_trials_oa.Verifier.V1.{
  is_identity, SchemaCheck, V1Disposition, text_at, counterexample_confirmed, Fields,
  no_counterexample, conclude_claim, verify_trace, verify_witness, reject, Evaluation, dict_at,
  binds_manifest, is_target, evaluate_claim, target_scenario, V1Result,
}
use open_authority_trials_oa.Canonical.Json.{Fields, obj, get_field, Json, str}
use open_authority_trials_oa.Falsifier.{
  Evaluation, falsifier_version, truthy, evaluate, is_text_value, FalsifierError,
}

-- Everything that V1 checks of a witness, the adversary's claim included.
pub record IsConfirmed (h : Hashing) (schema : SchemaCheck) (witness : Fields)
    (manifest : Option Fields) (scenario_id : Option String) (b : Bool) : Type 0 where
  pub witness_schema : is_empty (schema (obj witness) "witness") ≡ true
  pub trace_schema : is_empty (schema (obj (dict_at witness "trace")) "observable-trace") ≡ true
  pub falsifier : is_identity h (dict_at witness "falsifier") ≡ true
  pub manifest_bound : binds_manifest h schema manifest witness ≡ true
  pub scenario_bound :
      is_target (target_scenario manifest scenario_id) (text_at witness "scenario_id") ≡ true
  pub trace_intact :
      digest_object h (obj (dict_at witness "trace")) ≡ text_at witness "trace_digest"
  pub same_scenario :
      text_at (dict_at witness "trace") "scenario_id" ≡ text_at witness "scenario_id"
  pub evaluation : Evaluation
  pub evaluated : evaluate (dict_at witness "trace") ≡ ok evaluation
  pub recomputed : evaluation.counterexample ≡ b
  pub claimed : truthy (get_field (dict_at witness "claimed_evaluation") "counterexample") ≡ b

-- The disposition for a recomputed result.
abbrev pub disposition_on : Bool → V1Disposition
disposition_on true = counterexample_confirmed
disposition_on false = no_counterexample

is_identity-version :
    (h : Hashing) (claim : Fields)
    → is_identity h claim ≡ true
    → (text_at claim "version" == falsifier_version) ≡ true
unfolding is_identity text_at
is_identity-version h claim i = version_text (get_field claim "version") (ground (arith, i))
  where
    version_text :
        (v : Option Json)
        → is_text_value v falsifier_version ≡ true
        → (elim v [ some (str s) ↦ s | _ ↦ "" ] == falsifier_version) ≡ true
    version_text v t = ground (arith, t)

module _ (h : Hashing) (schema : SchemaCheck) (witness : Fields) where
  claim_iff :
      (e : Evaluation) (b : Bool)
      → ((conclude_claim h schema witness e).disposition ≡ disposition_on b) ↔ (
          (e.counterexample ≡ b)
          × (truthy (get_field (dict_at witness "claimed_evaluation") "counterexample") ≡ b))
  unfolding conclude_claim
  claim_iff e true = (λ d. ground arith, λ (p, q). ground (arith, p, q))
  claim_iff e false = (λ d. ground arith, λ (p, q). ground (arith, p, q))

  trace_iff :
      (b : Bool)
      → ((verify_trace h schema witness).disposition ≡ disposition_on b) ↔ (
          (is_empty (schema (obj (dict_at witness "trace")) "observable-trace") ≡ true)
          × ((digest_object h (obj (dict_at witness "trace")) ≡ text_at witness "trace_digest")
              × ((text_at (dict_at witness "trace") "scenario_id" ≡ text_at witness "scenario_id")
                  × ((evaluate_claim h schema witness).disposition ≡ disposition_on b))))
  unfolding verify_trace reject
  trace_iff true = (
    λ d. ground (
      arith,
      eq_iff (digest_object h (obj (dict_at witness "trace"))) (text_at witness "trace_digest"),
      eq_iff (text_at (dict_at witness "trace") "scenario_id") (text_at witness "scenario_id"),
    ),
    λ (p, (q, (r, s))). ground (
      arith,
      p,
      q,
      r,
      s,
      eq_iff (digest_object h (obj (dict_at witness "trace"))) (text_at witness "trace_digest"),
      eq_iff (text_at (dict_at witness "trace") "scenario_id") (text_at witness "scenario_id"),
    ),
  )
  trace_iff false = (
    λ d. ground (
      arith,
      eq_iff (digest_object h (obj (dict_at witness "trace"))) (text_at witness "trace_digest"),
      eq_iff (text_at (dict_at witness "trace") "scenario_id") (text_at witness "scenario_id"),
    ),
    λ (p, (q, (r, s))). ground (
      arith,
      p,
      q,
      r,
      s,
      eq_iff (digest_object h (obj (dict_at witness "trace"))) (text_at witness "trace_digest"),
      eq_iff (text_at (dict_at witness "trace") "scenario_id") (text_at witness "scenario_id"),
    ),
  )

  witness_iff :
      (manifest : Option Fields) (scenario_id : Option String) (b : Bool)
      → ((verify_witness h schema witness manifest scenario_id).disposition ≡ disposition_on b) ↔ (
          (is_empty (schema (obj witness) "witness") ≡ true)
          × ((is_identity h (dict_at witness "falsifier") ≡ true)
              × ((binds_manifest h schema manifest witness ≡ true)
                  × ((is_target
                          (target_scenario manifest scenario_id)
                          (text_at witness "scenario_id")
                        ≡ true)
                      × ((verify_trace h schema witness).disposition ≡ disposition_on b)))))
  unfolding verify_witness reject
  witness_iff manifest scenario_id true = (
    λ d. ground arith,
    λ (p, (q, (r, (s, t)))).
        ground (arith, p, q, r, s, t, is_identity-version h (dict_at witness "falsifier") q),
  )
  witness_iff manifest scenario_id false = (
    λ d. ground arith,
    λ (p, (q, (r, (s, t)))).
        ground (arith, p, q, r, s, t, is_identity-version h (dict_at witness "falsifier") q),
  )

evaluation_cases :
    (r : Result FalsifierError Evaluation)
    → ((e : FalsifierError) × (r ≡ err e)) ⊎ ((e : Evaluation) × (r ≡ ok e))
evaluation_cases (ok e) = inr (e, refl)
evaluation_cases (err e) = inl (e, refl)

rejected≢ : (b : Bool) → V1Disposition.rejected ≢ disposition_on b
rejected≢ true e = ground (arith, e)
rejected≢ false e = ground (arith, e)

module _ (h : Hashing) (schema : SchemaCheck) (witness : Fields) where
  evaluate_claim-ok :
      (e : Evaluation)
      → evaluate (dict_at witness "trace") ≡ ok e
      → evaluate_claim h schema witness ≡ conclude_claim h schema witness e
  unfolding evaluate_claim
  evaluate_claim-ok e o = rw (evaluate_claim, o) refl

  evaluate_claim-err :
      (e : FalsifierError)
      → evaluate (dict_at witness "trace") ≡ err e
      → (evaluate_claim h schema witness).disposition ≡ V1Disposition.rejected
  unfolding evaluate_claim reject
  evaluate_claim-err e o = rw (evaluate_claim, o) refl

  -- V1 confirms a counterexample, or finds none, exactly when the witness and its trace satisfy
  -- their schemas, it names the local falsifier, the expected manifest and scenario, its trace has
  -- the digest and the scenario that it is bound to, the falsifier recomputed on the trace says so,
  -- and the adversary's claim says the same.
  pub verify_witness-IsConfirmed_iff :
      (manifest : Option Fields) (scenario_id : Option String) (b : Bool)
      → ((verify_witness h schema witness manifest scenario_id).disposition ≡ disposition_on b)
        ↔ IsConfirmed h schema witness manifest scenario_id b
  verify_witness-IsConfirmed_iff manifest scenario_id b =
      let (i, j) = witness_iff h schema witness manifest scenario_id b in
      let (k, l) = trace_iff h schema witness b in
      (
        λ d.
            let (w, (f, (m, (s, t)))) = i d in
            let (ts, (td, (same, ev))) = k t in
            elim (evaluation_cases (evaluate (dict_at witness "trace"))) [
              | inl (e, o) ↦ absurd (rejected≢ b (sym (evaluate_claim-err e o) ∙ ev))
              | inr (e, o) ↦
                  let (p, q) =
                    (claim_iff h schema witness e b).0
                      (ap (λ (r : V1Result). r.disposition) (sym (evaluate_claim-ok e o)) ∙ ev) in
                  record {
                    witness_schema = w;
                    trace_schema = ts;
                    falsifier = f;
                    manifest_bound = m;
                    scenario_bound = s;
                    trace_intact = td;
                    same_scenario = same;
                    evaluation = e;
                    evaluated = o;
                    recomputed = p;
                    claimed = q;
                  }
            ],
        λ c. j (
          c.witness_schema,
          (
            c.falsifier,
            (
              c.manifest_bound,
              (
                c.scenario_bound,
                l (
                  c.trace_schema,
                  (
                    c.trace_intact,
                    (
                      c.same_scenario,
                      ap (λ (r : V1Result). r.disposition)
                            (evaluate_claim-ok c.evaluation c.evaluated)
                          ∙ (claim_iff h schema witness c.evaluation b).1 (c.recomputed, c.claimed),
                    ),
                  ),
                ),
              ),
            ),
          ),
        ),
      )
