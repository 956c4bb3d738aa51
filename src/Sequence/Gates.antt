-- ===== src/Sequence/Gates.antt =====
-- tools/oat_consequence_sequence_runner_004.py: the gates of S3, execution and closure.
use native.Mathlib.Omega.{arith}
use open_authority_trials_oa.Sequence.{
  GateState, blockers, enter_s3, assert_s3_eligible, pass, blocked_by, AuthorizationLedger,
  established, ok, fail_closed_verdict, Fields, run_execution_established, runtime_of, set_field, ℤ,
  observed_set, truthy, verdict_for, harness_reasons, is_zero, boundary_failure,
}
use open_authority_trials_oa.Prelude.{
  List, Bool, ◌≡◌, String, is_empty, ◌++◌, ◌==◌, ◌&&◌, true, ◌↔◌, false, ◌∷◌, [], refl, eq_iff,
  Option, if◌then◌else◌, some, not, ap, sym, ◌∙◌,
}
use open_authority_trials_oa.Prelude.Result.{ok}
use open_authority_trials_oa.Canonical.Json.{Fields, Json, get_field, str}
use open_authority_trials_oa.Evidence.Package.{set_field}
use open_authority_trials_oa.Prelude.Int.{ℤ, pos, ◌<ℤ◌}
use open_authority_trials_oa.Evidence.Package.Tampering.{get-set}
use open_authority_trials_oa.Falsifier.{truthy, is_text_value, or_null}

-- Every gate holds what S3 needs.
pub record IsOpen (g : GateState) : Type 0 where
  pub preflight : g.s0_preflight ≡ pass
  pub sensitivity : g.pc_sensitivity ≡ established
  pub sealed : g.pc_evidence_sealed ≡ true
  pub separation : g.state_separation ≡ established
  pub isolation : g.adversary_context_isolation ≡ pass
  pub provider : g.provider_preflight ≡ pass

is_empty-append : (xs ys : List String) → is_empty (xs ++ ys) ≡ (is_empty xs && is_empty ys)
is_empty-append [] ys = refl
is_empty-append (x ∷ xs) ys = refl

is_empty-blocked_by : (holds : Bool) (text : String) → is_empty (blocked_by holds text) ≡ holds
is_empty-blocked_by true text = refl
is_empty-blocked_by false text = refl

no_blockers :
    (g : GateState)
    → is_empty (blockers g) ≡ (
        (g.s0_preflight == pass)
        && (g.pc_sensitivity == established)
        && g.pc_evidence_sealed
        && (g.state_separation == established)
        && (g.adversary_context_isolation == pass)
        && (g.provider_preflight == pass))
unfolding blockers
no_blockers g = ground arith

-- S3 is entered exactly when every gate holds what it needs and the owner's authorization is not
-- consumed yet.
pub enter_s3-IsOpen_iff :
    (g : GateState) (l : AuthorizationLedger)
    → (enter_s3 g l ≡ ok tt) ↔ (IsOpen g × (l.consumed ≡ false))
unfolding enter_s3 assert_s3_eligible
enter_s3-IsOpen_iff g l = (
  λ e.
      let b : is_empty (blockers g) ≡ true = ground (arith, e) in
      let f : l.consumed ≡ false = ground (arith, e) in
      (
        record {
          preflight = ground (arith, b, no_blockers g, eq_iff g.s0_preflight pass);
          sensitivity = ground (arith, b, no_blockers g, eq_iff g.pc_sensitivity established);
          sealed = ground (arith, b, no_blockers g);
          separation = ground (arith, b, no_blockers g, eq_iff g.state_separation established);
          isolation = ground (arith, b, no_blockers g, eq_iff g.adversary_context_isolation pass);
          provider = ground (arith, b, no_blockers g, eq_iff g.provider_preflight pass);
        },
        f,
      ),
  λ (w, f).
      let b : is_empty (blockers g) ≡ true = ground (
        arith,
        no_blockers g,
        eq_iff g.s0_preflight pass,
        eq_iff g.pc_sensitivity established,
        eq_iff g.state_separation established,
        eq_iff g.adversary_context_isolation pass,
        eq_iff g.provider_preflight pass,
        w.preflight,
        w.sensitivity,
        w.sealed,
        w.separation,
        w.isolation,
        w.provider,
      ) in
      ground (arith, b, f),
)

-- The verdict says that the run was executed exactly when there is no reason against it.
status-verdict_for :
    (subject : Fields) (reasons : List String)
    → is_text_value
        (some (or_null (get_field (verdict_for subject reasons) "instrument_status")))
        "EXECUTED"
      ≡ is_empty reasons
unfolding verdict_for
status-verdict_for subject [] =
    rw
      (
        get-set (set_field subject "instrument_status" (str "EXECUTED")) "subject_result"
            (str (
              if is_text_value (get_field subject "disposition") boundary_failure
              then "COUNTEREXAMPLE_FOUND"
              else "ESTABLISHED_WITHIN_EXERCISED_SCOPE"))
            "instrument_status",
        get-set subject "instrument_status" (str "EXECUTED") "instrument_status",
      )
      refl
status-verdict_for subject (r ∷ reasons) = unfold get_field in refl

is_empty-harness_reasons :
    (observed : Option Json) (attempts : ℤ) (terminal : Bool)
    → is_empty (harness_reasons observed attempts terminal)
      ≡ (not terminal && not (is_zero attempts) && truthy observed)
unfolding harness_reasons
is_empty-harness_reasons observed attempts terminal = ground arith

verdict-observed :
    (subject verdict : Fields) (observed : Option Json) (attempts : ℤ) (terminal : Bool)
    → observed_set subject ≡ some observed
    → fail_closed_verdict subject attempts terminal ≡ some verdict
    → verdict_for subject (harness_reasons observed attempts terminal) ≡ verdict
unfolding fail_closed_verdict
verdict-observed subject verdict observed attempts terminal o v = ground (arith, o, v)

-- A run of S3 counts as executed exactly when no terminal provider failure happened, the target was
-- attempted at least once, and the verifier's verdict shows an exercised path.
pub run_execution_established-fail_closed_verdict_iff :
    (subject verdict : Fields) (observed : Option Json) (attempts calls : ℤ) (terminal : Bool)
    → observed_set subject ≡ some observed
    → fail_closed_verdict subject attempts terminal ≡ some verdict
    → (run_execution_established (some (runtime_of verdict attempts calls)) ≡ true)
      ↔ ((terminal ≡ false) × ((pos 0 <ℤ attempts) × (truthy observed ≡ true)))
unfolding run_execution_established runtime_of
run_execution_established-fail_closed_verdict_iff subject verdict observed attempts calls terminal o
      v =
    let executed : is_text_value (some (or_null (get_field verdict "instrument_status"))) "EXECUTED"
        ≡ (not terminal && not (is_zero attempts) && truthy observed) =
      ap (λ w. is_text_value (some (or_null (get_field w "instrument_status"))) "EXECUTED")
        (sym (verdict-observed subject verdict observed attempts terminal o v))
      ∙ status-verdict_for subject (harness_reasons observed attempts terminal)
      ∙ is_empty-harness_reasons observed attempts terminal in
    rw executed (λ e. ground (arith, e), λ (t, (p, q)). ground (arith, t, p, q))
