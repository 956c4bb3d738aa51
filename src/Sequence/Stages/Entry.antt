-- ===== src/Sequence/Stages/Entry.antt =====
-- tools/oat_consequence_sequence_runner_004.py: when main enters S3.
use native.Mathlib.Omega.{arith}
use open_authority_trials_oa.Sequence.Stages.{
  Shared, Bool, Facts, StopAfter, after_s1, reaches_s3, s0, s1, s1a, s2, s3, s4, status_if,
  s0_failures, main, is_s0, new_gates, run_s0, run_s1,
}
use open_authority_trials_oa.Prelude.{
  Bool, ◌==◌, true, ◌&&◌, ◌≡◌, false, not, String, ◌∙◌, Bool-cases, inr, ◌⊎◌, inl, refl, ap,
  is_none, is_empty, none, Option-cases,
}
use open_authority_trials_oa.Sequence.{
  pass, note, new_ledger, AuthorizationLedger, boundary_failure,
}
use open_authority_trials_oa.Sequence.Stages.Later.{
  preflight_passes, entered, late_facts, established_if-test, after_s1-entered, separates,
}

status_if-test : (b : Bool) → (status_if b == pass) ≡ b
status_if-test true = refl
status_if-test false = refl

s0_failures-none :
    (f : Facts) (l : AuthorizationLedger)
    → l.consumed ≡ false
    → is_empty (s0_failures f l) ≡ (f.leak_audit == pass && not f.output_exists)
unfolding s0_failures
s0_failures-none f l fresh = ground arith

-- The state after S0, when no identity mismatches.
abbrev checked_state : Facts → String → Shared
unfolding note new_ledger
checked_state f id =
    let noted = note "s0_entered" "S0" (new_ledger id) in
    record {
      gates = record new_gates {
        s0_preflight = status_if (is_empty (s0_failures f noted));
        adversary_context_isolation = f.leak_audit;
      };
      ledger = noted;
    }

checked_state-passes :
    (f : Facts) (id : String)
    → ((checked_state f id).gates.s0_preflight == pass)
      ≡ (f.leak_audit == pass && not f.output_exists)
unfolding checked_state note new_ledger
checked_state-passes f id = status_if-test _ ∙ s0_failures-none f (checked_state f id).ledger refl

main-checked :
    (f : Facts) (stop : StopAfter) (id : String)
    → f.mismatch ≡ none
    → entered (main f stop id) ≡ (
        (checked_state f id).gates.s0_preflight == pass
        && (not (is_s0 stop) && entered (after_s1 f stop (run_s1 f (checked_state f id)))))
unfolding main run_s0 checked_state
main-checked f stop id e = rw e (ground arith)

s0-cases : (stop : StopAfter) → (is_s0 stop ≡ false) ⊎ (reaches_s3 stop ≡ false)
s0-cases s0 = inr refl
s0-cases s1 = inl refl
s0-cases s1a = inl refl
s0-cases s2 = inl refl
s0-cases s3 = inl refl
s0-cases s4 = inl refl

without_s0 :
    (z x a b c d r e : Bool)
    → (z ≡ false) ⊎ (r ≡ false)
    → (not z && (x && (a && (b && (c && (d && (r && e)))))))
      ≡ (x && (a && (b && (c && (d && (r && e))))))
without_s0 z x a b c d r e (inl h) = ground arith
without_s0 z x a b c d r e (inr h) = ground arith

from_s1 :
    (f : Facts) (stop : StopAfter) (id : String)
    → ((checked_state f id).gates.s0_preflight == pass) ≡ true
    → (not (is_s0 stop) && entered (after_s1 f stop (run_s1 f (checked_state f id))))
      ≡ (f.control_disposition == boundary_failure && late_facts f stop id)
unfolding run_s1 checked_state note new_ledger late_facts
from_s1 f stop id checked =
    ap (λ b. not (is_s0 stop) && b)
      (after_s1-entered f stop (run_s1 f (checked_state f id)) refl checked
        ∙ ap (λ b. b && late_facts f stop id)
            (established_if-test (f.control_disposition == boundary_failure)))
    ∙ without_s0 (is_s0 stop) (f.control_disposition == boundary_failure) (not f.seal_discloses)
        (not f.adversary_state_exists) (separates f) (preflight_passes f) (reaches_s3 stop)
        (not (f.api_key == "") && f.supplied_authorization == id) (s0-cases stop)

after_checked :
    (f : Facts) (stop : StopAfter) (id : String)
    → ((checked_state f id).gates.s0_preflight == pass
        && (not (is_s0 stop) && entered (after_s1 f stop (run_s1 f (checked_state f id)))))
      ≡ ((checked_state f id).gates.s0_preflight == pass
          && (f.control_disposition == boundary_failure && late_facts f stop id))
after_checked f stop id = elim (Bool-cases ((checked_state f id).gates.s0_preflight == pass)) [
  | inr q ↦ rw q refl
  | inl q ↦ rw (q, from_s1 f stop id q) refl
]

and_assoc : (a b c : Bool) → ((a && b) && c) ≡ (a && (b && c))
and_assoc a b c = ground arith

-- S3 is entered exactly when every stage before it succeeds: no frozen identity mismatches, the
-- adversary's context leaks nothing, the output is fresh, the positive control is a boundary failure
-- whose seal discloses nothing, the fresh state is separated from it, the provider's preflight passes
-- if it is required, and the run is asked for with a credential and the owner's authorization.
pub main-entered_iff :
    (f : Facts) (stop : StopAfter) (id : String)
    → entered (main f stop id) ≡ (
        is_none f.mismatch
        && (f.leak_audit == pass
            && (not f.output_exists
                && (f.control_disposition == boundary_failure && late_facts f stop id))))
main-entered_iff f stop id = elim (Option-cases f.mismatch) [
  | inr (what, e) ↦ unfold main run_s0 in rw e refl
  | inl e ↦
      main-checked f stop id e
      ∙ after_checked f stop id
      ∙ ap (λ b. b && (f.control_disposition == boundary_failure && late_facts f stop id))
          (checked_state-passes f id)
      ∙ and_assoc (f.leak_audit == pass) (not f.output_exists)
          (f.control_disposition == boundary_failure && late_facts f stop id)
      ∙ rw e refl
]
