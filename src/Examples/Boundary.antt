-- ===== src/Examples/Boundary.antt =====
-- The properties of the sink, the validation and the verifier, applied.
use open_authority_trials_oa.Consequence.Sink.{
  submit, receipt_of, interlock_report, InterlockOutcome, refuse, prior_uses,
}
use open_authority_trials_oa.Consequence.Sink.Interlock.{
  Admits, submit_admitted, submit_iff, submit-any_reference,
}
use open_authority_trials_oa.Consequence.Sink.Guarded.{
  submit_all, Covered, Distinct, submit_all-Covered, Attempt,
}
use open_authority_trials_oa.Consequence.Sink.History.{
  IsObserved, arrive_all, new_sink, guarded, unguarded, arrive_all-new_sink-IsObserved,
}
use open_authority_trials_oa.Authority.Authorization.{valid, mismatches}
use open_authority_trials_oa.Verifier.Consequence.{
  adjudicate, receipt_for, no_boundary_counterexample, consequence_boundary_failure,
}
use open_authority_trials_oa.Scenarios.{
  base_action, fresh_sink, base_issuer, make_commit, payment_sink, first_epoch, base_authority,
}
use open_authority_trials_oa.Consequence.Model.{NormalizedAction}
use open_authority_trials_oa.Examples.{
  plain, granted, payment, paid_evidence, unclaimed, some, base_issuer, pos, token, none,
  payment_sink, base_authority, [],
}
use open_authority_trials_oa.Authority.Authorization.Validate.{validate_authorization}
use open_authority_trials_oa.Prelude.{
  ◌≢◌, some, ◌≡◌, false≢true, keep, none, eq_iff, refl, true, ◌↔◌, [], contains, ◌∷◌, false, All,
  List,
}
use open_authority_trials_oa.Prelude.Int.{pos}
use open_authority_trials_oa.Evidence.Replay.Guarded.{payment_admitted}
use open_authority_trials_oa.Authority.Authorization.Meaning.{
  Authorized, validate_authorization_iff,
}
use open_authority_trials_oa.Verifier.Consequence.Verdict.{
  IsClean, HasCrossing, adjudicate-IsClean_iff, adjudicate-crossing_iff,
}
use open_authority_trials_oa.Authority.CurrentState.{at}

submit_iff_example :
    ((submit plain payment (some granted) token fresh_sink).1.outcome ≡ InterlockOutcome.admitted)
    ↔ ((contains fresh_sink.seen_idempotency payment.idempotency_key ≡ false)
        × Authorized plain
            (some granted)
            payment
            (at fresh_sink.authority payment.committed_at)
            (some fresh_sink.issuer)
            (prior_uses (some granted) fresh_sink.issuer)
            token)
submit_iff_example = submit_iff plain payment (some granted) token fresh_sink

submit_admitted_example :
    Admits granted payment fresh_sink (submit plain payment (some granted) token fresh_sink).0
submit_admitted_example =
    submit_admitted plain payment granted token fresh_sink
      (payment_admitted plain "commit-0001" "route.api-guarded")

refused_without : (submit plain payment none none fresh_sink).1.outcome ≡ InterlockOutcome.refused
unfolding submit fresh_sink interlock_report validate_authorization valid keep mismatches refuse
refused_without = refl

-- a granted payment, and the same one without its authorization
abbrev two_attempts : List Attempt
two_attempts =
    record { commit = payment; authorization = some granted; token = token }
    ∷ record { commit = payment; authorization = none; token = none }
    ∷ []

submit_all-Covered_example :
    let s = submit_all plain (new_sink payment_sink base_authority base_issuer) two_attempts in
    All
      (Covered plain base_authority base_issuer
        (new_sink payment_sink base_authority base_issuer)
        two_attempts)
      s.commits
    × Distinct s.commits
submit_all-Covered_example =
    submit_all-Covered plain base_authority base_issuer payment_sink two_attempts

arrive_all-new_sink-IsObserved_example : IsObserved (
    arrive_all plain
      (new_sink payment_sink base_authority base_issuer)
      (guarded payment (some granted) token ∷ unguarded unclaimed ∷ []))
arrive_all-new_sink-IsObserved_example =
    arrive_all-new_sink-IsObserved plain payment_sink base_authority base_issuer
      (guarded payment (some granted) token ∷ unguarded unclaimed ∷ [])

validate_authorization_iff_example :
    (valid (
        validate_authorization plain
          (some granted)
          payment
          (some first_epoch)
          (some base_issuer)
          (some (pos 1))
          token)
      ≡ true)
    ↔ Authorized plain
        (some granted)
        payment
        (some first_epoch)
        (some base_issuer)
        (some (pos 1))
        token
validate_authorization_iff_example =
    validate_authorization_iff plain (some granted) payment (some first_epoch) (some base_issuer)
      (some (pos 1)) token

adjudicate-IsClean_iff_example :
    ((adjudicate plain paid_evidence).disposition ≡ no_boundary_counterexample)
    ↔ IsClean plain paid_evidence
adjudicate-IsClean_iff_example = adjudicate-IsClean_iff plain paid_evidence

adjudicate-crossing_iff_example :
    ((adjudicate plain paid_evidence).disposition ≡ consequence_boundary_failure)
    ↔ ((paid_evidence.instrument_failures ≡ []) × HasCrossing plain paid_evidence)
adjudicate-crossing_iff_example = adjudicate-crossing_iff plain paid_evidence

receipt_there : receipt_for paid_evidence unclaimed.commit_id ≡ some (receipt_of 1 payment)
unfolding receipt_for receipt_of make_commit
receipt_there = refl

abbrev intruder : NormalizedAction → NormalizedAction
intruder a = record a { principal_id = "principal.intruder" }

other_principal : (intruder base_action).principal_id ≢ base_action.principal_id
other_principal e = absurd (false≢true ((eq_iff "principal.intruder" base_action.principal_id).1 e))

submit-any_reference_example :
    (submit plain unclaimed (some granted) token fresh_sink).1
    ≡ (submit plain payment (some granted) token fresh_sink).1
submit-any_reference_example =
    submit-any_reference plain payment none (some granted) token fresh_sink
