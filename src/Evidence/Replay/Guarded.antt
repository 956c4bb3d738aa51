-- ===== src/Evidence/Replay/Guarded.antt =====
-- oat/evidence/replay.py: the guarded payment of oat/consequence/scenarios.py.
use native.Mathlib.Omega.{arith}
use open_authority_trials_oa.Canonical.Digest.{Hashing}
use open_authority_trials_oa.Authority.Authorization.{
  Authorization, sign, token_digest, mac, payload, use_count, record_use,
}
use open_authority_trials_oa.Prelude.{
  String, some, inr, refl, ◌≡◌, ap, contains, false≢true, eq_iff, [], Elem, keep, Any, ◌∷◌,
  sort_texts, subst, sym,
}
use open_authority_trials_oa.Scenarios.{
  make_authorization, base_issuer, default_terms, make_commit, base_action, base_authority,
  first_epoch, fresh_sink, ScenarioResult, result_of,
}
use open_authority_trials_oa.Consequence.Model.{CommitEvent}
use open_authority_trials_oa.Scenarios.Runs.{
  base_digest, present, run_on, with_evidence, scenario_guarded_valid,
}
use open_authority_trials_oa.Authority.CurrentState.{
  state_digest, at, add, status_of, at_from, sort_from, insert_epoch, AuthorityStore,
}
use open_authority_trials_oa.Prelude.Int.{pos, ◌+ℤ◌, ℤ}
use open_authority_trials_oa.Authority.Authorization.Meaning.{ValidAuthorization}
use open_authority_trials_oa.Consequence.Sink.{
  prior_uses, admit, PaymentLedgerSink, InterlockDecision, submit, InterlockOutcome, append_commit,
  receipt_of,
}
use open_authority_trials_oa.Prelude.Dict.{get_or, get, Dict, put}
use open_authority_trials_oa.Consequence.Sink.Interlock.{submit-eq-admit, submit_iff}
use open_authority_trials_oa.Verifier.Consequence.{
  ConsequenceEvidence, no_boundary_counterexample, receipt_for, held_authorization, unknown_paths,
}
use open_authority_trials_oa.Evidence.Replay.{
  evidence_from_scenario, disposition_of, reconcile, observations_from_sink,
}
use open_authority_trials_oa.Verifier.Consequence.Verdict.{IsClean, adjudicate-IsClean_iff}
use open_authority_trials_oa.Paths.{
  reconcile, minus, observations_from_sink, count_routes, set_of, route_ids,
}
use open_authority_trials_oa.Verifier.Consequence.Findings.{Established, AuthorizedBy}

module _ (h : Hashing) where
  abbrev pub payment_authorization : Authorization
  payment_authorization =
      make_authorization h base_issuer (default_terms (base_digest h) (state_digest h first_epoch))

  abbrev pub payment_commit : String → String → CommitEvent
  payment_commit commit_id route_id =
      make_commit h commit_id route_id base_action (pos 10)
        (some payment_authorization.authorization_id) (some (state_digest h first_epoch))
        "idem-0001"

  pub payment-valid :
      (commit_id route_id : String) (uses : Dict ℤ)
      → ValidAuthorization h payment_authorization
          (payment_commit commit_id route_id)
          (at base_authority (pos 10))
          (some (record base_issuer { uses = uses }))
          (some (pos 1))
          (some (token_digest h payment_authorization))
  unfolding make_authorization sign make_commit base_authority at add status_of token_digest mac
      payload at_from sort_from insert_epoch contains
  payment-valid commit_id route_id uses = record {
    allowed = refl;
    tenant = inr refl;
    principal = inr refl;
    agent = inr refl;
    release = inr refl;
    action = inr refl;
    sink = inr refl;
    idempotency = inr refl;
    scoped = λ e. absurd (false≢true ((eq_iff "payment.transfer" "").1 e));
    integrity = refl;
    begun = omega arith;
    not_over = omega arith;
    authority = (inr refl, refl);
    delegation = tt;
    uses_left = omega arith;
    correlated = inr refl;
  }

  -- The submission of the guarded payment is admitted.
  pub payment_admitted :
      (commit_id route_id : String)
      → (submit h
          (payment_commit commit_id route_id)
          (some payment_authorization)
          (some (token_digest h payment_authorization))
          fresh_sink).1.outcome
        ≡ InterlockOutcome.admitted
  unfolding fresh_sink make_authorization sign make_commit prior_uses use_count get_or get ◌+ℤ◌
      contains
  payment_admitted commit_id route_id =
      (submit_iff h (payment_commit commit_id route_id) (some payment_authorization)
          (some (token_digest h payment_authorization)) fresh_sink).1
        (refl, payment-valid commit_id route_id [])

  -- The sink after the guarded payment.
  paid_sink :
      (commit_id route_id : String)
      → present h (payment_commit commit_id route_id) payment_authorization fresh_sink
        ≡ (admit (some payment_authorization) (payment_commit commit_id route_id) fresh_sink).0
  paid_sink commit_id route_id =
      ap (λ (r : PaymentLedgerSink × InterlockDecision). r.0)
        (submit-eq-admit h (payment_commit commit_id route_id) (some payment_authorization)
          (some (token_digest h payment_authorization)) fresh_sink
          (payment_admitted commit_id route_id))

  abbrev paid_result : String → String → String → String → ScenarioResult
  paid_result name commit_id route_id notes =
      let commit = payment_commit commit_id route_id in
      record (with_evidence h commit payment_authorization
        (result_of name (admit (some payment_authorization) commit fresh_sink).0)) { notes = notes }

  run_on-paid :
      (name commit_id route_id notes : String)
      → run_on h name commit_id route_id notes first_epoch
        ≡ paid_result name commit_id route_id notes
  unfolding run_on
  run_on-paid name commit_id route_id notes =
      ap
        (λ s.
          record (with_evidence h (payment_commit commit_id route_id) payment_authorization
            (result_of name s)) { notes = notes })
        (paid_sink commit_id route_id)

  abbrev guarded_evidence : ConsequenceEvidence
  guarded_evidence =
      evidence_from_scenario
        (paid_result "guarded-valid" "commit-0001" "route.api-guarded" "valid guarded commit")

  declared_only : unknown_paths guarded_evidence.reconciliation ≡ []
  unfolding evidence_from_scenario admit append_commit fresh_sink make_commit reconcile minus
      observations_from_sink count_routes keep contains set_of route_ids sort_texts put get get_or
  declared_only = refl

  covered_payment :
      let c = payment_commit "commit-0001" "route.api-guarded" in
      (authority : AuthorityStore) × Established guarded_evidence c authority
      × AuthorizedBy h guarded_evidence authority c
  unfolding evidence_from_scenario admit append_commit fresh_sink record_use make_commit receipt_for
      held_authorization get receipt_of make_authorization sign use_count get_or put ◌+ℤ◌
  covered_payment = (
    base_authority,
    record { store = refl; receipt = refl; reference = refl },
    payment-valid "commit-0001" "route.api-guarded" (("authz-0001", pos 1) ∷ []),
  )

  at_payment :
      (c : CommitEvent)
      → Elem c guarded_evidence.commits
      → (authority : AuthorityStore) × Established guarded_evidence c authority
        × AuthorizedBy h guarded_evidence authority c
  unfolding evidence_from_scenario admit append_commit fresh_sink
  at_payment c (Any.head e) =
      subst
        (λ d.
          (authority : AuthorityStore) × Established guarded_evidence d authority
          × AuthorizedBy h guarded_evidence authority d)
        (sym e) covered_payment
  at_payment c (Any.tail m) = elim m [ ]

  guarded-IsClean : IsClean h guarded_evidence
  unfolding evidence_from_scenario admit append_commit fresh_sink
  guarded-IsClean = record {
    instrument = refl;
    routes = declared_only;
    local = refl;
    covered = λ c m p. at_payment c m;
  }

  -- The guarded payment of the reference profile ends clean, whatever the hash functions are.
  pub guarded_valid-clean :
      (r : ScenarioResult) × ((scenario_guarded_valid h ≡ some r)
        × (disposition_of h r ≡ no_boundary_counterexample))
  unfolding scenario_guarded_valid disposition_of base_authority at add at_from sort_from
      insert_epoch
  guarded_valid-clean = (
    paid_result "guarded-valid" "commit-0001" "route.api-guarded" "valid guarded commit",
    (
      ap some
          (run_on-paid "guarded-valid" "commit-0001" "route.api-guarded" "valid guarded commit"),
      (adjudicate-IsClean_iff h guarded_evidence).1 guarded-IsClean,
    ),
  )
