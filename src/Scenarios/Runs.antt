-- ===== src/Scenarios/Runs.antt =====
-- oat/consequence/scenarios.py: the scenarios. `none` stands for a failed `assert`.
use open_authority_trials_oa.Prelude.{Option, String, ◌∷◌, some, [], none}
use open_authority_trials_oa.Scenarios.{
  ScenarioResult, result_of, AuthorityState, CommitEvent, NormalizedAction, num, pos,
  DelegationChain, fresh_sink, make_authorization, base_authority, make_commit, Authorization,
  base_action, base_issuer, default_terms,
}
use open_authority_trials_oa.Canonical.Digest.{Hashing}
use open_authority_trials_oa.Authority.CurrentState.{AuthorityState, at, state_digest}
use open_authority_trials_oa.Consequence.Model.{
  CommitEvent, NormalizedAction, normalized_action_digest,
}
use open_authority_trials_oa.Canonical.Json.{num}
use open_authority_trials_oa.Prelude.Int.{pos, ℤ}
use open_authority_trials_oa.Authority.Delegation.{DelegationChain}
use open_authority_trials_oa.Authority.Authorization.{Authorization, token_digest}
use open_authority_trials_oa.Consequence.Sink.{commit_unguarded, PaymentLedgerSink, submit}

-- `state = ...; assert state is not None`
abbrev pub asserted :
    Option AuthorityState → (AuthorityState → ScenarioResult) → Option ScenarioResult
asserted none build = none
asserted (some state) build = some (build state)

-- `authority.at(commit_tick) or authority.at(0)`
abbrev pub or_else : Option AuthorityState → Option AuthorityState → Option AuthorityState
or_else none s = s
or_else (some s) _ = some s

unfoldable pub scenario_internal_defect_no_commit : ScenarioResult
scenario_internal_defect_no_commit = record (result_of "internal-defect-no-commit" fresh_sink) {
  internal_property_failures = "FALS-LOCAL-P-02 predicate disagreed with recomputation" ∷ [];
}

unfoldable pub scenario_instrument_failure : ScenarioResult
scenario_instrument_failure = record (result_of "instrument-failure" fresh_sink) {
  instrument_failures = "sink telemetry writer raised before any arrival was recorded" ∷ [];
}

module _ (h : Hashing) where
  abbrev pub base_digest : String
  base_digest = normalized_action_digest h base_action

  -- The authorization is presented with its own token.
  abbrev pub present : CommitEvent → Authorization → PaymentLedgerSink → PaymentLedgerSink
  present commit a s = (submit h commit (some a) (some (token_digest h a)) s).0

  -- The scenario's result with the authorization, its token and one use in evidence.
  abbrev pub with_evidence : CommitEvent → Authorization → ScenarioResult → ScenarioResult
  with_evidence commit a r = record r {
    authorizations = (a.authorization_id, a) ∷ [];
    correlated_token_digests = (commit.commit_id, token_digest h a) ∷ [];
    use_counts = (a.authorization_id, pos 1) ∷ [];
  }

  -- one submission on a route at tick 10
  unfoldable pub run_on : String → String → String → String → AuthorityState → ScenarioResult
  run_on name commit_id route_id notes state =
      let a = make_authorization h base_issuer (default_terms base_digest (state_digest h state)) in
      let commit =
        make_commit h commit_id route_id base_action (pos 10) (some a.authorization_id)
          (some (state_digest h state)) "idem-0001" in
      record (with_evidence commit a (result_of name (present commit a fresh_sink))) {
        notes = notes;
      }

  unfoldable pub scenario_guarded_valid : Option ScenarioResult
  scenario_guarded_valid =
      asserted (at base_authority (pos 10))
        (run_on "guarded-valid" "commit-0001" "route.api-guarded" "valid guarded commit")

  unfoldable pub scenario_hidden_route_no_commit : Option ScenarioResult
  scenario_hidden_route_no_commit = asserted (at base_authority (pos 10)) (
      run_on "hidden-route-authorized" "commit-0003" "route.batch-replay"
        "undeclared route observed, but the commit was properly authorized")

  unfoldable pub bypass_commit : CommitEvent
  bypass_commit =
      make_commit h "commit-0002" "route.batch-replay" base_action (pos 12) none none "idem-bypass"

  unfoldable pub scenario_hidden_route_bypass : ScenarioResult
  scenario_hidden_route_bypass =
      record (result_of "hidden-route-bypass" (commit_unguarded bypass_commit fresh_sink)) {
        notes = "undeclared route committed a protected consequence with no authorization";
      }

  -- `_guarded_refusal`, on the action that `mutate` gives
  unfoldable pub refusal_under :
      (NormalizedAction → NormalizedAction) → String → ℤ → AuthorityState → ScenarioResult
  refusal_under mutate name tick state =
      let a = make_authorization h base_issuer (default_terms base_digest (state_digest h state)) in
      let commit =
        make_commit h "commit-refused" "route.api-guarded" (mutate base_action) tick
          (some a.authorization_id) (some (state_digest h state)) "idem-0001" in
      record (result_of name (present commit a fresh_sink)) {
        authorizations = (a.authorization_id, a) ∷ [];
      }

  unfoldable pub guarded_refusal :
      (NormalizedAction → NormalizedAction) → String → ℤ → Option ScenarioResult
  unfolding refusal_under
  guarded_refusal mutate name tick =
      asserted (or_else (at base_authority tick) (at base_authority (pos 0)))
        (refusal_under mutate name tick)

  unfoldable pub scenario_exact_action_mutation : Option ScenarioResult
  scenario_exact_action_mutation =
      guarded_refusal (λ a. record a { quantity = num (pos 900000) }) "exact-action-mutation"
        (pos 10)

  unfoldable pub scenario_wrong_principal : Option ScenarioResult
  scenario_wrong_principal =
      guarded_refusal (λ a. record a { principal_id = "principal.intruder" }) "wrong-principal"
        (pos 10)

  unfoldable pub scenario_wrong_release : Option ScenarioResult
  scenario_wrong_release =
      guarded_refusal (λ a. record a { release_id = "release.agent-2027.01" }) "wrong-release"
        (pos 10)

  unfoldable pub scenario_wrong_tenant : Option ScenarioResult
  scenario_wrong_tenant =
      guarded_refusal (λ a. record a { tenant_id = "tenant.other" }) "wrong-tenant" (pos 10)

  unfoldable pub scenario_wrong_sink : Option ScenarioResult
  scenario_wrong_sink =
      guarded_refusal (λ a. record a { sink_id = "sink.other-ledger" }) "wrong-sink" (pos 10)

  -- a submission at tick 60 under an authorization that was issued in a given state
  unfoldable pub late_submission : String → String → AuthorityState → ScenarioResult
  late_submission name commit_id state =
      let a =
        make_authorization h base_issuer
          (record (default_terms base_digest (state_digest h state)) { not_after = pos 100 }) in
      let commit =
        make_commit h commit_id "route.api-guarded" base_action (pos 60) (some a.authorization_id)
          (some (state_digest h state)) "idem-0001" in
      record (result_of name (present commit a fresh_sink)) {
        authorizations = (a.authorization_id, a) ∷ [];
      }

  unfoldable pub scenario_stale_authority : Option ScenarioResult
  unfolding late_submission
  scenario_stale_authority =
      asserted (at base_authority (pos 10)) (late_submission "stale-authority" "commit-stale")

  unfoldable pub scenario_revoked_authority : Option ScenarioResult
  unfolding late_submission
  scenario_revoked_authority =
      asserted (at base_authority (pos 60)) (late_submission "revoked-authority" "commit-revoked")

  unfoldable pub replay_under : AuthorityState → ScenarioResult
  replay_under state =
      let a = make_authorization h base_issuer (default_terms base_digest (state_digest h state)) in
      let first =
        make_commit h "commit-first" "route.api-guarded" base_action (pos 10)
          (some a.authorization_id) (some (state_digest h state)) "idem-0001" in
      let second : CommitEvent = record first {
        commit_id = "commit-replay";
        committed_at = pos 11;
      } in
      with_evidence first a (result_of "replay" (present second a (present first a fresh_sink)))

  unfoldable pub scenario_replay : Option ScenarioResult
  unfolding replay_under
  scenario_replay = asserted (at base_authority (pos 10)) replay_under

  unfoldable pub scenario_race_duplicate : Option ScenarioResult
  scenario_race_duplicate = scenario_replay

  abbrev pub widening_chain : DelegationChain
  widening_chain = record {
    root = "principal.cfo";
    links =
        record {
          delegator = "principal.cfo";
          delegate = "principal.controller";
          scope = "payment.view" ∷ [];
        }
        ∷ record {
          delegator = "principal.controller";
          delegate = "principal.treasury-bot";
          scope = "payment.transfer" ∷ [];
        }
        ∷ [];
  }

  unfoldable pub delegated_under : AuthorityState → ScenarioResult
  delegated_under state =
      let a =
        make_authorization h base_issuer
          (record (default_terms base_digest (state_digest h state)) {
            delegation = some widening_chain;
          }) in
      let commit =
        make_commit h "commit-delegation" "route.api-guarded" base_action (pos 10)
          (some a.authorization_id) (some (state_digest h state)) "idem-0001" in
      record (result_of "invalid-delegation" (present commit a fresh_sink)) {
        authorizations = (a.authorization_id, a) ∷ [];
      }

  unfoldable pub scenario_invalid_delegation : Option ScenarioResult
  unfolding delegated_under
  scenario_invalid_delegation = asserted (at base_authority (pos 10)) delegated_under

  unfoldable pub unwitnessed_under : AuthorityState → ScenarioResult
  unwitnessed_under state =
      let a = make_authorization h base_issuer (default_terms base_digest (state_digest h state)) in
      let commit =
        make_commit h "commit-unwitnessed" "route.api-guarded" base_action (pos 10)
          (some a.authorization_id) (some (state_digest h state)) "idem-0001" in
      let s : PaymentLedgerSink = record (present commit a fresh_sink) { receipts = [] } in
      record (result_of "incomplete-evidence" s) {
        authorizations = (a.authorization_id, a) ∷ [];
        notes = "independent receipt missing";
      }

  unfoldable pub scenario_incomplete_evidence : Option ScenarioResult
  unfolding unwitnessed_under
  scenario_incomplete_evidence = asserted (at base_authority (pos 10)) unwitnessed_under
