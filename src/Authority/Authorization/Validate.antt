-- ===== src/Authority/Authorization/Validate.antt =====
-- `validate_authorization` of oat/authority/authorization.py: one definition for each of the
-- dimensions that the function adds, in its order.
use open_authority_trials_oa.Authority.Authorization.{
  Authorization, DimensionResult, AuthorizationIssuer, DelegationChain, ℤ, String, result,
  ValidationReport, List, revocation_state, delegation_chain, authorization_use_count,
  authorization_integrity, authority_state_at_commit, commit_authorization_correlation,
  authorization_present, bound, declared_non_applicable, undetermined, cmp, mismatch, no_detail,
  no_delegation_in_force, use_count_not_recorded, no_issuer, no_state, no_telemetry, tenant,
  no_artifact, grant_is, non_amplification, state_unavailable, some, [], authorization_digest,
  principal, agent_identity, release_identity, exact_action_digest, protected_sink,
  idempotency_binding, delegation_reason, verify_integrity, positive_decision,
  normalized_action_scope, validity_interval, used_times, integrity_failed, decision_is, no_scope,
  before_not_before, after_not_after,
}
use open_authority_trials_oa.Authority.CurrentState.{
  Status, AuthorityState, state_digest, active, status_of,
}
use open_authority_trials_oa.Prelude.{
  Option, String, List, ◌∷◌, some, [], none, if◌then◌else◌, ◌==◌, ◌++◌,
}
use open_authority_trials_oa.Canonical.Digest.{Hashing}
use open_authority_trials_oa.Consequence.Model.{CommitEvent}
use open_authority_trials_oa.Authority.Delegation.{
  DelegationChain, validate_delegation, is_amplified,
}
use open_authority_trials_oa.Prelude.Int.{ℤ, ltb_ℤ}

unfoldable pub decision_result : Authorization → DimensionResult
decision_result a =
    if a.decision == "ALLOW"
    then result positive_decision bound no_detail
    else result positive_decision mismatch (decision_is a.decision)

unfoldable pub scope_result : Authorization → DimensionResult
scope_result a =
    if a.scope == ""
    then result normalized_action_scope undetermined no_scope
    else result normalized_action_scope bound no_detail

unfoldable pub interval_result : Authorization → CommitEvent → DimensionResult
interval_result a commit =
    if ltb_ℤ commit.committed_at a.not_before
    then result validity_interval mismatch before_not_before
    else if ltb_ℤ a.not_after commit.committed_at
    then result validity_interval mismatch after_not_after
    else result validity_interval bound no_detail

unfoldable pub revocation_result : Status → DimensionResult
revocation_result active = result revocation_state bound no_detail
revocation_result status = result revocation_state mismatch (grant_is status)

unfoldable pub delegation_results :
    Option DelegationChain → CommitEvent → String → List DimensionResult
delegation_results none commit scope =
    result delegation_chain declared_non_applicable no_delegation_in_force
    ∷ result non_amplification declared_non_applicable no_delegation_in_force
    ∷ []
delegation_results (some chain) commit scope =
    let (fine, reason) = validate_delegation chain commit.principal_id scope in
    (if fine
      then result delegation_chain bound no_detail
      else result delegation_chain mismatch (delegation_reason reason))
    ∷ (if is_amplified reason
        then result non_amplification mismatch (delegation_reason reason)
        else result non_amplification bound no_detail)
    ∷ []

unfoldable pub use_result : Authorization → Option ℤ → DimensionResult
use_result a none = result authorization_use_count undetermined use_count_not_recorded
use_result a (some n) =
    if ltb_ℤ a.max_uses n
    then result authorization_use_count mismatch (used_times n a.max_uses)
    else result authorization_use_count bound no_detail

module _ (h : Hashing) where
  unfoldable pub integrity_result : Option AuthorizationIssuer → Authorization → DimensionResult
  integrity_result none a = result authorization_integrity undetermined no_issuer
  integrity_result (some issuer) a =
      if verify_integrity h issuer a
      then result authorization_integrity bound no_detail
      else result authorization_integrity mismatch integrity_failed

  unfoldable pub state_results : Option AuthorityState → Authorization → List DimensionResult
  unfolding revocation_result
  state_results none a =
      result authority_state_at_commit undetermined no_state
      ∷ result revocation_state undetermined state_unavailable
      ∷ []
  state_results (some s) a =
      cmp authority_state_at_commit (some a.authority_state_digest) (some (state_digest h s))
      ∷ revocation_result (status_of s a.grant_id)
      ∷ []

  unfoldable pub correlation_result : Authorization → Option String → DimensionResult
  correlation_result a none = result commit_authorization_correlation undetermined no_telemetry
  correlation_result a (some token) =
      cmp commit_authorization_correlation (some (authorization_digest h a)) (some token)

  unfoldable pub validate_present :
      Authorization
      → CommitEvent
      → Option AuthorityState
      → Option AuthorizationIssuer
      → Option ℤ
      → Option String
      → ValidationReport
  validate_present a commit at_commit issuer prior_use_count correlated =
      decision_result a
      ∷ cmp tenant (some a.tenant_id) (some commit.tenant_id)
      ∷ cmp principal (some a.principal_id) (some commit.principal_id)
      ∷ cmp agent_identity (some a.agent_id) (some commit.agent_id)
      ∷ cmp release_identity (some a.release_id) (some commit.release_id)
      ∷ cmp exact_action_digest (some a.action_digest) (some commit.action_digest)
      ∷ cmp protected_sink (some a.sink_id) (some commit.sink_id)
      ∷ cmp idempotency_binding (some a.idempotency_key) (some commit.idempotency_key)
      ∷ scope_result a
      ∷ integrity_result issuer a
      ∷ interval_result a commit
      ∷ (state_results at_commit a
          ++ (delegation_results a.delegation commit a.scope
              ++ use_result a prior_use_count ∷ correlation_result a correlated ∷ []))

  unfoldable pub validate_authorization :
      Option Authorization
      → CommitEvent
      → Option AuthorityState
      → Option AuthorizationIssuer
      → Option ℤ
      → Option String
      → ValidationReport
  unfolding validate_present decision_result scope_result integrity_result interval_result
      state_results delegation_results use_result correlation_result
  validate_authorization none commit at_commit issuer prior_use_count correlated =
      result authorization_present mismatch no_artifact ∷ []
  validate_authorization (some a) commit at_commit issuer prior_use_count correlated =
      validate_present a commit at_commit issuer prior_use_count correlated
