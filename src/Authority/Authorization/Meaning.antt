-- ===== src/Authority/Authorization/Meaning.antt =====
-- oat/authority/authorization.py: `ValidAuthorization(a, c)` as a conjunction of facts.
use open_authority_trials_oa.Authority.Authorization.{
  DimensionResult, valid, cmp, AuthorizationIssuer, Authorization, some, true, keep, ◌∷◌, tenant,
  principal, mismatches, agent_identity, release_identity, exact_action_digest, protected_sink,
  idempotency_binding, List,
}
use open_authority_trials_oa.Prelude.{
  String, Option, all, ◌≡◌, true, keep, ◌≢◌, ◌↔◌, none, ◌&&◌, arith, [], ◌++◌, all-append, List,
  all→All, All→all, &&-iff,
}
use open_authority_trials_oa.Canonical.Digest.{Hashing}
use open_authority_trials_oa.Prelude.Int.{ℤ, ◌≤ℤ◌}
use open_authority_trials_oa.Authority.CurrentState.{AuthorityState}
use open_authority_trials_oa.Consequence.Model.{CommitEvent}
use open_authority_trials_oa.Authority.Authorization.Validate.{
  decision_result, scope_result, interval_result, integrity_result, state_results,
  delegation_results, use_result, correlation_result, validate_present, validate_authorization,
}
use open_authority_trials_oa.Authority.Authorization.Dimensions.{
  BoundOrDeclared, is_ok, valid-all, IssuerVerifies, StateAllows, interval-ok, decision-ok,
  DelegationAllows, cmp-ok, UsesLeft, scope-ok, Correlated, integrity-ok, state-ok, delegation-ok,
  use-ok, correlation-ok,
}

pub record ValidAuthorization (h : Hashing) (a : Authorization) (c : CommitEvent)
    (at_commit : Option AuthorityState) (issuer : Option AuthorizationIssuer) (uses : Option ℤ)
    (token : Option String) : Type 0 where
  pub allowed : a.decision ≡ "ALLOW"
  pub tenant : BoundOrDeclared a.tenant_id c.tenant_id
  pub principal : BoundOrDeclared a.principal_id c.principal_id
  pub agent : BoundOrDeclared a.agent_id c.agent_id
  pub release : BoundOrDeclared a.release_id c.release_id
  pub action : BoundOrDeclared a.action_digest c.action_digest
  pub sink : BoundOrDeclared a.sink_id c.sink_id
  pub idempotency : BoundOrDeclared a.idempotency_key c.idempotency_key
  pub scoped : a.scope ≢ ""
  pub integrity : IssuerVerifies h issuer a
  pub begun : a.not_before ≤ℤ c.committed_at
  pub not_over : c.committed_at ≤ℤ a.not_after
  pub authority : StateAllows h at_commit a
  pub delegation : DelegationAllows a.delegation c.principal_id a.scope
  pub uses_left : UsesLeft a.max_uses uses
  pub correlated : Correlated h a token

module _ (h : Hashing) (a : Authorization) (c : CommitEvent) (s : Option AuthorityState)
    (issuer : Option AuthorizationIssuer) (uses : Option ℤ) (token : Option String) where
  tail-ok :
      (all is_ok (
          state_results h s a
          ++ (delegation_results a.delegation c a.scope
              ++ use_result a uses ∷ correlation_result h a token ∷ []))
        ≡ true)
      ↔ (StateAllows h s a
          × DelegationAllows a.delegation c.principal_id a.scope
          × UsesLeft a.max_uses uses
          × Correlated h a token)
  unfolding all
  tail-ok =
      rw (all-append, all-append)
        (
          λ e. (
            (state-ok h s a).0 (ground arith),
            (delegation-ok a.delegation c a.scope).0 (ground arith),
            (use-ok a uses).0 (ground arith),
            (correlation-ok h a token).0 (ground arith),
          ),
          λ b. ground (
            arith,
            (state-ok h s a).1 b.0,
            (delegation-ok a.delegation c a.scope).1 b.1,
            (use-ok a uses).1 b.2,
            (correlation-ok h a token).1 b.3,
          ),
        )

  abbrev first_results : List DimensionResult
  first_results =
      decision_result a
      ∷ cmp tenant (some a.tenant_id) (some c.tenant_id)
      ∷ cmp principal (some a.principal_id) (some c.principal_id)
      ∷ cmp agent_identity (some a.agent_id) (some c.agent_id)
      ∷ cmp release_identity (some a.release_id) (some c.release_id)
      ∷ cmp exact_action_digest (some a.action_digest) (some c.action_digest)
      ∷ cmp protected_sink (some a.sink_id) (some c.sink_id)
      ∷ cmp idempotency_binding (some a.idempotency_key) (some c.idempotency_key)
      ∷ scope_result a
      ∷ integrity_result h issuer a
      ∷ interval_result a c
      ∷ []

  abbrev last_results : List DimensionResult
  last_results =
      state_results h s a
      ++ (delegation_results a.delegation c a.scope
          ++ use_result a uses ∷ correlation_result h a token ∷ [])

  present-split :
      all is_ok (validate_present h a c s issuer uses token)
      ≡ (all is_ok first_results && all is_ok last_results)
  unfolding validate_present
  present-split = all-append is_ok first_results last_results

  present→Valid :
      all is_ok first_results ≡ true
      → all is_ok last_results ≡ true
      → ValidAuthorization h a c s issuer uses token
  present→Valid first last =
      let t0 = all→All is_ok first_results first in
      let t1 = t0.1 in
      let t2 = t1.1 in
      let t3 = t2.1 in
      let t4 = t3.1 in
      let t5 = t4.1 in
      let t6 = t5.1 in
      let t7 = t6.1 in
      let t8 = t7.1 in
      let t9 = t8.1 in
      let t10 = t9.1 in
      let interval = (interval-ok a c).0 t10.0 in
      let rest = tail-ok.0 last in
      record {
        allowed = (decision-ok a).0 t0.0;
        tenant = (cmp-ok tenant a.tenant_id c.tenant_id).0 t1.0;
        principal = (cmp-ok principal a.principal_id c.principal_id).0 t2.0;
        agent = (cmp-ok agent_identity a.agent_id c.agent_id).0 t3.0;
        release = (cmp-ok release_identity a.release_id c.release_id).0 t4.0;
        action = (cmp-ok exact_action_digest a.action_digest c.action_digest).0 t5.0;
        sink = (cmp-ok protected_sink a.sink_id c.sink_id).0 t6.0;
        idempotency = (cmp-ok idempotency_binding a.idempotency_key c.idempotency_key).0 t7.0;
        scoped = (scope-ok a).0 t8.0;
        integrity = (integrity-ok h issuer a).0 t9.0;
        begun = interval.0;
        not_over = interval.1;
        authority = rest.0;
        delegation = rest.1;
        uses_left = rest.2;
        correlated = rest.3;
      }

  Valid→first : ValidAuthorization h a c s issuer uses token → all is_ok first_results ≡ true
  Valid→first v = All→all is_ok first_results (
    (decision-ok a).1 v.allowed,
    (
      (cmp-ok tenant a.tenant_id c.tenant_id).1 v.tenant,
      (
        (cmp-ok principal a.principal_id c.principal_id).1 v.principal,
        (
          (cmp-ok agent_identity a.agent_id c.agent_id).1 v.agent,
          (
            (cmp-ok release_identity a.release_id c.release_id).1 v.release,
            (
              (cmp-ok exact_action_digest a.action_digest c.action_digest).1 v.action,
              (
                (cmp-ok protected_sink a.sink_id c.sink_id).1 v.sink,
                (
                  (cmp-ok idempotency_binding a.idempotency_key c.idempotency_key).1 v.idempotency,
                  (
                    (scope-ok a).1 v.scoped,
                    (
                      (integrity-ok h issuer a).1 v.integrity,
                      ((interval-ok a c).1 (v.begun, v.not_over), tt),
                    ),
                  ),
                ),
              ),
            ),
          ),
        ),
      ),
    ),
  )

  present-ok :
      (valid (validate_present h a c s issuer uses token) ≡ true)
      ↔ ValidAuthorization h a c s issuer uses token
  present-ok =
      rw (valid-all, present-split)
        (
          λ e. let both = (&&-iff _ _).0 e in present→Valid both.0 both.1,
          λ v.
              (&&-iff _ _).1
                (Valid→first v, tail-ok.1 (v.authority, v.delegation, v.uses_left, v.correlated)),
        )

-- There is an authorization, and it is valid for the commit.
abbrev pub Authorized :
    Hashing
    → Option Authorization
    → CommitEvent
    → Option AuthorityState
    → Option AuthorizationIssuer
    → Option ℤ
    → Option String
    → Type 0
Authorized h none c s issuer uses token = ⊥
Authorized h (some a) c s issuer uses token = ValidAuthorization h a c s issuer uses token

-- The report of `validate_authorization` is valid exactly when there is an authorization that
-- allows, binds every dimension of the commit or declares it inapplicable, is intact, in its
-- interval, active in the authority state at the commit, validly delegated if it is delegated,
-- within its uses, and correlated with the token presented.
pub validate_authorization_iff :
    (h : Hashing) (a : Option Authorization) (c : CommitEvent) (s : Option AuthorityState)
    (issuer : Option AuthorizationIssuer) (uses : Option ℤ) (token : Option String)
    → (valid (validate_authorization h a c s issuer uses token) ≡ true)
      ↔ Authorized h a c s issuer uses token
unfolding validate_authorization
validate_authorization_iff h none c s issuer uses token =
    (λ e. unfold valid mismatches keep in cc, λ b. absurd b)
validate_authorization_iff h (some a) c s issuer uses token = present-ok h a c s issuer uses token
