-- ===== src/HostSink/Reference.antt =====
-- oat/integration/host_sink.py: the reference authority, action and authorization.
use open_authority_trials_oa.Prelude.Result.{ok, err, Result, ◌>>=◌}
use open_authority_trials_oa.Consequence.Model.{exact_action_digest, ProtectedSink}
use open_authority_trials_oa.Authority.CurrentState.{
  AuthorityState, add, AuthorityStore, at, state_digest,
}
use open_authority_trials_oa.Canonical.Json.{Fields, fields, str, obj, field, end, num}
use open_authority_trials_oa.Prelude.{String, ◌∷◌, [], none}
use open_authority_trials_oa.Prelude.Int.{pos, ℤ}
use open_authority_trials_oa.HostSink.{
  action_text, register, new_host, [], ℤ, Result, HostError, Host, assertion_failed, some,
}
use open_authority_trials_oa.Authority.Authorization.{AuthorizationIssuer, sign, Authorization}
use open_authority_trials_oa.Canonical.Digest.{encode, Hashing}
use open_authority_trials_oa.Canonical.Text.{codes}
use open_authority_trials_oa.HostSink.Tables.{HostError, assertion_failed}

abbrev pub integration_epoch : AuthorityState
integration_epoch = record {
  epoch = pos 1;
  effective_from = pos 0;
  active_grants = "grant.treasury" ∷ [];
  revoked_grants = [];
  superseded_grants = [];
}

abbrev pub integration_revocation : AuthorityState
integration_revocation = record {
  epoch = pos 2;
  effective_from = pos 50;
  active_grants = [];
  revoked_grants = "grant.treasury" ∷ [];
  superseded_grants = [];
}

unfoldable pub reference_authority : AuthorityStore
unfolding add
reference_authority = add (add [] integration_epoch) integration_revocation

abbrev pub reference_sink : ProtectedSink
reference_sink = record {
  sink_id = "sink.integration-payment-ledger";
  description = "Durable SQLite payment ledger used by OAT-HOST-SINK-INTEGRATION-001";
}

abbrev pub reference_action : Fields
reference_action = fields (
    ("action_type", str "payment.transfer")
    ∷ ("target", str "acct:beneficiary-77")
    ∷ ("parameters", obj (field "memo" (str "invoice-1041") end))
    ∷ ("quantity", num (pos 200000))
    ∷ ("unit", str "USD_CENTS")
    ∷ ("principal_id", str "principal.treasury-bot")
    ∷ ("sink_id", str reference_sink.sink_id)
    ∷ ("tenant_id", str "tenant.acme")
    ∷ ("release_id", str "release.agent-2026.09")
    ∷ [])

-- The keyword arguments of `issue_reference_authorization`.
pub record IssueTerms : Type 0 where
  pub authorization_id : String
  pub idempotency_key : String
  pub not_after : ℤ
  pub max_uses : ℤ

abbrev pub default_issue : IssueTerms
default_issue = record {
  authorization_id = "authz-1";
  idempotency_key = "idem-1";
  not_after = pos 40;
  max_uses = pos 1;
}

unfoldable pub issue_reference_authorization :
    Hashing
    → AuthorizationIssuer
    → Fields
    → AuthorityStore
    → IssueTerms
    → Result HostError Authorization
unfolding action_text exact_action_digest at sign
issue_reference_authorization h issuer action authority terms = elim (at authority (pos 10)) [
  | none ↦ err assertion_failed
  | some state ↦ action_text action "tenant_id" >>= λ tenant_id.
      action_text action "principal_id" >>= λ principal_id.
      action_text action "release_id" >>= λ release_id. elim (exact_action_digest h action) [
        | err names ↦ err (HostError.missing_fields names)
        | ok digest ↦ action_text action "sink_id" >>= λ sink_id. ok (
            sign h issuer (record {
              authorization_id = terms.authorization_id;
              grant_id = "grant.treasury";
              decision = "ALLOW";
              tenant_id = tenant_id;
              principal_id = principal_id;
              agent_id = "agent.integration-test";
              release_id = release_id;
              action_digest = digest;
              sink_id = sink_id;
              scope = "payment.transfer";
              authority_state_digest = state_digest h state;
              not_before = pos 0;
              not_after = terms.not_after;
              idempotency_key = terms.idempotency_key;
              max_uses = terms.max_uses;
              delegation = none;
              integrity = "";
            }))
      ]
]

abbrev pub reference_issuer : AuthorizationIssuer
reference_issuer = record { secret = encode (codes "oat-host-sink-reference-secret"); uses = [] }

-- `new_reference_integration`, with the authorization that it registers
unfoldable pub new_reference_integration : Hashing → ℤ → ℤ → Result HostError (Host × Authorization)
unfolding issue_reference_authorization register new_host
new_reference_integration h not_after max_uses =
    issue_reference_authorization h reference_issuer reference_action reference_authority
      (record default_issue { not_after = not_after; max_uses = max_uses })
    >>= λ a. ok (register (new_host reference_sink reference_authority reference_issuer) a, a)
