-- ===== src/Scenarios.antt =====
-- oat/consequence/scenarios.py: the parts that the scenarios are built from. Actions are records of
-- their exact fields, and keyword arguments with a default are the fields of `Terms`.
pub mod Runs
use Prim.Native.String
use open_authority_trials_oa.Prelude.{List, String, ℕ, true, [], ◌∷◌, Option, none}
use open_authority_trials_oa.Consequence.Model.{
  ProtectedSink, NormalizedAction, CommitEvent, normalized_action_digest, action_fields,
}
use open_authority_trials_oa.Paths.{PathInventory}
use open_authority_trials_oa.Authority.CurrentState.{AuthorityState, AuthorityStore, add}
use open_authority_trials_oa.Authority.Authorization.{AuthorizationIssuer, Authorization, sign}
use open_authority_trials_oa.Consequence.Sink.{PaymentLedgerSink}
use open_authority_trials_oa.Canonical.Digest.{Hashing, encode}
use open_authority_trials_oa.Canonical.Json.{field, str, end, num}
use open_authority_trials_oa.Prelude.Int.{pos, ℤ}
use open_authority_trials_oa.Prelude.Dict.{Dict}
use open_authority_trials_oa.Canonical.Text.{codes}
use open_authority_trials_oa.Authority.Delegation.{DelegationChain}

abbrev pub secret_bytes : List ℕ
secret_bytes = encode (codes "oat-reference-profile-secret-not-a-real-credential")

abbrev pub payment_sink : ProtectedSink
payment_sink = record {
  sink_id = "sink.test-payment-ledger";
  description = "Representative payment ledger; committed rows are the protected consequence.";
}

abbrev pub declared_paths : PathInventory
declared_paths =
    record {
      route_id = "route.api-guarded";
      description = "Primary guarded payment API";
      guarded = true;
    }
    ∷ record { route_id = "route.console"; description = "Operator console"; guarded = true }
    ∷ []

abbrev pub base_action : NormalizedAction
base_action = record {
  action_type = "payment.transfer";
  target = "acct:beneficiary-77";
  parameters = field "memo" (str "invoice-1041") end;
  quantity = num (pos 200000);
  unit = "USD_CENTS";
  principal_id = "principal.treasury-bot";
  sink_id = payment_sink.sink_id;
  tenant_id = "tenant.acme";
  release_id = "release.agent-2026.09";
}

abbrev pub first_epoch : AuthorityState
first_epoch = record {
  epoch = pos 1;
  effective_from = pos 0;
  active_grants = "grant.treasury" ∷ [];
  revoked_grants = [];
  superseded_grants = [];
}

abbrev pub second_epoch : AuthorityState
second_epoch = record {
  epoch = pos 2;
  effective_from = pos 50;
  active_grants = [];
  revoked_grants = "grant.treasury" ∷ [];
  superseded_grants = [];
}

unfoldable pub base_authority : AuthorityStore
base_authority = add (add [] first_epoch) second_epoch

-- The keyword arguments of `make_authorization`.
pub record Terms : Type 0 where
  pub action_digest : String
  pub authority_state_digest : String
  pub authorization_id : String
  pub idempotency_key : String
  pub principal_id : String
  pub release_id : String
  pub tenant_id : String
  pub sink_id : String
  pub not_before : ℤ
  pub not_after : ℤ
  pub max_uses : ℤ
  pub delegation : Option DelegationChain
  pub decision : String

abbrev pub default_terms : String → String → Terms
default_terms action_digest authority_state_digest = record {
  action_digest = action_digest;
  authority_state_digest = authority_state_digest;
  authorization_id = "authz-0001";
  idempotency_key = "idem-0001";
  principal_id = base_action.principal_id;
  release_id = base_action.release_id;
  tenant_id = base_action.tenant_id;
  sink_id = payment_sink.sink_id;
  not_before = pos 0;
  not_after = pos 40;
  max_uses = pos 1;
  delegation = none;
  decision = "ALLOW";
}

abbrev pub base_issuer : AuthorizationIssuer
base_issuer = record { secret = secret_bytes; uses = [] }

-- The result of a scenario.
pub record ScenarioResult : Type 0 where
  pub name : String
  pub sink : PaymentLedgerSink
  pub issuer : AuthorizationIssuer
  pub authority : AuthorityStore
  pub authorizations : Dict Authorization
  pub correlated_token_digests : Dict String
  pub use_counts : Dict ℤ
  pub internal_property_failures : List String
  pub instrument_failures : List String
  pub notes : String

-- `_new_sink`; `PaymentLedgerSink.__init__`
unfoldable pub fresh_sink : PaymentLedgerSink
fresh_sink = record {
  sink = payment_sink;
  authority = base_authority;
  issuer = base_issuer;
  commits = [];
  receipts = [];
  route_log = [];
  interlock_log = [];
  seen_idempotency = [];
}

-- `_result` without keyword arguments. The issuer is the sink's, which counts the uses.
abbrev pub result_of : String → PaymentLedgerSink → ScenarioResult
result_of name s = record {
  name = name;
  sink = s;
  issuer = s.issuer;
  authority = s.authority;
  authorizations = [];
  correlated_token_digests = [];
  use_counts = [];
  internal_property_failures = [];
  instrument_failures = [];
  notes = "";
}

module _ (h : Hashing) where
  unfoldable pub make_authorization : AuthorizationIssuer → Terms → Authorization
  make_authorization issuer t = sign h issuer (record {
    authorization_id = t.authorization_id;
    grant_id = "grant.treasury";
    decision = t.decision;
    tenant_id = t.tenant_id;
    principal_id = t.principal_id;
    agent_id = "agent.nim-adversary";
    release_id = t.release_id;
    action_digest = t.action_digest;
    sink_id = t.sink_id;
    scope = "payment.transfer";
    authority_state_digest = t.authority_state_digest;
    not_before = t.not_before;
    not_after = t.not_after;
    idempotency_key = t.idempotency_key;
    max_uses = t.max_uses;
    delegation = t.delegation;
    integrity = "";
  })

  -- The arguments are those of `make_commit` in its order; the agent is its default.
  unfoldable pub make_commit :
      String → String → NormalizedAction → ℤ → Option String → Option String → String → CommitEvent
  make_commit commit_id route_id action committed_at authorization state idempotency_key = record {
    commit_id = commit_id;
    sink_id = action.sink_id;
    route_id = route_id;
    tenant_id = action.tenant_id;
    principal_id = action.principal_id;
    agent_id = "agent.nim-adversary";
    release_id = action.release_id;
    action_digest = normalized_action_digest h action;
    normalized_action = action_fields action;
    committed_at = committed_at;
    authorization_ref = authorization;
    authority_state_ref = state;
    idempotency_key = idempotency_key;
    trace_ref = String.◌++◌ "trace-" commit_id;
  }
