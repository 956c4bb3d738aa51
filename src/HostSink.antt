-- ===== src/HostSink.antt =====
-- oat/integration/host_sink.py: the decisions of `HostSinkIntegration` and the routes of `_Handler`.
pub mod Tables
pub mod Handlers
pub mod Ledger
pub mod Refinement
pub mod Interleaving
pub mod Queue
pub mod Reference
pub mod Detection
use Prim.Native.String
use open_authority_trials_oa.Prelude.{
  Option, String, List, true, false, some, Bool, ℕ, if◌then◌else◌, ◌∷◌, ◌==◌, none, [], not, map,
}
use open_authority_trials_oa.Paths.{PathInventory, reconcile}
use open_authority_trials_oa.Consequence.Model.{
  ProtectedSink, CommitEvent, exact_action_digest, missing_fields,
}
use open_authority_trials_oa.Prelude.Dict.{put, get, Dict}
use open_authority_trials_oa.Canonical.Json.{Fields, get_field, null, bool, num, str, arr, obj}
use open_authority_trials_oa.Canonical.Digest.{Hashing}
use open_authority_trials_oa.HostSink.Tables.{
  record_arrival, record_commit, ledger_commit, idempotency_seen, ledger_commits, HostError,
  observer_receipts, SqliteLedger, token_digests, SqliteObserver, missing_key, assertion_failed,
  observed_paths,
}
use open_authority_trials_oa.Authority.Authorization.{
  record_use, Dimension, Authorization, AuthorizationIssuer, ValidationReport, valid, use_count,
}
use open_authority_trials_oa.Authority.CurrentState.{
  AuthorityStore, state_digest, AuthorityState, at,
}
use open_authority_trials_oa.Prelude.Int.{ℤ}
use open_authority_trials_oa.Prelude.Result.{Result, err, ◌>>=◌, ok}
use open_authority_trials_oa.Consequence.Sink.{prior_uses, failed_of}
use open_authority_trials_oa.Verifier.Consequence.{
  adjudicate, ConsequenceVerdict, ConsequenceEvidence,
}
use open_authority_trials_oa.Authority.Authorization.Validate.{validate_authorization}
use open_authority_trials_oa.Canonical.Printed.{str_of}

pub data HostOutcome : Type 0 where
  admitted refused committed errored : HostOutcome

pub data HostReason : Type 0 where
  idempotency_replay binding_not_satisfied all_bindings_satisfied unguarded_route : HostReason
  worker_timeout : HostReason

pub record HostDecision : Type 0 where
  pub outcome : HostOutcome
  pub reason : HostReason
  pub commit_id : Option String
  pub failed_dimensions : List Dimension

abbrev pub route_http_guarded : String
route_http_guarded = "route.http-guarded"

abbrev pub route_queue_worker : String
route_queue_worker = "route.queue-worker"

abbrev pub route_hidden_batch : String
route_hidden_batch = "route.hidden-batch"

abbrev pub declared_paths : PathInventory
declared_paths =
    record {
      route_id = route_http_guarded;
      description = "guarded synchronous payment endpoint";
      guarded = true;
    }
    ∷ record {
      route_id = route_queue_worker;
      description = "guarded async queue/worker endpoint";
      guarded = true;
    }
    ∷ []

-- the integration without its threads
pub record Host : Type 0 where
  pub sink : ProtectedSink
  pub authority : AuthorityStore
  pub issuer : AuthorizationIssuer
  pub ledger : SqliteLedger
  pub observer : SqliteObserver
  pub authorizations : Dict Authorization

unfoldable pub new_host : ProtectedSink → AuthorityStore → AuthorizationIssuer → Host
new_host sink authority issuer = record {
  sink = sink;
  authority = authority;
  issuer = issuer;
  ledger = [];
  observer = record { receipts = []; route_observations = [] };
  authorizations = [];
}

unfoldable pub register : Host → Authorization → Host
unfolding put
register host a = record host { authorizations = put host.authorizations a.authorization_id a }

-- A request's payload, with the keys that `payload.get` reads as options. Its texts are texts and
-- its tick is an integer.
pub record Payload : Type 0 where
  pub action : Fields
  pub authorization_id : Option String
  pub committed_at : ℤ
  pub commit_id : String
  pub idempotency_key : String
  pub agent_id : Option String
  pub trace_ref : Option String
  pub token_digest : Option String

abbrev or_text : Option String → String → String
or_text none s = s
or_text (some t) s = t

-- `str(action[key])`
unfoldable pub action_text : Fields → String → Result HostError String
unfolding get_field str_of
action_text action key = elim (get_field action key) [
  | none ↦ err (missing_key key)
  | some v ↦ ok (str_of v)
]

-- `auth_id if auth_id else None`
abbrev pub claimed_id : Option String → Option String
claimed_id none = none
claimed_id (some id) = if id == "" then none else some id

unfoldable pub held : Dict Authorization → Option String → Option Authorization
unfolding get
held authorizations none = none
held authorizations (some id) = get authorizations id

module _ (h : Hashing) where
  abbrev pub state_ref : Option AuthorityState → Option String
  unfolding state_digest
  state_ref none = none
  state_ref (some s) = some (state_digest h s)

  unfoldable pub event_of : Host → Payload → String → Result HostError CommitEvent
  unfolding action_text exact_action_digest at
  event_of host p route_id = action_text p.action "sink_id" >>= λ sink_id.
      action_text p.action "tenant_id" >>= λ tenant_id.
      action_text p.action "principal_id" >>= λ principal_id.
      action_text p.action "release_id" >>= λ release_id. elim (exact_action_digest h p.action) [
        | err names ↦ err (HostError.missing_fields names)
        | ok digest ↦ ok (record {
          commit_id = p.commit_id;
          sink_id = sink_id;
          route_id = route_id;
          tenant_id = tenant_id;
          principal_id = principal_id;
          agent_id = or_text p.agent_id "agent.integration-test";
          release_id = release_id;
          action_digest = digest;
          normalized_action = p.action;
          committed_at = p.committed_at;
          authorization_ref = claimed_id p.authorization_id;
          authority_state_ref = state_ref (at host.authority p.committed_at);
          idempotency_key = p.idempotency_key;
          trace_ref = or_text p.trace_ref (String.◌++◌ "trace-" p.commit_id);
        })
      ]

-- What `_build_commit` returns.
pub record Request : Type 0 where
  pub event : CommitEvent
  pub auth : Option Authorization
  pub presented : Option String

unfoldable pub build_commit : Hashing → Host → Payload → String → Result HostError Request
unfolding event_of held
build_commit h host p route_id = event_of h host p route_id >>= λ event. ok (record {
  event = event;
  auth = held host.authorizations (claimed_id p.authorization_id);
  presented = p.token_digest;
})
