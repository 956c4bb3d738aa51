-- ===== src/HostSink/Handlers.antt =====
-- oat/integration/host_sink.py: the handlers `guarded` and `hidden`, and the evidence.
use open_authority_trials_oa.Prelude.Result.{ok, err, Result}
use open_authority_trials_oa.HostSink.Tables.{
  record_arrival, with_arrival, record_commit, ledger_commit, idempotency_seen, ledger_commits,
  observer_receipts, HostError, token_digests, assertion_failed, observed_paths,
}
use open_authority_trials_oa.HostSink.{
  HostReason, HostOutcome, Host, build_commit, List, CommitEvent, prior_uses, idempotency_seen,
  ledger_commits, adjudicate, HostDecision, Request, Payload, false, Bool, observer_receipts,
  ConsequenceVerdict, Result, String, none, some, HostError, token_digests, route_hidden_batch, [],
  validate_authorization, assertion_failed, observed_paths, at, true, not, reconcile,
  ConsequenceEvidence, map, declared_paths,
}
use open_authority_trials_oa.Authority.Authorization.{
  record_use, Dimension, Authorization, ValidationReport, valid, use_count,
}
use open_authority_trials_oa.Canonical.Digest.{Hashing}
use open_authority_trials_oa.Prelude.{
  List, false, Bool, String, none, some, if◌then◌else◌, [], true, not, map,
}
use open_authority_trials_oa.Consequence.Model.{CommitEvent}
use open_authority_trials_oa.Consequence.Sink.{prior_uses, failed_of}
use open_authority_trials_oa.Verifier.Consequence.{
  adjudicate, ConsequenceVerdict, ConsequenceEvidence,
}
use open_authority_trials_oa.Authority.Authorization.Validate.{validate_authorization}
use open_authority_trials_oa.Authority.CurrentState.{at}
use open_authority_trials_oa.Paths.{reconcile}

-- The host with a refused arrival on the route.
unfoldable pub arrive_refused : Host → CommitEvent → Host
unfolding with_arrival
arrive_refused host event = record host {
  observer = with_arrival host.observer event.route_id event.committed_at false false none;
}

-- A refusal, once its arrival is recorded.
unfoldable pub refuse_request :
    Host → CommitEvent → HostDecision → Host × Result HostError HostDecision
unfolding record_arrival
refuse_request host event decision =
    elim (record_arrival host.observer event.route_id event.committed_at false false none) [
      | err e ↦ (host, err e)
      | ok observer ↦ (record host { observer = observer }, ok decision)
    ]

abbrev pub refusal : HostReason → List Dimension → HostDecision
refusal reason failed = record {
  outcome = HostOutcome.refused;
  reason = reason;
  commit_id = none;
  failed_dimensions = failed;
}

abbrev pub done_by : HostOutcome → HostReason → CommitEvent → HostDecision
done_by outcome reason event = record {
  outcome = outcome;
  reason = reason;
  commit_id = some event.commit_id;
  failed_dimensions = [];
}

-- `self.observer.record_commit(event)` and the decision after it
unfoldable pub observe_commit :
    Host → CommitEvent → Bool → HostDecision → Host × Result HostError HostDecision
unfolding record_commit
observe_commit host event emit_receipt decision =
    let (observer, stored) = record_commit host.observer event emit_receipt in
    (record host { observer = observer }, elim stored [ none ↦ ok decision | some e ↦ err e ])

-- `self.ledger.commit(event, presented)` and what follows it; the observer does not learn of a
-- commit that the ledger refuses
unfoldable pub store_commit :
    Host → Request → Bool → HostDecision → Host × Result HostError HostDecision
unfolding ledger_commit observe_commit
store_commit host r emit_receipt decision = elim (ledger_commit host.ledger r.event r.presented) [
  | err e ↦ (host, err e)
  | ok ledger ↦ observe_commit (record host { ledger = ledger }) r.event emit_receipt decision
]

unfoldable pub count_use : Host → Authorization → Host
unfolding record_use
count_use host a = record host { issuer = (record_use host.issuer a.authorization_id).0 }

-- after the report is valid
unfoldable pub admit_request : Host → Request → Host × Result HostError HostDecision
unfolding count_use store_commit
admit_request host r = elim r.auth [
  | none ↦ (host, err assertion_failed)
  | some a ↦
      store_commit (count_use host a) r true
        (done_by HostOutcome.admitted HostReason.all_bindings_satisfied r.event)
]

unfoldable pub hidden_request : Host → Request → Bool → Host × Result HostError HostDecision
unfolding store_commit refuse_request
hidden_request host r emit_receipt =
    if idempotency_seen host.ledger r.event.idempotency_key
    then refuse_request host r.event (refusal HostReason.idempotency_replay [])
    else store_commit host r emit_receipt
        (done_by HostOutcome.committed HostReason.unguarded_route r.event)

unfoldable pub host_evidence : Host → ConsequenceEvidence
unfolding ledger_commits observer_receipts token_digests observed_paths reconcile use_count
host_evidence host = record {
  protected_sink = host.sink;
  commits = ledger_commits host.ledger;
  receipts = observer_receipts host.observer;
  authorizations = host.authorizations;
  authority = some host.authority;
  issuer = some host.issuer;
  correlated_token_digests = token_digests host.ledger;
  use_counts =
      map (λ (e : String × Authorization). (e.0, use_count host.issuer e.0)) host.authorizations;
  reconciliation = some (reconcile declared_paths (observed_paths host.observer));
  internal_property_failures = [];
  instrument_failures = [];
}

module _ (h : Hashing) where
  unfoldable pub host_report : Host → Request → ValidationReport
  unfolding prior_uses
  host_report host r =
      validate_authorization h r.auth r.event (at host.authority r.event.committed_at)
        (some host.issuer) (prior_uses r.auth host.issuer) r.presented

  unfoldable pub decide_request : Host → Request → Host × Result HostError HostDecision
  unfolding host_report admit_request refuse_request idempotency_seen
  decide_request host r =
      let report = host_report host r in
      if idempotency_seen host.ledger r.event.idempotency_key
      then refuse_request host r.event (refusal HostReason.idempotency_replay [])
      else if not (valid report)
      then refuse_request host r.event (refusal HostReason.binding_not_satisfied (failed_of report))
      else admit_request host r

  unfoldable pub guarded : Host → Payload → String → Host × Result HostError HostDecision
  unfolding build_commit decide_request
  guarded host p route_id = elim (build_commit h host p route_id) [
    | err e ↦ (host, err e)
    | ok r ↦ decide_request host r
  ]

  unfoldable pub hidden : Host → Payload → Bool → Host × Result HostError HostDecision
  unfolding build_commit hidden_request
  hidden host p emit_receipt = elim (build_commit h host p route_hidden_batch) [
    | err e ↦ (host, err e)
    | ok r ↦ hidden_request host r emit_receipt
  ]

  unfoldable pub host_verdict : Host → ConsequenceVerdict
  unfolding host_evidence adjudicate
  host_verdict host = adjudicate h (host_evidence host)
