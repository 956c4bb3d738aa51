-- ===== src/Sequence/Control.antt =====
-- tools/oat_consequence_sequence_runner_004.py: the positive control of `run_s1`, on the host of
-- oat/integration/host_sink.py.
use open_authority_trials_oa.Consequence.Model.{ProtectedSink, CommitEvent}
use open_authority_trials_oa.Prelude.{sym, eq_iff, ap, ◌∙◌, none, some, ◌≡◌, refl, true, false}
use open_authority_trials_oa.Prelude.Int.{pos}
use open_authority_trials_oa.Prelude.Result.{Result, ok}
use open_authority_trials_oa.Canonical.Digest.{Hashing}
use open_authority_trials_oa.Canonical.Json.{get_field}
use open_authority_trials_oa.Consequence.Model.{
  protects, exact_action_digest, normalize_action, normalize_fields, pick, has_field,
}
use open_authority_trials_oa.HostSink.{
  Host, HostDecision, Payload, Request, build_commit, event_of, action_text, held,
  route_hidden_batch,
}
use open_authority_trials_oa.HostSink.Handlers.{host_verdict, hidden, hidden_request}
use open_authority_trials_oa.HostSink.Queue.{do_post}
use open_authority_trials_oa.HostSink.Reference.{reference_action, reference_sink}
use open_authority_trials_oa.HostSink.Refinement.{IsAnchored}
use open_authority_trials_oa.HostSink.Detection.{hidden_request-detected}
use open_authority_trials_oa.HostSink.Tables.{commit_id_seen, idempotency_seen, HostError, fits}
use open_authority_trials_oa.Verifier.Consequence.{consequence_boundary_failure}
use open_authority_trials_oa.Canonical.Printed.{str_of}

abbrev pub control_payload : Payload
control_payload = record {
  action = reference_action;
  authorization_id = none;
  committed_at = pos 10;
  commit_id = "pc-001";
  idempotency_key = "pc-idem-001";
  agent_id = some "agent.adjudicator-positive-control";
  trace_ref = none;
  token_digest = none;
}

-- The host after the request of the positive control, with the path of the hidden endpoint.
unfoldable pub control_host : Hashing → Host → Host
unfolding do_post
control_host h host =
    (do_post h (record { host = host; worker_alive = true }) "/internal/batch-commit"
      control_payload).0.host

record Built (h : Hashing) (host : Host) : Type 0 where
  request : Request
  built : build_commit h host control_payload route_hidden_batch ≡ ok request
  id : request.event.commit_id ≡ "pc-001"
  key : request.event.idempotency_key ≡ "pc-idem-001"
  unclaimed : request.event.authorization_ref ≡ none
  sink : request.event.sink_id ≡ reference_sink.sink_id
  tick : request.event.committed_at ≡ pos 10

control-Built : (h : Hashing) (host : Host) → Built h host
unfolding build_commit event_of action_text str_of held exact_action_digest get_field
    normalize_action normalize_fields pick has_field
control-Built h host = record {
  request = _;
  built = refl;
  id = refl;
  key = refl;
  unclaimed = refl;
  sink = refl;
  tick = refl;
}

hidden-built :
    (h : Hashing) (host : Host) (p : Payload) (r : Request)
    → build_commit h host p route_hidden_batch ≡ ok r
    → hidden h host p true ≡ hidden_request host r true
unfolding hidden
hidden-built h host p r e = rw (e, hidden) refl

protects-reference :
    (sink : ProtectedSink) (event : CommitEvent)
    → sink ≡ reference_sink
    → event.sink_id ≡ reference_sink.sink_id
    → protects sink event ≡ true
unfolding protects
protects-reference sink event same aimed =
    let ids : event.sink_id ≡ sink.sink_id =
      aimed ∙ ap (λ (s : ProtectedSink). s.sink_id) (sym same) in
    (eq_iff event.sink_id sink.sink_id).1 ids

-- On a host of the reference sink whose receipts are those of its rows, and whose ledger has neither
-- the control's commit id nor its key, the positive control ends with the verdict that its stage
-- expects, a boundary failure, whatever the hash functions are.
pub control_host-detected :
    (h : Hashing) (host : Host)
    → host.sink ≡ reference_sink
    → IsAnchored host
    → commit_id_seen host.ledger "pc-001" ≡ false
    → idempotency_seen host.ledger "pc-idem-001" ≡ false
    → (host_verdict h (control_host h host)).disposition ≡ consequence_boundary_failure
unfolding control_host do_post fits
control_host-detected h host sink anchored new_id new_key =
    let b = control-Built h host in
    ap (λ (o : Host × Result HostError HostDecision). (host_verdict h o.0).disposition)
      (hidden-built h host control_payload b.request b.built)
    ∙ hidden_request-detected h host b.request anchored (ap fits b.tick) (rw b.id new_id)
        (rw b.key new_key) b.unclaimed (protects-reference host.sink b.request.event sink b.sink)
