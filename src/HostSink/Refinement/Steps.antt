-- ===== src/HostSink/Refinement/Steps.antt =====
-- oat/integration/host_sink.py: one guarded request against one submission to the sink.
use open_authority_trials_oa.Prelude.Result.{ok}
use open_authority_trials_oa.Canonical.Digest.{Hashing}
use open_authority_trials_oa.HostSink.{
  Host, Request, validate_authorization, valid, false, record_arrival, idempotency_seen, true, none,
  CommitEvent, HostDecision, HostReason, [],
}
use open_authority_trials_oa.Consequence.Sink.{
  PaymentLedgerSink, InterlockDecision, submit, refuse, InterlockOutcome, InterlockReason,
  replayed_key, failed_dimensions, no_dimensions, failed_of, admit,
}
use open_authority_trials_oa.HostSink.Refinement.{
  Refines, IsAnchored, ◌≡◌, commit_id_seen, reported, Bool-cases, keep, contains, inl, sym,
  Option-cases, inr, false≢true, host_report-interlock_report, logged, store_commit-new,
  arrive_refused-Refines, host_after-Refines, IsAnchored-after, fits, arith,
}
use open_authority_trials_oa.HostSink.Handlers.{
  decide_request, host_report, admit_request, arrive_refused, count_use, refuse_request, refusal,
}
use open_authority_trials_oa.Prelude.{
  ◌≡◌, false, Bool-cases, refl, keep, true, contains, none, sym, ◌≢◌, Option-cases, ◌∙◌, false≢true,
  [], arith,
}
use open_authority_trials_oa.Authority.Authorization.Validate.{validate_authorization}
use open_authority_trials_oa.HostSink.Tables.{
  commit_id_seen, record_arrival, idempotency_seen, fits,
}
use open_authority_trials_oa.Authority.Authorization.{valid, mismatches}
use open_authority_trials_oa.Consequence.Model.{CommitEvent}

-- One request against one submission: the states agree again, and so do the decisions.
pub record Simulates (h : Hashing) (host : Host) (r : Request) (s : PaymentLedgerSink)
    : Type 0 where
  pub refines : Refines (decide_request h host r).0 (submit h r.event r.auth r.presented s).0
  pub anchored : IsAnchored (decide_request h host r).0
  pub decision :
      (decide_request h host r).1 ≡ ok (reported r.event (submit h r.event r.auth r.presented s).1)

-- A refusal at a tick that fits is recorded.
refuse_request-fits :
    (host : Host) (event : CommitEvent) (d : HostDecision)
    → fits event.committed_at ≡ true
    → refuse_request host event d ≡ (arrive_refused host event, ok d)
unfolding refuse_request arrive_refused record_arrival
refuse_request-fits host event d fit = ground arith

module _ (h : Hashing) (host : Host) (r : Request) (s : PaymentLedgerSink) where
  abbrev sink_step : PaymentLedgerSink × InterlockDecision
  sink_step = submit h r.event r.auth r.presented s

  Simulates-by :
      {host' : Host} {s' : PaymentLedgerSink} {d : InterlockDecision}
      → decide_request h host r ≡ (host', ok (reported r.event d))
      → sink_step ≡ (s', d)
      → Refines host' s'
      → IsAnchored host'
      → Simulates h host r s
  Simulates-by e k f a = record {
    refines = rw (e, k) f;
    anchored = rw e a;
    decision = rw (e, k) refl;
  }

  Simulates-seen :
      IsAnchored host
      → Refines host s
      → fits r.event.committed_at ≡ true
      → idempotency_seen host.ledger r.event.idempotency_key ≡ true
      → Simulates h host r s
  unfolding decide_request submit refuse arrive_refused
  Simulates-seen a f fit seen =
      let also : contains s.seen_idempotency r.event.idempotency_key ≡ true =
        sym (f.seen r.event.idempotency_key) ∙ seen in
      let d : InterlockDecision = record {
        outcome = InterlockOutcome.refused;
        reason = InterlockReason.idempotency_replay;
        dimensions = replayed_key r.event.idempotency_key;
      } in
      Simulates-by {s' = logged s r.event d} {d = d}
        (rw (seen, refuse_request-fits host r.event (refusal HostReason.idempotency_replay []) fit)
          refl)
        (rw also refl) (arrive_refused-Refines host r.event s d f) a

  Simulates-invalid :
      IsAnchored host
      → Refines host s
      → fits r.event.committed_at ≡ true
      → idempotency_seen host.ledger r.event.idempotency_key ≡ false
      → valid (host_report h host r) ≡ false
      → Simulates h host r s
  unfolding decide_request submit refuse arrive_refused
  Simulates-invalid a f fit seen bad =
      let also : contains s.seen_idempotency r.event.idempotency_key ≡ false =
        sym (f.seen r.event.idempotency_key) ∙ seen in
      let same = host_report-interlock_report h host r s f in
      let d : InterlockDecision = record {
        outcome = InterlockOutcome.refused;
        reason = InterlockReason.binding_not_satisfied;
        dimensions = failed_dimensions (failed_of (host_report h host r));
      } in
      Simulates-by {s' = logged s r.event d} {d = d}
        (rw
          (
            seen,
            bad,
            refuse_request-fits host r.event
                (refusal HostReason.binding_not_satisfied (failed_of (host_report h host r))) fit,
          )
          refl)
        (rw (also, sym same, bad) refl) (arrive_refused-Refines host r.event s d f) a

  none-invalid : r.auth ≡ none → valid (host_report h host r) ≢ true
  unfolding host_report validate_authorization valid mismatches keep
  none-invalid e v = false≢true (rw e at v)

  Simulates-valid :
      IsAnchored host
      → Refines host s
      → fits r.event.committed_at ≡ true
      → commit_id_seen host.ledger r.event.commit_id ≡ false
      → idempotency_seen host.ledger r.event.idempotency_key ≡ false
      → valid (host_report h host r) ≡ true
      → Simulates h host r s
  unfolding decide_request submit admit_request count_use
  Simulates-valid a f fit new seen good = elim (Option-cases r.auth) [
    | inl e ↦ absurd (none-invalid e good)
    | inr (b, e) ↦
        let also : contains s.seen_idempotency r.event.idempotency_key ≡ false =
          sym (f.seen r.event.idempotency_key) ∙ seen in
        let same = host_report-interlock_report h host r s f in
        let d : InterlockDecision = record {
          outcome = InterlockOutcome.admitted;
          reason = InterlockReason.all_bindings_satisfied;
          dimensions = no_dimensions;
        } in
        Simulates-by {d = d}
          (rw (seen, good, e) (store_commit-new (count_use host b) r _ a fit new seen))
          (rw (also, sym same, good, e) (unfold admit in refl)) (host_after-Refines host r b s f)
          (IsAnchored-after (count_use host b) r a)
  ]

  pub decide_request-Simulates :
      IsAnchored host
      → Refines host s
      → fits r.event.committed_at ≡ true
      → commit_id_seen host.ledger r.event.commit_id ≡ false
      → Simulates h host r s
  decide_request-Simulates a f fit new =
      elim (Bool-cases (idempotency_seen host.ledger r.event.idempotency_key)) [
        | inl seen ↦ Simulates-seen a f fit seen
        | inr seen ↦ elim (Bool-cases (valid (host_report h host r))) [
          | inl good ↦ Simulates-valid a f fit new seen good
          | inr bad ↦ Simulates-invalid a f fit seen bad
        ]
      ]
