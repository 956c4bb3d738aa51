-- ===== src/HostSink/Interleaving/Stages.antt =====
-- oat/integration/host_sink.py: what one stage of a guarded call keeps.
use open_authority_trials_oa.HostSink.Interleaving.Placed.{
  observer_receipt-IsReceiptOf, IsDecided, IsPlaced, IsReceipted, Keeps, Keeps-same,
  IsPlaced-approved_stage,
}
use native.Mathlib.Omega.{arith}
use open_authority_trials_oa.HostSink.Interleaving.{
  Stage, stored_stage, receipted_stage, advance_stage, refusing, approved_stage, validated_stage,
  stored, observed, counted, finished, arriving, unseen, observe_arrival, approved, refused_stage,
  Host, refuse_request, observer_receipt, receipt_id_seen, integrity_error,
}
use open_authority_trials_oa.HostSink.{
  Host, Request, HostOutcome, err, ok, AuthorizationIssuer, record_arrival, ledger_commit, Hashing,
  HostDecision, List, false, idempotency_seen, HostReason, [],
}
use open_authority_trials_oa.Prelude.{
  Elem, ◌≡◌, List, false, Bool-cases, ◌++◌, inl, inr, subst, ◌∷◌, sym, [], All-append,
  Any-append_left, Any-append_right, All-map, Any, refl,
}
use open_authority_trials_oa.HostSink.Tables.{
  LedgerRow, record_arrival, commit_id_seen, ledger_commit, observer_receipt, with_arrival, fits,
  idempotency_seen, receipt_id_seen, tick_overflow, integrity_error,
}
use open_authority_trials_oa.HostSink.Ledger.{IsUnique, row_of, IsUnique-append}
use open_authority_trials_oa.Authority.Authorization.{AuthorizationIssuer, valid}
use open_authority_trials_oa.HostSink.Handlers.{
  refuse_request, refusal, host_report, count_use, arrive_refused,
}
use open_authority_trials_oa.Canonical.Digest.{Hashing}
use open_authority_trials_oa.Consequence.Sink.{RouteObservation, refused_arrival, committed_arrival}

-- What one stage of a call does to the invariant.
pub record StepSound (old : Host) (r : Request) (new : Host) (stage : Stage) : Type 0 where
  pub unique : IsUnique new.ledger
  pub receipted : IsReceipted new
  pub keeps : Keeps old new
  pub placed : IsPlaced new r stage

module _ (host : Host) (r : Request) (u : IsUnique host.ledger) (a : IsReceipted host) where
  -- A stage that leaves the ledger and the receipts.
  same_tables :
      (uses : AuthorizationIssuer) (log : List RouteObservation) (stage : Stage)
      → let new : Host = record host {
        issuer = uses;
        observer = record host.observer { route_observations = log };
      } in
        IsPlaced new r stage → StepSound host r new stage
  same_tables uses log stage p = record {
    unique = u;
    receipted = a;
    keeps = record { rows = λ row m. m; receipts = λ q m. m };
    placed = p;
  }

  unchanged : (stage : Stage) → IsPlaced host r stage → StepSound host r host stage
  unchanged stage p = record { unique = u; receipted = a; keeps = Keeps-same host; placed = p }

  StepSound-by :
      {p : Host × Stage} {host' : Host} {stage : Stage}
      → p ≡ (host', stage)
      → StepSound host r host' stage
      → StepSound host r p.0 p.1
  StepSound-by e s = rw e s

  -- A refusal, whether its arrival is recorded or does not fit.
  StepSound-refused_stage :
      (d : HostDecision)
      → d.outcome ≡ HostOutcome.refused
      → StepSound host r (refused_stage host r d).0 (refused_stage host r d).1
  unfolding refused_stage refuse_request record_arrival with_arrival arrive_refused
  StepSound-refused_stage d e = elim (Bool-cases (fits r.event.committed_at)) [
    | inl n ↦ StepSound-by (ground arith) (
        same_tables host.issuer (host.observer.route_observations ++ refused_arrival r.event ∷ [])
          (finished (ok d)) (subst (IsDecided (arrive_refused host r.event) r) (sym e) tt))
    | inr n ↦ StepSound-by (ground arith) (unchanged (finished (err tick_overflow)) tt)
  ]

  -- The arrival of a stored commit.
  StepSound-observe_arrival :
      Elem (row_of r) host.ledger
      → StepSound host r (observe_arrival host r).0 (observe_arrival host r).1
  unfolding observe_arrival record_arrival with_arrival
  StepSound-observe_arrival p = elim (Bool-cases (fits r.event.committed_at)) [
    | inl n ↦ StepSound-by (ground arith) (
        same_tables host.issuer (host.observer.route_observations ++ committed_arrival r.event ∷ [])
          observed p)
    | inr n ↦ StepSound-by (ground arith) (unchanged (finished (err tick_overflow)) tt)
  ]

  -- The insertion, when the ledger accepts it.
  StepSound-inserted :
      commit_id_seen host.ledger r.event.commit_id ≡ false
      → idempotency_seen host.ledger r.event.idempotency_key ≡ false
      → StepSound host r (record host { ledger = host.ledger ++ row_of r ∷ [] }) stored
  StepSound-inserted e k =
      let more : (row : LedgerRow)
          → Elem row host.ledger
          → Elem row (host.ledger ++ row_of r ∷ []) =
        λ row. Any-append_left host.ledger (row_of r ∷ []) in
      record {
        unique = IsUnique-append host.ledger (row_of r) u e k;
        receipted = All-map (λ q b. (b.0, more b.0 b.1, b.2)) host.observer.receipts a;
        keeps = record { rows = more; receipts = λ q m. m };
        placed = Any-append_right host.ledger (row_of r ∷ []) (Any.head refl);
      }

  StepSound-stored_stage : StepSound host r (stored_stage host r).0 (stored_stage host r).1
  unfolding stored_stage ledger_commit
  StepSound-stored_stage = elim (Bool-cases (fits r.event.committed_at)) [
    | inr n ↦ StepSound-by (ground arith) (unchanged (finished (err tick_overflow)) tt)
    | inl n ↦ elim (Bool-cases (commit_id_seen host.ledger r.event.commit_id)) [
      | inl e ↦
          StepSound-by (ground arith)
            (unchanged (finished (err (integrity_error "ledger_commits.commit_id"))) tt)
      | inr e ↦ elim (Bool-cases (idempotency_seen host.ledger r.event.idempotency_key)) [
        | inl k ↦
            StepSound-by (ground arith)
              (unchanged (finished (err (integrity_error "ledger_commits.idempotency_key"))) tt)
        | inr k ↦ StepSound-by (ground arith) (StepSound-inserted e k)
      ]
    ]
  ]

  -- The receipt.
  StepSound-receipted_stage :
      Elem (row_of r) host.ledger
      → StepSound host r (receipted_stage host r).0 (receipted_stage host r).1
  unfolding receipted_stage
  StepSound-receipted_stage p =
      elim (Bool-cases
        (receipt_id_seen host.observer.receipts (observer_receipt r.event).receipt_id)) [
          | inl e ↦ rw e (unchanged (finished (err (integrity_error "receipts.receipt_id"))) tt)
          | inr e ↦ rw e (record {
            unique = u;
            receipted =
                All-append _ host.observer.receipts (observer_receipt r.event ∷ []) a
                  ((row_of r, p, observer_receipt-IsReceiptOf r.event), tt);
            keeps = record {
              rows = λ row m. m;
              receipts =
                  λ q. Any-append_left host.observer.receipts (observer_receipt r.event ∷ []);
            };
            placed = (
              p,
              observer_receipt r.event,
              Any-append_right host.observer.receipts (observer_receipt r.event ∷ [])
                  (Any.head refl),
              observer_receipt-IsReceiptOf r.event,
            );
          })
        ]

  pub StepSound-advance_stage :
      (h : Hashing) (stage : Stage)
      → IsPlaced host r stage
      → StepSound host r (advance_stage h host r stage).0 (advance_stage h host r stage).1
  unfolding advance_stage validated_stage
  StepSound-advance_stage h arriving p =
      elim (Bool-cases (idempotency_seen host.ledger r.event.idempotency_key)) [
        | inl e ↦ rw e (unchanged (refusing (refusal HostReason.idempotency_replay [])) refl)
        | inr e ↦ rw e (unchanged unseen tt)
      ]
  StepSound-advance_stage h unseen p = elim (Bool-cases (valid (host_report h host r))) [
    | inl e ↦ rw e (unchanged (approved_stage r.auth) (IsPlaced-approved_stage host r r.auth))
    | inr e ↦ rw e (unchanged (refusing _) refl)
  ]
  StepSound-advance_stage h (refusing d) p = StepSound-refused_stage d p
  StepSound-advance_stage h (approved b) p =
      unfold count_use in same_tables _ host.observer.route_observations (counted b) tt
  StepSound-advance_stage h (counted b) p = StepSound-stored_stage
  StepSound-advance_stage h stored p = StepSound-observe_arrival p
  StepSound-advance_stage h observed p = StepSound-receipted_stage p
  StepSound-advance_stage h (finished d) p = unchanged (finished d) p
