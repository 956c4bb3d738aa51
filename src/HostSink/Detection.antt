-- ===== src/HostSink/Detection.antt =====
-- oat/integration/host_sink.py, `hidden` and `verdict`: commits of the hidden route before the
-- verifier of oat/verifier/consequence.py.
use open_authority_trials_oa.HostSink.Handlers.{
  hidden_request, done_by, host_evidence, host_verdict,
}
use open_authority_trials_oa.Prelude.{
  List, Elem, map, Any, ap, ◌==◌, ◌≡◌, true, false, [], none, find_first-Elem, sort_by,
  Elem-sort_by, Any-append_right, eq_refl, refl,
}
use open_authority_trials_oa.HostSink.Tables.{
  ledger_commits, observer_receipts, LedgerRow, commit_id_seen, idempotency_seen, receipt_before,
  commit_before, observer_receipt, stored_event, fits,
}
use open_authority_trials_oa.Canonical.Digest.{Hashing}
use open_authority_trials_oa.HostSink.{
  Host, Request, map, ◌∷◌, true, false, idempotency_seen, HostOutcome, HostReason,
}
use open_authority_trials_oa.Verifier.Consequence.{receipt_for, consequence_boundary_failure}
use open_authority_trials_oa.HostSink.Refinement.{IsAnchored, store_commit-new, host_after}
use open_authority_trials_oa.Consequence.Model.{ConsequenceReceipt, protects}
use open_authority_trials_oa.Verifier.Consequence.Verdict.{adjudicate-crossing_iff}
use open_authority_trials_oa.HostSink.Ledger.{row_of}
use open_authority_trials_oa.Verifier.Consequence.Findings.{adjudicate_commit_unclaimed}

Elem-map {ℓ κ} :
    {A : Type ℓ} {B : Type κ} (f : A → B) {a : A} (xs : List A) → Elem a xs → Elem (f a) (map f xs)
Elem-map f [] m = elim m [ ]
Elem-map f (x ∷ xs) (Any.head e) = Any.head (ap f e)
Elem-map f (x ∷ xs) (Any.tail m) = Any.tail (Elem-map f xs m)

-- A protected commit that claims no authorization, and that has a receipt, makes the verdict a
-- boundary failure.
unclaimed-detected :
    (h : Hashing) (host : Host) (row : LedgerRow) (receipt : ConsequenceReceipt)
    → Elem row host.ledger
    → Elem receipt host.observer.receipts
    → (receipt.commit_id == row.event.commit_id) ≡ true
    → row.event.authorization_ref ≡ none
    → protects host.sink row.event ≡ true
    → (host_verdict h host).disposition ≡ consequence_boundary_failure
unfolding host_verdict host_evidence ledger_commits observer_receipts receipt_for stored_event
    protects
unclaimed-detected h host row receipt at_row at_receipt same unclaimed protected =
    let e = host_evidence host in
    let (found, there) =
      find_first-Elem (λ (r : ConsequenceReceipt). r.commit_id == row.event.commit_id)
        (sort_by receipt_before host.observer.receipts)
        ((Elem-sort_by receipt_before host.observer.receipts receipt).1 at_receipt) same in
    (adjudicate-crossing_iff h e).1 (
      refl,
      (
        stored_event row.event,
        (Elem-sort_by commit_before (map (λ (r : LedgerRow). stored_event r.event) host.ledger)
              (stored_event row.event)).1
            (Elem-map (λ (r : LedgerRow). stored_event r.event) host.ledger at_row),
        protected,
        adjudicate_commit_unclaimed h e (stored_event row.event) host.authority found unclaimed refl
            there,
      ),
    )

pub hidden_request-detected :
    (h : Hashing) (host : Host) (r : Request)
    → IsAnchored host
    → fits r.event.committed_at ≡ true
    → commit_id_seen host.ledger r.event.commit_id ≡ false
    → idempotency_seen host.ledger r.event.idempotency_key ≡ false
    → r.event.authorization_ref ≡ none
    → protects host.sink r.event ≡ true
    → (host_verdict h (hidden_request host r true).0).disposition ≡ consequence_boundary_failure
unfolding hidden_request
hidden_request-detected h host r anchored fit new_id new_key unclaimed protected =
    let stored =
      store_commit-new host r (done_by HostOutcome.committed HostReason.unguarded_route r.event)
        anchored fit new_id new_key in
    rw (new_key, stored)
      (unclaimed-detected h (host_after host r) (row_of r) (observer_receipt r.event)
        (Any-append_right host.ledger (row_of r ∷ []) (Any.head refl))
        (Any-append_right host.observer.receipts (observer_receipt r.event ∷ []) (Any.head refl))
        (unfold observer_receipt in eq_refl r.event.commit_id) unclaimed protected)
