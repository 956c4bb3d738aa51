-- ===== src/HostSink/Refinement.antt =====
-- oat/integration/host_sink.py, `guarded`, against oat/consequence/sink.py, `submit`: the sink is what
-- the host's tables stand for.
pub mod Steps
pub mod Sequences
use Prim.Native.String
use mathlib.Core.List.{map-append}
use text.Mathlib.TextLemmas.{append_cancel_left}
use open_authority_trials_oa.HostSink.Tables.{
  SqliteLedger, receipt_id_seen, record_arrival, LedgerRow, observer_receipt, idempotency_seen,
  commit_id_seen, ledger_commit, record_commit, with_arrival, fits,
}
use open_authority_trials_oa.Prelude.{
  List, map, All, any, String, ◌≡◌, ◌++◌, ◌∷◌, contains, true, [], false, refl, ap, Bool-cases,
  some, ◌==◌, none, inl, sym, ◌∙◌, eq_iff, false≢true, inr, any-append_last, arith, All-append,
  All-map, eq_refl, Option-cases, keep, ◌≢◌, length, ◌+◌,
}
use open_authority_trials_oa.HostSink.{
  Host, record_arrival, HostDecision, Hashing, Request, idempotency_seen, HostOutcome, true, false,
  HostReason, some, none, ledger_commit, record_commit, ok, Authorization, validate_authorization,
}
use open_authority_trials_oa.Consequence.Model.{CommitEvent, ConsequenceReceipt}
use open_authority_trials_oa.HostSink.Handlers.{
  host_report, arrive_refused, store_commit, observe_commit, count_use, decide_request,
  admit_request,
}
use open_authority_trials_oa.Consequence.Sink.{
  PaymentLedgerSink, InterlockDecision, interlock_report, InterlockOutcome, refused_arrival,
  InterlockReason, no_dimensions, replayed_key, failed_dimensions, committed_arrival, add_text,
  submit, admit, append_commit, receipt_of, refuse, failed_of,
}
use open_authority_trials_oa.Canonical.Digest.{Hashing}
use open_authority_trials_oa.Prelude.Result.{ok}
use open_authority_trials_oa.Paths.Reconcile.{contains-add_text}
use open_authority_trials_oa.Authority.Authorization.{Authorization, record_use, valid, mismatches}
use open_authority_trials_oa.Authority.Authorization.Validate.{validate_authorization}

abbrev pub events_of : SqliteLedger → List CommitEvent
events_of ledger = map (λ (r : LedgerRow). r.event) ledger

-- A receipt without its id and its observer, which the two observers choose differently.
abbrev pub stated : ConsequenceReceipt → ConsequenceReceipt
stated r = record r { receipt_id = ""; observer = "" }

abbrev pub receipted : List ConsequenceReceipt → List ConsequenceReceipt
receipted receipts = map stated receipts

pub record Refines (host : Host) (s : PaymentLedgerSink) : Type 0 where
  pub commits : events_of host.ledger ≡ s.commits
  pub receipts : receipted host.observer.receipts ≡ receipted s.receipts
  pub routes : host.observer.route_observations ≡ s.route_log
  pub seen : (key : String) → idempotency_seen host.ledger key ≡ contains s.seen_idempotency key
  pub issuer : host.issuer ≡ s.issuer
  pub authority : host.authority ≡ s.authority

-- Each receipt of the observer is that of a row of the ledger.
abbrev pub IsAnchored : Host → Type 0
IsAnchored host =
    All
      (λ (r : ConsequenceReceipt).
        (r.receipt_id ≡ String.◌++◌ "receipt-" r.commit_id)
        × (commit_id_seen host.ledger r.commit_id ≡ true))
      host.observer.receipts

-- The interlock's decision, as the host reports it.
abbrev pub reported : CommitEvent → InterlockDecision → HostDecision
reported event d = record {
  outcome = elim d.outcome [
    | InterlockOutcome.admitted ↦ HostOutcome.admitted
    | InterlockOutcome.refused ↦ HostOutcome.refused
  ];
  reason = elim d.reason [
    | InterlockReason.idempotency_replay ↦ HostReason.idempotency_replay
    | InterlockReason.binding_not_satisfied ↦ HostReason.binding_not_satisfied
    | InterlockReason.all_bindings_satisfied ↦ HostReason.all_bindings_satisfied
  ];
  commit_id = elim d.outcome [
    | InterlockOutcome.admitted ↦ some event.commit_id
    | InterlockOutcome.refused ↦ none
  ];
  failed_dimensions = elim d.dimensions [
    | no_dimensions ↦ []
    | replayed_key k ↦ []
    | failed_dimensions ds ↦ ds
  ];
}

pub host_report-interlock_report :
    (h : Hashing) (host : Host) (r : Request) (s : PaymentLedgerSink)
    → Refines host s
    → host_report h host r ≡ interlock_report h r.event r.auth r.presented s
unfolding host_report interlock_report
host_report-interlock_report h host r s f = rw (f.issuer, f.authority) refl

-- The sink after it has logged a refusal.
abbrev pub logged : PaymentLedgerSink → CommitEvent → InterlockDecision → PaymentLedgerSink
logged s event d = record s {
  interlock_log = s.interlock_log ++ d ∷ [];
  route_log = s.route_log ++ refused_arrival event ∷ [];
}

pub arrive_refused-Refines :
    (host : Host) (event : CommitEvent) (s : PaymentLedgerSink) (d : InterlockDecision)
    → Refines host s
    → Refines (arrive_refused host event) (logged s event d)
unfolding arrive_refused with_arrival
arrive_refused-Refines host event s d f = record {
  commits = f.commits;
  receipts = f.receipts;
  routes = ap (λ log. log ++ refused_arrival event ∷ []) f.routes;
  seen = f.seen;
  issuer = f.issuer;
  authority = f.authority;
}

receipt_id-new :
    (ledger : SqliteLedger) (event : CommitEvent) (rs : List ConsequenceReceipt)
    → All
        (λ (r : ConsequenceReceipt).
          (r.receipt_id ≡ String.◌++◌ "receipt-" r.commit_id)
          × (commit_id_seen ledger r.commit_id ≡ true))
        rs
    → commit_id_seen ledger event.commit_id ≡ false
    → receipt_id_seen rs (observer_receipt event).receipt_id ≡ false
unfolding receipt_id_seen any observer_receipt
receipt_id-new ledger event [] a new = refl
receipt_id-new ledger event (r ∷ rs) a new =
    elim (Bool-cases (r.receipt_id == String.◌++◌ "receipt-" event.commit_id)) [
      | inl e ↦
          let same : r.commit_id ≡ event.commit_id =
            append_cancel_left "receipt-" r.commit_id event.commit_id
              (sym a.0.0 ∙ (eq_iff r.receipt_id (String.◌++◌ "receipt-" event.commit_id)).0 e) in
          absurd (false≢true (sym new ∙ ap (commit_id_seen ledger) (sym same) ∙ a.0.1))
      | inr e ↦ rw e (receipt_id-new ledger event rs a.1 new)
    ]

-- The host after it has stored an admitted request.
abbrev pub host_after : Host → Request → Host
host_after host r = record host {
  ledger = host.ledger ++ record { event = r.event; token_digest = r.presented } ∷ [];
  observer = record {
    receipts = host.observer.receipts ++ observer_receipt r.event ∷ [];
    route_observations = host.observer.route_observations ++ committed_arrival r.event ∷ [];
  };
}

pub store_commit-new :
    (host : Host) (r : Request) (d : HostDecision)
    → IsAnchored host
    → fits r.event.committed_at ≡ true
    → commit_id_seen host.ledger r.event.commit_id ≡ false
    → idempotency_seen host.ledger r.event.idempotency_key ≡ false
    → store_commit host r true d ≡ (host_after host r, ok d)
unfolding store_commit ledger_commit observe_commit record_commit record_arrival with_arrival
store_commit-new host r d a fit new_id new_key =
    ground (arith, receipt_id-new host.ledger r.event host.observer.receipts a new_id)

seen-after :
    (ledger : SqliteLedger) (row : LedgerRow) (seen : List String)
    → ((key : String) → idempotency_seen ledger key ≡ contains seen key)
    → (key : String)
    → idempotency_seen (ledger ++ row ∷ []) key
      ≡ contains (add_text row.event.idempotency_key seen) key
unfolding idempotency_seen
seen-after ledger row seen f key =
    any-append_last (λ (r : LedgerRow). r.event.idempotency_key == key) ledger row
    ∙ ground (arith, f key, contains-add_text row.event.idempotency_key seen key)

pub IsAnchored-after :
    (host : Host) (r : Request) → IsAnchored host → IsAnchored (host_after host r)
unfolding observer_receipt commit_id_seen
IsAnchored-after host r a =
    let row : LedgerRow = record { event = r.event; token_digest = r.presented } in
    All-append _ host.observer.receipts (observer_receipt r.event ∷ [])
      (All-map
        (λ (q : ConsequenceReceipt) b. (
          b.0,
          any-append_last (λ (x : LedgerRow). x.event.commit_id == q.commit_id) host.ledger row
              ∙ ground (arith, b.1),
        ))
        host.observer.receipts a)
      (
        (
          refl,
          any-append_last (λ (x : LedgerRow). x.event.commit_id == r.event.commit_id) host.ledger
                row
              ∙ ground (arith, eq_refl r.event.commit_id),
        ),
        tt,
      )

pub host_after-Refines :
    (host : Host) (r : Request) (a : Authorization) (s : PaymentLedgerSink)
    → Refines host s
    → Refines (host_after (count_use host a) r) (admit (some a) r.event s).0
unfolding count_use admit append_commit receipt_of observer_receipt
host_after-Refines host r a s f =
    let row : LedgerRow = record { event = r.event; token_digest = r.presented } in
    record {
      commits =
          map-append (λ (x : LedgerRow). x.event) host.ledger (row ∷ [])
          ∙ ap (λ cs. cs ++ r.event ∷ []) f.commits;
      receipts =
          map-append _ host.observer.receipts (observer_receipt r.event ∷ [])
          ∙ ap (λ rs. rs ++ stated (observer_receipt r.event) ∷ []) f.receipts
          ∙ sym (map-append _ s.receipts (receipt_of (length s.receipts + 1) r.event ∷ []));
      routes = ap (λ log. log ++ committed_arrival r.event ∷ []) f.routes;
      seen = seen-after host.ledger row s.seen_idempotency f.seen;
      issuer = ap (λ i. (record_use i a.authorization_id).0) f.issuer;
      authority = f.authority;
    }
