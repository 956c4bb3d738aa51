-- ===== src/HostSink/Interleaving/Placed.antt =====
-- oat/integration/host_sink.py: where the calls stand in the tables.
use Prim.Native.String
use open_authority_trials_oa.HostSink.Interleaving.{
  Stage, refusing, approved_stage, stored, observed, counted, finished, arriving, unseen, approved,
  Host, observer_receipt,
}
use open_authority_trials_oa.HostSink.{
  Host, Request, HostOutcome, Result, err, Option, HostError, ok, Authorization, HostDecision, some,
}
use open_authority_trials_oa.Prelude.{All, Elem, Option, ◌≡◌, none, refl}
use open_authority_trials_oa.HostSink.Tables.{LedgerRow, HostError, observer_receipt}
use open_authority_trials_oa.Prelude.Result.{Result}
use open_authority_trials_oa.Consequence.Model.{ConsequenceReceipt, CommitEvent}
use open_authority_trials_oa.HostSink.Ledger.{row_of}
use open_authority_trials_oa.Authority.Authorization.{Authorization}

-- The receipt of a commit, in every field.
pub record IsReceiptOf (event : CommitEvent) (q : ConsequenceReceipt) : Type 0 where
  pub receipt_id : q.receipt_id ≡ String.◌++◌ "receipt-" event.commit_id
  pub commit_id : q.commit_id ≡ event.commit_id
  pub sink_id : q.sink_id ≡ event.sink_id
  pub route_id : q.route_id ≡ event.route_id
  pub observed_at : q.observed_at ≡ event.committed_at
  pub action_digest : q.action_digest ≡ event.action_digest
  pub observer : q.observer ≡ "sqlite-independent-observer"

pub observer_receipt-IsReceiptOf :
    (event : CommitEvent) → IsReceiptOf event (observer_receipt event)
unfolding observer_receipt
observer_receipt-IsReceiptOf event = record {
  receipt_id = refl;
  commit_id = refl;
  sink_id = refl;
  route_id = refl;
  observed_at = refl;
  action_digest = refl;
  observer = refl;
}

-- What a decision says of the tables: an admitted call has its row and its receipt, and a guarded
-- call that is decided is admitted or refused.
abbrev pub IsDecided : Host → Request → HostOutcome → Type 0
IsDecided host r HostOutcome.admitted =
    Elem (row_of r) host.ledger
    × (q : ConsequenceReceipt) × Elem q host.observer.receipts
    × IsReceiptOf r.event q
IsDecided host r HostOutcome.refused = Unit
IsDecided host r HostOutcome.committed = ⊥
IsDecided host r HostOutcome.errored = ⊥

abbrev pub IsFinished : Host → Request → Result HostError HostDecision → Type 0
IsFinished host r (err e) = Unit
IsFinished host r (ok d) = IsDecided host r d.outcome

-- A call past its insertion has its row in the ledger.
abbrev pub IsPlaced : Host → Request → Stage → Type 0
IsPlaced host r stored = Elem (row_of r) host.ledger
IsPlaced host r observed = Elem (row_of r) host.ledger
IsPlaced host r (refusing d) = d.outcome ≡ HostOutcome.refused
IsPlaced host r (finished d) = IsFinished host r d
IsPlaced host r arriving = Unit
IsPlaced host r unseen = Unit
IsPlaced host r (approved a) = Unit
IsPlaced host r (counted a) = Unit

-- Each receipt of the observer is the receipt of a row of the ledger.
abbrev pub IsReceipted : Host → Type 0
IsReceipted host =
    All
      (λ (q : ConsequenceReceipt).
        (row : LedgerRow) × Elem row host.ledger × IsReceiptOf row.event q)
      host.observer.receipts

-- A host that keeps its rows and its receipts.
pub record Keeps (old : Host) (new : Host) : Type 0 where
  pub rows : (row : LedgerRow) → Elem row old.ledger → Elem row new.ledger
  pub receipts :
      (q : ConsequenceReceipt) → Elem q old.observer.receipts → Elem q new.observer.receipts

pub Keeps-same : (host : Host) → Keeps host host
Keeps-same host = record { rows = λ row m. m; receipts = λ q m. m }

IsDecided-Keeps :
    (old new : Host) (r : Request) (o : HostOutcome)
    → Keeps old new
    → IsDecided old r o
    → IsDecided new r o
IsDecided-Keeps old new r HostOutcome.admitted k (row, q, there, same) =
    (k.rows _ row, q, k.receipts q there, same)
IsDecided-Keeps old new r HostOutcome.refused k p = tt
IsDecided-Keeps old new r HostOutcome.committed k p = p
IsDecided-Keeps old new r HostOutcome.errored k p = p

pub IsPlaced-Keeps :
    (old new : Host) (r : Request) (stage : Stage)
    → Keeps old new
    → IsPlaced old r stage
    → IsPlaced new r stage
IsPlaced-Keeps old new r arriving k p = tt
IsPlaced-Keeps old new r unseen k p = tt
IsPlaced-Keeps old new r stored k p = k.rows _ p
IsPlaced-Keeps old new r observed k p = k.rows _ p
IsPlaced-Keeps old new r (refusing d) k p = p
IsPlaced-Keeps old new r (approved a) k p = tt
IsPlaced-Keeps old new r (counted a) k p = tt
IsPlaced-Keeps old new r (finished (err e)) k p = tt
IsPlaced-Keeps old new r (finished (ok d)) k p = IsDecided-Keeps old new r d.outcome k p

pub IsPlaced-approved_stage :
    (host : Host) (r : Request) (auth : Option Authorization)
    → IsPlaced host r (approved_stage auth)
IsPlaced-approved_stage host r none = tt
IsPlaced-approved_stage host r (some a) = tt
