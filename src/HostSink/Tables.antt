-- ===== src/HostSink/Tables.antt =====
-- oat/integration/host_sink.py: the tables of `SQLiteLedger` and `SQLiteObserver`. A table is the
-- list of its rows in the order of their insertion; an insertion that repeats a PRIMARY KEY or a
-- UNIQUE value fails and leaves the table.
use Prim.Native.String
use open_authority_trials_oa.Canonical.Text.{sort_fields}
use open_authority_trials_oa.Prelude.{
  String, Bool, List, any, text_le, keep, sort_texts, ◌∷◌, Option, ◌==◌, map, if◌then◌else◌, ◌++◌,
  true, [], none, ◌||◌, some, length, not, ◌&&◌, sort_by,
}
use open_authority_trials_oa.Consequence.Model.{CommitEvent, ConsequenceReceipt}
use open_authority_trials_oa.Prelude.Dict.{put, Dict}
use open_authority_trials_oa.Prelude.Int.{negsuc, pos, ℤ, ltb_ℤ, leb_ℤ}
use open_authority_trials_oa.Consequence.Sink.{RouteObservation}
use open_authority_trials_oa.Prelude.Result.{Result, err, ok}
use open_authority_trials_oa.Paths.{set_of, ObservedPath}

pub data HostError : Type 0 where
  missing_key : String → HostError
  missing_fields : List String → HostError
  integrity_error : String → HostError
  assertion_failed tick_overflow : HostError

-- A column of SQLite holds 64 bits, and an integer that does not fit is an OverflowError when it is
-- bound to the statement.
unfoldable pub fits : ℤ → Bool
fits n = leb_ℤ (negsuc 9223372036854775807) n && leb_ℤ n (pos 9223372036854775807)

-- a row of `ledger_commits`
pub record LedgerRow : Type 0 where
  pub event : CommitEvent
  pub token_digest : Option String

abbrev pub SqliteLedger : Type 0
SqliteLedger = List LedgerRow

unfoldable pub idempotency_seen : SqliteLedger → String → Bool
unfolding any
idempotency_seen ledger key = any (λ (r : LedgerRow). r.event.idempotency_key == key) ledger

-- a row with this primary key is there
unfoldable pub commit_id_seen : SqliteLedger → String → Bool
unfolding any
commit_id_seen ledger id = any (λ (r : LedgerRow). r.event.commit_id == id) ledger

unfoldable pub ledger_commit :
    SqliteLedger → CommitEvent → Option String → Result HostError SqliteLedger
unfolding idempotency_seen commit_id_seen fits
ledger_commit ledger event token =
    if not (fits event.committed_at)
    then err tick_overflow
    else if commit_id_seen ledger event.commit_id
    then err (integrity_error "ledger_commits.commit_id")
    else if idempotency_seen ledger event.idempotency_key
    then err (integrity_error "ledger_commits.idempotency_key")
    else ok (ledger ++ record { event = event; token_digest = token } ∷ [])

-- ORDER BY a tick, then a text
abbrev pub tick_order : ℤ → String → ℤ → String → Bool
unfolding text_le
tick_order m s n t = ltb_ℤ m n || (leb_ℤ m n && text_le s t)

abbrev pub commit_before : CommitEvent → CommitEvent → Bool
commit_before c d = tick_order c.committed_at c.commit_id d.committed_at d.commit_id

abbrev pub receipt_before : ConsequenceReceipt → ConsequenceReceipt → Bool
receipt_before q r = tick_order q.observed_at q.receipt_id r.observed_at r.receipt_id

-- the action that `json.loads` reads from what `commit` has written with sorted keys
unfoldable pub stored_event : CommitEvent → CommitEvent
unfolding sort_fields
stored_event event = record event { normalized_action = sort_fields event.normalized_action }

unfoldable pub ledger_commits : SqliteLedger → List CommitEvent
unfolding sort_by stored_event
ledger_commits ledger = sort_by commit_before (map (λ (r : LedgerRow). stored_event r.event) ledger)

unfoldable pub token_digests : SqliteLedger → Dict String
unfolding put
token_digests [] = []
token_digests (r ∷ ledger) =
    let rest = token_digests ledger in
    elim r.token_digest [ none ↦ rest | some t ↦ put rest r.event.commit_id t ]

pub record SqliteObserver : Type 0 where
  pub receipts : List ConsequenceReceipt
  pub route_observations : List RouteObservation

-- the table with one more observation
unfoldable pub with_arrival :
    SqliteObserver → String → ℤ → Bool → Bool → Option String → SqliteObserver
with_arrival o route_id tick admitted committed commit_id = record o {
  route_observations =
      o.route_observations
      ++ record {
        route_id = route_id;
        observed_at = tick;
        admitted = admitted;
        committed = committed;
        commit_id = commit_id;
      }
        ∷ [];
}

unfoldable pub record_arrival :
    SqliteObserver → String → ℤ → Bool → Bool → Option String → Result HostError SqliteObserver
unfolding with_arrival fits
record_arrival o route_id tick admitted committed commit_id =
    if fits tick
    then ok (with_arrival o route_id tick admitted committed commit_id)
    else err tick_overflow

unfoldable pub observer_receipt : CommitEvent → ConsequenceReceipt
observer_receipt event = record {
  receipt_id = String.◌++◌ "receipt-" event.commit_id;
  commit_id = event.commit_id;
  sink_id = event.sink_id;
  route_id = event.route_id;
  observed_at = event.committed_at;
  action_digest = event.action_digest;
  observer = "sqlite-independent-observer";
}

unfoldable pub receipt_id_seen : List ConsequenceReceipt → String → Bool
unfolding any
receipt_id_seen receipts id = any (λ (r : ConsequenceReceipt). r.receipt_id == id) receipts

-- The arrival is stored before the receipt, so it stays when the receipt is a duplicate.
unfoldable pub record_commit :
    SqliteObserver → CommitEvent → Bool → SqliteObserver × Option HostError
unfolding record_arrival observer_receipt receipt_id_seen
record_commit o event emit_receipt =
    elim (record_arrival o event.route_id event.committed_at true true (some event.commit_id)) [
      | err e ↦ (o, some e)
      | ok arrived ↦
          if not emit_receipt
          then (arrived, none)
          else if receipt_id_seen arrived.receipts (observer_receipt event).receipt_id
          then (arrived, some (integrity_error "receipts.receipt_id"))
          else (record arrived { receipts = arrived.receipts ++ observer_receipt event ∷ [] }, none)
    ]

unfoldable pub observer_receipts : SqliteObserver → List ConsequenceReceipt
unfolding sort_by
observer_receipts o = sort_by receipt_before o.receipts

abbrev pub on_route : String → List RouteObservation → List RouteObservation
unfolding keep
on_route id log = keep (λ (r : RouteObservation). r.route_id == id) log

-- COUNT(*) and SUM(committed) of the rows of a route
unfoldable pub path_of : List RouteObservation → String → ObservedPath
unfolding keep
path_of log id = record {
  route_id = id;
  arrivals = length (on_route id log);
  commits = length (keep (λ (r : RouteObservation). r.committed) (on_route id log));
}

-- GROUP BY route_id ORDER BY route_id
unfoldable pub observed_paths : SqliteObserver → List ObservedPath
unfolding path_of sort_texts set_of
observed_paths o =
    map (path_of o.route_observations)
      (sort_texts (set_of (map (λ (r : RouteObservation). r.route_id) o.route_observations)))
