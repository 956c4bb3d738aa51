-- ===== src/HostSink/Interleaving.antt =====
-- oat/integration/host_sink.py: `guarded` as the threads of the HTTP server run it. A worker is one
-- call; its stages are the reads and writes of shared state between which another call may run: the
-- ledger's lock covers the insertion only.
pub mod Placed
pub mod Alone
pub mod Stages
pub mod Safety
pub mod Race
use open_authority_trials_oa.Prelude.Result.{ok, err, Result}
use open_authority_trials_oa.HostSink.{
  HostDecision, Request, Host, Authorization, true, List, ℕ, HostOutcome, Result, assertion_failed,
  not, some, idempotency_seen, ◌∷◌, HostReason, HostError, [], failed_of,
}
use open_authority_trials_oa.Prelude.{
  Option, true, List, ℕ, ◌++◌, if◌then◌else◌, not, some, ◌∷◌, [], suc, none, zero,
}
use open_authority_trials_oa.HostSink.Handlers.{
  host_report, refuse_request, done_by, count_use, refusal,
}
use open_authority_trials_oa.HostSink.Tables.{
  ledger_commit, record_arrival, observer_receipt, receipt_id_seen, assertion_failed,
  integrity_error, idempotency_seen, HostError,
}
use open_authority_trials_oa.Canonical.Digest.{Hashing}
use open_authority_trials_oa.Authority.Authorization.{Authorization, valid}
use open_authority_trials_oa.Consequence.Sink.{failed_of}

pub data Stage : Type 0 where
  arriving unseen stored observed : Stage
  refusing : HostDecision → Stage
  approved counted : Authorization → Stage
  finished : Result HostError HostDecision → Stage

pub record Worker : Type 0 where
  pub request : Request
  pub stage : Stage

abbrev pub admission : Request → HostDecision
admission r = done_by HostOutcome.admitted HostReason.all_bindings_satisfied r.event

-- after a valid report, `assert auth is not None`
abbrev pub approved_stage : Option Authorization → Stage
approved_stage none = finished (err assertion_failed)
approved_stage (some a) = approved a

unfoldable pub validated_stage : Hashing → Host → Request → Stage
unfolding host_report
validated_stage h host r =
    if not (valid (host_report h host r))
    then refusing (refusal HostReason.binding_not_satisfied (failed_of (host_report h host r)))
    else approved_stage r.auth

unfoldable pub stored_stage : Host → Request → Host × Stage
unfolding ledger_commit
stored_stage host r = elim (ledger_commit host.ledger r.event r.presented) [
  | err e ↦ (host, finished (err e))
  | ok ledger ↦ (record host { ledger = ledger }, stored)
]

-- `record_arrival` of a committed request
unfoldable pub observe_arrival : Host → Request → Host × Stage
unfolding record_arrival
observe_arrival host r =
    elim (record_arrival host.observer r.event.route_id r.event.committed_at true true
      (some r.event.commit_id)) [
        | err e ↦ (host, finished (err e))
        | ok observer ↦ (record host { observer = observer }, observed)
      ]

-- the end of a refusal
unfoldable pub refused_stage : Host → Request → HostDecision → Host × Stage
unfolding refuse_request
refused_stage host r d =
    let (host', result) = refuse_request host r.event d in (host', finished result)

-- the receipt, in a transaction of its own
unfoldable pub receipted_stage : Host → Request → Host × Stage
unfolding observer_receipt receipt_id_seen
receipted_stage host r =
    if receipt_id_seen host.observer.receipts (observer_receipt r.event).receipt_id
    then (host, finished (err (integrity_error "receipts.receipt_id")))
    else (
      record host {
        observer = record host.observer {
          receipts = host.observer.receipts ++ observer_receipt r.event ∷ [];
        };
      },
      finished (ok (admission r)),
    )

-- one stage of a call
unfoldable pub advance_stage : Hashing → Host → Request → Stage → Host × Stage
unfolding validated_stage stored_stage observe_arrival receipted_stage refused_stage count_use
    idempotency_seen
advance_stage h host r arriving =
    if idempotency_seen host.ledger r.event.idempotency_key
    then (host, refusing (refusal HostReason.idempotency_replay []))
    else (host, unseen)
advance_stage h host r unseen = (host, validated_stage h host r)
advance_stage h host r (refusing d) = refused_stage host r d
advance_stage h host r (approved a) = (count_use host a, counted a)
advance_stage h host r (counted a) = stored_stage host r
advance_stage h host r stored = observe_arrival host r
advance_stage h host r observed = receipted_stage host r
advance_stage h host r (finished d) = (host, finished d)

unfoldable pub advance : Hashing → Host → Worker → Host × Worker
unfolding advance_stage
advance h host w =
    let (host', stage') = advance_stage h host w.request w.stage in
    (host', record w { stage = stage' })

-- the host and the calls that have been accepted
pub record System : Type 0 where
  pub host : Host
  pub workers : List Worker

unfoldable pub advance_list : Hashing → Host → List Worker → ℕ → Host × List Worker
unfolding advance
advance_list h host [] i = (host, [])
advance_list h host (w ∷ ws) zero = let (host', w') = advance h host w in (host', w' ∷ ws)
advance_list h host (w ∷ ws) (suc i) =
    let (host', ws') = advance_list h host ws i in (host', w ∷ ws')

unfoldable pub advance_at : Hashing → System → ℕ → System
unfolding advance_list
advance_at h s i =
    let (host', ws) = advance_list h s.host s.workers i in record { host = host'; workers = ws }

unfoldable pub accept : System → Request → System
accept s r = record s { workers = s.workers ++ record { request = r; stage = arriving } ∷ [] }

-- Any call may go on next, and a call may arrive at any time.
pub data Step (h : Hashing) : System → System → Type 0 where
  move : (s : System) (i : ℕ) → Step h s (advance_at h s i)
  arrive : (s : System) (r : Request) → Step h s (accept s r)

pub data Reach (h : Hashing) (s : System) : System → Type 0 where
  here : Reach h s s
  next : {t u : System} → Reach h s t → Step h t u → Reach h s u
