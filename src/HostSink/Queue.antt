-- ===== src/HostSink/Queue.antt =====
-- oat/integration/host_sink.py: `enqueue`, `_worker_loop` and `do_POST`. The queue has one worker,
-- and a sender waits for its own job; the worker's thread ends when a job raises.
pub mod Worker
use open_authority_trials_oa.HostSink.Handlers.{guarded, hidden}
use open_authority_trials_oa.Prelude.Result.{ok, err, Result}
use open_authority_trials_oa.HostSink.{
  Host, HostDecision, HostOutcome, errored, Bool, HostError, List, worker_timeout, Payload, true,
  none, false, ◌∷◌, [], String, not, route_queue_worker, route_http_guarded, missing_key,
}
use open_authority_trials_oa.Prelude.{
  ℕ, Bool, List, true, none, false, [], String, if◌then◌else◌, not, ◌==◌,
}
use open_authority_trials_oa.Canonical.Digest.{Hashing}
use open_authority_trials_oa.HostSink.Tables.{HostError, missing_key}

pub record Service : Type 0 where
  pub host : Host
  pub worker_alive : Bool

abbrev pub worker_timed_out : HostDecision
worker_timed_out = record {
  outcome = errored;
  reason = worker_timeout;
  commit_id = none;
  failed_dimensions = [];
}

-- what a request gets: its path is unknown, a status with the decision, or no reply since the
-- handler raised
pub data Reply : Type 0 where
  not_found : Reply
  replied : ℕ → HostDecision → Reply
  dropped : HostError → Reply

abbrev pub status_of_outcome : HostOutcome → ℕ
status_of_outcome HostOutcome.admitted = 200
status_of_outcome HostOutcome.committed = 200
status_of_outcome HostOutcome.refused = 403
status_of_outcome errored = 403

abbrev pub reply_of : Result HostError HostDecision → Reply
reply_of (ok d) = replied (status_of_outcome d.outcome) d
reply_of (err e) = dropped e

abbrev pub is_decided : Result HostError HostDecision → Bool
is_decided (ok d) = true
is_decided (err e) = false

-- A job in time: what the worker stores for it, or the wait's end when there is no worker.
-- Without a decision in its box, the sender raises KeyError.
unfoldable pub enqueue : Hashing → Service → Payload → Service × Result HostError HostDecision
unfolding guarded
enqueue h s p =
    if not s.worker_alive
    then (s, ok worker_timed_out)
    else let (host', decision) = guarded h s.host p route_queue_worker in
      (
        record { host = host'; worker_alive = is_decided decision },
        elim decision [ ok d ↦ ok d | err e ↦ err (missing_key "decision") ],
      )

abbrev pub served : Service → Host × Result HostError HostDecision → Service × Reply
served s (host', d) = (record s { host = host' }, reply_of d)

abbrev pub replied_by : Service × Result HostError HostDecision → Service × Reply
replied_by (s, d) = (s, reply_of d)

unfoldable pub do_post : Hashing → Service → String → Payload → Service × Reply
unfolding guarded hidden enqueue
do_post h s path p =
    if path == "/v1/payments"
    then served s (guarded h s.host p route_http_guarded)
    else if path == "/v1/async-payments"
    then replied_by (enqueue h s p)
    else if path == "/internal/batch-commit"
    then served s (hidden h s.host p true)
    else (s, not_found)

unfoldable pub enqueue_all :
    Hashing → Service → List Payload → Service × List (Result HostError HostDecision)
unfolding enqueue
enqueue_all h s [] = (s, [])
enqueue_all h s (p ∷ ps) =
    let (s', d) = enqueue h s p in let (s'', ds) = enqueue_all h s' ps in (s'', d ∷ ds)
