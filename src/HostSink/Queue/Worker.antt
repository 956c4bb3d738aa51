-- ===== src/HostSink/Queue/Worker.antt =====
-- oat/integration/host_sink.py, `_worker_loop`: what the queue's sender can wait for.
use native.Mathlib.Omega.{arith}
use open_authority_trials_oa.HostSink.Handlers.{guarded}
use open_authority_trials_oa.Prelude.Result.{ok, err, Result}
use open_authority_trials_oa.Prelude.{List, ◌≡◌, false, true, [], refl}
use open_authority_trials_oa.Canonical.Digest.{Hashing}
use open_authority_trials_oa.HostSink.Queue.{
  enqueue_all, enqueue, Service, Payload, worker_timed_out,
}
use open_authority_trials_oa.HostSink.{
  Payload, Result, HostError, HostDecision, false, true, ◌∷◌, route_queue_worker, missing_key, Host,
}
use open_authority_trials_oa.HostSink.Tables.{HostError, missing_key}

abbrev pub all_timed_out : List Payload → List (Result HostError HostDecision)
all_timed_out [] = []
all_timed_out (p ∷ ps) = ok worker_timed_out ∷ all_timed_out ps

module _ (h : Hashing) (s : Service) where
  enqueue-ended : s.worker_alive ≡ false → (p : Payload) → enqueue h s p ≡ (s, ok worker_timed_out)
  unfolding enqueue
  enqueue-ended e p = ground arith

  enqueue_all-ended :
      s.worker_alive ≡ false → (ps : List Payload) → enqueue_all h s ps ≡ (s, all_timed_out ps)
  unfolding enqueue_all
  enqueue_all-ended e [] = refl
  enqueue_all-ended e (p ∷ ps) = rw (enqueue-ended e p) (rw (enqueue_all-ended e ps) refl)

-- One job whose `guarded` call raises, whatever the error is, ends a living worker: its own sender
-- gets an error, and every later job waits in vain, changes nothing of the host that the call has
-- left, and is reported as a timeout.
pub enqueue_all-raised :
    (h : Hashing) (s : Service) (p : Payload) (host : Host) (e : HostError) (ps : List Payload)
    → s.worker_alive ≡ true
    → guarded h s.host p route_queue_worker ≡ (host, err e)
    → enqueue_all h s (p ∷ ps) ≡ (
      record { host = host; worker_alive = false },
      err (missing_key "decision") ∷ all_timed_out ps,
    )
unfolding enqueue_all
enqueue_all-raised h s p host e ps alive bad =
    let first : enqueue h s p
        ≡ (record { host = host; worker_alive = false }, err (missing_key "decision")) =
      unfold enqueue in ground arith in
    rw first (rw (enqueue_all-ended h (record { host = host; worker_alive = false }) refl ps) refl)
