-- ===== src/HostSink/Interleaving/Alone.antt =====
-- oat/integration/host_sink.py: a guarded call by stages, alone.
use native.Mathlib.Omega.{arith}
use open_authority_trials_oa.Prelude.Result.{Result, err}
use open_authority_trials_oa.HostSink.Interleaving.{
  advance_stage, stored_stage, observe_arrival, Hashing, receipted_stage, Host, Stage, suc,
  finished, counted, admission, receipt_id_seen, observer_receipt, validated_stage, arriving,
  approved, integrity_error,
}
use open_authority_trials_oa.Prelude.{
  ℕ, zero, ◌≡◌, refl, true, Bool-cases, inl, inr, false, some, ◌∙◌, eq_refl,
}
use open_authority_trials_oa.Canonical.Digest.{Hashing}
use open_authority_trials_oa.HostSink.{
  Host, Request, Result, HostError, record_commit, HostDecision, record_arrival, ledger_commit,
  Authorization, true, idempotency_seen, false, some, err,
}
use open_authority_trials_oa.HostSink.Handlers.{
  store_commit, observe_commit, decide_request, admit_request, host_report, count_use,
}
use open_authority_trials_oa.HostSink.Tables.{
  HostError, record_commit, record_arrival, ledger_commit, commit_id_seen, idempotency_seen,
  receipt_id_seen, observer_receipt, integrity_error, fits,
}
use open_authority_trials_oa.Authority.Authorization.{Authorization, valid, use_count}
use open_authority_trials_oa.Prelude.Int.{◌+ℤ◌, pos}
use open_authority_trials_oa.Consequence.Sink.Interlock.{use_count-record_use}

-- `n` stages of one call, and nothing between them
unfoldable pub run_stages : ℕ → Hashing → Host → Request → Stage → Host × Stage
unfolding advance_stage
run_stages zero h host r stage = (host, stage)
run_stages (suc n) h host r stage =
    let (host', stage') = advance_stage h host r stage in run_stages n h host' r stage'

run_finished :
    (n : ℕ) (h : Hashing) (host : Host) (r : Request) (d : Result HostError HostDecision)
    → run_stages n h host r (finished d) ≡ (host, finished d)
unfolding run_stages
run_finished zero h host r d = refl
run_finished (suc n) h host r d = run_finished n h host r d

-- From the insertion on, the stages are `store_commit`.
pub stages-store_commit :
    (h : Hashing) (host : Host) (r : Request) (a : Authorization)
    → run_stages 3 h host r (counted a) ≡ (
      (store_commit host r true (admission r)).0,
      finished (store_commit host r true (admission r)).1,
    )
unfolding run_stages stored_stage observe_arrival receipted_stage store_commit observe_commit
    record_commit record_arrival ledger_commit advance_stage
stages-store_commit h host r a = elim (Bool-cases (fits r.event.committed_at)) [
  | inr n ↦ ground arith
  | inl n ↦ elim (Bool-cases (commit_id_seen host.ledger r.event.commit_id)) [
    | inl e ↦ ground arith
    | inr e ↦ elim (Bool-cases (idempotency_seen host.ledger r.event.idempotency_key)) [
      | inl k ↦ ground arith
      | inr k ↦
          elim (Bool-cases
            (receipt_id_seen host.observer.receipts (observer_receipt r.event).receipt_id)) [
              | inl q ↦ ground arith
              | inr q ↦ ground arith
            ]
    ]
  ]
]

-- The two stages before the count.
pub stages-approved :
    (h : Hashing) (host : Host) (r : Request) (a : Authorization)
    → idempotency_seen host.ledger r.event.idempotency_key ≡ false
    → valid (host_report h host r) ≡ true
    → r.auth ≡ some a
    → run_stages 2 h host r arriving ≡ (host, approved a)
unfolding run_stages advance_stage validated_stage
stages-approved h host r a new good e = ground arith

-- A guarded request whose commit id is in the ledger already, and which is valid with a new
-- idempotency key and a tick that fits a column of SQLite, counts a use and then fails in the
-- ledger: nothing is committed, and the observer sees no arrival.
pub decide_request-repeated_id :
    (h : Hashing) (host : Host) (r : Request) (a : Authorization)
    → r.auth ≡ some a
    → idempotency_seen host.ledger r.event.idempotency_key ≡ false
    → valid (host_report h host r) ≡ true
    → commit_id_seen host.ledger r.event.commit_id ≡ true
    → fits r.event.committed_at ≡ true
    → (decide_request h host r).1 ≡ err (integrity_error "ledger_commits.commit_id")
      × ((decide_request h host r).0.ledger ≡ host.ledger)
      × ((decide_request h host r).0.observer ≡ host.observer)
      × (use_count (decide_request h host r).0.issuer a.authorization_id
          ≡ use_count host.issuer a.authorization_id +ℤ pos 1)
unfolding decide_request admit_request store_commit ledger_commit count_use
decide_request-repeated_id h host r a e new good seen fit =
    let failed : decide_request h host r
        ≡ (count_use host a, err (integrity_error "ledger_commits.commit_id")) =
      ground arith in
    rw failed (
      refl,
      refl,
      refl,
      use_count-record_use host.issuer a.authorization_id a.authorization_id
          ∙ ground (arith, eq_refl a.authorization_id),
    )
