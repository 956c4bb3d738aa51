-- ===== src/HostSink/Ledger.antt =====
-- oat/integration/host_sink.py: what the handlers do to the ledger's table.
use native.Mathlib.Omega.{arith}
use open_authority_trials_oa.Prelude.Result.{Result}
use open_authority_trials_oa.HostSink.{
  Request, ledger_commit, ◌∷◌, idempotency_seen, String, false, Host, Bool, Hashing, HostDecision,
  valid, true, record_arrival, HostOutcome, HostReason, Result, HostError, CommitEvent,
}
use open_authority_trials_oa.HostSink.Tables.{
  SqliteLedger, commit_id_seen, LedgerRow, ledger_commit, idempotency_seen, record_arrival,
  HostError, fits,
}
use open_authority_trials_oa.HostSink.Handlers.{
  store_commit, decide_request, admit_request, observe_commit, count_use, host_report, done_by,
  refuse_request,
}
use open_authority_trials_oa.Prelude.{
  ◌≡◌, String, ◌⊎◌, false, any, ◌≢◌, inl, ◌++◌, subst, ap, [], Bool, any-append_last, sym, inr,
  Bool-cases, ◌==◌, ◌∙◌, eq_iff, refl, Option-cases, true,
}
use open_authority_trials_oa.Canonical.Digest.{Hashing}
use open_authority_trials_oa.Authority.Authorization.{valid}
use open_authority_trials_oa.Consequence.Model.{CommitEvent}

abbrev pub row_of : Request → LedgerRow
row_of r = record { event = r.event; token_digest = r.presented }

-- A ledger after a request: as it was, or with its row, whose keys were new.
abbrev pub Grows : SqliteLedger → Request → SqliteLedger → Type 0
Grows old r new =
    (new ≡ old)
    ⊎ ((new ≡ old ++ row_of r ∷ [])
        × (commit_id_seen old r.event.commit_id ≡ false)
        × (idempotency_seen old r.event.idempotency_key ≡ false))

pub store_commit-Grows :
    (host : Host) (r : Request) (emit_receipt : Bool) (d : HostDecision)
    → Grows host.ledger r (store_commit host r emit_receipt d).0.ledger
unfolding store_commit ledger_commit observe_commit
store_commit-Grows host r emit_receipt d = elim (Bool-cases (fits r.event.committed_at)) [
  | inr n ↦ inl (ground arith)
  | inl n ↦ elim (Bool-cases (commit_id_seen host.ledger r.event.commit_id)) [
    | inl e ↦ inl (ground arith)
    | inr e ↦ elim (Bool-cases (idempotency_seen host.ledger r.event.idempotency_key)) [
      | inl k ↦ inl (ground arith)
      | inr k ↦ inr (ground arith, e, k)
    ]
  ]
]

-- A refusal leaves the ledger.
refuse_request-ledger :
    (host : Host) (event : CommitEvent) (d : HostDecision)
    → (refuse_request host event d).0.ledger ≡ host.ledger
unfolding refuse_request record_arrival
refuse_request-ledger host event d = elim (Bool-cases (fits event.committed_at)) [
  | inl n ↦ ground arith
  | inr n ↦ ground arith
]

admit_request-Grows :
    (host : Host) (r : Request) → Grows host.ledger r (admit_request host r).0.ledger
unfolding admit_request count_use
admit_request-Grows host r = elim (Option-cases r.auth) [
  | inl e ↦ inl (ground arith)
  | inr (a, e) ↦
      let stored : admit_request host r
          ≡ store_commit (count_use host a) r true
              (done_by HostOutcome.admitted HostReason.all_bindings_satisfied r.event) =
        ground arith in
      subst (λ (p : Host × Result HostError HostDecision). Grows host.ledger r p.0.ledger)
        (sym stored) (store_commit-Grows (count_use host a) r true _)
]

pub decide_request-Grows :
    (h : Hashing) (host : Host) (r : Request)
    → Grows host.ledger r (decide_request h host r).0.ledger
unfolding decide_request
decide_request-Grows h host r =
    let admitted = admit_request-Grows host r in
    elim (Bool-cases (idempotency_seen host.ledger r.event.idempotency_key)) [
      | inl e ↦ inl (ground (arith, refuse_request-ledger host r.event))
      | inr e ↦ elim (Bool-cases (valid (host_report h host r))) [
        | inl v ↦ subst (Grows host.ledger r) (ground arith) admitted
        | inr v ↦ inl (ground (arith, refuse_request-ledger host r.event))
      ]
    ]

-- No two rows share a commit id or an idempotency key.
abbrev pub IsUnique : SqliteLedger → Type 0
IsUnique [] = Unit
IsUnique (x ∷ ledger) =
    (commit_id_seen ledger x.event.commit_id ≡ false)
    × (idempotency_seen ledger x.event.idempotency_key ≡ false)
    × IsUnique ledger

pub IsUnique-append :
    (ledger : SqliteLedger) (row : LedgerRow)
    → IsUnique ledger
    → commit_id_seen ledger row.event.commit_id ≡ false
    → idempotency_seen ledger row.event.idempotency_key ≡ false
    → IsUnique (ledger ++ row ∷ [])
unfolding commit_id_seen idempotency_seen any
IsUnique-append [] row u id key = (refl, refl, tt)
IsUnique-append (x ∷ ledger) row u id key = (
  any-append_last (λ (r : LedgerRow). r.event.commit_id == x.event.commit_id) ledger row
      ∙ ground (
        arith,
        u.0,
        eq_iff row.event.commit_id x.event.commit_id,
        eq_iff x.event.commit_id row.event.commit_id,
      ),
  any-append_last (λ (r : LedgerRow). r.event.idempotency_key == x.event.idempotency_key) ledger row
      ∙ ground (
        arith,
        u.1,
        eq_iff row.event.idempotency_key x.event.idempotency_key,
        eq_iff x.event.idempotency_key row.event.idempotency_key,
      ),
  IsUnique-append ledger row u.2 (ground arith) (ground arith),
)

pub Grows-IsUnique :
    (old new : SqliteLedger) (r : Request) → Grows old r new → IsUnique old → IsUnique new
Grows-IsUnique old new r (inl e) u = subst IsUnique (sym e) u
Grows-IsUnique old new r (inr (e, id, key)) u =
    subst IsUnique (sym e) (IsUnique-append old (row_of r) u id key)

-- An id other than the request's stays as it was.
pub Grows-commit_id_seen :
    (old new : SqliteLedger) (r : Request) (id : String)
    → Grows old r new
    → r.event.commit_id ≢ id
    → commit_id_seen new id ≡ commit_id_seen old id
unfolding commit_id_seen
Grows-commit_id_seen old new r id (inl e) ne = ap (λ l. commit_id_seen l id) e
Grows-commit_id_seen old new r id (inr (e, x, y)) ne =
    ap (λ l. commit_id_seen l id) e
    ∙ any-append_last (λ (q : LedgerRow). q.event.commit_id == id) old (row_of r)
    ∙ ground (arith, eq_iff r.event.commit_id id)
