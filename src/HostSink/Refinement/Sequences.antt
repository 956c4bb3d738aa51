-- ===== src/HostSink/Refinement/Sequences.antt =====
-- oat/integration/host_sink.py: guarded requests in sequence, against the sink's submissions.
use open_authority_trials_oa.HostSink.Handlers.{decide_request}
use open_authority_trials_oa.Prelude.{
  List, [], ◌≡◌, ◌≢◌, false, All, ◌∙◌, any, contains, refl, subst, sym, true,
}
use open_authority_trials_oa.HostSink.Tables.{SqliteLedger, commit_id_seen, idempotency_seen, fits}
use open_authority_trials_oa.Canonical.Digest.{Hashing}
use open_authority_trials_oa.HostSink.{
  Request, Host, ◌∷◌, false, new_host, ProtectedSink, idempotency_seen, AuthorityStore,
  AuthorizationIssuer, true,
}
use open_authority_trials_oa.Consequence.Sink.Guarded.{
  Attempt, submit_all, Covered, Distinct, submit_all-Covered,
}
use open_authority_trials_oa.HostSink.Ledger.{Grows, Grows-commit_id_seen, decide_request-Grows}
use open_authority_trials_oa.Consequence.Sink.{PaymentLedgerSink}
use open_authority_trials_oa.Consequence.Sink.History.{new_sink}
use open_authority_trials_oa.Consequence.Model.{ProtectedSink}
use open_authority_trials_oa.HostSink.Refinement.{
  IsAnchored, Refines, any, contains, events_of, sym, fits,
}
use open_authority_trials_oa.Authority.CurrentState.{AuthorityStore}
use open_authority_trials_oa.Authority.Authorization.{AuthorizationIssuer}
use open_authority_trials_oa.HostSink.Refinement.Steps.{decide_request-Simulates}

-- the requests, decided one after the other
unfoldable pub decide_all : Hashing → Host → List Request → Host
unfolding decide_request
decide_all h host [] = host
decide_all h host (r ∷ rs) = decide_all h (decide_request h host r).0 rs

abbrev pub attempts : List Request → List Attempt
attempts [] = []
attempts (r ∷ rs) =
    record { commit = r.event; authorization = r.auth; token = r.presented } ∷ attempts rs

-- No commit id is in the ledger, and none comes twice.
abbrev pub NewIds : SqliteLedger → List Request → Type 0
NewIds ledger [] = Unit
NewIds ledger (r ∷ rs) =
    (commit_id_seen ledger r.event.commit_id ≡ false)
    × All (λ (q : Request). r.event.commit_id ≢ q.event.commit_id) rs
    × NewIds ledger rs

NewIds-keep :
    (old new : SqliteLedger) (r : Request) (rs : List Request)
    → Grows old r new
    → All (λ (q : Request). r.event.commit_id ≢ q.event.commit_id) rs
    → NewIds old rs
    → NewIds new rs
NewIds-keep old new r [] g ne n = tt
NewIds-keep old new r (q ∷ rs) g ne n = (
  Grows-commit_id_seen old new r q.event.commit_id g ne.0 ∙ n.0,
  n.1,
  NewIds-keep old new r rs g ne.1 n.2,
)

module _ (h : Hashing) where
  -- Guarded requests in any sequence, with commit ids that are new and different: the host's
  -- tables end standing for what the sink's submissions end with.
  pub decide_all-Refines :
      (rs : List Request) (host : Host) (s : PaymentLedgerSink)
      → IsAnchored host
      → Refines host s
      → NewIds host.ledger rs
      → All (λ (r : Request). fits r.event.committed_at ≡ true) rs
      → Refines (decide_all h host rs) (submit_all h s (attempts rs))
  unfolding decide_all submit_all
  decide_all-Refines [] host s a f n fit = f
  decide_all-Refines (r ∷ rs) host s a f n fit =
      let step = decide_request-Simulates h host r s a f fit.0 n.0 in
      decide_all-Refines rs _ _ step.anchored step.refines
        (NewIds-keep host.ledger _ r rs (decide_request-Grows h host r) n.1 n.2) fit.1

  pub new_host-Refines :
      (sink : ProtectedSink) (authority : AuthorityStore) (issuer : AuthorizationIssuer)
      → Refines (new_host sink authority issuer) (new_sink sink authority issuer)
  unfolding new_host new_sink idempotency_seen any contains
  new_host-Refines sink authority issuer = record {
    commits = refl;
    receipts = refl;
    routes = refl;
    seen = λ key. refl;
    issuer = refl;
    authority = refl;
  }

  -- The authority invariant of the host's guarded routes: after requests with distinct commit ids
  -- and ticks that fit a column of SQLite, decided one after another from a new host, every commit
  -- of the ledger is that of one of the requests, whose own authorization is valid for it, with the
  -- token presented, in the authority state in force at its tick, with this use counted after those
  -- of the requests before it; and no two commits have the same idempotency key.
  pub decide_all-Covered :
      (sink : ProtectedSink) (authority : AuthorityStore) (issuer : AuthorizationIssuer)
      (rs : List Request)
      → NewIds [] rs
      → All (λ (r : Request). fits r.event.committed_at ≡ true) rs
      → let host = decide_all h (new_host sink authority issuer) rs in
        All
          (Covered h authority issuer (new_sink sink authority issuer) (attempts rs))
          (events_of host.ledger)
        × Distinct (events_of host.ledger)
  unfolding new_host
  decide_all-Covered sink authority issuer rs n fit =
      let f =
        decide_all-Refines rs (new_host sink authority issuer) _ tt
          (new_host-Refines sink authority issuer) n fit in
      subst
        (λ cs.
          All (Covered h authority issuer (new_sink sink authority issuer) (attempts rs)) cs
          × Distinct cs)
        (sym f.commits) (submit_all-Covered h authority issuer sink (attempts rs))
