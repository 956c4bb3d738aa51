-- ===== src/Consequence/Sink/History.antt =====
-- oat/consequence/sink.py: a sink over any sequence of arrivals, guarded or not.
use mathlib.Core.List.{append-nil}
use mathlib.Core.List.{map-append}
use native.Mathlib.Nat.{add_comm, add-zero}
use open_authority_trials_oa.Consequence.Model.{CommitEvent, ProtectedSink, ConsequenceReceipt}
use open_authority_trials_oa.Canonical.Digest.{Hashing}
use open_authority_trials_oa.Prelude.{
  ℕ, keep, String, Option, List, ◌≡◌, contains, ◌++◌, length, All, true, [], ap, map, Bool-cases,
  All-append, ◌+◌, suc, inl, if◌then◌else◌, arith, inr, refl, ◌⊎◌, subst, sym,
}
use open_authority_trials_oa.Consequence.Sink.{
  PaymentLedgerSink, add_text, append_commit, submit, RouteObservation, Option, AuthorityStore,
  List, contains, commit_unguarded, Authorization, AuthorizationIssuer, ◌∷◌, length, true,
  receipt_of, [], map, committed_arrival, admit, InterlockDecision, InterlockOutcome,
  refused_arrival,
}
use open_authority_trials_oa.Authority.CurrentState.{AuthorityStore}
use open_authority_trials_oa.Authority.Authorization.{Authorization, AuthorizationIssuer}
use open_authority_trials_oa.Consequence.Sink.Interlock.{
  contains-add_text_self, submit-eq-admit, submit_refused,
}

pub data Arrival : Type 0 where
  guarded : CommitEvent → Option Authorization → Option String → Arrival
  unguarded : CommitEvent → Arrival

-- `PaymentLedgerSink(sink, authority, issuer)`
unfoldable pub new_sink : ProtectedSink → AuthorityStore → AuthorizationIssuer → PaymentLedgerSink
new_sink sink authority issuer = record {
  sink = sink;
  authority = authority;
  issuer = issuer;
  commits = [];
  receipts = [];
  route_log = [];
  interlock_log = [];
  seen_idempotency = [];
}

unfoldable pub arrive : Hashing → PaymentLedgerSink → Arrival → PaymentLedgerSink
arrive h s (guarded commit a token) = (submit h commit a token s).0
arrive h s (unguarded commit) = commit_unguarded commit s

unfoldable pub arrive_all : Hashing → PaymentLedgerSink → List Arrival → PaymentLedgerSink
unfolding arrive
arrive_all h s [] = s
arrive_all h s (x ∷ xs) = arrive_all h (arrive h s x) xs

-- The receipts of a ledger, numbered from `n`.
abbrev pub receipts_from : ℕ → List CommitEvent → List ConsequenceReceipt
receipts_from n [] = []
receipts_from n (c ∷ cs) = receipt_of n c ∷ receipts_from (n + 1) cs

receipts_from-append :
    (n : ℕ) (cs : List CommitEvent) (c : CommitEvent)
    → receipts_from n (cs ++ c ∷ []) ≡ receipts_from n cs ++ receipt_of (n + length cs) c ∷ []
receipts_from-append n [] c = rw add-zero
receipts_from-append n (d ∷ cs) c =
    let e : n + 1 + length cs ≡ n + suc (length cs) = omega arith in
    rw (receipts_from-append (n + 1) cs c, e)

length-receipts_from : (n : ℕ) (cs : List CommitEvent) → length (receipts_from n cs) ≡ length cs
length-receipts_from n [] = refl
length-receipts_from n (c ∷ cs) = ap suc (length-receipts_from (n + 1) cs)

-- What the sink knows of its commits: a receipt for each, in order, the mark of each key, and one
-- committed arrival for each in the route log.
pub record IsObserved (s : PaymentLedgerSink) : Type 0 where
  pub receipts : s.receipts ≡ receipts_from 1 s.commits
  pub keys : All (λ c. contains s.seen_idempotency c.idempotency_key ≡ true) s.commits
  pub routes : keep (λ r. r.committed) s.route_log ≡ map committed_arrival s.commits

keep-append_last :
    (r : RouteObservation) (log : List RouteObservation)
    → keep (λ o. o.committed) (log ++ r ∷ [])
      ≡ keep (λ o. o.committed) log ++ (if r.committed then r ∷ [] else [])
unfolding keep
keep-append_last r [] = refl
keep-append_last r (o ∷ log) = ground (arith, keep-append_last r log)

contains-add_text :
    (x y : String) (xs : List String) → contains xs y ≡ true → contains (add_text x xs) y ≡ true
unfolding add_text
contains-add_text x y xs m = elim (Bool-cases (contains xs x)) [
  | inl e ↦ rw e m
  | inr e ↦ rw e (unfold contains in ground (arith, m))
]

pub keys-add_text :
    (x : String) (xs : List String) (cs : List CommitEvent)
    → All (λ c. contains xs c.idempotency_key ≡ true) cs
    → All (λ c. contains (add_text x xs) c.idempotency_key ≡ true) cs
keys-add_text x xs [] k = tt
keys-add_text x xs (c ∷ cs) k =
    (contains-add_text x c.idempotency_key xs k.0, keys-add_text x xs cs k.1)

-- One more commit, whose key is marked.
append_commit-IsObserved :
    (c : CommitEvent) (s : PaymentLedgerSink)
    → IsObserved s
    → contains s.seen_idempotency c.idempotency_key ≡ true
    → IsObserved (append_commit c s)
unfolding append_commit
append_commit-IsObserved c s o m = record {
  receipts =
      rw (receipts_from-append 1 s.commits c)
        (rw (o.receipts, length-receipts_from 1 s.commits) (rw (add_comm 1 (length s.commits))));
  keys = All-append _ s.commits (c ∷ []) o.keys (m, tt);
  routes = rw (keep-append_last, o.routes, map-append) refl;
}

-- Marking a key.
marked-IsObserved :
    (c : CommitEvent) (s : PaymentLedgerSink)
    → IsObserved s
    → IsObserved (record s { seen_idempotency = add_text c.idempotency_key s.seen_idempotency })
marked-IsObserved c s o = record {
  receipts = o.receipts;
  keys = keys-add_text c.idempotency_key s.seen_idempotency s.commits o.keys;
  routes = o.routes;
}

commit_unguarded-IsObserved :
    (c : CommitEvent) (s : PaymentLedgerSink) → IsObserved s → IsObserved (commit_unguarded c s)
unfolding commit_unguarded
commit_unguarded-IsObserved c s o =
    append_commit-IsObserved c _ (marked-IsObserved c s o)
      (contains-add_text_self c.idempotency_key s.seen_idempotency)

admit-IsObserved :
    (a : Option Authorization) (c : CommitEvent) (s : PaymentLedgerSink)
    → IsObserved s
    → IsObserved (admit a c s).0
unfolding admit
admit-IsObserved a c s o =
    append_commit-IsObserved c _
      (record {
        receipts = o.receipts;
        keys = keys-add_text c.idempotency_key s.seen_idempotency s.commits o.keys;
        routes = o.routes;
      })
      (contains-add_text_self c.idempotency_key s.seen_idempotency)

refused-IsObserved :
    (c : CommitEvent) (d : InterlockDecision) (s : PaymentLedgerSink)
    → IsObserved s
    → IsObserved (record s {
      interlock_log = s.interlock_log ++ d ∷ [];
      route_log = s.route_log ++ refused_arrival c ∷ [];
    })
refused-IsObserved c d s o = record {
  receipts = o.receipts;
  keys = o.keys;
  routes = rw (keep-append_last, append-nil) o.routes;
}

pub outcome-cases :
    (o : InterlockOutcome) → (o ≡ InterlockOutcome.admitted) ⊎ (o ≡ InterlockOutcome.refused)
outcome-cases InterlockOutcome.admitted = inl refl
outcome-cases InterlockOutcome.refused = inr refl

arrive-IsObserved :
    (h : Hashing) (x : Arrival) (s : PaymentLedgerSink) → IsObserved s → IsObserved (arrive h s x)
unfolding arrive
arrive-IsObserved h (guarded c a token) s o =
    elim (outcome-cases (submit h c a token s).1.outcome) [
      | inl e ↦
          subst IsObserved
            (sym (
              ap (λ (p : PaymentLedgerSink × InterlockDecision). p.0)
                (submit-eq-admit h c a token s e)))
            (admit-IsObserved a c s o)
      | inr e ↦ subst IsObserved (sym (submit_refused h c a token s e)) (refused-IsObserved c _ s o)
    ]
arrive-IsObserved h (unguarded c) s o = commit_unguarded-IsObserved c s o

arrive_all-IsObserved :
    (h : Hashing) (xs : List Arrival) (s : PaymentLedgerSink)
    → IsObserved s
    → IsObserved (arrive_all h s xs)
unfolding arrive_all
arrive_all-IsObserved h [] s o = o
arrive_all-IsObserved h (x ∷ xs) s o =
    arrive_all-IsObserved h xs (arrive h s x) (arrive-IsObserved h x s o)

-- After any sequence of guarded and unguarded arrivals at a new sink, the receipts are those of
-- the ledger's commits, one for each and in the order of the commits, every committed idempotency
-- key is marked, and the committed arrivals of the route log are those of the ledger's commits.
pub arrive_all-new_sink-IsObserved :
    (h : Hashing) (sink : ProtectedSink) (authority : AuthorityStore) (issuer : AuthorizationIssuer)
    (xs : List Arrival)
    → IsObserved (arrive_all h (new_sink sink authority issuer) xs)
arrive_all-new_sink-IsObserved h sink authority issuer xs =
    arrive_all-IsObserved h xs (new_sink sink authority issuer) start
  where
    start : IsObserved (new_sink sink authority issuer)
    start = unfold new_sink keep in record { receipts = refl; keys = tt; routes = refl }
