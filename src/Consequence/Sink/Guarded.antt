-- ===== src/Consequence/Sink/Guarded.antt =====
-- oat/consequence/sink.py: a sink that only the guarded entry reaches.
use mathlib.Core.List.{append_assoc}
use open_authority_trials_oa.Consequence.Model.{CommitEvent, ProtectedSink}
use open_authority_trials_oa.Canonical.Digest.{Hashing}
use open_authority_trials_oa.Prelude.{
  List, Option, String, ◌∷◌, All, ◌≢◌, ◌≡◌, contains, ◌++◌, [], true, false, inl, All-append, refl,
  some, false≢true, subst, ◌∙◌, sym, ap, none, inr,
}
use open_authority_trials_oa.Authority.Authorization.{
  mac, AuthorizationIssuer, Authorization, record_use,
}
use open_authority_trials_oa.Consequence.Sink.{
  PaymentLedgerSink, submit, admit, InterlockDecision, append_commit, ℤ, contains, refused_arrival,
  true, false, some, prior_uses,
}
use open_authority_trials_oa.Authority.CurrentState.{AuthorityStore, at}
use open_authority_trials_oa.Consequence.Sink.History.{new_sink, outcome-cases, keys-add_text}
use open_authority_trials_oa.Prelude.Int.{ℤ}
use open_authority_trials_oa.Authority.Authorization.Meaning.{Authorized}
use open_authority_trials_oa.Consequence.Sink.Interlock.{
  submit_iff, contains-add_text_self, submit-eq-admit, submit_refused,
}

pub record Attempt : Type 0 where
  pub commit : CommitEvent
  pub authorization : Option Authorization
  pub token : Option String

unfoldable pub submit_all : Hashing → PaymentLedgerSink → List Attempt → PaymentLedgerSink
submit_all h s [] = s
submit_all h s (x ∷ xs) = submit_all h (submit h x.commit x.authorization x.token s).0 xs

abbrev pub Distinct : List CommitEvent → Type 0
Distinct [] = Unit
Distinct (c ∷ cs) = All (λ d. c.idempotency_key ≢ d.idempotency_key) cs × Distinct cs

-- The commit is that of one of the attempts on a sink, and the authorization presented there is
-- valid for it with its token, in the authority state in force at its tick, with the uses that are
-- counted after the attempts before it and this one.
abbrev pub Covered :
    Hashing
    → AuthorityStore
    → AuthorizationIssuer
    → PaymentLedgerSink
    → List Attempt
    → CommitEvent
    → Type 0
Covered h authority issuer start xs c =
    (before : List Attempt) × (x : Attempt) × (after : List Attempt) × (xs ≡ before ++ x ∷ after)
    × (x.commit ≡ c)
    × Authorized h x.authorization c (at authority c.committed_at) (some issuer)
        (prior_uses x.authorization (submit_all h start before).issuer) x.token

submit_all-append_last :
    (h : Hashing) (s : PaymentLedgerSink) (xs : List Attempt) (x : Attempt)
    → submit_all h s (xs ++ x ∷ [])
      ≡ (submit h x.commit x.authorization x.token (submit_all h s xs)).0
unfolding submit_all
submit_all-append_last h s [] x = refl
submit_all-append_last h s (y ∷ xs) x =
    submit_all-append_last h (submit h y.commit y.authorization y.token s).0 xs x

-- Only the secret of the issuer enters the check of integrity.
same_secret :
    (h : Hashing) (i j : AuthorizationIssuer) (a : Authorization)
    → i.secret ≡ j.secret
    → mac h i a ≡ mac h j a
unfolding mac
same_secret h i j a e = rw e

Authorized-same_secret :
    (h : Hashing) (authority : AuthorityStore) (i j : AuthorizationIssuer)
    (a : Option Authorization) (c : CommitEvent) (uses : Option ℤ) (token : Option String)
    → i.secret ≡ j.secret
    → Authorized h a c (at authority c.committed_at) (some i) uses token
    → Authorized h a c (at authority c.committed_at) (some j) uses token
Authorized-same_secret h authority i j none c uses token e v = absurd v
Authorized-same_secret h authority i j (some a) c uses token e v = record {
  integrity = v.integrity ∙ same_secret h i j a e;
  allowed = v.allowed;
  tenant = v.tenant;
  principal = v.principal;
  agent = v.agent;
  release = v.release;
  action = v.action;
  sink = v.sink;
  idempotency = v.idempotency;
  scoped = v.scoped;
  begun = v.begun;
  not_over = v.not_over;
  authority = v.authority;
  delegation = v.delegation;
  uses_left = v.uses_left;
  correlated = v.correlated;
}

-- What guarded arrivals keep, from a sink with this authority and issuer.
record IsGuarded (h : Hashing) (authority : AuthorityStore) (issuer : AuthorizationIssuer)
    (start : PaymentLedgerSink) (all : List Attempt) (s : PaymentLedgerSink) : Type 0 where
  covered : All (Covered h authority issuer start all) s.commits
  distinct : Distinct s.commits
  keys : All (λ c. contains s.seen_idempotency c.idempotency_key ≡ true) s.commits
  same_authority : s.authority ≡ authority
  same_secret : s.issuer.secret ≡ issuer.secret

Distinct-append :
    (cs : List CommitEvent) (seen : List String) (c : CommitEvent)
    → Distinct cs
    → All (λ d. contains seen d.idempotency_key ≡ true) cs
    → contains seen c.idempotency_key ≡ false
    → Distinct (cs ++ c ∷ [])
Distinct-append [] seen c d k new = (tt, tt)
Distinct-append (x ∷ cs) seen c d k new = (
  All-append _ cs (c ∷ []) d.0 (λ e. false≢true (sym new ∙ ap (contains seen) (sym e) ∙ k.0), tt),
  Distinct-append cs seen c d.1 k.1 new,
)

module _ (h : Hashing) (authority : AuthorityStore) (issuer : AuthorizationIssuer)
    (start : PaymentLedgerSink) (all : List Attempt) where
  admit-IsGuarded :
      (a : Option Authorization) (c : CommitEvent) (s : PaymentLedgerSink)
      → IsGuarded h authority issuer start all s
      → contains s.seen_idempotency c.idempotency_key ≡ false
      → Covered h authority issuer start all c
      → IsGuarded h authority issuer start all (admit a c s).0
  unfolding admit append_commit
  admit-IsGuarded a c s g new cover = record {
    covered = All-append _ s.commits (c ∷ []) g.covered (cover, tt);
    distinct = Distinct-append s.commits s.seen_idempotency c g.distinct g.keys new;
    keys =
        All-append _ s.commits (c ∷ [])
          (keys-add_text c.idempotency_key s.seen_idempotency s.commits g.keys)
          (contains-add_text_self c.idempotency_key s.seen_idempotency, tt);
    same_authority = g.same_authority;
    same_secret =
        elim a
          as (λ x.
            (elim x as (λ y. AuthorizationIssuer) [
              | none ↦ s.issuer
              | some b ↦ (record_use s.issuer b.authorization_id).0
            ]).secret
            ≡ issuer.secret) [ none ↦ g.same_secret | some b ↦ unfold record_use in g.same_secret ];
  }

  refused-IsGuarded :
      (c : CommitEvent) (d : InterlockDecision) (s : PaymentLedgerSink)
      → IsGuarded h authority issuer start all s
      → IsGuarded h authority issuer start all (record s {
        interlock_log = s.interlock_log ++ d ∷ [];
        route_log = s.route_log ++ refused_arrival c ∷ [];
      })
  refused-IsGuarded c d s g = record {
    covered = g.covered;
    distinct = g.distinct;
    keys = g.keys;
    same_authority = g.same_authority;
    same_secret = g.same_secret;
  }

  submit-IsGuarded :
      (c : CommitEvent) (a : Option Authorization) (token : Option String) (s : PaymentLedgerSink)
      (before after : List Attempt)
      → all ≡ before ++ record { commit = c; authorization = a; token = token } ∷ after
      → submit_all h start before ≡ s
      → IsGuarded h authority issuer start all s
      → IsGuarded h authority issuer start all (submit h c a token s).0
  submit-IsGuarded c a token s before after m reached g =
      elim (outcome-cases (submit h c a token s).1.outcome) [
        | inl e ↦
            let (new, v) = (submit_iff h c a token s).0 e in
            subst (IsGuarded h authority issuer start all)
              (sym (
                ap (λ (p : PaymentLedgerSink × InterlockDecision). p.0)
                  (submit-eq-admit h c a token s e)))
              (admit-IsGuarded a c s g new (
                before,
                record { commit = c; authorization = a; token = token },
                after,
                m,
                refl,
                subst
                    (λ (q : PaymentLedgerSink).
                      Authorized h a c (at authority c.committed_at) (some issuer)
                        (prior_uses a q.issuer) token)
                    (sym reached)
                    (Authorized-same_secret h authority s.issuer issuer a c (prior_uses a s.issuer)
                      token g.same_secret
                      (subst
                        (λ st.
                          Authorized h a c (at st c.committed_at) (some s.issuer)
                            (prior_uses a s.issuer) token)
                        g.same_authority v)),
              ))
        | inr e ↦
            subst (IsGuarded h authority issuer start all) (sym (submit_refused h c a token s e))
              (refused-IsGuarded c _ s g)
      ]

  submit_all-IsGuarded :
      (xs : List Attempt) (s : PaymentLedgerSink) (before : List Attempt)
      → all ≡ before ++ xs
      → submit_all h start before ≡ s
      → IsGuarded h authority issuer start all s
      → IsGuarded h authority issuer start all (submit_all h s xs)
  unfolding submit_all
  submit_all-IsGuarded [] s before m reached g = g
  submit_all-IsGuarded (x ∷ xs) s before m reached g =
      submit_all-IsGuarded xs (submit h x.commit x.authorization x.token s).0 (before ++ x ∷ [])
        (m ∙ sym (append_assoc before (x ∷ []) xs))
        (submit_all-append_last h start before x
          ∙ ap (λ q. (submit h x.commit x.authorization x.token q).0) reached)
        (submit-IsGuarded x.commit x.authorization x.token s before xs m reached g)

  new_sink-IsGuarded :
      (sink : ProtectedSink)
      → IsGuarded h authority issuer start all (new_sink sink authority issuer)
  unfolding new_sink
  new_sink-IsGuarded sink = record {
    covered = tt;
    distinct = tt;
    keys = tt;
    same_authority = refl;
    same_secret = refl;
  }

module _ (h : Hashing) (authority : AuthorityStore) (issuer : AuthorizationIssuer) where
  -- The authority invariant of the guarded path: whatever is submitted to a new sink, every commit
  -- of its ledger is that of an attempt whose own authorization is valid for it, with the token
  -- presented, in the authority state in force at its tick, with this use counted after those of the
  -- attempts before it, and no two commits of the ledger have the same idempotency key.
  pub submit_all-Covered :
      (sink : ProtectedSink) (xs : List Attempt)
      → let s = submit_all h (new_sink sink authority issuer) xs in
        All (Covered h authority issuer (new_sink sink authority issuer) xs) s.commits
        × Distinct s.commits
  submit_all-Covered sink xs =
      let start = new_sink sink authority issuer in
      let g =
        submit_all-IsGuarded h authority issuer start xs xs start [] refl
          (unfold submit_all in refl) (new_sink-IsGuarded h authority issuer start xs sink) in
      (g.covered, g.distinct)
