-- ===== src/Consequence/Sink/Interlock.antt =====
-- oat/consequence/sink.py: what the guarded entry admits, and what admitting and refusing change.
use open_authority_trials_oa.Authority.Authorization.{
  use_count, record_use, AuthorizationIssuer, Authorization, ValidationReport, valid,
}
use open_authority_trials_oa.Canonical.Digest.{Hashing}
use open_authority_trials_oa.Consequence.Model.{CommitEvent}
use open_authority_trials_oa.Prelude.Dict.{get_or, get_or-put}
use open_authority_trials_oa.Prelude.{
  Option, String, ◌≡◌, if◌then◌else◌, ◌==◌, ◌↔◌, ◌++◌, contains, ◌∷◌, false, [], arith, eq_iff,
  some, List, length, true, ◌+◌, Bool-cases, inl, ◌≢◌, inr, eq_refl, refl, none, Bool, ◌∙◌, ap, sym,
  not,
}
use open_authority_trials_oa.Consequence.Sink.{
  PaymentLedgerSink, submit, interlock_report, InterlockOutcome, ◌+ℤ◌, pos, contains, false, [],
  refused_arrival, at, some, prior_uses, add_text, receipt_of, admit, List, length, true,
  committed_arrival, validate_authorization, refuse, Bool, InterlockDecision, idempotency_replay,
  replayed_key, not, binding_not_satisfied, failed_dimensions, failed_of, all_bindings_satisfied,
  no_dimensions,
}
use open_authority_trials_oa.Prelude.Int.{◌+ℤ◌, pos, ◌≤ℤ◌}
use open_authority_trials_oa.Authority.Authorization.Meaning.{
  Authorized, validate_authorization_iff,
}
use open_authority_trials_oa.Authority.CurrentState.{at}
use open_authority_trials_oa.Authority.Authorization.Validate.{
  validate_authorization, validate_present, interval_result, delegation_results,
}
use open_authority_trials_oa.Authority.Delegation.{DelegationChain}

pub use_count-record_use :
    (issuer : AuthorizationIssuer) (a b : String)
    → use_count (record_use issuer a).0 b
      ≡ (if a == b then use_count issuer a +ℤ pos 1 else use_count issuer b)
unfolding use_count record_use
use_count-record_use issuer a b =
    ground (
      arith,
      get_or-put issuer.uses a b (get_or issuer.uses a (pos 0) +ℤ pos 1) (pos 0),
      eq_iff a b,
    )

pub contains-add_text_self : (x : String) (xs : List String) → contains (add_text x xs) x ≡ true
unfolding add_text
contains-add_text_self x xs = elim (Bool-cases (contains xs x)) [
  | inl e ↦ rw e e
  | inr e ↦ rw e (unfold contains in ground (arith, eq_refl x))
]

issuer-admit :
    (a : Authorization) (commit : CommitEvent) (s : PaymentLedgerSink)
    → (admit (some a) commit s).0.issuer ≡ (record_use s.issuer a.authorization_id).0
unfolding admit
issuer-admit a commit s = refl

use_count-admit :
    (a : Authorization) (commit : CommitEvent) (s : PaymentLedgerSink) (b : String)
    → use_count (admit (some a) commit s).0.issuer b ≡ (
        if a.authorization_id == b
        then use_count s.issuer a.authorization_id +ℤ pos 1
        else use_count s.issuer b)
use_count-admit a commit s b = rw issuer-admit (use_count-record_use s.issuer a.authorization_id b)

-- How a sink differs after it has admitted a commit under an authorization.
pub record Admits (a : Authorization) (commit : CommitEvent) (s t : PaymentLedgerSink)
    : Type 0 where
  pub commits : t.commits ≡ s.commits ++ commit ∷ []
  pub receipts : t.receipts ≡ s.receipts ++ receipt_of (length s.receipts + 1) commit ∷ []
  pub route_log : t.route_log ≡ s.route_log ++ committed_arrival commit ∷ []
  pub seen : contains t.seen_idempotency commit.idempotency_key ≡ true
  pub counted :
      use_count t.issuer a.authorization_id ≡ use_count s.issuer a.authorization_id +ℤ pos 1
  pub within : use_count t.issuer a.authorization_id ≤ℤ a.max_uses
  pub others : (b : String) → a.authorization_id ≢ b → use_count t.issuer b ≡ use_count s.issuer b
  pub authority : t.authority ≡ s.authority
  pub secret : t.issuer.secret ≡ s.issuer.secret

module _ (h : Hashing) (commit : CommitEvent) (a : Option Authorization) (token : Option String)
    (s : PaymentLedgerSink) where
  -- The interlock admits a commit exactly when its idempotency key is new and the presented
  -- authorization is valid for it, in the authority state in force at its tick and with this use
  -- counted.
  pub submit_iff : ((submit h commit a token s).1.outcome ≡ InterlockOutcome.admitted) ↔ (
      (contains s.seen_idempotency commit.idempotency_key ≡ false)
      × Authorized h a commit
          (at s.authority commit.committed_at)
          (some s.issuer)
          (prior_uses a s.issuer)
          token)
  unfolding submit interlock_report
  submit_iff =
      let v =
        validate_authorization_iff h a commit (at s.authority commit.committed_at) (some s.issuer)
          (prior_uses a s.issuer) token in
      (λ e. (ground arith, v.0 (ground arith)), λ b. ground (arith, v.1 b.1))

  pub submit-eq-admit :
      (submit h commit a token s).1.outcome ≡ InterlockOutcome.admitted
      → submit h commit a token s ≡ admit a commit s
  unfolding submit
  submit-eq-admit e = ground arith

  -- A refused submission leaves the ledger, the receipts, the use counts, the seen keys and the
  -- authority as they were, and logs one refused arrival on the commit's route.
  pub submit_refused :
      (submit h commit a token s).1.outcome ≡ InterlockOutcome.refused
      → (submit h commit a token s).0 ≡ record s {
        interlock_log = s.interlock_log ++ (submit h commit a token s).1 ∷ [];
        route_log = s.route_log ++ refused_arrival commit ∷ [];
      }
  unfolding submit
  submit_refused e = ground arith

module _ (h : Hashing) (commit : CommitEvent) (a : Authorization) (token : Option String)
    (s : PaymentLedgerSink) where
  -- An admitted submission commits exactly this commit and one receipt for it, marks its
  -- idempotency key, counts one use of this authorization and of no other, stays within the
  -- authorization's maximum, and changes neither the authority nor the issuer's secret.
  pub submit_admitted :
      (submit h commit (some a) token s).1.outcome ≡ InterlockOutcome.admitted
      → Admits a commit s (submit h commit (some a) token s).0
  unfolding prior_uses
  submit_admitted e =
      let (new, v) = (submit_iff h commit (some a) token s).0 e in
      let counted : use_count (admit (some a) commit s).0.issuer a.authorization_id
          ≡ use_count s.issuer a.authorization_id +ℤ pos 1 =
        ground (arith, use_count-admit a commit s a.authorization_id, eq_refl a.authorization_id) in
      rw (submit-eq-admit h commit (some a) token s e) (record {
        commits = unfold admit in refl;
        receipts = unfold admit in refl;
        route_log = unfold admit in refl;
        seen = unfold admit in contains-add_text_self commit.idempotency_key s.seen_idempotency;
        counted = counted;
        within = rw counted v.uses_left;
        others = λ b ne. ground (arith, use_count-admit a commit s b, eq_iff a.authorization_id b);
        authority = unfold admit in refl;
        secret = unfold admit record_use in refl;
      })

-- The decision on a report.
abbrev decision_on : Bool → String → ValidationReport → InterlockDecision
decision_on seen key report =
    if seen
    then record {
      outcome = InterlockOutcome.refused;
      reason = idempotency_replay;
      dimensions = replayed_key key;
    }
    else if not (valid report)
    then record {
      outcome = InterlockOutcome.refused;
      reason = binding_not_satisfied;
      dimensions = failed_dimensions (failed_of report);
    }
    else record {
      outcome = InterlockOutcome.admitted;
      reason = all_bindings_satisfied;
      dimensions = no_dimensions;
    }

submit-decision :
    (h : Hashing) (c : CommitEvent) (a : Option Authorization) (t : Option String)
    (s : PaymentLedgerSink)
    → (submit h c a t s).1
      ≡ decision_on
          (contains s.seen_idempotency c.idempotency_key)
          c.idempotency_key
          (interlock_report h c a t s)
unfolding submit refuse admit
submit-decision h c a t s = ground arith

delegation-any_reference :
    (chain : Option DelegationChain) (c : CommitEvent) (ref : Option String) (scope : String)
    → delegation_results chain (record c { authorization_ref = ref }) scope
      ≡ delegation_results chain c scope
unfolding delegation_results
delegation-any_reference none c ref scope = refl
delegation-any_reference (some chain) c ref scope = refl

report-any_reference :
    (h : Hashing) (c : CommitEvent) (ref : Option String) (a : Option Authorization)
    (t : Option String) (s : PaymentLedgerSink)
    → interlock_report h (record c { authorization_ref = ref }) a t s ≡ interlock_report h c a t s
unfolding interlock_report validate_authorization validate_present interval_result
report-any_reference h c ref none t s = refl
report-any_reference h c ref (some a) t s =
    rw (delegation-any_reference a.delegation c ref a.scope) refl

-- The interlock's decision does not depend on the authorization that the commit itself references:
-- the same submission with any other reference is admitted or refused alike.
pub submit-any_reference :
    (h : Hashing) (commit : CommitEvent) (ref : Option String) (a : Option Authorization)
    (token : Option String) (s : PaymentLedgerSink)
    → (submit h (record commit { authorization_ref = ref }) a token s).1
      ≡ (submit h commit a token s).1
submit-any_reference h commit ref a token s =
    submit-decision h (record commit { authorization_ref = ref }) a token s
    ∙ ap (decision_on (contains s.seen_idempotency commit.idempotency_key) commit.idempotency_key)
        (report-any_reference h commit ref a token s)
    ∙ sym (submit-decision h commit a token s)
