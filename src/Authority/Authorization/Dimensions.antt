-- ===== src/Authority/Authorization/Dimensions.antt =====
-- oat/authority/authorization.py: what each dimension of `ValidAuthorization(a, c)` asks for.
use open_authority_trials_oa.Authority.Authorization.{
  DimensionResult, valid, cmp, AuthorizationIssuer, Authorization, Dimension, Bool, DelegationChain,
  some, ValidationReport, non_applicable, mac, authorization_digest, true, is_mismatch, keep, ◌∷◌,
  is_undetermined, verify_integrity, authority_state_at_commit, commit_authorization_correlation,
  Status,
}
use open_authority_trials_oa.Prelude.{
  String, Option, Bool, all, ◌≡◌, not, true, keep, ◌⊎◌, ◌≢◌, ◌↔◌, none, ◌&&◌, arith, [], eq_iff,
  refl,
}
use open_authority_trials_oa.Canonical.Digest.{Hashing}
use open_authority_trials_oa.Prelude.Int.{ℤ, ◌≤ℤ◌}
use open_authority_trials_oa.Authority.CurrentState.{
  AuthorityState, state_digest, status_of, active, Status,
}
use open_authority_trials_oa.Authority.Delegation.{DelegationChain}
use open_authority_trials_oa.Authority.Delegation.Soundness.{
  Delegates, validate_delegation_iff, validate_delegation-not_amplified,
}
use open_authority_trials_oa.Consequence.Model.{CommitEvent}
use open_authority_trials_oa.Authority.Authorization.Validate.{
  decision_result, scope_result, interval_result, integrity_result, revocation_result,
  state_results, delegation_results, use_result, correlation_result,
}

abbrev pub is_ok : DimensionResult → Bool
is_ok r = not (is_mismatch r.outcome) && not (is_undetermined r.outcome)

pub valid-all : (report : ValidationReport) → valid report ≡ all is_ok report
unfolding valid all
valid-all [] = unfold keep in refl
valid-all (r ∷ report) = ground (arith, valid-all report)

-- The value is the same on both sides, or the authorization declares the dimension inapplicable.
abbrev pub BoundOrDeclared : String → String → Type 0
BoundOrDeclared expected actual = (expected ≡ non_applicable) ⊎ (expected ≡ actual)

abbrev pub IssuerVerifies : Hashing → Option AuthorizationIssuer → Authorization → Type 0
IssuerVerifies h none a = ⊥
IssuerVerifies h (some issuer) a = a.integrity ≡ mac h issuer a

abbrev pub StateAllows : Hashing → Option AuthorityState → Authorization → Type 0
StateAllows h none a = ⊥
StateAllows h (some s) a =
    BoundOrDeclared a.authority_state_digest (state_digest h s) × (status_of s a.grant_id ≡ active)

abbrev pub DelegationAllows : Option DelegationChain → String → String → Type 0
DelegationAllows none actor scope = Unit
DelegationAllows (some chain) actor scope = Delegates chain actor scope

abbrev pub UsesLeft : ℤ → Option ℤ → Type 0
UsesLeft max_uses none = ⊥
UsesLeft max_uses (some n) = n ≤ℤ max_uses

abbrev pub Correlated : Hashing → Authorization → Option String → Type 0
Correlated h a none = ⊥
Correlated h a (some token) = BoundOrDeclared (authorization_digest h a) token

pub cmp-ok :
    (d : Dimension) (expected actual : String)
    → (is_ok (cmp d (some expected) (some actual)) ≡ true) ↔ BoundOrDeclared expected actual
unfolding cmp
cmp-ok d expected actual = (
  λ e. ground (arith, eq_iff expected non_applicable, eq_iff expected actual),
  λ b. ground (arith, eq_iff expected non_applicable, eq_iff expected actual),
)

pub decision-ok : (a : Authorization) → (is_ok (decision_result a) ≡ true) ↔ (a.decision ≡ "ALLOW")
unfolding decision_result
decision-ok a =
    (λ e. ground (arith, eq_iff a.decision "ALLOW"), λ b. ground (arith, eq_iff a.decision "ALLOW"))

pub scope-ok : (a : Authorization) → (is_ok (scope_result a) ≡ true) ↔ (a.scope ≢ "")
unfolding scope_result
scope-ok a = (λ e b. ground (arith, eq_iff a.scope ""), λ b. ground (arith, eq_iff a.scope ""))

pub interval-ok :
    (a : Authorization) (c : CommitEvent)
    → (is_ok (interval_result a c) ≡ true)
      ↔ ((a.not_before ≤ℤ c.committed_at) × (c.committed_at ≤ℤ a.not_after))
unfolding interval_result
interval-ok a c = (λ e. ground arith, λ b. ground arith)

pub integrity-ok :
    (h : Hashing) (issuer : Option AuthorizationIssuer) (a : Authorization)
    → (is_ok (integrity_result h issuer a) ≡ true) ↔ IssuerVerifies h issuer a
unfolding integrity_result verify_integrity
integrity-ok h none a = (λ e. cc, λ b. absurd b)
integrity-ok h (some issuer) a = (
  λ e. ground (arith, eq_iff (mac h issuer a) a.integrity),
  λ b. ground (arith, eq_iff (mac h issuer a) a.integrity),
)

pub revocation-ok : (s : Status) → (is_ok (revocation_result s) ≡ true) ↔ (s ≡ active)
unfolding revocation_result
revocation-ok s = (λ e. ground arith, λ b. ground arith)

pub state-ok :
    (h : Hashing) (s : Option AuthorityState) (a : Authorization)
    → (all is_ok (state_results h s a) ≡ true) ↔ StateAllows h s a
unfolding state_results all
state-ok h none a = (λ e. cc, λ b. absurd b)
state-ok h (some s) a =
    let c = cmp-ok authority_state_at_commit a.authority_state_digest (state_digest h s) in
    let r = revocation-ok (status_of s a.grant_id) in
    (λ e. (c.0 (ground arith), r.0 (ground arith)), λ b. ground (arith, c.1 b.0, r.1 b.1))

pub delegation-ok :
    (d : Option DelegationChain) (c : CommitEvent) (scope : String)
    → (all is_ok (delegation_results d c scope) ≡ true) ↔ DelegationAllows d c.principal_id scope
unfolding delegation_results all
delegation-ok none c scope = (λ e. tt, λ b. refl)
delegation-ok (some chain) c scope =
    let v = validate_delegation_iff chain c.principal_id scope in
    (
      λ e. v.0 (ground arith),
      λ b.
          ground
            (arith, v.1 b, validate_delegation-not_amplified chain c.principal_id scope (v.1 b)),
    )

pub use-ok :
    (a : Authorization) (n : Option ℤ) → (is_ok (use_result a n) ≡ true) ↔ UsesLeft a.max_uses n
unfolding use_result
use-ok a none = (λ e. cc, λ b. absurd b)
use-ok a (some n) = (λ e. ground arith, λ b. ground arith)

pub correlation-ok :
    (h : Hashing) (a : Authorization) (t : Option String)
    → (is_ok (correlation_result h a t) ≡ true) ↔ Correlated h a t
unfolding correlation_result
correlation-ok h a none = (λ e. cc, λ b. absurd b)
correlation-ok h a (some t) = cmp-ok commit_authorization_correlation (authorization_digest h a) t
