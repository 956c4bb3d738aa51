-- ===== src/Verifier/Consequence/Findings.antt =====
-- oat/verifier/consequence.py: what the finding of one commit means.
use open_authority_trials_oa.Canonical.Digest.{Hashing}
use open_authority_trials_oa.Verifier.Consequence.{
  report_of, ConsequenceEvidence, adjudicate_commit, AuthorityStore, CommitEvent, valid,
  held_authorization, judge, unknown_or_unestablished, receipt_for, get, or_empty, is_dangling,
  adjudicate_under, no_boundary_counterexample, consequence_boundary_failure,
  validate_authorization,
}
use open_authority_trials_oa.Authority.CurrentState.{AuthorityStore, at}
use open_authority_trials_oa.Consequence.Model.{CommitEvent, ConsequenceReceipt}
use open_authority_trials_oa.Authority.Authorization.Meaning.{
  Authorized, validate_authorization_iff,
}
use open_authority_trials_oa.Authority.Authorization.{valid, ValidationReport, mismatches}
use open_authority_trials_oa.Prelude.{
  ◌≡◌, true, some, ◌↔◌, is_none, arith, ◌⊎◌, false, Bool-cases, is_empty, none, inl, inr,
  Option-cases, sym, keep,
}
use open_authority_trials_oa.Prelude.Dict.{get}
use open_authority_trials_oa.Authority.Authorization.Validate.{validate_authorization}

abbrev pub AuthorizedBy : Hashing → ConsequenceEvidence → AuthorityStore → CommitEvent → Type 0
AuthorizedBy h e authority commit =
    Authorized h (held_authorization e commit.authorization_ref) commit
      (at authority commit.committed_at) e.issuer
      (get e.use_counts (or_empty commit.authorization_ref))
      (get e.correlated_token_digests commit.commit_id)

report_of_iff :
    (h : Hashing) (e : ConsequenceEvidence) (authority : AuthorityStore) (commit : CommitEvent)
    → (valid (report_of h commit e authority) ≡ true) ↔ AuthorizedBy h e authority commit
unfolding report_of
report_of_iff h e authority commit = validate_authorization_iff h _ commit _ _ _ _

-- The evidence has an authority store, and the commit has a receipt and references no
-- authorization that is missing.
pub record Established (e : ConsequenceEvidence) (commit : CommitEvent) (authority : AuthorityStore)
    : Type 0 where
  pub store : e.authority ≡ some authority
  pub receipt : is_none (receipt_for e commit.commit_id) ≡ false
  pub reference :
      is_dangling commit.authorization_ref (held_authorization e commit.authorization_ref) ≡ false

pub Established-adjudicate :
    (h : Hashing) (e : ConsequenceEvidence) (commit : CommitEvent) (authority : AuthorityStore)
    → Established e commit authority
    → adjudicate_commit h commit e ≡ judge commit (report_of h commit e authority)
unfolding adjudicate_commit
Established-adjudicate h e commit authority w = ground (arith, w.store, w.receipt, w.reference)

-- A commit that is not established is unknown.
pub not-Established :
    (h : Hashing) (e : ConsequenceEvidence) (commit : CommitEvent)
    → ((adjudicate_commit h commit e).disposition ≡ unknown_or_unestablished)
      ⊎ ((authority : AuthorityStore) × Established e commit authority)
unfolding adjudicate_commit adjudicate_under
not-Established h e commit = elim (Bool-cases (is_none (receipt_for e commit.commit_id))) [
  | inl r ↦ inl (ground arith)
  | inr r ↦ elim (Option-cases e.authority) [
    | inl s ↦ inl (ground arith)
    | inr (authority, s) ↦
        elim (Bool-cases
          (is_dangling commit.authorization_ref (held_authorization e commit.authorization_ref))) [
            | inl d ↦ inl (ground arith)
            | inr d ↦ inr (authority, record { store = s; receipt = r; reference = d })
          ]
  ]
]

-- The disposition of a judged commit.
judge-valid :
    (commit : CommitEvent) (report : ValidationReport)
    → ((judge commit report).disposition ≡ no_boundary_counterexample) ↔ (valid report ≡ true)
unfolding judge
judge-valid commit report = (λ e. ground arith, λ v. ground arith)

judge_crossing :
    (commit : CommitEvent) (report : ValidationReport)
    → ((judge commit report).disposition ≡ consequence_boundary_failure)
      ↔ (is_empty (mismatches report) ≡ false)
unfolding judge valid
judge_crossing commit report = (λ e. ground arith, λ v. ground arith)

module _ (h : Hashing) (e : ConsequenceEvidence) (commit : CommitEvent) where
  -- A commit is found to be no counterexample exactly when the evidence has an authority store, a
  -- receipt for the commit and the authorization that the commit references, and that
  -- authorization is valid for the commit.
  pub adjudicate_commit-clean_iff :
      ((adjudicate_commit h commit e).disposition ≡ no_boundary_counterexample) ↔ (
        (authority : AuthorityStore) × Established e commit authority
        × AuthorizedBy h e authority commit)
  adjudicate_commit-clean_iff = (
    λ clean. elim (not-Established h e commit) [
      | inl u ↦ cc
      | inr (authority, w) ↦ (
        authority,
        w,
        (report_of_iff h e authority commit).0 (
            (judge-valid commit _).0
              (rw (sym (Established-adjudicate h e commit authority w)) clean)),
      )
    ],
    λ p.
        let (authority, w, v) = p in
        rw (Established-adjudicate h e commit authority w)
          ((judge-valid commit _).1 ((report_of_iff h e authority commit).1 v)),
  )

  -- A commit is found to be a boundary failure exactly when the evidence has an authority store, a
  -- receipt for the commit and any authorization that the commit references, and some dimension
  -- of the validation is an outright mismatch.
  pub adjudicate_commit-crossing_iff :
      ((adjudicate_commit h commit e).disposition ≡ consequence_boundary_failure) ↔ (
        (authority : AuthorityStore) × Established e commit authority
        × (is_empty (mismatches (report_of h commit e authority)) ≡ false))
  adjudicate_commit-crossing_iff = (
    λ crossing. elim (not-Established h e commit) [
      | inl u ↦ cc
      | inr (authority, w) ↦ (
        authority,
        w,
        (judge_crossing commit _).0
            (rw (sym (Established-adjudicate h e commit authority w)) crossing),
      )
    ],
    λ p.
        let (authority, w, m) = p in
        rw (Established-adjudicate h e commit authority w) ((judge_crossing commit _).1 m),
  )

  -- A commit that claims no authorization at all is a boundary failure as soon as the evidence has
  -- an authority store and a receipt for it, whatever else the evidence holds.
  pub adjudicate_commit_unclaimed :
      (authority : AuthorityStore) (r : ConsequenceReceipt)
      → commit.authorization_ref ≡ none
      → e.authority ≡ some authority
      → receipt_for e commit.commit_id ≡ some r
      → (adjudicate_commit h commit e).disposition ≡ consequence_boundary_failure
  adjudicate_commit_unclaimed authority r unclaimed store receipt =
      adjudicate_commit-crossing_iff.1 (
        authority,
        record { store = store; receipt = rw receipt; reference = rw unclaimed },
        unfold report_of held_authorization validate_authorization mismatches keep in rw unclaimed,
      )
