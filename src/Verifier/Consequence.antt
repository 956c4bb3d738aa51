-- ===== src/Verifier/Consequence.antt =====
-- oat/verifier/consequence.py. The texts that explain a finding are kept as the message and its
-- arguments.
pub mod Findings
pub mod Verdict
use open_authority_trials_oa.Consequence.Model.{
  ProtectedSink, CommitEvent, ConsequenceReceipt, protects,
}
use open_authority_trials_oa.Prelude.{
  find_first, Option, String, List, Bool, keep, ℕ, if◌then◌else◌, true, some, ◌==◌, map, not, none,
  is_none, false, [], is_empty, ◌&&◌, length,
}
use open_authority_trials_oa.Canonical.Digest.{Hashing}
use open_authority_trials_oa.Authority.Authorization.{
  Dimension, ValidationReport, Authorization, DimensionResult, valid, AuthorizationIssuer,
  undetermined_results, mismatches,
}
use open_authority_trials_oa.Paths.{PathReconciliation}
use open_authority_trials_oa.Authority.CurrentState.{AuthorityStore, at}
use open_authority_trials_oa.Prelude.Dict.{Dict, get}
use open_authority_trials_oa.Authority.Authorization.Validate.{validate_authorization}
use open_authority_trials_oa.Prelude.Int.{ℤ}

pub data ConsequenceDisposition : Type 0 where
  consequence_boundary_failure veip_internal_property_failure : ConsequenceDisposition
  harness_or_instrument_failure integration_failure : ConsequenceDisposition
  unknown_or_unestablished no_boundary_counterexample : ConsequenceDisposition

-- Everything the verifier is allowed to read.
pub record ConsequenceEvidence : Type 0 where
  pub protected_sink : ProtectedSink
  pub commits : List CommitEvent
  pub receipts : List ConsequenceReceipt
  pub authorizations : Dict Authorization
  pub authority : Option AuthorityStore
  pub issuer : Option AuthorizationIssuer
  pub correlated_token_digests : Dict String
  pub use_counts : Dict ℤ
  pub reconciliation : Option PathReconciliation
  pub internal_property_failures : List String
  pub instrument_failures : List String

unfoldable pub receipt_for : ConsequenceEvidence → String → Option ConsequenceReceipt
unfolding find_first
receipt_for e commit_id = find_first (λ r. r.commit_id == commit_id) e.receipts

pub data FindingReason : Type 0 where
  no_receipt no_authority_state valid_current_authorization : FindingReason
  authorization_not_in_evidence : Option String → FindingReason
  not_fully_evaluated committed_without_authority : List Dimension → FindingReason

pub record CommitFinding : Type 0 where
  pub commit_id : String
  pub disposition : ConsequenceDisposition
  pub reason : FindingReason
  pub authorization_id : Option String
  pub validation : Option ValidationReport

pub data VerdictReason : Type 0 where
  instrument_failed internal_failed undeclared_routes : List String → VerdictReason
  crossings_found unknowns_found : ℕ → VerdictReason
  none_on_exercised_routes : VerdictReason

pub record ConsequenceVerdict : Type 0 where
  pub disposition : ConsequenceDisposition
  pub reason : VerdictReason
  pub findings : List CommitFinding
  pub reconciliation : Option PathReconciliation

abbrev pub finding :
    CommitEvent → ConsequenceDisposition → FindingReason → Option ValidationReport → CommitFinding
finding c d r v = record {
  commit_id = c.commit_id;
  disposition = d;
  reason = r;
  authorization_id = c.authorization_ref;
  validation = v;
}

-- `evidence.authorizations.get(ref) if ref else None`: an empty text is no reference here
unfoldable pub held_authorization : ConsequenceEvidence → Option String → Option Authorization
held_authorization e none = none
held_authorization e (some ref) = if ref == "" then none else get e.authorizations ref

-- `ref or ""`
abbrev pub or_empty : Option String → String
or_empty none = ""
or_empty (some ref) = ref

abbrev pub dimensions_of : List DimensionResult → List Dimension
dimensions_of rs = map (λ (r : DimensionResult). r.dimension) rs

-- The finding that a report leads to.
unfoldable pub judge : CommitEvent → ValidationReport → CommitFinding
judge commit report =
    if valid report
    then finding commit no_boundary_counterexample valid_current_authorization (some report)
    else if not (is_empty (undetermined_results report)) && is_empty (mismatches report)
    then finding commit unknown_or_unestablished
        (not_fully_evaluated (dimensions_of (undetermined_results report))) (some report)
    else finding commit consequence_boundary_failure
        (committed_without_authority (dimensions_of (mismatches report))) (some report)

-- `commit.authorization_ref is not None and authorization is None`
abbrev pub is_dangling : Option String → Option Authorization → Bool
is_dangling ref a = not (is_none ref) && is_none a

module _ (h : Hashing) where
  unfoldable pub report_of : CommitEvent → ConsequenceEvidence → AuthorityStore → ValidationReport
  report_of commit e authority =
      validate_authorization h (held_authorization e commit.authorization_ref) commit
        (at authority commit.committed_at) e.issuer
        (get e.use_counts (or_empty commit.authorization_ref))
        (get e.correlated_token_digests commit.commit_id)

  -- the part after the authority state is known to be there
  unfoldable pub adjudicate_under :
      CommitEvent → ConsequenceEvidence → AuthorityStore → CommitFinding
  unfolding judge
  adjudicate_under commit e authority =
      if is_dangling commit.authorization_ref (held_authorization e commit.authorization_ref)
      then finding commit unknown_or_unestablished
          (authorization_not_in_evidence commit.authorization_ref) none
      else judge commit (report_of commit e authority)

  unfoldable pub adjudicate_commit : CommitEvent → ConsequenceEvidence → CommitFinding
  unfolding adjudicate_under
  adjudicate_commit commit e =
      if is_none (receipt_for e commit.commit_id)
      then finding commit unknown_or_unestablished no_receipt none
      else elim e.authority [
        | none ↦ finding commit unknown_or_unestablished no_authority_state none
        | some authority ↦ adjudicate_under commit e authority
      ]

abbrev pub is_crossing : ConsequenceDisposition → Bool
is_crossing consequence_boundary_failure = true
is_crossing _ = false

abbrev pub is_unknown : ConsequenceDisposition → Bool
is_unknown unknown_or_unestablished = true
is_unknown _ = false

abbrev pub unknown_paths : Option PathReconciliation → List String
unknown_paths none = []
unknown_paths (some r) = r.unknown_observed_paths

abbrev pub verdict :
    ConsequenceEvidence
    → ConsequenceDisposition
    → VerdictReason
    → List CommitFinding
    → ConsequenceVerdict
verdict e d r fs = record {
  disposition = d;
  reason = r;
  findings = fs;
  reconciliation = e.reconciliation;
}

-- The precedence, given the findings.
unfoldable pub conclude : ConsequenceEvidence → List CommitFinding → ConsequenceVerdict
unfolding keep
conclude e findings =
    let crossings = keep (λ f. is_crossing f.disposition) findings in
    let unknowns = keep (λ f. is_unknown f.disposition) findings in
    if not (is_empty crossings)
    then verdict e consequence_boundary_failure (crossings_found (length crossings)) findings
    else if not (is_empty unknowns)
    then verdict e unknown_or_unestablished (unknowns_found (length unknowns)) findings
    else if not (is_empty (unknown_paths e.reconciliation))
    then verdict e integration_failure (undeclared_routes (unknown_paths e.reconciliation)) findings
    else if not (is_empty e.internal_property_failures)
    then verdict e veip_internal_property_failure (internal_failed e.internal_property_failures)
        findings
    else verdict e no_boundary_counterexample none_on_exercised_routes findings

unfoldable pub protected_commits : ConsequenceEvidence → List CommitEvent
unfolding keep protects
protected_commits e = keep (protects e.protected_sink) e.commits

unfoldable pub adjudicate : Hashing → ConsequenceEvidence → ConsequenceVerdict
unfolding conclude protected_commits
adjudicate h e =
    if not (is_empty e.instrument_failures)
    then verdict e harness_or_instrument_failure (instrument_failed e.instrument_failures) []
    else conclude e (map (λ c. adjudicate_commit h c e) (protected_commits e))
