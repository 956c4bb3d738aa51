-- ===== src/Consequence/Sink.antt =====
-- oat/consequence/sink.py. A method returns the new sink and its result. The issuer is an object
-- that the sink shares with its callers: who calls next is given the issuer of the new sink.
pub mod Interlock
pub mod History
pub mod Guarded
use Prim.Native.String
use open_authority_trials_oa.Prelude.{
  String, ℕ, contains, Option, List, false, true, ◌++◌, Bool, none, some, ◌∷◌, if◌then◌else◌, [],
  map, not, length, ◌+◌, is_empty,
}
use open_authority_trials_oa.Canonical.Json.{Json, dict, str, num, bool, opt_text}
use open_authority_trials_oa.Consequence.Model.{ProtectedSink, CommitEvent, ConsequenceReceipt}
use open_authority_trials_oa.Authority.Authorization.{
  ValidationReport, Authorization, Dimension, AuthorizationIssuer, token_digest, record_use,
  use_count, DimensionResult, valid, mismatches, undetermined_results,
}
use open_authority_trials_oa.Canonical.Digest.{Hashing}
use open_authority_trials_oa.Prelude.Int.{ℤ, ◌+ℤ◌, pos}
use open_authority_trials_oa.Authority.CurrentState.{AuthorityStore, at}
use open_authority_trials_oa.Prelude.Show.{show_padded4}
use open_authority_trials_oa.Authority.Authorization.Validate.{validate_authorization}

pub data InterlockOutcome : Type 0 where
  admitted refused : InterlockOutcome

pub data InterlockReason : Type 0 where
  idempotency_replay binding_not_satisfied all_bindings_satisfied : InterlockReason

-- the dictionary that a decision carries
pub data DecisionDimensions : Type 0 where
  no_dimensions : DecisionDimensions
  replayed_key : String → DecisionDimensions
  failed_dimensions : List Dimension → DecisionDimensions

pub record InterlockDecision : Type 0 where
  pub outcome : InterlockOutcome
  pub reason : InterlockReason
  pub dimensions : DecisionDimensions

pub record RouteObservation : Type 0 where
  pub route_id : String
  pub observed_at : ℤ
  pub admitted : Bool
  pub committed : Bool
  pub commit_id : Option String

unfoldable pub route_to_dict : RouteObservation → Json
route_to_dict r = dict (
    ("route_id", str r.route_id)
    ∷ ("observed_at", num r.observed_at)
    ∷ ("admitted", bool r.admitted)
    ∷ ("committed", bool r.committed)
    ∷ ("commit_id", opt_text r.commit_id)
    ∷ [])

pub record PaymentLedgerSink : Type 0 where
  pub sink : ProtectedSink
  pub authority : AuthorityStore
  pub issuer : AuthorizationIssuer
  pub commits : List CommitEvent
  pub receipts : List ConsequenceReceipt
  pub route_log : List RouteObservation
  pub interlock_log : List InterlockDecision
  pub seen_idempotency : List String

-- The route observation of an arrival that the interlock refuses.
abbrev pub refused_arrival : CommitEvent → RouteObservation
refused_arrival commit = record {
  route_id = commit.route_id;
  observed_at = commit.committed_at;
  admitted = false;
  committed = false;
  commit_id = none;
}

abbrev pub committed_arrival : CommitEvent → RouteObservation
committed_arrival commit = record {
  route_id = commit.route_id;
  observed_at = commit.committed_at;
  admitted = true;
  committed = true;
  commit_id = some commit.commit_id;
}

-- the receipt that the observer emits as the `n`th
unfoldable pub receipt_of : ℕ → CommitEvent → ConsequenceReceipt
receipt_of n commit = record {
  receipt_id = String.◌++◌ "receipt-" (show_padded4 n);
  commit_id = commit.commit_id;
  sink_id = commit.sink_id;
  route_id = commit.route_id;
  observed_at = commit.committed_at;
  action_digest = commit.action_digest;
  observer = "sink-independent-observer";
}

-- `_commit`
unfoldable pub append_commit : CommitEvent → PaymentLedgerSink → PaymentLedgerSink
append_commit commit s = record s {
  commits = s.commits ++ commit ∷ [];
  receipts = s.receipts ++ receipt_of (length s.receipts + 1) commit ∷ [];
  route_log = s.route_log ++ committed_arrival commit ∷ [];
}

-- a set of texts that a text is added to
unfoldable pub add_text : String → List String → List String
unfolding contains
add_text x xs = if contains xs x then xs else x ∷ xs

unfoldable pub commit_unguarded : CommitEvent → PaymentLedgerSink → PaymentLedgerSink
unfolding append_commit add_text
commit_unguarded commit s =
    append_commit commit
      (record s { seen_idempotency = add_text commit.idempotency_key s.seen_idempotency })

-- A refusal is logged, and nothing else changes.
unfoldable pub refuse :
    InterlockReason
    → DecisionDimensions
    → CommitEvent
    → PaymentLedgerSink
    → PaymentLedgerSink × InterlockDecision
refuse reason dimensions commit s =
    let decision : InterlockDecision = record {
      outcome = InterlockOutcome.refused;
      reason = reason;
      dimensions = dimensions;
    } in
    (
      record s {
        interlock_log = s.interlock_log ++ decision ∷ [];
        route_log = s.route_log ++ refused_arrival commit ∷ [];
      },
      decision,
    )

-- After the report is valid: count the use, mark the key, log the decision, commit.
unfoldable pub admit :
    Option Authorization → CommitEvent → PaymentLedgerSink → PaymentLedgerSink × InterlockDecision
unfolding append_commit add_text
admit authorization commit s =
    let decision : InterlockDecision = record {
      outcome = InterlockOutcome.admitted;
      reason = all_bindings_satisfied;
      dimensions = no_dimensions;
    } in
    (
      append_commit commit (record s {
        issuer = elim authorization [
          | none ↦ s.issuer
          | some a ↦ (record_use s.issuer a.authorization_id).0
        ];
        seen_idempotency = add_text commit.idempotency_key s.seen_idempotency;
        interlock_log = s.interlock_log ++ decision ∷ [];
      }),
      decision,
    )

-- the dimensions that a refusal names: the mismatches, or else what could not be determined
unfoldable pub failed_of : ValidationReport → List Dimension
failed_of report =
    let failed = map (λ (r : DimensionResult). r.dimension) (mismatches report) in
    if is_empty failed
    then map (λ (r : DimensionResult). r.dimension) (undetermined_results report)
    else failed

unfoldable pub prior_uses : Option Authorization → AuthorizationIssuer → Option ℤ
prior_uses none issuer = none
prior_uses (some a) issuer = some (use_count issuer a.authorization_id +ℤ pos 1)

module _ (h : Hashing) where
  -- the report that the interlock decides by
  unfoldable pub interlock_report :
      CommitEvent → Option Authorization → Option String → PaymentLedgerSink → ValidationReport
  unfolding prior_uses
  interlock_report commit authorization presented s =
      validate_authorization h authorization commit (at s.authority commit.committed_at)
        (some s.issuer) (prior_uses authorization s.issuer) presented

  unfoldable pub submit :
      CommitEvent
      → Option Authorization
      → Option String
      → PaymentLedgerSink
      → PaymentLedgerSink × InterlockDecision
  unfolding refuse admit failed_of
  submit commit authorization presented s =
      let report = interlock_report commit authorization presented s in
      if contains s.seen_idempotency commit.idempotency_key
      then refuse idempotency_replay (replayed_key commit.idempotency_key) commit s
      else if not (valid report)
      then refuse binding_not_satisfied (failed_dimensions (failed_of report)) commit s
      else admit authorization commit s

unfoldable pub presented_digest : Hashing → Authorization → String
presented_digest h a = token_digest h a
