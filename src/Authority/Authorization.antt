-- ===== src/Authority/Authorization.antt =====
-- oat/authority/authorization.py. The texts that a result carries for a reader are kept as the
-- message and its arguments.
pub mod Validate
pub mod Integrity
pub mod Dimensions
pub mod Meaning
use Prim.Native.String
use open_authority_trials_oa.Prelude.{
  String, List, Bool, keep, Option, true, is_empty, ℕ, ◌==◌, false, ◌&&◌, ◌∷◌, ◌++◌, [], some,
  if◌then◌else◌, none,
}
use open_authority_trials_oa.Authority.Delegation.{chain_to_dict, DelegationChain, Reason}
use open_authority_trials_oa.Canonical.Json.{Json, str, dict, num}
use open_authority_trials_oa.Prelude.Dict.{get_or, put, Dict}
use open_authority_trials_oa.Canonical.Digest.{Hashing, digest_object, encode}
use open_authority_trials_oa.Authority.CurrentState.{Status}
use open_authority_trials_oa.Prelude.Int.{ℤ, pos, ◌+ℤ◌}
use open_authority_trials_oa.Canonical.Text.{codes}

pub data Outcome : Type 0 where
  bound mismatch undetermined declared_non_applicable : Outcome

pub data Dimension : Type 0 where
  authorization_present positive_decision tenant principal agent_identity : Dimension
  release_identity exact_action_digest protected_sink idempotency_binding : Dimension
  normalized_action_scope authorization_integrity validity_interval : Dimension
  authority_state_at_commit revocation_state delegation_chain non_amplification : Dimension
  authorization_use_count commit_authorization_correlation : Dimension

pub data Detail : Type 0 where
  no_detail declared_inapplicable value_missing no_artifact no_scope no_issuer : Detail
  integrity_failed before_not_before after_not_after no_state state_unavailable : Detail
  no_delegation_in_force use_count_not_recorded no_telemetry : Detail
  expected_observed : String → String → Detail
  decision_is : String → Detail
  grant_is : Status → Detail
  delegation_reason : Reason → Detail
  used_times : ℤ → ℤ → Detail

pub record DimensionResult : Type 0 where
  pub dimension : Dimension
  pub outcome : Outcome
  pub detail : Detail

abbrev pub result : Dimension → Outcome → Detail → DimensionResult
result d o t = record { dimension = d; outcome = o; detail = t }

-- A `ValidationReport` is its tuple of results.
abbrev pub ValidationReport : Type 0
ValidationReport = List DimensionResult

abbrev pub is_mismatch : Outcome → Bool
is_mismatch mismatch = true
is_mismatch _ = false

abbrev pub is_undetermined : Outcome → Bool
is_undetermined undetermined = true
is_undetermined _ = false

unfoldable pub mismatches : ValidationReport → List DimensionResult
unfolding keep
mismatches report = keep (λ r. is_mismatch r.outcome) report

unfoldable pub undetermined_results : ValidationReport → List DimensionResult
unfolding keep
undetermined_results report = keep (λ r. is_undetermined r.outcome) report

unfoldable pub valid : ValidationReport → Bool
unfolding mismatches undetermined_results
valid report = is_empty (mismatches report) && is_empty (undetermined_results report)

pub record Authorization : Type 0 where
  pub authorization_id : String
  pub grant_id : String
  pub decision : String
  pub tenant_id : String
  pub principal_id : String
  pub agent_id : String
  pub release_id : String
  pub action_digest : String
  pub sink_id : String
  pub scope : String
  pub authority_state_digest : String
  pub not_before : ℤ
  pub not_after : ℤ
  pub idempotency_key : String
  pub max_uses : ℤ
  pub delegation : Option DelegationChain
  pub integrity : String

abbrev pub non_applicable : String
non_applicable = "NOT_APPLICABLE"

unfoldable pub delegation_to_dict : Option DelegationChain → Json
unfolding chain_to_dict
delegation_to_dict none = str non_applicable
delegation_to_dict (some chain) = chain_to_dict chain

abbrev pub payload_entries : Authorization → List (String × Json)
payload_entries a =
    ("authorization_id", str a.authorization_id)
    ∷ ("grant_id", str a.grant_id)
    ∷ ("decision", str a.decision)
    ∷ ("tenant_id", str a.tenant_id)
    ∷ ("principal_id", str a.principal_id)
    ∷ ("agent_id", str a.agent_id)
    ∷ ("release_id", str a.release_id)
    ∷ ("action_digest", str a.action_digest)
    ∷ ("sink_id", str a.sink_id)
    ∷ ("scope", str a.scope)
    ∷ ("authority_state_digest", str a.authority_state_digest)
    ∷ ("not_before", num a.not_before)
    ∷ ("not_after", num a.not_after)
    ∷ ("idempotency_key", str a.idempotency_key)
    ∷ ("max_uses", num a.max_uses)
    ∷ ("delegation", delegation_to_dict a.delegation)
    ∷ []

unfoldable pub payload : Authorization → Json
unfolding delegation_to_dict
payload a = dict (payload_entries a)

unfoldable pub authorization_to_dict : Authorization → Json
unfolding delegation_to_dict
authorization_to_dict a = dict (payload_entries a ++ ("integrity", str a.integrity) ∷ [])

-- The issuer's secret and its use counts.
pub record AuthorizationIssuer : Type 0 where
  pub secret : List ℕ
  pub uses : Dict ℤ

unfoldable pub use_count : AuthorizationIssuer → String → ℤ
use_count issuer authorization_id = get_or issuer.uses authorization_id (pos 0)

-- The new count is also returned; no caller reads it.
unfoldable pub record_use : AuthorizationIssuer → String → AuthorizationIssuer × ℤ
record_use issuer authorization_id =
    let n = get_or issuer.uses authorization_id (pos 0) +ℤ pos 1 in
    (record issuer { uses = put issuer.uses authorization_id n }, n)

unfoldable pub cmp : Dimension → Option String → Option String → DimensionResult
cmp d none actual = result d undetermined value_missing
cmp d (some expected) actual =
    if expected == non_applicable
    then result d declared_non_applicable declared_inapplicable
    else elim actual [
      | none ↦ result d undetermined value_missing
      | some observed ↦
          if expected == observed
          then result d bound no_detail
          else result d mismatch (expected_observed expected observed)
    ]

module _ (h : Hashing) where
  unfoldable pub authorization_digest : Authorization → String
  unfolding authorization_to_dict
  authorization_digest a = digest_object h (authorization_to_dict a)

  unfoldable pub token_digest : Authorization → String
  unfolding authorization_digest
  token_digest a = authorization_digest a

  unfoldable pub mac : AuthorizationIssuer → Authorization → String
  unfolding payload
  mac issuer a =
      String.◌++◌ "hmac-sha256:"
        (h.hmac_sha256 issuer.secret (encode (codes (digest_object h (payload a)))))

  unfoldable pub sign : AuthorizationIssuer → Authorization → Authorization
  unfolding mac
  sign issuer a = record a { integrity = mac issuer a }

  unfoldable pub verify_integrity : AuthorizationIssuer → Authorization → Bool
  unfolding mac
  verify_integrity issuer a = mac issuer a == a.integrity
