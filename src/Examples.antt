-- ===== src/Examples.antt =====
-- The theorems at concrete inputs: the reference profile's sink, authority and authorization, and
-- a stand-in for the hash functions.
pub mod Boundary
pub mod Records
pub mod Rb001
pub mod Sequences
pub mod Trials
pub mod HostSinks
pub mod Races
pub mod Searches
pub mod Candidates
use open_authority_trials_oa.Canonical.Digest.{Hashing}
use open_authority_trials_oa.Authority.Authorization.{Authorization, token_digest}
use open_authority_trials_oa.Consequence.Model.{CommitEvent}
use open_authority_trials_oa.Prelude.{Option, String, none, some, ◌∷◌, []}
use open_authority_trials_oa.Verifier.Consequence.{ConsequenceEvidence}
use open_authority_trials_oa.Evidence.Replay.Guarded.{payment_authorization, payment_commit}
use open_authority_trials_oa.Scenarios.{payment_sink, base_authority, base_issuer}
use open_authority_trials_oa.Consequence.Sink.{receipt_of}
use open_authority_trials_oa.Prelude.Int.{pos}

-- Every text has the same digest: enough to run the model.
abbrev pub plain : Hashing
plain = record { sha256 = λ bytes. "0"; hmac_sha256 = λ key bytes. "1" }

abbrev pub granted : Authorization
granted = payment_authorization plain

abbrev pub payment : CommitEvent
payment = payment_commit plain "commit-0001" "route.api-guarded"

abbrev pub token : Option String
token = some (token_digest plain granted)

abbrev pub paid_evidence : ConsequenceEvidence
paid_evidence = record {
  protected_sink = payment_sink;
  commits = payment ∷ [];
  receipts = receipt_of 1 payment ∷ [];
  authorizations = ("authz-0001", granted) ∷ [];
  authority = some base_authority;
  issuer = some base_issuer;
  correlated_token_digests = ("commit-0001", token_digest plain granted) ∷ [];
  use_counts = ("authz-0001", pos 1) ∷ [];
  reconciliation = none;
  internal_property_failures = [];
  instrument_failures = [];
}

abbrev pub unclaimed : CommitEvent
unclaimed = record payment { authorization_ref = none }
