-- ===== src/Evidence/Replay.antt =====
-- `evidence_from_scenario` of oat/evidence/replay.py, and the verdict that `run_scenario` reaches.
pub mod Dispositions
pub mod Guarded
use open_authority_trials_oa.Scenarios.{ScenarioResult, declared_paths}
use open_authority_trials_oa.Canonical.Digest.{Hashing}
use open_authority_trials_oa.Verifier.Consequence.{
  ConsequenceEvidence, ConsequenceDisposition, adjudicate,
}
use open_authority_trials_oa.Prelude.{some}
use open_authority_trials_oa.Paths.{reconcile, observations_from_sink}

unfoldable pub evidence_from_scenario : ScenarioResult → ConsequenceEvidence
evidence_from_scenario s = record {
  protected_sink = s.sink.sink;
  commits = s.sink.commits;
  receipts = s.sink.receipts;
  authorizations = s.authorizations;
  authority = some s.authority;
  issuer = some s.issuer;
  correlated_token_digests = s.correlated_token_digests;
  use_counts = s.use_counts;
  reconciliation = some (reconcile declared_paths (observations_from_sink s.sink));
  internal_property_failures = s.internal_property_failures;
  instrument_failures = s.instrument_failures;
}

unfoldable pub disposition_of : Hashing → ScenarioResult → ConsequenceDisposition
unfolding evidence_from_scenario
disposition_of h s = (adjudicate h (evidence_from_scenario s)).disposition
