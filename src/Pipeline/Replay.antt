-- ===== src/Pipeline/Replay.antt =====
-- oat/replay.py, `replay_run`, with the evidence of oat/verifier/v1.py, `_result`. The package's files
-- are given as what they hold, and the scenario as it is loaded. The texts of the result that only
-- repeat what is compared are left out.
pub mod Reproduced
use open_authority_trials_oa.Prelude.{
  String, Bool, Option, ℕ, List, ◌∷◌, [], none, some, ◌==◌, ◌&&◌,
}
use open_authority_trials_oa.Prelude.Int.{ℤ, pos, negsuc}
use open_authority_trials_oa.Prelude.Result.{Result, ok, err, ◌>>=◌}
use open_authority_trials_oa.Canonical.Digest.{Hashing, digest_object}
use open_authority_trials_oa.Canonical.Json.{
  Json, Fields, Items, get_field, fields, dict, list, str, null, bool, num, arr, obj, nil,
}
use open_authority_trials_oa.ReferenceBoundary.{Scenario, execute}
use open_authority_trials_oa.Falsifier.{
  Evaluation, evaluate, FalsifierError, falsifier_identity, expression,
}
use open_authority_trials_oa.Verifier.V1.{
  V1Result, V1Disposition, Rejection, SchemaCheck, verify_witness, build_witness, text_at, dict_at,
  counterexample_confirmed, no_counterexample, rejected, schema_invalid, manifest_binding,
  scenario_identity, tampered_bytes, falsifier_unsupported, falsifier_mismatch, claim_mismatch,
  trace_unevaluable,
}
use open_authority_trials_oa.Verifier.V1.Recorded.{variation_of}
use open_authority_trials_oa.Sequence.Replay.{ReplayError}

abbrev pub disposition_text : V1Disposition → String
disposition_text counterexample_confirmed = "COUNTEREXAMPLE_CONFIRMED"
disposition_text no_counterexample = "NO_COUNTEREXAMPLE"
disposition_text rejected = "REJECTED"

abbrev rejection_text : Option Rejection → Json
rejection_text none = null
rejection_text (some schema_invalid) = str "WITNESS_SCHEMA_INVALID"
rejection_text (some manifest_binding) = str "MANIFEST_BINDING_MISMATCH"
rejection_text (some scenario_identity) = str "SCENARIO_IDENTITY_MISMATCH"
rejection_text (some tampered_bytes) = str "CANONICAL_BYTES_TAMPERED"
rejection_text (some falsifier_unsupported) = str "FALSIFIER_VERSION_UNSUPPORTED"
rejection_text (some falsifier_mismatch) = str "FALSIFIER_IDENTITY_MISMATCH"
rejection_text (some claim_mismatch) = str "CLAIMED_EVALUATION_MISMATCH"
rejection_text (some trace_unevaluable) = str "TRACE_NOT_EVALUABLE"

abbrev opt_bool : Option Bool → Json
opt_bool none = null
opt_bool (some b) = bool b

abbrev or_empty : Option Json → Json
or_empty none = dict []
or_empty (some v) = v

abbrev pub claim_ceiling : String
claim_ceiling =
    "A deterministic local instrument reproduced a documented synthetic authorization failure class (RB-001) under frozen scenario conditions. This supports no claim about VEIP, OAuth, any agent system, any vendor, or any deployed system."

-- `evidence` of `_result`
unfoldable pub evidence_of : Hashing → Fields → V1Result → Fields
unfolding text_at get_field
evidence_of h witness r = fields (
    ("canonical_form", str "oat-canonical-json/1")
    ∷ ("run_mode", str "METHOD_DEVELOPMENT_ONLY")
    ∷ ("claim_bearing_use", str "PROHIBITED")
    ∷ ("claim_ceiling", str claim_ceiling)
    ∷ ("scenario_id", str (text_at witness "scenario_id"))
    ∷ ("boundary_id", str (text_at witness "boundary_id"))
    ∷ ("manifest_digest", str (text_at witness "manifest_digest"))
    ∷ ("witness_digest", str (digest_object h (obj witness)))
    ∷ ("falsifier", or_empty (get_field witness "falsifier"))
    ∷ ("verifier", dict (("id", str "OAT-V1") ∷ ("version", str "0.1.0") ∷ []))
    ∷ ("disposition", str (disposition_text r.disposition))
    ∷ ("rejection_reason", rejection_text r.rejection_reason)
    ∷ ("predicate_trace", list r.predicate_trace)
    ∷ ("computational_result", opt_bool r.computational_result)
    ∷ [])

unfoldable pub evidence_digest : Hashing → Fields → V1Result → String
unfolding evidence_of
evidence_digest h witness r = digest_object h (obj (evidence_of h witness r))

-- what `evaluate` returns, as a dictionary
unfoldable pub evaluation_fields : Hashing → Evaluation → Fields
unfolding falsifier_identity
evaluation_fields h e = fields (
    ("falsifier", obj (falsifier_identity h))
    ∷ ("expression", str expression)
    ∷ ("predicate_trace", list e.predicate_trace)
    ∷ ("counterexample", bool e.counterexample)
    ∷ [])

pub data RunReplayError : Type 0 where
  unreadable : ReplayError → RunReplayError
  unevaluable : FalsifierError → RunReplayError
  no_index : RunReplayError

abbrev transcript_of : Option Json → Items
transcript_of (some (arr xs)) = xs
transcript_of _ = nil

-- `int(recorded_witness["search"]["selected_candidate_index"])`
abbrev index_of : Option Json → Result RunReplayError ℕ
index_of (some (num (pos n))) = ok n
index_of _ = err no_index

pub record RunReplay : Type 0 where
  pub trace_match : Bool
  pub witness_match : Bool
  pub evidence_digest_match : Bool
  pub disposition_match : Bool

abbrev pub replay_ok : RunReplay → Bool
replay_ok r = r.trace_match && (r.witness_match && (r.evidence_digest_match && r.disposition_match))

-- what a run records of its verification
pub record RecordedResult : Type 0 where
  pub evidence_digest : String
  pub disposition : String

unfoldable pub compare_replay :
    Hashing → Fields → RecordedResult → Fields → Fields → V1Result → RunReplay
unfolding text_at
compare_replay h recorded_witness recorded_result trace witness r = record {
  trace_match = digest_object h (obj trace) == text_at recorded_witness "trace_digest";
  witness_match = digest_object h (obj witness) == digest_object h (obj recorded_witness);
  evidence_digest_match = evidence_digest h witness r == recorded_result.evidence_digest;
  disposition_match = disposition_text r.disposition == recorded_result.disposition;
}

module _ (h : Hashing) (schema : SchemaCheck) (s : Scenario) where
  unfoldable pub replay_evaluated :
      Fields → Fields → RecordedResult → Fields → Evaluation → ℕ → RunReplay
  unfolding compare_replay dict_at get_field
  replay_evaluated manifest recorded_witness recorded_result trace e index =
      let witness =
        build_witness h manifest trace (evaluation_fields h e)
          (dict_at recorded_witness "adversary")
          (transcript_of (get_field (dict_at recorded_witness "search") "transcript")) index in
      compare_replay h recorded_witness recorded_result trace witness
        (verify_witness h schema witness (some manifest) none)

  unfoldable pub replay_run : Fields → Fields → RecordedResult → Result RunReplayError RunReplay
  unfolding replay_evaluated dict_at get_field
  replay_run manifest recorded_witness recorded_result = elim (variation_of recorded_witness) [
    | err x ↦ err (unreadable x)
    | ok v ↦ elim (evaluate (execute s v)) [
      | err x ↦ err (unevaluable x)
      | ok e ↦
          index_of (get_field (dict_at recorded_witness "search") "selected_candidate_index")
          >>= λ index.
              ok (replay_evaluated manifest recorded_witness recorded_result (execute s v) e index)
    ]
  ]
