-- ===== src/Verifier/V1.antt =====
-- oat/verifier/v1.py and oat/witness.py: the deterministic verifier of a witness. The schema check
-- of the third-party package is a parameter: the errors that it finds in a document. It runs before
-- a key is read, so a required key that is missing is given as an empty value here.
use open_authority_trials_oa.Prelude.Result.{ok, err}
pub mod Recomputed
pub mod Recorded
use open_authority_trials_oa.Canonical.Json.{
  Json, get_field, Fields, Items, fields, str, obj, field, cons, end, nil, dict, num, arr,
}
use open_authority_trials_oa.Prelude.{
  Option, some, String, List, [], ℕ, Bool, if◌then◌else◌, none, eqb, true, not, ◌+◌, ◌&&◌, ◌==◌,
  is_empty, ◌∷◌,
}
use open_authority_trials_oa.Canonical.Digest.{Hashing, digest_object}
use open_authority_trials_oa.Falsifier.{
  truthy, evaluate, Evaluation, is_text_value, falsifier_version, falsifier_id, definition,
}
use open_authority_trials_oa.Prelude.Int.{pos}

-- `validate(document, schema_name)`
abbrev pub SchemaCheck : Type 0
SchemaCheck = Json → String → List String

pub data V1Disposition : Type 0 where
  counterexample_confirmed no_counterexample rejected : V1Disposition

pub data Rejection : Type 0 where
  schema_invalid manifest_binding scenario_identity tampered_bytes : Rejection
  falsifier_unsupported falsifier_mismatch claim_mismatch trace_unevaluable : Rejection

pub record V1Result : Type 0 where
  pub disposition : V1Disposition
  pub rejection_reason : Option Rejection
  pub predicate_trace : List Json
  pub computational_result : Option Bool

unfoldable pub reject : Rejection → V1Result
reject reason = record {
  disposition = rejected;
  rejection_reason = some reason;
  predicate_trace = [];
  computational_result = none;
}

-- `str(fields[key])` of a text
unfoldable pub text_at : Fields → String → String
unfolding get_field
text_at fs key = elim (get_field fs key) [ some (str s) ↦ s | _ ↦ "" ]

-- `fields[key]` of a dictionary
unfoldable pub dict_at : Fields → String → Fields
unfolding get_field
dict_at fs key = elim (get_field fs key) [ some (obj inner) ↦ inner | _ ↦ end ]

abbrev pub field_count : Fields → ℕ
field_count end = 0
field_count (field _ _ fs) = field_count fs + 1

-- `falsifier_claim != local_falsifier`: a dictionary equals the identity when it has its three
-- entries and no other
unfoldable pub is_identity : Hashing → Fields → Bool
unfolding text_at
is_identity h claim =
    eqb (field_count claim) 3
    && (is_text_value (get_field claim "id") falsifier_id
        && (is_text_value (get_field claim "version") falsifier_version
            && is_text_value (get_field claim "digest") (digest_object h definition)))

-- The scenario that the witness must name, if any.
unfoldable pub target_scenario : Option Fields → Option String → Option String
unfolding text_at dict_at
target_scenario manifest (some id) = some id
target_scenario none none = none
target_scenario (some m) none = some (text_at (dict_at m "scenario") "id")

abbrev pub is_target : Option String → String → Bool
is_target none id = true
is_target (some t) id = id == t

module _ (h : Hashing) (schema : SchemaCheck) where
  -- `expected_manifest is None` or its digest is the one bound
  unfoldable pub binds_manifest : Option Fields → Fields → Bool
  unfolding text_at
  binds_manifest none witness = true
  binds_manifest (some m) witness = text_at witness "manifest_digest" == digest_object h (obj m)

  -- the end of `verify`, on the recomputed evaluation
  unfoldable pub conclude_claim : Fields → Evaluation → V1Result
  unfolding truthy dict_at get_field
  conclude_claim witness e =
      let claimed = truthy (get_field (dict_at witness "claimed_evaluation") "counterexample") in
      if if claimed then not e.counterexample else e.counterexample
      then record {
        disposition = rejected;
        rejection_reason = some claim_mismatch;
        predicate_trace = e.predicate_trace;
        computational_result = some e.counterexample;
      }
      else record {
        disposition = if e.counterexample then counterexample_confirmed else no_counterexample;
        rejection_reason = none;
        predicate_trace = e.predicate_trace;
        computational_result = some e.counterexample;
      }

  unfoldable pub evaluate_claim : Fields → V1Result
  unfolding conclude_claim reject dict_at
  evaluate_claim witness = elim (evaluate (dict_at witness "trace")) [
    | err _ ↦ reject trace_unevaluable
    | ok e ↦ conclude_claim witness e
  ]

  -- from `trace = witness["trace"]` on
  unfoldable pub verify_trace : Fields → V1Result
  unfolding evaluate_claim reject dict_at text_at
  verify_trace witness =
      let trace = dict_at witness "trace" in
      let checked = evaluate_claim witness in
      if not (is_empty (schema (obj trace) "observable-trace"))
      then reject schema_invalid
      else if not (digest_object h (obj trace) == text_at witness "trace_digest")
      then reject tampered_bytes
      else if not (text_at trace "scenario_id" == text_at witness "scenario_id")
      then reject scenario_identity
      else checked

  unfoldable pub verify_witness : Fields → Option Fields → Option String → V1Result
  unfolding verify_trace reject dict_at text_at is_identity binds_manifest target_scenario
  verify_witness witness manifest scenario_id =
      let claim = dict_at witness "falsifier" in
      if not (is_empty (schema (obj witness) "witness"))
      then reject schema_invalid
      else if not (text_at claim "version" == falsifier_version)
      then reject falsifier_unsupported
      else if not (is_identity h claim)
      then reject falsifier_mismatch
      else if not (binds_manifest manifest witness)
      then reject manifest_binding
      else if not (is_target (target_scenario manifest scenario_id) (text_at witness "scenario_id"))
      then reject scenario_identity
      else verify_trace witness

abbrev pub item_count : Items → ℕ
item_count nil = 0
item_count (cons _ xs) = item_count xs + 1

-- oat/witness.py: `build_witness`. The evaluation and the transcript are given in their JSON form.
unfoldable pub build_witness : Hashing → Fields → Fields → Fields → Fields → Items → ℕ → Fields
unfolding text_at dict_at
build_witness h manifest trace claimed adversary transcript selected = fields (
    ("witness_form", str "oat-witness/1")
    ∷ ("canonical_form", str "oat-canonical-json/1")
    ∷ ("run_mode", str "METHOD_DEVELOPMENT_ONLY")
    ∷ ("claim_bearing_use", str "PROHIBITED")
    ∷ ("scenario_id", str (text_at (dict_at manifest "scenario") "id"))
    ∷ ("boundary_id", str (text_at (dict_at manifest "boundary") "id"))
    ∷ ("manifest_digest", str (digest_object h (obj manifest)))
    ∷ ("falsifier", obj (dict_at manifest "falsifier"))
    ∷ ("adversary", obj adversary)
    ∷ (
      "search",
      dict (
          ("candidates_explored", num (pos (item_count transcript)))
          ∷ ("selected_candidate_index", num (pos selected))
          ∷ ("transcript", arr transcript)
          ∷ []),
    )
    ∷ ("trace", obj trace)
    ∷ ("trace_digest", str (digest_object h (obj trace)))
    ∷ ("claimed_evaluation", obj claimed)
    ∷ [])
