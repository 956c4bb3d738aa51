-- ===== src/Pipeline/Replay/Reproduced.antt =====
-- oat/replay.py: the replay of a package that oat/pipeline.py wrote.
use open_authority_trials_oa.Prelude.Int.{pos}
use open_authority_trials_oa.Prelude.{
  String, ap, ◌∙◌, eq_iff, ◌&&◌, ℕ, ◌≡◌, refl, true, none, some, ◌==◌,
}
use open_authority_trials_oa.Prelude.Result.{ok}
use open_authority_trials_oa.Canonical.Digest.{Hashing, digest_object}
use open_authority_trials_oa.Canonical.Json.{num, Fields, Items, get_field, obj}
use open_authority_trials_oa.ReferenceBoundary.{Scenario, Variation, execute}
use open_authority_trials_oa.Falsifier.{Evaluation, evaluate}
use open_authority_trials_oa.Verifier.V1.{
  SchemaCheck, V1Result, build_witness, verify_witness, dict_at, text_at,
}
use open_authority_trials_oa.Verifier.V1.Recorded.{variation_of, variation_of-build_witness}
use open_authority_trials_oa.Pipeline.Replay.{
  RecordedResult, RunReplay, replay_run, replay_ok, replay_evaluated, compare_replay,
  evidence_digest, disposition_text, evaluation_fields,
}

all_four :
    (a b c d : String) (x y z w : String)
    → a ≡ x
    → b ≡ y
    → c ≡ z
    → d ≡ w
    → (a == x && (b == y && (c == z && d == w))) ≡ true
all_four a b c d x y z w p q r t =
    rw ((eq_iff a x).1 p, (eq_iff b y).1 q, (eq_iff c z).1 r, (eq_iff d w).1 t) refl

-- A witness that is built as it was recorded matches in every respect.
compare_replay-same :
    (h : Hashing) (witness trace : Fields) (r : V1Result)
    → digest_object h (obj trace) ≡ text_at witness "trace_digest"
    → replay_ok (
        compare_replay h witness
          (record {
            evidence_digest = evidence_digest h witness r;
            disposition = disposition_text r.disposition;
          })
          trace
          witness
          r)
      ≡ true
unfolding compare_replay
compare_replay-same h witness trace r bound =
    all_four (digest_object h (obj trace)) (digest_object h (obj witness))
      (evidence_digest h witness r) (disposition_text r.disposition)
      (text_at witness "trace_digest") (digest_object h (obj witness)) (evidence_digest h witness r)
      (disposition_text r.disposition) bound refl refl refl

replay_run-read :
    (h : Hashing) (schema : SchemaCheck) (s : Scenario) (manifest witness : Fields)
    (result : RecordedResult) (v : Variation) (e : Evaluation) (index : ℕ)
    → variation_of witness ≡ ok v
    → evaluate (execute s v) ≡ ok e
    → get_field (dict_at witness "search") "selected_candidate_index" ≡ some (num (pos index))
    → replay_run h schema s manifest witness result
      ≡ ok (replay_evaluated h schema s manifest witness result (execute s v) e index)
unfolding replay_run
replay_run-read h schema s manifest witness result v e index read evaluated at_index =
    rw (read, evaluated, at_index, replay_run) refl

module _ (h : Hashing) (schema : SchemaCheck) (s : Scenario) (v : Variation) (e : Evaluation)
    (manifest adversary : Fields) (transcript : Items) (index : ℕ) where
  unfoldable pub built_witness : Fields
  unfolding build_witness
  built_witness =
      build_witness h manifest (execute s v) (evaluation_fields h e) adversary transcript index

  unfoldable pub recorded : RecordedResult
  unfolding verify_witness built_witness
  recorded =
      let r = verify_witness h schema built_witness (some manifest) none in
      record {
        evidence_digest = evidence_digest h built_witness r;
        disposition = disposition_text r.disposition;
      }

  -- The replay builds the recorded witness again.
  replayed : RunReplay
  unfolding replay_evaluated
  replayed = replay_evaluated h schema s manifest built_witness recorded (execute s v) e index

  rebuilt :
      replayed
      ≡ compare_replay h built_witness recorded
          (execute s v)
          built_witness
          (verify_witness h schema built_witness (some manifest) none)
  unfolding replayed replay_evaluated built_witness build_witness dict_at get_field
  rebuilt = refl

  at_index :
      get_field (dict_at built_witness "search") "selected_candidate_index" ≡ some (num (pos index))
  unfolding built_witness build_witness dict_at get_field
  at_index = refl

  bound : digest_object h (obj (execute s v)) ≡ text_at built_witness "trace_digest"
  unfolding built_witness build_witness text_at get_field
  bound = refl

  -- When the execution under a variation can be evaluated, the replay of the package that records its
  -- witness and V1's result on it returns a result, and it matches in its trace, its witness, its
  -- evidence and its disposition, whatever the schema check says and whatever the hash functions are.
  pub replay_run-recorded :
      evaluate (execute s v) ≡ ok e
      → (r : RunReplay) × (replay_run h schema s manifest built_witness recorded ≡ ok r)
        × (replay_ok r ≡ true)
  unfolding replay_run built_witness build_witness replayed recorded
  replay_run-recorded evaluated = (
    replayed,
    replay_run-read h schema s manifest built_witness recorded v e index
        (variation_of-build_witness h s v manifest (evaluation_fields h e) adversary transcript
          index)
        evaluated at_index,
    ap replay_ok rebuilt
        ∙ compare_replay-same h built_witness (execute s v)
            (verify_witness h schema built_witness (some manifest) none) bound,
  )
