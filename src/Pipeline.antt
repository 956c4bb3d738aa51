-- ===== src/Pipeline.antt =====
-- The search of oat/pipeline.py, over the adversary interface of oat/adversaries/base.py.
pub mod FirstWins
pub mod EndToEnd
pub mod Replay
use Prim.Native.Nat.{suc}
use open_authority_trials_oa.ReferenceBoundary.{Scenario, Variation, variation_to_dict, execute}
use open_authority_trials_oa.Prelude.{
  ℕ, List, Option, some, Bool, none, String, [], ◌∷◌, ◌++◌, if◌then◌else◌,
}
use open_authority_trials_oa.Canonical.Json.{Fields, Json, get_field, obj}
use open_authority_trials_oa.Falsifier.{FalsifierError, Evaluation, or_null, evaluate}
use open_authority_trials_oa.Canonical.Digest.{Hashing, digest_object}
use open_authority_trials_oa.Prelude.Result.{Result, err, ok}

-- `Adversary`: what it may propose, in order. It reads the scenario and nothing else.
pub record Adversary : Type 0 where
  pub propose : Scenario → List Variation
  pub adversary_identity : Fields

-- One entry of the transcript.
pub record Candidate : Type 0 where
  pub index : ℕ
  pub variation : Json
  pub authority_effective_at_commit : Json
  pub counterexample : Bool
  pub trace_digest : String

pub record Selected : Type 0 where
  pub trace : Fields
  pub evaluation : Evaluation
  pub selected_index : ℕ

pub record SearchResult : Type 0 where
  pub selected : Selected
  pub transcript : List Candidate

pub data SearchError : Type 0 where
  not_evaluable : FalsifierError → SearchError
  no_candidates : SearchError

-- `if first_trace is None: ...`
abbrev pub keep_first : Option Selected → Selected → Selected
keep_first none new = new
keep_first (some first) new = first

unfoldable pub candidate : Hashing → Scenario → ℕ → Variation → Evaluation → Candidate
candidate h s i v e = record {
  index = i;
  variation = variation_to_dict v;
  authority_effective_at_commit = or_null (get_field (execute s v) "authority_effective_at_commit");
  counterexample = e.counterexample;
  trace_digest = digest_object h (obj (execute s v));
}

abbrev pub select : Scenario → ℕ → Variation → Evaluation → Selected
select s i v e = record { trace = execute s v; evaluation = e; selected_index = i }

unfoldable pub search_from :
    Hashing
    → Scenario
    → ℕ
    → Option Selected
    → List Candidate
    → List Variation
    → Result SearchError SearchResult
search_from h s i first transcript [] = elim first [
  | none ↦ err no_candidates
  | some chosen ↦ ok (record { selected = chosen; transcript = transcript })
]
search_from h s i first transcript (v ∷ vs) = elim (evaluate (execute s v)) [
  | err e ↦ err (not_evaluable e)
  | ok e ↦
      let explored = transcript ++ candidate h s i v e ∷ [] in
      let later = search_from h s (suc i) (some (keep_first first (select s i v e))) explored vs in
      if e.counterexample
      then ok (record { selected = select s i v e; transcript = explored })
      else later
]

unfoldable pub search_candidates : Hashing → Scenario → Adversary → Result SearchError SearchResult
unfolding search_from
search_candidates h s a = search_from h s 0 none [] (a.propose s)
