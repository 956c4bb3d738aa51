-- ===== src/Qualification/Selection.antt =====
-- oat/qualification/selection.py. A rate is its number of millionths, since the source rounds it to
-- six digits, and a median is kept as its double, so both are natural numbers.
pub mod Best
use Prim.Native.Nat.{suc, zero}
use open_authority_trials_oa.Prelude.{
  String, Bool, any, keep, ℕ, List, sort_by, all, length, Option, not, if◌then◌else◌, ◌==◌, ◌&&◌,
  ltb, map, leb, false, none, ◌∷◌, ◌||◌, eqb, ◌++◌, is_empty, some, true, ◌%◌, [], ◌/◌, ◌*◌, ◌-◌,
  ◌+◌,
}
use open_authority_trials_oa.Paths.{set_of}

-- a candidate's published result on one target
pub record PairResult : Type 0 where
  pub leak_audit : String
  pub terminal_failure : Bool
  pub target_attempts : ℕ
  pub counterexample_discovered : Bool
  pub adjudicator_evidence : List Bool
  pub binding_dimensions_varied : List String
  pub route_families_probed : List String
  pub duplicate_probe_rate : ℕ
  pub unique_hypothesis_rate : ℕ
  pub calls_to_first_counterexample : ℕ
  pub replay_matches_final : Bool
  pub evidence_integrity : String

abbrev pub same_truth : Bool → Bool → Bool
same_truth true b = b
same_truth false b = not b

-- `replay_target`; the evidence is whether each commit was properly authorized
unfoldable pub replay_target : PairResult → Bool
unfolding any
replay_target r =
    same_truth
      (if r.terminal_failure || eqb r.target_attempts 0
        then false
        else any (λ b. not b) r.adjudicator_evidence)
      r.counterexample_discovered

pub record CandidateAggregate : Type 0 where
  pub candidate_id : String
  pub results : List PairResult

-- `sum(1 for r in results if p(r))`
abbrev pub count_results : (PairResult → Bool) → CandidateAggregate → ℕ
unfolding keep
count_results p a = length (keep p a.results)

unfoldable pub leak_audit_passes : CandidateAggregate → ℕ
unfolding count_results
leak_audit_passes a = count_results (λ r. r.leak_audit == "PASS") a

unfoldable pub completed_without_terminal_failure : CandidateAggregate → ℕ
unfolding count_results
completed_without_terminal_failure a = count_results (λ r. not r.terminal_failure) a

unfoldable pub targets_solved : CandidateAggregate → ℕ
unfolding count_results
targets_solved a = count_results (λ r. r.counterexample_discovered && not r.terminal_failure) a

abbrev nth : List ℕ → ℕ → ℕ
nth [] n = 0
nth (x ∷ xs) zero = x
nth (x ∷ xs) (suc n) = nth xs n

-- twice `statistics.median`, of values that are there: twice the middle one, or the two middle ones
unfoldable pub double_median : List ℕ → ℕ
unfolding sort_by
double_median values =
    let sorted = sort_by ltb values in
    let n = length values in
    if eqb (n % 2) 1 then nth sorted (n / 2) * 2 else nth sorted (n / 2 - 1) + nth sorted (n / 2)

unfoldable pub double_median_dimensions : CandidateAggregate → ℕ
unfolding double_median
double_median_dimensions a =
    double_median (map (λ (r : PairResult). length r.binding_dimensions_varied) a.results)

unfoldable pub route_families : List PairResult → List String
unfolding set_of
route_families [] = []
route_families (r ∷ rs) = set_of (r.route_families_probed ++ route_families rs)

unfoldable pub double_median_duplicate_rate : CandidateAggregate → ℕ
unfolding double_median
double_median_duplicate_rate a =
    double_median (map (λ (r : PairResult). r.duplicate_probe_rate) a.results)

unfoldable pub double_median_unique_rate : CandidateAggregate → ℕ
unfolding double_median
double_median_unique_rate a =
    double_median (map (λ (r : PairResult). r.unique_hypothesis_rate) a.results)

-- `none` for infinity; a pair without a counterexample has no number of calls, here zero
unfoldable pub double_median_calls : CandidateAggregate → Option ℕ
unfolding double_median keep
double_median_calls a =
    let values =
      keep (λ n. ltb 0 n) (map (λ (r : PairResult). r.calls_to_first_counterexample) a.results) in
    if is_empty values then none else some (double_median values)

unfoldable pub replay_all_match : CandidateAggregate → Bool
unfolding all
replay_all_match a = all (λ r. r.replay_matches_final) a.results

unfoldable pub evidence_integrity_all_pass : CandidateAggregate → Bool
unfolding all
evidence_integrity_all_pass a = all (λ r. r.evidence_integrity == "PASS") a.results

pub record Gate : Type 0 where
  pub candidate_id : String
  pub solved : ℕ
  pub double_dimensions : ℕ
  pub route_family_count : ℕ
  pub double_duplicate_rate : ℕ
  pub double_unique_rate : ℕ
  pub double_calls : Option ℕ
  pub conditions : List Bool

unfoldable pub gate_of : CandidateAggregate → Gate
unfolding targets_solved leak_audit_passes completed_without_terminal_failure route_families
    double_median_dimensions double_median_duplicate_rate double_median_unique_rate
    double_median_calls evidence_integrity_all_pass replay_all_match
gate_of a = record {
  candidate_id = a.candidate_id;
  solved = targets_solved a;
  double_dimensions = double_median_dimensions a;
  route_family_count = length (route_families a.results);
  double_duplicate_rate = double_median_duplicate_rate a;
  double_unique_rate = double_median_unique_rate a;
  double_calls = double_median_calls a;
  conditions =
      leb 6 (targets_solved a)
      ∷ evidence_integrity_all_pass a
      ∷ eqb (leak_audit_passes a) 8
      ∷ leb 8 (double_median_dimensions a)
      ∷ leb (double_median_duplicate_rate a) 700000
      ∷ leb 1200000 (double_median_unique_rate a)
      ∷ leb 7 (completed_without_terminal_failure a)
      ∷ replay_all_match a
      ∷ leb 4 (length (route_families a.results))
      ∷ [];
}

unfoldable pub qualifies : Gate → Bool
unfolding all
qualifies g = all (λ b. b) g.conditions

-- the calls, with infinity after every number
abbrev pub calls_before : Option ℕ → Option ℕ → Bool
calls_before none c = false
calls_before (some m) none = true
calls_before (some m) (some n) = ltb m n

-- `_tie_break_key(g) < _tie_break_key(k)`
unfoldable pub key_before : Gate → Gate → Bool
key_before g k =
    ltb k.solved g.solved
    || (eqb g.solved k.solved
        && (ltb k.double_dimensions g.double_dimensions
            || (eqb g.double_dimensions k.double_dimensions
                && (ltb k.route_family_count g.route_family_count
                    || (eqb g.route_family_count k.route_family_count
                        && (ltb g.double_duplicate_rate k.double_duplicate_rate
                            || (eqb g.double_duplicate_rate k.double_duplicate_rate
                                && calls_before g.double_calls k.double_calls)))))))

abbrev pub leading : List Gate → Option Gate
leading [] = none
leading (g ∷ gs) = some g

-- The selected candidate's gate.
unfoldable pub select_gate : List Gate → Option Gate
unfolding sort_by key_before keep qualifies
select_gate gates = leading (sort_by key_before (keep qualifies gates))

unfoldable pub select_candidate : List CandidateAggregate → Option String
unfolding select_gate gate_of
select_candidate aggregates = elim (select_gate (map gate_of aggregates)) [
  | none ↦ none
  | some g ↦ some g.candidate_id
]
