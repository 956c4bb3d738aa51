-- ===== src/Qualification/Candidate/Replay.antt =====
-- oat/qualification/runner.py: the replay of a candidate's run.
use Prim.Native.Nat.{suc}
use open_authority_trials_oa.Prelude.{Option, ℕ, is_empty, ◌≤◌, ◌≡◌, [], false, true, some}
use open_authority_trials_oa.Sequence.Run.{Budgets}
use open_authority_trials_oa.Qualification.Target.{counterexamples, Commit, SyntheticTarget}
use open_authority_trials_oa.Qualification.Candidate.{
  CandidateWorld, CandidateState, counterexamples, Commit, new_candidate_run, reconstruct_final,
  adjudicator_evidence, counterexample_discovered, SyntheticTarget, after_calls,
}

-- The recorded number is that of the call before which the session had no counterexample, and after
-- which it had one.
abbrev pub FoundFirst : CandidateWorld → CandidateState → Option ℕ → ℕ → Type 0
FoundFirst w start first calls =
    (m : ℕ) × (first ≡ some (suc m))
    × (suc m ≤ calls)
    × (counterexamples (after_calls w start m).session ≡ [])
    × (is_empty (counterexamples (after_calls w start (suc m)).session) ≡ false)

-- What the end of a run has.
pub record Replays (w : CandidateWorld) (b : Budgets) (t : SyntheticTarget) (s : CandidateState)
    : Type 0 where
  pub within : (s.provider_calls ≤ b.max_provider_calls) × (s.attempts ≤ b.max_target_http_attempts)
  pub replayed :
      reconstruct_final s.terminal_failure s.attempts (adjudicator_evidence s)
      ≡ counterexample_discovered s
  pub found_at :
      counterexample_discovered s ≡ true
      → FoundFirst w (new_candidate_run t) s.calls_to_first_ce s.provider_calls
  pub session : s.session ≡ (after_calls w (new_candidate_run t) s.provider_calls).session
