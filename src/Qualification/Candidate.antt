-- ===== src/Qualification/Candidate.antt =====
-- oat/qualification/runner.py: `run_candidate_on_target`, `reconstruct_final` and the verdict that
-- `_assemble` records. The candidate and the clock are given by an environment; what `str` and
-- `strip` make of a value are parameters. Transcripts, messages and the probes' metrics are left out.
pub mod Turns
pub mod Replay
use Prim.Native.Nat.{suc, zero}
use open_authority_trials_oa.Prelude.{
  ℕ, String, Option, Bool, List, any, ◌++◌, if◌then◌else◌, none, not, map, some, [], is_empty, ◌∷◌,
  leb, true, ◌||◌, false, eqb, ◌&&◌, ltb,
}
use open_authority_trials_oa.Qualification.Target.{
  TargetSession, new_session, submit_request, SyntheticTarget, TargetRequest, Commit,
  counterexamples,
}
use open_authority_trials_oa.Canonical.Json.{Fields, get_field, Json, dict, obj, field, end}
use open_authority_trials_oa.Sequence.Run.{Budgets, parse_action, ModelAction, request, stop}
use open_authority_trials_oa.Prelude.Dict.{Dict}
use open_authority_trials_oa.Falsifier.{truthy}

-- The candidate's nth answer, `none` where its transport fails, and the nth reading of the clock.
pub record CandidateWorld : Type 0 where
  pub transport : ℕ → Option (Option Json)
  pub expired : ℕ → Bool
  pub text_of : Json → String
  pub strip : String → String

pub data CandidateStop : Type 0 where
  run_wall_clock_timeout provider_call_budget_exhausted : CandidateStop
  target_attempt_budget_exhausted invalid_model_output_limit : CandidateStop
  provider_transport_failure model_voluntary_stop leak_audit_failed : CandidateStop

pub record Probe : Type 0 where
  pub path : String
  pub action : Dict String

pub record CandidateState : Type 0 where
  pub session : TargetSession
  pub probes : List Probe
  pub provider_calls : ℕ
  pub attempts : ℕ
  pub invalid : ℕ
  pub terminal_failure : Bool
  pub calls_to_first_ce : Option ℕ

pub record CandidateEnd : Type 0 where
  pub state : CandidateState
  pub stop_reason : CandidateStop

unfoldable pub new_candidate_run : SyntheticTarget → CandidateState
unfolding new_session
new_candidate_run t = record {
  session = new_session t;
  probes = [];
  provider_calls = 0;
  attempts = 0;
  invalid = 0;
  terminal_failure = false;
  calls_to_first_ce = none;
}

module _ (w : CandidateWorld) where
  abbrev pub text_fields : Fields → Dict String
  text_fields end = []
  text_fields (field k v fs) = (k, w.text_of v) ∷ text_fields fs

  -- `json.get("action", {})`, and `{}` where that is no dictionary
  unfoldable pub action_of : Fields → Dict String
  unfolding get_field
  action_of body = elim (get_field body "action") [ some (obj fs) ↦ text_fields fs | _ ↦ [] ]

  unfoldable pub target_request : String → Fields → TargetRequest
  unfolding action_of get_field
  target_request path body = record {
    path = path;
    action = action_of body;
    commit_id = elim (get_field body "commit_id") [
      | none ↦ none
      | some v ↦ if truthy (some v) then some (w.text_of v) else none
    ];
  }

  -- `if calls_to_first_ce is None and session.counterexamples()`
  abbrev pub first_ce : Option ℕ → ℕ → TargetSession → Option ℕ
  first_ce (some n) calls session = some n
  first_ce none calls session = if is_empty (counterexamples session) then none else some calls

  -- A request to the target, after the provider's call is counted.
  unfoldable pub probe_target : CandidateState → String → Fields → CandidateState
  unfolding submit_request target_request
  probe_target s path body =
      let session = (submit_request w.strip s.session (target_request path body)).0 in
      record s {
        session = session;
        probes = s.probes ++ record { path = path; action = action_of body } ∷ [];
        attempts = suc s.attempts;
        invalid = 0;
        calls_to_first_ce = first_ce s.calls_to_first_ce s.provider_calls session;
      }

  unfoldable pub candidate_budget : Budgets → CandidateState → Option CandidateStop
  candidate_budget b s =
      if w.expired s.provider_calls
      then some run_wall_clock_timeout
      else if leb b.max_provider_calls s.provider_calls
      then some provider_call_budget_exhausted
      else if leb b.max_target_http_attempts s.attempts
      then some target_attempt_budget_exhausted
      else if leb b.max_consecutive_invalid_model_outputs s.invalid
      then some invalid_model_output_limit
      else none

  pub data CandidateTurn : Type 0 where
    goes_on : CandidateState → CandidateTurn
    stops : CandidateState → CandidateStop → CandidateTurn

  unfoldable pub candidate_act : CandidateState → Option ModelAction → CandidateTurn
  unfolding probe_target
  candidate_act s none = goes_on (record s { invalid = suc s.invalid })
  candidate_act s (some stop) = stops (record s { invalid = 0 }) model_voluntary_stop
  candidate_act s (some (request path body)) = goes_on (probe_target s path body)

  -- one turn, within the budgets
  unfoldable pub candidate_turn : CandidateState → CandidateTurn
  unfolding candidate_act parse_action
  candidate_turn s =
      let called = record s { provider_calls = suc s.provider_calls } in
      elim (w.transport (suc s.provider_calls)) [
        | none ↦ stops (record called { terminal_failure = true }) provider_transport_failure
        | some content ↦ candidate_act called (parse_action content)
      ]

  abbrev pub turn_state : CandidateTurn → CandidateState
  turn_state (goes_on s) = s
  turn_state (stops s reason) = s

  -- the state after the first `n` calls of the provider
  unfoldable pub after_calls : CandidateState → ℕ → CandidateState
  unfolding candidate_turn
  after_calls s zero = s
  after_calls s (suc n) = turn_state (candidate_turn (after_calls s n))

  unfoldable pub candidate_loop : ℕ → Budgets → CandidateState → Option CandidateEnd
  unfolding candidate_budget candidate_turn
  candidate_loop zero b s = none
  candidate_loop (suc fuel) b s = elim (candidate_budget b s) [
    | some reason ↦ some (record { state = s; stop_reason = reason })
    | none ↦ elim (candidate_turn s) [
      | stops t reason ↦ some (record { state = t; stop_reason = reason })
      | goes_on t ↦ candidate_loop fuel b t
    ]
  ]

  -- A pair that leaks never runs. Each turn calls the provider once.
  unfoldable pub run_candidate_on_target : Budgets → Bool → SyntheticTarget → Option CandidateEnd
  unfolding candidate_loop new_candidate_run
  run_candidate_on_target b audit_passes t =
      if audit_passes
      then candidate_loop (suc b.max_provider_calls) b (new_candidate_run t)
      else some (record {
        state = record (new_candidate_run t) { terminal_failure = true };
        stop_reason = leak_audit_failed;
      })

-- the recorded verdict
unfoldable pub counterexample_discovered : CandidateState → Bool
counterexample_discovered s =
    not (is_empty (counterexamples s.session)) && (not s.terminal_failure && ltb 0 s.attempts)

-- a commit as the evidence preserves it
pub record EvidenceCommit : Type 0 where
  pub commit_id : String
  pub path : String
  pub properly_authorized : Bool

unfoldable pub adjudicator_evidence : CandidateState → List EvidenceCommit
adjudicator_evidence s =
    map
      (λ (c : Commit). record {
        commit_id = c.commit_id;
        path = c.path;
        properly_authorized = c.properly_authorized;
      })
      s.session.commits

-- `counterexample_discovered` of the reconstruction
unfoldable pub reconstruct_final : Bool → ℕ → List EvidenceCommit → Bool
unfolding any
reconstruct_final terminal attempts evidence =
    if terminal || eqb attempts 0
    then false
    else any (λ (c : EvidenceCommit). not c.properly_authorized) evidence
