-- ===== src/Qualification/Candidate/Turns.antt =====
-- oat/qualification/runner.py: what each turn of a candidate's run keeps.
use native.Mathlib.Omega.{arith}
use Prim.Native.Nat.{suc}
use open_authority_trials_oa.Prelude.{
  Option, List, keep, ℕ, is_empty, Bool, ◌≤◌, ◌≡◌, ◌+◌, [], false, true, none, some, Bool-cases,
  ◌∷◌, false≢true, inl, sym, inr, refl, ◌⊎◌, Option-cases, ◌<◌, subst, zero, ap, ◌∙◌,
}
use open_authority_trials_oa.Sequence.Run.{Budgets, ModelAction, stop, parse_action}
use open_authority_trials_oa.Qualification.Target.{
  counterexamples, Commit, new_session, SyntheticTarget,
}
use open_authority_trials_oa.Qualification.Candidate.{
  CandidateWorld, CandidateState, candidate_budget, candidate_act, counterexamples, CandidateTurn,
  probe_target, Commit, goes_on, ModelAction, first_ce, stops, request, candidate_turn,
  candidate_loop, new_candidate_run, CandidateStop, new_session, SyntheticTarget, CandidateEnd,
  parse_action, provider_transport_failure, after_calls, turn_state,
}

-- The call that found the first counterexample, if there is one: before it the session had none.
abbrev pub IsFirst : CandidateWorld → CandidateState → Option ℕ → ℕ → List Commit → Type 0
IsFirst w start none calls found = found ≡ []
IsFirst w start (some n) calls found =
    (m : ℕ) × (n ≡ suc m)
    × (suc m ≤ calls)
    × (counterexamples (after_calls w start m).session ≡ [])
    × (is_empty (counterexamples (after_calls w start (suc m)).session) ≡ false)

pub record IsRun (w : CandidateWorld) (start : CandidateState) (b : Budgets) (s : CandidateState)
    : Type 0 where
  pub calls : s.provider_calls ≤ b.max_provider_calls
  pub attempts : s.attempts ≤ b.max_target_http_attempts
  pub answered : s.attempts ≤ s.provider_calls
  pub reached : s ≡ after_calls w start s.provider_calls
  pub first : IsFirst w start s.calls_to_first_ce s.provider_calls (counterexamples s.session)
  pub tried : is_empty s.session.commits ≡ false → 1 ≤ s.attempts

empty→nil : {A : Type 0} (xs : List A) → is_empty xs ≡ true → xs ≡ []
empty→nil [] h = refl
empty→nil (x ∷ xs) h = absurd (false≢true h)

module _ (w : CandidateWorld) (start : CandidateState) where
  IsFirst-later :
      (o : Option ℕ) (calls : ℕ) (found : List Commit)
      → IsFirst w start o calls found
      → IsFirst w start o (suc calls) found
  IsFirst-later none calls found h = h
  IsFirst-later (some n) calls found (m, e, le, before, after) =
      (m, e, omega (arith, le), before, after)

  -- A request after `calls` calls.
  IsFirst-first_ce :
      (o : Option ℕ) (calls : ℕ) (old new : CandidateState)
      → old ≡ after_calls w start calls
      → new ≡ after_calls w start (suc calls)
      → IsFirst w start o calls (counterexamples old.session)
      → IsFirst w start
          (first_ce w o (suc calls) new.session)
          (suc calls)
          (counterexamples new.session)
  IsFirst-first_ce (some n) calls old new e k (m, f, le, before, after) =
      (m, f, omega (arith, le), before, after)
  IsFirst-first_ce none calls old new e k h =
      elim (Bool-cases (is_empty (counterexamples new.session))) [
        | inl q ↦ rw q (empty→nil _ q)
        | inr q ↦ rw q (
          calls,
          refl,
          omega arith,
          ap (λ (s : CandidateState). counterexamples s.session) (sym e) ∙ h,
          ap (λ (s : CandidateState). is_empty (counterexamples s.session)) (sym k) ∙ q,
        )
      ]

  -- A state after a turn.
  abbrev TurnRuns : Budgets → CandidateState → CandidateTurn w → Type 0
  TurnRuns b s (goes_on t) = IsRun w start b t × (t.provider_calls ≡ s.provider_calls + 1)
  TurnRuns b s (stops t reason) = IsRun w start b t

  below_budget :
      (b : Budgets) (s : CandidateState)
      → candidate_budget w b s ≡ none
      → (s.provider_calls + 1 ≤ b.max_provider_calls)
        × (s.attempts + 1 ≤ b.max_target_http_attempts)
  unfolding candidate_budget
  below_budget b s e = (ground arith, ground arith)

  called : CandidateState → CandidateState
  called s = record s { provider_calls = suc s.provider_calls }

  IsRun-called :
      (b : Budgets) (s : CandidateState) (invalid : ℕ) (terminal : Bool)
      → IsRun w start b s
      → s.provider_calls + 1 ≤ b.max_provider_calls
      → let next : CandidateState = record s {
        provider_calls = suc s.provider_calls;
        invalid = invalid;
        terminal_failure = terminal;
      } in
        next ≡ after_calls w start (suc s.provider_calls) → IsRun w start b next
  IsRun-called b s invalid terminal r room k = record {
    calls = omega (arith, room);
    attempts = r.attempts;
    answered = omega (arith, r.answered);
    reached = k;
    first = IsFirst-later s.calls_to_first_ce s.provider_calls _ r.first;
    tried = r.tried;
  }

  act-TurnRuns :
      (b : Budgets) (s : CandidateState) (a : Option ModelAction)
      → IsRun w start b s
      → s.provider_calls + 1 ≤ b.max_provider_calls
      → s.attempts + 1 ≤ b.max_target_http_attempts
      → turn_state w (candidate_act w (record s { provider_calls = suc s.provider_calls }) a)
        ≡ after_calls w start (suc s.provider_calls)
      → TurnRuns b s (candidate_act w (record s { provider_calls = suc s.provider_calls }) a)
  unfolding candidate_act probe_target
  act-TurnRuns b s none r room left k =
      (IsRun-called b s (suc s.invalid) s.terminal_failure r room k, omega arith)
  act-TurnRuns b s (some stop) r room left k = IsRun-called b s 0 s.terminal_failure r room k
  act-TurnRuns b s (some (request path body)) r room left k = (
    record {
      calls = omega (arith, room);
      attempts = omega (arith, left);
      answered = omega (arith, r.answered);
      reached = k;
      first = IsFirst-first_ce s.calls_to_first_ce s.provider_calls s _ r.reached k r.first;
      tried = λ h. omega arith;
    },
    omega arith,
  )

  Turn-cases :
      (t : CandidateTurn w)
      → ((s : CandidateState) × (t ≡ goes_on s))
        ⊎ ((s : CandidateState) × (r : CandidateStop) × (t ≡ stops s r))
  Turn-cases (goes_on s) = inl (s, refl)
  Turn-cases (stops s r) = inr (s, r, refl)

  turn-TurnRuns :
      (b : Budgets) (s : CandidateState)
      → IsRun w start b s
      → candidate_budget w b s ≡ none
      → TurnRuns b s (candidate_turn w s)
  unfolding candidate_turn after_calls
  turn-TurnRuns b s r e =
      let (room, left) = below_budget b s e in
      let after : turn_state w (candidate_turn w s) ≡ after_calls w start (suc s.provider_calls) =
        ap (λ x. turn_state w (candidate_turn w x)) r.reached in
      elim (Option-cases (w.transport (suc s.provider_calls))) [
        | inl q ↦
            let failed : CandidateTurn w =
              stops (record s { provider_calls = suc s.provider_calls; terminal_failure = true })
                provider_transport_failure in
            let e' : failed ≡ candidate_turn w s = ground arith in
            subst (TurnRuns b s) e'
              (IsRun-called b s s.invalid true r room (ap (turn_state w) e' ∙ after))
        | inr (content, q) ↦
            let e' : candidate_act w (record s { provider_calls = suc s.provider_calls })
                  (parse_action content)
                ≡ candidate_turn w s =
              ground arith in
            subst (TurnRuns b s) e'
              (act-TurnRuns b s (parse_action content) r room left (ap (turn_state w) e' ∙ after))
      ]

  pub loop-IsRun :
      (fuel : ℕ) (b : Budgets) (s : CandidateState)
      → IsRun w start b s
      → b.max_provider_calls < s.provider_calls + fuel
      → (r : CandidateEnd) × (candidate_loop w fuel b s ≡ some r) × IsRun w start b r.state
  unfolding candidate_loop
  loop-IsRun zero b s r enough = absurd (omega (arith, r.calls, enough))
  loop-IsRun (suc fuel) b s r enough = elim (Option-cases (candidate_budget w b s)) [
    | inr (reason, e) ↦ (record { state = s; stop_reason = reason }, ground arith, r)
    | inl e ↦
        let turn = turn-TurnRuns b s r e in
        elim (Turn-cases (candidate_turn w s)) [
          | inl (t, q) ↦
              let (later, more) = subst (TurnRuns b s) q turn in
              let (end_, ended, k) = loop-IsRun fuel b t later (omega (arith, more, enough)) in
              (end_, ground (arith, ended), k)
          | inr (t, reason, q) ↦ (
            record { state = t; stop_reason = reason },
            ground arith,
            subst (TurnRuns b s) q turn,
          )
        ]
  ]

pub new-IsRun :
    (w : CandidateWorld) (b : Budgets) (t : SyntheticTarget) (terminal : Bool)
    → let start : CandidateState = record (new_candidate_run t) { terminal_failure = terminal } in
      IsRun w start b start
unfolding new_candidate_run new_session counterexamples keep after_calls
new-IsRun w b t terminal = record {
  calls = omega arith;
  attempts = omega arith;
  answered = omega arith;
  reached = refl;
  first = refl;
  tried = λ h. absurd (false≢true (sym h));
}
