-- ===== src/Sequence/Run/Bounds.antt =====
-- tools/oat_consequence_sequence_runner_004.py: the budgets of a run of S3, its end, and its
-- authorization.
use native.Mathlib.Omega.{arith}
use Prim.Native.Nat.{suc}
use open_authority_trials_oa.Sequence.Provider.{
  CallOutcome, ProviderState, answered, budget_stop, terminal_error, unreachable, StopReason,
  Environment, provider_call_with_retries, retry_delays,
}
use open_authority_trials_oa.Prelude.{
  ℕ, length, ◌≤◌, ◌+◌, ◌≡◌, ltb, true, false, ◌∙◌, Option, Bool-cases, inl, inr, ◌<◌, Option-cases,
  subst, sym, Bool, none, some, ◌⊎◌, zero, refl, some_inj,
}
use open_authority_trials_oa.Sequence.{
  AuthorizationLedger, Json, run_execution_established, runtime_of, pos,
}
use open_authority_trials_oa.Canonical.Json.{Json, Fields}
use open_authority_trials_oa.Sequence.Run.{
  Budgets, act, RunState, TurnResult, goes_on, parse_action, stops, request, perform, ModelAction,
  stop, read_clock, conclude_turn, budget_reached, take_turn, Stopped, run_loop, run_c, new_run,
}
use open_authority_trials_oa.Prelude.Int.{pos}
use open_authority_trials_oa.Sequence.Run.Calls.{Tried, try_calls-Tried}

-- What holds of a run at any turn.
pub record IsWithin (b : Budgets) (s : RunState) : Type 0 where
  pub calls : s.provider.calls ≤ b.max_provider_calls
  pub attempts : s.attempts ≤ b.max_target_http_attempts
  pub answered_calls : s.attempts + length s.provider.failures ≤ s.provider.calls
  pub consumed : s.provider.ledger.consumed ≡ ltb 0 s.provider.calls

-- What a turn does from a state.
abbrev TurnWithin : Budgets → RunState → TurnResult → Type 0
TurnWithin b s (goes_on t) = IsWithin b t × (s.provider.calls < t.provider.calls)
TurnWithin b s (stops t r) = IsWithin b t

TurnWithin-by :
    (b : Budgets) (s : RunState) {x y : TurnResult} → x ≡ y → TurnWithin b s y → TurnWithin b s x
TurnWithin-by b s e t = subst (TurnWithin b s) (sym e) t

perform-TurnWithin :
    (env : Environment) (b : Budgets) (before s : RunState) (a : ModelAction)
    → IsWithin b s
    → IsWithin b (record s { attempts = suc s.attempts })
    → before.provider.calls < s.provider.calls
    → TurnWithin b before (perform env s a)
unfolding perform
perform-TurnWithin env b before s stop w v more = w
perform-TurnWithin env b before s (request path body) w v more =
    elim (Bool-cases (env.crossed (suc s.attempts))) [ inl x ↦ rw x v | inr x ↦ rw x (v, more) ]

act-TurnWithin :
    (env : Environment) (b : Budgets) (content : Option Json) (before s : RunState)
    → s.provider.calls ≤ b.max_provider_calls
    → s.attempts + 1 ≤ b.max_target_http_attempts
    → s.attempts + 1 + length s.provider.failures ≤ s.provider.calls
    → s.provider.ledger.consumed ≡ ltb 0 s.provider.calls
    → before.provider.calls < s.provider.calls
    → TurnWithin b before (act env content s)
unfolding act
act-TurnWithin env b content before s c a f l more =
    let kept : IsWithin b (record s { invalid_outputs = suc s.invalid_outputs }) = record {
      calls = c;
      attempts = omega (arith, a);
      answered_calls = omega (arith, f);
      consumed = l;
    } in
    let stopped : IsWithin b (record s { invalid_outputs = 0 }) = record {
      calls = c;
      attempts = omega (arith, a);
      answered_calls = omega (arith, f);
      consumed = l;
    } in
    let attempted : IsWithin b (record s { invalid_outputs = 0; attempts = suc s.attempts }) =
      record {
        calls = c;
        attempts = omega (arith, a);
        answered_calls = omega (arith, f);
        consumed = l;
      } in
    elim (Option-cases (parse_action content)) [
      | inl e ↦
          TurnWithin-by b before
            {y = goes_on (record s { invalid_outputs = suc s.invalid_outputs })} (ground arith)
            (kept, more)
      | inr (action, e) ↦
          TurnWithin-by b before {y = perform env (record s { invalid_outputs = 0 }) action}
            (ground arith)
            (perform-TurnWithin env b before (record s { invalid_outputs = 0 }) action stopped
              attempted more)
    ]

stopped-IsWithin :
    (b : Budgets) (s : RunState) (after : ProviderState) (o : CallOutcome)
    → IsWithin b s
    → Tried b.max_provider_calls (read_clock s.provider) after o
    → (terminal : Bool)
    → IsWithin b (record s { provider = after; terminal_provider_failure = terminal })
stopped-IsWithin b s after o w t terminal = record {
  calls = t.within w.calls;
  attempts = w.attempts;
  answered_calls = omega (arith, t.failed, w.answered_calls);
  consumed = t.consumed w.consumed;
}

conclude_turn-TurnWithin :
    (env : Environment) (b : Budgets) (s : RunState) (p : ProviderState × CallOutcome)
    → IsWithin b s
    → s.attempts + 1 ≤ b.max_target_http_attempts
    → Tried b.max_provider_calls (read_clock s.provider) p.0 p.1
    → TurnWithin b s (conclude_turn env s p)
unfolding conclude_turn
conclude_turn-TurnWithin env b s (after, answered content) w room t =
    act-TurnWithin env b content s (record s { provider = after }) (t.within w.calls) room
      (omega (arith, t.failed, w.answered_calls)) (t.consumed w.consumed)
      (omega (arith, t.advanced))
conclude_turn-TurnWithin env b s (after, budget_stop reason) w room t =
    elim (Bool-cases (ltb (length s.provider.failures) (length after.failures))) [
      | inl x ↦ rw x (stopped-IsWithin b s after (budget_stop reason) w t true)
      | inr x ↦
          rw x (stopped-IsWithin b s after (budget_stop reason) w t s.terminal_provider_failure)
    ]
conclude_turn-TurnWithin env b s (after, terminal_error) w room t =
    stopped-IsWithin b s after terminal_error w t true
conclude_turn-TurnWithin env b s (after, unreachable) w room t =
    stopped-IsWithin b s after unreachable w t true

below_attempts :
    (env : Environment) (b : Budgets) (s : RunState)
    → budget_reached env b s ≡ none
    → s.attempts + 1 ≤ b.max_target_http_attempts
unfolding budget_reached
below_attempts env b s e = ground arith

take_turn-TurnWithin :
    (env : Environment) (b : Budgets) (s : RunState)
    → IsWithin b s
    → budget_reached env b s ≡ none
    → TurnWithin b s (take_turn env b s)
unfolding take_turn provider_call_with_retries
take_turn-TurnWithin env b s w e =
    conclude_turn-TurnWithin env b s _ w (below_attempts env b s e)
      (try_calls-Tried env b.max_provider_calls retry_delays 0 (read_clock s.provider))

Turn-cases :
    (t : TurnResult)
    → ((s : RunState) × (t ≡ goes_on s)) ⊎ ((s : RunState) × (r : StopReason) × (t ≡ stops s r))
Turn-cases (goes_on s) = inl (s, refl)
Turn-cases (stops s r) = inr (s, r, refl)

abbrev Ends : Budgets → Option Stopped → Type 0
Ends b o = (r : Stopped) × (o ≡ some r) × IsWithin b r.state

run_loop-Ends :
    (fuel : ℕ) (env : Environment) (b : Budgets) (s : RunState)
    → IsWithin b s
    → b.max_provider_calls < s.provider.calls + fuel
    → Ends b (run_loop fuel env b s)
unfolding run_loop
run_loop-Ends zero env b s w enough = absurd (omega (arith, w.calls, enough))
run_loop-Ends (suc fuel) env b s w enough = elim (Option-cases (budget_reached env b s)) [
  | inr (reason, e) ↦ (
    record { state = record s { provider = read_clock s.provider }; stop_reason = reason },
    ground arith,
    record {
      calls = w.calls;
      attempts = w.attempts;
      answered_calls = w.answered_calls;
      consumed = w.consumed;
    },
  )
  | inl e ↦
      let turn = take_turn-TurnWithin env b s w e in
      elim (Turn-cases (take_turn env b s)) [
        | inl (t, q) ↦
            let (later, more) = subst (TurnWithin b s) q turn in
            let (r, ended, within) =
              run_loop-Ends fuel env b t later (omega (arith, more, enough)) in
            (r, ground (arith, ended), within)
        | inr (t, reason, q) ↦ (
          record { state = t; stop_reason = reason },
          ground arith,
          subst (TurnWithin b s) q turn,
        )
      ]
]

-- A run of S3 that starts with an unconsumed authorization ends: the calls that its budget allows
-- are enough turns. It calls the provider and the target no more often than its budgets allow, each
-- attempt on the target and each failure has a provider call of its own, and the authorization is
-- consumed exactly if the provider was called.
pub run_c-Ends :
    (env : Environment) (b : Budgets) (ledger : AuthorizationLedger)
    → ledger.consumed ≡ false
    → (r : Stopped) × (run_c env b ledger ≡ some r) × IsWithin b r.state
unfolding run_c new_run
run_c-Ends env b ledger fresh =
    run_loop-Ends (suc b.max_provider_calls) env b (new_run ledger)
      (record {
        calls = omega arith;
        attempts = omega arith;
        answered_calls = omega arith;
        consumed = fresh;
      })
      (omega arith)

-- A run that counts as executed has consumed its authorization: it made at least one provider call
-- for each of its attempts on the target.
pub executed-consumed :
    (env : Environment) (b : Budgets) (ledger : AuthorizationLedger) (r : Stopped)
    (verdict : Fields)
    → ledger.consumed ≡ false
    → run_c env b ledger ≡ some r
    → run_execution_established
        (some (runtime_of verdict (pos r.state.attempts) (pos r.state.provider.calls)))
      ≡ true
    → r.state.provider.ledger.consumed ≡ true
unfolding run_execution_established runtime_of
executed-consumed env b ledger r verdict fresh ran executed =
    let (q, e, w) = run_c-Ends env b ledger fresh in
    let within = subst (λ x. IsWithin b x.state) (some_inj (sym e ∙ ran)) w in
    within.consumed ∙ ground (arith, within.answered_calls)
