-- ===== src/Sequence/Run.antt =====
-- tools/oat_consequence_sequence_runner_004.py: `parse_action` and the loop of `run_s3`. The target
-- is part of the environment: what the loop reads of it is the verdict after an attempt. Messages,
-- transcripts and files are left out.
pub mod Calls
pub mod Bounds
use Prim.Native.Nat.{suc, zero}
use open_authority_trials_oa.Prelude.Result.{ok, err}
use open_authority_trials_oa.Prelude.{
  String, List, ℕ, Bool, Option, [], if◌then◌else◌, true, is_empty, not, false, some, ltb, none,
  ◌&&◌, length, ◌∷◌, eqb, ◌||◌, leb,
}
use open_authority_trials_oa.Canonical.Json.{get_field, Fields, Json, obj, str}
use open_authority_trials_oa.Sequence.Provider.{
  ProviderState, StopReason, Environment, provider_call_with_retries, answered, budget_stop,
  run_wall_clock_timeout, model_voluntary_stop, provider_transport_failure,
  verifier_confirmed_consequence_boundary_failure, provider_call_budget_exhausted,
  target_attempt_budget_exhausted, invalid_model_output_limit, terminal_error, unreachable,
  CallOutcome,
}
use open_authority_trials_oa.Sequence.{AuthorizationLedger, is_text_value}
use open_authority_trials_oa.Canonical.Text.{codes}
use open_authority_trials_oa.Falsifier.{is_text_value}

pub data ModelAction : Type 0 where
  stop : ModelAction
  request : String → Fields → ModelAction

-- `t in s` and `s.startswith(t)`, on the characters of the texts
unfoldable pub is_prefix : List ℕ → List ℕ → Bool
is_prefix [] s = true
is_prefix (x ∷ t) [] = false
is_prefix (x ∷ t) (y ∷ s) = eqb x y && is_prefix t s

unfoldable pub is_infix : List ℕ → List ℕ → Bool
unfolding is_prefix
is_infix t [] = is_empty t
is_infix t (y ∷ s) = is_prefix t (y ∷ s) || is_infix t s

unfoldable pub valid_path : String → Bool
unfolding is_prefix is_infix
valid_path path =
    is_prefix (codes "/") (codes path)
    && (not (is_infix (codes "://") (codes path)) && not (is_infix (codes "..") (codes path)))

-- a request, after "action" is REQUEST
unfoldable pub parse_request : Fields → Option ModelAction
unfolding valid_path get_field
parse_request fs =
    if not (is_text_value (get_field fs "method") "POST")
    then none
    else elim (get_field fs "path") [
      | some (str path) ↦ elim (get_field fs "json") [
        | some (obj body) ↦ if valid_path path then some (request path body) else none
        | _ ↦ none
      ]
      | _ ↦ none
    ]

-- `none` where the source raises
unfoldable pub parse_action : Option Json → Option ModelAction
unfolding parse_request get_field
parse_action (some (obj fs)) =
    if is_text_value (get_field fs "action") "STOP"
    then some stop
    else if is_text_value (get_field fs "action") "REQUEST"
    then parse_request fs
    else none
parse_action _ = none

pub record Budgets : Type 0 where
  pub max_provider_calls : ℕ
  pub max_target_http_attempts : ℕ
  pub max_consecutive_invalid_model_outputs : ℕ

pub record RunState : Type 0 where
  pub provider : ProviderState
  pub attempts : ℕ
  pub invalid_outputs : ℕ
  pub terminal_provider_failure : Bool

unfoldable pub new_run : AuthorizationLedger → RunState
new_run ledger = record {
  provider = record { calls = 0; failures = []; readings = 0; ledger = ledger };
  attempts = 0;
  invalid_outputs = 0;
  terminal_provider_failure = false;
}

pub record Stopped : Type 0 where
  pub state : RunState
  pub stop_reason : StopReason

-- The four tests at the head of a turn.
unfoldable pub budget_reached : Environment → Budgets → RunState → Option StopReason
budget_reached env b s =
    if env.expired s.provider.readings
    then some run_wall_clock_timeout
    else if leb b.max_provider_calls s.provider.calls
    then some provider_call_budget_exhausted
    else if leb b.max_target_http_attempts s.attempts
    then some target_attempt_budget_exhausted
    else if leb b.max_consecutive_invalid_model_outputs s.invalid_outputs
    then some invalid_model_output_limit
    else none

abbrev pub read_clock : ProviderState → ProviderState
read_clock p = record p { readings = suc p.readings }

-- What a turn does: it goes on, or it stops the run.
pub data TurnResult : Type 0 where
  goes_on : RunState → TurnResult
  stops : RunState → StopReason → TurnResult

-- a valid action
unfoldable pub perform : Environment → RunState → ModelAction → TurnResult
perform env s stop = stops s model_voluntary_stop
perform env s (request path body) =
    if env.crossed (suc s.attempts)
    then stops (record s { attempts = suc s.attempts })
        verifier_confirmed_consequence_boundary_failure
    else goes_on (record s { attempts = suc s.attempts })

-- the model's output, once the provider has answered
unfoldable pub act : Environment → Option Json → RunState → TurnResult
unfolding parse_action perform
act env content s = elim (parse_action content) [
  | none ↦ goes_on (record s { invalid_outputs = suc s.invalid_outputs })
  | some a ↦ perform env (record s { invalid_outputs = 0 }) a
]

-- `if new_failures: terminal_provider_failure = True`
abbrev pub stopped_by_budget : ProviderState → RunState → RunState
stopped_by_budget after s =
    if ltb (length s.provider.failures) (length after.failures)
    then record s { provider = after; terminal_provider_failure = true }
    else record s { provider = after }

-- what the turn does with the outcome of the call
unfoldable pub conclude_turn : Environment → RunState → ProviderState × CallOutcome → TurnResult
unfolding act
conclude_turn env s (after, answered content) = act env content (record s { provider = after })
conclude_turn env s (after, budget_stop reason) = stops (stopped_by_budget after s) reason
conclude_turn env s (after, terminal_error) =
    stops (record s { provider = after; terminal_provider_failure = true })
      provider_transport_failure
conclude_turn env s (after, unreachable) =
    stops (record s { provider = after; terminal_provider_failure = true })
      provider_transport_failure

unfoldable pub take_turn : Environment → Budgets → RunState → TurnResult
unfolding provider_call_with_retries conclude_turn
take_turn env b s =
    conclude_turn env s
      (provider_call_with_retries env b.max_provider_calls (read_clock s.provider))

-- The loop on fuel, `none` when that runs out.
unfoldable pub run_loop : ℕ → Environment → Budgets → RunState → Option Stopped
unfolding budget_reached take_turn
run_loop zero env b s = none
run_loop (suc fuel) env b s = elim (budget_reached env b s) [
  | some reason ↦
      some (record { state = record s { provider = read_clock s.provider }; stop_reason = reason })
  | none ↦ elim (take_turn env b s) [
    | stops s' reason ↦ some (record { state = s'; stop_reason = reason })
    | goes_on s' ↦ run_loop fuel env b s'
  ]
]

-- A turn calls the provider at least once, so the calls that the budget allows are enough fuel.
unfoldable pub run_c : Environment → Budgets → AuthorizationLedger → Option Stopped
unfolding run_loop new_run
run_c env b ledger = run_loop (suc b.max_provider_calls) env b (new_run ledger)
