-- ===== src/Sequence/Provider.antt =====
-- tools/oat_consequence_sequence_runner_004.py: `provider_call_once` and
-- `provider_call_with_retries`. What the provider sends and what the clock reads are given by an
-- environment; a model's output is what `json.loads` makes of it, `none` where that raises.
use Prim.Native.Nat.{suc}
use open_authority_trials_oa.Prelude.Result.{ok, err, Result}
use open_authority_trials_oa.Prelude.{
  Bool, Option, ℕ, List, false, ◌++◌, ◌∷◌, true, [], some, if◌then◌else◌, leb, none, not, ◌||◌,
  is_empty, ◌&&◌,
}
use open_authority_trials_oa.Prelude.Int.{ℤ, eqb_ℤ, pos, leb_ℤ, ltb_ℤ}
use open_authority_trials_oa.Sequence.{consume_at_first_request, AuthorizationLedger, Json}
use open_authority_trials_oa.Canonical.Json.{Json}

-- A stream that was read to its end or to its closing mark.
pub record Stream : Type 0 where
  pub done : Bool
  -- an error event, with its code if that is an integer
  pub error : Option (Option ℤ)
  -- what `reconstruct_sse` returns, `none` where it raises
  pub reconstructed : Option (Option Json × Bool)

pub data ProviderResponse : Type 0 where
  http_error : ℤ → ProviderResponse
  timed_out connect_failed : ProviderResponse
  streamed : Stream → ProviderResponse

pub data Classification : Type 0 where
  http_retryable http_4xx_fatal_for_run timeout connect_failure : Classification
  provider_sse_retryable_error provider_sse_fatal_error : Classification
  stream_incomplete malformed_sse : Classification

pub record TransportFailure : Type 0 where
  pub classification : Classification
  pub retryable : Bool

-- `status == 429 or status >= 500`
unfoldable pub retryable_status : ℤ → Bool
retryable_status status = eqb_ℤ status (pos 429) || leb_ℤ (pos 500) status

-- `isinstance(code, int) and (code == 429 or 500 <= code < 600)`
unfoldable pub retryable_code : Option ℤ → Bool
retryable_code none = false
retryable_code (some code) = eqb_ℤ code (pos 429) || (leb_ℤ (pos 500) code && ltb_ℤ code (pos 600))

abbrev fails : Classification → Bool → Result TransportFailure (Option Json)
fails c r = err (record { classification = c; retryable = r })

unfoldable pub reconstructed_content :
    Option (Option Json × Bool) → Result TransportFailure (Option Json)
reconstructed_content none = fails malformed_sse true
reconstructed_content (some (content, done)) =
    if done then ok content else fails stream_incomplete true

unfoldable pub streamed_content : Stream → Result TransportFailure (Option Json)
unfolding reconstructed_content retryable_code
streamed_content s = elim s.error [
  | some code ↦
      if retryable_code code
      then fails provider_sse_retryable_error true
      else fails provider_sse_fatal_error false
  | none ↦ if s.done then reconstructed_content s.reconstructed else fails stream_incomplete true
]

unfoldable pub provider_call_once : ProviderResponse → Result TransportFailure (Option Json)
unfolding streamed_content retryable_status
provider_call_once (http_error status) =
    if retryable_status status
    then fails http_retryable true
    else fails http_4xx_fatal_for_run false
provider_call_once timed_out = fails timeout true
provider_call_once connect_failed = fails connect_failure true
provider_call_once (streamed s) = streamed_content s

-- The outside world: what the provider answers to its nth call, and whether the nth reading of the
-- clock is past the run's wall clock.
pub record Environment : Type 0 where
  pub respond : ℕ → ProviderResponse
  pub expired : ℕ → Bool
  -- whether the target's verifier reports a boundary failure after the nth attempt
  pub crossed : ℕ → Bool

pub record FailureRecord : Type 0 where
  pub failure : TransportFailure
  pub provider_call : ℕ
  pub retry_ordinal : ℕ

pub record ProviderState : Type 0 where
  pub calls : ℕ
  pub failures : List FailureRecord
  pub readings : ℕ
  pub ledger : AuthorizationLedger

pub data StopReason : Type 0 where
  run_wall_clock_timeout provider_call_budget_exhausted : StopReason
  target_attempt_budget_exhausted invalid_model_output_limit : StopReason
  provider_transport_failure model_voluntary_stop : StopReason
  verifier_confirmed_consequence_boundary_failure : StopReason

pub data CallOutcome : Type 0 where
  answered : Option Json → CallOutcome
  budget_stop : StopReason → CallOutcome
  terminal_error unreachable : CallOutcome

-- The ledger after a request: in S3 the first request consumes it, which raises nothing.
unfoldable pub consumed_by_request : AuthorizationLedger → AuthorizationLedger
unfolding consume_at_first_request
consumed_by_request l = elim (consume_at_first_request l) [ ok l' ↦ l' | err e ↦ l ]

unfoldable pub next_call : ProviderState → ProviderState
unfolding consumed_by_request
next_call s = record s {
  calls = suc s.calls;
  readings = suc s.readings;
  ledger = consumed_by_request s.ledger;
}

unfoldable pub record_failure : ℕ → TransportFailure → ProviderState → ProviderState
record_failure ordinal f s = record s {
  failures =
      s.failures ++ record { failure = f; provider_call = s.calls; retry_ordinal = ordinal } ∷ [];
}

-- PROVIDER_RETRY_DELAYS_SECONDS, and the last try
abbrev pub retry_delays : List ℕ
retry_delays = 1 ∷ 2 ∷ 0 ∷ []

unfoldable pub try_calls :
    Environment → ℕ → List ℕ → ℕ → ProviderState → ProviderState × CallOutcome
unfolding provider_call_once next_call record_failure
try_calls env max [] ordinal s = (s, unreachable)
try_calls env max (delay ∷ delays) ordinal s =
    if env.expired s.readings
    then (record s { readings = suc s.readings }, budget_stop run_wall_clock_timeout)
    else if leb max s.calls
    then (record s { readings = suc s.readings }, budget_stop provider_call_budget_exhausted)
    else elim (provider_call_once (env.respond (suc s.calls))) [
      | ok content ↦ (next_call s, answered content)
      | err f ↦
          let failed = record_failure ordinal f (next_call s) in
          let again = try_calls env max delays (suc ordinal) failed in
          if not f.retryable || is_empty delays then (failed, terminal_error) else again
    ]

unfoldable pub provider_call_with_retries :
    Environment → ℕ → ProviderState → ProviderState × CallOutcome
unfolding try_calls
provider_call_with_retries env max s = try_calls env max retry_delays 0 s
