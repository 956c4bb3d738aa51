-- ===== src/Sequence/Run/Calls.antt =====
-- tools/oat_consequence_sequence_runner_004.py: one call of the provider with its retries.
use native.Mathlib.Omega.{arith}
use Prim.Native.Nat.{suc}
use open_authority_trials_oa.Sequence.Provider.{
  CallOutcome, consumed_by_request, record_failure, ProviderState, next_call, answered,
  TransportFailure, budget_stop, terminal_error, unreachable, StopReason, Environment, try_calls,
  run_wall_clock_timeout, provider_call_budget_exhausted, provider_call_once,
}
use open_authority_trials_oa.Prelude.{
  ℕ, List, length, ◌≤◌, ◌++◌, ◌+◌, ◌∷◌, leb, ◌≡◌, [], ltb, true, length-append, false, ◌∙◌, Option,
  Bool-cases, inl, inr, not, ◌||◌, is_empty,
}
use open_authority_trials_oa.Sequence.{consume_at_first_request, consume, AuthorizationLedger, Json}
use open_authority_trials_oa.Canonical.Json.{Json}
use open_authority_trials_oa.Prelude.Result.{Result-cases}

-- The calls that an outcome takes at the least.
abbrev pub least_calls : CallOutcome → ℕ
least_calls (answered c) = 1
least_calls terminal_error = 1
least_calls (budget_stop r) = 0
least_calls unreachable = 0

abbrev pub answers : CallOutcome → ℕ
answers (answered c) = 1
answers terminal_error = 0
answers (budget_stop r) = 0
answers unreachable = 0

-- The provider's part of the state, before and after a call with its retries.
pub record Tried (max : ℕ) (s t : ProviderState) (o : CallOutcome) : Type 0 where
  pub within : s.calls ≤ max → t.calls ≤ max
  pub advanced : s.calls + least_calls o ≤ t.calls
  pub failed : length t.failures + s.calls + answers o ≤ length s.failures + t.calls
  pub consumed : s.ledger.consumed ≡ ltb 0 s.calls → t.ledger.consumed ≡ ltb 0 t.calls

consumed_by_request-consumed : (l : AuthorizationLedger) → (consumed_by_request l).consumed ≡ true
unfolding consumed_by_request consume_at_first_request consume
consumed_by_request-consumed l = ground arith

length-snoc : {A : Type 0} (xs : List A) (x : A) → length (xs ++ x ∷ []) ≡ length xs + 1
length-snoc xs x = length-append xs (x ∷ [])

-- One more call that fails, and what comes after it.
Tried-failed :
    (max ordinal : ℕ) (f : TransportFailure) (s t : ProviderState) (o : CallOutcome)
    → leb max s.calls ≡ false
    → Tried max (record_failure ordinal f (next_call s)) t o
    → Tried max s t o
unfolding record_failure next_call
Tried-failed max ordinal f s t o below later =
    let more =
      length-snoc s.failures
        (record { failure = f; provider_call = suc s.calls; retry_ordinal = ordinal }) in
    record {
      within = λ h. later.within (ground arith);
      advanced = omega (arith, later.advanced);
      failed = omega (arith, later.failed, more);
      consumed = λ h. later.consumed (consumed_by_request-consumed s.ledger ∙ ground arith);
    }

Tried-terminal :
    (max ordinal : ℕ) (f : TransportFailure) (s : ProviderState)
    → leb max s.calls ≡ false
    → Tried max s (record_failure ordinal f (next_call s)) terminal_error
unfolding record_failure next_call
Tried-terminal max ordinal f s below =
    let more =
      length-snoc s.failures
        (record { failure = f; provider_call = suc s.calls; retry_ordinal = ordinal }) in
    record {
      within = λ h. ground arith;
      advanced = ground arith;
      failed = omega (arith, more);
      consumed = λ h. consumed_by_request-consumed s.ledger ∙ ground arith;
    }

Tried-answered :
    (max : ℕ) (c : Option Json) (s : ProviderState)
    → leb max s.calls ≡ false
    → Tried max s (next_call s) (answered c)
unfolding next_call
Tried-answered max c s below = record {
  within = λ h. ground arith;
  advanced = ground arith;
  failed = omega arith;
  consumed = λ h. consumed_by_request-consumed s.ledger ∙ ground arith;
}

Tried-read :
    (max : ℕ) (r : StopReason) (s : ProviderState)
    → Tried max s (record s { readings = suc s.readings }) (budget_stop r)
Tried-read max r s = record {
  within = λ h. h;
  advanced = omega arith;
  failed = omega arith;
  consumed = λ h. h;
}

Tried-by :
    {max : ℕ} {s t : ProviderState} {o : CallOutcome} {p : ProviderState × CallOutcome}
    → p ≡ (t, o)
    → Tried max s t o
    → Tried max s p.0 p.1
Tried-by e t = rw e t

module _ (env : Environment) (max : ℕ) where
  pub try_calls-Tried :
      (delays : List ℕ) (ordinal : ℕ) (s : ProviderState)
      → Tried max s (try_calls env max delays ordinal s).0 (try_calls env max delays ordinal s).1
  unfolding try_calls
  try_calls-Tried [] ordinal s = record {
    within = λ h. h;
    advanced = omega arith;
    failed = omega arith;
    consumed = λ h. h;
  }
  try_calls-Tried (delay ∷ delays) ordinal s = elim (Bool-cases (env.expired s.readings)) [
    | inl e ↦ Tried-by (ground arith) (Tried-read max run_wall_clock_timeout s)
    | inr e ↦ elim (Bool-cases (leb max s.calls)) [
      | inl full ↦ Tried-by (ground arith) (Tried-read max provider_call_budget_exhausted s)
      | inr below ↦ elim (Result-cases (provider_call_once (env.respond (suc s.calls)))) [
        | inl (c, got) ↦ Tried-by (ground arith) (Tried-answered max c s below)
        | inr (f, got) ↦ elim (Bool-cases (not f.retryable || is_empty delays)) [
          | inl last ↦ Tried-by (ground arith) (Tried-terminal max ordinal f s below)
          | inr more ↦
              let failed = record_failure ordinal f (next_call s) in
              Tried-by {t = (try_calls env max delays (suc ordinal) failed).0}
                {o = (try_calls env max delays (suc ordinal) failed).1} (ground arith)
                (Tried-failed max ordinal f s _ _ below
                  (try_calls-Tried delays (suc ordinal) failed))
        ]
      ]
    ]
  ]
