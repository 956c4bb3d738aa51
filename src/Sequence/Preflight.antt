-- ===== src/Sequence/Preflight.antt =====
-- tools/oat_consequence_sequence_runner_004.py: `verify_provider_preflight` and `execution_facts`.
-- The path of an artifact is given as what is read there, if anything is there.
use mathlib.Core.Option.{none-ne-some}
use open_authority_trials_oa.Sequence.Run.{RunState}
use open_authority_trials_oa.Sequence.{fail_closed_verdict}
use open_authority_trials_oa.Prelude.{
  eq_iff, eq_refl, ap, sym, ◌∙◌, subst, some_inj, &&-iff, length, ltb, true, ◌==◌, false,
}
use open_authority_trials_oa.Prelude.{
  ◌≡◌, ◌↔◌, refl, false≢true, String, Bool, Option, List, ◌∷◌, [], none, some, all, if◌then◌else◌,
}
use open_authority_trials_oa.Prelude.Int.{ℤ, pos}
use open_authority_trials_oa.Canonical.Json.{
  Fields, Json, get_field, num, bool, null, str, arr, obj, fields,
}
use open_authority_trials_oa.Falsifier.{is_text_value, truthy}
use open_authority_trials_oa.Sequence.{pass}
use open_authority_trials_oa.Sequence.Stages.{fail}
use open_authority_trials_oa.Prelude.Result.{Result, ok, err, ◌>>=◌}

-- what the manifest binds
pub record PreflightTerms : Type 0 where
  pub endpoint : String
  pub model : String
  pub tool_id : String

unfoldable pub preflight_checks : PreflightTerms → Fields → List Bool
unfolding get_field
preflight_checks terms r =
    is_text_value (get_field r "endpoint") terms.endpoint
    ∷ is_text_value (get_field r "model") terms.model
    ∷ is_text_value (get_field r "preflight_status") pass
    ∷ truthy (get_field r "stream_done_observed")
    ∷ is_text_value (get_field r "tool_id") terms.tool_id
    ∷ []

-- The status of the gate; nothing is supplied, or nothing is there, where the artifact is `none`.
unfoldable pub verify_provider_preflight : PreflightTerms → Option Fields → String
unfolding preflight_checks all
verify_provider_preflight terms none = fail
verify_provider_preflight terms (some r) =
    if all (λ b. b) (preflight_checks terms r) then pass else fail

is_text_value_to : (v : Option Json) (t : String) → is_text_value v t ≡ true → v ≡ some (str t)
is_text_value_to none t h = absurd (false≢true h)
is_text_value_to (some null) t h = absurd (false≢true h)
is_text_value_to (some (bool b)) t h = absurd (false≢true h)
is_text_value_to (some (num n)) t h = absurd (false≢true h)
is_text_value_to (some (str s)) t h = ap (λ x. some (str x)) ((eq_iff s t).0 h)
is_text_value_to (some (arr xs)) t h = absurd (false≢true h)
is_text_value_to (some (obj fs)) t h = absurd (false≢true h)

is_text_value_from : (v : Option Json) (t : String) → v ≡ some (str t) → is_text_value v t ≡ true
is_text_value_from v t h = rw h (eq_refl t)

status-passes : (b : Bool) → ((if b then pass else fail) == pass) ≡ b
status-passes true = refl
status-passes false = refl

-- The artifact of a gate that passes.
pub record Vouches (terms : PreflightTerms) (r : Fields) : Type 0 where
  pub endpoint : get_field r "endpoint" ≡ some (str terms.endpoint)
  pub model : get_field r "model" ≡ some (str terms.model)
  pub status : get_field r "preflight_status" ≡ some (str pass)
  pub streamed : truthy (get_field r "stream_done_observed") ≡ true
  pub tool : get_field r "tool_id" ≡ some (str terms.tool_id)

-- The gate passes exactly when an artifact is there that names the manifest's endpoint, model and
-- tool, says that its preflight passed, and has seen the end of the stream.
verify_provider_preflight-Vouches_iff :
    (terms : PreflightTerms) (o : Option Fields)
    → ((verify_provider_preflight terms o == pass) ≡ true)
      ↔ ((r : Fields) × (o ≡ some r) × Vouches terms r)
unfolding verify_provider_preflight preflight_checks all
verify_provider_preflight-Vouches_iff terms none =
    (λ h. absurd (false≢true h), λ h. absurd (none-ne-some h.0 h.1))
verify_provider_preflight-Vouches_iff terms (some r) = (
  λ h.
      let checked = sym (status-passes _) ∙ h in
      let (e, checked1) = (&&-iff _ _).0 checked in
      let (m, checked2) = (&&-iff _ _).0 checked1 in
      let (p, checked3) = (&&-iff _ _).0 checked2 in
      let (d, checked4) = (&&-iff _ _).0 checked3 in
      let (t, done) = (&&-iff _ _).0 checked4 in
      (
        r,
        refl,
        record {
          endpoint = is_text_value_to (get_field r "endpoint") terms.endpoint e;
          model = is_text_value_to (get_field r "model") terms.model m;
          status = is_text_value_to (get_field r "preflight_status") pass p;
          streamed = d;
          tool = is_text_value_to (get_field r "tool_id") terms.tool_id t;
        },
      ),
  λ (x, same, v).
      let w = subst (Vouches terms) (some_inj (sym same)) v in
      status-passes _
      ∙ rw
          (
            is_text_value_from (get_field r "endpoint") terms.endpoint w.endpoint,
            is_text_value_from (get_field r "model") terms.model w.model,
            is_text_value_from (get_field r "preflight_status") pass w.status,
            w.streamed,
            is_text_value_from (get_field r "tool_id") terms.tool_id w.tool,
          )
          refl,
)

pub record ExecutionFacts : Type 0 where
  pub provider_call_performed : Bool
  pub provider_calls : ℤ
  pub provider_transport_failures : ℤ
  pub source : String
  pub stop_reason : Option Json
  pub target_http_attempts : ℤ
  pub terminal_provider_failure : Bool

pub data FactsError : Type 0 where
  no_preserved_facts : FactsError
  no_number : String → FactsError

-- `int(record.get(key, 0))`, of a number or a Boolean
unfoldable pub count_at : Fields → String → Result FactsError ℤ
unfolding get_field
count_at r key = elim (get_field r key) [
  | none ↦ ok (pos 0)
  | some v ↦ elim v [
    | num n ↦ ok n
    | bool b ↦ ok (if b then pos 1 else pos 0)
    | null ↦ err (no_number key)
    | str s ↦ err (no_number key)
    | arr xs ↦ err (no_number key)
    | obj fs ↦ err (no_number key)
  ]
]

unfoldable pub facts_of : String → Fields → Result FactsError ExecutionFacts
unfolding count_at get_field
facts_of source r = count_at r "provider_calls" >>= λ calls.
    count_at r "provider_transport_failures" >>= λ failures.
    count_at r "target_http_attempts" >>= λ attempts. ok (record {
      provider_call_performed = truthy (get_field r "provider_call_performed");
      provider_calls = calls;
      provider_transport_failures = failures;
      source = source;
      stop_reason = get_field r "stop_reason";
      target_http_attempts = attempts;
      terminal_provider_failure = truthy (get_field r "terminal_provider_failure");
    })

-- The two files, "runtime.json" before "execution-facts.json".
unfoldable pub execution_facts : Option Fields → Option Fields → Result FactsError ExecutionFacts
unfolding facts_of
execution_facts (some runtime) other = facts_of "runtime.json" runtime
execution_facts none (some facts) = facts_of "execution-facts.json" facts
execution_facts none none = err no_preserved_facts

-- What `run_s3` writes of its end in "runtime.json", as far as a replay reads it.
unfoldable pub runtime_fields : String → RunState → Fields
runtime_fields stop_reason s = fields (
    ("provider_call_performed", bool (ltb 0 s.provider.calls))
    ∷ ("provider_calls", num (pos s.provider.calls))
    ∷ ("provider_transport_failures", num (pos (length s.provider.failures)))
    ∷ ("stop_reason", str stop_reason)
    ∷ ("target_http_attempts", num (pos s.attempts))
    ∷ ("terminal_provider_failure", bool s.terminal_provider_failure)
    ∷ [])

-- The replay of a run reads back the facts with which the run ended, so it wraps the verdict that it
-- recomputes exactly as the run wrapped its own.
execution_facts-runtime_fields :
    (stop_reason : String) (s : RunState) (other : Option Fields) (subject : Fields)
    → (f : ExecutionFacts) × (execution_facts (some (runtime_fields stop_reason s)) other ≡ ok f)
      × (fail_closed_verdict subject f.target_http_attempts f.terminal_provider_failure
          ≡ fail_closed_verdict subject (pos s.attempts) s.terminal_provider_failure)
unfolding execution_facts facts_of count_at get_field runtime_fields truthy
execution_facts-runtime_fields stop_reason s other subject = (_, refl, refl)
