-- ===== src/Examples/HostSinks.antt =====
-- The properties of the host, its threads and its queue, applied.
use open_authority_trials_oa.Consequence.Model.{
  exact_action_digest, normalize_fields, pick, has_field, action_fields, normalize_action,
}
use open_authority_trials_oa.Canonical.Digest.{digest_object}
use open_authority_trials_oa.HostSink.{held}
use open_authority_trials_oa.HostSink.Queue.{Service, enqueue_all}
use open_authority_trials_oa.HostSink.Queue.Worker.{enqueue_all-raised, all_timed_out}
use open_authority_trials_oa.HostSink.Handlers.{
  guarded, decide_request, refuse_request, host_report,
}
use open_authority_trials_oa.HostSink.{
  Payload, build_commit, event_of, action_text, state_ref, route_queue_worker,
}
use open_authority_trials_oa.HostSink.Tables.{missing_key, fits, tick_overflow, record_arrival}
use open_authority_trials_oa.Canonical.Json.{end, get_field, field, num, list, str, null, bool}
use open_authority_trials_oa.Prelude.Result.{ok, err}
use open_authority_trials_oa.HostSink.{
  new_host, Request, Host, Payload, build_commit, event_of, action_text,
}
use open_authority_trials_oa.Consequence.Model.{CommitEvent, normalized_action_digest}
use open_authority_trials_oa.Prelude.{
  String, some, ◌==◌, ◌≡◌, false, true, ◌≢◌, false≢true, ◌∷◌, sym, [], ◌∙◌, All, refl, eq_iff, none,
  keep, any,
}
use open_authority_trials_oa.HostSink.Refinement.Sequences.{
  decide_all, decide_all-Covered, attempts,
}
use open_authority_trials_oa.HostSink.Interleaving.Safety.{IsSound, new_system, new_system-IsSound}
use open_authority_trials_oa.Examples.{
  payment, plain, granted, token, payment_sink, base_authority, base_issuer, [], pos, none,
}
use open_authority_trials_oa.HostSink.Interleaving.{advance_at, accept, Reach, Step}
use open_authority_trials_oa.Scenarios.{payment_sink, base_authority, base_issuer, make_commit}
use open_authority_trials_oa.Consequence.Sink.History.{new_sink}
use open_authority_trials_oa.Consequence.Sink.Guarded.{Covered, Distinct}
use open_authority_trials_oa.HostSink.Refinement.{events_of}
use open_authority_trials_oa.HostSink.Tables.{commit_id_seen, idempotency_seen, missing_key}
use open_authority_trials_oa.Prelude.Int.{pos, negsuc}
use open_authority_trials_oa.Authority.CurrentState.{at}
use open_authority_trials_oa.Canonical.Digest.{digest_object}
use open_authority_trials_oa.HostSink.Queue.{Service, enqueue_all}
use open_authority_trials_oa.HostSink.Queue.Worker.{all_timed_out, enqueue_all-raised}
use open_authority_trials_oa.Canonical.Printed.{
  str_of, repr_of, decimal_text, repr_items, repr_text, repr_chars, repr_char,
}
use open_authority_trials_oa.Canonical.Text.{decimal, digits_from}
use open_authority_trials_oa.Authority.Authorization.Validate.{validate_authorization}
use open_authority_trials_oa.Authority.Authorization.{valid, mismatches}

unfoldable pub paying_host : Host
unfolding new_host
paying_host = new_host payment_sink base_authority base_issuer

abbrev pay : Request
pay = record { event = payment; auth = some granted; presented = token }

-- another commit with another key
abbrev pub second_event : CommitEvent
second_event = record payment { commit_id = "commit-0002"; idempotency_key = "idem-0002" }

abbrev pay_again : Request
pay_again = record { event = second_event; auth = some granted; presented = token }

pub other_text : (s t : String) → (s == t) ≡ false → s ≢ t
other_text s t h e = false≢true (sym h ∙ (eq_iff s t).1 e)

decide_all-Covered_example :
    let host =
      decide_all plain (new_host payment_sink base_authority base_issuer) (pay ∷ pay_again ∷ []) in
    All
      (Covered plain base_authority base_issuer
        (new_sink payment_sink base_authority base_issuer)
        (attempts (pay ∷ pay_again ∷ [])))
      (events_of host.ledger)
    × Distinct (events_of host.ledger)
unfolding commit_id_seen make_commit fits
decide_all-Covered_example =
    decide_all-Covered plain payment_sink base_authority base_issuer (pay ∷ pay_again ∷ [])
      (refl, (other_text "commit-0001" "commit-0002" refl, tt), (refl, tt, tt)) (refl, (refl, tt))

new_system-IsSound_example :
    IsSound (advance_at plain (accept (new_system payment_sink base_authority base_issuer) pay) 0)
new_system-IsSound_example =
    new_system-IsSound plain payment_sink base_authority base_issuer
      (advance_at plain (accept (new_system payment_sink base_authority base_issuer) pay) 0)
      (Reach.next (Reach.next Reach.here (Step.arrive _ pay)) (Step.move _ 0))

abbrev serving : Service
serving = record { host = paying_host; worker_alive = true }

abbrev bare : Payload
bare = record {
  action = end;
  authorization_id = none;
  committed_at = pos 5;
  commit_id = "commit-0003";
  idempotency_key = "idem-0003";
  agent_id = none;
  trace_ref = none;
  token_digest = none;
}

-- the action of the reference payment, in a payload
abbrev full : Payload
full = record bare { action = payment.normalized_action }

-- `str` of values that are no texts
printed_number : action_text (field "sink_id" (num (negsuc 6)) end) "sink_id" ≡ ok "-7"
unfolding action_text get_field str_of repr_of decimal_text decimal digits_from
printed_number = refl

printed_list :
    action_text (field "sink_id" (list (str "it's" ∷ null ∷ bool true ∷ [])) end) "sink_id"
    ≡ ok "[\"it's\", None, True]"
unfolding action_text get_field str_of repr_of repr_items repr_text repr_chars repr_char
printed_list = refl

-- a payload whose tick is too large for the column
abbrev late : Payload
late = record full { committed_at = pos 9223372036854775808 }

late-raises : guarded plain paying_host late route_queue_worker ≡ (paying_host, err tick_overflow)
unfolding guarded build_commit event_of action_text make_commit action_fields normalize_action
    normalized_action_digest digest_object base_authority paying_host new_host held normalize_fields
    pick has_field exact_action_digest decide_request refuse_request record_arrival fits str_of
    host_report validate_authorization valid mismatches keep idempotency_seen any
late-raises = refl

enqueue_all-raised_example : enqueue_all plain serving (late ∷ full ∷ []) ≡ (
  record { host = serving.host; worker_alive = false },
  err (missing_key "decision") ∷ all_timed_out (full ∷ []),
)
enqueue_all-raised_example =
    enqueue_all-raised plain serving late paying_host tick_overflow (full ∷ []) refl late-raises

-- what `build_commit` makes of the reference payment without an authorization
abbrev built : Request
built = record {
  event = record payment {
    commit_id = "commit-0003";
    route_id = route_queue_worker;
    agent_id = "agent.integration-test";
    committed_at = pos 5;
    authorization_ref = none;
    authority_state_ref = state_ref plain (at base_authority (pos 5));
    idempotency_key = "idem-0003";
    trace_ref = "trace-commit-0003";
  };
  auth = none;
  presented = none;
}

abbrev bypassing : Request
bypassing = record {
  event = record payment { authorization_ref = none };
  auth = none;
  presented = none;
}
