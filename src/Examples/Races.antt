-- ===== src/Examples/Races.antt =====
-- The properties of threads that share a host, applied.
use open_authority_trials_oa.Canonical.Digest.{digest_object}
use open_authority_trials_oa.Prelude.Result.{err}
use open_authority_trials_oa.HostSink.{new_host, Request, Host}
use open_authority_trials_oa.Consequence.Model.{normalized_action_digest}
use open_authority_trials_oa.Prelude.{
  String, Option, some, ◌≡◌, true, ◌∷◌, [], refl, any, keep, contains,
}
use open_authority_trials_oa.HostSink.Interleaving.Alone.{decide_request-repeated_id}
use open_authority_trials_oa.Authority.Authorization.{
  Authorization, valid, token_digest, cmp, sign, use_count, mismatches, undetermined_results,
  verify_integrity, mac,
}
use open_authority_trials_oa.Examples.{payment, plain, granted, token, base_authority, [], pos}
use open_authority_trials_oa.HostSink.Interleaving.{arriving, Reach, System}
use open_authority_trials_oa.HostSink.Handlers.{host_report, decide_request}
use open_authority_trials_oa.Scenarios.{base_authority, make_commit, make_authorization}
use open_authority_trials_oa.HostSink.Tables.{
  commit_id_seen, idempotency_seen, integrity_error, fits,
}
use open_authority_trials_oa.Authority.Authorization.Validate.{
  validate_authorization, validate_present, decision_result, scope_result, integrity_result,
  interval_result, state_results, revocation_result, delegation_results, use_result,
  correlation_result,
}
use open_authority_trials_oa.Prelude.Dict.{get_or, get}
use open_authority_trials_oa.Prelude.Int.{◌+ℤ◌, pos}
use open_authority_trials_oa.HostSink.Interleaving.Race.{Raced, two_calls-Raced}
use open_authority_trials_oa.Authority.CurrentState.{
  at, at_from, add, sort_from, insert_epoch, status_of, state_digest,
}
use open_authority_trials_oa.Canonical.Digest.{digest_object}
use open_authority_trials_oa.Consequence.Sink.{prior_uses}
use open_authority_trials_oa.Examples.HostSinks.{paying_host, second_event, other_text}

-- an authorization that binds no idempotency key, with one use
abbrev keyless : Authorization
keyless = record granted { idempotency_key = "NOT_APPLICABLE" }

abbrev keyless_token : Option String
keyless_token = some (token_digest plain keyless)

abbrev race_first : Request
race_first = record { event = payment; auth = some keyless; presented = keyless_token }

abbrev race_second : Request
race_second = record { event = second_event; auth = some keyless; presented = keyless_token }

race_valid : valid (host_report plain paying_host race_first) ≡ true
unfolding host_report validate_authorization validate_present decision_result cmp scope_result
    integrity_result interval_result state_results revocation_result delegation_results use_result
    correlation_result valid mismatches undetermined_results keep at at_from base_authority add
    sort_from insert_epoch status_of contains verify_integrity mac sign make_authorization
    make_commit token_digest digest_object state_digest prior_uses use_count get_or get paying_host
    ◌+ℤ◌ new_host normalized_action_digest
race_valid = refl

race_valid_second : valid (host_report plain paying_host race_second) ≡ true
unfolding host_report validate_authorization validate_present decision_result cmp scope_result
    integrity_result interval_result state_results revocation_result delegation_results use_result
    correlation_result valid mismatches undetermined_results keep at at_from base_authority add
    sort_from insert_epoch status_of contains verify_integrity mac sign make_authorization
    make_commit token_digest digest_object state_digest prior_uses use_count get_or get paying_host
    ◌+ℤ◌ new_host normalized_action_digest
race_valid_second = refl

two_calls-Raced_example :
    (t : System) × Reach plain
      (record {
        host = paying_host;
        workers =
            record { request = race_first; stage = arriving }
            ∷ record { request = race_second; stage = arriving }
            ∷ [];
      })
      t
    × Raced paying_host keyless race_first race_second t
unfolding commit_id_seen idempotency_seen paying_host make_commit make_authorization sign use_count
    get_or get ◌+ℤ◌
two_calls-Raced_example =
    two_calls-Raced plain paying_host keyless race_first race_second tt refl refl race_valid
      race_valid_second (unfold fits in refl) (unfold fits in refl) refl refl refl refl
      (other_text "commit-0001" "commit-0002" refl) (other_text "idem-0001" "idem-0002" refl) refl

-- a host whose ledger has the first commit, and a request that repeats its id
abbrev paid_host : Host
unfolding paying_host
paid_host = record paying_host { ledger = record { event = payment; token_digest = token } ∷ [] }

abbrev repeating : Request
repeating = record {
  event = record payment { idempotency_key = "idem-0002" };
  auth = some keyless;
  presented = keyless_token;
}

repeating-valid : valid (host_report plain paid_host repeating) ≡ true
unfolding paid_host host_report validate_authorization validate_present decision_result cmp
    scope_result integrity_result interval_result state_results revocation_result delegation_results
    use_result correlation_result valid mismatches undetermined_results keep at at_from
    base_authority add sort_from insert_epoch status_of contains verify_integrity mac sign
    make_authorization make_commit token_digest digest_object state_digest prior_uses use_count
    get_or get paying_host ◌+ℤ◌ new_host normalized_action_digest
repeating-valid = refl

decide_request-repeated_id_example :
    ((decide_request plain paid_host repeating).1
      ≡ err (integrity_error "ledger_commits.commit_id"))
    × ((decide_request plain paid_host repeating).0.ledger ≡ paid_host.ledger)
    × ((decide_request plain paid_host repeating).0.observer ≡ paid_host.observer)
    × (use_count (decide_request plain paid_host repeating).0.issuer keyless.authorization_id
        ≡ use_count paid_host.issuer keyless.authorization_id +ℤ pos 1)
unfolding paid_host paying_host commit_id_seen idempotency_seen make_commit any
decide_request-repeated_id_example =
    decide_request-repeated_id plain paid_host repeating keyless refl refl repeating-valid refl
      (unfold fits in refl)
