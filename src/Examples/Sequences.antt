-- ===== src/Examples/Sequences.antt =====
-- The properties of a sequence's gates, ledger and closure, applied.
use open_authority_trials_oa.HostSink.{new_host}
use open_authority_trials_oa.HostSink.Reference.{reference_sink, reference_authority}
use open_authority_trials_oa.HostSink.Handlers.{host_verdict}
use open_authority_trials_oa.HostSink.Tables.{commit_id_seen, idempotency_seen}
use open_authority_trials_oa.Sequence.Control.{control_host, control_host-detected}
use open_authority_trials_oa.Verifier.Consequence.{consequence_boundary_failure}
use open_authority_trials_oa.Examples.{plain}
use open_authority_trials_oa.HostSink.{Host}
use open_authority_trials_oa.HostSink.Reference.{reference_issuer}
use open_authority_trials_oa.HostSink.Handlers.{host_evidence}
use open_authority_trials_oa.Sequence.Replay.{replay_host}
use open_authority_trials_oa.Sequence.Replay.Forgotten.{
  preserved, IsRegistered, replay_host-preserved,
}
use open_authority_trials_oa.Scenarios.{payment_sink, base_authority, make_authorization}
use open_authority_trials_oa.Examples.{granted}
use open_authority_trials_oa.Authority.Authorization.{sign}
use open_authority_trials_oa.Authority.CurrentState.{add, sort_from, insert_epoch}
use open_authority_trials_oa.Prelude.{All, String, arith}
use open_authority_trials_oa.Prelude.Int.{ℤ}
use open_authority_trials_oa.Sequence.{
  GateState, observed_set, fail_closed_verdict, run_execution_established, ReplayRecord, pass,
  new_ledger, verdict_for, established, harness_reasons, runtime_of, boundary_failure,
}
use open_authority_trials_oa.Prelude.{List, some, ◌≡◌, [], true, ◌∷◌, refl, ◌↔◌, false}
use open_authority_trials_oa.Sequence.Ledger.{
  IsAccounted, LedgerCall, call_all, note_call, call_all-new_ledger-IsAccounted, consume_call,
}
use open_authority_trials_oa.Canonical.Json.{Json, Fields, list, field, get_field, str, obj, end}
use open_authority_trials_oa.Prelude.Result.{ok}
use open_authority_trials_oa.Falsifier.{truthy}
use open_authority_trials_oa.Prelude.Int.{pos, ◌<ℤ◌}
use open_authority_trials_oa.Sequence.Gates.{run_execution_established-fail_closed_verdict_iff}

abbrev open_gates : GateState
open_gates = record {
  s0_preflight = pass;
  pc_sensitivity = established;
  pc_evidence_sealed = true;
  state_separation = established;
  adversary_context_isolation = pass;
  provider_preflight = pass;
}

abbrev calls : List LedgerCall
calls =
    note_call "s0_entered" "S0"
    ∷ consume_call "early" "S2"
    ∷ consume_call "first_provider_request_sent" "S3"
    ∷ consume_call "again" "S3"
    ∷ []

call_all-new_ledger-IsAccounted_example : IsAccounted (call_all calls (new_ledger "owner-1"))
call_all-new_ledger-IsAccounted_example = call_all-new_ledger-IsAccounted "owner-1" calls

abbrev routes : Json
routes = list (str "route.api-guarded" ∷ [])

abbrev subject_verdict : Fields
subject_verdict =
    field "disposition" (str "NO_BOUNDARY_COUNTEREXAMPLE")
      (field "path_reconciliation" (obj (field "observed_path_set" routes end)) end)

abbrev final_verdict : Fields
final_verdict = verdict_for subject_verdict []

observed_there : observed_set subject_verdict ≡ some (some routes)
unfolding observed_set get_field
observed_there = refl

verdict_there : fail_closed_verdict subject_verdict (pos 3) false ≡ some final_verdict
unfolding fail_closed_verdict observed_set get_field harness_reasons truthy
verdict_there = refl

run_execution_established-fail_closed_verdict_iff_example :
    (run_execution_established (some (runtime_of final_verdict (pos 3) (pos 1))) ≡ true)
    ↔ ((false ≡ false) × ((pos 0 <ℤ pos 3) × (truthy (some routes) ≡ true)))
run_execution_established-fail_closed_verdict_iff_example =
    run_execution_established-fail_closed_verdict_iff subject_verdict final_verdict (some routes)
      (pos 3) (pos 1) false observed_there verdict_there

abbrev control : ReplayRecord
control = record {
  integrity_status = pass;
  replay_matches_original = true;
  recomputed_subject_disposition = boundary_failure;
}

-- a host that has counted two uses of its one authorization
abbrev overused : Host
overused = record {
  sink = payment_sink;
  authority = base_authority;
  issuer = record { secret = []; uses = ("authz-0001", pos 2) ∷ [] };
  ledger = [];
  observer = record { receipts = []; route_observations = [] };
  authorizations = ("authz-0001", granted) ∷ [];
}

replay_host-preserved_example :
    (r : Host) × (replay_host (preserved overused) ≡ ok r)
    × (r ≡ record overused { issuer = reference_issuer })
    × All (λ (e : String × ℤ). e.1 ≡ pos 0) (host_evidence r).use_counts
unfolding IsRegistered base_authority make_authorization sign add sort_from insert_epoch
replay_host-preserved_example =
    replay_host-preserved overused ((omega arith, tt), (tt, tt)) (refl, refl, refl, tt)

abbrev reference_host : Host
unfolding new_host
reference_host = new_host reference_sink reference_authority reference_issuer

control_host-detected_example :
    (host_verdict plain (control_host plain reference_host)).disposition
    ≡ consequence_boundary_failure
unfolding reference_host commit_id_seen idempotency_seen
control_host-detected_example = control_host-detected plain reference_host refl tt refl refl
