-- ===== src/Examples/Records.antt =====
-- The properties of delegation, authority states, paths, evidence and canonical values, applied.
use open_authority_trials_oa.Authority.Delegation.{
  DelegationChain, validate_delegation, check_links, conclude, holds, amplifies, terminal_principal,
}
use open_authority_trials_oa.Authority.CurrentState.Epochs.{InForce, at-add}
use open_authority_trials_oa.Prelude.{
  List, contains, ◌∷◌, ◌≡◌, none, [], true, some, refl, ◌↔◌, ◌++◌,
}
use open_authority_trials_oa.Consequence.Sink.{PaymentLedgerSink, commit_unguarded}
use open_authority_trials_oa.Evidence.Graph.{
  ChainEvidence, complete, audit, build_graph, optional_payloads,
}
use open_authority_trials_oa.Canonical.Json.{Fields, get_field, Json, field, dict, str, num, end}
use open_authority_trials_oa.Evidence.Package.{verify_package, seal, digest_matches}
use open_authority_trials_oa.Scenarios.{second_epoch, fresh_sink, first_epoch}
use open_authority_trials_oa.Paths.{ObservedPath}
use open_authority_trials_oa.Examples.{plain, [], some, pos}
use open_authority_trials_oa.Scenarios.Runs.{bypass_commit}
use open_authority_trials_oa.Authority.Delegation.Soundness.{Delegates, validate_delegation_iff}
use open_authority_trials_oa.Prelude.Int.{pos}
use open_authority_trials_oa.Evidence.Package.Tampering.{verify_package-seal}
use open_authority_trials_oa.Authority.CurrentState.{at, add}
use open_authority_trials_oa.Evidence.Graph.Completeness.{every_given, build_graph-complete}

abbrev direct_chain : DelegationChain
direct_chain = record {
  root = "principal.cfo";
  links =
      record {
        delegator = "principal.cfo";
        delegate = "principal.treasury-bot";
        scope = "payment.transfer" ∷ [];
      }
      ∷ [];
}

validate_delegation_iff_example :
    ((validate_delegation direct_chain "principal.treasury-bot" "payment.transfer").0 ≡ true)
    ↔ Delegates direct_chain "principal.treasury-bot" "payment.transfer"
validate_delegation_iff_example =
    validate_delegation_iff direct_chain "principal.treasury-bot" "payment.transfer"

direct_holds :
    (validate_delegation direct_chain "principal.treasury-bot" "payment.transfer").0 ≡ true
unfolding validate_delegation check_links conclude contains holds amplifies terminal_principal
direct_holds = refl

at-add_example :
    InForce
      ((second_epoch ∷ []) ++ first_epoch ∷ [])
      (pos 60)
      (at (add (second_epoch ∷ []) first_epoch) (pos 60))
at-add_example = at-add (second_epoch ∷ []) first_epoch (pos 60)

abbrev batch : List ObservedPath
batch = record { route_id = "route.batch-replay"; arrivals = 2; commits = 1 } ∷ []

abbrev bypassed : PaymentLedgerSink
bypassed = commit_unguarded (bypass_commit plain) fresh_sink

abbrev partial_chain : ChainEvidence
partial_chain = record {
  agent_id = "agent.nim-adversary";
  principal_id = "principal.treasury-bot";
  route_id = "route.batch-replay";
  action_digest = "sha256:0";
  authorization = none;
  authority_at_issue = none;
  authority_at_commit = some (field "epoch" (num (pos 1)) end);
  sink_decision = none;
  commit = some (field "commit_id" (str "commit-0002") end);
  receipt = some (field "receipt_id" (str "receipt-0001") end);
  verifier_trace = none;
  disposition = some "CONSEQUENCE_BOUNDARY_FAILURE";
}

build_graph-complete_example :
    complete (audit (build_graph partial_chain)) ≡ every_given (optional_payloads partial_chain)
build_graph-complete_example = build_graph-complete partial_chain

abbrev run_package : Fields
run_package = field "scenario" (str "guarded-valid") (field "notes" (str "") end)

no_digest_yet : get_field run_package "evidence_digest" ≡ none
unfolding get_field
no_digest_yet = refl

verify_package-seal_example : verify_package plain (seal plain run_package) ≡ digest_matches
verify_package-seal_example = verify_package-seal plain run_package no_digest_yet

abbrev with_runtime : Json
with_runtime = dict (("runtime", str "3.12") ∷ ("scenario", str "guarded-valid") ∷ [])
