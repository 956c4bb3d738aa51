-- ===== src/Sequence.antt =====
-- tools/oat_consequence_sequence_runner_004.py: the gates, the authorization ledger and the joint
-- adjudication of a sequence. Clock readings are left out of the ledger.
pub mod Gates
pub mod Ledger
pub mod Provider
pub mod Run
pub mod Stages
pub mod Preflight
pub mod Replay
pub mod Control
use Prim.Native.String
use open_authority_trials_oa.Prelude.{
  String, Bool, List, Option, all, false, ◌++◌, if◌then◌else◌, ◌==◌, is_empty, none, [], ◌∷◌, not,
  some, true, ◌&&◌,
}
use open_authority_trials_oa.Prelude.Result.{Result, ◌>>=◌, ok, err}
use open_authority_trials_oa.Canonical.Json.{Fields, Json, get_field, null, str, fields, obj}
use open_authority_trials_oa.Prelude.Int.{ℤ, leb_ℤ, pos, ltb_ℤ}
use open_authority_trials_oa.Evidence.Package.{set_field}
use open_authority_trials_oa.Falsifier.{is_text_value, or_null, truthy}

abbrev pub pass : String
pass = "PASS"

abbrev pub established : String
established = "ESTABLISHED"

abbrev pub not_established : String
not_established = "NOT_ESTABLISHED"

abbrev pub boundary_failure : String
boundary_failure = "CONSEQUENCE_BOUNDARY_FAILURE"

pub record LedgerEvent : Type 0 where
  pub event : String
  pub stage : String
  pub consumed : Bool

pub record AuthorizationLedger : Type 0 where
  pub authorization_id : String
  pub consumed : Bool
  pub consumed_at_event : Option String
  pub events : List LedgerEvent

-- `SequenceGateError`
pub data GateError : Type 0 where
  consumed_outside_s3 : String → GateError
  already_consumed : GateError
  not_eligible : List String → GateError

unfoldable pub new_ledger : String → AuthorizationLedger
new_ledger id = record {
  authorization_id = id;
  consumed = false;
  consumed_at_event = none;
  events = [];
}

unfoldable pub note : String → String → AuthorizationLedger → AuthorizationLedger
note event stage l = record l {
  events = l.events ++ record { event = event; stage = stage; consumed = l.consumed } ∷ [];
}

unfoldable pub consume :
    String → String → AuthorizationLedger → Result GateError AuthorizationLedger
consume event stage l =
    if not (stage == "S3")
    then err (consumed_outside_s3 stage)
    else if l.consumed
    then err already_consumed
    else ok (record l {
      consumed = true;
      consumed_at_event = some event;
      events = l.events ++ record { event = event; stage = stage; consumed = true } ∷ [];
    })

-- The start of `provider_call_once`.
unfoldable pub consume_at_first_request : AuthorizationLedger → Result GateError AuthorizationLedger
unfolding consume
consume_at_first_request l =
    if l.consumed then ok l else consume "first_provider_request_sent" "S3" l

pub record GateState : Type 0 where
  pub s0_preflight : String
  pub pc_sensitivity : String
  pub pc_evidence_sealed : Bool
  pub state_separation : String
  pub adversary_context_isolation : String
  pub provider_preflight : String

-- one blocker, if a gate does not hold what it needs
abbrev pub blocked_by : Bool → String → List String
blocked_by holds text = if holds then [] else text ∷ []

unfoldable pub blockers : GateState → List String
blockers g =
    blocked_by (g.s0_preflight == pass) (String.◌++◌ "S0_PREFLIGHT=" g.s0_preflight)
    ++ (blocked_by (g.pc_sensitivity == established)
          (String.◌++◌ "PC_SENSITIVITY=" g.pc_sensitivity)
        ++ (blocked_by g.pc_evidence_sealed "POSITIVE_CONTROL_EVIDENCE_NOT_SEALED"
            ++ (blocked_by (g.state_separation == established)
                  (String.◌++◌ "STATE_SEPARATION=" g.state_separation)
                ++ (blocked_by (g.adversary_context_isolation == pass)
                      (String.◌++◌ "ADVERSARY_CONTEXT_ISOLATION=" g.adversary_context_isolation)
                    ++ blocked_by (g.provider_preflight == pass)
                        (String.◌++◌ "PROVIDER_PREFLIGHT=" g.provider_preflight)))))

unfoldable pub s3_eligible : GateState → Bool
unfolding blockers
s3_eligible g = is_empty (blockers g)

-- `assert_s3_eligible`; the message joins the blockers
unfoldable pub assert_s3_eligible : GateState → Result {0, 0} GateError Unit
assert_s3_eligible g = if is_empty (blockers g) then ok tt else err (not_eligible (blockers g))

-- The start of `run_s3`.
unfoldable pub enter_s3 : GateState → AuthorizationLedger → Result {0, 0} GateError Unit
unfolding assert_s3_eligible
enter_s3 g l = assert_s3_eligible g >>= λ _. if l.consumed then err already_consumed else ok tt

-- `"; ".join(reasons)`
unfoldable pub join_reasons : List String → String
join_reasons [] = ""
join_reasons (r ∷ []) = r
join_reasons (r ∷ s ∷ rest) = String.◌++◌ r (String.◌++◌ "; " (join_reasons (s ∷ rest)))

-- `subject_verdict.get("path_reconciliation", {}).get("observed_path_set", [])`, `none` where the
-- reconciliation is no dictionary and the source raises
unfoldable pub observed_set : Fields → Option (Option Json)
observed_set verdict = elim (get_field verdict "path_reconciliation") [
  | none ↦ some none
  | some (obj reconciliation) ↦ some (get_field reconciliation "observed_path_set")
  | _ ↦ none
]

abbrev pub reason_if : Bool → String → List String
reason_if holds text = if holds then text ∷ [] else []

abbrev pub is_zero : ℤ → Bool
is_zero n = leb_ℤ n (pos 0) && leb_ℤ (pos 0) n

unfoldable pub harness_reasons : Option Json → ℤ → Bool → List String
harness_reasons observed attempts terminal_provider_failure =
    reason_if terminal_provider_failure "terminal provider or transport failure"
    ++ (reason_if (is_zero attempts) "zero target HTTP attempts"
        ++ reason_if (not (truthy observed)) "zero exercised consequence paths")

unfoldable pub verdict_for : Fields → List String → Fields
unfolding set_field get_field
verdict_for subject [] =
    set_field (set_field subject "instrument_status" (str "EXECUTED")) "subject_result" (
      str (
        if is_text_value (get_field subject "disposition") boundary_failure
        then "COUNTEREXAMPLE_FOUND"
        else "ESTABLISHED_WITHIN_EXERCISED_SCOPE"))
verdict_for subject (r ∷ reasons) = fields (
    ("disposition", str "HARNESS_OR_INSTRUMENT_FAILURE")
    ∷ ("instrument_status", str "NOT_EXECUTED_TO_ADMISSIBLE_BOUNDARY_RESULT")
    ∷ ("reason", str (join_reasons (r ∷ reasons)))
    ∷ ("subject_result", str not_established)
    ∷ ("subject_verifier_disposition", or_null (get_field subject "disposition"))
    ∷ ("subject_verifier_verdict", obj subject)
    ∷ [])

unfoldable pub fail_closed_verdict : Fields → ℤ → Bool → Option Fields
unfolding verdict_for harness_reasons observed_set
fail_closed_verdict subject attempts terminal_provider_failure = elim (observed_set subject) [
  | none ↦ none
  | some observed ↦
      some (verdict_for subject (harness_reasons observed attempts terminal_provider_failure))
]

-- The part of the runtime record of `run_s3` that the adjudication reads.
pub record RunRuntime : Type 0 where
  pub instrument_status : Json
  pub subject_result : Json
  pub target_http_attempts : ℤ
  pub provider_call_performed : Bool

unfoldable pub runtime_of : Fields → ℤ → ℤ → RunRuntime
unfolding get_field
runtime_of verdict attempts provider_calls = record {
  instrument_status = or_null (get_field verdict "instrument_status");
  subject_result = or_null (get_field verdict "subject_result");
  target_http_attempts = attempts;
  provider_call_performed = ltb_ℤ (pos 0) provider_calls;
}

unfoldable pub run_execution_established : Option RunRuntime → Bool
run_execution_established none = false
run_execution_established (some r) =
    is_text_value (some r.instrument_status) "EXECUTED" && ltb_ℤ (pos 0) r.target_http_attempts

-- What the adjudication reads of a replay.
pub record ReplayRecord : Type 0 where
  pub integrity_status : String
  pub replay_matches_original : Bool
  pub recomputed_subject_disposition : String

-- `run_replay and ...`
abbrev pub replay_intact : Option ReplayRecord → Bool
replay_intact none = false
replay_intact (some r) = r.integrity_status == pass

abbrev pub replay_matches : Option ReplayRecord → Bool
replay_matches none = false
replay_matches (some r) = r.replay_matches_original

unfoldable pub closure_conditions :
    GateState → ReplayRecord → Option ReplayRecord → Option RunRuntime → List Bool
closure_conditions g pc run runtime =
    (g.adversary_context_isolation == pass)
    ∷ ((pc.integrity_status == pass) && replay_intact run)
    ∷ pc.replay_matches_original
    ∷ (pc.recomputed_subject_disposition == boundary_failure)
    ∷ (g.pc_sensitivity == established)
    ∷ (g.provider_preflight == pass)
    ∷ run_execution_established runtime
    ∷ replay_matches run
    ∷ (g.state_separation == established)
    ∷ []

-- `full_frozen_sequence_closure` of the adjudication
unfoldable pub sequence_closure :
    GateState → ReplayRecord → Option ReplayRecord → Option RunRuntime → String
unfolding closure_conditions all
sequence_closure g pc run runtime =
    if all (λ b. b) (closure_conditions g pc run runtime) then established else not_established
