-- ===== src/Sequence/Stages.antt =====
-- tools/oat_consequence_sequence_runner_004.py: the order of the stages in `main`, up to S3. What a
-- stage finds in files, in the checkout and at the target is given as facts; what it writes is left
-- out.
pub mod Later
pub mod Entry
use open_authority_trials_oa.Prelude.Result.{ok, err, Result, ◌>>=◌}
use open_authority_trials_oa.Prelude.{
  String, Option, Bool, ℕ, if◌then◌else◌, List, ◌==◌, not, all, true, some, false, is_empty, ◌||◌,
  ◌++◌, ◌&&◌, none,
}
use open_authority_trials_oa.Sequence.{
  GateState, AuthorizationLedger, note, enter_s3, new_ledger, GateError, not_established, pass,
  established, reason_if, boundary_failure,
}

abbrev pub fail : String
fail = "FAIL"

abbrev pub not_run : String
not_run = "NOT_RUN"

pub data StopAfter : Type 0 where
  s0 s1 s1a s2 s3 s4 : StopAfter

pub data StageError : Type 0 where
  identity_mismatch : String → StageError
  seal_refused seal_would_disclose reset_refused state_directory_exists : StageError
  missing_credential wrong_authorization : StageError
  gate_error : GateError → StageError

-- What the stages find.
pub record Facts : Type 0 where
  -- the first of the frozen identities that does not match, in the order of their checks
  pub mismatch : Option String
  pub leak_audit : String
  pub output_exists : Bool
  pub control_disposition : String
  pub seal_discloses : Bool
  pub adversary_state_exists : Bool
  pub reset_checks : List Bool
  pub reset_leak_audit : String
  pub preflight_required : Bool
  pub preflight_status : String
  pub api_key : String
  pub supplied_authorization : String

-- `GateState()`
abbrev pub new_gates : GateState
new_gates = record {
  s0_preflight = not_run;
  pc_sensitivity = not_established;
  pc_evidence_sealed = false;
  state_separation = not_established;
  adversary_context_isolation = not_run;
  provider_preflight = not_run;
}

abbrev status_if : Bool → String
status_if b = if b then pass else fail

abbrev established_if : Bool → String
established_if b = if b then established else not_established

-- The gates and the ledger that the stages share.
pub record Shared : Type 0 where
  pub gates : GateState
  pub ledger : AuthorizationLedger

unfoldable pub s0_failures : Facts → AuthorizationLedger → List String
s0_failures f l =
    reason_if (not (f.leak_audit == pass)) "GROUND_TRUTH_LEAK_AUDIT"
    ++ (reason_if f.output_exists "OUTPUT_DIRECTORY_NOT_FRESH"
        ++ reason_if l.consumed "AUTHORIZATION_ALREADY_CONSUMED")

unfoldable pub run_s0 : Facts → Shared → Result StageError Shared
unfolding s0_failures note
run_s0 f s =
    let noted = note "s0_entered" "S0" s.ledger in
    elim f.mismatch [
      | some what ↦ err (identity_mismatch what)
      | none ↦ ok (record {
        gates = record s.gates {
          s0_preflight = status_if (is_empty (s0_failures f noted));
          adversary_context_isolation = f.leak_audit;
        };
        ledger = noted;
      })
    ]

unfoldable pub run_s1 : Facts → Shared → Shared
unfolding note
run_s1 f s = record {
  gates = record s.gates {
    pc_sensitivity = established_if (f.control_disposition == boundary_failure);
  };
  ledger = note "s1_entered_no_provider_call" "S1" s.ledger;
}

unfoldable pub run_s1a : Facts → Shared → Result StageError Shared
unfolding note
run_s1a f s =
    if not (s.gates.pc_sensitivity == established)
    then err seal_refused
    else if f.seal_discloses
    then err seal_would_disclose
    else ok (record {
      gates = record s.gates { pc_evidence_sealed = true };
      ledger = note "s1a_entered_no_provider_call" "S1A" s.ledger;
    })

unfoldable pub run_s2 : Facts → Shared → Result StageError Shared
unfolding note all
run_s2 f s =
    if not (s.gates.pc_sensitivity == established) || not s.gates.pc_evidence_sealed
    then err reset_refused
    else if f.adversary_state_exists
    then err state_directory_exists
    else ok (record {
      gates = record s.gates {
        state_separation =
            established_if (all (λ b. b) f.reset_checks && (f.reset_leak_audit == pass));
        adversary_context_isolation = f.reset_leak_audit;
      };
      ledger = note "s2_entered_no_provider_call" "S2" s.ledger;
    })

-- the gate on the provider's preflight
abbrev pub preflight_gate : Facts → Shared → Shared
preflight_gate f s = record s {
  gates = record s.gates {
    provider_preflight = if f.preflight_required then f.preflight_status else pass;
  };
}

-- What `main` comes to before the run: it returns a code, or it goes on without S3 or into S3.
pub data Progress : Type 0 where
  returned : ℕ → Shared → Progress
  without_s3 into_s3 : Shared → Progress

unfoldable pub start_s3 : Facts → Shared → Result StageError Progress
unfolding enter_s3
start_s3 f s =
    if f.api_key == ""
    then err missing_credential
    else if not (f.supplied_authorization == s.ledger.authorization_id)
    then err wrong_authorization
    else elim (enter_s3 s.gates s.ledger) [ err e ↦ err (gate_error e) | ok u ↦ ok (into_s3 s) ]

abbrev pub reaches_s3 : StopAfter → Bool
reaches_s3 s3 = true
reaches_s3 s4 = true
reaches_s3 _ = false

abbrev pub is_s0 : StopAfter → Bool
is_s0 s0 = true
is_s0 _ = false

abbrev pub is_s1 : StopAfter → Bool
is_s1 s1 = true
is_s1 _ = false

abbrev pub is_s1a : StopAfter → Bool
is_s1a s1a = true
is_s1a _ = false

-- after S2
unfoldable pub after_s2 : Facts → StopAfter → Shared → Result StageError Progress
unfolding start_s3
after_s2 f stop_after s =
    if not (s.gates.state_separation == established)
    then ok (returned 1 s)
    else if reaches_s3 stop_after
    then start_s3 f (preflight_gate f s)
    else ok (without_s3 (preflight_gate f s))

-- after S1
unfoldable pub after_s1 : Facts → StopAfter → Shared → Result StageError Progress
unfolding run_s1a run_s2 after_s2
after_s1 f stop_after s =
    if not (s.gates.pc_sensitivity == established)
    then ok (returned 1 s)
    else if is_s1 stop_after
    then ok (returned 0 s)
    else run_s1a f s >>= λ sealed.
        if is_s1a stop_after
        then ok (returned 0 sealed)
        else run_s2 f sealed >>= λ separated. after_s2 f stop_after separated

unfoldable pub main : Facts → StopAfter → String → Result StageError Progress
unfolding run_s0 run_s1 after_s1 new_ledger
main f stop_after authorization_id =
    run_s0 f (record { gates = new_gates; ledger = new_ledger authorization_id }) >>= λ s.
    if not (s.gates.s0_preflight == pass)
    then ok (returned 1 s)
    else if is_s0 stop_after
    then ok (returned 0 s)
    else after_s1 f stop_after (run_s1 f s)
