-- ===== src/Sequence/Stages/Later.antt =====
-- tools/oat_consequence_sequence_runner_004.py: `main` from S1 on.
use native.Mathlib.Omega.{arith}
use open_authority_trials_oa.Prelude.Result.{ok, err, Result}
use open_authority_trials_oa.Sequence.Stages.{
  Shared, start_s3, StageError, Bool, enter_s3, Progress, into_s3, Facts, returned, without_s3,
  after_s2, StopAfter, after_s1, reaches_s3, run_s1a, preflight_gate, run_s2, established_if, is_s1,
  is_s1a, s0, s1, s1a, s2, s3, s4,
}
use open_authority_trials_oa.Prelude.{
  Bool, ◌==◌, true, ◌&&◌, ◌≡◌, false, not, all, if◌then◌else◌, String, ◌∙◌, Bool-cases, inr, ◌⊎◌,
  inl, refl, ap,
}
use open_authority_trials_oa.Sequence.{
  enter_s3, assert_s3_eligible, pass, blockers, established, note,
}

-- Whether the run is entered.
abbrev pub entered : Result StageError Progress → Bool
entered (ok (into_s3 s)) = true
entered (ok (returned n s)) = false
entered (ok (without_s3 s)) = false
entered (err e) = false

-- The gates, as one test.
abbrev open_gates : Shared → Bool
open_gates s =
    s.gates.s0_preflight == pass
    && (s.gates.pc_sensitivity == established
        && (s.gates.pc_evidence_sealed
            && (s.gates.state_separation == established
                && (s.gates.adversary_context_isolation == pass
                    && (s.gates.provider_preflight == pass && not s.ledger.consumed)))))

start_s3-entered :
    (f : Facts) (s : Shared)
    → entered (start_s3 f s) ≡ (
        not (f.api_key == "")
        && (f.supplied_authorization == s.ledger.authorization_id && open_gates s))
unfolding start_s3 enter_s3 assert_s3_eligible blockers
start_s3-entered f s = ground arith

after_s2-entered :
    (f : Facts) (stop : StopAfter) (s : Shared)
    → entered (after_s2 f stop s) ≡ (
        s.gates.state_separation == established
        && (reaches_s3 stop && entered (start_s3 f (preflight_gate f s))))
unfolding after_s2
after_s2-entered f stop s = ground arith

abbrev pub preflight_passes : Facts → Bool
preflight_passes f = if f.preflight_required then f.preflight_status == pass else true

unfoldable pub separates : Facts → Bool
unfolding all
separates f = all (λ b. b) f.reset_checks && (f.reset_leak_audit == pass)

-- From S1 on, with the gates that S0 and S1 have set.
unfoldable pub late_facts : Facts → StopAfter → String → Bool
unfolding separates
late_facts f stop id =
    not f.seal_discloses
    && (not f.adversary_state_exists
        && (separates f
            && (preflight_passes f
                && (reaches_s3 stop && (not (f.api_key == "") && f.supplied_authorization == id)))))

-- What S1A and S2 leave of a state.
unfoldable pub separated : Facts → Shared → Shared
unfolding separates note
separated f s = record {
  gates = record s.gates {
    pc_evidence_sealed = true;
    state_separation = established_if (separates f);
    adversary_context_isolation = f.reset_leak_audit;
  };
  ledger =
      note "s2_entered_no_provider_call" "S2" (note "s1a_entered_no_provider_call" "S1A" s.ledger);
}

reaches-cases :
    (stop : StopAfter)
    → (is_s1 stop ≡ false) × (is_s1a stop ≡ false) × (reaches_s3 stop ≡ true)
      ⊎ (reaches_s3 stop ≡ false)
reaches-cases s0 = inr refl
reaches-cases s1 = inr refl
reaches-cases s1a = inr refl
reaches-cases s2 = inr refl
reaches-cases s3 = inl (refl, refl, refl)
reaches-cases s4 = inl (refl, refl, refl)

after_s1-passed :
    (f : Facts) (stop : StopAfter) (s : Shared)
    → (s.gates.pc_sensitivity == established) ≡ true
    → entered (after_s1 f stop s) ≡ (
        not (is_s1 stop)
        && (not f.seal_discloses
            && (not (is_s1a stop)
                && (not f.adversary_state_exists && entered (after_s2 f stop (separated f s))))))
unfolding after_s1 run_s1a run_s2 separated separates
after_s1-passed f stop s e = ground arith

pub established_if-test : (b : Bool) → (established_if b == established) ≡ b
established_if-test true = refl
established_if-test false = refl

and_right : (a b : Bool) → (a && b) ≡ true → b ≡ true
and_right a b h = ground arith

separates-audit : (f : Facts) → separates f ≡ true → (f.reset_leak_audit == pass) ≡ true
unfolding separates
separates-audit f e = and_right (all (λ b. b) f.reset_checks) (f.reset_leak_audit == pass) e

open_but_preflight :
    (s : Shared)
    → s.ledger.consumed ≡ false
    → (s.gates.s0_preflight == pass) ≡ true
    → (s.gates.pc_sensitivity == established) ≡ true
    → s.gates.pc_evidence_sealed ≡ true
    → (s.gates.state_separation == established) ≡ true
    → (s.gates.adversary_context_isolation == pass) ≡ true
    → open_gates s ≡ (s.gates.provider_preflight == pass)
open_but_preflight s a b c d e g = ground arith

preflight_gate-passes :
    (f : Facts) (s : Shared)
    → ((preflight_gate f s).gates.provider_preflight == pass) ≡ preflight_passes f
preflight_gate-passes f s = elim (Bool-cases f.preflight_required) [
  | inl e ↦ rw e refl
  | inr e ↦ rw e refl
]

and_swap : (a b c : Bool) → (not a && (b && c)) ≡ (c && (not a && b))
and_swap a b c = ground arith

start_s3-separated :
    (f : Facts) (s : Shared)
    → s.ledger.consumed ≡ false
    → (s.gates.s0_preflight == pass) ≡ true
    → (s.gates.pc_sensitivity == established) ≡ true
    → (established_if (separates f) == established) ≡ true
    → (f.reset_leak_audit == pass) ≡ true
    → entered (start_s3 f (preflight_gate f (separated f s))) ≡ (
        preflight_passes f
        && (not (f.api_key == "") && f.supplied_authorization == s.ledger.authorization_id))
unfolding separated note
start_s3-separated f s fresh checked sensitive apart audit =
    start_s3-entered f (preflight_gate f (separated f s))
    ∙ ap
        (λ b. not (f.api_key == "") && (f.supplied_authorization == s.ledger.authorization_id && b))
        (open_but_preflight (preflight_gate f (separated f s)) fresh checked sensitive refl apart
            audit
          ∙ preflight_gate-passes f (separated f s))
    ∙ and_swap (f.api_key == "") (f.supplied_authorization == s.ledger.authorization_id)
        (preflight_passes f)

separated-entered :
    (f : Facts) (stop : StopAfter) (s : Shared)
    → s.ledger.consumed ≡ false
    → (s.gates.s0_preflight == pass) ≡ true
    → (s.gates.pc_sensitivity == established) ≡ true
    → entered (after_s2 f stop (separated f s)) ≡ (
        separates f
        && (preflight_passes f
            && (reaches_s3 stop
                && (not (f.api_key == "")
                    && f.supplied_authorization == s.ledger.authorization_id))))
separated-entered f stop s fresh checked sensitive = elim (Bool-cases (separates f)) [
  | inr e ↦
      after_s2-entered f stop (separated f s)
      ∙ (unfold separated in rw (established_if-test (separates f), e) refl)
  | inl e ↦
      let apart = established_if-test (separates f) ∙ e in
      let started = start_s3-separated f s fresh checked sensitive apart (separates-audit f e) in
      after_s2-entered f stop (separated f s)
      ∙ (unfold separated in rw (apart, started, e) (ground arith))
]

pub after_s1-entered :
    (f : Facts) (stop : StopAfter) (s : Shared)
    → s.ledger.consumed ≡ false
    → (s.gates.s0_preflight == pass) ≡ true
    → entered (after_s1 f stop s)
      ≡ (s.gates.pc_sensitivity == established && late_facts f stop s.ledger.authorization_id)
unfolding late_facts
after_s1-entered f stop s fresh checked =
    elim (Bool-cases (s.gates.pc_sensitivity == established)) [
      | inr e ↦ unfold after_s1 in ground arith
      | inl e ↦ elim (reaches-cases stop) [
        | inl (a, b, c) ↦
            after_s1-passed f stop s e ∙ ground (arith, separated-entered f stop s fresh checked e)
        | inr c ↦
            after_s1-passed f stop s e ∙ ground (arith, separated-entered f stop s fresh checked e)
      ]
    ]
