-- ===== src/Trial/Dispositions.antt =====
-- oat/trial.py: which attack attempt gets which disposition.
use native.Mathlib.Omega.{arith}
use open_authority_trials_oa.Prelude.{
  all, contains, String, List, ◌==◌, ◌≡◌, Bool, ltb, true, false, length, ◌∷◌, false≢true, [], sym,
  eq_iff, not, Bool-cases, refl, inl, inr, ◌∙◌, Option, ◌↔◌, if◌then◌else◌, ap,
}
use open_authority_trials_oa.Trial.{
  VerifierResult, set_of, computed_of, decide, downgrade, disposition_for, AdversaryAssertion,
  TrialScope, Disposition, counterexample_validated, Reasoning, BudgetState,
  disposition_counterexample, disposition_rejected, covers, verifier_conflict, not_a_counterexample,
  outside_scope, is_limited,
}
use open_authority_trials_oa.Paths.{set_of}
use open_authority_trials_oa.Consequence.Sink.{add_text}
use open_authority_trials_oa.Paths.Reconcile.{contains-set_of}

one_of : (x : String) (ys : List String) → all (λ y. y == x) ys ≡ true → set_of (x ∷ ys) ≡ x ∷ []
unfolding all set_of add_text contains
one_of x [] same = refl
one_of x (y ∷ ys) same =
    let e : y ≡ x = ground (arith, same, eq_iff y x) in
    let rest : set_of (x ∷ ys) ≡ x ∷ [] = one_of x ys (ground (arith, same)) in
    rw (e, rest) (ground (arith, eq_iff x x))

differing :
    (x : String) (ys : List String)
    → all (λ y. y == x) ys ≡ false
    → (y : String) × ((contains ys y ≡ true) × ((y == x) ≡ false))
unfolding all contains
differing x [] f = absurd (false≢true (sym f))
differing x (y ∷ ys) f = elim (Bool-cases (y == x)) [
  | inl t ↦
      let (z, (there, other)) = differing x ys (ground (arith, f, t)) in
      (z, (ground (arith, there), other))
  | inr n ↦ (y, (ground (arith, eq_iff y y), n))
]

two_members :
    (xs : List String) (x y : String)
    → contains xs x ≡ true
    → contains xs y ≡ true
    → (y == x) ≡ false
    → ltb 1 (length xs) ≡ true
unfolding contains
two_members [] x y a b n = absurd (false≢true a)
two_members (z ∷ []) x y a b n = ground (arith, eq_iff z x, eq_iff z y, eq_iff y x)
two_members (z ∷ w ∷ xs) x y a b n = ground arith

-- Whether all verdicts are the first one.
abbrev pub agree : VerifierResult → List VerifierResult → Bool
agree first rest = all (λ d. d == first.disposition) (computed_of rest)

conflict-agree :
    (first : VerifierResult) (rest : List VerifierResult)
    → ltb 1 (length (set_of (computed_of (first ∷ rest)))) ≡ not (agree first rest)
unfolding contains
conflict-agree first rest = elim (Bool-cases (agree first rest)) [
  | inl t ↦ rw (t, one_of first.disposition (computed_of rest) t) refl
  | inr f ↦
      let x = first.disposition in
      let ds = x ∷ computed_of rest in
      let (y, (there, other)) = differing x (computed_of rest) f in
      rw f (
        two_members (set_of ds) x y (contains-set_of ds x ∙ ground (arith, eq_iff x x))
          (contains-set_of ds y ∙ ground (arith, there)) other)
]

-- The decision, with the test on the set of verdicts written as agreement.
decide-cascade :
    (a : AdversaryAssertion) (first : VerifierResult) (rest : List VerifierResult)
    (scope : TrialScope) (budget : Option BudgetState)
    → (decide a first rest scope budget).0 ≡ (
        if not (covers scope a.property_id)
        then outside_scope
        else if not (agree first rest)
        then verifier_conflict
        else (downgrade (disposition_for first.disposition (first ∷ rest)) budget scope).0)
unfolding decide
decide-cascade a first rest scope budget = rw (sym (conflict-agree first rest)) (ground arith)

downgrade-validated_iff :
    (d : Disposition × Reasoning) (budget : Option BudgetState) (scope : TrialScope)
    → ((downgrade d budget scope).0 ≡ counterexample_validated) ↔ (d.0 ≡ counterexample_validated)
unfolding downgrade
downgrade-validated_iff d budget scope = (λ e. ground arith, λ e. ground arith)

disposition_for-validated_iff :
    (verdict : String) (results : List VerifierResult)
    → ((disposition_for verdict results).0 ≡ counterexample_validated)
      ↔ (verdict ≡ disposition_counterexample)
unfolding disposition_for
disposition_for-validated_iff verdict results = (
  λ e.
      ground
        (arith, eq_iff verdict disposition_counterexample, eq_iff verdict disposition_rejected),
  λ e.
      ground
        (arith, eq_iff verdict disposition_counterexample, ap (λ t. t == disposition_rejected) e),
)

module _ (a : AdversaryAssertion) (first : VerifierResult) (rest : List VerifierResult)
    (scope : TrialScope) (budget : Option BudgetState) where
  -- An attempt is a validated counterexample exactly when its property is in the frozen scope and
  -- every verifier result confirms the counterexample, whatever the adversary asserts and whatever
  -- the budget is.
  pub decide-validated_iff : ((decide a first rest scope budget).0 ≡ counterexample_validated) ↔ (
      (covers scope a.property_id ≡ true)
      × ((first.disposition ≡ disposition_counterexample) × (agree first rest ≡ true)))
  decide-validated_iff =
      let cascade = decide-cascade a first rest scope budget in
      let found = disposition_for first.disposition (first ∷ rest) in
      let (i, j) = downgrade-validated_iff found budget scope in
      let (k, l) = disposition_for-validated_iff first.disposition (first ∷ rest) in
      (λ e. ground (arith, cascade, i, j, k, l), λ (c, (v, s)). ground (arith, cascade, i, j, k, l))

  -- An attempt is a conflict exactly when its property is in scope and two verdicts differ.
  pub decide-conflict_iff :
      ((decide a first rest scope budget).0 ≡ verifier_conflict)
      ↔ ((covers scope a.property_id ≡ true) × (agree first rest ≡ false))
  unfolding downgrade disposition_for
  decide-conflict_iff =
      let cascade = decide-cascade a first rest scope budget in
      (λ e. ground (arith, cascade), λ (c, s). ground (arith, cascade))

  -- An attempt reads as clean exactly when its property is in scope, the verdicts agree on one
  -- that neither rejects nor confirms, and the budget, if there is one, neither is exhausted nor
  -- leaves a declared attack family untested.
  pub decide-negative_iff : ((decide a first rest scope budget).0 ≡ not_a_counterexample) ↔ (
      (covers scope a.property_id ≡ true)
      × ((agree first rest ≡ true)
          × (((first.disposition == disposition_rejected) ≡ false)
              × (((first.disposition == disposition_counterexample) ≡ false)
                  × (is_limited budget scope ≡ false)))))
  unfolding downgrade disposition_for
  decide-negative_iff =
      let cascade = decide-cascade a first rest scope budget in
      (λ e. ground (arith, cascade), λ (c, (s, (r, (v, l)))). ground (arith, cascade))
