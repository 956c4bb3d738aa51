-- ===== src/Pipeline/FirstWins.antt =====
-- oat/pipeline.py: which candidate the search selects.
use open_authority_trials_oa.ReferenceBoundary.{Scenario, Variation, execute}
use open_authority_trials_oa.Prelude.{
  ℕ, List, ◌≡◌, All, ◌++◌, ◌∷◌, length, ◌+◌, [], arith, Option, ◌⊎◌, suc, refl, inl, ap, true,
  false, inr, some, Bool-cases, ◌∙◌, none,
}
use open_authority_trials_oa.Pipeline.{
  Selected, Variation, SearchResult, execute, [], Hashing, search_from, Candidate, Option,
  Evaluation, suc, ok, keep_first, select, some, candidate, search_candidates, Adversary, none,
}
use open_authority_trials_oa.Falsifier.Enforcement.{Fires, quiet-not_Fires, evaluate-execute}
use open_authority_trials_oa.Canonical.Digest.{Hashing}
use open_authority_trials_oa.Falsifier.{Evaluation, evaluate}
use open_authority_trials_oa.Prelude.Result.{ok}

-- The search stopped at a candidate that fires, and none before it does.
pub record FoundAt (s : Scenario) (i : ℕ) (n : ℕ) (vs : List Variation) (r : SearchResult)
    : Type 0 where
  pub before : List Variation
  pub winner : Variation
  pub after : List Variation
  pub split : vs ≡ before ++ winner ∷ after
  pub quiet : All (λ v. ¬ Fires s v) before
  pub fires : Fires s winner
  pub winner_trace : r.selected.trace ≡ execute s winner
  pub winner_index : r.selected.selected_index ≡ i + length before
  pub explored : length r.transcript ≡ n + length before + 1

-- The search went through all candidates, and none of them fires.
pub record Exhausted (s : Scenario) (n : ℕ) (kept : Selected) (vs : List Variation)
    (r : SearchResult) : Type 0 where
  pub quiet : All (λ v. ¬ Fires s v) vs
  pub retained : r.selected ≡ kept
  pub explored : length r.transcript ≡ n + length vs

length-snoc : {A : Type 0} (xs : List A) (x : A) → length (xs ++ x ∷ []) ≡ length xs + 1
length-snoc [] x = refl
length-snoc (y ∷ xs) x = ground (arith, length-snoc xs x)

module _ (h : Hashing) (s : Scenario) where
  stops :
      (i : ℕ) (first : Option Selected) (t : List Candidate) (v : Variation) (vs : List Variation)
      (e : Evaluation)
      → evaluate (execute s v) ≡ ok e
      → e.counterexample ≡ true
      → search_from h s i first t (v ∷ vs)
        ≡ ok (record { selected = select s i v e; transcript = t ++ candidate h s i v e ∷ [] })
  unfolding search_from
  stops i first t v vs e evaluated holds = rw (search_from, evaluated, holds) refl

  continues :
      (i : ℕ) (first : Option Selected) (t : List Candidate) (v : Variation) (vs : List Variation)
      (e : Evaluation)
      → evaluate (execute s v) ≡ ok e
      → e.counterexample ≡ false
      → search_from h s i first t (v ∷ vs)
        ≡ search_from h s
            (suc i)
            (some (keep_first first (select s i v e)))
            (t ++ candidate h s i v e ∷ [])
            vs
  unfolding search_from
  continues i first t v vs e evaluated fails = rw (search_from, evaluated, fails) refl

  -- The two ways in which a search can end, from a position on.
  abbrev Ended : ℕ → List Candidate → Selected → List Variation → SearchResult → Type 0
  Ended i t kept vs r = FoundAt s i (length t) vs r ⊎ Exhausted s (length t) kept vs r

  found_later :
      (i : ℕ) (t : List Candidate) (c : Candidate) (kept : Selected) (v : Variation)
      (vs : List Variation) (r : SearchResult)
      → ¬ Fires s v
      → Ended (suc i) (t ++ c ∷ []) kept vs r
      → Ended i t kept (v ∷ vs) r
  found_later i t c kept v vs r quiet (inl f) = inl (record {
    before = v ∷ f.before;
    winner = f.winner;
    after = f.after;
    split = ap (λ xs. v ∷ xs) f.split;
    quiet = (quiet, f.quiet);
    fires = f.fires;
    winner_trace = f.winner_trace;
    winner_index = ground (arith, f.winner_index);
    explored = ground (arith, f.explored, length-snoc t c);
  })
  found_later i t c kept v vs r quiet (inr x) = inr (record {
    quiet = (quiet, x.quiet);
    retained = x.retained;
    explored = ground (arith, x.explored, length-snoc t c);
  })

  found_here :
      (i : ℕ) (t : List Candidate) (kept : Selected) (v : Variation) (vs : List Variation)
      (e : Evaluation)
      → evaluate (execute s v) ≡ ok e
      → e.counterexample ≡ true
      → Ended i t kept
          (v ∷ vs)
          (record { selected = select s i v e; transcript = t ++ candidate h s i v e ∷ [] })
  unfolding Fires
  found_here i t kept v vs e evaluated holds = inl (record {
    before = [];
    winner = v;
    after = vs;
    split = refl;
    quiet = tt;
    fires = (e, (evaluated, holds));
    winner_trace = refl;
    winner_index = ground arith;
    explored = ground (arith, length-snoc t (candidate h s i v e));
  })

  ends :
      (i : ℕ) (kept : Selected) (t : List Candidate)
      → search_from h s i (some kept) t [] ≡ ok (record { selected = kept; transcript = t })
  unfolding search_from
  ends i kept t = refl

  search_from_lem :
      (vs : List Variation) (i : ℕ) (first : Option Selected) (t : List Candidate) (v : Variation)
      (e : Evaluation)
      → evaluate (execute s v) ≡ ok e
      → (r : SearchResult) × ((search_from h s i first t (v ∷ vs) ≡ ok r)
          × Ended i t (keep_first first (select s i v e)) (v ∷ vs) r)
  search_from_lem [] i first t v e evaluated = elim (Bool-cases e.counterexample) [
    | inl holds ↦ (
      _,
      (
        stops i first t v [] e evaluated holds,
        found_here i t (keep_first first (select s i v e)) v [] e evaluated holds,
      ),
    )
    | inr fails ↦
        let kept = keep_first first (select s i v e) in
        let explored = t ++ candidate h s i v e ∷ [] in
        (
          _,
          (
            continues i first t v [] e evaluated fails ∙ ends (suc i) kept explored,
            inr (record {
              quiet = (quiet-not_Fires s v e evaluated fails, tt);
              retained = refl;
              explored = length-snoc t (candidate h s i v e);
            }),
          ),
        )
  ]
  search_from_lem (w ∷ ws) i first t v e evaluated = elim (Bool-cases e.counterexample) [
    | inl holds ↦ (
      _,
      (
        stops i first t v (w ∷ ws) e evaluated holds,
        found_here i t (keep_first first (select s i v e)) v (w ∷ ws) e evaluated holds,
      ),
    )
    | inr fails ↦
        let kept = keep_first first (select s i v e) in
        let new = candidate h s i v e in
        let (d, (next, _)) = evaluate-execute s w in
        let (r, (runs, ended)) = search_from_lem ws (suc i) (some kept) (t ++ new ∷ []) w d next in
        (
          r,
          (
            continues i first t v (w ∷ ws) e evaluated fails ∙ runs,
            found_later i t new kept v (w ∷ ws) r (quiet-not_Fires s v e evaluated fails) ended,
          ),
        )
  ]

  -- A search in which the adversary proposes at least one candidate returns a result. Either it
  -- stopped at the first candidate that is a counterexample, with its trace and its index, and the
  -- transcript has the candidates up to it; or no candidate is a counterexample, the transcript has
  -- all of them, and the first candidate is the one retained.
  pub search_lem :
      (a : Adversary) (v : Variation) (vs : List Variation)
      → a.propose s ≡ v ∷ vs
      → (r : SearchResult) × ((search_candidates h s a ≡ ok r)
          × (FoundAt s 0 0 (v ∷ vs) r
              ⊎ ((e : Evaluation) × ((evaluate (execute s v) ≡ ok e)
                    × Exhausted s 0 (select s 0 v e) (v ∷ vs) r))))
  unfolding search_candidates
  search_lem a v vs proposed =
      let (e, (evaluated, _)) = evaluate-execute s v in
      let (r, (runs, ended)) = search_from_lem vs 0 none [] v e evaluated in
      (r, (rw proposed runs, elim ended [ inl f ↦ inl f | inr x ↦ inr (e, (evaluated, x)) ]))
