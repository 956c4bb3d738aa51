-- ===== src/Adversary/Search.antt =====
-- oat/pipeline.py, `search`, with oat/adversaries/deterministic.py as its adversary.
use open_authority_trials_oa.Prelude.Result.{ok, err, Result}
use open_authority_trials_oa.Adversary.{propose, AdversaryError, ℕ, List, Variation, []}
use open_authority_trials_oa.ReferenceBoundary.{Scenario, Variation, execute}
use open_authority_trials_oa.Canonical.Digest.{Hashing}
use open_authority_trials_oa.Prelude.{
  ℕ, List, [], ◌≤◌, ◌≡◌, ◌∷◌, ◌⊎◌, ap, inl, subst, Elem, sym, Any-append_right, Any, inr, All-Elem,
  refl,
}
use open_authority_trials_oa.Pipeline.{SearchResult, Adversary, search_candidates}
use open_authority_trials_oa.Canonical.Json.{end}
use open_authority_trials_oa.Adversary.SearchSpace.{OnGrid, propose-OnGrid, propose-OnGrid_iff}
use open_authority_trials_oa.Falsifier.Enforcement.{Fires}
use open_authority_trials_oa.Adversary.Grid.{grid_size}
use open_authority_trials_oa.Adversary.Proposals.{grid}
use open_authority_trials_oa.Pipeline.FirstWins.{search_lem}

-- `search` runs the generator; an error of the generator ends it where it is raised.
abbrev listed : Result AdversaryError (List Variation) → List Variation
listed (ok vs) = vs
listed (err e) = []

unfoldable pub deterministic : ℕ → Adversary
unfolding propose
deterministic max = record { propose = λ s. listed (propose max s); adversary_identity = end }

-- The search ended on a counterexample, or on none.
abbrev pub FoundOne : Scenario → SearchResult → Type 0
FoundOne s r = (v : Variation) × OnGrid s v × Fires s v × (r.selected.trace ≡ execute s v)

-- A search whose proposals are a nonempty list, with a maximum that is positive and no smaller than
-- the grid, returns a result: it holds the trace of a counterexample that the search space allows, or no variation that
-- the search space allows is a counterexample.
pub search-grid :
    (h : Hashing) (max : ℕ) (s : Scenario) (v : Variation) (vs : List Variation)
    → 1 ≤ max
    → propose max s ≡ ok (v ∷ vs)
    → grid_size (grid s) ≤ max
    → (r : SearchResult) × (search_candidates h s (deterministic max) ≡ ok r)
      × (FoundOne s r ⊎ ((w : Variation) → OnGrid s w → ¬ Fires s w))
unfolding deterministic
search-grid h max s v vs positive proposed small =
    let (r, (runs, ended)) = search_lem h s (deterministic max) v vs (ap listed proposed) in
    (
      r,
      runs,
      elim ended [
        | inl f ↦ inl (
          f.winner,
          propose-OnGrid max s (v ∷ vs) positive proposed f.winner
              (subst (Elem f.winner) (sym f.split) (Any-append_right f.before _ (Any.head refl))),
          f.fires,
          f.winner_trace,
        )
        | inr (e, (evaluated, x)) ↦ inr (λ w on.
            All-Elem (λ u. ¬ Fires s u) (v ∷ vs) x.quiet
              ((propose-OnGrid_iff max s (v ∷ vs) positive proposed small w).1 on))
      ],
    )
