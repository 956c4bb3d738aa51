-- ===== src/Adversary/Proposals.antt =====
-- oat/adversaries/deterministic.py: the candidates as points of the scenario's search space.
use native.Mathlib.Omega.{arith}
use open_authority_trials_oa.Prelude.Result.{ok, Result, ok_inj, bind-ok, err-ne-ok}
use open_authority_trials_oa.Adversary.{
  variation_at, propose_from, point_of, List, Json, Result, Variation, AdversaryError, axis_names,
  ◌∷◌, leb, [], suc, axes_from, axis_lists, get_or, Scenario, sort_by, Dict, String, num, get,
  repr_before, dimensions, is_empty, pos, bool, false,
}
use open_authority_trials_oa.Prelude.{
  ℕ, List, Elem, ◌≡◌, ◌≤◌, subst, length, ◌+◌, Bool-cases, leb, inl, [], Any, ◌∙◌, ap, sym, inr,
  suc, refl, sort_by, String, is_empty, false,
}
use open_authority_trials_oa.Canonical.Json.{Json, num, bool}
use open_authority_trials_oa.ReferenceBoundary.{Variation, Scenario}
use open_authority_trials_oa.Prelude.Dict.{get_or, Dict, get}
use open_authority_trials_oa.Prelude.Int.{pos}

unfoldable pub candidate_of : List Json → Result AdversaryError Variation
unfolding variation_at point_of
candidate_of c = variation_at (point_of axis_names c)

-- What the loop has proposed of the combinations from a position on.
pub record Run (max emitted : ℕ) (cs : List (List Json)) (vs : List Variation) : Type 0 where
  pub sound : (v : Variation) → Elem v vs → (c : List Json) × Elem c cs × (candidate_of c ≡ ok v)
  pub bounded : emitted ≤ max → length vs + emitted ≤ max + 1
  pub whole : length cs + emitted ≤ max + 1 → length vs ≡ length cs
  pub complete :
      length cs + emitted ≤ max + 1
      → (c : List Json) → Elem c cs
      → (v : Variation) × (candidate_of c ≡ ok v) × Elem v vs

Elem-length : {A : Type 0} {a : A} (xs : List A) → Elem a xs → 1 ≤ length xs
Elem-length [] m = elim m [ ]
Elem-length (x ∷ xs) m = ground arith

pub propose_from-Run :
    (max emitted : ℕ) (cs : List (List Json)) (vs : List Variation)
    → propose_from max emitted cs ≡ ok vs
    → Run max emitted cs vs
unfolding propose_from candidate_of
propose_from-Run max emitted [] vs e = subst (Run max emitted []) (ok_inj e) (record {
  sound = λ v m. elim m [ ];
  bounded = λ h. ground arith;
  whole = λ h. refl;
  complete = λ h c m. elim m [ ];
})
propose_from-Run max emitted (c ∷ cs) vs e =
    let (v, proposed, next) = bind-ok (variation_at (point_of axis_names c)) _ vs e in
    elim (Bool-cases (leb max emitted)) [
      | inl last ↦
          let single : v ∷ [] ≡ vs = ok_inj (rw last at next) in
          subst (Run max emitted (c ∷ cs)) single (record {
            sound = λ w m. elim m [
              | Any.head p ↦ (c, Any.head refl, proposed ∙ ap ok (sym p))
              | Any.tail n ↦ elim n [ ]
            ];
            bounded = λ h. ground arith;
            whole = λ h. ground arith;
            complete = λ h d m. elim m [
              | Any.head p ↦ (v, subst (λ x. candidate_of x ≡ ok v) (sym p) proposed, Any.head refl)
              | Any.tail n ↦ absurd (ground (arith, Elem-length cs n))
            ];
          })
      | inr more ↦
          let (ws, rest, listed) =
            bind-ok (propose_from max (suc emitted) cs) _ vs (rw more at next) in
          let run = propose_from-Run max (suc emitted) cs ws rest in
          subst (Run max emitted (c ∷ cs)) (ok_inj listed) (record {
            sound = λ w m. elim m [
              | Any.head p ↦ (c, Any.head refl, proposed ∙ ap ok (sym p))
              | Any.tail n ↦ let (d, at, q) = run.sound w n in (d, Any.tail at, q)
            ];
            bounded = λ h. ground (arith, run.bounded);
            whole = λ h. ground (arith, run.whole);
            complete = λ h d m. elim m [
              | Any.head p ↦ (v, subst (λ x. candidate_of x ≡ ok v) (sym p) proposed, Any.head refl)
              | Any.tail n ↦ let (w, q, at) = run.complete (ground arith) d n in (w, q, Any.tail at)
            ];
          })
    ]

-- The axes, when no dimension is empty.
unfoldable pub sorted_axes : Dict (List Json) → List (String × List Json) → Dict (List Json)
unfolding get_or sort_by
sorted_axes space [] = []
sorted_axes space ((name, default) ∷ names) =
    (name, sort_by repr_before (get_or space name default)) ∷ sorted_axes space names

pub axes_from-ok :
    (space : Dict (List Json)) (names : List (String × List Json)) (axes : Dict (List Json))
    → axes_from space names ≡ ok axes
    → axes ≡ sorted_axes space names
unfolding axes_from sorted_axes
axes_from-ok space [] axes e = sym (ok_inj e)
axes_from-ok space ((name, default) ∷ names) axes e =
    elim (Bool-cases (is_empty (get_or space name default))) [
      | inl none_there ↦ absurd (err-ne-ok (rw none_there at e))
      | inr some_there ↦
          let (rest, found, listed) = bind-ok (axes_from space names) _ axes (rw some_there at e) in
          sym (ok_inj listed)
          ∙ ap (λ xs. (name, sort_by repr_before (get_or space name default)) ∷ xs)
              (axes_from-ok space names rest found)
    ]

-- The values that a scenario's search space gives a dimension.
unfoldable pub values_of : Scenario → String → List Json → List Json
unfolding get_or
values_of s name default = get_or s.search_space name default

unfoldable pub axis : Scenario → String → List Json → List Json
unfolding values_of
axis s name default = sort_by repr_before (values_of s name default)

-- The lists of the product, in the order of the names.
unfoldable pub grid : Scenario → List (List Json)
unfolding axis
grid s =
    axis s "check_tick" (num (pos 10) ∷ [])
    ∷ axis s "commit_offset" (num (pos 1) ∷ [])
    ∷ axis s "duplicate_request" (bool false ∷ [])
    ∷ axis s "propagation_delay" (num (pos 0) ∷ [])
    ∷ axis s "retry_index" (num (pos 0) ∷ [])
    ∷ axis s "revocation_tick" (num (pos 20) ∷ [])
    ∷ []

pub axis_lists-grid :
    (s : Scenario) → axis_lists (sorted_axes s.search_space dimensions) axis_names ≡ grid s
unfolding axis_lists sorted_axes get_or grid axis values_of get
axis_lists-grid s = refl
