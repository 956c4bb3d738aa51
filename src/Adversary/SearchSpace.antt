-- ===== src/Adversary/SearchSpace.antt =====
-- oat/adversaries/deterministic.py: the candidates, as the scenario declares them.
use open_authority_trials_oa.Prelude.Result.{ok, bind-ok, ok_inj}
use open_authority_trials_oa.ReferenceBoundary.{Scenario, Variation}
use open_authority_trials_oa.Adversary.Proposals.{
  grid, candidate_of, values_of, axis, Run, axes_from-ok, axis_lists-grid, propose_from-Run,
}
use open_authority_trials_oa.Prelude.{
  String, List, ◌∷◌, Elem, [], ◌≡◌, ◌↔◌, Elem-sort_by, false, some, subst, refl, sym, ℕ, ◌≤◌,
  length, arith, ◌∙◌, ap,
}
use open_authority_trials_oa.Canonical.Json.{num, Json, bool}
use open_authority_trials_oa.Adversary.{
  variation_at, point_of, Json, pos, int_at, ℤ, [], get_or, to_int, get, repr_before, bool, false,
  truthy, ℕ, propose, axes_of, product, axis_lists, axis_names, dimensions, propose_from,
}
use open_authority_trials_oa.Prelude.Int.{pos, ℤ, ◌+ℤ◌}
use open_authority_trials_oa.Prelude.Dict.{get_or, get}
use open_authority_trials_oa.Falsifier.{truthy}
use open_authority_trials_oa.Adversary.Grid.{
  InGrid, product-InGrid, grid_size, length-product, InGrid-product,
}

-- A dimension takes an integer that its values give.
abbrev pub Takes : Scenario → String → List Json → ℤ → Type 0
Takes s name default n = (j : Json) × Elem j (values_of s name default) × (to_int name j ≡ ok n)

-- A variation that the search space allows.
pub record OnGrid (s : Scenario) (v : Variation) : Type 0 where
  pub check : Takes s "check_tick" (num (pos 10) ∷ []) v.check_tick
  pub revocation : Takes s "revocation_tick" (num (pos 20) ∷ []) v.revocation_tick
  pub commit :
      (n : ℤ) × Takes s "commit_offset" (num (pos 1) ∷ []) n
      × (v.commit_tick ≡ v.revocation_tick +ℤ n)
  pub delay : Takes s "propagation_delay" (num (pos 0) ∷ []) v.propagation_delay
  pub retry : Takes s "retry_index" (num (pos 0) ∷ []) v.retry_index
  pub duplicate :
      (j : Json) × Elem j (values_of s "duplicate_request" (bool false ∷ []))
      × (truthy (some j) ≡ v.duplicate_request)

on_axis :
    (s : Scenario) (name : String) (default : List Json) (j : Json)
    → Elem j (axis s name default) ↔ Elem j (values_of s name default)
unfolding axis
on_axis s name default j = Elem-sort_by repr_before (values_of s name default) j

InGrid-OnGrid :
    (s : Scenario) (c : List Json) (v : Variation)
    → InGrid c (grid s)
    → candidate_of c ≡ ok v
    → OnGrid s v
unfolding grid candidate_of variation_at point_of int_at get_or get
InGrid-OnGrid s [] v g e = absurd g
InGrid-OnGrid s (a ∷ []) v g e = absurd g.1
InGrid-OnGrid s (a ∷ b ∷ []) v g e = absurd g.1.1
InGrid-OnGrid s (a ∷ b ∷ c ∷ []) v g e = absurd g.1.1.1
InGrid-OnGrid s (a ∷ b ∷ c ∷ d ∷ []) v g e = absurd g.1.1.1.1
InGrid-OnGrid s (a ∷ b ∷ c ∷ d ∷ x ∷ []) v g e = absurd g.1.1.1.1.1
InGrid-OnGrid s (a ∷ b ∷ c ∷ d ∷ x ∷ y ∷ z ∷ w) v g e = absurd g.1.1.1.1.1.1
InGrid-OnGrid s (k ∷ o ∷ d ∷ p ∷ t ∷ r ∷ []) v g e =
    let (rn, re, e1) = bind-ok (to_int "revocation_tick" r) _ v e in
    let (kn, ke, e2) = bind-ok (to_int "check_tick" k) _ v e1 in
    let (on, oe, e3) = bind-ok (to_int "commit_offset" o) _ v e2 in
    let (pn, pe, e4) = bind-ok (to_int "propagation_delay" p) _ v e3 in
    let (tn, te, e5) = bind-ok (to_int "retry_index" t) _ v e4 in
    subst (OnGrid s) (ok_inj e5) (record {
      check = (k, (on_axis s "check_tick" (num (pos 10) ∷ []) k).0 g.0, ke);
      revocation = (r, (on_axis s "revocation_tick" (num (pos 20) ∷ []) r).0 g.1.1.1.1.1.0, re);
      commit = (on, (o, (on_axis s "commit_offset" (num (pos 1) ∷ []) o).0 g.1.0, oe), refl);
      delay = (p, (on_axis s "propagation_delay" (num (pos 0) ∷ []) p).0 g.1.1.1.0, pe);
      retry = (t, (on_axis s "retry_index" (num (pos 0) ∷ []) t).0 g.1.1.1.1.0, te);
      duplicate = (d, (on_axis s "duplicate_request" (bool false ∷ []) d).0 g.1.1.0, refl);
    })

-- The values that give a variation are a combination of the grid.
OnGrid-InGrid :
    (s : Scenario) (v : Variation)
    → OnGrid s v
    → (c : List Json) × InGrid c (grid s) × (candidate_of c ≡ ok v)
unfolding grid candidate_of variation_at point_of int_at get_or get
OnGrid-InGrid s v g =
    let (k, km, ke) = g.check in
    let (r, rm, re) = g.revocation in
    let (n, (o, om, oe), ce) = g.commit in
    let (p, pm, pe) = g.delay in
    let (t, tm, te) = g.retry in
    let (d, dm, de) = g.duplicate in
    (
      k ∷ o ∷ d ∷ p ∷ t ∷ r ∷ [],
      (
        (on_axis s "check_tick" (num (pos 10) ∷ []) k).1 km,
        (
          (on_axis s "commit_offset" (num (pos 1) ∷ []) o).1 om,
          (
            (on_axis s "duplicate_request" (bool false ∷ []) d).1 dm,
            (
              (on_axis s "propagation_delay" (num (pos 0) ∷ []) p).1 pm,
              (
                (on_axis s "retry_index" (num (pos 0) ∷ []) t).1 tm,
                ((on_axis s "revocation_tick" (num (pos 20) ∷ []) r).1 rm, tt),
              ),
            ),
          ),
        ),
      ),
      rw (re, ke, oe, pe, te, de, sym ce) refl,
    )

module _ (max : ℕ) (s : Scenario) (vs : List Variation) (positive : 1 ≤ max)
    (proposed : propose max s ≡ ok vs) where
  run : Run max 1 (product (grid s)) vs
  unfolding propose axes_of
  run =
      let (axes, found, walked) = bind-ok (axes_of s) _ vs proposed in
      let lists : axis_lists axes axis_names ≡ grid s =
        ap (λ a. axis_lists a axis_names) (axes_from-ok s.search_space dimensions axes found)
        ∙ axis_lists-grid s in
      propose_from-Run max 1 (product (grid s)) vs
        (subst (λ ls. propose_from max 1 (product ls) ≡ ok vs) lists walked)

  -- The adversary never proposes more candidates than its maximum; when the grid is no larger than
  -- the maximum, it proposes exactly one candidate for each point of the grid.
  pub propose_bounds :
      (length vs ≤ max) × (grid_size (grid s) ≤ max → length vs ≡ grid_size (grid s))
  propose_bounds = (
    omega (arith, run.bounded positive),
    λ h. run.whole (omega (arith, h, length-product (grid s))) ∙ length-product (grid s),
  )

  -- Every candidate is a variation that the scenario's search space allows.
  pub propose-OnGrid : (v : Variation) → Elem v vs → OnGrid s v
  propose-OnGrid v m =
      let (c, at, e) = run.sound v m in InGrid-OnGrid s c v (product-InGrid (grid s) c at) e

  -- When the adversary proposes a list, and its maximum is positive and no smaller than the grid,
  -- the candidates are exactly the variations that the scenario's search space allows.
  pub propose-OnGrid_iff : grid_size (grid s) ≤ max → (v : Variation) → Elem v vs ↔ OnGrid s v
  propose-OnGrid_iff small v = (
    propose-OnGrid v,
    λ g.
        let (c, on, e) = OnGrid-InGrid s v g in
        let (w, f, m) =
          run.complete (omega (arith, small, length-product (grid s))) c
            (InGrid-product (grid s) c on) in
        subst (λ x. Elem x vs) (ok_inj (sym f ∙ e)) m,
  )
