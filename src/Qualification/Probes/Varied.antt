-- ===== src/Qualification/Probes/Varied.antt =====
-- oat/qualification/probes.py, `materially_varied_dimensions`.
use open_authority_trials_oa.Prelude.{
  ap, ◌∙◌, if◌then◌else◌, String, Bool, List, ◌∷◌, [], any, ◌==◌, ◌&&◌, ◌||◌, contains, ◌≡◌,
  Bool-cases, inl, inr, eq_iff, false,
}
use open_authority_trials_oa.Prelude.Dict.{Dict}
use open_authority_trials_oa.Consequence.Sink.{add_text}
use open_authority_trials_oa.Paths.Reconcile.{contains-add_text}
use open_authority_trials_oa.Qualification.Candidate.{Probe}
use open_authority_trials_oa.Qualification.Probes.{
  differs_only_in, vary_dims, vary_pairs, vary_group, vary_groups, materially_varied_dimensions,
  group_by_path,
}
use native.Mathlib.Omega.{arith}

module _ (strip : String → String) (exposed : List String) (x : String) where
  -- One of the probes after another differs from it in this dimension only.
  abbrev pub has_pair : List Probe → Bool
  unfolding any differs_only_in
  has_pair [] = false
  has_pair (a ∷ later) =
      any (λ (b : Probe). differs_only_in strip exposed a.action b.action x) later || has_pair later

  contains-varied_once :
      (a b : Probe) (varied : List String) (dim : String)
      → contains
          (if contains varied dim
            then varied
            else if differs_only_in strip exposed a.action b.action dim
            then add_text dim varied
            else varied)
          x
        ≡ (contains varied x || (dim == x && differs_only_in strip exposed a.action b.action x))
  contains-varied_once a b varied dim = elim (Bool-cases (dim == x)) [
    | inr e ↦ ground (arith, e, contains-add_text dim varied x)
    | inl e ↦
        let same = (eq_iff dim x).0 e in
        let there = ap (λ d. contains varied d) same in
        let differs = ap (λ d. differs_only_in strip exposed a.action b.action d) same in
        ground (arith, e, there, differs, contains-add_text dim varied x)
  ]

  contains-vary_dims :
      (a b : Probe) (dims varied : List String)
      → contains (vary_dims strip exposed a b varied dims) x ≡ (
          contains varied x
          || (contains dims x && differs_only_in strip exposed a.action b.action x))
  unfolding vary_dims contains
  contains-vary_dims a b [] varied = ground arith
  contains-vary_dims a b (dim ∷ dims) varied =
      let once = contains-varied_once a b varied dim in
      let rest = contains-vary_dims a b dims _ in rest ∙ ground (arith, once)

  contains-vary_pairs :
      (a : Probe) (varied : List String) (later : List Probe)
      → contains (vary_pairs strip exposed a varied later) x ≡ (
          contains varied x
          || (contains exposed x
              && any (λ (b : Probe). differs_only_in strip exposed a.action b.action x) later))
  unfolding vary_pairs any
  contains-vary_pairs a varied [] = ground arith
  contains-vary_pairs a varied (b ∷ later) = ground (
    arith,
    contains-vary_dims a b exposed varied,
    contains-vary_pairs a (vary_dims strip exposed a b varied exposed) later,
  )

  contains-vary_group :
      (varied : List String) (group : List Probe)
      → contains (vary_group strip exposed varied group) x
        ≡ (contains varied x || (contains exposed x && has_pair group))
  unfolding vary_group has_pair
  contains-vary_group varied [] = ground arith
  contains-vary_group varied (a ∷ later) = ground (
    arith,
    contains-vary_pairs a varied later,
    contains-vary_group (vary_pairs strip exposed a varied later) later,
  )

  contains-vary_groups :
      (varied : List String) (groups : Dict (List Probe))
      → contains (vary_groups strip exposed varied groups) x ≡ (
          contains varied x
          || (contains exposed x && any (λ (g : String × List Probe). has_pair g.1) groups))
  unfolding vary_groups any
  contains-vary_groups varied [] = ground arith
  contains-vary_groups varied ((path, group) ∷ groups) = ground (
    arith,
    contains-vary_group varied group,
    contains-vary_groups (vary_group strip exposed varied group) groups,
  )

  -- A dimension counts as varied exactly when it is exposed and, among the probes of one path, one
  -- differs from an earlier one in this dimension only.
  materially_varied_dimensions_lem :
      (probes : List Probe)
      → contains (materially_varied_dimensions strip exposed probes) x ≡ (
          contains exposed x
          && any (λ (g : String × List Probe). has_pair g.1) (group_by_path [] probes))
  unfolding materially_varied_dimensions contains
  materially_varied_dimensions_lem probes = contains-vary_groups [] (group_by_path [] probes)
