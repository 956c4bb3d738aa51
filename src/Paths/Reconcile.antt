-- ===== src/Paths/Reconcile.antt =====
-- oat/paths/discovery.py: the reconciliation of declared and observed routes as sets.
use mathlib.Core.Path.{ap₂}
use open_authority_trials_oa.Consequence.Sink.{add_text}
use open_authority_trials_oa.Paths.{
  set_of, minus, contains, List, String, ◌∷◌, not, PathInventory, ObservedPath, reconcile, Bool,
  keep, PathReconciliation, route_ids, map, DeclaredPath,
}
use open_authority_trials_oa.Prelude.{
  contains, List, String, ◌≡◌, ◌==◌, ◌&&◌, ◌||◌, ◌∙◌, not, ap, [], refl, true, Bool-cases, Bool,
  keep, subst, map, inl, arith, IsSorted, contains-sort_texts, inr, eq_iff, sort_texts-IsSorted,
  sym,
}

contains_of_eq :
    (x z : String) (xs : List String) → x ≡ z → contains xs x ≡ true → contains xs z ≡ true
contains_of_eq x z xs e m = subst (λ y. contains xs y ≡ true) e m

pub contains-add_text :
    (x : String) (xs : List String) (z : String)
    → contains (add_text x xs) z ≡ (x == z || contains xs z)
unfolding add_text
contains-add_text x xs z = elim (Bool-cases (contains xs x)) [
  | inl e ↦ rw e (ground (arith, eq_iff x z, contains_of_eq x z xs))
  | inr e ↦ rw e (unfold contains in refl)
]

pub contains-set_of : (xs : List String) (z : String) → contains (set_of xs) z ≡ contains xs z
unfolding set_of
contains-set_of [] z = refl
contains-set_of (x ∷ xs) z =
    contains-add_text x (set_of xs) z
    ∙ ap (λ b. x == z || b) (contains-set_of xs z)
    ∙ (unfold contains in refl)

contains-minus :
    (xs ys : List String) (z : String)
    → contains (minus xs ys) z ≡ (contains xs z && not (contains ys z))
unfolding minus keep contains
contains-minus [] ys z = refl
contains-minus (x ∷ xs) ys z = elim (Bool-cases (contains ys x)) [
  | inl m ↦
      rw m (
        ground
          (arith, contains-minus xs ys z, eq_iff x z, λ (e : x ≡ z). contains_of_eq x z ys e m))
  | inr m ↦ rw m (
      ground
        (arith, contains-minus xs ys z, eq_iff x z, λ (e : x ≡ z). sym (ap (contains ys) e) ∙ m))
]

-- Routes as the members of sets: what is declared, and what is observed.
abbrev pub is_declared : PathInventory → String → Bool
is_declared inventory id = contains (map (λ (p : DeclaredPath). p.route_id) inventory) id

abbrev pub is_observed : List ObservedPath → String → Bool
is_observed observations id = contains (map (λ (o : ObservedPath). o.route_id) observations) id

pub record Reconciled (inventory : PathInventory) (observations : List ObservedPath)
    (r : PathReconciliation) : Type 0 where
  pub declared : (id : String) → contains r.declared_path_set id ≡ is_declared inventory id
  pub observed : (id : String) → contains r.observed_path_set id ≡ is_observed observations id
  pub unknown :
      (id : String)
      → contains r.unknown_observed_paths id
        ≡ (is_observed observations id && not (is_declared inventory id))
  pub unexercised :
      (id : String)
      → contains r.unexercised_declared_paths id
        ≡ (is_declared inventory id && not (is_observed observations id))
  pub sorted : IsSorted r.unknown_observed_paths × IsSorted r.unexercised_declared_paths

-- The two differences of a reconciliation are sorted and hold exactly the routes that are observed
-- and not declared, and the routes that are declared and not observed.
pub reconcile_lem :
    (inventory : PathInventory) (observations : List ObservedPath)
    → Reconciled inventory observations (reconcile inventory observations)
unfolding reconcile route_ids
reconcile_lem inventory observations = record {
  declared = λ id. contains-sort_texts _ id ∙ contains-set_of _ id;
  observed = λ id. contains-sort_texts _ id ∙ contains-set_of _ id;
  unknown = λ id.
      contains-sort_texts _ id
      ∙ contains-minus _ _ id
      ∙ ap₂ (λ a b. a && not b) (contains-set_of _ id) (contains-set_of _ id);
  unexercised = λ id.
      contains-sort_texts _ id
      ∙ contains-minus _ _ id
      ∙ ap₂ (λ a b. a && not b) (contains-set_of _ id) (contains-set_of _ id);
  sorted = (sort_texts-IsSorted _, sort_texts-IsSorted _);
}
