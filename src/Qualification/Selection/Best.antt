-- ===== src/Qualification/Selection/Best.antt =====
-- oat/qualification/selection.py, `select`: the candidate that is selected.
use native.Mathlib.Omega.{arith}
use open_authority_trials_oa.Qualification.Selection.{
  key_before, Gate, select_gate, qualifies, leading,
}
use open_authority_trials_oa.Prelude.{
  ◌≡◌, true, false, List, insert_by, sort_by, All, Elem, [], none, ◌∷◌, Bool-cases, ◌⊎◌, inl, some,
  inr, keep, All-map, ap, refl, subst, Elem-sort_by, Elem-keep, sym, Any, Elem-keep_test, ◌∙◌,
  All-Elem,
}

key_before-asym : (g k : Gate) → key_before g k ≡ true → key_before k g ≡ false
unfolding key_before
key_before-asym g k h = ground arith

not_before_trans :
    (x y z : Gate) → key_before x y ≡ false → key_before y z ≡ false → key_before x z ≡ false
unfolding key_before
not_before_trans x y z h k = ground arith

-- No element comes before a list's first one.
abbrev IsLeast : List Gate → Type 0
IsLeast [] = Unit
IsLeast (g ∷ gs) = All (λ k. key_before k g ≡ false) gs

All-insert_by :
    (P : Gate → Type 0) (x : Gate) (ys : List Gate)
    → P x
    → All P ys
    → All P (insert_by key_before x ys)
unfolding insert_by
All-insert_by P x [] p h = (p, tt)
All-insert_by P x (y ∷ ys) p h = elim (Bool-cases (key_before y x)) [
  | inl e ↦ rw e (h.0, All-insert_by P x ys p h.1)
  | inr e ↦ rw e (p, h)
]

insert_by-IsLeast : (x : Gate) (ys : List Gate) → IsLeast ys → IsLeast (insert_by key_before x ys)
unfolding insert_by
insert_by-IsLeast x [] h = tt
insert_by-IsLeast x (y ∷ ys) h = elim (Bool-cases (key_before y x)) [
  | inl e ↦ rw e (All-insert_by _ x ys (key_before-asym y x e) h)
  | inr e ↦ rw e (e, All-map (λ k n. not_before_trans k y x n e) ys h)
]

sort_by-IsLeast : (gs : List Gate) → IsLeast (sort_by key_before gs)
unfolding sort_by
sort_by-IsLeast [] = tt
sort_by-IsLeast (g ∷ gs) = insert_by-IsLeast g (sort_by key_before gs) (sort_by-IsLeast gs)

key_before_irrefl : (g : Gate) → key_before g g ≡ false
unfolding key_before
key_before_irrefl g = ground arith

-- The selected gate is one of the gates, qualifies, and no qualifying gate has a better key.
pub record IsBest (gates : List Gate) (g : Gate) : Type 0 where
  pub there : Elem g gates
  pub qualified : qualifies g ≡ true
  pub best : (k : Gate) → Elem k gates → qualifies k ≡ true → key_before k g ≡ false

first-cases : (gs : List Gate) → (gs ≡ []) ⊎ ((g : Gate) × (rest : List Gate) × (gs ≡ g ∷ rest))
first-cases [] = inl refl
first-cases (g ∷ gs) = inr (g, gs, refl)

-- A selection is the best of the candidates that qualify, and there is none exactly when none
-- qualifies.
pub select_gate_lem :
    (gates : List Gate)
    → ((select_gate gates ≡ none) × ((k : Gate) → Elem k gates → qualifies k ≡ false))
      ⊎ ((g : Gate) × (select_gate gates ≡ some g) × IsBest gates g)
unfolding select_gate
select_gate_lem gates =
    let kept = keep qualifies gates in
    let sorted = sort_by key_before kept in
    elim (first-cases sorted) [
      | inl e ↦ inl (
        ap leading e,
        λ k m. elim (Bool-cases (qualifies k)) [
          | inr q ↦ q
          | inl q ↦
              let n : Elem k [] =
                subst (Elem k) e
                  ((Elem-sort_by key_before kept k).1 (Elem-keep qualifies gates q m)) in
              elim n [ ]
        ],
      )
      | inr (g, rest, e) ↦
          let least : All (λ k. key_before k g ≡ false) rest =
            subst IsLeast e (sort_by-IsLeast kept) in
          let at : Elem g kept =
            (Elem-sort_by key_before kept g).0 (subst (Elem g) (sym e) (Any.head refl)) in
          let (there, q) = Elem-keep_test qualifies gates at in
          inr (
            g,
            ap leading e,
            record {
              there = there;
              qualified = q;
              best = λ k m qk.
                  elim (subst (Elem k) e
                    ((Elem-sort_by key_before kept k).1 (Elem-keep qualifies gates qk m))) [
                      | Any.head h ↦ ap (λ x. key_before x g) h ∙ key_before_irrefl g
                      | Any.tail n ↦ All-Elem (λ x. key_before x g ≡ false) rest least n
                    ];
            },
          )
    ]
