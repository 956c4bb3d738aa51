-- ===== src/Adversary/Grid.antt =====
-- oat/adversaries/deterministic.py: which candidates are proposed.
use native.Mathlib.Omega.{arith}
use native.Mathlib.Nat.{zero-mul, suc-mul}
use open_authority_trials_oa.Prelude.{
  List, Elem, ℕ, length, map, ◌∷◌, ◌≡◌, Any, ap, Any-append-cases, Any-append_left, subst, ◌*◌, ◌∙◌,
  [], Any-append_right, sym, length-append, inl, refl, inr, suc,
}
use open_authority_trials_oa.Canonical.Json.{Json}
use open_authority_trials_oa.Adversary.{prepend_each, product, ℕ, map, ◌∷◌, suc}

-- A combination takes a value from each of the lists.
abbrev pub InGrid : List Json → List (List Json) → Type 0
InGrid [] [] = Unit
InGrid [] (l ∷ ls) = ⊥
InGrid (v ∷ c) [] = ⊥
InGrid (v ∷ c) (l ∷ ls) = Elem v l × InGrid c ls

map_cons-Elem :
    (v : Json) (rests : List (List Json)) (c : List Json)
    → Elem c (map (λ (rest : List Json). v ∷ rest) rests)
    → (r : List Json) × (c ≡ v ∷ r) × Elem r rests
map_cons-Elem v [] c m = elim m [ ]
map_cons-Elem v (r ∷ rests) c (Any.head e) = (r, e, Any.head refl)
map_cons-Elem v (r ∷ rests) c (Any.tail m) =
    let (q, e, n) = map_cons-Elem v rests c m in (q, e, Any.tail n)

Elem-map_cons :
    (v : Json) (rests : List (List Json)) (r : List Json)
    → Elem r rests
    → Elem (v ∷ r) (map (λ (rest : List Json). v ∷ rest) rests)
Elem-map_cons v [] r m = elim m [ ]
Elem-map_cons v (q ∷ rests) r (Any.head e) = Any.head (ap (λ x. v ∷ x) e)
Elem-map_cons v (q ∷ rests) r (Any.tail m) = Any.tail (Elem-map_cons v rests r m)

prepend_each-Elem :
    (rests : List (List Json)) (values : List Json) (c : List Json)
    → Elem c (prepend_each rests values)
    → (v : Json) × (r : List Json) × (c ≡ v ∷ r) × Elem v values × Elem r rests
unfolding prepend_each
prepend_each-Elem rests [] c m = elim m [ ]
prepend_each-Elem rests (v ∷ values) c m =
    elim (Any-append-cases (map (λ (rest : List Json). v ∷ rest) rests) (prepend_each rests values)
      m) [
        | inl k ↦ let (r, e, n) = map_cons-Elem v rests c k in (v, r, e, Any.head refl, n)
        | inr k ↦
            let (w, r, e, n, q) = prepend_each-Elem rests values c k in (w, r, e, Any.tail n, q)
      ]

Elem-prepend_each :
    (rests : List (List Json)) (values : List Json) (v : Json) (r : List Json)
    → Elem v values
    → Elem r rests
    → Elem (v ∷ r) (prepend_each rests values)
unfolding prepend_each
Elem-prepend_each rests [] v r m n = elim m [ ]
Elem-prepend_each rests (w ∷ values) v r (Any.head e) n =
    Any-append_left _ (prepend_each rests values) (
      subst (λ x. Elem (v ∷ r) (map (λ (rest : List Json). x ∷ rest) rests)) e
        (Elem-map_cons v rests r n))
Elem-prepend_each rests (w ∷ values) v r (Any.tail m) n =
    Any-append_right (map (λ (rest : List Json). w ∷ rest) rests) _
      (Elem-prepend_each rests values v r m n)

pub product-InGrid : (ls : List (List Json)) (c : List Json) → Elem c (product ls) → InGrid c ls
unfolding product
product-InGrid [] c (Any.head e) = subst (λ x. InGrid x []) (sym e) tt
product-InGrid [] c (Any.tail m) = elim m [ ]
product-InGrid (l ∷ ls) c m =
    let (v, r, e, n, k) = prepend_each-Elem (product ls) l c m in
    subst (λ x. InGrid x (l ∷ ls)) (sym e) (n, product-InGrid ls r k)

pub InGrid-product : (ls : List (List Json)) (c : List Json) → InGrid c ls → Elem c (product ls)
unfolding product
InGrid-product [] [] g = Any.head refl
InGrid-product [] (v ∷ c) g = absurd g
InGrid-product (l ∷ ls) [] g = absurd g
InGrid-product (l ∷ ls) (v ∷ c) g =
    Elem-prepend_each (product ls) l v c g.0 (InGrid-product ls c g.1)

-- The number of combinations.
abbrev pub grid_size : List (List Json) → ℕ
grid_size [] = 1
grid_size (l ∷ ls) = length l * grid_size ls

length-map_cons :
    (v : Json) (rests : List (List Json))
    → length (map (λ (rest : List Json). v ∷ rest) rests) ≡ length rests
length-map_cons v [] = refl
length-map_cons v (r ∷ rests) = ap suc (length-map_cons v rests)

length-prepend_each :
    (rests : List (List Json)) (values : List Json)
    → length (prepend_each rests values) ≡ length values * length rests
unfolding prepend_each
length-prepend_each rests [] = sym (zero-mul (length rests))
length-prepend_each rests (v ∷ values) =
    length-append (map (λ (rest : List Json). v ∷ rest) rests) (prepend_each rests values)
    ∙ omega (
      arith,
      length-map_cons v rests,
      length-prepend_each rests values,
      suc-mul (length values) (length rests),
    )

pub length-product : (ls : List (List Json)) → length (product ls) ≡ grid_size ls
unfolding product
length-product [] = refl
length-product (l ∷ ls) =
    length-prepend_each (product ls) l ∙ ap (λ n. length l * n) (length-product ls)
