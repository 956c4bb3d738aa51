-- ===== src/Prelude/Order.antt =====
-- Python's order of texts, `sorted` on them, and sets of texts.
use Prim.Native.Char.{Char, code}
use Prim.Native.String.{String, compare}
use Prim.Native.String.compare as compare_clauses
use mathlib.Core.Path.{◌≡◌, refl, sym, ap, ◌∙◌}
use mathlib.Core.Logic.{inl, inr, ◌↔◌}
use Prim.Native.Nat.{◌+◌}
use text.Mathlib.Text.{◌==◌}
use mathlib.Core.Bool.{Bool, true, false, false≢true, ◌||◌}
use mathlib.Core.List.{List, [], ◌∷◌}
use native.Mathlib.Omega.{arith}
use text.Mathlib.Text.{is_le}
use open_authority_trials_oa.Prelude.Tests.{ltb, Bool-cases, if◌then◌else◌}
use open_authority_trials_oa.Prelude.Lists.{All, Any, Elem, contains, length}

unfoldable pub text_le : String → String → Bool
text_le s t = is_le (compare s t)

text_le-cons_nil : (c : Char) (s : String) → text_le (String.◌∷◌ c s) String.[] ≡ false
unfolding text_le
text_le-cons_nil c s = rw (compare_clauses.cons-nil c s)

text_le-nil : (s : String) → text_le String.[] s ≡ true
unfolding text_le
text_le-nil String.[] = refl
text_le-nil (String.◌∷◌ c s) = rw (compare_clauses.nil-cons c s)

text_le-cons :
    (c d : Char) (s t : String)
    → text_le (String.◌∷◌ c s) (String.◌∷◌ d t) ≡ (
        if ltb (code c) (code d)
        then true
        else if ltb (code d) (code c)
        then false
        else text_le s t)
unfolding text_le
text_le-cons c d s t = rw (compare_clauses.cons-cons c d s t) (ground arith)

-- Of two texts that are not in order, the other order holds.
pub text_total : (s t : String) → text_le s t ≡ false → text_le t s ≡ true
text_total String.[] t h = absurd (false≢true (sym h ∙ text_le-nil t))
text_total (String.◌∷◌ c s) String.[] h = text_le-nil (String.◌∷◌ c s)
text_total (String.◌∷◌ c s) (String.◌∷◌ d t) h =
    ground (arith, text_le-cons c d s t, text_le-cons d c t s, text_total s t)

pub text_le_trans : (s t u : String) → text_le s t ≡ true → text_le t u ≡ true → text_le s u ≡ true
text_le_trans String.[] t u h k = text_le-nil u
text_le_trans (String.◌∷◌ c s) String.[] u h k =
    absurd (false≢true (sym (text_le-cons_nil c s) ∙ h))
text_le_trans (String.◌∷◌ c s) (String.◌∷◌ d t) String.[] h k =
    absurd (false≢true (sym (text_le-cons_nil d t) ∙ k))
text_le_trans (String.◌∷◌ c s) (String.◌∷◌ d t) (String.◌∷◌ e u) h k =
    ground
      (arith, text_le-cons c d s t, text_le-cons d e t u, text_le-cons c e s u, text_le_trans s t u)

unfoldable pub insert_text : String → List String → List String
unfolding text_le
insert_text x [] = x ∷ []
insert_text x (y ∷ ys) = if text_le x y then x ∷ y ∷ ys else y ∷ insert_text x ys

-- `sorted(xs)`
unfoldable pub sort_texts : List String → List String
unfolding insert_text
sort_texts [] = []
sort_texts (x ∷ xs) = insert_text x (sort_texts xs)

abbrev pub IsSorted : List String → Type 0
IsSorted [] = Unit
IsSorted (x ∷ xs) = All (λ y. text_le x y ≡ true) xs × IsSorted xs

all_after_trans :
    (x y : String) (ys : List String)
    → text_le x y ≡ true
    → All (λ z. text_le y z ≡ true) ys
    → All (λ z. text_le x z ≡ true) ys
all_after_trans x y [] le h = tt
all_after_trans x y (z ∷ ys) le h = (text_le_trans x y z le h.0, all_after_trans x y ys le h.1)

all_after-insert_text :
    (x y : String) (ys : List String)
    → text_le x y ≡ true
    → All (λ z. text_le x z ≡ true) ys
    → All (λ z. text_le x z ≡ true) (insert_text y ys)
unfolding insert_text
all_after-insert_text x y [] le h = (le, tt)
all_after-insert_text x y (z ∷ ys) le h = elim (Bool-cases (text_le y z)) [
  | inl e ↦ rw e (le, (h.0, h.1))
  | inr e ↦ rw e (h.0, all_after-insert_text x y ys le h.1)
]

insert_text-IsSorted : (x : String) (ys : List String) → IsSorted ys → IsSorted (insert_text x ys)
unfolding insert_text
insert_text-IsSorted x [] h = (tt, tt)
insert_text-IsSorted x (y ∷ ys) h = elim (Bool-cases (text_le x y)) [
  | inl e ↦ rw e ((e, all_after_trans x y ys e h.0), (h.0, h.1))
  | inr e ↦
      rw e (all_after-insert_text y x ys (text_total x y e) h.0, insert_text-IsSorted x ys h.1)
]

pub sort_texts-IsSorted : (xs : List String) → IsSorted (sort_texts xs)
unfolding sort_texts
sort_texts-IsSorted [] = tt
sort_texts-IsSorted (x ∷ xs) = insert_text-IsSorted x (sort_texts xs) (sort_texts-IsSorted xs)

contains-insert_text :
    (x : String) (ys : List String) (z : String)
    → contains (insert_text x ys) z ≡ (x == z || contains ys z)
unfolding insert_text contains
contains-insert_text x [] z = refl
contains-insert_text x (y ∷ ys) z = ground (arith, contains-insert_text x ys z)

-- Sorting changes no membership.
pub contains-sort_texts :
    (xs : List String) (z : String) → contains (sort_texts xs) z ≡ contains xs z
unfolding sort_texts contains
contains-sort_texts [] z = refl
contains-sort_texts (x ∷ xs) z =
    contains-insert_text x (sort_texts xs) z ∙ ap (λ b. x == z || b) (contains-sort_texts xs z)

-- `sorted` by any order, as a stable sort: an element goes before the first that it comes before,
-- and an element that comes before none of its equals keeps its place.
module _ {ℓ} {A : Type ℓ} (before : A → A → Bool) where
  unfoldable pub insert_by : A → List A → List A
  insert_by x [] = x ∷ []
  insert_by x (y ∷ ys) = if before y x then y ∷ insert_by x ys else x ∷ y ∷ ys

  unfoldable pub sort_by : List A → List A
  unfolding insert_by
  sort_by [] = []
  sort_by (x ∷ xs) = insert_by x (sort_by xs)

  -- Sorting changes no membership.
  pub Elem-insert_by : (x : A) (ys : List A) (z : A) → Elem z (insert_by x ys) ↔ Elem z (x ∷ ys)
  unfolding insert_by
  Elem-insert_by x [] z = (λ m. m, λ m. m)
  Elem-insert_by x (y ∷ ys) z = elim (Bool-cases (before y x)) [
    | inr e ↦ rw e (λ m. m, λ m. m)
    | inl e ↦
        let (to, from) = Elem-insert_by x ys z in
        rw e (
          λ m. elim m [
            | Any.head p ↦ Any.tail (Any.head p)
            | Any.tail n ↦ elim (to n) [
              | Any.head p ↦ Any.head p
              | Any.tail k ↦ Any.tail (Any.tail k)
            ]
          ],
          λ m. elim m [
            | Any.head p ↦ Any.tail (from (Any.head p))
            | Any.tail n ↦ elim n [
              | Any.head p ↦ Any.head p
              | Any.tail k ↦ Any.tail (from (Any.tail k))
            ]
          ],
        )
  ]

  pub Elem-sort_by : (xs : List A) (z : A) → Elem z (sort_by xs) ↔ Elem z xs
  unfolding sort_by
  Elem-sort_by [] z = (λ m. m, λ m. m)
  Elem-sort_by (x ∷ xs) z =
      let (to, from) = Elem-insert_by x (sort_by xs) z in
      let (to', from') = Elem-sort_by xs z in
      (
        λ m. elim (to m) [ Any.head p ↦ Any.head p | Any.tail n ↦ Any.tail (to' n) ],
        λ m. elim m [ Any.head p ↦ from (Any.head p) | Any.tail n ↦ from (Any.tail (from' n)) ],
      )

  pub length-insert_by : (x : A) (ys : List A) → length (insert_by x ys) ≡ length ys + 1
  unfolding insert_by
  length-insert_by x [] = refl
  length-insert_by x (y ∷ ys) = ground (arith, length-insert_by x ys)

  pub length-sort_by : (xs : List A) → length (sort_by xs) ≡ length xs
  unfolding sort_by
  length-sort_by [] = refl
  length-sort_by (x ∷ xs) = ground (arith, length-insert_by x (sort_by xs), length-sort_by xs)
