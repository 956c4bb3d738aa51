-- ===== src/Prelude/Lists.antt =====
-- Lists measured by native numbers, membership of texts, and predicates by recursion.
use Prim.Native.Nat.{ℕ, suc, ◌+◌}
use Prim.Native.String.{String}
use mathlib.Core.Path.{◌≡◌, refl, sym, subst, ap, ◌∙◌}
use mathlib.Core.Logic.{inl, inr, ◌⊎◌}
use mathlib.Core.Bool.{Bool, true, false, not, ◌&&◌, ◌||◌, false≢true}
use mathlib.Core.Option.{Option, none, some}
use mathlib.Core.List.{List, [], ◌∷◌, ◌++◌}
use native.Mathlib.Omega.{arith}
use text.Mathlib.Text.{◌==◌}
use text.Mathlib.TextEquality.{eq_iff}
use open_authority_trials_oa.Prelude.Tests.{Bool-cases, if◌then◌else◌}

module _ {ℓ} {A : Type ℓ} where
  abbrev pub length : List A → ℕ
  length [] = 0
  length (x ∷ xs) = suc (length xs)

  pub length-append : (xs ys : List A) → length (xs ++ ys) ≡ length xs + length ys
  length-append [] ys = omega arith
  length-append (x ∷ xs) ys = omega (arith, length-append xs ys)

  -- `if xs:` on a list
  abbrev pub is_empty : List A → Bool
  is_empty [] = true
  is_empty (x ∷ xs) = false

  -- `[x for x in xs if p(x)]`
  unfoldable pub keep : (A → Bool) → List A → List A
  keep p [] = []
  keep p (x ∷ xs) = let rest = keep p xs in if p x then x ∷ rest else rest

  -- `any(p(x) for x in xs)`
  unfoldable pub any : (A → Bool) → List A → Bool
  any p [] = false
  any p (x ∷ xs) = p x || any p xs

  -- `all(p(x) for x in xs)`
  unfoldable pub all : (A → Bool) → List A → Bool
  all p [] = true
  all p (x ∷ xs) = p x && all p xs

  -- `next((x for x in xs if p(x)), None)`
  unfoldable pub find_first : (A → Bool) → List A → Option A
  find_first p [] = none
  find_first p (x ∷ xs) = if p x then some x else find_first p xs

  pub is_empty-keep : (p : A → Bool) (xs : List A) → is_empty (keep p xs) ≡ not (any p xs)
  unfolding keep any
  is_empty-keep p [] = refl
  is_empty-keep p (x ∷ xs) = ground (arith, is_empty-keep p xs)

  pub any-append_last :
      (p : A → Bool) (xs : List A) (y : A) → any p (xs ++ y ∷ []) ≡ (any p xs || p y)
  unfolding any
  any-append_last p [] y = ground arith
  any-append_last p (x ∷ xs) y = ground (arith, any-append_last p xs y)

  pub all-append : (p : A → Bool) (xs ys : List A) → all p (xs ++ ys) ≡ (all p xs && all p ys)
  unfolding all
  all-append p [] ys = refl
  all-append p (x ∷ xs) ys = ground (arith, all-append p xs ys)

-- A predicate of every element, and of one of them.
abbrev pub All {ℓ κ} : {A : Type ℓ} → (A → Type κ) → List A → Type κ
All P [] = Unit
All P (x ∷ xs) = P x × All P xs

pub data Any {ℓ κ} {A : Type ℓ} (P : A → Type κ) : List A → Type (ℓ ⊔ κ) where
  head : {x : A} {xs : List A} → P x → Any P (x ∷ xs)
  tail : {x : A} {xs : List A} → Any P xs → Any P (x ∷ xs)

-- Membership by position, so that it can be taken apart anywhere.
abbrev pub Elem {ℓ} : {A : Type ℓ} → A → List A → Type ℓ
Elem a = Any (λ x. a ≡ x)

module _ {ℓ κ} {A : Type ℓ} (P : A → Type κ) where
  pub All-append : (xs ys : List A) → All P xs → All P ys → All P (xs ++ ys)
  All-append [] ys h k = k
  All-append (x ∷ xs) ys h k = (h.0, All-append xs ys h.1 k)

module _ {ℓ κ} {A : Type ℓ} {P : A → Type κ} where
  pub Any-append_left : (xs ys : List A) → Any P xs → Any P (xs ++ ys)
  Any-append_left [] ys h = elim h [ ]
  Any-append_left (x ∷ xs) ys (Any.head p) = Any.head p
  Any-append_left (x ∷ xs) ys (Any.tail h) = Any.tail (Any-append_left xs ys h)

  pub Any-append-cases : (xs ys : List A) → Any P (xs ++ ys) → Any P xs ⊎ Any P ys
  Any-append-cases [] ys h = inr h
  Any-append-cases (x ∷ xs) ys (Any.head p) = inl (Any.head p)
  Any-append-cases (x ∷ xs) ys (Any.tail h) = elim (Any-append-cases xs ys h) [
    | inl k ↦ inl (Any.tail k)
    | inr k ↦ inr k
  ]

  pub Any-append_right : (xs ys : List A) → Any P ys → Any P (xs ++ ys)
  Any-append_right [] ys h = h
  Any-append_right (x ∷ xs) ys h = Any.tail (Any-append_right xs ys h)

module _ {ℓ} {A : Type ℓ} (p : A → Bool) where
  pub any→Any : (xs : List A) → any p xs ≡ true → Any (λ x. p x ≡ true) xs
  unfolding any
  any→Any [] h = absurd (false≢true h)
  any→Any (x ∷ xs) h = elim (Bool-cases (p x)) [
    | inl e ↦ Any.head e
    | inr e ↦ Any.tail (any→Any xs (ground arith))
  ]

  pub Any→any : {xs : List A} → Any (λ x. p x ≡ true) xs → any p xs ≡ true
  unfolding any
  Any→any (Any.head h) = ground arith
  Any→any (Any.tail h) = ground (arith, Any→any h)

  pub all→All : (xs : List A) → all p xs ≡ true → All (λ x. p x ≡ true) xs
  unfolding all
  all→All [] h = tt
  all→All (x ∷ xs) h = (ground arith, all→All xs (ground arith))

  pub All→all : (xs : List A) → All (λ x. p x ≡ true) xs → all p xs ≡ true
  unfolding all
  All→all [] h = refl
  All→all (x ∷ xs) h = ground (arith, All→all xs h.1)

  -- what `keep` keeps
  pub Elem-keep : {a : A} (xs : List A) → p a ≡ true → Elem a xs → Elem a (keep p xs)
  unfolding keep
  Elem-keep [] h m = elim m [ ]
  Elem-keep {a} (x ∷ xs) h (Any.head e) = rw (subst (λ y. p y ≡ true) e h) (Any.head e)
  Elem-keep (x ∷ xs) h (Any.tail m) = elim (Bool-cases (p x)) [
    | inl e ↦ rw e (Any.tail (Elem-keep xs h m))
    | inr e ↦ rw e (Elem-keep xs h m)
  ]

  pub All-keep {κ} : (P : A → Type κ) (xs : List A) → All P xs → All P (keep p xs)
  unfolding keep
  All-keep P [] h = tt
  All-keep P (x ∷ xs) h = elim (Bool-cases (p x)) [
    | inl e ↦ rw e (h.0, All-keep P xs h.1)
    | inr e ↦ rw e (All-keep P xs h.1)
  ]

  pub All-keep_test : (xs : List A) → All (λ x. p x ≡ true) (keep p xs)
  unfolding keep
  All-keep_test [] = tt
  All-keep_test (x ∷ xs) = elim (Bool-cases (p x)) [
    | inl e ↦ rw e (e, All-keep_test xs)
    | inr e ↦ rw e (All-keep_test xs)
  ]

-- An element of a list has what all have.
pub All-Elem {ℓ κ} :
    {A : Type ℓ} (P : A → Type κ) {a : A} (xs : List A) → All P xs → Elem a xs → P a
All-Elem P [] h m = elim m [ ]
All-Elem P (x ∷ xs) h (Any.head e) = subst P (sym e) h.0
All-Elem P (x ∷ xs) h (Any.tail m) = All-Elem P xs h.1 m

pub All-map {ℓ κ μ} :
    {A : Type ℓ} {P : A → Type κ} {Q : A → Type μ}
    → ((a : A) → P a → Q a)
    → (xs : List A) → All P xs
    → All Q xs
All-map f [] h = tt
All-map f (x ∷ xs) h = (f x h.0, All-map f xs h.1)

-- What all elements have, from a proof for each element.
pub All_of_Elem {ℓ κ} :
    {A : Type ℓ} (P : A → Type κ) (xs : List A) → ((a : A) → Elem a xs → P a) → All P xs
All_of_Elem P [] h = tt
All_of_Elem P (x ∷ xs) h = (h x (Any.head refl), All_of_Elem P xs (λ a m. h a (Any.tail m)))

-- `s in xs` on texts
unfoldable pub contains : List String → String → Bool
contains [] s = false
contains (x ∷ xs) s = x == s || contains xs s

pub contains→Elem : (xs : List String) (s : String) → contains xs s ≡ true → Elem s xs
unfolding contains
contains→Elem [] s h = absurd (false≢true h)
contains→Elem (x ∷ xs) s h = elim (Bool-cases (x == s)) [
  | inl e ↦ Any.head (sym ((eq_iff x s).0 e))
  | inr e ↦ Any.tail (contains→Elem xs s (ground arith))
]

pub Elem→contains : (xs : List String) (s : String) → Elem s xs → contains xs s ≡ true
unfolding contains
Elem→contains [] s m = elim m [ ]
Elem→contains (x ∷ xs) s (Any.head e) = ground (arith, (eq_iff x s).1 (sym e))
Elem→contains (x ∷ xs) s (Any.tail m) = ground (arith, Elem→contains xs s m)

-- A search finds something when something is there.
pub find_first-Elem {ℓ} :
    {A : Type ℓ} (p : A → Bool) {a : A} (xs : List A)
    → Elem a xs
    → p a ≡ true
    → (b : A) × (find_first p xs ≡ some b)
unfolding find_first
find_first-Elem p [] m h = elim m [ ]
find_first-Elem p (x ∷ xs) (Any.head e) h = (x, rw (ap p (sym e) ∙ h) refl)
find_first-Elem p (x ∷ xs) (Any.tail m) h = elim (Bool-cases (p x)) [
  | inl e ↦ (x, rw e refl)
  | inr e ↦ let (b, f) = find_first-Elem p xs m h in (b, rw e f)
]

-- What is kept was there, and passes the test.
pub Elem-keep_test {ℓ} :
    {A : Type ℓ} (p : A → Bool) {a : A} (xs : List A)
    → Elem a (keep p xs)
    → Elem a xs × (p a ≡ true)
unfolding keep
Elem-keep_test p [] m = elim m [ ]
Elem-keep_test p (x ∷ xs) m = elim (Bool-cases (p x)) [
  | inr e ↦ let (n, q) = Elem-keep_test p xs (rw e at m) in (Any.tail n, q)
  | inl e ↦ elim (rw e at m) [
    | Any.head h ↦ (Any.head h, ap p h ∙ e)
    | Any.tail n ↦ let (k, q) = Elem-keep_test p xs n in (Any.tail k, q)
  ]
]
