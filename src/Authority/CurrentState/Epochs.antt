-- ===== src/Authority/CurrentState/Epochs.antt =====
-- oat/authority/current_state.py: the order of a store's epochs and the lookup at a tick.
use open_authority_trials_oa.Prelude.{
  refl, inl, inr, Bool-cases, [], ◌∷◌, arith, All, ◌≡◌, Elem, Any, subst, ◌⊎◌, Option, some, none,
  All_of_Elem, All-Elem, ◌++◌,
}
use open_authority_trials_oa.Prelude.Int.{ℤ, ◌≤ℤ◌, ltb_ℤ, ◌<ℤ◌, leb_ℤ}
use open_authority_trials_oa.Authority.CurrentState.{
  AuthorityState, AuthorityStore, insert_epoch, sort_from, at_from, at, add,
}

abbrev From : ℤ → AuthorityState → Type 0
From t s = t ≤ℤ s.effective_from

abbrev pub IsSorted : AuthorityStore → Type 0
IsSorted [] = Unit
IsSorted (s ∷ epochs) = All (From s.effective_from) epochs × IsSorted epochs

From-trans :
    (t u : ℤ) (epochs : AuthorityStore) → t ≤ℤ u → All (From u) epochs → All (From t) epochs
From-trans t u [] le h = tt
From-trans t u (s ∷ epochs) le h = (omega arith, From-trans t u epochs le h.1)

From-insert_epoch :
    (t : ℤ) (state : AuthorityState) (epochs : AuthorityStore)
    → From t state
    → All (From t) epochs
    → All (From t) (insert_epoch state epochs)
unfolding insert_epoch
From-insert_epoch t state [] f h = (f, tt)
From-insert_epoch t state (s ∷ epochs) f h =
    elim (Bool-cases (ltb_ℤ state.effective_from s.effective_from)) [
      | inl e ↦ rw e (f, (h.0, h.1))
      | inr e ↦ rw e (h.0, From-insert_epoch t state epochs f h.1)
    ]

insert_epoch-IsSorted :
    (state : AuthorityState) (epochs : AuthorityStore)
    → IsSorted epochs
    → IsSorted (insert_epoch state epochs)
unfolding insert_epoch
insert_epoch-IsSorted state [] h = (tt, tt)
insert_epoch-IsSorted state (s ∷ epochs) h =
    elim (Bool-cases (ltb_ℤ state.effective_from s.effective_from)) [
      | inl e ↦ rw e (
        (ground arith, From-trans state.effective_from s.effective_from epochs (ground arith) h.0),
        (h.0, h.1),
      )
      | inr e ↦ rw e (
        From-insert_epoch s.effective_from state epochs (ground arith) h.0,
        insert_epoch-IsSorted state epochs h.1,
      )
    ]

sort_from-IsSorted :
    (sorted epochs : AuthorityStore) → IsSorted sorted → IsSorted (sort_from sorted epochs)
unfolding sort_from
sort_from-IsSorted sorted [] h = h
sort_from-IsSorted sorted (s ∷ epochs) h =
    sort_from-IsSorted (insert_epoch s sorted) epochs (insert_epoch-IsSorted s sorted h)

-- Sorting keeps the elements.
Elem-under :
    {x : AuthorityState} {xs ys : AuthorityStore} (s : AuthorityState)
    → (Elem x xs → Elem x ys)
    → Elem x (s ∷ xs)
    → Elem x (s ∷ ys)
Elem-under s f (Any.head e) = Any.head e
Elem-under s f (Any.tail m) = Any.tail (f m)

module _ {x : AuthorityState} where
  Elem-insert_epoch_new :
      (state : AuthorityState) (epochs : AuthorityStore)
      → x ≡ state
      → Elem x (insert_epoch state epochs)
  unfolding insert_epoch
  Elem-insert_epoch_new state [] e = Any.head e
  Elem-insert_epoch_new state (s ∷ epochs) e =
      elim (Bool-cases (ltb_ℤ state.effective_from s.effective_from)) [
        | inl b ↦ rw b (Any.head e)
        | inr b ↦ rw b (Any.tail (Elem-insert_epoch_new state epochs e))
      ]

  Elem-insert_epoch_old :
      (state : AuthorityState) (epochs : AuthorityStore)
      → Elem x epochs
      → Elem x (insert_epoch state epochs)
  unfolding insert_epoch
  Elem-insert_epoch_old state [] m = elim m [ ]
  Elem-insert_epoch_old state (s ∷ epochs) m =
      elim (Bool-cases (ltb_ℤ state.effective_from s.effective_from)) [
        | inl b ↦ rw b (Any.tail m)
        | inr b ↦ rw b (Elem-under s (Elem-insert_epoch_old state epochs) m)
      ]

  Elem-swap :
      (s state : AuthorityState) (epochs : AuthorityStore)
      → Elem x (s ∷ state ∷ epochs)
      → Elem x (state ∷ s ∷ epochs)
  Elem-swap s state epochs (Any.head e) = Any.tail (Any.head e)
  Elem-swap s state epochs (Any.tail (Any.head e)) = Any.head e
  Elem-swap s state epochs (Any.tail (Any.tail m)) = Any.tail (Any.tail m)

  Elem-of_insert_epoch :
      (state : AuthorityState) (epochs : AuthorityStore)
      → Elem x (insert_epoch state epochs)
      → Elem x (state ∷ epochs)
  unfolding insert_epoch
  Elem-of_insert_epoch state [] m = m
  Elem-of_insert_epoch state (s ∷ epochs) m =
      elim (Bool-cases (ltb_ℤ state.effective_from s.effective_from)) [
        | inl b ↦ subst (Elem x) (rw b) m
        | inr b ↦
            Elem-swap s state epochs
              (Elem-under s (Elem-of_insert_epoch state epochs) (subst (Elem x) (rw b) m))
      ]

  Elem-of_sort_from :
      (sorted epochs : AuthorityStore)
      → Elem x (sort_from sorted epochs)
      → Elem x sorted ⊎ Elem x epochs
  unfolding sort_from
  Elem-of_sort_from sorted [] m = inl m
  Elem-of_sort_from sorted (s ∷ epochs) m =
      elim (Elem-of_sort_from (insert_epoch s sorted) epochs m) [
        | inl a ↦ first (Elem-of_insert_epoch s sorted a)
        | inr b ↦ inr (Any.tail b)
      ]
    where
      first : Elem x (s ∷ sorted) → Elem x sorted ⊎ Elem x (s ∷ epochs)
      first (Any.head e) = inr (Any.head e)
      first (Any.tail m) = inl m

  Elem-sort_from_left :
      (sorted epochs : AuthorityStore) → Elem x sorted → Elem x (sort_from sorted epochs)
  unfolding sort_from
  Elem-sort_from_left sorted [] m = m
  Elem-sort_from_left sorted (s ∷ epochs) m =
      Elem-sort_from_left (insert_epoch s sorted) epochs (Elem-insert_epoch_old s sorted m)

  Elem-sort_from_right :
      (sorted epochs : AuthorityStore) → Elem x epochs → Elem x (sort_from sorted epochs)
  unfolding sort_from
  Elem-sort_from_right sorted [] m = elim m [ ]
  Elem-sort_from_right sorted (s ∷ epochs) (Any.head e) =
      Elem-sort_from_left (insert_epoch s sorted) epochs (Elem-insert_epoch_new s sorted e)
  Elem-sort_from_right sorted (s ∷ epochs) (Any.tail m) =
      Elem-sort_from_right (insert_epoch s sorted) epochs m

-- The answer to "which epoch is in force at `tick`": none, if all begin later, or else one that
-- has begun and that no other one that has begun begins after.
abbrev pub InForce : AuthorityStore → ℤ → Option AuthorityState → Type 0
InForce epochs tick none = All (λ e. tick <ℤ e.effective_from) epochs
InForce epochs tick (some s) =
    Elem s epochs
    × (s.effective_from ≤ℤ tick)
    × All (λ e. e.effective_from ≤ℤ tick → e.effective_from ≤ℤ s.effective_from) epochs

abbrev NotAfter : ℤ → ℤ → AuthorityState → Type 0
NotAfter tick t e = e.effective_from ≤ℤ tick → e.effective_from ≤ℤ t

later_all :
    (t tick : ℤ) (epochs : AuthorityStore)
    → tick <ℤ t
    → All (From t) epochs
    → All (λ e. tick <ℤ e.effective_from) epochs
later_all t tick [] lt h = tt
later_all t tick (s ∷ epochs) lt h = (omega arith, later_all t tick epochs lt h.1)

later-NotAfter :
    (tick t : ℤ) (epochs : AuthorityStore)
    → All (λ e. tick <ℤ e.effective_from) epochs
    → All (NotAfter tick t) epochs
later-NotAfter tick t [] h = tt
later-NotAfter tick t (s ∷ epochs) h =
    (λ le. absurd (omega arith), later-NotAfter tick t epochs h.1)

InForce-cons :
    (c s : AuthorityState) (epochs : AuthorityStore) (tick : ℤ) (o : Option AuthorityState)
    → s.effective_from ≤ℤ tick
    → c.effective_from ≤ℤ s.effective_from
    → InForce (s ∷ epochs) tick o
    → InForce (c ∷ s ∷ epochs) tick o
InForce-cons c s epochs tick none le before i = absurd (omega arith)
InForce-cons c s epochs tick (some a) le before i =
    let reached : s.effective_from ≤ℤ a.effective_from = i.2.0 le in
    (Any.tail i.0, i.1, (λ l. omega arith, i.2))

at_from-InForce :
    (c : AuthorityState) (epochs : AuthorityStore) (tick : ℤ)
    → c.effective_from ≤ℤ tick
    → IsSorted (c ∷ epochs)
    → InForce (c ∷ epochs) tick (at_from (some c) epochs tick)
unfolding at_from
at_from-InForce c [] tick le h = (Any.head refl, le, (λ l. omega arith, tt))
at_from-InForce c (s ∷ epochs) tick le h = elim (Bool-cases (leb_ℤ s.effective_from tick)) [
  | inl b ↦ rw b (
      InForce-cons c s epochs tick _ (ground arith) h.0.0
        (at_from-InForce s epochs tick (ground arith) h.1))
  | inr b ↦ rw b (
    Any.head refl,
    le,
    (
      λ l. omega arith,
      later-NotAfter tick c.effective_from (s ∷ epochs)
          (later_all s.effective_from tick (s ∷ epochs) (ground arith) (omega arith, h.1.0)),
    ),
  )
]

at-InForce :
    (epochs : AuthorityStore) (tick : ℤ) → IsSorted epochs → InForce epochs tick (at epochs tick)
unfolding at at_from
at-InForce [] tick h = tt
at-InForce (s ∷ epochs) tick h = elim (Bool-cases (leb_ℤ s.effective_from tick)) [
  | inl b ↦ rw b (at_from-InForce s epochs tick (ground arith) h)
  | inr b ↦ rw b (later_all s.effective_from tick (s ∷ epochs) (ground arith) (omega arith, h.0))
]

-- The same epochs give the same answer.
InForce-same :
    (xs ys : AuthorityStore) (tick : ℤ) (o : Option AuthorityState)
    → ((x : AuthorityState) → Elem x xs → Elem x ys)
    → ((x : AuthorityState) → Elem x ys → Elem x xs)
    → InForce xs tick o
    → InForce ys tick o
InForce-same xs ys tick none f g i = All_of_Elem _ ys (λ x m. All-Elem _ xs i (g x m))
InForce-same xs ys tick (some s) f g i =
    (f s i.0, i.1, All_of_Elem _ ys (λ x m. All-Elem _ xs i.2 (g x m)))

-- Whatever the order in which epochs were added: after one more is added, the lookup at a tick
-- gives an epoch of the store that has begun at that tick and that no other begun epoch begins
-- after, and it gives none exactly when no epoch has begun.
pub at-add :
    (epochs : AuthorityStore) (state : AuthorityState) (tick : ℤ)
    → InForce (epochs ++ state ∷ []) tick (at (add epochs state) tick)
unfolding add
at-add epochs state tick =
    InForce-same (add epochs state) (epochs ++ state ∷ []) tick _
      (λ x m. only (Elem-of_sort_from [] _ m)) (λ x m. Elem-sort_from_right [] _ m)
      (at-InForce (add epochs state) tick (sort_from-IsSorted [] (epochs ++ state ∷ []) tt))
  where
    only : {x : AuthorityState} {xs : AuthorityStore} → Elem x [] ⊎ Elem x xs → Elem x xs
    only (inl m) = elim m [ ]
    only (inr m) = m
