-- ===== src/Authority/Delegation/Soundness.antt =====
-- oat/authority/delegation.py: what it means that a delegation chain validates.
use open_authority_trials_oa.Prelude.{
  ◌∙◌, subst, false≢true, ◌⊎◌, ℕ, ◌+◌, String, ◌≡◌, ◌≢◌, ◌↔◌, refl, true, false, Option, none, some,
  List, [], ◌∷◌, arith, eq_iff, Elem, contains, all→All, All→all, contains→Elem, Elem→contains,
  All-Elem, All_of_Elem, inl, inr, str_eq→≡,
}
use open_authority_trials_oa.Authority.Delegation.{
  DelegationLink, DelegationChain, Walk, failed, walked, subset, amplifies, check_links,
  terminal_from, terminal_principal, validate_delegation, conclude, is_amplified,
}

-- Every text of the one list is in the other.
abbrev pub Within : List String → List String → Type 0
Within scope held = (s : String) → Elem s scope → Elem s held

-- No scope that the delegator does not hold. The root principal may hand out any scope.
abbrev pub Granted : Option (List String) → List String → Type 0
Granted none scope = Unit
Granted (some held) scope = Within scope held

-- An unbroken chain of hops from `from`, who holds `held`, to `to`, each without amplification,
-- every one of which carries `scope`.
abbrev pub Carries : String → Option (List String) → List DelegationLink → String → String → Type 0
Carries from held [] to scope = from ≡ to
Carries from held (link ∷ links) to scope =
    (link.delegator ≡ from)
    × Granted held link.scope
    × Elem scope link.scope
    × Carries link.delegate (some link.scope) links to scope

subset→Within : (scope held : List String) → subset scope held ≡ true → Within scope held
unfolding subset
subset→Within scope held h s m =
    contains→Elem held s (All-Elem (λ x. contains held x ≡ true) scope (all→All _ scope h) m)

Within→subset : (scope held : List String) → Within scope held → subset scope held ≡ true
unfolding subset
Within→subset scope held w =
    All→all _ scope (All_of_Elem _ scope (λ s m. Elem→contains held s (w s m)))

amplifies→Granted :
    (held : Option (List String)) (scope : List String)
    → amplifies held scope ≡ false
    → Granted held scope
unfolding amplifies
amplifies→Granted none scope h = tt
amplifies→Granted (some held) scope h = subset→Within scope held (ground arith)

Granted→amplifies :
    (held : Option (List String)) (scope : List String)
    → Granted held scope
    → amplifies held scope ≡ false
unfolding amplifies
Granted→amplifies none scope g = refl
Granted→amplifies (some held) scope g = ground (arith, Within→subset scope held g)

-- One round of the loop.
check_links-step :
    (index : ℕ) (from : String) (held last : Option (List String)) (link : DelegationLink)
    (links : List DelegationLink)
    → check_links index from held (link ∷ links) ≡ walked last
    → (link.delegator ≡ from)
      × (amplifies held link.scope ≡ false)
      × (check_links (index + 1) link.delegate (some link.scope) links ≡ walked last)
unfolding check_links
check_links-step index from held last link links w = ground (arith, eq_iff link.delegator from)

check_links-step_back :
    (index : ℕ) (from : String) (held : Option (List String)) (link : DelegationLink)
    (links : List DelegationLink)
    → link.delegator ≡ from
    → amplifies held link.scope ≡ false
    → check_links index from held (link ∷ links)
      ≡ check_links (index + 1) link.delegate (some link.scope) links
unfolding check_links
check_links-step_back index from held link links e a = ground (arith, eq_iff link.delegator from)

check_links-nil :
    (index : ℕ) (from : String) (scope last : List String)
    → check_links index from (some scope) [] ≡ walked (some last)
    → last ≡ scope
unfolding check_links
check_links-nil index from scope last w = cc

-- What is held at the end was held at every hop.
module _ (to scope : String) where
  check_links→Carries :
      (index : ℕ) (from : String) (held : Option (List String)) (link : DelegationLink)
      (links : List DelegationLink) (last : List String)
      → check_links index from held (link ∷ links) ≡ walked (some last)
      → terminal_from link.delegate links ≡ to
      → Elem scope last
      → Carries from held (link ∷ links) to scope
  unfolding terminal_from
  check_links→Carries index from held link [] last w t m =
      let (e, a, rest) = check_links-step index from held (some last) link [] w in
      (
        e,
        amplifies→Granted held link.scope a,
        subst (Elem scope) (check_links-nil _ _ link.scope last rest) m,
        t,
      )
  check_links→Carries index from held link (next ∷ links) last w t m =
      let (e, a, rest) = check_links-step index from held (some last) link (next ∷ links) w in
      let c =
        check_links→Carries (index + 1) link.delegate (some link.scope) next links last rest t m in
      (e, amplifies→Granted held link.scope a, c.1 scope c.2, c)

  Carries→check_links :
      (index : ℕ) (from : String) (held : Option (List String)) (link : DelegationLink)
      (links : List DelegationLink)
      → Carries from held (link ∷ links) to scope
      → (last : List String) × (check_links index from held (link ∷ links) ≡ walked (some last))
        × Elem scope last
        × (terminal_from link.delegate links ≡ to)
  unfolding terminal_from
  Carries→check_links index from held link [] c = (
    link.scope,
    check_links-step_back index from held link [] c.0 (Granted→amplifies held link.scope c.1)
        ∙ (unfold check_links in refl),
    c.2,
    c.3,
  )
  Carries→check_links index from held link (next ∷ links) c =
      let (last, w, m, t) =
        Carries→check_links (index + 1) link.delegate (some link.scope) next links c.3 in
      (
        last,
        check_links-step_back index from held link (next ∷ links) c.0
              (Granted→amplifies held link.scope c.1)
            ∙ w,
        m,
        t,
      )

-- The specification of the whole check. A chain without links needs the principal itself to be
-- the root, and then asks nothing of the scope.
abbrev pub Delegates : DelegationChain → String → String → Type 0
Delegates chain acting_principal required_scope =
    ((chain.links ≡ []) × (chain.root ≡ acting_principal))
    ⊎ ((chain.links ≢ []) × Carries chain.root none chain.links acting_principal required_scope)

conclude-true :
    (chain : DelegationChain) (principal scope : String) (w : Walk)
    → (conclude chain principal scope w).0 ≡ true
    → (last : List String) × (w ≡ walked (some last))
      × Elem scope last
      × (terminal_principal chain ≡ principal)
unfolding conclude
conclude-true chain principal scope (failed r) h = absurd (false≢true h)
conclude-true chain principal scope (walked none) h = ground arith
conclude-true chain principal scope (walked (some last)) h =
    (last, refl, contains→Elem last scope (ground arith), str_eq→≡ _ _ (ground arith))

conclude-walked :
    (chain : DelegationChain) (principal scope : String) (last : List String)
    → Elem scope last
    → terminal_principal chain ≡ principal
    → (conclude chain principal scope (walked (some last))).0 ≡ true
unfolding conclude
conclude-walked chain principal scope last m t =
    ground (arith, Elem→contains last scope m, eq_iff (terminal_principal chain) principal)

module _ (root principal scope : String) where
  abbrev chain_of : List DelegationLink → DelegationChain
  chain_of links = record { root = root; links = links }

  validate→Delegates :
      (links : List DelegationLink)
      → (validate_delegation (chain_of links) principal scope).0 ≡ true
      → Delegates (chain_of links) principal scope
  unfolding validate_delegation
  validate→Delegates [] h = inl (refl, str_eq→≡ root principal (ground arith))
  validate→Delegates (link ∷ links) h =
      let (last, w, m, t) = conclude-true (chain_of (link ∷ links)) principal scope _ h in
      inr (
        (λ e. cc),
        check_links→Carries principal scope 0 root none link links last w
            (unfold terminal_principal in t) m,
      )

  Delegates→validate :
      (links : List DelegationLink)
      → Delegates (chain_of links) principal scope
      → (validate_delegation (chain_of links) principal scope).0 ≡ true
  unfolding validate_delegation
  Delegates→validate [] (inl (e, r)) = ground (arith, eq_iff root principal)
  Delegates→validate [] (inr (n, c)) = absurd (n refl)
  Delegates→validate (link ∷ links) (inl (e, r)) = cc
  Delegates→validate (link ∷ links) (inr (n, c)) =
      let (last, w, m, t) = Carries→check_links principal scope 0 root none link links c in
      rw w (
        conclude-walked (chain_of (link ∷ links)) principal scope last m
          (unfold terminal_principal terminal_from in t))

-- A delegation chain validates exactly when it is the acting principal itself, with no links, or
-- an unbroken chain of links from the root to the acting principal in which every link's scope
-- lies within the scope of the link before it and holds the required scope.
pub validate_delegation_iff :
    (chain : DelegationChain) (principal scope : String)
    → ((validate_delegation chain principal scope).0 ≡ true) ↔ Delegates chain principal scope
validate_delegation_iff chain principal scope = (
  validate→Delegates chain.root principal scope chain.links,
  Delegates→validate chain.root principal scope chain.links,
)

conclude-not_amplified :
    (chain : DelegationChain) (principal scope : String) (w : Walk)
    → (conclude chain principal scope w).0 ≡ true
    → is_amplified (conclude chain principal scope w).1 ≡ false
unfolding conclude is_amplified
conclude-not_amplified chain principal scope (failed r) h = absurd (false≢true h)
conclude-not_amplified chain principal scope (walked held) h = ground arith

-- A check that succeeds does not report amplification.
pub validate_delegation-not_amplified :
    (chain : DelegationChain) (principal scope : String)
    → (validate_delegation chain principal scope).0 ≡ true
    → is_amplified (validate_delegation chain principal scope).1 ≡ false
unfolding validate_delegation is_amplified
validate_delegation-not_amplified chain principal scope h = ground (
  arith,
  conclude-not_amplified chain principal scope (check_links 0 chain.root none chain.links),
)
