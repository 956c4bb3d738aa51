-- ===== src/Verifier/Consequence/Verdict.antt =====
-- oat/verifier/consequence.py: what the disposition of a whole run means.
use open_authority_trials_oa.Prelude.{
  Bool, List, keep, any, is_empty, map, ◌≡◌, Elem, ◌&&◌, false, true, if◌then◌else◌, not, [], ◌∷◌,
  arith, refl, Any, subst, Bool-cases, is_empty-keep, inl, false≢true, inr, sym, ◌∙◌, Any→any, ◌↔◌,
  any→Any, ap,
}
use open_authority_trials_oa.Canonical.Digest.{Hashing}
use open_authority_trials_oa.Verifier.Consequence.{
  adjudicate, ConsequenceEvidence, CommitEvent, is_crossing, is_unknown, adjudicate_commit,
  harness_or_instrument_failure, consequence_boundary_failure, unknown_or_unestablished,
  unknown_paths, integration_failure, veip_internal_property_failure, no_boundary_counterexample,
  protected_commits, judge, CommitFinding, ValidationReport, AuthorityStore,
}
use open_authority_trials_oa.Consequence.Model.{CommitEvent, protects}
use open_authority_trials_oa.Verifier.Consequence.Findings.{
  not-Established, Established-adjudicate, adjudicate_commit-clean_iff, Established, AuthorizedBy,
}
use open_authority_trials_oa.Authority.Authorization.{ValidationReport}
use open_authority_trials_oa.Authority.CurrentState.{AuthorityStore}

module _ {A B : Type 0} (p : A → Bool) (f : A → B) (q : B → Bool) where
  any-map-keep : (xs : List A) → any q (map f (keep p xs)) ≡ any (λ x. p x && q (f x)) xs
  unfolding keep any
  any-map-keep [] = refl
  any-map-keep (x ∷ xs) = ground (arith, any-map-keep xs)

module _ {A : Type 0} (p : A → Bool) where
  Elem→Any : {a : A} (xs : List A) → Elem a xs → p a ≡ true → Any (λ x. p x ≡ true) xs
  Elem→Any [] m t = elim m [ ]
  Elem→Any (x ∷ xs) (Any.head e) t = Any.head (subst (λ y. p y ≡ true) e t)
  Elem→Any (x ∷ xs) (Any.tail m) t = Any.tail (Elem→Any xs m t)

  any-false→ : (xs : List A) → any p xs ≡ false → (a : A) → Elem a xs → p a ≡ false
  any-false→ xs clear a m = elim (Bool-cases (p a)) [
    | inl t ↦ absurd (false≢true (sym clear ∙ Any→any p (Elem→Any xs m t)))
    | inr f ↦ f
  ]

  →any-false : (xs : List A) → ((a : A) → Elem a xs → p a ≡ false) → any p xs ≡ false
  unfolding any
  →any-false [] f = refl
  →any-false (x ∷ xs) f =
      ground (arith, f x (Any.head refl), →any-false xs (λ a m. f a (Any.tail m)))

-- The two tests of a commit that the precedence makes.
abbrev crosses : Hashing → ConsequenceEvidence → CommitEvent → Bool
crosses h e c = protects e.protected_sink c && is_crossing (adjudicate_commit h c e).disposition

abbrev unsettled : Hashing → ConsequenceEvidence → CommitEvent → Bool
unsettled h e c = protects e.protected_sink c && is_unknown (adjudicate_commit h c e).disposition

-- The disposition as a cascade of tests.
cascade :
    (h : Hashing) (e : ConsequenceEvidence)
    → (adjudicate h e).disposition ≡ (
        if not (is_empty e.instrument_failures)
        then harness_or_instrument_failure
        else if any (crosses h e) e.commits
        then consequence_boundary_failure
        else if any (unsettled h e) e.commits
        then unknown_or_unestablished
        else if not (is_empty (unknown_paths e.reconciliation))
        then integration_failure
        else if not (is_empty e.internal_property_failures)
        then veip_internal_property_failure
        else no_boundary_counterexample)
unfolding adjudicate
cascade h e =
    let judged = λ (c : CommitEvent). adjudicate_commit h c e in
    let fs = map judged (protected_commits e) in
    ground (
      arith,
      is_empty-keep (λ (f : CommitFinding). is_crossing f.disposition) fs,
      is_empty-keep (λ (f : CommitFinding). is_unknown f.disposition) fs,
      any-map-keep (protects e.protected_sink) judged
          (λ (f : CommitFinding). is_crossing f.disposition) e.commits,
      any-map-keep (protects e.protected_sink) judged
          (λ (f : CommitFinding). is_unknown f.disposition) e.commits,
    )

empty→nil {ℓ} : {A : Type ℓ} (xs : List A) → is_empty xs ≡ true → xs ≡ []
empty→nil [] h = refl
empty→nil (x ∷ xs) h = cc

judge_settled :
    (c : CommitEvent) (report : ValidationReport)
    → is_crossing (judge c report).disposition ≡ false
    → is_unknown (judge c report).disposition ≡ false
    → (judge c report).disposition ≡ no_boundary_counterexample
unfolding judge
judge_settled c report nc nu = ground arith

-- A commit that is neither a crossing nor unknown is clean.
settled :
    (h : Hashing) (e : ConsequenceEvidence) (c : CommitEvent)
    → is_crossing (adjudicate_commit h c e).disposition ≡ false
    → is_unknown (adjudicate_commit h c e).disposition ≡ false
    → (adjudicate_commit h c e).disposition ≡ no_boundary_counterexample
settled h e c nc nu = elim (not-Established h e c) [
  | inl u ↦ ground arith
  | inr (authority, w) ↦
      let same = Established-adjudicate h e c authority w in
      rw same (judge_settled c _ (rw (sym same) nc) (rw (sym same) nu))
]

-- A run in which nothing is broken, every route is declared, no local property failed, and every
-- protected commit has a receipt and a valid authorization in the evidence.
pub record IsClean (h : Hashing) (e : ConsequenceEvidence) : Type 0 where
  pub instrument : e.instrument_failures ≡ []
  pub routes : unknown_paths e.reconciliation ≡ []
  pub local : e.internal_property_failures ≡ []
  pub covered :
      (c : CommitEvent)
      → Elem c e.commits
      → protects e.protected_sink c ≡ true
      → (authority : AuthorityStore) × Established e c authority × AuthorizedBy h e authority c

-- Some protected commit is a boundary failure.
abbrev pub HasCrossing : Hashing → ConsequenceEvidence → Type 0
HasCrossing h e =
    (c : CommitEvent) × Elem c e.commits
    × (protects e.protected_sink c ≡ true)
    × ((adjudicate_commit h c e).disposition ≡ consequence_boundary_failure)

module _ (h : Hashing) (e : ConsequenceEvidence) where
  clean→IsClean : (adjudicate h e).disposition ≡ no_boundary_counterexample → IsClean h e
  clean→IsClean d =
      let k = sym (cascade h e) ∙ d in
      let nc : any (crosses h e) e.commits ≡ false = ground arith in
      let nu : any (unsettled h e) e.commits ≡ false = ground arith in
      record {
        instrument = empty→nil e.instrument_failures (ground arith);
        routes = empty→nil (unknown_paths e.reconciliation) (ground arith);
        local = empty→nil e.internal_property_failures (ground arith);
        covered = λ c m p. (adjudicate_commit-clean_iff h e c).0 (
            settled h e c (ground (arith, any-false→ (crosses h e) e.commits nc c m))
              (ground (arith, any-false→ (unsettled h e) e.commits nu c m)));
      }

  IsClean→clean : IsClean h e → (adjudicate h e).disposition ≡ no_boundary_counterexample
  IsClean→clean w =
      let clean =
        λ (c : CommitEvent) (m : Elem c e.commits) (p : protects e.protected_sink c ≡ true).
          (adjudicate_commit-clean_iff h e c).1 (w.covered c m p) in
      let nc : any (crosses h e) e.commits ≡ false = →any-false (crosses h e) e.commits (λ c m.
        elim (Bool-cases (protects e.protected_sink c)) [
          | inl p ↦ ground (arith, clean c m p)
          | inr p ↦ ground arith
        ]) in
      let nu : any (unsettled h e) e.commits ≡ false = →any-false (unsettled h e) e.commits (λ c m.
        elim (Bool-cases (protects e.protected_sink c)) [
          | inl p ↦ ground (arith, clean c m p)
          | inr p ↦ ground arith
        ]) in
      ground
        (arith, cascade h e, ap is_empty w.instrument, ap is_empty w.routes, ap is_empty w.local)

  -- A run gets the clean disposition exactly when no instrument failed, no undeclared route was
  -- observed, no local property failed, and every protected commit has a receipt and a valid
  -- current authorization in the evidence.
  pub adjudicate-IsClean_iff :
      ((adjudicate h e).disposition ≡ no_boundary_counterexample) ↔ IsClean h e
  adjudicate-IsClean_iff = (clean→IsClean, IsClean→clean)

  Any→crossing :
      (xs : List CommitEvent)
      → Any (λ c. crosses h e c ≡ true) xs
      → (c : CommitEvent) × Elem c xs
        × (protects e.protected_sink c ≡ true)
        × ((adjudicate_commit h c e).disposition ≡ consequence_boundary_failure)
  Any→crossing [] a = elim a [ ]
  Any→crossing (x ∷ xs) (Any.head t) = (x, Any.head refl, ground arith, ground arith)
  Any→crossing (x ∷ xs) (Any.tail a) = let (c, m, p, d) = Any→crossing xs a in (c, Any.tail m, p, d)

  -- The primary falsifier: a run is a boundary failure exactly when no instrument failed and some
  -- protected commit of the evidence is a boundary failure, whatever routes, unknown commits and
  -- local failures there are.
  pub adjudicate-crossing_iff :
      ((adjudicate h e).disposition ≡ consequence_boundary_failure)
      ↔ ((e.instrument_failures ≡ []) × HasCrossing h e)
  adjudicate-crossing_iff = (
    λ d.
        let k = sym (cascade h e) ∙ d in
        let t : any (crosses h e) e.commits ≡ true = ground arith in
        (
          empty→nil e.instrument_failures (ground arith),
          Any→crossing e.commits (any→Any (crosses h e) e.commits t),
        ),
    λ p.
        let (c, m, q, d) = p.1 in
        let t : any (crosses h e) e.commits ≡ true =
          Any→any (crosses h e) (Elem→Any (crosses h e) e.commits m (ground arith)) in
        ground (arith, cascade h e, ap is_empty p.0),
  )
