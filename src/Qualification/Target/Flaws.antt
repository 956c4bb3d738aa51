-- ===== src/Qualification/Target/Flaws.antt =====
-- oat/qualification/target_service.py: which commits are counterexamples, and why.
use open_authority_trials_oa.Prelude.{
  String, List, ◌≡◌, All, ◌∷◌, Bool-cases, [], ◌||◌, inr, true, inl, All-append, refl, subst, all,
  ◌==◌, keep, sym, Bool, false, ◌∙◌, some, Elem, false≢true, ◌&&◌, Any, All-Elem, eq_iff, &&-iff,
  ap, arith, Elem-keep_test,
}
use open_authority_trials_oa.Qualification.Target.{
  submit_request, SyntheticTarget, TargetSession, commit_of, Commit, TargetRequest,
  properly_authorized, is_known_path, flaw_admits, is_declared_path, counterexamples, agrees,
  is_counterexample, is_other, new_session, Dict,
}
use open_authority_trials_oa.Prelude.Dict.{Dict}

-- The commit's own record of its path and action.
abbrev Admitted : (String → String) → SyntheticTarget → Commit → Type 0
Admitted strip t c =
    (c.properly_authorized ≡ properly_authorized t c.path c.request)
    × ((properly_authorized t c.path c.request || flaw_admits strip t c.path c.request) ≡ true)

unfoldable pub submit_requests :
    (String → String) → TargetSession → List TargetRequest → TargetSession
unfolding submit_request
submit_requests strip s [] = s
submit_requests strip s (r ∷ rs) = submit_requests strip (submit_request strip s r).0 rs

module _ (strip : String → String) where
  submit_request-Admitted :
      (s : TargetSession) (r : TargetRequest)
      → All (Admitted strip s.target) s.commits
      → All (Admitted strip s.target) (submit_request strip s r).0.commits
        × ((submit_request strip s r).0.target ≡ s.target)
  unfolding submit_request commit_of
  submit_request-Admitted s r g = elim (Bool-cases (is_known_path strip s.target r.path)) [
    | inr e ↦ rw e (g, refl)
    | inl e ↦
        elim (Bool-cases (
          properly_authorized s.target r.path r.action
          || flaw_admits strip s.target r.path r.action)) [
            | inr a ↦ rw (e, a) (g, refl)
            | inl a ↦
                rw (e, a)
                  (All-append _ s.commits (commit_of strip s r ∷ []) g ((refl, a), tt), refl)
          ]
  ]

  submit_requests-Admitted :
      (rs : List TargetRequest) (t : SyntheticTarget) (s : TargetSession)
      → s.target ≡ t
      → All (Admitted strip t) s.commits
      → All (Admitted strip t) (submit_requests strip s rs).commits
  unfolding submit_requests
  submit_requests-Admitted [] t s e g = g
  submit_requests-Admitted (r ∷ rs) t s e g =
      let (h, k) =
        submit_request-Admitted s r (subst (λ x. All (Admitted strip x) s.commits) (sym e) g) in
      submit_requests-Admitted rs t (submit_request strip s r).0 (k ∙ e)
        (subst (λ x. All (Admitted strip x) (submit_request strip s r).0.commits) e h)

-- The only pair that fails among all, when the others hold.
fails_there :
    (p : String × String → Bool) (dim : String) (pairs : Dict String)
    → all p (keep (is_other dim) pairs) ≡ true
    → all p pairs ≡ false
    → (value : String) × Elem (dim, value) pairs × (p (dim, value) ≡ false)
unfolding all keep
fails_there p dim [] others some_fails = absurd (false≢true (sym some_fails))
fails_there p dim ((name, value) ∷ pairs) others some_fails = elim (Bool-cases (name == dim)) [
  | inl e ↦
      let same = (eq_iff name dim).0 e in
      elim (Bool-cases (p (name, value))) [
        | inr f ↦ (
          value,
          Any.head (ap (λ n. (n, value)) (sym same)),
          ap (λ n. p (n, value)) (sym same) ∙ f,
        )
        | inl h ↦
            let (v, m, f) = fails_there p dim pairs (rw e at others) (rw h at some_fails) in
            (v, Any.tail m, f)
      ]
  | inr e ↦
      let kept = rw e at others in
      let (v, m, f) =
        fails_there p dim pairs
          (((&&-iff (p (name, value)) (all p (keep (is_other dim) pairs))).0 kept).1)
          (rw (((&&-iff (p (name, value)) (all p (keep (is_other dim) pairs))).0 kept).0) at
            some_fails) in
      (v, Any.tail m, f)
]

-- A counterexample of a target whose declared routes leave a dimension out.
pub record Isolates (t : SyntheticTarget) (dim : String) (c : Commit) : Type 0 where
  pub declared : is_declared_path t c.path ≡ true
  pub others :
      all (agrees c.request) (keep (is_other dim) t.ground_truth.valid_authorization) ≡ true
  pub value : String
  pub valid_value : Elem (dim, value) t.ground_truth.valid_authorization
  pub wrong : agrees c.request (dim, value) ≡ false

Admitted-Isolates :
    (strip : String → String) (t : SyntheticTarget) (dim : String) (c : Commit)
    → (t.ground_truth.mechanism == "undeclared_route_unguarded") ≡ false
    → (t.ground_truth.mechanism == "undeclared_route_presence_only_guard") ≡ false
    → t.ground_truth.unenforced_dimension ≡ some dim
    → Admitted strip t c
    → c.properly_authorized ≡ false
    → Isolates t dim c
unfolding properly_authorized flaw_admits
Admitted-Isolates strip t dim c a b e (recorded, admitted) bad =
    let improper : properly_authorized t c.path c.request ≡ false = sym recorded ∙ bad in
    let flawed : (is_declared_path t c.path
          && all (agrees c.request) (keep (is_other dim) t.ground_truth.valid_authorization))
        ≡ true =
      rw (improper, a, b, e) at admitted in
    let (declared, others) = (&&-iff _ _).0 flawed in
    let wrong : all (agrees c.request) t.ground_truth.valid_authorization ≡ false =
      rw declared at improper in
    let (value, m, f) =
      fails_there (agrees c.request) dim t.ground_truth.valid_authorization others wrong in
    record { declared = declared; others = others; value = value; valid_value = m; wrong = f }

-- A target whose mechanism is none of the two of undeclared routes and that leaves one dimension
-- unenforced isolates it: whatever is requested
-- of it, each counterexample came by a declared route, agreed with the valid authorization in every
-- other dimension, and disagreed with it in that one.
pub counterexamples-Isolates :
    (strip : String → String) (t : SyntheticTarget) (dim : String) (rs : List TargetRequest)
    (c : Commit)
    → (t.ground_truth.mechanism == "undeclared_route_unguarded") ≡ false
    → (t.ground_truth.mechanism == "undeclared_route_presence_only_guard") ≡ false
    → t.ground_truth.unenforced_dimension ≡ some dim
    → Elem c (counterexamples (submit_requests strip (new_session t) rs))
    → Isolates t dim c
unfolding counterexamples is_counterexample new_session
counterexamples-Isolates strip t dim rs c a b e m =
    let (there, bad) =
      Elem-keep_test is_counterexample (submit_requests strip (new_session t) rs).commits m in
    Admitted-Isolates strip t dim c a b e
      (All-Elem (Admitted strip t) _ (submit_requests-Admitted strip rs t (new_session t) refl tt)
        there)
      (ground arith)
