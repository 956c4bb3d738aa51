-- ===== src/Evidence/Replay/Dispositions.antt =====
-- oat/evidence/replay.py: what the scenarios of oat/consequence/scenarios.py come to.
use Prim.Native.String
use Prim.Native.Char.{code}
use text.Mathlib.TextLemmas.{cons-append}
use native.Mathlib.Omega.{arith}
use open_authority_trials_oa.Canonical.Digest.{
  Hashing, digest_object, digest_bytes, canonical_bytes,
}
use open_authority_trials_oa.Evidence.Replay.{evidence_from_scenario, disposition_of, some}
use open_authority_trials_oa.Scenarios.Runs.{
  scenario_hidden_route_bypass, bypass_commit, base_digest, refusal_under,
}
use open_authority_trials_oa.Consequence.Sink.{
  commit_unguarded, append_commit, receipt_of, submit, PaymentLedgerSink, prior_uses,
}
use open_authority_trials_oa.Prelude.{
  ◌≡◌, refl, String, ◌==◌, ◌≢◌, false, ◌⊎◌, Option, arith, eq_iff, Any, some, inl, sym, ◌∙◌, inr,
  [], ap, ℕ,
}
use open_authority_trials_oa.Verifier.Consequence.{consequence_boundary_failure, receipt_for}
use open_authority_trials_oa.Scenarios.{
  fresh_sink, make_commit, make_authorization, base_issuer, base_action, default_terms,
  base_authority, payment_sink,
}
use open_authority_trials_oa.Consequence.Model.{
  NormalizedAction, normalized_action_digest, protects, CommitEvent, action_fields,
}
use open_authority_trials_oa.Authority.CurrentState.{AuthorityState, state_digest, at}
use open_authority_trials_oa.Authority.Authorization.{
  Authorization, non_applicable, sign, token_digest,
}
use open_authority_trials_oa.Verifier.Consequence.Findings.{adjudicate_commit_unclaimed}
use open_authority_trials_oa.Authority.Authorization.Meaning.{ValidAuthorization}
use open_authority_trials_oa.Prelude.Int.{ℤ}
use open_authority_trials_oa.Verifier.Consequence.Verdict.{adjudicate-crossing_iff}
use open_authority_trials_oa.Consequence.Sink.History.{outcome-cases}
use open_authority_trials_oa.Consequence.Sink.Interlock.{submit_refused, submit_iff}
use open_authority_trials_oa.Canonical.Json.{obj}
use open_authority_trials_oa.Authority.Authorization.Dimensions.{BoundOrDeclared}

module _ (h : Hashing) where
  -- The commit of the hidden route is a boundary failure, whatever the hash functions are.
  pub bypass-crossing :
      disposition_of h (scenario_hidden_route_bypass h) ≡ consequence_boundary_failure
  unfolding receipt_of disposition_of evidence_from_scenario scenario_hidden_route_bypass
      commit_unguarded append_commit fresh_sink bypass_commit make_commit receipt_for protects
  bypass-crossing =
      let e = evidence_from_scenario (scenario_hidden_route_bypass h) in
      let c = bypass_commit h in
      let seen = adjudicate_commit_unclaimed h e c base_authority (receipt_of 1 c) refl refl refl in
      (adjudicate-crossing_iff h e).1 (refl, (c, Any.head refl, refl, seen))

-- A mutation of the base action that a binding of the authorization must catch.
abbrev pub ChangesBinding : Hashing → NormalizedAction → Type 0
ChangesBinding h b =
    (normalized_action_digest h b ≢ normalized_action_digest h base_action)
    ⊎ ((b.principal_id ≢ base_action.principal_id)
        ⊎ ((b.release_id ≢ base_action.release_id)
            ⊎ ((b.tenant_id ≢ base_action.tenant_id) ⊎ (b.sink_id ≢ payment_sink.sink_id))))

bound : (s t : String) → (s == non_applicable) ≡ false → BoundOrDeclared s t → s ≡ t
bound s t n b = ground (arith, eq_iff s non_applicable, b)

abbrev first_code : String → ℕ
first_code String.[] = 0
first_code (String.◌∷◌ c s) = code c

-- A digest is tagged, so it is not the text that declares a dimension inapplicable.
tagged : (x : String) → String.◌++◌ "sha256:" x ≢ non_applicable
tagged x e = ground (arith, ap first_code (sym (cons-append "s" "ha256:" x) ∙ e))

digest-applicable :
    (h : Hashing) (b : NormalizedAction) → (normalized_action_digest h b == non_applicable) ≡ false
unfolding normalized_action_digest digest_object digest_bytes
digest-applicable h b = ground (
  arith,
  eq_iff (normalized_action_digest h b) non_applicable,
  tagged (h.sha256 (canonical_bytes (obj (action_fields b)))),
)

module _ (h : Hashing) (state : AuthorityState) (b : NormalizedAction) where
  abbrev granted : Authorization
  granted = make_authorization h base_issuer (default_terms (base_digest h) (state_digest h state))

  mutation_refused :
      (c : CommitEvent) (token : Option String) (uses : Option ℤ)
      (at_commit : Option AuthorityState)
      → c.action_digest ≡ normalized_action_digest h b
      → c.principal_id ≡ b.principal_id
      → c.release_id ≡ b.release_id
      → c.tenant_id ≡ b.tenant_id
      → c.sink_id ≡ b.sink_id
      → ChangesBinding h b
      → ¬ ValidAuthorization h granted c at_commit (some base_issuer) uses token
  unfolding make_authorization sign
  mutation_refused c token uses at_commit d p r t s changed v = elim changed [
    | inl x ↦ x (sym (bound _ _ (digest-applicable h base_action) v.action ∙ d))
    | inr (inl x) ↦ x (sym (bound _ _ refl v.principal ∙ p))
    | inr (inr (inl x)) ↦ x (sym (bound _ _ refl v.release ∙ r))
    | inr (inr (inr (inl x))) ↦ x (sym (bound _ _ refl v.tenant ∙ t))
    | inr (inr (inr (inr x))) ↦ x (sym (bound _ _ refl v.sink ∙ s))
  ]

  -- A guarded submission whose action was changed in a binding dimension commits nothing, whatever
  -- the hash functions, the tick and the authority state are.
  pub refusal_under-nothing_committed :
      (mutate : NormalizedAction → NormalizedAction) (name : String) (tick : ℤ)
      → mutate base_action ≡ b
      → ChangesBinding h b
      → (refusal_under h mutate name tick state).sink.commits ≡ []
  unfolding refusal_under fresh_sink make_commit
  refusal_under-nothing_committed mutate name tick gives changed =
      let c =
        make_commit h "commit-refused" "route.api-guarded" (mutate base_action) tick
          (some granted.authorization_id) (some (state_digest h state)) "idem-0001" in
      let token = some (token_digest h granted) in
      elim (outcome-cases (submit h c (some granted) token fresh_sink).1.outcome) [
        | inl holds ↦ absurd (
            mutation_refused c token (prior_uses (some granted) base_issuer)
              (at base_authority tick) (ap (normalized_action_digest h) gives)
              (ap (λ (x : NormalizedAction). x.principal_id) gives)
              (ap (λ (x : NormalizedAction). x.release_id) gives)
              (ap (λ (x : NormalizedAction). x.tenant_id) gives)
              (ap (λ (x : NormalizedAction). x.sink_id) gives) changed
              ((submit_iff h c (some granted) token fresh_sink).0 holds).1)
        | inr fails ↦
            ap (λ (s : PaymentLedgerSink). s.commits)
              (submit_refused h c (some granted) token fresh_sink fails)
      ]
