-- ===== src/Falsifier/Enforcement.antt =====
-- oat/falsifiers/rb001.py on the executions of oat/reference_boundaries/rb001.py, for each
-- enforcement path.
use native.Mathlib.Omega.{arith}
use open_authority_trials_oa.Falsifier.{
  commit_event, committed_events, get_field, truthy, ok, evaluate, is_revoked, Evaluation,
  status_revoked, true, Result, FalsifierError, false, Bool, err,
}
use open_authority_trials_oa.ReferenceBoundary.{
  execute, events_of, Scenario, Variation, allowed, authority_effective_status,
  effective_commit_tick, status_revoked, AuthorityInput, status_active, check_allows, observe,
  within_limit, check_status,
}
use open_authority_trials_oa.Canonical.Json.{get_field, Fields}
use open_authority_trials_oa.Prelude.{
  ◌≡◌, Bool-cases, inl, inr, refl, ◌&&◌, ◌==◌, ap, true, ◌↔◌, ◌⊎◌, ◌≢◌, ◌∙◌, false≢true, eq_iff,
  false, Bool, sym,
}
use open_authority_trials_oa.Prelude.Result.{ok, Result}
use open_authority_trials_oa.Prelude.Int.{ℤ, ◌<ℤ◌, ◌≤ℤ◌, ◌-ℤ◌}

committed_events-execute :
    (s : Scenario) (v : Variation)
    → (e : Fields) × ((commit_event (execute s v) ≡ ok e)
        × (truthy (get_field e "committed") ≡ allowed s v))
unfolding commit_event execute committed_events events_of get_field truthy
committed_events-execute s v = elim (Bool-cases v.duplicate_request) [
  | inl t ↦ rw (events_of, t) (_, (refl, refl))
  | inr f ↦ rw (events_of, f) (_, (refl, refl))
]

-- The falsifier finds a counterexample in the execution.
unfoldable pub Fires : Scenario → Variation → Type 0
Fires s v = (e : Evaluation) × ((evaluate (execute s v) ≡ ok e) × (e.counterexample ≡ true))

-- The authority is in effect at a tick: not revoked yet, in its interval, and granted as active.
abbrev pub InEffect : AuthorityInput → ℤ → ℤ → Type 0
InEffect a revocation_tick t =
    (t <ℤ revocation_tick)
    × ((a.valid_from ≤ℤ t) × ((t ≤ℤ a.valid_until) × (a.status ≡ status_active)))

-- The authority counts as revoked at a tick.
abbrev pub OutOfEffect : AuthorityInput → ℤ → ℤ → Type 0
OutOfEffect a revocation_tick t =
    (revocation_tick ≤ℤ t)
    ⊎ ((t <ℤ a.valid_from) ⊎ ((a.valid_until <ℤ t) ⊎ (a.status ≡ status_revoked)))

-- Every execution can be evaluated, whatever the scenario and the variation: it is a counterexample
-- exactly when the payment was allowed and the authority is not in effect at the tick of the commit.
pub evaluate-execute :
    (s : Scenario) (v : Variation)
    → (e : Evaluation) × ((evaluate (execute s v) ≡ ok e)
        × (e.counterexample ≡ (
            allowed s v
            && authority_effective_status s.authority v.revocation_tick (effective_commit_tick v)
              == status_revoked)))
unfolding is_revoked execute get_field evaluate allowed
evaluate-execute s v =
    let (e, (found, truth)) = committed_events-execute s v in
    rw found (_, (refl, ap (λ b. b && is_revoked (execute s v)) truth))

revoked≢active : status_revoked ≢ status_active
revoked≢active e = absurd (false≢true ((eq_iff status_revoked status_active).1 e))

effective-active_iff :
    (a : AuthorityInput) (r t : ℤ)
    → (authority_effective_status a r t ≡ status_active) ↔ InEffect a r t
unfolding authority_effective_status
effective-active_iff a r t = (λ h. ground (arith, revoked≢active), λ h. ground arith)

effective-revoked_iff :
    (a : AuthorityInput) (r t : ℤ)
    → (authority_effective_status a r t ≡ status_revoked) ↔ OutOfEffect a r t
unfolding authority_effective_status
effective-revoked_iff a r t = (λ h. ground (arith, revoked≢active), λ h. ground arith)

abbrev fired : Result FalsifierError Evaluation → Bool
fired (ok e) = e.counterexample
fired (err _) = false

-- The result of an evaluation is the only one.
pub quiet-not_Fires :
    (s : Scenario) (v : Variation) (e : Evaluation)
    → evaluate (execute s v) ≡ ok e
    → e.counterexample ≡ false
    → ¬ Fires s v
unfolding Fires
quiet-not_Fires s v e evaluated quiet (d, (other, holds)) =
    absurd (false≢true (sym quiet ∙ ap fired (sym evaluated ∙ other) ∙ holds))

Fires-allowed_iff :
    (s : Scenario) (v : Variation)
    → Fires s v ↔ (
        (allowed s v ≡ true)
        × (authority_effective_status s.authority v.revocation_tick (effective_commit_tick v)
            ≡ status_revoked))
unfolding Fires
Fires-allowed_iff s v =
    let effective =
      authority_effective_status s.authority v.revocation_tick (effective_commit_tick v) in
    let (e, (evaluated, meaning)) = evaluate-execute s v in
    (
      λ (d, (other, holds)).
          let same : e.counterexample ≡ d.counterexample = ap fired (sym evaluated ∙ other) in
          let both : (allowed s v && effective == status_revoked) ≡ true =
            sym meaning ∙ same ∙ holds in
          ground (arith, both, eq_iff effective status_revoked),
      λ (a, r). (e, (evaluated, meaning ∙ ground (arith, a, eq_iff effective status_revoked, r))),
    )

allowed_iff :
    (s : Scenario) (v : Variation)
    → (allowed s v ≡ true) ↔ (
        ((observe s v (effective_commit_tick v)).observed_status ≡ status_active)
        × ((s.action_quantity ≤ℤ s.authority.max_quantity)
            × InEffect s.authority v.revocation_tick v.check_tick))
unfolding allowed check_allows within_limit check_status
allowed_iff s v =
    let seen = (observe s v (effective_commit_tick v)).observed_status in
    let c = authority_effective_status s.authority v.revocation_tick v.check_tick in
    let (i, j) = effective-active_iff s.authority v.revocation_tick v.check_tick in
    (
      λ h. ground (arith, h, i, eq_iff seen status_active, eq_iff c status_active),
      λ h. ground (arith, h, j, eq_iff seen status_active, eq_iff c status_active),
    )

cached-status :
    (s : Scenario) (v : Variation) (t : ℤ)
    → s.enforcement_path ≡ "CHECK_ONCE_CACHED"
    → (observe s v t).observed_status
      ≡ authority_effective_status s.authority v.revocation_tick v.check_tick
unfolding observe
cached-status s v t path = ground (arith, path, eq_iff s.enforcement_path "CHECK_ONCE_CACHED")

stale-status :
    (s : Scenario) (v : Variation) (t : ℤ)
    → s.enforcement_path ≡ "STALE_PROPAGATION"
    → (observe s v t).observed_status
      ≡ authority_effective_status s.authority v.revocation_tick (t -ℤ v.propagation_delay)
unfolding observe
stale-status s v t path = ground (
  arith,
  path,
  eq_iff s.enforcement_path "STALE_PROPAGATION",
  ap (λ p. p == "CHECK_ONCE_CACHED") path,
)

recheck-status :
    (s : Scenario) (v : Variation) (t : ℤ)
    → (s.enforcement_path == "CHECK_ONCE_CACHED") ≡ false
    → (s.enforcement_path == "STALE_PROPAGATION") ≡ false
    → (observe s v t).observed_status ≡ authority_effective_status s.authority v.revocation_tick t
unfolding observe
recheck-status s v t c p = ground (arith, c, p)

-- Enforcement that is neither of the two defective paths allows a payment exactly when the quantity
-- is within the limit and the authority is in effect both at the check and at the commit, and no
-- variation of it is a counterexample.
pub recheck-never-Fires :
    (s : Scenario) (v : Variation)
    → (s.enforcement_path == "CHECK_ONCE_CACHED") ≡ false
    → (s.enforcement_path == "STALE_PROPAGATION") ≡ false
    → ((allowed s v ≡ true) ↔ (
        (s.action_quantity ≤ℤ s.authority.max_quantity)
        × (InEffect s.authority v.revocation_tick v.check_tick
            × InEffect s.authority v.revocation_tick (effective_commit_tick v))))
      × (¬ Fires s v)
recheck-never-Fires s v c p =
    let commit = effective_commit_tick v in
    let seen = recheck-status s v commit c p in
    let (i, j) = effective-active_iff s.authority v.revocation_tick commit in
    (
      (
        λ a.
            let (used, (limit, checked)) = (allowed_iff s v).0 a in
            (limit, (checked, i (sym seen ∙ used))),
        λ (limit, (checked, now)). (allowed_iff s v).1 (seen ∙ j now, (limit, checked)),
      ),
      λ fires.
          let (a, r) = (Fires-allowed_iff s v).0 fires in
          let (used, _) = (allowed_iff s v).0 a in revoked≢active (sym r ∙ sym seen ∙ used),
    )

-- With a cached decision, an execution is a counterexample exactly when the quantity is within the
-- limit, the authority was in effect at the check, and it is out of effect at the commit.
pub cached-Fires_iff :
    (s : Scenario) (v : Variation)
    → s.enforcement_path ≡ "CHECK_ONCE_CACHED"
    → Fires s v ↔ (
        (s.action_quantity ≤ℤ s.authority.max_quantity)
        × (InEffect s.authority v.revocation_tick v.check_tick
            × OutOfEffect s.authority v.revocation_tick (effective_commit_tick v)))
cached-Fires_iff s v path =
    let commit = effective_commit_tick v in
    let seen = cached-status s v commit path in
    let (i, j) = effective-active_iff s.authority v.revocation_tick v.check_tick in
    let (r, q) = effective-revoked_iff s.authority v.revocation_tick commit in
    (
      λ fires.
          let (a, out) = (Fires-allowed_iff s v).0 fires in
          let (_, (limit, checked)) = (allowed_iff s v).0 a in (limit, (checked, r out)),
      λ (limit, (checked, out)).
          (Fires-allowed_iff s v).1
            ((allowed_iff s v).1 (seen ∙ j checked, (limit, checked)), q out),
    )

-- With a replica that lags by the propagation delay, an execution is a counterexample exactly when
-- the quantity is within the limit, the authority was in effect at the check and at the tick the
-- replica shows, and it is out of effect at the commit.
pub stale-Fires_iff :
    (s : Scenario) (v : Variation)
    → s.enforcement_path ≡ "STALE_PROPAGATION"
    → Fires s v ↔ (
        (s.action_quantity ≤ℤ s.authority.max_quantity)
        × (InEffect s.authority v.revocation_tick v.check_tick
            × (InEffect s.authority v.revocation_tick
                  (effective_commit_tick v -ℤ v.propagation_delay)
                × OutOfEffect s.authority v.revocation_tick (effective_commit_tick v))))
stale-Fires_iff s v path =
    let commit = effective_commit_tick v in
    let replica = commit -ℤ v.propagation_delay in
    let seen = stale-status s v commit path in
    let (i, j) = effective-active_iff s.authority v.revocation_tick replica in
    let (r, q) = effective-revoked_iff s.authority v.revocation_tick commit in
    (
      λ fires.
          let (a, out) = (Fires-allowed_iff s v).0 fires in
          let (used, (limit, checked)) = (allowed_iff s v).0 a in
          (limit, (checked, (i (sym seen ∙ used), r out))),
      λ (limit, (checked, (shown, out))).
          (Fires-allowed_iff s v).1 ((allowed_iff s v).1 (seen ∙ j shown, (limit, checked)), q out),
    )
