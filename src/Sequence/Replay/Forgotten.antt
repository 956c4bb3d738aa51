-- ===== src/Sequence/Replay/Forgotten.antt =====
-- tools/oat_consequence_sequence_runner_004.py: the host that `replay_from_evidence` makes of the
-- evidence that `run_s3` preserves of its own.
use open_authority_trials_oa.Prelude.{
  String, ◌∷◌, [], none, ◌==◌, ◌≡◌, refl, ap, ◌∙◌, sym, ◌++◌, All, Bool-cases, inl, inr, map,
}
use open_authority_trials_oa.Prelude.Result.{ok}
use open_authority_trials_oa.Prelude.Int.{ℤ, pos}
use open_authority_trials_oa.Prelude.Dict.{Dict, get, put, get_or}
use open_authority_trials_oa.Authority.CurrentState.{store_to_dict}
use open_authority_trials_oa.Authority.CurrentState.Epochs.{IsSorted}
use open_authority_trials_oa.Authority.Authorization.{Authorization, use_count}
use open_authority_trials_oa.HostSink.{Host, register, new_host}
use open_authority_trials_oa.HostSink.Reference.{reference_issuer}
use open_authority_trials_oa.HostSink.Handlers.{host_evidence}
use open_authority_trials_oa.Sequence.Replay.{
  PreservedEvidence, authorization_dicts, register_all, replay_host,
}
use open_authority_trials_oa.Sequence.Replay.Rebuilt.{
  rebuild_authority-store_to_dict, rebuild_authorization-undelegated,
}
use mathlib.Core.Option.{none-ne-some}
use mathlib.Core.List.{append_assoc, append-nil}

-- what `run_s3` writes of a host
unfoldable pub preserved : Host → PreservedEvidence
unfolding store_to_dict
preserved host = record {
  sink = host.sink;
  authority = store_to_dict host.authority;
  authorizations = authorization_dicts host.authorizations;
  ledger = host.ledger;
  observer = host.observer;
}

-- Undelegated authorizations under their ids, none of which is among the ids before.
unfoldable pub IsRegistered : Dict Authorization → Dict Authorization → Type 0
unfolding get
IsRegistered before [] = Unit
IsRegistered before ((k, a) ∷ d) =
    (k ≡ a.authorization_id)
    × (a.delegation ≡ none)
    × (get before k ≡ none)
    × IsRegistered (before ++ (k, a) ∷ []) d

put-absent {ℓ} :
    {V : Type ℓ} (d : Dict V) (k : String) (v : V) → get d k ≡ none → put d k v ≡ d ++ (k, v) ∷ []
unfolding get put
put-absent [] k v h = refl
put-absent ((j, w) ∷ d) k v h = elim (Bool-cases (j == k)) [
  | inl e ↦ absurd (none-ne-some w (sym (rw e at h)))
  | inr e ↦
      let absent : get d k ≡ none = rw e at h in
      rw e (ap (λ tail. (j, w) ∷ tail) (put-absent d k v absent))
]

register-new :
    (host : Host) (k : String) (a : Authorization)
    → k ≡ a.authorization_id
    → get host.authorizations k ≡ none
    → register host a ≡ record host { authorizations = host.authorizations ++ (k, a) ∷ [] }
unfolding register
register-new host k a same new =
    ap (λ id. record host { authorizations = put host.authorizations id a }) (sym same)
    ∙ ap (λ held. record host { authorizations = held }) (put-absent host.authorizations k a new)

register_all-registered :
    (host : Host) (d : Dict Authorization)
    → IsRegistered host.authorizations d
    → register_all host (authorization_dicts d)
      ≡ ok (record host { authorizations = host.authorizations ++ d })
unfolding register_all authorization_dicts IsRegistered
register_all-registered host [] h =
    ap (λ held. ok (record host { authorizations = held })) (sym (append-nil host.authorizations))
register_all-registered host ((k, a) ∷ d) (same, plain, new, later) =
    rw (rebuild_authorization-undelegated a plain, register-new host k a same new)
      (register_all-registered (record host { authorizations = host.authorizations ++ (k, a) ∷ [] })
          d later
        ∙ ap (λ held. ok (record host { authorizations = held }))
            (append_assoc host.authorizations ((k, a) ∷ []) d))

use_counts-zero :
    (d : Dict Authorization)
    → All
        (λ (e : String × ℤ). e.1 ≡ pos 0)
        (map (λ (e : String × Authorization). (e.0, use_count reference_issuer e.0)) d)
unfolding use_count get_or get
use_counts-zero [] = tt
use_counts-zero (e ∷ d) = (refl, use_counts-zero d)

-- For a host whose epochs are in their order and whose authorizations are undelegated and registered
-- under their ids, the replay rebuilds from what the run preserved the host as it was but for its
-- issuer: the reference issuer takes its place, and every authorization has zero uses in the
-- evidence that is adjudicated again, whatever uses the run counted.
pub replay_host-preserved :
    (host : Host)
    → IsSorted host.authority
    → IsRegistered [] host.authorizations
    → (r : Host) × (replay_host (preserved host) ≡ ok r)
      × (r ≡ record host { issuer = reference_issuer })
      × All (λ (e : String × ℤ). e.1 ≡ pos 0) (host_evidence r).use_counts
unfolding replay_host preserved new_host host_evidence
replay_host-preserved host sorted registered = (
  record host { issuer = reference_issuer },
  rw (rebuild_authority-store_to_dict host.authority sorted) (
      register_all-registered (record host { issuer = reference_issuer; authorizations = [] })
        host.authorizations registered),
  refl,
  use_counts-zero host.authorizations,
)
