-- ===== src/Sequence/Replay.antt =====
-- tools/oat_consequence_sequence_runner_004.py: `rebuild_authority`, `rebuild_authorization` and the
-- host that `replay_from_evidence` makes of preserved evidence. The copies of the two stores hold the
-- rows of the run. A value of another kind than the evidence has is an error here.
pub mod Rebuilt
pub mod Forgotten
use open_authority_trials_oa.Prelude.{
  String, List, Option, ◌∷◌, [], none, some, ◌==◌, if◌then◌else◌, Bool, true, false, not, ◌++◌,
}
use open_authority_trials_oa.Prelude.Result.{Result, ok, err, ◌>>=◌}
use open_authority_trials_oa.Prelude.Int.{ℤ}
use open_authority_trials_oa.Prelude.Dict.{Dict}
use open_authority_trials_oa.Canonical.Json.{
  Json, Fields, Items, get_field, null, bool, num, str, arr, obj, nil, cons,
}
use open_authority_trials_oa.Authority.CurrentState.{AuthorityState, AuthorityStore, add}
use open_authority_trials_oa.Authority.Authorization.{Authorization, authorization_to_dict}
use open_authority_trials_oa.HostSink.{Host, new_host, register}
use open_authority_trials_oa.HostSink.Reference.{reference_issuer}
use open_authority_trials_oa.HostSink.Tables.{SqliteLedger, SqliteObserver}
use open_authority_trials_oa.Consequence.Model.{ProtectedSink}

pub data ReplayError : Type 0 where
  missing_entry other_kind : String → ReplayError
  delegated : ReplayError

abbrev as_text : String → Json → Result ReplayError String
as_text key (str s) = ok s
as_text key null = err (other_kind key)
as_text key (bool b) = err (other_kind key)
as_text key (num n) = err (other_kind key)
as_text key (arr xs) = err (other_kind key)
as_text key (obj fs) = err (other_kind key)

abbrev as_int : String → Json → Result ReplayError ℤ
as_int key (num n) = ok n
as_int key (str s) = err (other_kind key)
as_int key null = err (other_kind key)
as_int key (bool b) = err (other_kind key)
as_int key (arr xs) = err (other_kind key)
as_int key (obj fs) = err (other_kind key)

abbrev as_items : String → Json → Result ReplayError Items
as_items key (arr xs) = ok xs
as_items key (num n) = err (other_kind key)
as_items key (str s) = err (other_kind key)
as_items key null = err (other_kind key)
as_items key (bool b) = err (other_kind key)
as_items key (obj fs) = err (other_kind key)

-- `record[key]`
unfoldable pub entry : Fields → String → Result ReplayError Json
unfolding get_field
entry record_of key = elim (get_field record_of key) [
  | none ↦ err (missing_entry key)
  | some v ↦ ok v
]

unfoldable pub text_entry : Fields → String → Result ReplayError String
unfolding entry
text_entry fs key = entry fs key >>= λ v. as_text key v

unfoldable pub int_entry : Fields → String → Result ReplayError ℤ
unfolding entry
int_entry fs key = entry fs key >>= λ v. as_int key v

-- `tuple(...)` of a list of texts
unfoldable pub texts_of : String → Items → Result ReplayError (List String)
texts_of key nil = ok []
texts_of key (cons v vs) =
    let rest = texts_of key vs in as_text key v >>= λ s. rest >>= λ ss. ok (s ∷ ss)

unfoldable pub texts_entry : Fields → String → Result ReplayError (List String)
unfolding entry texts_of
texts_entry fs key = entry fs key >>= λ v. as_items key v >>= λ vs. texts_of key vs

unfoldable pub rebuild_epoch : Json → Result ReplayError AuthorityState
unfolding int_entry texts_entry
rebuild_epoch (obj epoch) = int_entry epoch "epoch" >>= λ number.
    int_entry epoch "effective_from" >>= λ effective_from.
    texts_entry epoch "active_grants" >>= λ active.
    texts_entry epoch "revoked_grants" >>= λ revoked.
    texts_entry epoch "superseded_grants" >>= λ superseded. ok (record {
      epoch = number;
      effective_from = effective_from;
      active_grants = active;
      revoked_grants = revoked;
      superseded_grants = superseded;
    })
rebuild_epoch _ = err (other_kind "epochs")

-- the loop of `rebuild_authority`
unfoldable pub rebuild_epochs : AuthorityStore → Items → Result ReplayError AuthorityStore
unfolding rebuild_epoch add
rebuild_epochs store nil = ok store
rebuild_epochs store (cons v vs) = rebuild_epoch v >>= λ s. rebuild_epochs (add store s) vs

unfoldable pub rebuild_authority : Json → Result ReplayError AuthorityStore
unfolding rebuild_epochs entry
rebuild_authority (obj fs) =
    entry fs "epochs" >>= λ v. as_items "epochs" v >>= λ vs. rebuild_epochs [] vs
rebuild_authority _ = err (other_kind "authority")

-- `record.get("delegation") not in (None, "NOT_APPLICABLE")`
unfoldable pub is_delegated : Option Json → Bool
is_delegated none = false
is_delegated (some null) = false
is_delegated (some (str s)) = not (s == "NOT_APPLICABLE")
is_delegated (some (bool b)) = true
is_delegated (some (num n)) = true
is_delegated (some (arr xs)) = true
is_delegated (some (obj fs)) = true

-- `record.get("integrity", "")`
unfoldable pub integrity_of : Fields → Result ReplayError String
unfolding get_field
integrity_of fs = elim (get_field fs "integrity") [ none ↦ ok "" | some v ↦ as_text "integrity" v ]

unfoldable pub undelegated : Fields → Result ReplayError Authorization
unfolding text_entry int_entry integrity_of
undelegated r = text_entry r "authorization_id" >>= λ authorization_id.
    text_entry r "grant_id" >>= λ grant_id. text_entry r "decision" >>= λ decision.
    text_entry r "tenant_id" >>= λ tenant_id. text_entry r "principal_id" >>= λ principal_id.
    text_entry r "agent_id" >>= λ agent_id. text_entry r "release_id" >>= λ release_id.
    text_entry r "action_digest" >>= λ action_digest. text_entry r "sink_id" >>= λ sink_id.
    text_entry r "scope" >>= λ scope.
    text_entry r "authority_state_digest" >>= λ authority_state_digest.
    int_entry r "not_before" >>= λ not_before. int_entry r "not_after" >>= λ not_after.
    text_entry r "idempotency_key" >>= λ idempotency_key. int_entry r "max_uses" >>= λ max_uses.
    integrity_of r >>= λ integrity. ok (record {
      authorization_id = authorization_id;
      grant_id = grant_id;
      decision = decision;
      tenant_id = tenant_id;
      principal_id = principal_id;
      agent_id = agent_id;
      release_id = release_id;
      action_digest = action_digest;
      sink_id = sink_id;
      scope = scope;
      authority_state_digest = authority_state_digest;
      not_before = not_before;
      not_after = not_after;
      idempotency_key = idempotency_key;
      max_uses = max_uses;
      delegation = none;
      integrity = integrity;
    })

unfoldable pub rebuild_authorization : Json → Result ReplayError Authorization
unfolding is_delegated undelegated get_field
rebuild_authorization (obj r) =
    if is_delegated (get_field r "delegation") then err delegated else undelegated r
rebuild_authorization _ = err (other_kind "authorizations")

-- What the evidence files preserve of a host.
pub record PreservedEvidence : Type 0 where
  pub sink : ProtectedSink
  pub authority : Json
  pub authorizations : List Json
  pub ledger : SqliteLedger
  pub observer : SqliteObserver

unfoldable pub authorization_dicts : Dict Authorization → List Json
unfolding authorization_to_dict
authorization_dicts [] = []
authorization_dicts ((k, a) ∷ d) = authorization_to_dict a ∷ authorization_dicts d

-- the registration of the preserved authorizations, in their order
unfoldable pub register_all : Host → List Json → Result ReplayError Host
unfolding rebuild_authorization register
register_all host [] = ok host
register_all host (v ∷ vs) = rebuild_authorization v >>= λ a. register_all (register host a) vs

-- The host of the replay: the frozen integration over the copied stores, with an issuer that has the
-- reference secret and no use.
unfoldable pub replay_host : PreservedEvidence → Result ReplayError Host
unfolding rebuild_authority register_all new_host
replay_host e = rebuild_authority e.authority >>= λ authority.
    register_all
      (record (new_host e.sink authority reference_issuer) {
        ledger = e.ledger;
        observer = e.observer;
      })
      e.authorizations
