-- ===== src/Authority/CurrentState.antt =====
-- oat/authority/current_state.py
pub mod Epochs
use open_authority_trials_oa.Prelude.{
  String, Bool, Option, none, some, List, [], ◌∷◌, ◌++◌, contains, if◌then◌else◌,
}
use open_authority_trials_oa.Prelude.Int.{ℤ, ltb_ℤ, leb_ℤ}
use open_authority_trials_oa.Canonical.Json.{Json, num, arr, texts, list, dict}
use open_authority_trials_oa.Canonical.Digest.{Hashing, digest_object}

pub record AuthorityState : Type 0 where
  pub epoch : ℤ
  pub effective_from : ℤ
  pub active_grants : List String
  pub revoked_grants : List String
  pub superseded_grants : List String

unfoldable pub state_to_dict : AuthorityState → Json
state_to_dict s = dict (
    ("epoch", num s.epoch)
    ∷ ("effective_from", num s.effective_from)
    ∷ ("active_grants", arr (texts s.active_grants))
    ∷ ("revoked_grants", arr (texts s.revoked_grants))
    ∷ ("superseded_grants", arr (texts s.superseded_grants))
    ∷ [])

unfoldable pub state_digest : Hashing → AuthorityState → String
unfolding state_to_dict
state_digest h s = digest_object h (state_to_dict s)

pub data Status : Type 0 where
  revoked superseded active unknown_grant : Status

unfoldable pub status_of : AuthorityState → String → Status
unfolding contains
status_of s grant_id =
    if contains s.revoked_grants grant_id
    then revoked
    else if contains s.superseded_grants grant_id
    then superseded
    else if contains s.active_grants grant_id
    then active
    else unknown_grant

-- An `AuthorityStore` is its list of epochs.
abbrev pub AuthorityStore : Type 0
AuthorityStore = List AuthorityState

-- An epoch goes behind those that begin no later.
unfoldable pub insert_epoch : AuthorityState → AuthorityStore → AuthorityStore
insert_epoch state [] = state ∷ []
insert_epoch state (s ∷ epochs) =
    if ltb_ℤ state.effective_from s.effective_from
    then state ∷ s ∷ epochs
    else s ∷ insert_epoch state epochs

-- `list.sort` by `effective_from`, which is stable, as insertion from the front.
unfoldable pub sort_from : AuthorityStore → AuthorityStore → AuthorityStore
unfolding insert_epoch
sort_from sorted [] = sorted
sort_from sorted (s ∷ epochs) = sort_from (insert_epoch s sorted) epochs

-- append, then sort
unfoldable pub add : AuthorityStore → AuthorityState → AuthorityStore
unfolding sort_from
add epochs state = sort_from [] (epochs ++ state ∷ [])

-- the loop of `at`, with its `break`
unfoldable pub at_from : Option AuthorityState → AuthorityStore → ℤ → Option AuthorityState
at_from candidate [] tick = candidate
at_from candidate (s ∷ epochs) tick =
    if leb_ℤ s.effective_from tick then at_from (some s) epochs tick else candidate

unfoldable pub at : AuthorityStore → ℤ → Option AuthorityState
unfolding at_from
at epochs tick = at_from none epochs tick

unfoldable pub state_dicts : AuthorityStore → List Json
unfolding state_to_dict
state_dicts [] = []
state_dicts (s ∷ epochs) = state_to_dict s ∷ state_dicts epochs

unfoldable pub store_to_dict : AuthorityStore → Json
unfolding state_dicts
store_to_dict epochs = dict (("epochs", list (state_dicts epochs)) ∷ [])
