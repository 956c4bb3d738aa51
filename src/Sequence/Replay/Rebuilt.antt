-- ===== src/Sequence/Replay/Rebuilt.antt =====
-- tools/oat_consequence_sequence_runner_004.py: what `rebuild_authority`, `rebuild_authorization` and
-- `replay_from_evidence` rebuild from the dictionaries that a run preserves.
use open_authority_trials_oa.Prelude.{
  subst, String, List, ◌∷◌, [], none, ◌≡◌, refl, ap, ◌∙◌, sym, ◌++◌, All, false, arith,
}
use open_authority_trials_oa.Prelude.Result.{ok}
use open_authority_trials_oa.Prelude.Int.{ℤ, ◌≤ℤ◌, ltb_ℤ}
use open_authority_trials_oa.Canonical.Json.{texts, items, get_field}
use open_authority_trials_oa.Authority.CurrentState.{
  AuthorityState, AuthorityStore, add, sort_from, insert_epoch, state_to_dict, state_dicts,
  store_to_dict,
}
use open_authority_trials_oa.Authority.CurrentState.Epochs.{IsSorted}
use open_authority_trials_oa.Authority.Authorization.{
  Authorization, authorization_to_dict, delegation_to_dict,
}
use open_authority_trials_oa.Sequence.Replay.{
  texts_of, texts_entry, int_entry, text_entry, entry, rebuild_epoch, rebuild_epochs,
  rebuild_authority, rebuild_authorization, is_delegated, undelegated, integrity_of,
}
use mathlib.Core.List.{append_assoc, append-nil}

texts_of-texts : (key : String) (ss : List String) → texts_of key (texts ss) ≡ ok ss
unfolding texts_of
texts_of-texts key [] = refl
texts_of-texts key (s ∷ ss) = rw (texts_of-texts key ss) refl

rebuild_epoch-state_to_dict : (s : AuthorityState) → rebuild_epoch (state_to_dict s) ≡ ok s
unfolding rebuild_epoch state_to_dict texts_entry int_entry entry get_field
rebuild_epoch-state_to_dict s =
    rw
      (
        texts_of-texts "active_grants" s.active_grants,
        texts_of-texts "revoked_grants" s.revoked_grants,
        texts_of-texts "superseded_grants" s.superseded_grants,
      )
      refl

All-middle :
    (t : ℤ) (before : AuthorityStore) (s : AuthorityState) (after : AuthorityStore)
    → All (λ (x : AuthorityState). t ≤ℤ x.effective_from) (before ++ s ∷ after)
    → t ≤ℤ s.effective_from
All-middle t [] s after h = h.0
All-middle t (b ∷ before) s after h = All-middle t before s after h.1

-- An epoch that begins after all others goes to the end.
insert_epoch-last :
    (before : AuthorityStore) (s : AuthorityState) (after : AuthorityStore)
    → IsSorted (before ++ s ∷ after)
    → insert_epoch s before ≡ before ++ s ∷ []
unfolding insert_epoch
insert_epoch-last [] s after h = refl
insert_epoch-last (b ∷ before) s after h =
    let later = All-middle b.effective_from before s after h.0 in
    let no : ltb_ℤ s.effective_from b.effective_from ≡ false = ground (arith, later) in
    rw (no, insert_epoch-last before s after h.1) refl

sort_from-sorted :
    (before after : AuthorityStore)
    → IsSorted (before ++ after)
    → sort_from before after ≡ before ++ after
unfolding sort_from
sort_from-sorted before [] h = sym (append-nil before)
sort_from-sorted before (s ∷ after) h = rw (insert_epoch-last before s after h) (
    sort_from-sorted (before ++ s ∷ []) after
      (subst IsSorted (sym (append_assoc before (s ∷ []) after)) h)
    ∙ append_assoc before (s ∷ []) after)

All-prefix :
    (P : AuthorityState → Type 0) (before after : AuthorityStore)
    → All P (before ++ after)
    → All P before
All-prefix P [] after h = tt
All-prefix P (b ∷ before) after h = (h.0, All-prefix P before after h.1)

IsSorted-prefix : (before after : AuthorityStore) → IsSorted (before ++ after) → IsSorted before
IsSorted-prefix [] after h = tt
IsSorted-prefix (b ∷ before) after h = (
  All-prefix (λ (x : AuthorityState). b.effective_from ≤ℤ x.effective_from) before after h.0,
  IsSorted-prefix before after h.1,
)

add-sorted :
    (store : AuthorityStore) (s : AuthorityState)
    → IsSorted (store ++ s ∷ [])
    → add store s ≡ store ++ s ∷ []
unfolding add
add-sorted store s h = sort_from-sorted [] (store ++ s ∷ []) h

rebuild_epochs-sorted :
    (store rest : AuthorityStore)
    → IsSorted (store ++ rest)
    → rebuild_epochs store (items (state_dicts rest)) ≡ ok (store ++ rest)
unfolding rebuild_epochs state_dicts
rebuild_epochs-sorted store [] h = ap ok (sym (append-nil store))
rebuild_epochs-sorted store (s ∷ rest) h =
    let whole = subst IsSorted (sym (append_assoc store (s ∷ []) rest)) h in
    let added = add-sorted store s (IsSorted-prefix (store ++ s ∷ []) rest whole) in
    rw (rebuild_epoch-state_to_dict s, added)
      (rebuild_epochs-sorted (store ++ s ∷ []) rest whole
        ∙ ap ok (append_assoc store (s ∷ []) rest))

-- A preserved authority store whose epochs are in their order is rebuilt as it was.
pub rebuild_authority-store_to_dict :
    (store : AuthorityStore) → IsSorted store → rebuild_authority (store_to_dict store) ≡ ok store
unfolding rebuild_authority store_to_dict entry get_field
rebuild_authority-store_to_dict store h = rebuild_epochs-sorted [] store h

rebuilt_undelegated :
    (a : Authorization)
    → a.delegation ≡ none
    → rebuild_authorization (authorization_to_dict a) ≡ ok (record a { delegation = none })
unfolding rebuild_authorization authorization_to_dict delegation_to_dict is_delegated undelegated
    text_entry int_entry integrity_of entry get_field
rebuilt_undelegated a e = rw e refl

pub rebuild_authorization-undelegated :
    (a : Authorization)
    → a.delegation ≡ none
    → rebuild_authorization (authorization_to_dict a) ≡ ok a
rebuild_authorization-undelegated a e =
    rebuilt_undelegated a e ∙ ap (λ d. ok (record a { delegation = d })) (sym e)
