-- ===== src/Authority/Delegation.antt =====
-- oat/authority/delegation.py
pub mod Soundness
use open_authority_trials_oa.Prelude.{
  ℕ, ◌+◌, String, Bool, true, false, not, Option, none, some, List, [], ◌∷◌, ◌==◌, all, contains,
  is_empty, if◌then◌else◌,
}
use open_authority_trials_oa.Canonical.Json.{Json, str, arr, list, texts, dict}

pub record DelegationLink : Type 0 where
  pub delegator : String
  pub delegate : String
  pub scope : List String

pub record DelegationChain : Type 0 where
  pub root : String
  pub links : List DelegationLink

unfoldable pub link_to_dict : DelegationLink → Json
link_to_dict link = dict (
    ("delegator", str link.delegator)
    ∷ ("delegate", str link.delegate)
    ∷ ("scope", arr (texts link.scope))
    ∷ [])

unfoldable pub link_dicts : List DelegationLink → List Json
unfolding link_to_dict
link_dicts [] = []
link_dicts (link ∷ links) = link_to_dict link ∷ link_dicts links

unfoldable pub chain_to_dict : DelegationChain → Json
unfolding link_dicts
chain_to_dict chain =
    dict (("root", str chain.root) ∷ ("links", list (link_dicts chain.links)) ∷ [])

-- The delegate of the last link, and `principal` if there is none.
unfoldable pub terminal_from : String → List DelegationLink → String
terminal_from principal [] = principal
terminal_from principal (link ∷ links) = terminal_from link.delegate links

unfoldable pub terminal_principal : DelegationChain → String
unfolding terminal_from
terminal_principal chain = terminal_from chain.root chain.links

pub data Reason : Type 0 where
  root_is_not_acting_principal no_delegation terminal_is_not_acting_principal : Reason
  scope_insufficient delegation_valid : Reason
  chain_broken_at_link amplified_at_link : ℕ → Reason

-- How the loop over the links ends: with an early return, or with the scope that is held.
pub data Walk : Type 0 where
  failed : Reason → Walk
  walked : Option (List String) → Walk

-- `scope <= held` on sets
unfoldable pub subset : List String → List String → Bool
unfolding all contains
subset scope held = all (contains held) scope

unfoldable pub amplifies : Option (List String) → List String → Bool
unfolding subset
amplifies none scope = false
amplifies (some held) scope = not (subset scope held)

unfoldable pub check_links : ℕ → String → Option (List String) → List DelegationLink → Walk
unfolding amplifies
check_links index expected held [] = walked held
check_links index expected held (link ∷ links) =
    if not (link.delegator == expected)
    then failed (chain_broken_at_link index)
    else if amplifies held link.scope
    then failed (amplified_at_link index)
    else check_links (index + 1) link.delegate (some link.scope) links

unfoldable pub holds : Option (List String) → String → Bool
unfolding contains
holds none scope = false
holds (some held) scope = contains held scope

unfoldable pub conclude : DelegationChain → String → String → Walk → Bool × Reason
unfolding terminal_principal holds
conclude chain acting_principal required_scope (failed reason) = (false, reason)
conclude chain acting_principal required_scope (walked held) =
    if not (terminal_principal chain == acting_principal)
    then (false, terminal_is_not_acting_principal)
    else if not (holds held required_scope)
    then (false, scope_insufficient)
    else (true, delegation_valid)

unfoldable pub validate_delegation : DelegationChain → String → String → Bool × Reason
unfolding check_links conclude
validate_delegation chain acting_principal required_scope =
    if is_empty chain.links
    then (if not (chain.root == acting_principal)
        then (false, root_is_not_acting_principal)
        else (true, no_delegation))
    else conclude chain acting_principal required_scope (check_links 0 chain.root none chain.links)

-- `reason.startswith("DELEGATION_AMPLIFIED")`
unfoldable pub is_amplified : Reason → Bool
is_amplified (amplified_at_link index) = true
is_amplified _ = false
