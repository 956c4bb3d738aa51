-- ===== src/Consequence/Model.antt =====
-- oat/consequence/canonical.py and oat/consequence/model.py
-- A missing field is reported as the list of all missing fields; the source joins it into a text.
use open_authority_trials_oa.Prelude.{
  List, keep, String, Bool, ◌∷◌, not, ◌==◌, [], is_none, Option, none, some,
}
use open_authority_trials_oa.Canonical.Json.{
  get_field, Fields, Json, end, fields, dict, str, obj, num, opt_text, field,
}
use open_authority_trials_oa.Canonical.Digest.{Hashing, digest_object}
use open_authority_trials_oa.Prelude.Result.{Result, err, ok}
use open_authority_trials_oa.Prelude.Int.{ℤ}

pub data Normalized : Type 0 where
  missing_fields : List String → Normalized
  normalized : Fields → Normalized

abbrev pub exact_action_fields : List String
exact_action_fields =
    "action_type" ∷ "target" ∷ "parameters" ∷ "quantity" ∷ "unit" ∷ "principal_id" ∷ "sink_id"
    ∷ "tenant_id" ∷ "release_id" ∷ []

-- `field in action`
unfoldable pub has_field : Fields → String → Bool
unfolding get_field
has_field action name = not (is_none (get_field action name))

-- `{field: action[field] for field in fields}`; every name is a key of `action` where it is called
unfoldable pub pick : Fields → List String → Fields
unfolding get_field
pick action [] = end
pick action (name ∷ names) =
    let rest = pick action names in
    elim (get_field action name) [ none ↦ rest | some v ↦ field name v rest ]

unfoldable pub normalize_fields : List String → Fields → List String → Normalized
normalize_fields names action [] = normalized (pick action names)
normalize_fields names action (m ∷ missing) = missing_fields (m ∷ missing)

unfoldable pub normalize_action : Fields → Normalized
unfolding keep has_field normalize_fields pick
normalize_action action =
    normalize_fields exact_action_fields action
      (keep (λ name. not (has_field action name)) exact_action_fields)

-- The digest, or the missing fields where the source raises.
unfoldable pub exact_action_digest : Hashing → Fields → Result (List String) String
exact_action_digest h action = elim (normalize_action action) [
  | missing_fields names ↦ err names
  | normalized fs ↦ ok (digest_object h (obj fs))
]

pub record ProtectedSink : Type 0 where
  pub sink_id : String
  pub description : String

pub record NormalizedAction : Type 0 where
  pub action_type : String
  pub target : String
  pub parameters : Fields
  pub quantity : Json
  pub unit : String
  pub principal_id : String
  pub sink_id : String
  pub tenant_id : String
  pub release_id : String

-- `to_dict` normalizes a dictionary that has all the fields.
unfoldable pub action_fields : NormalizedAction → Fields
action_fields a = fields (
    ("action_type", str a.action_type)
    ∷ ("target", str a.target)
    ∷ ("parameters", obj a.parameters)
    ∷ ("quantity", a.quantity)
    ∷ ("unit", str a.unit)
    ∷ ("principal_id", str a.principal_id)
    ∷ ("sink_id", str a.sink_id)
    ∷ ("tenant_id", str a.tenant_id)
    ∷ ("release_id", str a.release_id)
    ∷ [])

unfoldable pub action_to_dict : NormalizedAction → Normalized
unfolding action_fields
action_to_dict a = normalize_action (action_fields a)

-- `digest`: the fields of the record are all there, so the source's call does not raise.
unfoldable pub normalized_action_digest : Hashing → NormalizedAction → String
unfolding action_fields
normalized_action_digest h a = digest_object h (obj (action_fields a))

pub record CommitEvent : Type 0 where
  pub commit_id : String
  pub sink_id : String
  pub route_id : String
  pub tenant_id : String
  pub principal_id : String
  pub agent_id : String
  pub release_id : String
  pub action_digest : String
  pub normalized_action : Fields
  pub committed_at : ℤ
  pub authorization_ref : Option String
  pub authority_state_ref : Option String
  pub idempotency_key : String
  pub trace_ref : String

unfoldable pub commit_to_dict : CommitEvent → Json
commit_to_dict c = dict (
    ("commit_id", str c.commit_id)
    ∷ ("sink_id", str c.sink_id)
    ∷ ("route_id", str c.route_id)
    ∷ ("tenant_id", str c.tenant_id)
    ∷ ("principal_id", str c.principal_id)
    ∷ ("agent_id", str c.agent_id)
    ∷ ("release_id", str c.release_id)
    ∷ ("action_digest", str c.action_digest)
    ∷ ("normalized_action", obj c.normalized_action)
    ∷ ("committed_at", num c.committed_at)
    ∷ ("authorization_ref", opt_text c.authorization_ref)
    ∷ ("authority_state_ref", opt_text c.authority_state_ref)
    ∷ ("idempotency_key", str c.idempotency_key)
    ∷ ("trace_ref", str c.trace_ref)
    ∷ [])

unfoldable pub protects : ProtectedSink → CommitEvent → Bool
protects sink commit = commit.sink_id == sink.sink_id

pub record ConsequenceReceipt : Type 0 where
  pub receipt_id : String
  pub commit_id : String
  pub sink_id : String
  pub route_id : String
  pub observed_at : ℤ
  pub action_digest : String
  pub observer : String

unfoldable pub receipt_to_dict : ConsequenceReceipt → Json
receipt_to_dict r = dict (
    ("receipt_id", str r.receipt_id)
    ∷ ("commit_id", str r.commit_id)
    ∷ ("sink_id", str r.sink_id)
    ∷ ("route_id", str r.route_id)
    ∷ ("observed_at", num r.observed_at)
    ∷ ("action_digest", str r.action_digest)
    ∷ ("observer", str r.observer)
    ∷ [])

pub record SinkState : Type 0 where
  pub commits : List CommitEvent
  pub receipts : List ConsequenceReceipt
