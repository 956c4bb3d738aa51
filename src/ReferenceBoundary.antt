-- ===== src/ReferenceBoundary.antt =====
-- oat/reference_boundaries/rb001.py: the synthetic boundary RB-001. Statuses and enforcement paths
-- are texts, as in the source; ticks are integers.
use open_authority_trials_oa.Prelude.{
  String, Bool, List, if◌then◌else◌, ◌==◌, ◌++◌, [], ◌∷◌, ◌&&◌, true, ◌||◌, length, false,
}
use open_authority_trials_oa.Canonical.Json.{Json, Fields, dict, str, num, bool, fields, list}
use open_authority_trials_oa.Prelude.Int.{ℤ, ◌+ℤ◌, leb_ℤ, ltb_ℤ, ◌-ℤ◌, pos}
use open_authority_trials_oa.Prelude.Dict.{Dict}

abbrev pub status_active : String
status_active = "ACTIVE"

abbrev pub status_revoked : String
status_revoked = "REVOKED"

pub record AuthorityInput : Type 0 where
  pub subject : String
  pub resource_or_beneficiary : String
  pub max_quantity : ℤ
  pub unit : String
  pub valid_from : ℤ
  pub valid_until : ℤ
  pub status : String

unfoldable pub authority_input_to_dict : AuthorityInput → Json
authority_input_to_dict a = dict (
    ("subject", str a.subject)
    ∷ ("resource_or_beneficiary", str a.resource_or_beneficiary)
    ∷ ("max_quantity", num a.max_quantity)
    ∷ ("unit", str a.unit)
    ∷ ("valid_from", num a.valid_from)
    ∷ ("valid_until", num a.valid_until)
    ∷ ("status", str a.status)
    ∷ [])

pub record Variation : Type 0 where
  pub check_tick : ℤ
  pub revocation_tick : ℤ
  pub commit_tick : ℤ
  pub propagation_delay : ℤ
  pub retry_index : ℤ
  pub duplicate_request : Bool

unfoldable pub variation_to_dict : Variation → Json
variation_to_dict v = dict (
    ("check_tick", num v.check_tick)
    ∷ ("commit_tick", num v.commit_tick)
    ∷ ("duplicate_request", bool v.duplicate_request)
    ∷ ("propagation_delay", num v.propagation_delay)
    ∷ ("retry_index", num v.retry_index)
    ∷ ("revocation_tick", num v.revocation_tick)
    ∷ [])

-- The search space maps a dimension's name to the values it may take.
pub record Scenario : Type 0 where
  pub scenario_id : String
  pub enforcement_path : String
  pub authority : AuthorityInput
  pub action_quantity : ℤ
  pub execution_identity : String
  pub baseline : Variation
  pub search_space : Dict (List Json)

unfoldable pub authority_effective_status : AuthorityInput → ℤ → ℤ → String
authority_effective_status a revocation_tick at_tick =
    if leb_ℤ revocation_tick at_tick
    then status_revoked
    else if ltb_ℤ at_tick a.valid_from || ltb_ℤ a.valid_until at_tick
    then status_revoked
    else a.status

pub record Observation : Type 0 where
  pub observed_status : String
  pub observed_at : ℤ
  pub read_source : String

-- `_observed_status`
unfoldable pub observe : Scenario → Variation → ℤ → Observation
observe s v commit_tick =
    if s.enforcement_path == "CHECK_ONCE_CACHED"
    then record {
      observed_status = authority_effective_status s.authority v.revocation_tick v.check_tick;
      observed_at = v.check_tick;
      read_source = "CACHED_DECISION";
    }
    else if s.enforcement_path == "STALE_PROPAGATION"
    then record {
      observed_status =
          authority_effective_status s.authority v.revocation_tick
            (commit_tick -ℤ v.propagation_delay);
      observed_at = commit_tick -ℤ v.propagation_delay;
      read_source = "LAGGING_REPLICA";
    }
    else record {
      observed_status = authority_effective_status s.authority v.revocation_tick commit_tick;
      observed_at = commit_tick;
      read_source = "AUTHORITATIVE_SOURCE";
    }

-- The tick at which the consequence is committed.
unfoldable pub effective_commit_tick : Variation → ℤ
effective_commit_tick v = v.commit_tick +ℤ v.retry_index

unfoldable pub within_limit : Scenario → Bool
within_limit s = leb_ℤ s.action_quantity s.authority.max_quantity

unfoldable pub check_status : Scenario → Variation → String
check_status s v = authority_effective_status s.authority v.revocation_tick v.check_tick

-- `check_decision == "ALLOW"`
unfoldable pub check_allows : Scenario → Variation → Bool
check_allows s v = check_status s v == status_active && within_limit s

unfoldable pub allowed : Scenario → Variation → Bool
allowed s v =
    (observe s v (effective_commit_tick v)).observed_status == status_active
    && (within_limit s && check_allows s v)

-- the local function `emit` of `execute`
abbrev pub emit : List Json → ℤ → String → List (String × Json) → List Json
emit events tick event payload =
    events
    ++ dict
        (("seq", num (pos (length events))) ∷ ("tick", num tick) ∷ ("event", str event) ∷ payload)
      ∷ []

abbrev pub proposed : Scenario → Variation → List Json → List Json
proposed s v events = emit events v.check_tick "action_proposed" (
    ("subject", str s.authority.subject)
    ∷ ("beneficiary", str s.authority.resource_or_beneficiary)
    ∷ ("quantity", num s.action_quantity)
    ∷ ("unit", str s.authority.unit)
    ∷ [])

abbrev pub checked : Scenario → Variation → List Json → List Json
checked s v events = emit events v.check_tick "authorization_checked" (
    ("authority_status_observed", str (check_status s v))
    ∷ ("within_quantity_limit", bool (within_limit s))
    ∷ ("decision", str (if check_allows s v then "ALLOW" else "DENY"))
    ∷ ("read_source", str "AUTHORITATIVE_SOURCE")
    ∷ [])

abbrev pub transition : Variation → List Json → List Json
transition v events = emit events v.revocation_tick "authority_transition" (
    ("from_status", str status_active)
    ∷ ("to_status", str status_revoked)
    ∷ ("effective_tick", num v.revocation_tick)
    ∷ ("accepted_by", str "AUTHORITY_SOURCE")
    ∷ [])

abbrev pub requested : Variation → Bool → List Json → List Json
requested v duplicate events =
    emit events (effective_commit_tick v) "commit_requested"
      (("retry_index", num v.retry_index) ∷ ("duplicate", bool duplicate) ∷ [])

abbrev pub decided : Scenario → Variation → List Json → List Json
decided s v events =
    let seen = observe s v (effective_commit_tick v) in
    emit events (effective_commit_tick v) "commit_decision" (
      ("enforcement_path", str s.enforcement_path)
      ∷ ("authority_status_used", str seen.observed_status)
      ∷ ("authority_status_observed_at_tick", num seen.observed_at)
      ∷ ("read_source", str seen.read_source)
      ∷ ("allowed", bool (allowed s v))
      ∷ [])

abbrev pub committed : Scenario → Variation → List Json → List Json
committed s v events = emit events (effective_commit_tick v) "consequence_committed" (
    ("committed", bool (allowed s v))
    ∷ ("quantity", num (if allowed s v then s.action_quantity else pos 0))
    ∷ ("unit", str s.authority.unit)
    ∷ ("beneficiary", str s.authority.resource_or_beneficiary)
    ∷ [])

unfoldable pub events_of : Scenario → Variation → List Json
events_of s v =
    let asked = transition v (checked s v (proposed s v [])) in
    let first = if v.duplicate_request then requested v true asked else asked in
    committed s v (decided s v (requested v false first))

-- The trace as the fields of a dictionary.
unfoldable pub execute : Scenario → Variation → Fields
execute s v = fields (
    ("trace_form", str "oat-observable-trace/1")
    ∷ ("boundary_id", str "RB-001")
    ∷ ("boundary_version", str "0.1.0")
    ∷ ("scenario_id", str s.scenario_id)
    ∷ ("execution_identity", str s.execution_identity)
    ∷ ("enforcement_path", str s.enforcement_path)
    ∷ ("authority_input", authority_input_to_dict s.authority)
    ∷ ("variation", variation_to_dict v)
    ∷ ("commit_tick", num (effective_commit_tick v))
    ∷ (
      "authority_effective_at_commit",
      str (authority_effective_status s.authority v.revocation_tick (effective_commit_tick v)),
    )
    ∷ ("events", list (events_of s v))
    ∷ [])
