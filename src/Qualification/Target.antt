-- ===== src/Qualification/Target.antt =====
-- oat/qualification/target_service.py, and the targets of oat/qualification/synthetic_targets.py.
-- The values of an action and of an authorization are the texts that `str` makes of them.
pub mod Flaws
use Prim.Native.String
use Prim.Native.Nat.{suc}
use open_authority_trials_oa.Prelude.{
  String, ℕ, List, any, all, Bool, keep, [], Option, ◌==◌, not, ◌||◌, if◌then◌else◌, ◌∷◌, ◌&&◌,
  ◌++◌, none, false, length, some,
}
use open_authority_trials_oa.Prelude.Dict.{get, get_or, Dict}
use open_authority_trials_oa.Prelude.Show.{show}

pub record Route : Type 0 where
  pub route_id : String
  pub path : String
  pub family : String

pub record TargetGroundTruth : Type 0 where
  pub mechanism : String
  pub undeclared_route : Route
  pub unenforced_dimension : Option String
  pub valid_authorization : Dict String

pub record SyntheticTarget : Type 0 where
  pub target_id : String
  pub declared_routes : List Route
  pub exposed_dimensions : List String
  pub ground_truth : TargetGroundTruth

-- `_mechanism_dimension`
unfoldable pub mechanism_dimension : String → Option String
unfolding get
mechanism_dimension mechanism =
    get
      (("declared_route_ignores_tenant", "tenant")
        ∷ ("declared_route_ignores_principal", "principal")
        ∷ ("declared_route_accepts_stale_authority", "temporal_currentness")
        ∷ ("declared_route_ignores_release_version", "release_version")
        ∷ ("declared_route_confuses_sink", "sink")
        ∷ ("declared_route_skips_action_digest", "action_or_token_digest")
        ∷ [])
      mechanism

pub record Response : Type 0 where
  pub status : ℕ
  pub outcome : String
  pub reason : String

pub record Commit : Type 0 where
  pub commit_id : String
  pub path : String
  pub request : Dict String
  pub properly_authorized : Bool

-- An event of the telemetry, with the path that the source digests.
pub data TelemetryEvent : Type 0 where
  path_not_found path_refused : String → TelemetryEvent
  path_committed : String → String → TelemetryEvent

pub record TargetSession : Type 0 where
  pub target : SyntheticTarget
  pub commits : List Commit
  pub telemetry : List TelemetryEvent

-- A request, with the action and the commit id that its "json" holds.
pub record TargetRequest : Type 0 where
  pub path : String
  pub action : Dict String
  pub commit_id : Option String

unfoldable pub is_declared_path : SyntheticTarget → String → Bool
unfolding any
is_declared_path t path = any (λ (r : Route). r.path == path) t.declared_routes

-- `str(action.get(dim)) == str(valid[dim])`
unfoldable pub agrees : Dict String → String × String → Bool
unfolding get_or
agrees action (dim, value) = get_or action dim "None" == value

unfoldable pub properly_authorized : SyntheticTarget → String → Dict String → Bool
unfolding is_declared_path all agrees
properly_authorized t path action =
    is_declared_path t path && all (agrees action) t.ground_truth.valid_authorization

-- `str(action.get(d, "")).strip()` holds more than blanks; `strip` is a parameter's name here
unfoldable pub presents : (String → String) → Dict String → String × String → Bool
unfolding get_or
presents strip action (dim, value) = not (strip (get_or action dim "") == "")

abbrev pub is_other : String → String × String → Bool
is_other dim (name, value) = not (name == dim)

module _ (strip : String → String) where
  unfoldable pub flaw_admits : SyntheticTarget → String → Dict String → Bool
  unfolding is_declared_path any presents all keep agrees
  flaw_admits t path action =
      let valid = t.ground_truth.valid_authorization in
      let undeclared = path == t.ground_truth.undeclared_route.path in
      if t.ground_truth.mechanism == "undeclared_route_unguarded"
      then undeclared
      else if t.ground_truth.mechanism == "undeclared_route_presence_only_guard"
      then undeclared && any (presents strip action) valid
      else elim t.ground_truth.unenforced_dimension [
        | none ↦ false
        | some dim ↦ is_declared_path t path && all (agrees action) (keep (is_other dim) valid)
      ]

  unfoldable pub is_known_path : SyntheticTarget → String → Bool
  unfolding is_declared_path
  is_known_path t path = is_declared_path t path || path == t.ground_truth.undeclared_route.path

  abbrev pub respond : ℕ → String → String → Response
  respond status outcome reason = record { status = status; outcome = outcome; reason = reason }

  -- `request.get("json", {}).get("commit_id") or f"c-{len(self.commits) + 1}"`
  unfoldable pub commit_id_of : TargetSession → TargetRequest → String
  unfolding show
  commit_id_of s r = elim r.commit_id [
    | none ↦ String.◌++◌ "c-" (show (suc (length s.commits)))
    | some id ↦ if id == "" then String.◌++◌ "c-" (show (suc (length s.commits))) else id
  ]

  unfoldable pub commit_of : TargetSession → TargetRequest → Commit
  unfolding commit_id_of properly_authorized
  commit_of s r = record {
    commit_id = commit_id_of s r;
    path = r.path;
    request = r.action;
    properly_authorized = properly_authorized s.target r.path r.action;
  }

  unfoldable pub submit_request : TargetSession → TargetRequest → TargetSession × Response
  unfolding is_known_path flaw_admits commit_of properly_authorized
  submit_request s r =
      if not (is_known_path s.target r.path)
      then (
        record s { telemetry = s.telemetry ++ path_not_found r.path ∷ [] },
        respond 404 "NOT_FOUND" "no such route",
      )
      else if not
          (properly_authorized s.target r.path r.action || flaw_admits s.target r.path r.action)
      then (
        record s { telemetry = s.telemetry ++ path_refused r.path ∷ [] },
        respond 403 "REFUSED" "authority check failed",
      )
      else (
        record s {
          commits = s.commits ++ commit_of s r ∷ [];
          telemetry = s.telemetry ++ path_committed (commit_id_of s r) r.path ∷ [];
        },
        respond 200 "COMMITTED"
            (if properly_authorized s.target r.path r.action then "authorized" else "admitted"),
      )

unfoldable pub is_counterexample : Commit → Bool
is_counterexample c = not c.properly_authorized

unfoldable pub counterexamples : TargetSession → List Commit
unfolding keep is_counterexample
counterexamples s = keep is_counterexample s.commits

unfoldable pub new_session : SyntheticTarget → TargetSession
new_session t = record { target = t; commits = []; telemetry = [] }
