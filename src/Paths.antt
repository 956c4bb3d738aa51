-- ===== src/Paths.antt =====
-- oat/paths: the routes that are declared, those observed at the sink, and their differences.
pub mod Reconcile
pub mod Telemetry
use open_authority_trials_oa.Prelude.{
  String, List, keep, Bool, map, ℕ, [], contains, ◌∷◌, not, sort_texts, ◌+◌, if◌then◌else◌,
}
use open_authority_trials_oa.Canonical.Json.{Json, dict, str, arr, bool, texts}
use open_authority_trials_oa.Consequence.Sink.{add_text, PaymentLedgerSink, RouteObservation}
use open_authority_trials_oa.Prelude.Dict.{Dict, get_or, put}

-- oat/paths/inventory.py
pub record DeclaredPath : Type 0 where
  pub route_id : String
  pub description : String
  pub guarded : Bool

unfoldable pub declared_path_to_dict : DeclaredPath → Json
declared_path_to_dict p = dict (
    ("route_id", str p.route_id)
    ∷ ("description", str p.description)
    ∷ ("guarded", bool p.guarded)
    ∷ [])

-- A `PathInventory` is its tuple of paths.
abbrev pub PathInventory : Type 0
PathInventory = List DeclaredPath

-- a set of texts, from its elements
unfoldable pub set_of : List String → List String
unfolding add_text
set_of [] = []
set_of (x ∷ xs) = add_text x (set_of xs)

unfoldable pub route_ids : PathInventory → List String
unfolding set_of
route_ids paths = set_of (map (λ (p : DeclaredPath). p.route_id) paths)

-- oat/paths/observations.py
pub record ObservedPath : Type 0 where
  pub route_id : String
  pub arrivals : ℕ
  pub commits : ℕ

-- The two dictionaries of counts, over the records of the route log.
unfoldable pub count_routes : Dict ℕ → Dict ℕ → List RouteObservation → Dict ℕ × Dict ℕ
count_routes arrivals commits [] = (arrivals, commits)
count_routes arrivals commits (r ∷ log) =
    let arrivals' = put arrivals r.route_id (get_or arrivals r.route_id 0 + 1) in
    count_routes arrivals'
      (if r.committed then put commits r.route_id (get_or commits r.route_id 0 + 1) else commits)
      log

-- The keys of a dictionary.
abbrev pub keys {ℓ} : {V : Type ℓ} → Dict V → List String
keys [] = []
keys ((k, v) ∷ d) = k ∷ keys d

-- `arrivals[route_id]` is there for each key of `arrivals`.
unfoldable pub observations_from_sink : PaymentLedgerSink → List ObservedPath
observations_from_sink s =
    let (arrivals, commits) = count_routes [] [] s.route_log in
    map
      (λ (id : String). record {
        route_id = id;
        arrivals = get_or arrivals id 0;
        commits = get_or commits id 0;
      })
      (sort_texts (keys arrivals))

-- oat/paths/discovery.py
pub record PathReconciliation : Type 0 where
  pub declared_path_set : List String
  pub observed_path_set : List String
  pub unknown_observed_paths : List String
  pub unexercised_declared_paths : List String

unfoldable pub reconciliation_to_dict : PathReconciliation → Json
reconciliation_to_dict r = dict (
    ("declared_path_set", arr (texts r.declared_path_set))
    ∷ ("observed_path_set", arr (texts r.observed_path_set))
    ∷ ("unknown_observed_paths", arr (texts r.unknown_observed_paths))
    ∷ ("unexercised_declared_paths", arr (texts r.unexercised_declared_paths))
    ∷ [])

-- `a - b` on sets
unfoldable pub minus : List String → List String → List String
unfolding keep contains
minus a b = keep (λ x. not (contains b x)) a

unfoldable pub reconcile : PathInventory → List ObservedPath → PathReconciliation
unfolding set_of minus
reconcile inventory observations =
    let declared = route_ids inventory in
    let observed = set_of (map (λ (o : ObservedPath). o.route_id) observations) in
    record {
      declared_path_set = sort_texts declared;
      observed_path_set = sort_texts observed;
      unknown_observed_paths = sort_texts (minus observed declared);
      unexercised_declared_paths = sort_texts (minus declared observed);
    }
