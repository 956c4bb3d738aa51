-- ===== src/Paths/Telemetry.antt =====
-- oat/paths/observations.py: the observed routes and the sink's log.
use native.Mathlib.Nat.{add-zero}
use open_authority_trials_oa.Prelude.{
  String, List, contains, any, ℕ, ◌≡◌, ◌+◌, ◌==◌, ◌||◌, if◌then◌else◌, ◌&&◌, arith, [], eq_iff,
  refl, ◌≤◌, All, map, ap, sort_texts, not, ◌∙◌, contains-sort_texts,
}
use open_authority_trials_oa.Paths.{
  count_routes, List, Dict, contains, RouteObservation, ℕ, keys, ◌∷◌, get_or, ObservedPath,
  observations_from_sink, map, sort_texts, PathInventory, reconcile, not,
}
use open_authority_trials_oa.Prelude.Dict.{put, Dict, get_or, get_or-put, get}
use open_authority_trials_oa.Consequence.Sink.{RouteObservation, PaymentLedgerSink}
use open_authority_trials_oa.Paths.Reconcile.{is_observed, is_declared, reconcile_lem}

abbrev pub arrivals_in : String → List RouteObservation → ℕ
arrivals_in id [] = 0
arrivals_in id (r ∷ log) = (if r.route_id == id then 1 else 0) + arrivals_in id log

abbrev pub commits_in : String → List RouteObservation → ℕ
commits_in id [] = 0
commits_in id (r ∷ log) = (if r.route_id == id && r.committed then 1 else 0) + commits_in id log

count_arrivals :
    (arrivals commits : Dict ℕ) (log : List RouteObservation) (id : String)
    → get_or (count_routes arrivals commits log).0 id 0 ≡ get_or arrivals id 0 + arrivals_in id log
unfolding count_routes
count_arrivals arrivals commits [] id = rw add-zero
count_arrivals arrivals commits (r ∷ log) id =
    let n = get_or arrivals r.route_id 0 + 1 in
    ground (
      arith,
      count_arrivals (put arrivals r.route_id n)
          (if r.committed
            then put commits r.route_id (get_or commits r.route_id 0 + 1)
            else commits)
          log id,
      get_or-put arrivals r.route_id id n 0,
      eq_iff r.route_id id,
    )

count_commits :
    (arrivals commits : Dict ℕ) (log : List RouteObservation) (id : String)
    → get_or (count_routes arrivals commits log).1 id 0 ≡ get_or commits id 0 + commits_in id log
unfolding count_routes
count_commits arrivals commits [] id = rw add-zero
count_commits arrivals commits (r ∷ log) id =
    let n = get_or commits r.route_id 0 + 1 in
    ground (
      arith,
      count_commits (put arrivals r.route_id (get_or arrivals r.route_id 0 + 1))
          (if r.committed then put commits r.route_id n else commits) log id,
      get_or-put commits r.route_id id n 0,
      eq_iff r.route_id id,
    )

-- The keys are the routes met.
contains-keys-put :
    {V : Type 0} (d : Dict V) (k : String) (v : V) (z : String)
    → contains (keys (put d k v)) z ≡ (k == z || contains (keys d) z)
unfolding put contains
contains-keys-put [] k v z = refl
contains-keys-put ((j, w) ∷ d) k v z =
    ground (arith, eq_iff j k, eq_iff j z, eq_iff k z, contains-keys-put d k v z)

contains-keys-count :
    (arrivals commits : Dict ℕ) (log : List RouteObservation) (z : String)
    → contains (keys (count_routes arrivals commits log).0) z
      ≡ (contains (keys arrivals) z || any (λ r. r.route_id == z) log)
unfolding count_routes any
contains-keys-count arrivals commits [] z = ground arith
contains-keys-count arrivals commits (r ∷ log) z =
    let n = get_or arrivals r.route_id 0 + 1 in
    ground (
      arith,
      contains-keys-count (put arrivals r.route_id n)
          (if r.committed
            then put commits r.route_id (get_or commits r.route_id 0 + 1)
            else commits)
          log z,
      contains-keys-put arrivals r.route_id n z,
    )

commits-le-arrivals :
    (id : String) (log : List RouteObservation) → commits_in id log ≤ arrivals_in id log
commits-le-arrivals id [] = omega arith
commits-le-arrivals id (r ∷ log) = ground (arith, commits-le-arrivals id log)

-- A number for each observed route, and nothing else of the list.
abbrev observed_at_routes : Dict ℕ → Dict ℕ → List String → List ObservedPath
observed_at_routes arrivals commits ids =
    map
      (λ (id : String). record {
        route_id = id;
        arrivals = get_or arrivals id 0;
        commits = get_or commits id 0;
      })
      ids

-- What is observed of a route that stands in the log.
abbrev pub Counted : List RouteObservation → ObservedPath → Type 0
Counted log o =
    (o.arrivals ≡ arrivals_in o.route_id log)
    × (o.commits ≡ commits_in o.route_id log)
    × (o.commits ≤ o.arrivals)

get_or-nil : (id : String) → get_or {V = ℕ} [] id 0 ≡ 0
unfolding get_or get
get_or-nil id = refl

arrivals_of_log :
    (log : List RouteObservation) (id : String)
    → get_or (count_routes [] [] log).0 id 0 ≡ arrivals_in id log
arrivals_of_log log id = omega (arith, count_arrivals [] [] log id, get_or-nil id)

commits_of_log :
    (log : List RouteObservation) (id : String)
    → get_or (count_routes [] [] log).1 id 0 ≡ commits_in id log
commits_of_log log id = omega (arith, count_commits [] [] log id, get_or-nil id)

Counted-routes :
    (log : List RouteObservation) (ids : List String)
    → All
        (Counted log)
        (observed_at_routes (count_routes [] [] log).0 (count_routes [] [] log).1 ids)
Counted-routes log [] = tt
Counted-routes log (id ∷ ids) =
    let a = arrivals_of_log log id in
    let c = commits_of_log log id in
    ((a, c, rw (a, c) (commits-le-arrivals id log)), Counted-routes log ids)

routes_of_observed :
    (arrivals commits : Dict ℕ) (ids : List String)
    → map (λ (o : ObservedPath). o.route_id) (observed_at_routes arrivals commits ids) ≡ ids
routes_of_observed arrivals commits [] = refl
routes_of_observed arrivals commits (id ∷ ids) =
    ap (λ (r : List String). id ∷ r) (routes_of_observed arrivals commits ids)

-- The observations name exactly the routes of the sink's log, each with the number of its arrivals
-- in the log and of its commits among them.
pub observations_from_sink_lem :
    (s : PaymentLedgerSink)
    → ((id : String)
        → is_observed (observations_from_sink s) id ≡ any (λ r. r.route_id == id) s.route_log)
      × All (Counted s.route_log) (observations_from_sink s)
unfolding observations_from_sink
observations_from_sink_lem s = (
  λ id.
      ap (λ l. contains l id) (routes_of_observed _ _ _)
      ∙ contains-sort_texts (keys (count_routes [] [] s.route_log).0) id
      ∙ contains-keys-count [] [] s.route_log id
      ∙ (unfold contains in refl),
  Counted-routes s.route_log (sort_texts (keys (count_routes [] [] s.route_log).0)),
)

-- A route that arrived at the sink and was not declared is reported as an unknown observed path,
-- and nothing else is.
pub reconcile_sink_unknown :
    (inventory : PathInventory) (s : PaymentLedgerSink) (id : String)
    → contains (reconcile inventory (observations_from_sink s)).unknown_observed_paths id
      ≡ (any (λ r. r.route_id == id) s.route_log && not (is_declared inventory id))
reconcile_sink_unknown inventory s id =
    (reconcile_lem inventory (observations_from_sink s)).unknown id
    ∙ ap (λ b. b && not (is_declared inventory id)) ((observations_from_sink_lem s).0 id)
