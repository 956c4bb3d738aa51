-- ===== src/Falsifier.antt =====
-- oat/falsifiers/rb001.py: the development falsifier of RB-001, over the trace as JSON.
pub mod Enforcement
use open_authority_trials_oa.Prelude.{
  ℕ, String, Option, List, Bool, [], false, some, ◌∷◌, ◌==◌, none, true, if◌then◌else◌, ◌&&◌,
  length, not, leb,
}
use open_authority_trials_oa.Canonical.Json.{
  Json, Items, Fields, dict, fields, null, str, get_field, cons, list, obj, arr, bool, nil, num,
  end,
}
use open_authority_trials_oa.Canonical.Digest.{Hashing, digest_object}
use open_authority_trials_oa.Prelude.Result.{Result, ◌>>=◌, ok, err}
use open_authority_trials_oa.ReferenceBoundary.{status_revoked}
use open_authority_trials_oa.Prelude.Int.{leb_ℤ, pos}

-- The errors that the falsifier raises.
pub data FalsifierError : Type 0 where
  no_events_list : FalsifierError
  commit_events_found : ℕ → FalsifierError

abbrev pub falsifier_id : String
falsifier_id = "OAT-FALSIFIER-RB-001"

abbrev pub falsifier_version : String
falsifier_version = "0.1.0"

abbrev pub expression : String
expression =
    "counterexample := committed(payment) AND authority_effective_at(commit_time) == REVOKED"

unfoldable pub definition : Json
definition = dict (
    ("id", str falsifier_id)
    ∷ ("version", str falsifier_version)
    ∷ ("expression", str expression)
    ∷ (
      "predicates",
      list (
          dict (
            ("name", str "committed")
            ∷ ("reads", str "events[event=consequence_committed].committed")
            ∷ ("requires", bool true)
            ∷ [])
          ∷ dict (
              ("name", str "authority_effective_at_commit_is_revoked")
              ∷ ("reads", str "authority_effective_at_commit")
              ∷ ("requires", str status_revoked)
              ∷ [])
          ∷ []),
    )
    ∷ ("combinator", str "AND")
    ∷ [])

unfoldable pub falsifier_identity : Hashing → Fields
falsifier_identity h = fields (
    ("id", str falsifier_id)
    ∷ ("version", str falsifier_version)
    ∷ ("digest", str (digest_object h definition))
    ∷ [])

-- `isinstance(event, dict) and event.get("event") == "consequence_committed"`
abbrev pub is_text_value : Option Json → String → Bool
is_text_value (some (str s)) t = s == t
is_text_value _ t = false

unfoldable pub committed_events : Items → List Fields
committed_events nil = []
committed_events (cons (obj event) rest) =
    let others = committed_events rest in
    if is_text_value (get_field event "event") "consequence_committed"
    then event ∷ others
    else others
committed_events (cons _ rest) = committed_events rest

abbrev pub only_event : List Fields → Result FalsifierError Fields
only_event (event ∷ []) = ok event
only_event events = err (commit_events_found (length events))

-- `_commit_event`
unfoldable pub commit_event : Fields → Result FalsifierError Fields
unfolding committed_events
commit_event trace = elim (get_field trace "events") [
  | some (arr events) ↦ only_event (committed_events events)
  | _ ↦ err no_events_list
]

-- `bool(value)`
unfoldable pub truthy : Option Json → Bool
truthy none = false
truthy (some null) = false
truthy (some (bool b)) = b
truthy (some (num n)) = not (leb_ℤ n (pos 0) && leb_ℤ (pos 0) n)
truthy (some (str s)) = not (s == "")
truthy (some (arr nil)) = false
truthy (some (arr _)) = true
truthy (some (obj end)) = false
truthy (some (obj _)) = true

-- `d.get(key)` as a value to store
abbrev pub or_null : Option Json → Json
or_null none = null
or_null (some v) = v

-- `str(trace.get("authority_effective_at_commit", ""))`, where the trace holds a text
abbrev pub effective : Option Json → Json
effective none = str ""
effective (some v) = v

-- `str(trace.get("authority_effective_at_commit", "")) == STATUS_REVOKED`: no value but that text is
-- printed as that text
unfoldable pub is_revoked : Fields → Bool
is_revoked trace = is_text_value (get_field trace "authority_effective_at_commit") status_revoked

-- An evaluation without the falsifier's identity and the expression, which each one holds.
pub record Evaluation : Type 0 where
  pub predicate_trace : List Json
  pub counterexample : Bool

unfoldable pub evaluate : Fields → Result FalsifierError Evaluation
unfolding commit_event is_revoked truthy
evaluate trace = commit_event trace >>= λ event. ok (record {
  predicate_trace =
      dict (
        ("predicate", str "committed")
        ∷ (
          "operand",
          dict (
              ("committed", bool (truthy (get_field event "committed")))
              ∷ ("seq", or_null (get_field event "seq"))
              ∷ []),
        )
        ∷ ("result", bool (truthy (get_field event "committed")))
        ∷ [])
      ∷ dict (
          ("predicate", str "authority_effective_at_commit_is_revoked")
          ∷ (
            "operand",
            dict (
                (
                  "authority_effective_at_commit",
                  effective (get_field trace "authority_effective_at_commit"),
                )
                ∷ ("commit_tick", or_null (get_field trace "commit_tick"))
                ∷ []),
          )
          ∷ ("result", bool (is_revoked trace))
          ∷ [])
      ∷ [];
  counterexample = truthy (get_field event "committed") && is_revoked trace;
})
