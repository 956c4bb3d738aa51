-- ===== src/Evidence/Graph.antt =====
-- oat/evidence/graph.py
pub mod Completeness
use open_authority_trials_oa.Prelude.{
  String, List, Bool, keep, Option, [], if◌then◌else◌, ◌∷◌, false, ◌++◌, is_empty, not, ◌==◌,
  is_none, ◌&&◌, some, ◌||◌, none,
}
use open_authority_trials_oa.Prelude.Dict.{Dict, put, get}
use open_authority_trials_oa.Canonical.Json.{Fields, field, str, end, get_field, null}

abbrev pub Edge : Type 0
Edge = String × String

abbrev pub required_edges : List Edge
required_edges =
    ("agent", "principal")
    ∷ ("principal", "route")
    ∷ ("route", "attempted_action")
    ∷ ("attempted_action", "authorization_decision")
    ∷ ("authorization_decision", "authorization_artifact")
    ∷ ("authorization_artifact", "authority_state_at_issue")
    ∷ ("authority_state_at_issue", "authority_state_at_commit")
    ∷ ("authority_state_at_commit", "sink_decision")
    ∷ ("sink_decision", "committed_consequence")
    ∷ ("committed_consequence", "independent_receipt")
    ∷ ("independent_receipt", "verifier_trace")
    ∷ ("verifier_trace", "disposition")
    ∷ []

pub record EvidenceGraph : Type 0 where
  pub nodes : Dict Fields
  pub edges : List Edge

unfoldable pub add_node : EvidenceGraph → String → Fields → EvidenceGraph
add_node g kind payload = record g { nodes = put g.nodes kind payload }

-- `e in edges`
unfoldable pub has_edge : List Edge → Edge → Bool
has_edge [] e = false
has_edge ((s, t) ∷ es) e = (s == e.0 && t == e.1) || has_edge es e

unfoldable pub add_edge : EvidenceGraph → Edge → EvidenceGraph
add_edge g e = if has_edge g.edges e then g else record g { edges = g.edges ++ e ∷ [] }

pub record GraphAudit : Type 0 where
  pub present_edges : List Edge
  pub missing_edges : List Edge

unfoldable pub complete : GraphAudit → Bool
complete a = is_empty a.missing_edges

unfoldable pub audit : EvidenceGraph → GraphAudit
unfolding keep
audit g = record {
  present_edges = keep (has_edge g.edges) required_edges;
  missing_edges = keep (λ e. not (has_edge g.edges e)) required_edges;
}

-- `source in graph.nodes`
unfoldable pub has_node : EvidenceGraph → String → Bool
has_node g kind = not (is_none (get g.nodes kind))

-- The payloads that may be missing: `None` is no evidence.
unfoldable pub add_optional : EvidenceGraph → List (String × Option Fields) → EvidenceGraph
add_optional g [] = g
add_optional g ((kind, none) ∷ rest) = add_optional g rest
add_optional g ((kind, some payload) ∷ rest) = add_optional (add_node g kind payload) rest

-- the last loop: an edge whose two ends are there
unfoldable pub link : EvidenceGraph → List Edge → EvidenceGraph
link g [] = g
link g (e ∷ es) = link (if has_node g e.0 && has_node g e.1 then add_edge g e else g) es

-- What `build_graph` is given of a commit chain.
pub record ChainEvidence : Type 0 where
  pub agent_id : String
  pub principal_id : String
  pub route_id : String
  pub action_digest : String
  pub authorization : Option Fields
  pub authority_at_issue : Option Fields
  pub authority_at_commit : Option Fields
  pub sink_decision : Option Fields
  pub commit : Option Fields
  pub receipt : Option Fields
  pub verifier_trace : Option Fields
  pub disposition : Option String

-- `{"decision": authorization.get("decision")} if authorization else None`: an empty dictionary
-- counts as none
unfoldable pub decision_payload : Option Fields → Option Fields
decision_payload none = none
decision_payload (some end) = none
decision_payload (some (field k v fs)) = some (elim (get_field (field k v fs) "decision") [
  | none ↦ field "decision" null end
  | some d ↦ field "decision" d end
])

-- `{"disposition": disposition} if disposition else None`
unfoldable pub disposition_payload : Option String → Option Fields
disposition_payload none = none
disposition_payload (some d) = if d == "" then none else some (field "disposition" (str d) end)

unfoldable pub optional_payloads : ChainEvidence → List (String × Option Fields)
optional_payloads c =
    ("authorization_decision", decision_payload c.authorization)
    ∷ ("authorization_artifact", c.authorization)
    ∷ ("authority_state_at_issue", c.authority_at_issue)
    ∷ ("authority_state_at_commit", c.authority_at_commit)
    ∷ ("sink_decision", c.sink_decision)
    ∷ ("committed_consequence", c.commit)
    ∷ ("independent_receipt", c.receipt)
    ∷ ("verifier_trace", c.verifier_trace)
    ∷ ("disposition", disposition_payload c.disposition)
    ∷ []

-- the nodes and edges that are always there
unfoldable pub base_graph : ChainEvidence → EvidenceGraph
base_graph c =
    let g : EvidenceGraph = record { nodes = []; edges = [] } in
    let g1 = add_node g "agent" (field "agent_id" (str c.agent_id) end) in
    let g2 = add_node g1 "principal" (field "principal_id" (str c.principal_id) end) in
    let g3 = add_node g2 "route" (field "route_id" (str c.route_id) end) in
    let g4 = add_node g3 "attempted_action" (field "action_digest" (str c.action_digest) end) in
    add_edge (add_edge (add_edge g4 ("agent", "principal")) ("principal", "route"))
      ("route", "attempted_action")

unfoldable pub build_graph : ChainEvidence → EvidenceGraph
build_graph c = link (add_optional (base_graph c) (optional_payloads c)) required_edges
