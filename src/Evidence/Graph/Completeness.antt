-- ===== src/Evidence/Graph/Completeness.antt =====
-- oat/evidence/graph.py: the audit of the graphs that `build_graph` builds.
use open_authority_trials_oa.Evidence.Graph.{
  has_node, add_optional, has_edge, add_edge, add_node, EvidenceGraph, Edge, Option, Fields, Bool,
  false, some, [], not, is_none, link, ChainEvidence, complete, keep, base_graph, audit, is_empty,
  optional_payloads, build_graph, required_edges, get, put,
}
use open_authority_trials_oa.Prelude.{
  String, List, Option, ◌≡◌, ◌++◌, ◌==◌, ◌||◌, Bool, arith, ◌∷◌, ◌&&◌, false, [], true, Bool-cases,
  not, inl, refl, is_none, none, inr, eq_iff, ◌∙◌, keep, all, is_empty, ap,
}
use open_authority_trials_oa.Canonical.Json.{Fields}
use open_authority_trials_oa.Prelude.Dict.{get-put, get, put}

has_node-add_node :
    (g : EvidenceGraph) (kind : String) (p : Fields) (k : String)
    → has_node (add_node g kind p) k ≡ (kind == k || has_node g k)
unfolding has_node add_node
has_node-add_node g kind p k = ground (arith, get-put g.nodes kind k p)

abbrev given : String → List (String × Option Fields) → Bool
given k [] = false
given k ((kind, p) ∷ rest) = (kind == k && not (is_none p)) || given k rest

has_node-add_optional :
    (g : EvidenceGraph) (ps : List (String × Option Fields)) (k : String)
    → has_node (add_optional g ps) k ≡ (has_node g k || given k ps)
unfolding add_optional
has_node-add_optional g [] k = ground arith
has_node-add_optional g ((kind, none) ∷ rest) k = ground (arith, has_node-add_optional g rest k)
has_node-add_optional g ((kind, some p) ∷ rest) k =
    ground (arith, has_node-add_optional (add_node g kind p) rest k, has_node-add_node g kind p k)

nodes-add_edge :
    (g : EvidenceGraph) (e : Edge) (k : String) → has_node (add_edge g e) k ≡ has_node g k
unfolding has_node add_edge
nodes-add_edge g e k = ground arith

edges-add_optional :
    (g : EvidenceGraph) (ps : List (String × Option Fields)) → (add_optional g ps).edges ≡ g.edges
unfolding add_optional add_node
edges-add_optional g [] = refl
edges-add_optional g ((kind, none) ∷ rest) = edges-add_optional g rest
edges-add_optional g ((kind, some p) ∷ rest) = edges-add_optional (add_node g kind p) rest

has_edge-append :
    (es : List Edge) (e d : Edge)
    → has_edge (es ++ e ∷ []) d ≡ (has_edge es d || (e.0 == d.0 && e.1 == d.1))
unfolding has_edge
has_edge-append [] e d = ground arith
has_edge-append (x ∷ es) e d = ground (arith, has_edge-append es e d)

same_edge :
    (es : List Edge) (e d : Edge)
    → (e.0 == d.0 && e.1 == d.1) ≡ true
    → has_edge es e ≡ true
    → has_edge es d ≡ true
unfolding has_edge
same_edge [] e d s h = h
same_edge (x ∷ es) e d s h = ground (
  arith,
  same_edge es e d s,
  eq_iff (e.0) (d.0),
  eq_iff (e.1) (d.1),
  eq_iff (x.0) (e.0),
  eq_iff (x.1) (e.1),
  eq_iff (x.0) (d.0),
  eq_iff (x.1) (d.1),
)

has_edge-add_edge :
    (g : EvidenceGraph) (e d : Edge)
    → has_edge (add_edge g e).edges d ≡ (has_edge g.edges d || (e.0 == d.0 && e.1 == d.1))
unfolding add_edge
has_edge-add_edge g e d = elim (Bool-cases (has_edge g.edges e)) [
  | inl t ↦ rw t (ground (arith, same_edge g.edges e d))
  | inr f ↦ rw f (has_edge-append g.edges e d)
]

-- What the last loop adds, when `n` says which nodes there are.
abbrev linked : (String → Bool) → List Edge → Edge → Bool
linked n [] d = false
linked n (e ∷ es) d = (e.0 == d.0 && e.1 == d.1 && n (e.0) && n (e.1)) || linked n es d

has_edge-link :
    (n : String → Bool) (g : EvidenceGraph)
    → ((k : String) → has_node g k ≡ n k)
    → (es : List Edge) (d : Edge)
    → has_edge (link g es).edges d ≡ (has_edge g.edges d || linked n es d)
unfolding link
has_edge-link n g same [] d = ground arith
has_edge-link n g same (e ∷ es) d = elim (Bool-cases (has_node g (e.0) && has_node g (e.1))) [
  | inl t ↦
      rw (link, t)
        (ground (
          arith,
          has_edge-link n (add_edge g e) (λ k. nodes-add_edge g e k ∙ same k) es d,
          has_edge-add_edge g e d,
          same (e.0),
          same (e.1),
          t,
        ))
  | inr f ↦ rw (link, f) (ground (arith, has_edge-link n g same es d, same (e.0), same (e.1), f))
]

is_empty-keep-not :
    (f : Edge → Bool) (es : List Edge) → is_empty (keep (λ e. not (f e)) es) ≡ all f es
unfolding keep all
is_empty-keep-not f [] = refl
is_empty-keep-not f (e ∷ es) = elim (Bool-cases (f e)) [
  | inl t ↦ rw t (is_empty-keep-not f es)
  | inr n ↦ rw n refl
]

-- Whether every kind of evidence that may be missing was given.
abbrev pub every_given : List (String × Option Fields) → Bool
every_given ps = all (λ p. not (is_none (p.1))) ps

all-ext : (f g : Edge → Bool) → ((e : Edge) → f e ≡ g e) → (es : List Edge) → all f es ≡ all g es
unfolding all
all-ext f g same [] = refl
all-ext f g same (e ∷ es) = ground (arith, same e, all-ext f g same es)

-- The edges of `base_graph`.
abbrev base_edges : List Edge
base_edges = ("agent", "principal") ∷ ("principal", "route") ∷ ("route", "attempted_action") ∷ []

complete-link :
    (n : String → Bool) (g : EvidenceGraph)
    → ((k : String) → has_node g k ≡ n k)
    → g.edges ≡ base_edges
    → complete (audit (link g required_edges))
      ≡ all (λ d. has_edge base_edges d || linked n required_edges d) required_edges
unfolding complete audit
complete-link n g same base =
    is_empty-keep-not (has_edge (link g required_edges).edges) required_edges
    ∙ all-ext (has_edge (link g required_edges).edges)
        (λ d. has_edge base_edges d || linked n required_edges d)
        (λ d.
          has_edge-link n g same required_edges d
          ∙ ap (λ es. has_edge es d || linked n required_edges d) base)
        required_edges

chain_nodes :
    (n : String → Bool)
    → n "attempted_action" ≡ true
    → all (λ d. has_edge base_edges d || linked n required_edges d) required_edges ≡ (
        n "authorization_decision"
        && n "authorization_artifact"
        && n "authority_state_at_issue"
        && n "authority_state_at_commit"
        && n "sink_decision"
        && n "committed_consequence"
        && n "independent_receipt"
        && n "verifier_trace"
        && n "disposition")
unfolding all has_edge
chain_nodes n t = rw t (ground arith)

base_graph-edges : (c : ChainEvidence) → (base_graph c).edges ≡ base_edges
unfolding base_graph add_edge add_node has_edge
base_graph-edges c = refl

optional_nodes :
    (c : ChainEvidence)
    → let n : String → Bool = λ k. has_node (base_graph c) k || given k (optional_payloads c) in
      (n "attempted_action" ≡ true)
      × ((n "authorization_decision"
            && n "authorization_artifact"
            && n "authority_state_at_issue"
            && n "authority_state_at_commit"
            && n "sink_decision"
            && n "committed_consequence"
            && n "independent_receipt"
            && n "verifier_trace"
            && n "disposition")
          ≡ every_given (optional_payloads c))
unfolding base_graph add_edge add_node has_edge has_node optional_payloads all get put
optional_nodes c = (refl, ground arith)

-- The audit of a built graph is complete exactly when all nine kinds of evidence that can be
-- missing were given: a decision, the authorization, both authority states, the sink's decision,
-- the commit, its receipt, the verifier's trace and a disposition that is not empty.
pub build_graph-complete :
    (c : ChainEvidence) → complete (audit (build_graph c)) ≡ every_given (optional_payloads c)
unfolding build_graph
build_graph-complete c =
    complete-link (λ k. has_node (base_graph c) k || given k (optional_payloads c))
      (add_optional (base_graph c) (optional_payloads c))
      (has_node-add_optional (base_graph c) (optional_payloads c))
      (edges-add_optional (base_graph c) (optional_payloads c) ∙ base_graph-edges c)
    ∙ chain_nodes (λ k. has_node (base_graph c) k || given k (optional_payloads c))
        ((optional_nodes c).0)
    ∙ (optional_nodes c).1
