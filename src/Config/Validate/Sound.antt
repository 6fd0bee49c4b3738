-- ===== src/Config/Validate/Sound.antt =====
-- What holds of a scenario that the checks accept.
use peerkit.Prelude.{
  ◌≡◌, ◌≢◌, refl, ap, Bool, true, false, ◌&&◌, ◌||◌, Option, none, some, List, [], ◌∷◌, ◌++◌, Text,
  codes, text_eq, text_eq_iff, text_leb_total, text_leb_antisymm, text_key, contains, All, arith,
  Option-cases, inl, inr,
}
use peerkit.Int.{ℤ, pos, ltb_ℤ}
use peerkit.Float.{FloatOps}
use peerkit.Protocols.{Error, validate_config}
use peerkit.Config.Types.{NodePerformance, NodeSpec, EdgeSpec, TrafficConfig, Scenario}
use peerkit.Config.Validate.{
  Net, fail_if, first_error, undirected_edge_key, is_random_traffic_source,
  validate_node_performance, check_performance, validate_nodes, validate_edges, validate_traffic,
  ids_of, validate_scenario, protocol_error, is_empty,
}

first_error-none {ℓ} :
    {E : Type ℓ} (es : List (Option E)) → first_error es ≡ none → All (λ e. e ≡ none) es
unfolding first_error
first_error-none [] h = tt
first_error-none (some e ∷ es) h = cc
first_error-none (none ∷ es) h = (refl, first_error-none es h)

fail_if-none {ℓ} : {E : Type ℓ} (b : Bool) (e : E) → fail_if b e ≡ none → b ≡ false
fail_if-none true e h = cc
fail_if-none false e h = refl

-- An edge has the same key in both orientations.
pub undirected_edge_key_comm : (a b : Text) → undirected_edge_key a b ≡ undirected_edge_key b a
unfolding undirected_edge_key
undirected_edge_key_comm a b = ground (
  arith,
  text_leb_total a b,
  text_leb_total b a,
  text_leb_antisymm a b,
  ap (λ t. t ++ (codes "--" ++ b)) {x = a} {y = b},
  ap (λ t. a ++ (codes "--" ++ t)) {x = a} {y = b},
  ap (λ t. t ++ (codes "--" ++ t)) {x = a} {y = b},
)

key_eq : (a b c d : Text) → a ≡ c → b ≡ d → undirected_edge_key a b ≡ undirected_edge_key c d
key_eq a b c d e f = cc

-- Workers and queue places there are.
abbrev pub HasPerformance : {F : Type 0} → NodeSpec F → Type 0
HasPerformance {F} n =
    (p : NodePerformance F) × (n.performance ≡ some p)
    × (ltb_ℤ (pos 0) p.workers ≡ true)
    × (ltb_ℤ (pos 0) p.queue_capacity ≡ true)

-- No id twice.
abbrev pub IsDistinctIds : List Text → Type 0
IsDistinctIds [] = Unit {0}
IsDistinctIds (i ∷ is) = (contains is i ≡ false) × IsDistinctIds is

module _ {F : Type 0} where
  -- Whether an edge links a and b, in either orientation.
  pub links : EdgeSpec F → Text → Text → Bool
  links e a b =
      (text_eq e.source a && text_eq e.target b) || (text_eq e.source b && text_eq e.target a)

  pub is_linked : List (EdgeSpec F) → Text → Text → Bool
  is_linked [] a b = false
  is_linked (e ∷ es) a b = links e a b || is_linked es a b

  -- No pair of nodes linked twice.
  abbrev pub IsSimpleList : List (EdgeSpec F) → Type 0
  IsSimpleList [] = Unit {0}
  IsSimpleList (e ∷ es) = (is_linked es e.source e.target ≡ false) × IsSimpleList es

-- Between two different known nodes.
abbrev pub IsProper : {F : Type 0} → List Text → EdgeSpec F → Type 0
IsProper ids e =
    (contains ids e.source ≡ true) × (contains ids e.target ≡ true) × (e.source ≢ e.target)

abbrev pub IsEmittable : List Text → TrafficConfig → Type 0
IsEmittable ids t =
    ((is_random_traffic_source t.source || contains ids t.source) ≡ true)
    × (ltb_ℤ (pos 0) t.count ≡ true)

module _ {F : Type 0} ⦃fl : FloatOps F⦄ where
  check_performance_sound :
      (n : NodeSpec F) → check_performance n.id n.performance ≡ none → HasPerformance n
  unfolding check_performance validate_node_performance
  check_performance_sound n h = elim (Option-cases n.performance) [
    | inl e ↦ absurd (ground arith)
    | inr (p, e) ↦
        let checks = first_error-none _ (rw (e, check_performance) at h) in
        let w = fail_if-none _ _ checks.0 in
        let q = fail_if-none _ _ checks.1.0 in (p, e, ground arith, ground arith)
  ]

  -- The nodes: known ids do not come back, and the others are new.
  validate_nodes_fresh :
      (ids : List Text) (ns : List (NodeSpec F)) (j : Text)
      → validate_nodes ids ns ≡ none
      → contains ids j ≡ true
      → contains (ids_of ns) j ≡ false
  unfolding validate_nodes contains
  validate_nodes_fresh ids [] j h k = refl
  validate_nodes_fresh ids (n ∷ ns) j h k =
      let checks = first_error-none _ h in
      let new = fail_if-none _ _ checks.1.0 in
      let rest = validate_nodes_fresh (n.id ∷ ids) ns j checks.1.1.1.1.0 (ground arith) in
      ground (arith, new, rest, text_eq_iff n.id j, ap (contains ids) {x = n.id} {y = j})

  validate_nodes_sound :
      (ids : List Text) (ns : List (NodeSpec F))
      → validate_nodes ids ns ≡ none
      → All HasPerformance ns × IsDistinctIds (ids_of ns)
  unfolding validate_nodes contains
  validate_nodes_sound ids [] h = (tt, tt)
  validate_nodes_sound ids (n ∷ ns) h =
      let checks = first_error-none _ h in
      let later = checks.1.1.1.1.0 in
      let rest = validate_nodes_sound (n.id ∷ ids) ns later in
      let fresh =
        validate_nodes_fresh (n.id ∷ ids) ns n.id later (ground (arith, text_eq_iff n.id n.id)) in
      ((check_performance_sound n checks.1.1.0, rest.0), (fresh, rest.1))

  links-key :
      (e : EdgeSpec F) (a b : Text)
      → links e a b ≡ true
      → undirected_edge_key e.source e.target ≡ undirected_edge_key a b
  unfolding links
  links-key e a b l = ground (
    arith,
    l,
    text_eq_iff e.source a,
    text_eq_iff e.target b,
    text_eq_iff e.source b,
    text_eq_iff e.target a,
    undirected_edge_key_comm a b,
    key_eq e.source e.target a b,
    key_eq e.source e.target b a,
  )

  -- The edges: a key that was met does not come back.
  validate_edges_fresh :
      (ids keys : List Text) (es : List (EdgeSpec F)) (a b : Text)
      → validate_edges ids keys es ≡ none
      → contains keys (undirected_edge_key a b) ≡ true
      → is_linked es a b ≡ false
  unfolding validate_edges contains is_linked links
  validate_edges_fresh ids keys [] a b h k = refl
  validate_edges_fresh ids keys (e ∷ es) a b h k =
      let checks = first_error-none _ h in
      let new = fail_if-none _ _ checks.1.1.1.0 in
      let key = undirected_edge_key e.source e.target in
      let rest = validate_edges_fresh ids (key ∷ keys) es a b checks.1.1.1.1.1.0 (ground arith) in
      let same = λ (l : links e a b ≡ true). ap (contains keys) (links-key e a b l) in
      ground (arith, new, rest, same)

  validate_edges_sound :
      (ids keys : List Text) (es : List (EdgeSpec F))
      → validate_edges ids keys es ≡ none
      → All (IsProper ids) es × IsSimpleList es
  unfolding validate_edges contains
  validate_edges_sound ids keys [] h = (tt, tt)
  validate_edges_sound ids keys (e ∷ es) h =
      let checks = first_error-none _ h in
      let source = fail_if-none _ _ checks.0 in
      let target = fail_if-none _ _ checks.1.0 in
      let loop = fail_if-none _ _ checks.1.1.0 in
      let later = checks.1.1.1.1.1.0 in
      let key = undirected_edge_key e.source e.target in
      let rest = validate_edges_sound ids (key ∷ keys) es later in
      let fresh =
        validate_edges_fresh ids (key ∷ keys) es e.source e.target later
          (ground (arith, text_eq_iff key key)) in
      (
        ((ground arith, ground arith, ground (arith, text_eq_iff e.source e.target)), rest.0),
        (fresh, rest.1),
      )

validate_traffic_sound :
    (ids : List Text) (duration : ℤ) (ts : List TrafficConfig)
    → validate_traffic ids duration ts ≡ none
    → All (IsEmittable ids) ts
unfolding validate_traffic
validate_traffic_sound ids duration [] h = tt
validate_traffic_sound ids duration (t ∷ ts) h =
    let checks = first_error-none _ h in
    let source = fail_if-none _ _ checks.0 in
    let count = fail_if-none _ _ checks.1.1.0 in
    let rest = validate_traffic_sound ids duration ts checks.1.1.1.1.1.0 in
    ((ground arith, ground arith), rest)

-- What the rest of the program relies on.
pub record IsValidScenario {F : Type 0} ⦃fl : FloatOps F⦄ (s : Scenario F) : Type 0 where
  pub protocol : validate_config s.protocol ≡ none
  pub nonempty : s.topology.nodes ≢ []
  pub performance : All HasPerformance s.topology.nodes
  pub distinct : IsDistinctIds (ids_of s.topology.nodes)
  pub proper : All (IsProper (ids_of s.topology.nodes)) s.topology.edges
  pub simple : IsSimpleList s.topology.edges
  pub emittable : All (IsEmittable (ids_of s.topology.nodes)) s.traffic

module _ {F : Type 0} ⦃fl : FloatOps F⦄ where
  -- A scenario that the checks accept has a valid protocol and at least one node; every node has a
  -- performance with at least one worker and one queue place, and no two nodes share an id; every
  -- edge joins two different nodes of the scenario, and no two edges join the same pair in either
  -- orientation; every emission has a positive count and a source that is random or a node.
  pub validate_scenario_sound :
      (net : Net) (s : Scenario F) → validate_scenario net s ≡ none → IsValidScenario s
  unfolding validate_scenario
  validate_scenario_sound net s h =
      let checks = first_error-none _ h in
      let nodes = validate_nodes_sound [] s.topology.nodes checks.1.1.1.1.1.1.1.0 in
      let edges = validate_edges_sound _ [] s.topology.edges checks.1.1.1.1.1.1.1.1.0 in
      let traffic = validate_traffic_sound _ _ s.traffic checks.1.1.1.1.1.1.1.1.1.1.0 in
      record {
        protocol = protocol_ok (validate_config s.protocol) checks.0;
        nonempty = has_nodes s.topology.nodes (fail_if-none _ _ checks.1.1.1.0);
        performance = nodes.0;
        distinct = nodes.1;
        proper = edges.0;
        simple = edges.1;
        emittable = traffic;
      }
    where
      protocol_ok : (o : Option Error) → protocol_error o ≡ none → o ≡ none
      protocol_ok none h = refl
      protocol_ok (some e) h = cc

      has_nodes : (ns : List (NodeSpec F)) → is_empty ns ≡ false → ns ≢ []
      has_nodes ns h e = ground (arith, ap is_empty e)
