-- ===== src/Config/Assignment/Whole.antt =====
-- The assignment of a whole scenario.
use peerkit.Prelude.{ℕ, ◌≡◌, ◌≢◌, refl, codes, List}
use peerkit.Float.{FloatOps}
use peerkit.Domain.Rng.{Rng}
use peerkit.Config.Types.{NodeSpec, EdgeSpec, Scenario}
use peerkit.Config.Sample.Returns.{IsFloat, IsLucky}
use peerkit.Config.Assignment.{
  DelayError, domain_seed, Result, ok, err, resolve_node_delay_assignments,
  resolve_edge_delay_assignments, resolve_delay_assignments,
}
use peerkit.Config.Assignment.Constant.{Chain, Chain-Each}
use peerkit.Config.Assignment.Nodes.{
  IsAssignedNode, IsDrawnNode, resolve_nodes-fixed, resolve_nodes-again, resolve_nodes-ends,
}
use peerkit.Config.Assignment.Edges.{
  IsAssignedEdge, IsDrawnEdge, resolve_edges-fixed, resolve_edges-again, resolve_edges-ends,
}

abbrev topology_with :
    {F : Type 0} → Scenario F → List (NodeSpec F) → List (EdgeSpec F) → Scenario F
topology_with s nodes edges = record s {
  topology = record s.topology { nodes = nodes; edges = edges };
}

module _ {F R : Type 0} ⦃fl : FloatOps F⦄ (rng : Rng F R) (rounds : ℕ) (source : ℕ → R) where
  abbrev node_source : Scenario F → R
  node_source s = source (domain_seed s.experiment.seed (codes "node-delay-assignment"))

  abbrev edge_source : Scenario F → R
  edge_source s = source (domain_seed s.experiment.seed (codes "edge-delay-assignment"))

  -- What an assignment does: only the delays of nodes and edges change, to constants, which are the draws
  -- from their distributions one after the other, from one source for the nodes and one for the edges.
  abbrev pub IsAssigned : Scenario F → Scenario F → Type 0
  IsAssigned s t =
      (t ≡ topology_with s t.topology.nodes t.topology.edges)
      × Chain (IsDrawnNode rng rounds) s.topology.nodes t.topology.nodes (node_source s)
      × Chain (IsDrawnEdge rng rounds) s.topology.edges t.topology.edges (edge_source s)

  -- A success is that, and an error is one of the source's.
  abbrev pub IsOutcome : Scenario F → Result (Scenario F) → Type 0
  IsOutcome s (err e) = e ≢ DelayError.cut_off
  IsOutcome s (ok t) = IsAssigned s t

  both :
      (s : Scenario F) (nodes : Result (List (NodeSpec F))) (edges : Result (List (EdgeSpec F)))
      → ((ns : List (NodeSpec F))
          → nodes ≡ ok ns
          → Chain (IsDrawnNode rng rounds) s.topology.nodes ns (node_source s))
      → ((es : List (EdgeSpec F))
          → edges ≡ ok es
          → Chain (IsDrawnEdge rng rounds) s.topology.edges es (edge_source s))
      → nodes ≢ err DelayError.cut_off
      → edges ≢ err DelayError.cut_off
      → IsOutcome s (elim nodes [
        | err e ↦ err e
        | ok ns ↦ elim edges [ err e ↦ err e | ok es ↦ ok (topology_with s ns es) ]
      ])
  both s (err e) edges f g a b = λ k. a (cc k)
  both s (ok ns) (err e) f g a b = λ k. b (cc k)
  both s (ok ns) (ok es) f g a b = (refl, f ns refl, g es refl)

  -- Where the first assignment succeeds, another one changes nothing.
  abbrev pub IsSettled :
      {S : Type 0} → Rng F S → ℕ → (ℕ → S) → Scenario F → Result (Scenario F) → Type 0
  IsSettled again l source' s (err e) = e ≢ DelayError.cut_off
  IsSettled again l source' s (ok t) =
      IsAssigned s t × (resolve_delay_assignments again l source' t ≡ ok t)

  module _ {S : Type 0} (again : Rng F S) (l : ℕ) (source' : ℕ → S) (float : IsFloat F) where
    settled :
        (s t : Scenario F) → IsAssigned s t → resolve_delay_assignments again l source' t ≡ ok t
    unfolding resolve_delay_assignments resolve_node_delay_assignments
        resolve_edge_delay_assignments
    settled s t (same, nodes, edges) =
        let on_nodes =
          resolve_nodes-again again l s.topology.nodes t.topology.nodes
            (source' (domain_seed t.experiment.seed (codes "node-delay-assignment"))) float.irrefl
            (Chain-Each (IsDrawnNode rng rounds) IsAssignedNode
              (λ n m r r' (p, x, q, e, j, d). (p, x, q, e, j)) _ _ _ nodes) in
        let on_edges =
          resolve_edges-again again l s.topology.edges t.topology.edges
            (source' (domain_seed t.experiment.seed (codes "edge-delay-assignment"))) float.irrefl
            (Chain-Each (IsDrawnEdge rng rounds) IsAssignedEdge
              (λ n m r r' (p, x, q, e, j, d). (p, x, q, e, j)) _ _ _ edges) in
        rw
          (
            on_nodes, on_edges, resolve_delay_assignments, resolve_node_delay_assignments,
            resolve_edge_delay_assignments,
          )
          refl

    settle :
        (s : Scenario F) (o : Result (Scenario F)) → IsOutcome s o → IsSettled again l source' s o
    settle s (err e) i = i
    settle s (ok t) i = (i, settled s t i)

    outcome :
        IsLucky rng rounds
        → (s : Scenario F) → IsOutcome s (resolve_delay_assignments rng rounds source s)
    unfolding resolve_delay_assignments resolve_node_delay_assignments
        resolve_edge_delay_assignments
    outcome lucky s =
        both s _ _ (λ ns e. resolve_nodes-fixed rng rounds s.topology.nodes ns _ e)
          (λ es e. resolve_edges-fixed rng rounds s.topology.edges es _ e)
          (resolve_nodes-ends rng rounds float lucky s.topology.nodes _)
          (resolve_edges-ends rng rounds float lucky s.topology.edges _)

    -- For numbers that are like float64 (IsFloat), and where no draw of the assignment outlasts its
    -- rounds, it ends with an error of the source, or it
    -- changes nothing but the delay distribution of every node and of every edge, which becomes the
    -- constant drawn from it, in order, with one generator for the nodes and one for the edges; and
    -- assigning again, with any generator, seeds and rounds, succeeds and changes nothing.
    pub resolve_delay_assignments-IsAssigned :
        IsLucky rng rounds
        → (s : Scenario F)
        → IsSettled again l source' s (resolve_delay_assignments rng rounds source s)
    resolve_delay_assignments-IsAssigned lucky s = settle s _ (outcome lucky s)
