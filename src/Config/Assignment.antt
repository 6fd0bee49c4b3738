-- ===== src/Config/Assignment.antt =====
-- internal/config/delay_assignment.go: every node and every edge gets one stable delay, drawn from its
-- distribution.
pub mod Constant
pub mod Nodes
pub mod Edges
pub mod Whole
use peerkit.Prelude.{
  ℕ, ◌+◌, ◌-◌, ◌%◌, ◌^◌, Bool, true, false, Option, none, some, List, [], ◌∷◌, ◌++◌, Text, codes,
  stable_seed, if◌then◌else◌,
}
use peerkit.Int.{ℤ, pos_part, neg_part}
use peerkit.Float.{FloatOps}
use peerkit.Domain.Rng.{Rng}
use peerkit.Config.Types.{
  Distribution, NodePerformance, EdgeNetwork, NodeSpec, EdgeSpec, Scenario, TopologyConfig,
}
use peerkit.Config.Validate.{ScenarioError, validate_distribution}
use peerkit.Config.Sample.{sample_milliseconds, constant_distribution}

-- `cut_off` stands for a draw that does not end within its rounds.
pub data DelayError : Type 0 where
  node_unresolved node_jitter : Text → DelayError
  node_distribution : Text → ScenarioError → DelayError
  edge_unresolved edge_jitter : Text → Text → DelayError
  edge_distribution : Text → Text → ScenarioError → DelayError
  cut_off : DelayError

pub data Result {ℓ} (A : Type ℓ) : Type ℓ where
  ok : A → Result A
  err : DelayError → Result A

-- On the bit patterns of the int64 values.
unfoldable pub domain_seed : ℤ → Text → ℕ
domain_seed base purpose =
    stable_seed ((pos_part base % 2 ^ 64 + (2 ^ 64 - neg_part base % 2 ^ 64)) % 2 ^ 64)
      (codes "peerkit-domain-" ++ purpose)

-- A value, and the generator after it; an error ends the loop.
abbrev pub Assigned : Type 0 → Type 0 → Type 0
Assigned R A = Result (A × R)

-- The rest of a list behind its first entry.
abbrev pub prepend : {A : Type 0} → A → Result (List A) → Result (List A)
prepend x (err e) = err e
prepend x (ok xs) = ok (x ∷ xs)

module _ {F R : Type 0} ⦃fl : FloatOps F⦄ (rng : Rng F R) (rounds : ℕ) where
  abbrev pub assigned_performance :
      NodePerformance F → Option F × R → Assigned R (NodePerformance F)
  assigned_performance p (none, r) = err cut_off
  assigned_performance p (some x, r) =
      ok (record p { processing_delay_distribution = constant_distribution x }, r)

  abbrev pub resolve_performance :
      Text → NodePerformance F → Option ScenarioError → R → Assigned R (NodePerformance F)
  resolve_performance id p (some e) r = err (node_distribution id e)
  resolve_performance id p none r =
      if fl.lt p.processing_delay_jitter_std_dev_ms (fl.of_int 0)
      then err (node_jitter id)
      else assigned_performance p (sample_milliseconds rng rounds p.processing_delay_distribution r)

  abbrev pub put_performance : NodeSpec F → Assigned R (NodePerformance F) → Assigned R (NodeSpec F)
  put_performance n (err e) = err e
  put_performance n (ok done) = ok (record n { performance = some done.0 }, done.1)

  -- One round of the loop over the nodes.
  abbrev pub resolve_node : NodeSpec F → R → Option (NodePerformance F) → Assigned R (NodeSpec F)
  resolve_node n r none = err (node_unresolved n.id)
  resolve_node n r (some p) =
      put_performance n
        (resolve_performance n.id p (validate_distribution p.processing_delay_distribution) r)

  unfoldable pub resolve_nodes : List (NodeSpec F) → R → Result (List (NodeSpec F))
  resolve_nodes [] r = ok []
  resolve_nodes (n ∷ ns) r = elim (resolve_node n r n.performance) [
    | err e ↦ err e
    | ok done ↦ prepend done.0 (resolve_nodes ns done.1)
  ]

module _ {F R : Type 0} ⦃fl : FloatOps F⦄ (rng : Rng F R) (rounds : ℕ) where
  abbrev pub assigned_network : EdgeNetwork F → Option F × R → Assigned R (EdgeNetwork F)
  assigned_network p (none, r) = err cut_off
  assigned_network p (some x, r) = ok (record p { delay_distribution = constant_distribution x }, r)

  abbrev pub resolve_network :
      Text → Text → EdgeNetwork F → Option ScenarioError → R → Assigned R (EdgeNetwork F)
  resolve_network a b p (some e) r = err (edge_distribution a b e)
  resolve_network a b p none r =
      if fl.lt p.delay_jitter_std_dev_ms (fl.of_int 0)
      then err (edge_jitter a b)
      else assigned_network p (sample_milliseconds rng rounds p.delay_distribution r)

  abbrev pub put_network : EdgeSpec F → Assigned R (EdgeNetwork F) → Assigned R (EdgeSpec F)
  put_network n (err e) = err e
  put_network n (ok done) = ok (record n { network = some done.0 }, done.1)

  -- One round of the loop over the edges.
  abbrev pub resolve_edge : EdgeSpec F → R → Option (EdgeNetwork F) → Assigned R (EdgeSpec F)
  resolve_edge n r none = err (edge_unresolved n.source n.target)
  resolve_edge n r (some p) =
      put_network n
        (resolve_network n.source n.target p (validate_distribution p.delay_distribution) r)

  unfoldable pub resolve_edges : List (EdgeSpec F) → R → Result (List (EdgeSpec F))
  resolve_edges [] r = ok []
  resolve_edges (n ∷ ns) r = elim (resolve_edge n r n.network) [
    | err e ↦ err e
    | ok done ↦ prepend done.0 (resolve_edges ns done.1)
  ]

-- `new_source` is rand.New(rand.NewSource(seed)).
module _ {F R : Type 0} ⦃fl : FloatOps F⦄ (rng : Rng F R) (rounds : ℕ) (new_source : ℕ → R) where
  unfoldable pub resolve_node_delay_assignments : List (NodeSpec F) → ℤ → Result (List (NodeSpec F))
  resolve_node_delay_assignments nodes seed =
      resolve_nodes rng rounds nodes (new_source (domain_seed seed (codes "node-delay-assignment")))

  unfoldable pub resolve_edge_delay_assignments : List (EdgeSpec F) → ℤ → Result (List (EdgeSpec F))
  resolve_edge_delay_assignments edges seed =
      resolve_edges rng rounds edges (new_source (domain_seed seed (codes "edge-delay-assignment")))

  unfoldable pub resolve_delay_assignments : Scenario F → Result (Scenario F)
  resolve_delay_assignments s =
      elim (resolve_node_delay_assignments s.topology.nodes s.experiment.seed) [
        | err e ↦ err e
        | ok nodes ↦ elim (resolve_edge_delay_assignments s.topology.edges s.experiment.seed) [
          | err e ↦ err e
          | ok edges ↦
              ok (record s { topology = record s.topology { nodes = nodes; edges = edges } })
        ]
      ]
