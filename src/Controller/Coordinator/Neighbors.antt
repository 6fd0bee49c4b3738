-- ===== src/Controller/Coordinator/Neighbors.antt =====
-- The neighbors in the runtime configurations, against the edges of the topology.
use peerkit.Prelude.{
  number_key, ℕ, zero, suc, ◌+◌, ◌≤◌, ◌≡◌, refl, ap, ◌∙◌, true, ◌&&◌, some, List, [], ◌∷◌, ◌++◌,
  Text, text_eq, text_eq_iff, text_key, contains, lookup, store, lookup-store, get_elem?,
  if◌then◌else◌, arith,
}
use peerkit.Float.{FloatOps}
use peerkit.Config.Types.{NodeSpec, EdgeSpec, Scenario, RuntimeNeighborConfig, RuntimeNodeConfig}
use peerkit.Config.Defaults.{resolve}
use peerkit.Config.Validate.{ids_of}
use peerkit.Config.Validate.Sound.{IsDistinctIds}
use peerkit.Controller.Runtime.{
  NodeMaps, index_nodes, slice_at, append_at, insert_neighbor, sort_neighbors, neighbor_entry,
  network_of, collect_neighbors, runtime_of, fill_runtime,
}
use peerkit.Controller.Coordinator.{
  SwarmCoordinator, all_registered, build_runtime_configs, runtime_config,
}

module _ {F : Type 0} where
  -- How often the list holds the node.
  pub entries : Text → List (RuntimeNeighborConfig F) → ℕ
  entries v [] = 0
  entries v (n ∷ ns) = (if text_eq n.node_id v then 1 else 0) + entries v ns

  -- How many edges link u and v, in either orientation.
  pub joins : Text → Text → List (EdgeSpec F) → ℕ
  joins u v [] = 0
  joins u v (e ∷ es) =
      (if text_eq e.source u && text_eq e.target v then 1 else 0)
      + (if text_eq e.target u && text_eq e.source v then 1 else 0)
      + joins u v es

  entries-append :
      (v : Text) (xs ys : List (RuntimeNeighborConfig F))
      → entries v (xs ++ ys) ≡ entries v xs + entries v ys
  unfolding entries
  entries-append v [] ys = omega arith
  entries-append v (x ∷ xs) ys = omega (arith, entries-append v xs ys)

  entries-insert_neighbor :
      (v : Text) (n : RuntimeNeighborConfig F) (ms : List (RuntimeNeighborConfig F))
      → entries v (insert_neighbor n ms) ≡ entries v (n ∷ ms)
  unfolding entries insert_neighbor
  entries-insert_neighbor v n [] = refl
  entries-insert_neighbor v n (m ∷ ms) = ground (arith, entries-insert_neighbor v n ms)

  entries-sort_neighbors :
      (v : Text) (ns : List (RuntimeNeighborConfig F))
      → entries v (sort_neighbors ns) ≡ entries v ns
  unfolding entries sort_neighbors
  entries-sort_neighbors v [] = refl
  entries-sort_neighbors v (n ∷ ns) =
      omega (arith, entries-insert_neighbor v n (sort_neighbors ns), entries-sort_neighbors v ns)

  at : List (Text × List (RuntimeNeighborConfig F)) → Text → List (RuntimeNeighborConfig F)
  at m u = slice_at (lookup m u)

  entries-append_at :
      (m : List (Text × List (RuntimeNeighborConfig F))) (a u v : Text)
      (x : RuntimeNeighborConfig F)
      → entries v (at (append_at m a x) u)
        ≡ entries v (at m u) + (if text_eq a u && text_eq x.node_id v then 1 else 0)
  unfolding append_at at entries
  entries-append_at m a u v x = ground (
    arith,
    lookup-store m a u (slice_at (lookup m a) ++ x ∷ []),
    entries-append v (slice_at (lookup m a)) (x ∷ []),
    text_eq_iff a u,
    ap (λ t. entries v (slice_at (lookup m t))) {x = a} {y = u},
  )

module _ {F : Type 0} ⦃fl : FloatOps F⦄ where
  entries-collect :
      (m : NodeMaps) (es : List (EdgeSpec F)) (nb : List (Text × List (RuntimeNeighborConfig F)))
      (u v : Text)
      → entries v (at (collect_neighbors m es nb) u) ≡ entries v (at nb u) + joins u v es
  unfolding collect_neighbors joins neighbor_entry
  entries-collect m [] nb u v = omega arith
  entries-collect m (e ∷ es) nb u v =
      let network = resolve (network_of e.network) in
      let one = append_at nb e.source (neighbor_entry m e.target network) in
      ground (
        arith,
        entries-collect m es (append_at one e.target (neighbor_entry m e.source network)) u v,
        entries-append_at one e.target u v (neighbor_entry m e.source network),
        entries-append_at nb e.source u v (neighbor_entry m e.target network),
      )

  fill_runtime_before :
      (s : Scenario F) (run_id : Text) (nb : List (Text × List (RuntimeNeighborConfig F))) (i : ℕ)
      (ns : List (NodeSpec F)) (rt : List (ℕ × RuntimeNodeConfig F)) (k : ℕ)
      → k ≤ i
      → lookup (fill_runtime s run_id nb i ns rt) k ≡ lookup rt k
  unfolding fill_runtime
  fill_runtime_before s run_id nb i [] rt k h = refl
  fill_runtime_before s run_id nb i (n ∷ ns) rt k h =
      let sorted = sort_neighbors (slice_at (lookup nb n.id)) in
      let cfg = runtime_of s run_id i n sorted in
      ground (
        arith,
        fill_runtime_before s run_id (store nb n.id sorted) (suc i) ns (store rt (i + 1) cfg) k
            (omega arith),
        lookup-store rt (i + 1) k cfg,
      )

  contains-ids_of :
      (ns : List (NodeSpec F)) (k : ℕ) (n : NodeSpec F)
      → get_elem? ns k ≡ some n
      → contains (ids_of ns) n.id ≡ true
  unfolding contains
  contains-ids_of [] k n h = cc
  contains-ids_of (m ∷ ns) zero n h = ground (arith, text_eq_iff m.id n.id, same)
    where
      same : m.id ≡ n.id
      same = cc
  contains-ids_of (m ∷ ns) (suc k) n h = ground (arith, contains-ids_of ns k n h)

  fill_runtime_entry :
      (s : Scenario F) (run_id : Text) (nb : List (Text × List (RuntimeNeighborConfig F))) (i : ℕ)
      (ns : List (NodeSpec F)) (rt : List (ℕ × RuntimeNodeConfig F)) (k : ℕ) (n : NodeSpec F)
      → IsDistinctIds (ids_of ns)
      → get_elem? ns k ≡ some n
      → lookup (fill_runtime s run_id nb i ns rt) (i + k + 1)
        ≡ some (runtime_of s run_id (i + k) n (sort_neighbors (at nb n.id)))
  unfolding fill_runtime at
  fill_runtime_entry s run_id nb i [] rt k n d h = cc
  fill_runtime_entry s run_id nb i (m ∷ ns) rt zero n d h =
      let sorted = sort_neighbors (slice_at (lookup nb m.id)) in
      let cfg = runtime_of s run_id i m sorted in
      let zero_right : i + 0 ≡ i = omega arith in
      let first =
        fill_runtime_before s run_id (store nb m.id sorted) (suc i) ns (store rt (i + 1) cfg)
          (i + 1) (omega arith) in
      let here : lookup (store rt (i + 1) cfg) (i + 1) ≡ some cfg =
        ground (arith, lookup-store rt (i + 1) (i + 1) cfg) in
      let same : m ≡ n = cc in rw (zero_right, ← same) (first ∙ here)
  fill_runtime_entry s run_id nb i (m ∷ ns) rt (suc k) n d h =
      let sorted = sort_neighbors (slice_at (lookup nb m.id)) in
      let cfg = runtime_of s run_id i m sorted in
      let rest =
        fill_runtime_entry s run_id (store nb m.id sorted) (suc i) ns (store rt (i + 1) cfg) k n d.1
          h in
      let shifted : i + suc k ≡ suc i + k = omega arith in
      let kept : at (store nb m.id sorted) n.id ≡ at nb n.id = ground (
        arith,
        lookup-store nb m.id n.id sorted,
        d.0,
        contains-ids_of ns k n h,
        text_eq_iff m.id n.id,
        ap (contains (ids_of ns)) {x = m.id} {y = n.id},
      ) in
      rw (shifted, ← kept) rest

module _ {F S : Type 0} ⦃fl : FloatOps F⦄ where
  -- With all peers registered and distinct node ids, the k-th node has a runtime configuration in
  -- slot k + 1, under its own id, whose neighbors hold each node as often as edges link the two, in
  -- either orientation: no edge is lost or made up, and the two ends of an edge see each other.
  pub build_runtime_configs_neighbors :
      (c : SwarmCoordinator F S) (k : ℕ) (n : NodeSpec F) (v : Text)
      → all_registered c ≡ true
      → IsDistinctIds (ids_of c.scenario.topology.nodes)
      → get_elem? c.scenario.topology.nodes k ≡ some n
      → (cfg : RuntimeNodeConfig F) × (runtime_config (build_runtime_configs c).0 (k + 1)
          ≡ some cfg)
        × (cfg.node_id ≡ n.id)
        × (entries v cfg.neighbors ≡ joins n.id v c.scenario.topology.edges)
  unfolding all_registered build_runtime_configs runtime_config runtime_of lookup at entries
  build_runtime_configs_neighbors c k n v h d e =
      let nodes = c.scenario.topology.nodes in
      let edges = c.scenario.topology.edges in
      let maps =
        index_nodes c.registrations 0 nodes
          (record { by_node = []; index_by_node = []; endpoints = c.endpoints }) in
      let nb = collect_neighbors maps edges [] in
      let zero_left : 0 + k ≡ k = omega arith in
      let found = fill_runtime_entry c.scenario c.run_id nb 0 nodes c.runtime k n d e in
      (
        runtime_of c.scenario c.run_id k n (sort_neighbors (at nb n.id)),
        rw (h, build_runtime_configs) (rw zero_left at found),
        refl,
        entries-sort_neighbors v (at nb n.id) ∙ entries-collect maps edges [] n.id v ∙ omega arith,
      )
