-- ===== src/Controller/Runtime.antt =====
-- internal/controller/swarm_coordinator.go, `buildRuntimeConfigs`: its maps and its loops.
use peerkit.Prelude.{
  ℕ, suc, ◌+◌, Option, none, some, List, [], ◌∷◌, ◌++◌, Text, codes, text_key, number_key, lookup,
  store, if◌then◌else◌,
}
use peerkit.Int.{ℤ, pos, ltb_ℤ, ◌+ℤ◌, ◌*ℤ◌}
use peerkit.Float.{FloatOps}
use peerkit.Config.Types.{
  Distribution, NodePerformance, NodeSpec, EdgeSpec, EdgeNetwork, ResolvedEdgeNetwork, Scenario,
  RuntimeNeighborConfig, RuntimeNodeConfig,
}
use peerkit.Config.Defaults.{resolve}
use peerkit.Config.Validate.{to_int64}

pub record SwarmRegisterRequest : Type 0 where
  pub slot : ℤ
  pub peer_id : Text
  pub address : Text
  pub control_url : Text

abbrev pub no_registration : SwarmRegisterRequest
no_registration = record { slot = pos 0; peer_id = []; address = []; control_url = [] }

-- `m[a]` on a map of slices, and `m[a] = append(m[a], v)`.
abbrev pub slice_at {ℓ} : {A : Type ℓ} → Option (List A) → List A
slice_at none = []
slice_at (some xs) = xs

unfoldable pub append_at {ℓ} : {A : Type ℓ} → List (Text × List A) → Text → A → List (Text × List A)
append_at m a v = store m a (slice_at (lookup m a) ++ v ∷ [])

abbrev registration_or : Option SwarmRegisterRequest → SwarmRegisterRequest
registration_or none = no_registration
registration_or (some r) = r

abbrev index_or : Option ℕ → ℕ
index_or none = 0
index_or (some i) = i

-- The maps of buildRuntimeConfigs, which its first loop fills from index i on.
pub record NodeMaps : Type 0 where
  pub by_node : List (Text × SwarmRegisterRequest)
  pub index_by_node : List (Text × ℕ)
  pub endpoints : List (Text × Text)

module _ {F : Type 0} where
  unfoldable pub index_nodes :
      List (ℕ × SwarmRegisterRequest) → ℕ → List (NodeSpec F) → NodeMaps → NodeMaps
  index_nodes registrations i [] m = m
  index_nodes registrations i (n ∷ ns) m =
      let registration = registration_or (lookup registrations (i + 1)) in
      index_nodes registrations (suc i) ns (record {
        by_node = store m.by_node n.id registration;
        index_by_node = store m.index_by_node n.id i;
        endpoints = store m.endpoints n.id registration.control_url;
      })

  -- The entry of `node` in the neighbors of the other end.
  unfoldable pub neighbor_entry : NodeMaps → Text → ResolvedEdgeNetwork F → RuntimeNeighborConfig F
  neighbor_entry m node network =
      let registration = registration_or (lookup m.by_node node) in
      record {
        node_id = node;
        index = pos (index_or (lookup m.index_by_node node));
        peer_id = registration.peer_id;
        address = registration.address;
        network = network;
      }

  -- sort.Slice by the index; the neighbors of a validated scenario have distinct indices.
  unfoldable pub insert_neighbor :
      RuntimeNeighborConfig F → List (RuntimeNeighborConfig F) → List (RuntimeNeighborConfig F)
  insert_neighbor n [] = n ∷ []
  insert_neighbor n (m ∷ ms) =
      if ltb_ℤ m.index n.index then m ∷ insert_neighbor n ms else n ∷ m ∷ ms

  unfoldable pub sort_neighbors : List (RuntimeNeighborConfig F) → List (RuntimeNeighborConfig F)
  unfolding insert_neighbor
  sort_neighbors [] = []
  sort_neighbors (n ∷ ns) = insert_neighbor n (sort_neighbors ns)

-- `*p`; a nil pointer, on which the source fails, gives the zero value here. A validated scenario has
-- none, with its defaults applied.
module _ {F : Type 0} ⦃fl : FloatOps F⦄ where
  abbrev zero_distribution : Distribution F
  zero_distribution = record {
    type = [];
    value_ms = fl.of_int 0;
    mean_ms = fl.of_int 0;
    std_dev_ms = fl.of_int 0;
    min_ms = fl.of_int 0;
    max_ms = fl.of_int 0;
    scale_ms = fl.of_int 0;
    shape = fl.of_int 0;
  }

  abbrev pub network_of : Option (EdgeNetwork F) → EdgeNetwork F
  network_of (some n) = n
  network_of none = record {
    delay_distribution = zero_distribution;
    delay_jitter_std_dev_ms = fl.of_int 0;
    loss_rate = none;
    bandwidth_mbps = none;
    queue_capacity = pos 0;
  }

  abbrev pub performance_of : Option (NodePerformance F) → NodePerformance F
  performance_of (some p) = p
  performance_of none = record {
    processing_delay_distribution = zero_distribution;
    processing_delay_jitter_std_dev_ms = fl.of_int 0;
    workers = pos 0;
    queue_capacity = pos 0;
    overflow_policy = [];
  }

  -- The loop over the edges.
  unfoldable pub collect_neighbors :
      NodeMaps
      → List (EdgeSpec F)
      → List (Text × List (RuntimeNeighborConfig F))
      → List (Text × List (RuntimeNeighborConfig F))
  collect_neighbors m [] neighbors = neighbors
  collect_neighbors m (e ∷ es) neighbors =
      let network = resolve (network_of e.network) in
      collect_neighbors m es (
        append_at (append_at neighbors e.source (neighbor_entry m e.target network)) e.target
          (neighbor_entry m e.source network))

  -- `RunID` and `Scenario` are those of the coordinator. An id has no slash, so that filepath.Join only
  -- puts one in between; `PrivateKey` is left out of the literal.
  unfoldable pub runtime_of :
      Scenario F → Text → ℕ → NodeSpec F → List (RuntimeNeighborConfig F) → RuntimeNodeConfig F
  runtime_of s run_id index node neighbors = record {
    run_id = run_id;
    experiment_name = s.experiment.name;
    protocol = s.protocol;
    node_id = node.id;
    node_index = pos index;
    seed = to_int64 (s.experiment.seed +ℤ pos index *ℤ pos 1000003);
    private_key = [];
    listen_address = codes "/ip4/0.0.0.0/tcp/4001";
    control_address = codes ":8080";
    result_file = codes "/tmp/peerkit-results/" ++ (node.id ++ codes ".jsonl");
    metrics = s.metrics;
    performance = performance_of node.performance;
    neighbors = neighbors;
  }

  -- The last loop, from index i on.
  unfoldable pub fill_runtime :
      Scenario F
      → Text
      → List (Text × List (RuntimeNeighborConfig F))
      → ℕ
      → List (NodeSpec F)
      → List (ℕ × RuntimeNodeConfig F)
      → List (ℕ × RuntimeNodeConfig F)
  fill_runtime s run_id neighbors i [] runtime = runtime
  fill_runtime s run_id neighbors i (n ∷ ns) runtime =
      let sorted = sort_neighbors (slice_at (lookup neighbors n.id)) in
      fill_runtime s run_id (store neighbors n.id sorted) (suc i) ns
        (store runtime (i + 1) (runtime_of s run_id i n sorted))
