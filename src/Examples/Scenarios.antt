-- ===== src/Examples/Scenarios.antt =====
-- The theorems on scenarios, protocols and the coordinator, applied.
use peerkit.Prelude.{
  ℕ, zero, suc, ◌≤◌, ◌≡◌, ◌≢◌, refl, ap, sym, text_eq_iff, true, false, ◌&&◌, none, some, [], ◌∷◌,
  Text, codes, text_eq, text_key, contains, store, to_lower, trim_space, trim_left, is_space,
  lower_byte, text_leb, ltb, arith, if◌then◌else◌,
}
use peerkit.Int.{ℤ, pos, eqb_ℤ, ◌+ℤ◌, ◌-ℤ◌, ◌*ℤ◌}
use peerkit.Float.{thousandths}
use peerkit.Protocols.{
  Config, ok, YamlNode, scalar, mapping, YamlValue, string, wrapper, str_tag, base_flooding,
  hop_wave_name, normalize, validate, validate_config, normalize_config, protocol_name, is_hop_wave,
  validate_hop_wave, unmarshal_yaml, marshal_yaml,
}
use peerkit.Protocols.Laws.{Yaml, unmarshal_yaml-marshal_yaml, normalize_config_idem}
use peerkit.Config.Types.{
  SwarmConfig, NodePerformance, EdgeNetwork, NodeSpec, EdgeSpec, TopologyConfig, Scenario, is_swarm,
}
use peerkit.Config.Defaults.{resolve, apply_defaults, zero_constant}
use peerkit.Config.Defaults.Laws.{HasMode, apply_defaults_idem}
use peerkit.Config.Topology.{
  normalize_topology, cell, id_at, check_rows, check_cells, check_columns, check_cell, matrix_edges,
  row_edges,
}
use peerkit.Config.Topology
use peerkit.Config.Topology.Laws.{
  IsAdjacency, HasDistinctIds, edges_between, normalize_topology_lem,
}
use peerkit.Config.Validate.{
  Net, first_error, validate_scenario, undirected_edge_key, validate_deployment,
  validate_controller, validate_nodes, node_id_pattern, id_start, id_rest, check_network,
  check_performance, check_resources, is_random_traffic_source, last_emission, to_int64,
  validate_distribution, validate_edge_network, validate_edges, validate_network,
  validate_node_performance, validate_traffic,
}
use peerkit.Config.Validate.Sound.{IsValidScenario, validate_scenario_sound}
use peerkit.Controller.Runtime.{SwarmRegisterRequest}
use peerkit.Controller.Coordinator.{
  SwarmCoordinator, Decoders, new_swarm_coordinator, all_registered, expected_of, check_request,
  register, build_runtime_configs, set_state, complete, waiting_for_peer_readiness,
}
use peerkit.Controller.Coordinator.Neighbors.{entries, joins, build_runtime_configs_neighbors}
use peerkit.Config.Validate.Sound.{IsDistinctIds}
use peerkit.Config.Types.{RuntimeNodeConfig}
use peerkit.Config.Validate.{ids_of}
use peerkit.Controller.Coordinator.{runtime_config}
use peerkit.Prelude.{get_elem?}
use peerkit.Controller.Coordinator.Slots.{has_slot}
use peerkit.Controller.Coordinator.States.{
  System, Reach, here, next, request, counted, build, start, finish, registered, done, start_of,
  IsComplete, build_never_fails, archive-IsComplete,
}
use peerkit.Controller.Handlers.{handle_archive, archive}

abbrev pub performance : NodePerformance ℕ
performance = record {
  processing_delay_distribution = zero_constant;
  processing_delay_jitter_std_dev_ms = 0;
  workers = pos 1;
  queue_capacity = pos 8;
  overflow_policy = codes "drop_new";
}

abbrev pub network : EdgeNetwork ℕ
network = record {
  delay_distribution = zero_constant;
  delay_jitter_std_dev_ms = 0;
  loss_rate = some 100;
  bandwidth_mbps = some 0;
  queue_capacity = pos 8;
}

abbrev node : Text → NodeSpec ℕ
node id = record { id = id; performance = some performance; resources = none }

abbrev edge : Text → Text → EdgeSpec ℕ
edge a b = record { source = a; target = b; network = some network }

abbrev pub triangle : TopologyConfig ℕ
triangle = record {
  directed = false;
  nodes = node (codes "x") ∷ node (codes "y") ∷ [];
  matrix = [];
  edges = edge (codes "y") (codes "x") ∷ [];
}

abbrev no_swarm : SwarmConfig
no_swarm = record {
  push_image = none;
  with_registry_auth = none;
  startup_timeout_seconds = pos 0;
  startup_batch_size = pos 0;
  startup_batch_interval_ms = pos 0;
  controller_constraints = [];
  peer_constraints = [];
  placement_constraints = [];
  max_replicas_per_node = pos 0;
  network = record { subnet = []; gateway = []; attachable = none };
}

abbrev pub a_scenario : Scenario ℕ
a_scenario = record {
  version = pos 1;
  protocol = record { name = base_flooding; hop_wave = none };
  experiment = record {
    name = codes "e";
    seed = pos 1;
    duration_ms = pos 1000;
    warmup_ms = pos 0;
    control_base_port = pos 18080;
  };
  deployment = record { mode = codes "compose"; compose_parallelism = pos 4; swarm = no_swarm };
  controller = record { parallelism = pos 32; operation_timeout_seconds = pos 180 };
  metrics = record {
    buffer_bytes = pos 4096;
    queue_capacity = pos 512;
    flush_interval_ms = pos 200;
  };
  defaults = record { node = performance; edge = network };
  topology = triangle;
  traffic =
      record {
        source = codes " Random";
        start_at_ms = pos 0;
        count = pos 2;
        interval_ms = pos 10;
        payload_size_bytes = pos 64;
      }
      ∷ [];
}

has_mode : HasMode a_scenario.deployment
unfolding text_eq trim_space trim_left is_space
has_mode = λ h. cc

apply_defaults_idem_example : apply_defaults (apply_defaults a_scenario) ≡ apply_defaults a_scenario
apply_defaults_idem_example = apply_defaults_idem a_scenario has_mode

abbrev any_net : Net
any_net = record { is_cidr = λ s. true; is_inside = λ s g. true }

scenario_accepted : validate_scenario any_net a_scenario ≡ none
unfolding validate_scenario first_error validate_config validate text_eq normalize to_lower
    trim_space trim_left is_space lower_byte validate_deployment ◌+ℤ◌ validate_controller
    validate_nodes node_id_pattern id_start id_rest resolve is_swarm check_network check_performance
    check_resources is_random_traffic_source last_emission to_int64 undirected_edge_key
    validate_distribution validate_edge_network validate_edges validate_network
    validate_node_performance validate_traffic ◌*ℤ◌ ◌-ℤ◌ contains text_leb normalize_config
    validate_hop_wave
scenario_accepted = refl

validate_scenario_sound_example : IsValidScenario a_scenario
validate_scenario_sound_example = validate_scenario_sound any_net a_scenario scenario_accepted

-- Two pairs of ids that share a key.
key_collision :
    undirected_edge_key (codes "x") (codes "y--z") ≡ undirected_edge_key (codes "x--y") (codes "z")
unfolding undirected_edge_key text_leb
key_collision = refl

abbrev by_matrix : TopologyConfig ℕ
by_matrix = record triangle {
  matrix = (pos 0 ∷ pos 1 ∷ []) ∷ (pos 1 ∷ pos 0 ∷ []) ∷ [];
  edges = [];
}

abbrev by_edges : TopologyConfig ℕ
by_edges = record triangle {
  edges = record { source = codes "x"; target = codes "y"; network = none } ∷ [];
}

x_y_differ : codes "x" ≢ codes "y"
unfolding text_eq
x_y_differ h = ground (arith, (text_eq_iff (codes "x") (codes "y")).1 h)

by_matrix_ids : HasDistinctIds by_matrix.nodes
unfolding id_at
by_matrix_ids zero zero p q h = refl
by_matrix_ids zero (suc zero) p q h = absurd (x_y_differ h)
by_matrix_ids (suc zero) zero p q h = absurd (x_y_differ (sym h))
by_matrix_ids (suc zero) (suc zero) p q h = refl
by_matrix_ids (suc (suc i)) j p q h = absurd (omega arith)
by_matrix_ids i (suc (suc j)) p q h = absurd (omega arith)

by_matrix_normalized : normalize_topology by_matrix ≡ Topology.ok by_edges
unfolding normalize_topology check_rows check_cells check_columns check_cell cell matrix_edges
    row_edges id_at
by_matrix_normalized = refl

normalize_topology_lem_example :
    IsAdjacency 2 by_matrix.matrix
    × (by_edges.nodes ≡ by_matrix.nodes)
    × (edges_between (id_at by_matrix.nodes 0) (id_at by_matrix.nodes 1) by_edges.edges
        ≡ (if ltb 0 1 && eqb_ℤ (cell by_matrix.matrix 0 1) (pos 1) then 1 else 0))
normalize_topology_lem_example =
    normalize_topology_lem by_matrix by_edges 0 1 by_matrix_ids by_matrix_normalized (omega arith)
      (omega arith) (omega arith)

abbrev a_wave : Config ℕ
a_wave = record { name = codes " HopWave"; hop_wave = some (record { i = pos 3; f = 500 }) }

abbrev node_of_value : YamlValue ℕ → YamlNode ℕ
node_of_value (string t) = scalar str_tag t
node_of_value (wrapper h) = mapping (hop_wave_name ∷ [] ∷ []) (some h)

abbrev plain_yaml : Yaml ℕ
plain_yaml = record {
  node_of = node_of_value;
  node_of-string = λ t v. refl;
  node_of-wrapper = λ h. ([], refl);
}

a_wave_accepted : validate_config a_wave ≡ none
unfolding validate_config validate normalize_config normalize text_eq to_lower trim_space trim_left
    is_space lower_byte validate_hop_wave
a_wave_accepted = refl

unmarshal_yaml-marshal_yaml_example :
    unmarshal_yaml (some (plain_yaml.node_of (marshal_yaml a_wave))) ≡ ok (normalize_config a_wave)
unmarshal_yaml-marshal_yaml_example = unmarshal_yaml-marshal_yaml plain_yaml a_wave a_wave_accepted

normalize_config_idem_example :
    (normalize_config (normalize_config a_wave) ≡ normalize_config a_wave)
    × (protocol_name (normalize_config a_wave) ≡ protocol_name a_wave)
    × ((normalize_config a_wave).hop_wave ≡ (if is_hop_wave a_wave then a_wave.hop_wave else none))
normalize_config_idem_example = normalize_config_idem a_wave

abbrev any_decoders : Decoders
any_decoders = record { is_peer_id = λ t. true; is_multiaddr = λ t. true }

abbrev slot : ℤ → SwarmRegisterRequest
slot i = record { slot = i; peer_id = codes "p"; address = codes "/ip4"; control_url = codes "u" }

abbrev all_in : System ℕ Text
all_in = record {
  coordinator =
      (register any_decoders
        (register any_decoders (new_swarm_coordinator a_scenario (codes "r")) (slot (pos 2))).0
        (slot (pos 1))).0;
  phase = registered;
}

all_in_registered : all_registered all_in.coordinator ≡ true
unfolding all_registered register check_request new_swarm_coordinator store text_eq
all_in_registered = refl

Reach-all_in : Reach any_decoders (start_of a_scenario (codes "r")) all_in
Reach-all_in =
    next
      (next (next here (request (start_of a_scenario (codes "r")) (slot (pos 2))))
        (request _ (slot (pos 1))))
      (counted _ refl all_in_registered)

all_in_nodes : 1 ≤ expected_of all_in.coordinator
unfolding register check_request new_swarm_coordinator text_eq
all_in_nodes = omega arith

build_never_fails_example :
    ((build_runtime_configs all_in.coordinator).1 ≡ false)
    × (has_slot all_in.coordinator.registrations 1 ≡ true)
build_never_fails_example =
    build_never_fails any_decoders a_scenario (codes "r") all_in 1 Reach-all_in refl (omega arith)
      all_in_nodes

abbrev with_configs : SwarmCoordinator ℕ Text
with_configs = (build_runtime_configs all_in.coordinator).0

all_in_built : build_runtime_configs all_in.coordinator ≡ (with_configs, false)
all_in_built =
    let (accepted, _) =
      build_never_fails any_decoders a_scenario (codes "r") all_in 1 Reach-all_in refl (omega arith)
        all_in_nodes in
    ap (λ failed. (with_configs, failed)) accepted

abbrev finished : System ℕ Text
finished = record {
  coordinator = complete (set_state with_configs waiting_for_peer_readiness) (codes "s");
  phase = done;
}

Reach-finished : Reach any_decoders (start_of a_scenario (codes "r")) finished
Reach-finished =
    next (next (next Reach-all_in (build all_in with_configs refl all_in_built)) (start _ refl))
      (finish _ (codes "s") refl)

finished_archive : handle_archive finished.coordinator ≡ archive
unfolding handle_archive complete text_eq
finished_archive = refl

archive-IsComplete_example : IsComplete finished.coordinator
archive-IsComplete_example =
    archive-IsComplete any_decoders a_scenario (codes "r") finished Reach-finished finished_archive

all_in_ids : IsDistinctIds (ids_of all_in.coordinator.scenario.topology.nodes)
unfolding register check_request new_swarm_coordinator text_eq contains
all_in_ids = (refl, (refl, tt))

all_in_first : get_elem? all_in.coordinator.scenario.topology.nodes 0 ≡ some (node (codes "x"))
unfolding register check_request new_swarm_coordinator text_eq
all_in_first = refl

build_runtime_configs_neighbors_example :
    (cfg : RuntimeNodeConfig ℕ) × (runtime_config (build_runtime_configs all_in.coordinator).0 1
      ≡ some cfg)
    × (cfg.node_id ≡ codes "x")
    × (entries (codes "y") cfg.neighbors
        ≡ joins (codes "x") (codes "y") all_in.coordinator.scenario.topology.edges)
build_runtime_configs_neighbors_example =
    build_runtime_configs_neighbors all_in.coordinator 0 (node (codes "x")) (codes "y")
      all_in_registered all_in_ids all_in_first
