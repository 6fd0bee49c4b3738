-- ===== src/Config/Defaults.antt =====
-- internal/config/defaults.go: the defaults of a scenario, and the resolution of an edge's network.
pub mod Laws
use peerkit.Prelude.{
  Bool, true, false, Option, none, some, List, [], ◌∷◌, map, Text, codes, text_eq, to_lower,
  trim_space, if◌then◌else◌,
}
use peerkit.Int.{ℤ, pos, eqb_ℤ, leb_ℤ, ltb_ℤ}
use peerkit.Float.{FloatOps}
use peerkit.Protocols.{normalize_config}
use peerkit.Config.Types.{
  ExperimentConfig, SwarmConfig, DeploymentConfig, ControllerConfig, MetricsConfig, Distribution,
  NodePerformance, EdgeNetwork, ResolvedEdgeNetwork, NodeSpec, EdgeSpec, TopologyConfig,
  DefaultsConfig, TrafficConfig, Scenario,
}

-- The value, or the default where it is the zero value.
abbrev pub or_int : ℤ → ℤ → ℤ
or_int v d = if eqb_ℤ v (pos 0) then d else v

abbrev pub or_text : Text → Text → Text
or_text t d = if text_eq t [] then d else t

abbrev pub or_some {ℓ} : {A : Type ℓ} → Option A → A → Option A
or_some none d = some d
or_some (some a) d = some a

abbrev pub or_value {ℓ} : {A : Type ℓ} → Option A → A → A
or_value none d = d
or_value (some a) d = a

module _ {F : Type 0} ⦃fl : FloatOps F⦄ where
  abbrev pub zero_constant : Distribution F
  zero_constant = record {
    type = codes "constant";
    value_ms = fl.of_int 0;
    mean_ms = fl.of_int 0;
    std_dev_ms = fl.of_int 0;
    min_ms = fl.of_int 0;
    max_ms = fl.of_int 0;
    scale_ms = fl.of_int 0;
    shape = fl.of_int 0;
  }

  abbrev or_distribution : Distribution F → Distribution F → Distribution F
  or_distribution d default = if text_eq d.type [] then default else d

  unfoldable pub apply_node_defaults : NodePerformance F → NodePerformance F
  apply_node_defaults p = record p {
    processing_delay_distribution = or_distribution p.processing_delay_distribution zero_constant;
    workers = or_int p.workers (pos 1);
    queue_capacity = or_int p.queue_capacity (pos 1024);
    overflow_policy = to_lower (or_text p.overflow_policy (codes "drop_new"));
  }

  unfoldable pub merge_node_performance : NodePerformance F → NodePerformance F → NodePerformance F
  merge_node_performance dst defaults =
      let jitter = dst.processing_delay_jitter_std_dev_ms in
      apply_node_defaults (record dst {
        processing_delay_distribution =
            or_distribution dst.processing_delay_distribution
              defaults.processing_delay_distribution;
        processing_delay_jitter_std_dev_ms =
            if fl.eq jitter (fl.of_int 0)
            then defaults.processing_delay_jitter_std_dev_ms
            else jitter;
        workers = or_int dst.workers defaults.workers;
        queue_capacity = or_int dst.queue_capacity defaults.queue_capacity;
        overflow_policy = or_text dst.overflow_policy defaults.overflow_policy;
      })

  unfoldable pub apply_edge_defaults : EdgeNetwork F → EdgeNetwork F
  apply_edge_defaults n = record n {
    delay_distribution = or_distribution n.delay_distribution zero_constant;
    loss_rate = or_some n.loss_rate (fl.of_int 0);
    bandwidth_mbps = or_some n.bandwidth_mbps (fl.of_int 0);
    queue_capacity = or_int n.queue_capacity (pos 1024);
  }

  -- The source reads *defaults.LossRate, which `apply_edge_defaults` has set before; a nil pointer, on
  -- which it fails, stays nil here until the defaults fill it.
  abbrev or_pointer : Option F → Option F → Option F
  or_pointer none d = d
  or_pointer (some x) d = some x

  unfoldable pub merge_edge_network : EdgeNetwork F → EdgeNetwork F → EdgeNetwork F
  merge_edge_network dst defaults =
      let jitter = dst.delay_jitter_std_dev_ms in
      apply_edge_defaults (record dst {
        delay_distribution = or_distribution dst.delay_distribution defaults.delay_distribution;
        delay_jitter_std_dev_ms =
            if fl.eq jitter (fl.of_int 0) then defaults.delay_jitter_std_dev_ms else jitter;
        loss_rate = or_pointer dst.loss_rate defaults.loss_rate;
        bandwidth_mbps = or_pointer dst.bandwidth_mbps defaults.bandwidth_mbps;
        queue_capacity = or_int dst.queue_capacity defaults.queue_capacity;
      })

  unfoldable pub resolve : EdgeNetwork F → ResolvedEdgeNetwork F
  resolve n = record {
    delay_distribution = n.delay_distribution;
    delay_jitter_std_dev_ms = n.delay_jitter_std_dev_ms;
    loss_rate = or_value n.loss_rate (fl.of_int 0);
    bandwidth_mbps = or_value n.bandwidth_mbps (fl.of_int 0);
    queue_capacity = n.queue_capacity;
  }

  abbrev merged_performance : Option (NodePerformance F) → NodePerformance F → NodePerformance F
  merged_performance none defaults = defaults
  merged_performance (some p) defaults = merge_node_performance p defaults

  -- One round of the loop over the nodes.
  unfoldable pub node_defaults : NodePerformance F → NodeSpec F → NodeSpec F
  node_defaults defaults n = record n {
    performance = some (merged_performance n.performance defaults);
  }

  abbrev merged_network : Option (EdgeNetwork F) → EdgeNetwork F → EdgeNetwork F
  merged_network none defaults = defaults
  merged_network (some n) defaults = merge_edge_network n defaults

  -- One round of the loop over the edges.
  unfoldable pub edge_defaults : EdgeNetwork F → EdgeSpec F → EdgeSpec F
  edge_defaults defaults e = record e { network = some (merged_network e.network defaults) }

-- One round of the loop over the traffic.
unfoldable pub traffic_defaults : TrafficConfig → TrafficConfig
traffic_defaults t = record t {
  count = or_int t.count (pos 1);
  payload_size_bytes = or_int t.payload_size_bytes (pos 1024);
}

unfoldable pub experiment_defaults : ExperimentConfig → ExperimentConfig
experiment_defaults e = record e {
  name = or_text e.name (codes "peerkit-experiment");
  seed = or_int e.seed (pos 1);
  duration_ms = if leb_ℤ e.duration_ms (pos 0) then pos 10000 else e.duration_ms;
  warmup_ms = if ltb_ℤ e.warmup_ms (pos 0) then pos 0 else e.warmup_ms;
  control_base_port = or_int e.control_base_port (pos 18080);
}

unfoldable pub controller_defaults : ControllerConfig → ControllerConfig
controller_defaults c = record c {
  parallelism = or_int c.parallelism (pos 32);
  operation_timeout_seconds = or_int c.operation_timeout_seconds (pos 180);
}

unfoldable pub metrics_defaults : MetricsConfig → MetricsConfig
metrics_defaults m = record m {
  buffer_bytes = or_int m.buffer_bytes (pos 262144);
  queue_capacity = or_int m.queue_capacity (pos 512);
  flush_interval_ms = or_int m.flush_interval_ms (pos 200);
}

unfoldable pub swarm_defaults : SwarmConfig → SwarmConfig
swarm_defaults s = record s {
  push_image = or_some s.push_image true;
  with_registry_auth = or_some s.with_registry_auth true;
  startup_timeout_seconds = or_int s.startup_timeout_seconds (pos 600);
  startup_batch_size = or_int s.startup_batch_size (pos 25);
  startup_batch_interval_ms = or_int s.startup_batch_interval_ms (pos 1000);
}

unfoldable pub deployment_defaults : DeploymentConfig → DeploymentConfig
deployment_defaults d = record d {
  mode = to_lower (trim_space (or_text d.mode (codes "compose")));
  compose_parallelism = or_int d.compose_parallelism (pos 4);
  swarm = swarm_defaults d.swarm;
}

module _ {F : Type 0} ⦃fl : FloatOps F⦄ where
  unfoldable pub topology_defaults :
      NodePerformance F → EdgeNetwork F → TopologyConfig F → TopologyConfig F
  topology_defaults node edge t = record t {
    nodes = map (node_defaults node) t.nodes;
    edges = map (edge_defaults edge) t.edges;
  }

  unfoldable pub apply_defaults : Scenario F → Scenario F
  apply_defaults s =
      let node = apply_node_defaults s.defaults.node in
      let edge = apply_edge_defaults s.defaults.edge in
      record s {
        protocol = normalize_config s.protocol;
        version = or_int s.version (pos 1);
        experiment = experiment_defaults s.experiment;
        controller = controller_defaults s.controller;
        metrics = metrics_defaults s.metrics;
        deployment = deployment_defaults s.deployment;
        defaults = record { node = node; edge = edge };
        topology = topology_defaults node edge s.topology;
        traffic = map traffic_defaults s.traffic;
      }
