-- ===== src/Config/Validate.antt =====
-- internal/config/validate.go: the checks of a scenario. package net is the parameter `Net`; the
-- pattern of node ids is written out. strings.ToLower and EqualFold treat ASCII bytes only.
pub mod Sound
use peerkit.Prelude.{
  ℕ, zero, suc, ◌+◌, ◌-◌, ◌%◌, ◌^◌, Bool, true, false, not, ◌&&◌, ◌||◌, Option, none, some, List,
  [], ◌∷◌, ◌++◌, Text, codes, text_eq, text_leb, text_key, contains, length, ltb, leb, ◌==◌,
  to_lower, trim_space, if◌then◌else◌,
}
use peerkit.Int.{ℤ, pos, negsuc, pos_part, neg_part, eqb_ℤ, leb_ℤ, ltb_ℤ, ◌+ℤ◌, ◌-ℤ◌, ◌*ℤ◌}
use peerkit.Float.{FloatOps}
use peerkit.Protocols.{Error, validate_config}
use peerkit.Config.Types.{
  random_traffic_source, ExperimentConfig, SwarmConfig, SwarmNetworkConfig, DeploymentConfig,
  is_swarm, ControllerConfig, MetricsConfig, Distribution, NodePerformance, ResourceConfig,
  ResolvedEdgeNetwork, EdgeNetwork, NodeSpec, EdgeSpec, TrafficConfig, Scenario,
}
use peerkit.Config.Defaults.{resolve}

pub data ScenarioError : Type 0 where
  protocol : Error → ScenarioError
  version directed no_nodes control_port port_range compose_parallelism : ScenarioError
  startup_timeout batch_size batch_interval max_replicas legacy_constraints : ScenarioError
  subnet gateway_outside gateway_alone deployment_mode : ScenarioError
  parallelism operation_timeout buffer_bytes metrics_queue flush_interval : ScenarioError
  workers queue_capacity overflow_policy jitter distribution_bounds distribution_type :
      ScenarioError
  loss_rate bandwidth : ScenarioError
  invalid_id duplicate_id no_performance cpu_limit memory_limit : Text → ScenarioError
  unknown_source unknown_target self_loop duplicate_edge no_network : Text → ScenarioError
  different_resources traffic_source : Text → ScenarioError
  traffic_time traffic_count traffic_payload late_emission : ScenarioError

-- `if b { return err }`.
abbrev pub fail_if {ℓ} : {E : Type ℓ} → Bool → E → Option E
fail_if true e = some e
fail_if false e = none

-- The checks one after the other, up to the first error.
unfoldable pub first_error {ℓ} : {E : Type ℓ} → List (Option E) → Option E
first_error [] = none
first_error (some e ∷ rest) = some e
first_error (none ∷ rest) = first_error rest

-- net.ParseCIDR without an error, and net.ParseIP of the second text inside the first one's network.
pub record Net : Type 0 where
  pub is_cidr : Text → Bool
  pub is_inside : Text → Text → Bool

abbrev is_empty {ℓ} : {A : Type ℓ} → List A → Bool
is_empty [] = true
is_empty (x ∷ xs) = false

-- [A-Za-z0-9] and [A-Za-z0-9_.-].
unfoldable pub id_start : ℕ → Bool
id_start c =
    (leb b'A' c && leb c b'Z') || ((leb b'a' c && leb c b'z') || (leb b'0' c && leb c b'9'))

unfoldable pub id_rest : Text → Bool
id_rest [] = true
id_rest (c ∷ s) = (id_start c || (c == b'_' || (c == b'.' || c == b'-'))) && id_rest s

unfoldable pub node_id_pattern : Text → Bool
node_id_pattern [] = false
node_id_pattern (c ∷ s) = id_start c && id_rest s

unfoldable pub is_random_traffic_source : Text → Bool
is_random_traffic_source source =
    text_eq (to_lower (trim_space source)) (to_lower random_traffic_source)

-- strings.Compare(a, b) < 0.
abbrev text_ltb : Text → Text → Bool
text_ltb a b = not (text_leb b a)

unfoldable pub undirected_edge_key : Text → Text → Text
undirected_edge_key a b = if text_ltb a b then a ++ (codes "--" ++ b) else b ++ (codes "--" ++ a)

unfoldable pub validate_network : Net → SwarmNetworkConfig → Option ScenarioError
validate_network net n =
    let s = trim_space n.subnet in
    let g = trim_space n.gateway in
    if not (is_empty s)
    then first_error (
        fail_if (not (net.is_cidr s)) subnet
        ∷ fail_if (not (is_empty g) && not (net.is_inside s g)) gateway_outside
        ∷ [])
    else fail_if (not (is_empty g)) gateway_alone

unfoldable pub validate_deployment :
    Net → ExperimentConfig → DeploymentConfig → ℕ → Option ScenarioError
validate_deployment net e d nodes =
    if text_eq d.mode (codes "compose")
    then first_error (
        fail_if (ltb_ℤ (pos 65535) (e.control_base_port +ℤ pos nodes)) port_range
        ∷ fail_if (leb_ℤ d.compose_parallelism (pos 0)) compose_parallelism
        ∷ [])
    else (if is_swarm d
        then first_error (
            fail_if (leb_ℤ d.swarm.startup_timeout_seconds (pos 0)) startup_timeout
            ∷ fail_if (leb_ℤ d.swarm.startup_batch_size (pos 0)) batch_size
            ∷ fail_if (ltb_ℤ d.swarm.startup_batch_interval_ms (pos 0)) batch_interval
            ∷ fail_if (ltb_ℤ d.swarm.max_replicas_per_node (pos 0)) max_replicas
            ∷ fail_if
                (not (is_empty d.swarm.placement_constraints)
                  && (not (is_empty d.swarm.controller_constraints)
                      || not (is_empty d.swarm.peer_constraints)))
                legacy_constraints
            ∷ validate_network net d.swarm.network
            ∷ [])
        else some deployment_mode)

unfoldable pub validate_controller : ControllerConfig → MetricsConfig → Option ScenarioError
validate_controller c m = first_error (
    fail_if (leb_ℤ c.parallelism (pos 0)) parallelism
    ∷ fail_if (leb_ℤ c.operation_timeout_seconds (pos 0)) operation_timeout
    ∷ fail_if (ltb_ℤ m.buffer_bytes (pos 4096)) buffer_bytes
    ∷ fail_if (leb_ℤ m.queue_capacity (pos 0)) metrics_queue
    ∷ fail_if (leb_ℤ m.flush_interval_ms (pos 0)) flush_interval
    ∷ [])

module _ {F : Type 0} ⦃fl : FloatOps F⦄ where
  abbrev is_negative : F → Bool
  is_negative x = fl.lt x (fl.of_int 0)

  unfoldable pub validate_distribution : Distribution F → Option ScenarioError
  validate_distribution d =
      let type = to_lower d.type in
      if text_eq type (codes "constant")
      then fail_if (is_negative d.value_ms) distribution_bounds
      else (if text_eq type (codes "uniform")
          then fail_if (is_negative d.min_ms || fl.lt d.max_ms d.min_ms) distribution_bounds
          else (if text_eq type (codes "normal")
              then fail_if (is_negative d.mean_ms || is_negative d.std_dev_ms) distribution_bounds
              else (if text_eq type (codes "exponential")
                  then fail_if (is_negative d.mean_ms) distribution_bounds
                  else (if text_eq type (codes "pareto")
                      then fail_if (is_negative d.scale_ms || fl.le d.shape (fl.of_int 0))
                          distribution_bounds
                      else some distribution_type))))

  unfoldable pub validate_node_performance : NodePerformance F → Option ScenarioError
  validate_node_performance p = first_error (
      fail_if (leb_ℤ p.workers (pos 0)) workers
      ∷ fail_if (leb_ℤ p.queue_capacity (pos 0)) queue_capacity
      ∷ fail_if (not (text_eq p.overflow_policy (codes "drop_new"))) overflow_policy
      ∷ fail_if (is_negative p.processing_delay_jitter_std_dev_ms) jitter
      ∷ validate_distribution p.processing_delay_distribution
      ∷ [])

  unfoldable pub validate_edge_network : ResolvedEdgeNetwork F → Option ScenarioError
  validate_edge_network n = first_error (
      fail_if (is_negative n.loss_rate || fl.lt (fl.of_int 1) n.loss_rate) loss_rate
      ∷ fail_if (is_negative n.bandwidth_mbps) bandwidth
      ∷ fail_if (leb_ℤ n.queue_capacity (pos 0)) queue_capacity
      ∷ fail_if (is_negative n.delay_jitter_std_dev_ms) jitter
      ∷ validate_distribution n.delay_distribution
      ∷ [])

  unfoldable pub check_performance : Text → Option (NodePerformance F) → Option ScenarioError
  check_performance id none = some (no_performance id)
  check_performance id (some p) = validate_node_performance p

  unfoldable pub check_resources : Text → Option (ResourceConfig F) → Option ScenarioError
  check_resources id none = none
  check_resources id (some r) = first_error (
      fail_if (is_negative r.cpu_limit) (cpu_limit id)
      ∷ fail_if (ltb_ℤ r.memory_limit_mb (pos 0)) (memory_limit id)
      ∷ [])

  -- The loop over the nodes; `ids` are the keys of the map `nodes` so far.
  unfoldable pub validate_nodes : List Text → List (NodeSpec F) → Option ScenarioError
  validate_nodes ids [] = none
  validate_nodes ids (n ∷ ns) = first_error (
      fail_if (not (node_id_pattern n.id)) (invalid_id n.id)
      ∷ fail_if (contains ids n.id) (duplicate_id n.id)
      ∷ check_performance n.id n.performance
      ∷ check_resources n.id n.resources
      ∷ validate_nodes (n.id ∷ ids) ns
      ∷ [])

  unfoldable pub check_network : Text → Option (EdgeNetwork F) → Option ScenarioError
  check_network key none = some (no_network key)
  check_network key (some n) = validate_edge_network (resolve n)

  -- The loop over the edges; `keys` is the map `edges` so far.
  unfoldable pub validate_edges : List Text → List Text → List (EdgeSpec F) → Option ScenarioError
  validate_edges ids keys [] = none
  validate_edges ids keys (e ∷ es) =
      let key = undirected_edge_key e.source e.target in
      first_error (
        fail_if (not (contains ids e.source)) (unknown_source e.source)
        ∷ fail_if (not (contains ids e.target)) (unknown_target e.target)
        ∷ fail_if (text_eq e.source e.target) (self_loop e.source)
        ∷ fail_if (contains keys key) (duplicate_edge key)
        ∷ check_network key e.network
        ∷ validate_edges ids (key ∷ keys) es
        ∷ [])

  abbrev resolved_resource : Option (ResourceConfig F) → ResourceConfig F
  resolved_resource none = record { cpu_limit = fl.of_int 0; memory_limit_mb = pos 0 }
  resolved_resource (some r) = r

  unfoldable pub same_resource : ResourceConfig F → ResourceConfig F → Bool
  same_resource a b = fl.eq a.cpu_limit b.cpu_limit && eqb_ℤ a.memory_limit_mb b.memory_limit_mb

  unfoldable pub uniform_from : ResourceConfig F → List (NodeSpec F) → Option ScenarioError
  uniform_from base [] = none
  uniform_from base (n ∷ ns) = first_error (
      fail_if (not (same_resource (resolved_resource n.resources) base)) (different_resources n.id)
      ∷ uniform_from base ns
      ∷ [])

  unfoldable pub validate_uniform_swarm_resources : List (NodeSpec F) → Option ScenarioError
  validate_uniform_swarm_resources [] = none
  validate_uniform_swarm_resources (n ∷ ns) = uniform_from (resolved_resource n.resources) ns

-- The int64 that the bits of an integer give.
unfoldable pub to_int64 : ℤ → ℤ
to_int64 z =
    let bits = (pos_part z % 2 ^ 64 + (2 ^ 64 - neg_part z % 2 ^ 64)) % 2 ^ 64 in
    if ltb bits (2 ^ 63) then pos bits else negsuc (2 ^ 64 - bits - 1)

unfoldable pub last_emission : TrafficConfig → ℤ
last_emission t = to_int64 (t.start_at_ms +ℤ (t.count -ℤ pos 1) *ℤ t.interval_ms)

-- The loop over the traffic.
unfoldable pub validate_traffic : List Text → ℤ → List TrafficConfig → Option ScenarioError
validate_traffic ids duration [] = none
validate_traffic ids duration (t ∷ ts) = first_error (
    fail_if (not (is_random_traffic_source t.source) && not (contains ids t.source))
      (traffic_source t.source)
    ∷ fail_if (ltb_ℤ t.start_at_ms (pos 0) || ltb_ℤ t.interval_ms (pos 0)) traffic_time
    ∷ fail_if (leb_ℤ t.count (pos 0)) traffic_count
    ∷ fail_if (ltb_ℤ t.payload_size_bytes (pos 0)) traffic_payload
    ∷ fail_if (ltb_ℤ duration (last_emission t)) late_emission
    ∷ validate_traffic ids duration ts
    ∷ [])

abbrev protocol_error : Option Error → Option ScenarioError
protocol_error none = none
protocol_error (some e) = some (protocol e)

module _ {F : Type 0} ⦃fl : FloatOps F⦄ where
  -- The keys of the map `nodes` after its loop.
  abbrev pub ids_of : List (NodeSpec F) → List Text
  ids_of [] = []
  ids_of (n ∷ ns) = n.id ∷ ids_of ns

  unfoldable pub validate_scenario : Net → Scenario F → Option ScenarioError
  validate_scenario net s =
      let nodes = s.topology.nodes in
      let ids = ids_of nodes in
      first_error (
        protocol_error (validate_config s.protocol)
        ∷ fail_if (not (eqb_ℤ s.version (pos 1))) version
        ∷ fail_if s.topology.directed directed
        ∷ fail_if (is_empty nodes) no_nodes
        ∷ fail_if
            (ltb_ℤ s.experiment.control_base_port (pos 1024)
              || ltb_ℤ (pos 65535) s.experiment.control_base_port)
            control_port
        ∷ validate_deployment net s.experiment s.deployment (length nodes)
        ∷ validate_controller s.controller s.metrics
        ∷ validate_nodes [] nodes
        ∷ validate_edges ids [] s.topology.edges
        ∷ (if is_swarm s.deployment then validate_uniform_swarm_resources nodes else none)
        ∷ validate_traffic ids s.experiment.duration_ms s.traffic
        ∷ [])
