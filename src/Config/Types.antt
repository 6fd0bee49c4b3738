-- ===== src/Config/Types.antt =====
-- internal/config/types.go: a scenario. `F` is float64, an `Option` is a pointer, and the integers are
-- the int and int64 of the source, without their bounds. The domain, which `ExpandDomain` reads, is left
-- out.
use peerkit.Prelude.{Bool, true, false, Option, none, some, List, [], ◌∷◌, Text, codes, text_eq}
use peerkit.Int.{ℤ}
use peerkit.Protocols.{Config}

abbrev pub random_traffic_source : Text
random_traffic_source = codes "random"

pub record ExperimentConfig : Type 0 where
  pub name : Text
  pub seed : ℤ
  pub duration_ms : ℤ
  pub warmup_ms : ℤ
  pub control_base_port : ℤ

pub record SwarmNetworkConfig : Type 0 where
  pub subnet : Text
  pub gateway : Text
  pub attachable : Option Bool

pub record SwarmConfig : Type 0 where
  pub push_image : Option Bool
  pub with_registry_auth : Option Bool
  pub startup_timeout_seconds : ℤ
  pub startup_batch_size : ℤ
  pub startup_batch_interval_ms : ℤ
  pub controller_constraints : List Text
  pub peer_constraints : List Text
  pub placement_constraints : List Text
  pub max_replicas_per_node : ℤ
  pub network : SwarmNetworkConfig

pub record DeploymentConfig : Type 0 where
  pub mode : Text
  pub compose_parallelism : ℤ
  pub swarm : SwarmConfig

unfoldable pub is_swarm : DeploymentConfig → Bool
is_swarm d = text_eq d.mode (codes "swarm")

-- `p != nil && *p`.
abbrev set_true : Option Bool → Bool
set_true none = false
set_true (some b) = b

unfoldable pub push_image_enabled : SwarmConfig → Bool
push_image_enabled s = set_true s.push_image

unfoldable pub with_registry_auth_enabled : SwarmConfig → Bool
with_registry_auth_enabled s = set_true s.with_registry_auth

-- `p == nil || *p`.
abbrev not_false : Option Bool → Bool
not_false none = true
not_false (some b) = b

unfoldable pub network_attachable : SwarmConfig → Bool
network_attachable s = not_false s.network.attachable

abbrev or_shared : List Text → List Text → List Text
or_shared [] shared = shared
or_shared (c ∷ cs) shared = c ∷ cs

unfoldable pub effective_controller_constraints : SwarmConfig → List Text
effective_controller_constraints s = or_shared s.controller_constraints s.placement_constraints

unfoldable pub effective_peer_constraints : SwarmConfig → List Text
effective_peer_constraints s = or_shared s.peer_constraints s.placement_constraints

pub record ControllerConfig : Type 0 where
  pub parallelism : ℤ
  pub operation_timeout_seconds : ℤ

pub record MetricsConfig : Type 0 where
  pub buffer_bytes : ℤ
  pub queue_capacity : ℤ
  pub flush_interval_ms : ℤ

pub record Distribution (F : Type 0) : Type 0 where
  pub type : Text
  pub value_ms : F
  pub mean_ms : F
  pub std_dev_ms : F
  pub min_ms : F
  pub max_ms : F
  pub scale_ms : F
  pub shape : F

pub record NodePerformance (F : Type 0) : Type 0 where
  pub processing_delay_distribution : Distribution F
  pub processing_delay_jitter_std_dev_ms : F
  pub workers : ℤ
  pub queue_capacity : ℤ
  pub overflow_policy : Text

pub record ResourceConfig (F : Type 0) : Type 0 where
  pub cpu_limit : F
  pub memory_limit_mb : ℤ

pub record EdgeNetwork (F : Type 0) : Type 0 where
  pub delay_distribution : Distribution F
  pub delay_jitter_std_dev_ms : F
  pub loss_rate : Option F
  pub bandwidth_mbps : Option F
  pub queue_capacity : ℤ

pub record ResolvedEdgeNetwork (F : Type 0) : Type 0 where
  pub delay_distribution : Distribution F
  pub delay_jitter_std_dev_ms : F
  pub loss_rate : F
  pub bandwidth_mbps : F
  pub queue_capacity : ℤ

pub record NodeSpec (F : Type 0) : Type 0 where
  pub id : Text
  pub performance : Option (NodePerformance F)
  pub resources : Option (ResourceConfig F)

pub record EdgeSpec (F : Type 0) : Type 0 where
  pub source : Text
  pub target : Text
  pub network : Option (EdgeNetwork F)

pub record TopologyConfig (F : Type 0) : Type 0 where
  pub directed : Bool
  pub nodes : List (NodeSpec F)
  pub matrix : List (List ℤ)
  pub edges : List (EdgeSpec F)

pub record DefaultsConfig (F : Type 0) : Type 0 where
  pub node : NodePerformance F
  pub edge : EdgeNetwork F

pub record TrafficConfig : Type 0 where
  pub source : Text
  pub start_at_ms : ℤ
  pub count : ℤ
  pub interval_ms : ℤ
  pub payload_size_bytes : ℤ

pub record Scenario (F : Type 0) : Type 0 where
  pub version : ℤ
  pub protocol : Config F
  pub experiment : ExperimentConfig
  pub deployment : DeploymentConfig
  pub controller : ControllerConfig
  pub metrics : MetricsConfig
  pub defaults : DefaultsConfig F
  pub topology : TopologyConfig F
  pub traffic : List TrafficConfig

pub record RuntimeNeighborConfig (F : Type 0) : Type 0 where
  pub node_id : Text
  pub index : ℤ
  pub peer_id : Text
  pub address : Text
  pub network : ResolvedEdgeNetwork F

pub record RuntimeNodeConfig (F : Type 0) : Type 0 where
  pub run_id : Text
  pub experiment_name : Text
  pub protocol : Config F
  pub node_id : Text
  pub node_index : ℤ
  pub seed : ℤ
  pub private_key : Text
  pub listen_address : Text
  pub control_address : Text
  pub result_file : Text
  pub metrics : MetricsConfig
  pub performance : NodePerformance F
  pub neighbors : List (RuntimeNeighborConfig F)
