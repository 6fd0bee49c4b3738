-- ===== src/Config/Defaults/Laws.antt =====
-- Filling in the defaults twice, and what is set afterwards.
use peerkit.Prelude.{
  ◌≡◌, ◌≢◌, refl, ap, ◌∙◌, Bool, true, false, Option, none, some, List, [], ◌∷◌, map, Text, codes,
  text_eq, text_eq_iff, to_lower, trim_space, to_lower-trim_space_idem, to_lower_idem,
  if◌then◌else◌, arith, inl, inr, Option-cases,
}
use peerkit.Int.{ℤ, pos, eqb_ℤ, leb_ℤ, ltb_ℤ}
use peerkit.Float.{FloatOps}
use peerkit.Protocols.Laws.{normalize_config_idem}
use peerkit.Config.Types.{
  ExperimentConfig, DeploymentConfig, ControllerConfig, MetricsConfig, SwarmConfig, NodePerformance,
  EdgeNetwork, NodeSpec, EdgeSpec, Scenario, TrafficConfig, Distribution,
}
use peerkit.Config.Defaults.{
  or_int, or_text, or_some, or_distribution, zero_constant, apply_node_defaults,
  merge_node_performance, apply_edge_defaults, merge_edge_network, node_defaults, edge_defaults,
  traffic_defaults, experiment_defaults, controller_defaults, metrics_defaults, swarm_defaults,
  deployment_defaults, topology_defaults, apply_defaults,
}

or_int_idem : (v d : ℤ) → or_int (or_int v d) d ≡ or_int v d
or_int_idem v d = ground arith

-- Merged with a default, then filled with a last resort.
or_int-merged :
    (v d z : ℤ)
    → eqb_ℤ z (pos 0) ≡ false
    → or_int (or_int (or_int (or_int v d) z) d) z ≡ or_int (or_int v d) z
or_int-merged v d z h = ground arith

or_text-nonempty : (t d : Text) → text_eq d [] ≡ false → text_eq (or_text t d) [] ≡ false
or_text-nonempty t d h = ground arith

to_lower-nonempty : (t : Text) → text_eq t [] ≡ false → text_eq (to_lower t) [] ≡ false
unfolding to_lower text_eq
to_lower-nonempty [] h = h
to_lower-nonempty (c ∷ t) h = refl

or_text_set : (t d : Text) → text_eq t [] ≡ false → or_text t d ≡ t
or_text_set t d h = rw h refl

lowered_idem :
    (t d : Text)
    → text_eq d [] ≡ false
    → to_lower (or_text (to_lower (or_text t d)) d) ≡ to_lower (or_text t d)
lowered_idem t d h =
    let set = to_lower-nonempty (or_text t d) (or_text-nonempty t d h) in
    ap to_lower (or_text_set (to_lower (or_text t d)) d set) ∙ to_lower_idem (or_text t d)

lowered-merged :
    (t d z : Text)
    → text_eq z [] ≡ false
    → to_lower (or_text (or_text (to_lower (or_text (or_text t d) z)) d) z)
      ≡ to_lower (or_text (or_text t d) z)
lowered-merged t d z h =
    let whole = to_lower (or_text (or_text t d) z) in
    let set = to_lower-nonempty (or_text (or_text t d) z) (or_text-nonempty (or_text t d) z h) in
    let once = or_text_set whole d set in
    ap (λ u. to_lower (or_text u z)) once
    ∙ ap to_lower (or_text_set whole z set)
    ∙ to_lower_idem (or_text (or_text t d) z)

module _ {F : Type 0} ⦃fl : FloatOps F⦄ where
  or_distribution_idem :
      (d z : Distribution F) → or_distribution (or_distribution d z) z ≡ or_distribution d z
  or_distribution_idem d z = ground arith

  or_distribution-merged :
      (v d z : Distribution F)
      → text_eq z.type [] ≡ false
      → or_distribution (or_distribution (or_distribution (or_distribution v d) z) d) z
        ≡ or_distribution (or_distribution v d) z
  or_distribution-merged v d z h = ground arith

  jitter-merged :
      (v d : F)
      → (if fl.eq (if fl.eq v (fl.of_int 0) then d else v) (fl.of_int 0)
          then d
          else (if fl.eq v (fl.of_int 0) then d else v))
        ≡ (if fl.eq v (fl.of_int 0) then d else v)
  jitter-merged v d = ground arith

  apply_node_defaults_idem :
      (p : NodePerformance F) → apply_node_defaults (apply_node_defaults p) ≡ apply_node_defaults p
  unfolding apply_node_defaults text_eq
  apply_node_defaults_idem p = cc (
    or_distribution_idem p.processing_delay_distribution zero_constant,
    or_int_idem p.workers (pos 1),
    or_int_idem p.queue_capacity (pos 1024),
    lowered_idem p.overflow_policy (codes "drop_new") refl,
  )

  apply_edge_defaults_idem :
      (n : EdgeNetwork F) → apply_edge_defaults (apply_edge_defaults n) ≡ apply_edge_defaults n
  unfolding apply_edge_defaults
  apply_edge_defaults_idem n = ground (
    arith,
    or_distribution_idem n.delay_distribution zero_constant,
    or_int_idem n.queue_capacity (pos 1024),
  )

  merge_node_performance_idem :
      (p d : NodePerformance F)
      → merge_node_performance (merge_node_performance p d) d ≡ merge_node_performance p d
  unfolding apply_node_defaults merge_node_performance text_eq
  merge_node_performance_idem p d = cc (
    or_distribution-merged p.processing_delay_distribution d.processing_delay_distribution
        zero_constant refl,
    jitter-merged p.processing_delay_jitter_std_dev_ms d.processing_delay_jitter_std_dev_ms,
    or_int-merged p.workers d.workers (pos 1) refl,
    or_int-merged p.queue_capacity d.queue_capacity (pos 1024) refl,
    lowered-merged p.overflow_policy d.overflow_policy (codes "drop_new") refl,
  )

  merge_edge_network_idem :
      (n d : EdgeNetwork F) → merge_edge_network (merge_edge_network n d) d ≡ merge_edge_network n d
  unfolding apply_edge_defaults merge_edge_network text_eq
  merge_edge_network_idem n d = ground (
    arith,
    or_distribution-merged n.delay_distribution d.delay_distribution zero_constant refl,
    jitter-merged n.delay_jitter_std_dev_ms d.delay_jitter_std_dev_ms,
    or_int-merged n.queue_capacity d.queue_capacity (pos 1024) refl,
  )

  merge_performance_self :
      (d : NodePerformance F) → merge_node_performance d d ≡ apply_node_defaults d
  unfolding apply_node_defaults merge_node_performance
  merge_performance_self d = cc (
    or_self d.processing_delay_distribution,
    or_same (fl.eq d.processing_delay_jitter_std_dev_ms (fl.of_int 0))
        d.processing_delay_jitter_std_dev_ms,
    or_same (eqb_ℤ d.workers (pos 0)) d.workers,
    or_same (eqb_ℤ d.queue_capacity (pos 0)) d.queue_capacity,
    or_same (text_eq d.overflow_policy []) d.overflow_policy,
  )
    where
      or_same : {A : Type 0} (b : Bool) (x : A) → (if b then x else x) ≡ x
      or_same true x = refl
      or_same false x = refl

      or_self : (x : Distribution F) → or_distribution x x ≡ x
      or_self x = or_same (text_eq x.type []) x

  merge_network_self : (d : EdgeNetwork F) → merge_edge_network d d ≡ apply_edge_defaults d
  unfolding apply_edge_defaults merge_edge_network
  merge_network_self d = ground arith

  node_defaults_idem :
      (p : NodePerformance F) (n : NodeSpec F)
      → let d = apply_node_defaults p in node_defaults d (node_defaults d n) ≡ node_defaults d n
  unfolding node_defaults
  node_defaults_idem p n =
      let d = apply_node_defaults p in
      elim (Option-cases n.performance) [
        | inl e ↦ rw e (cc (merge_performance_self d, apply_node_defaults_idem p))
        | inr (q, e) ↦ rw e (cc (merge_node_performance_idem q d))
      ]

  edge_defaults_idem :
      (m : EdgeNetwork F) (e : EdgeSpec F)
      → let d = apply_edge_defaults m in edge_defaults d (edge_defaults d e) ≡ edge_defaults d e
  unfolding edge_defaults
  edge_defaults_idem m e =
      let d = apply_edge_defaults m in
      elim (Option-cases e.network) [
        | inl h ↦ rw h (cc (merge_network_self d, apply_edge_defaults_idem m))
        | inr (n, h) ↦ rw h (cc (merge_edge_network_idem n d))
      ]

map_idem {ℓ} :
    {A : Type ℓ} (f : A → A) (xs : List A) → ((x : A) → f (f x) ≡ f x) → map f (map f xs) ≡ map f xs
map_idem f [] h = refl
map_idem f (x ∷ xs) h = cc (h x, map_idem f xs h)

traffic_defaults_idem :
    (t : TrafficConfig) → traffic_defaults (traffic_defaults t) ≡ traffic_defaults t
unfolding traffic_defaults
traffic_defaults_idem t =
    cc (or_int_idem t.count (pos 1), or_int_idem t.payload_size_bytes (pos 1024))

experiment_defaults_idem :
    (e : ExperimentConfig) → experiment_defaults (experiment_defaults e) ≡ experiment_defaults e
unfolding experiment_defaults text_eq
experiment_defaults_idem e = cc (
  name e.name,
  or_int_idem e.seed (pos 1),
  duration e.duration_ms,
  warmup e.warmup_ms,
  or_int_idem e.control_base_port (pos 18080),
)
  where
    name :
        (t : Text)
        → or_text (or_text t (codes "peerkit-experiment")) (codes "peerkit-experiment")
          ≡ or_text t (codes "peerkit-experiment")
    name t = ground arith

    duration :
        (d : ℤ)
        → (if leb_ℤ (if leb_ℤ d (pos 0) then pos 10000 else d) (pos 0)
            then pos 10000
            else (if leb_ℤ d (pos 0) then pos 10000 else d))
          ≡ (if leb_ℤ d (pos 0) then pos 10000 else d)
    duration d = ground arith

    warmup :
        (d : ℤ)
        → (if ltb_ℤ (if ltb_ℤ d (pos 0) then pos 0 else d) (pos 0)
            then pos 0
            else (if ltb_ℤ d (pos 0) then pos 0 else d))
          ≡ (if ltb_ℤ d (pos 0) then pos 0 else d)
    warmup d = ground arith

controller_defaults_idem :
    (c : ControllerConfig) → controller_defaults (controller_defaults c) ≡ controller_defaults c
unfolding controller_defaults
controller_defaults_idem c =
    cc (or_int_idem c.parallelism (pos 32), or_int_idem c.operation_timeout_seconds (pos 180))

metrics_defaults_idem :
    (m : MetricsConfig) → metrics_defaults (metrics_defaults m) ≡ metrics_defaults m
unfolding metrics_defaults
metrics_defaults_idem m = cc (
  or_int_idem m.buffer_bytes (pos 262144),
  or_int_idem m.queue_capacity (pos 512),
  or_int_idem m.flush_interval_ms (pos 200),
)

swarm_defaults_idem : (s : SwarmConfig) → swarm_defaults (swarm_defaults s) ≡ swarm_defaults s
unfolding swarm_defaults
swarm_defaults_idem s = cc (
  or_some_idem s.push_image,
  or_some_idem s.with_registry_auth,
  or_int_idem s.startup_timeout_seconds (pos 600),
  or_int_idem s.startup_batch_size (pos 25),
  or_int_idem s.startup_batch_interval_ms (pos 1000),
)
  where
    or_some_idem : (o : Option Bool) → or_some (or_some o true) true ≡ or_some o true
    or_some_idem none = refl
    or_some_idem (some b) = refl

-- A blank mode is not empty, so that no default replaces it, and trims to the empty text.
abbrev pub HasMode : DeploymentConfig → Type 0
HasMode d = trim_space (or_text d.mode (codes "compose")) ≢ []

deployment_defaults_idem :
    (d : DeploymentConfig)
    → HasMode d
    → deployment_defaults (deployment_defaults d) ≡ deployment_defaults d
unfolding deployment_defaults
deployment_defaults_idem d h =
    cc (mode, or_int_idem d.compose_parallelism (pos 4), swarm_defaults_idem d.swarm)
  where
    trimmed : Text
    trimmed = trim_space (or_text d.mode (codes "compose"))

    nonempty : text_eq (to_lower trimmed) [] ≡ false
    nonempty = to_lower-nonempty trimmed (ground (arith, text_eq_iff trimmed [], h))

    mode : to_lower (trim_space (or_text (to_lower trimmed) (codes "compose"))) ≡ to_lower trimmed
    mode =
        rw (or_text_set (to_lower trimmed) (codes "compose") nonempty)
          (to_lower-trim_space_idem (or_text d.mode (codes "compose")))

module _ {F : Type 0} ⦃fl : FloatOps F⦄ where
  -- Applying the defaults to a scenario twice is applying them once, if its deployment mode is not
  -- blank: absent, or with a visible character.
  pub apply_defaults_idem :
      (s : Scenario F) → HasMode s.deployment → apply_defaults (apply_defaults s) ≡ apply_defaults s
  unfolding apply_defaults topology_defaults
  apply_defaults_idem s h =
      let node = apply_node_defaults s.defaults.node in
      let edge = apply_edge_defaults s.defaults.edge in
      cc (
        apply_node_defaults_idem s.defaults.node,
        apply_edge_defaults_idem s.defaults.edge,
        (normalize_config_idem s.protocol).0,
        or_int_idem s.version (pos 1),
        experiment_defaults_idem s.experiment,
        controller_defaults_idem s.controller,
        metrics_defaults_idem s.metrics,
        deployment_defaults_idem s.deployment h,
        map_idem (node_defaults node) s.topology.nodes (node_defaults_idem s.defaults.node),
        map_idem (edge_defaults edge) s.topology.edges (edge_defaults_idem s.defaults.edge),
        map_idem traffic_defaults s.traffic traffic_defaults_idem,
      )
