-- ===== src/Controller/Coordinator.antt =====
-- internal/controller/swarm_coordinator.go: the registrations of the peers, the runtime configurations
-- that are built from them, and the states of a run. Each operation runs under the mutex. A channel of
-- capacity one is a Boolean; the experiment's result and an error's text are a summary and a text.
pub mod Slots
pub mod Neighbors
pub mod States
use peerkit.Prelude.{
  number_key, ℕ, zero, suc, ◌+◌, ◌-◌, ◌*◌, Bool, true, false, not, ◌&&◌, ◌||◌, Option, none, some,
  List, [], ◌∷◌, ◌++◌, Text, codes, text_eq, text_key, Key, contains, lookup, store, length, ltb,
  ◌==◌, ==_iff, if◌then◌else◌,
}
use peerkit.Int.{ℤ, pos, ltb_ℤ, leb_ℤ, pos_part, ◌+ℤ◌, ◌*ℤ◌}
use peerkit.Float.{FloatOps}
use peerkit.Config.Types.{
  Distribution, NodePerformance, NodeSpec, EdgeSpec, EdgeNetwork, ResolvedEdgeNetwork, Scenario,
  RuntimeNeighborConfig, RuntimeNodeConfig,
}
use peerkit.Config.Defaults.{resolve}
use peerkit.Controller.Runtime.{
  SwarmRegisterRequest, NodeMaps, index_nodes, collect_neighbors, fill_runtime,
}

-- peer.Decode and multiaddr.NewMultiaddr without an error.
pub record Decoders : Type 0 where
  pub is_peer_id : Text → Bool
  pub is_multiaddr : Text → Bool

abbrev pub waiting_for_peers : Text
waiting_for_peers = codes "waiting_for_peers"

abbrev pub config_ready : Text
config_ready = codes "config_ready"

abbrev pub waiting_for_peer_readiness : Text
waiting_for_peer_readiness = codes "waiting_for_peer_readiness"

abbrev pub completed : Text
completed = codes "completed"

abbrev pub failed : Text
failed = codes "failed"

-- The maps from slots have numbers as keys, since a slot below 1 is rejected.
pub record SwarmCoordinator (F : Type 0) (Summary : Type 0) : Type 0 where
  pub scenario : Scenario F
  pub run_id : Text
  pub registrations : List (ℕ × SwarmRegisterRequest)
  pub runtime : List (ℕ × RuntimeNodeConfig F)
  pub endpoints : List (Text × Text)
  pub state : Text
  pub run_err : Text
  pub summary : Option Summary
  pub changed : Bool

pub record SwarmRunStatus (Summary : Type 0) : Type 0 where
  pub state : Text
  pub registered : ℕ
  pub expected : ℕ
  pub error : Text
  pub summary : Option Summary

pub data RegisterError : Type 0 where
  outside : RegisterError
  invalid_peer_id : RegisterError
  invalid_address : RegisterError
  no_control_url : RegisterError
  closed : Text → RegisterError

-- A peer that is registered already, where registration is closed.
abbrev pub same_peer : Option SwarmRegisterRequest → Text → Bool
same_peer none peer_id = false
same_peer (some existing) peer_id = text_eq existing.peer_id peer_id

unfoldable pub check_request : Decoders → ℕ → SwarmRegisterRequest → Option RegisterError
check_request dec nodes r =
    if ltb_ℤ r.slot (pos 1) || ltb_ℤ (pos nodes) r.slot
    then some outside
    else (if not (dec.is_peer_id r.peer_id)
        then some invalid_peer_id
        else (if not (dec.is_multiaddr r.address)
            then some invalid_address
            else (if text_eq r.control_url [] then some no_control_url else none)))

module _ {F S : Type 0} where
  unfoldable pub new_swarm_coordinator : Scenario F → Text → SwarmCoordinator F S
  new_swarm_coordinator scenario run_id = record {
    scenario = scenario;
    run_id = run_id;
    registrations = [];
    runtime = [];
    endpoints = [];
    state = waiting_for_peers;
    run_err = [];
    summary = none;
    changed = false;
  }

  abbrev pub expected_of : SwarmCoordinator F S → ℕ
  expected_of c = length c.scenario.topology.nodes

  -- The test of waitForRegistrations in each of its rounds.
  unfoldable pub all_registered : SwarmCoordinator F S → Bool
  all_registered c = length c.registrations == expected_of c

  register_checked :
      SwarmCoordinator F S
      → SwarmRegisterRequest
      → Option RegisterError
      → SwarmCoordinator F S × Option RegisterError
  register_checked c r (some e) = (c, some e)
  register_checked c r none =
      if not (text_eq c.state waiting_for_peers)
      then (if same_peer (lookup c.registrations (pos_part r.slot)) r.peer_id
          then (c, none)
          else (c, some (closed c.state)))
      else (
        record c { registrations = store c.registrations (pos_part r.slot) r; changed = true },
        none,
      )

  unfoldable pub register :
      Decoders
      → SwarmCoordinator F S
      → SwarmRegisterRequest
      → SwarmCoordinator F S × Option RegisterError
  unfolding register_checked
  register dec c r = register_checked c r (check_request dec (expected_of c) r)

module _ {F S : Type 0} ⦃fl : FloatOps F⦄ where
  -- The Boolean is true for the error, which leaves all as it is.
  unfoldable pub build_runtime_configs : SwarmCoordinator F S → SwarmCoordinator F S × Bool
  build_runtime_configs c =
      let nodes = c.scenario.topology.nodes in
      let maps =
        index_nodes c.registrations 0 nodes
          (record { by_node = []; index_by_node = []; endpoints = c.endpoints }) in
      let neighbors = collect_neighbors maps c.scenario.topology.edges [] in
      if not (length c.registrations == expected_of c) then (c, true) else (
        record c {
          endpoints = maps.endpoints;
          runtime = fill_runtime c.scenario c.run_id neighbors 0 nodes c.runtime;
          state = config_ready;
        },
        false,
      )

module _ {F S : Type 0} where
  unfoldable pub runtime_config : SwarmCoordinator F S → ℕ → Option (RuntimeNodeConfig F)
  runtime_config c slot = lookup c.runtime slot

  unfoldable pub status : SwarmCoordinator F S → SwarmRunStatus S
  status c = record {
    state = c.state;
    registered = length c.registrations;
    expected = expected_of c;
    error = c.run_err;
    summary = c.summary;
  }

  unfoldable pub set_state : SwarmCoordinator F S → Text → SwarmCoordinator F S
  set_state c state = record c { state = state }

  unfoldable pub fail : SwarmCoordinator F S → Text → SwarmCoordinator F S
  fail c err = record c { state = failed; run_err = err }

  -- The end of `run`.
  unfoldable pub complete : SwarmCoordinator F S → S → SwarmCoordinator F S
  complete c summary = record c { summary = some summary; state = completed }

  -- The receive on the channel in waitForRegistrations.
  unfoldable pub drain : SwarmCoordinator F S → SwarmCoordinator F S
  drain c = record c { changed = false }
