-- ===== src/Controller/Handlers.antt =====
-- internal/controller/swarm_coordinator.go: the HTTP handlers, without the writing of the archive.
use peerkit.Prelude.{
  ℕ, zero, suc, ◌-◌, not, Option, none, some, List, [], ◌∷◌, Text, text_eq, if◌then◌else◌,
}
use peerkit.Int.{ℤ, pos, leb_ℤ, pos_part}
use peerkit.Config.Types.{NodeSpec, RuntimeNodeConfig}
use peerkit.Controller.Runtime.{SwarmRegisterRequest}
use peerkit.Controller.Coordinator.{
  SwarmCoordinator, SwarmRunStatus, RegisterError, Decoders, register, runtime_config, status,
  completed, failed,
}

-- What the HTTP handlers answer: the status code with the body.
pub data Reply (F S : Type 0) : Type 0 where
  ok_registered : Text → ℕ → ℕ → Reply F S
  conflict : RegisterError → Reply F S
  ok_config : RuntimeNodeConfig F → Reply F S
  too_early : SwarmRunStatus S → Reply F S
  bad_request : Reply F S
  server_error : SwarmRunStatus S → Reply F S
  archive : Reply F S
  ok_status : SwarmRunStatus S → Reply F S

module _ {F : Type 0} where
  unfoldable pub node_id_at : List (NodeSpec F) → ℕ → Text
  node_id_at [] i = []
  node_id_at (n ∷ ns) zero = n.id
  node_id_at (n ∷ ns) (suc i) = node_id_at ns i

module _ {F S : Type 0} where
  registered_reply :
      SwarmRegisterRequest
      → SwarmCoordinator F S × Option RegisterError
      → SwarmCoordinator F S × Reply F S
  registered_reply r (c, some e) = (c, conflict e)
  registered_reply r (c, none) =
      let now = status c in
      (
        c,
        ok_registered (node_id_at c.scenario.topology.nodes (pos_part r.slot - 1)) now.registered
            now.expected,
      )

  -- `none` is a body that is no request.
  unfoldable pub handle_register :
      Decoders
      → SwarmCoordinator F S
      → Option SwarmRegisterRequest
      → SwarmCoordinator F S × Reply F S
  unfolding registered_reply
  handle_register dec c none = (c, bad_request)
  handle_register dec c (some r) = registered_reply r (register dec c r)

  config_reply : SwarmCoordinator F S → Option (RuntimeNodeConfig F) → Reply F S
  config_reply c none = too_early (status c)
  config_reply c (some cfg) = ok_config cfg

  -- `none` is a query that strconv.Atoi rejects.
  unfoldable pub handle_runtime_config : SwarmCoordinator F S → Option ℤ → Reply F S
  unfolding config_reply
  handle_runtime_config c none = bad_request
  handle_runtime_config c (some slot) =
      if leb_ℤ slot (pos 0) then bad_request else config_reply c (runtime_config c (pos_part slot))

  -- Before the archive is written.
  unfoldable pub handle_archive : SwarmCoordinator F S → Reply F S
  handle_archive c =
      if text_eq c.state failed
      then server_error (status c)
      else (if not (text_eq c.state completed) then too_early (status c) else archive)
