-- ===== src/P2p/Peer.antt =====
-- internal/p2p/peer.go: the peer between its streams and its senders, while its context is not
-- cancelled. `now` is the reading of the clock in each call. A sender is found by its node; `New` makes
-- one for each neighbor, so that the missing entry, a nil pointer in the source, never shows.
pub mod Core
pub mod Accept
pub mod Once
pub mod Forward
use peerkit.Prelude.{
  ℕ, ◌+◌, ◌%◌, ◌^◌, Bool, true, false, not, ◌&&◌, Option, none, some, List, [], ◌∷◌, ◌++◌, map,
  Text, codes, text_key, text_eq, contains, lookup, store, length, leb, if◌then◌else◌, decimal,
}
use peerkit.Float.{FloatOps}
use peerkit.Metrics.Event.{
  Event, event_of, message_created, message_received, message_processed, message_dropped,
  message_suppressed, control_received, control_dropped,
}
use peerkit.Protocols.{Config, HopWaveConfig, protocol_name, is_hop_wave, uses_idontwant}
use peerkit.P2p.Wire.{
  WireMessage, WireFrame, Codec, frame_type_data, frame_type_idontwant, new_data_frame,
  new_idontwant_frame, message, simulated_bytes,
}
use peerkit.P2p.Sender.{EdgeSender, OutboundItem, enqueue}
use peerkit.P2p.Knowledge.{
  MessageState, register_local_message, register_received_message, register_idontwant,
  begin_forwarding, should_suppress_queued, idontwant,
}
use peerkit.P2p.HopWave.{
  Shuffle, HopWaveRelayDecision, decide_hop_wave_relay, select_hop_wave_targets,
  hop_wave_selection_seed,
}

pub record Neighbor : Type 0 where
  pub node_id : Text
  pub index : ℕ
  pub peer_id : Text
  pub address : Text

pub record PeerConfig (F : Type 0) : Type 0 where
  pub run_id : Text
  pub experiment_name : Text
  pub protocol : Config F
  pub node_id : Text
  pub node_index : ℕ
  pub seed : ℕ
  pub queue_capacity : ℕ
  pub neighbors : List Neighbor

-- `from` is empty for a message of the peer's own.
pub record ProcessItem : Type 0 where
  pub message : WireMessage
  pub from : Text
  pub enqueued_at : ℕ

-- `events` is what was handed to the writer, oldest first.
pub record Peer (F : Type 0) : Type 0 where
  pub cfg : PeerConfig F
  pub state : MessageState
  pub senders : List (Text × EdgeSender)
  pub process_queue : List ProcessItem
  pub sequence : ℕ
  pub finalized : Bool
  pub events : List Event

-- An event that carries the fields of a message.
abbrev pub message_event : Text → WireMessage → Event
message_event type m = record (event_of type) {
  message_id = m.id;
  origin = m.origin;
  sequence = m.sequence;
  hop = m.hop;
  hop_wave_hop = m.hop_wave_hop;
  payload_bytes = m.payload_bytes;
}

module _ {F : Type 0} where
  abbrev pub protocol_of : Peer F → Text
  protocol_of p = protocol_name p.cfg.protocol

  -- `p.record(event)`.
  unfoldable pub record_event : ℕ → Event → Peer F → Peer F
  record_event now e p = if p.finalized then p else record p {
    events =
        p.events
        ++ record e {
          timestamp_ns = now;
          run_id = p.cfg.run_id;
          experiment = p.cfg.experiment_name;
          node = p.cfg.node_id;
          protocol = protocol_of p;
        }
          ∷ [];
  }

abbrev pub node_queue_full : Text
node_queue_full = codes "node_queue_full"

abbrev pub edge_queue_full : Text
edge_queue_full = codes "edge_queue_full"

abbrev pub edge_control_queue_full : Text
edge_control_queue_full = codes "edge_control_queue_full"

module _ {F : Type 0} where
  unfoldable pub enqueue_processing : ℕ → Peer F → ProcessItem → Peer F
  enqueue_processing now p item =
      if leb p.cfg.queue_capacity (length p.process_queue)
      then record_event now
          (record (message_event message_dropped item.message) {
            from = item.from;
            reason = node_queue_full;
          })
          p
      else record p { process_queue = p.process_queue ++ item ∷ [] }

  unfoldable pub record_suppression : ℕ → WireMessage → Text → Text → Peer F → Peer F
  record_suppression now m target reason p =
      record_event now
        (record (message_event message_suppressed m) {
          frame_type = frame_type_data;
          to = target;
          reason = reason;
        })
        p

  data_enqueued : ℕ → WireFrame → Text → Peer F → EdgeSender × Bool → Peer F
  data_enqueued now frame node p (s, true) = record p { senders = store p.senders node s }
  data_enqueued now frame node p (s, false) =
      record_event now
        (record (message_event message_dropped (message frame)) {
          frame_type = frame_type_data;
          to = node;
          reason = edge_queue_full;
        })
        p

  -- `p.senders[node].enqueueData(frame)`.
  unfoldable pub enqueue_data : ℕ → WireFrame → Text → Peer F → Peer F
  unfolding data_enqueued
  enqueue_data now frame node p =
      if should_suppress_queued (protocol_of p) p.state frame.message_id node
      then record_suppression now (message frame) node idontwant p
      else elim (lookup p.senders node) [
        | none ↦ p
        | some s ↦
            data_enqueued now frame node p
              (enqueue s (record { frame = frame; enqueued_at = now }) false)
      ]

module _ {F : Type 0} (c : Codec) where
  control_enqueued : ℕ → WireFrame → Text → Peer F → EdgeSender × Bool → Peer F
  control_enqueued now frame node p (s, true) = record p { senders = store p.senders node s }
  control_enqueued now frame node p (s, false) =
      record_event now
        (record (event_of control_dropped) {
          frame_type = frame.type;
          message_id = frame.message_id;
          origin = frame.origin;
          to = node;
          sequence = frame.sequence;
          control_bytes = simulated_bytes c frame;
          reason = edge_control_queue_full;
        })
        p

  -- `p.senders[node].enqueueControl(frame)`.
  unfoldable pub enqueue_control : ℕ → WireFrame → Text → Peer F → Peer F
  unfolding control_enqueued
  enqueue_control now frame node p = elim (lookup p.senders node) [
    | none ↦ p
    | some s ↦
        control_enqueued now frame node p
          (enqueue s (record { frame = frame; enqueued_at = now }) true)
  ]

  -- The loop of broadcastIDontWant over the neighbors.
  unfoldable pub broadcast_to : ℕ → WireFrame → Text → List Neighbor → Peer F → Peer F
  broadcast_to now frame except [] p = p
  broadcast_to now frame except (n ∷ ns) p =
      broadcast_to now frame except ns
        (if text_eq n.node_id except then p else enqueue_control now frame n.node_id p)

  unfoldable pub broadcast_idontwant : ℕ → WireMessage → Text → Peer F → Peer F
  broadcast_idontwant now m except p =
      broadcast_to now (new_idontwant_frame m) except p.cfg.neighbors p

  unfoldable pub announce : ℕ → WireMessage → Text → Peer F → Peer F
  announce now m except p =
      if uses_idontwant (protocol_of p) then broadcast_idontwant now m except p else p

  accepted : ℕ → WireMessage → Text → Bool → Peer F → Peer F
  accepted now m from true p = p
  accepted now m from false p =
      enqueue_processing now (announce now m from p)
        (record { message = m; from = from; enqueued_at = now })

  unfoldable pub accept_message : ℕ → WireMessage → Text → Peer F → Peer F
  unfolding accepted
  accept_message now m from p =
      let (state, duplicate) = register_received_message (protocol_of p) p.state m.id from in
      accepted now m from duplicate (
        record_event now
          (record (message_event message_received m) { from = from; duplicate = duplicate })
          (record p { state = state }))

  unfoldable pub accept_idontwant : ℕ → WireFrame → Text → Peer F → Peer F
  accept_idontwant now frame from p =
      if not (uses_idontwant (protocol_of p))
      then p
      else record_event now
          (record (event_of control_received) {
            frame_type = frame_type_idontwant;
            message_id = frame.message_id;
            origin = frame.origin;
            from = from;
            sequence = frame.sequence;
            control_bytes = simulated_bytes c frame;
          })
          (record p { state = register_idontwant p.state frame.message_id from })

  -- The switch of handleStream on one frame that was read.
  unfoldable pub handle_frame : ℕ → WireFrame → Text → Peer F → Peer F
  handle_frame now frame from p =
      if text_eq frame.type frame_type_data
      then accept_message now (message frame) from p
      else (if text_eq frame.type frame_type_idontwant
          then accept_idontwant now frame from p
          else p)

  -- One round of the loop of Inject, with a payload of this size.
  unfoldable pub inject_one : ℕ → ℕ → Peer F → Peer F
  unfolding announce
  inject_one now payload_bytes p =
      let sequence = (p.sequence + 1) % 2 ^ 64 in
      let id : Text =
        p.cfg.node_id ++ (codes "-" ++ (decimal now ++ (codes "-" ++ decimal sequence))) in
      let m : WireMessage = record {
        id = id;
        origin = p.cfg.node_id;
        sequence = sequence;
        created_at_ns = now;
        hop = 0;
        hop_wave_hop = 0;
        payload_bytes = payload_bytes;
      } in
      let registered = record p {
        sequence = sequence;
        state = register_local_message p.state id;
      } in
      enqueue_processing now
        (announce now m [] (record_event now (message_event message_created m) registered))
        (record { message = m; from = []; enqueued_at = now })

-- `forward.Hop++`, a uint32.
unfoldable pub next_hop : WireMessage → WireMessage
next_hop m = record m { hop = (m.hop + 1) % 2 ^ 32 }

-- The loop of a worker over the neighbors: who is eligible, in order.
unfoldable pub eligible_of : Text → List (Text × Text) → List Neighbor → List Text
eligible_of from suppressed [] = []
eligible_of from suppressed (n ∷ ns) =
    let rest = eligible_of from suppressed ns in
    if text_eq n.node_id from
    then rest
    else elim (lookup suppressed n.node_id) [ some reason ↦ rest | none ↦ n.node_id ∷ rest ]

module _ {F : Type 0} where
  -- The same loop: the suppressions that it records.
  unfoldable pub record_suppressions :
      ℕ → WireMessage → Text → List (Text × Text) → List Neighbor → Peer F → Peer F
  record_suppressions now forward from suppressed [] p = p
  record_suppressions now forward from suppressed (n ∷ ns) p =
      record_suppressions now forward from suppressed ns (
        if text_eq n.node_id from then p else elim (lookup suppressed n.node_id) [
          | some reason ↦ record_suppression now forward n.node_id reason p
          | none ↦ p
        ])

  -- The loop of a worker over the eligible neighbors that are chosen.
  unfoldable pub forward_to : ℕ → WireFrame → List Text → Peer F → Peer F
  forward_to now frame [] p = p
  forward_to now frame (n ∷ ns) p = forward_to now frame ns (enqueue_data now frame n p)

-- Where `hopWaveTargets` is not nil, the eligible neighbors in it.
unfoldable pub chosen : List Text → List Text → List Text
chosen targets [] = []
chosen targets (n ∷ ns) = if contains targets n then n ∷ chosen targets ns else chosen targets ns

is_source : ProcessItem → Bool
is_source item = text_eq item.from []

module _ {F : Type 0} ⦃fl : FloatOps F⦄ (sh : Shuffle) where
  -- The cycle hop that goes on and the neighbors that get the message, for these eligible ones. Under
  -- HopWave with no parameters the source fails on a nil pointer; a validated configuration has them.
  plan_hop_wave : Peer F → ProcessItem → List Text → Option (HopWaveConfig F) → ℕ × List Text
  unfolding is_source
  plan_hop_wave p item eligible none = (item.message.hop_wave_hop, [])
  plan_hop_wave p item eligible (some cfg) =
      let decision = decide_hop_wave_relay cfg (is_source item) item.message.hop_wave_hop in
      let seed = hop_wave_selection_seed p.cfg.seed p.cfg.node_id item.message in
      (
        decision.outgoing_hop,
        if decision.crest
            then eligible
            else chosen (select_hop_wave_targets sh eligible cfg.f seed) eligible,
      )

  unfoldable pub plan : Peer F → ProcessItem → List Text → ℕ × List Text
  unfolding plan_hop_wave
  plan p item eligible =
      if is_hop_wave p.cfg.protocol
      then plan_hop_wave p item eligible p.cfg.protocol.hop_wave
      else (item.message.hop_wave_hop, eligible)

  -- The neighbors to which a worker forwards, before the senders' own checks.
  unfoldable pub forward_targets : Peer F → ProcessItem → List Text
  forward_targets p item =
      let suppressed = (begin_forwarding (protocol_of p) p.state item.message.id).1 in
      (plan p item (eligible_of item.from suppressed p.cfg.neighbors)).1

  -- The frame that it forwards.
  unfoldable pub forward_frame : Peer F → ProcessItem → WireFrame
  forward_frame p item =
      let suppressed = (begin_forwarding (protocol_of p) p.state item.message.id).1 in
      let hop = (plan p item (eligible_of item.from suppressed p.cfg.neighbors)).0 in
      new_data_frame (
        if is_hop_wave p.cfg.protocol
        then record (next_hop item.message) { hop_wave_hop = hop }
        else next_hop item.message)

-- runWorker on an item after its delay, up to the first loop: the event, the state, and the recorded
-- suppressions.
module _ {F : Type 0} where
  unfoldable pub prepare_item : ℕ → ℕ → ℕ → ProcessItem → Peer F → Peer F
  prepare_item now queue_wait processing item p =
      let (state, suppressed) = begin_forwarding (protocol_of p) p.state item.message.id in
      let recorded =
        record_event now
          (record (message_event message_processed item.message) {
            from = item.from;
            queue_wait_ns = queue_wait;
            processing_ns = processing;
          })
          p in
      record_suppressions now (next_hop item.message) item.from suppressed p.cfg.neighbors
        (record recorded { state = state })

module _ {F : Type 0} ⦃fl : FloatOps F⦄ (sh : Shuffle) where
  -- What a worker does with an item after its delay.
  unfoldable pub process_item : ℕ → ℕ → ℕ → ProcessItem → Peer F → Peer F
  process_item now queue_wait processing item p =
      forward_to now (forward_frame sh p item) (forward_targets sh p item)
        (prepare_item now queue_wait processing item p)
