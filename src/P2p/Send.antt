-- ===== src/P2p/Send.antt =====
-- internal/p2p/peer.go, `send`, `recordDrop`, `write` and `ensureStreamLocked`: one frame on its way
-- from the queue of a sender to the stream of its neighbor.
pub mod Streams
pub mod Outcome
use peerkit.Prelude.{
  ℕ, zero, suc, ◌+◌, ◌-◌, Bool, true, false, not, ◌&&◌, Option, none, some, List, [], ◌∷◌, ◌++◌,
  Text, codes, text_eq, if◌then◌else◌,
}
use peerkit.Float.{FloatOps}
use peerkit.Domain.Rng.{Rng}
use peerkit.Config.Types.{ResolvedEdgeNetwork}
use peerkit.Config.Sample.{sample_around_assigned_delay, serialization_delay}
use peerkit.Metrics.Event.{
  Event, event_of, message_sent, message_dropped, control_sent, control_dropped,
}
use peerkit.P2p.Wire.{
  WireFrame, Codec, ok, err, frame_type_data, message, simulated_bytes, write_frame,
}
use peerkit.P2p.Sender.{OutboundItem}
use peerkit.P2p.Knowledge.{should_suppress_queued, idontwant}
use peerkit.P2p.Peer.{Peer, protocol_of, message_event, record_event, record_suppression}

pub data Attempt (A : Type 0) : Type 0 where
  done : A → Attempt A
  refused : Text → Attempt A

-- peer.Decode and the streams of libp2p, over the state `S` of the world and handles `H`; a failure
-- carries the text of its error.
pub record Transport (S H : Type 0) : Type 0 where
  pub decode : Text → Attempt Text
  pub new_stream : Text → S → Attempt H × S
  pub write : H → Text → S → Bool × S
  pub reset : H → S → S

-- The fields of an edgeSender that `send` reads: its neighbor, its generators and its stream.
pub record Link (F R H : Type 0) : Type 0 where
  pub node_id : Text
  pub peer_id : Text
  pub network : ResolvedEdgeNetwork F
  pub data_rng : R
  pub control_rng : R
  pub stream : Option H

abbrev pub write_failed : Text
write_failed = codes "write failed after stream reset"

module _ {S H : Type 0} (t : Transport S H) where
  -- writeFrame to the stream, with its flush.
  unfoldable pub put_frame : Codec → WireFrame → H → S → Bool × S
  put_frame c frame h s = elim (write_frame c frame) [
    | err e ↦ (false, s)
    | ok bytes ↦ t.write h bytes s
  ]

module _ {F R S H : Type 0} (t : Transport S H) where
  opened : Link F R H → Attempt H × S → Attempt H × Link F R H × S
  opened l (refused e, s) = (refused e, l, s)
  opened l (done h, s) = (done h, record l { stream = some h }, s)

  decoded : Link F R H → Attempt Text → S → Attempt H × Link F R H × S
  unfolding opened
  decoded l (refused e) s = (refused e, l, s)
  decoded l (done id) s = opened l (t.new_stream id s)

  -- ensureStreamLocked, with the stream that it leaves in the sender.
  unfoldable pub ensure_stream : Link F R H → S → Attempt H × Link F R H × S
  unfolding decoded
  ensure_stream l s = elim l.stream [
    | some h ↦ (done h, l, s)
    | none ↦ decoded l (t.decode l.peer_id) s
  ]

  -- The loop of `write`, with the attempts that are left; the result is the error, if any.
  unfoldable pub write_attempts :
      ℕ → Codec → WireFrame → Link F R H → S → Option Text × Link F R H × S
  write_attempts zero c frame l s = (some write_failed, l, s)
  write_attempts (suc left) c frame l s =
      let (a, l1, s1) = ensure_stream l s in
      elim a [
        | refused e ↦ (some e, l1, s1)
        | done h ↦
            let (written, s2) = put_frame t c frame h s1 in
            elim written [
              | true ↦ (none, l1, s2)
              | false ↦ write_attempts left c frame (record l1 { stream = none }) (t.reset h s2)
            ]
      ]

  unfoldable pub write : Codec → WireFrame → Link F R H → S → Option Text × Link F R H × S
  write c frame l s = write_attempts 2 c frame l s

abbrev pub emulated_loss : Text
emulated_loss = codes "emulated_loss"

-- The times of a frame: in the queue, on the edge, and for its bytes.
pub record Times : Type 0 where
  pub queue_wait : ℕ
  pub edge_delay : ℕ
  pub serialization : ℕ

-- The events that `send` and `recordDrop` build, by the kind of the frame.
abbrev pub frame_event : Codec → Text → Text → WireFrame → Text → Times → Event
frame_event c data_type control_type frame node times =
    if text_eq frame.type frame_type_data
    then record (message_event data_type (message frame)) {
      frame_type = frame_type_data;
      to = node;
      queue_wait_ns = times.queue_wait;
      edge_delay_ns = times.edge_delay;
      serialization_ns = times.serialization;
    }
    else record (event_of control_type) {
      frame_type = frame.type;
      message_id = frame.message_id;
      origin = frame.origin;
      to = node;
      sequence = frame.sequence;
      control_bytes = simulated_bytes c frame;
      queue_wait_ns = times.queue_wait;
      edge_delay_ns = times.edge_delay;
      serialization_ns = times.serialization;
    }

module _ {F : Type 0} (c : Codec) where
  unfoldable pub record_drop : ℕ → WireFrame → Text → Times → Text → Peer F → Peer F
  record_drop now frame node times reason p =
      record_event now
        (record (frame_event c message_dropped control_dropped frame node times) {
          reason = reason;
        })
        p

  unfoldable pub record_sent : ℕ → WireFrame → Text → Times → Peer F → Peer F
  record_sent now frame node times p =
      record_event now (frame_event c message_sent control_sent frame node times) p

  -- `frame.Type == frameTypeData && s.owner.shouldSuppressQueued(...)`.
  unfoldable pub is_suppressed : WireFrame → Text → Peer F → Bool
  is_suppressed frame node p =
      text_eq frame.type frame_type_data
      && should_suppress_queued (protocol_of p) p.state frame.message_id node

-- sleepContext: the clock and the peer once the time is over, `none` where the context is cancelled.
abbrev pub Sleep : Type 0 → Type 0
Sleep F = ℕ → Peer F → Option (ℕ × Peer F)

-- The link, the peer and the world after a send.
abbrev pub Sent : Type 0 → Type 0 → Type 0 → Type 0 → Type 0
Sent F R S H = Link F R H × Peer F × S

module _ {F R S H : Type 0} ⦃fl : FloatOps F⦄ (c : Codec) (t : Transport S H) where
  abbrev written : ℕ → WireFrame → Times → Peer F → Option Text × Link F R H × S → Sent F R S H
  written now frame times p (none, l, s) = (l, record_sent c now frame l.node_id times p, s)
  written now frame times p (some e, l, s) =
      (l, record_drop c now frame l.node_id times (codes "stream_write_failed: " ++ e) p, s)

  -- After the delay.
  unfoldable pub send_awake : ℕ → WireFrame → Times → Link F R H → Peer F → S → Sent F R S H
  send_awake now frame times l p s =
      if is_suppressed c frame l.node_id p
      then (l, record_suppression now (message frame) l.node_id idontwant p, s)
      else written now frame times p (write t c frame l s)

  abbrev woken : WireFrame → Times → Link F R H → Peer F → S → Option (ℕ × Peer F) → Sent F R S H
  woken frame times l p s none = (l, p, s)
  woken frame times l p s (some (now, q)) = send_awake now frame times l q s

  module _ (rng : Rng F R) (rounds : ℕ) (sleep : Sleep F) where
    -- The generator of the frame's kind, and its new state.
    abbrev rng_of : WireFrame → Link F R H → R
    rng_of frame l = if text_eq frame.type frame_type_data then l.data_rng else l.control_rng

    abbrev with_rng : WireFrame → R → Link F R H → Link F R H
    with_rng frame r l =
        if text_eq frame.type frame_type_data
        then record l { data_rng = r }
        else record l { control_rng = r }

    abbrev delayed : WireFrame → ℕ → Link F R H → Peer F → S → Option ℕ × R → Option (Sent F R S H)
    delayed frame wait l p s (none, r) = none
    delayed frame wait l p s (some delay, r) =
        let serialization =
          serialization_delay (simulated_bytes c frame) l.network.bandwidth_mbps in
        some (
          woken frame
            (record { queue_wait = wait; edge_delay = delay; serialization = serialization })
            (with_rng frame r l) p s (sleep (delay + serialization) p))

    -- The loss is drawn only where there is one.
    abbrev loss_draw : WireFrame → Link F R H → Bool × R
    loss_draw frame l =
        let r = rng_of frame l in
        if fl.lt (fl.of_int 0) l.network.loss_rate
        then (let (d, r1) = rng.float64 r in (fl.lt d l.network.loss_rate, r1))
        else (false, r)

    abbrev not_lost : ℕ → WireFrame → ℕ → Link F R H → Peer F → S → Bool × R → Option (Sent F R S H)
    not_lost now frame wait l p s (true, r) = some (
      with_rng frame r l,
      record_drop c now frame l.node_id
          (record { queue_wait = wait; edge_delay = 0; serialization = 0 }) emulated_loss p,
      s,
    )
    not_lost now frame wait l p s (false, r) = delayed frame wait l p s (
        sample_around_assigned_delay rng rounds l.network.delay_distribution
          l.network.delay_jitter_std_dev_ms r)

    -- `none` where the draw of the delay does not end within its rounds.
    unfoldable pub send : ℕ → OutboundItem → Link F R H → Peer F → S → Option (Sent F R S H)
    send now item l p s =
        if is_suppressed c item.frame l.node_id p
        then some (l, record_suppression now (message item.frame) l.node_id idontwant p, s)
        else not_lost now item.frame (now - item.enqueued_at) l p s (loss_draw item.frame l)
