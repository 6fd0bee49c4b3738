-- ===== src/P2p/Sender.antt =====
-- internal/p2p/peer.go, `edgeSender`: the bounded queues of one directed edge, without the stream and
-- the random generators that `send` uses.
pub mod Order
pub mod Wake
use peerkit.Prelude.{
  ℕ, Bool, true, false, Option, none, some, List, [], ◌∷◌, ◌++◌, Text, length, leb, if◌then◌else◌,
}
use peerkit.P2p.Wire.{WireFrame}

pub record OutboundItem : Type 0 where
  pub frame : WireFrame
  pub enqueued_at : ℕ

-- `node_id` and `queue_capacity` are neighbor.NodeID and neighbor.Network.QueueCapacity; `wake` says
-- that the channel of capacity one holds a signal.
pub record EdgeSender : Type 0 where
  pub node_id : Text
  pub queue_capacity : ℕ
  pub data_queue : List OutboundItem
  pub control_queue : List OutboundItem
  pub wake : Bool

-- The part of `enqueue` under the mutex.
unfoldable pub push : EdgeSender → OutboundItem → Bool → EdgeSender × Bool
push s item true =
    if leb s.queue_capacity (length s.control_queue)
    then (s, false)
    else (record s { control_queue = s.control_queue ++ item ∷ [] }, true)
push s item false =
    if leb s.queue_capacity (length s.data_queue)
    then (s, false)
    else (record s { data_queue = s.data_queue ++ item ∷ [] }, true)

-- The send on the channel, which does nothing where a signal waits already.
unfoldable pub signal : EdgeSender → EdgeSender
signal s = record s { wake = true }

unfoldable pub enqueue : EdgeSender → OutboundItem → Bool → EdgeSender × Bool
unfolding push signal
enqueue s item control =
    let (s', accepted) = push s item control in if accepted then (signal s', true) else (s', false)

dequeue_data : EdgeSender → List OutboundItem → EdgeSender × Option OutboundItem
dequeue_data s [] = (s, none)
dequeue_data s (item ∷ rest) = (record s { data_queue = rest }, some item)

dequeue_control : EdgeSender → List OutboundItem → EdgeSender × Option OutboundItem
unfolding dequeue_data
dequeue_control s [] = dequeue_data s s.data_queue
dequeue_control s (item ∷ rest) = (record s { control_queue = rest }, some item)

unfoldable pub dequeue : EdgeSender → EdgeSender × Option OutboundItem
unfolding dequeue_control
dequeue s = dequeue_control s s.control_queue
