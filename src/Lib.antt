-- ===== src/Lib.antt =====
-- A model of peerkit, which runs experiments on message propagation over a peer-to-peer network: a
-- scenario is loaded, completed and validated, a coordinator gives each peer its configuration, and
-- the peers flood messages along the edges of the topology.
--
-- The parts, with the files that model them:
--   Protocols    internal/protocols/protocols.go: protocol names and configurations (Config,
--                normalize_config, validate_config, unmarshal_yaml, marshal_yaml).
--   P2p.Wire     internal/p2p/wire.go: messages, frames and their framing. A stream is the list of its
--                bytes; read_frames is the read loop of handleStream in internal/p2p/peer.go.
--   P2p.Knowledge  internal/p2p/forwarding.go: what a peer knows of each message.
--   P2p.HopWave  internal/p2p/hopwave.go: the relay cycle and the choice of targets.
--   P2p.Sender   internal/p2p/peer.go, edgeSender: enqueue, dequeue and the wake-up channel.
--   P2p.Send     internal/p2p/peer.go, edgeSender: send, recordDrop, write and ensureStreamLocked.
--   P2p.Peer     internal/p2p/peer.go: handle_frame, inject_one and process_item are handleStream, Inject
--                and runWorker between the streams and the senders.
--   Metrics      internal/metrics/event.go: the events that a peer records; internal/metrics/aggregate.go:
--                what the logs of all peers add up to (aggregate).
--   Config       internal/config: types.go, defaults.go (apply_defaults), topology.go
--                (normalize_topology), validate.go (validate_scenario), distribution_sample.go with
--                internal/model/distribution.go (Sample) and delay_assignment.go (Assignment).
--   Domain       internal/config/domain.go, over a random generator (Rng): the edges that the generators
--                add, remove and normalize (Edge), the models ER, ring, path, complete and grid (Models),
--                BA (Preferential, generate_ba), DRS (DoubleRing, generate_drs) and WS (SmallWorld,
--                generate_ws), the initial nodes and the draw of a target in BA-opportunistic (Opportunistic,
--                select_initial_clique, weighted_opportunity_choice), and the components of a graph with their connection
--                (Components).
--   Controller   internal/controller/swarm_coordinator.go: registrations, runtime configurations, the
--                states of a run and the answers of the handlers; internal/controller/traffic.go: the
--                plan of the emissions.
--   Prelude, Int, Float  shared types: lists and sets over the native numbers, texts as bytes, integers,
--                and an interface for float64.
--   Examples     concrete data, and the theorems applied to it.
--
-- How they interact: a frame that P2p.Wire reads goes to P2p.Peer, which registers it with
-- P2p.Knowledge, queues it and announces it; a worker asks P2p.Knowledge whom to spare, P2p.HopWave whom
-- to choose, and offers the frame to the senders of P2p.Sender. A scenario goes through Config before
-- Controller builds from it what P2p.Peer reads as its configuration.
--
-- State is a record, and an operation a function from the old record to the new one, with its result.
-- Concurrent parts are sequences of calls (P2p.Knowledge, P2p.Sender), each of which runs under a
-- mutex in the source, or step relations (P2p.Sender.Wake, Controller.Coordinator.States). P2p.Peer
-- takes the handling of a frame and a round of a worker as one step each; the source holds no mutex
-- across them, and what happens between the calls inside one of them is not modelled. The clock is an
-- argument. Integers have no bounds, but for the fields that the source lets wrap: uint32 hops, uint64
-- sequence numbers, the int64 seeds and the times of emissions. Loops are structural recursion;
-- read_frames has fuel, for which the length of the stream is enough; the search of a component has
-- the number of nodes, and the last loop of DRS one round more than candidates, which is enough; the
-- selection of BA's targets has one round more than targets. A loop that draws until it is lucky has
-- as many rounds as a parameter says.
--
-- Code that is not in the repository is a parameter: encoding/json (Codec, decoding gives back what
-- was encoded of a frame with ASCII texts and numbers in the range of their fields), the seeded
-- shuffle of math/rand (Shuffle, a permutation) and its draws (Rng, below the bound), package yaml
-- (Yaml), package net (Net), peer.Decode and multiaddr (Decoders), the streams of libp2p (Transport),
-- the wait of a timer with what the peer does meanwhile (Sleep), and float64 (FloatOps, without laws
-- but for the draws of delays, which rely on IsFloat). strings.ToLower and TrimSpace are written out
-- for ASCII.
--
-- Not modelled: the libp2p host, timers, the HTTP clients, Docker, files, the command line, the rest
-- of BA-opportunistic with ExpandDomain around the models, and expressions.
pub mod Prelude
pub mod Int
pub mod Float
pub mod Protocols
pub mod Metrics
pub mod Domain
pub mod Examples
pub mod P2p
pub mod Config
pub mod Controller
