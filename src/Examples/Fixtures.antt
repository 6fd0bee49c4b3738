-- ===== src/Examples/Fixtures.antt =====
-- A codec and a shuffle to run the peer with, and a peer with three neighbors.
use mathlib.Core.List.Perm
use peerkit.Prelude.{
  ℕ, ◌<◌, ◌≡◌, false, Option, none, some, [], ◌∷◌, ◌++◌, Text, codes, length, take, drop,
  take-append, drop-append, arith,
}
use peerkit.P2p.Wire.{WireMessage, WireFrame, IsPlainFrame, Codec, frame_type_data}
use peerkit.P2p.HopWave.{Shuffle}
use peerkit.P2p.Knowledge.{MessageState}
use peerkit.P2p.Sender.Order.{new_sender}
use peerkit.P2p.Peer.{Peer, Neighbor, ProcessItem}

abbrev pub keep_order : Shuffle
keep_order = record { shuffle = λ seed l. l; shuffle-perm = λ seed l. Perm.refl l }

-- Three texts behind their lengths, then the numbers.
abbrev pub encode : WireFrame → Text
encode f =
    length f.type
      ∷ length f.message_id
      ∷ length f.origin
      ∷ f.sequence
      ∷ f.created_at_ns
      ∷ f.hop
      ∷ f.hop_wave_hop
      ∷ f.payload_bytes
      ∷ f.type
    ++ (f.message_id ++ f.origin)

abbrev pub decode : Text → Option WireFrame
decode (a ∷ b ∷ c ∷ sequence ∷ created ∷ hop ∷ wave ∷ bytes ∷ s) = some (record {
  type = take a s;
  message_id = take b (drop a s);
  origin = drop b (drop a s);
  sequence = sequence;
  created_at_ns = created;
  hop = hop;
  hop_wave_hop = wave;
  payload_bytes = bytes;
})
decode s = none

pub decode-encode : (f : WireFrame) → decode (encode f) ≡ some f
decode-encode f = cc (
  take-append f.type (f.message_id ++ f.origin),
  drop-append f.type (f.message_id ++ f.origin),
  take-append f.message_id f.origin,
  drop-append f.message_id f.origin,
)

pub decode_encoded :
    (f : WireFrame) (p : Text) → IsPlainFrame f → some (encode f) ≡ some p → decode p ≡ some f
decode_encoded f p _ h = cc (decode-encode f)

pub encoded_nonempty : (f : WireFrame) (p : Text) → some (encode f) ≡ some p → 0 < length p
encoded_nonempty f p h = ground arith

abbrev pub plain_codec : Codec
plain_codec = record {
  marshal = λ f. some (encode f);
  unmarshal = decode;
  unmarshal-marshal = decode_encoded;
  marshal-nonempty = encoded_nonempty;
}

abbrev pub node_a : Text
node_a = codes "a"

abbrev pub node_b : Text
node_b = codes "b"

abbrev pub node_c : Text
node_c = codes "c"

abbrev pub neighbor : Text → ℕ → Neighbor
neighbor node index = record { node_id = node; index = index; peer_id = node; address = node }

abbrev pub a_message : WireMessage
a_message = record {
  id = codes "m";
  origin = node_a;
  sequence = 1;
  created_at_ns = 5;
  hop = 0;
  hop_wave_hop = 0;
  payload_bytes = 64;
}

abbrev pub a_frame : WireFrame
a_frame = record {
  type = frame_type_data;
  message_id = codes "m";
  origin = node_a;
  sequence = 1;
  created_at_ns = 5;
  hop = 0;
  hop_wave_hop = 0;
  payload_bytes = 64;
}

abbrev pub an_item : ProcessItem
an_item = record { message = a_message; from = node_a; enqueued_at = 6 }

abbrev pub nothing_known : MessageState
nothing_known = record { seen = []; knowledge = [] }

abbrev pub peer_of : {F : Type 0} → Text → Peer F
peer_of protocol = record {
  cfg = record {
    run_id = codes "r";
    experiment_name = codes "e";
    protocol = record { name = protocol; hop_wave = none };
    node_id = codes "x";
    node_index = 0;
    seed = 7;
    queue_capacity = 4;
    neighbors = neighbor node_a 1 ∷ neighbor node_b 2 ∷ neighbor node_c 3 ∷ [];
  };
  state = nothing_known;
  senders =
      (node_a, new_sender node_a 2)
      ∷ (node_b, new_sender node_b 2)
      ∷ (node_c, new_sender node_c 2)
      ∷ [];
  process_queue = [];
  sequence = 0;
  finalized = false;
  events = [];
}

abbrev pub peer_with : Text → Peer ℕ
peer_with protocol = peer_of protocol
