-- ===== src/Metrics/Event.antt =====
-- internal/metrics/event.go: one line of a peer's event log. The field LossRate, a float that only
-- repeats the configuration, is left out.
use peerkit.Prelude.{ℕ, Bool, false, Text, codes, []}

pub record Event : Type 0 where
  pub timestamp_ns : ℕ
  pub run_id : Text
  pub experiment : Text
  pub type : Text
  pub protocol : Text
  pub frame_type : Text
  pub node : Text
  pub peer_id : Text
  pub message_id : Text
  pub origin : Text
  pub from : Text
  pub to : Text
  pub sequence : ℕ
  pub hop : ℕ
  pub hop_wave_hop : ℕ
  pub payload_bytes : ℕ
  pub control_bytes : ℕ
  pub duplicate : Bool
  pub queue_wait_ns : ℕ
  pub processing_ns : ℕ
  pub edge_delay_ns : ℕ
  pub serialization_ns : ℕ
  pub connected : ℕ
  pub expected : ℕ
  pub reason : Text

-- `metrics.Event{Type: type}`: the other fields have their zero values.
abbrev pub event_of : Text → Event
event_of type = record {
  timestamp_ns = 0;
  run_id = [];
  experiment = [];
  type = type;
  protocol = [];
  frame_type = [];
  node = [];
  peer_id = [];
  message_id = [];
  origin = [];
  from = [];
  to = [];
  sequence = 0;
  hop = 0;
  hop_wave_hop = 0;
  payload_bytes = 0;
  control_bytes = 0;
  duplicate = false;
  queue_wait_ns = 0;
  processing_ns = 0;
  edge_delay_ns = 0;
  serialization_ns = 0;
  connected = 0;
  expected = 0;
  reason = [];
}

abbrev pub message_created : Text
message_created = codes "message_created"

abbrev pub message_received : Text
message_received = codes "message_received"

abbrev pub message_processed : Text
message_processed = codes "message_processed"

abbrev pub message_sent : Text
message_sent = codes "message_sent"

abbrev pub message_dropped : Text
message_dropped = codes "message_dropped"

abbrev pub message_suppressed : Text
message_suppressed = codes "message_suppressed"

abbrev pub control_sent : Text
control_sent = codes "control_sent"

abbrev pub control_received : Text
control_received = codes "control_received"

abbrev pub control_dropped : Text
control_dropped = codes "control_dropped"
