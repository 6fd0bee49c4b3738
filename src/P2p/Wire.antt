-- ===== src/P2p/Wire.antt =====
-- internal/p2p/wire.go: messages, frames, and the length-prefixed framing of a stream. A stream is
-- the list of its bytes. encoding/json is the parameter `Codec`.
pub mod RoundTrip
use peerkit.Prelude.{
  ℕ, zero, suc, ◌+◌, ◌*◌, ◌/◌, ◌%◌, ◌^◌, ◌<◌, ◌≡◌, Bool, true, false, ◌&&◌, ◌||◌, Option, none,
  some, List, [], ◌∷◌, ◌++◌, Text, codes, text_eq, length, take, drop, leb, ltb, ◌==◌,
  if◌then◌else◌,
}

-- 4 * 1024 * 1024.
abbrev pub max_frame_size : ℕ
max_frame_size = 4194304

abbrev pub frame_type_data : Text
frame_type_data = codes "data"

abbrev pub frame_type_idontwant : Text
frame_type_idontwant = codes "idontwant"

abbrev pub minimum_control_bytes : ℕ
minimum_control_bytes = 32

pub record WireMessage : Type 0 where
  pub id : Text
  pub origin : Text
  pub sequence : ℕ
  pub created_at_ns : ℕ
  pub hop : ℕ
  pub hop_wave_hop : ℕ
  pub payload_bytes : ℕ

pub record WireFrame : Type 0 where
  pub type : Text
  pub message_id : Text
  pub origin : Text
  pub sequence : ℕ
  pub created_at_ns : ℕ
  pub hop : ℕ
  pub hop_wave_hop : ℕ
  pub payload_bytes : ℕ

unfoldable pub new_data_frame : WireMessage → WireFrame
new_data_frame m = record {
  type = frame_type_data;
  message_id = m.id;
  origin = m.origin;
  sequence = m.sequence;
  created_at_ns = m.created_at_ns;
  hop = m.hop;
  hop_wave_hop = m.hop_wave_hop;
  payload_bytes = m.payload_bytes;
}

-- The fields that the literal leaves out have their zero values.
unfoldable pub new_idontwant_frame : WireMessage → WireFrame
new_idontwant_frame m = record {
  type = frame_type_idontwant;
  message_id = m.id;
  origin = m.origin;
  sequence = m.sequence;
  created_at_ns = 0;
  hop = 0;
  hop_wave_hop = 0;
  payload_bytes = 0;
}

unfoldable pub message : WireFrame → WireMessage
message f = record {
  id = f.message_id;
  origin = f.origin;
  sequence = f.sequence;
  created_at_ns = f.created_at_ns;
  hop = f.hop;
  hop_wave_hop = f.hop_wave_hop;
  payload_bytes = f.payload_bytes;
}

-- Only ASCII, which is UTF-8: encoding/json replaces what is not.
abbrev pub is_ascii : Text → Bool
is_ascii [] = true
is_ascii (b ∷ t) = ltb b 128 && is_ascii t

-- A frame with ASCII texts, and with numbers that are values of its fields' types.
pub record IsPlainFrame (f : WireFrame) : Type 0 where
  pub type : is_ascii f.type ≡ true
  pub message_id : is_ascii f.message_id ≡ true
  pub origin : is_ascii f.origin ≡ true
  pub sequence : f.sequence < 2 ^ 64
  pub created_at_ns : f.created_at_ns < 2 ^ 63
  pub hop : f.hop < 2 ^ 32
  pub hop_wave_hop : f.hop_wave_hop < 2 ^ 32
  pub payload_bytes : f.payload_bytes < 2 ^ 63

-- json.Marshal and json.Unmarshal on frames; `none` is an error. The laws: decoding what was encoded
-- of a plain frame gives the frame back, and no encoding is empty.
pub record Codec : Type 0 where
  pub marshal : WireFrame → Option Text
  pub unmarshal : Text → Option WireFrame
  pub unmarshal-marshal :
      (f : WireFrame) (p : Text) → IsPlainFrame f → marshal f ≡ some p → unmarshal p ≡ some f
  pub marshal-nonempty : (f : WireFrame) (p : Text) → marshal f ≡ some p → 0 < length p

pub data ReadError : Type 0 where
  eof unexpected_eof decode_failed unsupported_type empty_message_id : ReadError
  invalid_length : ℕ → ReadError

pub data WriteError : Type 0 where
  marshal_failed : WriteError
  frame_too_large : ℕ → WriteError

pub data Result {ℓ κ} (E : Type ℓ) (A : Type κ) : Type (ℓ ⊔ κ) where
  ok : A → Result E A
  err : E → Result E A

-- binary.BigEndian.PutUint32 and Uint32.
unfoldable pub put_uint32 : ℕ → Text
put_uint32 n = (n / 16777216 % 256) ∷ (n / 65536 % 256) ∷ (n / 256 % 256) ∷ (n % 256) ∷ []

unfoldable pub uint32 : Text → ℕ
uint32 (a ∷ b ∷ c ∷ d ∷ rest) = ((a * 256 + b) * 256 + c) * 256 + d
uint32 s = 0

-- io.ReadFull of n bytes, with what is left of the stream.
unfoldable pub read_full : ℕ → Text → Result ReadError (Text × Text)
read_full n s =
    if leb n (length s)
    then ok (take n s, drop n s)
    else (if length s == 0 then err eof else err unexpected_eof)

module _ (c : Codec) where
  unfoldable pub simulated_bytes : WireFrame → ℕ
  simulated_bytes f =
      if text_eq f.type frame_type_data then f.payload_bytes else elim (c.marshal f) [
        | none ↦ minimum_control_bytes
        | some p ↦
            if ltb (length p + 4) minimum_control_bytes then minimum_control_bytes else length p + 4
      ]

  -- The bytes that go to the stream.
  unfoldable pub write_frame : WireFrame → Result WriteError Text
  write_frame f = elim (c.marshal f) [
    | none ↦ err marshal_failed
    | some p ↦
        if ltb max_frame_size (length p)
        then err (frame_too_large (length p))
        else ok (put_uint32 (length p) ++ p)
  ]

  -- The checks on a decoded frame.
  unfoldable pub check_frame : WireFrame → Text → Result ReadError (WireFrame × Text)
  check_frame f rest =
      if text_eq f.type frame_type_data || text_eq f.type frame_type_idontwant
      then (if text_eq f.message_id [] then err empty_message_id else ok (f, rest))
      else err unsupported_type

  unfoldable pub read_payload : Text → Text → Result ReadError (WireFrame × Text)
  read_payload payload rest = elim (c.unmarshal payload) [
    | none ↦ err decode_failed
    | some f ↦ check_frame f rest
  ]

  unfoldable pub read_body : ℕ → Text → Result ReadError (WireFrame × Text)
  read_body n s =
      if n == 0 || ltb max_frame_size n
      then err (invalid_length n)
      else elim (read_full n s) [ err e ↦ err e | ok (payload, rest) ↦ read_payload payload rest ]

  unfoldable pub read_frame : Text → Result ReadError (WireFrame × Text)
  read_frame s = elim (read_full 4 s) [
    | err e ↦ err e
    | ok (header, rest) ↦ read_body (uint32 header) rest
  ]

  -- The read loop of handleStream: the frames read until the first error, and that error. Each
  -- round but the last consumes bytes, so the length of the stream is fuel enough.
  unfoldable pub read_frames : ℕ → Text → List WireFrame × ReadError
  read_frames zero s = ([], eof)
  read_frames (suc fuel) s = elim (read_frame s) [
    | err e ↦ ([], e)
    | ok (f, rest) ↦ let later = read_frames fuel rest in (f ∷ later.0, later.1)
  ]
