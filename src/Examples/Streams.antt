-- ===== src/Examples/Streams.antt =====
-- The theorems on streams, applied.
use peerkit.Prelude.{arith, suc, ◌≡◌, refl, inl, [], ◌∷◌, ◌++◌, Text, length}
use peerkit.P2p.Wire.{IsPlainFrame, write_frame, read_frames, ok, eof, put_uint32}
use peerkit.P2p.Wire.RoundTrip.{IsSendable, Written, nothing, next, read_frames-stream}
use peerkit.Examples.Fixtures.{plain_codec, encode, a_frame}

a_frame-IsPlainFrame : IsPlainFrame a_frame
a_frame-IsPlainFrame = record {
  type = refl;
  message_id = refl;
  origin = refl;
  sequence = omega arith;
  created_at_ns = omega arith;
  hop = omega arith;
  hop_wave_hop = omega arith;
  payload_bytes = omega arith;
}

a_frame-IsSendable : IsSendable a_frame
a_frame-IsSendable = record { typed = inl refl; named = λ h. cc; plain = a_frame-IsPlainFrame }

abbrev a_frame_bytes : Text
a_frame_bytes = put_uint32 (length (encode a_frame)) ++ encode a_frame

a_frame_written : write_frame plain_codec a_frame ≡ ok a_frame_bytes
unfolding write_frame
a_frame_written = refl

abbrev two_frames : Text
two_frames = a_frame_bytes ++ (a_frame_bytes ++ [])

two_frames-Written : Written plain_codec (a_frame ∷ a_frame ∷ []) two_frames
two_frames-Written =
    next a_frame a_frame-IsSendable a_frame_written
      (next a_frame a_frame-IsSendable a_frame_written nothing)

read_frames-stream_example :
    read_frames plain_codec (suc (length two_frames)) two_frames ≡ (a_frame ∷ a_frame ∷ [], eof)
read_frames-stream_example = read_frames-stream plain_codec two_frames-Written
