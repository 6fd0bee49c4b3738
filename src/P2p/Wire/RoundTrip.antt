-- ===== src/P2p/Wire/RoundTrip.antt =====
-- What is written to a stream is read back from it.
use peerkit.Prelude.{
  ℕ, zero, suc, ◌≤◌, ◌<◌, ◌≡◌, refl, ◌≢◌, ◌⊎◌, inl, inr, some, List, [], ◌∷◌, ◌++◌, Text,
  text_eq_iff, length, length-append, take-append, drop-append, ◌∙◌, ap, arith, Option-cases,
}
use mathlib.Core.List.{append_assoc}
use peerkit.P2p.Wire.{
  WireFrame, IsPlainFrame, Codec, ok, eof, max_frame_size, frame_type_data, frame_type_idontwant,
  put_uint32, uint32, read_full, write_frame, check_frame, read_payload, read_body, read_frame,
  read_frames,
}

uint32-put_uint32 : (n : ℕ) → n < 4294967296 → uint32 (put_uint32 n) ≡ n
unfolding uint32 put_uint32
uint32-put_uint32 n h = omega arith

read_full-append : (p rest : Text) → read_full (length p) (p ++ rest) ≡ ok (p, rest)
unfolding read_full
read_full-append p rest =
    ground (arith, length-append p rest, take-append p rest, drop-append p rest)

read_header : (n : ℕ) (rest : Text) → read_full 4 (put_uint32 n ++ rest) ≡ ok (put_uint32 n, rest)
unfolding put_uint32
read_header n rest = read_full-append (put_uint32 n) rest

-- The frames that a peer sends have one of the two types and name a message; their texts are ASCII,
-- as the ids of a valid scenario's nodes are.
pub record IsSendable (f : WireFrame) : Type 0 where
  pub typed : (f.type ≡ frame_type_data) ⊎ (f.type ≡ frame_type_idontwant)
  pub named : f.message_id ≢ []
  pub plain : IsPlainFrame f

module _ (c : Codec) where
  check_frame-sendable :
      (f : WireFrame) (rest : Text) → IsSendable f → check_frame c f rest ≡ ok (f, rest)
  unfolding check_frame
  check_frame-sendable f rest h = ground (
    arith,
    h.typed,
    h.named,
    text_eq_iff f.type frame_type_data,
    text_eq_iff f.type frame_type_idontwant,
    text_eq_iff f.message_id [],
  )

  read_body-append :
      (p rest : Text)
      → 0 < length p
      → length p ≤ max_frame_size
      → read_body c (length p) (p ++ rest) ≡ read_payload c p rest
  unfolding read_body
  read_body-append p rest pos h = ground (arith, read_full-append p rest)

  read_frame-header :
      (n : ℕ) (t : Text) → n < 4294967296 → read_frame c (put_uint32 n ++ t) ≡ read_body c n t
  unfolding read_frame
  read_frame-header n t h = rw (read_header n t, read_frame) (rw (uint32-put_uint32 n h) refl)

  -- The bytes that `write_frame` gives: a payload within the limit behind its length.
  write_frame_payload :
      (f : WireFrame) (s : Text)
      → write_frame c f ≡ ok s
      → (p : Text) × (c.marshal f ≡ some p)
        × (length p ≤ max_frame_size)
        × (s ≡ put_uint32 (length p) ++ p)
  unfolding write_frame
  write_frame_payload f s e = elim (Option-cases (c.marshal f)) [
    | inl h ↦ cc (rw (h, write_frame) at e)
    | inr (p, h) ↦ (p, h, ground arith, ground arith)
  ]

  -- A frame that `write_frame` put on a stream is read back whole, and what follows is left alone.
  pub read_frame-write_frame :
      (f : WireFrame) (s rest : Text)
      → IsSendable f
      → write_frame c f ≡ ok s
      → read_frame c (s ++ rest) ≡ ok (f, rest)
  unfolding read_payload
  read_frame-write_frame f s rest h e =
      let (p, coded, small, bytes) = write_frame_payload f s e in
      rw bytes (
        rw (append_assoc (put_uint32 (length p)) p rest) (
          read_frame-header (length p) (p ++ rest) (omega arith)
          ∙ read_body-append p rest (c.marshal-nonempty f p coded) small
          ∙ rw (c.unmarshal-marshal f p h.plain coded, read_payload)
              (check_frame-sendable f rest h)))

  -- The bytes of several frames, one after the other; `none` if one cannot be written.
  pub data Written : List WireFrame → Text → Type 0 where
    nothing : Written [] []
    next :
        (f : WireFrame) {s rest : Text} {fs : List WireFrame}
        → IsSendable f
        → write_frame c f ≡ ok s
        → Written fs rest
        → Written (f ∷ fs) (s ++ rest)

  read_frames-Written :
      {fs : List WireFrame} {s : Text}
      → Written fs s
      → (fuel : ℕ) → length fs < fuel
      → read_frames c fuel s ≡ (fs, eof)
  unfolding read_frames read_frame read_full
  read_frames-Written w zero h = absurd (omega arith)
  read_frames-Written nothing (suc fuel) h = refl
  read_frames-Written (next f {s = s} {rest = rest} sendable e w) (suc fuel) h =
      rw (read_frame-write_frame f s rest sendable e, read_frames)
        (rw (read_frames-Written w fuel (omega arith)))

  length-Written : {fs : List WireFrame} {s : Text} → Written fs s → length fs ≤ length s
  unfolding put_uint32
  length-Written nothing = omega arith
  length-Written (next f {s = s} {rest = rest} sendable e w) =
      let (p, _, _, bytes) = write_frame_payload f s e in
      omega (arith, length-Written w, length-append s rest, ap length bytes)

  -- The read loop on a stream of written frames (of the two types, with a message id, ASCII texts and
  -- numbers in the range of their fields) gives just these frames in order, then the end of
  -- the stream; the length of the stream is fuel enough.
  pub read_frames-stream :
      {fs : List WireFrame} {s : Text} → Written fs s → read_frames c (suc (length s)) s ≡ (fs, eof)
  read_frames-stream {s} w =
      read_frames-Written w (suc (length s)) (omega (arith, length-Written w))
