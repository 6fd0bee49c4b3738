-- ===== src/P2p/Send/Streams.antt =====
-- The stream of a sender after a write: open if the frame was written, none after an error.
use peerkit.Prelude.{
  ℕ, zero, suc, ◌≡◌, refl, ap, ◌∙◌, Bool, true, false, Option, none, some, Text, Option-cases, inl,
  inr,
}
use peerkit.P2p.Wire.{WireFrame, Codec}
use peerkit.P2p.Send.{
  Attempt, done, refused, Transport, Link, opened, decoded, ensure_stream, put_frame,
  write_attempts, write,
}

module _ {F R H : Type 0} where
  -- Nothing of the sender changes but its stream.
  abbrev pub SameBut : Link F R H → Link F R H → Type 0
  SameBut l k = k ≡ record l { stream = k.stream }

  abbrev IsEnsured : Link F R H → Attempt H → Link F R H → Type 0
  IsEnsured l (done h) k = (k.stream ≡ some h) × SameBut l k
  IsEnsured l (refused e) k = (k.stream ≡ none) × SameBut l k

  -- An open stream and no error, or an error and no stream.
  abbrev pub IsWritten : Link F R H → Option Text → Link F R H → Type 0
  IsWritten l none k = ((h : H) × (k.stream ≡ some h)) × SameBut l k
  IsWritten l (some e) k = (k.stream ≡ none) × SameBut l k

  SameBut-trans : (l k m : Link F R H) → SameBut l k → SameBut k m → SameBut l m
  SameBut-trans l k m b q = q ∙ ap {A = Link F R H} (λ x. record x { stream = m.stream }) b

module _ {F R S H : Type 0} (t : Transport S H) where
  opened-IsEnsured :
      (l : Link F R H) (a : Attempt H) (s : S)
      → l.stream ≡ none
      → let (b, k, s') = opened t l (a, s) in IsEnsured l b k
  unfolding opened
  opened-IsEnsured l (refused e) s n = (n, refl)
  opened-IsEnsured l (done h) s n = (refl, refl)

  decoded-IsEnsured :
      (l : Link F R H) (d : Attempt Text) (s : S)
      → l.stream ≡ none
      → let (b, k, s') = decoded t l d s in IsEnsured l b k
  unfolding decoded
  decoded-IsEnsured l (refused e) s n = (n, refl)
  decoded-IsEnsured l (done id) s n = let (a, s') = t.new_stream id s in opened-IsEnsured l a s' n

  ensure_stream-IsEnsured :
      (l : Link F R H) (s : S) → let (b, k, s') = ensure_stream t l s in IsEnsured l b k
  unfolding ensure_stream
  ensure_stream-IsEnsured l s = elim (Option-cases l.stream) [
    | inl n ↦ rw (n, ensure_stream) (decoded-IsEnsured l (t.decode l.peer_id) s n)
    | inr (h, e) ↦ rw (e, ensure_stream) (e, refl)
  ]

  module _ (c : Codec) (frame : WireFrame) where
    write_attempts-IsWritten :
        (left : ℕ) (l k : Link F R H) (s : S)
        → SameBut l k
        → (left ≡ 0 → k.stream ≡ none)
        → let (e, k', s') = write_attempts t left c frame k s in IsWritten l e k'
    unfolding write_attempts
    write_attempts-IsWritten zero l k s b n = (n refl, b)
    write_attempts-IsWritten (suc left) l k s b n =
        let (a, k1, s1) = ensure_stream t k s in
        let ensured = ensure_stream-IsEnsured k s in
        tried a k1 s1 ensured λ h s2.
          write_attempts-IsWritten left l (record k1 { stream = none }) (t.reset h s2)
            (SameBut-trans l k (record k1 { stream = none }) b (only_stream a k1 ensured))
            (λ e. refl)
      where
        only_stream :
            (a : Attempt H) (k1 : Link F R H)
            → IsEnsured k a k1
            → SameBut k (record k1 { stream = none })
        only_stream (done h) k1 (e, q) = ap {A = Link F R H} (λ x. record x { stream = none }) q
        only_stream (refused f) k1 (e, q) = ap {A = Link F R H} (λ x. record x { stream = none }) q

        wrote :
            (w : Bool) (h : H) (k1 : Link F R H) (s2 : S)
            → IsEnsured k (done h) k1
            → (let (e, k', s') =
                  write_attempts t left c frame (record k1 { stream = none }) (t.reset h s2) in
                IsWritten l e k')
            → let (e, k', s') = elim w as (λ w. Option Text × Link F R H × S) [
              | true ↦ (none, k1, s2)
              | false ↦ write_attempts t left c frame (record k1 { stream = none }) (t.reset h s2)
            ] in
              IsWritten l e k'
        wrote true h k1 s2 (e, q) rest = ((h, e), SameBut-trans l k k1 b q)
        wrote false h k1 s2 i rest = rest

        tried :
            (a : Attempt H) (k1 : Link F R H) (s1 : S)
            → IsEnsured k a k1
            → ((h : H) (s2 : S)
                → let (e, k', s') =
                    write_attempts t left c frame (record k1 { stream = none }) (t.reset h s2) in
                  IsWritten l e k')
            → let (e, k', s') = elim a as (λ a. Option Text × Link F R H × S) [
              | refused e ↦ (some e, k1, s1)
              | done h ↦
                  let (written, s2) = put_frame t c frame h s1 in
                  elim written [
                    | true ↦ (none, k1, s2)
                    | false ↦
                        write_attempts t left c frame (record k1 { stream = none }) (t.reset h s2)
                  ]
            ] in
              IsWritten l e k'
        tried (refused f) k1 s1 (e, q) rest = (e, SameBut-trans l k k1 b q)
        tried (done h) k1 s1 i rest =
            let (written, s2) = put_frame t c frame h s1 in wrote written h k1 s2 i (rest h s2)

    -- After a write the stream is open exactly if there was no error, whatever the transport did in the
    -- two attempts: an error never leaves a stream that refused. The rest of the sender stays.
    pub write-IsWritten :
        (l : Link F R H) (s : S) → let (e, k, s') = write t c frame l s in IsWritten l e k
    unfolding write
    write-IsWritten l s = write_attempts-IsWritten 2 l l s refl (λ e. cc)
