-- ===== src/P2p/Send/Outcome.antt =====
-- What a send leaves in the log of its peer.
use peerkit.Prelude.{
  ℕ, [], ◌∷◌, ◌+◌, ◌-◌, ◌≡◌, refl, sym, subst, ap, ◌⊎◌, inl, inr, Bool, true, false, ◌++◌, Option,
  none, some, Text, codes, text_eq, if◌then◌else◌, Bool-cases,
}
use peerkit.Float.{FloatOps}
use peerkit.Domain.Rng.{Rng}
use peerkit.Config.Sample.{serialization_delay}
use peerkit.Config.Sample.Returns.{is_some, IsFloat, IsLucky, sample_around-is_some}
use peerkit.Metrics.Event.{Event, message_sent, message_dropped, control_sent, control_dropped}
use peerkit.P2p.Wire.{WireFrame, Codec, message, simulated_bytes, frame_type_data}
use peerkit.P2p.Sender.{OutboundItem}
use peerkit.P2p.Knowledge.{idontwant}
use peerkit.P2p.Peer.{Peer, record_event, record_suppression}
use peerkit.P2p.Send.{
  Transport, Link, write, Times, frame_event, record_drop, record_sent, is_suppressed, Sleep, Sent,
  written, send_awake, woken, emulated_loss, with_rng, delayed, loss_draw, not_lost, send,
}
use peerkit.P2p.Send.Streams.{IsWritten, write-IsWritten}

module _ (c : Codec) (frame : WireFrame) (node : Text) (times : Times) where
  event_fields :
      (a b : Text)
      → let e = frame_event c a b frame node times in
        (e.message_id ≡ frame.message_id) × (e.to ≡ node)
  unfolding message
  event_fields a b = elim (Bool-cases (text_eq frame.type frame_type_data)) [
    | inl e ↦ (rw e refl, rw e refl)
    | inr e ↦ (rw e refl, rw e refl)
  ]

  drop_type :
      text_eq (frame_event c message_dropped control_dropped frame node times).type message_sent
      ≡ false
  unfolding text_eq
  drop_type = elim (Bool-cases (text_eq frame.type frame_type_data)) [
    | inl e ↦ rw e refl
    | inr e ↦ rw e refl
  ]

module _ {F : Type 0} (c : Codec) where
  -- The log has one event more, unless the peer is finalized, and nothing else has changed. The event is
  -- about this frame and this target, and says that it was sent only if no suppression holds at that
  -- moment.
  pub record IsLogged (frame : WireFrame) (node : Text) (q p' : Peer F) : Type 0 where
    pub event : Event
    pub logged : p' ≡ (if q.finalized then q else record q { events = q.events ++ event ∷ [] })
    pub about : event.message_id ≡ frame.message_id
    pub target : event.to ≡ node
    pub allowed : text_eq event.type message_sent ≡ true → is_suppressed c frame node q ≡ false

  suppression-IsLogged :
      (now : ℕ) (frame : WireFrame) (node : Text) (q : Peer F)
      → IsLogged frame node q (record_suppression now (message frame) node idontwant q)
  unfolding record_suppression record_event message text_eq
  suppression-IsLogged now frame node q = record {
    event = _;
    logged = refl;
    about = refl;
    target = refl;
    allowed = λ e. cc e;
  }

  module _ (frame : WireFrame) (node : Text) (times : Times) where
    drop-IsLogged :
        (now : ℕ) (reason : Text) (q : Peer F)
        → IsLogged frame node q (record_drop c now frame node times reason q)
    unfolding record_drop record_event
    drop-IsLogged now reason q =
        let (about, target) = event_fields c frame node times message_dropped control_dropped in
        record {
          event = _;
          logged = refl;
          about = about;
          target = target;
          allowed = λ h. cc (h, drop_type c frame node times);
        }

    sent-IsLogged :
        (now : ℕ) (q : Peer F)
        → is_suppressed c frame node q ≡ false
        → IsLogged frame node q (record_sent c now frame node times q)
    unfolding record_sent record_event
    sent-IsLogged now q n =
        let (about, target) = event_fields c frame node times message_sent control_sent in
        record { event = _; logged = refl; about = about; target = target; allowed = λ h. n }

  -- A send ends with one event about its frame and target, on the peer as it was or as the sleep left
  -- it; only a cancelled context ends it without one.
  abbrev pub IsAccounted : Sleep F → WireFrame → Text → Peer F → Peer F → Type 0
  IsAccounted sleep frame node p p' =
      IsLogged frame node p p'
      ⊎ ((d : ℕ) × (((sleep d p ≡ none) × (p' ≡ p))
            ⊎ ((now : ℕ) × (q : Peer F) × (sleep d p ≡ some (now, q)) × IsLogged frame node q p')))

module _ {F R S H : Type 0} ⦃fl : FloatOps F⦄ (c : Codec) (t : Transport S H) where
  written-IsLogged :
      (now : ℕ) (frame : WireFrame) (times : Times) (l k : Link F R H) (q : Peer F)
      (o : Option Text) (s : S)
      → IsWritten l o k
      → is_suppressed c frame l.node_id q ≡ false
      → let (l', p', s') = written c t now frame times q (o, k, s) in
        IsLogged c frame l.node_id q p'
  written-IsLogged now frame times l k q none s w n =
      subst (λ x. IsLogged c frame l.node_id q (record_sent c now frame x times q))
        (sym (ap (λ x. x.node_id) w.1)) (sent-IsLogged c frame l.node_id times now q n)
  written-IsLogged now frame times l k q (some e) s w n =
      subst
        (λ x.
          IsLogged c frame l.node_id q
            (record_drop c now frame x times (codes "stream_write_failed: " ++ e) q))
        (sym (ap (λ x. x.node_id) w.1)) (drop-IsLogged c frame l.node_id times now _ q)

  send_awake-IsLogged :
      (now : ℕ) (frame : WireFrame) (times : Times) (l : Link F R H) (q : Peer F) (s : S)
      → let (l', p', s') = send_awake c t now frame times l q s in IsLogged c frame l.node_id q p'
  unfolding send_awake
  send_awake-IsLogged now frame times l q s =
      elim (Bool-cases (is_suppressed c frame l.node_id q)) [
        | inl e ↦ rw (e, send_awake) (suppression-IsLogged c now frame l.node_id q)
        | inr e ↦
            rw (e, send_awake)
              (let (o, k, s') = write t c frame l s in
                written-IsLogged now frame times l k q o s' (write-IsWritten t c frame l s) e)
      ]

  woken-IsAccounted :
      (sleep : Sleep F) (d : ℕ) (frame : WireFrame) (times : Times) (l : Link F R H) (node : Text)
      (p : Peer F) (s : S) (o : Option (ℕ × Peer F))
      → l.node_id ≡ node
      → sleep d p ≡ o
      → let (l', p', s') = woken c t frame times l p s o in IsAccounted c sleep frame node p p'
  woken-IsAccounted sleep d frame times l node p s none n e = inr (d, inl (e, refl))
  woken-IsAccounted sleep d frame times l node p s (some (now, q)) n e =
      let after = send_awake-IsLogged now frame times l q s in
      inr (
        d,
        inr (
          now,
          q,
          e,
          subst (λ x. IsLogged c frame x q (send_awake c t now frame times l q s).1) n after,
        ),
      )

  module _ (rng : Rng F R) (rounds : ℕ) (sleep : Sleep F) (frame : WireFrame) where
    with_rng-node_id :
        (r : R) (l : Link F R H) → (with_rng c t rng rounds sleep frame r l).node_id ≡ l.node_id
    with_rng-node_id r l = elim (Bool-cases (text_eq frame.type frame_type_data)) [
      | inl e ↦ rw e refl
      | inr e ↦ rw e refl
    ]

    -- The send returns, and is accounted for.
    abbrev pub Accounted : Text → Peer F → Option (Sent F R S H) → Type 0
    Accounted node p o = (x : Sent F R S H) × (o ≡ some x) × IsAccounted c sleep frame node p x.1

    delayed-Accounted :
        (wait : ℕ) (l : Link F R H) (p : Peer F) (s : S) (d : Option ℕ × R)
        → is_some d.0 ≡ true
        → Accounted l.node_id p (delayed c t rng rounds sleep frame wait l p s d)
    delayed-Accounted wait l p s (none, r) e = cc e
    delayed-Accounted wait l p s (some d, r) e =
        let serialization =
          serialization_delay (simulated_bytes c frame) l.network.bandwidth_mbps in
        let times : Times = record {
          queue_wait = wait;
          edge_delay = d;
          serialization = serialization;
        } in
        (
          _,
          refl,
          woken-IsAccounted sleep (d + serialization) frame times
              (with_rng c t rng rounds sleep frame r l) l.node_id p s (sleep (d + serialization) p)
              (with_rng-node_id r l) refl,
        )

    not_lost-Accounted :
        (now wait : ℕ) (l : Link F R H) (p : Peer F) (s : S) (b : Bool × R)
        → IsFloat F
        → IsLucky rng rounds
        → Accounted l.node_id p (not_lost c t rng rounds sleep now frame wait l p s b)
    not_lost-Accounted now wait l p s (true, r) float lucky =
        (_, refl, inl (drop-IsLogged c frame l.node_id _ now emulated_loss p))
    not_lost-Accounted now wait l p s (false, r) float lucky =
        delayed-Accounted wait l p s _ (sample_around-is_some rng rounds float lucky _ _ r)

  -- For numbers that are like float64 (IsFloat), and where no loop of draws outlasts its rounds, a send
  -- returns, and has then added exactly one event, about its frame and its target, to the log of the
  -- peer as it was or as it was after the delay, or it was cancelled during the delay and has recorded
  -- nothing; a finalized peer records nothing. The event says that the frame was sent only if, at that
  -- moment, the target's IDONTWANT did not forbid it.
  pub send-IsAccounted :
      (rng : Rng F R) (rounds : ℕ) (sleep : Sleep F) (now : ℕ) (item : OutboundItem)
      (l : Link F R H) (p : Peer F) (s : S)
      → IsFloat F
      → IsLucky rng rounds
      → (x : Sent F R S H) × (send c t rng rounds sleep now item l p s ≡ some x)
        × IsAccounted c sleep item.frame l.node_id p x.1
  unfolding send
  send-IsAccounted rng rounds sleep now item l p s float lucky =
      by_suppression (is_suppressed c item.frame l.node_id p)
    where
      by_suppression :
          (b : Bool)
          → Accounted rng rounds sleep item.frame l.node_id p (
              if b
              then some (l, record_suppression now (message item.frame) l.node_id idontwant p, s)
              else not_lost c t rng rounds sleep now item.frame
                  (now - item.enqueued_at)
                  l
                  p
                  s
                  (loss_draw c t rng rounds sleep item.frame l))
      by_suppression true = (_, refl, inl (suppression-IsLogged c now item.frame l.node_id p))
      by_suppression false =
          not_lost-Accounted rng rounds sleep item.frame now (now - item.enqueued_at) l p s _ float
            lucky
