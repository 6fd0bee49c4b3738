-- ===== src/P2p/Peer/Core.antt =====
-- What the helpers of a peer leave alone: all but the senders and the event log.
use peerkit.Prelude.{ℕ, ◌≡◌, refl, List, [], ◌∷◌, Text, text_eq, arith, Bool-cases, inl, inr, ◌∙◌}
use peerkit.Metrics.Event.{Event}
use peerkit.P2p.Wire.{WireMessage, WireFrame, Codec, new_idontwant_frame}
use peerkit.Protocols.{uses_idontwant, protocol_name}
use peerkit.P2p.Knowledge.{begin_forwarding}
use peerkit.P2p.Peer.{
  Peer, ProcessItem, Neighbor, record_event, record_suppression, enqueue_data, enqueue_control,
  broadcast_to, broadcast_idontwant, announce, record_suppressions, forward_to, prepare_item,
  protocol_of,
}

pub record SameCore {F : Type 0} (p q : Peer F) : Type 0 where
  pub cfg : q.cfg ≡ p.cfg
  pub state : q.state ≡ p.state
  pub queue : q.process_queue ≡ p.process_queue

module _ {F : Type 0} where
  pub SameCore-refl : (p : Peer F) → SameCore p p
  SameCore-refl p = record { cfg = refl; state = refl; queue = refl }

  pub SameCore-trans : {p q r : Peer F} → SameCore p q → SameCore q r → SameCore p r
  SameCore-trans h k = record {
    cfg = k.cfg ∙ h.cfg;
    state = k.state ∙ h.state;
    queue = k.queue ∙ h.queue;
  }

  pub record_event-core : (now : ℕ) (e : Event) (p : Peer F) → SameCore p (record_event now e p)
  unfolding record_event
  record_event-core now e p = ground arith

  pub enqueue_data-core :
      (now : ℕ) (f : WireFrame) (node : Text) (p : Peer F) → SameCore p (enqueue_data now f node p)
  unfolding enqueue_data record_suppression record_event
  enqueue_data-core now f node p = ground arith

  pub forward_to-core :
      (now : ℕ) (f : WireFrame) (ns : List Text) (p : Peer F) → SameCore p (forward_to now f ns p)
  unfolding forward_to
  forward_to-core now f [] p = SameCore-refl p
  forward_to-core now f (n ∷ ns) p =
      SameCore-trans (enqueue_data-core now f n p)
        (forward_to-core now f ns (enqueue_data now f n p))

  pub record_suppressions-core :
      (now : ℕ) (m : WireMessage) (from : Text) (s : List (Text × Text)) (ns : List Neighbor)
      (p : Peer F)
      → SameCore p (record_suppressions now m from s ns p)
  unfolding record_suppressions record_suppression record_event
  record_suppressions-core now m from s [] p = SameCore-refl p
  record_suppressions-core now m from s (n ∷ ns) p =
      SameCore-trans (ground arith) (record_suppressions-core now m from s ns _)

  pub senders-record_event :
      (now : ℕ) (e : Event) (p : Peer F) → (record_event now e p).senders ≡ p.senders
  unfolding record_event
  senders-record_event now e p = ground arith

  senders-record_suppressions :
      (now : ℕ) (m : WireMessage) (from : Text) (s : List (Text × Text)) (ns : List Neighbor)
      (p : Peer F)
      → (record_suppressions now m from s ns p).senders ≡ p.senders
  unfolding record_suppressions record_suppression record_event
  senders-record_suppressions now m from s [] p = refl
  senders-record_suppressions now m from s (n ∷ ns) p =
      senders-record_suppressions now m from s ns _ ∙ ground arith

  pub prepare_item_lem :
      (now wait processing : ℕ) (item : ProcessItem) (p : Peer F)
      → let q = prepare_item now wait processing item p in
        (q.cfg ≡ p.cfg)
        × (q.state ≡ (begin_forwarding (protocol_of p) p.state item.message.id).0)
        × (q.process_queue ≡ p.process_queue)
        × (q.senders ≡ p.senders)
  unfolding prepare_item
  prepare_item_lem now wait processing item p =
      let core = record_suppressions-core now _ _ _ _ _ in
      let event = record_event-core now _ p in
      (
        core.cfg ∙ event.cfg,
        core.state,
        core.queue ∙ event.queue,
        senders-record_suppressions now _ _ _ _ _ ∙ senders-record_event now _ p,
      )

  module _ (c : Codec) where
    pub enqueue_control-core :
        (now : ℕ) (f : WireFrame) (node : Text) (p : Peer F)
        → SameCore p (enqueue_control c now f node p)
    unfolding enqueue_control record_event
    enqueue_control-core now f node p = ground arith

    pub broadcast_to-core :
        (now : ℕ) (f : WireFrame) (except : Text) (ns : List Neighbor) (p : Peer F)
        → SameCore p (broadcast_to c now f except ns p)
    unfolding broadcast_to
    broadcast_to-core now f except [] p = SameCore-refl p
    broadcast_to-core now f except (n ∷ ns) p = elim (Bool-cases (text_eq n.node_id except)) [
      | inl e ↦ rw (e, broadcast_to) (broadcast_to-core now f except ns p)
      | inr e ↦
          rw (e, broadcast_to)
            (SameCore-trans (enqueue_control-core now f n.node_id p)
              (broadcast_to-core now f except ns (enqueue_control c now f n.node_id p)))
    ]

    pub announce-core :
        (now : ℕ) (m : WireMessage) (except : Text) (p : Peer F)
        → SameCore p (announce c now m except p)
    unfolding announce broadcast_idontwant
    announce-core now m except p =
        elim (Bool-cases (uses_idontwant (protocol_name p.cfg.protocol))) [
          | inl e ↦
              rw (e, announce)
                (broadcast_to-core now (new_idontwant_frame m) except p.cfg.neighbors p)
          | inr e ↦ rw (e, announce) (SameCore-refl p)
        ]
