-- ===== src/P2p/Peer/Accept.antt =====
-- The receiving side: what a frame does to the processing queue, and that a peer works on a message
-- once.
use peerkit.Prelude.{
  ℕ, ◌≡◌, refl, true, false, [], ◌∷◌, ◌++◌, Text, text_eq_iff, text_key, contains, length, leb,
  arith, Bool-cases, if◌then◌else◌, inl, inr, ◌∙◌, ◌||◌,
}
use peerkit.P2p.Wire.{WireMessage, Codec}
use peerkit.P2p.Knowledge.{register_received_message}
use peerkit.P2p.Knowledge.Dedup.{register_received_duplicate, seen-register_received}
use peerkit.Metrics.Event.{message_received}
use peerkit.P2p.Peer.{
  message_event, accepted, Peer, ProcessItem, protocol_of, record_event, enqueue_processing,
  announce, accept_message,
}
use peerkit.P2p.Peer.Core.{announce-core}

module _ {F : Type 0} where
  -- The peer after the receipt is registered and recorded.
  after_receipt : ℕ → WireMessage → Text → Peer F → Peer F
  after_receipt now m from p =
      let (state, duplicate) = register_received_message (protocol_of p) p.state m.id from in
      record_event now
        (record (message_event message_received m) { from = from; duplicate = duplicate })
        (record p { state = state })

  after_receipt_lem :
      (now : ℕ) (m : WireMessage) (from : Text) (p : Peer F)
      → ((after_receipt now m from p).cfg ≡ p.cfg)
        × ((after_receipt now m from p).process_queue ≡ p.process_queue)
        × ((after_receipt now m from p).senders ≡ p.senders)
        × ((after_receipt now m from p).state
            ≡ (register_received_message (protocol_of p) p.state m.id from).0)
  unfolding after_receipt record_event
  after_receipt_lem now m from p = ground arith

  enqueue_processing_queue :
      (now : ℕ) (p : Peer F) (item : ProcessItem)
      → ((enqueue_processing now p item).process_queue ≡ (
          if leb p.cfg.queue_capacity (length p.process_queue)
          then p.process_queue
          else p.process_queue ++ item ∷ []))
        × ((enqueue_processing now p item).state ≡ p.state)
        × ((enqueue_processing now p item).cfg ≡ p.cfg)
  unfolding enqueue_processing record_event
  enqueue_processing_queue now p item = ground arith

module _ {F : Type 0} (c : Codec) where
  accept_duplicate :
      (now : ℕ) (m : WireMessage) (from : Text) (p : Peer F)
      → contains p.state.seen m.id ≡ true
      → accept_message c now m from p ≡ after_receipt now m from p
  unfolding accept_message after_receipt
  accept_duplicate now m from p seen =
      rw (register_received_duplicate (protocol_of p) p.state m.id from ∙ seen, accepted) refl

  accept_new :
      (now : ℕ) (m : WireMessage) (from : Text) (p : Peer F)
      → contains p.state.seen m.id ≡ false
      → accept_message c now m from p
        ≡ enqueue_processing now
            (announce c now m from (after_receipt now m from p))
            (record { message = m; from = from; enqueued_at = now })
  unfolding accept_message after_receipt
  accept_new now m from p unseen =
      rw (register_received_duplicate (protocol_of p) p.state m.id from ∙ unseen, accepted) refl

  -- The processing queue after a new message, and what stays.
  accept_new_lem :
      (now : ℕ) (m : WireMessage) (from : Text) (p : Peer F)
      → contains p.state.seen m.id ≡ false
      → ((accept_message c now m from p).process_queue ≡ (
          if leb p.cfg.queue_capacity (length p.process_queue)
          then p.process_queue
          else p.process_queue ++ record { message = m; from = from; enqueued_at = now } ∷ []))
        × ((accept_message c now m from p).state
            ≡ (register_received_message (protocol_of p) p.state m.id from).0)
  accept_new_lem now m from p unseen =
      let p1 = after_receipt now m from p in
      let item : ProcessItem = record { message = m; from = from; enqueued_at = now } in
      let first = after_receipt_lem now m from p in
      let core = announce-core c now m from p1 in
      let last = enqueue_processing_queue now (announce c now m from p1) item in
      rw (accept_new now m from p unseen)
        (last.0 ∙ rw (core.queue, core.cfg, first.1, first.0) refl, last.1 ∙ core.state ∙ first.3)

  pub accept_state :
      (now : ℕ) (m : WireMessage) (from : Text) (p : Peer F)
      → (accept_message c now m from p).state
        ≡ (register_received_message (protocol_of p) p.state m.id from).0
  accept_state now m from p = elim (Bool-cases (contains p.state.seen m.id)) [
    | inl seen ↦ rw (accept_duplicate now m from p seen) ((after_receipt_lem now m from p).3)
    | inr unseen ↦ (accept_new_lem now m from p unseen).1
  ]

  pub accept_message_lem :
      (now : ℕ) (m : WireMessage) (from : Text) (p : Peer F)
      → (contains p.state.seen m.id ≡ true
          → ((accept_message c now m from p).process_queue ≡ p.process_queue)
            × ((accept_message c now m from p).senders ≡ p.senders))
        × (contains p.state.seen m.id ≡ false
            → (accept_message c now m from p).process_queue ≡ (
                if leb p.cfg.queue_capacity (length p.process_queue)
                then p.process_queue
                else p.process_queue
                  ++ record { message = m; from = from; enqueued_at = now } ∷ []))
        × (contains (accept_message c now m from p).state.seen m.id ≡ true)
  accept_message_lem now m from p = (
    λ seen.
        let first = after_receipt_lem now m from p in
        rw (accept_duplicate now m from p seen) (first.1, first.2),
    λ unseen. (accept_new_lem now m from p unseen).0,
    rw
        (
          accept_state now m from p,
          seen-register_received (protocol_of p) p.state m.id from m.id,
          (text_eq_iff m.id m.id).1 refl,
        )
        refl,
  )

  -- A message that arrives becomes seen, and joins the end of the processing queue if it was not seen
  -- before and the queue is not full; otherwise the queue stays.
  pub accept_message_queue :
      (now : ℕ) (m : WireMessage) (from : Text) (p : Peer F)
      → ((accept_message c now m from p).process_queue ≡ (
          if contains p.state.seen m.id || leb p.cfg.queue_capacity (length p.process_queue)
          then p.process_queue
          else p.process_queue ++ record { message = m; from = from; enqueued_at = now } ∷ []))
        × (contains (accept_message c now m from p).state.seen m.id ≡ true)
  accept_message_queue now m from p =
      let (old, new, seen) = accept_message_lem now m from p in (ground (arith, old, new), seen)

  -- A duplicate is not queued for processing, and makes the peer send nothing.
  pub accept_message_duplicate :
      (now : ℕ) (m : WireMessage) (from : Text) (p : Peer F)
      → contains p.state.seen m.id ≡ true
      → ((accept_message c now m from p).process_queue ≡ p.process_queue)
        × ((accept_message c now m from p).senders ≡ p.senders)
  accept_message_duplicate now m from p = (accept_message_lem now m from p).0
