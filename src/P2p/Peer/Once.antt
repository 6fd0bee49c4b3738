-- ===== src/P2p/Peer/Once.antt =====
-- A peer works on a message once, whatever its neighbors send.
use peerkit.Prelude.{
  ℕ, ◌+◌, ◌≤◌, ◌≡◌, refl, ap, subst, List, [], ◌∷◌, ◌++◌, Text, text_eq, text_eq_iff, text_key,
  contains, arith, if◌then◌else◌, ◌∙◌,
}
use peerkit.Float.{FloatOps}
use peerkit.P2p.Wire.{WireMessage, WireFrame, Codec, message}
use peerkit.P2p.HopWave.{Shuffle}
use peerkit.P2p.Knowledge.{register_idontwant, begin_forwarding, set_known}
use peerkit.P2p.Knowledge.Dedup.{seen-register_received}
use peerkit.P2p.Peer.{
  Peer, ProcessItem, protocol_of, record_event, accept_message, accept_idontwant, handle_frame,
  process_item,
}
use peerkit.P2p.Peer.Core.{forward_to-core, prepare_item_lem}
use peerkit.P2p.Peer.Accept.{accept_state, accept_message_lem}

-- How many items of the list carry the message.
unfoldable pub occurrences : Text → List ProcessItem → ℕ
occurrences id [] = 0
occurrences id (i ∷ is) = (if text_eq i.message.id id then 1 else 0) + occurrences id is

occurrences-append :
    (id : Text) (xs ys : List ProcessItem)
    → occurrences id (xs ++ ys) ≡ occurrences id xs + occurrences id ys
unfolding occurrences
occurrences-append id [] ys = omega arith
occurrences-append id (x ∷ xs) ys = omega (arith, occurrences-append id xs ys)

-- A frame that a stream reader hands over, or a round of a worker.
pub data Input : Type 0 where
  frame : ℕ → WireFrame → Text → Input
  work : ℕ → ℕ → ℕ → Input

-- A peer with the items that its workers took so far, the last one first.
pub record Run (F : Type 0) : Type 0 where
  pub peer : Peer F
  pub worked : List ProcessItem

module _ {F : Type 0} ⦃fl : FloatOps F⦄ (c : Codec) (sh : Shuffle) where
  work_on : ℕ → ℕ → ℕ → Run F → List ProcessItem → Run F
  work_on now wait processing r [] = r
  work_on now wait processing r (item ∷ rest) = record {
    peer = process_item sh now wait processing item (record (r.peer) { process_queue = rest });
    worked = item ∷ r.worked;
  }

  pub step : Run F → Input → Run F
  unfolding work_on
  step r (frame now f from) = record r { peer = handle_frame c now f from r.peer }
  step r (work now wait processing) = work_on now wait processing r r.peer.process_queue

  pub run : Run F → List Input → Run F
  run r [] = r
  run r (i ∷ is) = run (step r i) is

-- What was queued or worked on was seen, and only once.
abbrev pub Once : {F : Type 0} → Text → Run F → Type 0
Once id r =
    occurrences id r.worked + occurrences id r.peer.process_queue
    ≤ (if contains r.peer.state.seen id then 1 else 0)

module _ {F : Type 0} (c : Codec) where
  accept_message-once :
      (now : ℕ) (m : WireMessage) (from id : Text) (p : Peer F) (k : ℕ)
      → k + occurrences id p.process_queue ≤ (if contains p.state.seen id then 1 else 0)
      → k + occurrences id (accept_message c now m from p).process_queue
        ≤ (if contains (accept_message c now m from p).state.seen id then 1 else 0)
  unfolding occurrences
  accept_message-once now m from id p k h =
      let item : ProcessItem = record { message = m; from = from; enqueued_at = now } in
      let (old, new, _) = accept_message_lem c now m from p in
      let seen =
        ap (λ s. contains s.seen id) (accept_state c now m from p)
        ∙ seen-register_received (protocol_of p) p.state m.id from id in
      ground (
        arith,
        old,
        new,
        seen,
        text_eq_iff m.id id,
        occurrences-append id p.process_queue (item ∷ []),
        ap (contains p.state.seen) {x = m.id} {y = id},
      )

  handle_frame-once :
      (now : ℕ) (f : WireFrame) (from id : Text) (p : Peer F) (k : ℕ)
      → k + occurrences id p.process_queue ≤ (if contains p.state.seen id then 1 else 0)
      → k + occurrences id (handle_frame c now f from p).process_queue
        ≤ (if contains (handle_frame c now f from p).state.seen id then 1 else 0)
  unfolding handle_frame accept_idontwant record_event register_idontwant set_known
  handle_frame-once now f from id p k h =
      ground (arith, accept_message-once now (message f) from id p k)

module _ {F : Type 0} ⦃fl : FloatOps F⦄ (sh : Shuffle) where
  process_item_lem :
      (now wait processing : ℕ) (item : ProcessItem) (p : Peer F)
      → ((process_item sh now wait processing item p).process_queue ≡ p.process_queue)
        × ((process_item sh now wait processing item p).state.seen ≡ p.state.seen)
  unfolding process_item begin_forwarding set_known
  process_item_lem now wait processing item p =
      let core = forward_to-core now _ _ _ in
      let (_, state, queue, _) = prepare_item_lem now wait processing item p in
      (core.queue ∙ queue, ap (λ s. s.seen) (core.state ∙ state))

module _ {F : Type 0} ⦃fl : FloatOps F⦄ (c : Codec) (sh : Shuffle) where
  work-Once :
      (now wait processing : ℕ) (id : Text) (r : Run F) (q : List ProcessItem)
      → r.peer.process_queue ≡ q
      → Once id r
      → Once id (work_on c sh now wait processing r q)
  unfolding work_on occurrences
  work-Once now wait processing id r [] e h = h
  work-Once now wait processing id r (item ∷ rest) e h =
      let (queue, seen) =
        process_item_lem sh now wait processing item (record (r.peer) { process_queue = rest }) in
      let h' =
        subst
          (λ q.
            occurrences id r.worked + occurrences id q
            ≤ (if contains r.peer.state.seen id then 1 else 0))
          e h in
      rw (queue, seen) (omega arith)

  step-Once : (id : Text) (r : Run F) (i : Input) → Once id r → Once id (step c sh r i)
  unfolding step
  step-Once id r (frame now f from) h =
      handle_frame-once c now f from id r.peer (occurrences id r.worked) h
  step-Once id r (work now wait processing) h =
      work-Once now wait processing id r r.peer.process_queue refl h

  -- Over any sequence of frames from the neighbors, data or control, and of rounds of the workers, from
  -- a peer whose queue holds only messages it has seen, each once: a message is worked on or waiting
  -- at most once in all, and only if it was seen.
  pub run-Once : (id : Text) (r : Run F) (is : List Input) → Once id r → Once id (run c sh r is)
  unfolding run
  run-Once id r [] h = h
  run-Once id r (i ∷ is) h = run-Once id (step c sh r i) is (step-Once id r i h)
