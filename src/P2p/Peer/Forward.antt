-- ===== src/P2p/Peer/Forward.antt =====
-- The sending side: to whom a worker forwards, and what it leaves in the senders.
use peerkit.Prelude.{
  ℕ, ◌+◌, ◌%◌, ◌^◌, ◌≡◌, ◌≢◌, refl, ap, Bool, true, false, not, ◌&&◌, Option, none, some, List, [],
  ◌∷◌, map, Text, text_eq, text_eq_iff, text_key, contains, lookup, lookup-store, arith, Bool-cases,
  Option-cases, if◌then◌else◌, inl, inr, ◌∙◌,
}
use peerkit.Float.{FloatOps}
use peerkit.Protocols.{HopWaveConfig, is_hop_wave}
use peerkit.P2p.Wire.{WireFrame, new_data_frame}
use peerkit.P2p.Sender.{EdgeSender, OutboundItem, enqueue}
use peerkit.P2p.HopWave.{Shuffle, decide_hop_wave_relay}
use peerkit.P2p.Knowledge.{begin_forwarding, should_suppress_queued}
use peerkit.P2p.Peer.{
  Peer, Neighbor, ProcessItem, protocol_of, enqueue_data, data_enqueued, forward_to, eligible_of,
  chosen, plan, plan_hop_wave, forward_targets, record_suppression, process_item, prepare_item,
  forward_frame, next_hop, is_source,
}
use peerkit.P2p.Peer.Core.{enqueue_data-core, prepare_item_lem, senders-record_event}

abbrev pub node_ids : List Neighbor → List Text
node_ids = map (λ n. n.node_id)

abbrev pub is_none : Option Text → Bool
is_none none = true
is_none (some r) = false

contains-eligible :
    (from : Text) (suppressed : List (Text × Text)) (ns : List Neighbor) (j : Text)
    → contains (eligible_of from suppressed ns) j
      ≡ (contains (node_ids ns) j && (not (text_eq j from) && is_none (lookup suppressed j)))
unfolding eligible_of contains
contains-eligible from suppressed [] j = refl
contains-eligible from suppressed (n ∷ ns) j = ground (
  arith,
  contains-eligible from suppressed ns j,
  text_eq_iff n.node_id j,
  text_eq_iff n.node_id from,
  text_eq_iff j from,
  ap (lookup suppressed) {x = n.node_id} {y = j},
)

contains-chosen :
    (targets ns : List Text) (j : Text)
    → contains (chosen targets ns) j ≡ (contains targets j && contains ns j)
unfolding chosen contains
contains-chosen targets [] j = ground arith
contains-chosen targets (n ∷ ns) j =
    ground
      (arith, contains-chosen targets ns j, text_eq_iff n j, ap (contains targets) {x = n} {y = j})

contains-if-chosen :
    (b : Bool) (targets ns : List Text) (j : Text)
    → contains (if b then ns else chosen targets ns) j ≡ true
    → contains ns j ≡ true
contains-if-chosen true targets ns j h = h
contains-if-chosen false targets ns j h = ground (arith, contains-chosen targets ns j)

module _ {F : Type 0} ⦃fl : FloatOps F⦄ (sh : Shuffle) where
  contains-plan_hop_wave :
      (p : Peer F) (item : ProcessItem) (ns : List Text) (o : Option (HopWaveConfig F)) (j : Text)
      → contains (plan_hop_wave sh p item ns o).1 j ≡ true
      → contains ns j ≡ true
  unfolding plan_hop_wave contains
  contains-plan_hop_wave p item ns none j h = cc
  contains-plan_hop_wave p item ns (some cfg) j h = contains-if-chosen _ _ ns j h

  contains-plan :
      (p : Peer F) (item : ProcessItem) (ns : List Text) (j : Text)
      → contains (plan sh p item ns).1 j ≡ true
      → contains ns j ≡ true
  unfolding plan
  contains-plan p item ns j h = elim (Bool-cases (is_hop_wave p.cfg.protocol)) [
    | inl e ↦ contains-plan_hop_wave p item ns p.cfg.protocol.hop_wave j (rw (e, plan) at h)
    | inr e ↦ rw (e, plan) at h
  ]

  -- A worker forwards a message to neighbors only, never to the one it came from, and never to one
  -- that the message's state suppresses when forwarding begins.
  pub forward_targets_allowed :
      (p : Peer F) (item : ProcessItem) (j : Text)
      → contains (forward_targets sh p item) j ≡ true
      → (contains (node_ids p.cfg.neighbors) j ≡ true)
        × (j ≢ item.from)
        × (lookup (begin_forwarding (protocol_of p) p.state item.message.id).1 j ≡ none)
  unfolding forward_targets plan
  forward_targets_allowed p item j h =
      let suppressed = (begin_forwarding (protocol_of p) p.state item.message.id).1 in
      let eligible = eligible_of item.from suppressed p.cfg.neighbors in
      ground (
        arith,
        contains-plan p item eligible j h,
        contains-eligible item.from suppressed p.cfg.neighbors j,
        text_eq_iff j item.from,
      )

  -- Under the flooding protocols a worker forwards a message to exactly the neighbors that it did not
  -- come from and that its state does not suppress.
  pub forward_targets_flooding :
      (p : Peer F) (item : ProcessItem) (j : Text)
      → is_hop_wave p.cfg.protocol ≡ false
      → contains (forward_targets sh p item) j ≡ (
          contains (node_ids p.cfg.neighbors) j
          && (not (text_eq j item.from)
              && is_none (lookup (begin_forwarding (protocol_of p) p.state item.message.id).1 j)))
  unfolding forward_targets plan
  forward_targets_flooding p item j e =
      let suppressed = (begin_forwarding (protocol_of p) p.state item.message.id).1 in
      rw (e, plan, forward_targets) (contains-eligible item.from suppressed p.cfg.neighbors j)

-- What a sender becomes when a frame is offered to it, accepted or not.
abbrev pub offered : ℕ → WireFrame → Option EdgeSender → Option EdgeSender
offered now f none = none
offered now f (some s) = some (enqueue s (record { frame = f; enqueued_at = now }) false).0

enqueue_rejected :
    (s : EdgeSender) (i : OutboundItem) → (enqueue s i false).1 ≡ false → (enqueue s i false).0 ≡ s
unfolding enqueue
enqueue_rejected s i e = ground arith

-- No entry twice.
abbrev pub IsDistinct : List Text → Type 0
IsDistinct [] = Unit {0}
IsDistinct (n ∷ ns) = (contains ns n ≡ false) × IsDistinct ns

module _ {F : Type 0} where
  senders-data_enqueued :
      (now : ℕ) (f : WireFrame) (node : Text) (p : Peer F) (old s : EdgeSender) (accepted : Bool)
      (j : Text)
      → lookup p.senders node ≡ some old
      → (accepted ≡ false → s ≡ old)
      → lookup (data_enqueued now f node p (s, accepted)).senders j
        ≡ (if text_eq node j then some s else lookup p.senders j)
  unfolding data_enqueued
  senders-data_enqueued now f node p old s true j e h = lookup-store p.senders node j s
  senders-data_enqueued now f node p old s false j e h =
      rw (senders-record_event now _ p)
        (ground (arith, h refl, text_eq_iff node j, ap (lookup p.senders) {x = node} {y = j}))

  -- One offer to one sender.
  senders-enqueue_data :
      (now : ℕ) (f : WireFrame) (node : Text) (p : Peer F) (j : Text)
      → lookup (enqueue_data now f node p).senders j ≡ (
          if text_eq node j
            && not (should_suppress_queued (protocol_of p) p.state f.message_id node)
          then offered now f (lookup p.senders j)
          else lookup p.senders j)
  unfolding enqueue_data record_suppression
  senders-enqueue_data now f node p j =
      elim (Bool-cases (should_suppress_queued (protocol_of p) p.state f.message_id node)) [
        | inl e ↦ rw (e, enqueue_data) (rw (senders-record_event now _ p) (ground arith))
        | inr e ↦ elim (Option-cases (lookup p.senders node)) [
          | inl o ↦
              rw (e, o, enqueue_data)
                (ground (arith, text_eq_iff node j, ap (lookup p.senders) {x = node} {y = j}))
          | inr (s, o) ↦
              let item : OutboundItem = record { frame = f; enqueued_at = now } in
              rw (e, o, enqueue_data)
                (senders-data_enqueued now f node p s (enqueue s item false).0
                    (enqueue s item false).1 j o (enqueue_rejected s item)
                  ∙ ground (arith, text_eq_iff node j, ap (lookup p.senders) {x = node} {y = j}))
        ]
      ]

  senders-forward_to :
      (now : ℕ) (f : WireFrame) (ns : List Text) (p : Peer F) (j : Text)
      → IsDistinct ns
      → lookup (forward_to now f ns p).senders j ≡ (
          if contains ns j && not (should_suppress_queued (protocol_of p) p.state f.message_id j)
          then offered now f (lookup p.senders j)
          else lookup p.senders j)
  unfolding forward_to contains
  senders-forward_to now f [] p j d = refl
  senders-forward_to now f (n ∷ ns) p j d =
      let q = enqueue_data now f n p in
      let core = enqueue_data-core now f n p in
      let suppress = λ (x : Text). should_suppress_queued (protocol_of p) p.state f.message_id x in
      let same : should_suppress_queued (protocol_of q) q.state f.message_id j ≡ suppress j =
        rw (core.cfg, core.state) refl in
      ground (
        arith,
        senders-forward_to now f ns q j d.1,
        same,
        senders-enqueue_data now f n p j,
        d.0,
        text_eq_iff n j,
        ap suppress {x = n} {y = j},
        ap (contains ns) {x = n} {y = j},
      )

IsDistinct-eligible :
    (from : Text) (suppressed : List (Text × Text)) (ns : List Neighbor)
    → IsDistinct (node_ids ns)
    → IsDistinct (eligible_of from suppressed ns)
unfolding eligible_of
IsDistinct-eligible from suppressed [] d = tt
IsDistinct-eligible from suppressed (n ∷ ns) d = ground (
  arith,
  IsDistinct-eligible from suppressed ns d.1,
  contains-eligible from suppressed ns n.node_id,
  d.0,
)

IsDistinct-chosen : (targets ns : List Text) → IsDistinct ns → IsDistinct (chosen targets ns)
unfolding chosen
IsDistinct-chosen targets [] d = tt
IsDistinct-chosen targets (n ∷ ns) d =
    ground (arith, IsDistinct-chosen targets ns d.1, contains-chosen targets ns n, d.0)

module _ {F : Type 0} ⦃fl : FloatOps F⦄ (sh : Shuffle) where
  IsDistinct-plan_hop_wave :
      (p : Peer F) (item : ProcessItem) (ns : List Text) (o : Option (HopWaveConfig F))
      → IsDistinct ns
      → IsDistinct (plan_hop_wave sh p item ns o).1
  unfolding plan_hop_wave
  IsDistinct-plan_hop_wave p item ns none d = tt
  IsDistinct-plan_hop_wave p item ns (some cfg) d =
      elim (Bool-cases
        (decide_hop_wave_relay cfg (is_source item) item.message.hop_wave_hop).crest) [
          | inl e ↦ rw e d
          | inr e ↦ rw e (IsDistinct-chosen _ ns d)
        ]

  IsDistinct-forward_targets :
      (p : Peer F) (item : ProcessItem)
      → IsDistinct (node_ids p.cfg.neighbors)
      → IsDistinct (forward_targets sh p item)
  unfolding forward_targets plan
  IsDistinct-forward_targets p item d =
      let suppressed = (begin_forwarding (protocol_of p) p.state item.message.id).1 in
      let eligible = IsDistinct-eligible item.from suppressed p.cfg.neighbors d in
      elim (Bool-cases (is_hop_wave p.cfg.protocol)) [
        | inl e ↦
            rw (e, forward_targets)
              (IsDistinct-plan_hop_wave p item _ p.cfg.protocol.hop_wave eligible)
        | inr e ↦ rw (e, forward_targets) eligible
      ]

module _ {F : Type 0} ⦃fl : FloatOps F⦄ (sh : Shuffle) where
  forward_frame_lem :
      (p : Peer F) (item : ProcessItem)
      → ((forward_frame sh p item).message_id ≡ item.message.id)
        × ((forward_frame sh p item).hop ≡ (item.message.hop + 1) % 2 ^ 32)
  unfolding forward_frame new_data_frame next_hop
  forward_frame_lem p item = ground arith

  -- With distinct neighbors, a worker that processes a message offers the forwarded frame once to the
  -- sender of each target that has not asked to be spared, and leaves every other sender as it was. The
  -- frame carries the message's id, and its hop count raised by one, modulo 2 ^ 32. An offer is an
  -- `enqueue`, which appends the frame unless the queue is full.
  pub process_item_senders :
      (now wait processing : ℕ) (item : ProcessItem) (p : Peer F) (j : Text)
      → IsDistinct (node_ids p.cfg.neighbors)
      → let state = (begin_forwarding (protocol_of p) p.state item.message.id).0 in
        (lookup (process_item sh now wait processing item p).senders j ≡ (
          if contains (forward_targets sh p item) j
            && not (should_suppress_queued (protocol_of p) state item.message.id j)
          then offered now (forward_frame sh p item) (lookup p.senders j)
          else lookup p.senders j))
        × ((forward_frame sh p item).message_id ≡ item.message.id)
        × ((forward_frame sh p item).hop ≡ (item.message.hop + 1) % 2 ^ 32)
  unfolding process_item
  process_item_senders now wait processing item p j d =
      let (cfg, state, _, senders) = prepare_item_lem now wait processing item p in
      let q = prepare_item now wait processing item p in
      let (id, hop) = forward_frame_lem p item in
      (
        senders-forward_to now (forward_frame sh p item) (forward_targets sh p item) q j
              (IsDistinct-forward_targets sh p item d)
            ∙ simp (cfg, state, senders, id),
        id,
        hop,
      )
