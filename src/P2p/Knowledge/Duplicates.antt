-- ===== src/P2p/Knowledge/Duplicates.antt =====
-- Which duplicates of a message a peer keeps, after any calls.
use peerkit.Prelude.{
  ◌≡◌, refl, ap, ◌∙◌, Bool, true, false, not, ◌&&◌, ◌||◌, List, [], ◌∷◌, Text, text_key, text_eq,
  text_eq_iff, contains, insert, contains-insert, lookup-store, if◌then◌else◌, arith,
}
use peerkit.Protocols.{uses_duplicate_neighbor_suppression}
use peerkit.P2p.Knowledge.{
  MessageState, MessageKnowledge, known, set_known, begin_forwarding, register_local_message,
  register_received_message, register_idontwant,
}
use peerkit.P2p.Knowledge.Dedup.{
  Call, local, received, dont_want, forward, step, run, seen-register_received,
}

-- What is known after an entry is set, whatever happens to `seen`.
pub known-set_known :
    (s : MessageState) (id j : Text) (k : MessageKnowledge) (seen : List Text)
    → (known (set_known s id k) j ≡ (if text_eq id j then k else known s j))
      × (known (record s { seen = seen }) j ≡ known s j)
unfolding known set_known
known-set_known s id j k seen = (ground (arith, lookup-store s.knowledge id j k), refl)

pub known-eq : (s : MessageState) (j id : Text) → j ≡ id → known s j ≡ known s id
known-eq s j id e = ap (known s) e

-- Whether a call marks `id` as seen.
marks_seen : Call → Text → Bool
marks_seen (local j) id = text_eq j id
marks_seen (received j from) id = text_eq j id
marks_seen (dont_want j from) id = false
marks_seen (forward j) id = false

-- Whether a call begins to forward `id`.
marks_started : Call → Text → Bool
marks_started (forward j) id = text_eq j id
marks_started (local j) id = false
marks_started (received j from) id = false
marks_started (dont_want j from) id = false

-- Whether a call is a receipt of `id` from `node`, where `id` was seen before and no worker has begun to
-- forward it.
echoes : Call → Text → Text → Bool → Bool → Bool
echoes (received j from) id node seen started =
    text_eq j id && (seen && (not started && text_eq from node))
echoes (local j) id node seen started = false
echoes (dont_want j from) id node seen started = false
echoes (forward j) id node seen started = false

-- Whether the calls hold such a receipt; `seen` and `started` tell of the calls before.
pub echoed : Text → Text → Bool → Bool → List Call → Bool
echoed id node seen started [] = false
echoed id node seen started (c ∷ cs) =
    echoes c id node seen started
    || echoed id node (seen || marks_seen c id) (started || marks_started c id) cs

abbrev pub duplicated : MessageState → Text → Text → Bool
duplicated s id node = contains (known s id).duplicate_senders node

-- What a call does to the three parts of the state that the duplicates of `id` depend on.
abbrev IsStep : Text → MessageState → Text → Text → Bool → Bool → Bool → MessageState → Type 0
IsStep protocol s id node seen started duplicate s' =
    (contains s'.seen id ≡ (contains s.seen id || seen))
    × (((known s' id).forwarding_started ≡ ((known s id).forwarding_started || started))
        × (duplicated s' id node ≡ (
            duplicated s id node || (uses_duplicate_neighbor_suppression protocol && duplicate))))

seen-eq : (s : MessageState) (j id : Text) → j ≡ id → contains s.seen j ≡ contains s.seen id
seen-eq s j id e = ap (contains s.seen) e

local-seen :
    (s : MessageState) (j id : Text)
    → contains (register_local_message s j).seen id ≡ (contains s.seen id || text_eq j id)
unfolding register_local_message set_known
local-seen s j id = ground (arith, contains-insert s.seen j id)

received-seen :
    (protocol : Text) (s : MessageState) (j from id : Text)
    → contains (register_received_message protocol s j from).0.seen id
      ≡ (contains s.seen id || text_eq j id)
received-seen protocol s j from id = ground (arith, seen-register_received protocol s j from id)

other-seen :
    (protocol : Text) (s : MessageState) (j from id : Text)
    → (contains (register_idontwant s j from).seen id ≡ (contains s.seen id || false))
      × (contains (begin_forwarding protocol s j).0.seen id ≡ (contains s.seen id || false))
unfolding register_idontwant begin_forwarding set_known
other-seen protocol s j from id = (ground arith, ground arith)

module _ (protocol : Text) (s : MessageState) (id node : Text) where
  local-IsStep :
      (j : Text) → IsStep protocol s id node (text_eq j id) false false (register_local_message s j)
  unfolding register_local_message
  local-IsStep j = (
    local-seen s j id,
    ground (
      arith,
      known-set_known (record s { seen = insert s.seen j }) j id (known s j) (insert s.seen j),
      known-set_known s j id (known s j) (insert s.seen j),
      text_eq_iff j id,
      known-eq s j id,
    ),
  )

  received-IsStep :
      (j from : Text)
      → IsStep protocol s id node
          (text_eq j id)
          false
          (text_eq j id
            && (contains s.seen id && (not (known s id).forwarding_started && text_eq from node)))
          (register_received_message protocol s j from).0
  unfolding register_received_message
  received-IsStep j from =
      let k = known s j in
      (
        received-seen protocol s j from id,
        ground (
          arith,
          known-set_known (record s { seen = insert s.seen j }) j id k (insert s.seen j),
          known-set_known s j id k (insert s.seen j),
          known-set_known s j id (record k { duplicate_senders = insert k.duplicate_senders from })
              s.seen,
          contains-insert k.duplicate_senders from node,
          text_eq_iff j id,
          known-eq s j id,
          seen-eq s j id,
        ),
      )

  dont_want-IsStep :
      (j from : Text) → IsStep protocol s id node false false false (register_idontwant s j from)
  unfolding register_idontwant
  dont_want-IsStep j from =
      let k = known s j in
      (
        (other-seen protocol s j from id).0,
        ground (
          arith,
          known-set_known s j id (record k { dont_want_peers = insert k.dont_want_peers from })
              s.seen,
          text_eq_iff j id,
          known-eq s j id,
        ),
      )

  forward-IsStep :
      (j : Text)
      → IsStep protocol s id node false (text_eq j id) false (begin_forwarding protocol s j).0
  unfolding begin_forwarding
  forward-IsStep j = (
    (other-seen protocol s j j id).1,
    ground (
      arith,
      known-set_known s j id (record (known s j) { forwarding_started = true }) s.seen,
      text_eq_iff j id,
      known-eq s j id,
    ),
  )

call-IsStep :
    (protocol : Text) (s : MessageState) (c : Call) (id node : Text)
    → IsStep protocol s id node
        (marks_seen c id)
        (marks_started c id)
        (echoes c id node (contains s.seen id) (known s id).forwarding_started)
        (step protocol s c)
unfolding step marks_seen marks_started echoes
call-IsStep protocol s (local j) id node = local-IsStep protocol s id node j
call-IsStep protocol s (received j from) id node = received-IsStep protocol s id node j from
call-IsStep protocol s (dont_want j from) id node = dont_want-IsStep protocol s id node j from
call-IsStep protocol s (forward j) id node = forward-IsStep protocol s id node j

-- The duplicates of a message after some calls.
pub duplicated-run :
    (protocol : Text) (s : MessageState) (cs : List Call) (id node : Text)
    → duplicated (run protocol s cs) id node ≡ (
        duplicated s id node
        || (uses_duplicate_neighbor_suppression protocol
            && echoed id node (contains s.seen id) (known s id).forwarding_started cs))
unfolding run echoed
duplicated-run protocol s [] id node = ground arith
duplicated-run protocol s (c ∷ cs) id node =
    let (a, (b, d)) = call-IsStep protocol s c id node in
    duplicated-run protocol (step protocol s c) cs id node ∙ rw (a, b, d) (ground arith)
