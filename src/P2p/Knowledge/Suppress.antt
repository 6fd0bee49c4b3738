-- ===== src/P2p/Knowledge/Suppress.antt =====
-- Which neighbors a peer spares, and from when on.
use peerkit.Prelude.{
  ◌≡◌, refl, ap, Bool, true, false, ◌&&◌, ◌||◌, none, some, List, [], ◌∷◌, map, Text, text_key,
  text_eq, text_eq_iff, contains, insert, contains-insert, lookup, if◌then◌else◌, arith,
}
use peerkit.Protocols.{
  duplicate_aware_flooding, idontwant_flooding, normalize, uses_idontwant,
  uses_duplicate_neighbor_suppression,
}
use peerkit.P2p.Knowledge.{
  MessageState, known, suppressed_by, begin_forwarding, should_suppress_queued,
  register_local_message, register_received_message, register_idontwant, duplicate_neighbor,
  idontwant,
}
use peerkit.P2p.Knowledge.Duplicates.{known-set_known, known-eq, echoed, duplicated, duplicated-run}
use peerkit.P2p.Knowledge.Dedup.{Call, local, received, dont_want, forward, step, run}

-- Whether the calls hold an IDONTWANT of `target` for `id`.
pub asked : Text → Text → List Call → Bool
asked id target [] = false
asked id target (dont_want j from ∷ cs) =
    (text_eq j id && text_eq from target) || asked id target cs
asked id target (c ∷ cs) = asked id target cs

wants : MessageState → Text → Text → Bool
wants s id target = contains (known s id).dont_want_peers target

asks : Call → Text → Text → Bool
asks (dont_want j from) id target = text_eq j id && text_eq from target
asks c id target = false

wants-step :
    (protocol : Text) (s : MessageState) (c : Call) (id target : Text)
    → wants (step protocol s c) id target ≡ (wants s id target || asks c id target)
unfolding wants step asks register_local_message register_received_message register_idontwant
    begin_forwarding
wants-step protocol s (local j) id target = ground (
  arith,
  known-set_known (record s { seen = insert s.seen j }) j id (known s j) (insert s.seen j),
  known-set_known s j id (known s j) (insert s.seen j),
  text_eq_iff j id,
  known-eq s j id,
)
wants-step protocol s (received j from) id target =
    let k = known s j in
    ground (
      arith,
      known-set_known (record s { seen = insert s.seen j }) j id k (insert s.seen j),
      known-set_known s j id k (insert s.seen j),
      known-set_known s j id (record k { duplicate_senders = insert k.duplicate_senders from })
          (insert s.seen j),
      text_eq_iff j id,
      known-eq s j id,
    )
wants-step protocol s (dont_want j from) id target =
    let k = known s j in
    ground (
      arith,
      known-set_known s j id (record k { dont_want_peers = insert k.dont_want_peers from }) s.seen,
      contains-insert k.dont_want_peers from target,
      text_eq_iff j id,
      known-eq s j id,
    )
wants-step protocol s (forward j) id target = ground (
  arith,
  known-set_known s j id (record (known s j) { forwarding_started = true }) s.seen,
  text_eq_iff j id,
  known-eq s j id,
)

asked-cons :
    (id target : Text) (c : Call) (cs : List Call)
    → asked id target (c ∷ cs) ≡ (asks c id target || asked id target cs)
unfolding asked asks
asked-cons id target (dont_want j from) cs = refl
asked-cons id target (local j) cs = refl
asked-cons id target (received j from) cs = refl
asked-cons id target (forward j) cs = refl

wants-run :
    (protocol : Text) (s : MessageState) (cs : List Call) (id target : Text)
    → wants (run protocol s cs) id target ≡ (wants s id target || asked id target cs)
unfolding run asked
wants-run protocol s [] id target = ground arith
wants-run protocol s (c ∷ cs) id target = ground (
  arith,
  wants-run protocol (step protocol s c) cs id target,
  wants-step protocol s c id target,
  asked-cons id target c cs,
)

should_suppress-wants :
    (protocol : Text) (s : MessageState) (id target : Text)
    → should_suppress_queued protocol s id target ≡ (uses_idontwant protocol && wants s id target)
unfolding should_suppress_queued wants known contains
should_suppress-wants protocol s id target = ground arith

abbrev pub new_state : MessageState
new_state = record { seen = []; knowledge = [] }

-- After any sequence of calls on a new peer, a queued data frame is suppressed exactly if the protocol
-- is the IDONTWANT one and the target has sent an IDONTWANT for this message: never without one,
-- and always from the first one on.
pub should_suppress_queued_iff :
    (protocol : Text) (cs : List Call) (id target : Text)
    → should_suppress_queued protocol (run protocol new_state cs) id target
      ≡ (uses_idontwant protocol && asked id target cs)
unfolding wants known lookup contains
should_suppress_queued_iff protocol cs id target = ground (
  arith,
  should_suppress-wants protocol (run protocol new_state cs) id target,
  wants-run protocol new_state cs id target,
)

lookup-const :
    (reason : Text) (nodes : List Text) (node : Text)
    → lookup (map (λ n. (n, reason)) nodes) node
      ≡ (if contains nodes node then some reason else none)
unfolding lookup contains
lookup-const reason [] node = refl
lookup-const reason (n ∷ nodes) node = ground (arith, lookup-const reason nodes node)

new_state-empty :
    (id node : Text)
    → (wants new_state id node ≡ false)
      × (duplicated new_state id node ≡ false)
      × (contains new_state.seen id ≡ false)
      × ((known new_state id).forwarding_started ≡ false)
unfolding wants known lookup contains
new_state-empty id node = (refl, refl, refl, refl)

-- What a worker spares when it begins to forward a message, after any calls on a new peer, where the
-- protocol is given by its normal name: under duplicate-aware flooding the neighbors from which the
-- message came when it had been seen before and no worker had begun to forward it, under IDONTWANT
-- flooding those that sent an IDONTWANT for it, and none otherwise.
pub begin_forwarding_reasons :
    (protocol : Text) (cs : List Call) (id node : Text)
    → normalize protocol ≡ protocol
    → lookup (begin_forwarding protocol (run protocol new_state cs) id).1 node ≡ (
        if text_eq protocol duplicate_aware_flooding
        then (if echoed id node false false cs then some duplicate_neighbor else none)
        else (if text_eq protocol idontwant_flooding && asked id node cs
            then some idontwant
            else none))
unfolding begin_forwarding suppressed_by lookup uses_duplicate_neighbor_suppression wants
begin_forwarding_reasons protocol cs id node e =
    let s = run protocol new_state cs in
    ground (
      arith,
      lookup-const duplicate_neighbor (known s id).duplicate_senders node,
      lookup-const idontwant (known s id).dont_want_peers node,
      wants-run protocol new_state cs id node,
      duplicated-run protocol new_state cs id node,
      new_state-empty id node,
      ap (λ q. text_eq q duplicate_aware_flooding) e,
    )
