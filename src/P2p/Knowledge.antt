-- ===== src/P2p/Knowledge.antt =====
-- internal/p2p/forwarding.go: what a peer knows of each message, and which neighbors it spares. Each
-- function runs under stateMu; `protocol` is p.cfg.Protocol.ProtocolName().
pub mod Dedup
pub mod Duplicates
pub mod Suppress
use peerkit.Prelude.{
  Bool, true, false, not, ◌&&◌, Option, none, some, List, [], ◌∷◌, Text, codes, map, text_key,
  text_eq, contains, insert, lookup, store, if◌then◌else◌,
}
use peerkit.Protocols.{
  duplicate_aware_flooding, idontwant_flooding, uses_duplicate_neighbor_suppression, uses_idontwant,
}

pub record MessageKnowledge : Type 0 where
  pub duplicate_senders : List Text
  pub dont_want_peers : List Text
  pub forwarding_started : Bool

abbrev pub new_message_knowledge : MessageKnowledge
new_message_knowledge = record {
  duplicate_senders = [];
  dont_want_peers = [];
  forwarding_started = false;
}

-- The fields of Peer that stateMu guards.
pub record MessageState : Type 0 where
  pub seen : List Text
  pub knowledge : List (Text × MessageKnowledge)

-- `state := p.knowledge[id]; if state == nil { state = newMessageKnowledge() }`.
abbrev or_new : Option MessageKnowledge → MessageKnowledge
or_new none = new_message_knowledge
or_new (some k) = k

unfoldable pub known : MessageState → Text → MessageKnowledge
known s id = or_new (lookup s.knowledge id)

unfoldable pub set_known : MessageState → Text → MessageKnowledge → MessageState
set_known s id k = record s { knowledge = store s.knowledge id k }

unfoldable pub register_local_message : MessageState → Text → MessageState
register_local_message s id = set_known (record s { seen = insert s.seen id }) id (known s id)

unfoldable pub register_received_message : Text → MessageState → Text → Text → MessageState × Bool
register_received_message protocol s id from =
    let state = known s id in
    if contains s.seen id
    then (if uses_duplicate_neighbor_suppression protocol && not state.forwarding_started
        then (
          set_known s id (record state { duplicate_senders = insert state.duplicate_senders from }),
          true,
        )
        else (set_known s id state, true))
    else (set_known (record s { seen = insert s.seen id }) id state, false)

unfoldable pub register_idontwant : MessageState → Text → Text → MessageState
register_idontwant s id from =
    let state = known s id in
    set_known s id (record state { dont_want_peers = insert state.dont_want_peers from })

abbrev pub duplicate_neighbor : Text
duplicate_neighbor = codes "duplicate_neighbor"

abbrev pub idontwant : Text
idontwant = codes "idontwant"

-- The map from suppressed neighbors to reasons.
unfoldable pub suppressed_by : Text → MessageKnowledge → List (Text × Text)
suppressed_by protocol state =
    if text_eq protocol duplicate_aware_flooding
    then map (λ node. (node, duplicate_neighbor)) state.duplicate_senders
    else (if text_eq protocol idontwant_flooding
        then map (λ node. (node, idontwant)) state.dont_want_peers
        else [])

unfoldable pub begin_forwarding : Text → MessageState → Text → MessageState × List (Text × Text)
begin_forwarding protocol s id =
    let state = known s id in
    (set_known s id (record state { forwarding_started = true }), suppressed_by protocol state)

unfoldable pub should_suppress_queued : Text → MessageState → Text → Text → Bool
should_suppress_queued protocol s id target =
    if not (uses_idontwant protocol) then false else elim (lookup s.knowledge id) [
      | none ↦ false
      | some state ↦ contains state.dont_want_peers target
    ]
