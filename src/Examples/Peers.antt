-- ===== src/Examples/Peers.antt =====
-- The theorems on peers, senders and their knowledge, applied.
use mathlib.Core.List.{Perm}
use mathlib.Core.List.Perm
use peerkit.Prelude.{
  ℕ, ◌+◌, ◌%◌, ◌^◌, ◌≤◌, ◌<◌, ◌≡◌, ◌≢◌, ◌↔◌, refl, true, false, not, ◌&&◌, ◌||◌, none, some, List,
  [], ◌∷◌, ◌++◌, codes, contains, lookup, to_lower, trim_space, trim_left, is_space, lower_byte,
  text_key, text_eq, length, leb, arith, if◌then◌else◌,
}
use peerkit.Int.{pos}
use peerkit.Float.{thousandths}
use peerkit.Protocols.{
  base_flooding, duplicate_aware_flooding, idontwant_flooding, is_hop_wave, uses_idontwant,
  protocol_name, normalize,
}
use peerkit.P2p.HopWave.{select_hop_wave_targets, clamp_count}
use peerkit.P2p.HopWave.Cycle.{relay, relay_cycle}
use peerkit.P2p.HopWave.Targets.{select_size, select_Perm}
use peerkit.P2p.Knowledge.{
  suppressed_by, begin_forwarding, should_suppress_queued, duplicate_neighbor, idontwant,
}
use peerkit.P2p.Knowledge.Dedup.{
  fresh_receipts, fresh_receipts_bound, local, received, dont_want, forward, Call,
}
use peerkit.P2p.Knowledge.Duplicates.{echoed}
use peerkit.P2p.Knowledge.Suppress.{
  asked, new_state, should_suppress_queued_iff, begin_forwarding_reasons,
}
use peerkit.P2p.Knowledge.Dedup
use peerkit.P2p.Sender.{EdgeSender, OutboundItem, dequeue}
use peerkit.P2p.Sender.Order.{
  InOrder, IsData, fresh, new_sender, put_data, get, run_order, first, rest, dequeue_priority,
}
use peerkit.P2p.Sender.Order
use peerkit.P2p.Sender.Wake.{here, next, sleep, waiting, start, IsIdle, no_lost_wake}
use peerkit.P2p.Wire.{new_idontwant_frame}
use peerkit.P2p.Peer.{
  Peer, plan, eligible_of, accept_message, process_item, forward_targets, forward_frame,
  protocol_of,
}
use peerkit.P2p.Peer.Accept.{accept_message_queue}
use peerkit.P2p.Peer.Forward.{
  node_ids, is_none, offered, forward_targets_allowed, forward_targets_flooding,
  process_item_senders, IsDistinct,
}
use peerkit.P2p.Peer.Once.{Once, frame, work, run, run-Once, occurrences}
use peerkit.Examples.Fixtures.{
  keep_order, plain_codec, node_a, node_b, node_c, a_message, a_frame, an_item, peer_with,
  nothing_known,
}

nothing_queued-Once : Once (codes "m") (record { peer = peer_with idontwant_flooding; worked = [] })
unfolding occurrences contains
nothing_queued-Once = omega arith

run-Once_example : Once (codes "m") (
    run plain_codec keep_order
      (record { peer = peer_with idontwant_flooding; worked = [] })
      (frame 1 a_frame node_a ∷ frame 2 a_frame node_b ∷ work 3 0 0 ∷ work 4 0 0 ∷ []))
run-Once_example =
    run-Once plain_codec keep_order (codes "m")
      (record { peer = peer_with idontwant_flooding; worked = [] })
      (frame 1 a_frame node_a ∷ frame 2 a_frame node_b ∷ work 3 0 0 ∷ work 4 0 0 ∷ [])
      nothing_queued-Once

neighbors-IsDistinct : IsDistinct (node_ids (peer_with base_flooding).cfg.neighbors)
unfolding contains text_eq
neighbors-IsDistinct = (refl, (refl, (refl, tt)))

process_item_senders_example :
    let p = peer_with base_flooding in
    let state = (begin_forwarding (protocol_of p) p.state an_item.message.id).0 in
    (lookup (process_item keep_order 1 0 0 an_item p).senders node_b ≡ (
      if contains (forward_targets keep_order p an_item) node_b
        && not (should_suppress_queued (protocol_of p) state an_item.message.id node_b)
      then offered 1 (forward_frame keep_order p an_item) (lookup p.senders node_b)
      else lookup p.senders node_b))
    × ((forward_frame keep_order p an_item).message_id ≡ an_item.message.id)
    × ((forward_frame keep_order p an_item).hop ≡ (an_item.message.hop + 1) % 2 ^ 32)
process_item_senders_example =
    process_item_senders keep_order 1 0 0 an_item (peer_with base_flooding) node_b
      neighbors-IsDistinct

base_flooding_plain : is_hop_wave (peer_with base_flooding).cfg.protocol ≡ false
unfolding is_hop_wave protocol_name normalize text_eq to_lower trim_space trim_left is_space
    lower_byte
base_flooding_plain = refl

forward_targets_flooding_example :
    let p = peer_with base_flooding in
    contains (forward_targets keep_order p an_item) node_b ≡ (
      contains (node_ids p.cfg.neighbors) node_b
      && (not (text_eq node_b an_item.from)
          && is_none
              (lookup (begin_forwarding (protocol_of p) p.state an_item.message.id).1 node_b)))
forward_targets_flooding_example =
    forward_targets_flooding keep_order (peer_with base_flooding) an_item node_b base_flooding_plain

node_c_target :
    contains (forward_targets keep_order (peer_with base_flooding) an_item) node_c ≡ true
unfolding forward_targets contains plan eligible_of is_hop_wave protocol_name normalize
    begin_forwarding suppressed_by text_eq to_lower trim_space trim_left is_space lower_byte lookup
node_c_target = refl

forward_targets_allowed_example :
    let p = peer_with base_flooding in
    (contains (node_ids p.cfg.neighbors) node_c ≡ true)
    × (node_c ≢ an_item.from)
    × (lookup (begin_forwarding (protocol_of p) p.state an_item.message.id).1 node_c ≡ none)
forward_targets_allowed_example =
    forward_targets_allowed keep_order (peer_with base_flooding) an_item node_c node_c_target

should_suppress_queued_iff_example :
    should_suppress_queued idontwant_flooding
      (Dedup.run idontwant_flooding new_state
        (local (codes "m") ∷ dont_want (codes "m") node_b ∷ []))
      (codes "m")
      node_b
    ≡ (uses_idontwant idontwant_flooding
        && asked (codes "m") node_b (local (codes "m") ∷ dont_want (codes "m") node_b ∷ []))
should_suppress_queued_iff_example =
    should_suppress_queued_iff idontwant_flooding
      (local (codes "m") ∷ dont_want (codes "m") node_b ∷ []) (codes "m") node_b

fresh_receipts_bound_example :
    fresh_receipts base_flooding
      (codes "m")
      nothing_known
      (received (codes "m") node_a ∷ received (codes "m") node_b ∷ [])
    ≤ (if contains nothing_known.seen (codes "m") then 0 else 1)
fresh_receipts_bound_example =
    fresh_receipts_bound base_flooding (codes "m") nothing_known
      (received (codes "m") node_a ∷ received (codes "m") node_b ∷ [])

abbrev a_queued : OutboundItem
a_queued = record { frame = a_frame; enqueued_at = 1 }

a_queued-IsData : IsData a_queued
unfolding text_eq
a_queued-IsData = refl

run_order_example : InOrder (
    Order.run
      (fresh (new_sender node_a 1))
      (put_data a_queued a_queued-IsData ∷ put_data a_queued a_queued-IsData ∷ get ∷ []))
run_order_example =
    run_order node_a 1
      (put_data a_queued a_queued-IsData ∷ put_data a_queued a_queued-IsData ∷ get ∷ [])

abbrev idle : EdgeSender
idle = new_sender node_a 1

dequeue-idle : dequeue idle ≡ (idle, none)
unfolding dequeue
dequeue-idle = refl

no_lost_wake_example : IsIdle idle
no_lost_wake_example =
    no_lost_wake idle (record { sender = idle; phase = waiting; signalling = 0 })
      (next here (sleep (start idle) idle refl dequeue-idle)) refl refl refl

relay_cycle_example :
    (((relay {F = ℕ} (record { i = pos 3; f = 500 }) 4).crest ≡ true) ↔ (4 % 3 ≡ 0))
    × ((relay {F = ℕ} (record { i = pos 3; f = 500 }) 4).outgoing_hop ≡ 4 % 3)
    × ((relay {F = ℕ} (record { i = pos 3; f = 500 }) 4).outgoing_hop < 3)
relay_cycle_example = relay_cycle {F = ℕ} 500 3 (omega arith) (omega arith) 4

select_Perm_example :
    Perm
      (select_hop_wave_targets {F = ℕ} keep_order (node_a ∷ node_b ∷ []) 500 7)
      (select_hop_wave_targets {F = ℕ} keep_order (node_b ∷ node_a ∷ []) 500 7)
select_Perm_example =
    select_Perm {F = ℕ} keep_order (node_a ∷ node_b ∷ []) (node_b ∷ node_a ∷ []) 500 7
      (Perm.swap node_b node_a [])

different : contains (node_b ∷ []) node_a ≡ false
unfolding contains text_eq
different = refl

nothing_there : contains [] node_b ≡ false
unfolding contains
nothing_there = refl

select_size_example :
    let chosen = select_hop_wave_targets {F = ℕ} keep_order (node_a ∷ node_b ∷ []) 500 7 in
    (1 ≤ length chosen) × (length chosen ≤ 2) × (length chosen ≡ clamp_count 2 1)
select_size_example =
    select_size {F = ℕ} keep_order (node_a ∷ node_b ∷ []) 500 7 refl (omega arith)
      (different, (nothing_there, tt))

accept_message_queue_example :
    let p = peer_with base_flooding in
    ((accept_message plain_codec 1 a_message node_a p).process_queue ≡ (
      if contains p.state.seen (codes "m") || leb p.cfg.queue_capacity (length p.process_queue)
      then p.process_queue
      else p.process_queue ++ record { message = a_message; from = node_a; enqueued_at = 1 } ∷ []))
    × (contains (accept_message plain_codec 1 a_message node_a p).state.seen (codes "m") ≡ true)
accept_message_queue_example =
    accept_message_queue plain_codec 1 a_message node_a (peer_with base_flooding)

abbrev seen_once : Peer ℕ
seen_once = record (peer_with base_flooding) {
  state = record { seen = codes "m" ∷ []; knowledge = [] };
}

message_seen : contains seen_once.state.seen (codes "m") ≡ true
unfolding contains text_eq
message_seen = refl

-- A message that came twice from one neighbor, then from another after a worker took it.
abbrev some_calls : List Call
some_calls =
    received (codes "m") node_a
    ∷ received (codes "m") node_a
    ∷ forward (codes "m")
    ∷ received (codes "m") node_b
    ∷ []

flooding_name : normalize duplicate_aware_flooding ≡ duplicate_aware_flooding
unfolding normalize to_lower trim_space trim_left is_space lower_byte text_eq
flooding_name = refl

begin_forwarding_reasons_example :
    lookup
      (begin_forwarding duplicate_aware_flooding
        (Dedup.run duplicate_aware_flooding new_state some_calls)
        (codes "m")).1
      node_a
    ≡ (if text_eq duplicate_aware_flooding duplicate_aware_flooding
        then (if echoed (codes "m") node_a false false some_calls
            then some duplicate_neighbor
            else none)
        else (if text_eq duplicate_aware_flooding idontwant_flooding
              && asked (codes "m") node_a some_calls
            then some idontwant
            else none))
begin_forwarding_reasons_example =
    begin_forwarding_reasons duplicate_aware_flooding some_calls (codes "m") node_a flooding_name

abbrev both_queued : EdgeSender
both_queued = record idle {
  data_queue = a_queued ∷ [];
  control_queue = record { frame = new_idontwant_frame a_message; enqueued_at = 2 } ∷ [];
}

dequeue_priority_example :
    let whole = both_queued.control_queue ++ both_queued.data_queue in
    let s' = (dequeue both_queued).0 in
    ((dequeue both_queued).1 ≡ first whole) × (s'.control_queue ++ s'.data_queue ≡ rest whole)
dequeue_priority_example = dequeue_priority both_queued
