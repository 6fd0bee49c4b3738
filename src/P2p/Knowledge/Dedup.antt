-- ===== src/P2p/Knowledge/Dedup.antt =====
-- A message counts as new at most once, whatever the order of the calls.
use peerkit.Prelude.{
  ℕ, ◌+◌, ◌≤◌, ◌≡◌, refl, ap, true, ◌||◌, ◌&&◌, not, List, [], ◌∷◌, Text, text_key, text_eq,
  text_eq_iff, contains, contains-insert, if◌then◌else◌, arith, inl, inr, ◌⊎◌,
}
use peerkit.P2p.Knowledge.{
  MessageState, set_known, register_local_message, register_received_message, register_idontwant,
  begin_forwarding,
}

-- The calls of the stream readers, the injector and the workers on the shared state.
pub data Call : Type 0 where
  local : Text → Call
  received dont_want : Text → Text → Call
  forward : Text → Call

unfoldable pub step : Text → MessageState → Call → MessageState
step protocol s (local id) = register_local_message s id
step protocol s (received id from) = (register_received_message protocol s id from).0
step protocol s (dont_want id from) = register_idontwant s id from
step protocol s (forward id) = (begin_forwarding protocol s id).0

unfoldable pub run : Text → MessageState → List Call → MessageState
run protocol s [] = s
run protocol s (c ∷ cs) = run protocol (step protocol s c) cs

-- 1 for a receipt of `id` that is reported as no duplicate.
pub fresh_receipt : Text → Text → MessageState → Call → ℕ
fresh_receipt protocol id s (received id' from) =
    if text_eq id' id && not (register_received_message protocol s id' from).1 then 1 else 0
fresh_receipt protocol id s c = 0

pub fresh_receipts : Text → Text → MessageState → List Call → ℕ
fresh_receipts protocol id s [] = 0
fresh_receipts protocol id s (c ∷ cs) =
    fresh_receipt protocol id s c + fresh_receipts protocol id (step protocol s c) cs

pub register_received_duplicate :
    (protocol : Text) (s : MessageState) (id from : Text)
    → (register_received_message protocol s id from).1 ≡ contains s.seen id
unfolding register_received_message
register_received_duplicate protocol s id from = ground arith

pub seen-register_received :
    (protocol : Text) (s : MessageState) (id from j : Text)
    → contains (register_received_message protocol s id from).0.seen j
      ≡ (text_eq id j || contains s.seen j)
unfolding register_received_message set_known
seen-register_received protocol s id from j =
    ground (arith, contains-insert s.seen id j, text_eq_iff id j, seen-eq)
  where
    seen-eq : id ≡ j → contains s.seen id ≡ contains s.seen j
    seen-eq e = ap (contains s.seen) e

-- No call forgets a message.
step-seen :
    (protocol : Text) (s : MessageState) (c : Call) (id : Text)
    → contains s.seen id ≡ true
    → contains (step protocol s c).seen id ≡ true
unfolding step register_local_message register_idontwant begin_forwarding set_known
step-seen protocol s (local j) id h = ground (arith, contains-insert s.seen j id)
step-seen protocol s (received j from) id h =
    ground (arith, seen-register_received protocol s j from id)
step-seen protocol s (dont_want j from) id h = h
step-seen protocol s (forward j) id h = h

fresh_receipt_seen :
    (protocol id : Text) (s : MessageState) (c : Call)
    → contains s.seen id ≡ true
    → fresh_receipt protocol id s c ≡ 0
unfolding fresh_receipt
fresh_receipt_seen protocol id s (local j) h = refl
fresh_receipt_seen protocol id s (received j from) h =
    ground (arith, register_received_duplicate protocol s j from, text_eq_iff j id, seen-eq)
  where
    seen-eq : j ≡ id → contains s.seen j ≡ contains s.seen id
    seen-eq e = ap (contains s.seen) e
fresh_receipt_seen protocol id s (dont_want j from) h = refl
fresh_receipt_seen protocol id s (forward j) h = refl

fresh_receipts_seen :
    (protocol id : Text) (s : MessageState) (cs : List Call)
    → contains s.seen id ≡ true
    → fresh_receipts protocol id s cs ≡ 0
unfolding fresh_receipts
fresh_receipts_seen protocol id s [] h = refl
fresh_receipts_seen protocol id s (c ∷ cs) h = omega (
  arith,
  fresh_receipt_seen protocol id s c h,
  fresh_receipts_seen protocol id (step protocol s c) cs (step-seen protocol s c id h),
)

-- A receipt that is reported as new leaves the message seen.
fresh_receipt-seen :
    (protocol id : Text) (s : MessageState) (c : Call)
    → (fresh_receipt protocol id s c ≡ 0)
      ⊎ ((fresh_receipt protocol id s c ≡ 1) × (contains (step protocol s c).seen id ≡ true))
unfolding fresh_receipt step
fresh_receipt-seen protocol id s (local j) = inl refl
fresh_receipt-seen protocol id s (received j from) =
    ground (arith, seen-register_received protocol s j from id)
fresh_receipt-seen protocol id s (dont_want j from) = inl refl
fresh_receipt-seen protocol id s (forward j) = inl refl

fresh_receipts-le-one :
    (protocol id : Text) (s : MessageState) (cs : List Call) → fresh_receipts protocol id s cs ≤ 1
unfolding fresh_receipts
fresh_receipts-le-one protocol id s [] = omega arith
fresh_receipts-le-one protocol id s (c ∷ cs) = elim (fresh_receipt-seen protocol id s c) [
  | inl e ↦ omega (arith, fresh_receipts-le-one protocol id (step protocol s c) cs)
  | inr (e, seen) ↦ omega (arith, fresh_receipts_seen protocol id (step protocol s c) cs seen)
]

-- Over any sequence of calls, from any state, at most one receipt of a message is reported as new,
-- and none if the message was seen before.
pub fresh_receipts_bound :
    (protocol id : Text) (s : MessageState) (cs : List Call)
    → fresh_receipts protocol id s cs ≤ (if contains s.seen id then 0 else 1)
fresh_receipts_bound protocol id s cs =
    ground (arith, fresh_receipts-le-one protocol id s cs, fresh_receipts_seen protocol id s cs)
