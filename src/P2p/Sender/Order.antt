-- ===== src/P2p/Sender/Order.antt =====
-- Bounds, priority and order of the two queues, over any sequence of calls.
use peerkit.Prelude.{
  ℕ, ◌≤◌, ◌≡◌, refl, inl, inr, Bool, true, false, Option, none, some, List, [], ◌∷◌, ◌++◌, Text,
  length, length-append, All, All-append, text_eq, arith, List-cases, if◌then◌else◌, subst,
}
use mathlib.Core.List.{append_assoc, append-nil}
use peerkit.P2p.Wire.{frame_type_data}
use peerkit.P2p.Sender.{OutboundItem, EdgeSender, enqueue, dequeue, dequeue_control}

abbrev pub IsData : OutboundItem → Type 0
IsData i = text_eq i.frame.type frame_type_data ≡ true

abbrev pub IsControl : OutboundItem → Type 0
IsControl i = text_eq i.frame.type frame_type_data ≡ false

-- Neither queue is longer than the capacity, and each holds frames of its own kind.
pub record IsValid (s : EdgeSender) : Type 0 where
  pub data_bound : length s.data_queue ≤ s.queue_capacity
  pub control_bound : length s.control_queue ≤ s.queue_capacity
  pub data_kind : All IsData s.data_queue
  pub control_kind : All IsControl s.control_queue

-- The calls of the goroutines that share a sender.
pub data Call : Type 0 where
  put_data : (i : OutboundItem) → IsData i → Call
  put_control : (i : OutboundItem) → IsControl i → Call
  get : Call

-- A sender with the history of what it took and gave.
pub record Trace : Type 0 where
  pub sender : EdgeSender
  pub accepted : List OutboundItem
  pub given : List OutboundItem

after_put : Trace → OutboundItem → EdgeSender × Bool → Trace
after_put t i (s, done) = record t {
  sender = s;
  accepted = if done then t.accepted ++ i ∷ [] else t.accepted;
}

after_get : Trace → EdgeSender × Option OutboundItem → Trace
after_get t (s, none) = record t { sender = s }
after_get t (s, some i) = record t { sender = s; given = t.given ++ i ∷ [] }

pub step : Trace → Call → Trace
unfolding after_put after_get
step t (put_data i k) = after_put t i (enqueue t.sender i false)
step t (put_control i k) = after_put t i (enqueue t.sender i true)
step t get = after_get t (dequeue t.sender)

pub run : Trace → List Call → Trace
run t [] = t
run t (c ∷ cs) = run (step t c) cs

-- The items of one kind, in order.
pub of_kind : Bool → List OutboundItem → List OutboundItem
of_kind b [] = []
of_kind b (i ∷ is) =
    if text_eq i.frame.type frame_type_data
    then (if b then i ∷ of_kind b is else of_kind b is)
    else (if b then of_kind b is else i ∷ of_kind b is)

of_kind-append :
    (b : Bool) (xs ys : List OutboundItem) → of_kind b (xs ++ ys) ≡ of_kind b xs ++ of_kind b ys
unfolding of_kind
of_kind-append b [] ys = refl
of_kind-append b (x ∷ xs) ys = ground (arith, of_kind-append b xs ys)

enqueue_data-IsValid :
    (s : EdgeSender) (i : OutboundItem) → IsData i → IsValid s → IsValid (enqueue s i false).0
unfolding enqueue
enqueue_data-IsValid s i k v =
    ground (arith, length-append s.data_queue (i ∷ []), All-append IsData s.data_queue (i ∷ []))

enqueue_control-IsValid :
    (s : EdgeSender) (i : OutboundItem) → IsControl i → IsValid s → IsValid (enqueue s i true).0
unfolding enqueue
enqueue_control-IsValid s i k v =
    ground
      (arith, length-append s.control_queue (i ∷ []), All-append IsControl s.control_queue (i ∷ []))

dequeue-IsValid : (s : EdgeSender) → IsValid s → IsValid (dequeue s).0
unfolding dequeue
dequeue-IsValid s v = ground arith

-- Of each kind, what was taken is what was given and then what is still queued, in one order.
pub record InOrder (t : Trace) : Type 0 where
  pub valid : IsValid t.sender
  pub data_order : of_kind true t.accepted ≡ of_kind true t.given ++ t.sender.data_queue
  pub control_order : of_kind false t.accepted ≡ of_kind false t.given ++ t.sender.control_queue

one_data :
    (b : Bool) (i : OutboundItem) → IsData i → of_kind b (i ∷ []) ≡ (if b then i ∷ [] else [])
unfolding of_kind
one_data b i k = ground arith

one_control :
    (b : Bool) (i : OutboundItem) → IsControl i → of_kind b (i ∷ []) ≡ (if b then [] else i ∷ [])
unfolding of_kind
one_control b i k = ground arith

put_data-InOrder :
    (t : Trace) (i : OutboundItem) (k : IsData i) → InOrder t → InOrder (step t (put_data i k))
unfolding step enqueue
put_data-InOrder t i k v = record {
  valid = enqueue_data-IsValid t.sender i k v.valid;
  data_order = ground (
    arith,
    of_kind-append true t.accepted (i ∷ []),
    one_data true i k,
    append_assoc (of_kind true t.given) t.sender.data_queue (i ∷ []),
  );
  control_order = ground (
    arith,
    of_kind-append false t.accepted (i ∷ []),
    one_data false i k,
    append-nil (of_kind false t.accepted),
  );
}

put_control-InOrder :
    (t : Trace) (i : OutboundItem) (k : IsControl i)
    → InOrder t
    → InOrder (step t (put_control i k))
unfolding step enqueue
put_control-InOrder t i k v = record {
  valid = enqueue_control-IsValid t.sender i k v.valid;
  data_order = ground (
    arith,
    of_kind-append true t.accepted (i ∷ []),
    one_control true i k,
    append-nil (of_kind true t.accepted),
  );
  control_order = ground (
    arith,
    of_kind-append false t.accepted (i ∷ []),
    one_control false i k,
    append_assoc (of_kind false t.given) t.sender.control_queue (i ∷ []),
  );
}

All-head :
    (P : OutboundItem → Type 0) {i : OutboundItem} {q rest : List OutboundItem}
    → q ≡ i ∷ rest
    → All P q
    → P i
All-head P e h = (subst (All P) e h).0

get_control-InOrder :
    (t : Trace) (i : OutboundItem) (rest : List OutboundItem)
    → t.sender.control_queue ≡ i ∷ rest
    → InOrder t
    → InOrder (step t get)
unfolding step dequeue
get_control-InOrder t i rest e v =
    let k = All-head IsControl e v.valid.control_kind in
    record {
      valid = ground (arith, dequeue-IsValid t.sender v.valid);
      data_order = ground (
        arith,
        of_kind-append true t.given (i ∷ []),
        one_control true i k,
        append-nil (of_kind true t.given),
      );
      control_order = ground (
        arith,
        of_kind-append false t.given (i ∷ []),
        one_control false i k,
        append_assoc (of_kind false t.given) (i ∷ []) rest,
      );
    }

get_data-InOrder :
    (t : Trace) (i : OutboundItem) (rest : List OutboundItem)
    → t.sender.control_queue ≡ []
    → t.sender.data_queue ≡ i ∷ rest
    → InOrder t
    → InOrder (step t get)
unfolding step dequeue
get_data-InOrder t i rest e e' v =
    let k = All-head IsData e' v.valid.data_kind in
    record {
      valid = ground (arith, dequeue-IsValid t.sender v.valid);
      data_order = ground (
        arith,
        of_kind-append true t.given (i ∷ []),
        one_data true i k,
        append_assoc (of_kind true t.given) (i ∷ []) rest,
      );
      control_order = ground (
        arith,
        of_kind-append false t.given (i ∷ []),
        one_data false i k,
        append-nil (of_kind false t.given),
      );
    }

get_nothing-InOrder :
    (t : Trace)
    → t.sender.control_queue ≡ []
    → t.sender.data_queue ≡ []
    → InOrder t
    → InOrder (step t get)
unfolding step dequeue
get_nothing-InOrder t e e' v = record {
  valid = ground (arith, dequeue-IsValid t.sender v.valid);
  data_order = ground (arith, v.data_order);
  control_order = ground (arith, v.control_order);
}

step-InOrder : (t : Trace) (c : Call) → InOrder t → InOrder (step t c)
step-InOrder t (put_data i k) v = put_data-InOrder t i k v
step-InOrder t (put_control i k) v = put_control-InOrder t i k v
step-InOrder t get v = elim (List-cases t.sender.control_queue) [
  | inr (i, rest, e) ↦ get_control-InOrder t i rest e v
  | inl e ↦ elim (List-cases t.sender.data_queue) [
    | inl e' ↦ get_nothing-InOrder t e e' v
    | inr (i, rest, e') ↦ get_data-InOrder t i rest e e' v
  ]
]

run-InOrder : (t : Trace) (cs : List Call) → InOrder t → InOrder (run t cs)
unfolding run
run-InOrder t [] v = v
run-InOrder t (c ∷ cs) v = run-InOrder (step t c) cs (step-InOrder t c v)

-- A new sender, whose queues are nil.
abbrev pub new_sender : Text → ℕ → EdgeSender
new_sender node capacity = record {
  node_id = node;
  queue_capacity = capacity;
  data_queue = [];
  control_queue = [];
  wake = false;
}

abbrev pub fresh : EdgeSender → Trace
fresh s = record { sender = s; accepted = []; given = [] }

fresh-InOrder : (node : Text) (capacity : ℕ) → InOrder (fresh (new_sender node capacity))
unfolding of_kind
fresh-InOrder node capacity = record {
  valid = omega arith;
  data_order = refl;
  control_order = refl;
}

-- Over any sequence of enqueues and dequeues on a new sender, neither queue passes the capacity, and
-- the accepted frames of each kind (data, control) are the dequeued ones of that kind followed by the
-- queued ones, in order: nothing accepted is lost, repeated or overtaken by its own kind.
pub run_order :
    (node : Text) (capacity : ℕ) (cs : List Call)
    → InOrder (run (fresh (new_sender node capacity)) cs)
run_order node capacity cs = run-InOrder _ cs (fresh-InOrder node capacity)

abbrev pub first : List OutboundItem → Option OutboundItem
first [] = none
first (i ∷ is) = some i

abbrev pub rest : List OutboundItem → List OutboundItem
rest [] = []
rest (i ∷ is) = is

-- A dequeue treats the two queues as one, with the control frames in front: it gives the first frame,
-- or nothing if there is none, and leaves the others in order.
pub dequeue_priority :
    (s : EdgeSender)
    → let whole = s.control_queue ++ s.data_queue in
      let s' = (dequeue s).0 in
      ((dequeue s).1 ≡ first whole) × (s'.control_queue ++ s'.data_queue ≡ rest whole)
unfolding dequeue
dequeue_priority s = elim (List-cases s.control_queue) [
  | inr (i, is, e) ↦ rw (e, dequeue_control) (refl, refl)
  | inl e ↦ elim (List-cases s.data_queue) [
    | inr (i, is, e') ↦ ground arith
    | inl e' ↦ ground arith
  ]
]
