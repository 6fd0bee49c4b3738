-- ===== src/Metrics/Aggregate/Sums.antt =====
-- A count that is kept for each message, in its row and in the summary, is a sum over the events.
use peerkit.Prelude.{
  ℕ, ◌+◌, ◌≡◌, refl, Option, none, some, List, [], ◌∷◌, ◌++◌, map, Text, text_key, text_eq, lookup,
  store, length, if◌then◌else◌, arith, Bool-cases, inl, inr,
}
use peerkit.Float.{FloatOps}
use peerkit.Metrics.Event.{Event}
use peerkit.Metrics.Aggregate.{
  MessageAccumulator, new_accumulator, update, Messages, or_new_accumulator, Reading, consume,
  read_events, read_files, MessageSummary, RunSummary, ok, summarize, insert_row, sort_rows,
  add_row, add_rows, average, empty_summary, report, aggregate,
}

-- The events of the lines that can be read.
unfoldable pub events_in : List (Option Event) → List Event
events_in [] = []
events_in (none ∷ lines) = events_in lines
events_in (some e ∷ lines) = e ∷ events_in lines

unfoldable pub events_of : List (List (Option Event)) → List Event
events_of [] = []
events_of (file ∷ files) = events_in file ++ events_of files

-- The sum of a weight over the events that name a message.
unfoldable pub sum_of : (Event → ℕ) → List Event → ℕ
sum_of w [] = 0
sum_of w (e ∷ es) = (if text_eq e.message_id [] then 0 else w e) + sum_of w es

sum_of-append :
    (w : Event → ℕ) (es fs : List Event) → sum_of w (es ++ fs) ≡ sum_of w es + sum_of w fs
unfolding sum_of
sum_of-append w [] fs = omega arith
sum_of-append w (e ∷ es) fs = omega (arith, sum_of-append w es fs)

total : (MessageAccumulator → ℕ) → Messages → ℕ
total f [] = 0
total f ((id, a) ∷ m) = f a + total f m

module _ (f : MessageAccumulator → ℕ) where
  total-store :
      (m : Messages) (id : Text) (v : MessageAccumulator)
      → f new_accumulator ≡ 0
      → total f (store m id v) + f (or_new_accumulator (lookup m id)) ≡ total f m + f v
  unfolding total store lookup
  total-store [] id v z = omega (arith, z)
  total-store ((j, a) ∷ m) id v z = elim (Bool-cases (text_eq j id)) [
    | inl e ↦ rw (e, store, lookup) (omega arith)
    | inr e ↦ rw (e, store, lookup) (omega (arith, total-store m id v z))
  ]

  module _ (w : Event → ℕ) (z : f new_accumulator ≡ 0)
      (law : (e : Event) (a : MessageAccumulator) → f (update e a) ≡ f a + w e) where
    total-consume :
        (e : Event) (r : Reading)
        → total f (consume e r).messages
          ≡ total f r.messages + (if text_eq e.message_id [] then 0 else w e)
    unfolding consume
    total-consume e r = elim (Bool-cases (text_eq e.message_id [])) [
      | inl h ↦ rw (h, consume) (omega arith)
      | inr h ↦
          let a = or_new_accumulator (lookup r.messages e.message_id) in
          rw (h, consume)
            (omega (arith, total-store r.messages e.message_id (update e a) z, law e a))
    ]

    total-read_events :
        (lines : List (Option Event)) (r s : Reading)
        → read_events lines r ≡ some s
        → total f s.messages ≡ total f r.messages + sum_of w (events_in lines)
    unfolding read_events events_in sum_of
    total-read_events [] r s h =
        let q : total f r.messages ≡ total f s.messages = cc h in omega (arith, q)
    total-read_events (none ∷ lines) r s h = cc h
    total-read_events (some e ∷ lines) r s h =
        omega (arith, total-read_events lines (consume e r) s h, total-consume e r)

    total-read_files :
        (files : List (List (Option Event))) (r s : Reading)
        → read_files files r ≡ some s
        → total f s.messages ≡ total f r.messages + sum_of w (events_of files)
    unfolding read_files events_of sum_of
    total-read_files [] r s h =
        let q : total f r.messages ≡ total f s.messages = cc h in omega (arith, q)
    total-read_files (file ∷ files) r s h =
        after (λ r' k. total-read_files files r' s k) (read_events file r) refl h
      where
        after :
            ((r' : Reading)
              → read_files files r' ≡ some s
              → total f s.messages ≡ total f r'.messages + sum_of w (events_of files))
            → (o : Option Reading) → read_events file r ≡ o
            → elim o [ none ↦ none | some r' ↦ read_files files r' ] ≡ some s
            → total f s.messages ≡ total f r.messages + sum_of w (events_of (file ∷ files))
        after rest none e k = cc k
        after rest (some r') e k = omega (
          arith,
          rest r' k,
          total-read_events file r r' e,
          sum_of-append w (events_in file) (events_of files),
        )

module _ {F : Type 0} ⦃fl : FloatOps F⦄ (g : MessageSummary F → ℕ) where
  sum_rows : List (MessageSummary F) → ℕ
  sum_rows [] = 0
  sum_rows (x ∷ xs) = g x + sum_rows xs

  sum_rows-insert_row :
      (x : MessageSummary F) (xs : List (MessageSummary F))
      → sum_rows (insert_row x xs) ≡ g x + sum_rows xs
  unfolding sum_rows insert_row
  sum_rows-insert_row x [] = refl
  sum_rows-insert_row x (y ∷ ys) = ground (arith, sum_rows-insert_row x ys)

  sum_rows-sort_rows : (xs : List (MessageSummary F)) → sum_rows (sort_rows xs) ≡ sum_rows xs
  unfolding sum_rows sort_rows
  sum_rows-sort_rows [] = refl
  sum_rows-sort_rows (x ∷ xs) =
      omega (arith, sum_rows-sort_rows xs, sum_rows-insert_row x (sort_rows xs))

  module _ (n : ℕ) (f : MessageAccumulator → ℕ)
      (same : (id : Text) (a : MessageAccumulator) → g (summarize n (id, a)) ≡ f a) where
    sum_rows-summarize : (m : Messages) → sum_rows (map (summarize n) m) ≡ total f m
    unfolding sum_rows total
    sum_rows-summarize [] = refl
    sum_rows-summarize ((id, a) ∷ m) = omega (arith, sum_rows-summarize m, same id a)

  module _ (h : RunSummary F → ℕ)
      (step : (s : RunSummary F) (x : MessageSummary F) → h (add_row s x) ≡ h s + g x) where
    figure-add_rows :
        (s : RunSummary F) (xs : List (MessageSummary F)) → h (add_rows s xs) ≡ h s + sum_rows xs
    unfolding add_rows sum_rows
    figure-add_rows s [] = omega arith
    figure-add_rows s (x ∷ xs) = omega (arith, figure-add_rows (add_row s x) xs, step s x)

-- A count that is kept for each message, shown in its row and added up in the summary.
pub record IsFigure {F : Type 0} ⦃fl : FloatOps F⦄ (f : MessageAccumulator → ℕ) (w : Event → ℕ)
    (h : RunSummary F → ℕ) : Type 0 where
  pub row : MessageSummary F → ℕ
  pub starts : f new_accumulator ≡ 0
  pub adds : (e : Event) (a : MessageAccumulator) → f (update e a) ≡ f a + w e
  pub shown : (n : ℕ) (id : Text) (a : MessageAccumulator) → row (summarize n (id, a)) ≡ f a
  pub empty : (t : Text) (k n : ℕ) → h (empty_summary t k n) ≡ 0
  pub summed : (s : RunSummary F) (x : MessageSummary F) → h (add_row s x) ≡ h s + row x
  pub averaged : (s : RunSummary F) (k : ℕ) → h (average s k) ≡ h s

module _ {F : Type 0} ⦃fl : FloatOps F⦄ (f : MessageAccumulator → ℕ) (w : Event → ℕ)
    (h : RunSummary F → ℕ) (i : IsFigure f w h) where
  figure-report :
      (n : ℕ) (r : Reading) (rows : List (MessageSummary F)) (s : RunSummary F)
      → report n (some r) ≡ ok rows s
      → h s ≡ total f r.messages
  unfolding report
  figure-report n r rows s e =
      let xs = map (summarize n) r.messages in
      let start = empty_summary r.protocol (length (sort_rows xs)) n in
      let q : h (average (add_rows start (sort_rows xs)) (length (sort_rows xs))) ≡ h s = cc e in
      omega (
        arith,
        q,
        i.averaged (add_rows start (sort_rows xs)) (length (sort_rows xs)),
        figure-add_rows i.row h i.summed start (sort_rows xs),
        i.empty r.protocol (length (sort_rows xs)) n,
        sum_rows-sort_rows i.row xs,
        sum_rows-summarize i.row n f (i.shown n) r.messages,
      )

  pub figure-aggregate :
      (files : List (List (Option Event))) (n : ℕ) (rows : List (MessageSummary F))
      (s : RunSummary F)
      → aggregate files n ≡ ok rows s
      → h s ≡ sum_of w (events_of files)
  unfolding aggregate report total
  figure-aggregate [] n rows s e = cc e
  figure-aggregate (file ∷ files) n rows s e = after (read_files (file ∷ files) start) refl e
    where
      start : Reading
      start = record { messages = []; protocol = [] }

      after :
          (o : Option Reading)
          → read_files (file ∷ files) start ≡ o
          → report n o ≡ ok rows s
          → h s ≡ sum_of w (events_of (file ∷ files))
      after none q k = cc k
      after (some r) q k = omega (
        arith,
        figure-report n r rows s k,
        total-read_files f w i.starts i.adds (file ∷ files) start r q,
      )
