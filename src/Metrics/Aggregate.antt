-- ===== src/Metrics/Aggregate.antt =====
-- internal/metrics/aggregate.go: the event logs of the peers become one row for each message and a
-- summary of the run. A log file is the list of its lines, `none` for one that cannot be read or
-- decoded; the two result files, which hold what `aggregate` returns, are output.
pub mod Tally
pub mod Sums
pub mod Totals
use peerkit.Prelude.{
  ℕ, ◌+◌, ◌-◌, Bool, true, false, not, ◌&&◌, ◌||◌, Option, none, some, List, [], ◌∷◌, ◌++◌, map,
  Text, text_key, text_eq, text_leb, insert, lookup, store, length, ltb, leb, ◌==◌, if◌then◌else◌,
}
use peerkit.Float.{FloatOps}
use peerkit.Metrics.Event.{
  Event, message_created, message_received, message_sent, message_dropped, message_suppressed,
  control_sent, control_received, control_dropped,
}

pub record MessageAccumulator : Type 0 where
  pub origin : Text
  pub created_at : ℕ
  pub last_unique_at : ℕ
  pub reached : List Text
  pub transmissions : ℕ
  pub duplicates : ℕ
  pub drops : ℕ
  pub suppressions : ℕ
  pub control_sent : ℕ
  pub control_recv : ℕ
  pub control_drops : ℕ
  pub control_bytes : ℕ

abbrev pub new_accumulator : MessageAccumulator
new_accumulator = record {
  origin = [];
  created_at = 0;
  last_unique_at = 0;
  reached = [];
  transmissions = 0;
  duplicates = 0;
  drops = 0;
  suppressions = 0;
  control_sent = 0;
  control_recv = 0;
  control_drops = 0;
  control_bytes = 0;
}

-- The case message_received.
unfoldable pub receive : Event → MessageAccumulator → MessageAccumulator
receive e a = if e.duplicate then record a { duplicates = a.duplicates + 1 } else record a {
  reached = insert a.reached e.node;
  last_unique_at = if ltb a.last_unique_at e.timestamp_ns then e.timestamp_ns else a.last_unique_at;
}

-- The switch on the type of an event.
unfoldable pub update : Event → MessageAccumulator → MessageAccumulator
update e a =
    if text_eq e.type message_created
    then record a {
      origin = e.origin;
      created_at = e.timestamp_ns;
      last_unique_at = e.timestamp_ns;
      reached = insert a.reached e.node;
    }
    else (if text_eq e.type message_received
        then receive e a
        else (if text_eq e.type message_sent
            then record a { transmissions = a.transmissions + 1 }
            else (if text_eq e.type message_dropped
                then record a { drops = a.drops + 1 }
                else (if text_eq e.type message_suppressed
                    then record a { suppressions = a.suppressions + 1 }
                    else (if text_eq e.type control_sent
                        then record a {
                          control_sent = a.control_sent + 1;
                          control_bytes = a.control_bytes + e.control_bytes;
                        }
                        else (if text_eq e.type control_received
                            then record a { control_recv = a.control_recv + 1 }
                            else (if text_eq e.type control_dropped
                                then record a { control_drops = a.control_drops + 1 }
                                else a)))))))

abbrev pub Messages : Type 0
Messages = List (Text × MessageAccumulator)

-- The entry of a message, a new one where there is none.
abbrev pub or_new_accumulator : Option MessageAccumulator → MessageAccumulator
or_new_accumulator none = new_accumulator
or_new_accumulator (some a) = a

-- What the callback changes.
pub record Reading : Type 0 where
  pub messages : Messages
  pub protocol : Text

unfoldable pub consume : Event → Reading → Reading
consume e r =
    let protocol =
      if text_eq r.protocol [] && not (text_eq e.protocol []) then e.protocol else r.protocol in
    if text_eq e.message_id [] then record r { protocol = protocol } else record {
      messages =
          store r.messages e.message_id
            (update e (or_new_accumulator (lookup r.messages e.message_id)));
      protocol = protocol;
    }

unfoldable pub read_events : List (Option Event) → Reading → Option Reading
read_events [] r = some r
read_events (none ∷ lines) r = none
read_events (some e ∷ lines) r = read_events lines (consume e r)

unfoldable pub read_files : List (List (Option Event)) → Reading → Option Reading
read_files [] r = some r
read_files (file ∷ files) r = elim (read_events file r) [
  | none ↦ none
  | some r' ↦ read_files files r'
]

pub record MessageSummary (F : Type 0) : Type 0 where
  pub message_id : Text
  pub origin : Text
  pub created_at_ns : ℕ
  pub last_unique_at_ns : ℕ
  pub reached_nodes : ℕ
  pub total_nodes : ℕ
  pub reachability : F
  pub completion_delay_ms : F
  pub transmissions : ℕ
  pub duplicates : ℕ
  pub drops : ℕ
  pub suppressions : ℕ
  pub control_sent : ℕ
  pub control_received : ℕ
  pub control_drops : ℕ
  pub control_bytes_sent : ℕ

pub record RunSummary (F : Type 0) : Type 0 where
  pub protocol : Text
  pub messages : ℕ
  pub nodes : ℕ
  pub average_reachability : F
  pub average_completion_delay_ms : F
  pub total_transmissions : ℕ
  pub total_duplicates : ℕ
  pub total_drops : ℕ
  pub total_suppressions : ℕ
  pub total_control_sent : ℕ
  pub total_control_received : ℕ
  pub total_control_drops : ℕ
  pub total_control_bytes_sent : ℕ

pub data AggregateError : Type 0 where
  no_files unreadable : AggregateError

pub data Aggregated (F : Type 0) : Type 0 where
  ok : List (MessageSummary F) → RunSummary F → Aggregated F
  err : AggregateError → Aggregated F

module _ {F : Type 0} ⦃fl : FloatOps F⦄ where
  unfoldable pub summarize : ℕ → Text × MessageAccumulator → MessageSummary F
  summarize node_count (id, a) = record {
    message_id = id;
    origin = a.origin;
    created_at_ns = a.created_at;
    last_unique_at_ns = a.last_unique_at;
    reached_nodes = length a.reached;
    total_nodes = node_count;
    reachability =
        if ltb 0 node_count
        then fl.div (fl.of_int (length a.reached)) (fl.of_int node_count)
        else fl.of_int 0;
    completion_delay_ms =
        if ltb 0 a.created_at && leb a.created_at a.last_unique_at
        then fl.div (fl.of_int (a.last_unique_at - a.created_at)) (fl.of_int 1000000)
        else fl.of_int 0;
    transmissions = a.transmissions;
    duplicates = a.duplicates;
    drops = a.drops;
    suppressions = a.suppressions;
    control_sent = a.control_sent;
    control_received = a.control_recv;
    control_drops = a.control_drops;
    control_bytes_sent = a.control_bytes;
  }

  -- The order of the sort: by creation, then by message. The ids are the keys of a map, so that the
  -- order has no ties.
  unfoldable pub row_before : MessageSummary F → MessageSummary F → Bool
  row_before x y =
      if x.created_at_ns == y.created_at_ns
      then not (text_leb y.message_id x.message_id)
      else ltb x.created_at_ns y.created_at_ns

  unfoldable pub insert_row : MessageSummary F → List (MessageSummary F) → List (MessageSummary F)
  insert_row x [] = x ∷ []
  insert_row x (y ∷ ys) = if row_before y x then y ∷ insert_row x ys else x ∷ y ∷ ys

  unfoldable pub sort_rows : List (MessageSummary F) → List (MessageSummary F)
  sort_rows [] = []
  sort_rows (x ∷ xs) = insert_row x (sort_rows xs)

  -- One round of the loop that adds up the rows.
  unfoldable pub add_row : RunSummary F → MessageSummary F → RunSummary F
  add_row s row = record s {
    average_reachability = fl.add s.average_reachability row.reachability;
    average_completion_delay_ms = fl.add s.average_completion_delay_ms row.completion_delay_ms;
    total_transmissions = s.total_transmissions + row.transmissions;
    total_duplicates = s.total_duplicates + row.duplicates;
    total_drops = s.total_drops + row.drops;
    total_suppressions = s.total_suppressions + row.suppressions;
    total_control_sent = s.total_control_sent + row.control_sent;
    total_control_received = s.total_control_received + row.control_received;
    total_control_drops = s.total_control_drops + row.control_drops;
    total_control_bytes_sent = s.total_control_bytes_sent + row.control_bytes_sent;
  }

  unfoldable pub add_rows : RunSummary F → List (MessageSummary F) → RunSummary F
  add_rows s [] = s
  add_rows s (row ∷ rows) = add_rows (add_row s row) rows

  unfoldable pub average : RunSummary F → ℕ → RunSummary F
  average s rows =
      if ltb 0 rows
      then record s {
        average_reachability = fl.div s.average_reachability (fl.of_int rows);
        average_completion_delay_ms = fl.div s.average_completion_delay_ms (fl.of_int rows);
      }
      else s

  abbrev pub empty_summary : Text → ℕ → ℕ → RunSummary F
  empty_summary protocol messages nodes = record {
    protocol = protocol;
    messages = messages;
    nodes = nodes;
    average_reachability = fl.of_int 0;
    average_completion_delay_ms = fl.of_int 0;
    total_transmissions = 0;
    total_duplicates = 0;
    total_drops = 0;
    total_suppressions = 0;
    total_control_sent = 0;
    total_control_received = 0;
    total_control_drops = 0;
    total_control_bytes_sent = 0;
  }

  report : ℕ → Option Reading → Aggregated F
  report node_count none = err unreadable
  report node_count (some r) =
      let rows = sort_rows (map (summarize node_count) r.messages) in
      ok rows
        (average (add_rows (empty_summary r.protocol (length rows) node_count) rows) (length rows))

  unfoldable pub aggregate : List (List (Option Event)) → ℕ → Aggregated F
  unfolding report
  aggregate [] node_count = err no_files
  aggregate (file ∷ files) node_count =
      report node_count (read_files (file ∷ files) (record { messages = []; protocol = [] }))
