-- ===== src/Examples/Reports.antt =====
-- The theorem on the aggregation of results, applied.
use peerkit.Prelude.{ℕ, ◌≡◌, refl, true, Option, some, List, [], ◌∷◌, Text, codes}
use peerkit.Float.{thousandths}
use peerkit.Metrics.Event.{
  Event, event_of, message_created, message_received, message_sent, control_sent,
}
use peerkit.Metrics.Aggregate.{
  read_files, read_events, MessageSummary, RunSummary, Aggregated, ok, err, empty_summary,
  aggregate,
}
use peerkit.Metrics.Aggregate.Sums.{events_of}
use peerkit.Metrics.Aggregate.Totals.{IsTotal, aggregate-IsTotal}

-- An event of a node at a time, about the message "m".
abbrev about : Text → Text → ℕ → Event
about type node time = record (event_of type) {
  message_id = codes "m";
  node = node;
  timestamp_ns = time;
}

abbrev logs : List (List (Option Event))
logs =
    (some (about message_created (codes "x") 5)
      ∷ some (about message_sent (codes "x") 7)
      ∷ some (record (about control_sent (codes "x") 8) { control_bytes = 40 })
      ∷ [])
    ∷ (some (about message_received (codes "y") 9)
        ∷ some (record (about message_received (codes "y") 10) { duplicate = true })
        ∷ [])
    ∷ []

abbrev rows_of : Aggregated ℕ → List (MessageSummary ℕ)
rows_of (ok rows s) = rows
rows_of (err e) = []

abbrev summary_of : Aggregated ℕ → RunSummary ℕ
summary_of (ok rows s) = s
summary_of (err e) = empty_summary [] 0 0

logs_aggregated :
    aggregate {F = ℕ} logs 3 ≡ ok (rows_of (aggregate logs 3)) (summary_of (aggregate logs 3))
unfolding aggregate read_files read_events
logs_aggregated = refl

aggregate-IsTotal_example : IsTotal (events_of logs) (summary_of (aggregate logs 3))
aggregate-IsTotal_example = aggregate-IsTotal logs 3 _ _ logs_aggregated
