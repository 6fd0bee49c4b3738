-- ===== src/Metrics/Aggregate/Totals.antt =====
-- The totals of the summary are the counts over all events.
use peerkit.Prelude.{ℕ, ◌≡◌, refl, Option, List, arith}
use peerkit.Float.{FloatOps}
use peerkit.Metrics.Event.{
  Event, message_sent, message_dropped, message_suppressed, control_sent, control_received,
  control_dropped,
}
use peerkit.Metrics.Aggregate.{
  MessageSummary, RunSummary, ok, summarize, add_row, average, aggregate,
}
use peerkit.Metrics.Aggregate.Tally.{of_type, of_duplicate, bytes_of, update-IsTallied}
use peerkit.Metrics.Aggregate.Sums.{events_of, sum_of, IsFigure, figure-aggregate}

-- Each total of a summary, as a count over the events.
pub record IsTotal {F : Type 0} (es : List Event) (s : RunSummary F) : Type 0 where
  pub sent : s.total_transmissions ≡ sum_of (of_type message_sent) es
  pub repeated : s.total_duplicates ≡ sum_of of_duplicate es
  pub dropped : s.total_drops ≡ sum_of (of_type message_dropped) es
  pub suppressed : s.total_suppressions ≡ sum_of (of_type message_suppressed) es
  pub notices : s.total_control_sent ≡ sum_of (of_type control_sent) es
  pub notices_heard : s.total_control_received ≡ sum_of (of_type control_received) es
  pub notices_dropped : s.total_control_drops ≡ sum_of (of_type control_dropped) es
  pub notice_bytes : s.total_control_bytes_sent ≡ sum_of bytes_of es

module _ {F : Type 0} ⦃fl : FloatOps F⦄ where
  sent-IsFigure :
      IsFigure {F = F} (λ a. a.transmissions) (of_type message_sent) (λ s. s.total_transmissions)
  unfolding summarize add_row average
  sent-IsFigure = record {
    row = λ x. x.transmissions;
    starts = refl;
    adds = λ e a. (update-IsTallied e a).sent;
    shown = λ n id a. refl;
    empty = λ t k n. refl;
    summed = λ s x. refl;
    averaged = λ s k. ground arith;
  }

  repeated-IsFigure : IsFigure {F = F} (λ a. a.duplicates) of_duplicate (λ s. s.total_duplicates)
  unfolding summarize add_row average
  repeated-IsFigure = record {
    row = λ x. x.duplicates;
    starts = refl;
    adds = λ e a. (update-IsTallied e a).repeated;
    shown = λ n id a. refl;
    empty = λ t k n. refl;
    summed = λ s x. refl;
    averaged = λ s k. ground arith;
  }

  dropped-IsFigure : IsFigure {F = F} (λ a. a.drops) (of_type message_dropped) (λ s. s.total_drops)
  unfolding summarize add_row average
  dropped-IsFigure = record {
    row = λ x. x.drops;
    starts = refl;
    adds = λ e a. (update-IsTallied e a).dropped;
    shown = λ n id a. refl;
    empty = λ t k n. refl;
    summed = λ s x. refl;
    averaged = λ s k. ground arith;
  }

  suppressed-IsFigure :
      IsFigure {F = F}
        (λ a. a.suppressions)
        (of_type message_suppressed)
        (λ s. s.total_suppressions)
  unfolding summarize add_row average
  suppressed-IsFigure = record {
    row = λ x. x.suppressions;
    starts = refl;
    adds = λ e a. (update-IsTallied e a).suppressed;
    shown = λ n id a. refl;
    empty = λ t k n. refl;
    summed = λ s x. refl;
    averaged = λ s k. ground arith;
  }

  notices-IsFigure :
      IsFigure {F = F} (λ a. a.control_sent) (of_type control_sent) (λ s. s.total_control_sent)
  unfolding summarize add_row average
  notices-IsFigure = record {
    row = λ x. x.control_sent;
    starts = refl;
    adds = λ e a. (update-IsTallied e a).notices;
    shown = λ n id a. refl;
    empty = λ t k n. refl;
    summed = λ s x. refl;
    averaged = λ s k. ground arith;
  }

  notices_heard-IsFigure :
      IsFigure {F = F}
        (λ a. a.control_recv)
        (of_type control_received)
        (λ s. s.total_control_received)
  unfolding summarize add_row average
  notices_heard-IsFigure = record {
    row = λ x. x.control_received;
    starts = refl;
    adds = λ e a. (update-IsTallied e a).notices_heard;
    shown = λ n id a. refl;
    empty = λ t k n. refl;
    summed = λ s x. refl;
    averaged = λ s k. ground arith;
  }

  notices_dropped-IsFigure :
      IsFigure {F = F} (λ a. a.control_drops) (of_type control_dropped) (λ s. s.total_control_drops)
  unfolding summarize add_row average
  notices_dropped-IsFigure = record {
    row = λ x. x.control_drops;
    starts = refl;
    adds = λ e a. (update-IsTallied e a).notices_dropped;
    shown = λ n id a. refl;
    empty = λ t k n. refl;
    summed = λ s x. refl;
    averaged = λ s k. ground arith;
  }

  notice_bytes-IsFigure :
      IsFigure {F = F} (λ a. a.control_bytes) bytes_of (λ s. s.total_control_bytes_sent)
  unfolding summarize add_row average
  notice_bytes-IsFigure = record {
    row = λ x. x.control_bytes_sent;
    starts = refl;
    adds = λ e a. (update-IsTallied e a).notice_bytes;
    shown = λ n id a. refl;
    empty = λ t k n. refl;
    summed = λ s x. refl;
    averaged = λ s k. ground arith;
  }

  -- The totals of a summary are the counts over all events of all logs that name a message:
  -- transmissions, duplicates, drops and suppressions of messages, and the control frames that were
  -- sent (with their bytes), received and dropped.
  pub aggregate-IsTotal :
      (files : List (List (Option Event))) (n : ℕ) (rows : List (MessageSummary F))
      (s : RunSummary F)
      → aggregate files n ≡ ok rows s
      → IsTotal (events_of files) s
  aggregate-IsTotal files n rows s e = record {
    sent = figure-aggregate _ _ _ sent-IsFigure files n rows s e;
    repeated = figure-aggregate _ _ _ repeated-IsFigure files n rows s e;
    dropped = figure-aggregate _ _ _ dropped-IsFigure files n rows s e;
    suppressed = figure-aggregate _ _ _ suppressed-IsFigure files n rows s e;
    notices = figure-aggregate _ _ _ notices-IsFigure files n rows s e;
    notices_heard = figure-aggregate _ _ _ notices_heard-IsFigure files n rows s e;
    notices_dropped = figure-aggregate _ _ _ notices_dropped-IsFigure files n rows s e;
    notice_bytes = figure-aggregate _ _ _ notice_bytes-IsFigure files n rows s e;
  }
