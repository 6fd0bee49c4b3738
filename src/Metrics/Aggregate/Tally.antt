-- ===== src/Metrics/Aggregate/Tally.antt =====
-- What one event adds to the counts of its message.
use peerkit.Prelude.{
  ℕ, ◌+◌, ◌≡◌, sym, subst, Bool, false, not, ◌&&◌, ◌||◌, Text, text_key, text_eq, text_eq_iff,
  insert, if◌then◌else◌, arith, Bool-cases, inl, inr,
}
use peerkit.Metrics.Event.{
  Event, message_created, message_received, message_sent, message_dropped, message_suppressed,
  control_sent, control_received, control_dropped,
}
use peerkit.Metrics.Aggregate.{MessageAccumulator, receive, update}

-- One for an event of the type.
unfoldable pub of_type : Text → Event → ℕ
of_type name e = if text_eq e.type name then 1 else 0

unfoldable pub of_duplicate : Event → ℕ
of_duplicate e = if text_eq e.type message_received && e.duplicate then 1 else 0

unfoldable pub bytes_of : Event → ℕ
bytes_of e = if text_eq e.type control_sent then e.control_bytes else 0

-- The message is new to the node of the event.
unfoldable pub is_arrival : Event → Bool
is_arrival e =
    text_eq e.type message_created || (text_eq e.type message_received && not e.duplicate)

-- What an event changes, in each count.
pub record IsTallied (e : Event) (a b : MessageAccumulator) : Type 0 where
  pub sent : b.transmissions ≡ a.transmissions + of_type message_sent e
  pub repeated : b.duplicates ≡ a.duplicates + of_duplicate e
  pub dropped : b.drops ≡ a.drops + of_type message_dropped e
  pub suppressed : b.suppressions ≡ a.suppressions + of_type message_suppressed e
  pub notices : b.control_sent ≡ a.control_sent + of_type control_sent e
  pub notices_heard : b.control_recv ≡ a.control_recv + of_type control_received e
  pub notices_dropped : b.control_drops ≡ a.control_drops + of_type control_dropped e
  pub notice_bytes : b.control_bytes ≡ a.control_bytes + bytes_of e
  pub arrived : b.reached ≡ (if is_arrival e then insert a.reached e.node else a.reached)

module _ (e : Event) (a : MessageAccumulator) where
  abbrev typed : Text → Event
  typed t = record e { type = t }

  abbrev Holds : Text → Type 0
  Holds t = IsTallied (typed t) a (update (typed t) a)

  -- One proof for each case of the switch.
  created-IsTallied : Holds message_created
  unfolding update of_type of_duplicate bytes_of is_arrival text_eq
  created-IsTallied = ground arith

  received-IsTallied : Holds message_received
  unfolding update receive of_type of_duplicate bytes_of is_arrival text_eq
  received-IsTallied = ground arith

  sent-IsTallied : Holds message_sent
  unfolding update of_type of_duplicate bytes_of is_arrival text_eq
  sent-IsTallied = ground arith

  dropped-IsTallied : Holds message_dropped
  unfolding update of_type of_duplicate bytes_of is_arrival text_eq
  dropped-IsTallied = ground arith

  suppressed-IsTallied : Holds message_suppressed
  unfolding update of_type of_duplicate bytes_of is_arrival text_eq
  suppressed-IsTallied = ground arith

  notice-IsTallied : Holds control_sent
  unfolding update of_type of_duplicate bytes_of is_arrival text_eq
  notice-IsTallied = ground arith

  heard-IsTallied : Holds control_received
  unfolding update of_type of_duplicate bytes_of is_arrival text_eq
  heard-IsTallied = ground arith

  lost-IsTallied : Holds control_dropped
  unfolding update of_type of_duplicate bytes_of is_arrival text_eq
  lost-IsTallied = ground arith

  -- The event has this type, or goes on to the next case.
  case_of : (name : Text) → Holds name → (text_eq e.type name ≡ false → Holds e.type) → Holds e.type
  case_of name h rest = elim (Bool-cases (text_eq e.type name)) [
    | inl m ↦ subst Holds (sym ((text_eq_iff e.type name).0 m)) h
    | inr m ↦ rest m
  ]

  pub update-IsTallied : IsTallied e a (update e a)
  unfolding update of_type of_duplicate bytes_of is_arrival
  update-IsTallied = case_of message_created created-IsTallied λ h1.
      case_of message_received received-IsTallied λ h2. case_of message_sent sent-IsTallied λ h3.
        case_of message_dropped dropped-IsTallied λ h4.
          case_of message_suppressed suppressed-IsTallied λ h5.
            case_of control_sent notice-IsTallied λ h6.
              case_of control_received heard-IsTallied
                λ h7. case_of control_dropped lost-IsTallied λ h8. ground arith
