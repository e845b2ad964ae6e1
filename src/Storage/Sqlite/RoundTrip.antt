-- ===== src/Storage/Sqlite/RoundTrip.antt =====
-- src/storage/sqlite.rs: what the rows of a session hold is what was saved in them.
use iotd.Prelude.{
  ℕ, ◌<◌, ◌^◌, ◌%◌, ◌≡◌, refl, Option, none, some, Bool, true, false, not, Bytes, ◌==◌, nat_eq,
  bytes_eq, arith,
}
use iotd.Storage.Types.{
  DateTime, StoredQoS, stored_qos_from_u8, stored_qos_as_u8, PersistedWillMessage, PersistedSession,
  PersistedSubscription, PersistedQos2State, qos2_state_from_u8, qos2_state_as_u8,
  PersistedInflightMessage, PersistedInboundQos2Message, PersistedRetainedMessage,
}
use iotd.Storage.Trait.{StorageResult, ok, err}
use iotd.Storage.Sqlite.Database.{upserted}
use iotd.Storage.Sqlite.Rows.{
  Chrono, SessionRow, session_row, subscription_row, inflight_row, inbound_row, retained_row,
  will_column, as_i32, state_column,
}
use iotd.Storage.Sqlite.Columns.{
  parse_datetime, session_of_row, subscription_of_row, inflight_of_row, inbound_of_row,
  retained_of_row, will_of_columns, and_then_state, get_u8, get_i32, get_optional, unwrap_qos,
}

-- A date that is printed is parsed back.
pub record IsChrono (c : Chrono) : Type 0 where
  pub parse-print : (t : DateTime) → c.parse_from_rfc3339 (c.to_rfc3339 t) ≡ some t

-- The packet identifier and the keep-alive are of type `u16`.
abbrev pub SessionFits : PersistedSession → Type 0
SessionFits s = (s.next_packet_id < 2 ^ 16) × (s.keep_alive < 2 ^ 16)

abbrev pub InflightFits : PersistedInflightMessage → Type 0
InflightFits m = (m.packet_id < 2 ^ 16) × (m.retry_count < 2 ^ 31)

abbrev pub InboundFits : PersistedInboundQos2Message → Type 0
InboundFits m = m.packet_id < 2 ^ 16

-- The date at which the session was first saved.
abbrev pub kept_created_at : Chrono → Option SessionRow → PersistedSession → StorageResult DateTime
kept_created_at c none session = ok session.created_at
kept_created_at c (some old) session = parse_datetime c old.created_at

abbrev pub with_created_at :
    PersistedSession → StorageResult DateTime → StorageResult PersistedSession
with_created_at session (ok t) = ok (record session { created_at = t })
with_created_at session (err e) = err e

module _ (c : Chrono) (h : IsChrono c) where
  parse_datetime-print : (t : DateTime) → parse_datetime c (c.to_rfc3339 t) ≡ ok t
  parse_datetime-print t = rw (parse_datetime, h.parse-print t) refl

  qos_column-back :
      (default : StoredQoS) (s : StoredQoS)
      → unwrap_qos default (stored_qos_from_u8 (stored_qos_as_u8 s)) ≡ s
  unfolding stored_qos_from_u8 stored_qos_as_u8
  qos_column-back default StoredQoS.at_most_once = refl
  qos_column-back default StoredQoS.at_least_once = refl
  qos_column-back default StoredQoS.exactly_once = refl

  get_u8-qos : (s : StoredQoS) → get_u8 (stored_qos_as_u8 s) ≡ ok (stored_qos_as_u8 s)
  unfolding stored_qos_as_u8
  get_u8-qos StoredQoS.at_most_once = refl
  get_u8-qos StoredQoS.at_least_once = refl
  get_u8-qos StoredQoS.exactly_once = refl

  get_i32-fits : (n : ℕ) → n < 2 ^ 31 → get_i32 n ≡ ok n
  get_i32-fits n p = ground arith

  get_i32-bool : (b : Bool) → get_i32 (as_i32 b) ≡ ok (as_i32 b)
  get_i32-bool true = refl
  get_i32-bool false = refl

  bool-back : (b : Bool) → not (as_i32 b == 0) ≡ b
  bool-back true = refl
  bool-back false = refl

  u16-back : (n : ℕ) → n < 2 ^ 16 → n % 2 ^ 16 ≡ n
  u16-back n p = omega arith

  pub subscription_of_row-back :
      (s : PersistedSubscription) → subscription_of_row c (subscription_row c s) ≡ ok s
  unfolding subscription_of_row subscription_row
  subscription_of_row-back s =
      rw (get_u8-qos s.qos, qos_column-back StoredQoS.at_most_once s.qos) refl

  pub inbound_of_row-back :
      (m : PersistedInboundQos2Message) → InboundFits m → inbound_of_row c (inbound_row c m) ≡ ok m
  unfolding inbound_of_row inbound_row
  inbound_of_row-back m p =
      rw
        (
          get_i32-fits m.packet_id (omega arith),
          get_i32-bool m.retain,
          parse_datetime-print m.received_at,
          u16-back m.packet_id p,
          bool-back m.retain,
        )
        refl

  pub retained_of_row-back :
      (m : PersistedRetainedMessage) → retained_of_row c (retained_row c m) ≡ ok m
  unfolding retained_of_row retained_row
  retained_of_row-back m =
      rw
        (
          get_u8-qos m.qos,
          parse_datetime-print m.updated_at,
          qos_column-back StoredQoS.at_most_once m.qos,
        )
        refl

  state_column-back :
      (o : Option PersistedQos2State) → get_optional get_u8 (state_column o) ≡ ok (state_column o)
  unfolding qos2_state_as_u8
  state_column-back none = refl
  state_column-back (some PersistedQos2State.awaiting_pub_rec) = refl
  state_column-back (some PersistedQos2State.awaiting_pub_comp) = refl

  state-back : (o : Option PersistedQos2State) → and_then_state (state_column o) ≡ o
  unfolding qos2_state_as_u8 qos2_state_from_u8
  state-back none = refl
  state-back (some PersistedQos2State.awaiting_pub_rec) = refl
  state-back (some PersistedQos2State.awaiting_pub_comp) = refl

  pub inflight_of_row-back :
      (m : PersistedInflightMessage) → InflightFits m → inflight_of_row c (inflight_row c m) ≡ ok m
  unfolding inflight_of_row inflight_row
  inflight_of_row-back m p =
      rw
        (
          get_i32-fits m.packet_id (omega arith),
          get_u8-qos m.qos,
          get_i32-bool m.retain,
          state_column-back m.qos2_state,
          get_i32-fits m.retry_count p.1,
          parse_datetime-print m.created_at,
          u16-back m.packet_id p.0,
          qos_column-back StoredQoS.at_least_once m.qos,
          bool-back m.retain,
          state-back m.qos2_state,
        )
        refl

  will_qos-back :
      (o : Option PersistedWillMessage)
      → get_optional get_u8 (will_column (λ w. stored_qos_as_u8 w.qos) o)
        ≡ ok (will_column (λ w. stored_qos_as_u8 w.qos) o)
  will_qos-back none = refl
  will_qos-back (some w) = rw (get_optional, get_u8-qos w.qos) refl

  will_retain-back :
      (o : Option PersistedWillMessage)
      → get_optional get_i32 (will_column (λ w. as_i32 w.retain) o)
        ≡ ok (will_column (λ w. as_i32 w.retain) o)
  will_retain-back none = refl
  will_retain-back (some w) = rw (get_optional, get_i32-bool w.retain) refl

  will-back :
      (o : Option PersistedWillMessage)
      → will_of_columns
          (will_column (λ w. w.topic) o)
          (will_column (λ w. w.payload) o)
          (will_column (λ w. stored_qos_as_u8 w.qos) o)
          (will_column (λ w. as_i32 w.retain) o)
        ≡ o
  will-back none = refl
  will-back (some w) = rw (qos_column-back StoredQoS.at_most_once w.qos, bool-back w.retain) refl

  session_columns-back :
      (at : Bytes) (r : StorageResult DateTime)
      → parse_datetime c at ≡ r
      → (s : PersistedSession) → SessionFits s
      → session_of_row c (record (session_row c s) { created_at = at }) ≡ with_created_at s r
  unfolding session_of_row session_row
  session_columns-back at (ok t) e s p =
      rw
        (
          will_qos-back s.will_message,
          will_retain-back s.will_message,
          get_i32-fits s.next_packet_id (omega arith),
          get_i32-fits s.keep_alive (omega arith),
          e,
          parse_datetime-print s.updated_at,
          u16-back s.next_packet_id p.0,
          u16-back s.keep_alive p.1,
          will-back s.will_message,
        )
        refl
  session_columns-back at (err x) e s p =
      rw
        (
          will_qos-back s.will_message,
          will_retain-back s.will_message,
          get_i32-fits s.next_packet_id (omega arith),
          get_i32-fits s.keep_alive (omega arith),
          e,
        )
        refl

  pub session_of_row-back :
      (old : Option SessionRow) (s : PersistedSession)
      → SessionFits s
      → session_of_row c (upserted old (session_row c s))
        ≡ with_created_at s (kept_created_at c old s)
  unfolding session_row
  session_of_row-back none s p =
      session_columns-back (c.to_rfc3339 s.created_at) (ok s.created_at)
        (parse_datetime-print s.created_at) s p
  session_of_row-back (some old) s p = session_columns-back old.created_at _ refl s p
