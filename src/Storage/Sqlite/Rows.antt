-- ===== src/Storage/Sqlite/Rows.antt =====
-- src/storage/sqlite.rs: the rows of the five tables, and what is written into a row.
-- An INTEGER is a number that is not negative, as in all that the statements store.
use iotd.Prelude.{ℕ, Bytes, Bool, true, false, Option, none, some, nat_eq}
use iotd.Storage.Types.{
  DateTime, stored_qos_as_u8, PersistedWillMessage, PersistedSession, PersistedSubscription,
  PersistedQos2State, qos2_state_as_u8, PersistedInflightMessage, PersistedInboundQos2Message,
  PersistedRetainedMessage,
}

pub record SessionRow : Type 0 where
  pub client_id : Bytes
  pub next_packet_id : ℕ
  pub keep_alive : ℕ
  pub will_topic : Option Bytes
  pub will_payload : Option Bytes
  pub will_qos : Option ℕ
  pub will_retain : Option ℕ
  pub created_at : Bytes
  pub updated_at : Bytes

pub record SubscriptionRow : Type 0 where
  pub client_id : Bytes
  pub topic_filter : Bytes
  pub qos : ℕ

pub record InflightRow : Type 0 where
  pub client_id : Bytes
  pub packet_id : ℕ
  pub topic : Bytes
  pub payload : Bytes
  pub qos : ℕ
  pub retain : ℕ
  pub retry_count : ℕ
  pub qos2_state : Option ℕ
  pub created_at : Bytes

pub record InboundRow : Type 0 where
  pub client_id : Bytes
  pub packet_id : ℕ
  pub topic : Bytes
  pub payload : Bytes
  pub retain : ℕ
  pub received_at : Bytes

pub record RetainedRow : Type 0 where
  pub topic : Bytes
  pub payload : Bytes
  pub qos : ℕ
  pub updated_at : Bytes

-- The text form of a date, which the chrono library prints and parses.
pub record Chrono : Type 0 where
  pub to_rfc3339 : DateTime → Bytes
  pub parse_from_rfc3339 : Bytes → Option DateTime

abbrev pub will_column {ℓ} :
    {A : Type ℓ} → (PersistedWillMessage → A) → Option PersistedWillMessage → Option A
will_column column none = none
will_column column (some w) = some (column w)

abbrev pub as_i32 : Bool → ℕ
as_i32 true = 1
as_i32 false = 0

abbrev pub state_column : Option PersistedQos2State → Option ℕ
state_column none = none
state_column (some s) = some (qos2_state_as_u8 s)

module _ (c : Chrono) where
  -- The parameters of the statements.
  unfoldable pub session_row : PersistedSession → SessionRow
  session_row session = record {
    client_id = session.client_id;
    next_packet_id = session.next_packet_id;
    keep_alive = session.keep_alive;
    will_topic = will_column (λ w. w.topic) session.will_message;
    will_payload = will_column (λ w. w.payload) session.will_message;
    will_qos = will_column (λ w. stored_qos_as_u8 w.qos) session.will_message;
    will_retain = will_column (λ w. as_i32 w.retain) session.will_message;
    created_at = c.to_rfc3339 session.created_at;
    updated_at = c.to_rfc3339 session.updated_at;
  }

  unfoldable pub subscription_row : PersistedSubscription → SubscriptionRow
  subscription_row sub = record {
    client_id = sub.client_id;
    topic_filter = sub.topic_filter;
    qos = stored_qos_as_u8 sub.qos;
  }

  unfoldable pub inflight_row : PersistedInflightMessage → InflightRow
  inflight_row msg = record {
    client_id = msg.client_id;
    packet_id = msg.packet_id;
    topic = msg.topic;
    payload = msg.payload;
    qos = stored_qos_as_u8 msg.qos;
    retain = as_i32 msg.retain;
    retry_count = msg.retry_count;
    qos2_state = state_column msg.qos2_state;
    created_at = c.to_rfc3339 msg.created_at;
  }

  unfoldable pub inbound_row : PersistedInboundQos2Message → InboundRow
  inbound_row msg = record {
    client_id = msg.client_id;
    packet_id = msg.packet_id;
    topic = msg.topic;
    payload = msg.payload;
    retain = as_i32 msg.retain;
    received_at = c.to_rfc3339 msg.received_at;
  }

  unfoldable pub retained_row : PersistedRetainedMessage → RetainedRow
  retained_row msg = record {
    topic = msg.topic;
    payload = msg.payload;
    qos = stored_qos_as_u8 msg.qos;
    updated_at = c.to_rfc3339 msg.updated_at;
  }
