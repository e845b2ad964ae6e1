-- ===== src/Storage/Sqlite/Columns.antt =====
-- src/storage/sqlite.rs: what is read from the columns of a row, and which columns are refused.
use iotd.Prelude.{ℕ, ◌%◌, ◌^◌, Bytes, Option, none, some, ltb, not, ◌==◌, nat_eq, if◌then◌else◌}
use iotd.Storage.Types.{
  DateTime, StoredQoS, stored_qos_from_u8, PersistedWillMessage, PersistedSession,
  PersistedSubscription, PersistedQos2State, qos2_state_from_u8, PersistedInflightMessage,
  PersistedInboundQos2Message, PersistedRetainedMessage,
}
use iotd.Storage.Trait.{StorageError, StorageResult}
use iotd.Storage.Sqlite.Rows.{
  SessionRow, SubscriptionRow, InflightRow, InboundRow, RetainedRow, Chrono,
}

-- `get::<_, u8>`, `get::<_, i32>`: a number that does not fit is an error of rusqlite.
abbrev pub get_u8 : ℕ → StorageResult ℕ
get_u8 n = if ltb n (2 ^ 8) then StorageResult.ok n else StorageResult.err StorageError.internal

abbrev pub get_i32 : ℕ → StorageResult ℕ
get_i32 n = if ltb n (2 ^ 31) then StorageResult.ok n else StorageResult.err StorageError.internal

abbrev pub get_optional : (ℕ → StorageResult ℕ) → Option ℕ → StorageResult (Option ℕ)
get_optional column none = StorageResult.ok none
get_optional column (some n) = elim (column n) [
  | StorageResult.ok m ↦ StorageResult.ok (some m)
  | StorageResult.err e ↦ StorageResult.err e
]

infixl 10 ◌>>=◌
abbrev pub ◌>>=◌ {ℓ κ} :
    {A : Type ℓ} {B : Type κ} → StorageResult A → (A → StorageResult B) → StorageResult B
StorageResult.ok a >>= k = k a
StorageResult.err e >>= k = StorageResult.err e

abbrev pub unwrap_qos : StoredQoS → Option StoredQoS → StoredQoS
unwrap_qos default none = default
unwrap_qos default (some qos) = qos

abbrev pub and_then_state : Option ℕ → Option PersistedQos2State
and_then_state none = none
and_then_state (some n) = qos2_state_from_u8 n

-- The `match` on the four columns of the Will message.
abbrev pub will_of_columns :
    Option Bytes → Option Bytes → Option ℕ → Option ℕ → Option PersistedWillMessage
will_of_columns (some topic) (some payload) (some qos) (some retain) = some (record {
  topic = topic;
  payload = payload;
  qos = unwrap_qos StoredQoS.at_most_once (stored_qos_from_u8 qos);
  retain = not (retain == 0);
})
will_of_columns none payload qos retain = none
will_of_columns (some topic) none qos retain = none
will_of_columns (some topic) (some payload) none retain = none
will_of_columns (some topic) (some payload) (some qos) none = none

module _ (c : Chrono) where
  abbrev pub parse_datetime : Bytes → StorageResult DateTime
  parse_datetime s = elim (c.parse_from_rfc3339 s) [
    | none ↦ StorageResult.err StorageError.invalid_date_time
    | some t ↦ StorageResult.ok t
  ]

  -- What is read from the columns, in the order in which it can fail; `as u16` keeps 16 bits.
  unfoldable pub session_of_row : SessionRow → StorageResult PersistedSession
  session_of_row row = do
    will_qos ← get_optional get_u8 row.will_qos
    will_retain ← get_optional get_i32 row.will_retain
    next_packet_id ← get_i32 row.next_packet_id
    keep_alive ← get_i32 row.keep_alive
    created_at ← parse_datetime row.created_at
    updated_at ← parse_datetime row.updated_at
    StorageResult.ok (record {
      client_id = row.client_id;
      next_packet_id = next_packet_id % 2 ^ 16;
      keep_alive = keep_alive % 2 ^ 16;
      will_message = will_of_columns row.will_topic row.will_payload will_qos will_retain;
      created_at = created_at;
      updated_at = updated_at;
    })

  unfoldable pub subscription_of_row : SubscriptionRow → StorageResult PersistedSubscription
  subscription_of_row row = do
    qos ← get_u8 row.qos
    StorageResult.ok (record {
      client_id = row.client_id;
      topic_filter = row.topic_filter;
      qos = unwrap_qos StoredQoS.at_most_once (stored_qos_from_u8 qos);
    })

  unfoldable pub inflight_of_row : InflightRow → StorageResult PersistedInflightMessage
  inflight_of_row row = do
    packet_id ← get_i32 row.packet_id
    qos ← get_u8 row.qos
    retain ← get_i32 row.retain
    qos2_state ← get_optional get_u8 row.qos2_state
    retry_count ← get_i32 row.retry_count
    created_at ← parse_datetime row.created_at
    StorageResult.ok (record {
      client_id = row.client_id;
      packet_id = packet_id % 2 ^ 16;
      topic = row.topic;
      payload = row.payload;
      qos = unwrap_qos StoredQoS.at_least_once (stored_qos_from_u8 qos);
      retain = not (retain == 0);
      retry_count = retry_count;
      qos2_state = and_then_state qos2_state;
      created_at = created_at;
    })

  unfoldable pub inbound_of_row : InboundRow → StorageResult PersistedInboundQos2Message
  inbound_of_row row = do
    packet_id ← get_i32 row.packet_id
    retain ← get_i32 row.retain
    received_at ← parse_datetime row.received_at
    StorageResult.ok (record {
      client_id = row.client_id;
      packet_id = packet_id % 2 ^ 16;
      topic = row.topic;
      payload = row.payload;
      retain = not (retain == 0);
      received_at = received_at;
    })

  unfoldable pub retained_of_row : RetainedRow → StorageResult PersistedRetainedMessage
  retained_of_row row = do
    qos ← get_u8 row.qos
    updated_at ← parse_datetime row.updated_at
    StorageResult.ok (record {
      topic = row.topic;
      payload = row.payload;
      qos = unwrap_qos StoredQoS.at_most_once (stored_qos_from_u8 qos);
      updated_at = updated_at;
    })
