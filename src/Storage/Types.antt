-- ===== src/Storage/Types.antt =====
-- src/storage/types.rs: the records that are stored, and the two QoS types' conversions.
use iotd.Prelude.{ℕ, Bytes, ◌≡◌, refl, Bool, Option, none, some, ◌==◌, nat_eq, if◌then◌else◌}
use iotd.Protocol.Packet.{QoS}

-- `DateTime<Utc>`: a point in time, which the broker copies and compares.
abbrev pub DateTime : Type 0
DateTime = ℕ

pub data StoredQoS : Type 0 where
  at_most_once at_least_once exactly_once : StoredQoS

unfoldable pub stored_qos_from_u8 : ℕ → Option StoredQoS
stored_qos_from_u8 value =
    if value == 0
    then some at_most_once
    else if value == 1
    then some at_least_once
    else if value == 2
    then some exactly_once
    else none

unfoldable pub stored_qos_as_u8 : StoredQoS → ℕ
stored_qos_as_u8 at_most_once = 0
stored_qos_as_u8 at_least_once = 1
stored_qos_as_u8 exactly_once = 2

-- `StoredQoS::from(qos)`
unfoldable pub stored_from_qos : QoS → StoredQoS
stored_from_qos QoS.at_most_once = at_most_once
stored_from_qos QoS.at_least_once = at_least_once
stored_from_qos QoS.exactly_once = exactly_once

-- `QoS::from(stored)`
unfoldable pub qos_from_stored : StoredQoS → QoS
qos_from_stored at_most_once = QoS.at_most_once
qos_from_stored at_least_once = QoS.at_least_once
qos_from_stored exactly_once = QoS.exactly_once

-- Storing a QoS and loading it gives it back.
pub qos_from_stored-stored_from_qos : (q : QoS) → qos_from_stored (stored_from_qos q) ≡ q
unfolding qos_from_stored stored_from_qos
qos_from_stored-stored_from_qos QoS.at_most_once = refl
qos_from_stored-stored_from_qos _ = refl

pub record PersistedWillMessage : Type 0 where
  pub topic : Bytes
  pub payload : Bytes
  pub qos : StoredQoS
  pub retain : Bool

pub record PersistedSession : Type 0 where
  pub client_id : Bytes
  pub next_packet_id : ℕ
  pub keep_alive : ℕ
  pub will_message : Option PersistedWillMessage
  pub created_at : DateTime
  pub updated_at : DateTime

pub record PersistedSubscription : Type 0 where
  pub client_id : Bytes
  pub topic_filter : Bytes
  pub qos : StoredQoS

pub data PersistedQos2State : Type 0 where
  awaiting_pub_rec awaiting_pub_comp : PersistedQos2State

unfoldable pub qos2_state_from_u8 : ℕ → Option PersistedQos2State
qos2_state_from_u8 value =
    if value == 0
    then some PersistedQos2State.awaiting_pub_rec
    else if value == 1
    then some PersistedQos2State.awaiting_pub_comp
    else none

unfoldable pub qos2_state_as_u8 : PersistedQos2State → ℕ
qos2_state_as_u8 PersistedQos2State.awaiting_pub_rec = 0
qos2_state_as_u8 PersistedQos2State.awaiting_pub_comp = 1

pub record PersistedInflightMessage : Type 0 where
  pub client_id : Bytes
  pub packet_id : ℕ
  pub topic : Bytes
  pub payload : Bytes
  pub qos : StoredQoS
  pub retain : Bool
  pub retry_count : ℕ
  pub qos2_state : Option PersistedQos2State
  pub created_at : DateTime

pub record PersistedInboundQos2Message : Type 0 where
  pub client_id : Bytes
  pub packet_id : ℕ
  pub topic : Bytes
  pub payload : Bytes
  pub retain : Bool
  pub received_at : DateTime

pub record PersistedRetainedMessage : Type 0 where
  pub topic : Bytes
  pub payload : Bytes
  pub qos : StoredQoS
  pub updated_at : DateTime
