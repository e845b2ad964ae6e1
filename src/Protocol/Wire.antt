-- ===== src/Protocol/Wire.antt =====
-- The packets that a client sends and src/protocol/packet.rs only reads, as MQTT 3.1.1 lays them out:
-- CONNECT, SUBSCRIBE, UNSUBSCRIBE and PINGREQ.
pub mod Flags
pub mod Connect
pub mod Filters
pub mod Requests
use iotd.Prelude.{
  is_some, ℕ, Bytes, ◌+◌, ◌*◌, ◌^◌, ◌<◌, Bool, true, false, Option, none, some, List, [], ◌∷◌, ◌++◌,
  length,
}
use iotd.Protocol.Packet.{
  QoS, qos_as_u8, at_most_once, ConnectPacket, SubscribePacket, UnsubscribePacket, Packet,
}
use iotd.Protocol.RoundTrip.{u16_code, IsText}

pub record Will : Type 0 where
  pub topic : Bytes
  pub payload : Bytes
  pub qos : QoS
  pub retain : Bool

-- A password comes with a user name only.
pub record Login : Type 0 where
  pub username : Bytes
  pub password : Option Bytes

pub record ConnectRequest : Type 0 where
  pub protocol_name : Bytes
  pub protocol_level : ℕ
  pub clean_session : Bool
  pub keep_alive : ℕ
  pub client_id : Bytes
  pub will : Option Will
  pub login : Option Login

-- Without a Will the flags for its QoS and retain are zero.
abbrev pub will_qos : Option Will → QoS
will_qos none = at_most_once
will_qos (some will) = will.qos

abbrev pub will_retain : Option Will → Bool
will_retain none = false
will_retain (some will) = will.retain

abbrev pub username_of : Option Login → Option Bytes
username_of none = none
username_of (some login) = some login.username

abbrev pub password_of : Option Login → Option Bytes
password_of none = none
password_of (some login) = login.password

abbrev pub bit : Bool → ℕ
bit false = 0
bit true = 1

-- The byte of flags, by the place of each bit.
unfoldable pub connect_flags : Bool → Option Will → Option Login → ℕ
connect_flags clean_session will login =
    2 * bit clean_session
    + 4 * bit (is_some will)
    + 8 * qos_as_u8 (will_qos will)
    + 32 * bit (will_retain will)
    + 64 * bit (is_some (password_of login))
    + 128 * bit (is_some (username_of login))

-- Bytes behind their length, in front of what follows.
abbrev pub field : Bytes → Bytes → Bytes
field bytes rest = u16_code (length bytes) ++ (bytes ++ rest)

abbrev pub optional_field : Option Bytes → Bytes → Bytes
optional_field none rest = rest
optional_field (some bytes) rest = field bytes rest

abbrev pub will_fields : Option Will → Bytes → Bytes
will_fields none rest = rest
will_fields (some will) rest = field will.topic (field will.payload rest)

unfoldable pub connect_body : ConnectRequest → Bytes
connect_body c = field c.protocol_name (
    c.protocol_level ∷ connect_flags c.clean_session c.will c.login ∷ u16_code c.keep_alive
    ++ field c.client_id (
        will_fields c.will
          (optional_field (username_of c.login) (optional_field (password_of c.login) []))))

abbrev pub subscribe_fields : List (Bytes × QoS) → Bytes
subscribe_fields [] = []
subscribe_fields ((filter, qos) ∷ rest) = field filter (qos_as_u8 qos ∷ subscribe_fields rest)

abbrev pub unsubscribe_fields : List Bytes → Bytes
unsubscribe_fields [] = []
unsubscribe_fields (filter ∷ rest) = field filter (unsubscribe_fields rest)

pub data Request : Type 0 where
  connect : ConnectRequest → Request
  subscribe : SubscribePacket → Request
  unsubscribe : UnsubscribePacket → Request
  ping_req : Request

-- The type and the flags of the fixed header.
abbrev pub first_byte : Request → ℕ
first_byte (Request.connect c) = 0x10
first_byte (Request.subscribe p) = 0x82
first_byte (Request.unsubscribe p) = 0xa2
first_byte Request.ping_req = 0xc0

unfoldable pub body : Request → Bytes
body (Request.connect c) = connect_body c
body (Request.subscribe p) = u16_code p.packet_id ++ subscribe_fields p.topic_filters
body (Request.unsubscribe p) = u16_code p.packet_id ++ unsubscribe_fields p.topic_filters
body Request.ping_req = []

abbrev pub topic_of : Option Will → Option Bytes
topic_of none = none
topic_of (some will) = some will.topic

abbrev pub payload_of : Option Will → Option Bytes
payload_of none = none
payload_of (some will) = some will.payload

-- What the server is to read.
abbrev pub connect_packet : ConnectRequest → ConnectPacket
connect_packet c = record {
  protocol_name = c.protocol_name;
  protocol_level = c.protocol_level;
  clean_session = c.clean_session;
  keep_alive = c.keep_alive;
  client_id = c.client_id;
  will_flag = is_some c.will;
  will_qos = will_qos c.will;
  will_retain = will_retain c.will;
  will_topic = topic_of c.will;
  will_payload = payload_of c.will;
  username = username_of c.login;
  password = password_of c.login;
}

abbrev pub packet_of : Request → Packet
packet_of (Request.connect c) = Packet.connect (connect_packet c)
packet_of (Request.subscribe p) = Packet.subscribe p
packet_of (Request.unsubscribe p) = Packet.unsubscribe p
packet_of Request.ping_req = Packet.ping_req
