-- ===== src/Protocol/Packet.antt =====
-- The packet types of src/protocol/packet.rs, and the constants of src/protocol/v3.rs.
use Prim.Native.Char.{code}
use Prim.Native.String.{String}
use iotd.Prelude.{ℕ, Bytes, Bool, List, [], ◌∷◌, Option}

-- The bytes of an ASCII literal.
abbrev pub ascii : String → Bytes
ascii String.[] = []
ascii (String.◌∷◌ c s) = code c ∷ ascii s

pub data PacketType : Type 0 where
  connect conn_ack publish pub_ack pub_rec pub_rel pub_comp : PacketType
  subscribe sub_ack unsubscribe unsub_ack ping_req ping_resp disconnect : PacketType

-- `packet_type as u8`
abbrev pub packet_type_as_u8 : PacketType → ℕ
packet_type_as_u8 connect = 1
packet_type_as_u8 conn_ack = 2
packet_type_as_u8 publish = 3
packet_type_as_u8 pub_ack = 4
packet_type_as_u8 pub_rec = 5
packet_type_as_u8 pub_rel = 6
packet_type_as_u8 pub_comp = 7
packet_type_as_u8 subscribe = 8
packet_type_as_u8 sub_ack = 9
packet_type_as_u8 unsubscribe = 10
packet_type_as_u8 unsub_ack = 11
packet_type_as_u8 ping_req = 12
packet_type_as_u8 ping_resp = 13
packet_type_as_u8 disconnect = 14

pub data QoS : Type 0 where
  at_most_once at_least_once exactly_once : QoS

-- `qos as u8`
abbrev pub qos_as_u8 : QoS → ℕ
qos_as_u8 at_most_once = 0
qos_as_u8 at_least_once = 1
qos_as_u8 exactly_once = 2

-- `==` on QoS
abbrev pub qos_beq : QoS → QoS → Bool
qos_beq at_most_once at_most_once = Bool.true
qos_beq at_least_once at_least_once = Bool.true
qos_beq exactly_once exactly_once = Bool.true
qos_beq _ _ = Bool.false

pub record ConnectPacket : Type 0 where
  pub protocol_name : Bytes
  pub protocol_level : ℕ
  pub clean_session : Bool
  pub keep_alive : ℕ
  pub client_id : Bytes
  pub will_flag : Bool
  pub will_qos : QoS
  pub will_retain : Bool
  pub will_topic : Option Bytes
  pub will_payload : Option Bytes
  pub username : Option Bytes
  pub password : Option Bytes

pub record ConnAckPacket : Type 0 where
  pub session_present : Bool
  pub return_code : ℕ

pub record PublishPacket : Type 0 where
  pub topic : Bytes
  pub packet_id : Option ℕ
  pub payload : Bytes
  pub qos : QoS
  pub retain : Bool
  pub dup : Bool

pub record SubscribePacket : Type 0 where
  pub packet_id : ℕ
  pub topic_filters : List (Bytes × QoS)

pub record SubAckPacket : Type 0 where
  pub packet_id : ℕ
  pub return_codes : List ℕ

pub record UnsubscribePacket : Type 0 where
  pub packet_id : ℕ
  pub topic_filters : List Bytes

-- A packet whose struct has the one field `packet_id` is given by that number.
pub data Packet : Type 0 where
  connect : ConnectPacket → Packet
  conn_ack : ConnAckPacket → Packet
  publish : PublishPacket → Packet
  pub_ack pub_rec pub_rel pub_comp : ℕ → Packet
  subscribe : SubscribePacket → Packet
  sub_ack : SubAckPacket → Packet
  unsubscribe : UnsubscribePacket → Packet
  unsub_ack : ℕ → Packet
  ping_req ping_resp disconnect : Packet

-- src/protocol/v3.rs
abbrev pub protocol_name : Bytes
protocol_name = ascii "MQTT"

abbrev pub protocol_level : ℕ
protocol_level = 4

abbrev pub accepted : ℕ
accepted = 0

abbrev pub unacceptable_protocol_version : ℕ
unacceptable_protocol_version = 1

abbrev pub identifier_rejected : ℕ
identifier_rejected = 2

abbrev pub bad_username_or_password : ℕ
bad_username_or_password = 4

abbrev pub not_authorized : ℕ
not_authorized = 5

abbrev pub failure : ℕ
failure = 0x80
