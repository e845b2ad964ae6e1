-- ===== src/Session/Types.antt =====
-- src/session.rs: the state of a session. `broker`, the stream and the channels are in
-- Session/Effect.antt; a moment (`Instant`) is a number of milliseconds.
use iotd.Prelude.{ℕ, Bytes, Bool, Option, List, HashMap}
use iotd.Protocol.Packet.{QoS, PublishPacket}
use iotd.Router.Index.{SessionId}

abbrev pub Instant : Type 0
Instant = ℕ

pub data Qos2State : Type 0 where
  awaiting_pub_rec awaiting_pub_comp : Qos2State

pub record InflightMessage : Type 0 where
  pub packet : PublishPacket
  pub timestamp : Instant
  pub retry_count : ℕ
  pub qos2_state : Option Qos2State

pub record ReceivedQos2Message : Type 0 where
  pub packet : PublishPacket

pub record WillMessage : Type 0 where
  pub topic : Bytes
  pub payload : Bytes
  pub qos : QoS
  pub retain : Bool

pub data State : Type 0 where
  waiting processing pending cleanup : State

-- The fields of `Runtime` that are data.
pub record Runtime : Type 0 where
  pub id : SessionId
  pub client_id : Option Bytes
  pub clean_session : Bool
  pub keep_alive : ℕ
  pub will_message : Option WillMessage
  pub next_packet_id : ℕ
  pub inflight_queue : List InflightMessage
  pub inbound_qos2 : HashMap ℕ ReceivedQos2Message
