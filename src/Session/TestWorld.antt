-- ===== src/Session/TestWorld.antt =====
-- A session at concrete worlds, for the tests, over the in-memory storage and a channel that is a list.
use iotd.Prelude.{
  ℕ, ◌≡◌, ◌<◌, ◌≤◌, true, false, Option, none, some, List, [], ◌∷◌, ◌++◌, length, ltb, bytes_eq,
  nat_eq, if◌then◌else◌, arith,
}
use iotd.Config.{default_config}
use iotd.Protocol.Packet.{ascii, QoS, Packet, ConnectPacket, protocol_name, protocol_level}
use iotd.Storage.Memory.{InMemoryStorage, memory}
use iotd.Storage.Memory
use iotd.Router.Index
use iotd.Router.Index.{RouterInternal, add_subscription}
use iotd.Session.Types.{Runtime, WillMessage}
use iotd.Session.Effect.{Env, IsChannel, World, AuthResult}

abbrev pub list_send : ℕ → Packet → List Packet → Option (List Packet)
list_send capacity p queue = if ltb (length queue) capacity then some (queue ++ p ∷ []) else none

-- Everybody may do everything but subscribe to `secret`, and every write succeeds.
abbrev pub env : Env InMemoryStorage
env = record {
  storage = memory;
  authenticate = λ c. AuthResult.allowed;
  authorize_publish = λ c t. AuthResult.allowed;
  authorize_subscribe = λ c f.
      if bytes_eq.beq f (ascii "secret") then AuthResult.not_authorized else AuthResult.allowed;
  config = record default_config { retained_message_limit = 10; max_retransmission_limit = 3 };
  now = 7000;
  utc_now = 1;
  accepts = λ s n. true;
  channel_send = list_send;
}

pub env-IsChannel : IsChannel env
env-IsChannel = record {
  send-room = λ capacity p queue h. room capacity p queue h;
  send-full = λ capacity p queue h. full capacity p queue h;
}
  where
    room :
        (capacity : ℕ) (p : Packet) (queue : List Packet)
        → length queue < capacity
        → list_send capacity p queue ≡ some (queue ++ p ∷ [])
    room capacity p queue h = ground arith

    full :
        (capacity : ℕ) (p : Packet) (queue : List Packet)
        → capacity ≤ length queue
        → list_send capacity p queue ≡ none
    full capacity p queue h = ground arith

abbrev pub fresh : Runtime
fresh = record {
  id = ascii "session";
  client_id = none;
  clean_session = true;
  keep_alive = 0;
  will_message = none;
  next_packet_id = 1;
  inflight_queue = [];
  inbound_qos2 = [];
}

abbrev pub start : World InMemoryStorage
start = record {
  runtime = fresh;
  message_tx = 2;
  messages = [];
  stream = some 4;
  router = Index.new;
  storage = Memory.new;
  named_clients = (ascii "alice", 1) ∷ [];
  written = 0;
  sent = [];
  routed = [];
  delivered = [];
  commands = [];
}

abbrev pub hello : ConnectPacket
hello = record {
  protocol_name = protocol_name;
  protocol_level = protocol_level;
  clean_session = false;
  keep_alive = 30;
  client_id = ascii "alice";
  will_flag = true;
  will_topic = some (ascii "gone");
  will_payload = some (ascii "alice");
  will_qos = QoS.at_most_once;
  will_retain = false;
  username = none;
  password = none;
}

abbrev pub last_will : WillMessage
last_will = record {
  topic = ascii "gone";
  payload = ascii "alice";
  qos = QoS.at_most_once;
  retain = false;
}
