-- ===== src/Router/Route.antt =====
-- `Router::route` of src/router.rs. A send to a mailbox is an entry of the returned list; whether the
-- channel still has a receiver changes nothing here, since a failing send is only logged.
pub mod Receivers
use iotd.Prelude.{
  ℕ, Bytes, Bool, true, false, Option, none, some, List, [], ◌∷◌, ◌++◌, HashMap, if◌then◌else◌,
}
use iotd.Protocol.Packet.{QoS, PublishPacket}
use iotd.Storage.Types.{DateTime}
use iotd.Storage.Trait.{Storage}
use iotd.Router.Qos.{min_qos}
use iotd.Router.Topic.{validate_publish_topic, topic_matches}
use iotd.Router.Index.{SessionId, Mailbox, Subscribers, RouterInternal}
use iotd.Router.Retained.{handle_retained_message}

pub record Delivery : Type 0 where
  pub session_id : SessionId
  pub sender : Mailbox
  pub packet : PublishPacket

-- The packet for one subscriber.
unfoldable pub forward_packet : PublishPacket → QoS → PublishPacket
forward_packet packet subscription_qos = record {
  topic = packet.topic;
  packet_id = none;
  payload = packet.payload;
  qos = min_qos packet.qos subscription_qos;
  retain = false;
  dup = false;
}

-- The inner loop, over the sessions of one filter.
unfoldable pub to_subscribers : PublishPacket → Subscribers → List Delivery
to_subscribers packet [] = []
to_subscribers packet ((session_id, (sender, subscription_qos)) ∷ rest) =
    record {
      session_id = session_id;
      sender = sender;
      packet = forward_packet packet subscription_qos;
    }
    ∷ to_subscribers packet rest

-- The outer loop, over the filters.
unfoldable pub deliveries : PublishPacket → HashMap Bytes Subscribers → List Delivery
deliveries packet [] = []
deliveries packet ((filter, sessions) ∷ rest) =
    let later = deliveries packet rest in
    if topic_matches packet.topic filter then to_subscribers packet sessions ++ later else later

module _ {S : Type 0} (st : Storage S) (retained_message_limit : ℕ) (now : DateTime) where
  unfoldable pub route : PublishPacket → RouterInternal → S → List Delivery × S
  route packet r s =
      if validate_publish_topic packet.topic
      then (let s' =
            if packet.retain
            then handle_retained_message st retained_message_limit now packet s
            else s in
          (deliveries packet r.filters, s'))
      else ([], s)
