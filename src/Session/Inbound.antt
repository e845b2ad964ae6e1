-- ===== src/Session/Inbound.antt =====
-- src/session.rs: messages from the client, at each QoS.
pub mod Held
pub mod ExactlyOnce
use iotd.Prelude.{
  ℕ, Bytes, Bool, true, false, Option, none, some, [], get, insert, remove, contains_key, nat_eq,
  if◌then◌else◌,
}
use iotd.Protocol.Packet.{QoS, Packet, PublishPacket}
use iotd.Session.Types.{ReceivedQos2Message}
use iotd.Session.Effect.{
  Env, Stream, Outcome, Action, ◌>>◌, pure, set_runtime, send_packet, route_packet, is_allowed,
}

-- `self.client_id.as_deref().unwrap_or("")`
abbrev pub client_name : Option Bytes → Bytes
client_name none = []
client_name (some client_id) = client_id

module _ {S : Type 0} (e : Env S) where
  -- The end of `on_publish` and `on_pubrel`: a message that the client may not publish is dropped.
  unfoldable pub authorize_and_route : PublishPacket → Action S Bool
  authorize_and_route packet w =
      if is_allowed (e.authorize_publish (client_name w.runtime.client_id) packet.topic)
      then (do route_packet e packet; pure true) w
      else (Outcome.ok true, w)

  abbrev pub on_publish_1 : Option ℕ → PublishPacket → Stream → Action S Bool
  on_publish_1 none packet writer = pure false
  on_publish_1 (some packet_id) packet writer = do
    send_packet e (Packet.pub_ack packet_id) writer
    if packet.dup then pure true else authorize_and_route packet

  abbrev pub on_publish_2 : Option ℕ → PublishPacket → Stream → Action S Bool
  on_publish_2 none packet writer = pure false
  on_publish_2 (some packet_id) packet writer = λ w.
      if contains_key packet_id w.runtime.inbound_qos2
      then (do send_packet e (Packet.pub_rec packet_id) writer; pure true) w
      else (do
        set_runtime (λ r. record r {
          inbound_qos2 = insert packet_id (record { packet = packet }) r.inbound_qos2;
        })
        send_packet e (Packet.pub_rec packet_id) writer
        pure true)
          w

  abbrev pub on_publish_at : QoS → PublishPacket → Stream → Action S Bool
  on_publish_at QoS.at_most_once packet writer = authorize_and_route packet
  on_publish_at QoS.at_least_once packet writer = on_publish_1 packet.packet_id packet writer
  on_publish_at QoS.exactly_once packet writer = on_publish_2 packet.packet_id packet writer

  unfoldable pub on_publish : PublishPacket → Stream → Action S Bool
  on_publish packet writer = on_publish_at packet.qos packet writer

  -- `inbound_qos2.remove(..)` and what follows.
  abbrev pub release : ℕ → Option ReceivedQos2Message → Action S Bool
  release packet_id none = pure true
  release packet_id (some received) = do
    set_runtime (λ r. record r { inbound_qos2 = remove packet_id r.inbound_qos2 })
    authorize_and_route received.packet

  unfoldable pub on_pubrel : ℕ → Stream → Action S Bool
  on_pubrel packet_id writer = do
    send_packet e (Packet.pub_comp packet_id) writer
    λ w. release packet_id (get packet_id w.runtime.inbound_qos2) w
