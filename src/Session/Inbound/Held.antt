-- ===== src/Session/Inbound/Held.antt =====
-- QoS 2 from the client: a stored message stays through any packets but its PUBREL.
use iotd.Prelude.{
  Bool-cases, inl, inr, ℕ, ◌≡◌, ◌≢◌, ◌∙◌, Bool, true, false, Option, none, some, List, [], ◌∷◌, All,
  get, insert, remove, get-insert, get-remove, contains_key, nat_eq, nat_beq_iff, beq_ne,
  if◌then◌else◌, arith,
}
use iotd.Protocol.Packet.{QoS, Packet, PublishPacket}
use iotd.Session.Types.{ReceivedQos2Message, Runtime}
use iotd.Session.Effect.{Env, Stream, Action, ◌>>=◌, pure, send_packet}
use iotd.Session.Outbound.{on_puback, on_pubrec, on_pubcomp, mark_received}
use iotd.Session.Inbound.{
  authorize_and_route, on_publish_1, on_publish_2, on_publish_at, on_publish, release, on_pubrel,
}
use iotd.Session.Subscribing.{on_disconnect}
use iotd.Session.Keeps.{
  choose-Keeps, Keeps, bind-Keeps, send_packet-Keeps, reply-Keeps, authorize_and_route-Keeps,
  on_subscribe-Keeps, on_unsubscribe-Keeps, on_pingreq-Keeps,
}
use iotd.Session.Run.{on_packet}

-- What is stored under a packet id.
abbrev pub Stored : ℕ → Option ReceivedQos2Message → Runtime → Type 0
Stored packet_id o r = get packet_id r.inbound_qos2 ≡ o

-- Any packet but the PUBREL of that id.
abbrev pub IsNotRelease : ℕ → Packet → Type 0
IsNotRelease packet_id (Packet.pub_rel n) = n ≢ packet_id
IsNotRelease packet_id _ = Unit

-- Packets one after the other, as long as the handlers succeed.
unfoldable pub on_packets : {S : Type 0} → Env S → List Packet → Stream → Action S Bool
on_packets e [] writer = pure true
on_packets e (p ∷ ps) writer = do
  success ← on_packet e p writer
  if success then on_packets e ps writer else pure false

module _ {S : Type 0} (e : Env S) (i : ℕ) (received : ReceivedQos2Message) (writer : Stream) where
  insert-Stored :
      (n : ℕ) (p : PublishPacket) (r : Runtime)
      → contains_key n r.inbound_qos2 ≡ false
      → Stored i (some received) r
      → Stored i
          (some received)
          (record r { inbound_qos2 = insert n (record { packet = p }) r.inbound_qos2 })
  insert-Stored n p r new h =
      ground (arith, nat_beq_iff n i, get-insert n i (record { packet = p }) r.inbound_qos2)

  publish_1-Stored :
      (o : Option ℕ) (p : PublishPacket)
      → Keeps (Stored i (some received)) (on_publish_1 e o p writer)
  publish_1-Stored none p = λ w h. h
  publish_1-Stored (some n) p =
      bind-Keeps (Stored i (some received)) (send_packet e (Packet.pub_ack n) writer)
        (λ _. if p.dup then pure true else authorize_and_route e p)
        (send_packet-Keeps (Stored i (some received)) e (Packet.pub_ack n) writer)
        (λ _.
          choose-Keeps (Stored i (some received)) p.dup (pure true) (authorize_and_route e p)
            (λ w h. h) (authorize_and_route-Keeps (Stored i (some received)) e p))

  publish_2-Stored :
      (o : Option ℕ) (p : PublishPacket)
      → Keeps (Stored i (some received)) (on_publish_2 e o p writer)
  publish_2-Stored none p = λ w h. h
  publish_2-Stored (some n) p = λ w h. elim (Bool-cases (contains_key n w.runtime.inbound_qos2)) [
    | inl old ↦ rw old (reply-Keeps (Stored i (some received)) e (Packet.pub_rec n) writer true w h)
    | inr new ↦ rw new (
        reply-Keeps (Stored i (some received)) e (Packet.pub_rec n) writer true
          (record w {
            runtime = record w.runtime {
              inbound_qos2 = insert n (record { packet = p }) w.runtime.inbound_qos2;
            };
          })
          (insert-Stored n p w.runtime new h))
  ]

  publish-Stored :
      (q : QoS) (p : PublishPacket) → Keeps (Stored i (some received)) (on_publish_at e q p writer)
  publish-Stored QoS.at_most_once p = authorize_and_route-Keeps (Stored i (some received)) e p
  publish-Stored QoS.at_least_once p = publish_1-Stored p.packet_id p
  publish-Stored QoS.exactly_once p = publish_2-Stored p.packet_id p

  release-Stored :
      (n : ℕ) (o : Option ReceivedQos2Message)
      → n ≢ i
      → Keeps (Stored i (some received)) (release e n o)
  release-Stored n none other = λ w h. h
  release-Stored n (some m) other = λ w h.
      authorize_and_route-Keeps (Stored i (some received)) e m.packet
        (record w { runtime = record w.runtime { inbound_qos2 = remove n w.runtime.inbound_qos2 } })
        (get-remove n i w.runtime.inbound_qos2 ∙ rw (beq_ne n i other) h)

  pubrel-Stored : (n : ℕ) → n ≢ i → Keeps (Stored i (some received)) (on_pubrel e n writer)
  unfolding on_pubrel
  pubrel-Stored n other =
      bind-Keeps (Stored i (some received)) (send_packet e (Packet.pub_comp n) writer)
        (λ _ w. release e n (get n w.runtime.inbound_qos2) w)
        (send_packet-Keeps (Stored i (some received)) e (Packet.pub_comp n) writer)
        (λ _ w. release-Stored n (get n w.runtime.inbound_qos2) other w)

  pub on_packet-Stored :
      (p : Packet) → IsNotRelease i p → Keeps (Stored i (some received)) (on_packet e p writer)
  unfolding on_packet on_publish on_puback on_pubcomp on_pubrec on_disconnect
  on_packet-Stored (Packet.publish p) other = publish-Stored p.qos p
  on_packet-Stored (Packet.pub_ack n) other = λ w h. h
  on_packet-Stored (Packet.pub_rec n) other = λ w h.
      reply-Keeps (Stored i (some received)) e (Packet.pub_rel n) writer true
        (record w {
          runtime = record w.runtime {
            inflight_queue = mark_received e.now n w.runtime.inflight_queue;
          };
        })
        h
  on_packet-Stored (Packet.pub_rel n) other = pubrel-Stored n other
  on_packet-Stored (Packet.pub_comp n) other = λ w h. h
  on_packet-Stored (Packet.subscribe p) other =
      on_subscribe-Keeps (Stored i (some received)) e p writer
  on_packet-Stored (Packet.unsubscribe p) other =
      on_unsubscribe-Keeps (Stored i (some received)) e p writer
  on_packet-Stored Packet.ping_req other = on_pingreq-Keeps (Stored i (some received)) e writer
  on_packet-Stored Packet.disconnect other = λ w h. h
  on_packet-Stored _ other = λ w h. h

  pub on_packets-Stored :
      (ps : List Packet)
      → All (IsNotRelease i) ps
      → Keeps (Stored i (some received)) (on_packets e ps writer)
  unfolding on_packets
  on_packets-Stored [] other = λ w h. h
  on_packets-Stored (p ∷ ps) other =
      bind-Keeps (Stored i (some received)) (on_packet e p writer)
        (λ success. if success then on_packets e ps writer else pure false)
        (on_packet-Stored p other.0)
        (λ success.
          choose-Keeps (Stored i (some received)) success (on_packets e ps writer) (pure false)
            (on_packets-Stored ps other.1) (λ w h. h))
