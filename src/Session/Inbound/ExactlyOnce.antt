-- ===== src/Session/Inbound/ExactlyOnce.antt =====
-- QoS 2 from the client: a message that was stored is routed once, by its PUBREL.
use iotd.Prelude.{
  subst, suc, append-nil, Bool-cases, inl, inr, ℕ, ◌≡◌, refl, sym, ◌∙◌, true, false, none, some,
  List, [], ◌∷◌, ◌++◌, All, HashMap, get, insert, remove, get-insert, get-remove, contains_key,
  nat_eq, beq_refl, if◌then◌else◌,
}
use iotd.Protocol.Packet.{QoS, Packet, PublishPacket}
use iotd.Session.Types.{ReceivedQos2Message, Runtime}
use iotd.Session.Effect.{
  Env, Stream, World, Outcome, continue, pure, send_packet, route_packet, is_allowed,
}
use iotd.Session.Inbound.{
  client_name, authorize_and_route, on_publish_2, on_publish_at, on_publish, on_pubrel,
}
use iotd.Session.Inbound.Held.{Stored, IsNotRelease, on_packets, on_packets-Stored}
use iotd.Session.Keeps.{choose-Keeps, continue-Keeps, reply-Keeps, authorize_and_route-Keeps}
use iotd.Session.Run.{on_packet}
use iotd.Session.Run.Collision.{routed-route_packet}

module _ {S : Type 0} (e : Env S) (i : ℕ) (writer : Stream) where
  -- What PUBREL may route.
  abbrev pub released : ReceivedQos2Message → Runtime → List PublishPacket
  released received r =
      if is_allowed (e.authorize_publish (client_name r.client_id) received.packet.topic)
      then received.packet ∷ []
      else []

  publish_2-stores :
      (p : PublishPacket) (w : World S)
      → get i w.runtime.inbound_qos2 ≡ none
      → Stored i (some (record { packet = p })) (on_publish_2 e (some i) p writer w).1.runtime
  publish_2-stores p w new = rw (absent_key w.runtime.inbound_qos2 new) (
      reply-Keeps (Stored i (some (record { packet = p }))) e (Packet.pub_rec i) writer true
        (record w {
          runtime = record w.runtime {
            inbound_qos2 = insert i (record { packet = p }) w.runtime.inbound_qos2;
          };
        })
        (get-insert i i (record { packet = p }) w.runtime.inbound_qos2 ∙ rw (beq_refl i) refl))
    where
      absent_key : (m : HashMap ℕ ReceivedQos2Message) → get i m ≡ none → contains_key i m ≡ false
      absent_key m h = rw (h, contains_key) refl

  publish-stores :
      (p : PublishPacket) (w : World S)
      → p.qos ≡ QoS.exactly_once
      → p.packet_id ≡ some i
      → get i w.runtime.inbound_qos2 ≡ none
      → Stored i (some (record { packet = p })) (on_packet e (Packet.publish p) writer w).1.runtime
  unfolding on_packet on_publish
  publish-stores p w two has new =
      subst (λ q. Stored i (some (record { packet = p })) (on_publish_at e q p writer w).1.runtime)
        (sym two)
        (subst
          (λ o. Stored i (some (record { packet = p })) (on_publish_2 e o p writer w).1.runtime)
          (sym has) (publish_2-stores p w new))

  routed-pure :
      (o : Outcome (Unit {0})) (w : World S) → (continue o (λ _. pure true) w).1.routed ≡ w.routed
  routed-pure (Outcome.ok tt) w = refl
  routed-pure _ w = refl

  authorized-routed :
      (p : PublishPacket) (w : World S)
      → (authorize_and_route e p w).1.routed
        ≡ w.routed ++ released (record { packet = p }) w.runtime
  unfolding authorize_and_route
  authorized-routed p w =
      elim (Bool-cases
        (is_allowed (e.authorize_publish (client_name w.runtime.client_id) p.topic))) [
          | inl y ↦ rw y (
              routed-pure (route_packet e p w).0 (route_packet e p w).1 ∙ routed-route_packet e p w)
          | inr n ↦ rw n (sym (append-nil w.routed))
        ]

  pubrel-routes :
      (received : ReceivedQos2Message) (w : World S)
      → e.accepts writer w.written ≡ true
      → Stored i (some received) w.runtime
      → ((on_pubrel e i writer w).1.routed ≡ w.routed ++ released received w.runtime)
        × Stored i none (on_pubrel e i writer w).1.runtime
  unfolding on_pubrel send_packet
  pubrel-routes received w written stored =
      let w' = record w {
        runtime = record w.runtime { inbound_qos2 = remove i w.runtime.inbound_qos2 };
        written = suc w.written;
        sent = w.sent ++ (writer, Packet.pub_comp i) ∷ [];
      } in
      rw (written, stored)
        (
          authorized-routed received.packet w',
          authorize_and_route-Keeps (Stored i none) e received.packet w'
              (get-remove i i w.runtime.inbound_qos2 ∙ rw (beq_refl i) refl),
        )

  pubrel-absent :
      (w : World S) → Stored i none w.runtime → (on_pubrel e i writer w).1.routed ≡ w.routed
  unfolding on_pubrel send_packet
  pubrel-absent w absent = elim (Bool-cases (e.accepts writer w.written)) [
    | inl y ↦ rw (y, absent) refl
    | inr n ↦ rw n refl
  ]

  publish_between-stores :
      (p : PublishPacket) (between : List Packet) (w : World S)
      → p.qos ≡ QoS.exactly_once
      → p.packet_id ≡ some i
      → get i w.runtime.inbound_qos2 ≡ none
      → All (IsNotRelease i) between
      → Stored i
          (some (record { packet = p }))
          (on_packets e (Packet.publish p ∷ between) writer w).1.runtime
  unfolding on_packets
  publish_between-stores p between w two has new others =
      let kept = Stored i (some (record { packet = p })) in
      let published = on_packet e (Packet.publish p) writer w in
      continue-Keeps kept published.0
        (λ success. if success then on_packets e between writer else pure false)
        (λ success.
          choose-Keeps kept success (on_packets e between writer) (pure false)
            (on_packets-Stored e i (record { packet = p }) writer between others) (λ w h. h))
        published.1 (publish-stores p w two has new)

  -- A QoS 2 PUBLISH under a packet id that is free, then any packets but its PUBREL, whether or not
  -- they can be answered: if the PUBCOMP can be written, then PUBREL routes that message, if the client
  -- may publish it, and nothing else, and a second PUBREL routes nothing.
  pub exactly_once :
      (p : PublishPacket) (between : List Packet) (w : World S)
      → p.qos ≡ QoS.exactly_once
      → p.packet_id ≡ some i
      → get i w.runtime.inbound_qos2 ≡ none
      → All (IsNotRelease i) between
      → let held = (on_packets e (Packet.publish p ∷ between) writer w).1 in
        let done = (on_packet e (Packet.pub_rel i) writer held).1 in
        e.accepts writer held.written ≡ true
        → (done.routed ≡ held.routed ++ released (record { packet = p }) held.runtime)
          × ((on_packet e (Packet.pub_rel i) writer done).1.routed ≡ done.routed)
  unfolding on_packet
  exactly_once p between w two has new others written =
      let routes =
        pubrel-routes (record { packet = p }) (on_packets e (Packet.publish p ∷ between) writer w).1
          written (publish_between-stores p between w two has new others) in
      (routes.0, pubrel-absent _ routes.1)
