-- ===== src/Session/Keeps.antt =====
-- Which handlers keep a property of the runtime, whatever their outcome: all that a handler does
-- outside of the runtime keeps it.
use iotd.Prelude.{
  ℕ, Bytes, ◌≡◌, sym, subst, ◌++◌, ◌==◌, nat_eq, Bool, true, false, Option, none, some, List, [],
  ◌∷◌, if◌then◌else◌, arith,
}
use iotd.Prelude.{length}
use iotd.Protocol.Packet.{QoS, Packet, PublishPacket, SubscribePacket, UnsubscribePacket}
use iotd.Router.Route.{Delivery}
use iotd.Session.Types.{Runtime}
use iotd.Session.Effect.{
  Env, Stream, World, Outcome, Action, continue, ◌>>=◌, ◌>>◌, pure, set_runtime, send_packet,
  send_message, deliver_one, deliver, route_packet, is_allowed,
}
use iotd.Session.Outbound.{send_publishes, send_pubrels}
use iotd.Session.Inbound.{client_name, authorize_and_route}
use iotd.Session.Subscribing.{
  authorize_filters, return_codes, subscribe_router, answer, on_subscribe, on_unsubscribe,
  on_pingreq,
}

abbrev pub Keeps {ℓ κ} : {S : Type 0} {A : Type κ} → (Runtime → Type ℓ) → Action S A → Type ℓ
Keeps {S = S} R m = (w : World S) → R w.runtime → R (m w).1.runtime

module _ {ℓ} {S : Type 0} (R : Runtime → Type ℓ) where
  pub continue-Keeps {κ μ} :
      {A : Type κ} {B : Type μ} (o : Outcome A) (k : A → Action S B)
      → ((a : A) → Keeps R (k a))
      → Keeps R (continue o k)
  continue-Keeps (Outcome.ok a) k h w r = h a w r
  continue-Keeps (Outcome.err x) k h w r = r
  continue-Keeps Outcome.panic k h w r = r
  continue-Keeps Outcome.stuck k h w r = r

  pub bind-Keeps {κ μ} :
      {A : Type κ} {B : Type μ} (m : Action S A) (k : A → Action S B)
      → Keeps R m
      → ((a : A) → Keeps R (k a))
      → Keeps R (m >>= k)
  bind-Keeps m k h g w r = continue-Keeps (m w).0 k g (m w).1 (h w r)

  frame-Keeps {κ} :
      {A : Type κ} (m : Action S A) → ((w : World S) → (m w).1.runtime ≡ w.runtime) → Keeps R m
  frame-Keeps m h w r = subst R (sym (h w)) r

  pub set_runtime-Keeps :
      (f : Runtime → Runtime) → ((r : Runtime) → R r → R (f r)) → Keeps {S = S} R (set_runtime f)
  set_runtime-Keeps f h w r = h w.runtime r

  pub if-Keeps {κ} :
      {A : Type κ} (b : Bool) (m n : Action S A)
      → Keeps R m
      → Keeps R n
      → Keeps R (λ w. if b then m w else n w)
  if-Keeps true m n h g = h
  if-Keeps false m n h g = g

  pub choose-Keeps {κ} :
      {A : Type κ} (b : Bool) (m n : Action S A)
      → Keeps R m
      → Keeps R n
      → Keeps R (if b then m else n)
  choose-Keeps true m n h g = h
  choose-Keeps false m n h g = g

  module _ (e : Env S) where
    pub send_packet-Keeps : (p : Packet) (writer : Stream) → Keeps R (send_packet e p writer)
    unfolding send_packet
    send_packet-Keeps p writer = frame-Keeps (send_packet e p writer) (λ w. ground arith)

    pub send_message-Keeps : (p : Packet) → Keeps R (send_message e p)
    unfolding send_message
    send_message-Keeps p = frame-Keeps (send_message e p) (λ w. ground arith)

    deliver_one-Keeps : (d : Delivery) → Keeps R (deliver_one e d)
    unfolding deliver_one
    deliver_one-Keeps d w =
        if-Keeps (d.sender == w.message_tx) (send_message e (Packet.publish d.packet))
          (λ w. (Outcome.ok tt, record w { delivered = w.delivered ++ d ∷ [] }))
          (send_message-Keeps (Packet.publish d.packet)) (λ w r. r) w

    deliver-Keeps : (ds : List Delivery) → Keeps R (deliver e ds)
    unfolding deliver
    deliver-Keeps [] = λ w r. r
    deliver-Keeps (d ∷ ds) =
        bind-Keeps (deliver_one e d) (λ _. deliver e ds) (deliver_one-Keeps d)
          (λ _. deliver-Keeps ds)

    pub route_packet-Keeps : (p : PublishPacket) → Keeps R (route_packet e p)
    unfolding route_packet
    route_packet-Keeps p w = deliver-Keeps _ _

    pub authorize_and_route-Keeps : (p : PublishPacket) → Keeps R (authorize_and_route e p)
    unfolding authorize_and_route
    authorize_and_route-Keeps p w =
        if-Keeps (is_allowed (e.authorize_publish (client_name w.runtime.client_id) p.topic))
          (route_packet e p >> pure true) (pure true)
          (bind-Keeps (route_packet e p) (λ _. pure true) (route_packet-Keeps p) (λ _ w r. r))
          (λ w r. r) w

    pub send_publishes-Keeps : (ps : List PublishPacket) → Keeps R (send_publishes e ps)
    unfolding send_publishes
    send_publishes-Keeps [] = λ w r. r
    send_publishes-Keeps (p ∷ ps) =
        bind-Keeps (send_message e (Packet.publish p)) (λ _. send_publishes e ps)
          (send_message-Keeps (Packet.publish p)) (λ _. send_publishes-Keeps ps)

    pub send_pubrels-Keeps : (ids : List ℕ) (writer : Stream) → Keeps R (send_pubrels e ids writer)
    unfolding send_pubrels
    send_pubrels-Keeps [] writer = λ w r. r
    send_pubrels-Keeps (i ∷ ids) writer =
        bind-Keeps (send_packet e (Packet.pub_rel i) writer) (λ _. send_pubrels e ids writer)
          (send_packet-Keeps (Packet.pub_rel i) writer) (λ _. send_pubrels-Keeps ids writer)

    pub reply-Keeps :
        (p : Packet) (writer : Stream) (b : Bool) → Keeps R (send_packet e p writer >> pure b)
    reply-Keeps p writer b =
        bind-Keeps (send_packet e p writer) (λ _. pure b) (send_packet-Keeps p writer) (λ _ w r. r)

    pub subscribe_router-Keeps : (fs : List (Bytes × QoS)) → Keeps R (subscribe_router e fs)
    unfolding subscribe_router
    subscribe_router-Keeps fs = frame-Keeps (subscribe_router e fs) (λ w. ground arith)

    answer-Keeps :
        (i : ℕ) (codes : Option (List ℕ)) (ps : List PublishPacket) (writer : Stream)
        → Keeps R (answer e i codes ps writer)
    answer-Keeps i none ps writer = λ w r. r
    answer-Keeps i (some codes) ps writer =
        bind-Keeps _ (λ _. send_publishes e ps >> pure true) (send_packet-Keeps _ writer)
          (λ _.
            bind-Keeps (send_publishes e ps) (λ _. pure true) (send_publishes-Keeps ps)
              (λ _ w r. r))

    pub on_subscribe-Keeps :
        (p : SubscribePacket) (writer : Stream) → Keeps R (on_subscribe e p writer)
    unfolding on_subscribe
    on_subscribe-Keeps p writer w =
        let checked = authorize_filters e (client_name w.runtime.client_id) 0 p.topic_filters in
        bind-Keeps (subscribe_router e checked.authorized_filters)
          (λ done.
            answer e p.packet_id
              (return_codes checked.denied_indices (length p.topic_filters) 0 done.0) done.1 writer)
          (subscribe_router-Keeps checked.authorized_filters)
          (λ done. answer-Keeps p.packet_id _ done.1 writer) w

    pub on_unsubscribe-Keeps :
        (p : UnsubscribePacket) (writer : Stream) → Keeps R (on_unsubscribe e p writer)
    unfolding on_unsubscribe
    on_unsubscribe-Keeps p writer w = reply-Keeps _ writer true _

    pub on_pingreq-Keeps : (writer : Stream) → Keeps R (on_pingreq e writer)
    unfolding on_pingreq
    on_pingreq-Keeps writer = reply-Keeps _ writer true
