-- ===== src/Session/Subscribing/Answer.antt =====
-- What SUBSCRIBE answers: one code for each filter, and never an index out of range.
use iotd.Prelude.{
  ◌≤◌, ◌+◌, ◌⊎◌, length-append, ℕ, suc, Bytes, ◌<◌, ◌≡◌, refl, ◌∙◌, true, none, some, List, [], ◌∷◌,
  ◌++◌, map, length, nat_eq, inl, inr, arith,
}
use iotd.Protocol.Packet.{QoS, Packet, PublishPacket, SubscribePacket}
use iotd.Router.Subscribe.{subscribe, subscribe_loop}
use iotd.Router.Subscribe.Codes.{code, codes-subscribe}
use iotd.Session.Effect.{
  IsChannel, message_capacity, Env, Stream, World, Outcome, continue, ◌>>◌, pure, send_packet,
  send_message,
}
use iotd.Session.Inbound.{client_name}
use iotd.Session.Outbound.{send_publishes}
use iotd.Session.Subscribing.ReturnCodes.{answer_code, return_codes-map}
use iotd.Session.Subscribing.{authorize_filters, subscribe_router, on_subscribe}

module _ {S : Type 0} (e : Env S) where
  -- The retained messages that the router gives for a list of filters.
  abbrev pub retained_messages : List (Bytes × QoS) → World S → List PublishPacket
  retained_messages fs w =
      (subscribe e.storage w.runtime.id w.message_tx w.storage fs w.router).retained_to_send

  -- `subscribe_router` returns, with the router's codes and messages, and writes nothing.
  codes-subscribe_router :
      (fs : List (Bytes × QoS)) (w : World S)
      → (found : List ℕ × List PublishPacket) × ((subscribe_router e fs w).0 ≡ Outcome.ok found)
        × (found.0 ≡ map code fs)
        × ((subscribe_router e fs w).1.sent ≡ w.sent)
        × ((subscribe_router e fs w).1.written ≡ w.written)
        × ((subscribe_router e fs w).1.messages ≡ w.messages)
        × (found.1 ≡ retained_messages fs w)
  unfolding subscribe_router subscribe subscribe_loop
  codes-subscribe_router [] w = (([], []), refl, refl, refl, refl, refl, refl)
  codes-subscribe_router (f ∷ fs) w = (
    _,
    refl,
    codes-subscribe e.storage w.runtime.id w.message_tx w.storage (f ∷ fs) w.router,
    refl,
    refl,
    refl,
    refl,
  )

  sent-send_message : (p : Packet) (w : World S) → (send_message e p w).1.sent ≡ w.sent
  unfolding send_message
  sent-send_message p w = ground arith

  sent-send_publishes :
      (ps : List PublishPacket) (w : World S) → (send_publishes e ps w).1.sent ≡ w.sent
  unfolding send_publishes
  sent-send_publishes [] w = refl
  sent-send_publishes (p ∷ ps) w = ground (
    arith,
    sent-send_message (Packet.publish p) w,
    sent-send_publishes ps (send_message e (Packet.publish p) w).1,
  )

  sent-continue :
      (o : Outcome (Unit {0})) (w : World S) → (continue o (λ _. pure true) w).1.sent ≡ w.sent
  sent-continue (Outcome.ok tt) w = refl
  sent-continue _ w = refl

  sent-publishing :
      (ps : List PublishPacket) (w : World S)
      → ((send_publishes e ps >> pure true) w).1.sent ≡ w.sent
  sent-publishing ps w =
      sent-continue (send_publishes e ps w).0 (send_publishes e ps w).1 ∙ sent-send_publishes ps w

  -- SUBSCRIBE is answered, where the answer can be written, by one SUBACK with one code for each filter
  -- in their order: 0x80 if the client may not subscribe to it or it is not well formed, and else the
  -- requested QoS.
  pub sent-on_subscribe :
      (p : SubscribePacket) (writer : Stream) (w : World S)
      → e.accepts writer w.written ≡ true
      → (on_subscribe e p writer w).1.sent
        ≡ w.sent
          ++ (
            writer,
            Packet.sub_ack (record {
              packet_id = p.packet_id;
              return_codes = map (answer_code e (client_name w.runtime.client_id)) p.topic_filters;
            }),
          )
            ∷ []
  unfolding on_subscribe send_packet
  sent-on_subscribe p writer w written =
      let checked = authorize_filters e (client_name w.runtime.client_id) 0 p.topic_filters in
      let done = codes-subscribe_router checked.authorized_filters w in
      rw
        (
          done.1,
          done.2,
          return_codes-map e (client_name w.runtime.client_id) p.topic_filters 0,
          done.4,
          written,
        )
        (sent-publishing done.0.1 (record (subscribe_router e checked.authorized_filters w).1 {
          written = suc w.written;
          sent =
              (subscribe_router e checked.authorized_filters w).1.sent
              ++ (
                writer,
                Packet.sub_ack (record {
                  packet_id = p.packet_id;
                  return_codes =
                      map (answer_code e (client_name w.runtime.client_id)) p.topic_filters;
                }),
              )
                ∷ [];
        })
          ∙ rw done.3 refl)

  send_message-full :
      (p : Packet) (w : World S)
      → e.channel_send message_capacity p w.messages ≡ none
      → send_message e p w ≡ (Outcome.stuck, w)
  unfolding send_message
  send_message-full p w full = rw (full, send_message) refl

  send_message-room :
      (p : Packet) (w : World S) (queue : List Packet)
      → e.channel_send message_capacity p w.messages ≡ some queue
      → send_message e p w ≡ (Outcome.ok tt, record w { messages = queue })
  unfolding send_message
  send_message-room p w queue room = rw (room, send_message) refl

  -- `send_publishes` waits for ever once the channel is full.
  send_publishes-stuck :
      IsChannel e
      → (ps : List PublishPacket) (w : World S) → length w.messages ≤ message_capacity
      → message_capacity < length w.messages + length ps
      → (send_publishes e ps w).0 ≡ Outcome.stuck
  unfolding send_publishes
  send_publishes-stuck c [] w h more = absurd (omega arith)
  send_publishes-stuck c (p ∷ ps) w h more = elim (le_cases message_capacity (length w.messages)) [
    | inl full ↦
        rw
          (send_message-full (Packet.publish p) w
            (c.send-full message_capacity (Packet.publish p) w.messages full))
          refl
    | inr room ↦
        rw
          (send_message-room (Packet.publish p) w (w.messages ++ Packet.publish p ∷ [])
            (c.send-room message_capacity (Packet.publish p) w.messages room))
          (send_publishes-stuck c ps (record w { messages = w.messages ++ Packet.publish p ∷ [] })
            (omega (arith, length-append w.messages (Packet.publish p ∷ [])))
            (omega (arith, length-append w.messages (Packet.publish p ∷ []))))
  ]
    where
      le_cases : (m n : ℕ) → (m ≤ n) ⊎ (n < m)
      le_cases m n = omega arith

  -- Where the retained messages for a SUBSCRIBE do not all fit into the session's own channel, the
  -- session waits for ever: the channel is read by the task that sends to it.
  pub on_subscribe-stuck :
      IsChannel e
      → (p : SubscribePacket) (writer : Stream) (w : World S) → e.accepts writer w.written ≡ true
      → length w.messages ≤ message_capacity
      → let filters =
          (authorize_filters e
            (client_name w.runtime.client_id)
            0
            p.topic_filters).authorized_filters in
        message_capacity < length w.messages + length (retained_messages filters w)
        → (on_subscribe e p writer w).0 ≡ Outcome.stuck
  unfolding on_subscribe send_packet
  on_subscribe-stuck c p writer w written fits more =
      let checked = authorize_filters e (client_name w.runtime.client_id) 0 p.topic_filters in
      let done = codes-subscribe_router checked.authorized_filters w in
      rw
        (
          done.1,
          done.2,
          return_codes-map e (client_name w.runtime.client_id) p.topic_filters 0,
          done.4,
          written,
        )
        (rw
          (send_publishes-stuck c done.0.1
            (record (subscribe_router e checked.authorized_filters w).1 {
              written = suc w.written;
              sent =
                  (subscribe_router e checked.authorized_filters w).1.sent
                  ++ (
                    writer,
                    Packet.sub_ack (record {
                      packet_id = p.packet_id;
                      return_codes =
                          map (answer_code e (client_name w.runtime.client_id)) p.topic_filters;
                    }),
                  )
                    ∷ [];
            })
            (rw done.5 fits) (rw (done.5, done.6) more))
          refl)
