-- ===== src/Session/Outbound/Tracked.antt =====
-- The packet ids that a session gives out, and the messages that it keeps until they are acknowledged.
use iotd.Prelude.{
  ℕ, ◌+◌, ◌-◌, ◌<◌, ◌%◌, ◌^◌, ◌≡◌, refl, true, ◌&&◌, Option, none, some, List, [], ◌∷◌, ◌++◌, All,
  leb, ltb, not, Bool-cases, inl, inr, nat_eq, ◌==◌, if◌then◌else◌, arith,
}
use iotd.Protocol.Packet.{QoS, Packet, PublishPacket}
use iotd.Session.Types.{Instant, Qos2State, InflightMessage, Runtime}
use iotd.Session.Effect.{Env, Stream, ◌>>◌, pure, set_runtime, send_packet}
use iotd.Session.Outbound.{
  is_id, awaits_pub_rec, next_packet_id, acknowledge, mark_received, Retransmission, send_again,
  retransmissions, get_retransmission_interval_ms, send_tracked, on_publish_message, on_message,
  on_puback, on_pubrec, on_pubcomp, send_publishes, send_pubrels, on_retransmit,
}
use iotd.Session.Keeps.{
  Keeps, bind-Keeps, set_runtime-Keeps, if-Keeps, choose-Keeps, send_packet-Keeps, reply-Keeps,
  send_publishes-Keeps, send_pubrels-Keeps,
}

abbrev pub IsPacketId : ℕ → Type 0
IsPacketId i = (0 < i) × (i < 2 ^ 16)

-- A message that waits for an acknowledgement can be found by its id, and is marked for sending again.
pub record IsTracked (m : InflightMessage) : Type 0 where
  pub packet_id : ℕ
  pub id_lem : m.packet.packet_id ≡ some packet_id
  pub id-IsPacketId : IsPacketId packet_id
  pub dup_lem : m.packet.dup ≡ true

pub record IsRuntime (r : Runtime) : Type 0 where
  pub next : IsPacketId r.next_packet_id
  pub tracked : All IsTracked r.inflight_queue

append-All :
    (ms : List InflightMessage) (m : InflightMessage)
    → All IsTracked ms
    → IsTracked m
    → All IsTracked (ms ++ m ∷ [])
append-All [] m h t = (t, tt)
append-All (n ∷ ms) m h t = (h.0, append-All ms m h.1 t)

acknowledge-All :
    (i : ℕ) (ms : List InflightMessage) → All IsTracked ms → All IsTracked (acknowledge i ms)
unfolding acknowledge
acknowledge-All i [] h = tt
acknowledge-All i (m ∷ ms) h = elim (Bool-cases (is_id i m.packet.packet_id)) [
  | inl y ↦ rw y (acknowledge-All i ms h.1)
  | inr n ↦ rw n (h.0, acknowledge-All i ms h.1)
]

-- Another state, moment and count for the same packet.
same_packet : (m n : InflightMessage) → n.packet ≡ m.packet → IsTracked m → IsTracked n
same_packet m n same t = record {
  packet_id = t.packet_id;
  id_lem = rw same t.id_lem;
  id-IsPacketId = t.id-IsPacketId;
  dup_lem = rw same t.dup_lem;
}

mark_received-All :
    (now : Instant) (i : ℕ) (ms : List InflightMessage)
    → All IsTracked ms
    → All IsTracked (mark_received now i ms)
unfolding mark_received
mark_received-All now i [] h = tt
mark_received-All now i (m ∷ ms) h =
    elim (Bool-cases (is_id i m.packet.packet_id && awaits_pub_rec m.qos2_state)) [
      | inl y ↦ rw y (same_packet m _ refl h.0, h.1)
      | inr n ↦ rw n (h.0, mark_received-All now i ms h.1)
    ]

send_again-All :
    (m : InflightMessage) (s : Option Qos2State) (o : Option ℕ) (r : Retransmission)
    → IsTracked m
    → All IsTracked r.queue
    → All IsTracked (send_again m s o r).queue
send_again-All m none o r t h = (t, h)
send_again-All m (some Qos2State.awaiting_pub_rec) o r t h = (t, h)
send_again-All m (some Qos2State.awaiting_pub_comp) none r t h = (t, h)
send_again-All m (some Qos2State.awaiting_pub_comp) (some i) r t h = (t, h)

retransmissions-All :
    (interval limit : ℕ) (now : Instant) (ms : List InflightMessage)
    → All IsTracked ms
    → All IsTracked (retransmissions interval limit now ms).queue
unfolding retransmissions
retransmissions-All interval limit now [] h = tt
retransmissions-All interval limit now (m ∷ ms) h =
    let again = record m { retry_count = (m.retry_count + 1) % 2 ^ 32; timestamp = now } in
    let rest = retransmissions-All interval limit now ms h.1 in
    elim (Bool-cases (leb interval (now - m.timestamp))) [
      | inl due ↦ elim (Bool-cases (ltb limit ((m.retry_count + 1) % 2 ^ 32))) [
        | inl over ↦ rw (due, over) rest
        | inr again_once ↦
            rw (due, again_once)
              (send_again-All again again.qos2_state again.packet.packet_id
                (retransmissions interval limit now ms) (same_packet m again refl h.0) rest)
      ]
      | inr later ↦ rw later (h.0, rest)
    ]

next-IsPacketId : (n : ℕ) → IsPacketId n → IsPacketId (if n == 65535 then 1 else n + 1)
next-IsPacketId n h = ground arith

module _ {S : Type 0} (e : Env S) (writer : Stream) where
  send_tracked-IsRuntime :
      (s : Option Qos2State) (p : PublishPacket) → Keeps IsRuntime (send_tracked e s p writer)
  unfolding send_tracked next_packet_id
  send_tracked-IsRuntime s p w h =
      let packet_id = w.runtime.next_packet_id in
      let message : InflightMessage = record {
        packet = record p { packet_id = some packet_id; dup = true };
        timestamp = e.now;
        retry_count = 0;
        qos2_state = s;
      } in
      let is_tracked : IsTracked message = record {
        packet_id = packet_id;
        id_lem = refl;
        id-IsPacketId = h.next;
        dup_lem = refl;
      } in
      let push : Runtime → Runtime =
        λ r. record r { inflight_queue = r.inflight_queue ++ message ∷ [] } in
      let packet = Packet.publish (record p { packet_id = some packet_id }) in
      bind-Keeps IsRuntime (send_packet e packet writer) (λ _. set_runtime push)
        (send_packet-Keeps IsRuntime e packet writer)
        (λ _. set_runtime-Keeps IsRuntime push (λ r k. record {
          next = k.next;
          tracked = append-All r.inflight_queue message k.tracked is_tracked;
        }))
        (next_packet_id w).1
        (record { next = next-IsPacketId packet_id h.next; tracked = h.tracked })

  pub on_message-IsRuntime : (p : Packet) → Keeps IsRuntime (on_message e p writer)
  unfolding on_message
  on_message-IsRuntime (Packet.publish p) = publish_message p.qos p
    where
      publish_message :
          (q : QoS) (p : PublishPacket) → Keeps IsRuntime (on_publish_message e q p writer)
      publish_message QoS.at_most_once p = send_packet-Keeps IsRuntime e (Packet.publish p) writer
      publish_message QoS.at_least_once p =
          choose-Keeps IsRuntime (not p.dup) (send_tracked e none p writer)
            (send_packet e (Packet.publish p) writer) (send_tracked-IsRuntime none p)
            (send_packet-Keeps IsRuntime e (Packet.publish p) writer)
      publish_message QoS.exactly_once p =
          choose-Keeps IsRuntime (not p.dup)
            (send_tracked e (some Qos2State.awaiting_pub_rec) p writer)
            (send_packet e (Packet.publish p) writer)
            (send_tracked-IsRuntime (some Qos2State.awaiting_pub_rec) p)
            (send_packet-Keeps IsRuntime e (Packet.publish p) writer)
  on_message-IsRuntime _ = λ w h. h

  pub on_retransmit-IsRuntime : Keeps IsRuntime (on_retransmit e writer)
  unfolding on_retransmit
  on_retransmit-IsRuntime w h =
      let interval = get_retransmission_interval_ms e.config.retransmission_interval_ms in
      let after =
        retransmissions interval e.config.max_retransmission_limit e.now w.runtime.inflight_queue in
      let store : Runtime → Runtime = λ r. record r { inflight_queue = after.queue } in
      if-Keeps IsRuntime (interval == 0) (pure tt)
        (set_runtime store
          >> (send_publishes e after.publish_to_retransmit
              >> send_pubrels e after.pubrel_to_retransmit writer))
        (λ w h. h)
        (bind-Keeps IsRuntime (set_runtime store)
          (λ _.
            send_publishes e after.publish_to_retransmit
            >> send_pubrels e after.pubrel_to_retransmit writer)
          (set_runtime-Keeps IsRuntime store (λ r k. record {
            next = k.next;
            tracked =
                retransmissions-All interval e.config.max_retransmission_limit e.now
                  w.runtime.inflight_queue h.tracked;
          }))
          (λ _.
            bind-Keeps IsRuntime (send_publishes e after.publish_to_retransmit)
              (λ _. send_pubrels e after.pubrel_to_retransmit writer)
              (send_publishes-Keeps IsRuntime e after.publish_to_retransmit)
              (λ _. send_pubrels-Keeps IsRuntime e after.pubrel_to_retransmit writer)))
        w h

  pub on_puback-IsRuntime : (i : ℕ) → Keeps IsRuntime (on_puback e i writer)
  unfolding on_puback
  on_puback-IsRuntime i w h = record {
    next = h.next;
    tracked = acknowledge-All i w.runtime.inflight_queue h.tracked;
  }

  pub on_pubcomp-IsRuntime : (i : ℕ) → Keeps IsRuntime (on_pubcomp e i writer)
  unfolding on_pubcomp
  on_pubcomp-IsRuntime i w h = record {
    next = h.next;
    tracked = acknowledge-All i w.runtime.inflight_queue h.tracked;
  }

  pub on_pubrec-IsRuntime : (i : ℕ) → Keeps IsRuntime (on_pubrec e i writer)
  unfolding on_pubrec
  on_pubrec-IsRuntime i w h =
      reply-Keeps IsRuntime e (Packet.pub_rel i) writer true
        (record w {
          runtime = record w.runtime {
            inflight_queue = mark_received e.now i w.runtime.inflight_queue;
          };
        })
        (record {
          next = h.next;
          tracked = mark_received-All e.now i w.runtime.inflight_queue h.tracked;
        })
