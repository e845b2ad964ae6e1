-- ===== src/Session/Outbound/Resent.antt =====
-- One call of `on_retransmit` of src/session.rs, and `on_message` for what it puts into the own mailbox: with
-- room in the mailbox and a stream that takes every write, both return.
use iotd.Prelude.{
  ℕ, ◌+◌, ◌≤◌, ◌<◌, ◌≡◌, refl, ap, Bool, true, false, not, List, [], ◌∷◌, ◌++◌, length,
  length-append, All, ◌==◌, nat_eq, if◌then◌else◌, arith,
}
use iotd.Protocol.Packet.{QoS, Packet, PublishPacket}
use iotd.Session.Types.{Instant, InflightMessage}
use iotd.Session.Effect.{
  Env, World, Stream, Outcome, Action, IsChannel, message_capacity, ◌>>◌, pure, send_packet,
  send_message,
}
use iotd.Session.Outbound.{
  Retransmission, retransmissions, get_retransmission_interval_ms, on_publish_message, on_message,
  send_publishes, send_pubrels, on_retransmit,
}
use iotd.Session.Outbound.Retries.{IsDup, retransmissions-Bounded}

-- The action returns, and then `P` holds.
abbrev pub Ends : {S : Type 0} → (World S → Type 0) → Action S (Unit {0}) → World S → Type 0
Ends P m w = ((m w).0 ≡ Outcome.ok tt) × P (m w).1

-- A message for the client that `on_retransmit` has put into the mailbox.
abbrev pub IsResent : Packet → Type 0
IsResent (Packet.publish p) = p.dup ≡ true
IsResent _ = ⊥

append-IsResent :
    (ps : List Packet) (p : Packet) → All IsResent ps → IsResent p → All IsResent (ps ++ p ∷ [])
append-IsResent [] p h d = (d, tt)
append-IsResent (q ∷ ps) p h d = (h.0, append-IsResent ps p h.1 d)

module _ {S : Type 0} where
  pub bind-Ends :
      (P Q : World S → Type 0) (m n : Action S (Unit {0})) (w : World S)
      → Ends P m w
      → ((w' : World S) → P w' → Ends Q n w')
      → Ends Q (m >> n) w
  bind-Ends P Q m n w h k = rw h.0 (k (m w).1 h.1)

  -- What waits in the mailbox, and the queue of the messages in flight.
  abbrev pub Holds : List InflightMessage → World S → Type 0
  Holds queue w = (w.runtime.inflight_queue ≡ queue) × All IsResent w.messages

  abbrev pub IsRead : List InflightMessage → World S → Type 0
  IsRead queue w = (w.runtime.inflight_queue ≡ queue) × (w.messages ≡ [])

module _ {S : Type 0} (e : Env S) where
  abbrev pub at : Instant → Env S
  at t = record e { now = t }

  unfoldable pub read_all : List Packet → Stream → Action S (Unit {0})
  read_all [] writer = pure tt
  read_all (p ∷ ps) writer = do on_message e p writer; read_all ps writer

  -- The turns between two ticks.
  abbrev pub read_mailbox : Stream → Action S (Unit {0})
  read_mailbox writer w = read_all w.messages writer (record w { messages = [] })

  abbrev pub interval : ℕ
  interval = get_retransmission_interval_ms e.config.retransmission_interval_ms

module _ {S : Type 0} (e : Env S) (channel : IsChannel e) (writer : Stream)
    (writable : (n : ℕ) → e.accepts writer n ≡ true) where
  send_packet-Ends :
      (queue : List InflightMessage) (P : List Packet → Type 0) (p : Packet) (w : World S)
      → (w.runtime.inflight_queue ≡ queue) × P w.messages
      → Ends (λ w'. (w'.runtime.inflight_queue ≡ queue) × P w'.messages) (send_packet e p writer) w
  unfolding send_packet
  send_packet-Ends queue P p w h = rw (writable w.written) (refl, h)

  send_pubrels-Ends :
      (queue : List InflightMessage) (ids : List ℕ) (w : World S)
      → Holds queue w
      → Ends (Holds queue) (send_pubrels e ids writer) w
  unfolding send_pubrels
  send_pubrels-Ends queue [] w h = (refl, h)
  send_pubrels-Ends queue (i ∷ ids) w h =
      bind-Ends (Holds queue) (Holds queue) (send_packet e (Packet.pub_rel i) writer)
        (send_pubrels e ids writer) w (send_packet-Ends queue (All IsResent) (Packet.pub_rel i) w h)
        (send_pubrels-Ends queue ids)

  send_message-Ends :
      (p : Packet) (w : World S)
      → length w.messages < message_capacity
      → Ends (λ w'. w' ≡ record w { messages = w.messages ++ p ∷ [] }) (send_message e p) w
  unfolding send_message
  send_message-Ends p w room =
      rw (send_message, channel.send-room message_capacity p w.messages room) (refl, refl)

  send_publishes-Ends :
      (queue : List InflightMessage) (ps : List PublishPacket) (w : World S)
      → All (λ p. p.dup ≡ true) ps
      → length w.messages + length ps ≤ message_capacity
      → Holds queue w
      → Ends (Holds queue) (send_publishes e ps) w
  unfolding send_publishes
  send_publishes-Ends queue [] w d room h = (refl, h)
  send_publishes-Ends queue (p ∷ ps) w d room h =
      bind-Ends (λ w'. w' ≡ record w { messages = w.messages ++ Packet.publish p ∷ [] })
        (Holds queue) (send_message e (Packet.publish p)) (send_publishes e ps) w
        (send_message-Ends (Packet.publish p) w (omega arith))
        (λ w' same. rw same (
          send_publishes-Ends queue ps (record w { messages = w.messages ++ Packet.publish p ∷ [] })
            d.1 (omega (arith, length-append w.messages (Packet.publish p ∷ [])))
            (h.0, append-IsResent w.messages (Packet.publish p) h.1 d.0)))

  on_message-Ends :
      (queue : List InflightMessage) (p : Packet) (w : World S)
      → IsResent p
      → IsRead queue w
      → Ends (IsRead queue) (on_message e p writer) w
  unfolding on_message
  on_message-Ends queue (Packet.publish p) w d h = published p.qos
    where
      sent : Ends (IsRead queue) (send_packet e (Packet.publish p) writer) w
      sent = send_packet-Ends queue (λ ms. ms ≡ []) (Packet.publish p) w h

      if_dup :
          (m : Action S (Unit {0})) (b : Bool)
          → b ≡ true
          → Ends (IsRead queue) (send_packet e (Packet.publish p) writer) w
          → Ends (IsRead queue) (if not b then m else send_packet e (Packet.publish p) writer) w
      if_dup m true same h = h
      if_dup m false same h = absurd (ground (arith, same))

      published : (q : QoS) → Ends (IsRead queue) (on_publish_message e q p writer) w
      published QoS.at_most_once = sent
      published QoS.at_least_once = if_dup _ p.dup d sent
      published QoS.exactly_once = if_dup _ p.dup d sent
  on_message-Ends queue _ w d h = absurd d

  read_all-Ends :
      (queue : List InflightMessage) (ps : List Packet) (w : World S)
      → All IsResent ps
      → IsRead queue w
      → Ends (IsRead queue) (read_all e ps writer) w
  unfolding read_all
  read_all-Ends queue [] w d h = (refl, h)
  read_all-Ends queue (p ∷ ps) w d h =
      bind-Ends (IsRead queue) (IsRead queue) (on_message e p writer) (read_all e ps writer) w
        (on_message-Ends queue p w d.0 h) (λ w'. read_all-Ends queue ps w' d.1)

  abbrev pub again : World S → Retransmission
  again w =
      retransmissions (interval e) e.config.max_retransmission_limit e.now w.runtime.inflight_queue

  abbrev after_loop : World S → World S
  after_loop w = record w { runtime = record w.runtime { inflight_queue = (again w).queue } }

  -- A tick finds the mailbox read, and has room in it for all that it sends again.
  pub on_retransmit-Ends :
      (w : World S)
      → (interval e == 0) ≡ false
      → length w.runtime.inflight_queue ≤ message_capacity
      → All IsDup w.runtime.inflight_queue
      → w.messages ≡ []
      → Ends (Holds (again w).queue) (on_retransmit e writer) w
  unfolding on_retransmit
  on_retransmit-Ends w enabled room dup empty =
      let bounded =
        retransmissions-Bounded (interval e) e.config.max_retransmission_limit e.now
          w.runtime.inflight_queue dup in
      rw enabled (
        bind-Ends (Holds (again w).queue) (Holds (again w).queue)
          (send_publishes e (again w).publish_to_retransmit)
          (send_pubrels e (again w).pubrel_to_retransmit writer) (after_loop w)
          (send_publishes-Ends (again w).queue (again w).publish_to_retransmit (after_loop w)
            bounded.publish_dup (let few = bounded.publish_lem in omega (arith, ap length empty))
            (refl, rw empty tt))
          (send_pubrels-Ends (again w).queue (again w).pubrel_to_retransmit))

  pub read_mailbox-Ends :
      (queue : List InflightMessage) (w : World S)
      → Holds queue w
      → Ends (IsRead queue) (read_mailbox e writer) w
  read_mailbox-Ends queue w h =
      read_all-Ends queue w.messages (record w { messages = [] }) h.1 (h.0, refl)
