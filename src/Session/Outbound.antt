-- ===== src/Session/Outbound.antt =====
-- src/session.rs: messages to the client. `on_message` sends what waits in the mailbox and keeps what
-- has to be acknowledged; PUBACK, PUBREC and PUBCOMP move it on, and `on_retransmit` sends it again.
pub mod Tracked
pub mod Retries
pub mod Resent
pub mod Ticks
use iotd.Prelude.{
  ℕ, ◌+◌, ◌-◌, ◌%◌, ◌^◌, Bool, true, false, ◌&&◌, Option, none, some, List, [], ◌∷◌, ◌++◌, not, leb,
  ltb, ◌==◌, nat_eq, if◌then◌else◌,
}
use iotd.Protocol.Packet.{QoS, Packet, PublishPacket}
use iotd.Session.Types.{Instant, Qos2State, InflightMessage}
use iotd.Session.Effect.{
  Env, Stream, Outcome, Action, ◌>>=◌, ◌>>◌, pure, set_runtime, send_packet, send_message,
}

-- `id == Some(packet_id)`
abbrev pub is_id : ℕ → Option ℕ → Bool
is_id packet_id none = false
is_id packet_id (some n) = n == packet_id

abbrev pub awaits_pub_rec : Option Qos2State → Bool
awaits_pub_rec (some Qos2State.awaiting_pub_rec) = true
awaits_pub_rec _ = false

-- `Runtime::next_packet_id`: the counter is a `u16`, and 0 is not an id.
unfoldable pub next_packet_id : {S : Type 0} → Action S ℕ
next_packet_id w = (
  Outcome.ok w.runtime.next_packet_id,
  record w {
    runtime = record w.runtime {
      next_packet_id =
          if w.runtime.next_packet_id == 65535 then 1 else w.runtime.next_packet_id + 1;
    };
  },
)

-- The removal in `on_puback` and `on_pubcomp`.
unfoldable pub acknowledge : ℕ → List InflightMessage → List InflightMessage
acknowledge packet_id [] = []
acknowledge packet_id (m ∷ ms) =
    let rest = acknowledge packet_id ms in
    if is_id packet_id m.packet.packet_id then rest else m ∷ rest

-- The loop of `on_pubrec`: the first message that waits for this PUBREC.
unfoldable pub mark_received : Instant → ℕ → List InflightMessage → List InflightMessage
mark_received now packet_id [] = []
mark_received now packet_id (m ∷ ms) =
    let rest = mark_received now packet_id ms in
    if is_id packet_id m.packet.packet_id && awaits_pub_rec m.qos2_state
    then record m {
      qos2_state = some Qos2State.awaiting_pub_comp;
      timestamp = now;
      retry_count = 0;
    }
      ∷ ms
    else m ∷ rest

-- What the loop of `on_retransmit` leaves and collects.
pub record Retransmission : Type 0 where
  pub queue : List InflightMessage
  pub publish_to_retransmit : List PublishPacket
  pub pubrel_to_retransmit : List ℕ

-- A message that is due again, with its counter already increased, before those that follow it.
abbrev pub send_again :
    InflightMessage → Option Qos2State → Option ℕ → Retransmission → Retransmission
send_again m (some Qos2State.awaiting_pub_comp) (some packet_id) r = record r {
  queue = m ∷ r.queue;
  pubrel_to_retransmit = packet_id ∷ r.pubrel_to_retransmit;
}
send_again m (some Qos2State.awaiting_pub_comp) none r = record r { queue = m ∷ r.queue }
send_again m (some Qos2State.awaiting_pub_rec) _ r = record r {
  queue = m ∷ r.queue;
  publish_to_retransmit = m.packet ∷ r.publish_to_retransmit;
}
send_again m none _ r = record r {
  queue = m ∷ r.queue;
  publish_to_retransmit = m.packet ∷ r.publish_to_retransmit;
}

-- `duration_since` is 0 for a moment that is still to come, and the counter has 32 bits.
unfoldable pub retransmissions : ℕ → ℕ → Instant → List InflightMessage → Retransmission
retransmissions interval limit now [] = record {
  queue = [];
  publish_to_retransmit = [];
  pubrel_to_retransmit = [];
}
retransmissions interval limit now (m ∷ ms) =
    let rest = retransmissions interval limit now ms in
    let again = record m { retry_count = (m.retry_count + 1) % 2 ^ 32; timestamp = now } in
    if leb interval (now - m.timestamp)
    then (if ltb limit again.retry_count
        then rest
        else send_again again again.qos2_state again.packet.packet_id rest)
    else record rest { queue = m ∷ rest.queue }

-- `Config::get_retransmission_interval_ms` of src/config.rs
unfoldable pub get_retransmission_interval_ms : ℕ → ℕ
get_retransmission_interval_ms retransmission_interval_ms =
    if retransmission_interval_ms == 0
    then 0
    else if leb retransmission_interval_ms 500
    then 500
    else retransmission_interval_ms

module _ {S : Type 0} (e : Env S) where
  -- The branches of `on_message` for QoS 1 and 2 that track the message.
  unfoldable pub send_tracked : Option Qos2State → PublishPacket → Stream → Action S (Unit {0})
  send_tracked qos2_state pub_packet writer = do
    packet_id ← next_packet_id
    send_packet e (Packet.publish (record pub_packet { packet_id = some packet_id })) writer
    set_runtime (λ r. record r {
      inflight_queue =
          r.inflight_queue
          ++ record {
            packet = record pub_packet { packet_id = some packet_id; dup = true };
            timestamp = e.now;
            retry_count = 0;
            qos2_state = qos2_state;
          }
            ∷ [];
    })

  abbrev pub on_publish_message : QoS → PublishPacket → Stream → Action S (Unit {0})
  on_publish_message QoS.at_most_once pub_packet writer =
      send_packet e (Packet.publish pub_packet) writer
  on_publish_message QoS.at_least_once pub_packet writer =
      if not pub_packet.dup
      then send_tracked none pub_packet writer
      else send_packet e (Packet.publish pub_packet) writer
  on_publish_message QoS.exactly_once pub_packet writer =
      if not pub_packet.dup
      then send_tracked (some Qos2State.awaiting_pub_rec) pub_packet writer
      else send_packet e (Packet.publish pub_packet) writer

  unfoldable pub on_message : Packet → Stream → Action S (Unit {0})
  on_message (Packet.publish pub_packet) writer =
      on_publish_message pub_packet.qos pub_packet writer
  on_message _ writer = pure tt

  unfoldable pub on_puback : ℕ → Stream → Action S Bool
  on_puback packet_id writer = do
    set_runtime (λ r. record r { inflight_queue = acknowledge packet_id r.inflight_queue })
    pure true

  unfoldable pub on_pubrec : ℕ → Stream → Action S Bool
  on_pubrec packet_id writer = do
    set_runtime (λ r. record r { inflight_queue = mark_received e.now packet_id r.inflight_queue })
    send_packet e (Packet.pub_rel packet_id) writer
    pure true

  unfoldable pub on_pubcomp : ℕ → Stream → Action S Bool
  on_pubcomp packet_id writer = do
    set_runtime (λ r. record r { inflight_queue = acknowledge packet_id r.inflight_queue })
    pure true

  unfoldable pub send_publishes : List PublishPacket → Action S (Unit {0})
  send_publishes [] = pure tt
  send_publishes (packet ∷ rest) = do send_message e (Packet.publish packet); send_publishes rest

  unfoldable pub send_pubrels : List ℕ → Stream → Action S (Unit {0})
  send_pubrels [] writer = pure tt
  send_pubrels (packet_id ∷ rest) writer = do
    send_packet e (Packet.pub_rel packet_id) writer
    send_pubrels rest writer

  unfoldable pub on_retransmit : Stream → Action S (Unit {0})
  on_retransmit writer w =
      let interval = get_retransmission_interval_ms e.config.retransmission_interval_ms in
      let after =
        retransmissions interval e.config.max_retransmission_limit e.now w.runtime.inflight_queue in
      if interval == 0
      then (Outcome.ok tt, w)
      else (do
        set_runtime (λ r. record r { inflight_queue = after.queue })
        send_publishes after.publish_to_retransmit
        send_pubrels after.pubrel_to_retransmit writer)
          w
