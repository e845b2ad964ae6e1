-- ===== src/Session/Run/PacketIds.antt =====
-- The invariant of a session over the turns of its state machine.
use iotd.Prelude.{
  Bytes, ℕ, Bool, true, false, Option, none, some, List, [], ◌∷◌, HashMap, nat_eq, insert, remove,
  contains_key, ltb, not, if◌then◌else◌,
}
use iotd.Protocol.Packet.{QoS, Packet, PublishPacket, accepted}
use iotd.Session.Types.{State, WillMessage, Runtime, ReceivedQos2Message}
use iotd.Session.Effect.{
  Env, Stream, TakeoverParams, Action, ◌>>=◌, ◌>>◌, pure, set_runtime, send_packet, unwrap_or_value,
}
use iotd.Session.Outbound.{on_message, on_retransmit}
use iotd.Session.Outbound.Tracked.{
  IsRuntime, on_message-IsRuntime, on_retransmit-IsRuntime, on_puback-IsRuntime,
  on_pubrec-IsRuntime, on_pubcomp-IsRuntime,
}
use iotd.Session.Inbound.{
  authorize_and_route, on_publish_1, on_publish_2, on_publish_at, on_publish, release, on_pubrel,
}
use iotd.Session.Subscribing.{on_disconnect}
use iotd.Session.Persist.{save_as, save_to_storage, delete_saved}
use iotd.Session.Connect.{send_connack, forget_saved, clear_session, on_takeover, remove_session}
use iotd.Router.Index
use iotd.Session.Keeps.{
  Keeps, bind-Keeps, if-Keeps, choose-Keeps, send_packet-Keeps, reply-Keeps, route_packet-Keeps,
  authorize_and_route-Keeps, on_subscribe-Keeps, on_unsubscribe-Keeps, on_pingreq-Keeps,
}
use iotd.Session.Run.{
  Command, Event, on_packet, will_packet, publish_taken, publish_will, leave, after, succeeds,
  processing_packet, processing_message, taken_over, processing_takeover, processing_command,
  do_processing, do_pending, enter, step,
}

-- The states after CONNECT.
abbrev pub IsConnected : State → Type 0
IsConnected State.waiting = ⊥
IsConnected _ = Unit

module _ {S : Type 0} (e : Env S) where
  -- Changes of the other fields.
  inbound_of :
      (r : Runtime) (m : HashMap ℕ ReceivedQos2Message)
      → IsRuntime r
      → IsRuntime (record r { inbound_qos2 = m })
  inbound_of r m h = record { next = h.next; tracked = h.tracked }

  publish_1-IsRuntime :
      (o : Option ℕ) (p : PublishPacket) (writer : Stream)
      → Keeps IsRuntime (on_publish_1 e o p writer)
  publish_1-IsRuntime none p writer = λ w h. h
  publish_1-IsRuntime (some i) p writer =
      bind-Keeps IsRuntime (send_packet e (Packet.pub_ack i) writer)
        (λ _. if p.dup then pure true else authorize_and_route e p)
        (send_packet-Keeps IsRuntime e (Packet.pub_ack i) writer)
        (λ _.
          choose-Keeps IsRuntime p.dup (pure true) (authorize_and_route e p) (λ w h. h)
            (authorize_and_route-Keeps IsRuntime e p))

  publish_2-IsRuntime :
      (o : Option ℕ) (p : PublishPacket) (writer : Stream)
      → Keeps IsRuntime (on_publish_2 e o p writer)
  publish_2-IsRuntime none p writer = λ w h. h
  publish_2-IsRuntime (some i) p writer = λ w.
      if-Keeps IsRuntime (contains_key i w.runtime.inbound_qos2)
        (send_packet e (Packet.pub_rec i) writer >> pure true)
        (set_runtime
            (λ r. record r { inbound_qos2 = insert i (record { packet = p }) r.inbound_qos2 })
          >> (send_packet e (Packet.pub_rec i) writer >> pure true))
        (reply-Keeps IsRuntime e (Packet.pub_rec i) writer true)
        (λ w h. reply-Keeps IsRuntime e (Packet.pub_rec i) writer true _ (inbound_of w.runtime _ h))
        w

  publish-IsRuntime :
      (q : QoS) (p : PublishPacket) (writer : Stream) → Keeps IsRuntime (on_publish_at e q p writer)
  publish-IsRuntime QoS.at_most_once p writer = authorize_and_route-Keeps IsRuntime e p
  publish-IsRuntime QoS.at_least_once p writer = publish_1-IsRuntime p.packet_id p writer
  publish-IsRuntime QoS.exactly_once p writer = publish_2-IsRuntime p.packet_id p writer

  release-IsRuntime : (i : ℕ) (o : Option ReceivedQos2Message) → Keeps IsRuntime (release e i o)
  release-IsRuntime i none = λ w h. h
  release-IsRuntime i (some m) = λ w h.
      authorize_and_route-Keeps IsRuntime e m.packet
        (record w { runtime = record w.runtime { inbound_qos2 = remove i w.runtime.inbound_qos2 } })
        (inbound_of w.runtime (remove i w.runtime.inbound_qos2) h)

  on_packet-IsRuntime : (p : Packet) (writer : Stream) → Keeps IsRuntime (on_packet e p writer)
  unfolding on_packet on_publish on_pubrel on_disconnect
  on_packet-IsRuntime (Packet.publish p) writer = publish-IsRuntime p.qos p writer
  on_packet-IsRuntime (Packet.pub_ack i) writer = on_puback-IsRuntime e writer i
  on_packet-IsRuntime (Packet.pub_rec i) writer = on_pubrec-IsRuntime e writer i
  on_packet-IsRuntime (Packet.pub_rel i) writer =
      bind-Keeps IsRuntime (send_packet e (Packet.pub_comp i) writer) (λ _ w. release e i _ w)
        (send_packet-Keeps IsRuntime e (Packet.pub_comp i) writer) (λ _ w. release-IsRuntime i _ w)
  on_packet-IsRuntime (Packet.pub_comp i) writer = on_pubcomp-IsRuntime e writer i
  on_packet-IsRuntime (Packet.subscribe p) writer = on_subscribe-Keeps IsRuntime e p writer
  on_packet-IsRuntime (Packet.unsubscribe p) writer = on_unsubscribe-Keeps IsRuntime e p writer
  on_packet-IsRuntime Packet.ping_req writer = on_pingreq-Keeps IsRuntime e writer
  on_packet-IsRuntime Packet.disconnect writer =
      λ w h. record { next = h.next; tracked = h.tracked }
  on_packet-IsRuntime _ writer = λ w h. h

  or_value-IsRuntime {κ} :
      {A : Type κ} (a : A) (m : Action S A)
      → Keeps IsRuntime m
      → Keeps IsRuntime (unwrap_or_value a m)
  or_value-IsRuntime a m h = h

  leave-IsRuntime : (b : Bool) → Keeps IsRuntime (leave e b)
  leave-IsRuntime b = λ w h. h

  after-IsRuntime : (b : Bool) → Keeps IsRuntime (after e b)
  after-IsRuntime true = λ w h. h
  after-IsRuntime false = λ w h. h

  succeeds-IsRuntime :
      (m : Action S (Unit {0})) → Keeps IsRuntime m → Keeps IsRuntime (succeeds e m)
  succeeds-IsRuntime m h = bind-Keeps IsRuntime m (λ _. pure true) h (λ _ w k. k)

  forget_saved-IsRuntime : (o : Option Bytes) → Keeps IsRuntime (forget_saved e o)
  unfolding delete_saved
  forget_saved-IsRuntime none = λ w h. h
  forget_saved-IsRuntime (some c) = λ w h. h

  clear_session-IsRuntime : (b : Bool) → Keeps IsRuntime (clear_session e b)
  clear_session-IsRuntime false = λ w h. h
  clear_session-IsRuntime true = λ w.
      bind-Keeps IsRuntime (forget_saved e w.runtime.client_id)
        (λ _. set_runtime (λ r. record r { inflight_queue = [] }))
        (forget_saved-IsRuntime w.runtime.client_id)
        (λ _ w k. record { next = k.next; tracked = tt })
        (record w { router = Index.unsubscribe_all w.runtime.id w.router })

  on_takeover-IsRuntime : (p : TakeoverParams) → Keeps IsRuntime (on_takeover e p)
  unfolding on_takeover
  on_takeover-IsRuntime p =
      bind-Keeps IsRuntime (send_connack e (not p.clean_session) accepted p.stream)
        (λ _.
          set_runtime (λ r. record r { clean_session = p.clean_session; keep_alive = p.keep_alive })
          >> clear_session e p.clean_session)
        (send_packet-Keeps IsRuntime e _ p.stream)
        (λ _ w h.
          clear_session-IsRuntime p.clean_session
            (record w {
              runtime = record w.runtime {
                clean_session = p.clean_session;
                keep_alive = p.keep_alive;
              };
            })
            (record { next = h.next; tracked = h.tracked }))

  taken_over-IsRuntime :
      (b : Bool) (p : TakeoverParams) (o : State) → Keeps IsRuntime (taken_over e b p o)
  taken_over-IsRuntime true p o = λ w h. h
  taken_over-IsRuntime false p o = λ w h. h

  takeover-IsRuntime :
      (p : TakeoverParams) (o : State)
      → Keeps IsRuntime (do success ← succeeds e (on_takeover e p); taken_over e success p o)
  takeover-IsRuntime p o =
      bind-Keeps IsRuntime (succeeds e (on_takeover e p)) (λ success. taken_over e success p o)
        (succeeds-IsRuntime (on_takeover e p) (on_takeover-IsRuntime p))
        (λ success. taken_over-IsRuntime success p o)

  processing_command-IsRuntime :
      (c : Option Command) (writer : Stream) → Keeps IsRuntime (processing_command e c writer)
  processing_command-IsRuntime none writer = λ w h. h
  processing_command-IsRuntime (some Command.cancel) writer = λ w h. h
  processing_command-IsRuntime (some (Command.takeover p)) writer = λ w.
      bind-Keeps IsRuntime (succeeds e (send_packet e Packet.disconnect writer))
        (λ _. processing_takeover e p)
        (succeeds-IsRuntime _ (send_packet-Keeps IsRuntime e Packet.disconnect writer))
        (λ _. takeover-IsRuntime p _) (record w { stream = none })

  round-IsRuntime : (m : Action S Bool) → Keeps IsRuntime m → Keeps IsRuntime (m >>= after e)
  round-IsRuntime m h = bind-Keeps IsRuntime m (after e) h after-IsRuntime

  processing_packet-IsRuntime :
      (p : Option Packet) (writer : Stream) → Keeps IsRuntime (processing_packet e p writer)
  processing_packet-IsRuntime none writer = after-IsRuntime false
  processing_packet-IsRuntime (some p) writer =
      round-IsRuntime (unwrap_or_value false (on_packet e p writer)) (on_packet-IsRuntime p writer)

  processing_message-IsRuntime :
      (ms : List Packet) (writer : Stream) → Keeps IsRuntime (processing_message e ms writer)
  processing_message-IsRuntime [] writer = λ w h. h
  processing_message-IsRuntime (m ∷ ms) writer = λ w.
      round-IsRuntime (succeeds e (on_message e m writer))
        (succeeds-IsRuntime (on_message e m writer) (on_message-IsRuntime e writer m))
        (record w { messages = ms })

  do_processing-IsRuntime :
      (event : Event S) (o : Option Stream) → Keeps IsRuntime (do_processing e event o)
  do_processing-IsRuntime event none = λ w h. h
  do_processing-IsRuntime (Event.packet p) (some writer) = processing_packet-IsRuntime p writer
  do_processing-IsRuntime Event.message (some writer) =
      λ w. processing_message-IsRuntime w.messages writer w
  do_processing-IsRuntime (Event.command c) (some writer) = processing_command-IsRuntime c writer
  do_processing-IsRuntime Event.keep_alive_tick (some writer) = λ w.
      if-Keeps IsRuntime (ltb 0 w.runtime.keep_alive) (leave e w.runtime.clean_session)
        (pure State.processing) (λ w h. h) (λ w h. h) w
  do_processing-IsRuntime Event.retransmit_tick (some writer) =
      round-IsRuntime (succeeds e (on_retransmit e writer))
        (succeeds-IsRuntime (on_retransmit e writer) (on_retransmit-IsRuntime e writer))
  do_processing-IsRuntime (Event.elsewhere r s n a) (some writer) = λ w h. h

  do_pending-IsRuntime : (c : Option Command) → Keeps IsRuntime (do_pending e c)
  do_pending-IsRuntime none = λ w h. h
  do_pending-IsRuntime (some Command.cancel) = λ w h. h
  do_pending-IsRuntime (some (Command.takeover p)) = takeover-IsRuntime p State.pending

  publish_taken-IsRuntime : (o : Option WillMessage) → Keeps IsRuntime (publish_taken e o)
  publish_taken-IsRuntime none = λ w h. h
  publish_taken-IsRuntime (some will) = λ w h.
      route_packet-Keeps IsRuntime e (will_packet e will)
        (record w { runtime = record w.runtime { will_message = none } })
        (record { next = h.next; tracked = h.tracked })

  save_as-IsRuntime : (o : Option Bytes) → Keeps IsRuntime (save_as e o)
  save_as-IsRuntime none = λ w h. h
  save_as-IsRuntime (some c) = λ w h. h

  enter-IsRuntime : (s : State) → Keeps IsRuntime (enter e s)
  unfolding publish_will remove_session save_to_storage
  enter-IsRuntime State.waiting = λ w h. h
  enter-IsRuntime State.processing = λ w h. h
  enter-IsRuntime State.pending = λ w.
      bind-Keeps IsRuntime (save_as e w.runtime.client_id) (λ _. pure State.pending)
        (save_as-IsRuntime w.runtime.client_id) (λ _ w h. h) w
  enter-IsRuntime State.cleanup = λ w.
      bind-Keeps IsRuntime (publish_taken e w.runtime.will_message)
        (λ _. remove_session >> pure State.cleanup) (publish_taken-IsRuntime w.runtime.will_message)
        (λ _ w h. h) w

  -- Every turn of a session that has had its CONNECT, whatever happens in it, keeps the next packet id
  -- within 1 to 65535, and each message that waits for an acknowledgement under such an id and with the
  -- DUP flag for sending it again.
  pub step-IsRuntime :
      (event : Event S) (state : State) → IsConnected state → Keeps IsRuntime (step e event state)
  unfolding step
  step-IsRuntime (Event.elsewhere r s n a) state c = λ w h. h
  step-IsRuntime event State.waiting c = absurd c
  step-IsRuntime event State.processing c = λ w.
      bind-Keeps IsRuntime (do_processing e event w.stream) (enter e)
        (do_processing-IsRuntime event w.stream) enter-IsRuntime w
  step-IsRuntime (Event.command c) State.pending _ =
      bind-Keeps IsRuntime (do_pending e c) (enter e) (do_pending-IsRuntime c) enter-IsRuntime
  step-IsRuntime _ State.pending c = λ w h. h
  step-IsRuntime _ State.cleanup c = λ w h. h
