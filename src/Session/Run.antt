-- ===== src/Session/Run.antt =====
-- src/session.rs: the state machine of a session. Each branch of a `select!` is an event; between two
-- events the rest of the broker may change what is shared.
pub mod Collision
pub mod PacketIds
pub mod Cancel
mod Tests
use iotd.Prelude.{
  ℕ, Bytes, Bool, true, false, Option, none, some, List, [], ◌∷◌, ◌++◌, HashMap, ltb, if◌then◌else◌,
}
use iotd.Protocol.Packet.{QoS, Packet, PublishPacket}
use iotd.Router.Index.{Mailbox, RouterInternal}
use iotd.Session.Types.{WillMessage, State}
use iotd.Session.Effect.{
  Env, Stream, TakeoverParams, Outcome, Action, ◌>>=◌, ◌>>◌, pure, set_runtime, send_packet,
  route_packet, unwrap_or_value,
}
use iotd.Session.Outbound.{on_message, on_puback, on_pubrec, on_pubcomp, on_retransmit}
use iotd.Session.Inbound.{on_publish, on_pubrel}
use iotd.Session.Subscribing.{on_subscribe, on_unsubscribe, on_pingreq, on_disconnect}
use iotd.Session.Persist.{save_to_storage}
use iotd.Session.Connect.{on_connect, on_takeover, remove_session}

pub data Command : Type 0 where
  takeover : TakeoverParams → Command
  cancel : Command

pub data Event (S : Type 0) : Type 0 where
  -- what `Packet::decode` read, or an error
  packet : Option Packet → Event S
  -- `message_rx` and `command_rx`
  message : Event S
  command : Option Command → Event S
  keep_alive_tick retransmit_tick : Event S
  -- other tasks: what they leave in the broker, and what they send to this mailbox
  elsewhere : RouterInternal → S → HashMap Bytes Mailbox → List Packet → Event S

module _ {S : Type 0} (e : Env S) where
  unfoldable pub on_packet : Packet → Stream → Action S Bool
  on_packet (Packet.publish p) writer = on_publish e p writer
  on_packet (Packet.pub_ack p) writer = on_puback e p writer
  on_packet (Packet.pub_rec p) writer = on_pubrec e p writer
  on_packet (Packet.pub_rel p) writer = on_pubrel e p writer
  on_packet (Packet.pub_comp p) writer = on_pubcomp e p writer
  on_packet (Packet.subscribe p) writer = on_subscribe e p writer
  on_packet (Packet.unsubscribe p) writer = on_unsubscribe e p writer
  on_packet Packet.ping_req writer = on_pingreq e writer
  on_packet Packet.disconnect writer = on_disconnect
  on_packet _ writer = pure false

  abbrev pub will_packet : WillMessage → PublishPacket
  will_packet will = record {
    topic = will.topic;
    packet_id = none;
    payload = will.payload;
    qos = QoS.at_most_once;
    retain = will.retain;
    dup = false;
  }

  abbrev pub publish_taken : Option WillMessage → Action S (Unit {0})
  publish_taken none = pure tt
  publish_taken (some will) = do
    set_runtime (λ r. record r { will_message = none })
    route_packet e (will_packet will)

  unfoldable pub publish_will : Action S (Unit {0})
  publish_will w = publish_taken w.runtime.will_message w

  -- The state after a break, with the stream gone.
  abbrev pub leave : Bool → Action S State
  leave clean_session w = (
    Outcome.ok (if clean_session then State.cleanup else State.pending),
    record w { stream = none },
  )

  -- A round of the loop goes on, or breaks.
  abbrev pub after : Bool → Action S State
  after true w = (Outcome.ok State.processing, w)
  after false w = leave w.runtime.clean_session w

  abbrev pub waiting_packet : Option Packet → Stream → Action S State
  waiting_packet (some (Packet.connect connect)) stream =
      unwrap_or_value State.cleanup (on_connect e connect stream)
  waiting_packet _ stream = pure State.cleanup

  abbrev pub do_waiting : Event S → Option Stream → Action S State
  do_waiting _ none w = (Outcome.ok State.cleanup, w)
  do_waiting (Event.packet pack) (some stream) w =
      waiting_packet pack stream (record w { stream = none })
  do_waiting (Event.command c) (some stream) w =
      (Outcome.ok State.cleanup, record w { stream = none })
  do_waiting _ (some stream) w = (Outcome.ok State.waiting, w)

  abbrev pub processing_packet : Option Packet → Stream → Action S State
  processing_packet none writer = after false
  processing_packet (some pack) writer = do
    success ← unwrap_or_value false (on_packet pack writer)
    after success

  abbrev pub succeeds : Action S (Unit {0}) → Action S Bool
  succeeds m = unwrap_or_value false (do m; pure true)

  abbrev pub processing_message : List Packet → Stream → Action S State
  processing_message [] writer w = (Outcome.ok State.processing, w)
  processing_message (m ∷ rest) writer w =
      (do success ← succeeds (on_message e m writer); after success) (record w { messages = rest })

  -- The takeover of a session: the stream is that of the new client.
  abbrev pub taken_over : Bool → TakeoverParams → State → Action S State
  taken_over true params otherwise w =
      (Outcome.ok State.processing, record w { stream = some params.stream })
  taken_over false params otherwise w = (Outcome.ok otherwise, w)

  abbrev pub processing_takeover : TakeoverParams → Action S State
  processing_takeover params = do
    success ← succeeds (on_takeover e params)
    taken_over success params (if params.clean_session then State.cleanup else State.pending)

  -- The old client is told to disconnect, whether or not that can be written.
  abbrev pub processing_command : Option Command → Stream → Action S State
  processing_command none writer w = (Outcome.ok State.cleanup, record w { stream = none })
  processing_command (some Command.cancel) writer w =
      (Outcome.ok State.cleanup, record w { stream = none })
  processing_command (some (Command.takeover params)) writer w =
      (do _ ← succeeds (send_packet e Packet.disconnect writer); processing_takeover params)
        (record w { stream = none })

  -- One round of the loop of `do_processing`.
  abbrev pub do_processing : Event S → Option Stream → Action S State
  do_processing _ none w = (Outcome.ok State.cleanup, w)
  do_processing (Event.packet pack) (some writer) w = processing_packet pack writer w
  do_processing Event.message (some writer) w = processing_message w.messages writer w
  do_processing (Event.command c) (some writer) w = processing_command c writer w
  do_processing Event.keep_alive_tick (some writer) w =
      if ltb 0 w.runtime.keep_alive
      then leave w.runtime.clean_session w
      else (Outcome.ok State.processing, w)
  do_processing Event.retransmit_tick (some writer) w =
      (do success ← succeeds (on_retransmit e writer); after success) w
  do_processing (Event.elsewhere router storage names arrived) (some writer) w =
      (Outcome.ok State.processing, w)

  -- `do_pending` once a command is there.
  abbrev pub do_pending : Option Command → Action S State
  do_pending (some (Command.takeover params)) = do
    success ← succeeds (on_takeover e params)
    taken_over success params State.pending
  do_pending (some Command.cancel) = pure State.cleanup
  do_pending none = pure State.cleanup

  -- What is done before the first event of a state: `do_pending` saves the session, and in the end
  -- the Will message is published and the broker forgets the session.
  abbrev pub enter : State → Action S State
  enter State.pending = do save_to_storage e; pure State.pending
  enter State.cleanup = do publish_will; remove_session; pure State.cleanup
  enter State.waiting = pure State.waiting
  enter State.processing = pure State.processing

  -- One turn of `run` and of the loops in it.
  unfoldable pub step : Event S → State → Action S State
  step (Event.elsewhere router storage names arrived) state w = (
    Outcome.ok state,
    record w {
      router = router;
      storage = storage;
      named_clients = names;
      messages = w.messages ++ arrived;
    },
  )
  step event State.waiting w = (do next ← do_waiting event w.stream; enter next) w
  step event State.processing w = (do next ← do_processing event w.stream; enter next) w
  step (Event.command c) State.pending w = (do next ← do_pending c; enter next) w
  step _ State.pending w = (Outcome.ok State.pending, w)
  step _ State.cleanup w = (Outcome.ok State.cleanup, w)
