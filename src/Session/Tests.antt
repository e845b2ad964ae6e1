-- ===== src/Session/Tests.antt =====
-- A session at concrete worlds: the properties applied, over the in-memory storage and a channel that
-- is a list.
use iotd.Prelude.{
  ℕ, zero, suc, ◌≡◌, refl, true, false, none, some, List, [], ◌∷◌, ◌++◌, map, get, get-nil,
  bytes_eq, nat_eq, arith,
}
use iotd.Protocol.Packet.{ascii, QoS, Packet, ConnectPacket, PublishPacket, SubscribePacket}
use iotd.Storage.Memory.{InMemoryStorage, memory}
use iotd.Storage.Memory
use iotd.Router.Index
use iotd.Router.Index.{RouterInternal, add_subscription}
use iotd.Router.Topic.{validate_subscribe_filter, validate_levels, split, has_wildcards}
use iotd.Router.Subscribe.{subscribe_one, subscribe_loop, subscribe}
use iotd.Router.Retained.{retained_of, find_retained_for_filter}
use iotd.Session.Types.{State, Runtime, InflightMessage, Qos2State}
use iotd.Session.Effect.{TakeoverParams, World, Outcome}
use iotd.Session.Connect.{validate_client_id, with_connect}
use iotd.Session.Connect.{on_takeover}
use iotd.Session.Connect.Takeover.{taken_runtime, on_takeover-keeps}
use iotd.Session.Inbound.Held.{on_packets}
use iotd.Session.Inbound.ExactlyOnce.{released, exactly_once}
use iotd.Session.Subscribing.{authorize_filters, on_subscribe}
use iotd.Session.Subscribing.ReturnCodes.{answer_code}
use iotd.Session.Subscribing.Answer.{sent-on_subscribe, on_subscribe-stuck}
use iotd.Session.Outbound.{get_retransmission_interval_ms}
use iotd.Session.Outbound.Tracked.{IsTracked, IsRuntime}
use iotd.Session.Outbound.Resent.{Ends, IsRead}
use iotd.Session.Outbound.Ticks.{ticks, ticks-limit}
use iotd.Session.Persist.{restore_from_storage}
use iotd.Session.Persist.RoundTrip.{
  refreshed, restored_at, in_memory, restarted, restore_from_storage-save_to_storage,
}
use iotd.Session.Run.{Event, on_packet, will_packet, step}
use iotd.Session.Run.Collision.{step-collision_publishes_will, step-collision_forgets_name}
use iotd.Session.Run.PacketIds.{step-IsRuntime}
use iotd.Session.TestWorld.{env, fresh, start, hello, last_will, env-IsChannel}

step-collision_publishes_will_example :
    (step env (Event.packet (some (Packet.connect hello))) State.waiting start).1.routed
    ≡ [] ++ will_packet env last_will ∷ []
unfolding validate_client_id with_connect get
step-collision_publishes_will_example =
    step-collision_publishes_will env hello 4 start 1 last_will
      (record { name = refl; level = refl; valid = refl; allowed = refl }) refl refl refl refl

abbrev quiet : ConnectPacket
quiet = record hello { will_flag = false }

step-collision_forgets_name_example :
    let after = (step env (Event.packet (some (Packet.connect quiet))) State.waiting start).1 in
    (get (ascii "alice") after.named_clients ≡ none)
    × (after.commands
        ≡ [] ++ (1, record { stream = 4; clean_session = false; keep_alive = 30 }) ∷ [])
unfolding validate_client_id with_connect get
step-collision_forgets_name_example =
    step-collision_forgets_name env quiet 4 start 1
      (record { name = refl; level = refl; valid = refl; allowed = refl }) refl refl refl refl

abbrev message_2 : PublishPacket
message_2 = record {
  topic = ascii "door";
  packet_id = some 9;
  payload = ascii "open";
  qos = QoS.exactly_once;
  retain = false;
  dup = false;
}

abbrev between : List Packet
between = Packet.publish message_2 ∷ Packet.ping_req ∷ Packet.pub_rel 8 ∷ []

exactly_once_example :
    let held = (on_packets env (Packet.publish message_2 ∷ between) 4 start).1 in
    let done = (on_packet env (Packet.pub_rel 9) 4 held).1 in
    (done.routed ≡ held.routed ++ released env 9 4 (record { packet = message_2 }) held.runtime)
    × ((on_packet env (Packet.pub_rel 9) 4 done).1.routed ≡ done.routed)
unfolding get
exactly_once_example =
    exactly_once env 9 4 message_2 between start refl refl refl
      (tt, (tt, ((λ same. absurd (omega arith)), tt))) refl

abbrev wishes : SubscribePacket
wishes = record {
  packet_id = 3;
  topic_filters = (ascii "secret", QoS.at_most_once) ∷ (ascii "door", QoS.exactly_once) ∷ [];
}

sent-on_subscribe_example :
    (on_subscribe env wishes 4 start).1.sent
    ≡ []
      ++ (
        4,
        Packet.sub_ack (record {
          packet_id = 3;
          return_codes = map (answer_code env []) wishes.topic_filters;
        }),
      )
        ∷ []
sent-on_subscribe_example = sent-on_subscribe env wishes 4 start refl

answer_run : map (answer_code env []) wishes.topic_filters ≡ 0x80 ∷ 2 ∷ []
unfolding validate_subscribe_filter validate_levels split
answer_run = refl

abbrev waiting_messages : ℕ → List Packet
waiting_messages zero = []
waiting_messages (suc n) = Packet.ping_req ∷ waiting_messages n

-- A full channel, and a retained message for the filter.
abbrev full : World InMemoryStorage
full = record start {
  messages = waiting_messages 100;
  storage = record Memory.new { retained = (ascii "door", retained_of 1 message_2) ∷ [] };
}

on_subscribe-stuck_example : (on_subscribe env wishes 4 full).0 ≡ Outcome.stuck
unfolding authorize_filters subscribe subscribe_loop subscribe_one validate_subscribe_filter
    validate_levels split has_wildcards find_retained_for_filter get
on_subscribe-stuck_example =
    on_subscribe-stuck env env-IsChannel wishes 4 full refl (omega arith) (omega arith)

abbrev alarm : PublishPacket
alarm = record message_2 { packet_id = some 5; dup = true }

abbrev in_flight : InflightMessage
in_flight = record {
  packet = alarm;
  timestamp = 0;
  retry_count = 1;
  qos2_state = some Qos2State.awaiting_pub_rec;
}

abbrev busy : Runtime
busy = record fresh {
  client_id = some (ascii "alice");
  next_packet_id = 65535;
  inflight_queue = in_flight ∷ [];
  inbound_qos2 = (9, record { packet = message_2 }) ∷ [];
}

in_flight-IsTracked : IsTracked in_flight
in_flight-IsTracked = record {
  packet_id = 5;
  id_lem = refl;
  id-IsPacketId = (omega arith, omega arith);
  dup_lem = refl;
}

abbrev busy_world : World InMemoryStorage
busy_world = record start {
  runtime = busy;
  messages = Packet.publish (record message_2 { packet_id = none }) ∷ [];
}

step-IsRuntime_example : IsRuntime (step env Event.message State.processing busy_world).1.runtime
step-IsRuntime_example =
    step-IsRuntime env Event.message State.processing tt busy_world
      (record { next = (omega arith, omega arith); tracked = (in_flight-IsTracked, tt) })

restore_from_storage-save_to_storage_example :
    let after =
      restore_from_storage (in_memory env) (ascii "alice") (restarted env fresh busy_world) in
    let r = after.1.runtime in
    (after.0 ≡ Outcome.ok true)
    × (r.next_packet_id ≡ 65535)
    × (r.keep_alive ≡ 0)
    × (r.will_message ≡ none)
    × (r.inflight_queue ≡ map (refreshed 7000) (in_flight ∷ []))
    × ((i : ℕ) → get i r.inbound_qos2 ≡ restored_at i (get i busy.inbound_qos2))
restore_from_storage-save_to_storage_example =
    restore_from_storage-save_to_storage env (ascii "alice") fresh busy_world refl
      (in_flight-IsTracked, tt) (get-nil 9, tt) refl refl

abbrev read_world : World InMemoryStorage
read_world = record busy_world { messages = [] }

ticks-limit_example : Ends (IsRead []) (ticks env 4 7000 4) read_world
unfolding get_retransmission_interval_ms
ticks-limit_example =
    ticks-limit env env-IsChannel 4 (λ n. refl) refl (omega arith) 7000 read_world
      ((omega arith, omega arith), tt) (refl, tt) (omega arith) refl

abbrev other_client : TakeoverParams
other_client = record { stream = 6; clean_session = true; keep_alive = 60 }

on_takeover-keeps_example :
    let after = on_takeover env other_client busy_world in
    (after.0 ≡ Outcome.ok tt)
    × (after.1.runtime ≡ taken_runtime env other_client busy)
    × (after.1.router ≡ Index.unsubscribe_all (ascii "session") Index.new)
    × (after.1.runtime.inbound_qos2 ≡ busy.inbound_qos2)
    × (after.1.runtime.will_message ≡ none)
on_takeover-keeps_example = on_takeover-keeps env other_client busy_world refl
