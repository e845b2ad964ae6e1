-- ===== src/Session/Persist.antt =====
-- src/session.rs: `save_to_storage` and `restore_from_storage`.
pub mod Backend
pub mod RoundTrip
pub mod Sqlite
pub mod Lost
mod Tests
use iotd.Prelude.{
  ℕ, Bytes, Bool, true, false, Option, none, some, List, [], ◌∷◌, ◌++◌, HashMap, insert, nat_eq,
}
use iotd.Protocol.Packet.{QoS}
use iotd.Storage.Types.{
  DateTime, stored_from_qos, qos_from_stored, PersistedWillMessage, PersistedSession,
  PersistedSubscription, PersistedQos2State, PersistedInflightMessage, PersistedInboundQos2Message,
}
use iotd.Storage.Trait.{StorageResult}
use iotd.Router.Index.{get_subscriptions}
use iotd.Router.Retained.{unwrap_or}
use iotd.Session.Types.{
  Instant, Qos2State, InflightMessage, ReceivedQos2Message, WillMessage, Runtime,
}
use iotd.Session.Effect.{Env, Outcome, Action, ◌>>=◌, ◌>>◌, pure, set_runtime}
use iotd.Session.Subscribing.{subscribe_router}

abbrev pub unwrap_or_zero : Option ℕ → ℕ
unwrap_or_zero none = 0
unwrap_or_zero (some n) = n

unfoldable pub stored_state : Option Qos2State → Option PersistedQos2State
stored_state none = none
stored_state (some Qos2State.awaiting_pub_rec) = some PersistedQos2State.awaiting_pub_rec
stored_state (some Qos2State.awaiting_pub_comp) = some PersistedQos2State.awaiting_pub_comp

unfoldable pub state_of_stored : Option PersistedQos2State → Option Qos2State
state_of_stored none = none
state_of_stored (some PersistedQos2State.awaiting_pub_rec) = some Qos2State.awaiting_pub_rec
state_of_stored (some PersistedQos2State.awaiting_pub_comp) = some Qos2State.awaiting_pub_comp

unfoldable pub stored_will : Option WillMessage → Option PersistedWillMessage
stored_will none = none
stored_will (some w) = some (record {
  topic = w.topic;
  payload = w.payload;
  qos = stored_from_qos w.qos;
  retain = w.retain;
})

unfoldable pub will_of_stored : Option PersistedWillMessage → Option WillMessage
will_of_stored none = none
will_of_stored (some w) = some (record {
  topic = w.topic;
  payload = w.payload;
  qos = qos_from_stored w.qos;
  retain = w.retain;
})

unfoldable pub stored_subscriptions : Bytes → List (Bytes × QoS) → List PersistedSubscription
stored_subscriptions client_id [] = []
stored_subscriptions client_id ((filter, qos) ∷ rest) =
    record { client_id = client_id; topic_filter = filter; qos = stored_from_qos qos }
    ∷ stored_subscriptions client_id rest

unfoldable pub filters_of_stored : List PersistedSubscription → List (Bytes × QoS)
filters_of_stored [] = []
filters_of_stored (s ∷ rest) = (s.topic_filter, qos_from_stored s.qos) ∷ filters_of_stored rest

unfoldable pub stored_inflight :
    Bytes → DateTime → List InflightMessage → List PersistedInflightMessage
stored_inflight client_id now [] = []
stored_inflight client_id now (m ∷ ms) =
    record {
      client_id = client_id;
      packet_id = unwrap_or_zero m.packet.packet_id;
      topic = m.packet.topic;
      payload = m.packet.payload;
      qos = stored_from_qos m.packet.qos;
      retain = m.packet.retain;
      retry_count = m.retry_count;
      qos2_state = stored_state m.qos2_state;
      created_at = now;
    }
    ∷ stored_inflight client_id now ms

unfoldable pub inflight_of_stored : Instant → List PersistedInflightMessage → List InflightMessage
inflight_of_stored now [] = []
inflight_of_stored now (m ∷ ms) =
    record {
      packet = record {
        topic = m.topic;
        packet_id = some m.packet_id;
        payload = m.payload;
        qos = qos_from_stored m.qos;
        retain = m.retain;
        dup = true;
      };
      timestamp = now;
      retry_count = m.retry_count;
      qos2_state = state_of_stored m.qos2_state;
    }
    ∷ inflight_of_stored now ms

unfoldable pub stored_inbound :
    Bytes → DateTime → HashMap ℕ ReceivedQos2Message → List PersistedInboundQos2Message
stored_inbound client_id now [] = []
stored_inbound client_id now ((packet_id, received) ∷ rest) =
    record {
      client_id = client_id;
      packet_id = packet_id;
      topic = received.packet.topic;
      payload = received.packet.payload;
      retain = received.packet.retain;
      received_at = now;
    }
    ∷ stored_inbound client_id now rest

abbrev pub received_of_stored : PersistedInboundQos2Message → ReceivedQos2Message
received_of_stored msg = record {
  packet = record {
    topic = msg.topic;
    packet_id = some msg.packet_id;
    payload = msg.payload;
    qos = QoS.exactly_once;
    retain = msg.retain;
    dup = false;
  };
}

unfoldable pub restore_inbound :
    List PersistedInboundQos2Message → HashMap ℕ ReceivedQos2Message → HashMap ℕ ReceivedQos2Message
restore_inbound [] m = m
restore_inbound (msg ∷ rest) m =
    restore_inbound rest (insert msg.packet_id (received_of_stored msg) m)

module _ {S : Type 0} (e : Env S) where
  abbrev pub session_of : Bytes → Runtime → PersistedSession
  session_of client_id r = record {
    client_id = client_id;
    next_packet_id = r.next_packet_id;
    keep_alive = r.keep_alive;
    will_message = stored_will r.will_message;
    created_at = e.utc_now;
    updated_at = e.utc_now;
  }

  abbrev pub save_as : Option Bytes → Action S (Unit {0})
  save_as none w = (Outcome.ok tt, w)
  save_as (some client_id) w = (
    Outcome.ok tt,
    record w {
      storage =
          (e.storage.save_session (session_of client_id w.runtime)
            (stored_subscriptions client_id (get_subscriptions w.runtime.id w.router))
            (stored_inflight client_id e.utc_now w.runtime.inflight_queue)
            (stored_inbound client_id e.utc_now w.runtime.inbound_qos2) w.storage).1;
    },
  )

  -- A failing store is only logged.
  unfoldable pub save_to_storage : Action S (Unit {0})
  save_to_storage w = save_as w.runtime.client_id w

  -- `delete_session`, whose failure is only logged.
  unfoldable pub delete_saved : Bytes → Action S (Unit {0})
  delete_saved client_id w =
      (Outcome.ok tt, record w { storage = (e.storage.delete_session client_id w.storage).1 })

  abbrev pub restore_runtime :
      PersistedSession
      → List PersistedInflightMessage
      → List PersistedInboundQos2Message
      → Runtime
      → Runtime
  restore_runtime session inflight inbound r = record r {
    next_packet_id = session.next_packet_id;
    keep_alive = session.keep_alive;
    will_message = will_of_stored session.will_message;
    inflight_queue = r.inflight_queue ++ inflight_of_stored e.now inflight;
    inbound_qos2 = restore_inbound inbound r.inbound_qos2;
  }

  abbrev pub restore_loaded : StorageResult (Option PersistedSession) → Bytes → Action S Bool
  restore_loaded (StorageResult.err x) client_id w = (Outcome.ok false, w)
  restore_loaded (StorageResult.ok none) client_id w = (Outcome.ok false, w)
  restore_loaded (StorageResult.ok (some session)) client_id w =
      let subs = unwrap_or [] (e.storage.load_subscriptions client_id w.storage) in
      let inflight = unwrap_or [] (e.storage.load_inflight_messages client_id w.storage) in
      let inbound = unwrap_or [] (e.storage.load_inbound_qos2_messages client_id w.storage) in
      (do
        set_runtime (restore_runtime session inflight inbound)
        _ ← subscribe_router e (filters_of_stored subs)
        delete_saved client_id
        pure true)
        w

  unfoldable pub restore_from_storage : Bytes → Action S Bool
  restore_from_storage client_id w =
      restore_loaded (e.storage.load_session client_id w.storage) client_id w
