-- ===== src/Session/Persist/Tests.antt =====
-- A session in the SQLite storage: saved and restored, and lost.
use iotd.Prelude.{◌≡◌, refl, true, false, none, some, [], ◌∷◌, get, bytes_eq, nat_eq, arith, insert}
use iotd.Protocol.Packet.{ascii, QoS, PublishPacket}
use iotd.Storage.Types.{stored_qos_as_u8, qos2_state_as_u8, stored_qos_from_u8, stored_from_qos}
use iotd.Storage.Sqlite.Rows.{session_row, inflight_row, inbound_row, subscription_row}
use iotd.Storage.Sqlite.Columns.{session_of_row}
use iotd.Storage.Sqlite.Database.{Sqlite, IsSqlite}
use iotd.Storage.Sqlite.Run.{query, transaction, execute, for_each}
use iotd.Storage.Sqlite.Store.{
  sqlite, save_session, load_session, first_row, delete_session, delete_client_data,
}
use iotd.Storage.Sqlite.Atomic.{forgotten}
use iotd.Storage.Sqlite.TestDatabase.{Db, db, db-IsSqlite, clock, clock-IsChrono, empty_db}
use iotd.Router.Index.{get_subscriptions, subscribed_filters}
use iotd.Session.Types.{Qos2State, InflightMessage, Runtime}
use iotd.Session.Effect.{Env, World, Outcome}
use iotd.Session.Persist.{
  restore_from_storage, stored_inflight, stored_inbound, stored_will, stored_state,
  stored_subscriptions, save_to_storage,
}
use iotd.Session.Persist.Sqlite.{session, IsRestored, restarted, restore_from_storage-sqlite}
use iotd.Session.Persist.Lost.{restore_from_storage-loses}
use iotd.Session.TestWorld.{env, fresh, start}

abbrev alarm : PublishPacket
alarm = record {
  topic = ascii "door";
  packet_id = some 5;
  payload = ascii "open";
  qos = QoS.exactly_once;
  retain = false;
  dup = true;
}

abbrev in_flight : InflightMessage
in_flight = record {
  packet = alarm;
  timestamp = 0;
  retry_count = 1;
  qos2_state = some Qos2State.awaiting_pub_rec;
}

abbrev busy : Runtime
busy = record fresh {
  client_id = some (ascii "alice");
  next_packet_id = 65535;
  inflight_queue = in_flight ∷ [];
  inbound_qos2 = (9, record { packet = alarm }) ∷ [];
}

abbrev over_sqlite : Sqlite Db → Env Db
over_sqlite q = record {
  storage = sqlite clock q;
  authenticate = env.authenticate;
  authorize_publish = env.authorize_publish;
  authorize_subscribe = env.authorize_subscribe;
  config = env.config;
  now = env.now;
  utc_now = env.utc_now;
  accepts = env.accepts;
  channel_send = env.channel_send;
}

abbrev busy_world : World Db
busy_world = record {
  runtime = busy;
  message_tx = start.message_tx;
  messages = [];
  stream = start.stream;
  router = start.router;
  storage = empty_db;
  named_clients = [];
  written = 0;
  sent = [];
  routed = [];
  delivered = [];
  commands = [];
}

restore_from_storage-sqlite_example :
    IsRestored clock clock-IsChrono db-IsSqlite (over_sqlite db) (ascii "alice") busy_world (
      restore_from_storage (over_sqlite db) (ascii "alice") (
        restarted clock clock-IsChrono db-IsSqlite
          (over_sqlite db)
          (ascii "alice")
          busy_world
          fresh))
unfolding save_session transaction execute for_each insert get session_row subscription_row
    inflight_row inbound_row stored_qos_as_u8 qos2_state_as_u8 stored_subscriptions stored_inflight
    stored_inbound stored_will stored_state stored_from_qos get_subscriptions subscribed_filters
restore_from_storage-sqlite_example =
    restore_from_storage-sqlite clock clock-IsChrono db-IsSqlite (over_sqlite db) (ascii "alice")
      busy_world fresh 1 refl
      (
        record {
          packet_id = 5;
          id_lem = refl;
          id-IsPacketId = (omega arith, omega arith);
          dup_lem = refl;
        },
        tt,
      )
      (refl, tt)
      (record {
        next = omega arith;
        keep_alive = omega arith;
        retries = (omega arith, tt);
        inbound = (omega arith, tt);
      })
      refl refl (λ e. cc, λ e. cc, λ e. cc) refl refl

-- The query for the messages in flight fails.
abbrev unreadable : Sqlite Db
unreadable = record db { select_inflight = λ id d. none }

abbrev unreadable-IsSqlite : IsSqlite unreadable
unreadable-IsSqlite = record {
  tables = db-IsSqlite.tables;
  started = db-IsSqlite.started;
  begin_lem = db-IsSqlite.begin_lem;
  commit_lem = db-IsSqlite.commit_lem;
  create_tables_lem = db-IsSqlite.create_tables_lem;
  rollback_lem = db-IsSqlite.rollback_lem;
  upsert_session_lem = db-IsSqlite.upsert_session_lem;
  delete_session_lem = db-IsSqlite.delete_session_lem;
  delete_subscriptions_lem = db-IsSqlite.delete_subscriptions_lem;
  insert_subscription_lem = db-IsSqlite.insert_subscription_lem;
  delete_inflight_lem = db-IsSqlite.delete_inflight_lem;
  insert_inflight_lem = db-IsSqlite.insert_inflight_lem;
  delete_inbound_lem = db-IsSqlite.delete_inbound_lem;
  insert_inbound_lem = db-IsSqlite.insert_inbound_lem;
  select_session_lem = db-IsSqlite.select_session_lem;
  count_sessions_lem = db-IsSqlite.count_sessions_lem;
  select_expired_lem = db-IsSqlite.select_expired_lem;
  select_subscriptions_lem = db-IsSqlite.select_subscriptions_lem;
  select_inflight_lem = λ id d. tt;
  select_inbound_lem = db-IsSqlite.select_inbound_lem;
  upsert_retained_lem = db-IsSqlite.upsert_retained_lem;
  delete_retained_lem = db-IsSqlite.delete_retained_lem;
  select_retained_lem = db-IsSqlite.select_retained_lem;
  select_all_retained_lem = db-IsSqlite.select_all_retained_lem;
  count_retained_lem = db-IsSqlite.count_retained_lem;
}

abbrev saved_world : World Db
saved_world =
    restarted clock clock-IsChrono db-IsSqlite (over_sqlite db) (ascii "alice") busy_world fresh

restore_from_storage-loses_example :
    let after = restore_from_storage (over_sqlite unreadable) (ascii "alice") saved_world in
    (after.0 ≡ Outcome.ok true)
    × (after.1.runtime.inflight_queue ≡ [])
    × (after.1.storage.0 ≡ forgotten (ascii "alice") saved_world.storage.0)
unfolding save_session transaction execute for_each insert get session_row subscription_row
    inflight_row inbound_row stored_qos_as_u8 qos2_state_as_u8 stored_subscriptions stored_inflight
    stored_inbound stored_will stored_state stored_from_qos get_subscriptions subscribed_filters
    save_to_storage load_session query first_row session_of_row stored_qos_from_u8 delete_session
    delete_client_data
restore_from_storage-loses_example =
    restore_from_storage-loses clock unreadable-IsSqlite (over_sqlite unreadable) (ascii "alice")
      saved_world
      (record (session clock clock-IsChrono db-IsSqlite (over_sqlite db) (ascii "alice")
        busy_world) { created_at = 1 })
      refl refl refl
