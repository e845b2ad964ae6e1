-- ===== src/Storage/Sqlite/Tests.antt =====
-- src/storage/sqlite.rs: runs on a database of lists.
use iotd.Prelude.{
  Bytes, ◌≡◌, refl, some, List, [], ◌∷◌, length, get, insert, bytes_eq, nat_eq, true, false, arith,
}
use iotd.Storage.Trait.{StorageError, ok, err, OkElse}
use iotd.Storage.Types.{
  DateTime, stored_qos_as_u8, stored_qos_from_u8, qos2_state_as_u8, StoredQoS, PersistedSession,
  PersistedSubscription, PersistedInflightMessage, PersistedQos2State, PersistedInboundQos2Message,
  PersistedRetainedMessage,
}
use iotd.Storage.Refinement.{RetainedCall, Shows, effects, perform_all}
use iotd.Storage.Sqlite.Rows.{session_row, subscription_row, inflight_row, inbound_row}
use iotd.Storage.Sqlite.Columns.{session_of_row}
use iotd.Storage.Sqlite.Database.{expired_ids}
use iotd.Storage.Sqlite.Run.{query, transaction, execute, for_each}
use iotd.Storage.Sqlite.Atomic.{saved, save_session-Atomic}
use iotd.Storage.Sqlite.Expired.{purged, delete_expired_sessions-Atomic}
use iotd.Storage.Sqlite.Loaded.{Loads, load_session-save_session}
use iotd.Storage.Sqlite.Retained.{Fails, sqlite-perform_all, rows_of}
use iotd.Storage.Sqlite.Store.{
  first_row, sqlite, save_session, delete_expired_sessions, load_session,
}
use iotd.Storage.Sqlite.TestDatabase.{Db, db, db-IsSqlite, clock, clock-IsChrono, empty_db}

abbrev ann : Bytes
ann = 97 ∷ []

abbrev bob : Bytes
bob = 98 ∷ []

abbrev session_at : Bytes → DateTime → PersistedSession
session_at id t = record {
  client_id = id;
  next_packet_id = 65535;
  keep_alive = 60;
  will_message =
      some (record { topic = 1 ∷ []; payload = []; qos = StoredQoS.exactly_once; retain = true });
  created_at = t;
  updated_at = t;
}

abbrev wish : PersistedSubscription
wish = record { client_id = ann; topic_filter = 35 ∷ []; qos = StoredQoS.at_least_once }

abbrev flight : PersistedInflightMessage
flight = record {
  client_id = ann;
  packet_id = 7;
  topic = 2 ∷ [];
  payload = 3 ∷ [];
  qos = StoredQoS.exactly_once;
  retain = false;
  retry_count = 2;
  qos2_state = some PersistedQos2State.awaiting_pub_comp;
  created_at = 5;
}

abbrev arrival : PersistedInboundQos2Message
arrival = record {
  client_id = ann;
  packet_id = 9;
  topic = 2 ∷ [];
  payload = [];
  retain = true;
  received_at = 5;
}

abbrev with_ann : Db
with_ann =
    (save_session clock db (session_at ann 5) (wish ∷ []) (flight ∷ []) (arrival ∷ []) empty_db).1

abbrev with_both : Db
with_both = (save_session clock db (session_at bob 9) [] [] [] with_ann).1

-- A second save keeps the date of the first.
saved_twice :
    load_session clock db ann (save_session clock db (session_at ann 8) [] [] [] with_ann).1
    ≡ ok (some (record (session_at ann 8) { created_at = 5 }))
unfolding load_session query first_row session_of_row stored_qos_from_u8 save_session transaction
    execute for_each insert get session_row subscription_row inflight_row inbound_row
    stored_qos_as_u8 qos2_state_as_u8
saved_twice = refl

-- The same filter twice: the transaction is rolled back.
twice_refused :
    save_session clock db (session_at ann 8) (wish ∷ wish ∷ []) [] [] with_ann
    ≡ (err StorageError.internal, (with_ann.0, with_ann.0))
unfolding save_session transaction execute for_each insert get session_row subscription_row
    inflight_row inbound_row stored_qos_as_u8 qos2_state_as_u8
twice_refused = refl

save_session-Atomic_example :
    OkElse
      (save_session clock db (session_at ann 8) (wish ∷ wish ∷ []) [] [] with_ann).0
      (λ _.
        (save_session clock db (session_at ann 8) (wish ∷ wish ∷ []) [] [] with_ann).1.0
        ≡ saved clock (session_at ann 8) (wish ∷ wish ∷ []) [] [] with_ann.0)
      ((save_session clock db (session_at ann 8) (wish ∷ wish ∷ []) [] [] with_ann).1.0
        ≡ with_ann.0)
save_session-Atomic_example =
    save_session-Atomic clock db-IsSqlite (session_at ann 8) (wish ∷ wish ∷ []) [] [] with_ann

delete_expired_sessions-Atomic_example :
    OkElse
      (delete_expired_sessions clock db 7 with_both).0
      (λ n.
        (n ≡ length (expired_ids (7 ∷ []) with_both.0.sessions))
        × ((delete_expired_sessions clock db 7 with_both).1.0
            ≡ purged (expired_ids (7 ∷ []) with_both.0.sessions) with_both.0))
      ((delete_expired_sessions clock db 7 with_both).1.0 ≡ with_both.0)
delete_expired_sessions-Atomic_example =
    delete_expired_sessions-Atomic clock db-IsSqlite 7 with_both

load_session-save_session_example :
    Loads clock db with_ann (session_at ann 5) (wish ∷ []) (flight ∷ []) (arrival ∷ [])
unfolding save_session transaction execute for_each insert get session_row subscription_row
    inflight_row inbound_row stored_qos_as_u8 qos2_state_as_u8
load_session-save_session_example =
    load_session-save_session clock clock-IsChrono db-IsSqlite (session_at ann 5) (wish ∷ [])
      (flight ∷ []) (arrival ∷ []) 5 empty_db (omega arith, omega arith) (refl, tt)
      ((refl, (omega arith, omega arith)), tt) ((refl, omega arith), tt) refl refl

abbrev room : PersistedRetainedMessage
room = record { topic = 4 ∷ []; payload = 5 ∷ []; qos = StoredQoS.at_most_once; updated_at = 6 }

abbrev calls : List RetainedCall
calls = RetainedCall.save room ∷ RetainedCall.delete (8 ∷ []) ∷ []

sqlite-perform_all_example :
    Shows
      (sqlite clock db)
      (Fails clock clock-IsChrono db-IsSqlite (perform_all (sqlite clock db) calls empty_db).1)
      (perform_all (sqlite clock db) calls empty_db).1
      (effects calls (perform_all (sqlite clock db) calls empty_db).0 [])
unfolding rows_of
sqlite-perform_all_example =
    sqlite-perform_all clock clock-IsChrono db-IsSqlite calls empty_db [] refl
