-- ===== src/Storage/Sqlite/Store.antt =====
-- src/storage/sqlite.rs: `SqliteStorage`. Each operation holds the lock on the connection from its
-- start to its end, so that it is one step of the model.
use iotd.Prelude.{ℕ, Bytes, Bool, Option, none, some, List, [], ◌∷◌, length, ltb}
use iotd.Storage.Types.{
  DateTime, PersistedSession, PersistedSubscription, PersistedInflightMessage,
  PersistedInboundQos2Message, PersistedRetainedMessage,
}
use iotd.Storage.Trait.{StorageResult, ok, err, Storage}
use iotd.Storage.Sqlite.Rows.{
  Chrono, session_row, subscription_row, inflight_row, inbound_row, retained_row,
}
use iotd.Storage.Sqlite.Columns.{
  session_of_row, subscription_of_row, inflight_of_row, inbound_of_row, retained_of_row,
}
use iotd.Storage.Sqlite.Database.{Sqlite}
use iotd.Storage.Sqlite.Run.{
  Conn, execute, query, ◌>>=◌, ◌>>◌, pure, reading, for_each, transaction,
}

-- `while let Some(row) = rows.next()? { messages.push(..); }`
unfoldable pub collect : {A B : Type 0} → (A → StorageResult B) → List A → StorageResult (List B)
collect f [] = ok []
collect f (row ∷ rows) = elim (f row) [
  | err e ↦ err e
  | ok b ↦ elim (collect f rows) [ err e ↦ err e | ok bs ↦ ok (b ∷ bs) ]
]

-- `if let Some(row) = rows.next()? { Ok(Some(..)) } else { Ok(None) }`
unfoldable pub first_row :
    {A B : Type 0} → (A → StorageResult B) → List A → StorageResult (Option B)
first_row f [] = ok none
first_row f (row ∷ rows) = elim (f row) [ err e ↦ err e | ok b ↦ ok (some b) ]

abbrev pub and_then : {A B : Type 0} → StorageResult A → (A → StorageResult B) → StorageResult B
and_then (ok a) k = k a
and_then (err e) k = err e

module _ {D : Type 0} (c : Chrono) (q : Sqlite D) where
  -- What follows the opening of the connection.
  unfoldable pub initialize_schema : Conn D (Unit {0})
  initialize_schema = execute q.create_tables

  unfoldable pub delete_client_data : Bytes → Conn D (Unit {0})
  delete_client_data client_id = do
    execute (q.delete_inflight client_id)
    execute (q.delete_inbound client_id)
    execute (q.delete_subscriptions client_id)
    execute (q.delete_session client_id)

  unfoldable pub save_session :
      PersistedSession
      → List PersistedSubscription
      → List PersistedInflightMessage
      → List PersistedInboundQos2Message
      → Conn D (Unit {0})
  save_session session subscriptions inflight inbound_qos2 = transaction q (do
    execute (q.upsert_session (session_row c session))
    execute (q.delete_subscriptions session.client_id)
    for_each (λ sub. execute (q.insert_subscription (subscription_row c sub))) subscriptions
    execute (q.delete_inflight session.client_id)
    for_each (λ msg. execute (q.insert_inflight (inflight_row c msg))) inflight
    execute (q.delete_inbound session.client_id)
    for_each (λ msg. execute (q.insert_inbound (inbound_row c msg))) inbound_qos2)

  unfoldable pub load_session : Bytes → D → StorageResult (Option PersistedSession)
  load_session client_id d =
      and_then (query (q.select_session client_id) d) (first_row (session_of_row c))

  unfoldable pub delete_session : Bytes → Conn D (Unit {0})
  delete_session client_id = transaction q (delete_client_data client_id)

  unfoldable pub session_exists : Bytes → D → StorageResult Bool
  session_exists client_id d =
      and_then (query (q.count_sessions client_id) d) (λ count. ok (ltb 0 count))

  unfoldable pub delete_expired_sessions : DateTime → Conn D ℕ
  delete_expired_sessions older_than = transaction q (do
    expired_clients ← reading (query (q.select_expired (c.to_rfc3339 older_than)))
    for_each delete_client_data expired_clients
    pure (length expired_clients))

  unfoldable pub load_subscriptions : Bytes → D → StorageResult (List PersistedSubscription)
  load_subscriptions client_id d =
      and_then (query (q.select_subscriptions client_id) d) (collect (subscription_of_row c))

  unfoldable pub load_inflight_messages : Bytes → D → StorageResult (List PersistedInflightMessage)
  load_inflight_messages client_id d =
      and_then (query (q.select_inflight client_id) d) (collect (inflight_of_row c))

  unfoldable pub load_inbound_qos2_messages :
      Bytes → D → StorageResult (List PersistedInboundQos2Message)
  load_inbound_qos2_messages client_id d =
      and_then (query (q.select_inbound client_id) d) (collect (inbound_of_row c))

  unfoldable pub save_retained_message : PersistedRetainedMessage → Conn D (Unit {0})
  save_retained_message msg = execute (q.upsert_retained (retained_row c msg))

  unfoldable pub load_retained_message : Bytes → D → StorageResult (Option PersistedRetainedMessage)
  load_retained_message topic d =
      and_then (query (q.select_retained topic) d) (first_row (retained_of_row c))

  unfoldable pub load_all_retained_messages : D → StorageResult (List PersistedRetainedMessage)
  load_all_retained_messages d =
      and_then (query q.select_all_retained d) (collect (retained_of_row c))

  unfoldable pub delete_retained_message : Bytes → Conn D (Unit {0})
  delete_retained_message topic = execute (q.delete_retained topic)

  unfoldable pub count_retained_messages : D → StorageResult ℕ
  count_retained_messages = query q.count_retained

  -- `SqliteStorage` behind the `Storage` trait.
  abbrev pub sqlite : Storage D
  sqlite = record {
    save_session = save_session;
    load_session = load_session;
    load_subscriptions = load_subscriptions;
    load_inflight_messages = load_inflight_messages;
    load_inbound_qos2_messages = load_inbound_qos2_messages;
    delete_session = delete_session;
    session_exists = session_exists;
    delete_expired_sessions = delete_expired_sessions;
    save_retained_message = save_retained_message;
    load_retained_message = load_retained_message;
    load_all_retained_messages = load_all_retained_messages;
    delete_retained_message = delete_retained_message;
    count_retained_messages = count_retained_messages;
  }
