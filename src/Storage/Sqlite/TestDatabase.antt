-- ===== src/Storage/Sqlite/TestDatabase.antt =====
-- src/storage/sqlite.rs: tables of lists as a database with primary keys, for the tests.
use mathlib.Core.List.{Permᴰ}
use iotd.Prelude.{
  Option, Bytes, ◌≡◌, refl, none, some, List, [], ◌∷◌, ◌++◌, length, not, retain, any, get, insert,
  remove, ◌==◌, ◌&&◌, bytes_eq, nat_eq, Bool, true, false,
}
use iotd.Storage.Trait.{values}
use iotd.Storage.Types.{DateTime}
use iotd.Storage.Sqlite.Rows.{Chrono}
use iotd.Storage.Sqlite.RoundTrip.{IsChrono}
use iotd.Storage.Sqlite.Database.{
  Statement, Sqlite, IsSqlite, Tables, Changes, IfOk, rows_at, upserted, expired_ids,
}

-- The tables, and those at the start of the transaction.
abbrev pub Db : Type 0
Db = Tables × Tables

-- A statement that succeeds.
abbrev pub change : (Tables → Tables) → Statement Db (Unit {0})
change f d = (some tt, (f d.0, d.1))

abbrev pub guarded : Bool → (Tables → Tables) → Statement Db (Unit {0})
guarded true f d = (none, d)
guarded false f d = (some tt, (f d.0, d.1))

-- A statement that a key which is there lets fail.
abbrev pub unless : (Tables → Bool) → (Tables → Tables) → Statement Db (Unit {0})
unless taken f d = guarded (taken d.0) f d

pub change-Changes : (f : Tables → Tables) → Changes (λ (d : Db). d.0) (λ d. d.1) (change f) f
change-Changes f = record { lem = λ d. (refl, refl) }

pub unless-Changes :
    (taken : Tables → Bool) (f : Tables → Tables)
    → Changes (λ (d : Db). d.0) (λ d. d.1) (unless taken f) f
unless-Changes taken f = record { lem = λ d. cases d (taken d.0) }
  where
    cases :
        (d : Db) (b : Bool)
        → ((guarded b f d).1.1 ≡ d.1)
          × IfOk (guarded b f d).0 ((guarded b f d).1.0 ≡ d.0) ((guarded b f d).1.0 ≡ f d.0)
    cases d true = (refl, refl)
    cases d false = (refl, refl)

pub Permᴰ-same : {A : Type 0} (xs : List A) → Permᴰ xs xs
Permᴰ-same [] = Permᴰ.nil
Permᴰ-same (x ∷ xs) = Permᴰ.cons refl (Permᴰ-same xs)

abbrev pub db : Sqlite Db
db = record {
  begin = λ d. (some tt, (d.0, d.0));
  commit = change (λ t. t);
  rollback = λ d. (d.1, d.1);
  create_tables = change (λ t. t);
  upsert_session = λ row. change (λ t. record t {
    sessions = insert row.client_id (upserted (get row.client_id t.sessions) row) t.sessions;
  });
  delete_session = λ id. change (λ t. record t { sessions = remove id t.sessions });
  delete_subscriptions = λ id.
      change (λ t. record t {
        subscriptions = retain (λ row. not (row.client_id == id)) t.subscriptions;
      });
  insert_subscription = λ row.
      unless
        (λ t.
          any (λ r. (r.client_id == row.client_id) && (r.topic_filter == row.topic_filter))
            t.subscriptions)
        (λ t. record t { subscriptions = t.subscriptions ++ row ∷ [] });
  delete_inflight = λ id.
      change (λ t. record t { inflight = retain (λ row. not (row.client_id == id)) t.inflight });
  insert_inflight = λ row.
      unless
        (λ t.
          any (λ r. (r.client_id == row.client_id) && (r.packet_id == row.packet_id)) t.inflight)
        (λ t. record t { inflight = t.inflight ++ row ∷ [] });
  delete_inbound = λ id.
      change (λ t. record t { inbound = retain (λ row. not (row.client_id == id)) t.inbound });
  insert_inbound = λ row.
      unless
        (λ t. any (λ r. (r.client_id == row.client_id) && (r.packet_id == row.packet_id)) t.inbound)
        (λ t. record t { inbound = t.inbound ++ row ∷ [] });
  select_session = λ id d. some (rows_at (get id d.0.sessions));
  count_sessions = λ id d. some (length (rows_at (get id d.0.sessions)));
  select_expired = λ older_than d. some (expired_ids older_than d.0.sessions);
  select_subscriptions = λ id d. some (retain (λ row. row.client_id == id) d.0.subscriptions);
  select_inflight = λ id d. some (retain (λ row. row.client_id == id) d.0.inflight);
  select_inbound = λ id d. some (retain (λ row. row.client_id == id) d.0.inbound);
  upsert_retained = λ row. change (λ t. record t { retained = insert row.topic row t.retained });
  delete_retained = λ topic. change (λ t. record t { retained = remove topic t.retained });
  select_retained = λ topic d. some (rows_at (get topic d.0.retained));
  select_all_retained = λ d. some (values d.0.retained);
  count_retained = λ d. some (length d.0.retained);
}

abbrev pub db-IsSqlite : IsSqlite db
db-IsSqlite = record {
  tables = λ d. d.0;
  started = λ d. d.1;
  begin_lem = λ d. (refl, refl);
  commit_lem = change-Changes _;
  create_tables_lem = change-Changes _;
  rollback_lem = λ d. refl;
  upsert_session_lem = λ row. change-Changes _;
  delete_session_lem = λ id. change-Changes _;
  delete_subscriptions_lem = λ id. change-Changes _;
  insert_subscription_lem = λ row. unless-Changes _ _;
  delete_inflight_lem = λ id. change-Changes _;
  insert_inflight_lem = λ row. unless-Changes _ _;
  delete_inbound_lem = λ id. change-Changes _;
  insert_inbound_lem = λ row. unless-Changes _ _;
  select_session_lem = λ id d. refl;
  count_sessions_lem = λ id d. refl;
  select_expired_lem = λ older_than d. Permᴰ-same _;
  select_subscriptions_lem = λ id d. Permᴰ-same _;
  select_inflight_lem = λ id d. Permᴰ-same _;
  select_inbound_lem = λ id d. Permᴰ-same _;
  upsert_retained_lem = λ row. change-Changes _;
  delete_retained_lem = λ topic. change-Changes _;
  select_retained_lem = λ topic d. refl;
  select_all_retained_lem = λ d. Permᴰ-same _;
  count_retained_lem = λ d. refl;
}

-- A date is written as its number.
abbrev pub clock : Chrono
clock = record { to_rfc3339 = λ t. t ∷ []; parse_from_rfc3339 = parsed }
  where
    parsed : Bytes → Option DateTime
    parsed [] = none
    parsed (t ∷ rest) = some t

abbrev pub clock-IsChrono : IsChrono clock
clock-IsChrono = record { parse-print = λ t. refl }

abbrev pub no_rows : Tables
no_rows = record { sessions = []; subscriptions = []; inflight = []; inbound = []; retained = [] }

abbrev pub empty_db : Db
empty_db = (no_rows, no_rows)
