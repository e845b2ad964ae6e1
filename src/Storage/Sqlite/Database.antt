-- ===== src/Storage/Sqlite/Database.antt =====
-- A connection to SQLite with the statements of src/storage/sqlite.rs, as a parameter: each statement is
-- an operation that may fail, over whatever a connection is. The laws are what SQLite documents of
-- such statements.
use mathlib.Core.List.{Permᴰ}
use iotd.Prelude.{
  ℕ, Bytes, ◌≡◌, Option, none, some, List, [], ◌∷◌, ◌++◌, length, not, retain, HashMap, get, insert,
  remove, ◌==◌, bytes_eq, nat_eq, Bool, true, false, ltb, if◌then◌else◌,
}
use iotd.Storage.Trait.{values}
use iotd.Storage.Sqlite.Rows.{SessionRow, SubscriptionRow, InflightRow, InboundRow, RetainedRow}

-- `none` is a `rusqlite::Error`.
abbrev pub Statement : Type 0 → Type 0 → Type 0
Statement D A = D → Option A × D

pub record Sqlite (D : Type 0) : Type 0 where
  pub begin : Statement D (Unit {0})
  pub commit : Statement D (Unit {0})
  pub rollback : D → D
  pub create_tables : Statement D (Unit {0})
  pub upsert_session : SessionRow → Statement D (Unit {0})
  pub delete_session : Bytes → Statement D (Unit {0})
  pub delete_subscriptions : Bytes → Statement D (Unit {0})
  pub insert_subscription : SubscriptionRow → Statement D (Unit {0})
  pub delete_inflight : Bytes → Statement D (Unit {0})
  pub insert_inflight : InflightRow → Statement D (Unit {0})
  pub delete_inbound : Bytes → Statement D (Unit {0})
  pub insert_inbound : InboundRow → Statement D (Unit {0})
  pub select_session : Bytes → D → Option (List SessionRow)
  pub count_sessions : Bytes → D → Option ℕ
  pub select_expired : Bytes → D → Option (List Bytes)
  pub select_subscriptions : Bytes → D → Option (List SubscriptionRow)
  pub select_inflight : Bytes → D → Option (List InflightRow)
  pub select_inbound : Bytes → D → Option (List InboundRow)
  pub upsert_retained : RetainedRow → Statement D (Unit {0})
  pub delete_retained : Bytes → Statement D (Unit {0})
  pub select_retained : Bytes → D → Option (List RetainedRow)
  pub select_all_retained : D → Option (List RetainedRow)
  pub count_retained : D → Option ℕ

-- The contents of the tables: two of them by their primary keys.
pub record Tables : Type 0 where
  pub sessions : HashMap Bytes SessionRow
  pub subscriptions : List SubscriptionRow
  pub inflight : List InflightRow
  pub inbound : List InboundRow
  pub retained : HashMap Bytes RetainedRow

abbrev pub rows_at : {A : Type 0} → Option A → List A
rows_at none = []
rows_at (some row) = row ∷ []

-- `ON CONFLICT(client_id) DO UPDATE SET ..`, which leaves `created_at` alone.
abbrev pub upserted : Option SessionRow → SessionRow → SessionRow
upserted none row = row
upserted (some old) row = record row { created_at = old.created_at }

-- `<` on TEXT, which compares the bytes.
abbrev pub text_ltb : Bytes → Bytes → Bool
text_ltb [] [] = false
text_ltb [] (y ∷ ys) = true
text_ltb (x ∷ xs) [] = false
text_ltb (x ∷ xs) (y ∷ ys) = let rest = text_ltb xs ys in if x == y then rest else ltb x y

-- `SELECT client_id FROM sessions WHERE updated_at < ?1`
abbrev pub expired_ids : Bytes → HashMap Bytes SessionRow → List Bytes
expired_ids older_than [] = []
expired_ids older_than ((k, row) ∷ m) =
    let rest = expired_ids older_than m in
    if text_ltb row.updated_at older_than then k ∷ rest else rest

-- What holds of a failure, and what of a success.
abbrev pub IfOk {ℓ} : {A : Type ℓ} → Option A → Type 0 → Type 0 → Type 0
IfOk none Failed Ok = Failed
IfOk (some a) Failed Ok = Ok

-- What a statement does to the tables if it succeeds; a statement that fails does nothing. The tables
-- at the start of the transaction stay known until its end.
pub record Changes {D A : Type 0} (tables started : D → Tables) (m : Statement D A)
    (f : Tables → Tables) : Type 0 where
  pub lem :
      (d : D)
      → (started (m d).1 ≡ started d)
        × IfOk (m d).0 (tables (m d).1 ≡ tables d) (tables (m d).1 ≡ f (tables d))

-- What a query returns if it succeeds.
abbrev pub Returns : {A : Type 0} → Option A → (A → Type 0) → Type 0
Returns none P = Unit
Returns (some a) P = P a

pub record IsSqlite {D : Type 0} (q : Sqlite D) : Type 0 where
  pub tables : D → Tables
  pub started : D → Tables
  pub begin_lem :
      (d : D)
      → (tables (q.begin d).1 ≡ tables d)
        × IfOk (q.begin d).0 (Unit {0}) (started (q.begin d).1 ≡ tables d)
  pub commit_lem : Changes tables started q.commit (λ t. t)
  pub create_tables_lem : Changes tables started q.create_tables (λ t. t)
  pub rollback_lem : (d : D) → tables (q.rollback d) ≡ started d
  pub upsert_session_lem :
      (row : SessionRow)
      → Changes tables started (q.upsert_session row) (λ t. record t {
        sessions = insert row.client_id (upserted (get row.client_id t.sessions) row) t.sessions;
      })
  pub delete_session_lem :
      (client_id : Bytes)
      → Changes tables started
          (q.delete_session client_id)
          (λ t. record t { sessions = remove client_id t.sessions })
  pub delete_subscriptions_lem :
      (client_id : Bytes)
      → Changes tables started (q.delete_subscriptions client_id) (λ t. record t {
        subscriptions = retain (λ row. not (row.client_id == client_id)) t.subscriptions;
      })
  pub insert_subscription_lem :
      (row : SubscriptionRow)
      → Changes tables started
          (q.insert_subscription row)
          (λ t. record t { subscriptions = t.subscriptions ++ row ∷ [] })
  pub delete_inflight_lem :
      (client_id : Bytes)
      → Changes tables started
          (q.delete_inflight client_id)
          (λ t. record t { inflight = retain (λ row. not (row.client_id == client_id)) t.inflight })
  pub insert_inflight_lem :
      (row : InflightRow)
      → Changes tables started
          (q.insert_inflight row)
          (λ t. record t { inflight = t.inflight ++ row ∷ [] })
  pub delete_inbound_lem :
      (client_id : Bytes)
      → Changes tables started
          (q.delete_inbound client_id)
          (λ t. record t { inbound = retain (λ row. not (row.client_id == client_id)) t.inbound })
  pub insert_inbound_lem :
      (row : InboundRow)
      → Changes tables started
          (q.insert_inbound row)
          (λ t. record t { inbound = t.inbound ++ row ∷ [] })
  pub select_session_lem :
      (client_id : Bytes) (d : D)
      → Returns
          (q.select_session client_id d)
          (λ rows. rows ≡ rows_at (get client_id (tables d).sessions))
  pub count_sessions_lem :
      (client_id : Bytes) (d : D)
      → Returns
          (q.count_sessions client_id d)
          (λ n. n ≡ length (rows_at (get client_id (tables d).sessions)))
  pub select_expired_lem :
      (older_than : Bytes) (d : D)
      → Returns
          (q.select_expired older_than d)
          (λ ids. Permᴰ ids (expired_ids older_than (tables d).sessions))
  -- the order of the rows is not known
  pub select_subscriptions_lem :
      (client_id : Bytes) (d : D)
      → Returns
          (q.select_subscriptions client_id d)
          (λ rows. Permᴰ rows (retain (λ row. row.client_id == client_id) (tables d).subscriptions))
  pub select_inflight_lem :
      (client_id : Bytes) (d : D)
      → Returns
          (q.select_inflight client_id d)
          (λ rows. Permᴰ rows (retain (λ row. row.client_id == client_id) (tables d).inflight))
  pub select_inbound_lem :
      (client_id : Bytes) (d : D)
      → Returns
          (q.select_inbound client_id d)
          (λ rows. Permᴰ rows (retain (λ row. row.client_id == client_id) (tables d).inbound))
  pub upsert_retained_lem :
      (row : RetainedRow)
      → Changes tables started
          (q.upsert_retained row)
          (λ t. record t { retained = insert row.topic row t.retained })
  pub delete_retained_lem :
      (topic : Bytes)
      → Changes tables started
          (q.delete_retained topic)
          (λ t. record t { retained = remove topic t.retained })
  pub select_retained_lem :
      (topic : Bytes) (d : D)
      → Returns (q.select_retained topic d) (λ rows. rows ≡ rows_at (get topic (tables d).retained))
  pub select_all_retained_lem :
      (d : D) → Returns (q.select_all_retained d) (λ rows. Permᴰ rows (values (tables d).retained))
  pub count_retained_lem :
      (d : D) → Returns (q.count_retained d) (λ n. n ≡ length (tables d).retained)
