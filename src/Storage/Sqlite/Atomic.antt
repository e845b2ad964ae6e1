-- ===== src/Storage/Sqlite/Atomic.antt =====
-- src/storage/sqlite.rs: what `save_session`, `delete_session` and `delete_expired_sessions` leave in the
-- tables, when they succeed and when they fail at any of their statements.
use iotd.Prelude.{
  ◌≡◌, refl, ◌∙◌, List, [], ◌∷◌, ◌++◌, map, Bytes, remove, insert, get, retain, not, ◌==◌, bytes_eq,
  append-nil, append_assoc,
}
use iotd.Storage.Trait.{OkElse}
use iotd.Storage.Types.{
  PersistedSession, PersistedSubscription, PersistedInflightMessage, PersistedInboundQos2Message,
}
use iotd.Storage.Sqlite.Rows.{Chrono, session_row, subscription_row, inflight_row, inbound_row}
use iotd.Storage.Sqlite.Database.{Sqlite, IsSqlite, Tables, Statement, Changes, upserted}
use iotd.Storage.Sqlite.Run.{execute, for_each}
use iotd.Storage.Sqlite.Steps.{
  fold, Makes, then-Makes, execute-Makes, for_each-Makes, Makes-congr, transaction-Atomic,
}
use iotd.Storage.Sqlite.Store.{delete_client_data, save_session, delete_session}

-- No row of the client is left.
abbrev pub forgotten : Bytes → Tables → Tables
forgotten client_id t = record t {
  sessions = remove client_id t.sessions;
  subscriptions = retain (λ row. not (row.client_id == client_id)) t.subscriptions;
  inflight = retain (λ row. not (row.client_id == client_id)) t.inflight;
  inbound = retain (λ row. not (row.client_id == client_id)) t.inbound;
}

-- The client's rows are replaced by the rows of the arguments.
abbrev pub saved :
    Chrono
    → PersistedSession
    → List PersistedSubscription
    → List PersistedInflightMessage
    → List PersistedInboundQos2Message
    → Tables
    → Tables
saved c session subscriptions inflight inbound t =
    let others = forgotten session.client_id t in
    record t {
      sessions =
          insert session.client_id
            (upserted (get session.client_id t.sessions) (session_row c session)) t.sessions;
      subscriptions = others.subscriptions ++ map (subscription_row c) subscriptions;
      inflight = others.inflight ++ map (inflight_row c) inflight;
      inbound = others.inbound ++ map (inbound_row c) inbound;
    }

-- A table, with what replaces its rows, and the statement that inserts a row into it.
module _ {D : Type 0} {q : Sqlite D} (l : IsSqlite q) {R A : Type 0} (rows : Tables → List R)
    (put : List R → Tables → Tables) (rows-put : (rs : List R) (t : Tables) → rows (put rs t) ≡ rs)
    (put-put : (rs ss : List R) (t : Tables) → put rs (put ss t) ≡ put rs t)
    (put-rows : (t : Tables) → put (rows t) t ≡ t) (stmt : R → Statement D (Unit {0}))
    (stmt_lem : (row : R) → Changes l.tables l.started (stmt row) (λ t. put (rows t ++ row ∷ []) t))
    (f : A → R) where
  fold-put :
      (xs : List A) (t : Tables)
      → fold (λ x t. put (rows t ++ f x ∷ []) t) xs t ≡ put (rows t ++ map f xs) t
  fold-put [] t = rw (append-nil, put-rows) refl
  fold-put (x ∷ xs) t =
      fold-put xs (put (rows t ++ f x ∷ []) t) ∙ rw (rows-put, put-put, append_assoc) refl

  insert_all-Makes :
      (xs : List A)
      → Makes l (for_each (λ x. execute (stmt (f x))) xs) (λ t. put (rows t ++ map f xs) t)
  insert_all-Makes xs = Makes-congr l (fold-put xs) (
      for_each-Makes l {g = λ x t. put (rows t ++ f x ∷ []) t}
        (λ x. execute-Makes l (stmt_lem (f x))) xs)

module _ {D : Type 0} (c : Chrono) {q : Sqlite D} (l : IsSqlite q) where
  pub delete_client_data-Makes :
      (client_id : Bytes) → Makes l (delete_client_data c q client_id) (forgotten client_id)
  unfolding delete_client_data
  delete_client_data-Makes client_id =
      then-Makes l (execute-Makes l (l.delete_inflight_lem client_id)) (
        then-Makes l (execute-Makes l (l.delete_inbound_lem client_id)) (
          then-Makes l (execute-Makes l (l.delete_subscriptions_lem client_id))
            (execute-Makes l (l.delete_session_lem client_id))))

  -- `delete_session` removes the client's rows from the four tables, or it fails and changes nothing.
  pub delete_session-Atomic :
      (client_id : Bytes) (d : D)
      → OkElse
          (delete_session c q client_id d).0
          (λ _. l.tables (delete_session c q client_id d).1 ≡ forgotten client_id (l.tables d))
          (l.tables (delete_session c q client_id d).1 ≡ l.tables d)
  unfolding delete_session
  delete_session-Atomic client_id =
      transaction-Atomic l (λ _ t u. u ≡ forgotten client_id t) _
        (delete_client_data-Makes client_id).steps

  module _ (session : PersistedSession) (subscriptions : List PersistedSubscription)
      (inflight : List PersistedInflightMessage) (inbound : List PersistedInboundQos2Message) where
    -- `save_session` replaces the client's rows in the four tables by the rows of its arguments, where a
    -- session that is there keeps its `created_at`, or it fails and changes nothing.
    pub save_session-Atomic :
        (d : D)
        → OkElse
            (save_session c q session subscriptions inflight inbound d).0
            (λ _.
              l.tables (save_session c q session subscriptions inflight inbound d).1
              ≡ saved c session subscriptions inflight inbound (l.tables d))
            (l.tables (save_session c q session subscriptions inflight inbound d).1 ≡ l.tables d)
    unfolding save_session session_row
    save_session-Atomic =
        transaction-Atomic l (λ _ t u. u ≡ saved c session subscriptions inflight inbound t) _
          (then-Makes l (execute-Makes l (l.upsert_session_lem (session_row c session))) (
            then-Makes l (execute-Makes l (l.delete_subscriptions_lem session.client_id)) (
              then-Makes l
                (insert_all-Makes l (λ t. t.subscriptions) (λ rs t. record t { subscriptions = rs })
                  (λ rs t. refl) (λ rs ss t. refl) (λ t. refl) q.insert_subscription
                  l.insert_subscription_lem (subscription_row c) subscriptions)
                (then-Makes l (execute-Makes l (l.delete_inflight_lem session.client_id)) (
                  then-Makes l
                    (insert_all-Makes l (λ t. t.inflight) (λ rs t. record t { inflight = rs })
                      (λ rs t. refl) (λ rs ss t. refl) (λ t. refl) q.insert_inflight
                      l.insert_inflight_lem (inflight_row c) inflight)
                    (then-Makes l (execute-Makes l (l.delete_inbound_lem session.client_id)) (
                      insert_all-Makes l (λ t. t.inbound) (λ rs t. record t { inbound = rs })
                        (λ rs t. refl) (λ rs ss t. refl) (λ t. refl) q.insert_inbound
                        l.insert_inbound_lem (inbound_row c) inbound))))))).steps
