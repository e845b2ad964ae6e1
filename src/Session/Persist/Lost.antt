-- ===== src/Session/Persist/Lost.antt =====
-- `restore_from_storage` of src/session.rs over the SQLite storage, where a query fails.
use iotd.Prelude.{Bytes, ◌≡◌, refl, ◌∙◌, ap, true, none, some, [], ◌++◌, append-nil, subst}
use iotd.Storage.Types.{PersistedSession}
use iotd.Storage.Trait.{ok, OkElse}
use iotd.Storage.Sqlite.Rows.{Chrono}
use iotd.Storage.Sqlite.Database.{Sqlite, IsSqlite}
use iotd.Storage.Sqlite.Run.{query}
use iotd.Storage.Sqlite.Store.{sqlite, load_session, load_inflight_messages, delete_session}
use iotd.Storage.Sqlite.Atomic.{forgotten, delete_session-Atomic}
use iotd.Router.Retained.{unwrap_or}
use iotd.Session.Effect.{Env, World, Outcome}
use iotd.Session.Persist.{inflight_of_stored, restore_from_storage}
use iotd.Session.Persist.Backend.{restore_from_storage-found}

module _ {D : Type 0} (c : Chrono) {q : Sqlite D} (l : IsSqlite q) (e : Env D) where
  failed-query :
      (client_id : Bytes) (d : D)
      → q.select_inflight client_id d ≡ none
      → unwrap_or [] (load_inflight_messages c q client_id d) ≡ []
  unfolding load_inflight_messages query
  failed-query client_id d failed = rw failed refl

  -- Where the query for the messages in flight fails but the session is found and then deleted, the session
  -- goes on as a restored one, without those messages, which are then in no table either.
  pub restore_from_storage-loses :
      (client_id : Bytes) (v : World D) (session : PersistedSession)
      → load_session c q client_id v.storage ≡ ok (some session)
      → q.select_inflight client_id v.storage ≡ none
      → (delete_session c q client_id v.storage).0 ≡ ok tt
      → let after = restore_from_storage (record e { storage = sqlite c q }) client_id v in
        (after.0 ≡ Outcome.ok true)
        × (after.1.runtime.inflight_queue ≡ v.runtime.inflight_queue)
        × (l.tables after.1.storage ≡ forgotten client_id (l.tables v.storage))
  unfolding inflight_of_stored
  restore_from_storage-loses client_id v session found failed deleted =
      let env : Env D = record e { storage = sqlite c q } in
      let done = restore_from_storage-found env client_id v session found in
      (
        done.0,
        ap (λ r. r.inflight_queue) done.1
            ∙ ap (λ ms. v.runtime.inflight_queue ++ inflight_of_stored e.now ms)
                (failed-query client_id v.storage failed)
            ∙ append-nil v.runtime.inflight_queue,
        ap l.tables done.2
            ∙ subst
                (λ r.
                  OkElse r
                    (λ _.
                      l.tables (delete_session c q client_id v.storage).1
                      ≡ forgotten client_id (l.tables v.storage))
                    (l.tables (delete_session c q client_id v.storage).1 ≡ l.tables v.storage))
                deleted (delete_session-Atomic c l client_id v.storage),
      )
