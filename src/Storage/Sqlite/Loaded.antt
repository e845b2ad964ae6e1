-- ===== src/Storage/Sqlite/Loaded.antt =====
-- src/storage/sqlite.rs: what the `load_` operations return of a session that was saved.
use mathlib.Core.List.{Permᴰ}
use iotd.Prelude.{
  All-map, ◌≡◌, ◌∙◌, ap, subst, none, some, List, get, get-insert, bytes_eq, beq_refl, All,
  if◌then◌else◌,
}
use iotd.Storage.Types.{
  DateTime, PersistedSession, PersistedSubscription, PersistedInflightMessage,
  PersistedInboundQos2Message,
}
use iotd.Storage.Trait.{OkElse, ok}
use iotd.Storage.Sqlite.Rows.{Chrono, session_row, subscription_row, inflight_row, inbound_row}
use iotd.Storage.Sqlite.Columns.{
  session_of_row, subscription_of_row, inflight_of_row, inbound_of_row,
}
use iotd.Storage.Sqlite.Database.{Sqlite, IsSqlite, Tables, Returns, upserted, rows_at}
use iotd.Storage.Sqlite.Run.{query}
use iotd.Storage.Sqlite.Store.{
  save_session, load_session, load_subscriptions, load_inflight_messages,
  load_inbound_qos2_messages,
}
use iotd.Storage.Sqlite.Atomic.{saved, save_session-Atomic}
use iotd.Storage.Sqlite.RoundTrip.{
  IsChrono, SessionFits, InflightFits, InboundFits, kept_created_at, with_created_at,
  session_of_row-back, subscription_of_row-back, inflight_of_row-back, inbound_of_row-back,
}
use iotd.Storage.Sqlite.Collected.{loaded_first, own_loaded}

-- What the four operations return of what was saved: it, or the failure of the query.
abbrev pub Loads :
    {D : Type 0}
    → Chrono
    → Sqlite D
    → D
    → PersistedSession
    → List PersistedSubscription
    → List PersistedInflightMessage
    → List PersistedInboundQos2Message
    → Type 0
Loads c q d session subscriptions inflight inbound =
    let id = session.client_id in
    OkElse (load_session c q id d) (λ o. o ≡ some session) (q.select_session id d ≡ none)
    × OkElse (load_subscriptions c q id d) (λ k. Permᴰ k subscriptions)
        (q.select_subscriptions id d ≡ none)
    × OkElse (load_inflight_messages c q id d) (λ k. Permᴰ k inflight)
        (q.select_inflight id d ≡ none)
    × OkElse (load_inbound_qos2_messages c q id d) (λ k. Permᴰ k inbound)
        (q.select_inbound id d ≡ none)

module _ {D : Type 0} (c : Chrono) (h : IsChrono c) {q : Sqlite D} (l : IsSqlite q)
    (session : PersistedSession) (subscriptions : List PersistedSubscription)
    (inflight : List PersistedInflightMessage) (inbound : List PersistedInboundQos2Message) where
  module _ (t : Tables) (d : D)
      (e : l.tables d ≡ saved c session subscriptions inflight inbound t) where
    session-loaded :
        (created : DateTime)
        → SessionFits session
        → kept_created_at c (get session.client_id t.sessions) session ≡ ok created
        → OkElse
            (load_session c q session.client_id d)
            (λ o. o ≡ some (record session { created_at = created }))
            (q.select_session session.client_id d ≡ none)
    unfolding load_session query
    session-loaded created fits kept =
        loaded_first (session_of_row c)
          (upserted (get session.client_id t.sessions) (session_row c session))
          (record session { created_at = created })
          (session_of_row-back c h (get session.client_id t.sessions) session fits
            ∙ ap (with_created_at session) kept)
          (q.select_session session.client_id d)
          (subst (λ o. Returns (q.select_session session.client_id d) (λ rows. rows ≡ rows_at o))
            (ap (λ u. get session.client_id u.sessions) e
              ∙ get-insert session.client_id session.client_id _ t.sessions
              ∙ ap
                  (λ b.
                    if b
                    then some (upserted (get session.client_id t.sessions) (session_row c session))
                    else get session.client_id t.sessions)
                  (beq_refl session.client_id))
            (l.select_session_lem session.client_id d))

    subscriptions-loaded :
        All (λ s. s.client_id ≡ session.client_id) subscriptions
        → OkElse
            (load_subscriptions c q session.client_id d)
            (λ k. Permᴰ k subscriptions)
            (q.select_subscriptions session.client_id d ≡ none)
    unfolding load_subscriptions query subscription_row
    subscriptions-loaded p =
        own_loaded (subscription_of_row c) (λ row. row.client_id) session.client_id
          (subscription_row c) _ (λ s _. subscription_of_row-back c h s) subscriptions p p
          (l.tables d).subscriptions t.subscriptions (ap (λ u. u.subscriptions) e)
          (q.select_subscriptions session.client_id d)
          (l.select_subscriptions_lem session.client_id d)

    inflight-loaded :
        All (λ m. (m.client_id ≡ session.client_id) × InflightFits m) inflight
        → OkElse
            (load_inflight_messages c q session.client_id d)
            (λ k. Permᴰ k inflight)
            (q.select_inflight session.client_id d ≡ none)
    unfolding load_inflight_messages query inflight_row
    inflight-loaded p =
        own_loaded (inflight_of_row c) (λ row. row.client_id) session.client_id (inflight_row c) _
          (λ m r. inflight_of_row-back c h m r.1) inflight p (All-map (λ _ r. r.0) inflight p)
          (l.tables d).inflight t.inflight (ap (λ u. u.inflight) e)
          (q.select_inflight session.client_id d) (l.select_inflight_lem session.client_id d)

    inbound-loaded :
        All (λ m. (m.client_id ≡ session.client_id) × InboundFits m) inbound
        → OkElse
            (load_inbound_qos2_messages c q session.client_id d)
            (λ k. Permᴰ k inbound)
            (q.select_inbound session.client_id d ≡ none)
    unfolding load_inbound_qos2_messages query inbound_row
    inbound-loaded p =
        own_loaded (inbound_of_row c) (λ row. row.client_id) session.client_id (inbound_row c) _
          (λ m r. inbound_of_row-back c h m r.1) inbound p (All-map (λ _ r. r.0) inbound p)
          (l.tables d).inbound t.inbound (ap (λ u. u.inbound) e)
          (q.select_inbound session.client_id d) (l.select_inbound_lem session.client_id d)

  -- After a `save_session` that succeeded, the four `load_` operations return what was saved, lists in
  -- some order and the session with the date at which it was first saved; only the query itself may
  -- fail. The numbers fit into their types, and the entries are of the session's client.
  pub load_session-save_session :
      (created : DateTime) (d : D)
      → SessionFits session
      → All (λ s. s.client_id ≡ session.client_id) subscriptions
      → All (λ m. (m.client_id ≡ session.client_id) × InflightFits m) inflight
      → All (λ m. (m.client_id ≡ session.client_id) × InboundFits m) inbound
      → kept_created_at c (get session.client_id (l.tables d).sessions) session ≡ ok created
      → (save_session c q session subscriptions inflight inbound d).0 ≡ ok tt
      → Loads c q
          (save_session c q session subscriptions inflight inbound d).1
          (record session { created_at = created })
          subscriptions
          inflight
          inbound
  load_session-save_session created d fits subs flights inbounds kept ok_saved =
      let e =
        subst
          (λ r.
            OkElse r
              (λ _.
                l.tables (save_session c q session subscriptions inflight inbound d).1
                ≡ saved c session subscriptions inflight inbound (l.tables d))
              (l.tables (save_session c q session subscriptions inflight inbound d).1 ≡ l.tables d))
          ok_saved (save_session-Atomic c l session subscriptions inflight inbound d) in
      (
        session-loaded (l.tables d) _ e created fits kept,
        subscriptions-loaded (l.tables d) _ e subs,
        inflight-loaded (l.tables d) _ e flights,
        inbound-loaded (l.tables d) _ e inbounds,
      )
