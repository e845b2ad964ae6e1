-- ===== src/Session/Persist/Sqlite.antt =====
-- A session that is saved to the SQLite storage and restored from it.
use mathlib.Core.List.{Permᴰ}
use iotd.Prelude.{
  Bool, ℕ, Bytes, ◌^◌, ◌<◌, ◌≡◌, ◌≢◌, refl, ◌∙◌, ap, subst, true, none, some, List, [], ◌∷◌, map,
  All, Distinct, HashMap, get, get-nil, bytes_eq, nat_eq, arith,
}
use iotd.Protocol.Packet.{QoS}
use iotd.Storage.Types.{
  DateTime, PersistedSession, PersistedInflightMessage, PersistedInboundQos2Message,
}
use iotd.Storage.Trait.{StorageResult, ok, err, OkElse}
use iotd.Storage.Sqlite.Rows.{Chrono}
use iotd.Storage.Sqlite.Database.{Sqlite, IsSqlite}
use iotd.Storage.Sqlite.Store.{
  sqlite, save_session, load_session, load_inflight_messages, load_inbound_qos2_messages,
}
use iotd.Storage.Sqlite.RoundTrip.{IsChrono, InflightFits, InboundFits, kept_created_at}
use iotd.Storage.Sqlite.Loaded.{Loads, load_session-save_session}
use iotd.Router.Index.{get_subscriptions}
use iotd.Session.Types.{InflightMessage, ReceivedQos2Message, Runtime}
use iotd.Session.Effect.{Env, World, Outcome}
use iotd.Session.Outbound.Tracked.{IsTracked}
use iotd.Session.Persist.{
  session_of, restore_runtime, stored_subscriptions, stored_inflight, stored_inbound,
  inflight_of_stored, save_to_storage, restore_from_storage,
}
use iotd.Session.Persist.Backend.{
  restore_from_storage-runtime, inflight_of_stored-Permᴰ, get-restore_inbound-Permᴰ,
}
use iotd.Session.Persist.RoundTrip.{
  refreshed, restored_at, inflight_lem, will_lem, get-restore_inbound, or_else-none,
}

-- A result that did not fail.
answered :
    {A : Type 0} (r : StorageResult A) (P : A → Type 0) {E : Type 0}
    → OkElse r P E
    → (E → ⊥)
    → (a : A) × (r ≡ ok a) × P a
answered (ok a) P p works = (a, refl, p)
answered (err x) P p works = absurd (works p)

-- The sizes of the runtime's fields, which are a `u16` or an `i32` when they are stored.
pub record FitsColumns (r : Runtime) : Type 0 where
  pub next : r.next_packet_id < 2 ^ 16
  pub keep_alive : r.keep_alive < 2 ^ 16
  pub retries : All (λ m. m.retry_count < 2 ^ 31) r.inflight_queue
  pub inbound : All (λ entry. entry.0 < 2 ^ 16) r.inbound_qos2

module _ (client_id : Bytes) (t : DateTime) where
  subscriptions-own :
      (fs : List (Bytes × QoS))
      → All (λ s. s.client_id ≡ client_id) (stored_subscriptions client_id fs)
  unfolding stored_subscriptions
  subscriptions-own [] = tt
  subscriptions-own ((f, q) ∷ fs) = (refl, subscriptions-own fs)

  inflight-fits :
      (ms : List InflightMessage)
      → All IsTracked ms
      → All (λ m. m.retry_count < 2 ^ 31) ms
      → All (λ m. (m.client_id ≡ client_id) × InflightFits m) (stored_inflight client_id t ms)
  unfolding stored_inflight
  inflight-fits [] h k = tt
  inflight-fits (m ∷ ms) (h, hs) (k, ks) =
      ((refl, (rw h.id_lem (omega (arith, h.id-IsPacketId)), k)), inflight-fits ms hs ks)

  inbound-fits :
      (m : HashMap ℕ ReceivedQos2Message)
      → All (λ entry. entry.0 < 2 ^ 16) m
      → All (λ x. (x.client_id ≡ client_id) × InboundFits x) (stored_inbound client_id t m)
  unfolding stored_inbound
  inbound-fits [] h = tt
  inbound-fits ((j, r) ∷ m) (h, hs) = ((refl, h), inbound-fits m hs)

module _ {D : Type 0} (c : Chrono) (h : IsChrono c) {q : Sqlite D} (l : IsSqlite q)
    (e : Env D) where
  -- The session over the SQLite storage.
  abbrev pub in_sqlite : Env D
  in_sqlite = record e { storage = sqlite c q }

  -- The queries for the client's session and messages succeed.
  abbrev pub Answers : Bytes → D → Type 0
  Answers client_id d =
      (q.select_session client_id d ≢ none)
      × (q.select_inflight client_id d ≢ none)
      × (q.select_inbound client_id d ≢ none)

  module _ (client_id : Bytes) (w : World D) where
    abbrev pub session : PersistedSession
    session = session_of in_sqlite client_id w.runtime

    -- `save_session` as `save_to_storage` calls it.
    abbrev pub saving : StorageResult (Unit {0}) × D
    saving =
        save_session c q session
          (stored_subscriptions client_id (get_subscriptions w.runtime.id w.router))
          (stored_inflight client_id e.utc_now w.runtime.inflight_queue)
          (stored_inbound client_id e.utc_now w.runtime.inbound_qos2) w.storage

    save_to_storage-saving :
        w.runtime.client_id ≡ some client_id → (save_to_storage in_sqlite w).1.storage ≡ saving.1
    unfolding save_to_storage
    save_to_storage-saving named = rw named refl

    -- What the backend then returns of the session.
    loads :
        (created : DateTime)
        → All IsTracked w.runtime.inflight_queue
        → FitsColumns w.runtime
        → kept_created_at c (get client_id (l.tables w.storage).sessions) session ≡ ok created
        → saving.0 ≡ ok tt
        → Loads c q saving.1
            (record session { created_at = created })
            (stored_subscriptions client_id (get_subscriptions w.runtime.id w.router))
            (stored_inflight client_id e.utc_now w.runtime.inflight_queue)
            (stored_inbound client_id e.utc_now w.runtime.inbound_qos2)
    loads created tracked fits kept done =
        load_session-save_session c h l session _ _ _ created w.storage (fits.next, fits.keep_alive)
          (subscriptions-own client_id e.utc_now (get_subscriptions w.runtime.id w.router))
          (inflight-fits client_id e.utc_now w.runtime.inflight_queue tracked fits.retries)
          (inbound-fits client_id e.utc_now w.runtime.inbound_qos2 fits.inbound) kept done

    -- The world in which the old task has saved its session, and a new one starts.
    abbrev pub restarted : Runtime → World D
    restarted fresh = record (save_to_storage in_sqlite w).1 { runtime = fresh }

    -- What the restored session has of the saved one.
    abbrev pub IsRestored : Outcome Bool × World D → Type 0
    IsRestored after =
        let r = after.1.runtime in
        (after.0 ≡ Outcome.ok true)
        × (r.next_packet_id ≡ w.runtime.next_packet_id)
        × (r.keep_alive ≡ w.runtime.keep_alive)
        × (r.will_message ≡ w.runtime.will_message)
        × Permᴰ r.inflight_queue (map (refreshed e.now) w.runtime.inflight_queue)
        × ((i : ℕ) → get i r.inbound_qos2 ≡ restored_at i (get i w.runtime.inbound_qos2))

    restore_runtime-IsRestored :
        (fresh : Runtime) (created : DateTime) (inflight : List PersistedInflightMessage)
        (inbound : List PersistedInboundQos2Message)
        → All IsTracked w.runtime.inflight_queue
        → Distinct w.runtime.inbound_qos2
        → fresh.inflight_queue ≡ []
        → fresh.inbound_qos2 ≡ []
        → Permᴰ inflight (stored_inflight client_id e.utc_now w.runtime.inflight_queue)
        → Permᴰ inbound (stored_inbound client_id e.utc_now w.runtime.inbound_qos2)
        → (after : Outcome Bool × World D) → after.0 ≡ Outcome.ok true
        → after.1.runtime
          ≡ restore_runtime in_sqlite
              (record session { created_at = created })
              inflight
              inbound
              fresh
        → IsRestored after
    restore_runtime-IsRestored fresh created inflight inbound tracked distinct no_flight no_inbound
          p r after returned e' =
        (
          returned,
          rw e' refl,
          rw e' refl,
          rw e' (will_lem w.runtime.will_message),
          rw e' (
              rw no_flight (
                subst (Permᴰ (inflight_of_stored e.now inflight))
                  (inflight_lem client_id e.utc_now e.now w.runtime.inflight_queue tracked)
                  (inflight_of_stored-Permᴰ e.now p))),
          λ i. rw e' (
              rw no_inbound (
                get-restore_inbound-Permᴰ i client_id e.utc_now w.runtime.inbound_qos2 [] inbound
                  distinct r
                ∙ get-restore_inbound client_id e.utc_now i w.runtime.inbound_qos2 [] distinct
                ∙ rw (get-nil i) (or_else-none (restored_at i (get i w.runtime.inbound_qos2))))),
        )

    -- A session that `save_to_storage` saved to the SQLite storage is restored by the next CONNECT under its
    -- name, if the queries for it and its messages succeed, in a task that has nothing in flight: with its next packet id,
    -- its keep-alive, its Will message, its messages in flight, in some order, and the messages that wait
    -- for PUBREL under their ids.
    pub restore_from_storage-sqlite :
        (fresh : Runtime) (created : DateTime)
        → w.runtime.client_id ≡ some client_id
        → All IsTracked w.runtime.inflight_queue
        → Distinct w.runtime.inbound_qos2
        → FitsColumns w.runtime
        → kept_created_at c (get client_id (l.tables w.storage).sessions) session ≡ ok created
        → saving.0 ≡ ok tt
        → Answers client_id saving.1
        → fresh.inflight_queue ≡ []
        → fresh.inbound_qos2 ≡ []
        → IsRestored (restore_from_storage in_sqlite client_id (restarted fresh))
    restore_from_storage-sqlite fresh created named tracked distinct fits kept done answers
          no_flight no_inbound =
        let same = save_to_storage-saving named in
        let (on_session, on_subs, on_inflight, on_inbound) = loads created tracked fits kept done in
        let (o, o_ok, o_eq) =
          answered (load_session c q client_id saving.1)
            (λ o. o ≡ some (record session { created_at = created })) on_session answers.0 in
        let (inflight, inflight_ok, p) =
          answered (load_inflight_messages c q client_id saving.1)
            (λ k. Permᴰ k (stored_inflight client_id e.utc_now w.runtime.inflight_queue))
            on_inflight answers.1 in
        let (inbound, inbound_ok, r) =
          answered (load_inbound_qos2_messages c q client_id saving.1)
            (λ k. Permᴰ k (stored_inbound client_id e.utc_now w.runtime.inbound_qos2)) on_inbound
            answers.2 in
        let result =
          restore_from_storage-runtime in_sqlite client_id (restarted fresh)
            (record session { created_at = created }) inflight inbound (rw same (o_ok ∙ ap ok o_eq))
            (rw same inflight_ok) (rw same inbound_ok) in
        restore_runtime-IsRestored fresh created inflight inbound tracked distinct no_flight
          no_inbound p r (restore_from_storage in_sqlite client_id (restarted fresh)) result.0
          result.1
