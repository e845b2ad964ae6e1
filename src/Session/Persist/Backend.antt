-- ===== src/Session/Persist/Backend.antt =====
-- `restore_from_storage` of src/session.rs over any backend: what it makes of what the backend returns, also
-- where that is in another order.
use mathlib.Core.List.{Permᴰ}
use iotd.Prelude.{
  ℕ, Bytes, ◌≤◌, ◌≡◌, refl, sym, ◌∙◌, ap, true, Option, none, some, List, [], ◌∷◌, length, retain,
  Distinct, HashMap, get, insert, get-insert, nat_eq, ◌==◌, eq_of_beq, subst, Bool-cases, inl, inr,
  arith,
}
use iotd.Prelude.Perm.{Permᴰ-single, retain-Permᴰ}
use iotd.Protocol.Packet.{QoS, PublishPacket}
use iotd.Storage.Types.{
  PersistedInflightMessage, DateTime, PersistedInboundQos2Message, PersistedSession,
}
use iotd.Storage.Trait.{ok}
use iotd.Router.Retained.{unwrap_or}
use iotd.Session.Types.{Instant, ReceivedQos2Message}
use iotd.Session.Effect.{Env, World, Outcome}
use iotd.Session.Subscribing.{subscribe_router}
use iotd.Session.Persist.{
  restore_runtime, filters_of_stored, inflight_of_stored, stored_inbound, received_of_stored,
  restore_inbound, delete_saved, restore_from_storage,
}

pub inflight_of_stored-Permᴰ :
    (now : Instant) {ms ns : List PersistedInflightMessage}
    → Permᴰ ms ns
    → Permᴰ (inflight_of_stored now ms) (inflight_of_stored now ns)
unfolding inflight_of_stored
inflight_of_stored-Permᴰ now Permᴰ.nil = Permᴰ.nil
inflight_of_stored-Permᴰ now (Permᴰ.cons e p) =
    Permᴰ.cons (rw e refl) (inflight_of_stored-Permᴰ now p)
inflight_of_stored-Permᴰ now (Permᴰ.swap e f) = Permᴰ.swap (rw e refl) (rw f refl)
inflight_of_stored-Permᴰ now (Permᴰ.trans p r) =
    Permᴰ.trans (inflight_of_stored-Permᴰ now p) (inflight_of_stored-Permᴰ now r)

-- The last of these messages counts.
last_of : List PersistedInboundQos2Message → Option ReceivedQos2Message → Option ReceivedQos2Message
last_of [] o = o
last_of (msg ∷ rest) o = last_of rest (some (received_of_stored msg))

module _ (i : ℕ) where
  abbrev at_id : List PersistedInboundQos2Message → List PersistedInboundQos2Message
  at_id = retain (λ msg. msg.packet_id == i)

  get-restore_inbound-at_id :
      (ms : List PersistedInboundQos2Message) (acc : HashMap ℕ ReceivedQos2Message)
      → get i (restore_inbound ms acc) ≡ last_of (at_id ms) (get i acc)
  unfolding restore_inbound last_of
  get-restore_inbound-at_id [] acc = refl
  get-restore_inbound-at_id (msg ∷ ms) acc =
      get-restore_inbound-at_id ms (insert msg.packet_id (received_of_stored msg) acc)
      ∙ rw (get-insert msg.packet_id i (received_of_stored msg) acc)
          (elim (Bool-cases (msg.packet_id == i)) [ inl y ↦ rw y refl | inr n ↦ rw n refl ])

  -- Under a key of its own a message is stored once.
  at_id-stored :
      (client_id : Bytes) (t : DateTime) (m : HashMap ℕ ReceivedQos2Message)
      → get i m ≡ none
      → at_id (stored_inbound client_id t m) ≡ []
  unfolding stored_inbound get
  at_id-stored client_id t [] h = refl
  at_id-stored client_id t ((j, r) ∷ m) h = ground (arith, at_id-stored client_id t m)

  length-at_id :
      (client_id : Bytes) (t : DateTime) (m : HashMap ℕ ReceivedQos2Message)
      → Distinct m
      → length (at_id (stored_inbound client_id t m)) ≤ 1
  unfolding stored_inbound
  length-at_id client_id t [] d = omega arith
  length-at_id client_id t ((j, r) ∷ m) (new, d) = elim (Bool-cases (j == i)) [
    | inl y ↦
        rw (y, at_id-stored client_id t m (subst (λ k. get k m ≡ none) (eq_of_beq j i y) new))
          (omega arith)
    | inr n ↦ rw n (length-at_id client_id t m d)
  ]

  -- The order in which the backend returns the messages does not matter.
  pub get-restore_inbound-Permᴰ :
      (client_id : Bytes) (t : DateTime) (m acc : HashMap ℕ ReceivedQos2Message)
      (loaded : List PersistedInboundQos2Message)
      → Distinct m
      → Permᴰ loaded (stored_inbound client_id t m)
      → get i (restore_inbound loaded acc)
        ≡ get i (restore_inbound (stored_inbound client_id t m) acc)
  get-restore_inbound-Permᴰ client_id t m acc loaded d p =
      get-restore_inbound-at_id loaded acc
      ∙ ap (λ ms. last_of ms (get i acc))
          (Permᴰ-single (retain-Permᴰ (λ msg. msg.packet_id == i) p) (length-at_id client_id t m d))
      ∙ sym (get-restore_inbound-at_id (stored_inbound client_id t m) acc)

module _ {S : Type 0} (e : Env S) where
  subscribe_router-ok :
      (fs : List (Bytes × QoS)) (w : World S)
      → (found : List ℕ × List PublishPacket) × ((subscribe_router e fs w).0 ≡ Outcome.ok found)
        × ((subscribe_router e fs w).1.runtime ≡ w.runtime)
        × ((subscribe_router e fs w).1.storage ≡ w.storage)
  unfolding subscribe_router
  subscribe_router-ok [] w = (_, refl, refl, refl)
  subscribe_router-ok (f ∷ fs) w = (_, refl, refl, refl)

  -- What the storage returns for a client is put into the runtime, nothing in place of a list that it
  -- fails to return, and is then deleted.
  pub restore_from_storage-found :
      (client_id : Bytes) (v : World S) (session : PersistedSession)
      → e.storage.load_session client_id v.storage ≡ ok (some session)
      → let after = restore_from_storage e client_id v in
        (after.0 ≡ Outcome.ok true)
        × (after.1.runtime
            ≡ restore_runtime e session
                (unwrap_or [] (e.storage.load_inflight_messages client_id v.storage))
                (unwrap_or [] (e.storage.load_inbound_qos2_messages client_id v.storage))
                v.runtime)
        × (after.1.storage ≡ (e.storage.delete_session client_id v.storage).1)
  unfolding restore_from_storage delete_saved
  restore_from_storage-found client_id v session h =
      let fs =
        filters_of_stored (unwrap_or [] (e.storage.load_subscriptions client_id v.storage)) in
      let v' : World S = record v {
        runtime =
            restore_runtime e session
              (unwrap_or [] (e.storage.load_inflight_messages client_id v.storage))
              (unwrap_or [] (e.storage.load_inbound_qos2_messages client_id v.storage)) v.runtime;
      } in
      let done = subscribe_router-ok fs v' in rw (h, done.1) (refl, done.2, rw done.3 refl)

  -- Where all of it is returned.
  pub restore_from_storage-runtime :
      (client_id : Bytes) (v : World S) (session : PersistedSession)
      (inflight : List PersistedInflightMessage) (inbound : List PersistedInboundQos2Message)
      → e.storage.load_session client_id v.storage ≡ ok (some session)
      → e.storage.load_inflight_messages client_id v.storage ≡ ok inflight
      → e.storage.load_inbound_qos2_messages client_id v.storage ≡ ok inbound
      → let after = restore_from_storage e client_id v in
        (after.0 ≡ Outcome.ok true)
        × (after.1.runtime ≡ restore_runtime e session inflight inbound v.runtime)
  restore_from_storage-runtime client_id v session inflight inbound h l m =
      let found = restore_from_storage-found client_id v session h in
      (found.0, found.1 ∙ rw (l, m) refl)
