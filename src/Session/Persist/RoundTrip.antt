-- ===== src/Session/Persist/RoundTrip.antt =====
-- A session that is saved to the in-memory storage and restored from it.
use iotd.Prelude.{
  ap, ℕ, Bytes, ◌≡◌, refl, ◌∙◌, true, false, Option, none, some, List, [], ◌∷◌, map, All, Distinct,
  HashMap, get, insert, get-insert, get-nil, bytes_eq, nat_eq, beq_refl, ◌==◌, eq_of_beq, subst,
  Bool-cases, inl, inr, if◌then◌else◌,
}
use iotd.Protocol.Packet.{QoS}
use iotd.Storage.Types.{DateTime, qos_from_stored-stored_from_qos, PersistedInboundQos2Message}
use iotd.Storage.Trait.{ok}
use iotd.Storage.Memory.{InMemoryStorage, memory, save_session, unwrap_or_default}
use iotd.Session.Types.{
  Instant, Qos2State, InflightMessage, ReceivedQos2Message, WillMessage, Runtime,
}
use iotd.Session.Effect.{Env, World, Outcome}
use iotd.Session.Outbound.Tracked.{IsTracked}
use iotd.Session.Persist.Backend.{restore_from_storage-runtime}
use iotd.Session.Persist.{
  session_of, restore_runtime, stored_state, state_of_stored, stored_will, will_of_stored,
  stored_inflight, inflight_of_stored, stored_inbound, received_of_stored, restore_inbound,
  save_to_storage, restore_from_storage,
}

state_lem : (s : Option Qos2State) → state_of_stored (stored_state s) ≡ s
unfolding state_of_stored stored_state
state_lem none = refl
state_lem (some Qos2State.awaiting_pub_rec) = refl
state_lem (some Qos2State.awaiting_pub_comp) = refl

pub will_lem : (w : Option WillMessage) → will_of_stored (stored_will w) ≡ w
unfolding will_of_stored stored_will
will_lem none = refl
will_lem (some w) = rw (qos_from_stored-stored_from_qos w.qos) refl

-- What a message in flight is after a restart: the same, from now on.
abbrev pub refreshed : Instant → InflightMessage → InflightMessage
refreshed now m = record m { timestamp = now }

pub inflight_lem :
    (client_id : Bytes) (t : DateTime) (now : Instant) (ms : List InflightMessage)
    → All IsTracked ms
    → inflight_of_stored now (stored_inflight client_id t ms) ≡ map (refreshed now) ms
unfolding inflight_of_stored stored_inflight
inflight_lem client_id t now [] h = refl
inflight_lem client_id t now (m ∷ ms) h =
    rw
      (
        h.0.id_lem,
        h.0.dup_lem,
        state_lem m.qos2_state,
        qos_from_stored-stored_from_qos m.packet.qos,
        inflight_lem client_id t now ms h.1,
      )
      refl

-- What a stored QoS 2 message is after a restart.
abbrev pub restored : ℕ → ReceivedQos2Message → ReceivedQos2Message
restored packet_id m = record {
  packet = record m.packet { packet_id = some packet_id; qos = QoS.exactly_once; dup = false };
}

abbrev pub restored_at : ℕ → Option ReceivedQos2Message → Option ReceivedQos2Message
restored_at packet_id none = none
restored_at packet_id (some m) = some (restored packet_id m)

-- The message that `restore_inbound` makes of a stored one.
abbrev stored_message : Bytes → DateTime → ℕ → ReceivedQos2Message → PersistedInboundQos2Message
stored_message client_id t j r = record {
  client_id = client_id;
  packet_id = j;
  topic = r.packet.topic;
  payload = r.packet.payload;
  retain = r.packet.retain;
  received_at = t;
}

abbrev pub or_else {ℓ} : {A : Type ℓ} → Option A → Option A → Option A
or_else none b = b
or_else (some a) b = some a

restored-first :
    (i j : ℕ) (r : ReceivedQos2Message) (o a : Option ReceivedQos2Message)
    → (j ≡ i → o ≡ none)
    → or_else (restored_at i o) (if j == i then some (restored j r) else a)
      ≡ or_else (restored_at i (if j == i then some r else o)) a
restored-first i j r o a new = elim (Bool-cases (j == i)) [
  | inl y ↦ rw (y, new (eq_of_beq j i y), eq_of_beq j i y) refl
  | inr n ↦ rw n refl
]

pub get-restore_inbound :
    (client_id : Bytes) (t : DateTime) (i : ℕ) (m acc : HashMap ℕ ReceivedQos2Message)
    → Distinct m
    → get i (restore_inbound (stored_inbound client_id t m) acc)
      ≡ or_else (restored_at i (get i m)) (get i acc)
unfolding restore_inbound stored_inbound get
get-restore_inbound client_id t i [] acc d = refl
get-restore_inbound client_id t i ((j, r) ∷ m) acc d =
    get-restore_inbound client_id t i m
      (insert j (received_of_stored (stored_message client_id t j r)) acc) d.1
    ∙ rw (get-insert j i (received_of_stored (stored_message client_id t j r)) acc)
        (restored-first i j r (get i m) (get i acc) (λ same. subst (λ x. get x m ≡ none) same d.0))

pub or_else-none : (o : Option ReceivedQos2Message) → or_else o none ≡ o
or_else-none none = refl
or_else-none (some r) = refl

module _ (e : Env InMemoryStorage) where
  -- The session in the in-memory storage.
  abbrev pub in_memory : Env InMemoryStorage
  in_memory = record e { storage = memory }

  -- The world in which the old task has saved its session, and a new one starts.
  abbrev pub restarted : Runtime → World InMemoryStorage → World InMemoryStorage
  restarted fresh w = record (save_to_storage in_memory w).1 { runtime = fresh }

  get-same {ℓ} :
      {V : Type ℓ} (k : Bytes) (v : V) (m : HashMap Bytes V) → get k (insert k v m) ≡ some v
  get-same k v m = get-insert k k v m ∙ rw (beq_refl k) refl

  restored_runtime :
      (client_id : Bytes) (fresh : Runtime) (w : World InMemoryStorage)
      → w.runtime.client_id ≡ some client_id
      → let after = restore_from_storage in_memory client_id (restarted fresh w) in
        (after.0 ≡ Outcome.ok true)
        × (after.1.runtime
            ≡ restore_runtime in_memory
                (session_of in_memory client_id w.runtime)
                (stored_inflight client_id e.utc_now w.runtime.inflight_queue)
                (stored_inbound client_id e.utc_now w.runtime.inbound_qos2)
                fresh)
  unfolding save_to_storage save_session
  restored_runtime client_id fresh w named =
      restore_from_storage-runtime in_memory client_id (restarted fresh w)
        (session_of in_memory client_id w.runtime)
        (stored_inflight client_id e.utc_now w.runtime.inflight_queue)
        (stored_inbound client_id e.utc_now w.runtime.inbound_qos2)
        (rw named (ap ok (get-same client_id _ w.storage.sessions)))
        (rw named (ap (λ o. ok (unwrap_or_default o)) (get-same client_id _ w.storage.inflight)))
        (rw named
          (ap (λ o. ok (unwrap_or_default o)) (get-same client_id _ w.storage.inbound_qos2)))

  -- A session that was saved is restored by the next CONNECT under its name, in a task that has nothing
  -- in flight: with its next packet id, its Will message, and its messages in flight in their order,
  -- from now on, and with the messages that wait for PUBREL under their ids.
  pub restore_from_storage-save_to_storage :
      (client_id : Bytes) (fresh : Runtime) (w : World InMemoryStorage)
      → w.runtime.client_id ≡ some client_id
      → All IsTracked w.runtime.inflight_queue
      → Distinct w.runtime.inbound_qos2
      → fresh.inflight_queue ≡ []
      → fresh.inbound_qos2 ≡ []
      → let after = restore_from_storage in_memory client_id (restarted fresh w) in
        let r = after.1.runtime in
        (after.0 ≡ Outcome.ok true)
        × (r.next_packet_id ≡ w.runtime.next_packet_id)
        × (r.keep_alive ≡ w.runtime.keep_alive)
        × (r.will_message ≡ w.runtime.will_message)
        × (r.inflight_queue ≡ map (refreshed e.now) w.runtime.inflight_queue)
        × ((i : ℕ) → get i r.inbound_qos2 ≡ restored_at i (get i w.runtime.inbound_qos2))
  restore_from_storage-save_to_storage client_id fresh w named tracked distinct no_flight
        no_inbound =
      let done = restored_runtime client_id fresh w named in
      (
        done.0,
        rw done.1 refl,
        rw done.1 refl,
        rw done.1 (will_lem w.runtime.will_message),
        rw done.1 (
            rw no_flight (inflight_lem client_id e.utc_now e.now w.runtime.inflight_queue tracked)),
        λ i. rw done.1 (
            rw no_inbound (
              get-restore_inbound client_id e.utc_now i w.runtime.inbound_qos2 [] distinct
              ∙ rw (get-nil i) (or_else-none (restored_at i (get i w.runtime.inbound_qos2))))),
      )
