-- ===== src/Router/Retained.antt =====
-- Retained messages in src/router.rs: what a new subscription is sent, and what PUBLISH stores.
-- Storage is any backend of the trait; a failing load or save is logged and otherwise ignored.
pub mod Stored
pub mod Keyed
pub mod Found
use iotd.Prelude.{
  ℕ, Bytes, Bool, true, false, ◌&&◌, Option, none, some, List, [], ◌∷◌, ◌++◌, is_empty, leb,
  if◌then◌else◌,
}
use iotd.Protocol.Packet.{QoS, PublishPacket}
use iotd.Storage.Types.{DateTime, PersistedRetainedMessage, stored_from_qos, qos_from_stored}
use iotd.Storage.Trait.{Storage, StorageResult, ok, err}
use iotd.Router.Qos.{min_qos}
use iotd.Router.Topic.{has_wildcards, topic_matches}

-- `add_retained_packet`: the packet that is pushed.
unfoldable pub retained_packet : QoS → PersistedRetainedMessage → PublishPacket
retained_packet subscription_qos retained = record {
  topic = retained.topic;
  packet_id = none;
  payload = retained.payload;
  qos = min_qos (qos_from_stored retained.qos) subscription_qos;
  retain = true;
  dup = false;
}

-- The loop over all retained messages.
unfoldable pub push_matching :
    Bytes → QoS → List PersistedRetainedMessage → List PublishPacket → List PublishPacket
push_matching filter qos [] to_send = to_send
push_matching filter qos (retained ∷ rest) to_send = push_matching filter qos rest (
    if topic_matches retained.topic filter
    then to_send ++ retained_packet qos retained ∷ []
    else to_send)

abbrev pub unwrap_or {ℓ} : {A : Type ℓ} → A → StorageResult A → A
unwrap_or default (ok a) = a
unwrap_or default (err e) = default

-- `PersistedRetainedMessage` that `handle_retained_message` stores at time `now`.
abbrev pub retained_of : DateTime → PublishPacket → PersistedRetainedMessage
retained_of now packet = record {
  topic = packet.topic;
  payload = packet.payload;
  qos = stored_from_qos packet.qos;
  updated_at = now;
}

-- `matches!(existing, Ok(None))`
abbrev pub is_new : StorageResult (Option PersistedRetainedMessage) → Bool
is_new (ok none) = true
is_new (ok (some m)) = false
is_new (err e) = false

module _ {S : Type 0} (st : Storage S) where
  -- `all_retained` once it has been loaded.
  abbrev pub load_all : Option (List PersistedRetainedMessage) → S → List PersistedRetainedMessage
  load_all none s = unwrap_or [] (st.load_all_retained_messages s)
  load_all (some messages) s = messages

  abbrev pub push_exact :
      QoS
      → StorageResult (Option PersistedRetainedMessage)
      → List PublishPacket
      → List PublishPacket
  push_exact qos (ok (some retained)) to_send = to_send ++ retained_packet qos retained ∷ []
  push_exact qos (ok none) to_send = to_send
  push_exact qos (err e) to_send = to_send

  unfoldable pub find_retained_for_filter :
      Bytes
      → QoS
      → S
      → List PublishPacket × Option (List PersistedRetainedMessage)
      → List PublishPacket × Option (List PersistedRetainedMessage)
  find_retained_for_filter filter subscription_qos s (to_send, all_retained) =
      if has_wildcards filter
      then (let messages = load_all all_retained s in
          (push_matching filter subscription_qos messages to_send, some messages))
      else (push_exact subscription_qos (st.load_retained_message filter s) to_send, all_retained)

  unfoldable pub handle_retained_message : ℕ → DateTime → PublishPacket → S → S
  handle_retained_message limit now packet s =
      let existing = st.load_retained_message packet.topic s in
      let count = unwrap_or 0 (st.count_retained_messages s) in
      if is_empty packet.payload
      then (st.delete_retained_message packet.topic s).1
      else if is_new existing && leb limit count
      then s
      else (st.save_retained_message (retained_of now packet) s).1
