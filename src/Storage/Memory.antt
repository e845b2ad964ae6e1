-- ===== src/Storage/Memory.antt =====
-- src/storage/memory.rs: `InMemoryStorage`, five maps behind the `Storage` trait. Each operation
-- takes the locks that it needs before it starts, so that it is one step of the model.
pub mod Expired
mod Tests
use iotd.Prelude.{
  is_some, ℕ, Bytes, ◌≡◌, refl, Bool, true, false, Option, none, some, List, [], ◌∷◌, length, ltb,
  HashMap, get, insert, remove, bytes_eq, if◌then◌else◌,
}
use iotd.Storage.Types.{
  DateTime, PersistedSession, PersistedSubscription, PersistedInflightMessage,
  PersistedInboundQos2Message, PersistedRetainedMessage,
}
use iotd.Storage.Trait.{Storage, StorageResult, ok, IsRetainedStore, values}

pub record InMemoryStorage : Type 0 where
  pub sessions : HashMap Bytes PersistedSession
  pub subscriptions : HashMap Bytes (List PersistedSubscription)
  pub inflight : HashMap Bytes (List PersistedInflightMessage)
  pub inbound_qos2 : HashMap Bytes (List PersistedInboundQos2Message)
  pub retained : HashMap Bytes PersistedRetainedMessage

abbrev pub new : InMemoryStorage
new = record { sessions = []; subscriptions = []; inflight = []; inbound_qos2 = []; retained = [] }

abbrev pub unwrap_or_default {ℓ} : {A : Type ℓ} → Option (List A) → List A
unwrap_or_default none = []
unwrap_or_default (some l) = l

unfoldable pub save_session :
    PersistedSession
    → List PersistedSubscription
    → List PersistedInflightMessage
    → List PersistedInboundQos2Message
    → InMemoryStorage
    → StorageResult (Unit {0}) × InMemoryStorage
save_session session subscriptions inflight inbound_qos2 s = (
  ok tt,
  record s {
    sessions = insert session.client_id session s.sessions;
    subscriptions = insert session.client_id subscriptions s.subscriptions;
    inflight = insert session.client_id inflight s.inflight;
    inbound_qos2 = insert session.client_id inbound_qos2 s.inbound_qos2;
  },
)

-- The four removals of `delete_session`, which `delete_expired_sessions` makes for each session.
unfoldable pub forget : Bytes → InMemoryStorage → InMemoryStorage
forget client_id s = record s {
  sessions = remove client_id s.sessions;
  subscriptions = remove client_id s.subscriptions;
  inflight = remove client_id s.inflight;
  inbound_qos2 = remove client_id s.inbound_qos2;
}

unfoldable pub delete_session : Bytes → InMemoryStorage → StorageResult (Unit {0}) × InMemoryStorage
delete_session client_id s = (ok tt, forget client_id s)

-- The keys of the sessions that were not updated since.
unfoldable pub expired_keys : DateTime → HashMap Bytes PersistedSession → List Bytes
expired_keys older_than [] = []
expired_keys older_than ((k, s) ∷ m) =
    let rest = expired_keys older_than m in if ltb s.updated_at older_than then k ∷ rest else rest

unfoldable pub forget_all : List Bytes → InMemoryStorage → InMemoryStorage
forget_all [] s = s
forget_all (client_id ∷ rest) s = forget_all rest (forget client_id s)

unfoldable pub delete_expired_sessions :
    DateTime → InMemoryStorage → StorageResult ℕ × InMemoryStorage
delete_expired_sessions older_than s =
    let expired = expired_keys older_than s.sessions in (ok (length expired), forget_all expired s)

unfoldable pub save_retained_message :
    PersistedRetainedMessage → InMemoryStorage → StorageResult (Unit {0}) × InMemoryStorage
save_retained_message msg s = (ok tt, record s { retained = insert msg.topic msg s.retained })

unfoldable pub delete_retained_message :
    Bytes → InMemoryStorage → StorageResult (Unit {0}) × InMemoryStorage
delete_retained_message topic s = (ok tt, record s { retained = remove topic s.retained })

abbrev pub memory : Storage InMemoryStorage
memory = record {
  save_session = save_session;
  load_session = λ client_id s. ok (get client_id s.sessions);
  load_subscriptions = λ client_id s. ok (unwrap_or_default (get client_id s.subscriptions));
  load_inflight_messages = λ client_id s. ok (unwrap_or_default (get client_id s.inflight));
  load_inbound_qos2_messages = λ client_id s. ok (unwrap_or_default (get client_id s.inbound_qos2));
  delete_session = delete_session;
  session_exists = λ client_id s. ok (is_some (get client_id s.sessions));
  delete_expired_sessions = delete_expired_sessions;
  save_retained_message = save_retained_message;
  load_retained_message = λ topic s. ok (get topic s.retained);
  load_all_retained_messages = λ s. ok (values s.retained);
  delete_retained_message = delete_retained_message;
  count_retained_messages = λ s. ok (length s.retained);
}

pub save_retained_message-inserts :
    (m : PersistedRetainedMessage) (s : InMemoryStorage)
    → (save_retained_message m s).1.retained ≡ insert m.topic m s.retained
unfolding save_retained_message
save_retained_message-inserts m s = refl

pub save_retained_message-ok :
    (m : PersistedRetainedMessage) (s : InMemoryStorage) → (save_retained_message m s).0 ≡ ok tt
unfolding save_retained_message
save_retained_message-ok m s = refl

pub delete_retained_message-removes :
    (t : Bytes) (s : InMemoryStorage)
    → (delete_retained_message t s).1.retained ≡ remove t s.retained
unfolding delete_retained_message
delete_retained_message-removes t s = refl

pub delete_retained_message-ok :
    (t : Bytes) (s : InMemoryStorage) → (delete_retained_message t s).0 ≡ ok tt
unfolding delete_retained_message
delete_retained_message-ok t s = refl

-- The in-memory backend keeps the contract of the retained messages.
abbrev pub memory-IsRetainedStore : IsRetainedStore memory
memory-IsRetainedStore = record {
  view = λ s. s.retained;
  load_lem = λ t s. refl;
  load_all_lem = λ s. refl;
  count_lem = λ s. refl;
  save_lem = save_retained_message-ok;
  view-save = save_retained_message-inserts;
  delete_lem = delete_retained_message-ok;
  view-delete = delete_retained_message-removes;
}
