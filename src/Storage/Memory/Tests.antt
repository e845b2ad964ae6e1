-- ===== src/Storage/Memory/Tests.antt =====
-- src/storage/memory.rs: two sessions, of which one has expired.
use iotd.Prelude.{◌≡◌, refl, Bytes, none, [], ◌∷◌, bytes_eq}
use iotd.Storage.Types.{DateTime, PersistedSession}
use iotd.Storage.Trait.{ok}
use iotd.Storage.Memory.{InMemoryStorage, new, expired_keys, delete_expired_sessions}

abbrev ann : Bytes
ann = 97 ∷ []

abbrev bob : Bytes
bob = 98 ∷ []

abbrev session_at : Bytes → DateTime → PersistedSession
session_at id t = record {
  client_id = id;
  next_packet_id = 1;
  keep_alive = 60;
  will_message = none;
  created_at = t;
  updated_at = t;
}

abbrev two_sessions : InMemoryStorage
two_sessions = record new { sessions = (ann, session_at ann 5) ∷ (bob, session_at bob 9) ∷ [] }

one_removed : (delete_expired_sessions 7 two_sessions).0 ≡ ok 1
unfolding delete_expired_sessions expired_keys
one_removed = refl
