-- ===== src/Storage/Memory/Expired.antt =====
-- src/storage/memory.rs: what `delete_expired_sessions` removes.
use iotd.Prelude.{
  ◌≡◌, refl, Bytes, Bool, false, Option, none, some, List, [], ◌∷◌, contains, ltb, HashMap, get,
  get-remove, Distinct, bytes_eq, bytes_beq_iff, if◌then◌else◌, arith,
}
use iotd.Storage.Types.{DateTime, PersistedSession}
use iotd.Storage.Memory.{InMemoryStorage, forget, forget_all, expired_keys, delete_expired_sessions}

-- There is a session, and it was not updated since.
abbrev pub is_expired : DateTime → Option PersistedSession → Bool
is_expired older_than none = false
is_expired older_than (some session) = ltb session.updated_at older_than

contains-expired_keys :
    (older_than : DateTime) (k : Bytes) (m : HashMap Bytes PersistedSession)
    → Distinct m
    → contains k (expired_keys older_than m) ≡ is_expired older_than (get k m)
unfolding expired_keys get
contains-expired_keys older_than k [] d = refl
contains-expired_keys older_than k ((j, s) ∷ m) d =
    ground (arith, contains-expired_keys older_than k m d.1, bytes_beq_iff j k, d.0)

-- Of a map, what is left without these keys.
abbrev pub kept : {V : Type 0} → Bool → Option V → Option V
kept gone v = if gone then none else v

-- The four maps of the client.
abbrev pub Kept : Bool → Bytes → InMemoryStorage → InMemoryStorage → Type 0
Kept gone k s s' =
    (get k s'.sessions ≡ kept gone (get k s.sessions))
    × (get k s'.subscriptions ≡ kept gone (get k s.subscriptions))
    × (get k s'.inflight ≡ kept gone (get k s.inflight))
    × (get k s'.inbound_qos2 ≡ kept gone (get k s.inbound_qos2))

forget_all-Kept :
    (ids : List Bytes) (k : Bytes) (s : InMemoryStorage)
    → Kept (contains k ids) k s (forget_all ids s)
unfolding forget_all forget
forget_all-Kept [] k s = (refl, refl, refl, refl)
forget_all-Kept (id ∷ ids) k s = ground (
  arith,
  forget_all-Kept ids k (forget id s),
  get-remove id k s.sessions,
  get-remove id k s.subscriptions,
  get-remove id k s.inflight,
  get-remove id k s.inbound_qos2,
)

retained-forget_all :
    (ids : List Bytes) (s : InMemoryStorage) → (forget_all ids s).retained ≡ s.retained
unfolding forget_all forget
retained-forget_all [] s = refl
retained-forget_all (id ∷ ids) s = retained-forget_all ids (forget id s)

-- `delete_expired_sessions` of the in-memory storage removes a client's session, subscriptions and messages if
-- the session was last updated before the date, leaves every other client's as they are, and the retained
-- messages. No session is stored twice.
pub delete_expired_sessions-Kept :
    (older_than : DateTime) (k : Bytes) (s : InMemoryStorage)
    → Distinct s.sessions
    → Kept (is_expired older_than (get k s.sessions)) k s (delete_expired_sessions older_than s).1
      × ((delete_expired_sessions older_than s).1.retained ≡ s.retained)
unfolding delete_expired_sessions
delete_expired_sessions-Kept older_than k s d = (
  rw⁻¹ (contains-expired_keys older_than k s.sessions d)
      (forget_all-Kept (expired_keys older_than s.sessions) k s),
  retained-forget_all (expired_keys older_than s.sessions) s,
)
