-- ===== src/Storage/Trait.antt =====
-- src/storage/traits.rs: the `Storage` trait as a record of operations over the state `S` of a
-- backend, and the contract under which the broker uses it.
use iotd.Prelude.{
  ℕ, Bytes, ◌≡◌, Bool, Option, List, [], ◌∷◌, length, HashMap, get, insert, remove, bytes_eq,
}
use iotd.Storage.Types.{
  DateTime, PersistedSession, PersistedSubscription, PersistedInflightMessage,
  PersistedInboundQos2Message, PersistedRetainedMessage,
}

-- The text of an error is not modelled.
pub data StorageError : Type 0 where
  internal invalid_date_time : StorageError

pub data StorageResult {ℓ} (A : Type ℓ) : Type ℓ where
  ok : A → StorageResult A
  err : StorageError → StorageResult A

-- What holds of a value that is returned, and what of a failure.
abbrev pub OkElse {ℓ} : {A : Type ℓ} → StorageResult A → (A → Type 0) → Type 0 → Type 0
OkElse (ok a) P E = P a
OkElse (err e) P E = E

pub OkElse_map {ℓ} :
    {A : Type ℓ} {P Q : A → Type 0} {E F : Type 0} (r : StorageResult A)
    → OkElse r P E
    → ((a : A) → P a → Q a)
    → (E → F)
    → OkElse r Q F
OkElse_map (ok a) p f g = f a p
OkElse_map (err e) p f g = g p

pub record Storage (S : Type 0) : Type 0 where
  pub save_session :
      PersistedSession
      → List PersistedSubscription
      → List PersistedInflightMessage
      → List PersistedInboundQos2Message
      → S
      → StorageResult (Unit {0}) × S
  pub load_session : Bytes → S → StorageResult (Option PersistedSession)
  pub load_subscriptions : Bytes → S → StorageResult (List PersistedSubscription)
  pub load_inflight_messages : Bytes → S → StorageResult (List PersistedInflightMessage)
  pub load_inbound_qos2_messages : Bytes → S → StorageResult (List PersistedInboundQos2Message)
  pub delete_session : Bytes → S → StorageResult (Unit {0}) × S
  pub session_exists : Bytes → S → StorageResult Bool
  pub delete_expired_sessions : DateTime → S → StorageResult ℕ × S
  pub save_retained_message : PersistedRetainedMessage → S → StorageResult (Unit {0}) × S
  pub load_retained_message : Bytes → S → StorageResult (Option PersistedRetainedMessage)
  pub load_all_retained_messages : S → StorageResult (List PersistedRetainedMessage)
  pub delete_retained_message : Bytes → S → StorageResult (Unit {0}) × S
  pub count_retained_messages : S → StorageResult ℕ

abbrev pub values {ℓ κ} : {K : Type ℓ} {V : Type κ} → HashMap K V → List V
values [] = []
values ((k, v) ∷ m) = v ∷ values m

-- The retained messages of a backend that does not fail are a map from topics.
pub record IsRetainedStore {S : Type 0} (st : Storage S) : Type 0 where
  pub view : S → HashMap Bytes PersistedRetainedMessage
  pub load_lem : (t : Bytes) (s : S) → st.load_retained_message t s ≡ ok (get t (view s))
  pub load_all_lem : (s : S) → st.load_all_retained_messages s ≡ ok (values (view s))
  pub count_lem : (s : S) → st.count_retained_messages s ≡ ok (length (view s))
  pub save_lem : (m : PersistedRetainedMessage) (s : S) → (st.save_retained_message m s).0 ≡ ok tt
  pub view-save :
      (m : PersistedRetainedMessage) (s : S)
      → view (st.save_retained_message m s).1 ≡ insert m.topic m (view s)
  pub delete_lem : (t : Bytes) (s : S) → (st.delete_retained_message t s).0 ≡ ok tt
  pub view-delete :
      (t : Bytes) (s : S) → view (st.delete_retained_message t s).1 ≡ remove t (view s)
