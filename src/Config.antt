-- ===== src/Config.antt =====
-- src/config.rs: the configuration and its defaults, and the form of `listen` in a file, which is a text
-- or a sequence of texts. The other fields are read by serde under their names.
use iotd.Prelude.{ℕ, Bytes, ◌≡◌, refl, Option, none, some, List, [], ◌∷◌, map}
use iotd.Protocol.Packet.{ascii}

pub data StorageBackend : Type 0 where
  memory sqlite : StorageBackend

pub record PersistenceConfig : Type 0 where
  pub backend : StorageBackend
  pub database_path : Bytes
  pub session_expiry_seconds : ℕ

pub data AuthBackend : Type 0 where
  allow_all password_file : AuthBackend

pub record AuthConfig : Type 0 where
  pub backend : AuthBackend
  pub password_file : Bytes

pub data AclBackend : Type 0 where
  allow_all acl_file : AclBackend

pub record AclConfig : Type 0 where
  pub backend : AclBackend
  pub acl_file : Bytes

pub record TlsConfig : Type 0 where
  pub cert_file : Bytes
  pub key_file : Bytes

pub record Config : Type 0 where
  pub listen : List Bytes
  pub retained_message_limit : ℕ
  pub max_retransmission_limit : ℕ
  pub retransmission_interval_ms : ℕ
  pub persistence : PersistenceConfig
  pub auth : AuthConfig
  pub acl : AclConfig
  pub tls : Option TlsConfig

abbrev pub default_listen : List Bytes
default_listen = ascii "127.0.0.1:1883" ∷ []

abbrev pub default_retained_message_limit : ℕ
default_retained_message_limit = 10000

abbrev pub default_max_retransmission_limit : ℕ
default_max_retransmission_limit = 10

abbrev pub default_retransmission_interval_ms : ℕ
default_retransmission_interval_ms = 5000

abbrev pub default_persistence : PersistenceConfig
default_persistence = record {
  backend = StorageBackend.memory;
  database_path = ascii "iotd.db";
  session_expiry_seconds = 86400;
}

abbrev pub default_auth : AuthConfig
default_auth = record { backend = AuthBackend.allow_all; password_file = ascii "passwd" }

abbrev pub default_acl : AclConfig
default_acl = record { backend = AclBackend.allow_all; acl_file = ascii "acl.conf" }

abbrev pub default_config : Config
default_config = record {
  listen = default_listen;
  retained_message_limit = default_retained_message_limit;
  max_retransmission_limit = default_max_retransmission_limit;
  retransmission_interval_ms = default_retransmission_interval_ms;
  persistence = default_persistence;
  auth = default_auth;
  acl = default_acl;
  tls = none;
}

-- What serde hands to `ListenVisitor`; an element may be an error of the file.
pub data ListenValue : Type 0 where
  text : Bytes → ListenValue
  seq : List (Option Bytes) → ListenValue

-- `while let Some(value) = seq.next_element()? { vec.push(value); }`
unfoldable pub visit_seq : List (Option Bytes) → Option (List Bytes)
visit_seq [] = some []
visit_seq (none ∷ rest) = none
visit_seq (some value ∷ rest) = elim (visit_seq rest) [ none ↦ none | some l ↦ some (value ∷ l) ]

unfoldable pub deserialize_listen : ListenValue → Option (List Bytes)
deserialize_listen (ListenValue.text value) = some (value ∷ [])
deserialize_listen (ListenValue.seq values) = visit_seq values

unfoldable pub serialize_listen : List Bytes → ListenValue
serialize_listen [] = ListenValue.seq []
serialize_listen (addr ∷ []) = ListenValue.text addr
serialize_listen (a ∷ b ∷ rest) = ListenValue.seq (map some (a ∷ b ∷ rest))

visit_seq-map : (l : List Bytes) → visit_seq (map some l) ≡ some l
unfolding visit_seq
visit_seq-map [] = refl
visit_seq-map (addr ∷ l) = rw (visit_seq-map l) refl

-- The addresses that are written to a file are read back from it.
pub deserialize_listen-serialize_listen :
    (listen : List Bytes) → deserialize_listen (serialize_listen listen) ≡ some listen
unfolding deserialize_listen serialize_listen visit_seq
deserialize_listen-serialize_listen [] = refl
deserialize_listen-serialize_listen (addr ∷ []) = refl
deserialize_listen-serialize_listen (a ∷ b ∷ rest) = visit_seq-map (a ∷ b ∷ rest)
