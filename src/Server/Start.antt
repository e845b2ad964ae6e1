-- ===== src/Server/Start.antt =====
-- `Server::new` of src/server.rs, with `new` of src/storage/mod.rs, and `new` and `new_authorizer` of
-- src/auth/mod.rs: the parts that the configuration chooses. The files and the opening of a database
-- are parameters.
use iotd.Prelude.{Bytes, Option, none, some, List, HashMap, bytes_eq}
use iotd.Config.{
  Config, StorageBackend, PersistenceConfig, AuthBackend, AuthConfig, AclBackend, AclConfig,
}
use iotd.Storage.Trait.{StorageResult, Storage}
use iotd.Storage.Memory as Memory
use iotd.Storage.Memory.{memory}
use iotd.Storage.Sqlite.Rows.{Chrono}
use iotd.Storage.Sqlite.Database.{Sqlite}
use iotd.Storage.Sqlite.Store.{sqlite, initialize_schema}
use iotd.Auth.Types.{Credentials, AuthResult}
use iotd.Auth.Acl.{AclRule, authorize_publish, authorize_subscribe}
use iotd.Auth.AclFile as AclFile
use iotd.Auth.Password.{authenticate}
use iotd.Auth.PasswordFile as PasswordFile
use iotd.Router.Index.{RouterInternal}
use iotd.Router.Index as Index
use iotd.Server.Listen.{ServerError, Outcome}

-- `Arc<dyn Storage>`, with the state of the backend.
pub record AnyStorage : Type 1 where
  pub S : Type 0
  pub operations : Storage S
  pub state : S

pub record Authorizer : Type 0 where
  pub publish : Bytes → Bytes → AuthResult
  pub subscribe : Bytes → Bytes → AuthResult

abbrev pub Authenticator : Type 0
Authenticator = Credentials → AuthResult

-- `AllowAllAuthenticator`
abbrev pub allow_all : Authenticator
allow_all _ = AuthResult.allowed

abbrev pub allow_all_actions : Authorizer
allow_all_actions = record {
  publish = λ client_id topic. AuthResult.allowed;
  subscribe = λ client_id topic_filter. AuthResult.allowed;
}

-- `Broker` as `Broker::new` makes it, without its maps, which are empty.
pub record Server : Type 1 where
  pub storage : AnyStorage
  pub authenticator : Authenticator
  pub authorizer : Authorizer
  pub router : RouterInternal
  pub config : Config

module _ {D : Type 0} (c : Chrono) (q : Sqlite D) (open_database : Bytes → Option D)
    (read_to_string : Bytes → Option Bytes) where
  -- What `initialize_schema` returns for a connection.
  abbrev pub sqlite_storage : StorageResult (Unit {0}) × D → Outcome AnyStorage
  sqlite_storage (StorageResult.ok _, d) =
      Outcome.ok (record { S = D; operations = sqlite c q; state = d })
  sqlite_storage (StorageResult.err e, d) = Outcome.err ServerError.storage

  -- `SqliteStorage::new`
  unfoldable pub open_sqlite : Bytes → Outcome AnyStorage
  open_sqlite path = elim (open_database path) [
    | none ↦ Outcome.err ServerError.storage
    | some d ↦ sqlite_storage (initialize_schema c q d)
  ]

  unfoldable pub new_storage : PersistenceConfig → Outcome AnyStorage
  new_storage config = elim config.backend [
    | StorageBackend.memory ↦
        Outcome.ok (record { S = Memory.InMemoryStorage; operations = memory; state = Memory.new })
    | StorageBackend.sqlite ↦ open_sqlite config.database_path
  ]

  abbrev pub with_users : Option (HashMap Bytes Bytes) → Outcome Authenticator
  with_users none = Outcome.err ServerError.auth
  with_users (some credentials) = Outcome.ok (authenticate credentials)

  unfoldable pub new_authenticator : AuthConfig → Outcome Authenticator
  new_authenticator config = elim config.backend [
    | AuthBackend.allow_all ↦ Outcome.ok allow_all
    | AuthBackend.password_file ↦
        with_users (PasswordFile.new (read_to_string config.password_file))
  ]

  abbrev pub with_rules : Option (List AclRule) → Outcome Authorizer
  with_rules none = Outcome.err ServerError.auth
  with_rules (some rules) =
      Outcome.ok
        (record { publish = authorize_publish rules; subscribe = authorize_subscribe rules })

  unfoldable pub new_authorizer : AclConfig → Outcome Authorizer
  new_authorizer config = elim config.backend [
    | AclBackend.allow_all ↦ Outcome.ok allow_all_actions
    | AclBackend.acl_file ↦ with_rules (AclFile.new (read_to_string config.acl_file))
  ]

  infixl 10 ◌>>=◌
  abbrev ◌>>=◌ {ℓ κ} : {A : Type ℓ} {B : Type κ} → Outcome A → (A → Outcome B) → Outcome B
  Outcome.ok a >>= k = k a
  Outcome.err e >>= k = Outcome.err e
  Outcome.panic >>= k = Outcome.panic

  -- `Server::new`
  unfoldable pub new_server : Config → Outcome Server
  new_server config = do
    storage ← new_storage config.persistence
    authenticator ← new_authenticator config.auth
    authorizer ← new_authorizer config.acl
    Outcome.ok (record {
      storage = storage;
      authenticator = authenticator;
      authorizer = authorizer;
      router = Index.new;
      config = config;
    })
