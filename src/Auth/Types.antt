-- ===== src/Auth/Types.antt =====
-- src/auth/traits.rs: the credentials of a client, and `Ok` or the error of an authenticator or an
-- authorizer. The text of an error is not modelled.
use iotd.Prelude.{Bytes, Bool, true, false, Option}

pub record Credentials : Type 0 where
  pub username : Option Bytes
  pub password : Option Bytes
  pub client_id : Bytes

pub data AuthResult : Type 0 where
  allowed invalid_credentials not_authorized failed : AuthResult

abbrev pub is_allowed : AuthResult → Bool
is_allowed AuthResult.allowed = true
is_allowed _ = false
