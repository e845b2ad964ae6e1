-- ===== src/Auth/Password.antt =====
-- src/auth/password_file.rs: `authenticate` against the user names and passwords of a file.
use iotd.Prelude.{
  Bytes, ◌≡◌, ◌↔◌, refl, inl, inr, true, false, Option, none, some, HashMap, get, ◌==◌, bytes_eq,
  eq_of_beq, beq_refl, Bool-cases, Option-cases, ap, ◌∙◌, if◌then◌else◌, arith,
}
use iotd.Protocol.Text.{is_utf8}
use iotd.Auth.Types.{AuthResult, Credentials, is_allowed}

abbrev pub compare_password : Option Bytes → Bytes → AuthResult
compare_password none password = AuthResult.invalid_credentials
compare_password (some stored) password =
    if stored == password then AuthResult.allowed else AuthResult.invalid_credentials

abbrev pub check : Option Bytes → Option Bytes → HashMap Bytes Bytes → AuthResult
check none _ credentials = AuthResult.invalid_credentials
check (some username) none credentials = AuthResult.invalid_credentials
check (some username) (some password) credentials =
    if is_utf8 password
    then compare_password (get username credentials) password
    else AuthResult.invalid_credentials

unfoldable pub authenticate : HashMap Bytes Bytes → Credentials → AuthResult
authenticate credentials creds = check creds.username creds.password credentials

-- They name a user, and the password of that user in UTF-8.
abbrev pub IsKnown : HashMap Bytes Bytes → Option Bytes → Option Bytes → Type 0
IsKnown credentials user_name given =
    (username : Bytes) × (password : Bytes) × (user_name ≡ some username)
    × (given ≡ some password)
    × (is_utf8 password ≡ true)
    × (get username credentials ≡ some password)

check-IsKnown :
    (user_name given : Option Bytes) (credentials : HashMap Bytes Bytes)
    → is_allowed (check user_name given credentials) ≡ true
    → IsKnown credentials user_name given
check-IsKnown none given credentials h = absurd (ground arith)
check-IsKnown (some u) none credentials h = absurd (ground arith)
check-IsKnown (some u) (some p) credentials h = elim (Bool-cases (is_utf8 p)) [
  | inr bad ↦ absurd (refused (rw bad at h))
  | inl text ↦ elim (Option-cases (get u credentials)) [
    | inl n ↦ absurd (refused (rw (text, n) at h))
    | inr (stored, found) ↦ elim (Bool-cases (stored == p)) [
      | inr other ↦ absurd (refused (rw (text, found, other) at h))
      | inl same ↦ (u, p, refl, refl, text, found ∙ ap some (eq_of_beq stored p same))
    ]
  ]
]
  where
    refused : false ≡ true → ⊥
    refused h = ground arith

IsKnown-check :
    (user_name given : Option Bytes) (credentials : HashMap Bytes Bytes)
    → IsKnown credentials user_name given
    → is_allowed (check user_name given credentials) ≡ true
IsKnown-check user_name given credentials (u, p, name, password, text, found) =
    rw (name, password) (rw (text, found) (rw (beq_refl p) refl))

-- A client is let in exactly where it names a user of the file and gives that user's password, in UTF-8.
pub authenticate_iff :
    (credentials : HashMap Bytes Bytes) (creds : Credentials)
    → (is_allowed (authenticate credentials creds) ≡ true)
      ↔ IsKnown credentials creds.username creds.password
unfolding authenticate
authenticate_iff credentials creds = (
  check-IsKnown creds.username creds.password credentials,
  IsKnown-check creds.username creds.password credentials,
)
