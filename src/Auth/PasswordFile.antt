-- ===== src/Auth/PasswordFile.antt =====
-- src/auth/password_file.rs: `PasswordFileAuthenticator::new`. What `read_to_string` gives is a
-- parameter, `none` for its error.
use iotd.Prelude.{
  ◌≡◌, ◌↔◌, refl, ◌∙◌, sym, Bytes, true, false, Option, none, some, List, [], ◌∷◌, ◌++◌, is_empty,
  All, ◌||◌, bytes_eq, nat_eq, contains, HashMap, get, get-nil, insert, get-insert, Distinct,
  bytes_beq_iff, if◌then◌else◌, arith,
}
use iotd.Auth.Types.{Credentials, is_allowed}
use iotd.Auth.Text.{
  lines, trim, split_once, starts_with, IsTrimmed, trim-IsTrimmed, lines-append, split_once-append,
}
use iotd.Auth.Password.{authenticate, IsKnown, authenticate_iff}

-- One turn of the loop.
unfoldable pub insert_line : Bytes → HashMap Bytes Bytes → HashMap Bytes Bytes
insert_line line credentials =
    let line' = trim line in
    if is_empty line' || starts_with 35 line' then credentials else elim (split_once 58 line') [
      | none ↦ credentials
      | some (username, password) ↦ insert username password credentials
    ]

unfoldable pub insert_lines : List Bytes → HashMap Bytes Bytes → HashMap Bytes Bytes
insert_lines [] credentials = credentials
insert_lines (line ∷ rest) credentials = insert_lines rest (insert_line line credentials)

unfoldable pub new : Option Bytes → Option (HashMap Bytes Bytes)
new none = none
new (some contents) = some (insert_lines (lines contents) [])

-- How a user is written.
abbrev pub print_user : Bytes × Bytes → Bytes
print_user (username, password) = username ++ (58 ∷ password)

abbrev pub print_users : HashMap Bytes Bytes → Bytes
print_users [] = []
print_users (user ∷ users) = print_user user ++ (10 ∷ print_users users)

-- A user that a line can hold: no colon in the name, no line end, no comment, and nothing to trim.
abbrev pub IsPrintable : Bytes × Bytes → Type 0
IsPrintable (username, password) =
    (contains 58 username ≡ false)
    × (contains 10 (print_user (username, password)) ≡ false)
    × (contains 13 (print_user (username, password)) ≡ false)
    × (starts_with 35 username ≡ false)
    × IsTrimmed (print_user (username, password))

print_user-IsUser :
    (username password : Bytes)
    → starts_with 35 username ≡ false
    → is_empty (print_user (username, password)) || starts_with 35 (print_user (username, password))
      ≡ false
print_user-IsUser [] password h = refl
print_user-IsUser (c ∷ username) password h = h

insert_line-print_user :
    (username password : Bytes) (credentials : HashMap Bytes Bytes)
    → IsPrintable (username, password)
    → insert_line (print_user (username, password)) credentials
      ≡ insert username password credentials
unfolding insert_line
insert_line-print_user username password credentials h =
    rw
      (
        insert_line,
        trim-IsTrimmed (print_user (username, password)) h.4,
        print_user-IsUser username password h.3,
        split_once-append 58 username password h.0,
      )
      refl

-- What is found afterwards: the user of the file, or else what was there.
get-insert_lines :
    (u : Bytes) (users : HashMap Bytes Bytes) (credentials : HashMap Bytes Bytes)
    → Distinct users
    → All IsPrintable users
    → get u (insert_lines (lines (print_users users)) credentials)
      ≡ elim (get u users) [ none ↦ get u credentials | some p ↦ some p ]
unfolding insert_lines lines get
get-insert_lines u [] credentials d h = refl
get-insert_lines u ((k, v) ∷ users) credentials d (p, h) =
    rw
      (
        lines-append (print_user (k, v)) (print_users users) p.1 p.2,
        insert_lines,
        insert_line-print_user k v credentials p,
        get-insert_lines u users (insert k v credentials) d.1 h,
      )
      (ground (arith, d.0, get-insert k u v credentials, bytes_beq_iff k u))

get-new :
    (users : HashMap Bytes Bytes)
    → Distinct users
    → All IsPrintable users
    → (u : Bytes) → get u (insert_lines (lines (print_users users)) []) ≡ get u users
get-new users d h u = get-insert_lines u users [] d h ∙ same (get u users)
  where
    same : (o : Option Bytes) → elim o [ none ↦ get u [] | some p ↦ some p ] ≡ o
    same none = get-nil u
    same (some p) = refl

IsKnown-get :
    (m n : HashMap Bytes Bytes)
    → ((u : Bytes) → get u m ≡ get u n)
    → (name given : Option Bytes) → IsKnown m name given
    → IsKnown n name given
IsKnown-get m n e name given (u, p, is_name, is_given, text, found) =
    (u, p, is_name, is_given, text, sym (e u) ∙ found)

-- From the file in which these users are written, no name twice, credentials are read under which a
-- client is let in exactly where it gives the name and the password of one of them, in UTF-8.
pub new-print_users :
    (users : HashMap Bytes Bytes) (creds : Credentials)
    → Distinct users
    → All IsPrintable users
    → (credentials : HashMap Bytes Bytes) × (new (some (print_users users)) ≡ some credentials)
      × ((is_allowed (authenticate credentials creds) ≡ true)
          ↔ IsKnown users creds.username creds.password)
unfolding new
new-print_users users creds d h =
    let read = insert_lines (lines (print_users users)) [] in
    let iff = authenticate_iff read creds in
    (
      read,
      refl,
      (
        λ allowed.
            IsKnown-get read users (get-new users d h) creds.username creds.password
              (iff.0 allowed),
        λ known. iff.1 (
            IsKnown-get users read (λ u. sym (get-new users d h u)) creds.username creds.password
              known),
      ),
    )
