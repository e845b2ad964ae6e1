-- ===== src/Protocol/Wire/Connect.antt =====
-- `decode_connect` of src/protocol/packet.rs on the body of a CONNECT.
use iotd.Prelude.{
  is_some, ℕ, Bytes, ◌^◌, ◌<◌, ◌≡◌, refl, ◌∙◌, Bool, true, false, not, ◌&&◌, Option, none, some, [],
  ◌++◌, length, length-append, if◌then◌else◌, arith,
}
use iotd.Protocol.Result.{ok, panic, Parser, ◌>>=◌, pure, invalid_packet_flags}
use iotd.Protocol.Io.{list_io}
use iotd.Protocol.Packet.{qos_as_u8, at_most_once}
use iotd.Protocol.Decode.{
  qos_or, when, decode_string, decode_will_payload, decode_password, decode_connect,
}
use iotd.Protocol.RoundTrip.{IsText, u16-eq, no_less, decode_string-append, front_slice-append}
use iotd.Protocol.RoundTrip.Publish.{read_qos}
use iotd.Protocol.Wire.{
  Will, Login, ConnectRequest, will_qos, username_of, password_of, topic_of, payload_of, field,
  optional_field, will_fields, connect_body, connect_packet,
}
use iotd.Protocol.Wire.Flags.{connect_flags-Flags}

abbrev pub IsWill : Option Will → Type 0
IsWill none = Unit
IsWill (some will) = IsText will.topic × (length will.payload < 2 ^ 16)

abbrev pub IsLogin : Option Login → Type 0
IsLogin none = Unit
IsLogin (some login) = IsText login.username × IsBlob login.password
  where
    IsBlob : Option Bytes → Type 0
    IsBlob none = Unit
    IsBlob (some password) = length password < 2 ^ 16

-- The ranges of MQTT.
pub record IsConnect (c : ConnectRequest) : Type 0 where
  pub name_text : IsText c.protocol_name
  pub level_byte : c.protocol_level < 256
  pub keep_alive_word : c.keep_alive < 2 ^ 16
  pub id_text : IsText c.client_id
  pub will_texts : IsWill c.will
  pub login_texts : IsLogin c.login

will_payload-field :
    (payload rest : Bytes) → decode_will_payload list_io (field payload rest) ≡ ok (payload, rest)
unfolding decode_will_payload
will_payload-field payload rest =
    rw u16-eq (front_slice-append panic (length payload) payload rest refl)

password-field :
    (password rest : Bytes) → decode_password list_io (field password rest) ≡ ok (password, rest)
unfolding decode_password
password-field password rest =
    rw
      (
        no_less 2 (length (field password rest)) (omega arith),
        u16-eq,
        no_less (length password) (length (password ++ rest))
            (omega (arith, length-append password rest)),
      )
      (front_slice-append panic (length password) password rest refl)

-- The two optional fields of the Will, in front of any other reading.
will-fields :
    {B : Type 0} (will : Option Will) (rest : Bytes) (k : Option Bytes → Option Bytes → Parser B)
    → IsWill will
    → (when (is_some will) (decode_string list_io) >>= λ topic.
          when (is_some will) (decode_will_payload list_io) >>= λ payload. k topic payload)
        (will_fields will rest)
      ≡ k (topic_of will) (payload_of will) rest
will-fields none rest k h = refl
will-fields (some will) rest k h =
    rw (decode_string-append will.topic (field will.payload rest) h.0, ◌>>=◌)
      (rw (will_payload-field will.payload rest, ◌>>=◌))

login-fields :
    {B : Type 0} (login : Option Login) (rest : Bytes) (k : Option Bytes → Option Bytes → Parser B)
    → IsLogin login
    → (when (is_some (username_of login)) (decode_string list_io) >>= λ username.
          when (is_some (password_of login)) (decode_password list_io) >>= λ password.
          k username password)
        (optional_field (username_of login) (optional_field (password_of login) rest))
      ≡ k (username_of login) (password_of login) rest
login-fields none rest k h = refl
login-fields (some login) rest k h =
    rw (decode_string-append login.username (optional_field login.password rest) h.0, ◌>>=◌)
      (password login.password)
  where
    password :
        (o : Option Bytes)
        → (when (is_some o) (decode_password list_io) >>= λ p. k (some login.username) p)
            (optional_field o rest)
          ≡ k (some login.username) o rest
    password none = refl
    password (some p) = rw (password-field p rest, ◌>>=◌)

will_qos-read :
    (will : Option Will) (n : ℕ) (bytes : Bytes)
    → n ≡ qos_as_u8 (will_qos will)
    → (if is_some will then qos_or invalid_packet_flags n else pure at_most_once) bytes
      ≡ ok (will_qos will, bytes)
will_qos-read none n bytes h = refl
will_qos-read (some will) n bytes h = read_qos invalid_packet_flags will.qos n bytes h

no_password_alone :
    (login : Option Login)
    → (is_some (password_of login) && not (is_some (username_of login))) ≡ false
no_password_alone none = refl
no_password_alone (some login) = and-false (is_some login.password)
  where
    and-false : (b : Bool) → (b && false) ≡ false
    and-false true = refl
    and-false false = refl

pub decode_connect-body :
    (c : ConnectRequest)
    → IsConnect c
    → decode_connect list_io (connect_body c) ≡ ok (connect_packet c, [])
unfolding decode_connect connect_body
decode_connect-body c h =
    let f = connect_flags-Flags c.clean_session c.will c.login in
    rw (decode_string-append c.protocol_name _ h.name_text, ◌>>=◌)
      (rw (f.clean, f.has_will, f.retain, f.has_username, f.has_password, u16-eq)
        (rw (decode_string-append c.client_id _ h.id_text, ◌>>=◌)
          (rw (will_qos-read c.will _ _ f.qos, ◌>>=◌)
            (rw (no_password_alone c.login)
              (will-fields c.will _ _ h.will_texts ∙ login-fields c.login [] _ h.login_texts)))))
