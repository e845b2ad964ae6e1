-- ===== src/Session/Connect.antt =====
-- src/session.rs: CONNECT and the takeover of a session, with `has_collision` and `remove_session`
-- of src/broker.rs.
pub mod Takeover
use iotd.Prelude.{
  ℕ, Bytes, Bool, true, false, ◌&&◌, ◌||◌, Option, none, some, [], ◌∷◌, ◌++◌, not, all, length,
  is_empty, leb, ltb, HashMap, get, insert, remove, ◌==◌, bytes_eq, nat_eq, if◌then◌else◌,
}
use iotd.Protocol.Packet.{
  Packet, ConnectPacket, protocol_name, protocol_level, accepted, unacceptable_protocol_version,
  identifier_rejected, bad_username_or_password, not_authorized,
}
use iotd.Router.Index.{Mailbox, RouterInternal}
use iotd.Router.Index
use iotd.Session.Types.{WillMessage, State, Runtime}
use iotd.Session.Effect.{
  Env, Stream, TakeoverParams, Outcome, Action, ◌>>=◌, ◌>>◌, pure, set_runtime, send_packet,
  AuthResult,
}
use iotd.Session.Persist.{restore_from_storage, delete_saved}

-- `char::is_ascii_alphanumeric`
abbrev pub is_alphanumeric : ℕ → Bool
is_alphanumeric c =
    (leb b'0' c && leb c b'9') || (leb b'A' c && leb c b'Z') || (leb b'a' c && leb c b'z')

-- `none` is `Ok`, and `some` the code of `Err`.
unfoldable pub validate_client_id : Bytes → Bool → Option ℕ
validate_client_id client_id clean_session =
    if is_empty client_id
    then (if clean_session then none else some identifier_rejected)
    else if ltb 23 (length client_id)
    then some identifier_rejected
    else if all is_alphanumeric client_id
    then none
    else some identifier_rejected

abbrev pub will_of :
    Option Bytes → Option Bytes → ConnectPacket → Option WillMessage → Option WillMessage
will_of (some topic) (some payload) connect old = some (record {
  topic = topic;
  payload = payload;
  qos = connect.will_qos;
  retain = connect.will_retain;
})
will_of none _ connect old = old
will_of (some topic) none connect old = old

-- The parameters of the session that CONNECT sets.
unfoldable pub with_connect : ConnectPacket → Runtime → Runtime
with_connect connect r = record r {
  clean_session = connect.clean_session;
  keep_alive = connect.keep_alive;
  will_message =
      if connect.will_flag
      then will_of connect.will_topic connect.will_payload connect r.will_message
      else r.will_message;
}

-- `Broker::has_collision`
unfoldable pub has_collision : {S : Type 0} → Bytes → Mailbox → Action S (Option Mailbox)
has_collision client_id action w = elim (get client_id w.named_clients) [
  | none ↦ (Outcome.ok none, record w { named_clients = insert client_id action w.named_clients })
  | some takeover ↦ (Outcome.ok (some takeover), w)
]

-- `client_id.and_then(|cid| named_clients.remove(cid))`
abbrev pub forget_name : Option Bytes → HashMap Bytes Mailbox → HashMap Bytes Mailbox
forget_name none m = m
forget_name (some client_id) m = remove client_id m

-- `Broker::remove_session`
unfoldable pub remove_session : {S : Type 0} → Action S (Unit {0})
remove_session w = (
  Outcome.ok tt,
  record w {
    router = Index.unsubscribe_all w.runtime.id w.router;
    named_clients = forget_name w.runtime.client_id w.named_clients;
  },
)

module _ {S : Type 0} (e : Env S) where
  abbrev pub send_connack : Bool → ℕ → Stream → Action S (Unit {0})
  send_connack session_present return_code stream =
      send_packet e
        (Packet.conn_ack (record { session_present = session_present; return_code = return_code }))
        stream

  abbrev pub refuse : ℕ → Stream → Action S State
  refuse return_code stream = do send_connack false return_code stream; pure State.cleanup

  -- CONNACK, after which the session processes packets.
  abbrev pub accept : Bool → Stream → Action S State
  accept session_present stream = do
    send_connack session_present accepted stream
    λ w. (Outcome.ok State.processing, record w { stream = some stream })

  -- The end of `on_connect` for a named client, by what `has_collision` returns.
  abbrev pub take_name : Option Mailbox → ConnectPacket → Stream → Action S State
  take_name (some takeover) connect stream w = (
    Outcome.ok State.cleanup,
    record w {
      commands =
          w.commands
          ++ (
            takeover,
            record {
              stream = stream;
              clean_session = connect.clean_session;
              keep_alive = connect.keep_alive;
            },
          )
            ∷ [];
    },
  )
  take_name none connect stream w =
      if connect.clean_session
      then (do delete_saved e connect.client_id; accept false stream) w
      else (do
        session_present ← restore_from_storage e connect.client_id
        accept session_present stream)
          w

  unfoldable pub enter_session : ConnectPacket → Stream → Action S State
  enter_session connect stream = if is_empty connect.client_id then accept false stream else (do
    set_runtime (λ r. record r { client_id = some connect.client_id })
    λ w.
        (do
          takeover ← has_collision connect.client_id w.message_tx
          take_name takeover connect stream)
          w)

  abbrev pub authenticated : AuthResult → ConnectPacket → Stream → Action S State
  authenticated AuthResult.allowed connect stream = do
    set_runtime (with_connect connect)
    enter_session connect stream
  authenticated AuthResult.invalid_credentials connect stream =
      refuse bad_username_or_password stream
  authenticated AuthResult.not_authorized connect stream = refuse not_authorized stream
  authenticated AuthResult.failed connect stream = refuse not_authorized stream

  abbrev pub validated : Option ℕ → ConnectPacket → Stream → Action S State
  validated (some return_code) connect stream = refuse return_code stream
  validated none connect stream =
      authenticated
        (e.authenticate (record {
          username = connect.username;
          password = connect.password;
          client_id = connect.client_id;
        }))
        connect stream

  unfoldable pub on_connect : ConnectPacket → Stream → Action S State
  on_connect connect stream =
      if not (connect.protocol_name == protocol_name)
        || not (connect.protocol_level == protocol_level)
      then refuse unacceptable_protocol_version stream
      else validated (validate_client_id connect.client_id connect.clean_session) connect stream

  abbrev pub forget_saved : Option Bytes → Action S (Unit {0})
  forget_saved none = pure tt
  forget_saved (some client_id) = delete_saved e client_id

  -- What a takeover with a clean session clears.
  abbrev pub clear_session : Bool → Action S (Unit {0})
  clear_session false w = (Outcome.ok tt, w)
  clear_session true w =
      (do forget_saved w.runtime.client_id; set_runtime (λ r. record r { inflight_queue = [] }))
        (record w { router = Index.unsubscribe_all w.runtime.id w.router })

  unfoldable pub on_takeover : TakeoverParams → Action S (Unit {0})
  on_takeover params = do
    send_connack (not params.clean_session) accepted params.stream
    set_runtime
        (λ r. record r { clean_session = params.clean_session; keep_alive = params.keep_alive })
    clear_session params.clean_session
