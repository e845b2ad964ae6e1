-- ===== src/Session/Effect.antt =====
-- What the handlers of src/session.rs do besides changing their own fields: they write packets to a
-- stream, send to mailboxes, and call the broker. A handler is a function from a world to an outcome
-- and a world; what an error interrupts stays done.
use iotd.Prelude.{
  ℕ, suc, Bytes, ◌≡◌, ◌<◌, ◌≤◌, Bool, Option, none, some, List, [], ◌∷◌, ◌++◌, length, HashMap,
  ◌==◌, nat_eq, if◌then◌else◌,
}
pub use iotd.Auth.Types.{Credentials, AuthResult, is_allowed}
use iotd.Config.{Config}
use iotd.Protocol.Packet.{Packet, PublishPacket}
use iotd.Storage.Types.{DateTime}
use iotd.Storage.Trait.{Storage}
use iotd.Router.Index.{Mailbox, RouterInternal}
use iotd.Router.Route.{Delivery, route}
use iotd.Session.Types.{Instant, Runtime}

-- One end of a connection.
abbrev pub Stream : Type 0
Stream = ℕ

-- `Err` of a handler, an index out of range, and an `await` that nothing will ever wake.
pub data SessionError : Type 0 where
  io_error send_error : SessionError

pub data Outcome {ℓ} (A : Type ℓ) : Type ℓ where
  ok : A → Outcome A
  err : SessionError → Outcome A
  panic stuck : Outcome A

-- What a handler finds around it: the parts of the broker that are behind traits, the clock, whether
-- the n-th write to a stream succeeds, and what a `send` to a bounded channel of tokio leaves in the
-- channel while nobody receives (`none` where it waits for ever).
pub record Env (S : Type 0) : Type 0 where
  pub storage : Storage S
  pub authenticate : Credentials → AuthResult
  pub authorize_publish : Bytes → Bytes → AuthResult
  pub authorize_subscribe : Bytes → Bytes → AuthResult
  pub config : Config
  pub now : Instant
  pub utc_now : DateTime
  pub accepts : Stream → ℕ → Bool
  pub channel_send : ℕ → Packet → List Packet → Option (List Packet)

-- The documented behaviour of a bounded channel: it keeps the order, and is full at its capacity.
pub record IsChannel {S : Type 0} (e : Env S) : Type 0 where
  pub send-room :
      (capacity : ℕ) (p : Packet) (queue : List Packet)
      → length queue < capacity
      → e.channel_send capacity p queue ≡ some (queue ++ p ∷ [])
  pub send-full :
      (capacity : ℕ) (p : Packet) (queue : List Packet)
      → capacity ≤ length queue
      → e.channel_send capacity p queue ≡ none

-- The capacity that `Session::new` gives to the channel of messages.
abbrev pub message_capacity : ℕ
message_capacity = 100

pub record TakeoverParams : Type 0 where
  pub stream : Stream
  pub clean_session : Bool
  pub keep_alive : ℕ

-- `message_tx` is the number of the own mailbox and `messages` what waits in it; `written` counts the
-- writes, `sent` has those that succeeded; `routed` has the calls of `route` and `delivered` what
-- these sent to the mailboxes of other sessions. `named_clients` is that of the broker: a takeover
-- action is the number of the mailbox of its session, and `commands` has the calls of such actions.
pub record World (S : Type 0) : Type 0 where
  pub runtime : Runtime
  pub message_tx : Mailbox
  pub messages : List Packet
  pub stream : Option Stream
  pub router : RouterInternal
  pub storage : S
  pub named_clients : HashMap Bytes Mailbox
  pub written : ℕ
  pub sent : List (Stream × Packet)
  pub routed : List PublishPacket
  pub delivered : List Delivery
  pub commands : List (Mailbox × TakeoverParams)

abbrev pub Action {ℓ} : Type 0 → Type ℓ → Type ℓ
Action S A = World S → Outcome A × World S

abbrev pub continue {ℓ κ} :
    {S : Type 0} {A : Type ℓ} {B : Type κ}
    → Outcome A
    → (A → Action S B)
    → World S
    → Outcome B × World S
continue (Outcome.ok a) k w = k a w
continue (Outcome.err x) k w = (Outcome.err x, w)
continue Outcome.panic k w = (Outcome.panic, w)
continue Outcome.stuck k w = (Outcome.stuck, w)

infixl 10 ◌>>=◌
abbrev pub ◌>>=◌ {ℓ κ} :
    {S : Type 0} {A : Type ℓ} {B : Type κ} → Action S A → (A → Action S B) → Action S B
(m >>= k) w = continue (m w).0 k (m w).1

infixl 10 ◌>>◌
abbrev pub ◌>>◌ {ℓ} : {S : Type 0} {B : Type ℓ} → Action S (Unit {0}) → Action S B → Action S B
m >> n = m >>= λ _. n

abbrev pub pure {ℓ} : {S : Type 0} {A : Type ℓ} → A → Action S A
pure a w = (Outcome.ok a, w)

abbrev pub set_runtime : {S : Type 0} → (Runtime → Runtime) → Action S (Unit {0})
set_runtime f w = (Outcome.ok tt, record w { runtime = f w.runtime })

module _ {S : Type 0} (e : Env S) where
  -- The encoding of a packet is in Protocol/Encode.antt; here it counts which packet was written.
  unfoldable pub send_packet : Packet → Stream → Action S (Unit {0})
  send_packet packet writer w =
      let tried = record w { written = suc w.written } in
      if e.accepts writer w.written
      then (Outcome.ok tt, record tried { sent = w.sent ++ (writer, packet) ∷ [] })
      else (Outcome.err SessionError.io_error, tried)

  -- `self.message_tx.send(..).await`
  unfoldable pub send_message : Packet → Action S (Unit {0})
  send_message packet w = elim (e.channel_send message_capacity packet w.messages) [
    | none ↦ (Outcome.stuck, w)
    | some queue ↦ (Outcome.ok tt, record w { messages = queue })
  ]

  -- One send of `route`, to the own mailbox or to another one.
  unfoldable pub deliver_one : Delivery → Action S (Unit {0})
  deliver_one d w =
      if d.sender == w.message_tx
      then send_message (Packet.publish d.packet) w
      else (Outcome.ok tt, record w { delivered = w.delivered ++ d ∷ [] })

  unfoldable pub deliver : List Delivery → Action S (Unit {0})
  deliver [] = pure tt
  deliver (d ∷ rest) = do deliver_one d; deliver rest

  -- `self.broker.route(..).await`
  unfoldable pub route_packet : PublishPacket → Action S (Unit {0})
  route_packet packet w =
      let routed =
        route e.storage e.config.retained_message_limit e.utc_now packet w.router w.storage in
      deliver routed.0 (record w { storage = routed.1; routed = w.routed ++ packet ∷ [] })

-- An error is logged, and stands for a value.
abbrev pub or_value {ℓ} : {A : Type ℓ} → A → Outcome A → Outcome A
or_value default (Outcome.err x) = Outcome.ok default
or_value default outcome = outcome

abbrev pub unwrap_or_value {ℓ} : {S : Type 0} {A : Type ℓ} → A → Action S A → Action S A
unwrap_or_value default m w = (or_value default (m w).0, (m w).1)
