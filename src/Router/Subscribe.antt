-- ===== src/Router/Subscribe.antt =====
-- `Router::subscribe` of src/router.rs.
pub mod Codes
use iotd.Prelude.{
  ℕ, Bytes, Bool, true, false, Option, none, some, List, [], ◌∷◌, ◌++◌, min, if◌then◌else◌,
}
use iotd.Protocol.Packet.{QoS, qos_as_u8, PublishPacket, failure}
use iotd.Storage.Types.{PersistedRetainedMessage}
use iotd.Storage.Trait.{Storage}
use iotd.Router.Qos.{max_supported_qos}
use iotd.Router.Topic.{validate_subscribe_filter}
use iotd.Router.Index.{SessionId, Mailbox, RouterInternal, add_subscription}
use iotd.Router.Retained.{find_retained_for_filter}

-- The variables of the loop.
pub record Subscribing : Type 0 where
  pub router : RouterInternal
  pub return_codes : List ℕ
  pub retained_to_send : List PublishPacket
  pub all_retained : Option (List PersistedRetainedMessage)

-- Each filter is handled in turn, under one lock; storage is only read.
module _ {S : Type 0} (st : Storage S) (session_id : SessionId) (sender : Mailbox) (s : S) where
  unfoldable pub subscribe_one : Bytes × QoS → Subscribing → Subscribing
  subscribe_one (filter, qos) v =
      if validate_subscribe_filter filter
      then (let found =
            find_retained_for_filter st filter qos s (v.retained_to_send, v.all_retained) in
          record {
            router = add_subscription session_id sender qos filter v.router;
            return_codes = v.return_codes ++ min (qos_as_u8 qos) max_supported_qos ∷ [];
            retained_to_send = found.0;
            all_retained = found.1;
          })
      else record v { return_codes = v.return_codes ++ failure ∷ [] }

  unfoldable pub subscribe_loop : List (Bytes × QoS) → Subscribing → Subscribing
  subscribe_loop [] v = v
  subscribe_loop (filter ∷ rest) v = subscribe_loop rest (subscribe_one filter v)

  unfoldable pub subscribe : List (Bytes × QoS) → RouterInternal → Subscribing
  subscribe topic_filters r =
      subscribe_loop topic_filters
        (record { router = r; return_codes = []; retained_to_send = []; all_retained = none })
