-- ===== src/Session/Subscribing.antt =====
-- src/session.rs: SUBSCRIBE, UNSUBSCRIBE, PINGREQ and DISCONNECT.
pub mod ReturnCodes
pub mod Answer
use iotd.Prelude.{
  ℕ, zero, suc, Bytes, Bool, true, false, Option, none, some, List, [], ◌∷◌, length, is_empty,
  contains, nat_eq, if◌then◌else◌,
}
use iotd.Protocol.Packet.{QoS, Packet, PublishPacket, SubscribePacket, UnsubscribePacket, failure}
use iotd.Router.Index.{RouterInternal}
use iotd.Router.Index
use iotd.Router.Subscribe.{Subscribing}
use iotd.Router.Subscribe
use iotd.Session.Effect.{
  Env, Stream, Outcome, Action, ◌>>=◌, ◌>>◌, pure, set_runtime, send_packet, is_allowed,
}
use iotd.Session.Inbound.{client_name}
use iotd.Session.Outbound.{send_publishes}

-- `authorized_filters` and `denied_indices`, from the index `i` on.
pub record Authorized : Type 0 where
  pub authorized_filters : List (Bytes × QoS)
  pub denied_indices : List ℕ

-- The loop that puts the codes together, with those of the router from `router_idx` on. An index out
-- of range is a panic.
unfoldable pub return_codes : List ℕ → ℕ → ℕ → List ℕ → Option (List ℕ)
return_codes denied_indices zero i router_codes = some []
return_codes denied_indices (suc n) i router_codes =
    if contains i denied_indices
    then (elim (return_codes denied_indices n (suc i) router_codes) [
      | none ↦ none
      | some codes ↦ some (failure ∷ codes)
    ])
    else (elim router_codes [
      | [] ↦ none
      | code ∷ rest ↦ elim (return_codes denied_indices n (suc i) rest) [
        | none ↦ none
        | some codes ↦ some (code ∷ codes)
      ]
    ])

module _ {S : Type 0} (e : Env S) where
  unfoldable pub authorize_filters : Bytes → ℕ → List (Bytes × QoS) → Authorized
  authorize_filters client_id i [] = record { authorized_filters = []; denied_indices = [] }
  authorize_filters client_id i ((topic_filter, qos) ∷ rest) =
      let later = authorize_filters client_id (suc i) rest in
      if is_allowed (e.authorize_subscribe client_id topic_filter)
      then record later { authorized_filters = (topic_filter, qos) ∷ later.authorized_filters }
      else record later { denied_indices = i ∷ later.denied_indices }

  -- `self.broker.subscribe(..)`, which is not called for no filters.
  unfoldable pub subscribe_router : List (Bytes × QoS) → Action S (List ℕ × List PublishPacket)
  subscribe_router filters w =
      let done =
        Subscribe.subscribe e.storage w.runtime.id w.message_tx w.storage filters w.router in
      if is_empty filters then (Outcome.ok ([], []), w) else (
        Outcome.ok (done.return_codes, done.retained_to_send),
        record w { router = done.router },
      )

  abbrev pub answer : ℕ → Option (List ℕ) → List PublishPacket → Stream → Action S Bool
  answer packet_id none retained_messages writer w = (Outcome.panic, w)
  answer packet_id (some codes) retained_messages writer w =
      (do
        send_packet e (Packet.sub_ack (record { packet_id = packet_id; return_codes = codes }))
            writer
        send_publishes e retained_messages
        pure true)
        w

  unfoldable pub on_subscribe : SubscribePacket → Stream → Action S Bool
  on_subscribe packet writer w =
      let checked = authorize_filters (client_name w.runtime.client_id) 0 packet.topic_filters in
      (do
        done ← subscribe_router checked.authorized_filters
        answer packet.packet_id
            (return_codes checked.denied_indices (length packet.topic_filters) 0 done.0) done.1
            writer)
        w

  unfoldable pub on_unsubscribe : UnsubscribePacket → Stream → Action S Bool
  on_unsubscribe packet writer w =
      (do send_packet e (Packet.unsub_ack packet.packet_id) writer; pure true)
        (record w { router = Index.unsubscribe w.runtime.id packet.topic_filters w.router })

  unfoldable pub on_pingreq : Stream → Action S Bool
  on_pingreq writer = do send_packet e Packet.ping_resp writer; pure true

-- A normal end: the Will message is dropped.
unfoldable pub on_disconnect : {S : Type 0} → Action S Bool
on_disconnect = do set_runtime (λ r. record r { will_message = none }); pure false
