-- ===== src/Router/Lifecycle.antt =====
-- Everything that a broker can do to its router, as steps from the empty one.
use iotd.Prelude.{Bytes, ◌≡◌, ◌∙◌, List, [], bytes_eq, beq_refl}
use iotd.Protocol.Packet.{QoS, PublishPacket}
use iotd.Storage.Trait.{Storage}
use iotd.Router.Index.{SessionId, Mailbox, RouterInternal, new, unsubscribe, unsubscribe_all}
use iotd.Router.Index.Consistent.{
  IsConsistent, new-IsConsistent, unsubscribe-IsConsistent, unsubscribe_all-IsConsistent,
  subscription-unsubscribe_all,
}
use iotd.Router.Index.Maps.{IsMaps, unsubscribe-IsMaps, unsubscribe_all-IsMaps}
use iotd.Router.Subscribe.{subscribe}
use iotd.Router.Subscribe.Codes.{subscribe-IsConsistent, subscribe-IsMaps}
use iotd.Router.Route.{deliveries}
use iotd.Router.Route.Receivers.{for_session, expected-nowhere, deliveries-expected}

-- The locked sections of the router's methods. Storage is whatever it is at that moment.
pub data Step {S : Type 0} (st : Storage S) (r : RouterInternal) : RouterInternal → Type 0 where
  subscribing :
      (session_id : SessionId) (sender : Mailbox) (s : S) (filters : List (Bytes × QoS))
      → Step st r (subscribe st session_id sender s filters r).router
  unsubscribing :
      (session_id : SessionId) (filters : List Bytes) → Step st r (unsubscribe session_id filters r)
  leaving : (session_id : SessionId) → Step st r (unsubscribe_all session_id r)

pub data Reach {S : Type 0} (st : Storage S) : RouterInternal → Type 0 where
  start : Reach st new
  step : {r r' : RouterInternal} → Reach st r → Step st r r' → Reach st r'

pub record IsRouter (r : RouterInternal) : Type 0 where
  pub consistent : IsConsistent r
  pub maps : IsMaps r.filters

module _ {S : Type 0} (st : Storage S) where
  Step-IsRouter : {r r' : RouterInternal} → Step st r r' → IsRouter r → IsRouter r'
  Step-IsRouter {r} (subscribing session_id sender s filters) h = record {
    consistent = subscribe-IsConsistent st session_id sender s filters r h.consistent;
    maps = subscribe-IsMaps st session_id sender s filters r h.maps;
  }
  Step-IsRouter {r} (unsubscribing session_id filters) h = record {
    consistent = unsubscribe-IsConsistent session_id filters r h.consistent;
    maps = unsubscribe-IsMaps session_id filters r h.maps;
  }
  Step-IsRouter {r} (leaving session_id) h = record {
    consistent = unsubscribe_all-IsConsistent session_id r h.consistent;
    maps = unsubscribe_all-IsMaps session_id r h.maps;
  }

  -- In every state that the router can reach, a filter is listed for a session exactly where the
  -- session is listed for the filter, and no key stands twice in `filters` or in the map of one of
  -- its filters.
  pub Reach-IsRouter : {r : RouterInternal} → Reach st r → IsRouter r
  Reach-IsRouter start = record { consistent = new-IsConsistent; maps = (tt, tt) }
  Reach-IsRouter (step before now) = Step-IsRouter now (Reach-IsRouter before)

  -- Once a session has left the router, no message is delivered to it.
  pub nothing_after_leaving :
      {r : RouterInternal} (s : SessionId) (packet : PublishPacket)
      → Reach st r
      → for_session s (deliveries packet (unsubscribe_all s r).filters) ≡ []
  nothing_after_leaving {r} s packet reached =
      let before = Reach-IsRouter reached in
      let after = Reach-IsRouter (step reached (leaving s)) in
      deliveries-expected packet s (unsubscribe_all s r).filters after.maps.1
      ∙ expected-nowhere packet s (unsubscribe_all s r).filters after.maps.0
          (λ f. subscription-unsubscribe_all s s f r before.consistent ∙ rw (beq_refl s))
