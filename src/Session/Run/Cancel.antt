-- ===== src/Session/Run/Cancel.antt =====
-- The shutdown of a session: `Session::cancel` sends it the command.
use iotd.Prelude.{
  ◌≡◌, ◌≢◌, refl, sym, ◌∙◌, subst, Bytes, Option, none, some, List, [], ◌∷◌, HashMap, get,
  get-remove, beq_refl, bytes_eq, nat_eq, arith,
}
use iotd.Protocol.Packet.{PublishPacket}
use iotd.Router.Index.{Mailbox, subscription, unsubscribe_all}
use iotd.Router.Index.Consistent.{IsConsistent, subscription-unsubscribe_all}
use iotd.Router.Route.{Delivery}
use iotd.Session.Types.{State, WillMessage}
use iotd.Session.Effect.{
  Env, Stream, World, Outcome, continue, ◌>>◌, pure, send_message, deliver_one, deliver,
  route_packet,
}
use iotd.Session.Connect.{forget_name, remove_session}
use iotd.Session.Run.{Command, Event, publish_will, publish_taken, will_packet, enter, step}

-- What `remove_session` reads is as it was.
abbrev SameIndex : {S : Type 0} → World S → World S → Type 0
SameIndex w w' =
    (w'.router ≡ w.router)
    × (w'.named_clients ≡ w.named_clients)
    × (w'.runtime.id ≡ w.runtime.id)
    × (w'.runtime.client_id ≡ w.runtime.client_id)

-- The name of the session is free again.
abbrev pub IsFree : Option Bytes → HashMap Bytes Mailbox → Type 0
IsFree none names = Unit
IsFree (some name) names = get name names ≡ none

forget_name-IsFree :
    (o : Option Bytes) (names : HashMap Bytes Mailbox) → IsFree o (forget_name o names)
forget_name-IsFree none names = tt
forget_name-IsFree (some name) names = get-remove name name names ∙ rw (beq_refl name) refl

module _ {S : Type 0} (e : Env S) where
  deliver_one-SameIndex : (d : Delivery) (w : World S) → SameIndex w (deliver_one e d w).1
  unfolding deliver_one send_message
  deliver_one-SameIndex d w = ground arith

  deliver-SameIndex : (ds : List Delivery) (w : World S) → SameIndex w (deliver e ds w).1
  unfolding deliver
  deliver-SameIndex [] w = (refl, refl, refl, refl)
  deliver-SameIndex (d ∷ ds) w =
      ground (arith, deliver_one-SameIndex d w, deliver-SameIndex ds (deliver_one e d w).1)

  route_packet-SameIndex : (p : PublishPacket) (w : World S) → SameIndex w (route_packet e p w).1
  unfolding route_packet
  route_packet-SameIndex p w = deliver-SameIndex _ _

  publish_taken-SameIndex :
      (o : Option WillMessage) (w : World S) → SameIndex w (publish_taken e o w).1
  publish_taken-SameIndex none w = (refl, refl, refl, refl)
  publish_taken-SameIndex (some will) w =
      route_packet-SameIndex (will_packet e will)
        (record w { runtime = record w.runtime { will_message = none } })

  publish_will-SameIndex : (w : World S) → SameIndex w (publish_will e w).1
  unfolding publish_will
  publish_will-SameIndex w = publish_taken-SameIndex w.runtime.will_message w

  -- The end of a session that is in the world `w`.
  abbrev Ended : World S → Outcome State × World S → Type 0
  Ended w end =
      (end.0 ≡ Outcome.ok State.cleanup)
      × ((f : Bytes) → subscription w.runtime.id f end.1.router ≡ none)
      × IsFree w.runtime.client_id end.1.named_clients

  removed-Ended :
      (w v : World S)
      → SameIndex w v
      → IsConsistent w.router
      → Ended w (continue (Outcome.ok (tt {0})) (λ _. remove_session >> pure State.cleanup) v)
  unfolding remove_session
  removed-Ended w v (router, names, id, client_id) c = (
    refl,
    λ f.
        subst (λ r. subscription w.runtime.id f (unsubscribe_all v.runtime.id r) ≡ none)
          (sym router)
          (subst (λ i. subscription w.runtime.id f (unsubscribe_all i w.router) ≡ none) (sym id)
            (subscription-unsubscribe_all w.runtime.id w.runtime.id f w.router c
              ∙ rw (beq_refl w.runtime.id) refl)),
    subst (λ o. IsFree w.runtime.client_id (forget_name o v.named_clients)) (sym client_id)
        (forget_name-IsFree w.runtime.client_id v.named_clients),
  )

  cleanup-Ended :
      (w : World S)
      → IsConsistent w.router
      → (publish_will e w).0 ≡ Outcome.ok tt
      → Ended w (enter e State.cleanup w)
  cleanup-Ended w c p =
      subst
        (λ o. Ended w (continue o (λ _. remove_session >> pure State.cleanup) (publish_will e w).1))
        (sym p) (removed-Ended w (publish_will e w).1 (publish_will-SameIndex w) c)

  -- A session that is told to stop, in whatever state, ends with this turn: it has no subscription any
  -- more, and its name is free. Its Will message, if it has one, can be published.
  pub step-cancel :
      (state : State) (w : World S)
      → state ≢ State.cleanup
      → IsConsistent w.router
      → ((s : Option Stream) → (publish_will e (record w { stream = s })).0 ≡ Outcome.ok tt)
      → (step e (Event.command (some Command.cancel)) state w).0 ≡ Outcome.ok State.cleanup
        × ((f : Bytes)
            → subscription w.runtime.id f
                (step e (Event.command (some Command.cancel)) state w).1.router
              ≡ none)
        × IsFree w.runtime.client_id
            (step e (Event.command (some Command.cancel)) state w).1.named_clients
  unfolding step
  step-cancel State.waiting w h c p = stopped w.stream refl
    where
      stopped :
          (s : Option Stream)
          → w.stream ≡ s
          → Ended w (step e (Event.command (some Command.cancel)) State.waiting w)
      stopped none q = rw (step, q) (cleanup-Ended (record w { stream = none }) c (p none))
      stopped (some stream) q = rw (step, q) (cleanup-Ended (record w { stream = none }) c (p none))
  step-cancel State.processing w h c p = stopped w.stream refl
    where
      stopped :
          (s : Option Stream)
          → w.stream ≡ s
          → Ended w (step e (Event.command (some Command.cancel)) State.processing w)
      stopped none q = rw (step, q) (cleanup-Ended (record w { stream = none }) c (p none))
      stopped (some stream) q = rw (step, q) (cleanup-Ended (record w { stream = none }) c (p none))
  step-cancel State.pending w h c p = cleanup-Ended w c (p w.stream)
  step-cancel State.cleanup w h c p = absurd (h refl)
