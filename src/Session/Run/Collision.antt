-- ===== src/Session/Run/Collision.antt =====
-- A CONNECT under the name of a session that is still there.
use iotd.Prelude.{
  ◌≡◌, refl, ◌∙◌, false, none, some, List, [], ◌∷◌, ◌++◌, is_empty, get, bytes_eq, nat_eq, beq_refl,
  get-remove, arith,
}
use iotd.Protocol.Packet.{Packet, ConnectPacket, PublishPacket, protocol_name, protocol_level}
use iotd.Router.Index.{Mailbox}
use iotd.Router.Route.{Delivery}
use iotd.Session.Types.{WillMessage, State}
use iotd.Session.Effect.{
  ◌>>◌, pure, continue, Env, Stream, World, Outcome, AuthResult, send_message, deliver_one, deliver,
  route_packet,
}
use iotd.Session.Connect.{
  validate_client_id, with_connect, has_collision, enter_session, on_connect, remove_session,
}
use iotd.Session.Run.{Event, will_packet, publish_will, enter, step}

-- The CONNECT is well formed, and its client may connect.
pub record IsWelcome {S : Type 0} (e : Env S) (connect : ConnectPacket) : Type 0 where
  pub name : connect.protocol_name ≡ protocol_name
  pub level : connect.protocol_level ≡ protocol_level
  pub valid : validate_client_id connect.client_id connect.clean_session ≡ none
  pub allowed :
      e.authenticate (record {
        username = connect.username;
        password = connect.password;
        client_id = connect.client_id;
      })
      ≡ AuthResult.allowed

module _ {S : Type 0} (e : Env S) where
  on_connect-welcome :
      (connect : ConnectPacket) (stream : Stream) (w : World S)
      → IsWelcome e connect
      → on_connect e connect stream w
        ≡ enter_session e connect stream (record w { runtime = with_connect connect w.runtime })
  unfolding on_connect
  on_connect-welcome connect stream w h = rw (h.name, h.level, h.valid, h.allowed) refl

  enter_session-collision :
      (connect : ConnectPacket) (stream : Stream) (w : World S) (owner : Mailbox)
      → is_empty connect.client_id ≡ false
      → get connect.client_id w.named_clients ≡ some owner
      → enter_session e connect stream w ≡ (
        Outcome.ok State.cleanup,
        record w {
          runtime = record w.runtime { client_id = some connect.client_id };
          commands =
              w.commands
              ++ (
                owner,
                record {
                  stream = stream;
                  clean_session = connect.clean_session;
                  keep_alive = connect.keep_alive;
                },
              )
                ∷ [];
        },
      )
  unfolding enter_session has_collision get
  enter_session-collision connect stream w owner named taken = rw (named, taken) refl

  routed-deliver_one : (d : Delivery) (w : World S) → (deliver_one e d w).1.routed ≡ w.routed
  unfolding deliver_one send_message
  routed-deliver_one d w = ground arith

  routed-deliver : (ds : List Delivery) (w : World S) → (deliver e ds w).1.routed ≡ w.routed
  unfolding deliver
  routed-deliver [] w = refl
  routed-deliver (d ∷ ds) w =
      ground (arith, routed-deliver_one d w, routed-deliver ds (deliver_one e d w).1)

  -- The world in which the new task ends.
  abbrev ended : ConnectPacket → Stream → Mailbox → World S → World S
  ended connect stream owner w = record w {
    stream = none;
    runtime = record (with_connect connect w.runtime) { client_id = some connect.client_id };
    commands =
        w.commands
        ++ (
          owner,
          record {
            stream = stream;
            clean_session = connect.clean_session;
            keep_alive = connect.keep_alive;
          },
        )
          ∷ [];
  }

  step-collision :
      (connect : ConnectPacket) (stream : Stream) (w : World S) (owner : Mailbox)
      → IsWelcome e connect
      → is_empty connect.client_id ≡ false
      → get connect.client_id w.named_clients ≡ some owner
      → w.stream ≡ some stream
      → step e (Event.packet (some (Packet.connect connect))) State.waiting w
        ≡ enter e State.cleanup (ended connect stream owner w)
  unfolding step with_connect
  step-collision connect stream w owner h named taken open_stream =
      rw
        (
          open_stream,
          on_connect-welcome connect stream (record w { stream = none }) h,
          enter_session-collision connect stream
              (record w { stream = none; runtime = with_connect connect w.runtime }) owner named
              taken,
        )
        refl

  pub routed-route_packet :
      (p : PublishPacket) (w : World S) → (route_packet e p w).1.routed ≡ w.routed ++ p ∷ []
  unfolding route_packet
  routed-route_packet p w = routed-deliver _ _

  routed-remove_session :
      (o : Outcome (Unit {0})) (w : World S)
      → (continue o (λ _. remove_session >> pure State.cleanup) w).1.routed ≡ w.routed
  unfolding remove_session
  routed-remove_session (Outcome.ok tt) w = refl
  routed-remove_session (Outcome.err x) w = refl
  routed-remove_session Outcome.panic w = refl
  routed-remove_session Outcome.stuck w = refl

  enter_cleanup-will :
      (will : WillMessage) (w : World S)
      → w.runtime.will_message ≡ some will
      → (enter e State.cleanup w).1.routed ≡ w.routed ++ will_packet e will ∷ []
  unfolding publish_will
  enter_cleanup-will will w has =
      let taken = record w { runtime = record w.runtime { will_message = none } } in
      rw has (
        routed-remove_session (route_packet e (will_packet e will) taken).0
          (route_packet e (will_packet e will) taken).1
        ∙ routed-route_packet (will_packet e will) taken)

  -- A CONNECT with a Will message under the name of a session that is still there hands its stream
  -- to that session, and the Will message is published at once, although the client is connected.
  pub step-collision_publishes_will :
      (connect : ConnectPacket) (stream : Stream) (w : World S) (owner : Mailbox)
      (will : WillMessage)
      → IsWelcome e connect
      → is_empty connect.client_id ≡ false
      → get connect.client_id w.named_clients ≡ some owner
      → w.stream ≡ some stream
      → (with_connect connect w.runtime).will_message ≡ some will
      → let after = (step e (Event.packet (some (Packet.connect connect))) State.waiting w).1 in
        (after.routed ≡ w.routed ++ will_packet e will ∷ [])
  step-collision_publishes_will connect stream w owner will h named taken open_stream has =
      rw (step-collision connect stream w owner h named taken open_stream)
        (enter_cleanup-will will (ended connect stream owner w) has)

  -- Without a Will message, such a CONNECT hands over its stream, and then the name of the client is
  -- taken out of the broker's registry.
  pub step-collision_forgets_name :
      (connect : ConnectPacket) (stream : Stream) (w : World S) (owner : Mailbox)
      → IsWelcome e connect
      → is_empty connect.client_id ≡ false
      → get connect.client_id w.named_clients ≡ some owner
      → w.stream ≡ some stream
      → (with_connect connect w.runtime).will_message ≡ none
      → let after = (step e (Event.packet (some (Packet.connect connect))) State.waiting w).1 in
        (get connect.client_id after.named_clients ≡ none)
        × (after.commands
            ≡ w.commands
              ++ (
                owner,
                record {
                  stream = stream;
                  clean_session = connect.clean_session;
                  keep_alive = connect.keep_alive;
                },
              )
                ∷ [])
  unfolding publish_will remove_session
  step-collision_forgets_name connect stream w owner h named taken open_stream has =
      rw (step-collision connect stream w owner h named taken open_stream) (
        rw has (
          get-remove connect.client_id connect.client_id w.named_clients
              ∙ rw (beq_refl connect.client_id) refl,
          refl,
        ))
