-- ===== src/Session/Run/Tests.antt =====
-- The shutdown of a session at a concrete world.
use iotd.Prelude.{Bytes, insert, modify, ◌≡◌, refl, none, some, [], ◌∷◌, get, bytes_eq, nat_eq}
use iotd.Protocol.Packet.{ascii, QoS}
use iotd.Storage.Memory.{InMemoryStorage}
use iotd.Router.Index
use iotd.Router.Index.{RouterInternal, subscription, add_subscription}
use iotd.Router.Topic.{topic_matches, match_parts, validate_publish_topic, split, has_wildcards}
use iotd.Session.Types.{State}
use iotd.Session.Effect.{World, Outcome}
use iotd.Session.Run.{Command, Event, publish_will, step}
use iotd.Session.Run.Cancel.{step-cancel}
use iotd.Router.Index.Consistent.{add_subscription-IsConsistent, new-IsConsistent}
use iotd.Router.Route.{route, deliveries, to_subscribers}
use iotd.Session.Effect.{route_packet, deliver}
use iotd.Session.TestWorld.{env, start, last_will}

-- A session with a name, a Will message and a subscription.
abbrev stopping : World InMemoryStorage
stopping = record start {
  runtime = record start.runtime {
    client_id = some (ascii "alice");
    will_message = some last_will;
  };
  router = add_subscription start.runtime.id 1 QoS.at_most_once (ascii "door") Index.new;
  named_clients = (ascii "alice", 1) ∷ [];
}

step-cancel_example :
    let after = (step env (Event.command (some Command.cancel)) State.processing stopping) in
    (after.0 ≡ Outcome.ok State.cleanup)
    × ((f : Bytes) → subscription start.runtime.id f after.1.router ≡ none)
    × (get (ascii "alice") after.1.named_clients ≡ none)
unfolding publish_will route_packet deliver route deliveries to_subscribers topic_matches
    match_parts split validate_publish_topic has_wildcards add_subscription insert get modify
step-cancel_example =
    step-cancel env State.processing stopping (λ h. cc h)
      (add_subscription-IsConsistent start.runtime.id 1 QoS.at_most_once (ascii "door") Index.new
        new-IsConsistent)
      (λ s. refl)
