-- ===== src/Router/Lock/Tests.antt =====
-- Two sessions, each of which publishes what the other one subscribed to.
use iotd.Prelude.{
  ℕ, zero, suc, Bytes, ◌≡◌, ◌≢◌, refl, false, none, List, [], ◌∷◌, arith, if◌then◌else◌, ◌==◌,
  nat_eq,
}
use iotd.Protocol.Packet.{ascii, PublishPacket, at_most_once, at_least_once}
use iotd.Storage.Memory.{memory}
use iotd.Router.Index.{RouterInternal}
use iotd.Router.Qos.{min_qos}
use iotd.Router.Topic.{split, match_parts, topic_matches, validate_publish_topic}
use iotd.Router.Route.{Delivery, forward_packet, to_subscribers, deliveries}
use iotd.Router.Lock.{Task, Sessions, set, Step, Steps}
use iotd.Router.Lock.Deadlock.{WaitsFor, Steps-stuck}
use iotd.Router.Lock.Reached.{Publishes, can_wait}

abbrev router : RouterInternal
router = record {
  filters =
      (ascii "lamp", (ascii "bob", (2, at_least_once)) ∷ [])
      ∷ (ascii "door", (ascii "alice", (1, at_most_once)) ∷ [])
      ∷ [];
  sessions = (ascii "bob", ascii "lamp" ∷ []) ∷ (ascii "alice", ascii "door" ∷ []) ∷ [];
}

abbrev first : ℕ
first = 1

abbrev second : ℕ
second = 2

abbrev about : Bytes → PublishPacket
about topic = record {
  topic = topic;
  packet_id = none;
  payload = ascii "on";
  qos = at_most_once;
  retain = false;
  dup = false;
}

abbrev quiet : Sessions
quiet = record { router = router; tasks = λ i. Task.idle; mailboxes = λ i. [] }

abbrev to_bob : Delivery
to_bob = record { session_id = ascii "bob"; sender = 2; packet = about (ascii "lamp") }

abbrev to_alice : Delivery
to_alice = record { session_id = ascii "alice"; sender = 1; packet = about (ascii "door") }

lamp_for_bob : Publishes quiet first second
unfolding deliveries to_subscribers forward_packet topic_matches match_parts split
    validate_publish_topic min_qos
lamp_for_bob = record {
  packet = about (ascii "lamp");
  valid = refl;
  delivery = to_bob;
  deliveries_lem = refl;
  sender_lem = refl;
}

door_for_alice : Publishes quiet second first
unfolding deliveries to_subscribers forward_packet topic_matches match_parts split
    validate_publish_topic min_qos
door_for_alice = record {
  packet = about (ascii "door");
  valid = refl;
  delivery = to_alice;
  deliveries_lem = refl;
  sender_lem = refl;
}

one_ne_two : first ≢ second
one_ne_two = omega arith

can_wait_example :
    (t : Sessions) × Steps memory quiet t × WaitsFor t first second × WaitsFor t second first
can_wait_example =
    can_wait memory first second one_ne_two quiet lamp_for_bob door_for_alice refl refl

abbrev copies : ℕ → PublishPacket → List PublishPacket
copies zero p = []
copies (suc n) p = p ∷ copies n p

abbrev waiting : ℕ → Task
waiting i =
    if i == 1
    then Task.routing (to_bob ∷ [])
    else (if i == 2 then Task.routing (to_alice ∷ []) else Task.idle)

abbrev stuck : Sessions
stuck = record {
  router = router;
  tasks = waiting;
  mailboxes = λ i. copies 100 (about (ascii "lamp"));
}

bob_is_full : WaitsFor stuck first second
bob_is_full = record {
  delivery = to_bob;
  left = [];
  task_lem = refl;
  sender_lem = refl;
  full = omega arith;
}

alice_is_full : WaitsFor stuck second first
alice_is_full = record {
  delivery = to_alice;
  left = [];
  task_lem = refl;
  sender_lem = refl;
  full = omega arith;
}

abbrev third : ℕ
third = 3

-- A third session reads its mailbox; the two wait on.
abbrev read_by_third : Sessions
read_by_third = record stuck {
  mailboxes = set third (copies 99 (about (ascii "lamp"))) stuck.mailboxes;
}

third_reads : Step memory stuck read_by_third
third_reads = Step.receives third _ _ refl refl

Steps-stuck_example :
    (read_by_third.tasks first ≡ Task.routing (to_bob ∷ []))
    × (read_by_third.tasks second ≡ Task.routing (to_alice ∷ []))
    × (read_by_third.router ≡ router)
Steps-stuck_example =
    Steps-stuck memory stuck first second bob_is_full alice_is_full
      (Steps.next Steps.here third_reads)
