-- ===== src/Router/Route/Receivers.antt =====
-- To whom a published message goes, and how often.
use iotd.Prelude.{
  Bytes, ◌≡◌, refl, ◌∙◌, inl, inr, Option, none, some, false, List, [], ◌∷◌, ◌++◌, HashMap, get,
  Distinct, get-nil, beq_refl, bytes_eq, bytes_beq_iff, ◌==◌, if◌then◌else◌, arith, Bool-cases,
}
use iotd.Protocol.Packet.{QoS, PublishPacket}
use iotd.Router.Qos.{smaller, min_qos-smaller}
use iotd.Router.Topic.{topic_matches}
use iotd.Router.Index.Maps.{AllDistinct}
use iotd.Router.Index.{SessionId, Mailbox, Subscribers, or_default}
use iotd.Router.Route.{Delivery, forward_packet, to_subscribers, deliveries}

-- The deliveries to one session, in order.
abbrev pub for_session : SessionId → List Delivery → List Delivery
for_session s [] = []
for_session s (d ∷ ds) = let rest = for_session s ds in if d.session_id == s then d ∷ rest else rest

-- What a subscriber receives: the topic and the payload of the publisher at the smaller QoS, without
-- a packet id, and not as a retained message or a duplicate.
abbrev pub received : PublishPacket → QoS → PublishPacket
received packet qos = record {
  topic = packet.topic;
  packet_id = none;
  payload = packet.payload;
  qos = smaller packet.qos qos;
  retain = false;
  dup = false;
}

forward_packet-received :
    (packet : PublishPacket) (qos : QoS) → forward_packet packet qos ≡ received packet qos
unfolding forward_packet
forward_packet-received packet qos = rw (min_qos-smaller packet.qos qos) refl

-- What a session that subscribes at a QoS is sent.
abbrev pub delivery : PublishPacket → SessionId → Option (Mailbox × QoS) → List Delivery
delivery packet s none = []
delivery packet s (some (sender, qos)) =
    record { session_id = s; sender = sender; packet = received packet qos } ∷ []

-- One delivery for each filter that matches the topic and that the session subscribes to.
abbrev pub expected : PublishPacket → SessionId → HashMap Bytes Subscribers → List Delivery
expected packet s [] = []
expected packet s ((filter, sessions) ∷ rest) =
    let later = expected packet s rest in
    if topic_matches packet.topic filter then delivery packet s (get s sessions) ++ later else later

for_session-append :
    (s : SessionId) (xs ys : List Delivery)
    → for_session s (xs ++ ys) ≡ for_session s xs ++ for_session s ys
for_session-append s [] ys = refl
for_session-append s (x ∷ xs) ys = ground (arith, for_session-append s xs ys)

to_subscribers-none :
    (packet : PublishPacket) (s : SessionId) (m : Subscribers)
    → get s m ≡ none
    → for_session s (to_subscribers packet m) ≡ []
unfolding get to_subscribers
to_subscribers-none packet s [] h = refl
to_subscribers-none packet s ((j, (sender, q)) ∷ m) h =
    ground (arith, to_subscribers-none packet s m)

to_subscribers-delivery :
    (packet : PublishPacket) (s : SessionId) (m : Subscribers)
    → Distinct m
    → for_session s (to_subscribers packet m) ≡ delivery packet s (get s m)
unfolding get to_subscribers
to_subscribers-delivery packet s [] d = refl
to_subscribers-delivery packet s ((j, (sender, q)) ∷ m) d = ground (
  arith,
  bytes_beq_iff j s,
  to_subscribers-none packet s m,
  forward_packet-received packet q,
  to_subscribers-delivery packet s m d.1,
)

-- A session is sent one copy of the message for each filter that matches the topic and under which it
-- is subscribed, in the order of the filters, to its mailbox and at the smaller of the two QoS,
-- without RETAIN, DUP and a packet id, and nothing else. No session stands twice under a filter.
pub deliveries-expected :
    (packet : PublishPacket) (s : SessionId) (filters : HashMap Bytes Subscribers)
    → AllDistinct filters
    → for_session s (deliveries packet filters) ≡ expected packet s filters
unfolding deliveries
deliveries-expected packet s [] d = refl
deliveries-expected packet s ((f, m) ∷ rest) d = elim (Bool-cases (topic_matches packet.topic f)) [
  | inl y ↦ rw y (
      for_session-append s (to_subscribers packet m) (deliveries packet rest)
      ∙ cc (to_subscribers-delivery packet s m d.0, deliveries-expected packet s rest d.1))
  | inr n ↦ rw n (deliveries-expected packet s rest d.1)
]

-- A session with no subscription at all.
abbrev pub NowhereIn : SessionId → HashMap Bytes Subscribers → Type 0
NowhereIn s filters = (f : Bytes) → get s (or_default (get f filters)) ≡ none

nowhere_tail :
    (s : SessionId) (f : Bytes) (m : Subscribers) (rest : HashMap Bytes Subscribers)
    → get f rest ≡ none
    → NowhereIn s ((f, m) ∷ rest)
    → NowhereIn s rest
unfolding get
nowhere_tail s f m rest fresh h g =
    ground (arith, h g, bytes_beq_iff f g, get-nil {V = Mailbox × QoS} s)

nowhere_head :
    (s : SessionId) (f : Bytes) (m : Subscribers) (rest : HashMap Bytes Subscribers)
    → NowhereIn s ((f, m) ∷ rest)
    → get s m ≡ none
unfolding get
nowhere_head s f m rest h = ground (arith, h f, beq_refl f)

pub expected-nowhere :
    (packet : PublishPacket) (s : SessionId) (filters : HashMap Bytes Subscribers)
    → Distinct filters
    → NowhereIn s filters
    → expected packet s filters ≡ []
expected-nowhere packet s [] d h = refl
expected-nowhere packet s ((f, m) ∷ rest) d h = ground (
  arith,
  nowhere_head s f m rest h,
  expected-nowhere packet s rest d.1 (nowhere_tail s f m rest d.0 h),
)
