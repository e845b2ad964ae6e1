-- ===== src/Router/Retained/Found.antt =====
-- What a new subscription is sent: the exact lookup finds what the search would find.
use iotd.Prelude.{
  Bytes, ◌≡◌, refl, sym, ◌∙◌, inl, inr, Bool, true, false, Option, none, some, List, [], ◌∷◌, ◌++◌,
  append_assoc, append-nil, HashMap, get, bytes_eq, bytes_beq_iff, ◌==◌, if◌then◌else◌, arith,
  Bool-cases, beq_ne, beq_refl,
}
use iotd.Protocol.Packet.{QoS, PublishPacket}
use iotd.Storage.Types.{StoredQoS, qos_from_stored, PersistedRetainedMessage}
use iotd.Storage.Trait.{Storage, StorageResult, IsRetainedStore, values}
use iotd.Router.Qos.{smaller, min_qos-smaller}
use iotd.Router.Topic.{has_wildcards, topic_matches}
use iotd.Router.Topic.Exact.{topic_matches-plain}
use iotd.Router.Retained.{
  retained_packet, push_matching, push_exact, load_all, find_retained_for_filter,
}

abbrev Retained : Type 0
Retained = HashMap Bytes PersistedRetainedMessage

-- Every message stands under its own topic, and no topic twice.
abbrev pub IsKeyed : Retained → Type 0
IsKeyed [] = Unit
IsKeyed ((k, m) ∷ rest) = (m.topic ≡ k) × (get k rest ≡ none) × IsKeyed rest

-- The QoS at which a stored message was published.
abbrev pub published_at : StoredQoS → QoS
published_at StoredQoS.at_most_once = QoS.at_most_once
published_at StoredQoS.at_least_once = QoS.at_least_once
published_at StoredQoS.exactly_once = QoS.exactly_once

-- What a new subscriber receives of a stored message: its topic and payload with RETAIN, at the smaller
-- QoS, without a packet id and not as a duplicate.
abbrev pub received : QoS → PersistedRetainedMessage → PublishPacket
received qos m = record {
  topic = m.topic;
  packet_id = none;
  payload = m.payload;
  qos = smaller (published_at m.qos) qos;
  retain = true;
  dup = false;
}

qos_from_stored-published_at : (q : StoredQoS) → qos_from_stored q ≡ published_at q
unfolding qos_from_stored
qos_from_stored-published_at StoredQoS.at_most_once = refl
qos_from_stored-published_at StoredQoS.at_least_once = refl
qos_from_stored-published_at StoredQoS.exactly_once = refl

retained_packet-received :
    (qos : QoS) (m : PersistedRetainedMessage) → retained_packet qos m ≡ received qos m
unfolding retained_packet
retained_packet-received qos m =
    rw (min_qos-smaller (qos_from_stored m.qos) qos) (rw (qos_from_stored-published_at m.qos) refl)

-- All messages whose topics match the filter, in the order of storage, as a subscriber receives them.
abbrev pub matching : Bytes → QoS → Retained → List PublishPacket
matching filter qos [] = []
matching filter qos ((k, m) ∷ rest) =
    let later = matching filter qos rest in
    if topic_matches m.topic filter then received qos m ∷ later else later

append_if :
    (b : Bool) (xs : List PublishPacket) (x : PublishPacket) (ys : List PublishPacket)
    → (if b then xs ++ x ∷ [] else xs) ++ ys ≡ xs ++ (if b then x ∷ ys else ys)
append_if true xs x ys = append_assoc xs (x ∷ []) ys
append_if false xs x ys = refl

push_matching-matching :
    (filter : Bytes) (qos : QoS) (m : Retained) (to_send : List PublishPacket)
    → push_matching filter qos (values m) to_send ≡ to_send ++ matching filter qos m
unfolding push_matching
push_matching-matching filter qos [] to_send = sym (append-nil to_send)
push_matching-matching filter qos ((k, m) ∷ rest) to_send =
    push_matching-matching filter qos rest _
    ∙ (append_if (topic_matches m.topic filter) to_send (retained_packet qos m)
          (matching filter qos rest)
        ∙ rw (retained_packet-received qos m) refl)

abbrev found : QoS → Option PersistedRetainedMessage → List PublishPacket
found qos none = []
found qos (some m) = received qos m ∷ []

matches_key : (t f : Bytes) → has_wildcards f ≡ false → topic_matches t f ≡ (t == f)
matches_key t f plain =
    let exact = topic_matches-plain t f plain in
    elim (Bool-cases (topic_matches t f)) [
      | inl y ↦ rw (y, exact.0 y, beq_refl f)
      | inr n ↦ rw n (sym (beq_ne t f (λ e. cc (n, exact.1 e))))
    ]

matching-get :
    (filter : Bytes) (qos : QoS) (m : Retained)
    → has_wildcards filter ≡ false
    → IsKeyed m
    → matching filter qos m ≡ found qos (get filter m)
unfolding get
matching-get filter qos [] plain h = refl
matching-get filter qos ((k, m) ∷ rest) plain h = ground (
  arith,
  matching-get filter qos rest plain h.2,
  matches_key m.topic filter plain,
  bytes_beq_iff m.topic filter,
  bytes_beq_iff k filter,
)

module _ {S : Type 0} (st : Storage S) (laws : IsRetainedStore st) where
  -- `all_retained` is empty, or holds what storage holds.
  abbrev pub IsCache : Option (List PersistedRetainedMessage) → S → Type 0
  IsCache none s = Unit
  IsCache (some messages) s = messages ≡ values (laws.view s)

  push_exact-found :
      (qos : QoS) (filter : Bytes) (s : S) (to_send : List PublishPacket)
      → push_exact st qos (st.load_retained_message filter s) to_send
        ≡ to_send ++ found qos (get filter (laws.view s))
  push_exact-found qos filter s to_send =
      rw (laws.load_lem filter s) (pushed (get filter (laws.view s)))
    where
      pushed :
          (o : Option PersistedRetainedMessage)
          → push_exact st qos (StorageResult.ok o) to_send ≡ to_send ++ found qos o
      pushed none = sym (append-nil to_send)
      pushed (some m) = rw (retained_packet-received qos m) refl

  load_all-view :
      (cache : Option (List PersistedRetainedMessage)) (s : S)
      → IsCache cache s
      → load_all st cache s ≡ values (laws.view s)
  load_all-view none s h = rw laws.load_all_lem
  load_all-view (some messages) s h = h

  -- For a filter with or without wildcards, `find_retained_for_filter` adds to the list the retained
  -- messages whose topics match, in the order of storage, at the smaller of the two QoS: the direct
  -- lookup for a filter without wildcards finds what the search over all messages would find. What
  -- it keeps in `all_retained` is what storage holds. The backend keeps the contract of the retained
  -- messages, by which no call fails, each stands under its own topic, and `all_retained` held what storage holds.
  pub find_retained-matching :
      (filter : Bytes) (qos : QoS) (s : S) (to_send : List PublishPacket)
      (cache : Option (List PersistedRetainedMessage))
      → IsKeyed (laws.view s)
      → IsCache cache s
      → let after = find_retained_for_filter st filter qos s (to_send, cache) in
        (after.0 ≡ to_send ++ matching filter qos (laws.view s)) × IsCache after.1 s
  unfolding find_retained_for_filter
  find_retained-matching filter qos s to_send cache keyed h =
      elim (Bool-cases (has_wildcards filter)) [
        | inl y ↦ rw y (
            rw (load_all-view cache s h)
              (push_matching-matching filter qos (laws.view s) to_send, refl))
        | inr n ↦ rw n (
          rw (matching-get filter qos (laws.view s) n keyed)
              (push_exact-found qos filter s to_send),
          h,
        )
      ]
