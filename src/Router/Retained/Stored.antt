-- ===== src/Router/Retained/Stored.antt =====
-- What PUBLISH with the retain flag leaves in storage.
use iotd.Prelude.{
  ℕ, Bytes, Bool, true, false, ◌&&◌, sym, ap, inl, inr, Bool-cases, ◌≡◌, refl, ◌≤◌, Option, none,
  some, length, is_empty, leb, get, get-insert, get-remove, length-insert, length-remove, insert,
  remove, bytes_eq, bytes_beq_iff, ◌==◌, if◌then◌else◌, arith,
}
use iotd.Protocol.Packet.{QoS, PublishPacket}
use iotd.Storage.Types.{StoredQoS, stored_from_qos, DateTime, PersistedRetainedMessage}
use iotd.Storage.Trait.{Storage, StorageResult, OkElse}
use iotd.Storage.Refinement.{RetainedMap, RetainedCall, effect, perform, Shows, Refines}
use iotd.Router.Retained.{is_new, retained_of, handle_retained_message}

abbrev pub level : QoS → StoredQoS
level QoS.at_most_once = StoredQoS.at_most_once
level QoS.at_least_once = StoredQoS.at_least_once
level QoS.exactly_once = StoredQoS.exactly_once

-- The message that is kept of a PUBLISH.
abbrev pub message_of : DateTime → PublishPacket → PersistedRetainedMessage
message_of now packet = record {
  topic = packet.topic;
  payload = packet.payload;
  qos = level packet.qos;
  updated_at = now;
}

stored_from_qos-level : (q : QoS) → stored_from_qos q ≡ level q
unfolding stored_from_qos
stored_from_qos-level QoS.at_most_once = refl
stored_from_qos-level QoS.at_least_once = refl
stored_from_qos-level QoS.exactly_once = refl

retained_of-message_of :
    (now : DateTime) (packet : PublishPacket) → retained_of now packet ≡ message_of now packet
retained_of-message_of now packet = rw (stored_from_qos-level packet.qos) refl

abbrev pub is_ok {ℓ} : {A : Type ℓ} → StorageResult A → Bool
is_ok (StorageResult.ok a) = true
is_ok (StorageResult.err e) = false

ok_of :
    {A : Type 0} (F : Type 0) (o : StorageResult A) (a : A)
    → OkElse o (λ b. b ≡ a) F
    → is_ok o ≡ true
    → o ≡ StorageResult.ok a
ok_of F (StorageResult.ok b) a h e = ap StorageResult.ok h
ok_of F (StorageResult.err x) a h e = absurd (true_not_false (sym e))
  where
    true_not_false : true ≡ false → ⊥
    true_not_false h = ground arith

module _ (limit : ℕ) (now : DateTime) where
  -- The message that topic `packet.topic` has afterwards.
  abbrev pub kept : PublishPacket → RetainedMap → Option PersistedRetainedMessage
  kept packet m = if is_empty packet.payload then none else elim (get packet.topic m) [
    | none ↦ if leb limit (length m) then none else some (message_of now packet)
    | some _ ↦ some (message_of now packet)
  ]

  -- The map afterwards, where the call that writes succeeds.
  abbrev changed : PublishPacket → RetainedMap → RetainedMap
  changed packet m =
      if is_empty packet.payload then remove packet.topic m else elim (get packet.topic m) [
        | none ↦ if leb limit (length m) then m else insert packet.topic (message_of now packet) m
        | some _ ↦ insert packet.topic (message_of now packet) m
      ]

  get-changed :
      (packet : PublishPacket) (m : RetainedMap) (t : Bytes)
      → get t (changed packet m) ≡ (if packet.topic == t then kept packet m else get t m)
  get-changed packet m t = ground (
    arith,
    get-insert packet.topic t (message_of now packet) m,
    get-remove packet.topic t m,
    bytes_beq_iff packet.topic t,
  )

  length-changed :
      (packet : PublishPacket) (m : RetainedMap)
      → length m ≤ limit
      → length (changed packet m) ≤ limit
  length-changed packet m h =
      ground
        (arith, length-insert packet.topic (message_of now packet) m, length-remove packet.topic m)

module _ {S : Type 0} (st : Storage S) (r : Refines st) (limit : ℕ) (now : DateTime) where
  -- Whether the call of the storage that writes succeeds.
  abbrev pub writes : PublishPacket → S → Bool
  writes packet s =
      if is_empty packet.payload
      then is_ok (st.delete_retained_message packet.topic s).0
      else is_ok (st.save_retained_message (message_of now packet) s).0

  after_call :
      (p : StorageResult (Unit {0}) × S) (m m' : RetainedMap)
      → OkElse p.0 (λ _. r.Represents p.1 m') (r.Represents p.1 m)
      → r.Represents p.1 (if is_ok p.0 then m' else m)
  after_call (StorageResult.ok _, s) m m' h = h
  after_call (StorageResult.err _, s) m m' h = h

  handled :
      (packet : PublishPacket) (s : S) (m : RetainedMap)
      → r.Represents s m
      → is_ok (st.load_retained_message packet.topic s) ≡ true
      → is_ok (st.count_retained_messages s) ≡ true
      → r.Represents
          (handle_retained_message st limit now packet s)
          (if writes packet s then changed limit now packet m else m)
  unfolding handle_retained_message perform effect
  handled packet s m h loads counts = elim (Bool-cases (is_empty packet.payload)) [
    | inl empty ↦ rw empty (
        after_call (st.delete_retained_message packet.topic s) m (remove packet.topic m)
          (r.perform_lem (RetainedCall.delete packet.topic) s m h))
    | inr full ↦
        rw (full, stored_from_qos-level packet.qos)
          (rw (ok_of _ _ _ (shown.0 packet.topic) loads, ok_of _ _ _ shown.2 counts)
            (saves (get packet.topic m) refl))
  ]
    where
      shown : Shows st (r.Fails s) s m
      shown = r.shows_lem s m h

      saved : r.Represents (st.save_retained_message (message_of now packet) s).1 (
          if is_ok (st.save_retained_message (message_of now packet) s).0
          then insert packet.topic (message_of now packet) m
          else m)
      saved =
          after_call (st.save_retained_message (message_of now packet) s) m
            (insert packet.topic (message_of now packet) m)
            (r.perform_lem (RetainedCall.save (message_of now packet)) s m h)

      same : (b : Bool) → r.Represents s (if b then m else m)
      same true = h
      same false = h

      saves :
          (o : Option PersistedRetainedMessage)
          → get packet.topic m ≡ o
          → r.Represents
              (if is_new (StorageResult.ok o) && leb limit (length m)
                then s
                else (st.save_retained_message (message_of now packet) s).1)
              (if is_ok (st.save_retained_message (message_of now packet) s).0
                then elim o [
                  | none ↦
                      if leb limit (length m)
                      then m
                      else insert packet.topic (message_of now packet) m
                  | some _ ↦ insert packet.topic (message_of now packet) m
                ]
                else m)
      saves none e = elim (Bool-cases (leb limit (length m))) [
        | inl over ↦ rw over (same (is_ok (st.save_retained_message (message_of now packet) s).0))
        | inr room ↦ rw room saved
      ]
      saves (some old) e = saved

  if_get :
      (b : Bool) (packet : PublishPacket) (m : RetainedMap) (t : Bytes)
      → get t (if b then changed limit now packet m else m)
        ≡ (if b && packet.topic == t then kept limit now packet m else get t m)
  if_get true packet m t = get-changed limit now packet m t
  if_get false packet m t = refl

  if_length :
      (b : Bool) (packet : PublishPacket) (m : RetainedMap)
      → length m ≤ limit
      → length (if b then changed limit now packet m else m) ≤ limit
  if_length true packet m h = length-changed limit now packet m h
  if_length false packet m h = h

  -- A PUBLISH with the retain flag changes the retained message of its own topic only, and only if the
  -- call that writes succeeds: an empty payload removes it, any other replaces it, with its payload, its
  -- QoS and the time, and a message for a new topic is dropped once the limit is reached. The backend
  -- represents a map, and its two queries before the write succeed.
  pub view-handle_retained_message :
      (packet : PublishPacket) (s : S) (m : RetainedMap)
      → r.Represents s m
      → is_ok (st.load_retained_message packet.topic s) ≡ true
      → is_ok (st.count_retained_messages s) ≡ true
      → (m' : RetainedMap) × r.Represents (handle_retained_message st limit now packet s) m'
        × ((t : Bytes)
            → get t m'
              ≡ (if writes packet s && packet.topic == t then kept limit now packet m else get t m))
  view-handle_retained_message packet s m h loads counts = (
    if writes packet s then changed limit now packet m else m,
    handled packet s m h loads counts,
    if_get (writes packet s) packet m,
  )

  -- The number of retained messages, once within the limit, stays within it, whether or not the call that
  -- writes succeeds. The backend represents a map, and its two queries before the write succeed: a count
  -- that fails is taken for 0, and a message whose query fails for one that is there.
  pub count-handle_retained_message :
      (packet : PublishPacket) (s : S) (m : RetainedMap)
      → r.Represents s m
      → length m ≤ limit
      → is_ok (st.load_retained_message packet.topic s) ≡ true
      → is_ok (st.count_retained_messages s) ≡ true
      → (m' : RetainedMap) × r.Represents (handle_retained_message st limit now packet s) m'
        × (length m' ≤ limit)
  count-handle_retained_message packet s m h within loads counts = (
    if writes packet s then changed limit now packet m else m,
    handled packet s m h loads counts,
    if_length (writes packet s) packet m within,
  )
