-- ===== src/Session/Outbound/Retries.antt =====
-- How often a message is sent again: a client that acknowledges nothing is not waited for for ever.
use iotd.Prelude.{
  ℕ, zero, suc, length, true, ◌+◌, ◌-◌, ◌≤◌, ◌<◌, ◌%◌, ◌^◌, ◌≡◌, refl, false, Option, none, some,
  List, [], ◌∷◌, All, leb, ltb, Bool-cases, inl, inr, arith,
}
use iotd.Session.Types.{Instant, Qos2State, InflightMessage}
use iotd.Session.Outbound.{Retransmission, send_again, retransmissions}

-- A message that is due at `t`, and whose counter reaches the limit in fewer than `n` more ticks.
abbrev pub HasTicks : ℕ → ℕ → ℕ → Instant → InflightMessage → Type 0
HasTicks interval limit n t m =
    (m.timestamp + interval ≤ t) × (m.retry_count ≤ limit) × (limit < m.retry_count + n)

send_again-All {κ} :
    (P : InflightMessage → Type κ) (m : InflightMessage) (s : Option Qos2State) (o : Option ℕ)
    (r : Retransmission)
    → P m
    → All P r.queue
    → All P (send_again m s o r).queue
send_again-All P m none o r p h = (p, h)
send_again-All P m (some Qos2State.awaiting_pub_rec) o r p h = (p, h)
send_again-All P m (some Qos2State.awaiting_pub_comp) none r p h = (p, h)
send_again-All P m (some Qos2State.awaiting_pub_comp) (some i) r p h = (p, h)

no_wrap : (c limit : ℕ) → c ≤ limit → limit + 1 < 2 ^ 32 → (c + 1) % 2 ^ 32 ≡ c + 1
no_wrap c limit h k = omega arith

-- One retry later.
within_lem :
    (limit n c d : ℕ)
    → d ≡ c + 1
    → limit < c + suc n
    → ltb limit d ≡ false
    → (d ≤ limit) × (limit < d + n)
within_lem limit n c d next before within = ground arith

still_has :
    (interval limit n : ℕ) (t : Instant) (m : InflightMessage)
    → limit + 1 < 2 ^ 32
    → HasTicks interval limit (suc n) t m
    → ltb limit ((m.retry_count + 1) % 2 ^ 32) ≡ false
    → HasTicks interval limit n
        (t + interval)
        (record m { retry_count = (m.retry_count + 1) % 2 ^ 32; timestamp = t })
still_has interval limit n t m k h within =
    let bounds =
      within_lem limit n m.retry_count ((m.retry_count + 1) % 2 ^ 32)
        (no_wrap m.retry_count limit h.1 k) h.2 within in
    (omega arith, bounds.0, bounds.1)

pub retransmissions-HasTicks :
    (interval limit n : ℕ) (t : Instant) (ms : List InflightMessage)
    → limit + 1 < 2 ^ 32
    → All (HasTicks interval limit (suc n) t) ms
    → All (HasTicks interval limit n (t + interval)) (retransmissions interval limit t ms).queue
unfolding retransmissions
retransmissions-HasTicks interval limit n t [] k h = tt
retransmissions-HasTicks interval limit n t (m ∷ ms) k h =
    let again = record m { retry_count = (m.retry_count + 1) % 2 ^ 32; timestamp = t } in
    let rest = retransmissions-HasTicks interval limit n t ms k h.1 in
    elim (Bool-cases (leb interval (t - m.timestamp))) [
      | inl due ↦ elim (Bool-cases (ltb limit ((m.retry_count + 1) % 2 ^ 32))) [
        | inl over ↦ rw (due, over) rest
        | inr within ↦
            rw (due, within)
              (send_again-All (HasTicks interval limit n (t + interval)) again again.qos2_state
                again.packet.packet_id (retransmissions interval limit t ms)
                (still_has interval limit n t m k h.0 within) rest)
      ]
      | inr later ↦ absurd (not_due m h.0 later)
    ]
  where
    not_due :
        (m : InflightMessage)
        → HasTicks interval limit (suc n) t m
        → leb interval (t - m.timestamp) ≡ false
        → ⊥
    not_due m h later = ground arith

-- A message that is sent again is marked as a duplicate.
abbrev pub IsDup : InflightMessage → Type 0
IsDup m = m.packet.dup ≡ true

-- What one tick makes of the queue: no more messages and no more packets than there were.
pub record Bounded (ms : List InflightMessage) (r : Retransmission) : Type 0 where
  pub queue_lem : length r.queue ≤ length ms
  pub queue_dup : All IsDup r.queue
  pub publish_lem : length r.publish_to_retransmit ≤ length ms
  pub publish_dup : All (λ p. p.dup ≡ true) r.publish_to_retransmit

send_again-Bounded :
    (m n : InflightMessage) (ms : List InflightMessage) (s : Option Qos2State) (o : Option ℕ)
    (r : Retransmission)
    → IsDup n
    → Bounded ms r
    → Bounded (m ∷ ms) (send_again n s o r)
send_again-Bounded m n ms none o r d b = record {
  queue_lem = let h = b.queue_lem in omega arith;
  queue_dup = (d, b.queue_dup);
  publish_lem = let h = b.publish_lem in omega arith;
  publish_dup = (d, b.publish_dup);
}
send_again-Bounded m n ms (some Qos2State.awaiting_pub_rec) o r d b = record {
  queue_lem = let h = b.queue_lem in omega arith;
  queue_dup = (d, b.queue_dup);
  publish_lem = let h = b.publish_lem in omega arith;
  publish_dup = (d, b.publish_dup);
}
send_again-Bounded m n ms (some Qos2State.awaiting_pub_comp) none r d b = record {
  queue_lem = let h = b.queue_lem in omega arith;
  queue_dup = (d, b.queue_dup);
  publish_lem = let h = b.publish_lem in omega arith;
  publish_dup = b.publish_dup;
}
send_again-Bounded m n ms (some Qos2State.awaiting_pub_comp) (some i) r d b = record {
  queue_lem = let h = b.queue_lem in omega arith;
  queue_dup = (d, b.queue_dup);
  publish_lem = let h = b.publish_lem in omega arith;
  publish_dup = b.publish_dup;
}

pub retransmissions-Bounded :
    (interval limit : ℕ) (t : Instant) (ms : List InflightMessage)
    → All IsDup ms
    → Bounded ms (retransmissions interval limit t ms)
unfolding retransmissions
retransmissions-Bounded interval limit t [] h = record {
  queue_lem = omega arith;
  queue_dup = tt;
  publish_lem = omega arith;
  publish_dup = tt;
}
retransmissions-Bounded interval limit t (m ∷ ms) h =
    let again = record m { retry_count = (m.retry_count + 1) % 2 ^ 32; timestamp = t } in
    let rest = retransmissions-Bounded interval limit t ms h.1 in
    elim (Bool-cases (leb interval (t - m.timestamp))) [
      | inl due ↦ elim (Bool-cases (ltb limit ((m.retry_count + 1) % 2 ^ 32))) [
        | inl over ↦
            rw (due, over)
              (record {
                queue_lem = let h = rest.queue_lem in omega arith;
                queue_dup = rest.queue_dup;
                publish_lem = let h = rest.publish_lem in omega arith;
                publish_dup = rest.publish_dup;
              })
        | inr within ↦
            rw (due, within)
              (send_again-Bounded m again ms again.qos2_state again.packet.packet_id
                (retransmissions interval limit t ms) h.0 rest)
      ]
      | inr later ↦ rw later (record {
        queue_lem = let h = rest.queue_lem in omega arith;
        queue_dup = (h.0, rest.queue_dup);
        publish_lem = let h = rest.publish_lem in omega arith;
        publish_dup = rest.publish_dup;
      })
    ]

abbrev pub IsDue : ℕ → ℕ → Instant → InflightMessage → Type 0
IsDue interval limit t m = (m.timestamp + interval ≤ t) × (m.retry_count ≤ limit)

pub IsDue-HasTicks :
    (interval limit : ℕ) (t : Instant) (ms : List InflightMessage)
    → All (IsDue interval limit t) ms
    → All (HasTicks interval limit (limit + 1) t) ms
IsDue-HasTicks interval limit t [] h = tt
IsDue-HasTicks interval limit t (m ∷ ms) h =
    ((h.0.0, h.0.1, omega arith), IsDue-HasTicks interval limit t ms h.1)

pub HasTicks-zero :
    (interval limit : ℕ) (t : Instant) (ms : List InflightMessage)
    → All (HasTicks interval limit zero t) ms
    → ms ≡ []
HasTicks-zero interval limit t [] h = refl
HasTicks-zero interval limit t (m ∷ ms) h = absurd (omega arith)
