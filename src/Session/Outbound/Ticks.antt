-- ===== src/Session/Outbound/Ticks.antt =====
-- `on_retransmit` of src/session.rs again and again, with the messages that it puts into the own mailbox read
-- by `on_message` in between, and no acknowledgement of the client.
use iotd.Prelude.{
  ℕ, zero, suc, ◌+◌, ◌≤◌, ◌<◌, ◌^◌, ◌≡◌, refl, sym, ◌∙◌, true, false, List, [], length, All, ◌==◌,
  nat_eq, arith,
}
use iotd.Session.Types.{Instant, InflightMessage}
use iotd.Session.Effect.{Env, World, Stream, Action, IsChannel, message_capacity, ◌>>◌, pure}
use iotd.Session.Outbound.{retransmissions, on_retransmit}
use iotd.Session.Outbound.Retries.{
  HasTicks, IsDue, IsDue-HasTicks, HasTicks-zero, retransmissions-HasTicks, IsDup,
  retransmissions-Bounded,
}
use iotd.Session.Outbound.Resent.{
  Ends, bind-Ends, Holds, IsRead, at, read_mailbox, interval, on_retransmit-Ends, read_mailbox-Ends,
}

module _ {S : Type 0} (e : Env S) where
  -- A number of ticks from `t` on, one interval apart.
  unfoldable pub ticks : ℕ → Instant → Stream → Action S (Unit {0})
  ticks zero t writer = pure tt
  ticks (suc n) t writer = do
    on_retransmit (at e t) writer
    read_mailbox (at e t) writer
    ticks n (t + interval e) writer

module _ {S : Type 0} (e : Env S) (channel : IsChannel e) (writer : Stream)
    (writable : (n : ℕ) → e.accepts writer n ≡ true) (enabled : (interval e == 0) ≡ false)
    (bounded : e.config.max_retransmission_limit + 1 < 2 ^ 32) where
  at-IsChannel : (t : Instant) → IsChannel (at e t)
  at-IsChannel t = record { send-room = channel.send-room; send-full = channel.send-full }

  -- What the queue is to be before `n` more ticks.
  abbrev IsReady : ℕ → Instant → List InflightMessage → Type 0
  IsReady n t queue =
      All (HasTicks (interval e) e.config.max_retransmission_limit n t) queue
      × All IsDup queue
      × (length queue ≤ message_capacity)

  abbrev next : Instant → List InflightMessage → List InflightMessage
  next t queue = (retransmissions (interval e) e.config.max_retransmission_limit t queue).queue

  next-IsReady :
      (n : ℕ) (t : Instant) (queue : List InflightMessage)
      → IsReady (suc n) t queue
      → IsReady n (t + interval e) (next t queue)
  next-IsReady n t queue (has, dup, few) =
      let b = retransmissions-Bounded (interval e) e.config.max_retransmission_limit t queue dup in
      (
        retransmissions-HasTicks (interval e) e.config.max_retransmission_limit n t queue bounded
            has,
        b.queue_dup,
        (let fewer = b.queue_lem in omega arith),
      )

  ticks-Ends :
      (n : ℕ) (t : Instant) (queue : List InflightMessage) (w : World S)
      → IsReady n t queue
      → IsRead queue w
      → Ends (IsRead []) (ticks e n t writer) w
  unfolding ticks
  ticks-Ends zero t queue w ready h = (
    refl,
    (h.0 ∙ HasTicks-zero (interval e) e.config.max_retransmission_limit t queue ready.0, h.1),
  )
  ticks-Ends (suc n) t queue w ready h =
      bind-Ends (Holds (next t queue)) (IsRead []) (on_retransmit (at e t) writer)
        (read_mailbox (at e t) writer >> ticks e n (t + interval e) writer) w
        (rw (sym h.0) (
          on_retransmit-Ends (at e t) (at-IsChannel t) writer writable w enabled (rw h.0 ready.2)
            (rw h.0 ready.1) h.1))
        (λ w' held.
          bind-Ends (IsRead (next t queue)) (IsRead []) (read_mailbox (at e t) writer)
            (ticks e n (t + interval e) writer) w'
            (read_mailbox-Ends (at e t) (at-IsChannel t) writer writable (next t queue) w' held)
            (λ w'' read.
              ticks-Ends n (t + interval e) (next t queue) w'' (next-IsReady n t queue ready) read))

  -- Where retransmission is enabled, the stream takes every write, the mailbox is read, and at most as
  -- many messages are in flight as it holds, all marked as duplicates and due at `t`: then the tick at `t` and
  -- `limit` further ones, an interval apart, all return, with the mailbox read after each of them, and no
  -- message is in flight any more, although none was acknowledged. The limit is below the end of the
  -- 32-bit counter.
  pub ticks-limit :
      (t : Instant) (w : World S)
      → All (IsDue (interval e) e.config.max_retransmission_limit t) w.runtime.inflight_queue
      → All IsDup w.runtime.inflight_queue
      → length w.runtime.inflight_queue ≤ message_capacity
      → w.messages ≡ []
      → Ends (IsRead []) (ticks e (e.config.max_retransmission_limit + 1) t writer) w
  ticks-limit t w due dup few empty =
      ticks-Ends (e.config.max_retransmission_limit + 1) t w.runtime.inflight_queue w
        (
          IsDue-HasTicks (interval e) e.config.max_retransmission_limit t w.runtime.inflight_queue
              due,
          dup,
          few,
        )
        (refl, empty)
