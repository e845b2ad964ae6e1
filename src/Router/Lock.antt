-- ===== src/Router/Lock.antt =====
-- The lock of src/router.rs among the sessions: `route` keeps the read lock while it waits for room in a
-- mailbox, and the other methods want the write lock. A session is named by its mailbox, which it reads
-- itself, between two calls.
pub mod Deadlock
pub mod Reached
mod Tests
use iotd.Prelude.{
  ℕ, true, ◌≡◌, ◌≢◌, ◌<◌, Bytes, List, [], ◌∷◌, ◌++◌, length, ◌==◌, nat_eq, if◌then◌else◌,
}
use iotd.Protocol.Packet.{PublishPacket}
use iotd.Storage.Trait.{Storage}
use iotd.Router.Index.{RouterInternal}
use iotd.Router.Topic.{validate_publish_topic}
use iotd.Router.Route.{Delivery, deliveries}
use iotd.Router.Lifecycle as Lifecycle

-- Between two calls, in `route` with these sends left, or ended, with its mailbox closed.
pub data Task : Type 0 where
  idle gone : Task
  routing : List Delivery → Task

pub record Sessions : Type 0 where
  pub router : RouterInternal
  pub tasks : ℕ → Task
  pub mailboxes : ℕ → List PublishPacket

-- The bound of a session's mailbox.
abbrev pub mailbox_capacity : ℕ
mailbox_capacity = 100

abbrev pub set {ℓ} : {A : Type ℓ} → ℕ → A → (ℕ → A) → ℕ → A
set i a f j = if i == j then a else f j

-- Nobody holds the read lock.
abbrev pub IsFree : Sessions → Type 0
IsFree s = (i : ℕ) (left : List Delivery) → s.tasks i ≢ Task.routing left

pub data Step {S : Type 0} (st : Storage S) (s : Sessions) : Sessions → Type 0 where
  -- `route` takes the read lock and finds the subscribers; with a wrong topic it returns at once.
  routes :
      (i : ℕ) (packet : PublishPacket)
      → validate_publish_topic packet.topic ≡ true
      → s.tasks i ≡ Task.idle
      → Step st s
          (record s { tasks = set i (Task.routing (deliveries packet s.router.filters)) s.tasks })
  sends :
      (i : ℕ) (d : Delivery) (left : List Delivery)
      → s.tasks i ≡ Task.routing (d ∷ left)
      → length (s.mailboxes d.sender) < mailbox_capacity
      → Step st s (record s {
        tasks = set i (Task.routing left) s.tasks;
        mailboxes = set d.sender (s.mailboxes d.sender ++ d.packet ∷ []) s.mailboxes;
      })
  -- The receiver is gone, which is only logged.
  skips :
      (i : ℕ) (d : Delivery) (left : List Delivery)
      → s.tasks i ≡ Task.routing (d ∷ left)
      → s.tasks d.sender ≡ Task.gone
      → Step st s (record s { tasks = set i (Task.routing left) s.tasks })
  returns :
      (i : ℕ)
      → s.tasks i ≡ Task.routing []
      → Step st s (record s { tasks = set i Task.idle s.tasks })
  -- `self.message_rx.recv()` in the session's own loop.
  receives :
      (i : ℕ) (p : PublishPacket) (rest : List PublishPacket)
      → s.tasks i ≡ Task.idle
      → s.mailboxes i ≡ p ∷ rest
      → Step st s (record s { mailboxes = set i rest s.mailboxes })
  ends : (i : ℕ) → s.tasks i ≡ Task.idle → Step st s (record s { tasks = set i Task.gone s.tasks })
  -- SUBSCRIBE, UNSUBSCRIBE, or the end of a session, under the write lock.
  writes :
      {r : RouterInternal} (i : ℕ)
      → s.tasks i ≡ Task.idle
      → IsFree s
      → Lifecycle.Step st s.router r
      → Step st s (record s { router = r })

pub data Steps {S : Type 0} (st : Storage S) (s : Sessions) : Sessions → Type 0 where
  here : Steps st s s
  next : {t u : Sessions} → Steps st s t → Step st t u → Steps st s u
