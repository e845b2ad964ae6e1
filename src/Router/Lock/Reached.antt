-- ===== src/Router/Lock/Reached.antt =====
-- How two sessions of src/router.rs come to wait for each other: each one publishes what only the other
-- receives, and neither reads.
use iotd.Prelude.{
  ℕ, zero, suc, ◌+◌, ◌≤◌, ◌<◌, ◌≡◌, ◌≢◌, refl, sym, ◌∙◌, ap, subst, List, [], ◌∷◌, ◌++◌, length,
  length-append, arith, ◌⊎◌, inl, inr, Bool-cases, leb, true,
}
use iotd.Protocol.Packet.{PublishPacket}
use iotd.Storage.Trait.{Storage}
use iotd.Router.Topic.{validate_publish_topic}
use iotd.Router.Route.{Delivery, deliveries}
use iotd.Router.Lock.{Task, Sessions, mailbox_capacity, set, Step, Steps}
use iotd.Router.Lock.Deadlock.{WaitsFor, set_self, set_other}

Steps-append :
    {S : Type 0} {st : Storage S} {s t u : Sessions} → Steps st s t → Steps st t u → Steps st s u
Steps-append first Steps.here = first
Steps-append first (Steps.next rest last) = Steps.next (Steps-append first rest) last

-- What `a` publishes goes to `b` alone.
pub record Publishes (s : Sessions) (a b : ℕ) : Type 0 where
  pub packet : PublishPacket
  pub valid : validate_publish_topic packet.topic ≡ true
  pub delivery : Delivery
  pub deliveries_lem : deliveries packet s.router.filters ≡ delivery ∷ []
  pub sender_lem : delivery.sender ≡ b

-- `a` has put some packets in the mailbox of `b`, and is between two calls again.
record Sent {S : Type 0} (st : Storage S) (s : Sessions) (a b count : ℕ) : Type 0 where
  after : Sessions
  steps : Steps st s after
  idle_lem : after.tasks a ≡ Task.idle
  task_lem : after.tasks b ≡ s.tasks b
  router_lem : after.router ≡ s.router
  own_lem : after.mailboxes a ≡ s.mailboxes a
  count_lem : count ≤ length (after.mailboxes b)

set_found : {A : Type 0} (i j : ℕ) (x : A) (f : ℕ → A) → i ≡ j → set i x f j ≡ x
set_found i j x f same = subst (λ k. set i x f k ≡ x) same (set_self i x f)

≤-or-< : (m n : ℕ) → (m ≤ n) ⊎ (n < m)
≤-or-< m n = elim (Bool-cases (leb m n)) [
  | inl le ↦ inl (ground arith)
  | inr n_less ↦ inr (ground arith)
]

one_more :
    {A : Type 0} (i j : ℕ) (x : A) (f : ℕ → List A)
    → i ≡ j
    → suc (length (f j)) ≤ length (set i (f i ++ x ∷ []) f j)
one_more i j x f same =
    rw (set_found i j (f i ++ x ∷ []) f same)
      (rw (length-append (f i) (x ∷ [])) (rw (sym same) (omega arith)))

after_router : {s t : Sessions} (i j : ℕ) → t.router ≡ s.router → Publishes s i j → Publishes t i j
after_router i j same p = record {
  packet = p.packet;
  valid = p.valid;
  delivery = p.delivery;
  deliveries_lem = ap (λ r. deliveries p.packet r.filters) same ∙ p.deliveries_lem;
  sender_lem = p.sender_lem;
}

module _ {S : Type 0} (st : Storage S) (a b : ℕ) (differ : a ≢ b) where
  -- One call of `route`: it takes the lock, sends, and gives the lock back.
  send_one :
      (s : Sessions)
      → Publishes s a b
      → s.tasks a ≡ Task.idle
      → length (s.mailboxes b) < mailbox_capacity
      → Sent st s a b (suc (length (s.mailboxes b)))
  send_one s p idle room =
      let d : Delivery = p.delivery in
      let tasks1 : ℕ → Task = set a (Task.routing (deliveries p.packet s.router.filters)) s.tasks in
      let tasks2 : ℕ → Task = set a (Task.routing []) tasks1 in
      let tasks3 : ℕ → Task = set a Task.idle tasks2 in
      let mailboxes2 : ℕ → List PublishPacket =
        set d.sender (s.mailboxes d.sender ++ d.packet ∷ []) s.mailboxes in
      let s1 : Sessions = record s { tasks = tasks1 } in
      let s2 : Sessions = record s { tasks = tasks2; mailboxes = mailboxes2 } in
      let s3 : Sessions = record s { tasks = tasks3; mailboxes = mailboxes2 } in
      let routing : Step st s s1 = Step.routes a p.packet p.valid idle in
      let sending : Step st s1 s2 =
        Step.sends a d [] (set_self a _ s.tasks ∙ ap Task.routing p.deliveries_lem)
          (subst (λ j. length (s.mailboxes j) < mailbox_capacity) (sym p.sender_lem) room) in
      let returning : Step st s2 s3 = Step.returns a (set_self a _ tasks1) in
      record {
        after = s3;
        steps = Steps.next (Steps.next (Steps.next Steps.here routing) sending) returning;
        idle_lem = set_self a _ tasks2;
        task_lem =
            set_other a b _ tasks2 differ
            ∙ set_other a b _ tasks1 differ
            ∙ set_other a b _ s.tasks differ;
        router_lem = refl;
        own_lem =
            set_other d.sender a _ s.mailboxes (λ same. differ (sym (sym p.sender_lem ∙ same)));
        count_lem = one_more d.sender b d.packet s.mailboxes p.sender_lem;
      }

  then_fill :
      (s : Sessions) {m n : ℕ} (one : Sent st s a b m) → Sent st one.after a b n → Sent st s a b n
  then_fill s one more = record {
    after = more.after;
    steps = Steps-append one.steps more.steps;
    idle_lem = more.idle_lem;
    task_lem = more.task_lem ∙ one.task_lem;
    router_lem = more.router_lem ∙ one.router_lem;
    own_lem = more.own_lem ∙ one.own_lem;
    count_lem = more.count_lem;
  }

  -- `a` goes on until the mailbox of `b` is full.
  fill :
      (k : ℕ) (s : Sessions)
      → Publishes s a b
      → s.tasks a ≡ Task.idle
      → mailbox_capacity ≤ k + length (s.mailboxes b)
      → Sent st s a b mailbox_capacity
  fill zero s p idle bound = record {
    after = s;
    steps = Steps.here;
    idle_lem = idle;
    task_lem = refl;
    router_lem = refl;
    own_lem = refl;
    count_lem = omega (arith, bound);
  }
  fill (suc k) s p idle bound = elim (≤-or-< mailbox_capacity (k + length (s.mailboxes b))) [
    | inl less ↦ fill k s p idle less
    | inr room ↦
        let one = send_one s p idle (omega arith) in
        then_fill s one (
          fill k one.after (after_router a b one.router_lem p) one.idle_lem
            (let count = one.count_lem in omega arith))
  ]

module _ {S : Type 0} (st : Storage S) (a b : ℕ) (differ : a ≢ b) where
  -- With both mailboxes full, both publish once more.
  both_publish :
      (s : Sessions)
      → Publishes s a b
      → Publishes s b a
      → s.tasks a ≡ Task.idle
      → s.tasks b ≡ Task.idle
      → mailbox_capacity ≤ length (s.mailboxes b)
      → mailbox_capacity ≤ length (s.mailboxes a)
      → (t : Sessions) × Steps st s t × WaitsFor t a b × WaitsFor t b a
  both_publish s p q idle_a idle_b full_b full_a =
      let tasks1 : ℕ → Task = set a (Task.routing (deliveries p.packet s.router.filters)) s.tasks in
      let tasks2 : ℕ → Task = set b (Task.routing (deliveries q.packet s.router.filters)) tasks1 in
      let s1 : Sessions = record s { tasks = tasks1 } in
      let s2 : Sessions = record s { tasks = tasks2 } in
      let first : Step st s s1 = Step.routes a p.packet p.valid idle_a in
      let second : Step st s1 s2 =
        Step.routes b q.packet q.valid (set_other a b _ s.tasks differ ∙ idle_b) in
      (
        s2,
        Steps.next (Steps.next Steps.here first) second,
        record {
          delivery = p.delivery;
          left = [];
          task_lem =
              set_other b a _ tasks1 (λ same. differ (sym same))
              ∙ set_self a _ s.tasks
              ∙ ap Task.routing p.deliveries_lem;
          sender_lem = p.sender_lem;
          full = full_b;
        },
        record {
          delivery = q.delivery;
          left = [];
          task_lem = set_self b _ tasks1 ∙ ap Task.routing q.deliveries_lem;
          sender_lem = q.sender_lem;
          full = full_a;
        },
      )

  -- Two sessions between two calls, each of which has a packet to publish that goes to the other one alone,
  -- can come to wait for each other, each one in `route` at the other's full mailbox.
  pub can_wait :
      (s : Sessions)
      → Publishes s a b
      → Publishes s b a
      → s.tasks a ≡ Task.idle
      → s.tasks b ≡ Task.idle
      → (t : Sessions) × Steps st s t × WaitsFor t a b × WaitsFor t b a
  can_wait s p q idle_a idle_b =
      let one = fill st a b differ mailbox_capacity s p idle_a (omega arith) in
      let two =
        fill st b a (λ same. differ (sym same)) mailbox_capacity one.after
          (after_router b a one.router_lem q) (one.task_lem ∙ idle_b) (omega arith) in
      let same_router : two.after.router ≡ s.router = two.router_lem ∙ one.router_lem in
      let last =
        both_publish two.after (after_router a b same_router p) (after_router b a same_router q)
          (two.task_lem ∙ one.idle_lem) two.idle_lem
          (subst (λ mail. mailbox_capacity ≤ length mail) (sym two.own_lem) one.count_lem)
          two.count_lem in
      (last.0, Steps-append (Steps-append one.steps two.steps) last.1, last.2, last.3)
