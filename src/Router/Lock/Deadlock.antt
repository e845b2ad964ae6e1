-- ===== src/Router/Lock/Deadlock.antt =====
-- Two sessions in `route` of src/router.rs, each at the other's full mailbox.
use iotd.Prelude.{
  ℕ, ◌≤◌, ◌<◌, ◌≡◌, ◌≢◌, refl, sym, ◌∙◌, ap, subst, List, [], ◌∷◌, ◌++◌, length, length-append,
  ◌==◌, nat_eq, beq_refl, beq_ne, eq_of_beq, Bool-cases, inl, inr, arith,
}
use iotd.Storage.Trait.{Storage}
use iotd.Router.Route.{Delivery}
use iotd.Router.Lock.{Task, Sessions, mailbox_capacity, set, Step, Steps}

module _ {ℓ} {A : Type ℓ} where
  pub set_self : (i : ℕ) (a : A) (f : ℕ → A) → set i a f i ≡ a
  set_self i a f = rw (beq_refl i) refl

  pub set_other : (i j : ℕ) (a : A) (f : ℕ → A) → i ≢ j → set i a f j ≡ f j
  set_other i j a f h = rw (beq_ne i j h) refl

-- The session `i` waits for room in the mailbox of `j`.
pub record WaitsFor (s : Sessions) (i j : ℕ) : Type 0 where
  pub delivery : Delivery
  pub left : List Delivery
  pub task_lem : s.tasks i ≡ Task.routing (delivery ∷ left)
  pub sender_lem : delivery.sender ≡ j
  pub full : mailbox_capacity ≤ length (s.mailboxes j)

-- A session that waits for another one that does not end is not the one that moves.
abbrev IsKept : Sessions → Sessions → ℕ → Type 0
IsKept s t i = (t.tasks i ≡ s.tasks i) × (length (s.mailboxes i) ≤ length (t.mailboxes i))

not_idle : {left : List Delivery} {t : Task} → t ≡ Task.routing left → t ≢ Task.idle
not_idle h e = cc

routing_not_gone : {left : List Delivery} {t : Task} → t ≡ Task.routing left → t ≢ Task.gone
routing_not_gone h e = cc

routing-sender :
    {d d2 : Delivery} {left left2 : List Delivery} {t : Task}
    → t ≡ Task.routing (d ∷ left)
    → t ≡ Task.routing (d2 ∷ left2)
    → d.sender ≡ d2.sender
routing-sender h e = cc

routing_not_done :
    {d : Delivery} {left : List Delivery} {t : Task}
    → t ≡ Task.routing (d ∷ left)
    → t ≢ Task.routing []
routing_not_done h e = cc

below_full : {n : ℕ} → n < mailbox_capacity → ¬ (mailbox_capacity ≤ n)
below_full h e = omega arith

grows :
    {A : Type 0} (i j : ℕ) (x : A) (f : ℕ → List A)
    → length (f j) ≤ length (set i (f i ++ x ∷ []) f j)
grows i j x f = elim (Bool-cases (i == j)) [
  | inl same ↦ rw same (rw (eq_of_beq i j same) (rw (length-append (f j) (x ∷ [])) (omega arith)))
  | inr other ↦ rw other (omega arith)
]

module _ {S : Type 0} (st : Storage S) (s : Sessions) (a b : ℕ) (w : WaitsFor s a b)
    (v : WaitsFor s b a) where
  moves-other : (i : ℕ) → s.tasks i ≡ Task.idle → i ≢ a
  moves-other i e same = not_idle w.task_lem (ap s.tasks (sym same) ∙ e)

  -- `a` has no room at its first delivery.
  no_room :
      (i : ℕ) (d : Delivery) (left : List Delivery)
      → s.tasks i ≡ Task.routing (d ∷ left)
      → length (s.mailboxes d.sender) < mailbox_capacity
      → i ≢ a
  no_room i d left e room same =
      let to_b : d.sender ≡ b =
        routing-sender (ap s.tasks (sym same) ∙ e) w.task_lem ∙ w.sender_lem in
      absurd (below_full (subst (λ j. length (s.mailboxes j) < mailbox_capacity) to_b room) w.full)

  not_closed :
      (i : ℕ) (d : Delivery) (left : List Delivery)
      → s.tasks i ≡ Task.routing (d ∷ left)
      → s.tasks d.sender ≡ Task.gone
      → i ≢ a
  not_closed i d left e closed same =
      let to_b : d.sender ≡ b =
        routing-sender (ap s.tasks (sym same) ∙ e) w.task_lem ∙ w.sender_lem in
      routing_not_gone v.task_lem (ap s.tasks (sym to_b) ∙ closed)

  not_done : (i : ℕ) → s.tasks i ≡ Task.routing [] → i ≢ a
  not_done i e same = routing_not_done w.task_lem (ap s.tasks (sym same) ∙ e)

  Step-IsKept : {t : Sessions} → Step st s t → IsKept s t a
  Step-IsKept (Step.routes i packet valid e) =
      (set_other i a _ s.tasks (moves-other i e), omega arith)
  Step-IsKept (Step.sends i d left e room) =
      (set_other i a _ s.tasks (no_room i d left e room), grows d.sender a d.packet s.mailboxes)
  Step-IsKept (Step.skips i d left e closed) =
      (set_other i a _ s.tasks (not_closed i d left e closed), omega arith)
  Step-IsKept (Step.returns i e) = (set_other i a _ s.tasks (not_done i e), omega arith)
  Step-IsKept (Step.receives i p rest e has) = (
    refl,
    subst (λ mail. length (s.mailboxes a) ≤ length mail)
        (sym (set_other i a rest s.mailboxes (moves-other i e))) (omega arith),
  )
  Step-IsKept (Step.ends i e) = (set_other i a _ s.tasks (moves-other i e), omega arith)
  Step-IsKept (Step.writes i e free change) = absurd (free a _ w.task_lem)

  Step-router : {t : Sessions} → Step st s t → t.router ≡ s.router
  Step-router (Step.routes i packet valid e) = refl
  Step-router (Step.sends i d left e room) = refl
  Step-router (Step.skips i d left e closed) = refl
  Step-router (Step.returns i e) = refl
  Step-router (Step.receives i p rest e has) = refl
  Step-router (Step.ends i e) = refl
  Step-router (Step.writes i e free change) = absurd (free a _ w.task_lem)

-- No session's step ends the wait.
WaitsFor-IsKept :
    {s t : Sessions} {i j : ℕ} → WaitsFor s i j → IsKept s t i → IsKept s t j → WaitsFor t i j
WaitsFor-IsKept w k l = record {
  delivery = w.delivery;
  left = w.left;
  task_lem = k.0 ∙ w.task_lem;
  sender_lem = w.sender_lem;
  full = let more = l.1 in let full = w.full in omega arith;
}

record IsStuck (s t : Sessions) (a b : ℕ) : Type 0 where
  waits : WaitsFor t a b
  waits_back : WaitsFor t b a
  task_lem : t.tasks a ≡ s.tasks a
  task_back : t.tasks b ≡ s.tasks b
  router_lem : t.router ≡ s.router

module _ {S : Type 0} (st : Storage S) (s : Sessions) (a b : ℕ) where
  Step-IsStuck : {t u : Sessions} → IsStuck s t a b → Step st t u → IsStuck s u a b
  Step-IsStuck {t} k step =
      let kept = Step-IsKept st t a b k.waits k.waits_back step in
      let kept_back = Step-IsKept st t b a k.waits_back k.waits step in
      record {
        waits = WaitsFor-IsKept k.waits kept kept_back;
        waits_back = WaitsFor-IsKept k.waits_back kept_back kept;
        task_lem = kept.0 ∙ k.task_lem;
        task_back = kept_back.0 ∙ k.task_back;
        router_lem = Step-router st t a b k.waits k.waits_back step ∙ k.router_lem;
      }

  Steps-IsStuck : {t : Sessions} → WaitsFor s a b → WaitsFor s b a → Steps st s t → IsStuck s t a b
  Steps-IsStuck w v Steps.here = record {
    waits = w;
    waits_back = v;
    task_lem = refl;
    task_back = refl;
    router_lem = refl;
  }
  Steps-IsStuck w v (Steps.next before last) = Step-IsStuck (Steps-IsStuck w v before) last

  -- Two sessions of which each one waits in `route` for room in the other's full mailbox wait for ever, and
  -- nobody changes the router again: no SUBSCRIBE, no UNSUBSCRIBE and no end of a session gets the lock.
  pub Steps-stuck :
      {t : Sessions}
      → WaitsFor s a b
      → WaitsFor s b a
      → Steps st s t
      → (t.tasks a ≡ s.tasks a) × (t.tasks b ≡ s.tasks b) × (t.router ≡ s.router)
  Steps-stuck w v steps = let k = Steps-IsStuck w v steps in (k.task_lem, k.task_back, k.router_lem)
