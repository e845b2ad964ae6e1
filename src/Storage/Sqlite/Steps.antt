-- ===== src/Storage/Sqlite/Steps.antt =====
-- What calls of rusqlite do to the tables, put together: a chain, a loop and a transaction.
use iotd.Prelude.{
  ◌≡◌, refl, sym, subst, fun_ext, ◌∙◌, Option, none, some, List, [], ◌∷◌, bytes_eq, ap,
}
use iotd.Storage.Trait.{OkElse, OkElse_map, StorageResult, ok, err}
use iotd.Storage.Sqlite.Database.{Statement, Sqlite, IsSqlite, Tables, Changes, IfOk}
use iotd.Storage.Sqlite.Run.{
  Conn, of_result, execute, for_each, transaction, dropped, pure, ◌>>=◌, ◌>>◌,
}

abbrev pub fold : {A B : Type 0} → (A → B → B) → List A → B → B
fold g [] t = t
fold g (x ∷ xs) t = fold g xs (g x t)

module _ {D : Type 0} {q : Sqlite D} (l : IsSqlite q) where
  -- On success the result and the tables before and after are so related; the tables to which a
  -- rollback returns are the same after it, whatever it returns.
  abbrev pub Steps : {A : Type 0} → Conn D A → (A → Tables → Tables → Type 0) → Type 0
  Steps m P =
      (d : D)
      → (l.started (m d).1 ≡ l.started d)
        × OkElse (m d).0 (λ a. P a (l.tables d) (l.tables (m d).1)) (Unit {0})

  pub record Makes {A : Type 0} (m : Conn D A) (f : Tables → Tables) : Type 0 where
    pub steps : Steps m (λ _ t u. u ≡ f t)

  after_step :
      {A B : Type 0} {P : A → Tables → Tables → Type 0} {Q : A → B → Tables → Tables → Type 0}
      {R : B → Tables → Tables → Type 0} (k : A → Conn D B)
      → ((a : A) → Steps (k a) (Q a))
      → ((a : A) (b : B) (t u v : Tables) → P a t u → Q a b u v → R b t v)
      → (d : D) (r : StorageResult A × D)
      → (l.started r.1 ≡ l.started d) × OkElse r.0 (λ a. P a (l.tables d) (l.tables r.1)) (Unit {0})
      → (l.started (((λ _. r) >>= k) d).1 ≡ l.started d)
        × OkElse
            (((λ _. r) >>= k) d).0
            (λ b. R b (l.tables d) (l.tables (((λ _. r) >>= k) d).1))
            (Unit {0})
  after_step k sk chain d (ok a, e) (s, p) = (
    (sk a e).0 ∙ s,
    OkElse_map (k a e).0 (sk a e).1 (λ b. chain a b (l.tables d) (l.tables e) _ p) (λ u. u),
  )
  after_step k sk chain d (err x, e) (s, p) = (s, tt)

  pub bind-Steps :
      {A B : Type 0} (P : A → Tables → Tables → Type 0) (Q : A → B → Tables → Tables → Type 0)
      (R : B → Tables → Tables → Type 0) (m : Conn D A) (k : A → Conn D B)
      → Steps m P
      → ((a : A) → Steps (k a) (Q a))
      → ((a : A) (b : B) (t u v : Tables) → P a t u → Q a b u v → R b t v)
      → Steps (m >>= k) R
  bind-Steps P Q R m k sm sk chain d = after_step {P = P} {Q = Q} {R = R} k sk chain d (m d) (sm d)

  pub then-Makes :
      {A B : Type 0} {m : Conn D A} {k : Conn D B} {f g : Tables → Tables}
      → Makes m f
      → Makes k g
      → Makes (m >> k) (λ t. g (f t))
  then-Makes {m = m} {k = k} {f = f} {g = g} sm sk = record {
    steps =
        bind-Steps (λ _ t u. u ≡ f t) (λ _ _ t u. u ≡ g t) (λ _ t u. u ≡ g (f t)) m (λ _. k)
          sm.steps (λ _. sk.steps) (λ a b t u v p r. r ∙ ap g p);
  }

  execute_step :
      {A : Type 0} (f : Tables → Tables) (d : D) (r : Option A × D)
      → (l.started r.1 ≡ l.started d)
        × IfOk r.0 (l.tables r.1 ≡ l.tables d) (l.tables r.1 ≡ f (l.tables d))
      → (l.started r.1 ≡ l.started d)
        × OkElse (of_result r.0) (λ _. l.tables r.1 ≡ f (l.tables d)) (Unit {0})
  execute_step f d (none, e) h = (h.0, tt)
  execute_step f d (some a, e) h = h

  pub execute-Makes :
      {A : Type 0} {m : Statement D A} {f : Tables → Tables}
      → Changes l.tables l.started m f
      → Makes (execute m) f
  unfolding execute
  execute-Makes {m = m} {f = f} h = record { steps = λ d. execute_step f d (m d) (h.lem d) }

  pub for_each-Makes :
      {A : Type 0} {f : A → Conn D (Unit {0})} {g : A → Tables → Tables}
      → ((a : A) → Makes (f a) (g a))
      → (xs : List A) → Makes (for_each f xs) (fold g xs)
  unfolding for_each
  for_each-Makes h [] = record { steps = λ d. (refl, refl) }
  for_each-Makes h (x ∷ xs) = then-Makes (h x) (for_each-Makes h xs)

  pub Makes-congr :
      {A : Type 0} {m : Conn D A} {f g : Tables → Tables}
      → ((t : Tables) → f t ≡ g t)
      → Makes m f
      → Makes m g
  Makes-congr {m = m} e h = subst (Makes m) (fun_ext e) h

  -- The outcome of a call that is not within a transaction.
  abbrev pub Atomic : {A : Type 0} → Conn D A → (A → Tables → Tables → Type 0) → Type 0
  Atomic m P =
      (d : D)
      → OkElse (m d).0 (λ a. P a (l.tables d) (l.tables (m d).1)) (l.tables (m d).1 ≡ l.tables d)

  committed :
      {A : Type 0} (P : A → Tables → Tables → Type 0) (t : Tables) (d : D) (r : StorageResult A × D)
      → l.started d ≡ t
      → (l.started r.1 ≡ l.started d) × OkElse r.0 (λ a. P a t (l.tables r.1)) (Unit {0})
      → OkElse
          (dropped q r).0
          (λ a. P a t (l.tables (dropped q r).1))
          (l.tables (dropped q r).1 ≡ t)
  committed P t d (ok a, e) h (s, p) = p
  committed P t d (err x, e) h (s, p) = l.rollback_lem e ∙ s ∙ h

  begun :
      {A : Type 0} (P : A → Tables → Tables → Type 0) (body : Conn D A)
      → Steps body P
      → (d : D) (r : Option (Unit {0}) × D)
      → (l.tables r.1 ≡ l.tables d) × IfOk r.0 (Unit {0}) (l.started r.1 ≡ l.tables d)
      → OkElse
          (((λ _. (of_result r.0, r.1)) >> λ e. dropped q (body e)) d).0
          (λ a.
            P a
              (l.tables d)
              (l.tables (((λ _. (of_result r.0, r.1)) >> λ e. dropped q (body e)) d).1))
          (l.tables (((λ _. (of_result r.0, r.1)) >> λ e. dropped q (body e)) d).1 ≡ l.tables d)
  begun P body h d (none, e) (p, _) = p
  begun P body h d (some a, e) (p, s) =
      subst
        (λ t.
          OkElse (dropped q (body e)).0 (λ a. P a t (l.tables (dropped q (body e)).1))
            (l.tables (dropped q (body e)).1 ≡ t))
        p (committed P (l.tables e) e (body e) (s ∙ sym p) (h e))

  commit-Steps :
      {A : Type 0} (P : A → Tables → Tables → Type 0) (body : Conn D A)
      → Steps body P
      → Steps (body >>= λ a. execute q.commit >> pure a) P
  commit-Steps P body h =
      bind-Steps P (λ a b t u. (a ≡ b) × (u ≡ t)) P body (λ a. execute q.commit >> pure a) h
        (λ a.
          bind-Steps (λ _ t u. u ≡ t) (λ _ b t u. (a ≡ b) × (u ≡ t)) (λ b t u. (a ≡ b) × (u ≡ t))
            (execute q.commit) (λ _. pure a) (execute-Makes l.commit_lem).steps
            (λ _ d. (refl, (refl, refl))) (λ _ b t u v p r. (r.0, r.1 ∙ p)))
        (λ a b t u v p r. subst (λ x. P b t x) (sym r.1) (subst (λ x. P x t u) r.0 p))

  -- A transaction takes effect as a whole or not at all.
  pub transaction-Atomic :
      {A : Type 0} (P : A → Tables → Tables → Type 0) (body : Conn D A)
      → Steps body P
      → Atomic (transaction q body) P
  unfolding transaction execute
  transaction-Atomic P body h d =
      begun P (body >>= λ a. execute q.commit >> pure a) (commit-Steps P body h) d (q.begin d)
        (l.begin_lem d)

  alone :
      {A : Type 0} (f : Tables → Tables) (d : D) (r : Option A × D)
      → (l.started r.1 ≡ l.started d)
        × IfOk r.0 (l.tables r.1 ≡ l.tables d) (l.tables r.1 ≡ f (l.tables d))
      → OkElse (of_result r.0) (λ _. l.tables r.1 ≡ f (l.tables d)) (l.tables r.1 ≡ l.tables d)
  alone f d (none, e) h = h.1
  alone f d (some a, e) h = h.1

  -- A statement outside a transaction is one of its own.
  pub execute-Atomic :
      {A : Type 0} {m : Statement D A} {f : Tables → Tables}
      → Changes l.tables l.started m f
      → Atomic (execute m) (λ _ t u. u ≡ f t)
  unfolding execute
  execute-Atomic {m = m} {f = f} h d = alone f d (m d) (h.lem d)
