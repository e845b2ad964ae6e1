-- ===== src/Storage/Sqlite/Run.antt =====
-- src/storage/sqlite.rs: calls of rusqlite one after the other, where `?` leaves at the first error, and
-- a transaction, which is rolled back when it is dropped before its commit has succeeded.
use iotd.Prelude.{Option, none, some, List, [], ◌∷◌}
use iotd.Storage.Trait.{StorageError, StorageResult, ok, err}
use iotd.Storage.Sqlite.Database.{Statement, Sqlite}

abbrev pub Conn {ℓ} : Type 0 → Type ℓ → Type ℓ
Conn D A = D → StorageResult A × D

-- `?` on a result of rusqlite.
abbrev pub of_result {ℓ} : {A : Type ℓ} → Option A → StorageResult A
of_result none = err StorageError.internal
of_result (some a) = ok a

module _ {D : Type 0} where
  -- `stmt.execute(..)?`
  unfoldable pub execute : {A : Type 0} → Statement D A → Conn D A
  execute m d = (of_result (m d).0, (m d).1)

  -- `stmt.query(..)?` with all of its rows
  unfoldable pub query : {A : Type 0} → (D → Option A) → D → StorageResult A
  query m d = of_result (m d)

  infixl 10 ◌>>=◌
  abbrev pub ◌>>=◌ {ℓ κ} : {A : Type ℓ} {B : Type κ} → Conn D A → (A → Conn D B) → Conn D B
  (m >>= k) d = elim (m d).0 [ ok a ↦ k a (m d).1 | err e ↦ (err e, (m d).1) ]

  infixl 10 ◌>>◌
  abbrev pub ◌>>◌ {ℓ κ} : {A : Type ℓ} {B : Type κ} → Conn D A → Conn D B → Conn D B
  m >> k = m >>= λ _. k

  abbrev pub pure {ℓ} : {A : Type ℓ} → A → Conn D A
  pure a d = (ok a, d)

  -- A query within a transaction.
  abbrev pub reading {ℓ} : {A : Type ℓ} → (D → StorageResult A) → Conn D A
  reading m d = (m d, d)

  -- `for x in xs { f(x)?; }`
  unfoldable pub for_each : {A : Type 0} → (A → Conn D (Unit {0})) → List A → Conn D (Unit {0})
  for_each f [] = pure tt
  for_each f (x ∷ xs) = do f x; for_each f xs

  -- The drop of a transaction: rusqlite rolls it back unless it was committed.
  abbrev pub dropped {ℓ} : {A : Type ℓ} → Sqlite D → StorageResult A × D → StorageResult A × D
  dropped q (ok a, d) = (ok a, d)
  dropped q (err e, d) = (err e, q.rollback d)

  -- `let tx = conn.transaction()?; .. tx.commit()?; Ok(..)`
  unfoldable pub transaction {ℓ} : {A : Type ℓ} → Sqlite D → Conn D A → Conn D A
  transaction q body = do
    execute q.begin
    λ d. dropped q ((do a ← body; execute q.commit; pure a) d)
