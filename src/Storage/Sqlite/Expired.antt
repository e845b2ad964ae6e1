-- ===== src/Storage/Sqlite/Expired.antt =====
-- src/storage/sqlite.rs: `delete_expired_sessions`.
use mathlib.Core.List.{Permᴰ}
use iotd.Prelude.{
  beq_comm, Option, none, some, ◌≡◌, refl, sym, ◌∙◌, ap, List, [], ◌∷◌, Bytes, Bool, true, HashMap,
  remove, retain, contains, not, ◌&&◌, ◌==◌, bytes_eq, length, ℕ, arith, fun_ext,
}
use iotd.Prelude.Perm.{length-Permᴰ}
use iotd.Storage.Types.{DateTime}
use iotd.Storage.Trait.{OkElse}
use iotd.Storage.Sqlite.Rows.{Chrono}
use iotd.Storage.Sqlite.Database.{Sqlite, IsSqlite, Tables, Returns, expired_ids}
use iotd.Storage.Sqlite.Run.{of_result, reading, query, for_each, pure, ◌>>◌}
use iotd.Storage.Sqlite.Steps.{fold, Steps, bind-Steps, for_each-Makes, transaction-Atomic}
use iotd.Storage.Sqlite.Atomic.{forgotten, delete_client_data-Makes}
use iotd.Storage.Sqlite.Store.{delete_client_data, delete_expired_sessions}

-- No row of any of the clients is left.
abbrev pub purged : List Bytes → Tables → Tables
purged ids t = record t {
  sessions = retain (λ entry. not (contains entry.0 ids)) t.sessions;
  subscriptions = retain (λ row. not (contains row.client_id ids)) t.subscriptions;
  inflight = retain (λ row. not (contains row.client_id ids)) t.inflight;
  inbound = retain (λ row. not (contains row.client_id ids)) t.inbound;
}

module _ {A : Type 0} where
  retain_all : (xs : List A) → retain (λ _. true) xs ≡ xs
  retain_all [] = refl
  retain_all (x ∷ xs) = ap (◌∷◌ x) (retain_all xs)

  retain-retain :
      (p p' r : A → Bool)
      → ((x : A) → r x ≡ (p' x && p x))
      → (xs : List A) → retain p (retain p' xs) ≡ retain r xs
  retain-retain p p' r h [] = refl
  retain-retain p p' r h (x ∷ xs) = ground (arith, h x, retain-retain p p' r h xs)

-- Away with the first, then with the others.
not-contains-cons :
    (id : Bytes) (ids : List Bytes) (a : Bytes)
    → not (contains a (id ∷ ids)) ≡ (not (a == id) && not (contains a ids))
not-contains-cons id ids a = ground (arith, beq_comm id a)

retain-remove :
    {V : Type 0} (id : Bytes) (ids : List Bytes) (m : HashMap Bytes V)
    → retain (λ entry. not (contains entry.0 ids)) (remove id m)
      ≡ retain (λ entry. not (contains entry.0 (id ∷ ids))) m
unfolding remove
retain-remove id ids [] = refl
retain-remove id ids ((k, v) ∷ m) =
    ground (arith, not-contains-cons id ids k, retain-remove id ids m)

purged-nil : (t : Tables) → purged [] t ≡ t
purged-nil t =
    rw
      (
        retain_all t.sessions,
        retain_all t.subscriptions,
        retain_all t.inflight,
        retain_all t.inbound,
      )
      refl

purged-forgotten :
    (id : Bytes) (ids : List Bytes) (t : Tables) → purged ids (forgotten id t) ≡ purged (id ∷ ids) t
purged-forgotten id ids t =
    rw
      (
        retain-remove id ids t.sessions,
        retain-retain _ _ _ (λ row. not-contains-cons id ids row.client_id) t.subscriptions,
        retain-retain _ _ _ (λ row. not-contains-cons id ids row.client_id) t.inflight,
        retain-retain _ _ _ (λ row. not-contains-cons id ids row.client_id) t.inbound,
      )
      refl

fold-forgotten : (ids : List Bytes) (t : Tables) → fold forgotten ids t ≡ purged ids t
fold-forgotten [] t = sym (purged-nil t)
fold-forgotten (id ∷ ids) t = fold-forgotten ids (forgotten id t) ∙ purged-forgotten id ids t

-- The order of the identifiers does not matter.
contains-Permᴰ :
    {ids others : List Bytes} → Permᴰ ids others → (a : Bytes) → contains a ids ≡ contains a others
contains-Permᴰ Permᴰ.nil a = refl
contains-Permᴰ (Permᴰ.cons e p) a = rw (e, contains-Permᴰ p a) refl
contains-Permᴰ (Permᴰ.swap {a'} {b'} e f) a = rw (e, f) (ground arith)
contains-Permᴰ (Permᴰ.trans p r) a = contains-Permᴰ p a ∙ contains-Permᴰ r a

purged-Permᴰ :
    {ids others : List Bytes} → Permᴰ ids others → (t : Tables) → purged ids t ≡ purged others t
purged-Permᴰ p t =
    ap
      (λ away. record t {
        sessions = retain (λ entry. not (away entry.0)) t.sessions;
        subscriptions = retain (λ row. not (away row.client_id)) t.subscriptions;
        inflight = retain (λ row. not (away row.client_id)) t.inflight;
        inbound = retain (λ row. not (away row.client_id)) t.inbound;
      })
      (fun_ext (contains-Permᴰ p))

expired-rows :
    {A : Type 0} (P : A → Type 0) (t : Tables) (o : Option A)
    → Returns o P
    → OkElse (of_result o) (λ a. P a × (t ≡ t)) (Unit {0})
expired-rows P t none h = tt
expired-rows P t (some a) h = (h, refl)

module _ {D : Type 0} (c : Chrono) {q : Sqlite D} (l : IsSqlite q) where
  -- How many identifiers there are, and the tables without their rows.
  abbrev pub Purges : Bytes → ℕ → Tables → Tables → Type 0
  Purges older_than n t u =
      let ids = expired_ids older_than t.sessions in (n ≡ length ids) × (u ≡ purged ids t)

  delete_all-Steps :
      (ids : List Bytes)
      → Steps l
          (for_each (delete_client_data c q) ids >> pure (length ids))
          (λ n t u. (n ≡ length ids) × (u ≡ purged ids t))
  delete_all-Steps ids =
      bind-Steps l (λ _ t u. u ≡ fold forgotten ids t) (λ _ n t u. (n ≡ length ids) × (u ≡ t))
        (λ n t u. (n ≡ length ids) × (u ≡ purged ids t)) (for_each (delete_client_data c q) ids)
        (λ _. pure (length ids)) (for_each-Makes l (delete_client_data-Makes c l) ids).steps
        (λ _ d. (refl, (refl, refl))) (λ _ n t u v p r. (r.0, r.1 ∙ p ∙ fold-forgotten ids t))

  expired-Steps :
      (older_than : Bytes)
      → Steps l
          (reading (query (q.select_expired older_than)))
          (λ ids t u. Permᴰ ids (expired_ids older_than t.sessions) × (u ≡ t))
  unfolding query
  expired-Steps older_than d = (
    refl,
    expired-rows _ (l.tables d) (q.select_expired older_than d) (l.select_expired_lem older_than d),
  )

  -- `delete_expired_sessions` removes all rows of the clients whose session has an `updated_at` below the
  -- text of the date, and no others, and returns how many they are, or it fails and changes nothing.
  pub delete_expired_sessions-Atomic :
      (older_than : DateTime) (d : D)
      → OkElse
          (delete_expired_sessions c q older_than d).0
          (λ n.
            (n ≡ length (expired_ids (c.to_rfc3339 older_than) (l.tables d).sessions))
            × (l.tables (delete_expired_sessions c q older_than d).1
                ≡ purged
                    (expired_ids (c.to_rfc3339 older_than) (l.tables d).sessions)
                    (l.tables d)))
          (l.tables (delete_expired_sessions c q older_than d).1 ≡ l.tables d)
  unfolding delete_expired_sessions
  delete_expired_sessions-Atomic older_than =
      transaction-Atomic l (Purges (c.to_rfc3339 older_than)) _ (
        bind-Steps l
          (λ ids t u. Permᴰ ids (expired_ids (c.to_rfc3339 older_than) t.sessions) × (u ≡ t))
          (λ ids n t u. (n ≡ length ids) × (u ≡ purged ids t)) (Purges (c.to_rfc3339 older_than)) _
          _ (expired-Steps (c.to_rfc3339 older_than)) delete_all-Steps
          (λ ids n t u v p r.
            (r.0 ∙ length-Permᴰ p.0, r.1 ∙ ap (purged ids) p.1 ∙ purged-Permᴰ p.0 t)))
