-- ===== src/Storage/Sqlite/Retained.antt =====
-- src/storage/sqlite.rs: the retained messages of `SqliteStorage` are a map from topics.
use mathlib.Core.List.{Permᴰ}
use iotd.Prelude.{
  ℕ, Bytes, ◌≡◌, refl, ◌∙◌, ap, subst, Option, none, some, List, [], ◌∷◌, map, length, HashMap, get,
  insert, remove, All, bytes_eq, arith, suc,
}
use iotd.Storage.Types.{PersistedRetainedMessage}
use iotd.Storage.Trait.{OkElse, OkElse_map, values}
use iotd.Storage.Refinement.{
  RetainedMap, RetainedCall, RetainedQuery, effect, effects, perform, perform_all, Shows, Refines,
  perform_all-Represents,
}
use iotd.Storage.Sqlite.Rows.{Chrono, RetainedRow, retained_row}
use iotd.Storage.Sqlite.Columns.{retained_of_row}
use iotd.Storage.Sqlite.Database.{Sqlite, IsSqlite, Returns, rows_at}
use iotd.Storage.Sqlite.Run.{of_result, query}
use iotd.Storage.Sqlite.Steps.{execute-Atomic}
use iotd.Storage.Sqlite.RoundTrip.{IsChrono, retained_of_row-back}
use iotd.Storage.Sqlite.Collected.{loaded}
use iotd.Storage.Sqlite.Store.{
  and_then, first_row, sqlite, save_retained_message, load_retained_message,
  load_all_retained_messages, delete_retained_message, count_retained_messages,
}

-- The table whose rows stand for the messages of a map.
unfoldable pub rows_of : {A B : Type 0} → (A → B) → HashMap Bytes A → HashMap Bytes B
rows_of f [] = []
rows_of f ((k, v) ∷ m) = (k, f v) ∷ rows_of f m

module _ {A B : Type 0} (f : A → B) where
  rows_of-insert :
      (k : Bytes) (v : A) (m : HashMap Bytes A)
      → insert k (f v) (rows_of f m) ≡ rows_of f (insert k v m)
  unfolding rows_of insert
  rows_of-insert k v [] = refl
  rows_of-insert k v ((j, w) ∷ m) = ground (arith, rows_of-insert k v m)

  rows_of-remove :
      (k : Bytes) (m : HashMap Bytes A) → remove k (rows_of f m) ≡ rows_of f (remove k m)
  unfolding rows_of remove
  rows_of-remove k [] = refl
  rows_of-remove k ((j, w) ∷ m) = ground (arith, rows_of-remove k m)

  abbrev row_of : Option A → Option B
  row_of none = none
  row_of (some a) = some (f a)

  get-rows_of : (k : Bytes) (m : HashMap Bytes A) → get k (rows_of f m) ≡ row_of (get k m)
  unfolding rows_of get
  get-rows_of k [] = refl
  get-rows_of k ((j, w) ∷ m) = ground (arith, get-rows_of k m)

  values-rows_of : (m : HashMap Bytes A) → values (rows_of f m) ≡ map f (values m)
  unfolding rows_of
  values-rows_of [] = refl
  values-rows_of ((j, w) ∷ m) = ap (◌∷◌ (f w)) (values-rows_of m)

  length-rows_of : (m : HashMap Bytes A) → length (rows_of f m) ≡ length m
  unfolding rows_of
  length-rows_of [] = refl
  length-rows_of ((j, w) ∷ m) = ap suc (length-rows_of m)

All-trivial : {A : Type 0} (xs : List A) → All (λ _. Unit {0}) xs
All-trivial [] = tt
All-trivial (x ∷ xs) = (tt, All-trivial xs)

module _ {D : Type 0} (c : Chrono) (h : IsChrono c) {q : Sqlite D} (l : IsSqlite q) where
  -- The table of the retained messages holds the rows of the messages of the map.
  abbrev pub Represents : D → RetainedMap → Type 0
  Represents d m = (l.tables d).retained ≡ rows_of (retained_row c) m

  -- A query fails only where its statement does.
  abbrev pub Fails : D → RetainedQuery → Type 0
  Fails d (RetainedQuery.load topic) = q.select_retained topic d ≡ none
  Fails d RetainedQuery.load_all = q.select_all_retained d ≡ none
  Fails d RetainedQuery.count = q.count_retained d ≡ none

  pub perform-Represents :
      (call : RetainedCall) (d : D) (m : RetainedMap)
      → Represents d m
      → OkElse
          (perform (sqlite c q) call d).0
          (λ _. Represents (perform (sqlite c q) call d).1 (effect call m))
          (Represents (perform (sqlite c q) call d).1 m)
  unfolding perform effect save_retained_message delete_retained_message retained_row
  perform-Represents (RetainedCall.save msg) d m e =
      OkElse_map (save_retained_message c q msg d).0
        (execute-Atomic l (l.upsert_retained_lem (retained_row c msg)) d)
        (λ _ u.
          ap (λ t. t.retained) u
          ∙ ap (insert msg.topic (retained_row c msg)) e
          ∙ rows_of-insert (retained_row c) msg.topic msg m)
        (λ u. ap (λ t. t.retained) u ∙ e)
  perform-Represents (RetainedCall.delete topic) d m e =
      OkElse_map (delete_retained_message c q topic d).0
        (execute-Atomic l (l.delete_retained_lem topic) d)
        (λ _ u.
          ap (λ t. t.retained) u ∙ ap (remove topic) e ∙ rows_of-remove (retained_row c) topic m)
        (λ u. ap (λ t. t.retained) u ∙ e)

  retained-shown :
      (o : Option PersistedRetainedMessage) (rows : Option (List RetainedRow))
      → Returns rows (λ k. k ≡ rows_at (row_of (retained_row c) o))
      → OkElse
          (and_then (of_result rows) (first_row (retained_of_row c)))
          (λ x. x ≡ o)
          (rows ≡ none)
  unfolding first_row
  retained-shown o none r = refl
  retained-shown none (some rows) r = rw (r, first_row) refl
  retained-shown (some msg) (some rows) r = rw (r, first_row, retained_of_row-back c h msg) refl

  count-shown :
      (m : RetainedMap) (o : Option ℕ)
      → Returns o (λ n. n ≡ length m)
      → OkElse (of_result o) (λ n. n ≡ length m) (o ≡ none)
  count-shown m none r = refl
  count-shown m (some n) r = r

  pub sqlite-Shows : (d : D) (m : RetainedMap) → Represents d m → Shows (sqlite c q) (Fails d) d m
  unfolding load_retained_message load_all_retained_messages count_retained_messages query
  sqlite-Shows d m e = (
    λ t. retained-shown (get t m) (q.select_retained t d) (
        subst (λ x. Returns (q.select_retained t d) (λ k. k ≡ rows_at x))
          (ap (get t) e ∙ get-rows_of (retained_row c) t m) (l.select_retained_lem t d)),
    (loaded (retained_of_row c) (retained_row c) (λ _. Unit) (λ msg _. retained_of_row-back c h msg)
        (values m) (All-trivial (values m)) (q.select_all_retained d)
        (subst (λ x. Returns (q.select_all_retained d) (λ k. Permᴰ k x))
          (ap values e ∙ values-rows_of (retained_row c) m) (l.select_all_retained_lem d))),
    count-shown m (q.count_retained d) (
        subst (λ x. Returns (q.count_retained d) (λ n. n ≡ x))
          (ap length e ∙ length-rows_of (retained_row c) m) (l.count_retained_lem d)),
  )

  abbrev pub sqlite-Refines : Refines (sqlite c q)
  sqlite-Refines = record {
    Represents = Represents;
    Fails = Fails;
    perform_lem = perform-Represents;
    shows_lem = sqlite-Shows;
  }

  -- After any calls, whatever of them failed, `SqliteStorage` shows the map that the successful ones
  -- make of the one that it represented: each query returns the map's answer, a list in some order, or
  -- fails because its statement does.
  pub sqlite-perform_all :
      (calls : List RetainedCall) (d : D) (m : RetainedMap)
      → Represents d m
      → Shows
          (sqlite c q)
          (Fails (perform_all (sqlite c q) calls d).1)
          (perform_all (sqlite c q) calls d).1
          (effects calls (perform_all (sqlite c q) calls d).0 m)
  sqlite-perform_all calls d m e =
      sqlite-Shows _ _ (perform_all-Represents (sqlite c q) sqlite-Refines calls d m e)
