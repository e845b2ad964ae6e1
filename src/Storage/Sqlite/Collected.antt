-- ===== src/Storage/Sqlite/Collected.antt =====
-- src/storage/sqlite.rs: reading the rows that a query returns, which come in some order.
use mathlib.Core.List.{Permᴰ}
use iotd.Prelude.{
  ◌≡◌, refl, sym, ◌∙◌, ap, subst, Option, none, some, Bool, not, List, [], ◌∷◌, ◌++◌, map, Bytes,
  retain, ◌==◌, bytes_eq, beq_refl, All, arith,
}
use iotd.Storage.Trait.{OkElse, StorageResult, ok, err}
use iotd.Storage.Sqlite.Database.{Returns}
use iotd.Storage.Sqlite.Run.{of_result}
use iotd.Storage.Sqlite.Store.{collect, first_row, and_then}

-- The rows of one client among those of all.
retain-others :
    {R : Type 0} (key : R → Bytes) (id : Bytes) (xs : List R)
    → retain (λ row. key row == id) (retain (λ row. not (key row == id)) xs) ≡ []
retain-others key id [] = refl
retain-others key id (x ∷ xs) = ground (arith, retain-others key id xs)

retain-append :
    {R : Type 0} (p : R → Bool) (xs ys : List R)
    → retain p (xs ++ ys) ≡ (retain p xs ++ retain p ys)
retain-append p [] ys = refl
retain-append p (x ∷ xs) ys = ground (arith, retain-append p xs ys)

retain-map :
    {A R : Type 0} (key : R → Bytes) (id : Bytes) (g : A → R) (xs : List A)
    → All (λ x. key (g x) ≡ id) xs
    → retain (λ row. key row == id) (map g xs) ≡ map g xs
retain-map key id g [] h = refl
retain-map key id g (x ∷ xs) (e, h) = rw (retain-map key id g xs h, e, beq_refl id) refl

own_rows :
    {A R : Type 0} (key : R → Bytes) (id : Bytes) (g : A → R) (rest : List R) (xs : List A)
    → All (λ x. key (g x) ≡ id) xs
    → retain (λ row. key row == id) (retain (λ row. not (key row == id)) rest ++ map g xs)
      ≡ map g xs
own_rows key id g rest xs h =
    retain-append _ (retain (λ row. not (key row == id)) rest) (map g xs)
    ∙ rw (retain-others key id rest, retain-map key id g xs h) refl

module _ {R A : Type 0} (f : R → StorageResult A) where
  collect-map :
      (g : A → R) (P : A → Type 0)
      → ((a : A) → P a → f (g a) ≡ ok a)
      → (xs : List A) → All P xs
      → collect f (map g xs) ≡ ok xs
  unfolding collect
  collect-map g P h [] p = refl
  collect-map g P h (x ∷ xs) (p, ps) = rw (h x p, collect-map g P h xs ps) refl

  -- A list of rows that is read, of which one is the first.
  abbrev Read : R → List R → List A → Type 0
  Read row rows l =
      (a : A) × ((tail : List A) × ((f row ≡ ok a) × ((collect f rows ≡ ok tail) × (l ≡ a ∷ tail))))

  collect-inversion :
      (row : R) (rows : List R) (l : List A) → collect f (row ∷ rows) ≡ ok l → Read row rows l
  unfolding collect
  collect-inversion row rows l e = split (f row) refl (collect f rows) refl
    where
      split :
          (r : StorageResult A)
          → f row ≡ r
          → (rs : StorageResult (List A)) → collect f rows ≡ rs
          → Read row rows l
      split (ok a) p (ok tail) r = (a, (tail, (p, (r, cc (e, p, r)))))
      split (ok a) p (err x) r = absurd (cc (e, p, r))
      split (err x) p rs r = absurd (cc (e, p))

  collect-nil : collect f [] ≡ ok []
  unfolding collect
  collect-nil = refl

  collect-nil_inversion : (l : List A) → collect f [] ≡ ok l → [] ≡ l
  unfolding collect
  collect-nil_inversion l e = cc e

  collect-cons :
      (row : R) (rows : List R) (a : A) (tail : List A)
      → f row ≡ ok a
      → collect f rows ≡ ok tail
      → collect f (row ∷ rows) ≡ ok (a ∷ tail)
  unfolding collect
  collect-cons row rows a tail p r = rw (collect, p, r) refl

  -- Rows in another order are read into the same values in another order.
  collect-Permᴰ :
      {rows others : List R}
      → Permᴰ rows others
      → (l : List A) → collect f others ≡ ok l
      → (k : List A) × ((collect f rows ≡ ok k) × Permᴰ k l)
  collect-Permᴰ Permᴰ.nil l e =
      ([], (collect-nil, subst (Permᴰ []) (collect-nil_inversion l e) Permᴰ.nil))
  collect-Permᴰ (Permᴰ.cons {a} {b} {l₁} {l₂} e p) l r =
      let (y, (ys, (fb, (fs, el)))) = collect-inversion b l₂ l r in
      let (k, (q, perm)) = collect-Permᴰ p ys fs in
      (
        y ∷ k,
        (
          collect-cons a l₁ y k (subst (λ x. f x ≡ ok y) (sym e) fb) q,
          subst (Permᴰ (y ∷ k)) (sym el) (Permᴰ.cons refl perm),
        ),
      )
  collect-Permᴰ (Permᴰ.swap {a} {b} {a'} {b'} {l = rest} e h) l r =
      let (y, (ys, (fa, (fs, el)))) = collect-inversion a' (b' ∷ rest) l r in
      let (z, (zs, (fb, (fr, ek)))) = collect-inversion b' rest ys fs in
      (
        z ∷ y ∷ zs,
        (
          collect-cons a (b ∷ rest) z (y ∷ zs) (subst (λ x. f x ≡ ok z) (sym e) fb)
              (collect-cons b rest y zs (subst (λ x. f x ≡ ok y) (sym h) fa) fr),
          subst (Permᴰ (z ∷ y ∷ zs)) (sym (el ∙ ap (◌∷◌ y) ek)) (Permᴰ.swap refl refl),
        ),
      )
  collect-Permᴰ (Permᴰ.trans p r) l e =
      let (k, (fk, pk)) = collect-Permᴰ r l e in
      let (j, (fj, pj)) = collect-Permᴰ p k fk in (j, (fj, Permᴰ.trans pj pk))

  -- A query for rows that hold these values, in some order.
  pub loaded :
      (g : A → R) (P : A → Type 0)
      → ((a : A) → P a → f (g a) ≡ ok a)
      → (xs : List A) → All P xs
      → (o : Option (List R)) → Returns o (λ rows. Permᴰ rows (map g xs))
      → OkElse (and_then (of_result o) (collect f)) (λ k. Permᴰ k xs) (o ≡ none)
  loaded g P h xs p none r = refl
  loaded g P h xs p (some rows) r =
      let (k, (e, perm)) = collect-Permᴰ r xs (collect-map g P h xs p) in
      subst (λ x. OkElse x (λ k. Permᴰ k xs) (some rows ≡ none)) (sym e) perm

  -- A query for the rows of one client, after they were replaced.
  pub own_loaded :
      (key : R → Bytes) (id : Bytes) (g : A → R) (P : A → Type 0)
      → ((a : A) → P a → f (g a) ≡ ok a)
      → (xs : List A) → All P xs
      → All (λ x. key (g x) ≡ id) xs
      → (rows rest : List R) → rows ≡ retain (λ row. not (key row == id)) rest ++ map g xs
      → (o : Option (List R)) → Returns o (λ k. Permᴰ k (retain (λ row. key row == id) rows))
      → OkElse (and_then (of_result o) (collect f)) (λ k. Permᴰ k xs) (o ≡ none)
  own_loaded key id g P back xs p keys rows rest e o r = loaded g P back xs p o (
      subst (λ x. Returns o (λ k. Permᴰ k x))
        (ap (retain (λ row. key row == id)) e ∙ own_rows key id g rest xs keys) r)

  loaded_one :
      (E : Type 0) (row : R) (a : A)
      → f row ≡ ok a
      → OkElse (first_row f (row ∷ [])) (λ y. y ≡ some a) E
  unfolding first_row
  loaded_one E row a e = rw (first_row, e) refl

  -- A query for the first row.
  pub loaded_first :
      (row : R) (a : A)
      → f row ≡ ok a
      → (o : Option (List R)) → Returns o (λ rows. rows ≡ row ∷ [])
      → OkElse (and_then (of_result o) (first_row f)) (λ x. x ≡ some a) (o ≡ none)
  loaded_first row a e none h = refl
  loaded_first row a e (some rows) h =
      subst (λ x. OkElse (first_row f x) (λ y. y ≡ some a) (some rows ≡ none)) (sym h)
        (loaded_one _ row a e)
