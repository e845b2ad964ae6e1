-- ===== src/Prelude/Perm.antt =====
-- Lists in another order, by a derivation that can be matched.
use Prim.Native.Nat.{suc, ◌≤◌}
use mathlib.Core.Path.{◌≡◌, refl, ap, ◌∙◌}
use mathlib.Core.Logic.{inl, inr}
use mathlib.Core.Bool.{Bool, true, false}
use mathlib.Core.List.{List, ◌∷◌, Permᴰ}
use mathlib.Core.List.Permᴰ
use native.Mathlib.Omega.{arith}
use iotd.Prelude.Tests.{if◌then◌else◌, Bool-cases}
use iotd.Prelude.Lists.{length, retain}

module _ {ℓ} {A : Type ℓ} where
  pub length-Permᴰ : {xs ys : List A} → Permᴰ xs ys → length xs ≡ length ys
  length-Permᴰ Permᴰ.nil = refl
  length-Permᴰ (Permᴰ.cons e p) = ap suc (length-Permᴰ p)
  length-Permᴰ (Permᴰ.swap e f) = refl
  length-Permᴰ (Permᴰ.trans p r) = length-Permᴰ p ∙ length-Permᴰ r

  -- A list of one element, or none, has one order.
  pub Permᴰ-single : {xs ys : List A} → Permᴰ xs ys → length ys ≤ 1 → xs ≡ ys
  Permᴰ-single Permᴰ.nil h = refl
  Permᴰ-single (Permᴰ.cons e p) h = rw (e, Permᴰ-single p (omega arith)) refl
  Permᴰ-single (Permᴰ.swap e f) h = absurd (omega arith)
  Permᴰ-single (Permᴰ.trans p r) h =
      Permᴰ-single p (omega (arith, length-Permᴰ r)) ∙ Permᴰ-single r h

  retain-cons :
      (test : A → Bool) (x : A) (xs ys : List A)
      → Permᴰ (retain test xs) (retain test ys)
      → Permᴰ (retain test (x ∷ xs)) (retain test (x ∷ ys))
  retain-cons test x xs ys p = elim (Bool-cases (test x)) [
    | inl y ↦ rw y (Permᴰ.cons refl p)
    | inr n ↦ rw n p
  ]

  retain-swap :
      (test : A → Bool) (a b : A) (xs : List A)
      → Permᴰ (retain test (a ∷ b ∷ xs)) (retain test (b ∷ a ∷ xs))
  retain-swap test a b xs = ordered (test a) (test b)
    where
      ordered :
          (p q : Bool)
          → Permᴰ
              (if p
                then a ∷ (if q then b ∷ retain test xs else retain test xs)
                else if q
                then b ∷ retain test xs
                else retain test xs)
              (if q
                then b ∷ (if p then a ∷ retain test xs else retain test xs)
                else if p
                then a ∷ retain test xs
                else retain test xs)
      ordered true true = Permᴰ.swap refl refl
      ordered true false = Permᴰ.refl _
      ordered false true = Permᴰ.refl _
      ordered false false = Permᴰ.refl _

  pub retain-Permᴰ :
      (test : A → Bool) {xs ys : List A} → Permᴰ xs ys → Permᴰ (retain test xs) (retain test ys)
  retain-Permᴰ test Permᴰ.nil = Permᴰ.nil
  retain-Permᴰ test (Permᴰ.cons {a} {l₁ = xs} {l₂ = ys} e p) =
      rw (← e) (retain-cons test a xs ys (retain-Permᴰ test p))
  retain-Permᴰ test (Permᴰ.swap {a} {b} {l = l} e f) = rw (← e) (rw (← f) (retain-swap test a b l))
  retain-Permᴰ test (Permᴰ.trans p r) = Permᴰ.trans (retain-Permᴰ test p) (retain-Permᴰ test r)
