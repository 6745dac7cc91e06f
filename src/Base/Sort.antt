-- ===== src/Base/Sort.antt =====
-- Go's `sort.Slice` as the program uses it: some sorted permutation of its input. An insertion
-- sort shows that there is one.
use Prim.Native.Nat.{ℕ}
use mathlib.Core.Path.{◌≡◌, refl, ◌∙◌}
use mathlib.Core.Logic.{inl, inr, ∥∥₁_elim}
use mathlib.Core.Bool.{Bool, true, false}
use mathlib.Core.List.{List, [], ◌∷◌, Perm, Permᴰ}
use mathlib.Core.List.Perm
use native.Mathlib.Omega.{arith}
use native.Mathlib.Nat.{ℕ_set}
use probatorium.Base.Tests.{if◌then◌else◌, Bool-cases}
use probatorium.Base.Lists.{All, All-map, count, sum}

module _ {ℓ} {A : Type ℓ} where
  -- No item stands behind one that is less than it; `less` is the comparison handed to the sort.
  abbrev pub Sorted : (A → A → Bool) → List A → Type 0
  Sorted less [] = Unit
  Sorted less (x ∷ xs) = All (λ y. less y x ≡ false) xs × Sorted less xs

  pub record IsSort (less : A → A → Bool) (sort : List A → List A) : Type ℓ where
    pub perm : (xs : List A) → Perm (sort xs) xs
    pub sorted : (xs : List A) → Sorted less (sort xs)

  count-Permᴰ : (p : A → Bool) {xs ys : List A} → Permᴰ xs ys → count p xs ≡ count p ys
  count-Permᴰ p Permᴰ.nil = refl
  count-Permᴰ p (Permᴰ.cons e d) = ground (arith, count-Permᴰ p d, e)
  count-Permᴰ p (Permᴰ.swap e f) = ground (arith, e, f)
  count-Permᴰ p (Permᴰ.trans d e) = count-Permᴰ p d ∙ count-Permᴰ p e

  -- What is counted does not depend on the order.
  pub count-Perm : (p : A → Bool) {xs ys : List A} → Perm xs ys → count p xs ≡ count p ys
  count-Perm p h = ∥∥₁_elim h (ℕ_set _ _) (count-Permᴰ p)

  sum-Permᴰ : (f : A → ℕ) {xs ys : List A} → Permᴰ xs ys → sum f xs ≡ sum f ys
  sum-Permᴰ f Permᴰ.nil = refl
  sum-Permᴰ f (Permᴰ.cons e d) = ground (arith, sum-Permᴰ f d, e)
  sum-Permᴰ f (Permᴰ.swap e g) = ground (arith, e, g)
  sum-Permᴰ f (Permᴰ.trans d e) = sum-Permᴰ f d ∙ sum-Permᴰ f e

  -- Neither does a sum.
  pub sum-Perm : (f : A → ℕ) {xs ys : List A} → Perm xs ys → sum f xs ≡ sum f ys
  sum-Perm f h = ∥∥₁_elim h (ℕ_set _ _) (sum-Permᴰ f)

  insert_by : (A → A → Bool) → A → List A → List A
  insert_by less x [] = x ∷ []
  insert_by less x (y ∷ ys) =
      let later = insert_by less x ys in if less y x then y ∷ later else x ∷ y ∷ ys

  unfoldable pub insertion_sort : (A → A → Bool) → List A → List A
  unfolding insert_by
  insertion_sort less [] = []
  insertion_sort less (x ∷ xs) = insert_by less x (insertion_sort less xs)

  insert_by-perm : (less : A → A → Bool) (x : A) (xs : List A) → Perm (insert_by less x xs) (x ∷ xs)
  unfolding insert_by
  insert_by-perm less x [] = Perm.refl (x ∷ [])
  insert_by-perm less x (y ∷ ys) =
      let moved = Perm.trans (Perm.cons y (insert_by-perm less x ys)) (Perm.swap x y ys) in
      elim (Bool-cases (less y x)) [ inl h ↦ rw h moved | inr h ↦ rw h (Perm.refl (x ∷ y ∷ ys)) ]

  pub insertion_sort-perm : (less : A → A → Bool) (xs : List A) → Perm (insertion_sort less xs) xs
  unfolding insertion_sort
  insertion_sort-perm less [] = Perm.refl []
  insertion_sort-perm less (x ∷ xs) =
      Perm.trans (insert_by-perm less x (insertion_sort less xs))
        (Perm.cons x (insertion_sort-perm less xs))

-- `less` is a strict weak order: an item that is not less than a second, which is not less than
-- a third, is not less than the third.
module _ {ℓ} {A : Type ℓ} (less : A → A → Bool)
    (asym : (x y : A) → less x y ≡ true → less y x ≡ false)
    (trans : (x y z : A) → less y x ≡ false → less z y ≡ false → less z x ≡ false) where
  All-insert_by :
      (P : A → Type 0) (x : A) (xs : List A) → P x → All P xs → All P (insert_by less x xs)
  unfolding insert_by
  All-insert_by P x [] px all = (px, tt)
  All-insert_by P x (y ∷ ys) px all = ground (arith, All-insert_by P x ys px all.1)

  insert_by-Sorted : (x : A) (xs : List A) → Sorted less xs → Sorted less (insert_by less x xs)
  unfolding insert_by
  insert_by-Sorted x [] s = (tt, tt)
  insert_by-Sorted x (y ∷ ys) s = elim (Bool-cases (less y x)) [
    | inl h ↦
        rw h
          (All-insert_by (λ z. less z y ≡ false) x ys (asym y x h) s.0, insert_by-Sorted x ys s.1)
    | inr h ↦ rw h (
      (h, All-map (λ z. less z y ≡ false) (λ z. less z x ≡ false) ys (λ z k. trans x y z h k) s.0),
      s,
    )
  ]

  insertion_sort-Sorted : (xs : List A) → Sorted less (insertion_sort less xs)
  unfolding insertion_sort
  insertion_sort-Sorted [] = tt
  insertion_sort-Sorted (x ∷ xs) =
      insert_by-Sorted x (insertion_sort less xs) (insertion_sort-Sorted xs)

  pub insertion_sort-IsSort : IsSort less (insertion_sort less)
  insertion_sort-IsSort = record { perm = insertion_sort-perm less; sorted = insertion_sort-Sorted }
