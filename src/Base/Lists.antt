-- ===== src/Base/Lists.antt =====
-- Lists measured by native numbers, and predicates on all items of a list.
use Prim.Native.Nat.{ℕ, zero, suc, ◌+◌, ◌<◌}
use mathlib.Core.Logic.{◌↔◌}
use mathlib.Core.Path.{◌≡◌, refl, ap}
use mathlib.Core.List.{List, [], ◌∷◌, ◌++◌, map}
use mathlib.Core.Option.{Option, none, some}
use native.Mathlib.Omega.{arith}
use mathlib.Core.Bool.{Bool, true, false}
use probatorium.Base.Tests.{if◌then◌else◌}

module _ {ℓ} {A : Type ℓ} where
  abbrev pub length : List A → ℕ
  length [] = 0
  length (x ∷ xs) = suc (length xs)

  abbrev pub get_elem? : List A → ℕ → Option A
  get_elem? [] i = none
  get_elem? (x ∷ xs) zero = some x
  get_elem? (x ∷ xs) (suc i) = get_elem? xs i

  abbrev pub take : ℕ → List A → List A
  take zero xs = []
  take (suc n) [] = []
  take (suc n) (x ∷ xs) = x ∷ take n xs

  abbrev pub is_nil : List A → Bool
  is_nil [] = true
  is_nil (x ∷ xs) = false

  -- How many items pass a test.
  abbrev pub count : (A → Bool) → List A → ℕ
  count p [] = 0
  count p (x ∷ xs) = (if p x then 1 else 0) + count p xs

  abbrev pub sum : (A → ℕ) → List A → ℕ
  sum f [] = 0
  sum f (x ∷ xs) = f x + sum f xs

  abbrev pub All {κ} : (A → Type κ) → List A → Type κ
  All P [] = Unit
  All P (x ∷ xs) = P x × All P xs

  pub length-append : (xs ys : List A) → length (xs ++ ys) ≡ length xs + length ys
  length-append [] ys = omega arith
  length-append (x ∷ xs) ys = omega (arith, length-append xs ys)

  pub count-append : (p : A → Bool) (xs ys : List A) → count p (xs ++ ys) ≡ count p xs + count p ys
  count-append p [] ys = omega arith
  count-append p (x ∷ xs) ys = omega (arith, count-append p xs ys)

  pub sum-append : (f : A → ℕ) (xs ys : List A) → sum f (xs ++ ys) ≡ sum f xs + sum f ys
  sum-append f [] ys = omega arith
  sum-append f (x ∷ xs) ys = omega (arith, sum-append f xs ys)

  pub All-snoc {κ} : (P : A → Type κ) (xs : List A) {x : A} → All P xs → P x → All P (xs ++ x ∷ [])
  All-snoc P [] all px = (px, tt)
  All-snoc P (y ∷ xs) all px = (all.0, All-snoc P xs all.1 px)

  pub All-map {κ μ} :
      (P : A → Type κ) (Q : A → Type μ) (xs : List A) → ((x : A) → P x → Q x) → All P xs → All Q xs
  All-map P Q [] f all = tt
  All-map P Q (x ∷ xs) f all = (f x all.0, All-map P Q xs f all.1)

  pub get_elem?-append_left :
      (xs ys : List A) (k : ℕ) → k < length xs → get_elem? (xs ++ ys) k ≡ get_elem? xs k
  get_elem?-append_left [] ys k h = elim h [ ]
  get_elem?-append_left (x ∷ xs) ys zero h = refl
  get_elem?-append_left (x ∷ xs) ys (suc k) h = get_elem?-append_left xs ys k (omega arith)

  pub get_elem?-append_right :
      (xs ys : List A) (k : ℕ) → get_elem? (xs ++ ys) (length xs + k) ≡ get_elem? ys k
  get_elem?-append_right [] ys k = let e : 0 + k ≡ k = omega arith in rw e
  get_elem?-append_right (x ∷ xs) ys k =
      let e : suc (length xs) + k ≡ suc (length xs + k) = omega arith in
      rw e (get_elem?-append_right xs ys k)

  pub get_elem?-lt : (xs : List A) (k : ℕ) {x : A} → get_elem? xs k ≡ some x → k < length xs
  get_elem?-lt [] k h = cc
  get_elem?-lt (y ∷ xs) zero h = omega arith
  get_elem?-lt (y ∷ xs) (suc k) h = omega (arith, get_elem?-lt xs k h)

pub length-map {ℓ κ} :
    {A : Type ℓ} {B : Type κ} (xs : List A) (f : A → B) → length (map f xs) ≡ length xs
length-map [] f = refl
length-map (x ∷ xs) f = ap suc (length-map xs f)

pub is_nil-eq {ℓ} : {A : Type ℓ} (xs : List A) → (is_nil xs ≡ true) ↔ (xs ≡ [])
is_nil-eq [] = (λ h. refl, λ h. refl)
is_nil-eq (x ∷ xs) = (λ h. ground arith, λ h. cc)
