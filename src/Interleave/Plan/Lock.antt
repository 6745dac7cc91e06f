-- ===== src/Interleave/Plan/Lock.antt =====
-- interleave/archplan.go: times held under one lock, of whatever is run in them. The lock of
-- `SimulateArchPlan` is free again from some instant on, which every holder moves to its own end.
use probatorium.Base.{
  ℕ, ◌≤◌, ◌≡◌, Bool, true, false, List, [], ◌∷◌, ◌++◌, ◌⊎◌, inl, inr, All, All-snoc, All-map, arith,
  Bool-cases,
}

module _ {A : Type 0} (holds : A → Bool) (from end : A → ℕ) where
  -- The lock is free again from `t` on, as far as `x` goes.
  abbrev pub FreeBy : ℕ → A → Type 0
  FreeBy t x = (holds x ≡ false) ⊎ (end x ≤ t)

  -- The two do not hold the lock at one time.
  abbrev pub Apart : A → A → Type 0
  Apart x y = (holds x ≡ false) ⊎ (holds y ≡ false) ⊎ (end x ≤ from y) ⊎ (end y ≤ from x)

  abbrev pub AllApart : List A → List A → Type 0
  AllApart xs ys = All (λ x. All (Apart x) ys) xs

  -- What took the lock, if at all, once it was free, beside what both arches have run.
  module _ (t t' : ℕ) (z : A) (later : t ≤ t')
      (held : holds z ≡ true → (t ≤ from z) × (end z ≤ t')) where
    FreeBy-later : (x : A) → FreeBy t x → FreeBy t' x
    FreeBy-later x h = ground arith

    FreeBy-new : FreeBy t' z
    FreeBy-new = elim (Bool-cases (holds z)) [ inl h ↦ inr ((held h).1) | inr h ↦ inl h ]

    Apart-new : (y : A) → FreeBy t y → Apart z y
    Apart-new y (inl h) = inr (inl h)
    Apart-new y (inr h) = elim (Bool-cases (holds z)) [
      | inl hz ↦ inr (inr (inr (omega (arith, (held hz).0))))
      | inr hz ↦ inl hz
    ]

    Apart-new' : (x : A) → FreeBy t x → Apart x z
    Apart-new' x (inl h) = inl h
    Apart-new' x (inr h) = elim (Bool-cases (holds z)) [
      | inl hz ↦ inr (inr (inl (omega (arith, (held hz).0))))
      | inr hz ↦ inr (inl hz)
    ]

    pub AllApart-new :
        (xs ys : List A) → All (FreeBy t) ys → AllApart xs ys → AllApart (xs ++ z ∷ []) ys
    AllApart-new xs ys free apart =
        All-snoc _ xs apart (All-map (FreeBy t) (Apart z) ys Apart-new free)

    pub AllApart-new' :
        (xs ys : List A) → All (FreeBy t) xs → AllApart xs ys → AllApart xs (ys ++ z ∷ [])
    AllApart-new' [] ys free apart = tt
    AllApart-new' (x ∷ xs) ys free apart =
        (All-snoc _ ys apart.0 (Apart-new' x free.0), AllApart-new' xs ys free.1 apart.1)

    pub All-FreeBy-new : (xs : List A) → All (FreeBy t) xs → All (FreeBy t') (xs ++ z ∷ [])
    All-FreeBy-new xs free =
        All-snoc _ xs (All-map (FreeBy t) (FreeBy t') xs FreeBy-later free) FreeBy-new

    pub All-FreeBy-later : (xs : List A) → All (FreeBy t) xs → All (FreeBy t') xs
    All-FreeBy-later xs free = All-map (FreeBy t) (FreeBy t') xs FreeBy-later free
