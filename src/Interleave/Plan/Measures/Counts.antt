-- ===== src/Interleave/Plan/Measures/Counts.antt =====
-- interleave/archplan.go: the overlap counts of a simulated run under each lock policy.
use probatorium.Base.{
  ℕ, ◌≡◌, ◌≢◌, refl, ◌∙◌, ◌&&◌, true, false, List, [], ◌∷◌, inl, inr, All, All-map, arith,
  Bool-cases,
}
use probatorium.Interleave.Plan.{
  LockPolicy, off, heavy, all, heavy_rated, PlanParams, Slot, ArchPlan, simulate_arch_plan,
  needs_lock,
}
use probatorium.Interleave.Plan.Exclusion.{Apart, AllApart, simulate-AllApart}
use probatorium.Interleave.Plan.Measures.{
  Overlaps, Exposure, overlaps, overlaps_with, overlaps_between, count_overlap, slots_overlap,
  rated_under_heavy, exposure_to, exposure_side, is_rated_light,
}

-- The pair is not counted, and not counted as two heavy slots.
abbrev Disjoint : Slot → Slot → Type 0
Disjoint x y = slots_overlap x y ≡ false

abbrev NotBothHeavy : Slot → Slot → Type 0
NotBothHeavy x y = (x.heavy && y.heavy) && slots_overlap x y ≡ false

Apart-Disjoint : (x y : Slot) → Apart all x y → Disjoint x y
unfolding slots_overlap needs_lock
Apart-Disjoint x y h = ground arith

Apart-NotBothHeavy : (p : LockPolicy) (x y : Slot) → p ≢ off → Apart p x y → NotBothHeavy x y
unfolding slots_overlap needs_lock
Apart-NotBothHeavy off x y h a = absurd (h refl)
Apart-NotBothHeavy heavy x y h a = ground arith
Apart-NotBothHeavy all x y h a = ground arith
Apart-NotBothHeavy heavy_rated x y h a = ground arith

overlaps_with-Disjoint :
    (x : Slot) (ys : List Slot) (n : Overlaps) → All (Apart all x) ys → overlaps_with x ys n ≡ n
unfolding overlaps_with count_overlap
overlaps_with-Disjoint x [] n h = refl
overlaps_with-Disjoint x (y ∷ ys) n h =
    ground (arith, Apart-Disjoint x y h.0, overlaps_with-Disjoint x ys n h.1)

overlaps_between-Disjoint :
    (xs ys : List Slot) (n : Overlaps) → AllApart all xs ys → overlaps_between xs ys n ≡ n
unfolding overlaps_between
overlaps_between-Disjoint [] ys n h = refl
overlaps_between-Disjoint (x ∷ xs) ys n h =
    rw (overlaps_with-Disjoint x ys n h.0) (overlaps_between-Disjoint xs ys n h.1)

count_overlap-heavy :
    (x y : Slot) (n : Overlaps)
    → NotBothHeavy x y
    → (count_overlap x y n).heavy_heavy ≡ n.heavy_heavy
unfolding count_overlap
count_overlap-heavy x y n h = ground arith

module _ (p : LockPolicy) (locks : p ≢ off) where
  overlaps_with-heavy :
      (x : Slot) (ys : List Slot) (n : Overlaps)
      → All (Apart p x) ys
      → (overlaps_with x ys n).heavy_heavy ≡ n.heavy_heavy
  unfolding overlaps_with
  overlaps_with-heavy x [] n h = refl
  overlaps_with-heavy x (y ∷ ys) n h =
      overlaps_with-heavy x ys (count_overlap x y n) h.1
      ∙ count_overlap-heavy x y n (Apart-NotBothHeavy p x y locks h.0)

  overlaps_between-heavy :
      (xs ys : List Slot) (n : Overlaps)
      → AllApart p xs ys
      → (overlaps_between xs ys n).heavy_heavy ≡ n.heavy_heavy
  unfolding overlaps_between
  overlaps_between-heavy [] ys n h = refl
  overlaps_between-heavy (x ∷ xs) ys n h =
      overlaps_between-heavy xs ys (overlaps_with x ys n) h.1 ∙ overlaps_with-heavy x ys n h.0

-- With the lock on every cell no slot of one arch shares time with a slot of the other: all three
-- overlap counts are zero, for all plans and constants.
pub overlaps-all :
    (a b : ArchPlan) (cooldown setup : ℕ)
    → overlaps (
        simulate_arch_plan a b (record { policy = all; cooldown = cooldown; column_setup = setup }))
      ≡ record { heavy_heavy = 0; heavy_light = 0; light_light = 0 }
unfolding overlaps
overlaps-all a b cooldown setup =
    overlaps_between-Disjoint _ _ _
      (simulate-AllApart a b (record { policy = all; cooldown = cooldown; column_setup = setup }))

-- Under every policy that takes a lock at all, no two heavy slots of the two arches share time.
pub overlaps-heavy :
    (a b : ArchPlan) (p : PlanParams)
    → p.policy ≢ off
    → (overlaps (simulate_arch_plan a b p)).heavy_heavy ≡ 0
unfolding overlaps
overlaps-heavy a b p locks = overlaps_between-heavy p.policy locks _ _ _ (simulate-AllApart a b p)

-- A rated sweep of a light slot, beside a heavy slot of the other arch.
exposure_to-none :
    (x : Slot) (ys : List Slot) (pairs overlapped : ℕ)
    → is_rated_light x ≡ true
    → All (Apart heavy_rated x) ys
    → exposure_to x ys false pairs overlapped ≡ (false, pairs, overlapped)
unfolding exposure_to is_rated_light
exposure_to-none x [] pairs overlapped l h = refl
exposure_to-none x (y ∷ ys) pairs overlapped l h =
    ground (arith, exposure_to-none x ys pairs overlapped l h.1)

exposure_side-none :
    (xs ys : List Slot) (e : Exposure) → AllApart heavy_rated xs ys → exposure_side xs ys e ≡ e
unfolding exposure_side
exposure_side-none [] ys e h = refl
exposure_side-none (x ∷ xs) ys e h = elim (Bool-cases (is_rated_light x)) [
  | inl l ↦
      rw (l, exposure_to-none x ys e.pairs e.overlapped l h.0) (exposure_side-none xs ys e h.1)
  | inr l ↦ rw l (exposure_side-none xs ys e h.1)
]

-- Sharing the lock with the other arch works both ways.
AllApart-flip_one :
    (p : LockPolicy) (y : Slot) (xs : List Slot) → All (λ x. Apart p x y) xs → All (Apart p y) xs
AllApart-flip_one p y xs h = All-map (λ x. Apart p x y) (Apart p y) xs (λ x a. ground arith) h

AllApart-heads :
    (p : LockPolicy) (xs : List Slot) (y : Slot) (ys : List Slot)
    → AllApart p xs (y ∷ ys)
    → All (λ x. Apart p x y) xs × AllApart p xs ys
AllApart-heads p [] y ys h = (tt, tt)
AllApart-heads p (x ∷ xs) y ys h =
    let (heads, tails) = AllApart-heads p xs y ys h.1 in ((h.0.0, heads), (h.0.1, tails))

AllApart-flip : (p : LockPolicy) (xs ys : List Slot) → AllApart p xs ys → AllApart p ys xs
AllApart-flip p xs [] h = tt
AllApart-flip p xs (y ∷ ys) h =
    let (heads, tails) = AllApart-heads p xs y ys h in
    (AllApart-flip_one p y xs heads, AllApart-flip p xs ys tails)

-- With heavy cells holding the lock whole and light cells for their rated sweep, `RatedUnderHeavy`
-- finds no cell, no pair and no overlapped time, for all plans and constants. It passes over the
-- sweeps that begin at the instant 0.
pub rated_under_heavy-zero :
    (a b : ArchPlan) (cooldown setup : ℕ)
    → rated_under_heavy (
        simulate_arch_plan a b
          (record { policy = heavy_rated; cooldown = cooldown; column_setup = setup }))
      ≡ record { cells = 0; pairs = 0; overlapped = 0 }
unfolding rated_under_heavy
rated_under_heavy-zero a b cooldown setup =
    let p : PlanParams = record {
      policy = heavy_rated;
      cooldown = cooldown;
      column_setup = setup;
    } in
    let apart = simulate-AllApart a b p in
    rw (exposure_side-none _ _ (record { cells = 0; pairs = 0; overlapped = 0 }) apart) (
      exposure_side-none _ _ (record { cells = 0; pairs = 0; overlapped = 0 })
        (AllApart-flip heavy_rated _ _ apart))
