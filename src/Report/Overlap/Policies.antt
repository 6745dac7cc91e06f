-- ===== src/Report/Overlap/Policies.antt =====
-- report/archoverlap.go: what each exclusion policy forbids.
use text.Mathlib.Text.{◌==◌ as str_eq}
use probatorium.Base.{
  ◌⊎◌, ◌+◌, ◌≤◌, ◌≡◌, refl, Bool, true, false, List, [], ◌∷◌, String, arith, count, IsSort, All,
}
use probatorium.Report.Overlap.{
  LoadWindow, OverlapPair, exclusion_off, exclusion_heavy, exclusion_all, starts_before,
  check_arch_overlap, usable, forbidden,
}
use probatorium.Report.Overlap.Counts.{
  intersects, violates, count_pairs, both_heavy, one_heavy, none_heavy, check-counts,
}
use probatorium.Report.Overlap.Verdict.{All-count_pairs}

-- Every pair that shares time is in exactly one class.
classes-count :
    (x : LoadWindow) (ys : List LoadWindow)
    → count (both_heavy x) ys + count (one_heavy x) ys + count (none_heavy x) ys
      ≡ count (violates exclusion_all x) ys
unfolding forbidden
classes-count x [] = omega arith
classes-count x (y ∷ ys) = ground (arith, classes-count x ys)

heavy-count :
    (x : LoadWindow) (ys : List LoadWindow)
    → count (both_heavy x) ys ≡ count (violates exclusion_heavy x) ys
unfolding forbidden
heavy-count x [] = omega arith
heavy-count x (y ∷ ys) = ground (arith, heavy-count x ys)

off-count : (x : LoadWindow) (ys : List LoadWindow) → count (violates exclusion_off x) ys ≡ 0
unfolding forbidden
off-count x [] = refl
off-count x (y ∷ ys) = ground (arith, off-count x ys)

classes-count_pairs :
    (xs ys : List LoadWindow)
    → count_pairs both_heavy xs ys + count_pairs one_heavy xs ys + count_pairs none_heavy xs ys
      ≡ count_pairs (violates exclusion_all) xs ys
classes-count_pairs [] ys = refl
classes-count_pairs (x ∷ xs) ys = omega (arith, classes-count x ys, classes-count_pairs xs ys)

heavy-count_pairs :
    (xs ys : List LoadWindow)
    → count_pairs both_heavy xs ys ≡ count_pairs (violates exclusion_heavy) xs ys
heavy-count_pairs [] ys = refl
heavy-count_pairs (x ∷ xs) ys = omega (arith, heavy-count x ys, heavy-count_pairs xs ys)

off-count_pairs : (xs ys : List LoadWindow) → count_pairs (violates exclusion_off) xs ys ≡ 0
off-count_pairs [] ys = refl
off-count_pairs (x ∷ xs) ys = omega (arith, off-count x ys, off-count_pairs xs ys)

pub violates-all : (x y : LoadWindow) → intersects x y ≡ false → violates exclusion_all x y ≡ false
unfolding forbidden
violates-all x y h = ground arith

pub violates-heavy :
    (x y : LoadWindow) → intersects x y ≡ false → violates exclusion_heavy x y ≡ false
violates-heavy x y h = ground arith

-- A light window violates nothing under policy heavy.
pub violates-light :
    (x y : LoadWindow)
    → (str_eq x.class "light" ≡ true) ⊎ (str_eq y.class "light" ≡ true)
    → violates exclusion_heavy x y ≡ false
unfolding forbidden
violates-light x y h = ground arith

count-usable : (f : LoadWindow → Bool) (ws : List LoadWindow) → count f (usable ws) ≤ count f ws
unfolding usable
count-usable f [] = omega arith
count-usable f (w ∷ ws) = ground (arith, count-usable f ws)

count_pairs-usable :
    (f : LoadWindow → LoadWindow → Bool) (xs ys : List LoadWindow)
    → count_pairs f (usable xs) (usable ys) ≤ count_pairs f xs ys
unfolding usable
count_pairs-usable f [] ys = omega arith
count_pairs-usable f (x ∷ xs) ys = ground (arith, count_pairs-usable f xs ys, count-usable (f x) ys)

module _ (sort_windows : List LoadWindow → List LoadWindow)
    (sort_pairs : List OverlapPair → List OverlapPair) where
  -- Provided that the windows are sorted by start: under policy all every pair that shares time
  -- is a violation, under policy heavy exactly the pairs of two heavy windows are, and under
  -- policy off none is.
  pub check-policies :
      (a b : List LoadWindow)
      → IsSort starts_before sort_windows
      → let check = check_arch_overlap sort_windows sort_pairs a b in
        let r = check exclusion_all in
        (r.total ≡ r.heavy_heavy + r.heavy_light + r.light_light)
        × ((check exclusion_heavy).total ≡ (check exclusion_heavy).heavy_heavy)
        × ((check exclusion_off).total ≡ 0)
  check-policies a b sorts = omega (
    arith,
    check-counts sort_windows sort_pairs a b exclusion_all sorts,
    check-counts sort_windows sort_pairs a b exclusion_heavy sorts,
    check-counts sort_windows sort_pairs a b exclusion_off sorts,
    classes-count_pairs (usable a) (usable b),
    heavy-count_pairs (usable a) (usable b),
    off-count_pairs (usable a) (usable b),
  )

  -- Nothing is counted against lists of windows in which no pair is a violation.
  pub total-zero :
      (a b : List LoadWindow) (policy : String)
      → IsSort starts_before sort_windows
      → All (λ x. All (λ y. violates policy x y ≡ false) b) a
      → (check_arch_overlap sort_windows sort_pairs a b policy).total ≡ 0
  total-zero a b policy sorts h = omega (
    arith,
    check-counts sort_windows sort_pairs a b policy sorts,
    count_pairs-usable (violates policy) a b,
    All-count_pairs (violates policy) a b h,
  )
