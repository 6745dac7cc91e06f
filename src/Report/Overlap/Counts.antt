-- ===== src/Report/Overlap/Counts.antt =====
-- report/archoverlap.go: the sweep of `CheckArchOverlap` counts the intersecting pairs.
use mathlib.Core.List.{Perm}
use probatorium.Base.{
  ℕ, ◌+◌, ◌≤◌, ◌≡◌, refl, min, max, ltb, if◌then◌else◌, ◌||◌, ◌&&◌, not, Bool, true, false, List,
  [], ◌∷◌, String, Option-cases, none, some, arith, count, count-Perm, Sorted, IsSort, All, All-map,
  Bool-cases, inl, inr,
}
use probatorium.Report.Overlap.{
  LoadWindow, OverlapPair, Tally, is_heavy, forbidden, usable, shared_time, count_class,
  count_violation, tally_pair, sweep, sweep_all, no_overlap, starts_before, check_arch_overlap,
}

-- Two windows share a positive length of time.
abbrev pub intersects : LoadWindow → LoadWindow → Bool
intersects x y = ltb (max x.start y.start) (min x.end y.end)

abbrev pub both_heavy : LoadWindow → LoadWindow → Bool
both_heavy x y = intersects x y && (is_heavy x && is_heavy y)

abbrev pub one_heavy : LoadWindow → LoadWindow → Bool
one_heavy x y = intersects x y && (not (is_heavy x && is_heavy y) && (is_heavy x || is_heavy y))

abbrev pub none_heavy : LoadWindow → LoadWindow → Bool
none_heavy x y = intersects x y && not (is_heavy x || is_heavy y)

abbrev pub violates : String → LoadWindow → LoadWindow → Bool
violates policy x y = intersects x y && forbidden policy x y

-- The pairs of the two lists that pass a test.
abbrev pub count_pairs : (LoadWindow → LoadWindow → Bool) → List LoadWindow → List LoadWindow → ℕ
count_pairs f [] ys = 0
count_pairs f (x ∷ xs) ys = count (f x) ys + count_pairs f xs ys

-- The counters of `t'` are those of `t` and the given numbers more.
abbrev Adds : ℕ → ℕ → ℕ → ℕ → Tally → Tally → Type 0
Adds hh hl ll total t t' =
    (t'.heavy_heavy ≡ t.heavy_heavy + hh)
    × (t'.heavy_light ≡ t.heavy_light + hl)
    × (t'.light_light ≡ t.light_light + ll)
    × (t'.total ≡ t.total + total)

abbrev one_if : Bool → ℕ
one_if b = if b then 1 else 0

shared_time-none : (x y : LoadWindow) → shared_time x y ≡ none → intersects x y ≡ false
unfolding shared_time
shared_time-none x y e = ground arith

pub shared_time-some :
    (x y : LoadWindow) (ov : ℕ) → shared_time x y ≡ some ov → intersects x y ≡ true
unfolding shared_time
shared_time-some x y ov e = ground arith

module _ (policy : String) where
  counted-Adds :
      (x y : LoadWindow) (ov : ℕ) (t : Tally)
      → intersects x y ≡ true
      → Adds
          (one_if (both_heavy x y))
          (one_if (one_heavy x y))
          (one_if (none_heavy x y))
          (one_if (violates policy x y))
          t
          (count_violation policy x y ov (count_class x y t))
  unfolding count_violation count_class
  counted-Adds x y ov t h = rw h (ground arith)

  pub tally_pair-none :
      (x y : LoadWindow) (t : Tally) → shared_time x y ≡ none → tally_pair policy x y t ≡ t
  unfolding tally_pair
  tally_pair-none x y t e = ground arith

  pub tally_pair-some :
      (x y : LoadWindow) (t : Tally) (ov : ℕ)
      → shared_time x y ≡ some ov
      → tally_pair policy x y t ≡ count_violation policy x y ov (count_class x y t)
  unfolding tally_pair
  tally_pair-some x y t ov e = rw (e, tally_pair)

  tally_pair-Adds :
      (x y : LoadWindow) (t : Tally)
      → Adds
          (one_if (both_heavy x y))
          (one_if (one_heavy x y))
          (one_if (none_heavy x y))
          (one_if (violates policy x y))
          t
          (tally_pair policy x y t)
  tally_pair-Adds x y t = elim (Option-cases (shared_time x y)) [
    | inl e ↦ rw (tally_pair-none x y t e, shared_time-none x y e) (omega arith)
    | inr (ov, e) ↦
        rw (tally_pair-some x y t ov e) (counted-Adds x y ov t (shared_time-some x y ov e))
  ]

  -- A window that starts at or after the end of `x`, and all that start later, are out of reach.
  count-out_of_reach :
      (f : LoadWindow → Bool) (x : LoadWindow) (ys : List LoadWindow)
      → All (λ y. x.end ≤ y.start) ys
      → count (λ y. intersects x y && f y) ys ≡ 0
  count-out_of_reach f x [] h = refl
  count-out_of_reach f x (y ∷ ys) h = ground (arith, count-out_of_reach f x ys h.1)

  out_of_reach :
      (x y : LoadWindow) (ys : List LoadWindow)
      → ltb y.start x.end ≡ false
      → Sorted starts_before (y ∷ ys)
      → All (λ z. x.end ≤ z.start) (y ∷ ys)
  out_of_reach x y ys h s = (
    ground arith,
    All-map (λ z. starts_before z y ≡ false) (λ z. x.end ≤ z.start) ys (λ z k. ground arith) s.0,
  )

  sweep-Adds :
      (x : LoadWindow) (ys : List LoadWindow) (t : Tally)
      → Sorted starts_before ys
      → Adds
          (count (both_heavy x) ys)
          (count (one_heavy x) ys)
          (count (none_heavy x) ys)
          (count (violates policy x) ys)
          t
          (sweep policy x ys t)
  unfolding sweep
  sweep-Adds x [] t s = omega arith
  sweep-Adds x (y ∷ ys) t s = elim (Bool-cases (ltb y.start x.end)) [
    | inl h ↦
        rw h (omega (arith, tally_pair-Adds x y t, sweep-Adds x ys (tally_pair policy x y t) s.1))
    | inr h ↦
        let far : All (λ z. x.end ≤ z.start) (y ∷ ys) = out_of_reach x y ys h s in
        rw
          (
            h,
            count-out_of_reach (λ z. is_heavy x && is_heavy z) x (y ∷ ys) far,
            count-out_of_reach (λ z. not (is_heavy x && is_heavy z) && (is_heavy x || is_heavy z)) x
                (y ∷ ys) far,
            count-out_of_reach (λ z. not (is_heavy x || is_heavy z)) x (y ∷ ys) far,
            count-out_of_reach (forbidden policy x) x (y ∷ ys) far,
          )
          (omega arith)
  ]

  sweep_all-Adds :
      (xs ys : List LoadWindow) (t : Tally)
      → Sorted starts_before ys
      → Adds
          (count_pairs both_heavy xs ys)
          (count_pairs one_heavy xs ys)
          (count_pairs none_heavy xs ys)
          (count_pairs (violates policy) xs ys)
          t
          (sweep_all policy xs ys t)
  unfolding sweep_all
  sweep_all-Adds [] ys t s = omega arith
  sweep_all-Adds (x ∷ xs) ys t s =
      omega (arith, sweep-Adds x ys t s, sweep_all-Adds xs ys (sweep policy x ys t) s)

count_pairs-Perm :
    (f : LoadWindow → LoadWindow → Bool) (xs : List LoadWindow) {ys zs : List LoadWindow}
    → Perm ys zs
    → count_pairs f xs ys ≡ count_pairs f xs zs
count_pairs-Perm f [] h = refl
count_pairs-Perm f (x ∷ xs) h = omega (arith, count-Perm (f x) h, count_pairs-Perm f xs h)

module _ (sort_windows : List LoadWindow → List LoadWindow)
    (sort_pairs : List OverlapPair → List OverlapPair) where
  -- Provided that the windows are sorted by start, the sweep with its early exit counts every
  -- pair of usable windows of the two arches that shares a positive length of time, by class, and
  -- the total counts every such pair that the policy forbids.
  pub check-counts :
      (a b : List LoadWindow) (policy : String)
      → IsSort starts_before sort_windows
      → let r = check_arch_overlap sort_windows sort_pairs a b policy in
        (r.heavy_heavy ≡ count_pairs both_heavy (usable a) (usable b))
        × (r.heavy_light ≡ count_pairs one_heavy (usable a) (usable b))
        × (r.light_light ≡ count_pairs none_heavy (usable a) (usable b))
        × (r.total ≡ count_pairs (violates policy) (usable a) (usable b))
  unfolding check_arch_overlap
  check-counts a b policy sorts =
      let same = sorts.perm (usable b) in
      omega (
        arith,
        sweep_all-Adds policy (usable a) (sort_windows (usable b)) no_overlap
            (sorts.sorted (usable b)),
        count_pairs-Perm both_heavy (usable a) same,
        count_pairs-Perm one_heavy (usable a) same,
        count_pairs-Perm none_heavy (usable a) same,
        count_pairs-Perm (violates policy) (usable a) same,
      )
