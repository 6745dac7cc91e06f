-- ===== src/Report/Overlap/Verdict.antt =====
-- report/archoverlap.go: when a report is clean, and which violations it lists.
use probatorium.Base.{
  ◌≡◌, ◌↔◌, refl, ◌∙◌, sym, Bool, true, false, List, [], ◌∷◌, String, arith, count, IsSort, All,
}
use probatorium.Report.Overlap.{
  LoadWindow, OverlapPair, OverlapReport, usable, missing, window_usable, clean, starts_before,
  check_arch_overlap,
}
use probatorium.Report.Overlap.Counts.{violates, count_pairs, check-counts}

module _ {ℓ} {A : Type ℓ} where
  pub count-All : (p : A → Bool) (xs : List A) → count p xs ≡ 0 → All (λ x. p x ≡ false) xs
  count-All p [] h = tt
  count-All p (x ∷ xs) h = ground (arith, count-All p xs)

  All-count : (p : A → Bool) (xs : List A) → All (λ x. p x ≡ false) xs → count p xs ≡ 0
  All-count p [] h = refl
  All-count p (x ∷ xs) h = ground (arith, All-count p xs h.1)

count_pairs-All :
    (f : LoadWindow → LoadWindow → Bool) (xs ys : List LoadWindow)
    → count_pairs f xs ys ≡ 0
    → All (λ x. All (λ y. f x y ≡ false) ys) xs
count_pairs-All f [] ys h = tt
count_pairs-All f (x ∷ xs) ys h =
    (count-All (f x) ys (omega arith), count_pairs-All f xs ys (omega arith))

pub All-count_pairs :
    (f : LoadWindow → LoadWindow → Bool) (xs ys : List LoadWindow)
    → All (λ x. All (λ y. f x y ≡ false) ys) xs
    → count_pairs f xs ys ≡ 0
All-count_pairs f [] ys h = refl
All-count_pairs f (x ∷ xs) ys h = omega (arith, All-count (f x) ys h.0, All-count_pairs f xs ys h.1)

missing-usable : (ws : List LoadWindow) → missing ws ≡ 0 → usable ws ≡ ws
unfolding missing usable
missing-usable [] h = refl
missing-usable (w ∷ ws) h = ground (arith, missing-usable ws)

missing-All : (ws : List LoadWindow) → missing ws ≡ 0 → All (λ w. window_usable w ≡ true) ws
unfolding missing
missing-All [] h = tt
missing-All (w ∷ ws) h = ground (arith, missing-All ws)

All-missing : (ws : List LoadWindow) → All (λ w. window_usable w ≡ true) ws → missing ws ≡ 0
unfolding missing
All-missing [] h = refl
All-missing (w ∷ ws) h = ground (arith, All-missing ws h.1)

pub clean-zeros :
    (r : OverlapReport) → (clean r ≡ true) ↔ ((r.total ≡ 0) × (r.missing_a ≡ 0) × (r.missing_b ≡ 0))
unfolding clean
clean-zeros r = ground arith

-- What a clean run is: every window has usable bounds, and no pair of windows of the two arches
-- that shares time is forbidden by the policy.
abbrev pub IsCleanRun : String → List LoadWindow → List LoadWindow → Type 0
IsCleanRun policy a b =
    All (λ w. window_usable w ≡ true) a
    × All (λ w. window_usable w ≡ true) b
    × All (λ x. All (λ y. violates policy x y ≡ false) b) a

module _ (sort_windows : List LoadWindow → List LoadWindow)
    (sort_pairs : List OverlapPair → List OverlapPair) where
  check_missing :
      (a b : List LoadWindow) (policy : String)
      → let r = check_arch_overlap sort_windows sort_pairs a b policy in
        (r.missing_a ≡ missing a) × (r.missing_b ≡ missing b)
  unfolding check_arch_overlap
  check_missing a b policy = (refl, refl)

  -- Provided that the windows are sorted by start, the check calls a run clean exactly when every
  -- window of both arches has usable bounds and no two windows that share time are forbidden.
  pub check-clean :
      (a b : List LoadWindow) (policy : String)
      → IsSort starts_before sort_windows
      → (clean (check_arch_overlap sort_windows sort_pairs a b policy) ≡ true)
        ↔ IsCleanRun policy a b
  check-clean a b policy sorts = (to, from)
    where
      r : OverlapReport
      r = check_arch_overlap sort_windows sort_pairs a b policy

      total : r.total ≡ count_pairs (violates policy) (usable a) (usable b)
      total = (check-counts sort_windows sort_pairs a b policy sorts).3

      gaps : (r.missing_a ≡ missing a) × (r.missing_b ≡ missing b)
      gaps = check_missing a b policy

      to : clean r ≡ true → IsCleanRun policy a b
      to h =
          let (none_found, ga, gb) = (clean-zeros r).0 h in
          let ma : missing a ≡ 0 = omega (arith, gaps, ga) in
          let mb : missing b ≡ 0 = omega (arith, gaps, gb) in
          let found : count_pairs (violates policy) a b ≡ 0 =
            rw (missing-usable a ma, missing-usable b mb) at (sym total ∙ none_found) in
          (missing-All a ma, missing-All b mb, count_pairs-All (violates policy) a b found)

      from : IsCleanRun policy a b → clean r ≡ true
      from (ua, ub, apart) =
          let ma : missing a ≡ 0 = All-missing a ua in
          let mb : missing b ≡ 0 = All-missing b ub in
          (clean-zeros r).1 (
            total
                ∙ rw (missing-usable a ma, missing-usable b mb)
                    (All-count_pairs (violates policy) a b apart),
            gaps.0 ∙ ma,
            gaps.1 ∙ mb,
          )
