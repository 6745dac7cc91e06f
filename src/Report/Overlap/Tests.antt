-- ===== src/Report/Overlap/Tests.antt =====
-- report/archoverlap.go: the check on two short runs, and its theorems at them.
use text.Mathlib.Text.{◌==◌ as str_eq}
use probatorium.Base.{
  ℕ, ◌+◌, ◌<◌, ◌≡◌, ◌↔◌, refl, ltb, true, false, List, [], ◌∷◌, arith, IsSort, insertion_sort,
  insertion_sort-IsSort, String, some, none,
}
use probatorium.Report.Overlap.{
  LoadWindow, OverlapPair, OverlapReport, clean, usable, starts_before, longer, check_arch_overlap,
  exclusion_all, exclusion_heavy, exclusion_off,
}
use probatorium.Report.Overlap.Counts.{
  check-counts, count_pairs, both_heavy, one_heavy, none_heavy, violates,
}
use probatorium.Report.Overlap.Verdict.{check-clean, IsCleanRun}
use probatorium.Report.Overlap.Record.{problem, problem-clean, arch_exclusion_for}

abbrev window : String → ℕ → ℕ → LoadWindow
window class start end = record {
  competitor = "celeris";
  scenario = "large-echo";
  kind = "saturation";
  class = class;
  start = start;
  end = end;
}

abbrev x86 : List LoadWindow
x86 = window "heavy" 10 20 ∷ window "light" 30 40 ∷ []

-- The first window meets both windows of the other arch; the last has no usable bounds.
abbrev arm64 : List LoadWindow
arm64 = window "light" 18 35 ∷ window "heavy" 12 19 ∷ window "heavy" 50 50 ∷ []

abbrev sort_windows : List LoadWindow → List LoadWindow
sort_windows = insertion_sort starts_before

abbrev sort_pairs : List OverlapPair → List OverlapPair
sort_pairs = insertion_sort longer

abbrev report : String → OverlapReport
report policy = check_arch_overlap sort_windows sort_pairs x86 arm64 policy

report_all : report exclusion_all ≡ record {
  policy = "all";
  checks_a = 2;
  checks_b = 2;
  missing_a = 0;
  missing_b = 1;
  heavy_heavy = 1;
  heavy_light = 1;
  light_light = 1;
  violations =
      record { a = window "heavy" 10 20; b = window "heavy" 12 19; overlap = 7 }
      ∷ record { a = window "light" 30 40; b = window "light" 18 35; overlap = 5 }
      ∷ record { a = window "heavy" 10 20; b = window "light" 18 35; overlap = 2 }
      ∷ [];
  total = 3;
}
unfolding check_arch_overlap insertion_sort
report_all = refl

ltb_asym : (a b : ℕ) → ltb a b ≡ true → ltb b a ≡ false
ltb_asym a b h = ground arith

ltb_trans : (a b c : ℕ) → ltb b a ≡ false → ltb c b ≡ false → ltb c a ≡ false
ltb_trans a b c h k = ground arith

sort_windows-IsSort : IsSort starts_before sort_windows
sort_windows-IsSort =
    insertion_sort-IsSort starts_before (λ x y. ltb_asym x.start y.start)
      (λ x y z. ltb_trans x.start y.start z.start)

sort_pairs-IsSort : IsSort longer sort_pairs
sort_pairs-IsSort =
    insertion_sort-IsSort longer (λ x y. ltb_asym y.overlap x.overlap)
      (λ x y z h k. ltb_trans z.overlap y.overlap x.overlap k h)

check-counts_example :
    ((report exclusion_all).heavy_heavy ≡ count_pairs both_heavy (usable x86) (usable arm64))
    × ((report exclusion_all).heavy_light ≡ count_pairs one_heavy (usable x86) (usable arm64))
    × ((report exclusion_all).light_light ≡ count_pairs none_heavy (usable x86) (usable arm64))
    × ((report exclusion_all).total
        ≡ count_pairs (violates exclusion_all) (usable x86) (usable arm64))
check-counts_example =
    check-counts sort_windows sort_pairs x86 arm64 exclusion_all sort_windows-IsSort

check-clean_example : (clean (report exclusion_heavy) ≡ true) ↔ IsCleanRun exclusion_heavy x86 arm64
check-clean_example =
    check-clean sort_windows sort_pairs x86 arm64 exclusion_heavy sort_windows-IsSort

problem-clean_example :
    (problem {W = ℕ}
        (some (arch_exclusion_for sort_windows sort_pairs exclusion_all "arm64" "forward" x86 [] 0))
      ≡ none)
    ↔ ((str_eq exclusion_all exclusion_off ≡ false) × (0 < 2 + 0) × IsCleanRun exclusion_all x86 [])
problem-clean_example =
    problem-clean sort_windows sort_pairs exclusion_all "arm64" "forward" x86 [] 0
      sort_windows-IsSort
