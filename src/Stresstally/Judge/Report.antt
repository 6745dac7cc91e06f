-- ===== src/Stresstally/Judge/Report.antt =====
-- The report of a case: the sorted rows, the warnings about the environments, the verdict, and
-- every way in which it differs from what the case expects.
use text.Mathlib.Text.{◌==◌ as str_eq}
use Prim.Native.Nat.{Ordering}
use Prim.Native.String.{◌++◌ as ◌+++◌, compare}
use probatorium.Base.{
  ltb, if◌then◌else◌, ◌&&◌, not, Bool, true, false, List, [], ◌∷◌, ◌++◌, String, is_nil, length,
  itoa, join, contains, trim_suffix, before_blank, str_lt, insertion_sort,
}
use probatorium.Stresstally.Judge.{Case, Failure}
use probatorium.Stresstally.Judge.Shards.{ShardReport, TestRow, State}
use probatorium.Stresstally.Judge.Problems.{
  ArchTotal, total_arches, find_problems, add_if, arch_gaps, problem_arch_gap,
}

-- The order of `slices.Sort` on texts.
unfoldable pub sort_strings : List String → List String
sort_strings xs = insertion_sort str_lt xs

arch_order : String → String
arch_order a = if str_eq a "x86" then "0" else "1" +++ a

-- `cmpStrings(…) < 0`: the first pair of texts that differ decides.
pairs_less : List (String × String) → Bool
pairs_less [] = false
pairs_less (p ∷ pairs) =
    let rest = pairs_less pairs in
    elim (compare p.0 p.1) [ Ordering.lt ↦ true | Ordering.eq ↦ rest | Ordering.gt ↦ false ]

pub row_less : TestRow → TestRow → Bool
unfolding arch_order pairs_less
row_less a b =
    pairs_less ((a.pkg, b.pkg) ∷ (a.name, b.name) ∷ (arch_order a.arch, arch_order b.arch) ∷ [])

os_release : String → String
os_release image = trim_suffix (trim_suffix (before_blank image) "-arm64") "-arm"

distinct_releases : List String → List String → List String
unfolding os_release
distinct_releases [] found = found
distinct_releases (im ∷ images) found =
    let r = os_release im in
    distinct_releases images (if contains r found then found else found ++ r ∷ [])

releases : List String → List String
unfolding distinct_releases sort_strings
releases images = sort_strings (distinct_releases images [])

unfoldable pub same_texts : List String → List String → Bool
same_texts [] [] = true
same_texts [] (y ∷ ys) = false
same_texts (x ∷ xs) [] = false
same_texts (x ∷ xs) (y ∷ ys) = str_eq x y && same_texts xs ys

within_warnings : List ArchTotal → List String
within_warnings [] = []
within_warnings (t ∷ totals) =
    (if ltb 1 (length t.kernels)
      then ("the "
          +++ t.arch
          +++ " shards ran on "
          +++ itoa (length t.kernels)
          +++ " kernels: "
          +++ join ", " t.kernels)
        ∷ []
      else [])
    ++ (if ltb 1 (length t.images)
        then ("the "
            +++ t.arch
            +++ " shards ran on "
            +++ itoa (length t.images)
            +++ " runner images: "
            +++ join ", " t.images)
          ∷ []
        else [])
    ++ within_warnings totals

two_arches : ArchTotal → List String → ArchTotal → List String → String
two_arches a xs b ys = a.arch +++ " " +++ join ", " xs +++ ", " +++ b.arch +++ " " +++ join ", " ys

pair_warnings : ArchTotal → ArchTotal → List String
unfolding two_arches releases same_texts sort_strings
pair_warnings a b =
    (if not (is_nil a.kernels)
        && (not (is_nil b.kernels)
            && not (same_texts (sort_strings a.kernels) (sort_strings b.kernels)))
      then ("kernel differs between the arches: "
          +++ two_arches a a.kernels b b.kernels
          +++ "; an arch difference may be a kernel difference")
        ∷ []
      else [])
    ++ (if not (is_nil (releases a.images))
          && (not (is_nil (releases b.images))
              && not (same_texts (releases a.images) (releases b.images)))
        then ("OS image differs between the arches: "
            +++ two_arches a a.images b b.images
            +++ "; an arch difference may be an image difference")
          ∷ []
        else [])

between_warnings : ArchTotal → List ArchTotal → List String
unfolding pair_warnings
between_warnings a [] = []
between_warnings a (b ∷ totals) = pair_warnings a b ++ between_warnings a totals

pub environment_warnings : List ArchTotal → List String
unfolding within_warnings between_warnings
environment_warnings [] = []
environment_warnings (t ∷ totals) = within_warnings (t ∷ totals) ++ between_warnings t totals

pub record CaseReport : Type 0 where
  pub case_name : String
  pub config : Case
  pub celeris_sha : String
  pub verdict : String
  pub problems : List String
  pub mismatches : List String
  pub arch_gaps : List String
  pub warnings : List String
  pub arches : List ArchTotal
  pub shards : List ShardReport
  pub tests : List TestRow
  pub failures : List Failure

unfoldable pub verdict_of : List String → String
verdict_of problems = if is_nil problems then "PASS" else "FAIL"

-- The report before it is compared with the expectation; the sort of the rows is the program's.
unfoldable pub report_of : Case → String → State → CaseReport
unfolding row_less environment_warnings verdict_of sort_strings
report_of c celeris_sha st =
    let tests = insertion_sort row_less st.rows in
    let totals = total_arches c.arches st.shards tests in
    let gaps = arch_gaps tests c.arches in
    let problems =
      sort_strings (add_if (not (is_nil gaps)) problem_arch_gap (find_problems totals [])) in
    record {
      case_name = c.name;
      config = c;
      celeris_sha = celeris_sha;
      verdict = verdict_of problems;
      problems = problems;
      mismatches = [];
      arch_gaps = gaps;
      warnings = environment_warnings totals;
      arches = totals;
      shards = st.shards;
      tests = tests;
      failures = st.failures;
    }
