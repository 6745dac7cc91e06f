-- ===== src/Stresstally/Judge/Problems.antt =====
-- What the reports and the rows amount to: the totals of each arch, the problems of the case, the
-- tests that ran on one arch only, the warnings, and the report with its verdict.
use text.Mathlib.Text.{◌==◌ as str_eq}
use Prim.Native.String.{◌++◌ as ◌+++◌}
use probatorium.Base.{
  ℕ, ◌+◌, ltb, ◌==◌, if◌then◌else◌, ◌||◌, ◌&&◌, not, Bool, true, false, List, [], ◌∷◌, ◌++◌, String,
  is_nil, length, sum, count, join, contains, trim_prefix,
}
use probatorium.Stresstally.Judge.{
  status_complete, status_unparsed, status_missing, status_wrong_shape,
}
use probatorium.Stresstally.Judge.Shards.{ShardReport, TestRow}

abbrev pub problem_failures : String
problem_failures = "test-failures"

abbrev pub problem_unparsed : String
problem_unparsed = "unparsed-shards"

abbrev pub problem_missing : String
problem_missing = "missing-shards"

abbrev pub problem_wrong_shape : String
problem_wrong_shape = "wrong-shape-shards"

abbrev pub problem_nothing_ran : String
problem_nothing_ran = "nothing-ran"

abbrev pub problem_arch_gap : String
problem_arch_gap = "arch-gap"

pub record ArchTotal : Type 0 where
  pub arch : String
  pub shards : ℕ
  pub complete : ℕ
  pub unparsed : ℕ
  pub missing : ℕ
  pub wrong_shape : ℕ
  pub tests : ℕ
  pub pass : ℕ
  pub fail : ℕ
  pub skip : ℕ
  pub no_verdict : ℕ
  pub kernels : List String
  pub images : List String

-- How many shards of an arch have a status.
unfoldable pub with_status : String → String → List ShardReport → ℕ
with_status arch status shards = count (λ s. str_eq s.arch arch && str_eq s.status status) shards

add_distinct : String → List String → List String
add_distinct x xs = if not (str_eq x "") && not (contains x xs) then xs ++ x ∷ [] else xs

-- The different texts other than the empty one that the shards of an arch show, in their order.
distinct : (ShardReport → String) → String → List ShardReport → List String → List String
unfolding add_distinct
distinct f arch [] found = found
distinct f arch (s ∷ shards) found =
    distinct f arch shards (if str_eq s.arch arch then add_distinct (f s) found else found)

shards_of : String → List ShardReport → ℕ
shards_of arch shards = count (λ s. str_eq s.arch arch) shards

-- The sum of a count over the rows of an arch.
unfoldable pub on_arch : (TestRow → ℕ) → String → List TestRow → ℕ
on_arch f arch rows = sum (λ r. if str_eq r.arch arch then f r else 0) rows

unfoldable pub arch_total : String → List ShardReport → List TestRow → ArchTotal
unfolding with_status distinct shards_of on_arch
arch_total arch shards tests = record {
  arch = arch;
  shards = shards_of arch shards;
  complete = with_status arch status_complete shards;
  unparsed = with_status arch status_unparsed shards;
  missing = with_status arch status_missing shards;
  wrong_shape = with_status arch status_wrong_shape shards;
  tests = on_arch (λ r. 1) arch tests;
  pass = on_arch (λ r. r.pass) arch tests;
  fail = on_arch (λ r. r.fail) arch tests;
  skip = on_arch (λ r. r.skip) arch tests;
  no_verdict = on_arch (λ r. r.no_verdict) arch tests;
  kernels = distinct (λ s. s.kernel) arch shards [];
  images = distinct (λ s. s.image) arch shards [];
}

unfoldable pub add_if : Bool → String → List String → List String
add_if cond p problems = if cond && not (contains p problems) then problems ++ p ∷ [] else problems

unfoldable pub arch_problems : ArchTotal → List String → List String
unfolding add_if
arch_problems t problems = add_if (t.pass + t.fail == 0) problem_nothing_ran (
    add_if (ltb 0 t.wrong_shape) problem_wrong_shape (
      add_if (ltb 0 t.missing) problem_missing (
        add_if (ltb 0 t.unparsed) problem_unparsed
          (add_if (ltb 0 t.fail) problem_failures problems))))

-- The loop over the arches.
unfoldable pub total_arches : List String → List ShardReport → List TestRow → List ArchTotal
unfolding arch_total
total_arches [] shards tests = []
total_arches (arch ∷ arches) shards tests =
    arch_total arch shards tests ∷ total_arches arches shards tests

unfoldable pub find_problems : List ArchTotal → List String → List String
unfolding arch_problems
find_problems [] problems = problems
find_problems (t ∷ totals) problems = find_problems totals (arch_problems t problems)

unfoldable pub short_pkg : String → String
short_pkg p = trim_prefix p "github.com/goceleris/celeris/"

-- The tests in the order of their first rows.
unfoldable pub has_key : String → String → List (String × String) → Bool
has_key pkg name [] = false
has_key pkg name (k ∷ keys) = str_eq k.0 pkg && str_eq k.1 name || has_key pkg name keys

unfoldable pub test_order : List TestRow → List (String × String) → List (String × String)
unfolding has_key
test_order [] keys = keys
test_order (r ∷ rows) keys =
    test_order rows (if has_key r.pkg r.name keys then keys else keys ++ (r.pkg, r.name) ∷ [])

-- Was the test marked as run on the arch, by a row with a process?
unfoldable pub ran_on : List TestRow → String × String → String → Bool
ran_on [] k arch = false
ran_on (r ∷ rows) k arch =
    str_eq r.pkg k.0 && (str_eq r.name k.1 && (str_eq r.arch arch && ltb 0 r.processes))
    || ran_on rows k arch

-- The arches of the case on which the test ran, where `wanted` is true, or did not.
unfoldable pub split_arches : Bool → List TestRow → String × String → List String → List String
unfolding ran_on
split_arches wanted tests k [] = []
split_arches wanted tests k (a ∷ arches) =
    let rest = split_arches wanted tests k arches in
    if ran_on tests k a
    then (if wanted then a ∷ rest else rest)
    else if wanted
    then rest
    else a ∷ rest

gap_line : String × String → List String → List String → String
gap_line k on off =
    k.1
    +++ " ("
    +++ short_pkg k.0
    +++ ") reached a verdict on "
    +++ join ", " on
    +++ " and never on "
    +++ join ", " off

unfoldable pub gaps_of : List TestRow → List String → List (String × String) → List String
unfolding split_arches gap_line
gaps_of tests arches [] = []
gaps_of tests arches (k ∷ keys) =
    let rest = gaps_of tests arches keys in
    let on = split_arches true tests k arches in
    let off = split_arches false tests k arches in
    if not (is_nil on) && not (is_nil off) then gap_line k on off ∷ rest else rest

unfoldable pub arch_gaps : List TestRow → List String → List String
unfolding gaps_of test_order
arch_gaps tests arches =
    if ltb (length arches) 2 then [] else gaps_of tests arches (test_order tests [])
