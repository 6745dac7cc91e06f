-- ===== src/Stresstally/Judge/Expectations.antt =====
-- Every way in which a report differs from what its case expects, and the judged case.
use text.Mathlib.Text.{◌==◌ as str_eq}
use Prim.Native.String.{◌++◌ as ◌+++◌}
use probatorium.Base.{
  ℕ, leb, ◌==◌, if◌then◌else◌, ◌&&◌, not, Bool, true, false, List, [], ◌∷◌, ◌++◌, String, Option,
  none, some, is_nil, sum, itoa, join, str_lt, insertion_sort, ℤ, pos, negsuc, atoi, cut_prefix,
}
use probatorium.Stresstally.Judge.{Case, CountExpect, Expect, ShardLog}
use probatorium.Stresstally.Judge.Shape.{has_reason}
use probatorium.Stresstally.Judge.Shards.{ShardReport, TestRow, start, judge_arches}
use probatorium.Stresstally.Judge.Report.{CaseReport, report_of, same_texts, sort_strings}

at_least : ℕ → Option ℤ → Bool
at_least got none = false
at_least got (some (pos n)) = leb n got
at_least got (some (negsuc n)) = true

exactly : ℕ → Option ℤ → Bool
exactly got none = false
exactly got (some (pos n)) = got == n
exactly got (some (negsuc n)) = false

matches_from : ℕ → String → Option String → Bool
unfolding at_least exactly
matches_from got want none = exactly got (atoi want)
matches_from got want (some bound) = at_least got (atoi bound)

unfoldable pub count_matches : ℕ → String → Bool
unfolding matches_from
count_matches got want =
    if str_eq want "" then true else matches_from got want (cut_prefix ">=" want)

-- A count over the rows of one test on one arch.
of_test : (TestRow → ℕ) → String → String → List TestRow → ℕ
of_test f name arch rows =
    sum (λ r. if str_eq r.name name && str_eq r.arch arch then f r else 0) rows

count_mismatch : String → String → String → ℕ → String → List String
unfolding count_matches
count_mismatch name arch what got want =
    if count_matches got want
    then []
    else (name
        +++ " on "
        +++ arch
        +++ ": "
        +++ what
        +++ " count is "
        +++ itoa got
        +++ ", expected "
        +++ want)
      ∷ []

test_mismatches : List TestRow → String → CountExpect → List String → List String
unfolding of_test count_mismatch
test_mismatches rows name ce [] = []
test_mismatches rows name ce (arch ∷ arches) =
    count_mismatch name arch "PASS" (of_test (λ r. r.pass) name arch rows) ce.pass
    ++ count_mismatch name arch "FAIL" (of_test (λ r. r.fail) name arch rows) ce.fail
    ++ count_mismatch name arch "SKIP" (of_test (λ r. r.skip) name arch rows) ce.skip
    ++ count_mismatch name arch "no-verdict" (of_test (λ r. r.no_verdict) name arch rows)
        ce.no_verdict
    ++ count_mismatch name arch "process" (of_test (λ r. r.processes) name arch rows) ce.processes
    ++ count_mismatch name arch "failed-process" (of_test (λ r. r.failed_processes) name arch rows)
        ce.failed_processes
    ++ test_mismatches rows name ce arches

tests_mismatches : CaseReport → List (String × CountExpect) → List String
unfolding test_mismatches
tests_mismatches r [] = []
tests_mismatches r (t ∷ tests) =
    test_mismatches r.tests t.0 t.1 r.config.arches ++ tests_mismatches r tests

shard_place : ShardReport → String
shard_place s = "shard " +++ s.arch +++ "/" +++ itoa s.shard

status_mismatch : ShardReport → String → List String
unfolding shard_place
status_mismatch s expected =
    if not (str_eq expected "") && not (str_eq s.status expected)
    then (shard_place s
        +++ " is "
        +++ s.status
        +++ ", expected "
        +++ expected
        +++ " (reasons: "
        +++ join "; " s.reasons
        +++ ")")
      ∷ []
    else []

-- The texts of a list in the form of fmt's verb %v.
show_list : List String → String
show_list xs = "[" +++ join " " xs +++ "]"

verdict_mismatch : String → String → List String
verdict_mismatch got expected =
    if not (str_eq got expected)
    then ("verdict is " +++ got +++ ", expected " +++ expected) ∷ []
    else []

problems_mismatch : List String → Option (List String) → List String
unfolding show_list
problems_mismatch got none = []
problems_mismatch got (some expected) =
    let want = sort_strings expected in
    if not (same_texts got want)
    then ("problems are " +++ show_list got +++ ", expected exactly " +++ show_list want) ∷ []
    else []

module _ (quote : String → String) where
  reason_mismatches : ShardReport → List String → List String
  unfolding shard_place
  reason_mismatches s [] = []
  reason_mismatches s (want ∷ wants) =
      let rest = reason_mismatches s wants in
      if has_reason s.reasons want
      then rest
      else (shard_place s
          +++ " lacks the reason "
          +++ quote want
          +++ " (reasons: "
          +++ join "; " s.reasons
          +++ ")")
        ∷ rest

  shard_mismatches : List ShardReport → Expect → List String
  unfolding status_mismatch reason_mismatches
  shard_mismatches [] e = []
  shard_mismatches (s ∷ shards) e =
      status_mismatch s e.shard_status
      ++ reason_mismatches s e.shard_reasons
      ++ shard_mismatches shards e

  pub check_expect : CaseReport → Expect → List String
  unfolding shard_mismatches tests_mismatches verdict_mismatch problems_mismatch
  check_expect r e =
      verdict_mismatch r.verdict e.verdict
      ++ problems_mismatch r.problems e.problems
      ++ tests_mismatches r (insertion_sort (λ s t. str_lt s.0 t.0) e.tests)
      ++ shard_mismatches r.shards e

  set_mismatches : CaseReport → CaseReport
  unfolding check_expect
  set_mismatches r = record {
    case_name = r.case_name;
    config = r.config;
    celeris_sha = r.celeris_sha;
    verdict = r.verdict;
    problems = r.problems;
    mismatches = check_expect r r.config.expect;
    arch_gaps = r.arch_gaps;
    warnings = r.warnings;
    arches = r.arches;
    shards = r.shards;
    tests = r.tests;
    failures = r.failures;
  }

  unfoldable pub judge_case :
      (String → Bool) → (String → Option ShardLog) → Case → String → CaseReport
  unfolding set_mismatches judge_arches report_of
  judge_case is_float logs c celeris_sha =
      set_mismatches
        (report_of c celeris_sha (judge_arches quote is_float logs c celeris_sha c.arches start))

-- The case came out as expected.
unfoldable pub ok : CaseReport → Bool
ok r = is_nil r.mismatches
