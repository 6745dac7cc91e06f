-- ===== src/Stresstally/Judge/Tests.antt =====
-- The judgement on concrete logs.
use probatorium.Base.{
  ℕ, true, false, List, [], ◌∷◌, String, Option, none, some, ◌≡◌, refl, itoa, contains,
  if◌then◌else◌, insertion_sort, join, str_lt, cut_prefix, atoi,
}
use text.Mathlib.Text.{◌==◌ as str_eq}
use probatorium.Stresstally.Judge.{Case, Expect, ShardLog, TestResult}
use probatorium.Stresstally.Judge.Shape.{wanted}
use probatorium.Stresstally.Judge.Problems.{
  arch_total, add_if, arch_gaps, find_problems, total_arches,
}
use probatorium.Stresstally.Judge.Expectations.{judge_case, count_matches, ok}
use probatorium.Stresstally.Judge.Verdict.{IsClean, judge_case-IsClean}
use probatorium.Stresstally.Judge.Totals.{in_reports, judge_case-totals}

abbrev expect_pass : Expect
expect_pass = record {
  verdict = "PASS";
  problems = none;
  tests = [];
  shard_status = "";
  shard_reasons = [];
}

abbrev small : Case
small = record {
  name = "case-1";
  purpose = "";
  packages = "./x" ∷ [];
  run = "TestX";
  count = 12;
  shards = 2;
  arches = "x86" ∷ "arm64" ∷ [];
  memlock = "8m";
  race = true;
  timeout = "10m";
  flags = [];
  env = [];
  shuffle = "";
  expect = expect_pass;
  target = "";
  mode = "";
  cpus = 0;
  pmu = "";
}

abbrev one_result : ℕ → ℕ → List TestResult
one_result pass fail =
    record { pkg = "x"; name = "TestX"; pass = pass; fail = fail; skip = 0; no_verdict = 0 } ∷ []

abbrev log_at : String → ℕ → List TestResult → ShardLog
log_at arch shard results = record {
  header = wanted small arch shard "";
  exit = "0";
  elapsed = "1";
  refused = "";
  results = results;
  reasons = [];
  notes = [];
  failures = [];
  races = 0;
  timed_out = [];
  after = [];
  obs = [];
}

-- The files of a run in which every shard passed; the last shard of arm64 has the given results.
abbrev logs_with : List TestResult → String → Option ShardLog
logs_with last name =
    if str_eq name "case-1__x86__1.log"
    then some (log_at "x86" 1 (one_result 12 0))
    else if str_eq name "case-1__x86__2.log"
    then some (log_at "x86" 2 (one_result 12 0))
    else if str_eq name "case-1__arm64__1.log"
    then some (log_at "arm64" 1 [])
    else if str_eq name "case-1__arm64__2.log"
    then some (log_at "arm64" 2 last)
    else none

abbrev judged_with : List TestResult → String
judged_with last = (judge_case (λ s. s) (λ s. false) (logs_with last) small "").verdict

-- The second run has a failure, and in the third the test never ran on arm64.
verdicts :
    (judged_with (one_result 12 0) ≡ "PASS")
    × (judged_with (one_result 11 1) ≡ "FAIL")
    × (judged_with [] ≡ "FAIL")
    × (ok (judge_case (λ s. s) (λ s. false) (logs_with (one_result 12 0)) small "") ≡ true)
unfolding judge_case wanted ok insertion_sort add_if arch_gaps itoa join contains find_problems
    total_arches str_lt
verdicts = (refl, refl, refl, refl)

bounds :
    (count_matches 3 "" ≡ true)
    × (count_matches 3 ">=3" ≡ true)
    × (count_matches 3 ">=4" ≡ false)
    × (count_matches 3 "+3" ≡ true)
    × (count_matches 0 ">=-1" ≡ true)
    × (count_matches 3 "three" ≡ false)
    × (count_matches 4096 "4096" ≡ true)
unfolding count_matches cut_prefix atoi
bounds = (refl, refl, refl, refl, refl, refl, refl)

judge_case-IsClean_example : IsClean (λ s. s) (λ s. false) (logs_with (one_result 12 0)) small ""
judge_case-IsClean_example =
    (judge_case-IsClean (λ s. s) (λ s. false) (logs_with (one_result 12 0)) small "").0 verdicts.0

judge_case-totals_example :
    let report = judge_case (λ s. s) (λ s. false) (logs_with (one_result 11 1)) small "" in
    let total = arch_total "arm64" report.shards report.tests in
    (total.pass ≡ in_reports (λ s. s.pass) "arm64" report.shards)
    × (total.fail ≡ in_reports (λ s. s.fail) "arm64" report.shards)
    × (total.skip ≡ in_reports (λ s. s.skip) "arm64" report.shards)
    × (total.no_verdict ≡ in_reports (λ s. s.no_verdict) "arm64" report.shards)
judge_case-totals_example =
    judge_case-totals (λ s. s) (λ s. false) (logs_with (one_result 11 1)) small "" "arm64"
