-- ===== src/Stresstally/Parse/Tests.antt =====
-- Reading small logs.
use probatorium.Base.{
  Bool, false, List, [], ◌∷◌, String, none, ◌≡◌, refl, cut_prefix, before_blank, trim_suffix,
  contains, atoi, length,
}
use probatorium.Stresstally.Parse.{reason_verdict_without_run}
use probatorium.Stresstally.Parse.Reader.{read_lines}
use probatorium.Stresstally.Parse.Shard.{parse_shard}
use probatorium.Stresstally.Parse.Output.{output_of}
use probatorium.Stresstally.Parse.Flush.{total}
use probatorium.Stresstally.Parse.Counts.{
  all_counts, verdict_lines, run_lines, parse_shard-verdicts,
}
use probatorium.Stresstally.Parse.Runs.{parse_shard-runs}
use probatorium.Stresstally.Parse.Sample.{
  simple, simple_verdict, simple_trailer, simple-IsGo, log_of,
}

abbrev header : List String
header = "stress-header: case=case-1" ∷ "stress-header: arch=x86" ∷ []

abbrev two_tests : List (String × Bool)
two_tests =
    log_of header
      ("=== RUN   TestA" ∷ "=== RUN   TestB" ∷ "--- PASS: TestA (0.01s)" ∷ "--- SKIP: TestB (0.00s)"
        ∷ "ok  \tx" ∷ [])
      "0"

-- TestB never ended, and the log was cut off.
abbrev cut_off : List (String × Bool)
cut_off = log_of header ("=== RUN   TestA" ∷ "=== RUN   TestB" ∷ "--- FAIL: TestA (0.01s)" ∷ []) "1"

cut_off_reasons :
    (parse_shard simple cut_off none).reasons ≡ "no-package-result" ∷ "ran-without-verdict" ∷ []
unfolding parse_shard simple_verdict simple_trailer cut_prefix before_blank trim_suffix contains
    atoi
cut_off_reasons = refl

lines_of_output : length (output_of (read_lines "" two_tests)) ≡ 5
unfolding output_of read_lines cut_prefix trim_suffix
lines_of_output = refl

parse_shard-verdicts_example :
    let results = (parse_shard simple cut_off none).results in
    let ls = output_of (read_lines "" cut_off) in
    (total "TestA" (λ r. r.pass) results ≡ verdict_lines simple "PASS" "TestA" ls)
    × (total "TestA" (λ r. r.fail) results ≡ verdict_lines simple "FAIL" "TestA" ls)
    × (total "TestA" (λ r. r.skip) results ≡ verdict_lines simple "SKIP" "TestA" ls)
parse_shard-verdicts_example = parse_shard-verdicts simple "TestA" cut_off none

none_lacks_run :
    contains reason_verdict_without_run (parse_shard simple cut_off none).reasons ≡ false
unfolding parse_shard simple_verdict simple_trailer cut_prefix before_blank trim_suffix contains
    atoi
none_lacks_run = refl

parse_shard-runs_example :
    total "TestB" all_counts (parse_shard simple cut_off none).results
    ≡ run_lines simple "TestB" (output_of (read_lines "" cut_off))
parse_shard-runs_example = parse_shard-runs simple simple-IsGo "TestB" cut_off none none_lacks_run
