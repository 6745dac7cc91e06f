-- ===== src/Stresstally/Parse/Sound.antt =====
-- What a log without a reason shows of go test's run.
use text.Mathlib.TextEquality.{eq_iff}
use probatorium.Base.{
  is_some, ℕ, ◌+◌, ◌<◌, ℤ, pos, atoi, Bool, true, false, List, [], ◌∷◌, String, Option, none, some,
  ◌≡◌, ◌↔◌, refl, arith, sum, count, contains,
}
use probatorium.Stresstally.Judge.{TestResult}
use probatorium.Stresstally.Parse.{Patterns, reason_ran_without_verdict}
use probatorium.Stresstally.Parse.Reader.{read_lines}
use probatorium.Stresstally.Parse.Shard.{failing, parse_shard}
use probatorium.Stresstally.Parse.Output.{Core, output_of}
use probatorium.Stresstally.Parse.Flush.{total}
use probatorium.Stresstally.Parse.Counts.{verdict_lines, run_lines, parse_shard-verdicts}
use probatorium.Stresstally.Parse.Runs.{IsGo}
use probatorium.Stresstally.Parse.Trouble.{is_trouble}
use probatorium.Stresstally.Parse.Header.{has_header}

-- The failures of all tests are none just where those of each are.
failing-total :
    (m : String) (results : List TestResult)
    → sum (λ r. r.fail) results ≡ 0
    → total m (λ r. r.fail) results ≡ 0
failing-total m [] h = refl
failing-total m (r ∷ results) h =
    let rest = failing-total m results (omega arith) in ground (arith, rest, h)

total-failing :
    (results : List TestResult)
    → ((m : String) → total m (λ r. r.fail) results ≡ 0)
    → sum (λ r. r.fail) results ≡ 0
total-failing [] h = refl
total-failing (r ∷ results) h =
    let first = h r.name in
    let rest = total-failing results (λ m. let k = h m in omega arith) in
    ground (arith, first, rest, (eq_iff r.name r.name).1 refl)

module _ (p : Patterns) where
  -- A verdict line of any kind on any test.
  abbrev pub any_verdict_lines : List String → ℕ
  any_verdict_lines ls = count (λ l. is_some (p.verdict_re l)) ls

  NoneLeft : String → Core → List String → Type 0
  NoneLeft m c xs =
      contains reason_ran_without_verdict c.reasons ≡ false
      → total m (λ r. r.no_verdict) c.results ≡ 0

  -- A log shows a complete run of go test: it begins with its header and is read to its end; some
  -- verdict was given, each run of a test has its verdict and no verdict lacks its run; nothing
  -- crashed, was killed or failed to build, and no verdict is glued to other output; and the exit
  -- status, a number, is zero just where no verdict is FAIL.
  pub record IsSound (chunks : List (String × Bool)) (read_error : Option String) : Type 0 where
    pub readable : read_error ≡ none
    pub header : has_header false (read_lines "" chunks) ≡ true
    pub some_verdict : 0 < any_verdict_lines (output_of (read_lines "" chunks))
    pub judged :
        (m : String)
        → let ls = output_of (read_lines "" chunks) in
          run_lines p m ls
          ≡ verdict_lines p "PASS" m ls + verdict_lines p "FAIL" m ls + verdict_lines p "SKIP" m ls
    pub no_trouble : count (is_trouble p) (output_of (read_lines "" chunks)) ≡ 0
    pub exits :
        (code : ℤ) × (atoi (parse_shard p chunks read_error).exit ≡ some code)
        × ((code ≡ pos 0)
            ↔ ((m : String) → verdict_lines p "FAIL" m (output_of (read_lines "" chunks)) ≡ 0))

  module _ (go : IsGo p) (chunks : List (String × Bool)) (read_error : Option String)
      (clean : (parse_shard p chunks read_error).reasons ≡ []) where
    pub failing-lines :
        (failing (parse_shard p chunks read_error) ≡ 0)
        ↔ ((m : String) → verdict_lines p "FAIL" m (output_of (read_lines "" chunks)) ≡ 0)
    unfolding failing
    failing-lines =
        let results = (parse_shard p chunks read_error).results in
        (
          λ z m.
              let k = failing-total m results z in
              let (passes, fails, skips) = parse_shard-verdicts p m chunks read_error in
              omega (arith, k, fails),
          λ all. total-failing results (λ m.
              let z = all m in
              let (passes, fails, skips) = parse_shard-verdicts p m chunks read_error in
              omega (arith, z, fails)),
        )
