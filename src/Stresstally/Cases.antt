-- ===== src/Stresstally/Cases.antt =====
-- tools/stresstally: a case judged from the files of its logs: judge.go over the logs that parse.go
-- reads.
mod Tests
use probatorium.Base.{
  ℕ, ◌+◌, ◌≤◌, ◌&&◌, if◌then◌else◌, Bool, true, false, List, [], ◌∷◌, String, Option, none, some,
  ◌≡◌, ◌⊎◌, refl, ◌∙◌,
}
use probatorium.Stresstally.Judge.{Case, ShardLog, TestResult}
use probatorium.Stresstally.Judge.Report.{CaseReport}
use probatorium.Stresstally.Judge.Expectations.{judge_case}
use probatorium.Stresstally.Judge.Tally.{from_log}
use probatorium.Stresstally.Judge.Verdict.{counted}
use probatorium.Stresstally.Parse.{Patterns, new_shard_log, reason_unreadable}
use probatorium.Stresstally.Parse.Reader.{read_lines}
use probatorium.Stresstally.Parse.Output.{output_of}
use probatorium.Stresstally.Parse.Shard.{parse_shard, with_log_reason}
use probatorium.Stresstally.Parse.Counts.{verdict_lines}
use probatorium.Stresstally.Parse.Sound.{IsSound}

-- A file that is there: it cannot be opened, or the reader gives these pieces and this error.
pub data LogFile : Type 0 where
  unopened : String → LogFile
  opened : List (String × Bool) → Option String → LogFile

module _ (p : Patterns) where
  unfoldable pub parse_shard_file : LogFile → ShardLog
  unfolding new_shard_log with_log_reason parse_shard
  parse_shard_file (unopened e) = with_log_reason reason_unreadable e new_shard_log
  parse_shard_file (opened chunks read_error) = parse_shard p chunks read_error

  -- The log of a file, where there is one.
  unfoldable pub log_of_file : Option LogFile → Option ShardLog
  unfolding parse_shard_file
  log_of_file none = none
  log_of_file (some f) = some (parse_shard_file f)

  -- A file shows that a run passed: it is a sound log in which no verdict is FAIL.
  abbrev pub ShowsPass : Option LogFile → Type 0
  ShowsPass none = ⊥
  ShowsPass (some (unopened e)) = ⊥
  ShowsPass (some (opened chunks read_error)) =
      IsSound p chunks read_error
      × ((m : String) → verdict_lines p "FAIL" m (output_of (read_lines "" chunks)) ≡ 0)

  module _ (quote : String → String) (is_float : String → Bool) (files : String → Option LogFile)
      (c : Case) (celeris_sha : String) where
    logs : String → Option ShardLog
    logs name = log_of_file (files name)

    -- The files are where the code looks for the logs of the case.
    unfoldable pub judge_files : CaseReport
    unfolding logs log_of_file judge_case
    judge_files = judge_case quote is_float logs c celeris_sha

    module _ (g : TestResult → ℕ) where
      abbrev log_count : String → ℕ → Option LogFile → ℕ
      log_count a shard f =
          from_log quote is_float logs c celeris_sha (λ pkg name y. true) g a shard (log_of_file f)
