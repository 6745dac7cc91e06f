-- ===== src/Stresstally/Judge.antt =====
-- tools/stresstally/judge.go: the judgement of one case from the logs of its shards. A log is an
-- input, as the parser of parse.go reads it; where no file has a log's name there is none. Counts
-- are natural numbers. A map is a list of its entries. The rates of failing processes and their
-- intervals, which are floating-point numbers that only the report shows, are left out.
pub mod Shape
pub mod Shards
pub mod Problems
pub mod Report
pub mod Expectations
pub mod Tally
pub mod Flaws
pub mod Gaps
pub mod Complete
pub mod Completeness
pub mod Verdict
pub mod Totals
mod Tests
use text.Mathlib.Text.{◌==◌ as str_eq}
use Prim.Native.String.{◌++◌ as ◌+++◌}
use probatorium.Base.{
  Fields, ℕ, if◌then◌else◌, Bool, true, false, List, [], ◌∷◌, String, Option, none, some, itoa,
}

abbrev pub status_complete : String
status_complete = "complete"

abbrev pub status_unparsed : String
status_unparsed = "UNPARSED"

abbrev pub status_missing : String
status_missing = "MISSING"

abbrev pub status_wrong_shape : String
status_wrong_shape = "WRONG-SHAPE"

pub record CountExpect : Type 0 where
  pub pass : String
  pub fail : String
  pub skip : String
  pub no_verdict : String
  pub processes : String
  pub failed_processes : String

pub record Expect : Type 0 where
  pub verdict : String
  pub problems : Option (List String)
  pub tests : List (String × CountExpect)
  pub shard_status : String
  pub shard_reasons : List String

pub record Case : Type 0 where
  pub name : String
  pub purpose : String
  pub packages : List String
  pub run : String
  pub count : ℕ
  pub shards : ℕ
  pub arches : List String
  pub memlock : String
  pub race : Bool
  pub timeout : String
  pub flags : List String
  pub env : List String
  pub shuffle : String
  pub expect : Expect
  pub target : String
  pub mode : String
  pub cpus : ℕ
  pub pmu : String

-- One entry of a log's results: a test of a package with its counts.
pub record TestResult : Type 0 where
  pub pkg : String
  pub name : String
  pub pass : ℕ
  pub fail : ℕ
  pub skip : ℕ
  pub no_verdict : ℕ

pub record Failure : Type 0 where
  pub pkg : String
  pub name : String
  pub arch : String
  pub shard : ℕ
  pub shuffle : String
  pub lines : List String

pub record ShardLog : Type 0 where
  pub header : Fields
  pub exit : String
  pub elapsed : String
  pub refused : String
  pub results : List TestResult
  pub reasons : List String
  pub notes : List String
  pub failures : List Failure
  pub races : ℕ
  pub timed_out : List String
  pub after : Fields
  pub obs : List Fields

unfoldable pub log_name : String → String → ℕ → String
log_name case_name arch shard = case_name +++ "__" +++ arch +++ "__" +++ itoa shard +++ ".log"
