-- ===== src/Stresstally/Parse/Output.antt =====
-- The lines of a log that are output of go test, told apart without the state of the loop: what
-- follows the header, less the refusals at its top and the lines that shard.sh writes itself.
pub mod Lines
pub mod Loop
use text.Mathlib.Text.{◌==◌ as str_eq, starts_with}
use probatorium.Base.{
  is_some, Fields, ap, ℕ, ◌+◌, ◌<◌, if◌then◌else◌, ◌&&◌, ◌||◌, not, Bool, true, false, List, [],
  ◌∷◌, ◌++◌, String, ◌≡◌, refl, is_nil, arith, ◌∙◌, cut_prefix, trim_suffix, ℤ, append-nil,
  append_assoc, Bool-cases, inl, inr,
}
use probatorium.Stresstally.Judge.{TestResult}
use probatorium.Stresstally.Parse.{Patterns, put}
use probatorium.Stresstally.Parse.Scan.{
  Scan, start_scan, PendingVerdict, HeaderState, reading, complete, broken, with_reason,
  start_panic, end_panic, flush,
}
use probatorium.Stresstally.Parse.Scan.Lines.{
  put_header, scan_output, scan_panic, classify_line, scan_verdict, count_run, scan_package,
  scan_broken, scan_ok, scan_fail, scan_trouble, scan_glued, keep_line, add_note, add_failure,
  scan_body, scan_rest, scan_header, scan_line, scan_lines,
}

unfoldable pub trim_cr : String → String
trim_cr l = trim_suffix l "\r"

-- The lines after the header; `seen` tells whether a line of it stands before.
after_header : Bool → List String → List String
unfolding trim_cr
after_header seen [] = []
after_header seen (l ∷ ls) =
    if is_some (cut_prefix "stress-header: " (trim_cr l))
    then after_header true ls
    else if str_eq (trim_cr l) "stress-header-end" && seen
    then ls
    else l ∷ ls

without_refusals : List String → List String
unfolding trim_cr
without_refusals [] = []
without_refusals (l ∷ ls) =
    if is_some (cut_prefix "stress-refused: " (trim_cr l)) then without_refusals ls else l ∷ ls

pub is_own : String → Bool
is_own l =
    starts_with l "stress-trailer: "
    || (is_some (cut_prefix "stress-after: " l) || is_some (cut_prefix "stress-obs: " l))

without_own : List String → List String
unfolding trim_cr is_own
without_own [] = []
without_own (l ∷ ls) = if is_own (trim_cr l) then without_own ls else trim_cr l ∷ without_own ls

unfoldable pub output_of : List String → List String
unfolding after_header without_refusals without_own is_some
output_of ls = without_own (without_refusals (after_header false ls))

-- What the counts of a log rest on.
pub record Core : Type 0 where
  pub results : List TestResult
  pub reasons : List String
  pub verdicts : ℕ
  pub pending : List PendingVerdict
  pub runs : List (String × ℤ)

abbrev pub core : Scan → Core
core s = record {
  results = s.log.results;
  reasons = s.log.reasons;
  verdicts = s.verdicts;
  pending = s.pending;
  runs = s.pending_runs;
}

unfoldable pub is_reading : HeaderState → Bool
is_reading reading = true
is_reading complete = false
is_reading broken = false
