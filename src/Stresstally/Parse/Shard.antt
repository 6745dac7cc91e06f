-- ===== src/Stresstally/Parse/Shard.antt =====
-- `parseShard`: the loop over the lines of a log, and what is judged at its end.
use text.Mathlib.Text.{◌==◌ as str_eq}
use Prim.Native.String.{◌++◌ as ◌+++◌}
use probatorium.Base.{
  ℕ, ◌==◌, ltb, ℤ, pos, negsuc, itoa, itoa_ℤ, atoi, if◌then◌else◌, ◌&&◌, ◌||◌, not, Bool, true,
  false, List, String, Option, none, some, map, is_nil, sum,
}
use probatorium.Stresstally.Judge.{ShardLog}
use probatorium.Stresstally.Judge.Shape.{reason_no_header}
use probatorium.Stresstally.Parse.{
  Patterns, add_reason, reason_unreadable, reason_unterminated, reason_no_trailer, reason_refused,
  reason_no_verdicts, reason_exit_mismatch,
}
use probatorium.Stresstally.Parse.Reader.{read_lines}
use probatorium.Stresstally.Parse.Scan.{
  Scan, HeaderState, reading, complete, broken, start_scan, with_reason, end_panic, fill_pkg, flush,
}
use probatorium.Stresstally.Parse.Scan.Lines.{scan_lines}

unfoldable pub note_error : Option String → Scan → Scan
unfolding with_reason
note_error none s = s
note_error (some e) s = with_reason reason_unreadable e s

unfoldable pub is_complete : HeaderState → Bool
is_complete reading = false
is_complete complete = true
is_complete broken = false

unfoldable pub with_log_reason : String → String → ShardLog → ShardLog
unfolding add_reason
with_log_reason r detail log = record log { reasons = add_reason r detail log.reasons }

unfoldable pub failing : ShardLog → ℕ
failing log = sum (λ r. r.fail) log.results

-- The exit status of go test against the verdicts.
unfoldable pub check_status : Option ℤ → ShardLog → ShardLog
unfolding with_log_reason failing
check_status none log =
    with_log_reason reason_exit_mismatch ("unreadable exit status " +++ log.exit) log
check_status (some code) log =
    let zero_status = elim code as (λ _. Bool) [ pos n ↦ n == 0 | negsuc n ↦ false ] in
    if zero_status && ltb 0 (failing log)
    then with_log_reason reason_exit_mismatch
        ("exit 0 with " +++ itoa (failing log) +++ " FAIL verdict(s)") log
    else if not zero_status && (failing log == 0 && is_nil log.reasons)
    then with_log_reason reason_exit_mismatch
        ("exit " +++ itoa_ℤ code +++ " without a FAIL verdict") log
    else log

unfoldable pub check_exit : ShardLog → ShardLog
unfolding check_status
check_exit log =
    if str_eq log.exit "" || str_eq log.exit "refused"
    then log
    else check_status (atoi log.exit) log

unfoldable pub check_refused : ShardLog → ShardLog
unfolding with_log_reason
check_refused log =
    if str_eq log.exit "refused" || not (str_eq log.refused "")
    then with_log_reason reason_refused log.refused log
    else log

unfoldable pub check_verdicts : ℕ → ShardLog → ShardLog
unfolding with_log_reason
check_verdicts verdicts log =
    if verdicts == 0 && str_eq log.refused ""
    then with_log_reason reason_no_verdicts "" log
    else log

module _ (p : Patterns) where
  unfoldable pub close_package : Scan → Scan
  unfolding with_reason flush
  close_package s =
      if is_nil s.pending && is_nil s.pending_runs
      then s
      else flush p "(no package result)" (with_reason reason_unterminated "" s)

  unfoldable pub close_failures : Scan → Scan
  unfolding end_panic fill_pkg
  close_failures s0 =
      let s = end_panic s0 in
      record s {
        log = record s.log { failures = map (fill_pkg "(no package result)") s.log.failures };
      }

  unfoldable pub read_trailer : String → ShardLog → ShardLog
  unfolding with_log_reason
  read_trailer line log = elim (p.trailer_re line) [
    | some (exit, elapsed) ↦ record log { exit = exit; elapsed = elapsed }
    | none ↦ with_log_reason reason_no_trailer "" log
  ]

  unfoldable pub finish : Scan → ShardLog
  unfolding with_reason is_complete close_package close_failures read_trailer check_refused
      check_verdicts check_exit
  finish s0 =
      let s1 = if is_complete s0.header_state then s0 else with_reason reason_no_header "" s0 in
      let s = close_failures (close_package s1) in
      check_exit (check_verdicts s.verdicts (check_refused (read_trailer s.last_non_empty s.log)))

  -- The pieces that the reader gives of a log, and the error that it ends with, if it is not EOF.
  unfoldable pub parse_shard : List (String × Bool) → Option String → ShardLog
  unfolding read_lines scan_lines start_scan note_error finish
  parse_shard chunks read_error =
      finish (note_error read_error (scan_lines p (read_lines "" chunks) start_scan))
