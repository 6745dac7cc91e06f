-- ===== src/Stresstally/Parse/Scan/Lines.antt =====
-- One round of the loop of `parseShard`: what a line does to the state.
use text.Mathlib.Text.{◌==◌ as str_eq, starts_with}
use Prim.Native.String.{◌++◌ as ◌+++◌}
use probatorium.Base.{
  is_some, Fields, ℕ, ◌+◌, ◌-◌, ◌==◌, ltb, pos, if◌then◌else◌, ◌&&◌, ◌||◌, not, Bool, false, List,
  [], ◌∷◌, ◌++◌, String, none, some, is_nil, length, count, cut_prefix, trim_prefix, trim_suffix,
}
use probatorium.Stresstally.Parse.{
  Patterns, put, reason_panic, reason_timeout, reason_fatal, reason_signal, reason_build_failed,
  reason_glued, reason_pkg_fail_no_test,
}
use probatorium.Stresstally.Parse.Reader.{cut_equals, fields_of}
use probatorium.Stresstally.Parse.Excerpt.{last_lines, excerpt, build_errors}
use probatorium.Stresstally.Parse.Scan.{
  Scan, PendingVerdict, reading, complete, broken, new_failure, with_reason, end_panic, start_panic,
  add_runs, flush,
}

abbrev pub ring_lines : ℕ
ring_lines = 400

abbrev pub excerpts_per_key : ℕ
excerpts_per_key = 1

-- The key and the value of a line of the header.
header_entry : String → Fields → Fields
unfolding put cut_equals
header_entry rest header = elim (cut_equals rest) [
  | none ↦ put header rest ""
  | some (k, v) ↦ put header k v
]

unfoldable pub put_header : String → Scan → Scan
unfolding header_entry
put_header rest s = record s { log = record s.log { header = header_entry rest s.log.header } }

unfoldable pub add_failure : String → List String → Scan → Scan
unfolding new_failure
add_failure name lines s =
    if ltb (count (λ f. str_eq f.name name) s.log.failures) excerpts_per_key
    then record s {
      log = record s.log { failures = s.log.failures ++ new_failure "" name lines ∷ [] };
    }
    else s

unfoldable pub add_note : String → Scan → Scan
add_note note s = record s { log = record s.log { notes = s.log.notes ++ note ∷ [] } }

-- `strings.Contains`.
unfoldable pub has_text : String → String → Bool
has_text String.[] t = str_eq t ""
has_text (String.◌∷◌ c s) t = starts_with (String.◌∷◌ c s) t || has_text s t

unfoldable pub is_fail : PendingVerdict → Bool
is_fail v = str_eq v.result "FAIL"

unfoldable pub any_fail : List PendingVerdict → Bool
unfolding is_fail
any_fail [] = false
any_fail (v ∷ pending) = is_fail v || any_fail pending

module _ (p : Patterns) where
  unfoldable pub scan_verdict : String → String → Scan → Scan
  unfolding add_failure excerpt
  scan_verdict result name s0 =
      let s = record s0 {
        verdicts = s0.verdicts + 1;
        pending = s0.pending ++ record { name = name; result = result } ∷ [];
      } in
      if str_eq result "FAIL" then add_failure name (excerpt p s.ring name) s else s

  unfoldable pub count_run : String → Scan → Scan
  unfolding add_runs
  count_run name s = record s { pending_runs = add_runs name (pos 1) s.pending_runs }

  unfoldable pub scan_broken : String → Scan → Scan
  unfolding with_reason new_failure build_errors flush
  scan_broken pkg s0 =
      let s = with_reason reason_build_failed pkg s0 in
      let failure = new_failure pkg "(build failed)" (build_errors p s.ring pkg) in
      flush p pkg (record s { log = record s.log { failures = s.log.failures ++ failure ∷ [] } })

  unfoldable pub scan_ok : String → String → Scan → Scan
  unfolding add_note has_text flush
  scan_ok line pkg s =
      flush p pkg (
        if has_text line "[no tests to run]" then add_note ("no tests to run in " +++ pkg) s else s)

  unfoldable pub scan_fail : String → Scan → Scan
  unfolding with_reason any_fail flush
  scan_fail pkg s =
      flush p pkg (if any_fail s.pending then s else with_reason reason_pkg_fail_no_test pkg s)

  -- The lines after a panic.
  unfoldable pub scan_panic : String → Scan → Scan
  unfolding end_panic is_some
  scan_panic line s =
      let running = str_eq (p.trim_space line) "running tests:" in
      let timed_out =
        if running || not s.in_running then s.log.timed_out else elim (p.running_re line) [
          | none ↦ s.log.timed_out
          | some name ↦ s.log.timed_out ++ name ∷ []
        ] in
      let next = record s {
        log = record s.log { timed_out = timed_out };
        panic_lines = s.panic_lines ++ line ∷ [];
        panic_left = s.panic_left - 1;
        in_running = running || (s.in_running && is_some (p.running_re line));
      } in
      let inside =
        ltb 0 s.panic_left
        && not (is_nil s.panic_lines)
        && not (is_some (p.ok_pkg_re line))
        && not (is_some (p.fail_pkg_re line)) in
      if inside then (if next.panic_left == 0 then end_panic next else next) else s

  -- The cases after those of the packages' results.
  unfoldable pub scan_trouble : String → Scan → Scan
  unfolding with_reason start_panic
  scan_trouble line s =
      if p.timeout_re line
      then start_panic "(timeout)" line (with_reason reason_timeout "" s)
      else if p.panic_re line
      then start_panic "(panic)" line (with_reason reason_panic "" s)
      else if p.fatal_re line
      then start_panic "(fatal error)" line (with_reason reason_fatal "" s)
      else if p.signal_re line
      then with_reason reason_signal (trim_prefix line "signal: ") s
      else if p.race_re line
      then record s { log = record s.log { races = s.log.races + 1 } }
      else s

  unfoldable pub scan_package : String → Scan → Scan
  unfolding scan_broken scan_ok scan_fail add_note scan_trouble
  scan_package line s = elim (p.broken_re line) [
    | some pkg ↦ scan_broken pkg s
    | none ↦ elim (p.ok_pkg_re line) [
      | some pkg ↦ scan_ok line pkg s
      | none ↦ elim (p.fail_pkg_re line) [
        | some pkg ↦ scan_fail pkg s
        | none ↦ elim (p.no_files_re line) [
          | some pkg ↦ add_note ("no test files in " +++ pkg) s
          | none ↦ scan_trouble line s
        ]
      ]
    ]
  ]

  unfoldable pub classify_line : String → Scan → Scan
  unfolding scan_verdict count_run scan_package
  classify_line line s = elim (p.verdict_re line) [
    | some (result, name) ↦ scan_verdict result name s
    | none ↦ elim (p.run_re line) [ some name ↦ count_run name s | none ↦ scan_package line s ]
  ]

  unfoldable pub scan_glued : String → Scan → Scan
  unfolding with_reason is_some
  scan_glued line s = elim (p.glued_re line) [
    | none ↦ s
    | some (result, name) ↦
        if is_some (p.verdict_re line) then s else with_reason reason_glued name s
  ]

  unfoldable pub keep_line : String → Scan → Scan
  unfolding last_lines
  keep_line line s =
      let ring = s.ring ++ line ∷ [] in
      record s { ring = if ltb ring_lines (length ring) then last_lines ring_lines ring else ring }

  -- A line of go test's output.
  unfoldable pub scan_output : String → Scan → Scan
  unfolding scan_panic classify_line scan_glued keep_line
  scan_output line s = keep_line line (scan_glued line (classify_line line (scan_panic line s)))

  -- A line of the body: those that shard.sh writes after go test, or output.
  unfoldable pub scan_body : String → Scan → Scan
  unfolding fields_of scan_output
  scan_body line s0 =
      let s = record s0 { body_lines = s0.body_lines + 1 } in
      if starts_with line "stress-trailer: " then s else elim (cut_prefix "stress-after: " line) [
        | some rest ↦ record s { log = record s.log { after = fields_of (p.words rest) [] } }
        | none ↦ elim (cut_prefix "stress-obs: " line) [
          | some rest ↦ record s {
            log = record s.log { obs = s.log.obs ++ fields_of (p.words rest) [] ∷ [] };
          }
          | none ↦ scan_output line s
        ]
      ]

  -- A line after the header.
  unfoldable pub scan_rest : String → Scan → Scan
  unfolding scan_body
  scan_rest line s = elim (cut_prefix "stress-refused: " line) [
    | none ↦ scan_body line s
    | some rest ↦
        if s.body_lines == 0
        then record s { log = record s.log { refused = rest } }
        else scan_body line s
  ]

  unfoldable pub scan_header : String → Scan → Scan
  unfolding put_header scan_rest
  scan_header line s = elim (cut_prefix "stress-header: " line) [
    | some rest ↦ put_header rest s
    | none ↦
        if str_eq line "stress-header-end" && not (is_nil s.log.header)
        then record s { header_state = complete }
        else scan_rest line (record s { header_state = broken })
  ]

  unfoldable pub scan_line : String → Scan → Scan
  unfolding scan_header scan_rest
  scan_line raw s0 =
      let line = trim_suffix raw "\r" in
      let s = record s0 {
        last_non_empty = if str_eq (p.trim_space line) "" then s0.last_non_empty else line;
      } in
      elim s.header_state [
        | reading ↦ scan_header line s
        | complete ↦ scan_rest line s
        | broken ↦ scan_rest line s
      ]

  unfoldable pub scan_lines : List String → Scan → Scan
  unfolding scan_line
  scan_lines [] s = s
  scan_lines (line ∷ lines) s = scan_lines lines (scan_line line s)
