-- ===== src/Stresstally/Parse/Closing.antt =====
-- What is left to be done at the end of a log: no test is left pending, the results are those of
-- the loop and its last flush, and the reasons given before are kept.
use probatorium.Base.{
  is_nil-eq, ℕ, ℤ, if◌then◌else◌, ◌&&◌, Bool, true, false, List, [], String, Option, none, some,
  ◌≡◌, refl, arith, is_nil, contains, Bool-cases, inl, inr, Option-cases, ◌∙◌,
}
use probatorium.Stresstally.Judge.{ShardLog}
use probatorium.Stresstally.Judge.Shape.{reason_no_header}
use probatorium.Stresstally.Parse.{Patterns, reason_unreadable, reason_unterminated}
use probatorium.Stresstally.Parse.Reader.{read_lines}
use probatorium.Stresstally.Parse.Scan.{Scan, start_scan, with_reason, end_panic, flush}
use probatorium.Stresstally.Parse.Scan.Lines.{scan_lines}
use probatorium.Stresstally.Parse.Shard.{
  note_error, is_complete, with_log_reason, check_status, check_exit, check_refused, check_verdicts,
  close_package, close_failures, read_trailer, finish, parse_shard,
}
use probatorium.Stresstally.Parse.Output.{Core, core, output_of}
use probatorium.Stresstally.Parse.Steps.{Keeps, scan_lines-keeps}
use probatorium.Stresstally.Parse.Flush.{contains-add_reason}

-- A later log with the results of an earlier one and at least its reasons.
pub record Extends (a b : ShardLog) : Type 0 where
  pub results : b.results ≡ a.results
  pub reasons : (x : String) → contains x b.reasons ≡ false → contains x a.reasons ≡ false

Extends-trans : {a b c : ShardLog} → Extends a b → Extends b c → Extends a c
Extends-trans f g = record {
  results = g.results ∙ f.results;
  reasons = λ x h. f.reasons x (g.reasons x h);
}

Extends-refl : {a : ShardLog} → Extends a a
Extends-refl = record { results = refl; reasons = λ x h. h }

with_log_reason-Extends : (r d : String) (log : ShardLog) → Extends log (with_log_reason r d log)
unfolding with_log_reason
with_log_reason-Extends r d log = record {
  results = refl;
  reasons = λ x h. ground (arith, contains-add_reason x r d log.reasons, h);
}

if-Extends :
    (b : Bool) {a x y : ShardLog} → Extends a x → Extends a y → Extends a (if b then x else y)
if-Extends true f g = f
if-Extends false f g = g

check_status-Extends : (code : Option ℤ) (log : ShardLog) → Extends log (check_status code log)
unfolding check_status
check_status-Extends none log = search with_log_reason-Extends
check_status-Extends (some code) log = search (if-Extends, with_log_reason-Extends, Extends-refl)

check_exit-Extends : (log : ShardLog) → Extends log (check_exit log)
unfolding check_exit
check_exit-Extends log = search (if-Extends, check_status-Extends, Extends-refl)

check_refused-Extends : (log : ShardLog) → Extends log (check_refused log)
unfolding check_refused
check_refused-Extends log = search (if-Extends, with_log_reason-Extends, Extends-refl)

check_verdicts-Extends : (n : ℕ) (log : ShardLog) → Extends log (check_verdicts n log)
unfolding check_verdicts
check_verdicts-Extends n log = search (if-Extends, with_log_reason-Extends, Extends-refl)

module _ (p : Patterns) where
  read_trailer-Extends : (line : String) (log : ShardLog) → Extends log (read_trailer p line log)
  unfolding read_trailer
  read_trailer-Extends line log = elim (Option-cases (p.trailer_re line)) [
    | inl e ↦ rw (e, read_trailer) (search with_log_reason-Extends)
    | inr ((exit, elapsed), e) ↦
        rw (e, read_trailer) (record { results = refl; reasons = λ x h. h })
  ]

  -- The state before the end, with what the end says of the reader and of the header.
  unfoldable pub ended : List String → Option String → Scan
  ended ls read_error =
      let s = note_error read_error (scan_lines p ls start_scan) in
      if is_complete s.header_state then s else with_reason reason_no_header "" s

  -- The log of the last flush.
  unfoldable pub closing : List (String × Bool) → Option String → Scan
  unfolding ended
  closing chunks read_error = close_package p (ended (read_lines "" chunks) read_error)

  pub parse_shard-Extends :
      (chunks : List (String × Bool)) (read_error : Option String)
      → Extends (closing chunks read_error).log (parse_shard p chunks read_error)
  unfolding parse_shard finish closing ended close_failures end_panic
  parse_shard-Extends chunks read_error =
      let s = closing chunks read_error in
      let t = close_failures p s in
      let a = read_trailer p t.last_non_empty t.log in
      let b = check_refused a in
      let c = check_verdicts t.verdicts b in
      let first : Extends s.log t.log = record { results = refl; reasons = λ x h. h } in
      Extends-trans first (
        Extends-trans (read_trailer-Extends t.last_non_empty t.log) (
          Extends-trans (check_refused-Extends a)
            (Extends-trans (check_verdicts-Extends t.verdicts b) (check_exit-Extends c))))

  close_package-none :
      (s : Scan) → ((close_package p s).pending ≡ []) × ((close_package p s).pending_runs ≡ [])
  unfolding close_package flush with_reason end_panic
  close_package-none s = elim (Bool-cases (is_nil s.pending && is_nil s.pending_runs)) [
    | inl e ↦
        rw (e, close_package)
          (
            (is_nil-eq s.pending).0 (ground (arith, e)),
            (is_nil-eq s.pending_runs).0 (ground (arith, e)),
          )
    | inr e ↦ rw (e, close_package) (refl, refl)
  ]

  pub closing-none :
      (chunks : List (String × Bool)) (read_error : Option String)
      → ((closing chunks read_error).pending ≡ []) × ((closing chunks read_error).pending_runs ≡ [])
  unfolding closing
  closing-none chunks read_error = close_package-none (ended (read_lines "" chunks) read_error)

  module _ (P : Core → List String → Type 0) (keeps : Keeps p P) where
    note_error-keeps :
        (read_error : Option String) (s : Scan) (xs : List String)
        → P (core s) xs
        → P (core (note_error read_error s)) xs
    unfolding note_error with_reason
    note_error-keeps none s xs h = h
    note_error-keeps (some e) s xs h = keeps.reason (core s) reason_unreadable e xs h

    ended-keeps :
        (ls : List String) (read_error : Option String)
        → P (core start_scan) []
        → P (core (ended ls read_error)) (output_of ls)
    unfolding ended with_reason
    ended-keeps ls read_error h =
        let s = note_error read_error (scan_lines p ls start_scan) in
        let before =
          note_error-keeps read_error (scan_lines p ls start_scan) (output_of ls)
            (scan_lines-keeps p P keeps ls h) in
        elim (Bool-cases (is_complete s.header_state)) [
          | inl e ↦ rw e before
          | inr e ↦ rw e (keeps.reason (core s) reason_no_header "" (output_of ls) before)
        ]

    -- What each case of a line keeps holds of a log's results and its output.
    pub closing-keeps :
        (chunks : List (String × Bool)) (read_error : Option String)
        → P (core start_scan) []
        → P (core (closing chunks read_error)) (output_of (read_lines "" chunks))
    unfolding closing close_package output_of
    closing-keeps chunks read_error h =
        let s = ended (read_lines "" chunks) read_error in
        let xs = output_of (read_lines "" chunks) in
        let before = ended-keeps (read_lines "" chunks) read_error h in
        elim (Bool-cases (is_nil s.pending && is_nil s.pending_runs)) [
          | inl e ↦ rw (e, close_package) before
          | inr e ↦
              rw (e, close_package)
                (keeps.closed (with_reason reason_unterminated "" s) "(no package result)" xs
                  (keeps.reason (core s) reason_unterminated "" xs before))
        ]
