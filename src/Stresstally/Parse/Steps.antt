-- ===== src/Stresstally/Parse/Steps.antt =====
-- A line of output by the cases that the counts of a log tell apart.
use Prim.Native.String.{◌++◌ as ◌+++◌}
use probatorium.Base.{
  is_some, Bool-cases, trim_prefix, ◌+◌, pos, List, [], ◌∷◌, ◌++◌, String, none, some, ◌≡◌, arith,
  Option-cases, inl, inr,
}
use probatorium.Stresstally.Parse.{
  Patterns, add_reason, reason_timeout, reason_panic, reason_fatal, reason_signal,
  reason_build_failed, reason_pkg_fail_no_test, reason_glued,
}
use probatorium.Stresstally.Parse.Excerpt.{build_errors}
use probatorium.Stresstally.Parse.Scan.{
  Scan, start_scan, new_failure, with_reason, end_panic, start_panic, add_runs, flush,
}
use probatorium.Stresstally.Parse.Scan.Lines.{
  scan_output, scan_panic, classify_line, scan_verdict, count_run, scan_package, scan_broken,
  scan_ok, scan_fail, scan_trouble, scan_glued, keep_line, add_note, add_failure, has_text,
  any_fail, scan_lines,
}
use probatorium.Stresstally.Parse.Output.{Core, core, output_of}
use probatorium.Stresstally.Parse.Output.Loop.{scan_lines-output}

add_failure-core :
    (name : String) (ls : List String) (s : Scan) → core (add_failure name ls s) ≡ core s
unfolding add_failure
add_failure-core name ls s = ground arith

module _ (p : Patterns) where
  scan_panic-core : (l : String) (s : Scan) → core (scan_panic p l s) ≡ core s
  unfolding scan_panic end_panic
  scan_panic-core l s = ground arith

  abbrev with_verdict : String → String → Core → Core
  with_verdict k m c = record c {
    verdicts = c.verdicts + 1;
    pending = c.pending ++ record { name = m; result = k } ∷ [];
  }

  scan_verdict-core :
      (k m : String) (s : Scan) → core (scan_verdict p k m s) ≡ with_verdict k m (core s)
  unfolding scan_verdict add_failure
  scan_verdict-core k m s = ground arith

  -- What holds of the counts and the lines of output so far, kept by each case of a line.
  pub record Keeps (P : Core → List String → Type 0) : Type 0 where
    pub reason :
        (c : Core) (r d : String) (xs : List String)
        → P c xs
        → P (record c { reasons = add_reason r d c.reasons }) xs
    pub closed :
        (s : Scan) (pkg : String) (xs : List String) → P (core s) xs → P (core (flush p pkg s)) xs
    pub verdict :
        (l k m : String) (c : Core) (xs : List String)
        → p.verdict_re l ≡ some (k, m)
        → P c xs
        → P (with_verdict k m c) (xs ++ l ∷ [])
    pub ran :
        (l m : String) (c : Core) (xs : List String)
        → p.verdict_re l ≡ none
        → p.run_re l ≡ some m
        → P c xs
        → P (record c { runs = add_runs m (pos 1) c.runs }) (xs ++ l ∷ [])
    pub other :
        (l : String) (c : Core) (xs : List String)
        → p.verdict_re l ≡ none
        → p.run_re l ≡ none
        → P c xs
        → P c (xs ++ l ∷ [])

  module _ (P : Core → List String → Type 0) (keeps : Keeps P) where
    open keeps use {reason, closed, verdict, ran, other}

    trouble-keeps :
        (l : String) (s : Scan) (xs : List String)
        → P (core s) xs
        → P (core (scan_trouble p l s)) xs
    unfolding scan_trouble with_reason start_panic end_panic
    trouble-keeps l s xs h = elim (Bool-cases (p.timeout_re l)) [
      | inl e ↦ rw e (reason (core s) reason_timeout "" xs h)
      | inr e ↦ rw e (elim (Bool-cases (p.panic_re l)) [
        | inl f ↦ rw f (reason (core s) reason_panic "" xs h)
        | inr f ↦ rw f (elim (Bool-cases (p.fatal_re l)) [
          | inl g ↦ rw g (reason (core s) reason_fatal "" xs h)
          | inr g ↦ rw g (elim (Bool-cases (p.signal_re l)) [
            | inl k ↦ rw k (reason (core s) reason_signal (trim_prefix l "signal: ") xs h)
            | inr k ↦ rw k (elim (Bool-cases (p.race_re l)) [ inl m ↦ rw m h | inr m ↦ rw m h ])
          ])
        ])
      ])
    ]

    broken-keeps :
        (pkg : String) (s : Scan) (xs : List String)
        → P (core s) xs
        → P (core (scan_broken p pkg s)) xs
    unfolding scan_broken with_reason
    broken-keeps pkg s xs h =
        let t = with_reason reason_build_failed pkg s in
        let failure = new_failure pkg "(build failed)" (build_errors p t.ring pkg) in
        closed (record t { log = record t.log { failures = t.log.failures ++ failure ∷ [] } }) pkg
          xs (reason (core s) reason_build_failed pkg xs h)

    ok-keeps :
        (l pkg : String) (s : Scan) (xs : List String)
        → P (core s) xs
        → P (core (scan_ok p l pkg s)) xs
    unfolding scan_ok add_note
    ok-keeps l pkg s xs h = elim (Bool-cases (has_text l "[no tests to run]")) [
      | inl e ↦ rw e (closed (add_note ("no tests to run in " +++ pkg) s) pkg xs h)
      | inr e ↦ rw e (closed s pkg xs h)
    ]

    fail-keeps :
        (pkg : String) (s : Scan) (xs : List String)
        → P (core s) xs
        → P (core (scan_fail p pkg s)) xs
    unfolding scan_fail with_reason
    fail-keeps pkg s xs h = elim (Bool-cases (any_fail s.pending)) [
      | inl e ↦ rw e (closed s pkg xs h)
      | inr e ↦ rw e (
          closed (with_reason reason_pkg_fail_no_test pkg s) pkg xs
            (reason (core s) reason_pkg_fail_no_test pkg xs h))
    ]

    package-keeps :
        (l : String) (s : Scan) (xs : List String)
        → P (core s) xs
        → P (core (scan_package p l s)) xs
    unfolding scan_package add_note
    package-keeps l s xs h = elim (Option-cases (p.broken_re l)) [
      | inr (pkg, e) ↦ rw (e, scan_package) (broken-keeps pkg s xs h)
      | inl e ↦
          rw (e, scan_package)
            (elim (Option-cases (p.ok_pkg_re l)) [
              | inr (pkg, f) ↦ rw (f, scan_package) (ok-keeps l pkg s xs h)
              | inl f ↦
                  rw (f, scan_package)
                    (elim (Option-cases (p.fail_pkg_re l)) [
                      | inr (pkg, g) ↦ rw (g, scan_package) (fail-keeps pkg s xs h)
                      | inl g ↦
                          rw (g, scan_package)
                            (elim (Option-cases (p.no_files_re l)) [
                              | inr (pkg, k) ↦ rw (k, scan_package) h
                              | inl k ↦ rw (k, scan_package) (trouble-keeps l s xs h)
                            ])
                    ])
            ])
    ]

    classify_line-keeps :
        (l : String) (s : Scan) (xs : List String)
        → P (core s) xs
        → P (core (classify_line p l s)) (xs ++ l ∷ [])
    unfolding classify_line count_run
    classify_line-keeps l s xs h = elim (Option-cases (p.verdict_re l)) [
      | inr ((k, m), e) ↦
          rw (e, classify_line) (rw (scan_verdict-core k m s) (verdict l k m (core s) xs e h))
      | inl e ↦
          rw (e, classify_line)
            (elim (Option-cases (p.run_re l)) [
              | inr (m, f) ↦ rw (f, classify_line) (ran l m (core s) xs e f h)
              | inl f ↦
                  rw (f, classify_line)
                    (package-keeps l s (xs ++ l ∷ []) (other l (core s) xs e f h))
            ])
    ]

    glued-keeps :
        (l : String) (s : Scan) (xs : List String) → P (core s) xs → P (core (scan_glued p l s)) xs
    unfolding scan_glued with_reason
    glued-keeps l s xs h = elim (Option-cases (p.glued_re l)) [
      | inl e ↦ rw (e, scan_glued) h
      | inr ((k, m), e) ↦
          rw (e, scan_glued)
            (elim (Bool-cases (is_some (p.verdict_re l))) [
              | inl f ↦ rw (f, scan_glued) h
              | inr f ↦ rw (f, scan_glued) (reason (core s) reason_glued m xs h)
            ])
    ]

    pub output-keeps :
        (l : String) (s : Scan) (xs : List String)
        → P (core s) xs
        → P (core (scan_output p l s)) (xs ++ l ∷ [])
    unfolding scan_output keep_line
    output-keeps l s xs h =
        glued-keeps l (classify_line p l (scan_panic p l s)) (xs ++ l ∷ [])
          (classify_line-keeps l (scan_panic p l s) xs (rw (scan_panic-core l s) h))

    -- So it holds of the output of a log, after its lines.
    pub scan_lines-keeps :
        (ls : List String)
        → P (core start_scan) []
        → P (core (scan_lines p ls start_scan)) (output_of ls)
    scan_lines-keeps ls h = scan_lines-output p P output-keeps ls h
