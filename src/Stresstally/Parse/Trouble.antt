-- ===== src/Stresstally/Parse/Trouble.antt =====
-- The lines that by themselves give a reason against a log: a build that failed, a panic, a
-- timeout, a fatal error, a signal, and a verdict glued to other output.
use Prim.Native.String.{◌++◌ as ◌+++◌}
use probatorium.Base.{
  is_some, zero, suc, ℤ, pos, negsuc, if◌then◌else◌, ◌&&◌, ◌||◌, not, Bool, true, false, List, [],
  ◌∷◌, ◌++◌, String, ◌≡◌, refl, arith, is_nil, count, count-append, Bool-cases, Option-cases, inl,
  inr, trim_prefix,
}
use probatorium.Stresstally.Judge.{ShardLog}
use probatorium.Stresstally.Parse.{
  Patterns, add_reason, reason_timeout, reason_panic, reason_fatal, reason_signal,
  reason_build_failed, reason_pkg_fail_no_test, reason_glued,
}
use probatorium.Stresstally.Parse.Excerpt.{build_errors}
use probatorium.Stresstally.Parse.Scan.{
  Scan, start_scan, with_reason, end_panic, start_panic, settle_run, settle_runs, flush,
  new_failure, take_runs, count_results,
}
use probatorium.Stresstally.Parse.Scan.Lines.{
  scan_output, scan_panic, classify_line, scan_verdict, count_run, scan_package, scan_broken,
  scan_ok, scan_fail, scan_trouble, scan_glued, keep_line, add_note, add_failure, has_text,
  any_fail, scan_lines,
}
use probatorium.Stresstally.Parse.Output.{output_of}
use probatorium.Stresstally.Parse.Output.Loop.{scan_lines-output}

abbrev pub Free : Scan → Type 0
Free s = is_nil s.log.reasons ≡ true

pub is_nil-add_reason :
    (r d : String) (reasons : List String) → is_nil (add_reason r d reasons) ≡ false
unfolding add_reason
is_nil-add_reason r d [] = ground arith
is_nil-add_reason r d (x ∷ reasons) = ground arith

is_nil-settle_run :
    (pkg name : String) (n : ℤ) (log : ShardLog)
    → is_nil (settle_run pkg name n log).reasons ≡ true
    → is_nil log.reasons ≡ true
unfolding settle_run
is_nil-settle_run pkg name (pos zero) log h = h
is_nil-settle_run pkg name (pos (suc n)) log h = grind (arith, is_nil-add_reason)
is_nil-settle_run pkg name (negsuc n) log h = grind (arith, is_nil-add_reason)

is_nil-settle_runs :
    (pkg : String) (runs : List (String × ℤ)) (log : ShardLog)
    → is_nil (settle_runs pkg runs log).reasons ≡ true
    → is_nil log.reasons ≡ true
unfolding settle_runs
is_nil-settle_runs pkg [] log h = h
is_nil-settle_runs pkg (r ∷ runs) log h =
    is_nil-settle_run pkg r.0 r.1 log (is_nil-settle_runs pkg runs (settle_run pkg r.0 r.1 log) h)

with_reason-Free : (r d : String) (s : Scan) → Free (with_reason r d s) → Free s
unfolding with_reason
with_reason-Free r d s h = grind (arith, is_nil-add_reason)

pub not_Free : (r d : String) (s : Scan) → is_nil (with_reason r d s).log.reasons ≡ false
unfolding with_reason
not_Free r d s = is_nil-add_reason r d s.log.reasons

module _ (p : Patterns) where
  -- A line after a panic, a timeout, a fatal error or a signal.
  is_crash : String → Bool
  is_crash l = p.timeout_re l || (p.panic_re l || (p.fatal_re l || p.signal_re l))

  -- In the order in which the code tries the patterns.
  unfoldable pub is_trouble : String → Bool
  unfolding is_crash is_some
  is_trouble l =
      not (is_some (p.verdict_re l))
      && (is_some (p.glued_re l)
          || (not (is_some (p.run_re l))
              && (is_some (p.broken_re l)
                  || (not (is_some (p.ok_pkg_re l))
                      && (not (is_some (p.fail_pkg_re l))
                          && (not (is_some (p.no_files_re l)) && is_crash l))))))

  pub flush-Free : (pkg : String) (s : Scan) → Free (flush p pkg s) → Free s
  unfolding flush end_panic
  flush-Free pkg s h =
      is_nil-settle_runs pkg (p.ranged (take_runs s.pending s.pending_runs))
        (record (end_panic s).log { results = count_results pkg s.pending s.log.results }) h

  trouble-Free : (l : String) (s : Scan) → Free (scan_trouble p l s) → Free s × (is_crash l ≡ false)
  unfolding scan_trouble start_panic end_panic is_crash
  trouble-Free l s h =
      let a = not_Free reason_timeout "" s in
      let b = not_Free reason_panic "" s in
      let c = not_Free reason_fatal "" s in
      let d = not_Free reason_signal (trim_prefix l "signal: ") s in
      (ground (arith, a, b, c, d, h), ground (arith, a, b, c, d, h))

  scan_broken-Free : (pkg : String) (s : Scan) → is_nil (scan_broken p pkg s).log.reasons ≡ false
  unfolding scan_broken
  scan_broken-Free pkg s = elim (Bool-cases (is_nil (scan_broken p pkg s).log.reasons)) [
    | inl h ↦
        let t = with_reason reason_build_failed pkg s in
        let failure = new_failure pkg "(build failed)" (build_errors p t.ring pkg) in
        let u = record t { log = record t.log { failures = t.log.failures ++ failure ∷ [] } } in
        let k = flush-Free pkg u h in
        let a = not_Free reason_build_failed pkg s in ground (arith, k, a)
    | inr h ↦ h
  ]

  scan_ok-Free : (l pkg : String) (s : Scan) → Free (scan_ok p l pkg s) → Free s
  unfolding scan_ok add_note
  scan_ok-Free l pkg s h =
      let note = add_note ("no tests to run in " +++ pkg) s in
      let k = flush-Free pkg (if has_text l "[no tests to run]" then note else s) h in
      ground (arith, k)

  scan_fail-Free : (pkg : String) (s : Scan) → Free (scan_fail p pkg s) → Free s
  unfolding scan_fail
  scan_fail-Free pkg s h =
      let t = with_reason reason_pkg_fail_no_test pkg s in
      let k = flush-Free pkg (if any_fail s.pending then s else t) h in
      let a = not_Free reason_pkg_fail_no_test pkg s in ground (arith, k, a)

  -- What a package's line and those after it in the order of the patterns are but trouble.
  is_package_trouble : String → Bool
  unfolding is_some
  is_package_trouble l =
      is_some (p.broken_re l)
      || (not (is_some (p.ok_pkg_re l))
          && (not (is_some (p.fail_pkg_re l)) && (not (is_some (p.no_files_re l)) && is_crash l)))

  package-Free :
      (l : String) (s : Scan) → Free (scan_package p l s) → Free s × (is_package_trouble l ≡ false)
  unfolding scan_package is_package_trouble add_note is_some
  package-Free l s h = elim (Option-cases (p.broken_re l)) [
    | inr (pkg, e) ↦
        let a = scan_broken-Free pkg s in (ground (arith, h, e, a), ground (arith, h, e, a))
    | inl e ↦ elim (Option-cases (p.ok_pkg_re l)) [
      | inr (pkg, f) ↦
          let a = scan_ok-Free l pkg s in (ground (arith, h, e, f, a), ground (arith, e, f))
      | inl f ↦ elim (Option-cases (p.fail_pkg_re l)) [
        | inr (pkg, g) ↦
            let a = scan_fail-Free pkg s in (ground (arith, h, e, f, g, a), ground (arith, e, f, g))
        | inl g ↦ elim (Option-cases (p.no_files_re l)) [
          | inr (pkg, k) ↦ (ground (arith, h, e, f, g, k), ground (arith, e, f, g, k))
          | inl k ↦
              let (free, quiet) = trouble-Free l s (ground (arith, h, e, f, g, k)) in
              (free, ground (arith, e, f, g, k, quiet))
        ]
      ]
    ]
  ]

  scan_verdict-reasons :
      (k m : String) (s : Scan) → (scan_verdict p k m s).log.reasons ≡ s.log.reasons
  unfolding scan_verdict add_failure
  scan_verdict-reasons k m s = ground arith

  -- A line that leaves a log without reasons found it so.
  classify_line-Free :
      (l : String) (s : Scan)
      → Free (classify_line p l s)
      → Free s
        × ((not (is_some (p.verdict_re l)) && (not (is_some (p.run_re l)) && is_package_trouble l))
            ≡ false)
  unfolding classify_line count_run is_some
  classify_line-Free l s h = elim (Option-cases (p.verdict_re l)) [
    | inr ((k, m), e) ↦
        let a = scan_verdict-reasons k m s in (ground (arith, h, e, a), ground (arith, e))
    | inl e ↦ elim (Option-cases (p.run_re l)) [
      | inr (m, f) ↦ (ground (arith, h, e, f), ground (arith, e, f))
      | inl f ↦
          let (free, quiet) = package-Free l s (ground (arith, h, e, f)) in
          (free, ground (arith, e, f, quiet))
    ]
  ]

  glued-Free :
      (l : String) (s : Scan)
      → Free (scan_glued p l s)
      → Free s × ((not (is_some (p.verdict_re l)) && is_some (p.glued_re l)) ≡ false)
  unfolding scan_glued is_some
  glued-Free l s h = elim (Option-cases (p.glued_re l)) [
    | inl e ↦ (ground (arith, h, e), ground (arith, e))
    | inr ((k, m), e) ↦
        let a = not_Free reason_glued m s in (ground (arith, h, e, a), ground (arith, h, e, a))
  ]

  scan_panic-reasons : (l : String) (s : Scan) → (scan_panic p l s).log.reasons ≡ s.log.reasons
  unfolding scan_panic end_panic
  scan_panic-reasons l s = ground arith

  output-Free : (l : String) (s : Scan) → Free (scan_output p l s) → Free s × (is_trouble l ≡ false)
  unfolding scan_output keep_line is_trouble is_package_trouble
  output-Free l s h =
      let panicked = scan_panic p l s in
      let (a, no_glue) = glued-Free l (classify_line p l panicked) h in
      let (b, quiet) = classify_line-Free l panicked a in
      let e = scan_panic-reasons l s in (ground (arith, b, e), ground (arith, no_glue, quiet))

  -- While a log has no reasons, its output so far has no such line.
  pub scan_lines-trouble :
      (ls : List String) → Free (scan_lines p ls start_scan) → count is_trouble (output_of ls) ≡ 0
  scan_lines-trouble ls =
      scan_lines-output p (λ c xs. is_nil c.reasons ≡ true → count is_trouble xs ≡ 0)
        (λ l s xs before h.
          let (free, quiet) = output-Free l s h in
          let b = count-append is_trouble xs (l ∷ []) in
          let z = before free in ground (arith, b, z, quiet))
        ls (λ h. refl)
