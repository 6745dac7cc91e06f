-- ===== src/Stresstally/Parse/Output/Lines.antt =====
-- What one line of a log does to the counts, by the kind of the line.
use text.Mathlib.Text.{◌==◌ as str_eq}
use probatorium.Base.{
  is_some, Fields, ◌+◌, ◌<◌, if◌then◌else◌, ◌&&◌, not, true, false, [], ◌∷◌, String, ◌≡◌, refl,
  is_nil, arith, cut_prefix,
}
use probatorium.Stresstally.Parse.{Patterns, put}
use probatorium.Stresstally.Parse.Scan.{
  Scan, complete, broken, with_reason, start_panic, end_panic, flush,
}
use probatorium.Stresstally.Parse.Scan.Lines.{
  put_header, scan_output, scan_panic, classify_line, scan_verdict, count_run, scan_package,
  scan_broken, scan_ok, scan_fail, scan_trouble, scan_glued, keep_line, add_note, add_failure,
  scan_body, scan_rest, scan_header, scan_line,
}
use probatorium.Stresstally.Parse.Output.{core, is_reading, trim_cr, is_own}

-- What stays as it is while output is read.
abbrev Kept : Scan → Scan → Type 0
Kept s t = (t.body_lines ≡ s.body_lines) × (t.header_state ≡ s.header_state)

module _ (p : Patterns) where
  scan_trouble-Kept : (l : String) (s : Scan) → Kept s (scan_trouble p l s)
  unfolding scan_trouble start_panic end_panic with_reason
  scan_trouble-Kept l s = (ground arith, ground arith)

  scan_package-Kept : (l : String) (s : Scan) → Kept s (scan_package p l s)
  unfolding scan_package scan_broken scan_ok scan_fail flush end_panic with_reason add_note
  scan_package-Kept l s =
      (ground (arith, scan_trouble-Kept l s), ground (arith, scan_trouble-Kept l s))

  classify_line-Kept : (l : String) (s : Scan) → Kept s (classify_line p l s)
  unfolding classify_line scan_verdict count_run add_failure
  classify_line-Kept l s =
      (ground (arith, scan_package-Kept l s), ground (arith, scan_package-Kept l s))

  scan_panic-Kept : (l : String) (s : Scan) → Kept s (scan_panic p l s)
  unfolding scan_panic end_panic
  scan_panic-Kept l s = (ground arith, ground arith)

  scan_glued-Kept : (l : String) (s : Scan) → Kept s (scan_glued p l s)
  unfolding scan_glued with_reason
  scan_glued-Kept l s = (ground arith, ground arith)

  scan_output-Kept : (l : String) (s : Scan) → Kept s (scan_output p l s)
  unfolding scan_output keep_line
  scan_output-Kept l s =
      let a = scan_panic-Kept l s in
      let b = classify_line-Kept l (scan_panic p l s) in
      let c = scan_glued-Kept l (classify_line p l (scan_panic p l s)) in
      (ground (arith, a, b, c), ground (arith, a, b, c))

  abbrev pub note_line : String → Scan → Scan
  note_line line s = record s {
    last_non_empty = if str_eq (p.trim_space line) "" then s.last_non_empty else line;
  }

  put-filled : (header : Fields) (k v : String) → is_nil (put header k v) ≡ false
  unfolding put
  put-filled [] k v = refl
  put-filled (f ∷ header) k v = ground arith

  pub scan_line-rest :
      (l : String) (s : Scan)
      → is_reading s.header_state ≡ false
      → scan_line p l s ≡ scan_rest p (trim_cr l) (note_line (trim_cr l) s)
  unfolding scan_line trim_cr is_reading
  scan_line-rest l s h = ground arith

  pub scan_line-header :
      (l : String) (s : Scan)
      → is_reading s.header_state ≡ true
      → scan_line p l s ≡ scan_header p (trim_cr l) (note_line (trim_cr l) s)
  unfolding scan_line trim_cr is_reading
  scan_line-header l s h = ground arith

  -- The state after a line of shard.sh's own, or after one of output.
  pub scan_body-own : (l : String) (s : Scan) → is_own l ≡ true → core (scan_body p l s) ≡ core s
  unfolding scan_body is_own is_some
  scan_body-own l s h = ground arith

  pub scan_body-output :
      (l : String) (s : Scan)
      → is_own l ≡ false
      → scan_body p l s ≡ scan_output p l (record s { body_lines = s.body_lines + 1 })
  unfolding scan_body is_own is_some
  scan_body-output l s h = ground arith

  pub scan_body-In :
      (l : String) (s : Scan)
      → ((scan_body p l s).body_lines ≡ s.body_lines + 1)
        × ((scan_body p l s).header_state ≡ s.header_state)
  unfolding scan_body
  scan_body-In l s =
      let k = scan_output-Kept l (record s { body_lines = s.body_lines + 1 }) in
      (ground (arith, k), ground (arith, k))

  pub scan_rest-body :
      (l : String) (s : Scan) → 0 < s.body_lines → scan_rest p l s ≡ scan_body p l s
  unfolding scan_rest
  scan_rest-body l s h = ground arith

  pub scan_rest-no_refusal :
      (l : String) (s : Scan)
      → is_some (cut_prefix "stress-refused: " l) ≡ false
      → scan_rest p l s ≡ scan_body p l s
  unfolding scan_rest is_some
  scan_rest-no_refusal l s h = ground arith

  pub scan_rest-refusal :
      (l : String) (s : Scan)
      → is_some (cut_prefix "stress-refused: " l) ≡ true
      → s.body_lines ≡ 0
      → (core (scan_rest p l s) ≡ core s)
        × ((scan_rest p l s).body_lines ≡ 0)
        × ((scan_rest p l s).header_state ≡ s.header_state)
  unfolding scan_rest is_some
  scan_rest-refusal l s h z = (ground arith, ground arith, ground arith)

  put_header-filled : (rest : String) (s : Scan) → is_nil (put_header rest s).log.header ≡ false
  unfolding put_header
  put_header-filled rest s = grind (arith, put-filled)

  scan_header-filled :
      (l : String) (s : Scan)
      → is_some (cut_prefix "stress-header: " l) ≡ true
      → is_nil (scan_header p l s).log.header ≡ false
  unfolding scan_header is_some
  scan_header-filled l s h = grind (arith, put_header-filled)

  pub scan_header-entry :
      (l : String) (s : Scan)
      → is_some (cut_prefix "stress-header: " l) ≡ true
      → (core (scan_header p l s) ≡ core s)
        × ((scan_header p l s).body_lines ≡ s.body_lines)
        × ((scan_header p l s).header_state ≡ s.header_state)
        × (is_nil (scan_header p l s).log.header ≡ false)
  unfolding scan_header put_header is_some
  scan_header-entry l s h = (ground arith, ground arith, ground arith, scan_header-filled l s h)

  pub scan_header-end :
      (l : String) (s : Scan)
      → is_some (cut_prefix "stress-header: " l) ≡ false
      → (str_eq l "stress-header-end" && not (is_nil s.log.header)) ≡ true
      → scan_header p l s ≡ record s { header_state = complete }
  unfolding scan_header is_some
  scan_header-end l s h e = ground arith

  pub scan_header-broken :
      (l : String) (s : Scan)
      → is_some (cut_prefix "stress-header: " l) ≡ false
      → (str_eq l "stress-header-end" && not (is_nil s.log.header)) ≡ false
      → scan_header p l s ≡ scan_rest p l (record s { header_state = broken })
  unfolding scan_header is_some
  scan_header-broken l s h e = ground arith
