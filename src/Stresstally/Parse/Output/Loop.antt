-- ===== src/Stresstally/Parse/Output/Loop.antt =====
-- The loop over the lines of a log, by which of them are output: a statement that each line of
-- output keeps holds after the lines of a log.
use text.Mathlib.Text.{◌==◌ as str_eq}
use probatorium.Base.{
  is_some, ap, ◌+◌, ◌<◌, ◌&&◌, not, Bool, true, false, List, [], ◌∷◌, ◌++◌, String, ◌≡◌, refl,
  is_nil, arith, ◌∙◌, cut_prefix, append-nil, append_assoc, Bool-cases, inl, inr,
}
use probatorium.Stresstally.Parse.{Patterns}
use probatorium.Stresstally.Parse.Scan.{Scan, start_scan, complete, broken}
use probatorium.Stresstally.Parse.Scan.Lines.{
  scan_output, scan_body, scan_rest, scan_header, scan_lines,
}
use probatorium.Stresstally.Parse.Output.{
  Core, core, is_reading, trim_cr, after_header, without_refusals, is_own, without_own, output_of,
}
use probatorium.Stresstally.Parse.Output.Lines.{
  note_line, scan_line-rest, scan_line-header, scan_body-own, scan_body-output, scan_body-In,
  scan_rest-body, scan_rest-no_refusal, scan_rest-refusal, scan_header-entry, scan_header-end,
  scan_header-broken,
}

module _ (p : Patterns) where
  module _ (P : Core → List String → Type 0)
      (keep : (l : String) (s : Scan) (xs : List String)
        → P (core s) xs
        → P (core (scan_output p l s)) (xs ++ l ∷ [])) where
    -- The loop over the rest of a body adds its lines of output.
    abbrev Adds : List String → Type 0
    Adds ls =
        (s : Scan) (xs : List String)
        → is_reading s.header_state ≡ false
        → 0 < s.body_lines
        → P (core s) xs
        → P (core (scan_lines p ls s)) (xs ++ without_own ls)

    -- A line of the body and what follows it.
    line-Adds :
        (l : String) (ls : List String)
        → Adds ls
        → (s : Scan) (xs : List String) → is_reading s.header_state ≡ false
        → P (core s) xs
        → P
            (core (scan_lines p ls (scan_body p (trim_cr l) (note_line p (trim_cr l) s))))
            (xs ++ without_own (l ∷ ls))
    unfolding without_own
    line-Adds l ls rec s xs r h =
        let t = note_line p (trim_cr l) s in
        let (lines, state) = scan_body-In p (trim_cr l) t in
        elim (Bool-cases (is_own (trim_cr l))) [
          | inl e ↦ rw e (
              rec (scan_body p (trim_cr l) t) xs (rw state r) (omega (arith, lines))
                (rw (scan_body-own p (trim_cr l) t e) h))
          | inr e ↦
              let out = keep (trim_cr l) (record t { body_lines = t.body_lines + 1 }) xs h in
              rw e (
                rw (← append_assoc xs (trim_cr l ∷ []) (without_own ls)) (
                  rec (scan_body p (trim_cr l) t) (xs ++ trim_cr l ∷ []) (rw state r)
                    (omega (arith, lines)) (rw (scan_body-output p (trim_cr l) t e) out)))
        ]

    lines-Adds : (ls : List String) → Adds ls
    unfolding scan_lines without_own
    lines-Adds [] s xs r b h = rw append-nil h
    lines-Adds (l ∷ ls) s xs r b h =
        let t = note_line p (trim_cr l) s in
        let step = scan_line-rest p l s r ∙ scan_rest-body p (trim_cr l) t b in
        let opened : scan_lines p (l ∷ ls) s ≡ scan_lines p ls (scan_body p (trim_cr l) t) =
          ap (scan_lines p ls) step in
        rw opened (line-Adds l ls (lines-Adds ls) s xs r h)

    -- The lines after the header, of which the refusals at the top are not output.
    top-Adds :
        (ls : List String) (s : Scan) (xs : List String)
        → is_reading s.header_state ≡ false
        → s.body_lines ≡ 0
        → P (core s) xs
        → P (core (scan_lines p ls s)) (xs ++ without_own (without_refusals ls))
    unfolding scan_lines without_refusals without_own
    top-Adds [] s xs r z h = rw append-nil h
    top-Adds (l ∷ ls) s xs r z h =
        let t = note_line p (trim_cr l) s in
        let opened : scan_lines p (l ∷ ls) s ≡ scan_lines p ls (scan_rest p (trim_cr l) t) =
          ap (scan_lines p ls) (scan_line-rest p l s r) in
        elim (Bool-cases (is_some (cut_prefix "stress-refused: " (trim_cr l)))) [
          | inl e ↦
              let (same, lines, state) = scan_rest-refusal p (trim_cr l) t e z in
              rw opened
                (rw e (top-Adds ls (scan_rest p (trim_cr l) t) xs (rw state r) lines (rw same h)))
          | inr e ↦ rw opened (
              rw (scan_rest-no_refusal p (trim_cr l) t e)
                (rw e (line-Adds l ls (lines-Adds ls) s xs r h)))
        ]

    -- The line after the header, with which the body begins.
    first-Adds :
        (l : String) (ls : List String) (s : Scan) (xs : List String)
        → s.body_lines ≡ 0
        → P (core s) xs
        → P
            (core (
              scan_lines p ls (
                scan_rest p
                  (trim_cr l)
                  (record (note_line p (trim_cr l) s) { header_state = broken }))))
            (xs ++ without_own (without_refusals (l ∷ ls)))
    unfolding is_reading without_refusals
    first-Adds l ls s xs z h =
        let t = record s { header_state = broken } in
        let u = note_line p (trim_cr l) t in
        elim (Bool-cases (is_some (cut_prefix "stress-refused: " (trim_cr l)))) [
          | inl e ↦
              let (same, lines, state) = scan_rest-refusal p (trim_cr l) u e z in
              rw e (top-Adds ls (scan_rest p (trim_cr l) u) xs (rw state refl) lines (rw same h))
          | inr e ↦ rw e (
              rw (scan_rest-no_refusal p (trim_cr l) u e)
                (line-Adds l ls (lines-Adds ls) t xs refl h))
        ]

    header-Adds :
        (ls : List String) (s : Scan) (seen : Bool) (xs : List String)
        → is_reading s.header_state ≡ true
        → s.body_lines ≡ 0
        → seen ≡ not (is_nil s.log.header)
        → P (core s) xs
        → P (core (scan_lines p ls s)) (xs ++ without_own (without_refusals (after_header seen ls)))
    unfolding scan_lines after_header without_refusals without_own is_reading
    header-Adds [] s seen xs r z q h = rw append-nil h
    header-Adds (l ∷ ls) s seen xs r z q h =
        let t = note_line p (trim_cr l) s in
        let opened : scan_lines p (l ∷ ls) s ≡ scan_lines p ls (scan_header p (trim_cr l) t) =
          ap (scan_lines p ls) (scan_line-header p l s r) in
        elim (Bool-cases (is_some (cut_prefix "stress-header: " (trim_cr l)))) [
          | inl e ↦
              let (same, lines, state, filled) = scan_header-entry p (trim_cr l) t e in
              rw opened (
                rw e (
                  header-Adds ls (scan_header p (trim_cr l) t) true xs (rw state r) (rw lines z)
                    (rw filled refl) (rw same h)))
          | inr e ↦ elim (Bool-cases (str_eq (trim_cr l) "stress-header-end" && seen)) [
            | inl f ↦
                let g : scan_header p (trim_cr l) t ≡ record t { header_state = complete } =
                  scan_header-end p (trim_cr l) t e (ground (arith, f, q)) in
                rw opened (
                  rw g
                    (rw e (rw f (top-Adds ls (record t { header_state = complete }) xs refl z h))))
            | inr f ↦
                let g : scan_header p (trim_cr l) t
                    ≡ scan_rest p (trim_cr l) (record t { header_state = broken }) =
                  scan_header-broken p (trim_cr l) t e (ground (arith, f, q)) in
                rw opened (rw g (rw e (rw f (first-Adds l ls s xs z h))))
          ]
        ]

    -- What is kept by each line of output holds, after the lines of a log, of its output.
    pub scan_lines-output :
        (ls : List String)
        → P (core start_scan) []
        → P (core (scan_lines p ls start_scan)) (output_of ls)
    unfolding output_of start_scan is_reading
    scan_lines-output ls h = header-Adds ls start_scan false [] refl refl refl h
