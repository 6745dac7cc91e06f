-- ===== src/Stresstally/Parse/Header.antt =====
-- The header of a log: at least one line of it, and its end.
use text.Mathlib.Text.{◌==◌ as str_eq}
use probatorium.Base.{
  is_some, if◌then◌else◌, ◌&&◌, not, Bool, true, false, List, [], ◌∷◌, String, ◌≡◌, refl, arith, ap,
  ◌∙◌, is_nil, cut_prefix, Bool-cases, inl, inr,
}
use probatorium.Stresstally.Parse.{Patterns}
use probatorium.Stresstally.Parse.Scan.{Scan, complete, broken, start_scan}
use probatorium.Stresstally.Parse.Scan.Lines.{scan_rest, scan_header, scan_lines}
use probatorium.Stresstally.Parse.Shard.{is_complete}
use probatorium.Stresstally.Parse.Output.{trim_cr, is_reading}
use probatorium.Stresstally.Parse.Output.Lines.{
  note_line, scan_line-rest, scan_line-header, scan_body-In, scan_header-entry, scan_header-end,
  scan_header-broken,
}

-- Whether lines of the header and its end come first; `seen` tells that one stands before.
unfoldable pub has_header : Bool → List String → Bool
unfolding trim_cr is_some
has_header seen [] = false
has_header seen (l ∷ ls) =
    if is_some (cut_prefix "stress-header: " (trim_cr l))
    then has_header true ls
    else str_eq (trim_cr l) "stress-header-end" && seen

module _ (p : Patterns) where
  scan_rest-In : (l : String) (s : Scan) → (scan_rest p l s).header_state ≡ s.header_state
  unfolding scan_rest
  scan_rest-In l s = ground (arith, scan_body-In p l s)

  -- Once the header is behind, its state stays.
  lines-In :
      (ls : List String) (s : Scan)
      → is_reading s.header_state ≡ false
      → (scan_lines p ls s).header_state ≡ s.header_state
  unfolding scan_lines
  lines-In [] s r = refl
  lines-In (l ∷ ls) s r =
      let t = note_line p (trim_cr l) s in
      let state = scan_rest-In (trim_cr l) t in
      let opened : scan_lines p (l ∷ ls) s ≡ scan_lines p ls (scan_rest p (trim_cr l) t) =
        ap (scan_lines p ls) (scan_line-rest p l s r) in
      rw opened (lines-In ls (scan_rest p (trim_cr l) t) (rw state r) ∙ state)

  header-lines :
      (ls : List String) (s : Scan) (seen : Bool)
      → is_reading s.header_state ≡ true
      → seen ≡ not (is_nil s.log.header)
      → is_complete (scan_lines p ls s).header_state ≡ has_header seen ls
  unfolding scan_lines has_header is_complete is_reading
  header-lines [] s seen r q = ground (arith, r)
  header-lines (l ∷ ls) s seen r q =
      let t = note_line p (trim_cr l) s in
      let opened : scan_lines p (l ∷ ls) s ≡ scan_lines p ls (scan_header p (trim_cr l) t) =
        ap (scan_lines p ls) (scan_line-header p l s r) in
      elim (Bool-cases (is_some (cut_prefix "stress-header: " (trim_cr l)))) [
        | inl e ↦
            let (same, lines, state, filled) = scan_header-entry p (trim_cr l) t e in
            rw opened (
              rw e
                (header-lines ls (scan_header p (trim_cr l) t) true (rw state r) (rw filled refl)))
        | inr e ↦ elim (Bool-cases (str_eq (trim_cr l) "stress-header-end" && seen)) [
          | inl f ↦
              let g : scan_header p (trim_cr l) t ≡ record t { header_state = complete } =
                scan_header-end p (trim_cr l) t e (ground (arith, f, q)) in
              rw opened (
                rw g (
                  rw e (
                    rw f
                      (ap is_complete (lines-In ls (record t { header_state = complete }) refl)))))
          | inr f ↦
              let u = record t { header_state = broken } in
              let g : scan_header p (trim_cr l) t ≡ scan_rest p (trim_cr l) u =
                scan_header-broken p (trim_cr l) t e (ground (arith, f, q)) in
              let state = scan_rest-In (trim_cr l) u in
              rw opened (
                rw g (
                  rw e (
                    rw f (
                      ap is_complete
                        (lines-In ls (scan_rest p (trim_cr l) u) (rw state refl) ∙ state)))))
        ]
      ]

  -- The header is complete after the lines of a log just where they begin with it.
  pub scan_lines-header :
      (ls : List String)
      → is_complete (scan_lines p ls start_scan).header_state ≡ has_header false ls
  unfolding start_scan is_reading
  scan_lines-header ls = header-lines ls start_scan false refl refl
