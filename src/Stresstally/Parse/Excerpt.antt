-- ===== src/Stresstally/Parse/Excerpt.antt =====
-- What a failing test printed, and the compiler's output for a package that did not build.
use text.Mathlib.Text.{◌==◌ as str_eq, starts_with}
use Prim.Native.String.{◌++◌ as ◌+++◌}
use probatorium.Base.{
  is_some, ℕ, zero, suc, ◌-◌, if◌then◌else◌, ◌||◌, Bool, true, false, List, [], ◌∷◌, String, Option,
  none, some, length,
}
use probatorium.Stresstally.Parse.{Patterns}

abbrev pub excerpt_lines : ℕ
excerpt_lines = 30

unfoldable pub skip_lines : ℕ → List String → List String
skip_lines zero ls = ls
skip_lines (suc n) [] = []
skip_lines (suc n) (l ∷ ls) = skip_lines n ls

-- The last lines of a list, at most `n`.
unfoldable pub last_lines : ℕ → List String → List String
unfolding skip_lines
last_lines n ls = skip_lines (length ls - n) ls

module _ (p : Patterns) where
  names : Option String → String → Bool
  names none name = false
  names (some n) name = str_eq n name

  -- The lines after the last marker of a test.
  unfoldable pub after_marker : List String → String → Option (List String)
  unfolding names
  after_marker [] name = none
  after_marker (l ∷ ring) name =
      let later = after_marker ring name in
      elim later [
        | some ls ↦ some ls
        | none ↦ if names (p.marker_re l) name then some ring else none
      ]

  -- At most `n` of the lines that are no marker and no verdict.
  unfoldable pub printed : ℕ → List String → List String
  unfolding is_some
  printed zero ls = []
  printed (suc n) [] = []
  printed (suc n) (l ∷ ls) = elim (is_some (p.marker_re l) || is_some (p.verdict_re l)) [
    | true ↦ printed (suc n) ls
    | false ↦ l ∷ printed n ls
  ]

  unfoldable pub excerpt : List String → String → List String
  unfolding after_marker printed last_lines
  excerpt ring name =
      printed excerpt_lines
        (elim (after_marker ring name) [ none ↦ last_lines excerpt_lines ring | some ls ↦ ls ])

  ends_build : String → Bool
  unfolding is_some
  ends_build l =
      starts_with l "=== "
      || is_some (p.verdict_re l)
      || is_some (p.ok_pkg_re l)
      || is_some (p.fail_pkg_re l)
      || str_eq l "PASS"
      || str_eq l "FAIL"
      || starts_with l "# "

  until_end : ℕ → List String → List String
  unfolding ends_build
  until_end zero ls = []
  until_end (suc n) [] = []
  until_end (suc n) (l ∷ ls) = elim (ends_build l) [ true ↦ [] | false ↦ l ∷ until_end n ls ]

  -- The banner stands in the excerpt before the lines that follow it, of which the test of the
  -- length comes after each is added.
  unfoldable pub build_errors : List String → String → List String
  unfolding until_end
  build_errors [] pkg = []
  build_errors (l ∷ ring) pkg =
      let later = build_errors ring pkg in
      elim later [
        | [] ↦ if starts_with l ("# " +++ pkg) then l ∷ until_end (excerpt_lines - 1) ring else []
        | first ∷ rest ↦ first ∷ rest
      ]
