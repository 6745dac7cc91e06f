-- ===== src/Stresstally/Parse/Sample.antt =====
-- The lines of a log without blanks in names: patterns that read them, and a small log.
use Prim.Native.String.{◌++◌ as ◌+++◌}
use text.Mathlib.Text.{◌==◌ as str_eq}
use text.Mathlib.TextEquality.{eq_iff}
use mathlib.Core.List.Perm
use probatorium.Base.{
  is_some, if◌then◌else◌, Bool, false, List, [], ◌∷◌, ◌++◌, String, Option, none, some, ◌≡◌, ◌≢◌,
  refl, arith, cut_prefix, before_blank, map,
}
use probatorium.Stresstally.Parse.{Patterns}
use probatorium.Stresstally.Parse.Counts.{any_kind}
use probatorium.Stresstally.Parse.Runs.{IsGo}

-- What stands between a prefix and the next blank.
abbrev after : String → String → Option String
after prefix l = elim (cut_prefix prefix l) [ none ↦ none | some rest ↦ some (before_blank rest) ]

named : String → Option String → Option (String × String) → Option (String × String)
named kind none other = other
named kind (some name) other = some (kind, name)

unfoldable pub simple_verdict : String → Option (String × String)
unfolding named cut_prefix before_blank
simple_verdict l =
    named "PASS" (after "--- PASS: " l)
      (named "FAIL" (after "--- FAIL: " l) (named "SKIP" (after "--- SKIP: " l) none))

exit_of : Option String → Option (String × String)
exit_of none = none
exit_of (some e) = if str_eq e "" then none else some (e, "1")

unfoldable pub simple_trailer : String → Option (String × String)
unfolding exit_of cut_prefix before_blank
simple_trailer l = exit_of (after "stress-trailer: exit=" l)

abbrev pub simple : Patterns
simple = record {
  verdict_re = simple_verdict;
  glued_re = λ l. none;
  run_re = after "=== RUN   ";
  marker_re = after "=== RUN   ";
  ok_pkg_re = after "ok  \t";
  fail_pkg_re = after "FAIL\t";
  no_files_re = λ l. none;
  broken_re = λ l. none;
  panic_re = λ l. is_some (cut_prefix "panic: " l);
  timeout_re = λ l. false;
  fatal_re = λ l. false;
  signal_re = λ l. false;
  race_re = λ l. false;
  running_re = λ l. none;
  trailer_re = simple_trailer;
  trim_space = λ l. l;
  words = λ l. [];
  ranged = λ runs. runs;
}

named-kind :
    (kind : String) (o : Option String) (other : Option (String × String))
    → any_kind kind ≡ 1
    → ((k name : String) → other ≡ some (k, name) → any_kind k ≡ 1)
    → (k name : String) → named kind o other ≡ some (k, name)
    → any_kind k ≡ 1
unfolding named
named-kind kind none other h rest k name e = rest k name e
named-kind kind (some n) other h rest k name e = let q : kind ≡ k = cc e in rw (← q) h

simple_verdict-kind : (l k name : String) → simple_verdict l ≡ some (k, name) → any_kind k ≡ 1
unfolding simple_verdict
simple_verdict-kind l =
    named-kind "PASS" (after "--- PASS: " l)
      (named "FAIL" (after "--- FAIL: " l) (named "SKIP" (after "--- SKIP: " l) none)) refl
      (named-kind "FAIL" (after "--- FAIL: " l) (named "SKIP" (after "--- SKIP: " l) none) refl
        (named-kind "SKIP" (after "--- SKIP: " l) none refl (λ k name e. cc e)))

exit_of-filled : (o : Option String) (e elapsed : String) → exit_of o ≡ some (e, elapsed) → e ≢ ""
unfolding exit_of
exit_of-filled none e elapsed h = cc
exit_of-filled (some x) e elapsed h = λ k. ground (arith, h, k, eq_iff x "")

pub simple-IsGo : IsGo simple
unfolding simple_trailer
simple-IsGo = record {
  kinds = simple_verdict-kind;
  exits = λ l. exit_of-filled (after "stress-trailer: exit=" l);
  all_entries = λ runs. Perm.refl runs;
}

-- A log with the given lines of a header and lines of output, and a trailer.
abbrev pub log_of : List String → List String → String → List (String × Bool)
log_of header output exit =
    map (λ l. (l, false))
      (header
        ++ "stress-header-end"
          ∷ (output ++ ("stress-trailer: exit=" +++ exit +++ " elapsed_s=3") ∷ []))
