-- ===== src/Stresstally/Parse/Counts.antt =====
-- The counts of a log, against its lines of output: the verdicts of each test and its runs.
use text.Mathlib.Text.{◌==◌ as str_eq}
use text.Mathlib.TextEquality.{eq_iff}
use probatorium.Base.{
  ℕ, ◌+◌, if◌then◌else◌, ◌&&◌, ◌||◌, Bool, true, false, List, [], ◌∷◌, String, Option, none, some,
  ◌≡◌, refl, arith, ◌∙◌, ap, sum, sum-append, count,
}
use probatorium.Stresstally.Judge.{TestResult}
use probatorium.Stresstally.Parse.{Patterns}
use probatorium.Stresstally.Parse.Reader.{read_lines}
use probatorium.Stresstally.Parse.Scan.{start_scan, count_verdict, zero_result, flush, end_panic}
use probatorium.Stresstally.Parse.Shard.{parse_shard}
use probatorium.Stresstally.Parse.Output.{Core, output_of}
use probatorium.Stresstally.Parse.Steps.{Keeps}
use probatorium.Stresstally.Parse.Flush.{Weighs, total, pending_of, total-flush}
use probatorium.Stresstally.Parse.Closing.{closing-keeps, parse_shard-Extends, closing-none}

abbrev pub is_kind : String → String → ℕ
is_kind k k' = if str_eq k' k then 1 else 0

abbrev pub any_kind : String → ℕ
any_kind k = if str_eq k "PASS" || (str_eq k "FAIL" || str_eq k "SKIP") then 1 else 0

-- All that is counted of a test.
abbrev pub all_counts : TestResult → ℕ
all_counts r = r.pass + r.fail + r.skip + r.no_verdict

exclusive : (k a b : String) → str_eq a b ≡ false → str_eq k a ≡ true → str_eq k b ≡ false
exclusive k a b h e = let f = (eq_iff k a).0 e in rw f h

pass_Weighs : Weighs (λ r. r.pass) (is_kind "PASS") false
unfolding count_verdict zero_result
pass_Weighs = record {
  named = λ k r. ground arith;
  unjudged = λ n r. omega arith;
  fresh = λ pkg name. refl;
}

fail_Weighs : Weighs (λ r. r.fail) (is_kind "FAIL") false
unfolding count_verdict zero_result
fail_Weighs = record {
  named = λ k r. ground (arith, exclusive k "PASS" "FAIL" refl);
  unjudged = λ n r. omega arith;
  fresh = λ pkg name. refl;
}

skip_Weighs : Weighs (λ r. r.skip) (is_kind "SKIP") false
unfolding count_verdict zero_result
skip_Weighs = record {
  named = λ k r. ground (arith, exclusive k "PASS" "SKIP" refl, exclusive k "FAIL" "SKIP" refl);
  unjudged = λ n r. omega arith;
  fresh = λ pkg name. refl;
}

pub all_Weighs : Weighs all_counts any_kind true
unfolding count_verdict zero_result
all_Weighs = record {
  named = λ k r. ground arith;
  unjudged = λ n r. omega arith;
  fresh = λ pkg name. refl;
}

module _ (p : Patterns) where
  -- A line that is a verdict of a kind on a test.
  abbrev is_verdict : String → String → String → Bool
  is_verdict k m l = elim (p.verdict_re l) [
    | none ↦ false
    | some (kind, name) ↦ str_eq name m && str_eq kind k
  ]

  -- A line that is read as a run of a test, since it is no verdict.
  abbrev pub is_run : String → String → Bool
  is_run m l = elim (p.verdict_re l) [
    | some v ↦ false
    | none ↦ elim (p.run_re l) [ none ↦ false | some name ↦ str_eq name m ]
  ]

  -- How many lines are verdicts of a kind on a test, and how many are runs of it.
  abbrev pub verdict_lines : String → String → List String → ℕ
  verdict_lines k m ls = count (is_verdict k m) ls

  abbrev pub run_lines : String → List String → ℕ
  run_lines m ls = count (is_run m) ls

  module _ (m : String) (v : String → ℕ) where
    -- What a line adds to a count of the verdicts on a test.
    weight_of : String → ℕ
    weight_of l = elim (p.verdict_re l) [
      | none ↦ 0
      | some (k, name) ↦ if str_eq name m then v k else 0
    ]

    weight_of-some :
        (l k name : String)
        → p.verdict_re l ≡ some (k, name)
        → weight_of l ≡ (if str_eq name m then v k else 0)
    unfolding weight_of
    weight_of-some l k name e = rw (e, weight_of) refl

    weight_of-none : (l : String) → p.verdict_re l ≡ none → weight_of l ≡ 0
    unfolding weight_of
    weight_of-none l e = rw (e, weight_of) refl

  sum-weight_of :
      (k m : String) (ls : List String) → sum (weight_of m (is_kind k)) ls ≡ verdict_lines k m ls
  unfolding weight_of
  sum-weight_of k m [] = refl
  sum-weight_of k m (l ∷ ls) = ground (arith, sum-weight_of k m ls)

  module _ (m : String) {g : TestResult → ℕ} {v : String → ℕ} (weighs : Weighs g v false) where
    -- The verdicts read so far are counted or pending.
    abbrev Counted : Core → List String → Type 0
    Counted c xs = total m g c.results + pending_of m v c.pending ≡ sum (weight_of m v) xs

    Counted-Keeps : Keeps p Counted
    unfolding flush end_panic
    Counted-Keeps = record {
      reason = λ c r d xs h. h;
      closed = λ s pkg xs h. let t = total-flush m weighs p pkg s in omega (arith, t, h);
      verdict = λ l k name c xs e h.
          let a =
            sum-append (λ x. if str_eq x.name m then v x.result else 0) c.pending
              (record { name = name; result = k } ∷ []) in
          let b = sum-append (weight_of m v) xs (l ∷ []) in
          let w = weight_of-some m v l k name e in omega (arith, a, b, w, h);
      ran = λ l name c xs e f h.
          let b = sum-append (weight_of m v) xs (l ∷ []) in
          let w = weight_of-none m v l e in omega (arith, b, w, h);
      other = λ l c xs e f h.
          let b = sum-append (weight_of m v) xs (l ∷ []) in
          let w = weight_of-none m v l e in omega (arith, b, w, h);
    }

    -- A count of a test over all packages is what its verdict lines add up to.
    total-parse_shard :
        (chunks : List (String × Bool)) (read_error : Option String)
        → total m g (parse_shard p chunks read_error).results
          ≡ sum (weight_of m v) (output_of (read_lines "" chunks))
    unfolding start_scan
    total-parse_shard chunks read_error =
        let k = closing-keeps p Counted Counted-Keeps chunks read_error refl in
        let (none_pending, none_run) = closing-none p chunks read_error in
        let e = (parse_shard-Extends p chunks read_error).results in
        let z = ap (pending_of m v) none_pending in rw e (omega (arith, k, z))

  -- For each test, its PASS, FAIL and SKIP counts, summed over the packages, are the numbers of
  -- such verdicts on it among the lines of output of the log: none is lost and none counted
  -- twice, whatever ends the log.
  pub parse_shard-verdicts :
      (m : String) (chunks : List (String × Bool)) (read_error : Option String)
      → let results = (parse_shard p chunks read_error).results in
        let ls = output_of (read_lines "" chunks) in
        (total m (λ r. r.pass) results ≡ verdict_lines "PASS" m ls)
        × (total m (λ r. r.fail) results ≡ verdict_lines "FAIL" m ls)
        × (total m (λ r. r.skip) results ≡ verdict_lines "SKIP" m ls)
  parse_shard-verdicts m chunks read_error =
      let ls = output_of (read_lines "" chunks) in
      (
        total-parse_shard m pass_Weighs chunks read_error ∙ sum-weight_of "PASS" m ls,
        total-parse_shard m fail_Weighs chunks read_error ∙ sum-weight_of "FAIL" m ls,
        total-parse_shard m skip_Weighs chunks read_error ∙ sum-weight_of "SKIP" m ls,
      )
