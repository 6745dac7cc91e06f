-- ===== src/Stresstally/Judge/Verdict.antt =====
-- The verdict on a case, against the logs of its shards.
use text.Mathlib.Text.{◌==◌ as str_eq}
use probatorium.Base.{
  ℕ, zero, suc, ◌+◌, ◌<◌, ltb, ◌&&◌, not, Bool, true, false, List, [], ◌∷◌, String, Option, ◌≡◌,
  ◌↔◌, refl, ap, is_nil, arith, sum, sum-Perm, contains, insertion_sort, insertion_sort-perm,
}
use probatorium.Stresstally.Judge.{Case, ShardLog, TestResult}
use probatorium.Stresstally.Judge.Shards.{TestRow, State, start, judge_arches, one_if}
use probatorium.Stresstally.Judge.Problems.{
  arch_total, on_arch, total_arches, find_problems, arch_gaps, problem_arch_gap, add_if, ran_on,
}
use probatorium.Stresstally.Judge.Report.{row_less, verdict_of, report_of, sort_strings}
use probatorium.Stresstally.Judge.Expectations.{judge_case}
use probatorium.Stresstally.Judge.Tally.{
  Adds, pass_Adds, fail_Adds, processes_Adds, weigh_row, from_shards, weigh-judge_arches,
  restrict-arches, sum-at_arch,
}
use probatorium.Stresstally.Judge.Flaws.{
  Flawless, find_problems-nil, is_nil-sort_strings, is_nil-add_if,
}
use probatorium.Stresstally.Judge.Gaps.{at_key_and_arch, ran_on-weigh, arch_gaps-nil}
use probatorium.Stresstally.Judge.Completeness.{AllComplete, statuses-AllComplete}

verdict_of-pass :
    (problems : List String) → (verdict_of problems ≡ "PASS") ↔ (is_nil problems ≡ true)
unfolding verdict_of
verdict_of-pass [] = (λ h. refl, λ h. refl)
verdict_of-pass (p ∷ ps) = (
  λ h. let e : false ≡ true = ap (λ v. str_eq v "PASS") h in ground (arith, e),
  λ h. ground arith,
)

-- What is zero only with another number is positive with it.
positive : (m n : ℕ) → (n ≡ 0 → m ≡ 0) → 0 < m → 0 < n
positive m zero f h = let e = f refl in omega arith
positive m (suc n) f h = omega arith

module _ (quote : String → String) (is_float : String → Bool) (logs : String → Option ShardLog)
    (c : Case) (celeris_sha : String) where
  -- A count of the results of all tests in the logs of an arch's shards, and of one test only.
  abbrev pub counted : (TestResult → ℕ) → String → ℕ
  counted g a = from_shards quote is_float logs c celeris_sha (λ pkg name y. true) g a c.shards

  -- The processes of an arch in which a test passed or failed.
  abbrev pub runs : String × String → String → ℕ
  runs k a =
      from_shards quote is_float logs c celeris_sha
        (λ pkg name y. str_eq pkg k.0 && str_eq name k.1) (λ v. one_if (ltb 0 (v.pass + v.fail))) a
        c.shards

  -- The logs show that the case passed: on each arch of the case every shard is complete, nothing
  -- failed and something passed, and a test that ran on one arch ran on each.
  pub record IsClean : Type 0 where
    pub complete :
        (a : String)
        → contains a c.arches ≡ true
        → AllComplete quote is_float c celeris_sha logs a c.shards
    pub no_fail : (a : String) → contains a c.arches ≡ true → counted (λ v. v.fail) a ≡ 0
    pub some_pass : (a : String) → contains a c.arches ≡ true → 0 < counted (λ v. v.pass) a
    pub no_gap :
        (k : String × String) (a b : String)
        → contains a c.arches ≡ true
        → contains b c.arches ≡ true
        → 0 < runs k a
        → 0 < runs k b

  judged : State
  judged = judge_arches quote is_float logs c celeris_sha c.arches start

  tests : List TestRow
  unfolding judged
  tests = insertion_sort row_less judged.rows

  module _ {f : TestRow → ℕ} {g : TestResult → ℕ} (adds : Adds f g) where
    -- A count of the sorted rows at an arch is zero just where the count of its logs is.
    weigh-tests :
        (K K_at : String → String → String → Bool) (a : String)
        → contains a c.arches ≡ true
        → ((pkg name y : String) → K_at pkg name y ≡ (K pkg name y && str_eq y a))
        → (sum (weigh_row K_at f) tests ≡ 0)
          ↔ (from_shards quote is_float logs c celeris_sha K g a c.shards ≡ 0)
    unfolding tests judged
    weigh-tests K K_at a m at_arch =
        let p = sum-Perm (weigh_row K_at f) (insertion_sort-perm row_less judged.rows) in
        let w = weigh-judge_arches quote is_float logs c celeris_sha K_at g adds c.arches start in
        let r = restrict-arches quote is_float logs c celeris_sha K K_at g a at_arch c.arches in
        let (to, from) =
          sum-at_arch (λ y. from_shards quote is_float logs c celeris_sha K g y c.shards) a c.arches
            m in
        (λ h. to (omega (arith, p, w, r, h)), λ h. let z = from h in omega (arith, p, w, r, z))

    on_arch-counted :
        (a : String) → contains a c.arches ≡ true → (on_arch f a tests ≡ 0) ↔ (counted g a ≡ 0)
    unfolding on_arch
    on_arch-counted a m =
        weigh-tests (λ pkg name y. true) (λ pkg name y. str_eq y a) a m (λ pkg name y. refl)

  ran_on-runs :
      (k : String × String) (a : String)
      → contains a c.arches ≡ true
      → (ran_on tests k a ≡ true) ↔ (0 < runs k a)
  ran_on-runs k a m =
      let e = ran_on-weigh tests k a in
      let (to, from) =
        weigh-tests processes_Adds (λ pkg name y. str_eq pkg k.0 && str_eq name k.1)
          (at_key_and_arch k a) a m (λ pkg name y. ground arith) in
      let count = sum (weigh_row (at_key_and_arch k a) (λ r. r.processes)) tests in
      (
        λ h. positive count (runs k a) from (ground (arith, e, h)),
        λ h. let z = positive (runs k a) count to h in ground (arith, e, z),
      )

  arch-Clean :
      (a : String)
      → contains a c.arches ≡ true
      → Flawless (arch_total a judged.shards tests) ↔ (
          AllComplete quote is_float c celeris_sha logs a c.shards
          × (counted (λ v. v.fail) a ≡ 0)
          × (0 < counted (λ v. v.pass) a))
  unfolding arch_total judged
  arch-Clean a m =
      let (shards, back) = statuses-AllComplete quote is_float c celeris_sha logs a m in
      let (fails, fails_back) = on_arch-counted fail_Adds a m in
      let (passes, passes_back) = on_arch-counted pass_Adds a m in
      let pass = on_arch (λ r. r.pass) a tests in
      (
        λ f. (
          shards (f.no_unparsed, f.no_missing, f.no_wrong_shape),
          fails f.no_fail,
          positive pass (counted (λ v. v.pass) a) passes_back f.some_ran,
        ),
        λ h.
            let s = back h.0 in
            record {
              no_fail = fails_back h.1;
              no_unparsed = s.0;
              no_missing = s.1;
              no_wrong_shape = s.2;
              some_ran = positive (counted (λ v. v.pass) a) pass passes h.2;
            },
      )

  -- The problems are none just where the arches are flawless and no test is a gap.
  problems-IsClean :
      (is_nil (find_problems (total_arches c.arches judged.shards tests) [])
          && is_nil (arch_gaps tests c.arches))
        ≡ true
      → IsClean
  problems-IsClean h =
      let flawless =
        ((find_problems-nil c.arches judged.shards tests []).0 (ground (arith, h))).1 in
      let all = (arch_gaps-nil tests c.arches).0 (ground (arith, h)) in
      record {
        complete = λ a m. ((arch-Clean a m).0 (flawless a m)).0;
        no_fail = λ a m. ((arch-Clean a m).0 (flawless a m)).1;
        some_pass = λ a m. ((arch-Clean a m).0 (flawless a m)).2;
        no_gap = λ k a b m n r. (ran_on-runs k b n).0 (all k a b m n ((ran_on-runs k a m).1 r));
      }

  IsClean-problems :
      IsClean
      → (is_nil (find_problems (total_arches c.arches judged.shards tests) [])
          && is_nil (arch_gaps tests c.arches))
        ≡ true
  IsClean-problems clean =
      let nil = (find_problems-nil c.arches judged.shards tests []).1 (
        refl,
        λ a m. (arch-Clean a m).1 (clean.complete a m, clean.no_fail a m, clean.some_pass a m),
      ) in
      let none =
        (arch_gaps-nil tests c.arches).1 (λ k a b m n r.
          (ran_on-runs k b n).1 (clean.no_gap k a b m n ((ran_on-runs k a m).0 r))) in
      ground (arith, nil, none)

  -- The verdict on a case is PASS just where its logs show that: on each arch of the case each
  -- shard has a log that was not refused, whose header has every wanted value, to which neither
  -- the parser nor the observation rules object; no test failed and some test passed; and each
  -- test that passed or failed on one arch of the case did so on every arch of it.
  pub judge_case-IsClean :
      ((judge_case quote is_float logs c celeris_sha).verdict ≡ "PASS") ↔ IsClean
  unfolding judge_case report_of judged tests
  judge_case-IsClean =
      let found = find_problems (total_arches c.arches judged.shards tests) [] in
      let gaps = is_nil (arch_gaps tests c.arches) in
      let problems = add_if (not gaps) problem_arch_gap found in
      let (to, from) = verdict_of-pass (sort_strings problems) in
      let s = is_nil-sort_strings problems in
      let a = is_nil-add_if (not gaps) problem_arch_gap found in
      (
        λ h. let t = to h in problems-IsClean (ground (arith, t, s, a)),
        λ clean. let b = IsClean-problems clean in from (ground (arith, b, s, a)),
      )
