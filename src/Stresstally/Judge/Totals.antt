-- ===== src/Stresstally/Judge/Totals.antt =====
-- The totals of an arch, against the reports of its shards.
use text.Mathlib.Text.{◌==◌ as str_eq}
use probatorium.Base.{
  ℕ, zero, suc, ◌+◌, if◌then◌else◌, ◌&&◌, not, Bool, true, List, [], ◌∷◌, ◌++◌, String, Option,
  none, some, ◌≡◌, refl, ◌∙◌, arith, Bool-cases, inl, inr, sum, sum-Perm, sum-append,
  insertion_sort-perm,
}
use probatorium.Stresstally.Judge.{Case, ShardLog, TestResult, log_name, status_wrong_shape}
use probatorium.Stresstally.Judge.Shape.{check_shape, observation_reasons}
use probatorium.Stresstally.Judge.Shards.{
  TestRow, State, start, judge_log, judge_shards, judge_arches, log_report, keep_report,
  missing_report, add_counts, ShardReport, add_results,
}
use probatorium.Stresstally.Judge.Problems.{arch_total, on_arch}
use probatorium.Stresstally.Judge.Report.{row_less, report_of}
use probatorium.Stresstally.Judge.Expectations.{judge_case}
use probatorium.Stresstally.Judge.Tally.{
  Adds, pass_Adds, fail_Adds, skip_Adds, no_verdict_Adds, weigh-add_results, restrict-results,
}

-- A count of the reports of an arch's shards that are not of the wrong shape.
abbrev pub in_reports : (ShardReport → ℕ) → String → List ShardReport → ℕ
in_reports h a shards =
    sum (λ s. if str_eq s.arch a && not (str_eq s.status status_wrong_shape) then h s else 0) shards

module _ (quote : String → String) (is_float : String → Bool) (logs : String → Option ShardLog)
    (c : Case) (celeris_sha : String) (a : String) where
  -- The report of a log and of no log show a count.
  record Shows (g : TestResult → ℕ) (h : ShardReport → ℕ) : Type 0 where
    of_log :
        (arch : String) (shard : ℕ) (log : String) (sl : ShardLog) (obs shape : List String)
        → h (log_report arch shard log sl obs shape) ≡ sum g sl.results
    of_none : (arch : String) (shard : ℕ) (log : String) → h (missing_report arch shard log) ≡ 0

  module _ {f : TestRow → ℕ} {g : TestResult → ℕ} {h : ShardReport → ℕ} (adds : Adds f g)
      (shows : Shows g h) where
    Balanced : State → Type 0
    Balanced st = on_arch f a st.rows ≡ in_reports h a st.shards

    in_reports-snoc :
        (shards : List ShardReport) (sr : ShardReport)
        → in_reports h a (shards ++ sr ∷ [])
          ≡ in_reports h a shards
            + (if str_eq sr.arch a && not (str_eq sr.status status_wrong_shape) then h sr else 0)
    in_reports-snoc shards sr =
        let k =
          sum-append
            (λ s. if str_eq s.arch a && not (str_eq s.status status_wrong_shape) then h s else 0)
            shards (sr ∷ []) in
        omega (arith, k)

    on_arch-add_results :
        (arch : String) (vs : List TestResult) (rows : List TestRow)
        → on_arch f a (add_results arch vs rows)
          ≡ on_arch f a rows + (if str_eq arch a then sum g vs else 0)
    unfolding on_arch
    on_arch-add_results arch vs rows =
        let k = weigh-add_results adds (λ pkg name y. str_eq y a) arch vs rows in
        let r =
          restrict-results quote is_float logs c celeris_sha (λ pkg name y. true)
            (λ pkg name y. str_eq y a) g a (λ pkg name y. refl) arch vs in
        omega (arith, k, r)

    missing-Balanced :
        (arch : String) (shard : ℕ) (log : String) (st : State)
        → Balanced st
        → on_arch f a st.rows ≡ in_reports h a (st.shards ++ missing_report arch shard log ∷ [])
    unfolding Balanced
    missing-Balanced arch shard log st balanced =
        let k = in_reports-snoc st.shards (missing_report arch shard log) in
        let z = shows.of_none arch shard log in ground (arith, k, z, balanced)

    keep_report-Balanced :
        (sr : ShardReport) (sl : ShardLog) (st : State)
        → h sr ≡ sum g sl.results
        → Balanced st
        → Balanced (keep_report sr sl st)
    unfolding Balanced keep_report
    keep_report-Balanced sr sl st shown balanced =
        let k = in_reports-snoc st.shards sr in
        elim (Bool-cases (str_eq sr.status status_wrong_shape)) [
          | inl e ↦ rw e (ground (arith, k, balanced, e))
          | inr e ↦
              let r = on_arch-add_results sr.arch sl.results st.rows in
              rw e (ground (arith, k, r, shown, balanced, e))
        ]

    judge_log-Balanced :
        (arch : String) (shard : ℕ) (log : Option ShardLog) (st : State)
        → Balanced st
        → Balanced (judge_log quote is_float c celeris_sha arch shard log st)
    unfolding judge_log Balanced
    judge_log-Balanced arch shard none st balanced =
        missing-Balanced arch shard (log_name c.name arch shard) st balanced
    judge_log-Balanced arch shard (some sl) st balanced =
        let obs = observation_reasons is_float c sl in
        let shape = check_shape quote sl.header c arch shard celeris_sha in
        let log = log_name c.name arch shard in
        keep_report-Balanced (log_report arch shard log sl obs shape) sl st
          (shows.of_log arch shard log sl obs shape) balanced

    judge_shards-Balanced :
        (arch : String) (n : ℕ) (st : State)
        → Balanced st
        → Balanced (judge_shards quote is_float logs c celeris_sha arch n st)
    unfolding judge_shards
    judge_shards-Balanced arch zero st balanced = balanced
    judge_shards-Balanced arch (suc n) st balanced =
        judge_log-Balanced arch (suc n) (logs (log_name c.name arch (suc n)))
          (judge_shards quote is_float logs c celeris_sha arch n st)
          (judge_shards-Balanced arch n st balanced)

    judge_arches-Balanced :
        (arches : List String) (st : State)
        → Balanced st
        → Balanced (judge_arches quote is_float logs c celeris_sha arches st)
    unfolding judge_arches
    judge_arches-Balanced [] st balanced = balanced
    judge_arches-Balanced (y ∷ ys) st balanced =
        judge_arches-Balanced ys (judge_shards quote is_float logs c celeris_sha y c.shards st)
          (judge_shards-Balanced y c.shards st balanced)

    tests-Balanced :
        let report = judge_case quote is_float logs c celeris_sha in
        on_arch f a report.tests ≡ in_reports h a report.shards
    unfolding judge_case report_of Balanced on_arch
    tests-Balanced =
        let st = judge_arches quote is_float logs c celeris_sha c.arches start in
        let p =
          sum-Perm (λ r. if str_eq r.arch a then f r else 0)
            (insertion_sort-perm row_less st.rows) in
        p ∙ judge_arches-Balanced c.arches start refl

  -- For each arch, the PASS, FAIL, SKIP and no-verdict totals that the rows of the report give are
  -- the sums of what the reports of the arch's shards show, those of the wrong shape left out.
  pub judge_case-totals :
      let report = judge_case quote is_float logs c celeris_sha in
      let total = arch_total a report.shards report.tests in
      (total.pass ≡ in_reports (λ s. s.pass) a report.shards)
      × (total.fail ≡ in_reports (λ s. s.fail) a report.shards)
      × (total.skip ≡ in_reports (λ s. s.skip) a report.shards)
      × (total.no_verdict ≡ in_reports (λ s. s.no_verdict) a report.shards)
  unfolding arch_total log_report missing_report add_counts
  judge_case-totals = (
    tests-Balanced pass_Adds
        (record { of_log = λ arch shard log sl o s. refl; of_none = λ arch shard log. refl }),
    tests-Balanced fail_Adds
        (record { of_log = λ arch shard log sl o s. refl; of_none = λ arch shard log. refl }),
    tests-Balanced skip_Adds
        (record { of_log = λ arch shard log sl o s. refl; of_none = λ arch shard log. refl }),
    tests-Balanced no_verdict_Adds
        (record { of_log = λ arch shard log sl o s. refl; of_none = λ arch shard log. refl }),
  )
