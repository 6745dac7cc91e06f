-- ===== src/Stresstally/Judge/Completeness.antt =====
-- How the statuses of a case's shards count those that are not complete.
use text.Mathlib.Text.{◌==◌ as str_eq}
use probatorium.Base.{
  ℕ, zero, suc, ◌+◌, if◌then◌else◌, ◌&&◌, Bool, true, List, [], ◌∷◌, ◌++◌, String, Option, none,
  some, ◌≡◌, ◌↔◌, refl, arith, count-append, sum, contains,
}
use probatorium.Stresstally.Judge.{
  Case, ShardLog, log_name, status_unparsed, status_missing, status_wrong_shape,
}
use probatorium.Stresstally.Judge.Shape.{check_shape, observation_reasons}
use probatorium.Stresstally.Judge.Shards.{
  ShardReport, State, judge_log, judge_shards, judge_arches, start, log_report, missing_report,
}
use probatorium.Stresstally.Judge.Problems.{with_status}
use probatorium.Stresstally.Judge.Tally.{sum-at_arch}
use probatorium.Stresstally.Judge.Complete.{
  status_flaw, status-flaw, keep_report-shards, IsComplete, flaw, flaw-IsComplete,
}

module _ (quote : String → String) (is_float : String → Bool) (c : Case)
    (celeris_sha : String) where
  flaws : String → List ShardReport → ℕ
  flaws a shards =
      with_status a status_unparsed shards
      + with_status a status_missing shards
      + with_status a status_wrong_shape shards

  flaws_start : (a : String) → flaws a [] ≡ 0
  unfolding flaws with_status
  flaws_start a = refl

  flaws-snoc :
      (a : String) (shards : List ShardReport) (sr : ShardReport)
      → flaws a (shards ++ sr ∷ [])
        ≡ flaws a shards + (if str_eq sr.arch a then status_flaw sr.status else 0)
  unfolding flaws with_status status_flaw
  flaws-snoc a shards sr =
      let u =
        count-append (λ s. str_eq s.arch a && str_eq s.status status_unparsed) shards (sr ∷ []) in
      let m =
        count-append (λ s. str_eq s.arch a && str_eq s.status status_missing) shards (sr ∷ []) in
      let w =
        count-append (λ s. str_eq s.arch a && str_eq s.status status_wrong_shape) shards
          (sr ∷ []) in
      ground (arith, u, m, w)

  flaws-judge_log :
      (a arch : String) (shard : ℕ) (log : Option ShardLog) (st : State)
      → flaws a (judge_log quote is_float c celeris_sha arch shard log st).shards
        ≡ flaws a st.shards
          + (if str_eq arch a then flaw quote is_float c celeris_sha arch shard log else 0)
  unfolding judge_log log_report missing_report status_flaw
  flaws-judge_log a arch shard none st =
      flaws-snoc a st.shards (missing_report arch shard (log_name c.name arch shard))
  flaws-judge_log a arch shard (some sl) st =
      let obs = observation_reasons is_float c sl in
      let shape = check_shape quote sl.header c arch shard celeris_sha in
      let sr = log_report arch shard (log_name c.name arch shard) sl obs shape in
      rw (keep_report-shards sr sl st)
        (rw (flaws-snoc a st.shards sr) (rw (status-flaw sl obs shape) refl))

  module _ (logs : String → Option ShardLog) where
    log_of : String → ℕ → Option ShardLog
    log_of arch shard = logs (log_name c.name arch shard)

    flaws_of : String → ℕ → ℕ
    unfolding log_of
    flaws_of arch zero = 0
    flaws_of arch (suc n) =
        flaw quote is_float c celeris_sha arch (suc n) (log_of arch (suc n)) + flaws_of arch n

    -- Each of the first `n` shards of an arch is complete.
    abbrev pub AllComplete : String → ℕ → Type 0
    AllComplete arch zero = Unit
    AllComplete arch (suc n) =
        IsComplete quote is_float c celeris_sha arch (suc n) (logs (log_name c.name arch (suc n)))
        × AllComplete arch n

    flaws_of-AllComplete : (arch : String) (n : ℕ) → (flaws_of arch n ≡ 0) ↔ AllComplete arch n
    unfolding flaws_of
    flaws_of-AllComplete arch zero = (λ h. tt, λ h. refl)
    flaws_of-AllComplete arch (suc n) =
        let (to, from) =
          flaw-IsComplete quote is_float c celeris_sha arch (suc n) (log_of arch (suc n)) in
        let (tos, froms) = flaws_of-AllComplete arch n in
        (
          λ h. (to (omega arith), tos (omega arith)),
          λ h. let a = from h.0 in let b = froms h.1 in omega (arith, a, b),
        )

    flaws-judge_shards :
        (a arch : String) (n : ℕ) (st : State)
        → flaws a (judge_shards quote is_float logs c celeris_sha arch n st).shards
          ≡ flaws a st.shards + (if str_eq arch a then flaws_of arch n else 0)
    unfolding judge_shards flaws_of
    flaws-judge_shards a arch zero st = ground arith
    flaws-judge_shards a arch (suc n) st =
        let done = judge_shards quote is_float logs c celeris_sha arch n st in
        let k = flaws-judge_log a arch (suc n) (log_of arch (suc n)) done in
        let ih = flaws-judge_shards a arch n st in ground (arith, k, ih)

    flaws-judge_arches :
        (a : String) (arches : List String) (st : State)
        → flaws a (judge_arches quote is_float logs c celeris_sha arches st).shards
          ≡ flaws a st.shards + sum (λ y. if str_eq y a then flaws_of y c.shards else 0) arches
    unfolding judge_arches
    flaws-judge_arches a [] st = omega arith
    flaws-judge_arches a (y ∷ ys) st =
        let done = judge_shards quote is_float logs c celeris_sha y c.shards st in
        omega (arith, flaws-judge_arches a ys done, flaws-judge_shards a y c.shards st)

    -- On an arch of the case no shard is counted as incomplete just where all are complete.
    pub statuses-AllComplete :
        (a : String)
        → contains a c.arches ≡ true
        → let shards = (judge_arches quote is_float logs c celeris_sha c.arches start).shards in
          ((with_status a status_unparsed shards ≡ 0)
            × (with_status a status_missing shards ≡ 0)
            × (with_status a status_wrong_shape shards ≡ 0))
          ↔ AllComplete a c.shards
    unfolding flaws
    statuses-AllComplete a m =
        let k = flaws-judge_arches a c.arches start in
        let none = flaws_start a in
        let (to, from) = flaws_of-AllComplete a c.shards in
        let (one, all) = sum-at_arch (λ y. flaws_of y c.shards) a c.arches m in
        (
          λ h. to (one (omega (arith, k, none, h.0, h.1, h.2))),
          λ h.
              let z = all (from h) in
              (omega (arith, k, none, z), omega (arith, k, none, z), omega (arith, k, none, z)),
        )
