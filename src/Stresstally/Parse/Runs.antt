-- ===== src/Stresstally/Parse/Runs.antt =====
-- The runs of a test against what the log counts of it. A run that gets no verdict is counted as
-- one without; a verdict with no run is a reason.
use text.Mathlib.Text.{◌==◌ as str_eq}
use mathlib.Core.List.{Perm}
use probatorium.Base.{
  ◌+◌, ℤ, pos_part, neg_part, if◌then◌else◌, Bool, false, List, [], ◌∷◌, String, Option, none, some,
  ◌≡◌, ◌≢◌, refl, arith, ap, sum-append, sum-Perm, count-append, contains,
}
use probatorium.Stresstally.Parse.{Patterns, reason_verdict_without_run}
use probatorium.Stresstally.Parse.Reader.{read_lines}
use probatorium.Stresstally.Parse.Scan.{
  Scan, start_scan, take_runs, flush, end_panic, count_results,
}
use probatorium.Stresstally.Parse.Shard.{parse_shard}
use probatorium.Stresstally.Parse.Output.{Core, core, output_of}
use probatorium.Stresstally.Parse.Steps.{Keeps}
use probatorium.Stresstally.Parse.Flush.{
  total, pending_of, gained, lost, total-flush, balance-add_run, balance-take_runs,
  settle_runs-lost, contains-settle_runs, contains-add_reason,
}
use probatorium.Stresstally.Parse.Closing.{closing-keeps, parse_shard-Extends, closing-none}
use probatorium.Stresstally.Parse.Counts.{any_kind, all_counts, all_Weighs, is_run, run_lines}

-- What the code relies on: the pattern of a verdict has three results, the exit status that the
-- pattern of a trailer finds is not empty, and `range` goes over the
-- entries of a map in some order.
pub record IsGo (p : Patterns) : Type 0 where
  pub kinds : (l k name : String) → p.verdict_re l ≡ some (k, name) → any_kind k ≡ 1
  pub exits : (l e elapsed : String) → p.trailer_re l ≡ some (e, elapsed) → e ≢ ""
  pub all_entries : (runs : List (String × ℤ)) → Perm (p.ranged runs) runs

module _ (p : Patterns) (go : IsGo p) (m : String) where
  open go use {kinds, all_entries}

  -- As long as no verdict lacks its run, the runs read so far are counted or pending.
  record Ran (c : Core) (xs : List String) : Type 0 where
    known : pending_of m any_kind c.pending ≡ pending_of m (λ k. 1) c.pending
    balanced :
        contains reason_verdict_without_run c.reasons ≡ false
        → total m all_counts c.results + gained m c.runs ≡ lost m c.runs + run_lines p m xs

  is_run-some : (l k name : String) → p.verdict_re l ≡ some (k, name) → is_run p m l ≡ false
  is_run-some l k name e = rw (e, is_run) refl

  is_run-none :
      (l name : String)
      → p.verdict_re l ≡ none
      → p.run_re l ≡ some name
      → is_run p m l ≡ str_eq name m
  is_run-none l name e f = rw (e, is_run) (rw (f, is_run) refl)

  is_run-other : (l : String) → p.verdict_re l ≡ none → p.run_re l ≡ none → is_run p m l ≡ false
  is_run-other l e f = rw (e, is_run) (rw (f, is_run) refl)

  flush-Ran :
      (s : Scan) (pkg : String) (xs : List String) → Ran (core s) xs → Ran (core (flush p pkg s)) xs
  unfolding flush end_panic
  flush-Ran s pkg xs h = record {
    known = refl;
    balanced = λ r.
        let taken = take_runs s.pending s.pending_runs in
        let counted = record (end_panic s).log {
          results = count_results pkg s.pending s.log.results;
        } in
        let before =
          contains-settle_runs reason_verdict_without_run pkg (p.ranged taken) counted r in
        let a = total-flush m all_Weighs p pkg s in
        let b = balance-take_runs m s.pending s.pending_runs in
        let up = sum-Perm (λ x. if str_eq x.0 m then pos_part x.1 else 0) (all_entries taken) in
        let down = sum-Perm (λ x. if str_eq x.0 m then neg_part x.1 else 0) (all_entries taken) in
        let z = settle_runs-lost m pkg (p.ranged taken) counted r in
        let k = h.known in let i = h.balanced before in omega (arith, a, b, up, down, z, k, i);
  }

  Ran-Keeps : Keeps p Ran
  Ran-Keeps = record {
    reason = λ c r d xs h. record {
      known = h.known;
      balanced = λ e.
          h.balanced
            (ground (arith, contains-add_reason reason_verdict_without_run r d c.reasons, e));
    };
    closed = flush-Ran;
    verdict = λ l k name c xs e h. record {
      known =
          let a =
            sum-append (λ x. if str_eq x.name m then any_kind x.result else 0) c.pending
              (record { name = name; result = k } ∷ []) in
          let b =
            sum-append (λ x. if str_eq x.name m then 1 else 0) c.pending
              (record { name = name; result = k } ∷ []) in
          let q = kinds l k name e in let i = h.known in ground (arith, a, b, q, i);
      balanced = λ r.
          let b = count-append (is_run p m) xs (l ∷ []) in
          let i = h.balanced r in let w = is_run-some l k name e in ground (arith, b, i, w);
    };
    ran = λ l name c xs e f h. record {
      known = h.known;
      balanced = λ r.
          let b = count-append (is_run p m) xs (l ∷ []) in
          let i = h.balanced r in
          let a = balance-add_run m name c.runs in
          let w = is_run-none l name e f in ground (arith, a, b, i, w);
    };
    other = λ l c xs e f h. record {
      known = h.known;
      balanced = λ r.
          let b = count-append (is_run p m) xs (l ∷ []) in
          let i = h.balanced r in let w = is_run-other l e f in ground (arith, b, i, w);
    };
  }

  -- Provided that the pattern of a verdict has its three results and that `range` goes over each
  -- entry of a map once: unless the log has the reason that a verdict lacks its run, the PASS,
  -- FAIL, SKIP and no-verdict counts of a test, summed over the packages, are together the number
  -- of its runs among the lines of output. So a run that ended without a verdict is counted.
  pub parse_shard-runs :
      (chunks : List (String × Bool)) (read_error : Option String)
      → contains reason_verdict_without_run (parse_shard p chunks read_error).reasons ≡ false
      → total m all_counts (parse_shard p chunks read_error).results
        ≡ run_lines p m (output_of (read_lines "" chunks))
  unfolding start_scan
  parse_shard-runs chunks read_error r =
      let start : Ran (core start_scan) [] = record { known = refl; balanced = λ _. refl } in
      let k = closing-keeps p Ran Ran-Keeps chunks read_error start in
      let (none_pending, none_run) = closing-none p chunks read_error in
      let e = parse_shard-Extends p chunks read_error in
      let i = k.balanced (e.reasons reason_verdict_without_run r) in
      let z = ap (gained m) none_run in
      let w = ap (lost m) none_run in rw (e.results) (omega (arith, i, z, w))
