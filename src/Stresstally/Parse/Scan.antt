-- ===== src/Stresstally/Parse/Scan.antt =====
-- The state of the loop of `parseShard` and its closures: the excerpt of a panic, and the flush of
-- what is pending once the result line of a package closes it.
pub mod Lines
use text.Mathlib.Text.{◌==◌ as str_eq}
use probatorium.Base.{
  ℕ, zero, suc, ◌+◌, ◌==◌, ltb, ℤ, pos, negsuc, ◌+ℤ◌, ◌-ℤ◌, if◌then◌else◌, ◌&&◌, Bool, true, false,
  List, [], ◌∷◌, ◌++◌, String, map, is_nil,
}
use probatorium.Stresstally.Judge.{ShardLog, TestResult, Failure}
use probatorium.Stresstally.Parse.{
  Patterns, add_reason, new_shard_log, reason_ran_without_verdict, reason_verdict_without_run,
}

-- The header's state, 0, 1 and -1 in the source.
pub data HeaderState : Type 0 where
  reading : HeaderState
  complete : HeaderState
  broken : HeaderState

pub record PendingVerdict : Type 0 where
  pub name : String
  pub result : String

pub record Scan : Type 0 where
  pub log : ShardLog
  pub header_state : HeaderState
  pub body_lines : ℕ
  pub last_non_empty : String
  pub verdicts : ℕ
  pub pending : List PendingVerdict
  pub pending_runs : List (String × ℤ)
  pub ring : List String
  pub panic_left : ℕ
  pub panic_lines : List String
  pub panic_label : String
  pub in_running : Bool

unfoldable pub start_scan : Scan
unfolding new_shard_log
start_scan = record {
  log = new_shard_log;
  header_state = reading;
  body_lines = 0;
  last_non_empty = "";
  verdicts = 0;
  pending = [];
  pending_runs = [];
  ring = [];
  panic_left = 0;
  panic_lines = [];
  panic_label = "";
  in_running = false;
}

abbrev pub panic_context : ℕ
panic_context = 16

unfoldable pub new_failure : String → String → List String → Failure
new_failure pkg name lines = record {
  pkg = pkg;
  name = name;
  arch = "";
  shard = 0;
  shuffle = "";
  lines = lines;
}

unfoldable pub with_reason : String → String → Scan → Scan
unfolding add_reason
with_reason r detail s = record s {
  log = record s.log { reasons = add_reason r detail s.log.reasons };
}

unfoldable pub end_panic : Scan → Scan
unfolding new_failure
end_panic s = record s {
  log = record s.log {
    failures =
        if is_nil s.panic_lines
        then s.log.failures
        else s.log.failures ++ new_failure "" s.panic_label s.panic_lines ∷ [];
  };
  panic_left = 0;
  panic_lines = [];
  in_running = false;
}

unfoldable pub start_panic : String → String → Scan → Scan
unfolding end_panic
start_panic label line s = record (end_panic s) {
  panic_left = panic_context;
  panic_lines = line ∷ [];
  panic_label = label;
}

unfoldable pub zero_result : String → String → TestResult
zero_result pkg name = record {
  pkg = pkg;
  name = name;
  pass = 0;
  fail = 0;
  skip = 0;
  no_verdict = 0;
}

-- A change to the counts of a test, which `counts` makes when there are none.
unfoldable pub update_counts :
    String → String → (TestResult → TestResult) → List TestResult → List TestResult
unfolding zero_result
update_counts pkg name f [] = f (zero_result pkg name) ∷ []
update_counts pkg name f (r ∷ results) =
    if str_eq r.pkg pkg && str_eq r.name name
    then f r ∷ results
    else r ∷ update_counts pkg name f results

unfoldable pub count_verdict : String → TestResult → TestResult
count_verdict result r =
    if str_eq result "PASS"
    then record r { pass = r.pass + 1 }
    else if str_eq result "FAIL"
    then record r { fail = r.fail + 1 }
    else if str_eq result "SKIP"
    then record r { skip = r.skip + 1 }
    else r

-- `pendingRuns[name] += n`.
unfoldable pub add_runs : String → ℤ → List (String × ℤ) → List (String × ℤ)
unfolding ◌+ℤ◌
add_runs name n [] = (name, n) ∷ []
add_runs name n (r ∷ runs) =
    if str_eq r.0 name then (r.0, r.1 +ℤ n) ∷ runs else r ∷ add_runs name n runs

unfoldable pub count_results : String → List PendingVerdict → List TestResult → List TestResult
unfolding update_counts count_verdict
count_results pkg [] results = results
count_results pkg (v ∷ pending) results =
    count_results pkg pending (update_counts pkg v.name (count_verdict v.result) results)

unfoldable pub take_runs : List PendingVerdict → List (String × ℤ) → List (String × ℤ)
unfolding add_runs
take_runs [] runs = runs
take_runs (v ∷ pending) runs = take_runs pending (add_runs v.name (negsuc 0) runs)

unfoldable pub settle_run : String → String → ℤ → ShardLog → ShardLog
unfolding update_counts add_reason
settle_run pkg name (pos zero) log = log
settle_run pkg name (pos (suc n)) log = record log {
  results =
      update_counts pkg name (λ r. record r { no_verdict = r.no_verdict + suc n }) log.results;
  reasons = add_reason reason_ran_without_verdict "" log.reasons;
}
settle_run pkg name (negsuc n) log = record log {
  reasons = add_reason reason_verdict_without_run "" log.reasons;
}

unfoldable pub settle_runs : String → List (String × ℤ) → ShardLog → ShardLog
unfolding settle_run
settle_runs pkg [] log = log
settle_runs pkg (r ∷ runs) log = settle_runs pkg runs (settle_run pkg r.0 r.1 log)

-- The package of the failures that have none yet.
unfoldable pub fill_pkg : String → Failure → Failure
fill_pkg pkg f = if str_eq f.pkg "" then record f { pkg = pkg } else f

module _ (p : Patterns) where
  unfoldable pub flush : String → Scan → Scan
  unfolding end_panic count_results take_runs settle_runs fill_pkg
  flush pkg s0 =
      let s = end_panic s0 in
      let counted = record s.log { results = count_results pkg s.pending s.log.results } in
      let settled = settle_runs pkg (p.ranged (take_runs s.pending s.pending_runs)) counted in
      record s {
        log = record settled { failures = map (fill_pkg pkg) settled.failures };
        pending = [];
        pending_runs = [];
      }
