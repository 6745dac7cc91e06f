-- ===== src/Stresstally/Judge/Shards.antt =====
-- The loop over the shards of a case: the report of each shard, and what its verdicts add to the
-- rows, one for each test on each arch.
use text.Mathlib.Text.{◌==◌ as str_eq}
use Prim.Native.String.{◌++◌ as ◌+++◌}
use probatorium.Base.{
  Fields, at_key, ℕ, zero, suc, ◌+◌, ltb, if◌then◌else◌, ◌||◌, ◌&&◌, not, Bool, List, [], ◌∷◌, ◌++◌,
  String, Option, none, some, map, is_nil, length, sum,
}
use probatorium.Stresstally.Judge.{
  Case, ShardLog, TestResult, Failure, log_name, status_complete, status_unparsed, status_missing,
  status_wrong_shape,
}
use probatorium.Stresstally.Judge.Shape.{
  check_shape, observation_reasons, has_reason, is_refused, reason_no_header, reason_shape,
}

pub record ShardReport : Type 0 where
  pub arch : String
  pub shard : ℕ
  pub log : String
  pub status : String
  pub reasons : List String
  pub notes : List String
  pub exit : String
  pub elapsed : String
  pub pass : ℕ
  pub fail : ℕ
  pub skip : ℕ
  pub no_verdict : ℕ
  pub races : ℕ
  pub timed_out : List String
  pub shuffle : String
  pub kernel : String
  pub image : String
  pub memlock : String
  pub nproc : String
  pub celeris_sha : String
  pub go_version : String
  pub host : String
  pub cpu_model : String
  pub governor : String
  pub load_before : String
  pub load_after : String
  pub cpu_set : String
  pub perf : String
  pub observations : ℕ
  pub obs : List Fields

-- One row: a test of a pkg on one arch, with the iterations and the processes counted.
pub record TestRow : Type 0 where
  pub pkg : String
  pub name : String
  pub arch : String
  pub processes : ℕ
  pub failed_processes : ℕ
  pub pass : ℕ
  pub fail : ℕ
  pub skip : ℕ
  pub no_verdict : ℕ

pub record State : Type 0 where
  pub shards : List ShardReport
  pub rows : List TestRow
  pub failures : List Failure

abbrev pub start : State
start = record { shards = []; rows = []; failures = [] }

abbrev pub one_if : Bool → ℕ
one_if b = if b then 1 else 0

abbrev pub zero_row : String → String → String → TestRow
zero_row pkg name arch = record {
  pkg = pkg;
  name = name;
  arch = arch;
  processes = 0;
  failed_processes = 0;
  pass = 0;
  fail = 0;
  skip = 0;
  no_verdict = 0;
}

unfoldable pub same_key : TestRow → String → String → String → Bool
same_key r pkg name arch = str_eq r.pkg pkg && (str_eq r.name name && str_eq r.arch arch)

unfoldable pub add_counts : TestRow → TestResult → TestRow
add_counts r v = record {
  pkg = r.pkg;
  name = r.name;
  arch = r.arch;
  processes = r.processes + one_if (ltb 0 (v.pass + v.fail));
  failed_processes = r.failed_processes + one_if (ltb 0 v.fail);
  pass = r.pass + v.pass;
  fail = r.fail + v.fail;
  skip = r.skip + v.skip;
  no_verdict = r.no_verdict + v.no_verdict;
}

unfoldable pub add_result : String → TestResult → List TestRow → List TestRow
unfolding same_key add_counts
add_result arch v [] = add_counts (zero_row v.pkg v.name arch) v ∷ []
add_result arch v (r ∷ rows) =
    let rest = add_result arch v rows in
    if same_key r v.pkg v.name arch then add_counts r v ∷ rows else r ∷ rest

unfoldable pub add_results : String → List TestResult → List TestRow → List TestRow
unfolding add_result
add_results arch [] rows = rows
add_results arch (v ∷ vs) rows = add_results arch vs (add_result arch v rows)

place_failure : String → ℕ → String → Failure → Failure
place_failure arch shard shuffle f = record {
  pkg = f.pkg;
  name = f.name;
  arch = arch;
  shard = shard;
  shuffle = shuffle;
  lines = f.lines;
}

shape_reasons : List String → List String
shape_reasons [] = []
shape_reasons (m ∷ ms) = (reason_shape +++ ": " +++ m) ∷ shape_reasons ms

unfoldable pub missing_report : String → ℕ → String → ShardReport
missing_report arch shard log = record {
  arch = arch;
  shard = shard;
  log = log;
  status = status_missing;
  reasons = "no log: the shard job never uploaded one" ∷ [];
  notes = [];
  exit = "";
  elapsed = "";
  pass = 0;
  fail = 0;
  skip = 0;
  no_verdict = 0;
  races = 0;
  timed_out = [];
  shuffle = "";
  kernel = "";
  image = "";
  memlock = "";
  nproc = "";
  celeris_sha = "";
  go_version = "";
  host = "";
  cpu_model = "";
  governor = "";
  load_before = "";
  load_after = "";
  cpu_set = "";
  perf = "";
  observations = 0;
  obs = [];
}

unfoldable pub shard_status : ShardLog → List String → List String → String
unfolding is_refused has_reason
shard_status sl obs_reasons shape =
    if is_refused sl || not (is_nil shape) && not (has_reason sl.reasons reason_no_header)
    then status_wrong_shape
    else if not (is_nil sl.reasons) || not (is_nil obs_reasons)
    then status_unparsed
    else status_complete

shard_reasons : ShardLog → List String → List String → List String
unfolding shard_status shape_reasons
shard_reasons sl obs_reasons shape =
    sl.reasons
    ++ obs_reasons
    ++ (if str_eq (shard_status sl obs_reasons shape) status_wrong_shape
        then shape_reasons shape
        else [])

unfoldable pub log_report : String → ℕ → String → ShardLog → List String → List String → ShardReport
unfolding shard_reasons at_key
log_report arch shard log sl obs_reasons shape = record {
  arch = arch;
  shard = shard;
  log = log;
  status = shard_status sl obs_reasons shape;
  reasons = shard_reasons sl obs_reasons shape;
  notes = sl.notes;
  exit = sl.exit;
  elapsed = sl.elapsed;
  pass = sum (λ v. v.pass) sl.results;
  fail = sum (λ v. v.fail) sl.results;
  skip = sum (λ v. v.skip) sl.results;
  no_verdict = sum (λ v. v.no_verdict) sl.results;
  races = sl.races;
  timed_out = sl.timed_out;
  shuffle = at_key sl.header "shuffle";
  kernel = at_key sl.header "kernel";
  image = at_key sl.header "image";
  memlock = at_key sl.header "memlock_in_force";
  nproc = at_key sl.header "nproc";
  celeris_sha = at_key sl.header "celeris_sha";
  go_version = at_key sl.header "go_version";
  host = at_key sl.header "host";
  cpu_model = at_key sl.header "cpu_model";
  governor = at_key sl.header "governor";
  load_before = at_key sl.header "loadavg_before";
  load_after = at_key sl.after "loadavg";
  cpu_set = at_key sl.header "cpuset";
  perf = at_key sl.header "perf";
  observations = length sl.obs;
  obs = sl.obs;
}

-- A shard of the wrong shape keeps its report and adds nothing to the rows and failures.
unfoldable pub keep_report : ShardReport → ShardLog → State → State
unfolding add_results place_failure at_key
keep_report sr sl st =
    if str_eq sr.status status_wrong_shape
    then record { shards = st.shards ++ sr ∷ []; rows = st.rows; failures = st.failures }
    else record {
      shards = st.shards ++ sr ∷ [];
      rows = add_results sr.arch sl.results st.rows;
      failures =
          st.failures
          ++ map (place_failure sr.arch sr.shard (at_key sl.header "shuffle")) sl.failures;
    }

module _ (quote : String → String) (is_float : String → Bool) where
  -- The body of the loop, given the shard's log.
  unfoldable pub judge_log : Case → String → String → ℕ → Option ShardLog → State → State
  unfolding missing_report log_report keep_report check_shape observation_reasons log_name
  judge_log c celeris_sha arch shard none st = record {
    shards = st.shards ++ missing_report arch shard (log_name c.name arch shard) ∷ [];
    rows = st.rows;
    failures = st.failures;
  }
  judge_log c celeris_sha arch shard (some sl) st =
      keep_report
        (log_report arch shard (log_name c.name arch shard) sl (observation_reasons is_float c sl)
          (check_shape quote sl.header c arch shard celeris_sha))
        sl st

  module _ (logs : String → Option ShardLog) (c : Case) (celeris_sha : String) where
    -- `for shard := 1; shard <= n; shard++`
    unfoldable pub judge_shards : String → ℕ → State → State
    unfolding judge_log
    judge_shards arch zero st = st
    judge_shards arch (suc n) st =
        judge_log c celeris_sha arch (suc n) (logs (log_name c.name arch (suc n)))
          (judge_shards arch n st)

    unfoldable pub judge_arches : List String → State → State
    unfolding judge_shards
    judge_arches [] st = st
    judge_arches (arch ∷ arches) st = judge_arches arches (judge_shards arch c.shards st)
