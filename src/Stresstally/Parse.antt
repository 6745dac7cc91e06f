-- ===== src/Stresstally/Parse.antt =====
-- tools/stresstally/parse.go: reading the log of a shard. A regular expression of the source is a
-- parameter, the answer of its match on a line: whether it matches, or the texts of its groups.
-- So are `strings.TrimSpace`, `strings.Fields`, and the order in which `range` goes over a map.
-- A map is a list of its entries; a text stands for its bytes.
pub mod Reader
pub mod Excerpt
pub mod Scan
pub mod Shard
pub mod Output
pub mod Steps
pub mod Flush
pub mod Closing
pub mod Counts
pub mod Runs
pub mod Trouble
pub mod Header
pub mod Clean
pub mod Sound
pub mod Sample
mod Tests
use text.Mathlib.Text.{◌==◌ as str_eq}
use Prim.Native.String.{◌++◌ as ◌+++◌}
use probatorium.Base.{
  Fields, ℕ, ℤ, if◌then◌else◌, ◌&&◌, not, Bool, true, false, List, [], ◌∷◌, ◌++◌, String, Option,
  contains,
}
use probatorium.Stresstally.Judge.{ShardLog}

pub record Patterns : Type 0 where
  -- The result and the name of a verdict.
  pub verdict_re : String → Option (String × String)
  pub glued_re : String → Option (String × String)
  pub run_re : String → Option String
  pub marker_re : String → Option String
  pub ok_pkg_re : String → Option String
  pub fail_pkg_re : String → Option String
  pub no_files_re : String → Option String
  pub broken_re : String → Option String
  pub panic_re : String → Bool
  pub timeout_re : String → Bool
  pub fatal_re : String → Bool
  pub signal_re : String → Bool
  pub race_re : String → Bool
  pub running_re : String → Option String
  -- The exit status and the elapsed seconds.
  pub trailer_re : String → Option (String × String)
  pub trim_space : String → String
  pub words : String → List String
  pub ranged : List (String × ℤ) → List (String × ℤ)

abbrev pub reason_no_trailer : String
reason_no_trailer = "no-trailer"

abbrev pub reason_no_verdicts : String
reason_no_verdicts = "no-verdicts"

abbrev pub reason_panic : String
reason_panic = "panic"

abbrev pub reason_timeout : String
reason_timeout = "timeout"

abbrev pub reason_fatal : String
reason_fatal = "fatal-error"

abbrev pub reason_signal : String
reason_signal = "killed-by-signal"

abbrev pub reason_build_failed : String
reason_build_failed = "build-failed"

abbrev pub reason_unterminated : String
reason_unterminated = "no-package-result"

abbrev pub reason_ran_without_verdict : String
reason_ran_without_verdict = "ran-without-verdict"

abbrev pub reason_verdict_without_run : String
reason_verdict_without_run = "verdict-without-run"

abbrev pub reason_glued : String
reason_glued = "glued-verdict"

abbrev pub reason_pkg_fail_no_test : String
reason_pkg_fail_no_test = "package-failed-without-a-failing-test"

abbrev pub reason_exit_mismatch : String
reason_exit_mismatch = "exit-status-disagrees"

abbrev pub reason_unreadable : String
reason_unreadable = "unreadable"

abbrev pub reason_refused : String
reason_refused = "refused"

unfoldable pub message : String → String → String
message r detail = if str_eq detail "" then r else r +++ ": " +++ detail

-- `reason`, on the reasons of a log: each is kept once.
unfoldable pub add_reason : String → String → List String → List String
unfolding message contains
add_reason r detail reasons =
    if contains (message r detail) reasons then reasons else reasons ++ message r detail ∷ []

unfoldable pub new_shard_log : ShardLog
new_shard_log = record {
  header = [];
  exit = "";
  elapsed = "";
  refused = "";
  results = [];
  reasons = [];
  notes = [];
  failures = [];
  races = 0;
  timed_out = [];
  after = [];
  obs = [];
}

-- An assignment to a map of texts.
unfoldable pub put : Fields → String → String → Fields
put [] key value = (key, value) ∷ []
put (f ∷ fields) key value =
    if str_eq f.0 key then (key, value) ∷ fields else f ∷ put fields key value
