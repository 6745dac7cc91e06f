-- ===== src/Stresstally/Cases/Tests.antt =====
-- A case whose only shard passed.
use text.Mathlib.Text.{◌==◌ as str_eq}
use Prim.Native.String.{◌++◌ as ◌+++◌}
use probatorium.Base.{if◌then◌else◌, Bool, true, List, [], ◌∷◌, String, Option, none, some, map}
use probatorium.Stresstally.Judge.{Case}
use probatorium.Stresstally.Judge.Shape.{wanted}
use probatorium.Stresstally.Parse.Sample.{log_of}
use probatorium.Stresstally.Cases.{LogFile, opened}

abbrev small : Case
small = record {
  name = "case-1";
  purpose = "";
  packages = "./x" ∷ [];
  run = "TestX";
  count = 1;
  shards = 1;
  arches = "x86" ∷ [];
  memlock = "8m";
  race = true;
  timeout = "10m";
  flags = [];
  env = [];
  shuffle = "";
  expect = record {
    verdict = "PASS";
    problems = none;
    tests = [];
    shard_status = "";
    shard_reasons = [];
  };
  target = "";
  mode = "";
  cpus = 0;
  pmu = "";
}

abbrev header : List String
header = map (λ f. "stress-header: " +++ f.0 +++ "=" +++ f.1) (wanted small "x86" 1 "")

abbrev passed_log : List (String × Bool)
passed_log = log_of header ("=== RUN   TestX" ∷ "--- PASS: TestX (0.01s)" ∷ "ok  \tx" ∷ []) "0"

abbrev files : String → Option LogFile
files name = if str_eq name "case-1__x86__1.log" then some (opened passed_log none) else none
