-- ===== src/Stresstally/Guard/Tests.antt =====
-- tools/stresstally/guard.go: the guard on a few runs.
use probatorium.Base.{
  ℕ, ltb, ◌==◌, if◌then◌else◌, Bool, true, false, List, [], ◌∷◌, String, none, some, count, IsSort,
  Sorted, insertion_sort, insertion_sort-IsSort, ◌≡◌, refl, ◌↔◌, arith, pos, rounds,
}
use probatorium.Stresstally.Guard.{
  GhRun, GhJob, RunClass, by_id, allows, classify_runs, decide, GuardInput, cmd_guard, is_holder,
}
use probatorium.Stresstally.Guard.InTheWay.{NothingBlocks}
use probatorium.Stresstally.Guard.Decision.{classify_runs_lem, of_id, judged, first_open}
use probatorium.Stresstally.Guard.Command.{
  complete, listed, latest, cmd_guard_lem, cmd_guard-NothingBlocks,
}

abbrev sort : List RunClass → List RunClass
sort = insertion_sort by_id

abbrev tier : ℕ → String → GhRun
tier id status = record {
  id = id;
  name = "tier";
  display_title = "Benchmark tier";
  path = ".github/workflows/benchmark-tier.yml";
  event = "workflow_dispatch";
  status = status;
  created_at = "2026-10-01T00:00:00Z";
}

abbrev stress : ℕ → String → GhRun
stress id title = record {
  id = id;
  name = "stress";
  display_title = title;
  path = ".github/workflows/celeris-stress.yml";
  event = "workflow_dispatch";
  status = "in_progress";
  created_at = "2026-10-01T00:00:00Z";
}

abbrev guard_passed : List GhJob
guard_passed =
    record { name = "cluster-guard"; status = "completed"; conclusion = "success" }
    ∷ record { name = "cluster / run"; status = "in_progress"; conclusion = "" }
    ∷ []

-- A tier in progress that is listed twice, a stress run on GitHub's machines, one on the cluster
-- that has started, and the run itself.
abbrev runs : List GhRun
runs =
    tier 7 "in_progress"
    ∷ stress 5 "Celeris Stress [github/linux]"
    ∷ stress 4 "Celeris Stress [cluster/all]"
    ∷ tier 7 "in_progress"
    ∷ stress 9 "Celeris Stress [cluster/all]"
    ∷ []

abbrev input : Bool → GuardInput
input idle = record {
  flags_ok = true;
  self = pos 9;
  idle = idle;
  runs_files = some runs ∷ some [] ∷ [];
  jobs_files = (some 4, some guard_passed) ∷ (none, none) ∷ [];
  writes = true;
}

guard_allows : cmd_guard sort (input false) ≡ 0
unfolding cmd_guard insertion_sort
guard_allows = refl

idle_refuses : cmd_guard sort (input true) ≡ 1
unfolding cmd_guard insertion_sort
idle_refuses = refl

unreadable : cmd_guard sort (record (input false) { runs_files = some runs ∷ none ∷ [] }) ≡ 2
unfolding cmd_guard
unreadable = refl

ltb_asym : (a b : ℕ) → ltb a b ≡ true → ltb b a ≡ false
ltb_asym a b h = ground arith

ltb_trans : (a b c : ℕ) → ltb b a ≡ false → ltb c b ≡ false → ltb c a ≡ false
ltb_trans a b c h k = ground arith

sort-IsSort : IsSort by_id sort
sort-IsSort =
    insertion_sort-IsSort by_id (λ x y. ltb_asym x.run.id y.run.id)
      (λ x y z. ltb_trans x.run.id y.run.id z.run.id)

abbrev jobs : ℕ → List GhJob
jobs = latest (input false).jobs_files []

abbrev holds : RunClass → Bool
holds c = is_holder c.class

classify_runs_lem_example :
    Sorted by_id (classify_runs sort runs jobs 9)
    × (count (of_id holds 7) (classify_runs sort runs jobs 9)
        ≡ (if 7 == 9 then 0 else judged jobs holds (first_open 7 runs)))
classify_runs_lem_example = classify_runs_lem sort jobs 9 runs holds 7 sort-IsSort

cmd_guard_lem_example : cmd_guard sort (input true) ≡ (
    if complete (input true)
    then if allows (
        decide true (
          classify_runs sort
            (listed (input true).runs_files)
            (latest (input true).jobs_files [])
            (rounds (input true).self)))
      then 0
      else 1
    else 2)
cmd_guard_lem_example = cmd_guard_lem sort (input true)

cmd_guard-NothingBlocks_example : (cmd_guard sort (input false) ≡ 0) ↔ (
    (complete (input false) ≡ true)
    × NothingBlocks (latest (input false).jobs_files []) false 9 (listed (input false).runs_files))
cmd_guard-NothingBlocks_example = cmd_guard-NothingBlocks sort (input false) sort-IsSort
