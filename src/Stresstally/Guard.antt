-- ===== src/Stresstally/Guard.antt =====
-- tools/stresstally/guard.go: the guard that decides whether a run may enter the concurrency group
-- of the cluster. What the files hold is an input: the runs and jobs that a file lists, or nothing
-- where it cannot be read. The ids of runs are natural numbers. The sort of the judged runs is a
-- parameter. A text that only says why is a constructor with what the text names.
pub mod Decision
pub mod InTheWay
pub mod Command
mod Tests
use text.Mathlib.Text.{◌==◌ as str_eq, starts_with}
use probatorium.Base.{
  ℕ, ltb, ◌==◌, if◌then◌else◌, ◌||◌, ◌&&◌, not, Bool, true, false, List, [], ◌∷◌, ◌++◌, String,
  Option, none, some, is_nil, ℤ, le_zero, rounds,
}

abbrev cluster_group_workflows : List String
cluster_group_workflows =
    ".github/workflows/benchmark-tier.yml" ∷ ".github/workflows/cluster-os-upgrade.yml"
    ∷ ".github/workflows/cluster-reboot.yml" ∷ ".github/workflows/matrix-checkptr-tier.yml"
    ∷ ".github/workflows/matrix-nightly-tier.yml" ∷ ".github/workflows/matrix-pr-tier.yml"
    ∷ ".github/workflows/matrix-race-tier.yml" ∷ ".github/workflows/matrix-weekend-tier.yml" ∷ []

abbrev stress_workflow_path : String
stress_workflow_path = ".github/workflows/celeris-stress.yml"

abbrev guard_job_name : String
guard_job_name = "cluster-guard"

abbrev cluster_call_prefix : String
cluster_call_prefix = "cluster / "

abbrev github_title : String
github_title = "Celeris Stress [github/"

pub record GhRun : Type 0 where
  pub id : ℕ
  pub name : String
  pub display_title : String
  pub path : String
  pub event : String
  pub status : String
  pub created_at : String

pub record GhJob : Type 0 where
  pub name : String
  pub status : String
  pub conclusion : String

pub data Class : Type 0 where
  holder pending ignored : Class

pub data Why : Type 0 where
  holds_group : Why
  waits_in_group : (status : String) → Why
  self_test : Why
  github_target : Why
  guard_unfinished : Why
  guard_concluded : (conclusion : String) → Why
  jobs_started : Why
  jobs_not_started : Why

pub record RunClass : Type 0 where
  pub run : GhRun
  pub class : Class
  pub why : Why

pub contains_path : String → List String → Bool
contains_path x [] = false
contains_path x (y ∷ ys) = str_eq x y || contains_path x ys

pub contains_id : ℕ → List ℕ → Bool
contains_id i [] = false
contains_id i (j ∷ js) = i == j || contains_id i js

-- The last job named as the guard, and whether a job of the cluster call has started.
pub find_guard : List GhJob → Option GhJob → Option GhJob
find_guard [] found = found
find_guard (j ∷ js) found = find_guard js (if str_eq j.name guard_job_name then some j else found)

pub has_started : List GhJob → Bool
has_started [] = false
has_started (j ∷ js) =
    starts_with j.name cluster_call_prefix
      && (str_eq j.status "in_progress" || str_eq j.status "completed")
    || has_started js

pub classify_by_guard : GhRun → Bool → Option GhJob → RunClass
classify_by_guard r started none = record { run = r; class = pending; why = guard_unfinished }
classify_by_guard r started (some guard) =
    if not (str_eq guard.status "completed")
    then record { run = r; class = pending; why = guard_unfinished }
    else if not (str_eq guard.conclusion "success")
    then record { run = r; class = ignored; why = guard_concluded guard.conclusion }
    else if started
    then record { run = r; class = holder; why = jobs_started }
    else record { run = r; class = pending; why = jobs_not_started }

pub classify_stress_run : GhRun → List GhJob → RunClass
unfolding find_guard has_started classify_by_guard
classify_stress_run r jobs =
    if str_eq r.event "pull_request"
    then record { run = r; class = ignored; why = self_test }
    else if starts_with r.display_title github_title
    then record { run = r; class = ignored; why = github_target }
    else classify_by_guard r (has_started jobs) (find_guard jobs none)

-- The body of the loop: `none` for a run of a workflow that never joins the group.
pub classify_run : (ℕ → List GhJob) → GhRun → Option RunClass
unfolding contains_path classify_stress_run
classify_run jobs r =
    if contains_path r.path cluster_group_workflows
    then if str_eq r.status "in_progress"
      then some (record { run = r; class = holder; why = holds_group })
      else some (record { run = r; class = pending; why = waits_in_group r.status })
    else if str_eq r.path stress_workflow_path
    then some (classify_stress_run r (jobs r.id))
    else none

pub add_class : Option RunClass → List RunClass → List RunClass
add_class none cs = cs
add_class (some c) cs = c ∷ cs

pub classify_open : (ℕ → List GhJob) → ℕ → List ℕ → List GhRun → List RunClass
unfolding contains_id classify_run add_class
classify_open jobs self seen [] = []
classify_open jobs self seen (r ∷ rs) =
    let skipped = classify_open jobs self seen rs in
    let others = classify_open jobs self (r.id ∷ seen) rs in
    if r.id == self || (contains_id r.id seen || str_eq r.status "completed")
    then skipped
    else add_class (classify_run jobs r) others

-- The comparison of the sort, by id.
abbrev pub by_id : RunClass → RunClass → Bool
by_id a b = ltb a.run.id b.run.id

-- What a decision says, with the runs that its text names.
pub data Verdict : Type 0 where
  refused : (named : List RunClass) → Verdict
  allowed_waiting : (holders : List RunClass) → Verdict
  allowed : Verdict

pub allows : Verdict → Bool
allows (refused _) = false
allows (allowed_waiting _) = true
allows allowed = true

abbrev pub is_pending : Class → Bool
is_pending pending = true
is_pending _ = false

abbrev pub is_holder : Class → Bool
is_holder holder = true
is_holder _ = false

pub select : (Class → Bool) → List RunClass → List RunClass
select p [] = []
select p (c ∷ cs) = let rest = select p cs in if p c.class then c ∷ rest else rest

pub guard_decision : List RunClass → Verdict
unfolding select
guard_decision cs =
    if not (is_nil (select is_pending cs))
    then refused (select is_pending cs)
    else if not (is_nil (select is_holder cs))
    then allowed_waiting (select is_holder cs)
    else allowed

pub idle_decision : List RunClass → Verdict
unfolding select
idle_decision cs =
    let busy = select (λ c. is_pending c || is_holder c) cs in
    if not (is_nil busy) then refused busy else allowed

pub decide : Bool → List RunClass → Verdict
unfolding guard_decision idle_decision
decide idle classes = if idle then idle_decision classes else guard_decision classes

-- The runs of all files, or nothing where one of them cannot be read.
pub read_runs : List (Option (List GhRun)) → Option (List GhRun)
read_runs [] = some []
read_runs (none ∷ files) = none
read_runs (some rs ∷ files) = elim (read_runs files) [ none ↦ none | some more ↦ some (rs ++ more) ]

-- The jobs by run, from files with the id that their name gives, if it gives one: a file without
-- is not read, and a later file of an id takes the place of an earlier.
pub read_jobs : List (Option ℕ × Option (List GhJob)) → (ℕ → List GhJob) → Option (ℕ → List GhJob)
read_jobs [] jobs = some jobs
read_jobs ((none, _) ∷ files) jobs = read_jobs files jobs
read_jobs ((some id, none) ∷ files) jobs = none
read_jobs ((some id, some js) ∷ files) jobs = read_jobs files (λ i. if i == id then js else jobs i)

-- What a run of the command finds: whether the flags parse, their values, the files, and whether
-- the decision can be written.
pub record GuardInput : Type 0 where
  pub flags_ok : Bool
  pub self : ℤ
  pub idle : Bool
  pub runs_files : List (Option (List GhRun))
  pub jobs_files : List (Option ℕ × Option (List GhJob))
  pub writes : Bool

module _ (sort : List RunClass → List RunClass) where
  pub classify_runs : List GhRun → (ℕ → List GhJob) → ℕ → List RunClass
  unfolding classify_open
  classify_runs runs jobs self = sort (classify_open jobs self [] runs)

  -- The end of the command, once the runs and the jobs are read or one of them is not.
  pub exit_for : Bool → Bool → ℕ → Option (List GhRun) → Option (ℕ → List GhJob) → ℕ
  unfolding classify_runs decide allows
  exit_for idle writes self none jobs = 2
  exit_for idle writes self (some runs) none = 2
  exit_for idle writes self (some runs) (some jobs) =
      let verdict = decide idle (classify_runs runs jobs self) in
      if not writes then 2 else if allows verdict then 0 else 1

  -- The exit code: 0 allows, 1 refuses, 2 cannot tell.
  pub cmd_guard : GuardInput → ℕ
  unfolding exit_for read_runs read_jobs
  cmd_guard i =
      if not i.flags_ok || le_zero i.self
      then 2
      else if is_nil i.runs_files
      then 2
      else exit_for i.idle i.writes (rounds i.self) (read_runs i.runs_files)
          (read_jobs i.jobs_files (λ id. []))
