-- ===== src/Stresstally/Guard/Command.antt =====
-- tools/stresstally/guard.go: the exit code of `cmdGuard`.
use probatorium.Base.{
  ℕ, ◌==◌, if◌then◌else◌, ◌&&◌, not, Bool, true, false, List, [], ◌∷◌, ◌++◌, Option, none, some,
  IsSort, ◌≡◌, refl, ◌↔◌, arith, is_nil, le_zero, rounds,
}
use probatorium.Stresstally.Guard.{
  GhRun, GhJob, RunClass, by_id, allows, classify_runs, decide, read_runs, read_jobs, GuardInput,
  exit_for, cmd_guard,
}
use probatorium.Stresstally.Guard.InTheWay.{NothingBlocks, decide-NothingBlocks}

abbrev are_read : List (Option (List GhRun)) → Bool
are_read [] = true
are_read (none ∷ files) = false
are_read (some _ ∷ files) = are_read files

-- A file whose name gives no id does not matter.
abbrev are_read_jobs : List (Option ℕ × Option (List GhJob)) → Bool
are_read_jobs [] = true
are_read_jobs ((none, _) ∷ files) = are_read_jobs files
are_read_jobs ((some _, none) ∷ files) = false
are_read_jobs ((some _, some _) ∷ files) = are_read_jobs files

-- All that the command needs is there: its flags, at least one file of runs, every file that it
-- reads, and a place to write the decision.
abbrev pub complete : GuardInput → Bool
complete i =
    i.flags_ok
    && not (le_zero i.self)
    && not (is_nil i.runs_files)
    && are_read i.runs_files
    && are_read_jobs i.jobs_files
    && i.writes

abbrev pub listed : List (Option (List GhRun)) → List GhRun
listed [] = []
listed (none ∷ files) = listed files
listed (some rs ∷ files) = rs ++ listed files

-- The jobs of the last file of an id; `js` where there is none.
abbrev pub latest : List (Option ℕ × Option (List GhJob)) → List GhJob → ℕ → List GhJob
latest [] js id = js
latest ((some i, some js') ∷ files) js id = latest files (if id == i then js' else js) id
latest ((some i, none) ∷ files) js id = latest files js id
latest ((none, _) ∷ files) js id = latest files js id

read_runs-listed :
    (files : List (Option (List GhRun)))
    → read_runs files ≡ (if are_read files then some (listed files) else none)
unfolding read_runs
read_runs-listed [] = refl
read_runs-listed (none ∷ files) = refl
read_runs-listed (some rs ∷ files) = ground (arith, read_runs-listed files)

read_jobs-latest :
    (files : List (Option ℕ × Option (List GhJob))) (jobs : ℕ → List GhJob)
    → read_jobs files jobs
      ≡ (if are_read_jobs files then some (λ id. latest files (jobs id) id) else none)
unfolding read_jobs
read_jobs-latest [] jobs = refl
read_jobs-latest ((none, x) ∷ files) jobs = read_jobs-latest files jobs
read_jobs-latest ((some id, none) ∷ files) jobs = refl
read_jobs-latest ((some id, some js) ∷ files) jobs =
    read_jobs-latest files (λ i. if i == id then js else jobs i)

exits_0 :
    {N : Type 0} (needs ok : Bool) {code : ℕ}
    → code ≡ (if needs then if ok then 0 else 1 else 2)
    → (ok ≡ true) ↔ N
    → (code ≡ 0) ↔ ((needs ≡ true) × N)
exits_0 true true e n = (λ _. (refl, n.0 refl), λ _. e)
exits_0 true false e n = (λ h. ground (arith, e, h), λ h. ground (arith, n.1 h.1))
exits_0 false ok e n = (λ h. ground (arith, e, h), λ h. ground (arith, h.0))

module _ (sort : List RunClass → List RunClass) (i : GuardInput) where
  abbrev classes : List RunClass
  classes = classify_runs sort (listed i.runs_files) (latest i.jobs_files []) (rounds i.self)

  exit_for_lem :
      (read_rs read_js : Bool)
      → exit_for sort i.idle i.writes
          (rounds i.self)
          (if read_rs then some (listed i.runs_files) else none)
          (if read_js then some (latest i.jobs_files []) else none)
        ≡ (if read_rs && read_js && i.writes
            then if allows (decide i.idle classes) then 0 else 1
            else 2)
  unfolding exit_for
  exit_for_lem true true = ground arith
  exit_for_lem true false = refl
  exit_for_lem false read_js = refl

  -- The command exits with 2 exactly when something that it needs is missing, whatever is missing,
  -- and otherwise with 0 or 1 as the decision on what the files list allows the run or not.
  pub cmd_guard_lem :
      cmd_guard sort i ≡ (if complete i then if allows (decide i.idle classes) then 0 else 1 else 2)
  unfolding cmd_guard
  cmd_guard_lem =
      let end = exit_for_lem (are_read i.runs_files) (are_read_jobs i.jobs_files) in
      rw (read_runs-listed i.runs_files)
        (rw (read_jobs-latest i.jobs_files (λ id. [])) (ground (arith, end)))

  -- Provided that the sort permutes, the command exits with 0 exactly when all that it needs is
  -- there and no other run that the files list stands in its way, by the first entry of an id that
  -- is not completed. What stands in the way is: a run of a workflow of the group that is not in
  -- progress; and a stress run, of no pull request and not for GitHub's machines, whose last guard
  -- job is missing or unfinished, or succeeded with no job of the cluster call started. Where the
  -- cluster must be idle, so do the runs of the group in progress and the stress runs whose guard
  -- succeeded and that have started.
  pub cmd_guard-NothingBlocks :
      IsSort by_id sort
      → (cmd_guard sort i ≡ 0) ↔ (
          (complete i ≡ true)
          × NothingBlocks (latest i.jobs_files []) i.idle (rounds i.self) (listed i.runs_files))
  cmd_guard-NothingBlocks sorts =
      exits_0 (complete i) (allows (decide i.idle classes)) cmd_guard_lem (
        decide-NothingBlocks sort (latest i.jobs_files []) i.idle (rounds i.self)
          (listed i.runs_files) sorts)
