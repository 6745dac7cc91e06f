-- ===== src/Lib.antt =====
-- A verification library for probatorium, the benchmark and validation harness of celeris.
--
-- A benchmark run of both architectures drives two walks over columns of cells from one load
-- client: the schedule says which cells run and in which order, the plan how a lock keeps the two
-- walks apart, the overlap check judges afterwards whether it did, the budget what a run costs, a
-- resume which cells are left, and the guard whether the cluster is free for it. A stress run's
-- shards leave logs, which are read and judged case by case. A validation run merges the output of
-- its candidates, walks a chain of requests, injects faults, checks predicates on samples of the
-- server, tells a slow echo from a wedged one, and shrinks what fails. The parts modelled:
--   * Interleave/Schedule (interleave/schedule.go): `schedule` is `Schedule`, the (scenario,
--     server) pairs repeated for each run, and `reverse_within_runs` is `ReverseWithinRuns`, the
--     order in which the second arch walks. Scenarios and servers are any types; `Applicable` and
--     `Features` are parameters.
--   * Interleave/Plan (interleave/archplan.go): `simulate_arch_plan` is `SimulateArchPlan`, the
--     model of the two walks with the client lock; `run_cell` is the body of its loop, `advance0`
--     and `advance1` that body on either arch, `walk` the loop. Interleave/Plan/Measures holds
--     `Overlaps`, `RatedUnderHeavy` and `RatedPassSharing`; Interleave/Plan/Planned says from the
--     columns of a plan what is to run, and Interleave/Plan/Lock what excludes under a lock.
--   * Report/Overlap (report/archoverlap.go): `check_arch_overlap` is `CheckArchOverlap`, the
--     sweep over the recorded load windows with its early exit; `arch_exclusion_for` and
--     `problem` are the record stamped into a document and its verdict.
--   * Validation/Shrinker (validation/shrinker.go): `shrink_failing_seed` is
--     `shrinkFailingSeed`, the search for a shorter run that still fails.
--   * Stresstally/Guard (tools/stresstally/guard.go): `cmd_guard` is `cmdGuard`, which decides from
--     the listed workflow runs whether one more may enter the concurrency group of the cluster;
--     `classify_runs` judges the runs, `guard_decision` and `idle_decision` decide. Guard/InTheWay
--     says of the files alone which runs stand in the way of another.
--   * Stresstally/Judge (tools/stresstally/judge.go): `judge_case` is `judgeCaseFrom`, from the logs
--     of a case's shards to its report; `judge_arches` is its loop over the shards, `check_shape`
--     and `observation_reasons` the checks of a log, `arch_gaps` the tests that ran on one arch
--     only, `check_expect` the comparison with what the case expects. The quoting of a text and
--     `strconv.ParseFloat`'s verdict on one are parameters.
--   * Stresstally/Parse (tools/stresstally/parse.go): `parse_shard` is `parseShard`, which reads the
--     log of a shard: `scan_lines` is its loop, `scan_line` the body of it, `flush` what a package's
--     result line sets off, `finish` what is judged at the end. What a regular expression of the
--     source matches on a line is a parameter. Parse/Output tells without the loop which lines of a
--     log are output of go test.
--   * Stresstally/Cases joins the two: `judge_files` is `judgeCase`, the verdict on a case from the
--     files of its logs.
--   * Validation/WsEcho (validation/ws_echo_verdict.go): `ws_echo_classify` is `wsEchoClassify`,
--     which tells from two looks at the sockets of a stalled echo whether the server still works.
--     Its int64 arithmetic wraps around.
--   * Validation/Evaluator (validation/checker/evaluator.go): `observe` is `Observe`, which takes a
--     sample and evaluates each predicate on it; `eval_spec` is `evalSpec` with its streak of
--     failures, `tally` and `passed` the summary of a cell. A predicate is any function with the
--     type of one, and `strings.TrimSpace` is a parameter.
--   * Validation/Fault/Scheduler (validation/fault/scheduler.go): `step` is one step of `Run`, of a
--     goroutine that it started, or of its context; `steps` an interleaving of them. There is no
--     clock: a wait may end, or be given up on the context, wherever the code may have one.
--   * Validation/Fault/Generate (validation/fault/scheduler.go): `generate` is `Generate`, which
--     draws a schedule of faults. The random source is a parameter; `round` is a round of the loop,
--     which goes on until enough faults are placed or a round leaves it.
--   * Validation/FanIn (validation/remote/fanin.go): `steps` is an interleaving of the goroutines that
--     run `fanInLines`, each line written by `writeWholeLine` under the mutex; `advance` is a step of
--     one of them.
--   * Runner/Resume (cmd/runner/resume.go): `drop_completed_cells` is `dropCompletedCells`, the
--     schedule less the cells that a results tree holds a final result of.
--   * Runner/ClientLock (cmd/runner/clientlock.go): `acquire` is `acquire`, which takes the lock that
--     the plan of Interleave/Plan models; `poll_flock` is its wait for one open file, `acquire_from`
--     its loop over the files. The calls of the system are a parameter.
--   * Validation/Markov (validation/markov/model.go): `next` and `walk` are `Next` and `Walk` of a
--     chain, `validate` the check of a matrix. Weights are any type with the operations that the
--     code uses; what the sampling relies on is the hypothesis `Sums`.
--   * Budget (budget/budget.go): `wall_clock` is `WallClock`, what a bench of a profile is expected to
--     take, and `column_wall_clock` is `ColumnWallClock`, the same of one column.
-- Interleave/Plan/Agreement joins two of them: the check on the windows of a run that went as
-- planned.
--
-- Base holds what the parts share: Booleans and tests on natural numbers, lists, integers with
-- the wrap-around of int64, decimal numbers in texts, and sorting. A sort of the Go library whose
-- answer the order does not fix is a parameter; the hypothesis `IsSort` says that it permutes its
-- argument and leaves it sorted, and insertion sort meets it. Where the order fixes the answer,
-- in Stresstally/Judge, the sort is insertion sort.
--
-- Numbers: times and durations are nanoseconds as natural numbers; those that the source
-- subtracts are ordered there, but for the rated part of a plan's cell, which is taken to be at
-- most the cell's load where a theorem says so. Counters do not overflow. `int` arguments that
-- are compared with 0 are integers.
--
-- Fuel: none is needed but in `reverse_runs`, whose rounds are bounded by the number of cells,
-- since each takes at least one. `walk` is by recursion on what both arches have left to do,
-- `search` on the number of attempts allowed, the generation of faults on the number of its rounds,
-- which the draws of the source decide, the wait for the client lock on the number of its polls,
-- the walk of a chain on the number of its steps.
--
-- Not modelled: processes, files, the network and the texts printed. The rest of the programs under
-- cmd, the mage targets, the servers under test, the report's other documents and the rest of the
-- validation tiers have no model here. Of the modelled files the parser of the
-- output of ss, which matches regular expressions, and the floating-point rates of a stress report
-- are left out.
mod Base
pub mod Budget
pub mod Interleave
pub mod Report
pub mod Runner
pub mod Stresstally
pub mod Validation
