-- ===== src/Validation/Fault/Scheduler/Tests.antt =====
-- validation/fault/scheduler.go: runs of two faults.
use probatorium.Base.{true, false, List, [], ◌∷◌, some, ◌≡◌, refl, count, ◌+◌, ◌≤◌}
use probatorium.Validation.Fault.Scheduler.{
  apply, undo, returned, looping, gives_up, RunState, Action, succeeds, fails, cancel, body, fire,
  remove, stop, steps, start_run,
}
use probatorium.Validation.Fault.Scheduler.Undone.{is_left, run-undoes}
use probatorium.Validation.Fault.Scheduler.Returns.{left_of, is_body, GoesOn, run-Returns}

-- Two faults are applied, the goroutine of the first undoes it, the context ends, and the second is
-- undone by the deferred function, which undoes the first once more: its goroutine had not yet taken
-- it from the list.
abbrev two_faults : List Action
two_faults =
    body succeeds
    ∷ body succeeds
    ∷ body succeeds
    ∷ fire 1
    ∷ body succeeds
    ∷ body succeeds
    ∷ cancel
    ∷ stop 2
    ∷ body succeeds
    ∷ body succeeds
    ∷ remove 1
    ∷ body succeeds
    ∷ body succeeds
    ∷ body succeeds
    ∷ []

abbrev after_two : RunState
after_two = record {
  place = returned;
  cancelled = true;
  active = [];
  waiting = [];
  undone = [];
  stopped = 2 ∷ [];
  log = undo 2 ∷ undo 1 ∷ undo 1 ∷ apply 2 ∷ apply 1 ∷ [];
}

two_faults_run : steps two_faults (start_run (1 ∷ 2 ∷ [])) ≡ some after_two
unfolding steps start_run
two_faults_run = refl

-- After an Apply that failed the goroutine of the first fault goes on when `Run` has returned.
late_undo :
    steps
      (body succeeds
        ∷ body succeeds
        ∷ body fails
        ∷ body succeeds
        ∷ body succeeds
        ∷ body succeeds
        ∷ fire 1
        ∷ [])
      (start_run (1 ∷ 2 ∷ []))
    ≡ some (record {
      place = returned;
      cancelled = false;
      active = [];
      waiting = [];
      undone = 1 ∷ [];
      stopped = [];
      log = undo 1 ∷ undo 1 ∷ apply 1 ∷ [];
    })
unfolding steps start_run
late_undo = refl

run-undoes_example : is_left 2 after_two.log ≡ false
run-undoes_example = run-undoes 2 (1 ∷ 2 ∷ []) two_faults after_two two_faults_run refl

-- The context has ended behind the second Apply, and one goroutine returns on it meanwhile.
abbrev at_cancel : RunState
at_cancel = record {
  place = looping [];
  cancelled = true;
  active = 1 ∷ 2 ∷ [];
  waiting = 1 ∷ 2 ∷ [];
  undone = [];
  stopped = [];
  log = apply 2 ∷ apply 1 ∷ [];
}

abbrev to_the_end : List Action
to_the_end =
    body gives_up
    ∷ body gives_up
    ∷ stop 2
    ∷ body gives_up
    ∷ body gives_up
    ∷ body gives_up
    ∷ body gives_up
    ∷ []

abbrev at_end : RunState
at_end = record {
  place = returned;
  cancelled = true;
  active = [];
  waiting = 1 ∷ [];
  undone = [];
  stopped = 2 ∷ [];
  log = undo 2 ∷ undo 1 ∷ apply 2 ∷ apply 1 ∷ [];
}

runs_to_the_end : steps to_the_end at_cancel ≡ some at_end
unfolding steps
runs_to_the_end = refl

run-Returns_example :
    (count is_body to_the_end + left_of at_end ≤ left_of at_cancel) × GoesOn returned at_end
run-Returns_example = run-Returns to_the_end at_cancel at_end refl runs_to_the_end
