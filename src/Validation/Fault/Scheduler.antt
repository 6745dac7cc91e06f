-- ===== src/Validation/Fault/Scheduler.antt =====
-- validation/fault/scheduler.go: `Run` and the goroutines that it starts, as steps on a shared
-- state. A fault is its identity, a natural number, since the code compares faults by identity. A
-- step is enabled wherever the code can take it at some time on the clock and under some choice of
-- the select statements, so that every interleaving of the code is a sequence of steps. What a
-- step under the mutex does is one step, and so is to register a fault and to start its goroutine,
-- which may stay idle.
pub mod Undone
pub mod Returns
mod Tests
use probatorium.Base.{
  ℕ, ◌==◌, if◌then◌else◌, Bool, true, false, List, [], ◌∷◌, ◌++◌, Option, none, some, count, ltb,
}

-- What was done to the targets, the latest first.
pub data Event : Type 0 where
  apply : (fault : ℕ) → Event
  undo : (fault : ℕ) → Event

-- Where the body of `Run` stands: before the faults left, behind a successful Apply, waiting for
-- the context, before the deferred function, in its loop with the faults left to undo, or done.
pub data Place : Type 0 where
  looping : (todo : List ℕ) → Place
  applied : (fault : ℕ) (todo : List ℕ) → Place
  draining : Place
  leaving : Place
  sweeping : (to_undo : List ℕ) → Place
  returned : Place

pub record RunState : Type 0 where
  pub place : Place
  pub cancelled : Bool
  pub active : List ℕ
  -- The goroutines, by their faults: before their timer, behind their Undo, and those that returned
  -- on the context.
  pub waiting : List ℕ
  pub undone : List ℕ
  pub stopped : List ℕ
  pub log : List Event

-- How a round of the loop ends: Apply succeeds, it fails, or the context ends the wait before it.
pub data Choice : Type 0 where
  succeeds fails gives_up : Choice

-- The context ends, the body of `Run` goes on, or a goroutine does: it calls Undo when its timer
-- has fired, it takes its fault from the list, or it returns on the context.
pub data Action : Type 0 where
  cancel : Action
  body : (choice : Choice) → Action
  fire remove stop : (fault : ℕ) → Action

abbrev pub is_fault : ℕ → ℕ → Bool
is_fault f x = x == f

pub remove_first : ℕ → List ℕ → List ℕ
remove_first f [] = []
remove_first f (x ∷ xs) = let rest = remove_first f xs in if x == f then xs else x ∷ rest

-- The body of `Run`. The code looks at the context before an Apply only where the fault's offset is
-- still ahead. There is no clock here, so that `gives_up` is possible before every Apply once the
-- context has ended, and so are the other two: the steps are those of the code and some more.
pub step_body : Choice → Place → RunState → Option RunState
step_body choice (looping []) s = some (record s { place = draining })
step_body succeeds (looping (f ∷ todo)) s =
    some (record s { place = applied f todo; log = apply f ∷ s.log })
step_body fails (looping (f ∷ todo)) s = some (record s { place = leaving })
step_body gives_up (looping (f ∷ todo)) s =
    if s.cancelled then some (record s { place = leaving }) else none
step_body choice (applied f todo) s =
    some (record s { place = looping todo; active = s.active ++ f ∷ []; waiting = f ∷ s.waiting })
step_body choice draining s = if s.cancelled then some (record s { place = leaving }) else none
step_body choice leaving s = some (record s { place = sweeping s.active; active = [] })
step_body choice (sweeping []) s = some (record s { place = returned })
step_body choice (sweeping (f ∷ to_undo)) s =
    some (record s { place = sweeping to_undo; log = undo f ∷ s.log })
step_body choice returned s = none

-- The context and the goroutines.
pub step : Action → RunState → Option RunState
unfolding step_body remove_first
step cancel s = some (record s { cancelled = true })
step (fire f) s =
    if ltb 0 (count (is_fault f) s.waiting)
    then some (record s {
      waiting = remove_first f s.waiting;
      undone = f ∷ s.undone;
      log = undo f ∷ s.log;
    })
    else none
step (remove f) s =
    if ltb 0 (count (is_fault f) s.undone)
    then some (record s { undone = remove_first f s.undone; active = remove_first f s.active })
    else none
step (stop f) s =
    if s.cancelled
    then if ltb 0 (count (is_fault f) s.waiting)
      then some (record s { waiting = remove_first f s.waiting; stopped = f ∷ s.stopped })
      else none
    else none
step (body choice) s = step_body choice s.place s

pub and_then : Option RunState → (RunState → Option RunState) → Option RunState
and_then none next = none
and_then (some s) next = next s

pub steps : List Action → RunState → Option RunState
unfolding step and_then
steps [] s = some s
steps (a ∷ later) s = and_then (step a s) (λ s'. steps later s')

pub start_run : List ℕ → RunState
start_run schedule = record {
  place = looping schedule;
  cancelled = false;
  active = [];
  waiting = [];
  undone = [];
  stopped = [];
  log = [];
}
