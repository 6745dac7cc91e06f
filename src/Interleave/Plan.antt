-- ===== src/Interleave/Plan.antt =====
-- interleave/archplan.go: the model of the two arch passes of a both-arch run, with the client
-- lock between them. Durations and instants are nanoseconds as natural numbers: the planner is
-- given lengths of time, and the one subtraction, of `Rated` from the end of a cell, is exact
-- where `Rated` is a part of `Dur`, as its field comment says it is.
pub mod Measures
pub mod Induction
pub mod Planned
pub mod Lock
pub mod Sweeps
pub mod Exclusion
pub mod Walks
pub mod Times
pub mod Serial
pub mod Agreement
use probatorium.Base.{
  ℕ, ◌+◌, ◌-◌, max, ltb, if◌then◌else◌, ◌||◌, ◌&&◌, not, Bool, true, false, List, [], ◌∷◌, ◌++◌,
  reverse, String,
}

-- The values of `LockPolicy`; any other string is treated as `off` by the code.
pub data LockPolicy : Type 0 where
  off heavy all heavy_rated : LockPolicy

pub record PlanCell : Type 0 where
  pub scenario : String
  pub heavy : Bool
  pub dur : ℕ
  pub rated : ℕ

pub record PlanColumn : Type 0 where
  pub name : String
  pub cells : List PlanCell

pub record ArchPlan : Type 0 where
  pub columns : List PlanColumn
  pub reverse_cells : Bool
  pub reverse_columns : Bool
  pub start_offset : ℕ
  pub column_setup : ℕ

pub record PlanParams : Type 0 where
  pub policy : LockPolicy
  pub cooldown : ℕ
  pub column_setup : ℕ

-- `Start`, `End`, `RatedStart` are instants; the cell drives load in [start, end).
pub record Slot : Type 0 where
  pub column : String
  pub scenario : String
  pub heavy : Bool
  pub start : ℕ
  pub end : ℕ
  pub waited : ℕ
  pub rated_start : ℕ

-- The entries of `Slots`, `ArchEnd` and `LockWait` for one arch.
pub record ArchResult : Type 0 where
  pub slots : List Slot
  pub arch_end : ℕ
  pub lock_wait : ℕ

pub record PlanResult : Type 0 where
  pub arch0 : ArchResult
  pub arch1 : ArchResult
  pub makespan : ℕ

pub record WalkCell : Type 0 where
  pub col : String
  pub cell : PlanCell
  pub first : Bool
  pub last : Bool

-- A copy of the list, reversed if asked for.
pub ordered {ℓ} : {A : Type ℓ} → Bool → List A → List A
ordered reversed xs = if reversed then reverse xs else xs

pub ordered_columns : ArchPlan → List PlanColumn
unfolding ordered
ordered_columns ap = ordered ap.reverse_columns ap.columns

pub ordered_cells : PlanColumn → Bool → List PlanCell
unfolding ordered
ordered_cells c reversed = ordered reversed c.cells

is_last {ℓ} : {A : Type ℓ} → List A → Bool
is_last [] = true
is_last (x ∷ xs) = false

-- The cells of a column: `first` marks the one at k = 0, `last` the one at k + 1 = len(cells).
pub column_cells : String → Bool → List PlanCell → List WalkCell
unfolding is_last
column_cells name first [] = []
column_cells name first (cell ∷ cells) =
    record { col = name; cell = cell; first = first; last = is_last cells }
    ∷ column_cells name false cells

pub columns_cells : Bool → List PlanColumn → List WalkCell
unfolding column_cells ordered_cells
columns_cells reversed [] = []
columns_cells reversed (c ∷ cs) =
    column_cells c.name true (ordered_cells c reversed) ++ columns_cells reversed cs

-- The cells one arch walks.
pub walk_cells : ArchPlan → List WalkCell
unfolding columns_cells ordered_columns
walk_cells ap = columns_cells ap.reverse_cells (ordered_columns ap)

-- `setup[i]`.
pub setup_of : PlanParams → ArchPlan → ℕ
setup_of p ap = if ltb 0 ap.column_setup then ap.column_setup else p.column_setup

pub needs_lock : LockPolicy → Bool → Bool
needs_lock all is_heavy = true
needs_lock heavy is_heavy = is_heavy
needs_lock heavy_rated is_heavy = is_heavy
needs_lock off is_heavy = false

pub is_heavy_rated : LockPolicy → Bool
is_heavy_rated heavy_rated = true
is_heavy_rated _ = false

-- What running one cell decides: its slot, when the lock is free again, and when the arch is ready.
pub record CellRun : Type 0 where
  pub slot : Slot
  pub lock_free : ℕ
  pub ready : ℕ

-- The body of the loop, for the picked arch: it is ready at `ready` and sets a column up in `setup`.
pub run_cell : PlanParams → ℕ → ℕ → ℕ → WalkCell → CellRun
unfolding needs_lock is_heavy_rated
run_cell p setup lock_free ready wc =
    let t = if wc.first then ready + setup else ready in
    let locks = needs_lock p.policy wc.cell.heavy in
    let start = if locks && ltb t lock_free then lock_free else t in
    let end = start + wc.cell.dur in
    let rated_start = if ltb 0 wc.cell.rated then end - wc.cell.rated else 0 in
    let rated_locks = not locks && (is_heavy_rated p.policy && ltb 0 wc.cell.rated) in
    let delayed = rated_locks && ltb rated_start lock_free in
    let rated_start' = if delayed then lock_free else rated_start in
    let end' = if delayed then lock_free + wc.cell.rated else end in
    record {
      slot = record {
        column = wc.col;
        scenario = wc.cell.scenario;
        heavy = wc.cell.heavy;
        start = start;
        end = end';
        waited = if delayed then (start - t) + (lock_free - rated_start) else start - t;
        rated_start = rated_start';
      };
      lock_free = if locks || rated_locks then end' else lock_free;
      ready = if wc.last then end' else end' + p.cooldown;
    }

-- The variables of the loop: `w[i].ready`, `lockFree` and the result so far.
pub record Sim : Type 0 where
  pub ready0 : ℕ
  pub ready1 : ℕ
  pub lock_free : ℕ
  pub result : PlanResult

pub add_slot : ArchResult → Slot → ArchResult
add_slot a s = record {
  slots = a.slots ++ s ∷ [];
  arch_end = s.end;
  lock_wait = a.lock_wait + s.waited;
}

pub advance0 : PlanParams → ℕ → WalkCell → Sim → Sim
unfolding run_cell add_slot
advance0 p setup wc s =
    let run = run_cell p setup s.lock_free s.ready0 wc in
    record {
      ready0 = run.ready;
      ready1 = s.ready1;
      lock_free = run.lock_free;
      result = record {
        arch0 = add_slot s.result.arch0 run.slot;
        arch1 = s.result.arch1;
        makespan = max s.result.makespan run.slot.end;
      };
    }

pub advance1 : PlanParams → ℕ → WalkCell → Sim → Sim
unfolding run_cell add_slot
advance1 p setup wc s =
    let run = run_cell p setup s.lock_free s.ready1 wc in
    record {
      ready0 = s.ready0;
      ready1 = run.ready;
      lock_free = run.lock_free;
      result = record {
        arch0 = s.result.arch0;
        arch1 = add_slot s.result.arch1 run.slot;
        makespan = max s.result.makespan run.slot.end;
      };
    }

-- The loop, on the cells that each arch has left: it takes the arch that is ready first, arch 0
-- on a tie, and stops when neither has a cell.
pub walk : PlanParams → ℕ → ℕ → List WalkCell → List WalkCell → Sim → Sim
unfolding advance0 advance1
walk p setup0 setup1 [] [] s = s
walk p setup0 setup1 [] (d ∷ ds) s = walk p setup0 setup1 [] ds (advance1 p setup1 d s)
walk p setup0 setup1 (c ∷ cs) [] s = walk p setup0 setup1 cs [] (advance0 p setup0 c s)
walk p setup0 setup1 (c ∷ cs) (d ∷ ds) s = elim (ltb s.ready1 s.ready0) [
  | true ↦ walk p setup0 setup1 (c ∷ cs) ds (advance1 p setup1 d s)
  | false ↦ walk p setup0 setup1 cs (d ∷ ds) (advance0 p setup0 c s)
]

abbrev empty_arch : ArchResult
empty_arch = record { slots = []; arch_end = 0; lock_wait = 0 }

pub start_sim : ArchPlan → ArchPlan → Sim
start_sim a b = record {
  ready0 = a.start_offset;
  ready1 = b.start_offset;
  lock_free = 0;
  result = record { arch0 = empty_arch; arch1 = empty_arch; makespan = 0 };
}

pub simulate_arch_plan : ArchPlan → ArchPlan → PlanParams → PlanResult
unfolding walk_cells setup_of walk start_sim
simulate_arch_plan a b p =
    (walk p (setup_of p a) (setup_of p b) (walk_cells a) (walk_cells b) (start_sim a b)).result
