-- ===== src/Interleave/Plan/Serial.antt =====
-- interleave/archplan.go: what the client lock can cost at most.
use probatorium.Base.{ℕ, ◌+◌, ◌≤◌, max, if◌then◌else◌, List, [], ◌∷◌, All, arith}
use probatorium.Interleave.Plan.Induction.{walk_ind}
use probatorium.Interleave.Plan.{
  PlanParams, WalkCell, Sim, run_cell, advance0, advance1, walk, start_sim, simulate_arch_plan,
  ArchPlan, walk_cells, setup_of,
}

-- The time one cell takes when its arch has the host to itself: the column's setup before its
-- first cell, the load, and the cooldown after every cell but the column's last.
abbrev pub cell_cost : PlanParams → ℕ → WalkCell → ℕ
cell_cost p setup c =
    (if c.first then setup else 0) + c.cell.dur + (if c.last then 0 else p.cooldown)

abbrev pub serial_cost : PlanParams → ℕ → List WalkCell → ℕ
serial_cost p setup [] = 0
serial_cost p setup (c ∷ cs) = cell_cost p setup c + serial_cost p setup cs

-- The rated sweep is a part of the cell's load.
abbrev pub IsPart : WalkCell → Type 0
IsPart c = c.cell.rated ≤ c.cell.dur

run_cell_bound :
    (p : PlanParams) (setup lock_free ready bound : ℕ) (c : WalkCell)
    → lock_free ≤ bound
    → ready ≤ bound
    → IsPart c
    → let run = run_cell p setup lock_free ready c in
      (run.ready ≤ bound + cell_cost p setup c)
      × (run.lock_free ≤ bound + cell_cost p setup c)
      × (run.slot.end ≤ bound + cell_cost p setup c)
unfolding run_cell
run_cell_bound p setup lock_free ready bound c hl hr part = ground arith

-- Nothing of the state lies behind `bound`.
record IsWithin (bound : ℕ) (s : Sim) : Type 0 where
  ready0 : s.ready0 ≤ bound
  ready1 : s.ready1 ≤ bound
  lock_free : s.lock_free ≤ bound
  makespan : s.result.makespan ≤ bound

module _ (p : PlanParams) (u0 u1 : ℕ) where
  advance0-IsWithin :
      (c : WalkCell) (s : Sim) (bound : ℕ)
      → IsPart c
      → IsWithin bound s
      → IsWithin (bound + cell_cost p u0 c) (advance0 p u0 c s)
  unfolding advance0
  advance0-IsWithin c s bound part v =
      let (r, l, e) = run_cell_bound p u0 s.lock_free s.ready0 bound c v.lock_free v.ready0 part in
      record {
        ready0 = r;
        ready1 = omega (arith, v.ready1);
        lock_free = l;
        makespan = omega (arith, v.makespan, e);
      }

  advance1-IsWithin :
      (c : WalkCell) (s : Sim) (bound : ℕ)
      → IsPart c
      → IsWithin bound s
      → IsWithin (bound + cell_cost p u1 c) (advance1 p u1 c s)
  unfolding advance1
  advance1-IsWithin c s bound part v =
      let (r, l, e) = run_cell_bound p u1 s.lock_free s.ready1 bound c v.lock_free v.ready1 part in
      record {
        ready0 = omega (arith, v.ready0);
        ready1 = r;
        lock_free = l;
        makespan = omega (arith, v.makespan, e);
      }

  walk-le :
      (cs ds : List WalkCell) (s : Sim) (bound : ℕ)
      → All IsPart cs
      → All IsPart ds
      → IsWithin bound s
      → (walk p u0 u1 cs ds s).result.makespan ≤ bound + serial_cost p u0 cs + serial_cost p u1 ds
  walk-le =
      walk_ind p u0 u1
        (λ cs ds s t.
          (bound : ℕ)
          → All IsPart cs
          → All IsPart ds
          → IsWithin bound s
          → t.result.makespan ≤ bound + serial_cost p u0 cs + serial_cost p u1 ds)
        (λ s bound hc hd v. omega (arith, v.makespan))
        (λ c cs ds s t ih bound hc hd v.
          omega (arith, ih (bound + cell_cost p u0 c) hc.1 hd (advance0-IsWithin c s bound hc.0 v)))
        (λ d cs ds s t ih bound hc hd v.
          omega (arith, ih (bound + cell_cost p u1 d) hc hd.1 (advance1-IsWithin d s bound hd.0 v)))

-- No policy makes a both-arch run longer than running everything one after the other: the
-- makespan is at most the later start offset and the serial cost of both plans, provided that
-- each cell's rated sweep is a part of its load.
pub makespan-le :
    (a b : ArchPlan) (p : PlanParams)
    → All IsPart (walk_cells a)
    → All IsPart (walk_cells b)
    → (simulate_arch_plan a b p).makespan
      ≤ max a.start_offset b.start_offset
        + serial_cost p (setup_of p a) (walk_cells a)
        + serial_cost p (setup_of p b) (walk_cells b)
unfolding simulate_arch_plan start_sim
makespan-le a b p ha hb =
    walk-le p (setup_of p a) (setup_of p b) (walk_cells a) (walk_cells b) (start_sim a b)
      (max a.start_offset b.start_offset) ha hb
      (record {
        ready0 = omega arith;
        ready1 = omega arith;
        lock_free = omega arith;
        makespan = omega arith;
      })
