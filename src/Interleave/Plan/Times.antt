-- ===== src/Interleave/Plan/Times.antt =====
-- interleave/archplan.go: the instants of a simulated run, under every policy.
use probatorium.Base.{ℕ, ◌+◌, ◌≤◌, ◌≡◌, refl, sym, max, List, [], ◌∷◌, ◌++◌, arith}
use probatorium.Interleave.Plan.Induction.{walk_ind}
use probatorium.Interleave.Plan.{
  PlanParams, WalkCell, Slot, CellRun, ArchResult, Sim, run_cell, advance0, advance1, add_slot,
  walk, start_sim, simulate_arch_plan, ArchPlan, walk_cells, setup_of,
}

-- The slots lie one behind the other from instant `t` on.
abbrev pub InOrder : ℕ → List Slot → Type 0
InOrder t [] = Unit
InOrder t (x ∷ xs) = (t ≤ x.start) × (x.start ≤ x.end) × InOrder x.end xs

-- When the last slot ends; `t` with no slot.
abbrev pub last_end : ℕ → List Slot → ℕ
last_end t [] = t
last_end t (x ∷ xs) = last_end x.end xs

abbrev pub total_wait : List Slot → ℕ
total_wait [] = 0
total_wait (x ∷ xs) = x.waited + total_wait xs

InOrder-snoc :
    (t : ℕ) (xs : List Slot) (z : Slot)
    → InOrder t xs
    → last_end t xs ≤ z.start
    → z.start ≤ z.end
    → InOrder t (xs ++ z ∷ [])
InOrder-snoc t [] z h l e = (l, e, tt)
InOrder-snoc t (x ∷ xs) z h l e = (h.0, h.1, InOrder-snoc x.end xs z h.2 l e)

last_end-snoc : (t : ℕ) (xs : List Slot) (z : Slot) → last_end t (xs ++ z ∷ []) ≡ z.end
last_end-snoc t [] z = refl
last_end-snoc t (x ∷ xs) z = last_end-snoc x.end xs z

total_wait-snoc : (xs : List Slot) (z : Slot) → total_wait (xs ++ z ∷ []) ≡ total_wait xs + z.waited
total_wait-snoc [] z = omega arith
total_wait-snoc (x ∷ xs) z = omega (arith, total_wait-snoc xs z)

module _ (p : PlanParams) (setup lock_free ready : ℕ) (c : WalkCell) where
  -- A cell starts when its arch is ready, at the earliest, and the arch is ready again at its end.
  run_cell_times :
      let run = run_cell p setup lock_free ready c in
      (ready ≤ run.slot.start) × (run.slot.start ≤ run.slot.end) × (run.slot.end ≤ run.ready)
  unfolding run_cell
  run_cell_times = ground arith

-- What holds of one arch that started at `t` and is ready at `ready`.
record Timed (t ready : ℕ) (a : ArchResult) : Type 0 where
  in_order : InOrder t a.slots
  done : last_end t a.slots ≤ ready
  ends : a.arch_end ≡ last_end 0 a.slots
  ended : a.arch_end ≤ ready
  waits : a.lock_wait ≡ total_wait a.slots

add_slot-Timed :
    (p : PlanParams) (u lock_free t ready : ℕ) (c : WalkCell) (a : ArchResult)
    → Timed t ready a
    → let run = run_cell p u lock_free ready c in
      Timed t run.ready (add_slot a run.slot) × (a.arch_end ≤ run.slot.end)
unfolding add_slot
add_slot-Timed p u lock_free t ready c a v = (
  record {
    in_order =
        InOrder-snoc t a.slots run.slot v.in_order (omega (arith, times, v.done))
          (omega (arith, times));
    done = rw (last_end-snoc t a.slots run.slot) (times.2);
    ends = sym (last_end-snoc 0 a.slots run.slot);
    ended = times.2;
    waits = omega (arith, v.waits, total_wait-snoc a.slots run.slot);
  },
  omega (arith, times, v.ended),
)
  where
    run : CellRun
    run = run_cell p u lock_free ready c

    times : (ready ≤ run.slot.start) × (run.slot.start ≤ run.slot.end) × (run.slot.end ≤ run.ready)
    times = run_cell_times p u lock_free ready c

record IsTimed (t0 t1 : ℕ) (s : Sim) : Type 0 where
  timed0 : Timed t0 s.ready0 s.result.arch0
  timed1 : Timed t1 s.ready1 s.result.arch1
  longest : s.result.makespan ≡ max s.result.arch0.arch_end s.result.arch1.arch_end

module _ (p : PlanParams) (t0 t1 u0 u1 : ℕ) where
  advance0-IsTimed : (c : WalkCell) (s : Sim) → IsTimed t0 t1 s → IsTimed t0 t1 (advance0 p u0 c s)
  unfolding advance0
  advance0-IsTimed c s v =
      let (timed, later) = add_slot-Timed p u0 s.lock_free t0 s.ready0 c s.result.arch0 v.timed0 in
      record {
        timed0 = timed;
        timed1 = v.timed1;
        longest = unfold add_slot in omega (arith, v.longest, later);
      }

  advance1-IsTimed : (c : WalkCell) (s : Sim) → IsTimed t0 t1 s → IsTimed t0 t1 (advance1 p u1 c s)
  unfolding advance1
  advance1-IsTimed c s v =
      let (timed, later) = add_slot-Timed p u1 s.lock_free t1 s.ready1 c s.result.arch1 v.timed1 in
      record {
        timed0 = v.timed0;
        timed1 = timed;
        longest = unfold add_slot in omega (arith, v.longest, later);
      }

  walk-IsTimed :
      (cs ds : List WalkCell) (s : Sim) → IsTimed t0 t1 s → IsTimed t0 t1 (walk p u0 u1 cs ds s)
  walk-IsTimed =
      walk_ind p u0 u1 (λ cs ds s t. IsTimed t0 t1 s → IsTimed t0 t1 t) (λ s v. v)
        (λ c cs ds s t ih v. ih (advance0-IsTimed c s v))
        (λ d cs ds s t ih v. ih (advance1-IsTimed d s v))

-- Under every policy the slots of each arch follow one another from its start offset on, none
-- starting before the one before it has ended; `ArchEnd` is the end of the arch's last slot,
-- `LockWait` the sum of its slots' waits, and `Makespan` the later of the two ends.
pub simulate_times :
    (a b : ArchPlan) (p : PlanParams)
    → let r = simulate_arch_plan a b p in
      InOrder a.start_offset r.arch0.slots
      × InOrder b.start_offset r.arch1.slots
      × (r.arch0.arch_end ≡ last_end 0 r.arch0.slots)
      × (r.arch1.arch_end ≡ last_end 0 r.arch1.slots)
      × (r.arch0.lock_wait ≡ total_wait r.arch0.slots)
      × (r.arch1.lock_wait ≡ total_wait r.arch1.slots)
      × (r.makespan ≡ max r.arch0.arch_end r.arch1.arch_end)
unfolding simulate_arch_plan start_sim
simulate_times a b p = (
  v.timed0.in_order, v.timed1.in_order, v.timed0.ends, v.timed1.ends, v.timed0.waits,
  v.timed1.waits, v.longest,
)
  where
    v :
        IsTimed a.start_offset b.start_offset
          (walk p (setup_of p a) (setup_of p b) (walk_cells a) (walk_cells b) (start_sim a b))
    v =
        walk-IsTimed p a.start_offset b.start_offset (setup_of p a) (setup_of p b) (walk_cells a)
          (walk_cells b) (start_sim a b)
          (record {
            timed0 = record {
              in_order = tt;
              done = omega arith;
              ends = refl;
              ended = omega arith;
              waits = refl;
            };
            timed1 = record {
              in_order = tt;
              done = omega arith;
              ends = refl;
              ended = omega arith;
              waits = refl;
            };
            longest = omega arith;
          })
