-- ===== src/Interleave/Plan/Walks.antt =====
-- interleave/archplan.go: which cells each arch runs in `SimulateArchPlan`, and when.
use probatorium.Base.{
  ℕ, ◌≡◌, refl, ◌∙◌, sym, ap, Bool, List, [], ◌∷◌, ◌++◌, arith, map, String, append_assoc,
  append-nil,
}
use mathlib.Core.List.{map-append}
use mathlib.Core.Path.{ap₂}
use probatorium.Interleave.Plan.Induction.{walk_ind}
use probatorium.Interleave.Plan.Planned.{planned, walk_cells-planned}
use probatorium.Interleave.Plan.{
  off, PlanParams, WalkCell, Slot, ArchResult, Sim, run_cell, advance0, advance1, add_slot, walk,
  needs_lock, start_sim, simulate_arch_plan, ArchPlan, walk_cells, setup_of, empty_arch, PlanCell,
}

-- What a slot says of the cell that ran in it.
pub record Label : Type 0 where
  pub column : String
  pub scenario : String
  pub heavy : Bool

abbrev pub slot_label : Slot → Label
slot_label x = record { column = x.column; scenario = x.scenario; heavy = x.heavy }

abbrev pub cell_label : WalkCell → Label
cell_label c = record { column = c.col; scenario = c.cell.scenario; heavy = c.cell.heavy }

-- The labels of the slots so far.
abbrev labels : ArchResult → List Label
labels a = map slot_label a.slots

module _ (p : PlanParams) (u : ℕ) (c : WalkCell) (s : Sim) where
  advance0-labels :
      (labels (advance0 p u c s).result.arch0 ≡ labels s.result.arch0 ++ cell_label c ∷ [])
      × (labels (advance0 p u c s).result.arch1 ≡ labels s.result.arch1)
  unfolding advance0
  advance0-labels = (map-append slot_label s.result.arch0.slots _, refl)

  advance1-labels :
      (labels (advance1 p u c s).result.arch1 ≡ labels s.result.arch1 ++ cell_label c ∷ [])
      × (labels (advance1 p u c s).result.arch0 ≡ labels s.result.arch0)
  unfolding advance1
  advance1-labels = (map-append slot_label s.result.arch1.slots _, refl)

-- `next` is `done` with one label more, and the walk of `cs` goes on from there.
labels-cons :
    (done : List Label) {next final : List Label} (c : WalkCell) (cs : List WalkCell)
    → next ≡ done ++ cell_label c ∷ []
    → final ≡ next ++ map cell_label cs
    → final ≡ done ++ map cell_label (c ∷ cs)
labels-cons done c cs e f = f ∙ ap (λ l. l ++ map cell_label cs) e ∙ append_assoc done _ _

-- Both arches have run the cells that they had left, in order.
abbrev Ran : List WalkCell → List WalkCell → Sim → Sim → Type 0
Ran cs ds s t =
    (labels t.result.arch0 ≡ labels s.result.arch0 ++ map cell_label cs)
    × (labels t.result.arch1 ≡ labels s.result.arch1 ++ map cell_label ds)

module _ (p : PlanParams) (u0 u1 : ℕ) where
  Ran-cons0 :
      (c : WalkCell) (cs ds : List WalkCell) (s t : Sim)
      → Ran cs ds (advance0 p u0 c s) t
      → Ran (c ∷ cs) ds s t
  Ran-cons0 c cs ds s t h =
      (labels-cons _ c cs (advance0-labels p u0 c s).0 h.0, rw (← (advance0-labels p u0 c s).1) h.1)

  Ran-cons1 :
      (d : WalkCell) (cs ds : List WalkCell) (s t : Sim)
      → Ran cs ds (advance1 p u1 d s) t
      → Ran cs (d ∷ ds) s t
  Ran-cons1 d cs ds s t h =
      (rw (← (advance1-labels p u1 d s).1) h.0, labels-cons _ d ds (advance1-labels p u1 d s).0 h.1)

  walk-Ran : (cs ds : List WalkCell) (s : Sim) → Ran cs ds s (walk p u0 u1 cs ds s)
  walk-Ran =
      walk_ind p u0 u1 Ran (λ s. (sym (append-nil _), sym (append-nil _))) Ran-cons0 Ran-cons1

abbrev pub plan_label : String → PlanCell → Label
plan_label name x = record { column = name; scenario = x.scenario; heavy = x.heavy }

-- Under every policy each arch runs every cell of its plan exactly once, whatever the other arch
-- does: its slots name, one for one and in this order, the cells of the plan's columns, where the
-- columns stand in their order or, if the plan reverses them, in the reverse one, and so do the
-- cells of each column.
pub simulate-Ran :
    (a b : ArchPlan) (p : PlanParams)
    → (map slot_label (simulate_arch_plan a b p).arch0.slots ≡ planned plan_label a)
      × (map slot_label (simulate_arch_plan a b p).arch1.slots ≡ planned plan_label b)
unfolding simulate_arch_plan start_sim
simulate-Ran a b p =
    let ran =
      walk-Ran p (setup_of p a) (setup_of p b) (walk_cells a) (walk_cells b) (start_sim a b) in
    (ran.0 ∙ walk_cells-planned plan_label a, ran.1 ∙ walk_cells-planned plan_label b)

-- One arch's walk by itself, with no lock: the slots it runs and the result so far.
solo : PlanParams → ℕ → ℕ → List WalkCell → ArchResult → ArchResult
solo p u ready [] a = a
solo p u ready (c ∷ cs) a =
    let run = run_cell p u 0 ready c in solo p u run.ready cs (add_slot a run.slot)

module _ (cooldown column_setup : ℕ) where
  abbrev free : PlanParams
  free = record { policy = off; cooldown = cooldown; column_setup = column_setup }

  -- With no lock a cell's slot does not depend on when the lock is free, and does not wait.
  run_cell-off :
      (u lock_free ready : ℕ) (c : WalkCell)
      → (run_cell free u lock_free ready c).slot ≡ (run_cell free u 0 ready c).slot
  unfolding run_cell needs_lock
  run_cell-off u lock_free ready c = ground arith

  run_cell_ready-off :
      (u lock_free ready : ℕ) (c : WalkCell)
      → (run_cell free u lock_free ready c).ready ≡ (run_cell free u 0 ready c).ready
  unfolding run_cell needs_lock
  run_cell_ready-off u lock_free ready c = ground arith

  run_cell_waited-off :
      (u lock_free ready : ℕ) (c : WalkCell) → (run_cell free u lock_free ready c).slot.waited ≡ 0
  unfolding run_cell needs_lock
  run_cell_waited-off u lock_free ready c = ground arith

  abbrev Solo : ℕ → ℕ → List WalkCell → List WalkCell → Sim → Sim → Type 0
  Solo u0 u1 cs ds s t =
      (t.result.arch0 ≡ solo free u0 s.ready0 cs s.result.arch0)
      × (t.result.arch1 ≡ solo free u1 s.ready1 ds s.result.arch1)

  solo-step :
      (u lock_free ready : ℕ) (c : WalkCell) (cs : List WalkCell) (a : ArchResult)
      → solo free u
          (run_cell free u lock_free ready c).ready
          cs
          (add_slot a (run_cell free u lock_free ready c).slot)
        ≡ solo free u ready (c ∷ cs) a
  unfolding solo
  solo-step u lock_free ready c cs a =
      ap₂ (λ r x. solo free u r cs (add_slot a x)) (run_cell_ready-off u lock_free ready c)
        (run_cell-off u lock_free ready c)

  walk-Solo :
      (u0 u1 : ℕ) (cs ds : List WalkCell) (s : Sim) → Solo u0 u1 cs ds s (walk free u0 u1 cs ds s)
  unfolding advance0 advance1
  walk-Solo u0 u1 =
      walk_ind free u0 u1 (Solo u0 u1) (λ s. unfold solo in (refl, refl))
        (λ c cs ds s t ih. (ih.0 ∙ solo-step u0 s.lock_free s.ready0 c cs s.result.arch0, ih.1))
        (λ d cs ds s t ih. (ih.0, ih.1 ∙ solo-step u1 s.lock_free s.ready1 d ds s.result.arch1))

  solo-lock_wait :
      (u ready : ℕ) (cs : List WalkCell) (a : ArchResult)
      → (solo free u ready cs a).lock_wait ≡ a.lock_wait
  unfolding solo add_slot
  solo-lock_wait u ready [] a = refl
  solo-lock_wait u ready (c ∷ cs) a = omega (
    arith,
    solo-lock_wait u (run_cell free u 0 ready c).ready cs
        (add_slot a (run_cell free u 0 ready c).slot),
    run_cell_waited-off u 0 ready c,
  )

  simulate-solo :
      (a b : ArchPlan)
      → ((simulate_arch_plan a b free).arch0
          ≡ solo free (setup_of free a) a.start_offset (walk_cells a) empty_arch)
        × ((simulate_arch_plan a b free).arch1
            ≡ solo free (setup_of free b) b.start_offset (walk_cells b) empty_arch)
  unfolding simulate_arch_plan start_sim
  simulate-solo a b =
      walk-Solo (setup_of free a) (setup_of free b) (walk_cells a) (walk_cells b) (start_sim a b)

-- With the lock off an arch's slots, its end and its lock wait depend on its own plan alone: not
-- on the plan of the other arch, and not on which of the two it is. It never waits for the lock.
pub simulate-off :
    (a b b' : ArchPlan) (cooldown setup : ℕ)
    → let p : PlanParams = record { policy = off; cooldown = cooldown; column_setup = setup } in
      ((simulate_arch_plan a b p).arch0 ≡ (simulate_arch_plan a b' p).arch0)
      × ((simulate_arch_plan a b p).arch0 ≡ (simulate_arch_plan b' a p).arch1)
      × ((simulate_arch_plan a b p).arch0.lock_wait ≡ 0)
simulate-off a b b' cooldown setup =
    let ours = (simulate-solo cooldown setup a b).0 in
    (
      ours ∙ sym ((simulate-solo cooldown setup a b').0),
      ours ∙ sym ((simulate-solo cooldown setup b' a).1),
      ap (λ r. r.lock_wait) ours ∙ solo-lock_wait cooldown setup _ _ (walk_cells a) empty_arch,
    )
