-- ===== src/Interleave/Plan/Measures/Tests.antt =====
-- interleave/archplan.go: runs of the planner, and its theorems at a concrete plan.
use probatorium.Base.{
  ltb, ℕ, ◌+◌, ◌≤◌, ◌≡◌, ◌≢◌, refl, Bool, true, false, List, [], ◌∷◌, arith, All, map, max, IsSort,
  insertion_sort, insertion_sort-IsSort,
}
use probatorium.Interleave.Plan.{
  LockPolicy, off, heavy, all, heavy_rated, PlanCell, ArchPlan, PlanParams, PlanResult,
  simulate_arch_plan, walk_cells, setup_of,
}
use probatorium.Interleave.Plan.Measures.{overlaps, rated_under_heavy}
use probatorium.Interleave.Plan.Measures.Counts.{overlaps-all, overlaps-heavy}
use probatorium.Interleave.Plan.Sweeps.{
  Entry, entry_slot, entry_rated, rated_of, NoneShared, simulate-NoneShared,
}
use probatorium.Interleave.Plan.Walks.{simulate-Ran, slot_label, plan_label}
use probatorium.Interleave.Plan.Planned.{planned}
use probatorium.Interleave.Plan.Times.{simulate_times, InOrder, last_end, total_wait}
use probatorium.Interleave.Plan.Serial.{makespan-le, IsPart, serial_cost}
use probatorium.Interleave.Plan.Agreement.{plan-accepted, planned_violations}
use probatorium.Report.Overlap.{starts_before, longer}

abbrev cells : List PlanCell
cells =
    record { scenario = "get-json"; heavy = false; dur = 60; rated = 20 }
    ∷ record { scenario = "large-echo"; heavy = true; dur = 50; rated = 20 }
    ∷ record { scenario = "static"; heavy = false; dur = 40; rated = 10 }
    ∷ []

abbrev plan : Bool → ℕ → ArchPlan
plan reversed offset = record {
  columns =
      record { name = "celeris"; cells = cells } ∷ record { name = "gin"; cells = cells } ∷ [];
  reverse_cells = reversed;
  reverse_columns = false;
  start_offset = offset;
  column_setup = 0;
}

abbrev params : LockPolicy → PlanParams
params p = record { policy = p; cooldown = 5; column_setup = 8 }

abbrev both : LockPolicy → PlanResult
both p = simulate_arch_plan (plan false 0) (plan true 3) (params p)

-- With no lock the two arches walk in opposite orders, and heavy cells still meet.
both_off : overlaps (both off) ≡ record { heavy_heavy = 2; heavy_light = 4; light_light = 4 }
unfolding simulate_arch_plan overlaps
both_off = refl

-- The lock on heavy cells makes one of them wait.
both_heavy :
    (overlaps (both heavy) ≡ record { heavy_heavy = 0; heavy_light = 4; light_light = 5 })
    × ((both heavy).arch0.lock_wait ≡ 33)
    × ((both heavy).makespan ≡ 369)
unfolding simulate_arch_plan overlaps
both_heavy = (refl, refl, refl)

heavy_is_on : heavy ≢ off
heavy_is_on h = cc

overlaps-heavy_example : (overlaps (both heavy)).heavy_heavy ≡ 0
overlaps-heavy_example = overlaps-heavy (plan false 0) (plan true 3) (params heavy) heavy_is_on

overlaps-all_example :
    overlaps (both all) ≡ record { heavy_heavy = 0; heavy_light = 0; light_light = 0 }
overlaps-all_example = overlaps-all (plan false 0) (plan true 3) 5 8

-- A light cell that is all rated sweep, which begins at the instant 0, and a heavy cell beside it.
abbrev all_rated : Bool → ArchPlan
all_rated is_heavy = record {
  columns =
      record {
        name = "epoll";
        cells = record { scenario = "get"; heavy = is_heavy; dur = 30; rated = 30 } ∷ [];
      }
      ∷ [];
  reverse_cells = false;
  reverse_columns = false;
  start_offset = 0;
  column_setup = 0;
}

abbrev at_once : PlanResult
at_once =
    simulate_arch_plan (all_rated false) (all_rated true)
      (record { policy = heavy_rated; cooldown = 0; column_setup = 0 })

-- The sweep takes the lock, and the heavy cell waits for it.
sweep_at_zero : map (λ x. x.start) at_once.arch1.slots ≡ 30 ∷ []
unfolding simulate_arch_plan
sweep_at_zero = refl

simulate-NoneShared_example :
    ((es fs : List Entry) × (map entry_slot es ≡ at_once.arch0.slots)
      × (map entry_rated es ≡ planned rated_of (all_rated false))
      × (map entry_slot fs ≡ at_once.arch1.slots)
      × (map entry_rated fs ≡ planned rated_of (all_rated true))
      × NoneShared es fs)
    × (rated_under_heavy at_once ≡ record { cells = 0; pairs = 0; overlapped = 0 })
simulate-NoneShared_example = simulate-NoneShared (all_rated false) (all_rated true) 0 0

simulate-Ran_example :
    (map slot_label (both heavy).arch0.slots ≡ planned plan_label (plan false 0))
    × (map slot_label (both heavy).arch1.slots ≡ planned plan_label (plan true 3))
simulate-Ran_example = simulate-Ran (plan false 0) (plan true 3) (params heavy)

simulate_times_example :
    InOrder 0 (both heavy).arch0.slots
    × InOrder 3 (both heavy).arch1.slots
    × ((both heavy).arch0.arch_end ≡ last_end 0 (both heavy).arch0.slots)
    × ((both heavy).arch1.arch_end ≡ last_end 0 (both heavy).arch1.slots)
    × ((both heavy).arch0.lock_wait ≡ total_wait (both heavy).arch0.slots)
    × ((both heavy).arch1.lock_wait ≡ total_wait (both heavy).arch1.slots)
    × ((both heavy).makespan ≡ max (both heavy).arch0.arch_end (both heavy).arch1.arch_end)
simulate_times_example = simulate_times (plan false 0) (plan true 3) (params heavy)

parts : (reversed : Bool) (offset : ℕ) → All IsPart (walk_cells (plan reversed offset))
unfolding walk_cells
parts true offset = omega arith
parts false offset = omega arith

makespan-le_example :
    (both heavy_rated).makespan
    ≤ max 0 3
      + serial_cost
          (params heavy_rated)
          (setup_of (params heavy_rated) (plan false 0))
          (walk_cells (plan false 0))
      + serial_cost
          (params heavy_rated)
          (setup_of (params heavy_rated) (plan true 3))
          (walk_cells (plan true 3))
makespan-le_example =
    makespan-le (plan false 0) (plan true 3) (params heavy_rated) (parts false 0) (parts true 3)

ltb_asym : (a b : ℕ) → ltb a b ≡ true → ltb b a ≡ false
ltb_asym a b h = ground arith

ltb_trans : (a b c : ℕ) → ltb b a ≡ false → ltb c b ≡ false → ltb c a ≡ false
ltb_trans a b c h k = ground arith

starts_before-IsSort : IsSort starts_before (insertion_sort starts_before)
starts_before-IsSort =
    insertion_sort-IsSort starts_before (λ x y. ltb_asym x.start y.start)
      (λ x y z. ltb_trans x.start y.start z.start)

plan-accepted_example :
    (planned_violations
        (insertion_sort starts_before)
        (insertion_sort longer)
        all
        (plan false 0)
        (plan true 3)
        5
        8
        1
      ≡ 0)
    × (planned_violations
          (insertion_sort starts_before)
          (insertion_sort longer)
          heavy
          (plan false 0)
          (plan true 3)
          5
          8
          1
        ≡ 0)
plan-accepted_example =
    plan-accepted (insertion_sort starts_before) (insertion_sort longer) (plan false 0)
      (plan true 3) 5 8 1 starts_before-IsSort
