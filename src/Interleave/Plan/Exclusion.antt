-- ===== src/Interleave/Plan/Exclusion.antt =====
-- interleave/archplan.go: what the client lock excludes in `SimulateArchPlan`.
use probatorium.Base.{ℕ, ◌≤◌, ◌≡◌, ◌==◌, if◌then◌else◌, ◌||◌, not, Bool, true, List, All, arith}
use probatorium.Interleave.Plan.Induction.{walk_ind}
use probatorium.Interleave.Plan.Lock
use probatorium.Interleave.Plan.{
  LockPolicy, off, heavy, all, heavy_rated, PlanParams, WalkCell, Slot, CellRun, Sim, run_cell,
  advance0, advance1, add_slot, walk, needs_lock, start_sim, simulate_arch_plan, ArchPlan,
  walk_cells, setup_of,
}

-- Whether the lock was held for some of a slot's load, and from when; it was held until its end.
abbrev pub holds : LockPolicy → Slot → Bool
holds heavy_rated x = x.heavy || not (x.rated_start == 0)
holds p x = needs_lock p x.heavy

abbrev pub held_from : LockPolicy → Slot → ℕ
held_from heavy_rated x = if x.heavy then x.start else x.rated_start
held_from p x = x.start

abbrev slot_end : Slot → ℕ
slot_end x = x.end

abbrev FreeBy : LockPolicy → ℕ → Slot → Type 0
FreeBy p = Lock.FreeBy (holds p) (held_from p) slot_end

-- The two slots do not hold the lock at one time.
abbrev pub Apart : LockPolicy → Slot → Slot → Type 0
Apart p = Lock.Apart (holds p) (held_from p) slot_end

abbrev pub AllApart : LockPolicy → List Slot → List Slot → Type 0
AllApart p = Lock.AllApart (holds p) (held_from p) slot_end

pub record Inv (p : LockPolicy) (s : Sim) : Type 0 where
  pub free0 : All (FreeBy p s.lock_free) s.result.arch0.slots
  pub free1 : All (FreeBy p s.lock_free) s.result.arch1.slots
  pub apart : AllApart p s.result.arch0.slots s.result.arch1.slots

module _ (cooldown column_setup setup lock_free ready : ℕ) (wc : WalkCell) where
  abbrev ran : LockPolicy → CellRun
  ran p =
      run_cell (record { policy = p; cooldown = cooldown; column_setup = column_setup }) setup
        lock_free ready wc

  ran-lock_free : (p : LockPolicy) → lock_free ≤ (ran p).lock_free
  unfolding run_cell
  ran-lock_free off = ground arith
  ran-lock_free heavy = ground arith
  ran-lock_free all = ground arith
  ran-lock_free heavy_rated = ground arith

  ran-held :
      (p : LockPolicy)
      → holds p (ran p).slot ≡ true
      → (lock_free ≤ held_from p (ran p).slot) × ((ran p).slot.end ≤ (ran p).lock_free)
  unfolding run_cell
  ran-held off h = cc
  ran-held heavy h = ground arith
  ran-held all h = ground arith
  ran-held heavy_rated h = ground arith

module _ (p : PlanParams) (setup : ℕ) (c : WalkCell) (s : Sim) (v : Inv p.policy s) where
  advance0-Inv : Inv p.policy (advance0 p setup c s)
  unfolding advance0 add_slot
  advance0-Inv = record {
    free0 =
        Lock.All-FreeBy-new (holds p.policy) (held_from p.policy) slot_end s.lock_free _ _ later
          held s.result.arch0.slots v.free0;
    free1 =
        Lock.All-FreeBy-later (holds p.policy) (held_from p.policy) slot_end s.lock_free _ _ later
          held s.result.arch1.slots v.free1;
    apart =
        Lock.AllApart-new (holds p.policy) (held_from p.policy) slot_end s.lock_free _ _ later held
          s.result.arch0.slots s.result.arch1.slots v.free1 v.apart;
  }
    where
      later : s.lock_free ≤ (run_cell p setup s.lock_free s.ready0 c).lock_free
      later = ran-lock_free p.cooldown p.column_setup setup s.lock_free s.ready0 c p.policy

      held :
          holds p.policy (run_cell p setup s.lock_free s.ready0 c).slot ≡ true
          → (s.lock_free ≤ held_from p.policy (run_cell p setup s.lock_free s.ready0 c).slot)
            × ((run_cell p setup s.lock_free s.ready0 c).slot.end
                ≤ (run_cell p setup s.lock_free s.ready0 c).lock_free)
      held = ran-held p.cooldown p.column_setup setup s.lock_free s.ready0 c p.policy

  advance1-Inv : Inv p.policy (advance1 p setup c s)
  unfolding advance1 add_slot
  advance1-Inv = record {
    free0 =
        Lock.All-FreeBy-later (holds p.policy) (held_from p.policy) slot_end s.lock_free _ _ later
          held s.result.arch0.slots v.free0;
    free1 =
        Lock.All-FreeBy-new (holds p.policy) (held_from p.policy) slot_end s.lock_free _ _ later
          held s.result.arch1.slots v.free1;
    apart =
        Lock.AllApart-new' (holds p.policy) (held_from p.policy) slot_end s.lock_free _ _ later held
          s.result.arch0.slots s.result.arch1.slots v.free0 v.apart;
  }
    where
      later : s.lock_free ≤ (run_cell p setup s.lock_free s.ready1 c).lock_free
      later = ran-lock_free p.cooldown p.column_setup setup s.lock_free s.ready1 c p.policy

      held :
          holds p.policy (run_cell p setup s.lock_free s.ready1 c).slot ≡ true
          → (s.lock_free ≤ held_from p.policy (run_cell p setup s.lock_free s.ready1 c).slot)
            × ((run_cell p setup s.lock_free s.ready1 c).slot.end
                ≤ (run_cell p setup s.lock_free s.ready1 c).lock_free)
      held = ran-held p.cooldown p.column_setup setup s.lock_free s.ready1 c p.policy

walk-Inv :
    (p : PlanParams) (setup0 setup1 : ℕ) (cs ds : List WalkCell) (s : Sim)
    → Inv p.policy s
    → Inv p.policy (walk p setup0 setup1 cs ds s)
walk-Inv p u0 u1 =
    walk_ind p u0 u1 (λ cs ds s t. Inv p.policy s → Inv p.policy t) (λ s v. v)
      (λ c cs ds s t ih v. ih (advance0-Inv p u0 c s v))
      (λ d cs ds s t ih v. ih (advance1-Inv p u1 d s v))

-- No slot of one arch holds the client lock while a slot of the other does.
pub simulate-AllApart :
    (a b : ArchPlan) (p : PlanParams)
    → AllApart p.policy
        (simulate_arch_plan a b p).arch0.slots
        (simulate_arch_plan a b p).arch1.slots
unfolding simulate_arch_plan start_sim
simulate-AllApart a b p =
    (walk-Inv p (setup_of p a) (setup_of p b) (walk_cells a) (walk_cells b) (start_sim a b)
      (record { free0 = tt; free1 = tt; apart = tt })).apart
